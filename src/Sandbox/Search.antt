-- ===== src/Sandbox/Search.antt =====
-- The loop search of server/sandbox.py ends on every topology within its fuel.
use pathwiseai.Prelude.{
  ℕ, zero, suc, ◌+◌, ◌≤◌, ◌<◌, ◌≡◌, refl, Bool, true, false, not, Option, none, some, List, [], ◌∷◌,
  ◌++◌, map, arith, length, length-append, select, length-select-le, contains, contains-append,
  ◌==◌, ==_iff, Bool-cases, inl, inr,
}
use pathwiseai.Sandbox.Topology.{
  Topology, Link, Node, Marks, Visit, adjacent, to_set, node_ids, is_parent, search_neighbours,
  leave, dfs, search_nodes, search_fuel, find_loop,
}

abbrev Subset : List ℕ → List ℕ → Type 0
Subset xs ys = (x : ℕ) → contains x xs ≡ true → contains x ys ≡ true

-- The number of places of the list whose node was not visited.
abbrev unvisited : List ℕ → List ℕ → ℕ
unvisited universe visited = length (select (λ x. not (contains x visited)) universe)

unvisited-le :
    (universe xs ys : List ℕ) → Subset xs ys → unvisited universe ys ≤ unvisited universe xs
unvisited-le [] xs ys sub = omega arith
unvisited-le (u ∷ us) xs ys sub = ground (arith, sub u, unvisited-le us xs ys sub)

unvisited-lt :
    (universe : List ℕ) (v : ℕ) (visited : List ℕ)
    → contains v universe ≡ true
    → contains v visited ≡ false
    → unvisited universe (v ∷ visited) < unvisited universe visited
unvisited-lt [] v visited held fresh = absurd (cc)
unvisited-lt (u ∷ us) v visited held fresh =
    let rest = unvisited-le us visited (v ∷ visited) (λ x h. ground arith) in
    elim (Bool-cases (u == v)) [
      | inl same ↦ (let e = (==_iff u v).0 same in ground (arith, e, rest))
      | inr other ↦ ground (arith, unvisited-lt us v visited, rest)
    ]

-- A search that returns, having visited no less than before.
abbrev Returns : List ℕ → Option (Bool × Marks) → Type 0
Returns visited o = (b : Bool) × (m : Marks) × (o ≡ some (b, m)) × Subset visited m.visited

module _ (universe : List ℕ) where
  abbrev IsVisit : ℕ → Visit → Type 0
  IsVisit fuel visit =
      (v : ℕ) (parent : Option ℕ) (m : Marks)
      → contains v universe ≡ true
      → contains v m.visited ≡ false
      → unvisited universe m.visited < fuel
      → Returns m.visited (visit v parent m)

  -- The round of a neighbour that is visited, from the rounds of the later neighbours.
  visit-Returns :
      (visit : Visit) (v : ℕ) (parent : Option ℕ) (nb : ℕ) (nbs : List ℕ) (m : Marks)
      → is_parent parent nb ≡ false
      → contains nb m.visited ≡ false
      → ((m' : Marks)
          → Subset m.visited m'.visited
          → Returns m'.visited (search_neighbours visit v parent nbs m'))
      → (b : Bool) (m' : Marks) → visit nb (some v) m ≡ some (b, m')
      → Subset m.visited m'.visited
      → Returns m.visited (search_neighbours visit v parent (nb ∷ nbs) m)
  unfolding search_neighbours
  visit-Returns visit v parent nb nbs m forth new rest true m' returns more =
      rw (forth, new, returns) (true, m', refl, more)
  visit-Returns visit v parent nb nbs m forth new rest false m' returns more =
      let (b, m'', ends, more') = rest m' more in
      rw (forth, new, returns) (b, m'', ends, λ x h. more' x (more x h))

  neighbours_return :
      (fuel : ℕ) (visit : Visit)
      → IsVisit fuel visit
      → (v : ℕ) (parent : Option ℕ) (nbs : List ℕ) → Subset nbs universe
      → (m : Marks) → unvisited universe m.visited < fuel
      → Returns m.visited (search_neighbours visit v parent nbs m)
  unfolding search_neighbours
  neighbours_return fuel visit ends v parent [] sub m enough = (false, m, refl, λ x h. h)
  neighbours_return fuel visit ends v parent (nb ∷ nbs) sub m enough =
      let sub' : Subset nbs universe = λ x h. sub x (ground arith) in
      let skip = neighbours_return fuel visit ends v parent nbs sub' m enough in
      elim (Bool-cases (is_parent parent nb)) [
        | inl back ↦ rw back skip
        | inr forth ↦ elim (Bool-cases (contains nb m.visited)) [
          | inl old ↦ elim (Bool-cases (contains nb m.rec_stack)) [
            | inl above ↦ rw (forth, old, above) (true, m, refl, λ x h. h)
            | inr aside ↦ rw (forth, old, aside) skip
          ]
          | inr new ↦
              let (b, m', returns, more) =
                ends nb (some v) m (sub nb (ground (arith, ==_iff nb nb))) new enough in
              visit-Returns visit v parent nb nbs m forth new
                (λ m'' more'.
                  neighbours_return fuel visit ends v parent nbs sub' m''
                    (let fewer = unvisited-le universe m.visited m''.visited more' in omega arith))
                b m' returns more
        ]
      ]

  leave-Returns :
      (v : ℕ) (visited : List ℕ) (b : Bool) (m : Marks)
      → Subset visited m.visited
      → Returns visited (leave v (some (b, m)))
  leave-Returns v visited true m more = (true, m, refl, more)
  leave-Returns v visited false m more = (false, _, refl, more)

  module _ (adj : ℕ → List ℕ) (closed : (v : ℕ) → Subset (adj v) universe) where
    dfs-IsVisit : (fuel : ℕ) → IsVisit fuel (dfs adj fuel)
    unfolding dfs
    dfs-IsVisit zero v parent m held fresh enough = absurd (omega arith)
    dfs-IsVisit (suc fuel) v parent m held fresh enough =
        let m' : Marks = record { visited = v ∷ m.visited; rec_stack = v ∷ m.rec_stack } in
        let fewer = unvisited-lt universe v m.visited held fresh in
        let (b, m'', ends, more) =
          neighbours_return fuel (dfs adj fuel) (dfs-IsVisit fuel) v parent (adj v) (closed v) m'
            (omega arith) in
        rw ends (leave-Returns v m.visited b m'' (λ x h. more x (ground arith)))

    -- The round of a node that was not visited, from the rounds of the later nodes.
    node_returns :
        (fuel n : ℕ) (nodes : List ℕ) (m : Marks)
        → contains n m.visited ≡ false
        → ((m' : Marks)
            → Subset m.visited m'.visited
            → (b : Bool) × (search_nodes adj fuel nodes m' ≡ some b))
        → (b : Bool) (m' : Marks) → dfs adj fuel n none m ≡ some (b, m')
        → Subset m.visited m'.visited
        → (b' : Bool) × (search_nodes adj fuel (n ∷ nodes) m ≡ some b')
    unfolding search_nodes
    node_returns fuel n nodes m new rest true m' returns more = (true, rw (new, returns) refl)
    node_returns fuel n nodes m new rest false m' returns more =
        let (b, ends) = rest m' more in (b, rw (new, returns) ends)

    nodes_return :
        (fuel : ℕ) (nodes : List ℕ)
        → Subset nodes universe
        → (m : Marks) → unvisited universe m.visited < fuel
        → (b : Bool) × (search_nodes adj fuel nodes m ≡ some b)
    unfolding search_nodes
    nodes_return fuel [] sub m enough = (false, refl)
    nodes_return fuel (n ∷ nodes) sub m enough =
        let sub' : Subset nodes universe = λ x h. sub x (ground arith) in
        elim (Bool-cases (contains n m.visited)) [
          | inl old ↦ let (b, ends) = nodes_return fuel nodes sub' m enough in (b, rw old ends)
          | inr new ↦
              let (b, m', returns, more) =
                dfs-IsVisit fuel n none m (sub n (ground (arith, ==_iff n n))) new enough in
              node_returns fuel n nodes m new
                (λ m'' more'.
                  nodes_return fuel nodes sub' m''
                    (let fewer = unvisited-le universe m.visited m''.visited more' in omega arith))
                b m' returns more
        ]

-- The nodes of a topology: those listed and the ends of the links.
abbrev ends_of : List Link → List ℕ
ends_of [] = []
ends_of (l ∷ links) = l.src ∷ l.dst ∷ ends_of links

abbrev universe_of : Topology → List ℕ
universe_of t = map (λ n. n.id) t.nodes ++ ends_of t.links

length-ends_of : (links : List Link) → length (ends_of links) ≡ length links + length links
length-ends_of [] = omega arith
length-ends_of (l ∷ links) = omega (arith, length-ends_of links)

length-ids : (nodes : List Node) → length (map (λ n. n.id) nodes) ≡ length nodes
length-ids [] = refl
length-ids (n ∷ nodes) = omega (arith, length-ids nodes)

adjacent-ends_of : (links : List Link) (v : ℕ) → Subset (adjacent links v) (ends_of links)
unfolding adjacent
adjacent-ends_of [] v x h = h
adjacent-ends_of (l ∷ links) v x h = ground (arith, adjacent-ends_of links v x)

to_set-Subset : (xs : List ℕ) → Subset (to_set xs) xs
to_set-Subset [] x h = h
to_set-Subset (y ∷ ys) x h = ground (arith, to_set-Subset ys x)

-- On every topology, whatever its nodes and links, the loop search returns: the fuel does not run
-- out.
pub find_loop_returns : (t : Topology) → (b : Bool) × (find_loop t ≡ some b)
unfolding find_loop search_fuel
find_loop_returns t =
    let universe = universe_of t in
    nodes_return universe (adjacent t.links)
      (λ v x h. ground (
        arith,
        contains-append x (map (λ n. n.id) t.nodes) (ends_of t.links),
        adjacent-ends_of t.links v x h,
      ))
      (search_fuel t) (node_ids t)
      (λ x h. ground (
        arith,
        contains-append x (map (λ n. n.id) t.nodes) (ends_of t.links),
        to_set-Subset (map (λ n. n.id) t.nodes) x h,
      ))
      (record { visited = []; rec_stack = [] })
      (omega (
        arith,
        length-select-le (λ x. not (contains x [])) universe,
        length-append (map (λ (n : Node). n.id) t.nodes) (ends_of t.links),
        length-ends_of t.links,
        length-ids t.nodes,
      ))
