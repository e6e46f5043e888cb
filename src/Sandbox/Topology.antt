-- ===== src/Sandbox/Topology.antt =====
-- The topology of a steering proposal and the loop detector of server/sandbox.py.
-- Node ids are numbers. The code compares their decimal texts, which comes to the same.
use pathwiseai.Prelude.{
  ℕ, zero, suc, ◌+◌, String, Bool, true, false, not, Option, none, some, List, [], ◌∷◌, ◌++◌, map,
  ◌==◌, ◌&&◌, length, contains, if◌then◌else◌,
}
use pathwiseai.Prelude.Text.{lower, codes_eq}

-- `mapping.get(name.lower(), default)`, for ASCII names and a mapping with keys in lower case.
abbrev pub get_lower {ℓ} : {V : Type ℓ} → String → V → List (String × V) → V
get_lower name default [] = default
get_lower name default ((k, v) ∷ mapping) =
    let rest = get_lower name default mapping in if codes_eq (lower name) (lower k) then v else rest

unfoldable pub link_to_node_id : String → ℕ
link_to_node_id link_name = get_lower link_name 1 (
    ("fiber", 1)
    ∷ ("fiber-primary", 1)
    ∷ ("broadband", 2)
    ∷ ("broadband-secondary", 2)
    ∷ ("satellite", 3)
    ∷ ("satellite-backup", 3)
    ∷ ("5g", 4)
    ∷ ("5g-mobile", 4)
    ∷ ("wifi", 5)
    ∷ [])

pub record Node : Type 0 where
  pub id : ℕ
  pub name : String

pub record Link : Type 0 where
  pub src : ℕ
  pub dst : ℕ
  pub bw_mbps : ℕ
  pub delay_ms : ℕ
  pub loss_pct : ℕ

pub record Topology : Type 0 where
  pub nodes : List Node
  pub links : List Link

unfoldable pub build_topology_snapshot : String → String → Topology
build_topology_snapshot source target =
    let src_id = link_to_node_id source in
    let dst_id = link_to_node_id target in
    record {
      nodes = record { id = src_id; name = source } ∷ record { id = dst_id; name = target } ∷ [];
      links = record { src = src_id; dst = dst_id; bw_mbps = 100; delay_ms = 5; loss_pct = 0 } ∷ [];
    }

-- The set of the node ids, each at the place where it stands last.
abbrev pub to_set : List ℕ → List ℕ
to_set [] = []
to_set (x ∷ xs) = let rest = to_set xs in if contains x xs then rest else x ∷ rest

abbrev pub node_ids : Topology → List ℕ
node_ids t = to_set (map (λ n. n.id) t.nodes)

-- `adj.get(v, [])` after the loop over the links: a link is entered at both ends, a self-loop once.
unfoldable pub adjacent : List Link → ℕ → List ℕ
adjacent [] v = []
adjacent (l ∷ links) v =
    (if l.src == v then l.dst ∷ [] else [])
    ++ ((if not (l.src == l.dst) && l.dst == v then l.src ∷ [] else []) ++ adjacent links v)

-- The two sets that the search mutates.
pub record Marks : Type 0 where
  pub visited : List ℕ
  pub rec_stack : List ℕ

abbrev pub is_parent : Option ℕ → ℕ → Bool
is_parent none nb = false
is_parent (some p) nb = nb == p

-- `rec_stack.discard(v)`
abbrev pub discard : ℕ → List ℕ → List ℕ
discard v [] = []
discard v (x ∷ xs) = let rest = discard v xs in if x == v then rest else x ∷ rest

abbrev pub Visit : Type 0
Visit = ℕ → Option ℕ → Marks → Option (Bool × Marks)

-- The loop of `dfs` over the neighbours of `v`. `visit` is the recursive call.
unfoldable pub search_neighbours : Visit → ℕ → Option ℕ → List ℕ → Marks → Option (Bool × Marks)
search_neighbours visit v parent [] m = some (false, m)
search_neighbours visit v parent (nb ∷ nbs) m =
    let skip = search_neighbours visit v parent nbs m in
    if is_parent parent nb
    then skip
    else if not (contains nb m.visited)
    then elim (visit nb (some v) m) [
      | none ↦ none
      | some (true, m') ↦ some (true, m')
      | some (false, m') ↦ search_neighbours visit v parent nbs m'
    ]
    else if contains nb m.rec_stack
    then some (true, m)
    else skip

abbrev pub leave : ℕ → Option (Bool × Marks) → Option (Bool × Marks)
leave v none = none
leave v (some (true, m)) = some (true, m)
leave v (some (false, m)) = some (false, record m { rec_stack = discard v m.rec_stack })

-- `dfs`, on fuel: `none` means that the fuel ran out.
unfoldable pub dfs : (ℕ → List ℕ) → ℕ → Visit
unfolding search_neighbours
dfs adj zero v parent m = none
dfs adj (suc fuel) v parent m = leave v (
    search_neighbours (dfs adj fuel) v parent (adj v)
      (record { visited = v ∷ m.visited; rec_stack = v ∷ m.rec_stack }))

-- The loop over the nodes, and whether it found a loop.
unfoldable pub search_nodes : (ℕ → List ℕ) → ℕ → List ℕ → Marks → Option Bool
unfolding dfs
search_nodes adj fuel [] m = some false
search_nodes adj fuel (n ∷ nodes) m =
    let skip = search_nodes adj fuel nodes m in
    if contains n m.visited then skip else elim (dfs adj fuel n none m) [
      | none ↦ none
      | some (true, m') ↦ some true
      | some (false, m') ↦ search_nodes adj fuel nodes m'
    ]

-- Each nested call visits a node that was not visited: there are two ends of each link and the nodes.
unfoldable pub search_fuel : Topology → ℕ
search_fuel t = length t.nodes + length t.links + length t.links + 1

unfoldable pub find_loop : Topology → Option Bool
unfolding search_nodes adjacent search_fuel
find_loop t =
    search_nodes (adjacent t.links) (search_fuel t) (node_ids t)
      (record { visited = []; rec_stack = [] })
