-- ===== src/Service/Decisions.antt =====
-- Which traffic services/traffic-steering/steering_engine.py moves, and where to.
use pathwiseai.Prelude.{
  ◌≡◌, refl, ap, sym, Bool, true, false, not, Option, none, some, List, [], ◌∷◌, all, any, All, ltb,
  leb, ◌&&◌, str_eq, eq_refl, arith, Bool-cases, Option-cases, inl, inr,
}
use pathwiseai.Service.Engine.{
  SteeringDecision, Entry, warning_threshold, best_link, is_critical, is_degrading, failover, shift,
  decide, add, collect, evaluate, Streams, validate_in_sandbox, execute,
}
use pathwiseai.Service.Best.{best_link-top, best_link-any, any-later, any-here}

-- A decision of the round over `p`: from a link that is below the warning threshold to another one,
-- of which no link has a higher score.
abbrev pub is_improvement : List Entry → SteeringDecision → Bool
is_improvement p d =
    not (str_eq d.target_link d.source_link)
    && (any (λ x. str_eq x.0 d.source_link && ltb x.1.health_score warning_threshold) p
        && any (λ y. str_eq y.0 d.target_link && all (λ z. leb z.1.health_score y.1.health_score) p)
            p)

abbrev Found : List Entry → Entry → Type 0
Found p x = (q : Entry → Bool) → q x ≡ true → any q p ≡ true

-- What a decision says of the link it was made for.
decide-ends :
    (b x : Entry) (d : SteeringDecision)
    → decide (some b) x ≡ some d
    → (d.source_link ≡ x.0)
      × (d.target_link ≡ b.0)
      × (str_eq b.0 x.0 ≡ false)
      × (ltb x.1.health_score warning_threshold ≡ true)
decide-ends b x d made = elim (Bool-cases (str_eq b.0 x.0)) [
  | inl same ↦ absurd (let nothing : none ≡ some d = rw same at made in cc)
  | inr apart ↦ elim (Bool-cases (is_critical x.1)) [
    | inl low ↦
        let e : failover x b.0 ≡ d =
          (let h : some (failover x b.0) ≡ some d = rw (apart, low) at made in cc) in
        (sym (ap (λ c. c.source_link) e), sym (ap (λ c. c.target_link) e), apart, ground arith)
    | inr fair ↦ elim (Bool-cases (is_degrading x.1)) [
      | inl falling ↦
          let e : shift x b.0 ≡ d =
            (let h : some (shift x b.0) ≡ some d = rw (apart, fair, falling) at made in cc) in
          (sym (ap (λ c. c.source_link) e), sym (ap (λ c. c.target_link) e), apart, ground arith)
      | inr steady ↦ absurd (let nothing : none ≡ some d = rw (apart, fair, steady) at made in cc)
    ]
  ]
]

decide-improves :
    (p : List Entry) (b x : Entry) (d : SteeringDecision)
    → best_link p ≡ some b
    → Found p x
    → decide (some b) x ≡ some d
    → is_improvement p d ≡ true
decide-improves p b x d best found made =
    let (source, target, apart, low) = decide-ends b x d made in
    let from =
      found (λ e. str_eq e.0 x.0 && ltb e.1.health_score warning_threshold)
        (rw (eq_refl x.0, low) refl) in
    let to =
      best_link-any (λ y. str_eq y.0 b.0 && all (λ z. leb z.1.health_score y.1.health_score) p) p b
        best (rw (eq_refl b.0, best_link-top p b best) refl) in
    rw (source, target, apart, from, to) refl

add-all :
    (test : SteeringDecision → Bool) (o : Option SteeringDecision) (ds : List SteeringDecision)
    → ((d : SteeringDecision) → o ≡ some d → test d ≡ true)
    → all test ds ≡ true
    → all test (add o ds) ≡ true
add-all test none ds h rest = rest
add-all test (some d) ds h rest = rw (h d refl, rest) refl

collect-all :
    (f : Entry → Option SteeringDecision) (test : SteeringDecision → Bool) (xs : List Entry)
    → All (λ x. (d : SteeringDecision) → f x ≡ some d → test d ≡ true) xs
    → all test (collect f xs) ≡ true
collect-all f test [] h = refl
collect-all f test (x ∷ xs) (hx, hs) =
    add-all test (f x) (collect f xs) hx (collect-all f test xs hs)

All-Found :
    (p : List Entry) (P : Entry → Type 0) (xs : List Entry)
    → ((x : Entry) → Found p x → P x)
    → ((q : Entry → Bool) → any q xs ≡ true → any q p ≡ true)
    → All P xs
All-Found p P [] h within = tt
All-Found p P (x ∷ xs) h within = (
  h x (λ q holds. within q (any-here q x xs holds)),
  All-Found p P xs h (λ q held. within q (any-later q x xs held)),
)

-- Each decision of a round moves traffic away from a link below the warning threshold, to another
-- link of which no link of the round has a higher score.
pub evaluate-improves : (p : List Entry) → all (is_improvement p) (evaluate p) ≡ true
unfolding evaluate
evaluate-improves p = collect-all (decide (best_link p)) (is_improvement p) p (
    All-Found p
      (λ x. (d : SteeringDecision) → decide (best_link p) x ≡ some d → is_improvement p d ≡ true) p
      (λ x found d made. elim (Option-cases (best_link p)) [
        | inl nothing ↦ absurd (let h : none ≡ some d = rw nothing at made in cc)
        | inr (b, best) ↦ decide-improves p b x d best found (rw best at made)
      ])
      (λ q held. held))

-- The sandbox never stops a decision: what the SDN client answers is the result.
execute-installed :
    (installed : Bool) (d : SteeringDecision) (s : Streams) → (execute installed d s).0 ≡ installed
unfolding execute validate_in_sandbox
execute-installed installed d s = elim (Bool-cases d.requires_sandbox_validation) [
  | inl asked ↦ rw asked refl
  | inr direct ↦ rw direct refl
]
