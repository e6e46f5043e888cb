-- ===== src/Qos/Quality.antt =====
-- More bandwidth never makes the predicted quality of server/app_qos/signatures.py worse.
use Prim.Native.Nat.{◌/◌}
use mathlib.Core.Path.{subst}
use native.Mathlib.Nat.{
  le_trans, mul_comm, mul-le-mul_left, mul-le-mul_right, mul-div-le, le-div_iff_mul-le,
  div-le_of_le-mul,
}
use pathwiseai.Prelude.{
  ℕ, ◌*◌, ◌≤◌, ◌<◌, ◌≡◌, refl, String, true, Option, none, some, List, [], ◌∷◌, ltb, leb, ◌==◌,
  ◌&&◌, arith, Option-cases, Bool-cases, inl, inr,
}
use pathwiseai.Prelude.Dict.{lookup, all-lookup}
use pathwiseai.Qos.Tiers.{QualityTier, AppSignature}
use pathwiseai.Qos.Signatures.{app_signatures}
use pathwiseai.Qos.Predict.{
  Prediction, next_best, best_tier, worst_tier, below, of_tier, for_best, predict_tiers,
  predict_quality,
}
use pathwiseai.Qos.Ladder.{
  is_ladder, is_sorted, ladders, IsAtLeast, IsUpTo, best_tier-le, worst_tier-sorted, IsAbove,
  best_tier-IsAbove,
}

below-le : (m n : ℕ) (t : QualityTier) → m ≤ n → (below m t).score ≤ (below n t).score
unfolding below
below-le m n t le = elim (Bool-cases (t.min_mbps == 0)) [
  | inl free ↦ rw free (omega arith)
  | inr costs ↦
      let up : t.score * m ≤ t.score * n = mul-le-mul_left t.score le in
      let down : (t.score * m / t.min_mbps) * t.min_mbps ≤ t.score * m =
        rw (mul_comm (t.score * m / t.min_mbps) t.min_mbps) (mul-div-le (t.score * m) t.min_mbps) in
      let positive : 0 < t.min_mbps = ground arith in
      rw costs ((le-div_iff_mul-le positive).1 (le_trans down up))
]

below-top : (m : ℕ) (t : QualityTier) → m < t.min_mbps → (below m t).score ≤ t.score
unfolding below
below-top m t lt = elim (Bool-cases (t.min_mbps == 0)) [
  | inl free ↦ rw free (omega arith)
  | inr costs ↦
      let up : m * t.score ≤ t.min_mbps * t.score = mul-le-mul_right t.score (omega arith) in
      rw costs (div-le_of_le-mul t.min_mbps (rw (mul_comm t.score m) up))
]

abbrev IsFound : Option QualityTier → Type 0
IsFound none = ⊥
IsFound (some x) = Unit

best_tier-IsFound :
    (m : ℕ) (tiers : List QualityTier) (x : QualityTier) → IsFound (best_tier m tiers (some x))
unfolding best_tier
best_tier-IsFound m [] x = tt
best_tier-IsFound m (u ∷ tiers) x =
    elim (Bool-cases (leb u.min_mbps m && ltb x.min_mbps u.min_mbps)) [
      | inl up ↦ rw up (best_tier-IsFound m tiers u)
      | inr stay ↦ rw stay (best_tier-IsFound m tiers x)
    ]

-- No tier is found only below the first one.
none_below :
    (m : ℕ) (t : QualityTier) (tiers : List QualityTier)
    → best_tier m (t ∷ tiers) none ≡ none
    → m < t.min_mbps
unfolding best_tier
none_below m t tiers h = elim (Bool-cases (leb t.min_mbps m)) [
  | inl reached ↦
      let found : best_tier m tiers (some t) ≡ none = rw reached at h in
      absurd (subst IsFound found (best_tier-IsFound m tiers t))
  | inr missed ↦ ground arith
]

-- The score for the tier that was found, or for none.
abbrev found_score : ℕ → QualityTier → Option QualityTier → ℕ
found_score m t none = (below m t).score
found_score m t (some best) = best.score

found_score-le :
    (m n : ℕ) (t : QualityTier) (a b : Option QualityTier)
    → m ≤ n
    → IsAtLeast a b
    → (a ≡ none → m < t.min_mbps)
    → IsAbove t.score b
    → found_score m t a ≤ found_score n t b
found_score-le m n t none none le h low up = below-le m n t le
found_score-le m n t none (some y) le h low up = le_trans (below-top m t (low refl)) up
found_score-le m n t (some x) none le h low up = absurd h
found_score-le m n t (some x) (some y) le h low up = h

for_best-score :
    (m : ℕ) (t worst : QualityTier) (found : Option QualityTier)
    → worst ≡ t
    → (for_best m worst found).score ≡ found_score m t found
unfolding of_tier
for_best-score m t worst none e = rw e refl
for_best-score m t worst (some best) e = refl

predict_tiers-score :
    (m : ℕ) (t : QualityTier) (tiers : List QualityTier)
    → is_sorted t tiers ≡ true
    → (predict_tiers m (t ∷ tiers)).score ≡ found_score m t (best_tier m (t ∷ tiers) none)
unfolding predict_tiers of_tier
predict_tiers-score m t tiers sorted =
    for_best-score m t (worst_tier t tiers) (best_tier m (t ∷ tiers) none)
      (worst_tier-sorted t tiers sorted)

predict_tiers-le :
    (m n : ℕ) (tiers : List QualityTier)
    → is_ladder tiers ≡ true
    → m ≤ n
    → (predict_tiers m tiers).score ≤ (predict_tiers n tiers).score
unfolding predict_tiers best_tier
predict_tiers-le m n [] ladder le = omega arith
predict_tiers-le m n (t ∷ tiers) ladder le =
    let sorted : is_sorted t tiers ≡ true = ground arith in
    let a = next_best m t none in
    let b = next_best n t none in
    let up_a : IsUpTo t a = ground arith in
    let up_b : IsUpTo t b = ground arith in
    let first : IsAtLeast a b = ground arith in
    let above : IsAbove t.score b = ground arith in
    rw (predict_tiers-score m t tiers sorted, predict_tiers-score n t tiers sorted)
      (found_score-le m n t (best_tier m tiers a) (best_tier n tiers b) le
        (best_tier-le m n t tiers a b le sorted up_a up_b first) (none_below m t tiers)
        (best_tier-IsAbove n t.score t tiers b sorted (omega arith) above))

predict_quality-found :
    (app_id : String) (m : ℕ) (sig : AppSignature) (p : Prediction)
    → lookup app_id app_signatures ≡ some sig
    → predict_quality app_id m ≡ some p
    → predict_tiers m sig.quality_tiers ≡ p
unfolding predict_quality
predict_quality-found app_id m sig p found h =
    let known : predict_quality app_id m ≡ some (predict_tiers m sig.quality_tiers) =
      rw (found, predict_quality) refl in
    cc

-- For every known application the predicted score does not fall when the allocated bandwidth grows.
pub predict_quality-le :
    (app_id : String) (m n : ℕ) (p q : Prediction)
    → predict_quality app_id m ≡ some p
    → predict_quality app_id n ≡ some q
    → m ≤ n
    → p.score ≤ q.score
unfolding predict_quality
predict_quality-le app_id m n p q at_m at_n le =
    elim (Option-cases (lookup app_id app_signatures)) [
      | inl unknown ↦
          absurd
            (let gone : predict_quality app_id m ≡ none = rw (unknown, predict_quality) refl in cc)
      | inr (sig, found) ↦
          let ladder =
            all-lookup (λ (s : AppSignature). is_ladder s.quality_tiers) app_id app_signatures sig
              ladders found in
          let p_is : predict_tiers m sig.quality_tiers ≡ p =
            predict_quality-found app_id m sig p found at_m in
          let q_is : predict_tiers n sig.quality_tiers ≡ q =
            predict_quality-found app_id n sig q found at_n in
          rw (← p_is, ← q_is) (predict_tiers-le m n sig.quality_tiers ladder le)
    ]
