-- ===== src/Qos/Ladder.antt =====
-- The tiers of server/app_qos/signatures.py rise in bandwidth and in score, and so does the choice.
use pathwiseai.Prelude.{
  ℕ, ◌≤◌, ◌≡◌, refl, Bool, true, false, Option, none, some, List, [], ◌∷◌, ltb, leb, ◌&&◌, all,
  arith,
}
use pathwiseai.Prelude.Dict.{values}
use pathwiseai.Qos.Tiers.{QualityTier, AppSignature}
use pathwiseai.Qos.Signatures.{app_signatures}
use pathwiseai.Qos.Predict.{next_best, best_tier, worst_tier}

-- Tiers in increasing order of bandwidth and of score.
abbrev pub is_sorted : QualityTier → List QualityTier → Bool
is_sorted t [] = true
is_sorted t (u ∷ tiers) = ltb t.min_mbps u.min_mbps && leb t.score u.score && is_sorted u tiers

abbrev pub is_ladder : List QualityTier → Bool
is_ladder [] = true
is_ladder (t ∷ tiers) = ltb 0 t.min_mbps && is_sorted t tiers

pub ladders : all (λ (s : AppSignature). is_ladder s.quality_tiers) (values app_signatures) ≡ true
ladders = refl

-- A tier that was found is at least as good as one that was found for less bandwidth.
abbrev pub IsAtLeast : Option QualityTier → Option QualityTier → Type 0
IsAtLeast none b = Unit
IsAtLeast (some t) none = ⊥
IsAtLeast (some t) (some u) = t.score ≤ u.score

-- The tier found so far, if there is one, is below a tier or is that tier.
abbrev pub IsUpTo : QualityTier → Option QualityTier → Type 0
IsUpTo t none = Unit
IsUpTo t (some u) = (u.min_mbps ≤ t.min_mbps) × (u.score ≤ t.score)

next_best-le :
    (m n : ℕ) (t u : QualityTier) (a b : Option QualityTier)
    → m ≤ n
    → (ltb t.min_mbps u.min_mbps && leb t.score u.score) ≡ true
    → IsUpTo t a
    → IsUpTo t b
    → IsAtLeast a b
    → IsAtLeast (next_best m u a) (next_best n u b)
next_best-le m n t u none none le step up_a up_b h = ground arith
next_best-le m n t u none (some y) le step up_a up_b h = ground arith
next_best-le m n t u (some x) none le step up_a up_b h = absurd h
next_best-le m n t u (some x) (some y) le step up_a up_b h = ground arith

next_best-up :
    (m : ℕ) (t u : QualityTier) (a : Option QualityTier)
    → (ltb t.min_mbps u.min_mbps && leb t.score u.score) ≡ true
    → IsUpTo t a
    → IsUpTo u (next_best m u a)
next_best-up m t u none step up = ground arith
next_best-up m t u (some x) step up = ground arith

pub best_tier-le :
    (m n : ℕ) (t : QualityTier) (tiers : List QualityTier) (a b : Option QualityTier)
    → m ≤ n
    → is_sorted t tiers ≡ true
    → IsUpTo t a
    → IsUpTo t b
    → IsAtLeast a b
    → IsAtLeast (best_tier m tiers a) (best_tier n tiers b)
unfolding best_tier
best_tier-le m n t [] a b le sorted up_a up_b h = h
best_tier-le m n t (u ∷ tiers) a b le sorted up_a up_b h =
    let step : (ltb t.min_mbps u.min_mbps && leb t.score u.score) ≡ true = ground arith in
    best_tier-le m n u tiers (next_best m u a) (next_best n u b) le (ground arith)
      (next_best-up m t u a step up_a) (next_best-up n t u b step up_b)
      (next_best-le m n t u a b le step up_a up_b h)

is_sorted_skip :
    (t u : QualityTier) (tiers : List QualityTier)
    → is_sorted t (u ∷ tiers) ≡ true
    → is_sorted t tiers ≡ true
is_sorted_skip t u [] sorted = refl
is_sorted_skip t u (v ∷ tiers) sorted = ground arith

pub worst_tier-sorted :
    (t : QualityTier) (tiers : List QualityTier) → is_sorted t tiers ≡ true → worst_tier t tiers ≡ t
unfolding worst_tier
worst_tier-sorted t [] sorted = refl
worst_tier-sorted t (u ∷ tiers) sorted =
    let stays : ltb u.min_mbps t.min_mbps ≡ false = ground arith in
    rw stays (worst_tier-sorted t tiers (is_sorted_skip t u tiers sorted))

abbrev pub IsAbove : ℕ → Option QualityTier → Type 0
IsAbove k none = Unit
IsAbove k (some x) = k ≤ x.score

next_best-IsAbove :
    (m k : ℕ) (u : QualityTier) (a : Option QualityTier)
    → k ≤ u.score
    → IsAbove k a
    → IsAbove k (next_best m u a)
next_best-IsAbove m k u none le h = ground arith
next_best-IsAbove m k u (some x) le h = ground arith

pub best_tier-IsAbove :
    (m k : ℕ) (t : QualityTier) (tiers : List QualityTier) (a : Option QualityTier)
    → is_sorted t tiers ≡ true
    → k ≤ t.score
    → IsAbove k a
    → IsAbove k (best_tier m tiers a)
unfolding best_tier
best_tier-IsAbove m k t [] a sorted le h = h
best_tier-IsAbove m k t (u ∷ tiers) a sorted le h =
    let le' : k ≤ u.score = ground arith in
    best_tier-IsAbove m k u tiers (next_best m u a) (ground arith) le'
      (next_best-IsAbove m k u a le' h)
