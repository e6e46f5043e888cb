-- ===== src/Qos/Predict.antt =====
-- `predict_quality` of server/app_qos/signatures.py. A quotient is exact and rounded down.
use Prim.Native.Nat.{◌/◌}
use Prim.Native.String.{◌++◌ as ◌+++◌}
use pathwiseai.Prelude.{
  ℕ, ◌*◌, String, Bool, true, Option, none, some, List, [], ◌∷◌, ltb, leb, ◌==◌, ◌&&◌,
  if◌then◌else◌,
}
use pathwiseai.Prelude.Dict.{lookup}
use pathwiseai.Qos.Tiers.{QualityTier}
use pathwiseai.Qos.Signatures.{app_signatures}

pub record Prediction : Type 0 where
  pub label : String
  pub score : ℕ
  pub min_mbps : ℕ
  pub max_mbps : ℕ
  pub allocated_mbps : ℕ

abbrev is_better : QualityTier → Option QualityTier → Bool
is_better t none = true
is_better t (some best) = ltb best.min_mbps t.min_mbps

-- One round of the loop that looks for the highest tier whose bandwidth is reached.
abbrev pub next_best : ℕ → QualityTier → Option QualityTier → Option QualityTier
next_best mbps t best = if leb t.min_mbps mbps && is_better t best then some t else best

unfoldable pub best_tier : ℕ → List QualityTier → Option QualityTier → Option QualityTier
best_tier mbps [] best = best
best_tier mbps (t ∷ tiers) best = best_tier mbps tiers (next_best mbps t best)

-- `min(tiers, key=…)` of a list that starts with `worst`: the first of the tiers that need the least
unfoldable pub worst_tier : QualityTier → List QualityTier → QualityTier
worst_tier worst [] = worst
worst_tier worst (t ∷ tiers) = worst_tier (if ltb t.min_mbps worst.min_mbps then t else worst) tiers

unfoldable pub below : ℕ → QualityTier → Prediction
below mbps worst = record {
  label = "Below " +++ worst.label;
  score = if worst.min_mbps == 0 then 0 else (worst.score * mbps) / worst.min_mbps;
  min_mbps = 0;
  max_mbps = worst.min_mbps;
  allocated_mbps = mbps;
}

unfoldable pub of_tier : ℕ → QualityTier → Prediction
of_tier mbps best = record {
  label = best.label;
  score = best.score;
  min_mbps = best.min_mbps;
  max_mbps = best.max_mbps;
  allocated_mbps = mbps;
}

-- The prediction for the tier that was found, or for a bandwidth below every tier.
abbrev pub for_best : ℕ → QualityTier → Option QualityTier → Prediction
for_best mbps worst none = below mbps worst
for_best mbps worst (some best) = of_tier mbps best

unfoldable pub predict_tiers : ℕ → List QualityTier → Prediction
predict_tiers mbps [] = record {
  label = "Unknown";
  score = 50;
  min_mbps = 0;
  max_mbps = 0;
  allocated_mbps = mbps;
}
predict_tiers mbps (t ∷ tiers) =
    for_best mbps (worst_tier t tiers) (best_tier mbps (t ∷ tiers) none)

unfoldable pub predict_quality : String → ℕ → Option Prediction
unfolding predict_tiers lookup
predict_quality app_id mbps = elim (lookup app_id app_signatures) [
  | none ↦ none
  | some sig ↦ some (predict_tiers mbps sig.quality_tiers)
]
