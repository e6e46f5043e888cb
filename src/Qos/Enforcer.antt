-- ===== src/Qos/Enforcer.antt =====
-- The allocations of server/app_qos/bandwidth_enforcer.py.
-- A bandwidth is in hundredths of a megabit per second, a share in thousandths; the numbers behind
-- a decimal point are exact. `round` is Python's: the numerator and the denominator of a quotient
-- give a whole number. A negative bandwidth is not modelled.
use pathwiseai.Prelude.{
  ℕ, ◌+◌, ◌*◌, String, Bool, not, Option, none, some, [], ◌∷◌, map, leb, ◌==◌, str_eq,
  if◌then◌else◌,
}
use pathwiseai.Prelude.Dict.{Dict, lookup}
use pathwiseai.Qos.Tiers.{PriorityClass, priority_classes}
use pathwiseai.Qos.Predict.{Prediction, predict_quality}

-- An entry of `allocations`; bandwidth_pct is in tenths of a percent.
pub record Allocation : Type 0 where
  pub app_id : String
  pub priority : String
  pub allocated_mbps : ℕ
  pub bandwidth_pct : ℕ
  pub quality : Option Prediction
  pub enforced : Bool

-- `total_mbps or TOTAL_LINK_MBPS`
abbrev pub total_or : ℕ → Option ℕ → ℕ
total_or link none = link
total_or link (some total) = if total == 0 then link else total

abbrev pct_of : Option PriorityClass → ℕ
pct_of none = 0
pct_of (some cls) = cls.bandwidth_pct

abbrev class_or_normal : Option PriorityClass → Option PriorityClass
class_or_normal none = lookup "NORMAL" priority_classes
class_or_normal (some cls) = some cls

-- `PRIORITY_CLASSES.get(pclass, PRIORITY_CLASSES["NORMAL"])["bandwidth_pct"]`
abbrev pub share : String → ℕ
share pclass = pct_of (class_or_normal (lookup pclass priority_classes))

unfoldable pub total_pct : Dict String → ℕ
total_pct [] = 0
total_pct ((app_id, pclass) ∷ d) = share pclass + total_pct d

-- `scale` divides by this: shares that add up to more than the whole link are scaled down.
abbrev pub whole_pct : ℕ → ℕ
whole_pct pct = if leb pct 1000 then 1000 else pct

module _ (round : ℕ → ℕ → ℕ) (mode : String) where
  -- The entry of an app whose share is `pct` of `whole`.
  abbrev pub allocation : ℕ → ℕ → String × String → String × Allocation
  allocation whole total (app_id, pclass) =
      let mbps = round (share pclass * total) whole in
      (
        app_id,
        record {
          app_id = app_id;
          priority = pclass;
          allocated_mbps = mbps;
          bandwidth_pct = round (share pclass * 1000) whole;
          quality = predict_quality app_id mbps;
          enforced = not (str_eq mode "simulate");
        },
      )

  abbrev pub no_allocation : String × String → String × Allocation
  no_allocation (app_id, pclass) = (
    app_id,
    record {
      app_id = app_id;
      priority = pclass;
      allocated_mbps = 0;
      bandwidth_pct = 0;
      quality = predict_quality app_id 0;
      enforced = not (str_eq mode "simulate");
    },
  )

  unfoldable pub compute_allocations : Dict String → ℕ → Dict Allocation
  compute_allocations priorities total =
      if total_pct priorities == 0
      then map no_allocation priorities
      else map (allocation (whole_pct (total_pct priorities)) total) priorities
