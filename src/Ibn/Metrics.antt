-- ===== src/Ibn/Metrics.antt =====
-- The choice of links of server/ibn_engine.py.
use pathwiseai.Prelude.{
  ℕ, String, Bool, true, false, Option, none, some, List, [], ◌∷◌, ltb, ◌&&◌, str_eq, if◌then◌else◌,
}
use pathwiseai.Prelude.Dict.{lookup}
use pathwiseai.State.Queries.{TelemetryPoint, get_latest_effective}
use pathwiseai.Ibn.Defs.{Network}

-- `points[-1]`
abbrev last_point : List TelemetryPoint → Option TelemetryPoint
last_point [] = none
last_point (p ∷ []) = some p
last_point (p ∷ q ∷ ps) = last_point (q ∷ ps)

-- `getattr(latest, metric, None)`, for the fields that are numbers.
abbrev field_of : String → TelemetryPoint → Option ℕ
field_of metric p =
    if str_eq metric "latency_ms"
    then some p.latency
    else if str_eq metric "jitter_ms"
    then some p.jitter
    else if str_eq metric "packet_loss_pct"
    then some p.packet_loss
    else if str_eq metric "bandwidth_util_pct"
    then some p.bandwidth_util
    else if str_eq metric "rtt_ms"
    then some p.rtt
    else if str_eq metric "timestamp"
    then some p.timestamp
    else none

abbrev field_of_last : String → Option TelemetryPoint → Option ℕ
field_of_last metric none = none
field_of_last metric (some p) = field_of metric p

unfoldable pub get_link_metric : String → String → Network → Option ℕ
get_link_metric link metric n =
    field_of_last metric (last_point (get_latest_effective link 5 n.app_state))

-- A value that is below the threshold and below the best one so far.
abbrev is_better : ℕ → Option (String × ℕ) → ℕ → Bool
is_better threshold none val = ltb val threshold
is_better threshold (some (link, best)) val = ltb val threshold && ltb val best

abbrev next_best : String → ℕ → Option (String × ℕ) → Option ℕ → Option (String × ℕ)
next_best link threshold best none = best
next_best link threshold best (some val) =
    if is_better threshold best val then some (link, val) else best

abbrev is_excluded : String → Option String → Bool
is_excluded link none = false
is_excluded link (some exclude) = str_eq link exclude

abbrev link_of : Option (String × ℕ) → Option String
link_of none = none
link_of (some (link, val)) = some link

unfoldable pub best_from :
    Network → String → ℕ → Option String → List String → Option (String × ℕ) → Option (String × ℕ)
best_from n metric threshold exclude [] best = best
best_from n metric threshold exclude (link ∷ links) best =
    let best' =
      if is_excluded link exclude
      then best
      else next_best link threshold best (get_link_metric link metric n) in
    best_from n metric threshold exclude links best'

abbrev pub find_best_link_for_metric : Network → String → ℕ → Option String → Option String
find_best_link_for_metric n metric threshold exclude =
    link_of (best_from n metric threshold exclude n.active_links none)

-- The best score starts below 0.
abbrev is_healthier : Option (String × ℕ) → ℕ → Bool
is_healthier none score = true
is_healthier (some (link, best)) score = ltb best score

abbrev next_healthiest : String → Option (String × ℕ) → Option ℕ → Option (String × ℕ)
next_healthiest link best none = best
next_healthiest link best (some score) =
    if is_healthier best score then some (link, score) else best

unfoldable pub healthiest_from :
    Network → Option String → List String → Option (String × ℕ) → Option (String × ℕ)
healthiest_from n exclude [] best = best
healthiest_from n exclude (link ∷ links) best =
    let best' =
      if is_excluded link exclude
      then best
      else next_healthiest link best (lookup link n.health_scores) in
    healthiest_from n exclude links best'

abbrev pub find_healthiest_link : Network → Option String → Option String
find_healthiest_link n exclude = link_of (healthiest_from n exclude n.active_links none)
