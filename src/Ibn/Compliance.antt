-- ===== src/Ibn/Compliance.antt =====
-- What an intent of server/ibn_engine.py demands, and where traffic is steered when it is violated.
use pathwiseai.Prelude.{
  ℕ, String, Bool, true, false, Option, none, some, List, [], ◌∷◌, ltb, if◌then◌else◌,
}
use pathwiseai.Prelude.Dict.{lookup}
use pathwiseai.State.Queries.{is_traffic_diverted_from}
use pathwiseai.Ibn.Defs.{
  IntentStatus, paused, deleted, IntentAction, prioritize, ensure_latency, ensure_jitter,
  ensure_loss, ensure_bandwidth, block, redirect, deprioritize, throttle_app, prioritize_app,
  prioritize_over, selective_degrade, ParsedIntent, Violation, exceeds, unhealthy, still_active,
  not_redirected, Network, truthy, concerns,
}
use pathwiseai.Ibn.Metrics.{get_link_metric, find_best_link_for_metric, find_healthiest_link}

-- The value of a link that is above the threshold.
abbrev pub over : ℕ → Option ℕ → Option ℕ
over threshold none = none
over threshold (some val) = if ltb threshold val then some val else none

abbrev pub exceeding : String → String → ℕ → Option ℕ → Option Violation
exceeding link metric threshold none = none
exceeding link metric threshold (some val) = some (exceeds link metric val threshold)

abbrev pub or_next : {A : Type 0} → Option A → Option A → Option A
or_next none later = later
or_next (some a) later = some a

-- The loop over the links for a metric that is to stay at most at the threshold.
unfoldable pub first_over : Network → String → ℕ → Option String → List String → Option Violation
first_over n metric threshold preferred [] = none
first_over n metric threshold preferred (link ∷ links) =
    let rest = first_over n metric threshold preferred links in
    if concerns preferred link
    then or_next (exceeding link metric threshold (over threshold (get_link_metric link metric n)))
        rest
    else rest

abbrev pub ensured : Network → ParsedIntent → String → Option ℕ → Option Violation
ensured n p metric none = none
ensured n p metric (some threshold) =
    first_over n metric threshold (truthy p.preferred_link) n.active_links

abbrev low_health : String → ℕ → Option ℕ → Option ℕ
low_health link limit none = none
low_health link limit (some score) = if ltb score limit then some score else none

abbrev prioritized : Network → Option String → Option Violation
prioritized n none = none
prioritized n (some link) = elim (low_health link 40000 (lookup link n.health_scores)) [
  | none ↦ none
  | some score ↦ some (unhealthy link score)
]

abbrev blocked : Network → Option String → Option Violation
blocked n none = none
blocked n (some link) =
    if is_traffic_diverted_from link n.app_state
    then none
    else elim (low_health link 60000 (lookup link n.health_scores)) [
      | none ↦ none
      | some score ↦ some (still_active link)
    ]

abbrev redirected : Network → Option String → Option Violation
redirected n none = none
redirected n (some link) =
    if is_traffic_diverted_from link n.app_state then none else some (not_redirected link)

-- `violated` with its detail, by the action.
abbrev pub violation_for : Network → ParsedIntent → IntentAction → Option Violation
violation_for n p ensure_latency = ensured n p "latency_ms" p.threshold
violation_for n p ensure_jitter = ensured n p "jitter_ms" p.threshold
violation_for n p ensure_loss = ensured n p "packet_loss_pct" p.threshold
violation_for n p prioritize = prioritized n (truthy p.preferred_link)
violation_for n p block = blocked n (truthy p.avoid_link)
violation_for n p redirect = redirected n (truthy p.source_link)
violation_for n p ensure_bandwidth = none
violation_for n p deprioritize = none
violation_for n p throttle_app = none
violation_for n p prioritize_app = none
violation_for n p prioritize_over = none
violation_for n p selective_degrade = none

abbrev pub violation_of : Network → ParsedIntent → Option Violation
violation_of n p = violation_for n p p.action

abbrev pub is_one_shot : IntentAction → Bool
is_one_shot selective_degrade = true
is_one_shot throttle_app = true
is_one_shot prioritize_app = true
is_one_shot prioritize_over = true
is_one_shot _ = false

abbrev pub is_idle : IntentStatus → Bool
is_idle deleted = true
is_idle paused = true
is_idle _ = false

abbrev first_source : Network → String → ℕ → List String → Option String
first_source n metric threshold [] = none
first_source n metric threshold (link ∷ links) =
    let rest = first_source n metric threshold links in
    elim (over threshold (get_link_metric link metric n)) [ none ↦ rest | some val ↦ some link ]

abbrev with_source : Option String → Option String → Option (String × String)
with_source (some source) (some target) = some (source, target)
with_source (some source) none = none
with_source none target = none

-- From the first link above the threshold to the best one below it, or else to the healthiest one.
abbrev ensured_route : Network → String → ℕ → Option String → Option (String × String)
ensured_route n metric threshold none = none
ensured_route n metric threshold (some source) = with_source (some source) (
    truthy (
      or_next (truthy (find_best_link_for_metric n metric threshold (some source)))
        (find_healthiest_link n (some source))))

abbrev measured_route : Network → Option String → Option ℕ → Option (String × String)
measured_route n (some metric) (some threshold) =
    ensured_route n metric threshold (truthy (first_source n metric threshold n.active_links))
measured_route n (some metric) none = none
measured_route n none threshold = none

abbrev preferred_route : Network → Option String → Option (String × String)
preferred_route n none = none
preferred_route n (some link) =
    with_source (truthy (find_healthiest_link n (some link))) (some link)

abbrev away_route : Network → Option String → Option (String × String)
away_route n none = none
away_route n (some link) = with_source (some link) (truthy (find_healthiest_link n (some link)))

-- `source` and `target`, when both are set.
abbrev pub route_for : Network → ParsedIntent → IntentAction → Option (String × String)
route_for n p ensure_latency = measured_route n (truthy p.metric) p.threshold
route_for n p ensure_jitter = measured_route n (truthy p.metric) p.threshold
route_for n p ensure_loss = measured_route n (truthy p.metric) p.threshold
route_for n p prioritize = preferred_route n (truthy p.preferred_link)
route_for n p redirect = with_source (truthy p.source_link) (truthy p.target_link)
route_for n p block = away_route n (truthy p.avoid_link)
route_for n p _ = none
