-- ===== src/State/Queries.antt =====
-- The queries of `AppState` in server/state.py. Times are whole numbers of microseconds, measured
-- values count thousandths.
use pathwiseai.Prelude.{
  ℕ, ◌-◌, String, ◌≡◌, refl, Bool, not, Option, none, some, List, [], ◌∷◌, length, drop, select,
  any, ◌==◌, ◌&&◌, ◌||◌, str_eq, if◌then◌else◌, arith,
}
use pathwiseai.Prelude.Dict.{Dict, lookup}

pub record ActiveRoutingRule : Type 0 where
  pub id : String
  pub source_link : String
  pub target_link : String
  pub traffic_classes : List String
  pub applied_at : ℕ
  pub sandbox_report_id : String
  pub status : String

pub record TelemetryPoint : Type 0 where
  pub timestamp : ℕ
  pub link_id : String
  pub latency : ℕ
  pub jitter : ℕ
  pub packet_loss : ℕ
  pub bandwidth_util : ℕ
  pub rtt : ℕ

pub record AppState : Type 0 where
  pub telemetry : Dict (List TelemetryPoint)
  pub effective_telemetry : Dict (List TelemetryPoint)
  pub routing_rules : List ActiveRoutingRule

abbrev is_active : ActiveRoutingRule → Bool
is_active r = str_eq r.status "active"

unfoldable pub get_active_rules : AppState → List ActiveRoutingRule
get_active_rules s = select is_active s.routing_rules

unfoldable pub get_rules_affecting_link : String → AppState → List ActiveRoutingRule
get_rules_affecting_link link s =
    select (λ r. is_active r && (str_eq r.source_link link || str_eq r.target_link link))
      s.routing_rules

unfoldable pub is_traffic_diverted_from : String → AppState → Bool
is_traffic_diverted_from link s =
    any (λ r. str_eq r.source_link link && is_active r) s.routing_rules

unfoldable pub is_traffic_diverted_to : String → AppState → Bool
is_traffic_diverted_to link s = any (λ r. str_eq r.target_link link && is_active r) s.routing_rules

-- `items[-count:]`, which is the whole list for the count 0.
unfoldable pub latest : ℕ → List TelemetryPoint → List TelemetryPoint
latest count items = if count == 0 then items else drop (length items - count) items

abbrev buffer : Option (List TelemetryPoint) → List TelemetryPoint
buffer none = []
buffer (some items) = items

unfoldable pub get_latest_telemetry : String → ℕ → AppState → List TelemetryPoint
unfolding latest
get_latest_telemetry link count s = latest count (buffer (lookup link s.telemetry))

unfoldable pub get_latest_effective : String → ℕ → AppState → List TelemetryPoint
unfolding latest
get_latest_effective link count s = latest count (buffer (lookup link s.effective_telemetry))

any-or-select :
    (link : String) (rules : List ActiveRoutingRule)
    → (any (λ r. str_eq r.source_link link && is_active r) rules
        || any (λ r. str_eq r.target_link link && is_active r) rules)
      ≡ not (
          length (
            select
              (λ r. is_active r && (str_eq r.source_link link || str_eq r.target_link link))
              rules)
          == 0)
any-or-select link [] = refl
any-or-select link (r ∷ rules) = ground (arith, any-or-select link rules)

-- Traffic is diverted from or to a link exactly if an active rule affects the link.
diverted_or_unaffected :
    (link : String) (s : AppState)
    → (is_traffic_diverted_from link s || is_traffic_diverted_to link s)
      ≡ not (length (get_rules_affecting_link link s) == 0)
unfolding is_traffic_diverted_from is_traffic_diverted_to get_rules_affecting_link
diverted_or_unaffected link s = any-or-select link s.routing_rules
