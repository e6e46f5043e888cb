-- ===== src/Ibn/Check.antt =====
-- The check of an intent and the steering that follows it, in server/ibn_engine.py. Each call of
-- `time.time()` is an argument of its own.
use Prim.Native.String.{◌++◌ as ◌+++◌}
use pathwiseai.Prelude.{
  ℕ, ◌+◌, ◌-◌, String, Bool, Option, none, some, List, [], ◌∷◌, take, ltb, ◌||◌, str_eq,
  if◌then◌else◌, arith,
}
use pathwiseai.Prelude.Dict.{Dict, lookup, insert}
use pathwiseai.Prelude.Text.{decimal, take_chars}
use pathwiseai.State.Queries.{is_traffic_diverted_from}
use pathwiseai.Ibn.Defs.{
  IntentStatus, active, compliant, violated, auto_steering, NetworkIntent, Violation, SteeringEvent,
  Network, auto_steer_cooldown,
}
use pathwiseai.Ibn.Compliance.{violation_of, is_one_shot, is_idle, route_for}

-- `_last_auto_steer` beside the network.
pub record Engine : Type 0 where
  pub last_auto_steer : Dict ℕ
  pub network : Network

-- The calls of `time.time()` in one check, in the order of the code.
pub record Clock : Type 0 where
  pub checked : ℕ
  pub guard : ℕ
  pub event : ℕ
  pub stored : ℕ

abbrev pub with_status : IntentStatus → NetworkIntent → NetworkIntent
with_status status i = record i { status = status }

abbrev pub checked_at : ℕ → NetworkIntent → NetworkIntent
checked_at now i = record i { last_checked = now }

abbrev pub with_violation : Violation → NetworkIntent → NetworkIntent
with_violation v i = record i { violation_count = i.violation_count + 1; last_violation = some v }

abbrev steered : NetworkIntent → NetworkIntent
steered i = record i { status = auto_steering; auto_steer_count = i.auto_steer_count + 1 }

-- `",".join(texts)`
abbrev joined : List String → String
joined [] = ""
joined (s ∷ []) = s
joined (s ∷ t ∷ rest) = s +++ "," +++ joined (t ∷ rest)

-- The event of an intent whose count is already raised.
abbrev event_of : ℕ → NetworkIntent → Network → String → String → SteeringEvent
event_of now i n source target = record {
  id = "ibn-" +++ i.id +++ "-" +++ decimal i.auto_steer_count;
  timestamp = now;
  action = "IBN_AUTO_STEER";
  source_link = source;
  target_link = target;
  traffic_classes = joined i.parsed.traffic_classes;
  confidence = 900;
  reason = (take_chars 60 i.raw_text, i.last_violation);
  status = "executed";
  lstm_enabled = n.lstm_enabled;
}

-- `deque(maxlen=200).appendleft(event)`
abbrev with_event : SteeringEvent → Network → Network
with_event event n = record n { steering_history = take 200 (event ∷ n.steering_history) }

abbrev pub steer_over :
    ℕ → NetworkIntent → Network → Option (String × String) → NetworkIntent × Network
steer_over now i n none = (i, n)
steer_over now i n (some (source, target)) =
    if str_eq source target || is_traffic_diverted_from source n.app_state
    then (i, n)
    else (steered i, with_event (event_of now (steered i) n source target) n)

unfoldable pub auto_steer_for_intent : ℕ → NetworkIntent → Network → NetworkIntent × Network
auto_steer_for_intent now i n = steer_over now i n (route_for n i.parsed i.parsed.action)

-- `_last_auto_steer.get(intent.id, 0)`
abbrev pub since_start : Option ℕ → ℕ
since_start none = 0
since_start (some at) = at

abbrev pub is_rested : ℕ → String → Engine → Bool
is_rested now id e = ltb auto_steer_cooldown (now - since_start (lookup id e.last_auto_steer))

abbrev pub settled : IntentStatus → IntentStatus
settled violated = compliant
settled auto_steering = compliant
settled active = compliant
settled status = status

abbrev pub steer_now : Clock → NetworkIntent → Engine → NetworkIntent × Engine
steer_now t i e =
    let (i', n') = auto_steer_for_intent t.event (with_status violated i) e.network in
    (i', record { last_auto_steer = insert i.id t.stored e.last_auto_steer; network = n' })

-- The status that follows from the violation that was found.
abbrev pub judged : Clock → NetworkIntent → Engine → Option Violation → NetworkIntent × Engine
judged t i e none = (with_status (settled i.status) i, e)
judged t i e (some v) =
    let i' = with_violation v i in
    if is_rested t.guard i.id e then steer_now t i' e else (with_status auto_steering i', e)

unfoldable pub check_intent_compliance : Clock → NetworkIntent → Engine → NetworkIntent × Engine
check_intent_compliance t i e =
    if is_idle i.status
    then (i, e)
    else if is_one_shot i.parsed.action
    then (checked_at t.checked i, e)
    else judged t (checked_at t.checked i) e (violation_of e.network i.parsed)

-- A property of every check, from those of its outcomes.
pub check_cases :
    (P : NetworkIntent × Engine → Type 0) (t : Clock) (i : NetworkIntent) (e : Engine)
    → P (i, e)
    → P (checked_at t.checked i, e)
    → P (judged t (checked_at t.checked i) e (violation_of e.network i.parsed))
    → P (check_intent_compliance t i e)
unfolding check_intent_compliance
check_cases P t i e idle once watched = ground arith
