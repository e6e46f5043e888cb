-- ===== src/Ibn/Defs.antt =====
-- The intents of server/ibn_engine.py, and what the engine sees of the state of server/state.py.
-- A measured value, a threshold and a score count thousandths; a time is in microseconds. The text of
-- a violation is data. A link has no prediction where the code has None.
use pathwiseai.Prelude.{ℕ, ◌*◌, String, Bool, true, Option, none, some, List, str_eq, if◌then◌else◌}
use pathwiseai.Prelude.Dict.{Dict}
use pathwiseai.State.Queries.{AppState}

pub data IntentStatus : Type 0 where
  active compliant violated auto_steering paused deleted : IntentStatus

pub data IntentAction : Type 0 where
  prioritize ensure_latency ensure_jitter ensure_loss ensure_bandwidth : IntentAction
  block redirect deprioritize : IntentAction
  throttle_app prioritize_app prioritize_over selective_degrade : IntentAction

pub record ParsedIntent : Type 0 where
  pub action : IntentAction
  pub traffic_classes : List String
  pub metric : Option String
  pub threshold : Option ℕ
  pub threshold_unit : Option String
  pub preferred_link : Option String
  pub avoid_link : Option String
  pub source_link : Option String
  pub target_link : Option String
  pub high_app : Option String
  pub low_app : Option String
  pub throttle_kbps : Option ℕ
  pub target_ips : Option (List String)
  pub degrade_mode : Option String
  pub duration_s : Option ℕ

-- `violation_detail`, or the text of an error.
pub data Violation : Type 0 where
  exceeds : String → String → ℕ → ℕ → Violation
  unhealthy : String → ℕ → Violation
  still_active not_redirected : String → Violation
  failure : String → Violation

pub record NetworkIntent : Type 0 where
  pub id : String
  pub raw_text : String
  pub parsed : ParsedIntent
  pub status : IntentStatus
  pub created_at : ℕ
  pub last_checked : ℕ
  pub violation_count : ℕ
  pub auto_steer_count : ℕ
  pub last_violation : Option Violation
  pub yang_config : String

pub record SteeringEvent : Type 0 where
  pub id : String
  pub timestamp : ℕ
  pub action : String
  pub source_link : String
  pub target_link : String
  pub traffic_classes : String
  pub confidence : ℕ
  pub reason : String × Option Violation
  pub status : String
  pub lstm_enabled : Bool

-- `health_score` of `state.predictions`, and the other fields that the engine uses.
pub record Network : Type 0 where
  pub app_state : AppState
  pub active_links : List String
  pub health_scores : Dict ℕ
  pub lstm_enabled : Bool
  pub steering_history : List SteeringEvent

abbrev pub auto_steer_cooldown : ℕ
auto_steer_cooldown = 30 * 1000000

-- The value of an optional text that counts as true.
abbrev pub truthy : Option String → Option String
truthy none = none
truthy (some s) = if str_eq s "" then none else some s

-- `p.preferred_link and link_id != p.preferred_link` is the negation of this.
abbrev pub concerns : Option String → String → Bool
concerns none link = true
concerns (some preferred) link = str_eq link preferred
