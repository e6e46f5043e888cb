-- ===== src/Alerts/Defs.antt =====
-- Alerts on low health scores, server/alerts.py, with the entries that they write to the audit log.
-- A time is a whole number of microseconds, a score and a confidence count thousandths. The number in
-- the id of an alert stands for the id. The sending of the email is a parameter.
use Prim.Native.String.{◌++◌ as ◌+++◌}
use mathlib.Core.List.{reverse}
use pathwiseai.Prelude.{
  ℕ, ◌+◌, String, Bool, false, Option, none, some, List, take, push, ltb, leb, if◌then◌else◌,
}
use pathwiseai.Prelude.Dict.{Dict, lookup, insert}
use pathwiseai.Audit.{Digest, Event, AuditLog, log_event}

pub record AlertRecord : Type 0 where
  pub id : ℕ
  pub timestamp : ℕ
  pub link_id : String
  pub health_score : ℕ
  pub confidence : ℕ
  pub alert_type : String
  pub details : String
  pub email_sent : Bool

-- The state of the module, its configuration, and the audit log.
pub record Alerts : Type 0 where
  pub health_threshold : ℕ
  pub suppression_window : ℕ
  pub alert_history : List AlertRecord
  pub last_alert_time : Dict ℕ
  pub alert_id_counter : ℕ
  pub audit : AuditLog

-- The arguments of `check_and_alert`, the three times that it reads, whether the email could be sent
-- (`none` if no server is configured), and the id and the time of the audit entry.
pub record Call : Type 0 where
  pub link_id : String
  pub health_score : ℕ
  pub confidence : ℕ
  pub check_time : ℕ
  pub stamp_time : ℕ
  pub last_time : ℕ
  pub email : Option Bool
  pub audit_id : String
  pub audit_time : ℕ

-- The hash function of the audit log, and the text of a score without decimals.
pub record Format : Type 0 where
  pub digest : Digest
  pub fixed0 : ℕ → String

abbrev pub details_of : Format → String → ℕ → ℕ → String
details_of f link score threshold =
    "Link "
    +++ (link
        +++ (" health score "
            +++ (f.fixed0 score +++ (" below threshold " +++ f.fixed0 threshold))))

unfoldable pub alert_of : Format → Call → Alerts → AlertRecord
alert_of f c s = record {
  id = s.alert_id_counter + 1;
  timestamp = c.stamp_time;
  link_id = c.link_id;
  health_score = c.health_score;
  confidence = c.confidence;
  alert_type = "threshold_breach";
  details = details_of f c.link_id c.health_score s.health_threshold;
  email_sent = elim c.email [ none ↦ false | some sent ↦ sent ];
}

abbrev pub event_of : Format → Call → Alerts → Event
event_of f c s = record {
  id = c.audit_id;
  event_time = c.audit_time;
  event_type = "ALERT";
  actor = "SYSTEM";
  link_id = some c.link_id;
  health_score = some c.health_score;
  confidence = some c.confidence;
  validation_result = none;
  routing_change = none;
  policy_change = none;
  details = some (details_of f c.link_id c.health_score s.health_threshold);
}

-- `_last_alert_time.get(link_id, 0)`
unfoldable pub last_alert : String → Alerts → ℕ
last_alert link s = elim (lookup link s.last_alert_time) [ none ↦ 0 | some t ↦ t ]

-- `time.time() - last < SUPPRESSION_WINDOW` is written with a sum.
unfoldable pub check_and_alert : Format → Call → Alerts → Option AlertRecord × Alerts
unfolding last_alert alert_of
check_and_alert f c s =
    if leb s.health_threshold c.health_score
    then (none, s)
    else if ltb c.check_time (last_alert c.link_id s + s.suppression_window)
    then (none, s)
    else (
      some (alert_of f c s),
      record s {
        alert_id_counter = s.alert_id_counter + 1;
        last_alert_time = insert c.link_id c.last_time s.last_alert_time;
        alert_history = push 500 s.alert_history (alert_of f c s);
        audit = (log_event f.digest (event_of f c s) s.audit).1;
      },
    )

unfoldable pub get_alert_history : ℕ → Alerts → List AlertRecord
get_alert_history limit s = take limit (reverse s.alert_history)

unfoldable pub update_config : Option ℕ → Option ℕ → Alerts → Alerts
update_config threshold suppression s = record s {
  health_threshold = elim threshold [ none ↦ s.health_threshold | some t ↦ t ];
  suppression_window = elim suppression [ none ↦ s.suppression_window | some w ↦ w ];
}
