-- ===== src/Alerts/Tests.antt =====
-- Tests of the model of server/alerts.py, and its theorem at a sample input.
use pathwiseai.Prelude.{ℕ, ◌+◌, String, ◌≡◌, refl, some, none, [], List, ◌∷◌, select, arith}
use pathwiseai.Prelude.Dict.{lookup}
use pathwiseai.Audit.{Digest, empty}
use pathwiseai.Alerts.Defs.{Alerts, Call, Format, check_and_alert, alert_of}
use pathwiseai.Alerts.Suppression.{run, is_on, run_suppressed}

abbrev digest : Digest
digest = record { hexdigest = λ s. s; float = λ n. "0"; dumps = λ d. "null" }

abbrev format : Format
format = record { digest = digest; fixed0 = λ n. "0" }

-- A threshold of 70 and a window of five seconds, before the first alert.
abbrev start : Alerts
start = record {
  health_threshold = 70000;
  suppression_window = 5000000;
  alert_history = [];
  last_alert_time = [];
  alert_id_counter = 0;
  audit = empty;
}

abbrev call : String → ℕ → Call
call link t = record {
  link_id = link;
  health_score = 40000;
  confidence = 900;
  check_time = t;
  stamp_time = t + 1;
  last_time = t + 2;
  email = none;
  audit_id = "a";
  audit_time = t + 3;
}

abbrev first : Call
first = call "fiber-primary" 10000000

abbrev later : List Call
later = call "5g-mobile" 12000000 ∷ call "fiber-primary" 14000000 ∷ []

raises : (check_and_alert format first start).0 ≡ some (alert_of format first start)
unfolding check_and_alert alert_of lookup
raises = refl

run_suppressed_example :
    select (is_on "fiber-primary") (run format later (check_and_alert format first start).1).0 ≡ []
run_suppressed_example =
    run_suppressed format first start (alert_of format first start) later raises
      (omega arith, (omega arith, tt))
