-- ===== src/Audit/Tests.antt =====
-- Tests of the model of server/audit.py, and its theorems at sample inputs.
use mathlib.Core.List.{reverse}
use pathwiseai.Prelude.{
  ℕ, zero, suc, ◌≤◌, ◌*◌, String, ◌≡◌, ◌≢◌, refl, ap, true, none, some, List, [], ◌∷◌, arith, leb,
  select,
}
use pathwiseai.Prelude.Text.{size}
use pathwiseai.Audit.Defs.{
  AuditEntry, AuditLog, Digest, Event, HasDigestSize, entry_of, verify_integrity, empty, genesis,
  maxlen,
}
use pathwiseai.Audit.Chain.{log_all}
use pathwiseai.Audit.Verify.{verify_integrity-log_all}
use pathwiseai.Audit.Tamper.{verify_integrity-bar, bar_in_actor, bar_in_type}
use pathwiseai.Prelude.Text.{lower}
use pathwiseai.Audit.Paging.{Filters, get_audit_log, all_pages, matches, get_audit_log-pages}

-- Stands for SHA-256: the first 64 characters, filled up with zeros.
pad : ℕ → String → String
pad zero s = String.[]
pad (suc n) String.[] = String.◌∷◌ "0" (pad n String.[])
pad (suc n) (String.◌∷◌ c s) = String.◌∷◌ c (pad n s)

size-pad : (n : ℕ) (s : String) → size (pad n s) ≡ n
unfolding pad
size-pad zero s = refl
size-pad (suc n) String.[] = ap suc (size-pad n String.[])
size-pad (suc n) (String.◌∷◌ c s) = ap suc (size-pad n s)

abbrev padding : Digest
padding = record { hexdigest = pad 64; float = λ t. "0.0"; dumps = λ c. "null" }

digest : HasDigestSize padding
digest s = size-pad 64 s

abbrev alert : Event
alert = record {
  id = "e1";
  event_time = 100;
  event_type = "ALERT";
  actor = "SYSTEM";
  link_id = some "fiber-primary";
  health_score = some 42000;
  confidence = none;
  validation_result = none;
  routing_change = none;
  policy_change = none;
  details = none;
}

abbrev steering : Event
steering = record alert { id = "e2"; event_time = 200; event_type = "STEERING"; actor = "ops@site" }

abbrev events : List Event
events = alert ∷ steering ∷ []

abbrev log : AuditLog
log = log_all padding events empty

verify_integrity-log_all_example : (verify_integrity padding log).valid ≡ leb 2 maxlen
verify_integrity-log_all_example = verify_integrity-log_all padding digest events

abbrev lone : AuditLog
lone = log_all padding (steering ∷ []) empty

lone_valid : (verify_integrity padding lone).valid ≡ true
lone_valid = verify_integrity-log_all padding digest (steering ∷ [])

abbrev entry : AuditEntry
entry = entry_of padding steering genesis

verify_integrity-bar_example :
    ((bar_in_actor padding entry "AUTH" "eve" "ops").event_type
      ≢ (bar_in_type padding entry "AUTH" "eve" "ops").event_type)
    × (verify_integrity padding (record {
      entries = bar_in_actor padding entry "AUTH" "eve" "ops" ∷ [];
      last_checksum = "";
    })
        ≡ verify_integrity padding (record {
          entries = bar_in_type padding entry "AUTH" "eve" "ops" ∷ [];
          last_checksum = "";
        }))
verify_integrity-bar_example = verify_integrity-bar padding [] [] entry "AUTH" "eve" "ops" ""

abbrev by_ops : Filters
by_ops = record { event_type = none; actor = some "OPS"; start_time = none; end_time = some 300 }

abbrev stored : AuditLog
stored = record {
  entries = entry ∷ record entry { id = "e3"; actor = "SYSTEM" } ∷ [];
  last_checksum = "";
}

one_page : (get_audit_log lower 1 1 by_ops stored).1 ≤ 1 * 1
unfolding get_audit_log entry_of
one_page = omega arith

get_audit_log-pages_example :
    all_pages lower 1 1 by_ops stored ≡ select (matches lower by_ops) (reverse stored.entries)
get_audit_log-pages_example = get_audit_log-pages lower by_ops stored 1 1 one_page
