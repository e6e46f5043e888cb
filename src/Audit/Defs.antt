-- ===== src/Audit/Defs.antt =====
-- The audit log of server/audit.py: entries chained by checksums in a bounded deque.
-- A time is a whole number of microseconds, a health score and a confidence count thousandths.
-- hashlib, json.dumps and the formatting of floats are parameters.
use Prim.Native.String.{◌++◌ as ◌+++◌}
use pathwiseai.Prelude.{
  ℕ, ◌+◌, String, ◌≡◌, Bool, Option, none, some, List, [], ◌∷◌, ◌++◌, str_eq, ◌==◌, length, push,
  if◌then◌else◌,
}
use pathwiseai.Prelude.Text.{take_chars, size}
use pathwiseai.Prelude.Dict.{Dict}

-- The dict of a routing or policy change, with the texts of its values.
abbrev pub Change : Type 0
Change = Dict String

pub record AuditEntry : Type 0 where
  pub id : String
  pub event_time : ℕ
  pub event_type : String
  pub actor : String
  pub link_id : Option String
  pub health_score : Option ℕ
  pub confidence : Option ℕ
  pub validation_result : Option String
  pub routing_change : Option Change
  pub policy_change : Option Change
  pub details : Option String
  pub checksum : String
  pub prev_checksum : String

-- `hashlib.sha256(…).hexdigest()`, and how Python writes floats and JSON.
pub record Digest : Type 0 where
  pub hexdigest : String → String
  pub float : ℕ → String
  pub dumps : Option Change → String

-- A SHA-256 digest in hexadecimal has 64 characters.
abbrev pub HasDigestSize : Digest → Type 0
HasDigestSize h = (s : String) → size (h.hexdigest s) ≡ 64

-- `str(x)` of a text, or of a number, that may be `None`.
abbrev pub str_text : Option String → String
str_text none = "None"
str_text (some s) = s

abbrev pub str_float : Digest → Option ℕ → String
str_float h none = "None"
str_float h (some x) = h.float x

abbrev pub maxlen : ℕ
maxlen = 10000

abbrev pub genesis : String
genesis = "genesis"

infixr 60 ◌<|>◌
-- Two parts of the payload, with the bar between them.
abbrev pub ◌<|>◌ : String → String → String
a <|> b = a +++ ("|" +++ b)

-- The fields of the payload of `_compute_checksum`, without the last one.
unfoldable pub fields : Digest → AuditEntry → String → String
fields h e rest =
    e.id
    <|> h.float e.event_time
    <|> e.event_type
    <|> e.actor
    <|> str_text e.link_id
    <|> str_float h e.health_score
    <|> str_float h e.confidence
    <|> str_text e.validation_result
    <|> h.dumps e.routing_change
    <|> h.dumps e.policy_change
    <|> str_text e.details
    <|> rest

abbrev pub payload : Digest → AuditEntry → String → String
payload h e prev_checksum = fields h e prev_checksum

unfoldable pub compute_checksum : Digest → AuditEntry → String → String
compute_checksum h e prev_checksum = h.hexdigest (payload h e prev_checksum)

-- `_audit_log` and `_last_checksum`.
pub record AuditLog : Type 0 where
  pub entries : List AuditEntry
  pub last_checksum : String

abbrev pub empty : AuditLog
empty = record { entries = []; last_checksum = genesis }

-- The arguments of `log_event`, with the fresh id and the time that it takes.
pub record Event : Type 0 where
  pub id : String
  pub event_time : ℕ
  pub event_type : String
  pub actor : String
  pub link_id : Option String
  pub health_score : Option ℕ
  pub confidence : Option ℕ
  pub validation_result : Option String
  pub routing_change : Option Change
  pub policy_change : Option Change
  pub details : Option String

unfoldable pub entry_of : Digest → Event → String → AuditEntry
entry_of h e prev =
    let entry : AuditEntry = record {
      id = e.id;
      event_time = e.event_time;
      event_type = e.event_type;
      actor = e.actor;
      link_id = e.link_id;
      health_score = e.health_score;
      confidence = e.confidence;
      validation_result = e.validation_result;
      routing_change = e.routing_change;
      policy_change = e.policy_change;
      details = e.details;
      checksum = "";
      prev_checksum = prev;
    } in
    record entry { checksum = compute_checksum h entry prev }

unfoldable pub log_event : Digest → Event → AuditLog → AuditEntry × AuditLog
log_event h e log =
    let entry = entry_of h e log.last_checksum in
    (entry, record { entries = push maxlen log.entries entry; last_checksum = entry.checksum })

pub data IntegrityError : Type 0 where
  mismatch : ℕ → String → String → String → IntegrityError
  chain_broken : ℕ → String → IntegrityError

-- `checksum[:16] + "..."`
abbrev pub short : String → String
short checksum = take_chars 16 checksum +++ "..."

-- The two tests of one round of `verify_integrity`.
unfoldable pub check_entry : Digest → ℕ → AuditEntry → String → List IntegrityError
check_entry h i entry prev =
    let expected = compute_checksum h entry prev in
    (if str_eq entry.checksum expected
      then []
      else mismatch i entry.id (short expected) (short entry.checksum) ∷ [])
    ++ (if str_eq entry.prev_checksum prev then [] else chain_broken i entry.id ∷ [])

unfoldable pub check_from : Digest → ℕ → List AuditEntry → String → List IntegrityError
check_from h i [] prev = []
check_from h i (entry ∷ entries) prev =
    check_entry h i entry prev ++ check_from h (i + 1) entries entry.checksum

pub record Integrity : Type 0 where
  pub valid : Bool
  pub checked : ℕ
  pub errors : List IntegrityError

unfoldable pub verify_integrity : Digest → AuditLog → Integrity
verify_integrity h log =
    let errors = check_from h 0 log.entries genesis in
    record { valid = length errors == 0; checked = length log.entries; errors = errors }
