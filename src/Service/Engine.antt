-- ===== src/Service/Engine.antt =====
-- services/traffic-steering/steering_engine.py. A score and a confidence count thousandths. The links
-- with a prediction come in the order in which the set of active links is read; Redis keeps streams.
use pathwiseai.Prelude.{
  ℕ, String, Bool, true, false, Option, none, some, List, [], ◌∷◌, ◌++◌, ltb, ◌&&◌, str_eq,
  if◌then◌else◌,
}

pub data SteeringAction : Type 0 where
  hold preemptive_shift emergency_failover rebalance : SteeringAction

-- `reason`, whose text is that of the link with its score and its confidence, or is given.
pub data Reason : Type 0 where
  critical : String → ℕ → Reason
  degradation : String → ℕ → ℕ → Reason
  given : String → Reason

pub record SteeringDecision : Type 0 where
  pub action : SteeringAction
  pub source_link : String
  pub target_link : String
  pub traffic_classes : List String
  pub confidence : ℕ
  pub reason : Reason
  pub requires_sandbox_validation : Bool

pub record Score : Type 0 where
  pub health_score : ℕ
  pub confidence : ℕ

abbrev pub Entry : Type 0
Entry = String × Score

abbrev pub critical_threshold : ℕ
critical_threshold = 30000

abbrev pub warning_threshold : ℕ
warning_threshold = 50000

abbrev pub confidence_threshold : ℕ
confidence_threshold = 700

-- `sorted(…, reverse=True)` by score keeps the order of links of one score.
abbrev pub insert_link : Entry → List Entry → List Entry
insert_link x [] = x ∷ []
insert_link x (y ∷ ys) =
    let rest = insert_link x ys in
    if ltb x.1.health_score y.1.health_score then y ∷ rest else x ∷ y ∷ ys

unfoldable pub sorted_links : List Entry → List Entry
sorted_links [] = []
sorted_links (x ∷ xs) = insert_link x (sorted_links xs)

abbrev pub first : List Entry → Option Entry
first [] = none
first (x ∷ xs) = some x

unfoldable pub best_link : List Entry → Option Entry
best_link p = first (sorted_links p)

abbrev pub failover : Entry → String → SteeringDecision
failover (link, s) target = record {
  action = emergency_failover;
  source_link = link;
  target_link = target;
  traffic_classes = "voip" ∷ "video" ∷ "critical" ∷ "bulk" ∷ [];
  confidence = s.confidence;
  reason = critical link s.health_score;
  requires_sandbox_validation = false;
}

abbrev pub shift : Entry → String → SteeringDecision
shift (link, s) target = record {
  action = preemptive_shift;
  source_link = link;
  target_link = target;
  traffic_classes = "voip" ∷ "video" ∷ "critical" ∷ [];
  confidence = s.confidence;
  reason = degradation link s.health_score s.confidence;
  requires_sandbox_validation = true;
}

abbrev pub is_critical : Score → Bool
is_critical s = ltb s.health_score critical_threshold

abbrev pub is_degrading : Score → Bool
is_degrading s = ltb s.health_score warning_threshold && ltb confidence_threshold s.confidence

-- The decision for one link, when there is another best link.
abbrev pub decide : Option Entry → Entry → Option SteeringDecision
decide none x = none
decide (some best) x =
    if str_eq best.0 x.0
    then none
    else if is_critical x.1
    then some (failover x best.0)
    else if is_degrading x.1
    then some (shift x best.0)
    else none

abbrev pub add : Option SteeringDecision → List SteeringDecision → List SteeringDecision
add none ds = ds
add (some d) ds = d ∷ ds

abbrev pub collect : (Entry → Option SteeringDecision) → List Entry → List SteeringDecision
collect f [] = []
collect f (x ∷ xs) = add (f x) (collect f xs)

unfoldable pub evaluate : List Entry → List SteeringDecision
evaluate p = collect (decide (best_link p)) p

-- An entry of the audit stream; `sandbox_validated` is there when the sandbox was asked.
pub record AuditEntry : Type 0 where
  pub decision : SteeringDecision
  pub sandbox_validated : Option Bool
  pub status : String

-- The streams "sandbox:requests", "steering:audit" and "steering:events".
pub record Streams : Type 0 where
  pub sandbox_requests : List SteeringDecision
  pub audit : List AuditEntry
  pub events : List SteeringDecision

abbrev pub log_audit : AuditEntry → Streams → Streams
log_audit entry s = record s { audit = s.audit ++ entry ∷ [] }

-- The request is written; the answer is not awaited.
unfoldable pub validate_in_sandbox : SteeringDecision → Streams → Bool × Streams
validate_in_sandbox d s = (true, record s { sandbox_requests = s.sandbox_requests ++ d ∷ [] })

abbrev pub outcome : Bool → String
outcome installed = if installed then "executed" else "failed"

-- The installation, whose answer is a parameter, after the validation.
abbrev pub install : Bool → SteeringDecision → Option Bool → Streams → Bool × Streams
install installed d validated s = (
  installed,
  log_audit (record { decision = d; sandbox_validated = validated; status = outcome installed }) s,
)

abbrev pub installed_if : Bool → SteeringDecision → Bool × Streams → Bool × Streams
installed_if installed d (valid, s) = if valid then install installed d (some valid) s else (
  false,
  log_audit (record { decision = d; sandbox_validated = some valid; status = "blocked_by_sandbox" })
      s,
)

-- `installed` is what the SDN client answers.
unfoldable pub execute : Bool → SteeringDecision → Streams → Bool × Streams
execute installed d s =
    if d.requires_sandbox_validation
    then installed_if installed d (validate_in_sandbox d s)
    else install installed d none s
