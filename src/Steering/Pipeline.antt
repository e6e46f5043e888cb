-- ===== src/Steering/Pipeline.antt =====
-- `validate_steering` of server/sandbox.py and its four checks.
-- A number of `random.random()` is in millionths and is an argument of its own, a health score is in
-- thousandths. Sleeps, durations and the texts of the details are left out.
use pathwiseai.Prelude.{
  ℕ, String, Bool, true, false, not, Option, none, some, List, [], ◌∷◌, ◌++◌, find, any, select,
  length, ltb, leb, ◌==◌, ◌||◌, ◌&&◌, str_eq, if◌then◌else◌,
}
use pathwiseai.Prelude.Dict.{Dict, lookup}
use pathwiseai.Steering.Topology.{TopologyLink, links, requirements}

pub data ValidationResult : Type 0 where
  pass fail_loop fail_policy fail_unreachable fail_performance : ValidationResult

pub data Status : Type 0 where
  passed failed warned : Status

pub record ValidationCheck : Type 0 where
  pub name : String
  pub status : Status

pub record SandboxReport : Type 0 where
  pub id : String
  pub result : ValidationResult
  pub source_link : String
  pub target_link : String
  pub traffic_classes : List String
  pub loop_free : Bool
  pub policy_compliant : Bool
  pub reachability_verified : Bool
  pub performance_acceptable : Bool
  pub checks : List ValidationCheck

-- What the checks read of the application state: the health scores of `state.predictions` and
-- `state.brownout_active`.
pub record LinkState : Type 0 where
  pub predictions : Dict (Option ℕ)
  pub brownout_active : Dict Bool

-- `next((l for l in TOPOLOGY["links"] if l["link_id"] == name), None)`
unfoldable pub link_spec : String → Option TopologyLink
link_spec name = find (λ l. str_eq l.link_id name) links

-- `state.predictions.get(name)`
unfoldable pub prediction : LinkState → String → Option ℕ
prediction st name = elim (lookup name st.predictions) [ none ↦ none | some p ↦ p ]

abbrev is_in : List String → String → Bool
is_in xs x = any (λ y. str_eq y x) xs

-- The hops that both paths have, without the two edge routers.
abbrev pub shared_hops : TopologyLink → TopologyLink → List String
shared_hops a b = select (λ h. is_in b.hops h && not (str_eq h "s1" || str_eq h "s2")) a.hops

unfoldable pub check_no_loops : ℕ → String → String → Bool
unfolding link_spec
check_no_loops roll source target =
    if str_eq source target then false else elim (link_spec source) [
      | none ↦ ltb 30000 roll
      | some a ↦ elim (link_spec target) [
        | none ↦ ltb 30000 roll
        | some b ↦ if length (shared_hops a b) == 0 then ltb 30000 roll else ltb 150000 roll
      ]
    ]

-- Whether a traffic class has a requirement that the link does not meet.
unfoldable pub violates : TopologyLink → String → Bool
unfolding lookup
violates l tc = elim (lookup tc requirements) [
  | none ↦ false
  | some q ↦ ltb q.max_latency_ms l.delay_ms || ltb q.max_loss l.loss
]

unfoldable pub check_policy_compliance : LinkState → String → List String → Status
unfolding link_spec violates prediction
check_policy_compliance st target classes = elim (link_spec target) [
  | none ↦ failed
  | some l ↦ if any (violates l) classes then failed else elim (prediction st target) [
    | none ↦ passed
    | some health ↦ if ltb health 30000 then warned else passed
  ]
]

unfoldable pub check_reachability : LinkState → ℕ → String → Bool
unfolding prediction
check_reachability st roll target =
    let low : Bool = elim (prediction st target) [
      | none ↦ false
      | some health ↦ ltb health 10000
    ] in
    let brownout : Bool = elim (lookup target st.brownout_active) [ none ↦ false | some b ↦ b ] in
    if low then false else if brownout then ltb 150000 roll else ltb 20000 roll

unfoldable pub check_performance_impact : LinkState → String → Status
unfolding prediction
check_performance_impact st target = elim (prediction st target) [
  | none ↦ passed
  | some health ↦ if leb 60000 health then passed else if leb 35000 health then warned else failed
]

unfoldable pub build_report :
    String
    → String
    → String
    → List String
    → ValidationResult
    → Bool
    → Bool
    → Bool
    → Bool
    → List ValidationCheck
    → SandboxReport
build_report report_id source target classes result loop_free policy reachable performance checks =
    record {
      id = report_id;
      result = result;
      source_link = source;
      target_link = target;
      traffic_classes = classes;
      loop_free = loop_free;
      policy_compliant = policy;
      reachability_verified = reachable;
      performance_acceptable = performance;
      checks = checks;
    }

abbrev check : String → Status → ValidationCheck
check name status = record { name = name; status = status }

abbrev pub is_ok : Status → Bool
is_ok passed = true
is_ok warned = true
is_ok failed = false

abbrev status_of : Bool → Status
status_of true = passed
status_of false = failed

unfoldable pub valid_link : String → Bool
valid_link name = any (λ l. str_eq l.link_id name) links

-- The report, from what the checks say: a check counts only if all the earlier ones passed, and the
-- first one that fails ends the pipeline.
unfoldable pub report_of :
    String → String → String → List String → Bool → Bool → Status → Bool → Status → SandboxReport
report_of report_id source target classes known loop_free policy reachable performance =
    let checks_1 =
      check "topology_snapshot" passed ∷ check "loop_detection" (status_of loop_free) ∷ [] in
    let checks_2 = checks_1 ++ check "policy_compliance" policy ∷ [] in
    let checks_3 = checks_2 ++ check "reachability_test" (status_of reachable) ∷ [] in
    let checks_4 = checks_3 ++ check "performance_impact" performance ∷ [] in
    let report = build_report report_id source target classes in
    if not known
    then report fail_unreachable false false false false (check "input_validation" failed ∷ [])
    else if not loop_free
    then report fail_loop loop_free false false false checks_1
    else if not (is_ok policy)
    then report fail_policy loop_free false false false checks_2
    else if not reachable
    then report fail_unreachable loop_free (is_ok policy) false false checks_3
    else report (if is_ok performance then pass else fail_performance) loop_free (is_ok policy)
        reachable (is_ok performance) checks_4

-- `rolls` are the two random numbers that the checks of loops and of reachability draw.
unfoldable pub validate_steering :
    LinkState → ℕ × ℕ → String → String → String → List String → SandboxReport
validate_steering st rolls report_id source target classes =
    report_of report_id source target classes (valid_link source && valid_link target)
      (check_no_loops rolls.0 source target) (check_policy_compliance st target classes)
      (check_reachability st rolls.1 target) (check_performance_impact st target)
