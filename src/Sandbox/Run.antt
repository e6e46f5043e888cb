-- ===== src/Sandbox/Run.antt =====
-- `run_sandbox_validation` of server/sandbox.py: the five stages, in memory or with Mininet and
-- Batfish. The texts of the details are left out.
use pathwiseai.Prelude.{
  ℕ, String, Bool, true, false, not, Option, none, some, List, [], ◌∷◌, ltb, leb, length, all, ◌==◌,
  ◌&&◌, contains, if◌then◌else◌,
}
use pathwiseai.Sandbox.Topology.{
  Topology, node_ids, link_to_node_id, build_topology_snapshot, find_loop,
}

-- The parts of a flow body, an OpenFlow 1.3 rule, that the program reads or writes. A key that a
-- dict may lack is an option.
pub record FlowBody : Type 0 where
  pub id : String
  pub priority : Option ℕ
  pub timeout : ℕ
  pub is_permanent : Bool
  pub table_id : ℕ
  pub output_port : String
  pub ip_dscp : ℕ
  pub traffic_class : Option String

pub data Stage : Type 0 where
  topology_snapshot loop_detection policy_compliance reachability batfish_analysis
        performance_impact :
      Stage

pub record Check : Type 0 where
  pub check : Stage
  pub passed : Bool

unfoldable pub stage_topology_snapshot : Topology → Check
stage_topology_snapshot t = record { check = topology_snapshot; passed = not (length t.nodes == 0) }

-- A search that ran out of fuel would not pass.
unfoldable pub stage_loop_detection_memory : Topology → Check
stage_loop_detection_memory t = record {
  check = loop_detection;
  passed = elim (find_loop t) [ none ↦ false | some found ↦ not found ];
}

abbrev pub get_or {ℓ} : {A : Type ℓ} → Option A → A → A
get_or none default = default
get_or (some x) default = x

unfoldable pub stage_policy_compliance : FlowBody → Check
stage_policy_compliance f =
    let priority = get_or f.priority 0 in
    record { check = policy_compliance; passed = ltb 0 priority && leb priority 65535 }

unfoldable pub stage_reachability_memory : Topology → String → Check
stage_reachability_memory t target = record {
  check = reachability;
  passed = contains (link_to_node_id target) (node_ids t);
}

-- The impact, which the code derives from the traffic class, is written to the detail alone.
unfoldable pub stage_performance_impact : FlowBody → Check
stage_performance_impact f = record { check = performance_impact; passed = true }

-- The answer of the Mininet server: whether its dict has "passed", and its value.
abbrev pub MininetAnswer : Type 0
MininetAnswer = Option Bool

-- What the Batfish session gives: the two findings, or an exception.
pub data BatfishAnswer : Type 0 where
  analysed : Bool → Bool → BatfishAnswer
  unavailable : BatfishAnswer

unfoldable pub run_batfish_analysis : BatfishAnswer → Check
run_batfish_analysis (analysed loops_found reachable) = record {
  check = batfish_analysis;
  passed = not loops_found && reachable;
}
run_batfish_analysis unavailable = record { check = batfish_analysis; passed = true }

-- The environment of one validation: the mode, and what the servers answer. `mininet` is `none`
-- when the server cannot be reached.
pub record Servers : Type 0 where
  pub mininet_mode : Bool
  pub mininet : Option MininetAnswer
  pub batfish : BatfishAnswer

unfoldable pub stage_loop_detection : Servers → Topology → Check
stage_loop_detection e t =
    if e.mininet_mode
    then elim e.mininet [
      | none ↦ stage_loop_detection_memory t
      | some answer ↦ record { check = loop_detection; passed = get_or answer false }
    ]
    else stage_loop_detection_memory t

unfoldable pub stage_reachability : Servers → Topology → String → Check
stage_reachability e t target =
    if e.mininet_mode then run_batfish_analysis e.batfish else stage_reachability_memory t target

pub record SandboxResult : Type 0 where
  pub passed : Bool
  pub within_sla : Bool
  pub checks : List Check

abbrev pub microseconds_5s : ℕ
microseconds_5s = 5000000

-- `elapsed` is the time that `time.perf_counter` measures, in microseconds.
unfoldable pub run_sandbox_validation : Servers → ℕ → String → String → FlowBody → SandboxResult
run_sandbox_validation e elapsed source target f =
    let t = build_topology_snapshot source target in
    let checks =
      stage_topology_snapshot t
      ∷ stage_loop_detection e t
      ∷ stage_policy_compliance f
      ∷ stage_reachability e t target
      ∷ stage_performance_impact f
      ∷ [] in
    record {
      passed = all (λ (c : Check). c.passed) checks;
      within_sla = ltb elapsed microseconds_5s;
      checks = checks;
    }
