-- ===== src/Sandbox/Verdict.antt =====
-- When `run_sandbox_validation` of server/sandbox.py lets a proposal pass.
use pathwiseai.Prelude.{
  ℕ, String, ◌≡◌, refl, Bool, true, false, not, some, [], ◌∷◌, arith, ltb, leb, ◌==◌, ◌&&◌, ==_iff,
  Bool-cases, inl, inr,
}
use pathwiseai.Sandbox.Topology.{
  Node, Link, Topology, build_topology_snapshot, link_to_node_id, find_loop,
}
use pathwiseai.Sandbox.Run.{
  FlowBody, Servers, unavailable, get_or, stage_topology_snapshot, stage_loop_detection_memory,
  stage_loop_detection, stage_policy_compliance, stage_reachability_memory, stage_reachability,
  stage_performance_impact, run_batfish_analysis, run_sandbox_validation,
}

-- A topology of two nodes and the link between them.
abbrev pair : Node → Node → Link → Topology
pair m n l = record { nodes = m ∷ n ∷ []; links = l ∷ [] }

eq_self : (a : ℕ) → (a == a) ≡ true
eq_self a = (==_iff a a).1 refl

find_loop-pair :
    (m n : Node) (l : Link)
    → l.src ≡ m.id
    → l.dst ≡ n.id
    → find_loop (pair m n l) ≡ some (m.id == n.id)
unfolding find_loop
find_loop-pair m n l src dst = elim (Bool-cases (m.id == n.id)) [
  | inl same ↦ ground arith
  | inr apart ↦ ground arith
]

find_loop-snapshot :
    (source target : String)
    → find_loop (build_topology_snapshot source target)
      ≡ some (link_to_node_id source == link_to_node_id target)
unfolding build_topology_snapshot
find_loop-snapshot source target =
    let s = link_to_node_id source in
    let t = link_to_node_id target in
    find_loop-pair (record { id = s; name = source }) (record { id = t; name = target })
      (record { src = s; dst = t; bw_mbps = 100; delay_ms = 5; loss_pct = 0 }) refl refl

-- The priority of a flow rule as OpenFlow has it.
abbrev pub has_valid_priority : FlowBody → Bool
has_valid_priority f = ltb 0 (get_or f.priority 0) && leb (get_or f.priority 0) 65535

module _ (e : Servers) (elapsed : ℕ) (source target : String) (f : FlowBody) where
  abbrev verdict : Bool
  verdict = (run_sandbox_validation e elapsed source target f).passed

  loop_detection-memory :
      (stage_loop_detection_memory (build_topology_snapshot source target)).passed
      ≡ not (link_to_node_id source == link_to_node_id target)
  unfolding stage_loop_detection_memory
  loop_detection-memory = ground (arith, find_loop-snapshot source target)

  reachability-memory :
      (stage_reachability_memory (build_topology_snapshot source target) target).passed ≡ true
  unfolding stage_reachability_memory build_topology_snapshot
  reachability-memory = ground (arith, eq_self (link_to_node_id target))

  snapshot_passes : (stage_topology_snapshot (build_topology_snapshot source target)).passed ≡ true
  unfolding stage_topology_snapshot build_topology_snapshot
  snapshot_passes = ground arith

  -- In memory mode a proposal passes exactly if its two links belong to different nodes and the
  -- priority of the flow rule is between 1 and 65535.
  pub run_sandbox_validation-memory :
      e.mininet_mode ≡ false
      → (run_sandbox_validation e elapsed source target f).passed
        ≡ (not (link_to_node_id source == link_to_node_id target) && has_valid_priority f)
  unfolding run_sandbox_validation stage_loop_detection stage_reachability stage_policy_compliance
      stage_performance_impact
  run_sandbox_validation-memory memory =
      ground (arith, loop_detection-memory, reachability-memory, snapshot_passes)

  -- In Mininet mode, when the Mininet server says that its test passed and Batfish cannot be asked,
  -- a proposal with a valid priority passes whatever its links, also from a link to itself: the
  -- check in memory, of which the warning in the log speaks, is not made.
  pub run_sandbox_validation-no_batfish :
      e.mininet_mode ≡ true
      → e.mininet ≡ some (some true)
      → e.batfish ≡ unavailable
      → (run_sandbox_validation e elapsed source target f).passed ≡ has_valid_priority f
  unfolding run_sandbox_validation stage_loop_detection stage_reachability stage_policy_compliance
      stage_performance_impact run_batfish_analysis
  run_sandbox_validation-no_batfish mininet answer down = ground (arith, snapshot_passes)
