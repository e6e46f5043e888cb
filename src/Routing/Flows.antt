-- ===== src/Routing/Flows.antt =====
-- The flow rules of server/routing.py, and the two maps from link names to nodes.
use pathwiseai.Prelude.{ℕ, ◌<◌, String, ◌≡◌, true, Option, arith, ◌==◌, if◌then◌else◌, ◌↔◌}
use pathwiseai.Sandbox.Topology.{link_to_node_id}
use pathwiseai.Sandbox.Verdict.{has_valid_priority}
use pathwiseai.Routing.Defs.{build_flow_body, resolve_node_id}

-- The name in OpenFlow of the node with a number.
abbrev pub node_name : ℕ → String
node_name n =
    if n == 1
    then "openflow:1"
    else if n == 2
    then "openflow:2"
    else if n == 3
    then "openflow:3"
    else if n == 4
    then "openflow:4"
    else "openflow:5"

-- The map from link names to nodes of server/routing.py and the one of server/sandbox.py agree on
-- every name, so that the sandbox checks the node on which the handoff installs the rule.
pub resolve_node_id-link_to_node_id :
    (name : String) → resolve_node_id name ≡ node_name (link_to_node_id name)
unfolding resolve_node_id link_to_node_id
resolve_node_id-link_to_node_id name = ground arith

-- Every flow rule that the handoff builds has a priority that the sandbox accepts and a DSCP value
-- of six bits, and it is permanent exactly if its timeout is 0.
pub build_flow_body_bounds :
    (default_timeout : ℕ) (target traffic_class flow_id : String) (timeout : Option ℕ)
    → let f = build_flow_body default_timeout target traffic_class flow_id timeout in
      (has_valid_priority f ≡ true) × (f.ip_dscp < 64) × ((f.is_permanent ≡ true) ↔ (f.timeout ≡ 0))
unfolding build_flow_body
build_flow_body_bounds default_timeout target traffic_class flow_id timeout =
    (ground arith, ground arith, ground arith)
