-- ===== src/Sandbox/Tests.antt =====
-- Tests of the model of server/sandbox.py, and its theorems at sample inputs.
use pathwiseai.Prelude.{ℕ, Bool, ◌≡◌, refl, true, false, not, ◌&&◌, none, some, [], ◌∷◌, ◌==◌}
use pathwiseai.Sandbox.Topology.{Topology, Node, Link, link_to_node_id, find_loop}
use pathwiseai.Sandbox.Search.{find_loop_returns}
use pathwiseai.Sandbox.Run.{FlowBody, Servers, unavailable, run_sandbox_validation}
use pathwiseai.Sandbox.Verdict.{has_valid_priority, run_sandbox_validation-memory}

abbrev node : ℕ → Node
node n = record { id = n; name = "" }

abbrev link : ℕ → ℕ → Link
link a b = record { src = a; dst = b; bw_mbps = 100; delay_ms = 5; loss_pct = 0 }

-- A triangle has a loop, a path has none, and neither have two links between the same nodes.
triangle :
    find_loop (record {
      nodes = node 1 ∷ node 2 ∷ node 3 ∷ [];
      links = link 1 2 ∷ link 2 3 ∷ link 3 1 ∷ [];
    })
    ≡ some true
unfolding find_loop
triangle = refl

path :
    find_loop (record { nodes = node 1 ∷ node 2 ∷ node 3 ∷ []; links = link 1 2 ∷ link 2 3 ∷ [] })
    ≡ some false
unfolding find_loop
path = refl

parallel :
    find_loop (record { nodes = node 1 ∷ node 2 ∷ []; links = link 1 2 ∷ link 1 2 ∷ [] })
    ≡ some false
unfolding find_loop
parallel = refl

abbrev voip : FlowBody
voip = record {
  id = "steer-1";
  priority = some 65535;
  timeout = 30;
  is_permanent = false;
  table_id = 0;
  output_port = "5g-mobile";
  ip_dscp = 46;
  traffic_class = some "voip";
}

abbrev memory : Servers
memory = record { mininet_mode = false; mininet = none; batfish = unavailable }

abbrev lenient : Servers
lenient = record { mininet_mode = true; mininet = some (some true); batfish = unavailable }

run_sandbox_validation-memory_example :
    (run_sandbox_validation memory 1000 "fiber-primary" "5G-mobile" voip).passed ≡ (
      not (link_to_node_id "fiber-primary" == link_to_node_id "5G-mobile")
      && has_valid_priority voip)
run_sandbox_validation-memory_example =
    run_sandbox_validation-memory memory 1000 "fiber-primary" "5G-mobile" voip refl

five_g : link_to_node_id "5G-mobile" ≡ 4
unfolding link_to_node_id
five_g = refl

abbrev ring : Topology
ring = record { nodes = node 1 ∷ node 2 ∷ node 3 ∷ []; links = link 1 2 ∷ link 2 3 ∷ link 3 1 ∷ [] }

find_loop_returns_example : (b : Bool) × (find_loop ring ≡ some b)
find_loop_returns_example = find_loop_returns ring
