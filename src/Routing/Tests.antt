-- ===== src/Routing/Tests.antt =====
-- Tests of the model of server/routing.py, and its theorems at sample inputs.
use pathwiseai.Prelude.{
  ◌≡◌, ◌≢◌, refl, true, false, none, some, [], ◌∷◌, ◌++◌, arith, str_eq, if◌then◌else◌, ◌∙◌,
}
use pathwiseai.Sandbox.Topology.{link_to_node_id}
use pathwiseai.Sandbox.Run.{Servers, SandboxResult, unavailable}
use pathwiseai.Sessions.{NetworkSession, get_active_sessions, voip_rtp, active}
use pathwiseai.Sdn.{
  Reply, odl, response, raised, returned, odl_delete_flow, odl_live, update_flow_table,
}
use pathwiseai.Routing.Defs.{
  World, Env, success, validate, build_flow_body, execute_hitless_handoff, rollback_handoff,
  resolve_node_id,
}
use pathwiseai.Routing.Handoff.{
  execute_hitless_handoff-success, execute_hitless_handoff-same_node,
  execute_hitless_handoff-other_node, rollback_handoff-execute_hitless_handoff,
}

abbrev call : NetworkSession
call = record {
  id = "s1";
  session_type = voip_rtp;
  link_id = "fiber-primary";
  src_ip = "10.0.1.2";
  dst_ip = "10.0.2.3";
  src_port = 5004;
  dst_port = 5004;
  protocol = "udp";
  state = active;
  tcp_seq_number = none;
  tcp_ack_number = none;
  tcp_window_size = none;
  rtp_ssrc = some 77;
  rtp_sequence = some 12;
  rtp_timestamp = none;
  codec = some "G.711";
  started_at = 0;
  migrated_at = none;
  bytes_transferred = 0;
}

-- One call on the fiber link.
abbrev world : World
world = record {
  sessions = record {
    objects = λ r. call;
    next = 1;
    table = λ l. if str_eq l "fiber-primary" then 0 ∷ [] else [];
    history = [];
  };
  adapter = record { controller_type = odl; installed_flows = []; exchanges = [] };
}

abbrev memory : Servers
memory = record { mininet_mode = false; mininet = none; batfish = unavailable }

abbrev env : Reply → Env
env reply = record {
  default_timeout = 30;
  servers = some memory;
  sandbox_time = 1000;
  times = λ r. 50;
  migration_time = 3;
  odl_reply = reply;
  onos_reply = raised;
}

abbrev good : Env
good = env (response 201 none)

-- The adapter cannot reach the controller.
abbrev bad : Env
bad = env raised

deleted : odl_delete_flow (response 204 none) ≡ returned true
unfolding odl_delete_flow
deleted = refl

nodes_differ : link_to_node_id "fiber-primary" ≢ link_to_node_id "5g-mobile"
unfolding link_to_node_id
nodes_differ = omega arith

same_node : link_to_node_id "fiber-primary" ≡ link_to_node_id "fiber"
unfolding link_to_node_id
same_node = refl

execute_hitless_handoff-same_node_example :
    let h = execute_hitless_handoff good "fiber-primary" "fiber" "voip" "steer-1" world in
    (success h.0 ≡ false) × (h.1 ≡ world)
execute_hitless_handoff-same_node_example =
    execute_hitless_handoff-same_node good "fiber-primary" "fiber" "voip" "steer-1" world memory
      refl refl same_node

execute_hitless_handoff-other_node_example :
    let (reply, w') =
      execute_hitless_handoff bad "fiber-primary" "5g-mobile" "voip" "steer-1" world in
    let update =
      update_flow_table (resolve_node_id "5g-mobile") "steer-1" 0 raised raised world.adapter in
    (success reply ≡ update.0)
    × (w'.adapter ≡ update.1)
    × (w'.sessions.table "fiber-primary" ≡ [])
    × (w'.sessions.table "5g-mobile"
        ≡ world.sessions.table "5g-mobile" ++ get_active_sessions "fiber-primary" world.sessions)
execute_hitless_handoff-other_node_example =
    execute_hitless_handoff-other_node bad "fiber-primary" "5g-mobile" "voip" "steer-1" world memory
      refl refl nodes_differ

accepted :
    (update_flow_table
      (resolve_node_id "5g-mobile")
      "steer-1"
      0
      (response 201 none)
      raised
      world.adapter).0
    ≡ true
unfolding update_flow_table
accepted = refl

succeeds :
    success (execute_hitless_handoff good "fiber-primary" "5g-mobile" "voip" "steer-1" world).0
    ≡ true
succeeds =
    (execute_hitless_handoff-other_node good "fiber-primary" "5g-mobile" "voip" "steer-1" world
      memory refl refl nodes_differ).0
    ∙ accepted

execute_hitless_handoff-success_example :
    let e = good in
    let h = execute_hitless_handoff e "fiber-primary" "5g-mobile" "voip" "steer-1" world in
    (r : SandboxResult) × (validate e "fiber-primary" "5g-mobile"
        (build_flow_body 30 "5g-mobile" "voip" "steer-1" none)
      ≡ some r)
    × (r.passed ≡ true)
    × ((update_flow_table
          (resolve_node_id "5g-mobile")
          "steer-1"
          0
          e.odl_reply
          e.onos_reply
          world.adapter).0
        ≡ true)
    × (h.1.sessions.table "fiber-primary" ≡ [])
execute_hitless_handoff-success_example =
    execute_hitless_handoff-success good "fiber-primary" "5g-mobile" "voip" "steer-1" world succeeds

rollback_handoff-execute_hitless_handoff_example :
    let w' = (execute_hitless_handoff good "fiber-primary" "5g-mobile" "voip" "steer-1" world).1 in
    let (done, w'') = rollback_handoff "steer-1" (response 204 none) w' in
    (odl_live (resolve_node_id "5g-mobile") 0 "steer-1" w'.adapter ≡ true)
    × (done ≡ true)
    × (odl_live (resolve_node_id "5g-mobile") 0 "steer-1" w''.adapter ≡ false)
    × (w''.sessions ≡ w'.sessions)
rollback_handoff-execute_hitless_handoff_example =
    rollback_handoff-execute_hitless_handoff good "fiber-primary" "5g-mobile" "voip" "steer-1" world
      (response 204 none) refl succeeds deleted
