-- ===== src/Routing/Handoff.antt =====
-- What a handoff of server/routing.py changes, and when.
use pathwiseai.Prelude.{
  String, ◌≡◌, ◌≢◌, refl, ap, sym, ◌∙◌, Bool, true, false, not, Option, none, some, [], arith, ◌==◌,
  Option-cases, ◌++◌, inl, inr,
}
use pathwiseai.Sandbox.Topology.{link_to_node_id}
use pathwiseai.Sandbox.Run.{FlowBody, Servers, SandboxResult, run_sandbox_validation}
use pathwiseai.Sandbox.Verdict.{run_sandbox_validation-memory}
use pathwiseai.Sessions.{get_active_sessions}
use pathwiseai.Sessions.Migration.{table-source, table-target, after}
use pathwiseai.Sdn.{Adapter, Reply, odl, returned, odl_delete_flow, odl_live, update_flow_table}
use pathwiseai.Sdn.Rollback.{rollback_flow-update_flow_table}
use pathwiseai.Routing.Defs.{
  World, Env, HandoffReply, sandbox_rejected, success, validate, passed_result, switch_over,
  build_flow_body, execute_hitless_handoff, rollback_handoff, resolve_node_id,
}
use pathwiseai.Routing.Flows.{build_flow_body_bounds}

passed_inv :
    (o : Option SandboxResult) (r : SandboxResult)
    → passed_result o ≡ some r
    → (o ≡ some r) × (r.passed ≡ true)
passed_inv o r h = ground arith

module _ (e : Env) (source target traffic_class flow_id : String) (w : World) where
  abbrev body : FlowBody
  body = build_flow_body e.default_timeout target traffic_class flow_id none

  abbrev handoff : HandoffReply × World
  handoff = execute_hitless_handoff e source target traffic_class flow_id w

  abbrev update : Bool × Adapter
  update = update_flow_table (resolve_node_id target) flow_id 0 e.odl_reply e.onos_reply w.adapter

  rejected :
      passed_result (validate e source target body) ≡ none
      → handoff ≡ (sandbox_rejected flow_id (validate e source target body), w)
  unfolding execute_hitless_handoff
  rejected no_pass = rw (no_pass, execute_hitless_handoff) refl

  switched :
      {r : SandboxResult}
      → passed_result (validate e source target body) ≡ some r
      → handoff ≡ switch_over e source target flow_id body r w
  unfolding execute_hitless_handoff
  switched pass = rw (pass, execute_hitless_handoff) refl

  -- What the part behind the validation does: the sessions are migrated in any case, and the reply
  -- is that of the controllers.
  switch_over_lem :
      (r : SandboxResult)
      → (success (switch_over e source target flow_id body r w).0 ≡ update.0)
        × ((switch_over e source target flow_id body r w).1.adapter ≡ update.1)
        × ((switch_over e source target flow_id body r w).1.sessions
            ≡ after source target e.times e.migration_time w.sessions)
  unfolding switch_over
  switch_over_lem r = (refl, refl, refl)

  -- A handoff that succeeds was passed by the sandbox, the controllers accepted its flow rule, and
  -- the source link is left without sessions.
  pub execute_hitless_handoff-success :
      success handoff.0 ≡ true
      → (r : SandboxResult) × (validate e source target body ≡ some r)
        × (r.passed ≡ true)
        × (update.0 ≡ true)
        × (handoff.1.sessions.table source ≡ [])
  execute_hitless_handoff-success done =
      elim (Option-cases (passed_result (validate e source target body))) [
        | inl no_pass ↦
            absurd
              (let failed = ap (λ (h : HandoffReply × World). success h.0) (rejected no_pass) in cc)
        | inr (r, pass) ↦
            let (validated, good) = passed_inv (validate e source target body) r pass in
            let (reply, _, sessions) = switch_over_lem r in
            (
              r,
              validated,
              good,
              sym reply ∙ rw (switched pass) at done,
              rw (switched pass, sessions)
                  (table-source source target e.times e.migration_time w.sessions),
            )
      ]

  refused :
      passed_result (validate e source target body) ≡ none
      → (success handoff.0 ≡ false) × (handoff.1 ≡ w)
  refused no_pass = (rw (rejected no_pass) refl, rw (rejected no_pass) refl)

  module _ (servers : Servers) (given : e.servers ≡ some servers)
      (memory : servers.mininet_mode ≡ false) where
    abbrev result : SandboxResult
    result = run_sandbox_validation servers e.sandbox_time source target body

    validate-memory : validate e source target body ≡ some result
    unfolding validate
    validate-memory = rw (given, validate) refl

    passed-memory : result.passed ≡ not (link_to_node_id source == link_to_node_id target)
    passed-memory = ground (
      arith,
      run_sandbox_validation-memory servers e.sandbox_time source target body memory,
      (build_flow_body_bounds e.default_timeout target traffic_class flow_id none).0,
    )

    same_node :
        link_to_node_id source ≡ link_to_node_id target
        → passed_result (validate e source target body) ≡ none
    same_node same = ground (arith, validate-memory, passed-memory)

    other_node :
        link_to_node_id source ≢ link_to_node_id target
        → passed_result (validate e source target body) ≡ some result
    other_node apart = ground (arith, validate-memory, passed-memory)

    -- With the sandbox in memory mode a handoff between two links of one node, also from a link to
    -- itself, is refused and changes nothing.
    pub execute_hitless_handoff-same_node :
        link_to_node_id source ≡ link_to_node_id target
        → (success handoff.0 ≡ false) × (handoff.1 ≡ w)
    execute_hitless_handoff-same_node same = refused (same_node same)

    -- With the sandbox in memory mode, in a handoff between links of different nodes, the answer is
    -- that of the controllers, but the active sessions are moved from the source to the target, and
    -- the source is left without sessions, also when no controller took the flow rule.
    pub execute_hitless_handoff-other_node :
        link_to_node_id source ≢ link_to_node_id target
        → (success handoff.0 ≡ update.0)
          × (handoff.1.adapter ≡ update.1)
          × (handoff.1.sessions.table source ≡ [])
          × (handoff.1.sessions.table target
              ≡ w.sessions.table target ++ get_active_sessions source w.sessions)
    execute_hitless_handoff-other_node apart =
        let pass = switched (other_node apart) in
        let (reply, adapter, sessions) = switch_over_lem result in
        (
          rw pass reply,
          rw pass adapter,
          rw (pass, sessions) (table-source source target e.times e.migration_time w.sessions),
          rw (pass, sessions)
              (table-target source target e.times e.migration_time w.sessions
                (λ same. apart (ap link_to_node_id same))),
        )

-- With OpenDaylight as the only controller: after a handoff that succeeds, a rollback whose deletion
-- OpenDaylight accepts succeeds and takes the flow rule from the node of the target, which had it.
-- The sessions stay where the handoff put them.
pub rollback_handoff-execute_hitless_handoff :
    (e : Env) (source target traffic_class flow_id : String) (w : World) (reply : Reply)
    → w.adapter.controller_type ≡ odl
    → success (execute_hitless_handoff e source target traffic_class flow_id w).0 ≡ true
    → odl_delete_flow reply ≡ returned true
    → let w' = (execute_hitless_handoff e source target traffic_class flow_id w).1 in
      let (done, w'') = rollback_handoff flow_id reply w' in
      (odl_live (resolve_node_id target) 0 flow_id w'.adapter ≡ true)
      × (done ≡ true)
      × (odl_live (resolve_node_id target) 0 flow_id w''.adapter ≡ false)
      × (w''.sessions ≡ w'.sessions)
unfolding rollback_handoff
rollback_handoff-execute_hitless_handoff e source target traffic_class flow_id w reply alone done
      accepted =
    elim (Option-cases
      (passed_result (validate e source target (body e source target traffic_class flow_id w)))) [
        | inl no_pass ↦
            absurd (let failed = (refused e source target traffic_class flow_id w no_pass).0 in cc)
        | inr (r, pass) ↦
            let (answer, adapter, _) = switch_over_lem e source target traffic_class flow_id w r in
            let same = switched e source target traffic_class flow_id w pass in
            let ok_update = sym answer ∙ rw same at done in
            let (live, removed, dead, _) =
              rollback_flow-update_flow_table (resolve_node_id target) flow_id 0 w.adapter
                e.odl_reply e.onos_reply reply alone ok_update accepted in
            rw (same, adapter) (live, removed, dead, refl)
      ]
