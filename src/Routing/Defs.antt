-- ===== src/Routing/Defs.antt =====
-- The hitless handoff of server/routing.py, over the sandbox, the session table and the adapter.
use pathwiseai.Prelude.{ℕ, String, Bool, false, Option, none, some, [], ◌∷◌, ◌==◌, if◌then◌else◌}
use pathwiseai.Prelude.Dict.{lookup}
use pathwiseai.Sandbox.Topology.{get_lower}
use pathwiseai.Sandbox.Run.{FlowBody, Servers, SandboxResult, get_or, run_sandbox_validation}
use pathwiseai.Sessions.{SessionManager, HandoffResult, migrate_sessions}
use pathwiseai.Sdn.{Adapter, Reply, update_flow_table, rollback_flow}

unfoldable pub priority_for_class : String → ℕ
unfolding lookup
priority_for_class tc =
    get_or
      (lookup tc (("voip", 65535) ∷ ("video", 50000) ∷ ("critical", 45000) ∷ ("bulk", 10000) ∷ []))
      20000

unfoldable pub dscp_for_class : String → ℕ
unfolding lookup
dscp_for_class tc =
    get_or (lookup tc (("voip", 46) ∷ ("video", 34) ∷ ("critical", 26) ∷ ("bulk", 0) ∷ [])) 0

unfoldable pub resolve_node_id : String → String
resolve_node_id link_name = get_lower link_name "openflow:1" (
    ("fiber", "openflow:1")
    ∷ ("fiber-primary", "openflow:1")
    ∷ ("broadband", "openflow:2")
    ∷ ("broadband-secondary", "openflow:2")
    ∷ ("satellite", "openflow:3")
    ∷ ("satellite-backup", "openflow:3")
    ∷ ("5g", "openflow:4")
    ∷ ("5g-mobile", "openflow:4")
    ∷ ("wifi", "openflow:5")
    ∷ [])

-- `default_timeout` is the value of SDN_FLOW_TIMEOUT_S.
unfoldable pub build_flow_body : ℕ → String → String → String → Option ℕ → FlowBody
unfolding priority_for_class dscp_for_class
build_flow_body default_timeout target traffic_class flow_id timeout =
    let timeout_s = get_or timeout default_timeout in
    record {
      id = flow_id;
      priority = some (priority_for_class traffic_class);
      timeout = timeout_s;
      is_permanent = timeout_s == 0;
      table_id = 0;
      output_port = target;
      ip_dscp = dscp_for_class traffic_class;
      traffic_class = some traffic_class;
    }

-- The two singletons that a handoff changes.
pub record World : Type 0 where
  pub sessions : SessionManager
  pub adapter : Adapter

-- What a handoff takes from its environment: the sandbox, which may raise (`none`), the clocks, and
-- the answers of the controllers.
pub record Env : Type 0 where
  pub default_timeout : ℕ
  pub servers : Option Servers
  pub sandbox_time : ℕ
  pub times : ℕ → ℕ
  pub migration_time : ℕ
  pub odl_reply : Reply
  pub onos_reply : Reply

pub data HandoffReply : Type 0 where
  sandbox_rejected : String → Option SandboxResult → HandoffReply
  handed_off : Bool → String → SandboxResult → HandoffResult → HandoffReply

abbrev pub success : HandoffReply → Bool
success (sandbox_rejected flow_id sandbox) = false
success (handed_off ok node_id sandbox sessions) = ok

-- The validation, with its `try` block: an exception counts as not passed.
unfoldable pub validate : Env → String → String → FlowBody → Option SandboxResult
validate e source target f = elim e.servers [
  | none ↦ none
  | some servers ↦ some (run_sandbox_validation servers e.sandbox_time source target f)
]

abbrev pub passed_result : Option SandboxResult → Option SandboxResult
passed_result none = none
passed_result (some r) = if r.passed then some r else none

-- The part of the handoff behind the validation. The snapshot is taken and not used.
unfoldable pub switch_over :
    Env → String → String → String → FlowBody → SandboxResult → World → HandoffReply × World
unfolding migrate_sessions
switch_over e source target flow_id f sandbox w =
    let (result, sessions) = migrate_sessions source target e.times e.migration_time w.sessions in
    let node_id = resolve_node_id target in
    let (ok, adapter) = update_flow_table node_id flow_id 0 e.odl_reply e.onos_reply w.adapter in
    (handed_off ok node_id sandbox result, record { sessions = sessions; adapter = adapter })

unfoldable pub execute_hitless_handoff :
    Env → String → String → String → String → World → HandoffReply × World
unfolding build_flow_body validate
execute_hitless_handoff e source target traffic_class flow_id w =
    let f = build_flow_body e.default_timeout target traffic_class flow_id none in
    let sandbox = validate e source target f in
    elim (passed_result sandbox) [
      | none ↦ (sandbox_rejected flow_id sandbox, w)
      | some r ↦ switch_over e source target flow_id f r w
    ]

unfoldable pub rollback_handoff : String → Reply → World → Bool × World
rollback_handoff flow_id reply w =
    let (ok, adapter) = rollback_flow flow_id reply w.adapter in
    (ok, record w { adapter = adapter })
