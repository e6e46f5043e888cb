-- ===== src/Ibn/Deploy.antt =====
-- `deploy_intent` of server/ibn_engine.py behind the parser: the flow rule of an intent, its sandbox
-- and its installation. The payloads in YANG and the optional NETCONF session, whose answer is only
-- reported, are left out.
use pathwiseai.Prelude.{
  ℕ, String, Bool, true, false, Option, none, some, List, [], ◌∷◌, str_eq, if◌then◌else◌,
}
use pathwiseai.Prelude.Dict.{Dict, lookup}
use pathwiseai.Sandbox.Run.{FlowBody, Servers, SandboxResult, get_or, run_sandbox_validation}
use pathwiseai.Sdn.{Adapter, Reply, update_flow_table}
use pathwiseai.Ibn.Defs.{ParsedIntent, truthy}
use pathwiseai.Ibn.Yang.{action_value}

-- The dict of `_parsed_to_dict`, without the fields that are copied from the intent and not read.
pub record ParsedDict : Type 0 where
  pub action : String
  pub traffic_classes : List String
  pub app : String
  pub source_link : String
  pub target_link : String
  pub dscp : ℕ
  pub node_id : String

abbrev pub default_source_for : String → String
default_source_for target =
    if str_eq target "fiber-primary" then "broadband-secondary" else "fiber-primary"

abbrev pub first_class : List String → String → String
first_class [] default = default
first_class (tc ∷ tcs) default = tc

abbrev dscp_for_action : List String → ℕ
dscp_for_action [] = 0
dscp_for_action (tc ∷ tcs) =
    get_or (lookup tc (("voip", 46) ∷ ("video", 34) ∷ ("critical", 26) ∷ ("bulk", 0) ∷ [])) 0

-- `a or b`
abbrev pub or_link : Option String → String → String
or_link none default = default
or_link (some link) default = link

abbrev or_option : Option String → Option String → Option String
or_option none later = later
or_option (some s) later = some s

abbrev pub target_of : ParsedIntent → String
target_of p =
    or_link (or_option (truthy p.target_link) (truthy p.preferred_link)) "broadband-secondary"

abbrev pub apart_from : String → String → String
apart_from target source = if str_eq source target then default_source_for target else source

abbrev pub source_of : ParsedIntent → String
source_of p =
    apart_from (target_of p) (or_link (truthy p.source_link) (default_source_for (target_of p)))

abbrev pub intent_link_defaults : Dict String
intent_link_defaults =
    ("fiber-primary", "openflow:1")
    ∷ ("broadband-secondary", "openflow:2")
    ∷ ("satellite-backup", "openflow:3")
    ∷ ("5g-mobile", "openflow:4")
    ∷ ("wifi", "openflow:5")
    ∷ []

unfoldable pub parsed_to_dict : ParsedIntent → ParsedDict
parsed_to_dict p = record {
  action = action_value p.action;
  traffic_classes = p.traffic_classes;
  app =
      or_link (or_option (truthy p.high_app) (truthy p.low_app))
        (first_class p.traffic_classes "default");
  source_link = source_of p;
  target_link = target_of p;
  dscp = dscp_for_action p.traffic_classes;
  node_id = get_or (lookup (target_of p) intent_link_defaults) "openflow:1";
}

abbrev pub priorities : Dict ℕ
priorities =
    ("prioritize", 65000)
    ∷ ("prioritize_app", 65000)
    ∷ ("prioritize_over", 65000)
    ∷ ("block", 0)
    ∷ ("redirect", 50000)
    ∷ ("deprioritize", 10000)
    ∷ ("throttle_app", 10000)
    ∷ []

unfoldable pub yang_priority : String → ℕ
yang_priority action = get_or (lookup action priorities) 20000

unfoldable pub flow_of : String → ParsedDict → FlowBody
flow_of flow_id d = record {
  id = flow_id;
  priority = some (yang_priority d.action);
  timeout = 0;
  is_permanent = true;
  table_id = 0;
  output_port = if str_eq d.target_link "" then "NORMAL" else d.target_link;
  ip_dscp = d.dscp;
  traffic_class = some (first_class d.traffic_classes "bulk");
}

pub data DeployReply : Type 0 where
  sandbox_rejected : String → SandboxResult → DeployReply
  deployed : Bool → String → SandboxResult → DeployReply

abbrev pub succeeded : DeployReply → Bool
succeeded (deployed ok flow_id sandbox) = ok
succeeded _ = false

-- The answers of the servers and of the controllers, and the time that the sandbox takes.
pub record DeployEnv : Type 0 where
  pub servers : Servers
  pub sandbox_time : ℕ
  pub odl_reply : Reply
  pub onos_reply : Reply

abbrev pub submit :
    DeployEnv → String → ParsedDict → SandboxResult → Adapter → DeployReply × Adapter
submit env flow_id d sandbox a =
    let (ok, a') = update_flow_table d.node_id flow_id 0 env.odl_reply env.onos_reply a in
    (deployed ok flow_id sandbox, a')

-- The submission, when the sandbox passed.
abbrev pub submit_if :
    DeployEnv → String → ParsedDict → SandboxResult → Adapter → Bool → DeployReply × Adapter
submit_if env flow_id d sandbox a true = submit env flow_id d sandbox a
submit_if env flow_id d sandbox a false = (sandbox_rejected flow_id sandbox, a)

unfoldable pub deploy_parsed : DeployEnv → String → ParsedIntent → Adapter → DeployReply × Adapter
deploy_parsed env flow_id parsed a =
    let d = parsed_to_dict parsed in
    let sandbox =
      run_sandbox_validation env.servers env.sandbox_time d.source_link d.target_link
        (flow_of flow_id d) in
    submit_if env flow_id d sandbox a sandbox.passed
