-- ===== src/Ibn/Deployment.antt =====
-- Which intents of server/ibn_engine.py can be deployed.
use pathwiseai.Prelude.{
  ◌≡◌, refl, ap, sym, ◌∙◌, String, Bool, true, false, not, List, [], ◌∷◌, all, ltb, leb, ◌==◌, ◌&&◌,
  ◌||◌, str_eq, eq_iff, arith, Bool-cases, inl, inr,
}
use mathlib.Core.Path.{subst}
use pathwiseai.Prelude.Dict.{lookup, keys}
use pathwiseai.Sandbox.Topology.{link_to_node_id}
use pathwiseai.Sandbox.Run.{SandboxResult, run_sandbox_validation}
use pathwiseai.Sandbox.Verdict.{has_valid_priority, run_sandbox_validation-memory}
use pathwiseai.Sdn.{Adapter, update_flow_table}
use pathwiseai.Ibn.Defs.{
  IntentAction, prioritize, ensure_latency, ensure_jitter, ensure_loss, ensure_bandwidth, block,
  redirect, deprioritize, throttle_app, prioritize_app, prioritize_over, selective_degrade,
  ParsedIntent, truthy,
}
use pathwiseai.Degrader.Candidates.{contains}
use pathwiseai.Ibn.Yang.{action_value}
use pathwiseai.Ibn.Deploy.{
  ParsedDict, or_link, submit_if, default_source_for, target_of, apart_from, source_of,
  intent_link_defaults, parsed_to_dict, yang_priority, flow_of, DeployEnv, succeeded, deploy_parsed,
}

abbrev links : List String
links = keys intent_link_defaults

-- A link of the program, by its full name.
abbrev pub is_link : String → Bool
is_link s = contains s links

default_source_for-apart : (target : String) → str_eq (default_source_for target) target ≡ false
default_source_for-apart target = elim (Bool-cases (str_eq target "fiber-primary")) [
  | inl fiber ↦
      rw fiber (ap (str_eq "broadband-secondary") ((eq_iff target "fiber-primary").0 fiber))
  | inr other ↦ rw other (elim (Bool-cases (str_eq "fiber-primary" target)) [
    | inl same ↦ absurd (
        let named =
          (eq_iff target "fiber-primary").1 (sym ((eq_iff "fiber-primary" target).0 same)) in
        cc)
    | inr apart ↦ apart
  ])
]

-- The source of a deployment is never its target.
apart_from-apart : (target source : String) → str_eq (apart_from target source) target ≡ false
apart_from-apart target source = elim (Bool-cases (str_eq source target)) [
  | inl same ↦ rw same (default_source_for-apart target)
  | inr other ↦ rw other other
]

source_apart : (p : ParsedIntent) → str_eq (source_of p) (target_of p) ≡ false
source_apart p =
    apart_from-apart (target_of p)
      (or_link (truthy p.source_link) (default_source_for (target_of p)))

abbrev differ : String → String → Bool
differ s t = str_eq s t || not (link_to_node_id s == link_to_node_id t)

all_differ : all (λ s. all (differ s) links) links ≡ true
unfolding link_to_node_id
all_differ = refl

priority_valid :
    (a : IntentAction)
    → (ltb 0 (yang_priority (action_value a)) && leb (yang_priority (action_value a)) 65535)
      ≡ not (str_eq (action_value a) "block")
unfolding yang_priority lookup
priority_valid prioritize = refl
priority_valid ensure_latency = refl
priority_valid ensure_jitter = refl
priority_valid ensure_loss = refl
priority_valid ensure_bandwidth = refl
priority_valid block = refl
priority_valid redirect = refl
priority_valid deprioritize = refl
priority_valid throttle_app = refl
priority_valid prioritize_app = refl
priority_valid prioritize_over = refl
priority_valid selective_degrade = refl

all-contains :
    (f : String → Bool) (s : String) (ts : List String)
    → all f ts ≡ true
    → contains s ts ≡ true
    → f s ≡ true
all-contains f s [] every held = absurd (cc)
all-contains f s (t ∷ ts) every held = elim (Bool-cases (str_eq t s)) [
  | inl same ↦
      let here : f t ≡ true = ground arith in subst (λ u. f u ≡ true) ((eq_iff t s).0 same) here
  | inr other ↦ all-contains f s ts (ground arith) (ground arith)
]

nodes_differ :
    (s t : String)
    → is_link s ≡ true
    → is_link t ≡ true
    → str_eq s t ≡ false
    → (link_to_node_id s == link_to_node_id t) ≡ false
nodes_differ s t hs ht apart =
    let row = all-contains (λ u. all (differ u) links) s links all_differ hs in
    let cell = all-contains (differ s) t links row ht in ground (arith, apart, cell)

submit_if-succeeds :
    (env : DeployEnv) (flow_id : String) (d : ParsedDict) (r : SandboxResult) (a : Adapter)
    (b : Bool)
    → succeeded (submit_if env flow_id d r a b).0
      ≡ (b && (update_flow_table d.node_id flow_id 0 env.odl_reply env.onos_reply a).0)
submit_if-succeeds env flow_id d r a true = refl
submit_if-succeeds env flow_id d r a false = refl

-- In memory mode, with links that the program knows, an intent is deployed exactly if it does not
-- block traffic and the controllers take the flow rule: the sandbox rejects each intent that blocks
-- and no other.
pub deploy_parsed-memory :
    (env : DeployEnv) (flow_id : String) (p : ParsedIntent) (a : Adapter)
    → env.servers.mininet_mode ≡ false
    → is_link (source_of p) ≡ true
    → is_link (target_of p) ≡ true
    → succeeded (deploy_parsed env flow_id p a).0 ≡ (
        not (str_eq (action_value p.action) "block")
        && (update_flow_table
            (parsed_to_dict p).node_id
            flow_id
            0
            env.odl_reply
            env.onos_reply
            a).0)
unfolding deploy_parsed parsed_to_dict flow_of
deploy_parsed-memory env flow_id p a memory hs ht =
    let d = parsed_to_dict p in
    let f = flow_of flow_id d in
    let result =
      run_sandbox_validation env.servers env.sandbox_time (source_of p) (target_of p) f in
    let verdict =
      run_sandbox_validation-memory env.servers env.sandbox_time (source_of p) (target_of p) f
        memory in
    let apart = nodes_differ (source_of p) (target_of p) hs ht (source_apart p) in
    let valid = priority_valid p.action in
    let passes : result.passed ≡ not (str_eq (action_value p.action) "block") =
      verdict ∙ ap (λ b. not b && has_valid_priority f) apart ∙ valid in
    let taken = (update_flow_table d.node_id flow_id 0 env.odl_reply env.onos_reply a).0 in
    submit_if-succeeds env flow_id d result a result.passed ∙ ap (λ b. b && taken) passes
