-- ===== src/Shaper/Policies.antt =====
-- The operations of server/traffic_shaper.py on the policies.
use Prim.Native.String.{◌++◌ as ◌+++◌}
use pathwiseai.Prelude.{
  ℕ, ◌+◌, ◌*◌, String, Bool, true, false, Option, none, some, List, [], ◌∷◌, ◌++◌, map, select, leb,
  ◌&&◌, str_eq, if◌then◌else◌,
}
use pathwiseai.Prelude.Dict.{lookup}
use pathwiseai.Qos.Rules.{Config}
use pathwiseai.Qos.Priorities.{set_priorities, reset_all}
use pathwiseai.Shaper.Registry.{AppProfile, app_registry}
use pathwiseai.Shaper.Defs.{
  TrafficPolicy, Command, remove_like, throttled, prioritized, removed, TrafficShaper, Resolver,
  create_qos_throttle, remove_qos_policies,
}
use pathwiseai.Shaper.Records.{
  or_text, add_policy, count_up, with_manager, with_policies, switched_off, throttle_name,
  throttle_policy, priority_policy, Request,
}

-- `_apply_app_qos_enforcement`; an error of `set_priorities` is dropped.
abbrev pub apply_app_qos_enforcement : Config → ℕ → String → String → TrafficShaper → TrafficShaper
apply_app_qos_enforcement config now app_name priority t =
    with_manager (set_priorities config now "ibn" ((app_name, priority) ∷ []) none t.manager).0 t

abbrev pub class_for : ℕ → String
class_for kbps = if leb kbps 10 then "BLOCKED" else "LOW"

-- `throttle_app` of an application that is known.
abbrev pub throttle_known :
    Config
    → Resolver
    → Request
    → String
    → ℕ
    → AppProfile
    → TrafficShaper
    → TrafficShaper × Option TrafficPolicy
throttle_known config resolve r app_name kbps app t =
    let n = t.policy_counter + 1 in
    let t1 =
      create_qos_throttle resolve (throttle_name app_name n) app (kbps * 1000) (count_up t) in
    let t2 = apply_app_qos_enforcement config r.now app_name (class_for kbps) t1 in
    let p = throttle_policy r app_name app kbps n in
    (add_policy p (throttled app_name kbps p.reason) t2, some p)

-- The loop of `prioritize_app`: the policies afterwards, and those that were switched off.
abbrev pub is_on : String → TrafficPolicy → Bool
is_on app_name p = str_eq p.app_name app_name && p.active

abbrev pub lift : String → TrafficPolicy → TrafficPolicy
lift app_name p = if is_on app_name p then switched_off p else p

abbrev pub removals : List TrafficPolicy → List (List Command)
removals = map (λ p. remove_like p.qos_policy_name ∷ [])

abbrev pub prioritize_known :
    Request → String → AppProfile → TrafficShaper → TrafficShaper × Option TrafficPolicy
prioritize_known r app_name app t =
    let n = t.policy_counter + 1 in
    let t1 : TrafficShaper = record t {
      active_policies = map (lift app_name) t.active_policies;
      policy_counter = n;
      scripts = t.scripts ++ removals (select (is_on app_name) t.active_policies);
    } in
    let p = priority_policy r app_name app n in
    (add_policy p (prioritized app_name p.reason) t1, some p)

abbrev pub throttle_found :
    Config
    → Resolver
    → Request
    → String
    → ℕ
    → TrafficShaper
    → Option AppProfile
    → TrafficShaper × Option TrafficPolicy
throttle_found config resolve r app_name kbps t none = (t, none)
throttle_found config resolve r app_name kbps t (some app) =
    throttle_known config resolve r app_name kbps app t

unfoldable pub throttle_app :
    Config → Resolver → Request → String → ℕ → TrafficShaper → TrafficShaper × Option TrafficPolicy
throttle_app config resolve r app_name kbps t =
    throttle_found config resolve r app_name kbps t (lookup app_name app_registry)

abbrev pub prioritize_found :
    Request → String → TrafficShaper → Option AppProfile → TrafficShaper × Option TrafficPolicy
prioritize_found r app_name t none = (t, none)
prioritize_found r app_name t (some app) = prioritize_known r app_name app t

unfoldable pub prioritize_app :
    Request → String → TrafficShaper → TrafficShaper × Option TrafficPolicy
prioritize_app r app_name t = prioritize_found r app_name t (lookup app_name app_registry)

abbrev pub is_active_id : String → TrafficPolicy → Bool
is_active_id id p = str_eq p.id id && p.active

-- The policies with the first active one of the id switched off, and that one.
abbrev pub switch_off_first :
    String → List TrafficPolicy → List TrafficPolicy × Option TrafficPolicy
switch_off_first id [] = ([], none)
switch_off_first id (p ∷ ps) =
    let (rest, found) = switch_off_first id ps in
    if is_active_id id p then (switched_off p ∷ ps, some p) else (p ∷ rest, found)

-- What `remove_policy` does with the policy that it found.
abbrev pub removal :
    Config → ℕ → TrafficShaper → List TrafficPolicy × Option TrafficPolicy → TrafficShaper × Bool
removal config now t (ps, none) = (t, false)
removal config now t (ps, some p) =
    let t1 = remove_qos_policies p.qos_policy_name (with_policies ps t) in
    let t2 = with_manager (reset_all config now "ibn" t1.manager).0 t1 in
    let details = "Removed " +++ p.action +++ " policy on " +++ p.display_name in
    (record t2 { audit = t2.audit ++ removed p.app_name p.id details ∷ [] }, true)

unfoldable pub remove_policy : Config → ℕ → String → TrafficShaper → TrafficShaper × Bool
remove_policy config now id t = removal config now t (switch_off_first id t.active_policies)

unfoldable pub remove_all_policies : TrafficShaper → TrafficShaper
remove_all_policies t =
    remove_qos_policies "PathWise-" (with_policies (map switched_off t.active_policies) t)

abbrev as_list : Option TrafficPolicy → List TrafficPolicy
as_list none = []
as_list (some p) = p ∷ []

-- The second request has the id and the time of the throttle.
unfoldable pub prioritize_over :
    Config
    → Resolver
    → Request
    → Request
    → String
    → String
    → ℕ
    → TrafficShaper
    → TrafficShaper × List TrafficPolicy
prioritize_over config resolve r1 r2 high_app low_app kbps t =
    let because : Request → String → Request =
      λ r default. record r { reason = or_text r.reason default } in
    let (t1, p1) = prioritize_app (because r1 ("Prioritized over " +++ low_app)) high_app t in
    let (t2, p2) =
      throttle_app config resolve (because r2 ("Throttled in favor of " +++ high_app)) low_app kbps
        t1 in
    (t2, as_list p1 ++ as_list p2)
