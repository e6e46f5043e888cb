-- ===== src/Shaper/Lifecycle.antt =====
-- Which policies of server/traffic_shaper.py are in force after an operation.
use pathwiseai.Prelude.{
  ℕ, zero, suc, ◌+◌, ◌-◌, ◌≤◌, ◌≡◌, refl, ap, sym, ◌∙◌, String, Bool, true, false, Option, none,
  some, List, [], ◌∷◌, ◌++◌, map, select, any, drop, push, length, length-append, arith, eq_refl,
  if◌then◌else◌,
}
use pathwiseai.Prelude.Dict.{lookup}
use pathwiseai.Qos.Rules.{Config}
use pathwiseai.Shaper.Registry.{AppProfile, app_registry}
use pathwiseai.Shaper.Defs.{TrafficPolicy, TrafficShaper, max_policies, remove_qos_policies}
use pathwiseai.Shaper.Records.{Request, switched_off, priority_policy}
use pathwiseai.Shaper.Policies.{
  is_on, lift, prioritize_found, prioritize_app, is_active_id, switch_off_first, removal,
  remove_policy, remove_all_policies,
}
use pathwiseai.Shaper.Queries.{get_active_policies}

-- Of a list that has no entry of a kind, an entry that is added at the end is the only one.
select-push :
    (p : TrafficPolicy → Bool) (k : ℕ) (ps : List TrafficPolicy) (q : TrafficPolicy)
    → select p ps ≡ []
    → k ≤ length ps
    → select p (drop k (ps ++ q ∷ [])) ≡ select p (q ∷ [])
select-push p zero [] q h le = refl
select-push p (suc k) [] q h le = absurd (omega (arith, le))
select-push p zero (r ∷ ps) q h le =
    let rest : select p ps ≡ [] → select p (ps ++ q ∷ []) ≡ select p (q ∷ []) =
      λ e. select-push p zero ps q e (omega arith) in
    ground (arith, rest)
select-push p (suc k) (r ∷ ps) q h le =
    let none_left : select p ps ≡ [] = ground arith in select-push p k ps q none_left (omega arith)

select-lift : (app : String) (ps : List TrafficPolicy) → select (is_on app) (map (lift app) ps) ≡ []
select-lift app [] = refl
select-lift app (p ∷ ps) = ground (arith, select-lift app ps)

length-map :
    (f : TrafficPolicy → TrafficPolicy) (ps : List TrafficPolicy) → length (map f ps) ≡ length ps
length-map f [] = refl
length-map f (p ∷ ps) = ground (arith, length-map f ps)

prioritize_found-only :
    (r : Request) (app_name : String) (t : TrafficShaper) (p : TrafficPolicy)
    (o : Option AppProfile)
    → (prioritize_found r app_name t o).1 ≡ some p
    → select (is_on app_name) (prioritize_found r app_name t o).0.active_policies ≡ p ∷ []
unfolding push
prioritize_found-only r app_name t p none made = absurd (cc)
prioritize_found-only r app_name t p (some app) made =
    let ps = map (lift app_name) t.active_policies in
    let q = priority_policy r app_name app (t.policy_counter + 1) in
    let same : q ≡ p = cc in
    let alone : select (is_on app_name) (q ∷ []) ≡ q ∷ [] = rw (eq_refl app_name) refl in
    select-push (is_on app_name) (length (ps ++ q ∷ []) - max_policies) ps q
      (select-lift app_name t.active_policies) (omega (arith, length-append ps (q ∷ [])))
    ∙ alone
    ∙ ap (λ x. x ∷ []) same

-- After an application was prioritized, the new policy is the only one of it that is in force.
pub prioritize_app-only :
    (r : Request) (app_name : String) (t : TrafficShaper) (p : TrafficPolicy)
    → (prioritize_app r app_name t).1 ≡ some p
    → select (is_on app_name) (prioritize_app r app_name t).0.active_policies ≡ p ∷ []
unfolding prioritize_app
prioritize_app-only r app_name t p =
    prioritize_found-only r app_name t p (lookup app_name app_registry)

-- A list without its first entry of a kind.
unfoldable pub drop_first : (TrafficPolicy → Bool) → List TrafficPolicy → List TrafficPolicy
drop_first f [] = []
drop_first f (p ∷ ps) = let rest = drop_first f ps in if f p then ps else p ∷ rest

switch_off_first-active :
    (id : String) (ps : List TrafficPolicy)
    → select (λ p. p.active) (switch_off_first id ps).0
      ≡ drop_first (is_active_id id) (select (λ p. p.active) ps)
unfolding drop_first
switch_off_first-active id [] = refl
switch_off_first-active id (p ∷ ps) = ground (arith, switch_off_first-active id ps)

abbrev is_some : Option TrafficPolicy → Bool
is_some none = false
is_some (some p) = true

switch_off_first-any :
    (id : String) (ps : List TrafficPolicy)
    → is_some (switch_off_first id ps).1 ≡ any (is_active_id id) ps
switch_off_first-any id [] = refl
switch_off_first-any id (p ∷ ps) = ground (arith, switch_off_first-any id ps)

switch_off_first-none :
    (id : String) (ps : List TrafficPolicy)
    → (switch_off_first id ps).1 ≡ none
    → (switch_off_first id ps).0 ≡ ps
switch_off_first-none id [] h = refl
switch_off_first-none id (p ∷ ps) h = ground (arith, switch_off_first-none id ps)

removal_lem :
    (config : Config) (now : ℕ) (t : TrafficShaper) (x : List TrafficPolicy × Option TrafficPolicy)
    → (x.1 ≡ none → x.0 ≡ t.active_policies)
    → ((removal config now t x).1 ≡ is_some x.1)
      × (get_active_policies (removal config now t x).0 ≡ select (λ p. p.active) x.0)
unfolding get_active_policies remove_qos_policies
removal_lem config now t (ps, none) same = (refl, ap (select (λ p. p.active)) (sym (same refl)))
removal_lem config now t (ps, some p) same = (refl, refl)

-- A removal succeeds when a policy of that id is in force. It takes the first such policy, and no
-- other, out of those in force.
pub remove_policy_lem :
    (config : Config) (now : ℕ) (id : String) (t : TrafficShaper)
    → ((remove_policy config now id t).1 ≡ any (is_active_id id) t.active_policies)
      × (get_active_policies (remove_policy config now id t).0
          ≡ drop_first (is_active_id id) (get_active_policies t))
unfolding remove_policy get_active_policies
remove_policy_lem config now id t =
    let ps = t.active_policies in
    let r = removal_lem config now t (switch_off_first id ps) (switch_off_first-none id ps) in
    (r.0 ∙ switch_off_first-any id ps, r.1 ∙ switch_off_first-active id ps)

select-switched_off : (ps : List TrafficPolicy) → select (λ p. p.active) (map switched_off ps) ≡ []
select-switched_off [] = refl
select-switched_off (p ∷ ps) = select-switched_off ps

-- After all were removed, no policy is in force.
pub remove_all_policies-none :
    (t : TrafficShaper) → get_active_policies (remove_all_policies t) ≡ []
unfolding remove_all_policies get_active_policies remove_qos_policies
remove_all_policies-none t = select-switched_off t.active_policies
