-- ===== src/Shaper/Enforcement.antt =====
-- What stays in force behind the policies of server/traffic_shaper.py.
use pathwiseai.Prelude.{
  ℕ, ◌≡◌, refl, ap, sym, ◌∙◌, String, Bool, true, false, Option, none, some, List, [], ◌∷◌, all,
  find, all-find,
}
use pathwiseai.Prelude.Dict.{Dict, lookup}
use pathwiseai.Prelude.Text.{codes, same_codes, is_within}
use pathwiseai.Qos.Rules.{Config, allocations_for, apply_priorities}
use pathwiseai.Qos.Priorities.{PriorityManager, validate, set_checked, set_priorities}
use pathwiseai.Shaper.Registry.{AppProfile, app_registry, app_aliases}
use pathwiseai.Shaper.Defs.{TrafficShaper, Resolver, create_qos_throttle}
use pathwiseai.Shaper.Records.{Request}
use pathwiseai.Shaper.Policies.{
  class_for, throttle_found, throttle_app, prioritize_found, prioritize_app,
}
use pathwiseai.Shaper.Queries.{key_of, alias_of, or_else, sort_aliases, resolve_codes}

set_priorities-rules :
    (config : Config) (now : ℕ) (user : String) (priorities : Dict String) (total : Option ℕ)
    (m : PriorityManager)
    → validate priorities ≡ none
    → (set_priorities config now user priorities total m).0.enforcer.active_rules
      ≡ allocations_for config priorities total
unfolding set_priorities apply_priorities
set_priorities-rules config now user priorities total m valid =
    ap (λ o. (set_checked config now user priorities total m o).0.enforcer.active_rules) valid

prioritize_found-manager :
    (r : Request) (app_name : String) (t : TrafficShaper) (o : Option AppProfile)
    → (prioritize_found r app_name t o).0.manager ≡ t.manager
prioritize_found-manager r app_name t none = refl
prioritize_found-manager r app_name t (some app) = refl

prioritize_app-manager :
    (r : Request) (app_name : String) (t : TrafficShaper)
    → (prioritize_app r app_name t).0.manager ≡ t.manager
unfolding prioritize_app
prioritize_app-manager r app_name t =
    prioritize_found-manager r app_name t (lookup app_name app_registry)

-- A throttle of an application that both tables know puts the rules of that application alone in
-- force, whichever were in force before. To prioritize an application afterwards, the same one or
-- another, leaves these rules in force.
pub throttle_app-prioritize_app :
    (config : Config) (resolve : Resolver) (r s : Request) (app_name other : String) (kbps : ℕ)
    (t : TrafficShaper) (app : AppProfile)
    → lookup app_name app_registry ≡ some app
    → validate ((app_name, class_for kbps) ∷ []) ≡ none
    → let t' = (throttle_app config resolve r app_name kbps t).0 in
      let rules = allocations_for config ((app_name, class_for kbps) ∷ []) none in
      (t'.manager.enforcer.active_rules ≡ rules)
      × ((prioritize_app s other t').0.manager.enforcer.active_rules ≡ rules)
unfolding throttle_app create_qos_throttle
throttle_app-prioritize_app config resolve r s app_name other kbps t app known valid =
    let t' = (throttle_app config resolve r app_name kbps t).0 in
    let first =
      ap (λ o. (throttle_found config resolve r app_name kbps t o).0.manager.enforcer.active_rules)
        known
      ∙ set_priorities-rules config r.now "ibn" ((app_name, class_for kbps) ∷ []) none t.manager
          valid in
    (first, ap (λ m. m.enforcer.active_rules) (prioritize_app-manager s other t') ∙ first)

abbrev is_known : Option AppProfile → Bool
is_known none = false
is_known (some app) = true

is_known_lem : (o : Option AppProfile) → is_known o ≡ true → (app : AppProfile) × (o ≡ some app)
is_known_lem none h = absurd (cc)
is_known_lem (some app) h = (app, refl)

abbrev key_known : String × AppProfile → Bool
key_known (name, app) = is_known (lookup name app_registry)

abbrev alias_known : String × String → Bool
alias_known (alias, name) = is_known (lookup name app_registry)

keys_known : all key_known app_registry ≡ true
unfolding lookup
keys_known = refl

aliases_known : all alias_known (sort_aliases app_aliases) ≡ true
unfolding lookup
aliases_known = refl

alias_of-known :
    (t : List ℕ) (name : String) (o : Option (String × String))
    → find (λ e. is_within (codes e.0) t) (sort_aliases app_aliases) ≡ o
    → alias_of o ≡ some name
    → is_known (lookup name app_registry) ≡ true
alias_of-known t name none found h = absurd (cc)
alias_of-known t name (some (alias, n)) found h =
    let same : n ≡ name = cc in
    ap (λ k. is_known (lookup k app_registry)) (sym same)
    ∙ all-find (λ e. is_within (codes e.0) t) alias_known (sort_aliases app_aliases) (alias, n)
        aliases_known found

key_of-known :
    (t : List ℕ) (name : String) (o : Option (String × AppProfile))
    → find (λ e. same_codes (codes e.0) t) app_registry ≡ o
    → or_else (key_of o) (alias_of (find (λ e. is_within (codes e.0) t) (sort_aliases app_aliases)))
      ≡ some name
    → is_known (lookup name app_registry) ≡ true
key_of-known t name none found h =
    alias_of-known t name (find (λ e. is_within (codes e.0) t) (sort_aliases app_aliases)) refl h
key_of-known t name (some (n, app)) found h =
    let same : n ≡ name = cc in
    ap (λ k. is_known (lookup k app_registry)) (sym same)
    ∙ all-find (λ e. same_codes (codes e.0) t) key_known app_registry (n, app) keys_known found

-- Each name that a text is resolved to is the key of an application.
pub resolve_codes-known :
    (t : List ℕ) (name : String)
    → resolve_codes t ≡ some name
    → (app : AppProfile) × (lookup name app_registry ≡ some app)
unfolding resolve_codes
resolve_codes-known t name found =
    is_known_lem (lookup name app_registry)
      (key_of-known t name (find (λ e. same_codes (codes e.0) t) app_registry) refl found)
