-- ===== src/Qos/Refinement.antt =====
-- server/app_qos/priority_manager.py does what a map from users to priorities and one set of rules do.
use pathwiseai.Prelude.{
  ℕ, ◌+◌, ◌≡◌, refl, ap, ◌∙◌, String, Option, none, some, List, [], ◌∷◌, arith,
}
use pathwiseai.Prelude.Dict.{Dict, insert, erase}
use pathwiseai.Qos.Rules.{Config, BandwidthEnforcer, apply_priorities, clear_all_rules}
use pathwiseai.Qos.Priorities.{
  PriorityManager, PriorityError, set_checked, new_dict, user_dict, validate, set_priorities,
  remove_app_priority, reset_all, enforce_rest, get_priorities,
}
use pathwiseai.Qos.Separation.{
  IsSeparate, IsSeparate-later, IsSeparate-insert, IsSeparate-erase, user_dict-IsUserDict,
}
use pathwiseai.Qos.Users.{
  Op, set, remove, reset, step, steps, view, spec_set, spec_step, spec_steps, rules_for,
  abstract_eq, set_prefs, remove_prefs, reset_prefs,
}

module _ (config : Config) where
  enforce_rest-rules :
      (d : Dict String) (e : BandwidthEnforcer)
      → (enforce_rest config d e).0.active_rules ≡ rules_for config d
  unfolding apply_priorities clear_all_rules
  enforce_rest-rules [] e = refl
  enforce_rest-rules (p ∷ d) e = refl

  -- A step that keeps the dicts apart and does what the abstract one does.
  abbrev Refines : Op → PriorityManager → Type 0
  Refines op m =
      IsSeparate (step config op m).next (step config op m).user_priorities
      × (view config (step config op m) ≡ spec_step config op (view config m))

  checked_refines :
      (now : ℕ) (user : String) (priorities : Dict String) (total : Option ℕ) (m : PriorityManager)
      → IsSeparate m.next m.user_priorities
      → (o : Option PriorityError)
      → let m' = (set_checked config now user priorities total m o).0 in
        IsSeparate m'.next m'.user_priorities
        × (view config m' ≡ spec_set config user priorities total (view config m) o)
  unfolding apply_priorities new_dict get_priorities
  checked_refines now user priorities total m sep none =
      let m1 = new_dict priorities m in
      let given = user_dict-IsUserDict user m1 (IsSeparate-later m.next m.user_priorities sep) in
      let m2 = (user_dict user m1).1 in
      let copied = IsSeparate-later m2.next m2.user_priorities given.separate in
      (
        IsSeparate-insert (m2.next + 1) m2.user_priorities copied user m2.next (omega arith)
            (λ v h. absurd (let low = given.separate.below v m2.next h in omega (arith, low))),
        abstract_eq config (λ v. set_prefs config user v priorities m sep) refl,
      )
  checked_refines now user priorities total m sep (some e) = (sep, refl)

  remove-Refines :
      (now : ℕ) (user app_id : String) (m : PriorityManager)
      → IsSeparate m.next m.user_priorities
      → Refines (remove now user app_id) m
  unfolding step remove_app_priority spec_step new_dict get_priorities
  remove-Refines now user app_id m sep =
      let given = user_dict-IsUserDict user m sep in
      let p = (user_dict user m).0 in
      let m1 = (user_dict user m).1 in
      (
        IsSeparate-later m1.next (insert user p m1.user_priorities) (
            IsSeparate-insert m1.next m1.user_priorities given.separate user p given.low given.own),
        abstract_eq config (λ v. remove_prefs config user v app_id m sep)
            (enforce_rest-rules (erase app_id (m1.objects p)) m1.enforcer
              ∙ ap (λ d. rules_for config (erase app_id d)) given.holds),
      )

  reset-Refines :
      (now : ℕ) (user : String) (m : PriorityManager)
      → IsSeparate m.next m.user_priorities
      → Refines (reset now user) m
  unfolding step reset_all spec_step clear_all_rules new_dict get_priorities
  reset-Refines now user m sep =
      let given = user_dict-IsUserDict user m sep in
      let m1 = (user_dict user m).1 in
      (
        IsSeparate-later m1.next (erase user m1.user_priorities)
            (IsSeparate-erase m1.next m1.user_priorities given.separate user),
        abstract_eq config (λ v. reset_prefs config user v m sep) refl,
      )

  step-Refines :
      (op : Op) (m : PriorityManager) → IsSeparate m.next m.user_priorities → Refines op m
  unfolding step set_priorities spec_step
  step-Refines (set now user priorities total) m sep =
      checked_refines now user priorities total m sep (validate priorities)
  step-Refines (remove now user app_id) m sep = remove-Refines now user app_id m sep
  step-Refines (reset now user) m sep = reset-Refines now user m sep

  -- Any sequence of calls does what the same calls do to a map from the users to their priorities
  -- and one set of rules: a valid setting, a removal or a reset changes the priorities of its user
  -- alone, an invalid setting changes nothing, and each change replaces the rules of all users.
  pub manager_refines :
      (ops : List Op) (m : PriorityManager)
      → IsSeparate m.next m.user_priorities
      → view config (steps config ops m) ≡ spec_steps config ops (view config m)
  unfolding steps spec_steps
  manager_refines [] m sep = refl
  manager_refines (op ∷ ops) m sep =
      let one = step-Refines op m sep in
      manager_refines ops (step config op m) one.0 ∙ ap (spec_steps config ops) one.1
