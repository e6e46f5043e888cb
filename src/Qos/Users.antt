-- ===== src/Qos/Users.antt =====
-- What the operations of server/app_qos/priority_manager.py do to the priorities of the users.
use mathlib.Core.Path.{fun_ext}
use pathwiseai.Prelude.{
  ℕ, ◌≡◌, refl, ap, ◌∙◌, String, Option, none, some, List, [], ◌∷◌, arith, eq_iff, str_eq, ==_iff,
  Bool-cases, inl, inr, if◌then◌else◌,
}
use pathwiseai.Prelude.Dict.{Dict, lookup, insert, erase}
use pathwiseai.Qos.Enforcer.{Allocation}
use pathwiseai.Qos.Rules.{Config, allocations_for}
use pathwiseai.Qos.Priorities.{
  PriorityManager, PriorityError, write, new_dict, user_dict, contents, get_priorities, validate,
  set_priorities, remove_app_priority, reset_all,
}
use pathwiseai.Qos.Separation.{
  IsSeparate, IsSeparate-later, IsSeparate-erase, contents_fresh, contents_other, contents-insert,
  contents-erase, user_dict-IsUserDict,
}

pub data Op : Type 0 where
  set : ℕ → String → Dict String → Option ℕ → Op
  remove : ℕ → String → String → Op
  reset : ℕ → String → Op

module _ (config : Config) where
  unfoldable pub step : Op → PriorityManager → PriorityManager
  step (set now user priorities total) m = (set_priorities config now user priorities total m).0
  step (remove now user app_id) m = (remove_app_priority config now user app_id m).0
  step (reset now user) m = (reset_all config now user m).0

  unfoldable pub steps : List Op → PriorityManager → PriorityManager
  steps [] m = m
  steps (op ∷ ops) m = steps ops (step op m)

  -- What a caller of the module can know: the priorities of each user, and the one set of rules.
  pub record Abstract : Type 0 where
    pub prefs : String → Dict String
    pub rules : Dict Allocation

  abbrev pub view : PriorityManager → Abstract
  view m = record { prefs = λ user. get_priorities user m; rules = m.enforcer.active_rules }

  abbrev pub override : String → Dict String → (String → Dict String) → String → Dict String
  override user d prefs v = if str_eq user v then d else prefs v

  abbrev pub rules_for : Dict String → Dict Allocation
  rules_for [] = []
  rules_for (p ∷ d) = allocations_for config (p ∷ d) none

  abbrev pub spec_set : String → Dict String → Option ℕ → Abstract → Option PriorityError → Abstract
  spec_set user priorities total s none = record {
    prefs = override user priorities s.prefs;
    rules = allocations_for config priorities total;
  }
  spec_set user priorities total s (some e) = s

  -- The same operations on the abstract state.
  unfoldable pub spec_step : Op → Abstract → Abstract
  spec_step (set now user priorities total) s =
      spec_set user priorities total s (validate priorities)
  spec_step (remove now user app_id) s =
      let rest = erase app_id (s.prefs user) in
      record { prefs = override user rest s.prefs; rules = rules_for rest }
  spec_step (reset now user) s = record { prefs = override user [] s.prefs; rules = [] }

  unfoldable pub spec_steps : List Op → Abstract → Abstract
  spec_steps [] s = s
  spec_steps (op ∷ ops) s = spec_steps ops (spec_step op s)

  abbrev pub the_state : (String → Dict String) → Dict Allocation → Abstract
  the_state p r = record { prefs = p; rules = r }

  pub abstract_eq :
      {p q : String → Dict String} {r t : Dict Allocation}
      → ((v : String) → p v ≡ q v)
      → r ≡ t
      → the_state p r ≡ the_state q t
  abstract_eq {p} {q} {r} {t} hp hr = rw (hr, fun_ext hp) refl

  pub set_prefs :
      (user v : String) (d : Dict String) (m : PriorityManager)
      → IsSeparate m.next m.user_priorities
      → let m2 = (user_dict user (new_dict d m)).1 in
        contents (write m2.next d m2.objects) (lookup v (insert user m2.next m2.user_priorities))
        ≡ override user d (view m).prefs v
  unfolding new_dict get_priorities
  set_prefs user v d m sep =
      let m1 = new_dict d m in
      let given = user_dict-IsUserDict user m1 (IsSeparate-later m.next m.user_priorities sep) in
      let m2 = (user_dict user m1).1 in
      contents-insert (write m2.next d m2.objects) m2.user_priorities user m2.next v
      ∙ elim (Bool-cases (str_eq user v)) [
        | inl same ↦ rw same (ground (arith, ==_iff m2.next m2.next))
        | inr other ↦ rw other (
            contents_fresh m2.next m2.user_priorities given.separate m2.objects d v
            ∙ given.keeps v
            ∙ contents_fresh m.next m.user_priorities sep m.objects d v)
      ]

  pub remove_prefs :
      (user v app_id : String) (m : PriorityManager)
      → IsSeparate m.next m.user_priorities
      → let p = (user_dict user m).0 in
        let m1 = (user_dict user m).1 in
        let rest = erase app_id (m1.objects p) in
        contents
          (write p rest (write m1.next (m1.objects p) m1.objects))
          (lookup v (insert user p m1.user_priorities))
        ≡ override user (erase app_id (get_priorities user m)) (view m).prefs v
  unfolding get_priorities
  remove_prefs user v app_id m sep =
      let p = (user_dict user m).0 in
      let m1 = (user_dict user m).1 in
      let given = user_dict-IsUserDict user m sep in
      let rest = erase app_id (m1.objects p) in
      let objects = write m1.next (m1.objects p) m1.objects in
      contents-insert (write p rest objects) m1.user_priorities user p v
      ∙ elim (Bool-cases (str_eq user v)) [
        | inl same ↦ rw same (ground (arith, ==_iff p p) ∙ ap (erase app_id) given.holds)
        | inr other ↦ rw other (
            contents_other m1.next m1.user_priorities given.separate objects rest user p v given.own
              (λ e. ground (arith, eq_iff user v))
            ∙ contents_fresh m1.next m1.user_priorities given.separate m1.objects (m1.objects p) v
            ∙ given.keeps v)
      ]

  pub reset_prefs :
      (user v : String) (m : PriorityManager)
      → IsSeparate m.next m.user_priorities
      → let m1 = (user_dict user m).1 in
        contents (write m1.next [] m1.objects) (lookup v (erase user m1.user_priorities))
        ≡ override user [] (view m).prefs v
  unfolding get_priorities
  reset_prefs user v m sep =
      let m1 = (user_dict user m).1 in
      let given = user_dict-IsUserDict user m sep in
      let apart = IsSeparate-erase m1.next m1.user_priorities given.separate user in
      contents_fresh m1.next (erase user m1.user_priorities) apart m1.objects [] v
      ∙ contents-erase m1.objects m1.user_priorities user v
      ∙ ap (λ d. if str_eq user v then [] else d) (given.keeps v)
