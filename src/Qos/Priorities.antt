-- ===== src/Qos/Priorities.antt =====
-- server/app_qos/priority_manager.py: the priorities of each user, over one enforcer for all.
-- A dict that is shared stands at a number of the store `objects`; the numbers from `next` on are
-- free. The applications that run on the host, which psutil finds, are not modelled.
use pathwiseai.Prelude.{
  ℕ, ◌+◌, String, Option, none, some, List, [], ◌∷◌, ◌++◌, map, ◌==◌, if◌then◌else◌,
}
use pathwiseai.Prelude.Dict.{Dict, lookup, insert, erase}
use pathwiseai.Qos.Tiers.{AppSignature, PriorityClass, priority_classes}
use pathwiseai.Qos.Signatures.{app_signatures}
use pathwiseai.Qos.Predict.{Prediction}
use pathwiseai.Qos.Enforcer.{Allocation}
use pathwiseai.Qos.Rules.{
  Config, BandwidthEnforcer, allocations_for, apply_priorities, clear_all_rules,
}

-- What `result_summary` keeps of one value of a result.
pub data Summary : Type 0 where
  mbps : ℕ → Summary
  text : String → Summary
  names : List String → Summary

pub record LogEntry : Type 0 where
  pub timestamp : ℕ
  pub user_id : String
  pub old_priorities : ℕ
  pub new_priorities : ℕ
  pub result_summary : Dict Summary

pub record PriorityManager : Type 0 where
  pub objects : ℕ → Dict String
  pub next : ℕ
  pub user_priorities : Dict ℕ
  pub enforcer : BandwidthEnforcer
  pub priority_log : List LogEntry

-- The two forms of ValueError.
pub data PriorityError : Type 0 where
  unknown_app unknown_class : String → PriorityError

pub data SetResult : Type 0 where
  refused : PriorityError → SetResult
  applied : Dict Allocation → SetResult

-- What `remove_app_priority` and `reset_all` return.
pub data RemoveResult : Type 0 where
  enforced : Dict Allocation → RemoveResult
  cleared : List String → RemoveResult

abbrev check_class : String → Option PriorityClass → Option PriorityError
check_class pclass none = some (unknown_class pclass)
check_class pclass (some cls) = none

abbrev check_app : String → String → Option AppSignature → Option PriorityError
check_app app_id pclass none = some (unknown_app app_id)
check_app app_id pclass (some sig) = check_class pclass (lookup pclass priority_classes)

abbrev first_error : Option PriorityError → Option PriorityError → Option PriorityError
first_error none later = later
first_error (some e) later = some e

-- The error that the validation raises, if it raises one.
unfoldable pub validate : Dict String → Option PriorityError
validate [] = none
validate ((app_id, pclass) ∷ d) =
    first_error (check_app app_id pclass (lookup app_id app_signatures)) (validate d)

abbrev pub write : ℕ → Dict String → (ℕ → Dict String) → ℕ → Dict String
write ref d objects r = if r == ref then d else objects r

-- A new dict.
unfoldable pub new_dict : Dict String → PriorityManager → PriorityManager
new_dict d m = record m { objects = write m.next d m.objects; next = m.next + 1 }

-- `_user_priorities.get(user_id, {})`: the dict, and the state, in which {} may be new.
abbrev get_or_new : PriorityManager → Option ℕ → ℕ × PriorityManager
get_or_new m none = (m.next, new_dict [] m)
get_or_new m (some ref) = (ref, m)

unfoldable pub user_dict : String → PriorityManager → ℕ × PriorityManager
user_dict user m = get_or_new m (lookup user m.user_priorities)

abbrev with_users : Dict ℕ → PriorityManager → PriorityManager
with_users users m = record m { user_priorities = users }

abbrev with_enforcer : BandwidthEnforcer → PriorityManager → PriorityManager
with_enforcer e m = record m { enforcer = e }

abbrev with_object : ℕ → Dict String → PriorityManager → PriorityManager
with_object ref d m = record m { objects = write ref d m.objects }

abbrev log_priority_change : ℕ → String → ℕ → ℕ → Dict Summary → PriorityManager → PriorityManager
log_priority_change now user old new summary m = record {
  objects = m.objects;
  next = m.next;
  user_priorities = m.user_priorities;
  enforcer = m.enforcer;
  priority_log =
      m.priority_log
      ++ record {
        timestamp = now;
        user_id = user;
        old_priorities = old;
        new_priorities = new;
        result_summary = summary;
      }
        ∷ [];
}

abbrev summary_of : Dict Allocation → Dict Summary
summary_of = map (λ e. (e.0, mbps e.1.allocated_mbps))

abbrev cleared_summary : List String → Dict Summary
cleared_summary apps = ("status", text "cleared") ∷ ("rules_removed", names apps) ∷ []

-- `set_priorities` once its input is valid. The dict that is given is one of the store too.
abbrev set_valid :
    Config → ℕ → String → Dict String → Option ℕ → PriorityManager → PriorityManager × SetResult
set_valid config now user priorities total m =
    let given = m.next in
    let m1 = new_dict priorities m in
    let (old, m2) = user_dict user m1 in
    let copy = m2.next in
    let m3 = new_dict priorities m2 in
    let m4 = with_users (insert user copy m3.user_priorities) m3 in
    let (e, result) = apply_priorities config priorities total m4.enforcer in
    (
      log_priority_change now user old given (summary_of result) (with_enforcer e m4),
      applied result,
    )

-- The answer to what the validation found.
abbrev pub set_checked :
    Config
    → ℕ
    → String
    → Dict String
    → Option ℕ
    → PriorityManager
    → Option PriorityError
    → PriorityManager × SetResult
set_checked config now user priorities total m none = set_valid config now user priorities total m
set_checked config now user priorities total m (some e) = (m, refused e)

unfoldable pub set_priorities :
    Config → ℕ → String → Dict String → Option ℕ → PriorityManager → PriorityManager × SetResult
set_priorities config now user priorities total m =
    set_checked config now user priorities total m (validate priorities)

abbrev pub contents : (ℕ → Dict String) → Option ℕ → Dict String
contents objects none = []
contents objects (some ref) = objects ref

unfoldable pub get_priorities : String → PriorityManager → Dict String
get_priorities user m = contents m.objects (lookup user m.user_priorities)

-- The enforcer after a removal, what is logged and what is returned.
abbrev pub enforce_rest :
    Config → Dict String → BandwidthEnforcer → BandwidthEnforcer × Dict Summary × RemoveResult
enforce_rest config [] e =
    let (e', apps) = clear_all_rules config e in (e', cleared_summary apps, cleared apps)
enforce_rest config (p ∷ d) e =
    let (e', result) = apply_priorities config (p ∷ d) none e in
    (e', summary_of result, enforced result)

unfoldable pub remove_app_priority :
    Config → ℕ → String → String → PriorityManager → PriorityManager × RemoveResult
remove_app_priority config now user app_id m =
    let (priors, m1) = user_dict user m in
    let old = m1.next in
    let m2 = new_dict (m1.objects priors) m1 in
    let rest = erase app_id (m1.objects priors) in
    let m3 = with_object priors rest m2 in
    let m4 = with_users (insert user priors m3.user_priorities) m3 in
    let (e, summary, result) = enforce_rest config rest m4.enforcer in
    (log_priority_change now user old priors summary (with_enforcer e m4), result)

unfoldable pub reset_all : Config → ℕ → String → PriorityManager → PriorityManager × RemoveResult
reset_all config now user m =
    let (old, m1) = user_dict user m in
    let m2 = with_users (erase user m1.user_priorities) m1 in
    let (e, apps) = clear_all_rules config m2.enforcer in
    let new = m2.next in
    let m3 = new_dict [] (with_enforcer e m2) in
    (log_priority_change now user old new (cleared_summary apps) m3, cleared apps)

pub record AppQuality : Type 0 where
  pub app_id : String
  pub display_name : String
  pub priority : String
  pub allocated_mbps : ℕ
  pub quality : Option Prediction

abbrev display_name_of : String → Option AppSignature → String
display_name_of app_id none = app_id
display_name_of app_id (some sig) = sig.display_name

abbrev quality_of : String × Allocation → AppQuality
quality_of (app_id, alloc) = record {
  app_id = app_id;
  display_name = display_name_of app_id (lookup app_id app_signatures);
  priority = alloc.priority;
  allocated_mbps = alloc.allocated_mbps;
  quality = alloc.quality;
}

abbrev predictions : Config → Option ℕ → Dict String → List AppQuality
predictions config total [] = []
predictions config total (p ∷ d) = map quality_of (allocations_for config (p ∷ d) total)

unfoldable pub get_quality_predictions :
    Config → String → Option ℕ → PriorityManager → List AppQuality
get_quality_predictions config user total m = predictions config total (get_priorities user m)

abbrev pub get_all_user_priorities : PriorityManager → Dict (Dict String)
get_all_user_priorities m = map (λ e. (e.0, m.objects e.1)) m.user_priorities
