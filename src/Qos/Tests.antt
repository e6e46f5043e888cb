-- ===== src/Qos/Tests.antt =====
-- Tests of the model of server/app_qos, and its theorems at sample inputs.
use Prim.Native.Nat.{◌/◌}
use native.Mathlib.Nat.{div-mul-le_self, lt-div-mul-add}
use pathwiseai.Prelude.{ℕ, ◌+◌, ◌*◌, ◌≤◌, ◌≡◌, refl, String, true, none, List, [], ◌∷◌, map, arith}
use pathwiseai.Prelude.Dict.{Dict, lookup, insert, erase}
use pathwiseai.Qos.Predict.{Prediction, predict_quality}
use pathwiseai.Qos.Quality.{predict_quality-le}
use pathwiseai.Qos.Enforcer.{Allocation, compute_allocations}
use pathwiseai.Qos.Budget.{IsNearest, sum_mbps, compute_allocations-within}
use pathwiseai.Qos.Rules.{Config, no_rules, apply_priorities, clear_all_rules}
use pathwiseai.Qos.Priorities.{
  PriorityManager, validate, get_priorities, set_priorities, remove_app_priority, reset_all,
  new_dict, user_dict,
}
use pathwiseai.Qos.Separation.{IsSeparate}
use pathwiseai.Qos.Users.{Op, set, remove, reset, step, steps, view, spec_steps}
use pathwiseai.Qos.Refinement.{manager_refines}

abbrev at_one : Prediction
at_one = record {
  label = "Low (360p)";
  score = 40;
  min_mbps = 50;
  max_mbps = 150;
  allocated_mbps = 100;
}

abbrev at_four : Prediction
at_four = record {
  label = "HD (1080p)";
  score = 80;
  min_mbps = 300;
  max_mbps = 500;
  allocated_mbps = 400;
}

predict_quality-le_example : at_one.score ≤ at_four.score
unfolding predict_quality pathwiseai.Qos.Predict.best_tier pathwiseai.Qos.Predict.of_tier
predict_quality-le_example =
    predict_quality-le "zoom" 100 400 at_one at_four refl refl (omega arith)

-- To the nearest whole number, halves upwards.
abbrev half_up : ℕ → ℕ → ℕ
half_up n d = (2 * n + d) / (2 * d)

half_up-IsNearest : IsNearest half_up
half_up-IsNearest n d pos =
    let low = div-mul-le_self (2 * n + d) (2 * d) in
    let high = lt-div-mul-add {a = 2 * n + d} {b = 2 * d} (omega arith) in
    (omega (arith, low), omega (arith, high))

abbrev two_apps : Dict String
two_apps = ("zoom", "CRITICAL") ∷ ("youtube", "HIGH") ∷ []

compute_allocations-within_example :
    2 * sum_mbps (compute_allocations half_up "tc" two_apps 10000) ≤ 2 * 10000 + 2
compute_allocations-within_example =
    compute_allocations-within half_up "tc" two_apps 10000 half_up-IsNearest

abbrev rates : Dict Allocation → Dict ℕ
rates = map (λ e. (e.0, e.1.allocated_mbps))

-- 60 and 40 of 100 Mbps.
zoom_first :
    rates (compute_allocations half_up "tc" two_apps 10000)
    ≡ ("zoom", 6000) ∷ ("youtube", 4000) ∷ []
unfolding compute_allocations pathwiseai.Qos.Enforcer.total_pct lookup
zoom_first = refl

abbrev linux : Config
linux = record {
  mode = "tc";
  wan_interface = "eth0";
  total_link_mbps = 10000;
  run = λ c. record { ok = true; stdout = ""; stderr = ""; error = none };
  round = half_up;
}

abbrev nobody : PriorityManager
nobody = record {
  objects = λ r. [];
  next = 0;
  user_priorities = [];
  enforcer = no_rules;
  priority_log = [];
}

nobody-IsSeparate : IsSeparate 0 []
unfolding lookup
nobody-IsSeparate = record { below = λ u r h. absurd (cc); apart = λ u v r hu hv. absurd (cc) }

abbrev calls : List Op
calls =
    set 10 "alice" two_apps none ∷ set 20 "bob" (("steam", "LOW") ∷ []) none ∷ reset 30 "bob" ∷ []

manager_refines_example :
    view linux (steps linux calls nobody) ≡ spec_steps linux calls (view linux nobody)
manager_refines_example = manager_refines linux calls nobody nobody-IsSeparate

-- After bob's reset no rule is in force, though alice still has her priorities.
bob_clears_alice :
    (get_priorities "alice" (steps linux calls nobody) ≡ two_apps)
    × ((steps linux calls nobody).enforcer.active_rules ≡ [])
unfolding steps step set_priorities reset_all new_dict get_priorities user_dict apply_priorities
    clear_all_rules lookup insert erase validate
bob_clears_alice = (refl, refl)

abbrev one_by_one : List Op
one_by_one =
    set 10 "alice" two_apps none ∷ remove 20 "alice" "zoom" ∷ remove 30 "alice" "youtube" ∷ []

abbrev logged : PriorityManager → List (Dict String)
logged m = map (λ e. m.objects e.new_priorities) m.priority_log

-- The log of the first removal says afterwards that nothing was left.
log_rewritten : logged (steps linux one_by_one nobody) ≡ two_apps ∷ [] ∷ [] ∷ []
unfolding steps step set_priorities remove_app_priority new_dict user_dict lookup insert erase
    validate
log_rewritten = refl
