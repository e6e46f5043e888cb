-- ===== src/Service/Tests.antt =====
-- Tests of the model of services/traffic-steering, and its theorems at sample inputs.
use pathwiseai.Prelude.{◌≡◌, refl, String, true, List, [], ◌∷◌, map, all}
use pathwiseai.Service.Engine.{Entry, SteeringDecision, evaluate}
use pathwiseai.Service.Decisions.{is_improvement, evaluate-improves}

abbrev links : List Entry
links =
    ("fiber", record { health_score = 29000; confidence = 900 })
    ∷ ("5g", record { health_score = 28000; confidence = 900 })
    ∷ []

evaluate-improves_example : all (is_improvement links) (evaluate links) ≡ true
evaluate-improves_example = evaluate-improves links

abbrev ends : SteeringDecision → String × String
ends d = (d.source_link, d.target_link)

abbrev moves : List Entry → List (String × String)
moves p = map ends (evaluate p)

-- The target of a failover can be a link below the critical threshold too.
critical_target : moves links ≡ ("5g", "fiber") ∷ []
unfolding evaluate pathwiseai.Service.Engine.best_link pathwiseai.Service.Engine.sorted_links
critical_target = refl
