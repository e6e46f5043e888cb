-- ===== src/Billing/Tests.antt =====
-- Tests of the model of server/routers/billing.py, and its theorems at sample inputs.
use pathwiseai.Prelude.{◌≡◌, refl, true, List, [], ◌∷◌, arith}
use pathwiseai.Prelude.Dict.{lookup}
use pathwiseai.Auth.{Claims}
use pathwiseai.Billing.Defs.{mrr, upgrade_subscription, cancel_all}
use pathwiseai.Billing.Subscriptions.{IsSingle, Op, upgrade, step, steps, steps-IsSingle}

abbrev owner : Claims
owner = record { sub = "u1"; role = "BUSINESS_OWNER"; exp = 0; iat = 0 }

abbrev twice : List Op
twice = upgrade true owner "s1" 0 "starter" ∷ upgrade true owner "s2" 9 "enterprise" ∷ []

empty-IsSingle : IsSingle []
empty-IsSingle user = omega arith

steps-IsSingle_example : IsSingle (steps twice [])
steps-IsSingle_example = steps-IsSingle twice [] empty-IsSingle

-- The second plan replaces the first one.
replaced : mrr (steps twice []) ≡ 29900
unfolding mrr steps step upgrade_subscription cancel_all lookup
replaced = refl
