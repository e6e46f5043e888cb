-- ===== src/Billing/Subscriptions.antt =====
-- What server/routers/billing.py keeps true of the subscriptions.
use pathwiseai.Prelude.{
  ℕ, ◌+◌, ◌≤◌, ◌≡◌, refl, ap, ◌∙◌, String, Bool, true, false, Option, none, some, List, [], ◌∷◌,
  ◌++◌, arith, select, length, str_eq, eq_iff, ◌&&◌, Bool-cases, inl, inr, if◌then◌else◌,
}
use pathwiseai.Prelude.Dict.{lookup}
use pathwiseai.Auth.{Claims, HttpError}
use pathwiseai.Billing.Defs.{
  Plan, plans, Subscription, is_user, guard, is_active_of, cancelled, cancel_all, new_subscription,
  upgrade_to, upgrade_guarded, upgrade_subscription, cancel_guarded, cancel_subscription,
}

-- The active subscriptions of a user.
abbrev pub active_of : String → List Subscription → ℕ
active_of user table = length (select (is_active_of user) table)

-- No user pays twice.
abbrev pub IsSingle : List Subscription → Type 0
IsSingle table = (user : String) → active_of user table ≤ 1

active_of-cancel_all-le :
    (user v : String) (table : List Subscription)
    → active_of v (cancel_all user table) ≤ active_of v table
unfolding cancel_all
active_of-cancel_all-le user v [] = omega arith
active_of-cancel_all-le user v (s ∷ ss) = ground (arith, active_of-cancel_all-le user v ss)

-- A cancelled subscription is no active one of its user.
cancelled-inactive :
    (user : String) (s : Subscription) (b : Bool)
    → is_active_of user s ≡ b
    → is_active_of user (if b then record s { status = "cancelled" } else s) ≡ false
cancelled-inactive user s true is_on = elim (Bool-cases (str_eq s.user_id user)) [
  | inl same ↦ ap (λ b. b && false) same
  | inr other ↦ ap (λ b. b && false) other
]
cancelled-inactive user s false is_off = is_off

active_of-cancel_all :
    (user : String) (table : List Subscription) → active_of user (cancel_all user table) ≡ 0
unfolding cancel_all
active_of-cancel_all user [] = refl
active_of-cancel_all user (s ∷ ss) =
    let off = cancelled-inactive user s (is_active_of user s) refl in
    ap
      (λ b. length (
        if b
        then cancelled user s ∷ select (is_active_of user) (cancel_all user ss)
        else select (is_active_of user) (cancel_all user ss)))
      off
    ∙ active_of-cancel_all user ss

active_of-append :
    (v : String) (table : List Subscription) (s : Subscription)
    → active_of v (table ++ s ∷ []) ≡ active_of v table + active_of v (s ∷ [])
active_of-append v [] s = omega arith
active_of-append v (t ∷ ts) s = ground (arith, active_of-append v ts s)

IsSingle-cancel_all :
    (user : String) (table : List Subscription) → IsSingle table → IsSingle (cancel_all user table)
IsSingle-cancel_all user table single v =
    let le = active_of-cancel_all-le user v table in let one = single v in omega (arith, le, one)

-- A new subscription after the old ones of its user were cancelled.
IsSingle-renewed :
    (table : List Subscription) (s : Subscription)
    → IsSingle table
    → IsSingle (cancel_all s.user_id table ++ s ∷ [])
IsSingle-renewed table s single v = elim (Bool-cases (str_eq s.user_id v)) [
  | inl same ↦
      let none_left : active_of v (cancel_all s.user_id table) ≡ 0 =
        ap (λ u. active_of v (cancel_all u table)) ((eq_iff s.user_id v).0 same)
        ∙ active_of-cancel_all v table in
      ground (arith, none_left, active_of-append v (cancel_all s.user_id table) s)
  | inr other ↦ ground (
    arith,
    active_of-append v (cancel_all s.user_id table) s,
    active_of-cancel_all-le s.user_id v table,
    single v,
  )
]

upgrade_guarded-IsSingle :
    (c : Claims) (id : String) (today : ℕ) (plan_id : String) (table : List Subscription)
    (e : Option HttpError)
    → IsSingle table
    → IsSingle (upgrade_guarded c id today plan_id table e).1
upgrade_guarded-IsSingle c id today plan_id table (some e) single = single
upgrade_guarded-IsSingle c id today plan_id table none single =
    upgrade_to-IsSingle (lookup plan_id plans)
  where
    upgrade_to-IsSingle : (o : Option Plan) → IsSingle (upgrade_to c id today plan_id table o).1
    upgrade_to-IsSingle none = single
    upgrade_to-IsSingle (some plan) =
        IsSingle-renewed table (new_subscription c.sub id today plan_id plan) single

cancel_guarded-IsSingle :
    (c : Claims) (table : List Subscription) (e : Option HttpError)
    → IsSingle table
    → IsSingle (cancel_guarded c table e).1
cancel_guarded-IsSingle c table (some e) single = single
cancel_guarded-IsSingle c table none single = IsSingle-cancel_all c.sub table single

pub data Op : Type 0 where
  upgrade : Bool → Claims → String → ℕ → String → Op
  cancel : Bool → Claims → Op

unfoldable pub step : Op → List Subscription → List Subscription
step (upgrade has_db c id today plan_id) table =
    (upgrade_subscription has_db c id today plan_id table).1
step (cancel has_db c) table = (cancel_subscription has_db c table).1

unfoldable pub steps : List Op → List Subscription → List Subscription
steps [] table = table
steps (op ∷ ops) table = steps ops (step op table)

step-IsSingle : (op : Op) (table : List Subscription) → IsSingle table → IsSingle (step op table)
unfolding step upgrade_subscription cancel_subscription
step-IsSingle (upgrade has_db c id today plan_id) table single =
    upgrade_guarded-IsSingle c id today plan_id table
      (guard (is_user c.role) "User access required" has_db) single
step-IsSingle (cancel has_db c) table single =
    cancel_guarded-IsSingle c table (guard (is_user c.role) "User access required" has_db) single

-- Through any sequence of upgrades and cancellations, accepted or refused, no user has more than one
-- active subscription, if none had at the start.
pub steps-IsSingle :
    (ops : List Op) (table : List Subscription) → IsSingle table → IsSingle (steps ops table)
unfolding steps
steps-IsSingle [] table single = single
steps-IsSingle (op ∷ ops) table single =
    steps-IsSingle ops (step op table) (step-IsSingle op table single)
