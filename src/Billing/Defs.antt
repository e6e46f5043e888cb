-- ===== src/Billing/Defs.antt =====
-- The handlers of server/routers/billing.py on the table `subscriptions`. Prices are in cents, a date
-- counts days. A handler gets the claims of a token that PyJWT has checked, and whether there is a
-- database; rows stand in the order of their creation.
use Prim.Native.String.{◌++◌ as ◌+++◌}
use pathwiseai.Prelude.{
  ℕ, ◌+◌, ◌*◌, String, Bool, Option, none, some, List, [], ◌∷◌, ◌++◌, str_eq, ◌&&◌, ◌||◌,
  if◌then◌else◌,
}
use pathwiseai.Prelude.Dict.{Dict, lookup}
use pathwiseai.Auth.{Claims, HttpError, Result, ok, raise}

pub record Plan : Type 0 where
  pub name : String
  pub price : ℕ
  pub sites : ℕ
  pub links : ℕ

abbrev pub plans : Dict Plan
plans =
    ("starter", record { name = "Starter"; price = 4900; sites = 2; links = 2 })
    ∷ ("professional", record { name = "Professional"; price = 14900; sites = 5; links = 4 })
    ∷ ("enterprise", record { name = "Enterprise"; price = 29900; sites = 20; links = 6 })
    ∷ []

pub record Subscription : Type 0 where
  pub id : String
  pub user_id : String
  pub plan_id : String
  pub plan_name : String
  pub monthly_price : ℕ
  pub status : String
  pub next_billing_date : ℕ

abbrev error : ℕ → String → HttpError
error status detail = record { status = status; detail = detail }

-- The dependencies of a handler, in their order: the role, then the database.
abbrev pub is_user : String → Bool
is_user role =
    str_eq role "BUSINESS_OWNER" || str_eq role "SUPER_ADMIN" || str_eq role "NETWORK_ADMIN"

abbrev pub is_admin : String → Bool
is_admin role = str_eq role "SUPER_ADMIN"

abbrev pub guard : Bool → String → Bool → Option HttpError
guard allowed detail has_db =
    if allowed
    then (if has_db then none else some (error 503 "Database unavailable"))
    else some (error 403 detail)

abbrev pub is_active_of : String → Subscription → Bool
is_active_of user s = str_eq s.user_id user && str_eq s.status "active"

abbrev pub cancelled : String → Subscription → Subscription
cancelled user s = if is_active_of user s then record s { status = "cancelled" } else s

-- `UPDATE subscriptions SET status = 'cancelled' WHERE …`
unfoldable pub cancel_all : String → List Subscription → List Subscription
cancel_all user [] = []
cancel_all user (s ∷ ss) = cancelled user s ∷ cancel_all user ss

abbrev pub new_subscription : String → String → ℕ → String → Plan → Subscription
new_subscription user id today plan_id plan = record {
  id = id;
  user_id = user;
  plan_id = plan_id;
  plan_name = plan.name;
  monthly_price = plan.price;
  status = "active";
  next_billing_date = today + 30;
}

abbrev pub upgrade_to :
    Claims → String → ℕ → String → List Subscription → Option Plan → Result Plan × List Subscription
upgrade_to c id today plan_id table none = (raise (error 400 ("Invalid plan: " +++ plan_id)), table)
upgrade_to c id today plan_id table (some plan) =
    (ok plan, cancel_all c.sub table ++ new_subscription c.sub id today plan_id plan ∷ [])

abbrev pub upgrade_guarded :
    Claims
    → String
    → ℕ
    → String
    → List Subscription
    → Option HttpError
    → Result Plan × List Subscription
upgrade_guarded c id today plan_id table (some e) = (raise e, table)
upgrade_guarded c id today plan_id table none =
    upgrade_to c id today plan_id table (lookup plan_id plans)

unfoldable pub upgrade_subscription :
    Bool → Claims → String → ℕ → String → List Subscription → Result Plan × List Subscription
upgrade_subscription has_db c id today plan_id table =
    upgrade_guarded c id today plan_id table (guard (is_user c.role) "User access required" has_db)

abbrev pub cancel_guarded :
    Claims → List Subscription → Option HttpError → Result String × List Subscription
cancel_guarded c table (some e) = (raise e, table)
cancel_guarded c table none = (ok "cancelled", cancel_all c.sub table)

unfoldable pub cancel_subscription :
    Bool → Claims → List Subscription → Result String × List Subscription
cancel_subscription has_db c table =
    cancel_guarded c table (guard (is_user c.role) "User access required" has_db)

-- `SELECT SUM(monthly_price) … WHERE status = 'active'`
unfoldable pub mrr : List Subscription → ℕ
mrr [] = 0
mrr (s ∷ ss) =
    let rest = mrr ss in if str_eq s.status "active" then s.monthly_price + rest else rest

abbrev pub revenue_guarded : List Subscription → Option HttpError → Result (ℕ × ℕ)
revenue_guarded table (some e) = raise e
revenue_guarded table none = ok (mrr table, mrr table * 12)

-- The totals of `admin_revenue`: the month's and the year's.
unfoldable pub admin_revenue : Bool → Claims → List Subscription → Result (ℕ × ℕ)
admin_revenue has_db c table =
    revenue_guarded table (guard (is_admin c.role) "Admin access required" has_db)
