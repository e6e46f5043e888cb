-- ===== src/Auth/Store.antt =====
-- The login of server/auth.py works on one object of the store: the first user with the email.
use pathwiseai.Prelude.{
  String, ◌≡◌, refl, ap, Bool, true, false, some, [], ◌∷◌, arith, find, eq_iff, Option-cases, inl,
  inr, ◌≢◌,
}
use pathwiseai.Prelude.Dict.{values}
use pathwiseai.Auth.Defs.{
  User, Users, Crypto, Clock, has_email, login_user, replace_first, login, Result, LoginReply,
}

pub find-holds :
    (p : User → Bool) (us : Users) {u : User} → find p (values us) ≡ some u → p u ≡ true
find-holds p [] h = cc
find-holds p ((k, v) ∷ us) {u} h = ground (arith, find-holds p us {u = u})

pub find-replace_first :
    (p : User → Bool) (us : Users) (u v : User)
    → find p (values us) ≡ some u
    → p v ≡ true
    → find p (values (replace_first p v us)) ≡ some v
unfolding replace_first
find-replace_first p [] u v h e = cc
find-replace_first p ((k, w) ∷ us) u v h e = ground (arith, find-replace_first p us u v)

pub replace_first_same :
    (p : User → Bool) (us : Users) (u : User)
    → find p (values us) ≡ some u
    → replace_first p u us ≡ us
unfolding replace_first
replace_first_same p [] u h = refl
replace_first_same p ((k, w) ∷ us) u h = ground (arith, replace_first_same p us u)

pub find-replace_first_ne :
    (p q : User → Bool) (us : Users) (v : User)
    → ((u : User) → p u ≡ true → q u ≡ false)
    → q v ≡ false
    → find q (values (replace_first p v us)) ≡ find q (values us)
unfolding replace_first
find-replace_first_ne p q [] v apart e = refl
find-replace_first_ne p q ((k, w) ∷ us) v apart e =
    ground (arith, apart w, find-replace_first_ne p q us v apart e)

pub email-login_user :
    (c : Crypto) (t : Clock) (password : String) (u : User)
    → (login_user c t password u).1.email ≡ u.email
unfolding login_user
email-login_user c t password u = ground arith

has_email_apart :
    (email other : String)
    → email ≢ other
    → (u : User) → has_email email u ≡ true
    → has_email other u ≡ false
has_email_apart email other ne u h = ground (arith, eq_iff u.email email, eq_iff u.email other)

module _ (c : Crypto) (t : Clock) (email password : String) (us : Users) where
  module _ {u : User} (found : find (has_email email) (values us) ≡ some u) where
    -- The reply is that of the user found, and that user is the one written.
    pub login-found : (login c t email password us).0 ≡ (login_user c t password u).0
    unfolding login
    login-found = rw (found, login)

    pub find-login :
        find (has_email email) (values (login c t email password us).1)
        ≡ some (login_user c t password u).1
    unfolding login
    find-login =
        rw (found, login)
          (find-replace_first (has_email email) us u _ found
            (rw (email-login_user c t password u) (find-holds (has_email email) us found)))

  -- A login touches no user with another email.
  pub find-login_ne :
      (other : String)
      → email ≢ other
      → find (has_email other) (values (login c t email password us).1)
        ≡ find (has_email other) (values us)
  unfolding login
  find-login_ne other ne = elim (Option-cases (find (has_email email) (values us))) [
    | inl missing ↦ rw (missing, login) refl
    | inr (u, found) ↦
        rw (found, login)
          (find-replace_first_ne (has_email email) (has_email other) us
            (login_user c t password u).1 (has_email_apart email other ne)
            (has_email_apart email other ne (login_user c t password u).1
              (rw (email-login_user c t password u) (find-holds (has_email email) us found))))
  ]

  -- A login that leaves its user as it was leaves the store as it was.
  pub login_unchanged :
      {u : User} (r : Result LoginReply)
      → find (has_email email) (values us) ≡ some u
      → login_user c t password u ≡ (r, u)
      → login c t email password us ≡ (r, us)
  unfolding login
  login_unchanged {u} r found same =
      rw (found, login, same)
        (ap (λ (v : Users). (r, v)) (replace_first_same (has_email email) us u found))
