-- ===== src/Auth/Register.antt =====
-- Registration in server/auth.py: who is admitted, and that the new user can log in.
use pathwiseai.Prelude.{
  String, ◌≡◌, refl, Bool, true, false, none, some, List, [], ◌∷◌, arith, find, any, if◌then◌else◌,
  Bool-cases, inl, inr, eq_iff, eq_refl, str_eq, ◌∙◌,
}
use pathwiseai.Prelude.Dict.{lookup, insert, values}
use pathwiseai.Auth.Defs.{
  User, Users, Crypto, ChecksHashed, Clock, ok, has_email, login_user, login, register_user,
  new_user, valid_roles, create_access_token,
}
use pathwiseai.Auth.Store.{login-found}

-- The first login of a new user.
first_login :
    (c : Crypto) (uid salt email password role : String) (checks : ChecksHashed c) (t : Clock)
    → (login_user c t password (new_user c uid salt email password role)).0
      ≡ ok (record { access_token = create_access_token c t uid role; role = role; email = email })
unfolding login_user
first_login c uid salt email password role checks t = rw (checks password salt) refl

-- No two users have one email.
abbrev pub HasUniqueEmails : Users → Type 0
HasUniqueEmails [] = Unit
HasUniqueEmails ((k, u) ∷ us) = (find (has_email u.email) (values us) ≡ none) × HasUniqueEmails us

find-none_of_any : (p : User → Bool) (xs : List User) → any p xs ≡ false → find p xs ≡ none
find-none_of_any p [] h = refl
find-none_of_any p (x ∷ xs) h = ground (arith, find-none_of_any p xs)

find-insert_new :
    (p : User → Bool) (uid : String) (u : User) (us : Users)
    → lookup uid us ≡ none
    → find p (values (insert uid u us))
      ≡ elim (find p (values us)) [ some v ↦ some v | none ↦ if p u then some u else none ]
unfolding lookup insert
find-insert_new p uid u [] fresh = ground arith
find-insert_new p uid u ((k, v) ∷ us) fresh = ground (arith, find-insert_new p uid u us)

has_email_sym : (u v : User) → has_email u.email v ≡ false → has_email v.email u ≡ false
has_email_sym u v h = ground (arith, eq_iff u.email v.email, eq_iff v.email u.email)

insert-HasUniqueEmails :
    (uid : String) (u : User) (us : Users)
    → lookup uid us ≡ none
    → any (has_email u.email) (values us) ≡ false
    → HasUniqueEmails us
    → HasUniqueEmails (insert uid u us)
unfolding lookup insert
insert-HasUniqueEmails uid u [] fresh new h = (refl, tt)
insert-HasUniqueEmails uid u ((k, v) ∷ us) fresh new h =
    let other : str_eq k uid ≡ false = ground arith in
    let missing : find (has_email v.email) (values (insert uid u us)) ≡ none =
      (ground (arith, find-insert_new (has_email v.email) uid u us, has_email_sym u v)) in
    rw other (missing, insert-HasUniqueEmails uid u us (ground arith) (ground arith) h.1)

module _ (c : Crypto) (uid salt email password role : String) (us : Users) where
  -- A registration with a fresh id keeps the emails of the store distinct, whether it is admitted
  -- or refused.
  pub register_user-HasUniqueEmails :
      lookup uid us ≡ none
      → HasUniqueEmails us
      → HasUniqueEmails (register_user c uid salt email password role us).1
  unfolding register_user
  register_user-HasUniqueEmails fresh h = elim (Bool-cases (any (has_email email) (values us))) [
    | inl taken ↦ ground arith
    | inr new ↦
        ground (
          arith,
          insert-HasUniqueEmails uid (new_user c uid salt email password role) us fresh new h,
        )
  ]

  register_user_ok :
      {u : User}
      → (register_user c uid salt email password role us).0 ≡ ok u
      → (any (λ r. str_eq r role) valid_roles ≡ true)
        × (any (has_email email) (values us) ≡ false)
        × (u ≡ new_user c uid salt email password role)
        × ((register_user c uid salt email password role us).1
            ≡ insert uid (new_user c uid salt email password role) us)
  unfolding register_user
  register_user_ok h = ground arith

  -- A user who was registered under a fresh id, with a role that was asked for and is one of the
  -- valid ones, can log in with the password of the registration, and gets that role.
  pub login-register_user :
      ChecksHashed c
      → lookup uid us ≡ none
      → {u : User} → (register_user c uid salt email password role us).0 ≡ ok u
      → (t : Clock)
      → (any (λ r. str_eq r role) valid_roles ≡ true)
        × ((login c t email password (register_user c uid salt email password role us).1).0
            ≡ ok (record {
              access_token = create_access_token c t uid role;
              role = role;
              email = email;
            }))
  login-register_user checks fresh h t =
      let (valid, new, _, stored) = register_user_ok h in
      let us' = insert uid (new_user c uid salt email password role) us in
      let found : find (has_email email) (values us')
          ≡ some (new_user c uid salt email password role) =
        ground (
          arith,
          find-insert_new (has_email email) uid (new_user c uid salt email password role) us,
          find-none_of_any (has_email email) (values us),
          eq_refl email,
        ) in
      (
        valid,
        rw stored (
            login-found c t email password us' found
            ∙ first_login c uid salt email password role checks t),
      )
