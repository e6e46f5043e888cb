-- ===== src/Auth/Lockout.antt =====
-- The account lockout of server/auth.py, as a state machine on the user that a login mutates.
use pathwiseai.Prelude.{
  ◌+◌, ◌-◌, ◌≤◌, ◌<◌, String, ◌≡◌, refl, true, false, none, some, List, [], ◌∷◌, ◌++◌, arith, find,
  length, All, ◌∙◌, ap, refl, ◌++◌, ◌-◌, ◌≤◌,
}
use pathwiseai.Prelude.Dict.{values}
use pathwiseai.Auth.Defs.{
  User, Users, Crypto, Clock, Result, ok, raise, ok, Result, LoginReply, lockout_duration,
  create_access_token, LoginReply, has_email, lock_time, login_user, login, locked_error,
  invalid_credentials, lockout_duration, max_failed_attempts,
}
use pathwiseai.Auth.Store.{login-found, find-login, login-found, login_unchanged}

-- One login: the clock that it reads and the password that it tries.
abbrev pub Try : Type 0
Try = Clock × String

-- The logins of one email, one after the other.
unfoldable pub login_all : Crypto → String → List Try → Users → Users
login_all c email [] us = us
login_all c email ((t, password) ∷ tries) us =
    login_all c email tries (login c t email password us).1

-- The same on the user object alone.
login_user_all : Crypto → List Try → User → User
login_user_all c [] u = u
login_user_all c ((t, password) ∷ tries) u = login_user_all c tries (login_user c t password u).1

module _ (c : Crypto) where
  find-login_all :
      (email : String) (tries : List Try) (us : Users) {u : User}
      → find (has_email email) (values us) ≡ some u
      → find (has_email email) (values (login_all c email tries us))
        ≡ some (login_user_all c tries u)
  unfolding login_all login_user_all
  find-login_all email [] us found = found
  find-login_all email ((t, password) ∷ tries) us found =
      find-login_all email tries (login c t email password us).1
        (find-login c t email password us found)

  abbrev pub IsWrongFor : User → Try → Type 0
  IsWrongFor u (t, password) = c.checkpw password u.password_hash ≡ false

  module _ (t : Clock) (password : String) (u : User) (active : u.is_active ≡ true)
      (wrong : c.checkpw password u.password_hash ≡ false) (free : lock_time u ≡ none) where
    wrong_counts :
        u.failed_attempts + 1 < max_failed_attempts
        → login_user c t password u
          ≡ (raise invalid_credentials, record u { failed_attempts = u.failed_attempts + 1 })
    unfolding login_user
    wrong_counts few = ground arith

    wrong_locks :
        u.failed_attempts + 1 ≡ max_failed_attempts
        → login_user c t password u ≡ (
          raise locked_error,
          record u { failed_attempts = max_failed_attempts; locked_at = some t.lock },
        )
    unfolding login_user
    wrong_locks last = ground arith

  -- Below the limit a run of wrong passwords is counted, and nothing else of the user changes.
  wrong_tries :
      (tries : List Try) (u : User)
      → u.is_active ≡ true
      → lock_time u ≡ none
      → All (IsWrongFor u) tries
      → u.failed_attempts + length tries < max_failed_attempts
      → login_user_all c tries u ≡ record u { failed_attempts = u.failed_attempts + length tries }
  unfolding login_user_all
  wrong_tries [] u active free wrong few = ground arith
  wrong_tries ((t, password) ∷ tries) u active free wrong few =
      rw (wrong_counts t password u active wrong.0 free (omega arith)) (
        wrong_tries tries (record u { failed_attempts = u.failed_attempts + 1 }) active free wrong.1
          (omega arith)
        ∙ ground arith)

  login_user_all-append :
      (tries : List Try) (t : Clock) (password : String) (u : User)
      → login_user_all c (tries ++ (t, password) ∷ []) u
        ≡ (login_user c t password (login_user_all c tries u)).1
  unfolding login_user_all
  login_user_all-append [] t password u = refl
  login_user_all-append ((s, p) ∷ tries) t password u =
      login_user_all-append tries t password (login_user c s p u).1

  -- The user after the attempt that reaches the limit.
  abbrev locked_user : Clock → User → User
  locked_user t u = record u { failed_attempts = max_failed_attempts; locked_at = some t.lock }

  module _ (tries : List Try) (t : Clock) (password : String) (u : User)
      (active : u.is_active ≡ true) (free : lock_time u ≡ none) (wrong : All (IsWrongFor u) tries)
      (last_wrong : c.checkpw password u.password_hash ≡ false)
      (limit : u.failed_attempts + length tries + 1 ≡ max_failed_attempts) where
    tries_lock : login_user_all c (tries ++ (t, password) ∷ []) u ≡ locked_user t u
    tries_lock =
        rw (login_user_all-append, wrong_tries tries u active free wrong (omega arith))
          (ap (λ (r : Result LoginReply × User). r.1)
            (wrong_locks t password
              (record u { failed_attempts = u.failed_attempts + length tries }) active last_wrong
              free limit))

  module _ (t t' : Clock) (password : String) (u : User) (clock_runs : 0 < t.lock) where
    locked_refuses :
        t'.check - t.lock < lockout_duration
        → login_user c t' password (locked_user t u) ≡ (raise locked_error, locked_user t u)
    unfolding login_user
    locked_refuses early = ground arith

    lock_expires :
        u.is_active ≡ true
        → c.checkpw password u.password_hash ≡ true
        → lockout_duration ≤ t'.check - t.lock
        → login_user c t' password (locked_user t u) ≡ (
          ok (record {
            access_token = create_access_token c t' u.id u.role;
            role = u.role;
            email = u.email;
          }),
          record u { failed_attempts = 0; locked_at = none },
        )
    unfolding login_user
    lock_expires active right late = ground arith

-- The user store after the attempts of one email that reach the limit.
abbrev after_lockout : Crypto → String → List Try → Clock → String → Users → Users
after_lockout c email tries t password us = login_all c email (tries ++ (t, password) ∷ []) us

module _ (c : Crypto) (email : String) (us : Users) (u : User)
    (found : find (has_email email) (values us) ≡ some u) (active : u.is_active ≡ true)
    (free : lock_time u ≡ none) (tries : List Try) (wrong : All (IsWrongFor c u) tries) (t : Clock)
    (password : String) (last_wrong : c.checkpw password u.password_hash ≡ false)
    (limit : u.failed_attempts + length tries + 1 ≡ max_failed_attempts) (clock_runs : 0 < t.lock)
    (t' : Clock) (password' : String) where
  found_locked :
      find (has_email email) (values (after_lockout c email tries t password us))
      ≡ some (locked_user c t u)
  found_locked =
      rw (← tries_lock c tries t password u active free wrong last_wrong limit)
        (find-login_all c email (tries ++ (t, password) ∷ []) us found)

  -- Of an active user without a lock let consecutive wrong passwords bring the count of failures
  -- to five, at a time other than 0. Then any later login of that email, also one with the right
  -- password, that comes less than thirty minutes after the lock is refused as locked, and changes
  -- nothing in the store.
  pub login-after_lockout :
      t'.check - t.lock < lockout_duration
      → login c t' email password' (after_lockout c email tries t password us)
        ≡ (raise locked_error, after_lockout c email tries t password us)
  login-after_lockout early =
      login_unchanged c t' email password' (after_lockout c email tries t password us) _
        found_locked (locked_refuses c t t' password' u clock_runs early)

  -- Take an active user without a lock, and consecutive wrong passwords that bring the count of
  -- failures to five, at a time other than 0. Then a login with the right password that comes
  -- thirty minutes or more after the lock succeeds, and leaves the user with no failures and no
  -- lock.
  pub login-lockout_over :
      c.checkpw password' u.password_hash ≡ true
      → lockout_duration ≤ t'.check - t.lock
      → let (reply, us') = login c t' email password' (after_lockout c email tries t password us) in
        (reply
          ≡ ok (record {
            access_token = create_access_token c t' u.id u.role;
            role = u.role;
            email = u.email;
          }))
        × (find (has_email email) (values us')
            ≡ some (record u { failed_attempts = 0; locked_at = none }))
  login-lockout_over right late =
      let us' = after_lockout c email tries t password us in
      let over = lock_expires c t t' password' u clock_runs active right late in
      (
        login-found c t' email password' us' found_locked
            ∙ ap (λ (r : Result LoginReply × User). r.0) over,
        find-login c t' email password' us' found_locked
            ∙ ap (λ (r : Result LoginReply × User). some r.1) over,
      )
