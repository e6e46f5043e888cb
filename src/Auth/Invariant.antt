-- ===== src/Auth/Invariant.antt =====
-- What every operation on the user store of server/auth.py keeps, and when a login succeeds.
use pathwiseai.Prelude.{
  ◌+◌, ◌-◌, ◌≤◌, ◌<◌, String, ◌≡◌, Bool, true, false, none, some, List, [], ◌∷◌, arith, find, All,
  Option-cases, Bool-cases, All-find, inl, inr, str_eq, sym, ◌∙◌,
}
use pathwiseai.Prelude.Dict.{lookup, insert, values}
use pathwiseai.Auth.Defs.{
  User, Users, Crypto, Clock, ok, LoginReply, has_email, lock_time, login_user, replace_first,
  login, unlocked, lockout_duration, max_failed_attempts, register_user, new_user, unlock_user,
}
use pathwiseai.Auth.Store.{login-found, find-login}

-- A user without a lock has fewer than five failures.
abbrev pub IsCounted : User → Type 0
IsCounted u = lock_time u ≡ none → u.failed_attempts < max_failed_attempts

abbrev pub IsValid : Users → Type 0
IsValid us = All IsCounted (values us)

login_user-IsCounted :
    (c : Crypto) (t : Clock) (password : String) (u : User)
    → 0 < t.lock
    → IsCounted u
    → IsCounted (login_user c t password u).1
unfolding login_user
login_user-IsCounted c t password u runs h = ground arith

replace_first-IsValid :
    (p : User → Bool) (us : Users) (v : User)
    → IsCounted v
    → IsValid us
    → IsValid (replace_first p v us)
unfolding replace_first
replace_first-IsValid p [] v hv h = tt
replace_first-IsValid p ((k, u) ∷ us) v hv h = elim (Bool-cases (p u)) [
  | inl hit ↦ rw hit (hv, h.1)
  | inr miss ↦ rw miss (h.0, replace_first-IsValid p us v hv h.1)
]

insert-IsValid :
    (uid : String) (u : User) (us : Users) → IsCounted u → IsValid us → IsValid (insert uid u us)
unfolding insert
insert-IsValid uid u [] hu h = (hu, tt)
insert-IsValid uid u ((k, v) ∷ us) hu h = elim (Bool-cases (str_eq k uid)) [
  | inl hit ↦ rw hit (hu, h.1)
  | inr miss ↦ rw miss (h.0, insert-IsValid uid u us hu h.1)
]

-- A login, whatever its outcome, keeps every user counted, if the clock is past 0.
pub login-IsValid :
    (c : Crypto) (t : Clock) (email password : String) (us : Users)
    → 0 < t.lock
    → IsValid us
    → IsValid (login c t email password us).1
unfolding login
login-IsValid c t email password us runs h =
    elim (Option-cases (find (has_email email) (values us))) [
      | inl missing ↦ rw (missing, login) h
      | inr (u, found) ↦
          rw (found, login)
            (replace_first-IsValid (has_email email) us (login_user c t password u).1
              (login_user-IsCounted c t password u runs
                (All-find IsCounted (has_email email) (values us) h found))
              h)
    ]

pub register_user-IsValid :
    (c : Crypto) (uid salt email password role : String) (us : Users)
    → IsValid us
    → IsValid (register_user c uid salt email password role us).1
unfolding register_user
register_user-IsValid c uid salt email password role us h =
    ground (arith, insert-IsValid uid (new_user c uid salt email password role) us (omega arith) h)

pub unlock_user-IsValid :
    (user_id : String) (us : Users) → IsValid us → IsValid (unlock_user user_id us).1
unfolding unlock_user
unlock_user-IsValid user_id us h = elim (Option-cases (lookup user_id us)) [
  | inl missing ↦ rw (missing, unlock_user) h
  | inr (u, found) ↦
      rw (found, unlock_user) (insert-IsValid user_id (unlocked u) us (omega arith) h)
]

-- The operations that change the user store.
pub data Op : Type 0 where
  log_in : Clock → String → String → Op
  register : String → String → String → String → String → Op
  unlock : String → Op

abbrev pub step : Crypto → Op → Users → Users
step c (log_in t email password) us = (login c t email password us).1
step c (register uid salt email password role) us =
    (register_user c uid salt email password role us).1
step c (unlock user_id) us = (unlock_user user_id us).1

abbrev pub Runs : Op → Type 0
Runs (log_in t email password) = 0 < t.lock
Runs _ = Unit

pub steps : Crypto → List Op → Users → Users
steps c [] us = us
steps c (op ∷ ops) us = steps c ops (step c op us)

step-IsValid : (c : Crypto) (op : Op) (us : Users) → Runs op → IsValid us → IsValid (step c op us)
step-IsValid c (log_in t email password) us runs h = login-IsValid c t email password us runs h
step-IsValid c (register uid salt email password role) us runs h =
    register_user-IsValid c uid salt email password role us h
step-IsValid c (unlock user_id) us runs h = unlock_user-IsValid user_id us h

-- From a store in which every user without a lock has fewer than five failures, any sequence of
-- logins, registrations and unlocks, at clock times past 0, leads to such a store.
pub steps-IsValid :
    (c : Crypto) (ops : List Op) (us : Users) → All Runs ops → IsValid us → IsValid (steps c ops us)
unfolding steps
steps-IsValid c [] us runs h = h
steps-IsValid c (op ∷ ops) us runs h =
    steps-IsValid c ops (step c op us) runs.1 (step-IsValid c op us runs.0 h)

-- When a lock, if there is one, has run out at the time of a login.
abbrev pub IsFree : Clock → User → Type 0
IsFree t u = elim (lock_time u) [ none ↦ Unit | some since ↦ lockout_duration ≤ t.check - since ]

login_user_ok :
    (c : Crypto) (t : Clock) (password : String) (u : User) {reply : LoginReply}
    → (login_user c t password u).0 ≡ ok reply
    → (u.is_active ≡ true)
      × (c.checkpw password u.password_hash ≡ true)
      × IsFree t u
      × (reply.role ≡ u.role)
      × (lock_time (login_user c t password u).1 ≡ none)
      × ((login_user c t password u).1.failed_attempts ≡ 0)
unfolding login_user
login_user_ok c t password u h = ground arith

-- A login succeeds only for a user that the store holds under the email, that is active, whose
-- password it is, and whose lock, if there was one, has run out. The reply has the user's role,
-- and the user is left with no failures and no lock.
pub login_ok :
    (c : Crypto) (t : Clock) (email password : String) (us : Users) {reply : LoginReply}
    → (login c t email password us).0 ≡ ok reply
    → (u : User) × (find (has_email email) (values us) ≡ some u)
      × (u.is_active ≡ true)
      × (c.checkpw password u.password_hash ≡ true)
      × IsFree t u
      × (reply.role ≡ u.role)
      × (v : User) × (find (has_email email) (values (login c t email password us).1) ≡ some v)
      × (lock_time v ≡ none)
      × (v.failed_attempts ≡ 0)
login_ok c t email password us h = elim (Option-cases (find (has_email email) (values us))) [
  | inl missing ↦ absurd (unfold login in (let e = rw (missing, login) at h in cc))
  | inr (u, found) ↦
      let (active, right, free, role, lock, none_failed) =
        login_user_ok c t password u (sym (login-found c t email password us found) ∙ h) in
      (
        u,
        found,
        active,
        right,
        free,
        role,
        (login_user c t password u).1,
        find-login c t email password us found,
        lock,
        none_failed,
      )
]

-- A login with an unknown email and one with a wrong password that does not reach the limit get
-- the same answer, so that the answer does not tell which of the two was wrong.
pub login_same_error :
    (c : Crypto) (t : Clock) (unknown email password : String) (us : Users) (u : User)
    → find (has_email unknown) (values us) ≡ none
    → find (has_email email) (values us) ≡ some u
    → lock_time u ≡ none
    → c.checkpw password u.password_hash ≡ false
    → u.failed_attempts + 1 < max_failed_attempts
    → (login c t unknown password us).0 ≡ (login c t email password us).0
unfolding login login_user
login_same_error c t unknown email password us u missing found free wrong few =
    rw (missing, login) (sym (login-found c t email password us found ∙ ground arith))
