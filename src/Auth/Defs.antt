-- ===== src/Auth/Defs.antt =====
-- The user store, the password check and the login of server/auth.py.
-- A time is a whole number of microseconds. Every call of `time.time()` is an argument of its own.
-- bcrypt and PyJWT are parameters, with the behaviour that the code relies on as hypotheses.
use Prim.Native.Nat.{◌%◌}
use Prim.Native.String.{◌++◌}
use pathwiseai.Prelude.{
  ℕ, ◌+◌, ◌-◌, ◌*◌, String, ◌≡◌, Bool, true, false, not, Option, none, some, List, [], ◌∷◌, str_eq,
  ltb, leb, any, find, if◌then◌else◌,
}
use pathwiseai.Prelude.Dict.{Dict, lookup, insert, values}

pub record User : Type 0 where
  pub id : String
  pub email : String
  pub password_hash : String
  pub role : String
  pub is_active : Bool
  pub failed_attempts : ℕ
  pub locked_at : Option ℕ

-- `HTTPException(status_code, detail)`
pub record HttpError : Type 0 where
  pub status : ℕ
  pub detail : String

pub data Result {ℓ} (A : Type ℓ) : Type ℓ where
  ok : A → Result A
  raise : HttpError → Result A

pub record Claims : Type 0 where
  pub sub : String
  pub role : String
  pub exp : ℕ
  pub iat : ℕ

-- What `jwt.decode` returns or raises.
pub data Decoded : Type 0 where
  decoded : Claims → Decoded
  expired_signature invalid_token : Decoded

-- `bcrypt.hashpw`, `bcrypt.checkpw`, `jwt.encode` and `jwt.decode` under the configured secret.
pub record Crypto : Type 0 where
  pub hashpw : String → String → String
  pub checkpw : String → String → Bool
  pub encode : Claims → String
  pub decode : ℕ → String → Decoded

-- bcrypt accepts the password that was hashed.
abbrev pub ChecksHashed : Crypto → Type 0
ChecksHashed c = (plain salt : String) → c.checkpw plain (c.hashpw plain salt) ≡ true

abbrev pub second : ℕ
second = 1000000

-- `int(t)` of a time in seconds.
abbrev pub whole_seconds : ℕ → ℕ
whole_seconds t = t - t % second

-- PyJWT gives the claims of its own token back from the whole second of its issue on, until the
-- whole second of its expiry.
abbrev pub DecodesEncoded : Crypto → Type 0
DecodesEncoded c =
    (now : ℕ) (p : Claims)
    → ltb now (whole_seconds p.exp) ≡ true
    → leb (whole_seconds p.iat) now ≡ true
    → c.decode now (c.encode p) ≡ decoded p

-- A token of PyJWT is not the empty text.
abbrev pub EncodesNonempty : Crypto → Type 0
EncodesNonempty c = (p : Claims) → str_eq (c.encode p) "" ≡ false

abbrev pub jwt_expiry_minutes : ℕ
jwt_expiry_minutes = 60

abbrev pub max_failed_attempts : ℕ
max_failed_attempts = 5

abbrev pub lockout_duration : ℕ
lockout_duration = 30 * 60 * second

abbrev pub valid_roles : List String
valid_roles =
    "SUPER_ADMIN" ∷ "NETWORK_ADMIN" ∷ "IT_MANAGER" ∷ "MSP_TECH" ∷ "IT_STAFF" ∷ "END_USER"
    ∷ "BUSINESS_OWNER" ∷ []

abbrev pub locked_error : HttpError
locked_error = record {
  status = 423;
  detail = "Account locked due to too many failed attempts. Contact system administrator.";
}

abbrev pub invalid_credentials : HttpError
invalid_credentials = record { status = 401; detail = "Invalid credentials" }

abbrev pub Users : Type 0
Users = Dict User

-- The calls of `time.time()` in one login, in the order of the code.
pub record Clock : Type 0 where
  pub check : ℕ
  pub lock : ℕ
  pub exp : ℕ
  pub iat : ℕ

pub record LoginReply : Type 0 where
  pub access_token : String
  pub role : String
  pub email : String

abbrev pub has_email : String → User → Bool
has_email email u = str_eq u.email email

-- The truth of `user.locked_at`: neither `None` nor 0.
abbrev pub lock_time : User → Option ℕ
lock_time u = elim u.locked_at [ none ↦ none | some t ↦ if ltb 0 t then some t else none ]

unfoldable pub create_access_token : Crypto → Clock → String → String → String
create_access_token c t user_id role = c.encode (record {
  sub = user_id;
  role = role;
  exp = t.exp + jwt_expiry_minutes * 60 * second;
  iat = t.iat;
})

-- `login` from the test of `is_active` on, on the user object that it mutates.
unfoldable pub attempt : Crypto → Clock → String → User → Result LoginReply × User
unfolding create_access_token
attempt c t password u =
    if not u.is_active
    then (raise invalid_credentials, u)
    else if not (c.checkpw password u.password_hash)
    then (let n = u.failed_attempts + 1 in
        if leb max_failed_attempts n
        then (raise locked_error, record u { failed_attempts = n; locked_at = some t.lock })
        else (raise invalid_credentials, record u { failed_attempts = n }))
    else (
      ok (record {
        access_token = create_access_token c t u.id u.role;
        role = u.role;
        email = u.email;
      }),
      record u { failed_attempts = 0 },
    )

abbrev pub unlocked : User → User
unlocked u = record u { failed_attempts = 0; locked_at = none }

-- `login` on the user object that was found.
unfoldable pub login_user : Crypto → Clock → String → User → Result LoginReply × User
unfolding attempt
login_user c t password u = elim (lock_time u) [
  | none ↦ attempt c t password u
  | some since ↦
      if leb lockout_duration (t.check - since)
      then attempt c t password (unlocked u)
      else (raise locked_error, u)
]

-- The first user that passes the test is the object that the code mutates.
unfoldable pub replace_first : (User → Bool) → User → Users → Users
replace_first p v [] = []
replace_first p v ((k, u) ∷ us) =
    let rest = replace_first p v us in if p u then (k, v) ∷ us else (k, u) ∷ rest

unfoldable pub login : Crypto → Clock → String → String → Users → Result LoginReply × Users
unfolding login_user replace_first
login c t email password us = elim (find (has_email email) (values us)) [
  | none ↦ (raise invalid_credentials, us)
  | some u ↦ let (r, v) = login_user c t password u in (r, replace_first (has_email email) v us)
]

abbrev pub new_user : Crypto → String → String → String → String → String → User
new_user c uid salt email password role = record {
  id = uid;
  email = email;
  password_hash = c.hashpw password salt;
  role = role;
  is_active = true;
  failed_attempts = 0;
  locked_at = none;
}

-- The detail of the refusal, with the sorted list of the valid roles.
abbrev pub unknown_role : String → String
unknown_role role =
    "Unknown role '"
    ++ (role
        ++ "'. Valid: ['BUSINESS_OWNER', 'END_USER', 'IT_MANAGER', 'IT_STAFF', 'MSP_TECH', 'NETWORK_ADMIN', 'SUPER_ADMIN']")

-- `uid` is the start of a fresh UUID, `salt` what `bcrypt.gensalt` returns.
unfoldable pub register_user :
    Crypto → String → String → String → String → String → Users → Result User × Users
register_user c uid salt email password role us =
    if not (any (λ r. str_eq r role) valid_roles)
    then (raise (record { status = 400; detail = unknown_role role }), us)
    else if any (has_email email) (values us)
    then (raise (record { status = 409; detail = "Email already registered" }), us)
    else (let u = new_user c uid salt email password role in (ok u, insert uid u us))

unfoldable pub get_user_by_id : String → Users → Option User
get_user_by_id = lookup

unfoldable pub unlock_user : String → Users → Bool × Users
unlock_user user_id us = elim (lookup user_id us) [
  | none ↦ (false, us)
  | some u ↦ (true, insert user_id (unlocked u) us)
]
