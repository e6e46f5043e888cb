-- ===== src/Auth/Tests.antt =====
-- Tests of the model of server/auth.py and server/rbac.py, and its theorems at sample inputs.
mod Codec
use Prim.Native.String.{◌++◌}
use pathwiseai.Prelude.{
  any, ℕ, ◌+◌, ◌<◌, String, ◌≡◌, refl, true, Option, none, some, List, [], ◌∷◌, arith, str_eq,
  eq_iff, ltb, inl, find, if◌then◌else◌, ap, all, All,
}
use pathwiseai.Prelude.Dict.{lookup, insert, values}
use pathwiseai.Auth.Defs.{
  User, Users, Crypto, Claims, Clock, Result, ok, raise, LoginReply, has_email, login, login_user,
  create_access_token, register_user, valid_roles, unlock_user, get_user_by_id, new_user, lock_time,
  locked_error, invalid_credentials, ChecksHashed, DecodesEncoded, EncodesNonempty,
}
use pathwiseai.Auth.Lockout.{Try, login_all, login-after_lockout, login-lockout_over}
use pathwiseai.Auth.Invariant.{
  IsFree, Op, log_in, register, unlock, steps, steps-IsValid, IsValid, login_ok, login_same_error,
}
use pathwiseai.Auth.Register.{HasUniqueEmails, register_user-HasUniqueEmails, login-register_user}
use pathwiseai.Auth.Tokens.{
  get_current_user_strict, get_current_user, get_ws_user, get_current_user-create_access_token,
}
use pathwiseai.Auth.Rbac.{require_permission_outside, forbidden, contains}
use Codec.{encode, decode, decode-encode, encode-nonempty}

-- Stands for bcrypt and PyJWT: the hash is the password itself.
abbrev plain_crypto : Crypto
plain_crypto = record {
  hashpw = λ plain salt. plain;
  checkpw = λ plain hashed. str_eq plain hashed;
  encode = encode;
  decode = decode;
}

checks : ChecksHashed plain_crypto
checks plain salt = (eq_iff plain plain).1 refl

decodes : DecodesEncoded plain_crypto
decodes = decode-encode

nonempty : EncodesNonempty plain_crypto
nonempty = encode-nonempty

abbrev alice : User
alice = record {
  id = "u1";
  email = "alice@site";
  password_hash = "secret";
  role = "IT_STAFF";
  is_active = true;
  failed_attempts = 0;
  locked_at = none;
}

abbrev bob : User
bob = record alice { id = "u2"; email = "bob@site"; role = "MSP_TECH" }

abbrev owner : User
owner = record alice { id = "u3"; email = "owner@site"; role = "SUPER_ADMIN" }

abbrev store : Users
store = ("u1", alice) ∷ ("u2", bob) ∷ []

abbrev at : ℕ → Clock
at t = record { check = t; lock = t; exp = t; iat = t }

abbrev four_wrong : List Try
four_wrong = (at 1, "a") ∷ (at 2, "b") ∷ (at 3, "c") ∷ (at 4, "d") ∷ []

login-after_lockout_example :
    login plain_crypto (at 1000) "alice@site" "secret" (
      login_all plain_crypto "alice@site"
        ((at 1, "a") ∷ (at 2, "b") ∷ (at 3, "c") ∷ (at 4, "d") ∷ (at 5, "e") ∷ [])
        store)
    ≡ (
      raise locked_error,
      login_all plain_crypto "alice@site"
          ((at 1, "a") ∷ (at 2, "b") ∷ (at 3, "c") ∷ (at 4, "d") ∷ (at 5, "e") ∷ [])
          store,
    )
login-after_lockout_example =
    login-after_lockout plain_crypto "alice@site" store alice refl refl refl four_wrong
      (refl, (refl, (refl, (refl, tt)))) (at 5) "e" refl refl (omega arith) (at 1000) "secret"
      (omega arith)

login-lockout_over_example :
    let (reply, us') = login plain_crypto (at 1800000005) "alice@site" "secret" (
      login_all plain_crypto "alice@site"
        ((at 1, "a") ∷ (at 2, "b") ∷ (at 3, "c") ∷ (at 4, "d") ∷ (at 5, "e") ∷ [])
        store) in
    (reply
      ≡ ok (record {
        access_token = create_access_token plain_crypto (at 1800000005) "u1" "IT_STAFF";
        role = "IT_STAFF";
        email = "alice@site";
      }))
    × (find (has_email "alice@site") (values us')
        ≡ some (record alice { failed_attempts = 0; locked_at = none }))
login-lockout_over_example =
    login-lockout_over plain_crypto "alice@site" store alice refl refl refl four_wrong
      (refl, (refl, (refl, (refl, tt)))) (at 5) "e" refl refl (omega arith) (at 1800000005) "secret"
      refl (omega arith)

abbrev ops : List Op
ops =
    log_in (at 7) "alice@site" "wrong"
    ∷ register "u4" "salt" "dan@site" "pw" "END_USER"
    ∷ unlock "u1"
    ∷ []

store-IsValid : IsValid store
store-IsValid = (λ _. omega arith, (λ _. omega arith, tt))

steps-IsValid_example : IsValid (steps plain_crypto ops store)
steps-IsValid_example =
    steps-IsValid plain_crypto ops store (omega arith, (tt, (tt, tt))) store-IsValid

-- A wrong password is counted; an unknown email changes nothing.
login_wrong :
    login plain_crypto (at 9) "bob@site" "oops" store
    ≡ (raise invalid_credentials, ("u1", alice) ∷ ("u2", record bob { failed_attempts = 1 }) ∷ [])
unfolding login
login_wrong = refl

login_unknown :
    login plain_crypto (at 9) "eve@site" "oops" store ≡ (raise invalid_credentials, store)
unfolding login
login_unknown = refl

abbrev alice_reply : LoginReply
alice_reply = record {
  access_token = create_access_token plain_crypto (at 9) "u1" "IT_STAFF";
  role = "IT_STAFF";
  email = "alice@site";
}

login_right : (login plain_crypto (at 9) "alice@site" "secret" store).0 ≡ ok alice_reply
unfolding login
login_right = refl

store-HasUniqueEmails : HasUniqueEmails store
store-HasUniqueEmails = (refl, (refl, tt))

fresh_u9 : lookup "u9" store ≡ none
unfolding lookup
fresh_u9 = refl

register_user-HasUniqueEmails_example :
    HasUniqueEmails (register_user plain_crypto "u9" "salt" "dan@site" "pw" "END_USER" store).1
register_user-HasUniqueEmails_example =
    register_user-HasUniqueEmails plain_crypto "u9" "salt" "dan@site" "pw" "END_USER" store fresh_u9
      store-HasUniqueEmails

register_dan :
    (register_user plain_crypto "u9" "salt" "dan@site" "pw" "END_USER" store).0
    ≡ ok (new_user plain_crypto "u9" "salt" "dan@site" "pw" "END_USER")
unfolding register_user
register_dan = refl

login-register_user_example :
    (any (λ r. str_eq r "END_USER") valid_roles ≡ true)
    × ((login plain_crypto
          (at 9)
          "dan@site"
          "pw"
          (register_user plain_crypto "u9" "salt" "dan@site" "pw" "END_USER" store).1).0
        ≡ ok (record {
          access_token = create_access_token plain_crypto (at 9) "u9" "END_USER";
          role = "END_USER";
          email = "dan@site";
        }))
login-register_user_example =
    login-register_user plain_crypto "u9" "salt" "dan@site" "pw" "END_USER" store checks fresh_u9
      register_dan (at 9)

stored_u1 : get_user_by_id "u1" store ≡ some alice
unfolding get_user_by_id lookup
stored_u1 = refl

get_current_user-create_access_token_example :
    let token = create_access_token plain_crypto (at 9) "u1" "IT_STAFF" in
    (get_current_user_strict plain_crypto 10 ("Bearer " ++ token) store ≡ ok alice)
    × (get_current_user true plain_crypto 10 ("Bearer " ++ token) store ≡ ok (some alice))
    × (get_ws_user true plain_crypto 10 token store ≡ some alice)
get_current_user-create_access_token_example =
    get_current_user-create_access_token plain_crypto decodes nonempty (at 9) 10 store alice
      stored_u1 (omega arith) (omega arith) "IT_STAFF"
