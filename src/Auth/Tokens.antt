-- ===== src/Auth/Tokens.antt =====
-- The token checks of server/auth.py that stand before the handlers of the API.
use text.Mathlib.Text.{starts_with}
use text.Mathlib.TextPositions.{starts_with-append}
use Prim.Native.String.{◌++◌}
use pathwiseai.Prelude.{
  ℕ, ◌+◌, ◌<◌, ◌*◌, String, ◌≡◌, refl, Bool-cases, inl, inr, Bool, not, Option, none, some, arith,
  find, str_eq, if◌then◌else◌, lt→ltb, le→leb, ◌≤◌, true,
}
use pathwiseai.Prelude.Text.{drop_chars, drop_chars-append}
use pathwiseai.Prelude.Dict.{values}
use pathwiseai.Auth.Defs.{
  User, Users, Crypto, DecodesEncoded, EncodesNonempty, whole_seconds, Claims, decoded,
  expired_signature, invalid_token, Clock, HttpError, Result, ok, raise, create_access_token,
  get_user_by_id, second, jwt_expiry_minutes,
}

abbrev pub unauthorized : String → HttpError
unauthorized detail = record { status = 401; detail = detail }

unfoldable pub decode_token : Crypto → ℕ → String → Result Claims
decode_token c now token = elim (c.decode now token) [
  | decoded claims ↦ ok claims
  | expired_signature ↦ raise (unauthorized "Token expired")
  | invalid_token ↦ raise (unauthorized "Invalid token")
]

-- `if not user or not user.is_active: raise`
abbrev pub active_user : Option User → Result User
active_user none = raise (unauthorized "Invalid user")
active_user (some u) = if not u.is_active then raise (unauthorized "Invalid user") else ok u

-- The user of the claims of the token.
abbrev pub user_of : Users → Result Claims → Result User
user_of us (raise e) = raise e
user_of us (ok claims) = active_user (get_user_by_id claims.sub us)

-- `auth_header` is the Authorization header, empty when it is missing.
unfoldable pub get_current_user_strict : Crypto → ℕ → String → Users → Result User
unfolding decode_token drop_chars get_user_by_id
get_current_user_strict c now auth_header us =
    if not (starts_with auth_header "Bearer ")
    then raise (unauthorized "Missing authentication token")
    else user_of us (decode_token c now (drop_chars 7 auth_header))

unfoldable pub get_current_user : Bool → Crypto → ℕ → String → Users → Result (Option User)
unfolding get_current_user_strict
get_current_user auth_enabled c now auth_header us =
    if not auth_enabled
    then ok (find (λ u. str_eq u.role "NETWORK_ADMIN") (values us))
    else elim (get_current_user_strict c now auth_header us) [
      | ok u ↦ ok (some u)
      | raise e ↦ raise e
    ]

-- `token` is the query parameter of the WebSocket, empty when it is missing.
unfoldable pub get_ws_user : Bool → Crypto → ℕ → String → Users → Option User
unfolding decode_token get_user_by_id
get_ws_user auth_enabled c now token us =
    if not auth_enabled
    then find (λ u. str_eq u.role "NETWORK_ADMIN") (values us)
    else if str_eq token ""
    then none
    else elim (decode_token c now token) [
      | ok claims ↦ get_user_by_id claims.sub us
      | raise e ↦ none
    ]

module _ (c : Crypto) (decodes : DecodesEncoded c) (nonempty : EncodesNonempty c) (t : Clock)
    (now : ℕ) (us : Users) (u : User) (stored : get_user_by_id u.id us ≡ some u)
    (fresh : now < whole_seconds (t.exp + jwt_expiry_minutes * 60 * second))
    (issued : whole_seconds t.iat ≤ now) where
  decode-create :
      (role : String)
      → decode_token c now (create_access_token c t u.id role)
        ≡ ok (record {
          sub = u.id;
          role = role;
          exp = t.exp + jwt_expiry_minutes * 60 * second;
          iat = t.iat;
        })
  unfolding decode_token create_access_token
  decode-create role =
      let claims : Claims = record {
        sub = u.id;
        role = role;
        exp = t.exp + jwt_expiry_minutes * 60 * second;
        iat = t.iat;
      } in
      ground (arith, decodes now claims (lt→ltb _ _ fresh) (le→leb _ _ issued))

  strict-create :
      (role : String)
      → get_current_user_strict c now ("Bearer " ++ create_access_token c t u.id role) us
        ≡ (if u.is_active then ok u else raise (unauthorized "Invalid user"))
  unfolding get_current_user_strict
  strict-create role =
      let token = create_access_token c t u.id role in
      rw
        (
          starts_with-append "Bearer " token,
          drop_chars-append "Bearer " token,
          decode-create role,
          stored,
        )
        (ground arith)

  ws-create :
      (role : String) → get_ws_user true c now (create_access_token c t u.id role) us ≡ some u
  unfolding get_ws_user create_access_token
  ws-create role =
      rw
        (
          nonempty (record {
            sub = u.id;
            role = role;
            exp = t.exp + jwt_expiry_minutes * 60 * second;
            iat = t.iat;
          }),
          decode-create role,
        )
        stored

  -- The token of a login names the user to whom it was given, from the whole second of its issue on
  -- until the whole second of its expiry, with AUTH_ENABLED: sent as a bearer token it gives that
  -- user to both user dependencies if the user is active, and is refused with 401 if not; in the
  -- query of a WebSocket it gives that user in any case.
  pub get_current_user-create_access_token :
      (role : String)
      → let token = create_access_token c t u.id role in
        (get_current_user_strict c now ("Bearer " ++ token) us
          ≡ (if u.is_active then ok u else raise (unauthorized "Invalid user")))
        × (get_current_user true c now ("Bearer " ++ token) us
            ≡ (if u.is_active then ok (some u) else raise (unauthorized "Invalid user")))
        × (get_ws_user true c now token us ≡ some u)
  unfolding get_current_user
  get_current_user-create_access_token role = (
    strict-create role,
    rw (strict-create role)
        (elim (Bool-cases u.is_active) [ inl on ↦ rw on refl | inr off ↦ rw off refl ]),
    ws-create role,
  )
