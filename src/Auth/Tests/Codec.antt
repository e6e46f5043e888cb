-- ===== src/Auth/Tests/Codec.antt =====
-- A token format that can be decoded: it stands for that of PyJWT.
use Prim.Native.Char.{Char, code}
use Prim.Native.String.{◌++◌}
use pathwiseai.Prelude.{
  ℕ, zero, suc, String, ◌≡◌, refl, ap, true, false, ltb, leb, str_eq, Bool, Bool-cases, inl, inr,
  eq_iff, ◌==◌, if◌then◌else◌,
}
use pathwiseai.Prelude.Text.{size, take_chars, drop_chars, take_chars-append, drop_chars-append}
use pathwiseai.Auth.Defs.{Claims, Decoded, decoded, expired_signature, invalid_token, whole_seconds}

unary : ℕ → String → String
unary zero rest = String.◌∷◌ "b" rest
unary (suc n) rest = String.◌∷◌ "a" (unary n rest)

read_unary : String → ℕ × String
read_unary String.[] = (0, String.[])
read_unary (String.◌∷◌ c s) =
    let (n, rest) = read_unary s in if code c == 98 then (0, s) else (suc n, rest)

read_unary-unary : (n : ℕ) (rest : String) → read_unary (unary n rest) ≡ (n, rest)
unfolding unary read_unary
read_unary-unary zero rest = refl
read_unary-unary (suc n) rest = ap (λ (r : ℕ × String). (suc r.0, r.1)) (read_unary-unary n rest)

pub encode : Claims → String
encode p = unary p.exp (unary p.iat (unary (size p.sub) (p.sub ++ p.role)))

pub decode : ℕ → String → Decoded
decode now s =
    let (exp, s1) = read_unary s in
    let (iat, s2) = read_unary s1 in
    let (n, s3) = read_unary s2 in
    if ltb now (whole_seconds exp)
    then (if leb (whole_seconds iat) now
        then decoded
            (record { sub = take_chars n s3; role = drop_chars n s3; exp = exp; iat = iat })
        else invalid_token)
    else expired_signature

pub decode-encode :
    (now : ℕ) (p : Claims)
    → ltb now (whole_seconds p.exp) ≡ true
    → leb (whole_seconds p.iat) now ≡ true
    → decode now (encode p) ≡ decoded p
unfolding encode decode
decode-encode now p fresh issued =
    simp (read_unary-unary, fresh, issued, take_chars-append, drop_chars-append) refl

is_empty : String → Bool
is_empty String.[] = true
is_empty (String.◌∷◌ c s) = false

cons-nonempty : (c : Char) (s : String) → str_eq (String.◌∷◌ c s) "" ≡ false
unfolding is_empty
cons-nonempty c s = elim (Bool-cases (str_eq (String.◌∷◌ c s) "")) [
  | inl same ↦ let clash : false ≡ true = ap is_empty ((eq_iff (String.◌∷◌ c s) "").0 same) in cc
  | inr apart ↦ apart
]

unary-nonempty : (n : ℕ) (rest : String) → str_eq (unary n rest) "" ≡ false
unfolding unary
unary-nonempty zero rest = cons-nonempty "b" rest
unary-nonempty (suc n) rest = cons-nonempty "a" (unary n rest)

pub encode-nonempty : (p : Claims) → str_eq (encode p) "" ≡ false
unfolding encode
encode-nonempty p = unary-nonempty p.exp (unary p.iat (unary (size p.sub) (p.sub ++ p.role)))
