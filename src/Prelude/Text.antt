-- ===== src/Prelude/Text.antt =====
-- Texts: sizes, the code points of a text in lower case (ASCII letters only), substrings.
use Prim.Native.Char.{code}
use Prim.Native.String.append
use Prim.Native.String.{String, ◌++◌}
use mathlib.Core.Bool.{Bool, true, false, ◌&&◌, ◌||◌}
use mathlib.Core.List.{List, [], ◌∷◌}
use mathlib.Core.Path.{◌≡◌, refl, ap}
use Prim.Native.Nat.{ℕ, suc, zero, ◌+◌}
use native.Mathlib.Omega.{arith}
use Prim.Native.Nat.{◌/◌, ◌%◌}
use pathwiseai.Prelude.Tests.{leb, ltb, ◌==◌, if◌then◌else◌}

abbrev pub size : String → ℕ
size String.[] = 0
size (String.◌∷◌ c s) = suc (size s)

-- `s[n:]`
unfoldable pub drop_chars : ℕ → String → String
drop_chars zero s = s
drop_chars (suc n) String.[] = String.[]
drop_chars (suc n) (String.◌∷◌ c s) = drop_chars n s

-- `s[:n]`
unfoldable pub take_chars : ℕ → String → String
take_chars zero s = String.[]
take_chars (suc n) String.[] = String.[]
take_chars (suc n) (String.◌∷◌ c s) = String.◌∷◌ c (take_chars n s)

abbrev pub lower_code : ℕ → ℕ
lower_code c = if leb b'A' c && leb c b'Z' then c + 32 else c

-- `s.lower()` as code points.
abbrev pub lower : String → List ℕ
lower String.[] = []
lower (String.◌∷◌ c s) = lower_code (code c) ∷ lower s

abbrev pub codes_eq : List ℕ → List ℕ → Bool
codes_eq [] [] = true
codes_eq (x ∷ xs) (y ∷ ys) = x == y && codes_eq xs ys
codes_eq _ _ = false

abbrev pub begins : List ℕ → List ℕ → Bool
begins [] ys = true
begins (x ∷ xs) (y ∷ ys) = x == y && begins xs ys
begins _ _ = false

-- `a in b`, on code points.
abbrev pub occurs : List ℕ → List ℕ → Bool
occurs xs [] = begins xs []
occurs xs (y ∷ ys) = begins xs (y ∷ ys) || occurs xs ys

pub drop_chars-append : (s rest : String) → drop_chars (size s) (s ++ rest) ≡ rest
unfolding drop_chars
drop_chars-append String.[] rest = rw append.nil refl
drop_chars-append (String.◌∷◌ c s) rest = rw append.cons (drop_chars-append s rest)

pub take_chars-append : (s rest : String) → take_chars (size s) (s ++ rest) ≡ s
unfolding take_chars
take_chars-append String.[] rest = refl
take_chars-append (String.◌∷◌ c s) rest =
    rw append.cons (ap (String.◌∷◌ c) (take_chars-append s rest))

pub size-append : (s t : String) → size (s ++ t) ≡ size s + size t
size-append String.[] t = rw append.nil (omega arith)
size-append (String.◌∷◌ c s) t = rw append.cons (omega (arith, size-append s t))

pub append_assoc : (s t u : String) → (s ++ t) ++ u ≡ s ++ (t ++ u)
append_assoc String.[] t u = cc (append.nil t, append.nil (t ++ u))
append_assoc (String.◌∷◌ c s) t u =
    cc (append.cons c s t, append.cons c (s ++ t) u, append.cons c s (t ++ u), append_assoc s t u)

-- Equal texts have equal ends of one size.
pub suffix-eq : (a b c d : String) → size c ≡ size d → a ++ c ≡ b ++ d → c ≡ d
suffix-eq String.[] String.[] c d h e = cc (append.nil c, append.nil d)
suffix-eq String.[] (String.◌∷◌ y b) c d h e =
    let sizes : size c ≡ size (String.◌∷◌ y b ++ d) = ap size (cc (append.nil c)) in
    absurd (omega (arith, sizes, size-append (String.◌∷◌ y b) d))
suffix-eq (String.◌∷◌ x a) String.[] c d h e =
    let sizes : size (String.◌∷◌ x a ++ c) ≡ size d = ap size (cc (append.nil d)) in
    absurd (omega (arith, sizes, size-append (String.◌∷◌ x a) c))
suffix-eq (String.◌∷◌ x a) (String.◌∷◌ y b) c d h e =
    suffix-eq a b c d h (cc (append.cons x a c, append.cons y b d))

abbrev digit : ℕ → String
digit n =
    if n == 0
    then "0"
    else if n == 1
    then "1"
    else if n == 2
    then "2"
    else if n == 3
    then "3"
    else if n == 4
    then "4"
    else if n == 5
    then "5"
    else if n == 6
    then "6"
    else if n == 7
    then "7"
    else if n == 8
    then "8"
    else "9"

-- The digits of a number, on fuel.
unfoldable digits : ℕ → ℕ → String
digits zero n = ""
digits (suc fuel) n =
    let rest = digits fuel (n / 10) in if ltb n 10 then digit n else rest ++ digit (n % 10)

-- `str(n)`
unfoldable pub decimal : ℕ → String
unfolding digits
decimal n = digits (suc n) n

abbrev pub codes : String → List ℕ
codes String.[] = []
codes (String.◌∷◌ c s) = code c ∷ codes s

-- Equality, prefix and `in` on texts as code points.
abbrev pub same_codes : List ℕ → List ℕ → Bool
same_codes [] [] = true
same_codes [] (d ∷ t) = false
same_codes (c ∷ s) [] = false
same_codes (c ∷ s) (d ∷ t) = c == d && same_codes s t

abbrev pub is_prefix : List ℕ → List ℕ → Bool
is_prefix [] t = true
is_prefix (c ∷ s) [] = false
is_prefix (c ∷ s) (d ∷ t) = c == d && is_prefix s t

abbrev pub is_within : List ℕ → List ℕ → Bool
is_within s [] = is_prefix s []
is_within s (d ∷ t) = is_prefix s (d ∷ t) || is_within s t
