-- ===== src/Prelude/Lists.antt =====
-- Lists measured and cut by native numbers, list comprehensions, and Python's bounded `deque`.
use Prim.Native.Nat.{ℕ, zero, suc, ◌+◌, ◌-◌, ◌≤◌, min}
use mathlib.Core.Path.{◌≡◌, refl, subst}
use mathlib.Core.List.{List, [], ◌∷◌, ◌++◌}
use mathlib.Core.Bool.{Bool, true, false, ◌&&◌, ◌||◌}
use mathlib.Core.Option.{Option, none, some}
use mathlib.Core.Logic.{inl, inr}
use native.Mathlib.Omega.{arith}
use native.Mathlib.Decide.{ℕ_discrete}
use pathwiseai.Prelude.Tests.{◌==◌, if◌then◌else◌, Bool-cases}

module _ {ℓ} {A : Type ℓ} where
  abbrev pub length : List A → ℕ
  length [] = 0
  length (x ∷ xs) = suc (length xs)

  abbrev pub take : ℕ → List A → List A
  take zero xs = []
  take (suc n) [] = []
  take (suc n) (x ∷ xs) = x ∷ take n xs

  abbrev pub drop : ℕ → List A → List A
  drop zero xs = xs
  drop (suc n) [] = []
  drop (suc n) (x ∷ xs) = drop n xs

  -- `[x for x in xs if p(x)]`
  abbrev pub select : (A → Bool) → List A → List A
  select p [] = []
  select p (x ∷ xs) = let rest = select p xs in if p x then x ∷ rest else rest

  -- `any(p(x) for x in xs)` and `all(p(x) for x in xs)`
  abbrev pub any : (A → Bool) → List A → Bool
  any p [] = false
  any p (x ∷ xs) = p x || any p xs

  abbrev pub all : (A → Bool) → List A → Bool
  all p [] = true
  all p (x ∷ xs) = p x && all p xs

  -- `next((x for x in xs if p(x)), None)`
  abbrev pub find : (A → Bool) → List A → Option A
  find p [] = none
  find p (x ∷ xs) = let rest = find p xs in if p x then some x else rest

  abbrev pub All {κ} : (A → Type κ) → List A → Type κ
  All P [] = Unit
  All P (x ∷ xs) = P x × All P xs

module _ {ℓ} {A : Type ℓ} where
  pub length-append : (xs ys : List A) → length (xs ++ ys) ≡ length xs + length ys
  length-append [] ys = omega arith
  length-append (x ∷ xs) ys = omega (arith, length-append xs ys)

  pub length-take : (n : ℕ) (xs : List A) → length (take n xs) ≡ min n (length xs)
  length-take zero xs = omega arith
  length-take (suc n) [] = omega arith
  length-take (suc n) (x ∷ xs) = omega (arith, length-take n xs)

  pub length-drop : (n : ℕ) (xs : List A) → length (drop n xs) ≡ length xs - n
  length-drop zero xs = omega arith
  length-drop (suc n) [] = omega arith
  length-drop (suc n) (x ∷ xs) = omega (arith, length-drop n xs)

  pub length-select-le : (p : A → Bool) (xs : List A) → length (select p xs) ≤ length xs
  length-select-le p [] = omega arith
  length-select-le p (x ∷ xs) = ground (arith, length-select-le p xs)

  pub select-append :
      (p : A → Bool) (xs ys : List A) → select p (xs ++ ys) ≡ select p xs ++ select p ys
  select-append p [] ys = refl
  select-append p (x ∷ xs) ys = ground (arith, select-append p xs ys)

  -- `deque(maxlen=n).append(x)`: a full deque drops its oldest entry.
  unfoldable pub push : ℕ → List A → A → List A
  push n xs x = let ys = xs ++ x ∷ [] in drop (length ys - n) ys

  pub length-push-le : (n : ℕ) (xs : List A) (x : A) → length (push n xs x) ≤ n
  unfolding push
  length-push-le n xs x = omega (arith, length-drop (length (xs ++ x ∷ []) - n) (xs ++ x ∷ []))

  pub push_fits : (n : ℕ) (xs : List A) (x : A) → length xs + 1 ≤ n → push n xs x ≡ xs ++ x ∷ []
  unfolding push
  push_fits n xs x h =
      let e : length (xs ++ x ∷ []) - n ≡ 0 = omega (arith, length-append xs (x ∷ [])) in rw e refl

  pub All-find {κ} :
      (P : A → Type κ) (p : A → Bool) (xs : List A) {x : A} → All P xs → find p xs ≡ some x → P x
  All-find P p [] h e = absurd (cc)
  All-find P p (y ∷ ys) {x} h e = elim (Bool-cases (p y)) [
    | inl hit ↦ (let same : y ≡ x = ground arith in subst P same h.0)
    | inr miss ↦ All-find P p ys h.1 (rw miss at e)
  ]

  pub find_holds : (p : A → Bool) (xs : List A) (x : A) → find p xs ≡ some x → p x ≡ true
  find_holds p [] x found = absurd (cc)
  find_holds p (y ∷ ys) x found = ground (arith, find_holds p ys x)

  pub all-find :
      (p q : A → Bool) (xs : List A) (x : A) → all q xs ≡ true → find p xs ≡ some x → q x ≡ true
  all-find p q [] x every found = absurd (cc)
  all-find p q (y ∷ ys) x every found = ground (arith, all-find p q ys x)

  pub push_full :
      (n : ℕ) (y : A) (ys : List A) (x : A) → length (y ∷ ys) ≡ n → push n (y ∷ ys) x ≡ ys ++ x ∷ []
  unfolding push
  push_full n y ys x h =
      let e : length (y ∷ ys ++ x ∷ []) - n ≡ 1 = omega (arith, length-append (y ∷ ys) (x ∷ [])) in
      rw e refl

  pub append-eq-nil : (xs ys : List A) → xs ++ ys ≡ [] → (xs ≡ []) × (ys ≡ [])
  append-eq-nil [] ys h = (refl, h)
  append-eq-nil (x ∷ xs) ys h = absurd (cc)

-- `r in xs`, on numbers.
abbrev pub contains : ℕ → List ℕ → Bool
contains r [] = false
contains r (x ∷ xs) = x == r || contains r xs

pub contains-append :
    (r : ℕ) (xs ys : List ℕ) → contains r (xs ++ ys) ≡ (contains r xs || contains r ys)
contains-append r [] ys = refl
contains-append r (x ∷ xs) ys = ground (arith, contains-append r xs ys)

pub contains-select :
    (r : ℕ) (p : ℕ → Bool) (xs : List ℕ) → contains r (select p xs) ≡ (contains r xs && p r)
contains-select r p [] = refl
contains-select r p (x ∷ xs) = elim (ℕ_discrete x r) [
  | yes same ↦ rw same (ground (arith, contains-select r p xs))
  | no other ↦ ground (arith, contains-select r p xs)
]

pub select-nil :
    (p : ℕ → Bool) (xs : List ℕ) → ((r : ℕ) → contains r xs ≡ true → p r ≡ false) → select p xs ≡ []
select-nil p [] h = refl
select-nil p (x ∷ xs) h =
    let rest = select-nil p xs (λ r m. h r (ground arith)) in ground (arith, h x (ground arith))
