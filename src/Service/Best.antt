-- ===== src/Service/Best.antt =====
-- The best link of services/traffic-steering/steering_engine.py has the highest score.
use pathwiseai.Prelude.{
  ℕ, ◌≤◌, ◌≡◌, refl, ap, sym, ◌∙◌, Bool, true, Option, none, some, List, [], ◌∷◌, all, any, ◌⊎◌,
  ltb, leb, arith, Bool-cases, inl, inr, if◌then◌else◌,
}
use pathwiseai.Service.Engine.{Entry, insert_link, sorted_links, first, best_link}

-- The better one of a link and the best of the later ones.
abbrev better : Entry → Option Entry → Entry
better x none = x
better x (some y) = if ltb x.1.health_score y.1.health_score then y else x

first-insert_link :
    (x : Entry) (ys : List Entry) → first (insert_link x ys) ≡ some (better x (first ys))
first-insert_link x [] = refl
first-insert_link x (y ∷ ys) = ground arith

best_link-step : (x : Entry) (xs : List Entry) → best_link (x ∷ xs) ≡ some (better x (best_link xs))
unfolding best_link sorted_links
best_link-step x xs = first-insert_link x (sorted_links xs)

abbrev bounds : ℕ → List Entry → Bool
bounds h = all (λ z. leb z.1.health_score h)

all-weaken : (h k : ℕ) (p : List Entry) → h ≤ k → bounds h p ≡ true → bounds k p ≡ true
all-weaken h k [] le every = refl
all-weaken h k (x ∷ p) le every = ground (arith, all-weaken h k p)

better-cases :
    (x y : Entry)
    → ((better x (some y) ≡ y) × (x.1.health_score ≤ y.1.health_score))
      ⊎ ((better x (some y) ≡ x) × (y.1.health_score ≤ x.1.health_score))
better-cases x y = elim (Bool-cases (ltb x.1.health_score y.1.health_score)) [
  | inl below ↦ inl (rw below refl, ground arith)
  | inr above ↦ inr (rw above refl, ground arith)
]

bounds_more :
    (x b : Entry) (xs : List Entry)
    → x.1.health_score ≤ b.1.health_score
    → bounds b.1.health_score xs ≡ true
    → bounds b.1.health_score (x ∷ xs) ≡ true
bounds_more x b xs le h = ground arith

better-top :
    (x : Entry) (xs : List Entry) (o : Option Entry)
    → ((b : Entry) → o ≡ some b → bounds b.1.health_score xs ≡ true)
    → (o ≡ none → xs ≡ [])
    → bounds (better x o).1.health_score (x ∷ xs) ≡ true
better-top x xs none top empty = rw (empty refl) (ground arith)
better-top x xs (some b) top empty = elim (better-cases x b) [
  | inl (e, le) ↦ ap (λ z. bounds z.1.health_score (x ∷ xs)) e ∙ bounds_more x b xs le (top b refl)
  | inr (e, le) ↦
      let weaker = all-weaken b.1.health_score x.1.health_score xs le (top b refl) in
      ap (λ z. bounds z.1.health_score (x ∷ xs)) e ∙ bounds_more x x xs (omega arith) weaker
]

best_link-none : (p : List Entry) → best_link p ≡ none → p ≡ []
best_link-none [] h = refl
best_link-none (x ∷ xs) h = absurd (let e = best_link-step x xs in cc)

-- No link has a higher score than the best one.
pub best_link-top :
    (p : List Entry) (b : Entry) → best_link p ≡ some b → bounds b.1.health_score p ≡ true
best_link-top [] b h = refl
best_link-top (x ∷ xs) b h =
    let e : better x (best_link xs) ≡ b = (let step = best_link-step x xs in cc) in
    ap (λ z. bounds z.1.health_score (x ∷ xs)) (sym e)
    ∙ better-top x xs (best_link xs) (best_link-top xs) (best_link-none xs)

pub any-later :
    (q : Entry → Bool) (x : Entry) (xs : List Entry) → any q xs ≡ true → any q (x ∷ xs) ≡ true
any-later q x xs h = ground arith

pub any-here : (q : Entry → Bool) (x : Entry) (xs : List Entry) → q x ≡ true → any q (x ∷ xs) ≡ true
any-here q x xs h = ground arith

better-any :
    (q : Entry → Bool) (x : Entry) (xs : List Entry) (o : Option Entry)
    → ((b : Entry) → o ≡ some b → q b ≡ true → any q xs ≡ true)
    → q (better x o) ≡ true
    → any q (x ∷ xs) ≡ true
better-any q x xs none held h = any-here q x xs h
better-any q x xs (some b) held h = elim (better-cases x b) [
  | inl (e, le) ↦ any-later q x xs (held b refl (ap q (sym e) ∙ h))
  | inr (e, le) ↦ any-here q x xs (ap q (sym e) ∙ h)
]

-- The best link is one of the links.
pub best_link-any :
    (q : Entry → Bool) (p : List Entry) (b : Entry)
    → best_link p ≡ some b
    → q b ≡ true
    → any q p ≡ true
unfolding best_link sorted_links
best_link-any q [] b h holds = absurd (cc)
best_link-any q (x ∷ xs) b h holds =
    let e : better x (best_link xs) ≡ b = (let step = best_link-step x xs in cc) in
    better-any q x xs (best_link xs) (best_link-any q xs) (ap q e ∙ holds)
