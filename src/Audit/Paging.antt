-- ===== src/Audit/Paging.antt =====
-- `get_audit_log` of server/audit.py: filters and pages. `str.lower` is a parameter, with its result
-- as code points.
use native.Mathlib.Nat.{zero-add, suc-add, zero-mul, suc-mul}
use mathlib.Core.List.{reverse}
use pathwiseai.Prelude.{
  ℕ, zero, suc, ◌+◌, ◌*◌, ◌≤◌, String, ◌≡◌, refl, ap, Bool, true, Option, none, some, List, [], ◌∷◌,
  ◌++◌, arith, length, take, drop, select, str_eq, leb, if◌then◌else◌, ◌∙◌, sym, ◌&&◌,
}
use pathwiseai.Prelude.Text.{occurs}
use pathwiseai.Audit.Defs.{AuditEntry, AuditLog}

-- The filters of a request. `None`, the empty text and the time 0 switch a filter off.
pub record Filters : Type 0 where
  pub event_type : Option String
  pub actor : Option String
  pub start_time : Option ℕ
  pub end_time : Option ℕ

abbrev pub given_text : Option String → Option String
given_text none = none
given_text (some s) = if str_eq s "" then none else some s

abbrev pub given_time : Option ℕ → Option ℕ
given_time none = none
given_time (some zero) = none
given_time (some (suc t)) = some (suc t)

abbrev pub if_given {ℓ κ} : {A : Type ℓ} {B : Type κ} → Option A → (A → B → Bool) → List B → List B
if_given none test xs = xs
if_given (some a) test xs = select (test a) xs

unfoldable pub filtered : (String → List ℕ) → Filters → List AuditEntry → List AuditEntry
filtered lower f entries =
    let by_type = if_given (given_text f.event_type) (λ t e. str_eq e.event_type t) entries in
    let by_actor =
      if_given (given_text f.actor) (λ a e. occurs (lower a) (lower e.actor)) by_type in
    let from_start = if_given (given_time f.start_time) (λ t e. leb t e.event_time) by_actor in
    if_given (given_time f.end_time) (λ t e. leb e.event_time t) from_start

-- `entries[start:end]` with the bounds of a page. Page 0 has the bounds `-per_page` and 0, between
-- which there is nothing.
unfoldable pub page_of {ℓ} : {A : Type ℓ} → ℕ → ℕ → List A → List A
page_of zero per_page entries = []
page_of (suc n) per_page entries = take per_page (drop (n * per_page) entries)

unfoldable pub get_audit_log : (String → List ℕ) → ℕ → ℕ → Filters → AuditLog → List AuditEntry × ℕ
unfolding filtered page_of
get_audit_log lower page per_page f log =
    let entries = filtered lower f (reverse log.entries) in
    (page_of page per_page entries, length entries)

module _ {ℓ} {A : Type ℓ} where
  take-nil : (n : ℕ) → take {A = A} n [] ≡ []
  take-nil zero = refl
  take-nil (suc n) = refl

  take-add : (n m : ℕ) (xs : List A) → take (n + m) xs ≡ take n xs ++ take m (drop n xs)
  take-add zero m xs = rw zero-add refl
  take-add (suc n) m [] = take-nil (suc n + m) ∙ sym (take-nil m)
  take-add (suc n) m (x ∷ xs) = rw suc-add (ap (◌∷◌ x) (take-add n m xs))

  take_all : (n : ℕ) (xs : List A) → length xs ≤ n → take n xs ≡ xs
  take_all zero [] h = refl
  take_all zero (x ∷ xs) h = absurd (omega arith)
  take_all (suc n) [] h = refl
  take_all (suc n) (x ∷ xs) h = ap (◌∷◌ x) (take_all n xs (omega arith))

  -- The pages 1 to `k`, one after the other.
  pages : ℕ → ℕ → List A → List A
  pages zero per_page xs = []
  pages (suc k) per_page xs = pages k per_page xs ++ page_of (suc k) per_page xs

  pages-take : (k per_page : ℕ) (xs : List A) → pages k per_page xs ≡ take (k * per_page) xs
  unfolding pages page_of
  pages-take zero per_page xs = rw zero-mul refl
  pages-take (suc k) per_page xs =
      rw (pages-take k per_page xs, suc-mul) (sym (take-add (k * per_page) per_page xs))

  select-select :
      (p q : A → Bool) (xs : List A) → select q (select p xs) ≡ select (λ x. p x && q x) xs
  select-select p q [] = refl
  select-select p q (x ∷ xs) = ground (arith, select-select p q xs)

  select-true : (xs : List A) → select (λ x. true) xs ≡ xs
  select-true [] = refl
  select-true (x ∷ xs) = ap (◌∷◌ x) (select-true xs)

abbrev pub holds_if_given {ℓ κ} : {A : Type ℓ} {B : Type κ} → Option A → (A → B → Bool) → B → Bool
holds_if_given none test x = true
holds_if_given (some a) test x = test a x

if_given-select {ℓ κ} :
    {A : Type ℓ} {B : Type κ} (o : Option A) (test : A → B → Bool) (xs : List B)
    → if_given o test xs ≡ select (holds_if_given o test) xs
if_given-select none test xs = sym (select-true xs)
if_given-select (some a) test xs = refl

-- What an entry must be for a request: of the type, by an actor whose email contains the text
-- once both are in lower case, and between the two times, as far as each is asked for.
abbrev pub matches : (String → List ℕ) → Filters → AuditEntry → Bool
matches lower f e =
    ((holds_if_given (given_text f.event_type) (λ t x. str_eq x.event_type t) e
        && holds_if_given (given_text f.actor) (λ a x. occurs (lower a) (lower x.actor)) e)
      && holds_if_given (given_time f.start_time) (λ t x. leb t x.event_time) e)
    && holds_if_given (given_time f.end_time) (λ t x. leb x.event_time t) e

filtered-select :
    (lower : String → List ℕ) (f : Filters) (es : List AuditEntry)
    → filtered lower f es ≡ select (matches lower f) es
unfolding filtered
filtered-select lower f es = simp (if_given-select, select-select)

-- The pages 1 to `k` that a client gets, one after the other.
pub all_pages : (String → List ℕ) → ℕ → ℕ → Filters → AuditLog → List AuditEntry
all_pages lower zero per_page f log = []
all_pages lower (suc k) per_page f log =
    all_pages lower k per_page f log ++ (get_audit_log lower (suc k) per_page f log).0

all_pages-pages :
    (lower : String → List ℕ) (k per_page : ℕ) (f : Filters) (log : AuditLog)
    → all_pages lower k per_page f log ≡ pages k per_page (filtered lower f (reverse log.entries))
unfolding all_pages pages get_audit_log
all_pages-pages lower zero per_page f log = refl
all_pages-pages lower (suc k) per_page f log = rw (all_pages-pages lower k per_page f log) refl

total-get_audit_log :
    (lower : String → List ℕ) (page per_page : ℕ) (f : Filters) (log : AuditLog)
    → (get_audit_log lower page per_page f log).1 ≡ length (filtered lower f (reverse log.entries))
unfolding get_audit_log
total-get_audit_log lower page per_page f log = refl

-- The pages of a request from the first one on, as many as hold the total that it reports, are
-- together the entries that match its filters, each as often as in the log, the newest first.
pub get_audit_log-pages :
    (lower : String → List ℕ) (f : Filters) (log : AuditLog) (k per_page : ℕ)
    → (get_audit_log lower 1 per_page f log).1 ≤ k * per_page
    → all_pages lower k per_page f log ≡ select (matches lower f) (reverse log.entries)
get_audit_log-pages lower f log k per_page enough =
    let found = filtered lower f (reverse log.entries) in
    let fits : length found ≤ k * per_page =
      omega (arith, total-get_audit_log lower 1 per_page f log) in
    all_pages-pages lower k per_page f log
    ∙ pages-take k per_page found
    ∙ take_all (k * per_page) found fits
    ∙ filtered-select lower f (reverse log.entries)
