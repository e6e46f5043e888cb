-- ===== src/Steering/History.antt =====
-- The history of reports of server/sandbox.py, newest first. A report is kept whole.
use pathwiseai.Prelude.{
  ℕ, ◌≤◌, ◌≡◌, refl, ap, ◌∙◌, List, [], ◌∷◌, length, take, ltb, if◌then◌else◌, arith, length-take,
  Bool-cases, inl, inr, zero, suc,
}
use pathwiseai.Steering.Pipeline.{SandboxReport}

-- `xs.pop()` as a write: the list without its last element
abbrev without_last : List SandboxReport → List SandboxReport
without_last [] = []
without_last (r ∷ []) = []
without_last (r ∷ s ∷ rs) = r ∷ without_last (s ∷ rs)

unfoldable pub record_report : SandboxReport → List SandboxReport → List SandboxReport
record_report r history =
    let history' = r ∷ history in
    if ltb 50 (length history') then without_last history' else history'

unfoldable pub get_sandbox_history : ℕ → List SandboxReport → List SandboxReport
get_sandbox_history limit history = take limit history

unfoldable pub record_all : List SandboxReport → List SandboxReport → List SandboxReport
unfolding record_report
record_all [] history = history
record_all (r ∷ rs) history = record_all rs (record_report r history)

abbrev pub newest_first : List SandboxReport → List SandboxReport → List SandboxReport
newest_first [] acc = acc
newest_first (r ∷ rs) acc = newest_first rs (r ∷ acc)

without_last-take :
    (n : ℕ) (xs : List SandboxReport) → length xs ≡ suc n → without_last xs ≡ take n xs
without_last-take n [] h = absurd (omega arith)
without_last-take zero (x ∷ []) h = refl
without_last-take (suc n) (x ∷ []) h = absurd (omega arith)
without_last-take zero (x ∷ y ∷ ys) h = absurd (omega arith)
without_last-take (suc n) (x ∷ y ∷ ys) h = ground (arith, without_last-take n (y ∷ ys))

take-take-suc : (n : ℕ) (xs : List SandboxReport) → take n (take (suc n) xs) ≡ take n xs
take-take-suc zero xs = refl
take-take-suc (suc n) [] = refl
take-take-suc (suc n) (x ∷ xs) = ap (◌∷◌ x) (take-take-suc n xs)

take_all : (n : ℕ) (xs : List SandboxReport) → length xs ≤ n → take n xs ≡ xs
take_all zero [] h = refl
take_all zero (x ∷ xs) h = absurd (omega arith)
take_all (suc n) [] h = refl
take_all (suc n) (x ∷ xs) h = ap (◌∷◌ x) (take_all n xs (omega arith))

record_report-take :
    (r : SandboxReport) (all : List SandboxReport)
    → record_report r (take 50 all) ≡ take 50 (r ∷ all)
unfolding record_report
record_report-take r all = elim (Bool-cases (ltb 50 (length (r ∷ take 50 all)))) [
  | inl full ↦
      let cut = without_last-take 50 (r ∷ take 50 all) (ground (arith, length-take 50 all)) in
      rw full (cut ∙ ap (◌∷◌ r) (take-take-suc 49 all))
  | inr room ↦
      let short : length all ≤ 49 = ground (arith, length-take 50 all) in
      rw (room, take_all 50 all (omega arith), take_all 49 all short) refl
]

record_all-take :
    (rs all : List SandboxReport) → record_all rs (take 50 all) ≡ take 50 (newest_first rs all)
unfolding record_all
record_all-take [] all = refl
record_all-take (r ∷ rs) all = rw (record_report-take r all) (record_all-take rs (r ∷ all))

-- Of any reports that are recorded one after the other, the history shows the newest ones, newest
-- first, as many as asked for but at most fifty.
pub get_sandbox_history-record_all :
    (limit : ℕ) (rs : List SandboxReport)
    → get_sandbox_history limit (record_all rs []) ≡ take limit (take 50 (newest_first rs []))
unfolding get_sandbox_history
get_sandbox_history-record_all limit rs = rw (record_all-take rs []) refl
