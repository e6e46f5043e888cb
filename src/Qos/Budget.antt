-- ===== src/Qos/Budget.antt =====
-- The allocations of server/app_qos/bandwidth_enforcer.py fit the link.
use native.Mathlib.Nat.{le_of_mul-le-mul_right, mul-le-mul_right}
use pathwiseai.Prelude.{
  ℕ, ◌+◌, ◌*◌, ◌≤◌, ◌<◌, ◌≡◌, refl, String, [], ◌∷◌, map, arith, length, ◌==◌, Bool-cases, inl, inr,
}
use pathwiseai.Prelude.Dict.{Dict}
use pathwiseai.Qos.Enforcer.{
  Allocation, share, total_pct, allocation, no_allocation, whole_pct, compute_allocations,
}

-- `round` gives a whole number that is nearest to the quotient.
abbrev pub IsNearest : (ℕ → ℕ → ℕ) → Type 0
IsNearest round =
    (n d : ℕ) → 0 < d → (2 * (round n d * d) ≤ 2 * n + d) × (2 * n ≤ 2 * (round n d * d) + d)

abbrev pub sum_mbps : Dict Allocation → ℕ
sum_mbps [] = 0
sum_mbps ((app_id, a) ∷ d) = a.allocated_mbps + sum_mbps d

sum_none :
    (round : ℕ → ℕ → ℕ) (mode : String) (p : Dict String)
    → sum_mbps (map (no_allocation round mode) p) ≡ 0
sum_none round mode [] = refl
sum_none round mode ((a, c) ∷ p) = omega (arith, sum_none round mode p)

sum_scaled :
    (round : ℕ → ℕ → ℕ) (mode : String) (whole total : ℕ) (p : Dict String)
    → IsNearest round
    → 0 < whole
    → 2 * (sum_mbps (map (allocation round mode whole total) p) * whole)
      ≤ 2 * (total_pct p * total) + length p * whole
unfolding total_pct
sum_scaled round mode whole total [] near pos = omega arith
sum_scaled round mode whole total ((a, c) ∷ p) near pos =
    let one = (near (share c * total) whole pos).0 in
    let rest = sum_scaled round mode whole total p near pos in omega (arith, one, rest)

-- The allocations add up to at most the bandwidth that is shared out, but for the rounding: half a
-- hundredth of a megabit for each application.
pub compute_allocations-within :
    (round : ℕ → ℕ → ℕ) (mode : String) (priorities : Dict String) (total : ℕ)
    → IsNearest round
    → 2 * sum_mbps (compute_allocations round mode priorities total) ≤ 2 * total + length priorities
unfolding compute_allocations
compute_allocations-within round mode priorities total near =
    let s = total_pct priorities in
    let w = whole_pct s in
    elim (Bool-cases (s == 0)) [
      | inl nothing ↦ rw nothing (omega (arith, sum_none round mode priorities))
      | inr something ↦
          let pos : 0 < w = ground arith in
          let fits : s ≤ w = ground arith in
          let sum = sum_scaled round mode w total priorities near pos in
          let up = mul-le-mul_right total fits in
          rw something (le_of_mul-le-mul_right (omega (arith, sum, up)) pos)
    ]
