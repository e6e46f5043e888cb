-- ===== src/Ibn/Cooldown.antt =====
-- How often server/ibn_engine.py steers for one intent.
use pathwiseai.Prelude.{
  ◌&&◌, ℕ, ◌+◌, ◌≤◌, ◌<◌, ◌≡◌, refl, ap, ◌∙◌, String, Bool, true, Option, none, some, List, [], ◌∷◌,
  ltb, arith, Bool-cases, inl, inr, if◌then◌else◌, str_eq, eq_iff, All,
}
use pathwiseai.Prelude.Dict.{Dict, lookup, insert, lookup-insert}
use pathwiseai.Ibn.Defs.{
  violated, auto_steering, NetworkIntent, Network, Violation, auto_steer_cooldown,
}
use pathwiseai.Ibn.Compliance.{violation_of}
use pathwiseai.Ibn.Check.{
  Clock, Engine, with_status, with_violation, checked_at, auto_steer_for_intent, since_start,
  is_rested, judged, check_cases, check_intent_compliance,
}

-- The clock does not step back between the readings of one check.
abbrev pub IsForward : Clock → Type 0
IsForward t = (t.guard ≤ t.event) × (t.event ≤ t.stored)

abbrev last : String → Engine → ℕ
last id e = since_start (lookup id e.last_auto_steer)

abbrev pub was_steered : NetworkIntent → NetworkIntent → Bool
was_steered i i' = ltb i.auto_steer_count i'.auto_steer_count

module _ (id : String) (t : Clock) (forward : IsForward t) (i : NetworkIntent) (e : Engine) where
  -- The time of the last steering does not fall, and a steering of the intent comes after the
  -- cooldown and not after the last one then.
  abbrev IsRested : NetworkIntent × Engine → Type 0
  IsRested r =
      (last id e ≤ last id r.1)
      × (was_steered i r.0 ≡ true
          → i.id ≡ id
          → (last id e + auto_steer_cooldown < t.event) × (t.event ≤ last id r.1))

  unsteered : (i' : NetworkIntent) → i'.auto_steer_count ≡ i.auto_steer_count → IsRested (i', e)
  unsteered i' same = (omega arith, λ s h. absurd (ground arith))

  -- An entry that is set to the last time of the check.
  rested_late :
      (key : String)
      → is_rested t.guard key e ≡ true
      → key ≡ id
      → (last id e + auto_steer_cooldown < t.event)
        × (t.event ≤ since_start (lookup id (insert key t.stored e.last_auto_steer)))
  rested_late key rested named =
      let here : since_start (lookup key e.last_auto_steer) ≡ last id e =
        ap (λ k. since_start (lookup k e.last_auto_steer)) named in
      let named_too = (eq_iff key id).1 named in
      (
        ground (arith, here, forward),
        rw (lookup-insert key id t.stored e.last_auto_steer, named_too) (forward.1),
      )

  steered-IsRested :
      (j : NetworkIntent)
      → is_rested t.guard j.id e ≡ true
      → j.id ≡ i.id
      → (last id e ≤ since_start (lookup id (insert j.id t.stored e.last_auto_steer)))
        × (was_steered i (auto_steer_for_intent t.event (with_status violated j) e.network).0 ≡ true
            → i.id ≡ id
            → (last id e + auto_steer_cooldown < t.event)
              × (t.event ≤ since_start (lookup id (insert j.id t.stored e.last_auto_steer))))
  steered-IsRested j rested named = (
    elim (Bool-cases (str_eq j.id id)) [
      | inl same ↦
          let late = rested_late j.id rested ((eq_iff j.id id).0 same) in
          omega (arith, late.0, late.1)
      | inr other ↦ rw (lookup-insert j.id id t.stored e.last_auto_steer, other) (omega arith)
    ],
    λ s h. rested_late j.id rested (named ∙ h),
  )

  judged-IsRested :
      (j : NetworkIntent) (o : Option Violation)
      → j.auto_steer_count ≡ i.auto_steer_count
      → j.id ≡ i.id
      → IsRested (judged t j e o)
  unfolding auto_steer_for_intent
  judged-IsRested j none same named = unsteered (judged t j e none).0 same
  judged-IsRested j (some v) same named = elim (Bool-cases (is_rested t.guard j.id e)) [
    | inl rested ↦ rw rested (steered-IsRested (with_violation v j) rested named)
    | inr tired ↦ rw tired (unsteered (with_status auto_steering (with_violation v j)) same)
  ]

  check-IsRested : IsRested (check_intent_compliance t i e)
  check-IsRested =
      check_cases IsRested t i e (unsteered i refl) (unsteered (checked_at t.checked i) refl)
        (judged-IsRested (checked_at t.checked i) (violation_of e.network i.parsed) refl refl)

-- The times of the steering events of the intent, in a sequence of checks of any intents in any states
-- of the network.
abbrev pub Check : Type 0
Check = Clock × NetworkIntent × Network

abbrev pub engine_with : Dict ℕ → Network → Engine
engine_with times n = record { last_auto_steer = times; network = n }

unfoldable pub steer_times : String → List Check → Dict ℕ → List ℕ
steer_times id [] times = []
steer_times id ((t, i, n) ∷ checks) times =
    let (i', e) = check_intent_compliance t i (engine_with times n) in
    let rest = steer_times id checks e.last_auto_steer in
    if was_steered i i' && str_eq i.id id then t.event ∷ rest else rest

-- Each time is more than the cooldown after the one before.
abbrev pub AreSpaced : ℕ → List ℕ → Type 0
AreSpaced t [] = Unit
AreSpaced t (u ∷ us) = (t + auto_steer_cooldown < u) × AreSpaced u us

AreSpaced-earlier : (s t : ℕ) (us : List ℕ) → s ≤ t → AreSpaced t us → AreSpaced s us
AreSpaced-earlier s t [] le h = tt
AreSpaced-earlier s t (u ∷ us) le h = (omega (arith, le, h.0), h.1)

-- Between two steering events of one intent there are more than 30 seconds, whatever is checked
-- between them and however the network behaves, if the clock does not step back while a check runs;
-- between the checks it may.
pub steer_times-AreSpaced :
    (id : String) (checks : List Check) (times : Dict ℕ)
    → All (λ (c : Check). IsForward c.0) checks
    → AreSpaced (since_start (lookup id times)) (steer_times id checks times)
unfolding steer_times
steer_times-AreSpaced id [] times forward = tt
steer_times-AreSpaced id ((t, i, n) ∷ checks) times forward =
    let e = engine_with times n in
    let r = check_intent_compliance t i e in
    let (later, late) = check-IsRested id t forward.0 i e in
    let us = steer_times id checks r.1.last_auto_steer in
    let rest = steer_times-AreSpaced id checks r.1.last_auto_steer forward.1 in
    elim (Bool-cases (was_steered i r.0 && str_eq i.id id)) [
      | inl counts ↦
          let both = late (ground arith) (ground (arith, eq_iff i.id id)) in
          rw counts (both.0, AreSpaced-earlier t.event (last id r.1) us both.1 rest)
      | inr skipped ↦
          rw skipped (AreSpaced-earlier (since_start (lookup id times)) (last id r.1) us later rest)
    ]
