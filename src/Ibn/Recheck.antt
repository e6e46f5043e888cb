-- ===== src/Ibn/Recheck.antt =====
-- What the checks of server/ibn_engine.py, and the steering that they start, change for later ones.
use pathwiseai.Prelude.{
  ℕ, ◌≡◌, refl, ap, ◌∙◌, String, false, Option, none, some, List, [], ◌∷◌, all, Bool-cases, inl,
  inr, str_eq, ◌||◌,
}
use pathwiseai.Ibn.Defs.{
  IntentStatus, active, compliant, violated, auto_steering, paused, deleted, NetworkIntent, Network,
  Violation, truthy, SteeringEvent,
}
use pathwiseai.State.Queries.{is_traffic_diverted_from}
use pathwiseai.Ibn.Metrics.{get_link_metric}
use pathwiseai.Ibn.Compliance.{violation_of, is_idle, route_for}
use pathwiseai.Ibn.Check.{
  Clock, Engine, with_status, with_violation, checked_at, steer_over, auto_steer_for_intent,
  is_rested, settled, judged, check_cases, check_intent_compliance,
}
use pathwiseai.Ibn.Verdict.{is_compliant, meets, metric_of, check_intent_compliance-meets}

-- Nothing but the history of steering events may differ.
abbrev IsKept : Network → Network → Type 0
IsKept n n' = (history : List SteeringEvent) × (n' ≡ record n { steering_history = history })

IsKept-refl : (n : Network) → IsKept n n
IsKept-refl n = (n.steering_history, refl)

-- The intent is still watched for the same thing, in the same network.
abbrev IsWatched : NetworkIntent → Network → NetworkIntent × Network → Type 0
IsWatched i n r = (r.0.parsed ≡ i.parsed) × (is_idle r.0.status ≡ false) × IsKept n r.1

steer_over-IsWatched :
    (now : ℕ) (i : NetworkIntent) (n : Network) (o : Option (String × String))
    → is_idle i.status ≡ false
    → IsWatched i n (steer_over now i n o)
steer_over-IsWatched now i n none busy = (refl, busy, IsKept-refl n)
steer_over-IsWatched now i n (some (source, target)) busy =
    elim (Bool-cases (str_eq source target || is_traffic_diverted_from source n.app_state)) [
      | inl skipped ↦ rw skipped (refl, busy, IsKept-refl n)
      | inr steers ↦ rw steers (
        refl,
        refl,
        ((steer_over now i n (some (source, target))).1.steering_history, rw steers refl),
      )
    ]

settled_busy : (s : IntentStatus) → is_idle s ≡ false → is_idle (settled s) ≡ false
settled_busy active h = refl
settled_busy compliant h = refl
settled_busy violated h = refl
settled_busy auto_steering h = refl
settled_busy paused h = absurd (cc)
settled_busy deleted h = absurd (cc)

judged-IsWatched :
    (t : Clock) (i : NetworkIntent) (e : Engine) (o : Option Violation)
    → is_idle i.status ≡ false
    → let r = judged t i e o in IsWatched i e.network (r.0, r.1.network)
unfolding auto_steer_for_intent
judged-IsWatched t i e none busy = (refl, settled_busy i.status busy, IsKept-refl e.network)
judged-IsWatched t i e (some v) busy = elim (Bool-cases (is_rested t.guard i.id e)) [
  | inl rested ↦ rw rested (
      steer_over-IsWatched t.event (with_status violated (with_violation v i)) e.network
        (route_for e.network i.parsed i.parsed.action) refl)
  | inr tired ↦ rw tired (refl, refl, IsKept-refl e.network)
]

check-IsWatched :
    (t : Clock) (i : NetworkIntent) (e : Engine)
    → is_idle i.status ≡ false
    → let r = check_intent_compliance t i e in IsWatched i e.network (r.0, r.1.network)
check-IsWatched t i e busy =
    check_cases (λ r. IsWatched i e.network (r.0, r.1.network)) t i e
      (refl, busy, IsKept-refl e.network) (refl, busy, IsKept-refl e.network)
      (judged-IsWatched t (checked_at t.checked i) e (violation_of e.network i.parsed) busy)

-- Checks of one intent, one after the other.
unfoldable pub checks : List Clock → NetworkIntent → Engine → NetworkIntent × Engine
checks [] i e = (i, e)
checks (t ∷ ts) i e = let (i', e') = check_intent_compliance t i e in checks ts i' e'

all_meet-IsKept :
    (n n' : Network) (metric : String) (limit : ℕ) (preferred : Option String)
    → IsKept n n'
    → all (meets n' metric limit preferred) n'.active_links
      ≡ all (meets n metric limit preferred) n.active_links
unfolding get_link_metric
all_meet-IsKept n n' metric limit preferred (history, kept) =
    ap (λ m. all (meets m metric limit preferred) m.active_links) kept

-- However often an intent on latency, jitter or loss that is not paused or deleted is checked, and
-- steered for, while nothing else changes the network, it is compliant in the end exactly if before the first check no active link, or not
-- the preferred one, was above the limit: no steering changes what the next check measures.
pub checks-meets :
    (t : Clock) (ts : List Clock) (i : NetworkIntent) (e : Engine) (metric : String) (limit : ℕ)
    → is_idle i.status ≡ false
    → metric_of i.parsed.action ≡ some metric
    → i.parsed.threshold ≡ some limit
    → is_compliant (checks (t ∷ ts) i e).0.status
      ≡ all (meets e.network metric limit (truthy i.parsed.preferred_link)) e.network.active_links
unfolding checks
checks-meets t [] i e metric limit busy measured bound =
    check_intent_compliance-meets t i e metric limit busy measured bound
checks-meets t (u ∷ us) i e metric limit busy measured bound =
    let r = check_intent_compliance t i e in
    let (same, busy', kept) = check-IsWatched t i e busy in
    checks-meets u us r.0 r.1 metric limit busy' (ap (λ p. metric_of p.action) same ∙ measured)
      (ap (λ p. p.threshold) same ∙ bound)
    ∙ ap
        (λ p.
          all (meets r.1.network metric limit (truthy p.preferred_link)) r.1.network.active_links)
        same
    ∙ all_meet-IsKept e.network r.1.network metric limit (truthy i.parsed.preferred_link) kept
