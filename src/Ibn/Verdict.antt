-- ===== src/Ibn/Verdict.antt =====
-- What the statuses that server/ibn_engine.py gives say of the network.
use pathwiseai.Prelude.{
  ℕ, ◌≡◌, refl, ap, ◌∙◌, String, Bool, true, false, not, Option, none, some, List, [], ◌∷◌, all,
  leb, ◌&&◌, ◌||◌, arith, Bool-cases, inl, inr,
}
use pathwiseai.Ibn.Defs.{
  IntentStatus, active, compliant, violated, auto_steering, paused, deleted, IntentAction,
  prioritize, ensure_latency, ensure_jitter, ensure_loss, ensure_bandwidth, block, redirect,
  deprioritize, throttle_app, prioritize_app, prioritize_over, selective_degrade, ParsedIntent,
  NetworkIntent, Network, Violation, truthy, concerns,
}
use pathwiseai.Ibn.Metrics.{get_link_metric}
use pathwiseai.Ibn.Compliance.{
  over, exceeding, or_next, first_over, ensured, violation_for, violation_of, is_idle, is_one_shot,
  route_for,
}
use pathwiseai.Ibn.Check.{
  Clock, Engine, with_status, with_violation, checked_at, steer_over, auto_steer_for_intent,
  is_rested, judged, settled, check_intent_compliance,
}

-- A value that is not above the limit, or no value.
abbrev pub is_within : ℕ → Option ℕ → Bool
is_within limit none = true
is_within limit (some val) = leb val limit

-- What an intent demands of one link.
abbrev pub meets : Network → String → ℕ → Option String → String → Bool
meets n metric limit preferred link =
    not (concerns preferred link) || is_within limit (get_link_metric link metric n)

abbrev pub is_none : {A : Type 0} → Option A → Bool
is_none none = true
is_none (some a) = false

exceeding-within :
    (link metric : String) (limit : ℕ) (val : Option ℕ) (rest : Option Violation)
    → is_none (or_next (exceeding link metric limit (over limit val)) rest)
      ≡ (is_within limit val && is_none rest)
exceeding-within link metric limit none rest = refl
exceeding-within link metric limit (some v) rest = ground arith

first_over-meets :
    (n : Network) (metric : String) (limit : ℕ) (preferred : Option String) (links : List String)
    → is_none (first_over n metric limit preferred links)
      ≡ all (meets n metric limit preferred) links
unfolding first_over
first_over-meets n metric limit preferred [] = refl
first_over-meets n metric limit preferred (link ∷ links) = ground (
  arith,
  exceeding-within link metric limit (get_link_metric link metric n)
      (first_over n metric limit preferred links),
  first_over-meets n metric limit preferred links,
)

abbrev pub is_compliant : IntentStatus → Bool
is_compliant compliant = true
is_compliant _ = false

steer_over-status :
    (now : ℕ) (i : NetworkIntent) (n : Network) (o : Option (String × String))
    → is_compliant i.status ≡ false
    → is_compliant (steer_over now i n o).0.status ≡ false
steer_over-status now i n none h = h
steer_over-status now i n (some (source, target)) h = ground arith

settled_compliant : (s : IntentStatus) → is_idle s ≡ false → is_compliant (settled s) ≡ true
settled_compliant active h = refl
settled_compliant compliant h = refl
settled_compliant violated h = refl
settled_compliant auto_steering h = refl
settled_compliant paused h = absurd (cc)
settled_compliant deleted h = absurd (cc)

judged-compliant :
    (t : Clock) (i : NetworkIntent) (e : Engine) (o : Option Violation)
    → is_idle i.status ≡ false
    → is_compliant (judged t i e o).0.status ≡ is_none o
unfolding auto_steer_for_intent
judged-compliant t i e none busy = settled_compliant i.status busy
judged-compliant t i e (some v) busy = elim (Bool-cases (is_rested t.guard i.id e)) [
  | inl rested ↦ rw rested (
      steer_over-status t.event (with_status violated (with_violation v i)) e.network
        (route_for e.network i.parsed i.parsed.action) refl)
  | inr tired ↦ rw tired refl
]

-- An intent that is watched is compliant after a check exactly if no violation was found.
check-compliant :
    (t : Clock) (i : NetworkIntent) (e : Engine)
    → is_idle i.status ≡ false
    → is_one_shot i.parsed.action ≡ false
    → is_compliant (check_intent_compliance t i e).0.status
      ≡ is_none (violation_of e.network i.parsed)
unfolding check_intent_compliance
check-compliant t i e busy watched =
    rw (busy, watched)
      (judged-compliant t (checked_at t.checked i) e (violation_of e.network i.parsed) busy)

-- The metric of an intent on latency, jitter or loss.
abbrev pub metric_of : IntentAction → Option String
metric_of ensure_latency = some "latency_ms"
metric_of ensure_jitter = some "jitter_ms"
metric_of ensure_loss = some "packet_loss_pct"
metric_of _ = none

violation_for-metric :
    (n : Network) (p : ParsedIntent) (a : IntentAction) (metric : String)
    → metric_of a ≡ some metric
    → (violation_for n p a ≡ ensured n p metric p.threshold) × (is_one_shot a ≡ false)
violation_for-metric n p ensure_latency metric h =
    (ap (λ m. ensured n p m p.threshold) (let e : "latency_ms" ≡ metric = cc in e), refl)
violation_for-metric n p ensure_jitter metric h =
    (ap (λ m. ensured n p m p.threshold) (let e : "jitter_ms" ≡ metric = cc in e), refl)
violation_for-metric n p ensure_loss metric h =
    (ap (λ m. ensured n p m p.threshold) (let e : "packet_loss_pct" ≡ metric = cc in e), refl)
violation_for-metric n p prioritize metric h = absurd (cc)
violation_for-metric n p ensure_bandwidth metric h = absurd (cc)
violation_for-metric n p block metric h = absurd (cc)
violation_for-metric n p redirect metric h = absurd (cc)
violation_for-metric n p deprioritize metric h = absurd (cc)
violation_for-metric n p throttle_app metric h = absurd (cc)
violation_for-metric n p prioritize_app metric h = absurd (cc)
violation_for-metric n p prioritize_over metric h = absurd (cc)
violation_for-metric n p selective_degrade metric h = absurd (cc)

-- A check of an intent on latency, jitter or loss that is not paused or deleted finds it compliant
-- exactly if no active link, or not the preferred one when the intent names one, is above the limit
-- in its latest measurement.
pub check_intent_compliance-meets :
    (t : Clock) (i : NetworkIntent) (e : Engine) (metric : String) (limit : ℕ)
    → is_idle i.status ≡ false
    → metric_of i.parsed.action ≡ some metric
    → i.parsed.threshold ≡ some limit
    → is_compliant (check_intent_compliance t i e).0.status
      ≡ all (meets e.network metric limit (truthy i.parsed.preferred_link)) e.network.active_links
check_intent_compliance-meets t i e metric limit busy measured bound =
    let n = e.network in
    let p = i.parsed in
    let (same, watched) = violation_for-metric n p p.action metric measured in
    check-compliant t i e busy watched
    ∙ ap is_none (same ∙ ap (ensured n p metric) bound)
    ∙ first_over-meets n metric limit (truthy p.preferred_link) n.active_links
