-- ===== src/Ibn/Statuses.antt =====
-- What the operations of server/ibn_engine.py on the store do to the statuses of intents.
use pathwiseai.Prelude.{
  ℕ, suc, ◌≡◌, refl, sym, String, Bool, true, false, not, Option, none, some, List, [], ◌∷◌, find,
  arith, Bool-cases, inl, inr,
}
use pathwiseai.Ibn.Defs.{
  IntentStatus, active, compliant, violated, auto_steering, paused, deleted, ParsedIntent,
  NetworkIntent, Network, Violation,
}
use pathwiseai.Ibn.Compliance.{is_idle, is_one_shot, violation_of, route_for}
use pathwiseai.Ibn.Check.{
  Engine, with_status, with_violation, checked_at, steer_over, auto_steer_for_intent, is_rested,
  Clock, judged, check_intent_compliance,
}
use pathwiseai.Ibn.Shaping.{Env, Fresh, execute_traffic_shaping, execute_selective_degrade}
use pathwiseai.Ibn.Store.{
  Ibn, is_deleted, is_paused, has_id, get_intent, is_shaping, is_selective, new_intent,
  delete_found, delete_intent, switch_found, pause_intent, resume_intent, monitor, monitor_round,
  create_parsed,
}
use pathwiseai.Ibn.Later.{
  IsLater, AreLater, IsLater-refl, AreLater-refl, AreLater-trans, AreLater-append, AreLater-change,
}

steer_over-later :
    (now : ℕ) (i : NetworkIntent) (n : Network) (o : Option (String × String))
    → (steer_over now i n o).0.id ≡ i.id
steer_over-later now i n none = refl
steer_over-later now i n (some (source, target)) = ground arith

judged-id :
    (t : Clock) (i : NetworkIntent) (e : Engine) (o : Option Violation)
    → (judged t i e o).0.id ≡ i.id
unfolding auto_steer_for_intent
judged-id t i e none = refl
judged-id t i e (some v) = elim (Bool-cases (is_rested t.guard i.id e)) [
  | inl rested ↦ rw rested (
      steer_over-later t.event (with_status violated (with_violation v i)) e.network
        (route_for e.network i.parsed i.parsed.action))
  | inr tired ↦ rw tired refl
]

check-id :
    (t : Clock) (i : NetworkIntent) (e : Engine) → (check_intent_compliance t i e).0.id ≡ i.id
unfolding check_intent_compliance
check-id t i e = elim (Bool-cases (is_idle i.status)) [
  | inl idle ↦ rw idle refl
  | inr busy ↦ elim (Bool-cases (is_one_shot i.parsed.action)) [
    | inl once ↦ rw (busy, once) refl
    | inr watched ↦
        rw (busy, watched)
          (judged-id t (checked_at t.checked i) e (violation_of e.network i.parsed))
  ]
]

busy_live : (s : IntentStatus) → is_idle s ≡ false → is_deleted s ≡ false
busy_live deleted h = absurd (cc)
busy_live paused h = refl
busy_live active h = refl
busy_live compliant h = refl
busy_live violated h = refl
busy_live auto_steering h = refl

check-IsLater :
    (t : Clock) (i : NetworkIntent) (e : Engine)
    → is_idle i.status ≡ false
    → IsLater i (check_intent_compliance t i e).0
check-IsLater t i e busy = record {
  same_id = sym (check-id t i e);
  stays = λ d. absurd (let live = busy_live i.status busy in cc);
}

monitor-AreLater :
    (clock : ℕ → Clock) (k : ℕ) (is : List NetworkIntent) (e : Engine)
    → AreLater is (monitor clock k is e).0
unfolding monitor
monitor-AreLater clock k [] e = tt
monitor-AreLater clock k (i ∷ is) e = elim (Bool-cases (is_idle i.status)) [
  | inl idle ↦ rw idle (IsLater-refl i, monitor-AreLater clock (suc k) is e)
  | inr busy ↦ rw busy (
    check-IsLater (clock k) i e busy,
    monitor-AreLater clock (suc k) is (check_intent_compliance (clock k) i e).1,
  )
]

paused_live : (s : IntentStatus) → is_paused s ≡ true → is_deleted s ≡ false
paused_live paused h = refl
paused_live deleted h = absurd (cc)
paused_live active h = refl
paused_live compliant h = refl
paused_live violated h = refl
paused_live auto_steering h = refl

-- A switch that only a status that is not deleted passes.
switch-AreLater :
    (test : IntentStatus → Bool) (status : IntentStatus) (id : String) (s : Ibn)
    → ((st : IntentStatus) → test st ≡ true → is_deleted st ≡ false)
    → (o : Option NetworkIntent) → find (has_id id) s.intents ≡ o
    → AreLater s.intents (switch_found test status id s o).0.intents
switch-AreLater test status id s live none found = AreLater-refl s.intents
switch-AreLater test status id s live (some i) found = elim (Bool-cases (test i.status)) [
  | inl passes ↦ rw passes (
      AreLater-change id status s.intents i found
        (λ d. absurd (let l = live i.status passes in cc)))
  | inr fails ↦ rw fails (AreLater-refl s.intents)
]

delete-AreLater :
    (env : Env) (now : ℕ) (id : String) (s : Ibn) (o : Option NetworkIntent)
    → find (has_id id) s.intents ≡ o
    → AreLater s.intents (delete_found env now id s o).0.intents
delete-AreLater env now id s none found = AreLater-refl s.intents
delete-AreLater env now id s (some i) found =
    AreLater-change id deleted s.intents i found (λ d. refl)

create-AreLater :
    (env : Env) (fresh : Fresh) (text : String) (parsed : ParsedIntent) (s : Ibn)
    → AreLater s.intents (create_parsed env fresh text parsed s).0.intents
unfolding create_parsed
create-AreLater env fresh text parsed s =
    let i = new_intent env fresh text parsed in
    elim (Bool-cases (is_shaping parsed.action)) [
      | inl shaping ↦
          rw shaping
            (AreLater-append s.intents ((execute_traffic_shaping env fresh i s.shaper).0 ∷ []))
      | inr other ↦ elim (Bool-cases (is_selective parsed.action)) [
        | inl selective ↦
            rw (other, selective)
              (AreLater-append s.intents
                ((execute_selective_degrade env fresh i s.degrader).0 ∷ []))
        | inr plain ↦ rw (other, plain) (AreLater-append s.intents (i ∷ []))
      ]
    ]

pub data Op : Type 0 where
  create : Env → Fresh → String → ParsedIntent → Op
  delete : Env → ℕ → String → Op
  pause resume : String → Op
  round : (ℕ → Clock) → Op

unfoldable pub step : Op → Ibn → Ibn
step (create env fresh text parsed) s = (create_parsed env fresh text parsed s).0
step (delete env now id) s = (delete_intent env now id s).0
step (pause id) s = (pause_intent id s).0
step (resume id) s = (resume_intent id s).0
step (round clock) s = monitor_round clock s

unfoldable pub steps : List Op → Ibn → Ibn
steps [] s = s
steps (op ∷ ops) s = steps ops (step op s)

step-AreLater : (op : Op) (s : Ibn) → AreLater s.intents (step op s).intents
unfolding step delete_intent pause_intent resume_intent get_intent monitor_round
step-AreLater (create env fresh text parsed) s = create-AreLater env fresh text parsed s
step-AreLater (delete env now id) s = delete-AreLater env now id s (get_intent id s) refl
step-AreLater (pause id) s =
    switch-AreLater (λ st. not (is_deleted st)) paused id s (λ st h. ground arith) (get_intent id s)
      refl
step-AreLater (resume id) s =
    switch-AreLater is_paused active id s paused_live (get_intent id s) refl
step-AreLater (round clock) s = monitor-AreLater clock 0 s.intents s.engine

-- Through any sequence of creations, deletions, pauses, resumptions and rounds of the monitor each
-- intent keeps its place and its id, and once deleted it stays deleted.
pub steps-AreLater : (ops : List Op) (s : Ibn) → AreLater s.intents (steps ops s).intents
unfolding steps
steps-AreLater [] s = AreLater-refl s.intents
steps-AreLater (op ∷ ops) s =
    AreLater-trans s.intents (step op s).intents (steps ops (step op s)).intents
      (step-AreLater op s) (steps-AreLater ops (step op s))
