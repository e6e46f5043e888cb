-- ===== src/Degrader/Lifecycle.antt =====
-- What stays in the operating system of the rules of server/app_qos/selective_degrader.py, over
-- every sequence of its operations under Windows.
use pathwiseai.Prelude.{
  ℕ, ◌<◌, String, Bool, ◌≡◌, true, false, not, some, List, [], ◌∷◌, ◌++◌, ◌&&◌, str_eq, eq_iff,
  if◌then◌else◌, arith, Option-cases, Bool-cases, inl, inr,
}
use pathwiseai.Prelude.Dict.{Dict, lookup, insert, lookup-insert}
use pathwiseai.Degrader.Defs.{
  powershell, SelectiveRule, Command, Degrader, IpAddress, apply_windows, apply_rule, remove_rule,
  validate_ips,
}
use pathwiseai.Degrader.Rules.{
  Request, start_rule, stop_rule, stop_all, sweep, deactivated, is_active, is_expired, new_rule,
  rejection, stripped,
}
use pathwiseai.Degrader.Fates.{effects, AreRemoved, with_effects, is_left-effects}
use pathwiseai.Degrader.Leftovers.{
  firewall_after, qos_after, fold, IsKeyed, is_left, IsClean, has_active, fold-apply_windows,
  fold-remove_rule, insert-IsKeyed, is_left-append, retired-left, retired-IsClean,
}

-- The rule that `start_rule` stores.
abbrev applied : IpAddress → Request → String → ℕ → List Command × SelectiveRule
applied ia q rule_id now =
    apply_rule powershell (new_rule (validate_ips ia (stripped q.ips)) q rule_id now)

applied_lem :
    (ia : IpAddress) (q : Request) (rule_id : String) (now : ℕ)
    → ((applied ia q rule_id now).1.id ≡ rule_id) × ((applied ia q rule_id now).1.active ≡ true)
unfolding apply_rule apply_windows new_rule
applied_lem ia q rule_id now = ground arith

has_active-insert :
    (k id : String) (rule : SelectiveRule) (rules : Dict SelectiveRule)
    → has_active id (insert k rule rules)
      ≡ (if str_eq k id then rule.active else has_active id rules)
has_active-insert k id rule rules = ground (arith, lookup-insert k id rule rules, eq_iff k id)

left-applied :
    (ia : IpAddress) (q : Request) (rule_id : String) (now : ℕ) (s : Degrader) (id : String)
    → str_eq rule_id id ≡ false
    → is_left id (s.commands ++ (applied ia q rule_id now).0) ≡ is_left id s.commands
unfolding apply_rule new_rule
left-applied ia q rule_id now s id apart =
    let rule = new_rule (validate_ips ia (stripped q.ips)) q rule_id now in
    ground (
      arith,
      is_left-append id s.commands (applied ia q rule_id now).0,
      fold-apply_windows id (fold (firewall_after id) false s.commands) rule apart,
      fold-apply_windows id (fold (qos_after id) false s.commands) rule apart,
    )

start_rule-IsClean :
    (ia : IpAddress) (q : Request) (rule_id : String) (now : ℕ) (s : Degrader)
    → IsClean s
    → IsClean (start_rule ia powershell q rule_id now s).1
unfolding start_rule
start_rule-IsClean ia q rule_id now s clean =
    elim (Option-cases (rejection (validate_ips ia (stripped q.ips)) q)) [
      | inl pass ↦
          rw (pass, start_rule)
            (
              insert-IsKeyed rule_id (applied ia q rule_id now).1 s.rules
                  (applied_lem ia q rule_id now).0 clean.0,
              λ id left. elim (Bool-cases (str_eq rule_id id)) [
                | inl same ↦ ground (
                  arith,
                  has_active-insert rule_id id (applied ia q rule_id now).1 s.rules,
                  applied_lem ia q rule_id now,
                )
                | inr apart ↦ ground (
                  arith,
                  has_active-insert rule_id id (applied ia q rule_id now).1 s.rules,
                  left-applied ia q rule_id now s id apart,
                  clean.1 id,
                )
              ],
            )
      | inr (error, fails) ↦ rw (fails, start_rule) clean
    ]

lookup-IsKeyed :
    (id : String) (rules : Dict SelectiveRule) (r : SelectiveRule)
    → IsKeyed rules
    → lookup id rules ≡ some r
    → r.id ≡ id
unfolding lookup
lookup-IsKeyed id [] r keyed found = absurd (cc)
lookup-IsKeyed id ((k, rule) ∷ rules) r keyed found =
    ground (arith, eq_iff k id, keyed.0, lookup-IsKeyed id rules r keyed.1)

left-remove_rule :
    (rule : SelectiveRule) (s : Degrader) (id : String)
    → is_left id (s.commands ++ remove_rule powershell rule)
      ≡ (is_left id s.commands && not (str_eq rule.id id))
left-remove_rule rule s id = ground (
  arith,
  is_left-append id s.commands (remove_rule powershell rule),
  fold-remove_rule id (fold (firewall_after id) false s.commands) rule,
  fold-remove_rule id (fold (qos_after id) false s.commands) rule,
)

stop_rule-IsClean :
    (rule_id : String) (s : Degrader) → IsClean s → IsClean (stop_rule powershell rule_id s).1
unfolding stop_rule
stop_rule-IsClean rule_id s clean = elim (Option-cases (lookup rule_id s.rules)) [
  | inl missing ↦ rw (missing, stop_rule) clean
  | inr (rule, found) ↦
      rw (found, stop_rule)
        (elim (Bool-cases rule.active) [
          | inl on ↦ rw on (
            insert-IsKeyed rule_id (deactivated rule) s.rules
                (lookup-IsKeyed rule_id s.rules rule clean.0 found) clean.0,
            λ id left. ground (
              arith,
              has_active-insert rule_id id (deactivated rule) s.rules,
              left-remove_rule rule s id,
              lookup-IsKeyed rule_id s.rules rule clean.0 found,
              clean.1 id,
            ),
          )
          | inr off ↦ rw off clean
        ])
]

-- The operations, with what they take from outside.
pub data Op : Type 0 where
  starts : IpAddress → Request → String → ℕ → Op
  stops : String → Op
  stops_all : Op
  sweeps : ℕ → Op

unfoldable pub step : Op → Degrader → Degrader
step (starts ia q rule_id now) s = (start_rule ia powershell q rule_id now s).1
step (stops rule_id) s = (stop_rule powershell rule_id s).1
step stops_all s = (stop_all powershell s).1
step (sweeps now) s = sweep powershell now s

unfoldable pub steps : List Op → Degrader → Degrader
unfolding step
steps [] s = s
steps (op ∷ ops) s = steps ops (step op s)

abbrev pub idle : Degrader
idle = record { rules = []; commands = [] }

step-IsClean : (op : Op) (s : Degrader) → IsClean s → IsClean (step op s)
unfolding step stop_all sweep
step-IsClean (starts ia q rule_id now) s clean = start_rule-IsClean ia q rule_id now s clean
step-IsClean (stops rule_id) s clean = stop_rule-IsClean rule_id s clean
step-IsClean stops_all s clean = retired-IsClean is_active s clean
step-IsClean (sweeps now) s clean = retired-IsClean (is_expired now) s clean

IsClean-from : (ops : List Op) (s : Degrader) → IsClean s → IsClean (steps ops s)
unfolding steps
IsClean-from [] s clean = clean
IsClean-from (op ∷ ops) s clean = IsClean-from ops (step op s) (step-IsClean op s clean)

idle-IsClean : (ops : List Op) → IsClean (steps ops idle)
idle-IsClean ops = IsClean-from ops idle (tt, λ id left. absurd (cc))

-- In the mode "powershell", from the start and over every sequence of starts, stops and rounds of
-- the sweeper, whatever commands that add something fail, but where each one that removes takes
-- effect: each rule is stored under its id, and a firewall rule or a QoS policy that is left in the
-- operating system belongs to a rule that is stored as active.
pub steps-IsClean :
    (ops : List Op) (fates : List Bool)
    → AreRemoved fates (steps ops idle).commands
    → IsClean (with_effects fates (steps ops idle))
steps-IsClean ops fates removed =
    let (keyed, active) = idle-IsClean ops in
    (keyed, λ id left. active id (is_left-effects id fates (steps ops idle).commands removed left))

-- In the mode "powershell", after any sequence of operations from the start, whatever commands that
-- add something fail, but where each one that removes takes effect, a round of the sweeper at a time
-- leaves in the operating system only what belongs to rules that are active and expire after that
-- time.
pub sweep_leaves :
    (ops : List Op) (now : ℕ) (id : String) (fates : List Bool)
    → AreRemoved fates (sweep powershell now (steps ops idle)).commands
    → is_left id (effects fates (sweep powershell now (steps ops idle)).commands) ≡ true
    → (r : SelectiveRule) × (lookup id (sweep powershell now (steps ops idle)).rules ≡ some r)
      × (r.active ≡ true)
      × (now < r.expires_at)
unfolding sweep
sweep_leaves ops now id fates removed left =
    let s = sweep powershell now (steps ops idle) in
    let (r, found, on, kept) =
      retired-left (is_expired now) (steps ops idle) (idle-IsClean ops) id
        (is_left-effects id fates s.commands removed left) in
    (r, found, on, ground arith)
