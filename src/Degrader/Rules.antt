-- ===== src/Degrader/Rules.antt =====
-- The life cycle operations of server/app_qos/selective_degrader.py.
use pathwiseai.Prelude.{
  ℕ, ◌+◌, ◌*◌, String, Bool, true, false, not, Option, none, some, List, [], ◌∷◌, ◌++◌, map, length,
  select, ltb, leb, ◌==◌, ◌||◌, ◌&&◌, str_eq, if◌then◌else◌,
}
use pathwiseai.Prelude.Dict.{Dict, lookup, insert}
use pathwiseai.Degrader.Defs.{
  EnforcerMode, SelectiveRule, Command, Degrader, IpAddress, strip, validate_ips, apply_rule,
  remove_rule, second, min_duration_s, max_duration_s, min_throttle_kbps, max_ips_per_rule,
}

-- The arguments of `start_rule`.
pub record Request : Type 0 where
  pub ips : List String
  pub mode : String
  pub duration_s : ℕ
  pub throttle_kbps : Option ℕ
  pub app_id : Option String
  pub reason : String

-- The errors that `start_rule` raises, in the order of its tests.
pub data ValueError : Type 0 where
  no_valid_ip too_many_ips unknown_mode bad_duration bad_throttle : ValueError

pub data StartReply : Type 0 where
  invalid : ValueError → StartReply
  started : SelectiveRule → StartReply

-- The tests of `start_rule`, on the valid addresses.
unfoldable pub rejection : List String → Request → Option ValueError
rejection ips q =
    if length ips == 0
    then some no_valid_ip
    else if ltb max_ips_per_rule (length ips)
    then some too_many_ips
    else if not (str_eq q.mode "block" || str_eq q.mode "throttle")
    then some unknown_mode
    else if ltb q.duration_s min_duration_s || ltb max_duration_s q.duration_s
    then some bad_duration
    else if str_eq q.mode "throttle"
        && (elim q.throttle_kbps [ none ↦ true | some kbps ↦ ltb kbps min_throttle_kbps ])
    then some bad_throttle
    else none

-- `[ip.strip() for ip in ips if ip and ip.strip()]`
abbrev pub stripped : List String → List String
stripped ips = select (λ ip. not (str_eq ip "")) (map strip ips)

unfoldable pub new_rule : List String → Request → String → ℕ → SelectiveRule
new_rule ips q rule_id now = record {
  id = rule_id;
  app_id = q.app_id;
  ips = ips;
  mode = q.mode;
  throttle_kbps = if str_eq q.mode "throttle" then q.throttle_kbps else none;
  started_at = now;
  duration_s = q.duration_s;
  expires_at = now + q.duration_s * second;
  reason = q.reason;
  active = true;
  commands_run = 0;
}

-- `rule_id` is the start of a fresh UUID.
unfoldable pub start_rule :
    IpAddress → EnforcerMode → Request → String → ℕ → Degrader → StartReply × Degrader
unfolding rejection new_rule
start_rule ia e q rule_id now s =
    let ips = validate_ips ia (stripped q.ips) in
    elim (rejection ips q) [
      | some error ↦ (invalid error, s)
      | none ↦
          let (commands, rule) = apply_rule e (new_rule ips q rule_id now) in
          (
            started rule,
            record { rules = insert rule_id rule s.rules; commands = s.commands ++ commands },
          )
    ]

abbrev pub deactivated : SelectiveRule → SelectiveRule
deactivated rule = record rule { active = false }

unfoldable pub stop_rule : EnforcerMode → String → Degrader → Bool × Degrader
stop_rule e rule_id s = elim (lookup rule_id s.rules) [
  | none ↦ (false, s)
  | some rule ↦ if not rule.active then (false, s) else (
    true,
    record {
      rules = insert rule_id (deactivated rule) s.rules;
      commands = s.commands ++ remove_rule e rule;
    },
  )
]

-- The loops of `stop_all` and of the sweeper: the rules that pass the test are removed and
-- deactivated. The result has the commands sent and the number of these rules.
unfoldable pub retire :
    EnforcerMode
    → (SelectiveRule → Bool)
    → Dict SelectiveRule
    → Dict SelectiveRule × List Command × ℕ
retire e test [] = ([], [], 0)
retire e test ((k, rule) ∷ rules) =
    let (rules', commands, count) = retire e test rules in
    if test rule
    then ((k, deactivated rule) ∷ rules', remove_rule e rule ++ commands, count + 1)
    else ((k, rule) ∷ rules', commands, count)

abbrev pub is_active : SelectiveRule → Bool
is_active rule = rule.active

unfoldable pub stop_all : EnforcerMode → Degrader → ℕ × Degrader
unfolding retire
stop_all e s =
    let (rules, commands, count) = retire e is_active s.rules in
    (count, record { rules = rules; commands = s.commands ++ commands })

abbrev pub is_expired : ℕ → SelectiveRule → Bool
is_expired now rule = rule.active && leb rule.expires_at now

-- One round of `sweeper_loop`.
unfoldable pub sweep : EnforcerMode → ℕ → Degrader → Degrader
unfolding retire
sweep e now s =
    let (rules, commands, _) = retire e (is_expired now) s.rules in
    record { rules = rules; commands = s.commands ++ commands }
