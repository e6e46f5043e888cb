-- ===== src/Degrader/Bounds.antt =====
-- The bounds that `start_rule` of server/app_qos/selective_degrader.py sets, and its count of commands.
use pathwiseai.Prelude.{
  ℕ, ◌+◌, ◌*◌, ◌≤◌, ◌↔◌, String, ◌≡◌, refl, true, none, some, List, [], ◌∷◌, ◌++◌, length, select,
  ◌==◌, eq_refl, if◌then◌else◌, arith, Option-cases, inl, inr,
}
use pathwiseai.Prelude.Dict.{lookup, insert, lookup-insert}
use pathwiseai.Degrader.Defs.{
  EnforcerMode, powershell, tc, simulate, SelectiveRule, Command, Degrader, IpAddress,
  apply_windows, apply_rule, validate_ips, is_v4, is_v6, second, given, block_tcp4, block_udp4,
  block_tcp6,
}
use pathwiseai.Degrader.Rules.{
  Request, started, invalid, start_rule, new_rule, rejection, stripped, ValueError,
}

-- What `apply_rule` leaves as it was.
apply_rule_keeps :
    (e : EnforcerMode) (rule : SelectiveRule)
    → let rule' = (apply_rule e rule).1 in
      (rule'.ips ≡ rule.ips)
      × (rule'.expires_at ≡ rule.expires_at)
      × (rule'.duration_s ≡ rule.duration_s)
      × (rule'.active ≡ rule.active)
      × (rule'.mode ≡ rule.mode)
unfolding apply_rule apply_windows
apply_rule_keeps powershell rule = ground arith
apply_rule_keeps tc rule = ground arith
apply_rule_keeps simulate rule = ground arith

accepted_bounds :
    (ips : List String) (q : Request)
    → rejection ips q ≡ none
    → (1 ≤ length ips) × (length ips ≤ 32) × (5 ≤ q.duration_s) × (q.duration_s ≤ 3600)
unfolding rejection
accepted_bounds ips q pass = (ground arith, ground arith, ground arith, ground arith)

abbrev applied : IpAddress → EnforcerMode → Request → String → ℕ → List Command × SelectiveRule
applied ia e q rule_id now =
    apply_rule e (new_rule (validate_ips ia (stripped q.ips)) q rule_id now)

module _ (ia : IpAddress) (e : EnforcerMode) (q : Request) (rule_id : String) (now : ℕ)
    (s : Degrader) where
  start_rule_accepted :
      rejection (validate_ips ia (stripped q.ips)) q ≡ none
      → start_rule ia e q rule_id now s ≡ (
        started (applied ia e q rule_id now).1,
        record {
          rules = insert rule_id (applied ia e q rule_id now).1 s.rules;
          commands = s.commands ++ (applied ia e q rule_id now).0;
        },
      )
  unfolding start_rule
  start_rule_accepted pass = rw (pass, start_rule) refl

  start_rule_refused :
      {error : ValueError}
      → rejection (validate_ips ia (stripped q.ips)) q ≡ some error
      → start_rule ia e q rule_id now s ≡ (invalid error, s)
  unfolding start_rule
  start_rule_refused fails = rw (fails, start_rule) refl

-- A rule that `start_rule` returns is stored under its id and active, has between 1 and 32 addresses,
-- lasts between 5 seconds and an hour, and expires that long after its start.
pub start_rule_bounds :
    (ia : IpAddress) (e : EnforcerMode) (q : Request) (rule_id : String) (now : ℕ) (s : Degrader)
    (r : SelectiveRule)
    → (start_rule ia e q rule_id now s).0 ≡ started r
    → (lookup rule_id (start_rule ia e q rule_id now s).1.rules ≡ some r)
      × (r.active ≡ true)
      × (1 ≤ length r.ips)
      × (length r.ips ≤ 32)
      × (5 ≤ r.duration_s)
      × (r.duration_s ≤ 3600)
      × (r.expires_at ≡ now + r.duration_s * second)
unfolding start_rule
start_rule_bounds ia e q rule_id now s r done =
    let ips = validate_ips ia (stripped q.ips) in
    elim (Option-cases (rejection ips q)) [
      | inl pass ↦
          let (some_ip, few, long_enough, short_enough) = accepted_bounds ips q pass in
          let kept = apply_rule_keeps e (new_rule ips q rule_id now) in
          let accepted = start_rule_accepted ia e q rule_id now s pass in
          let same : (applied ia e q rule_id now).1 ≡ r = cc in
          let stored = lookup-insert rule_id rule_id (applied ia e q rule_id now).1 s.rules in
          rw (← same) (
            rw accepted (rw (eq_refl rule_id) at stored),
            kept.3,
            rw kept.0 some_ip,
            rw kept.0 few,
            rw kept.2 long_enough,
            rw kept.2 short_enough,
            ground arith,
          )
      | inr (error, fails) ↦
          absurd (let refused = start_rule_refused ia e q rule_id now s fails in cc)
    ]

count :
    (n : ℕ) (id : String) (v4 v6 : List String)
    → (n + (length v4 * 2 + (if length v6 == 0 then 0 else 1))
        ≡ n
          + length (
              given v4 (block_tcp4 id v4 ∷ block_udp4 id v4 ∷ [])
              ++ given v6 (block_tcp6 id v6 ∷ [])))
      ↔ (length v4 ≤ 1)
count n id [] [] = ground arith
count n id [] (y ∷ v6) = ground arith
count n id (x ∷ v4) [] = ground arith
count n id (x ∷ v4) (y ∷ v6) = ground arith

-- Under Windows the count `commands_run` of a rule that blocks grows by the number of commands sent
-- exactly if the rule has at most one IPv4 address: two commands are sent for all of them together,
-- and two are counted for each.
pub apply_windows_count :
    (rule : SelectiveRule)
    → rule.mode ≡ "block"
    → let (commands, rule') = apply_windows rule in
      (rule'.commands_run ≡ rule.commands_run + length commands)
      ↔ (length (select is_v4 rule.ips) ≤ 1)
unfolding apply_windows
apply_windows_count rule block =
    rw block (count rule.commands_run rule.id (select is_v4 rule.ips) (select is_v6 rule.ips))
