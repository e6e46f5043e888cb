-- ===== src/Degrader/Tests.antt =====
-- Tests of the model of server/app_qos/selective_degrader.py, and its theorems at sample inputs.
use pathwiseai.Prelude.{
  ◌+◌, ◌*◌, ◌<◌, ◌≤◌, String, ◌≡◌, refl, true, false, none, some, List, [], ◌∷◌, length,
}
use pathwiseai.Prelude.Dict.{lookup, insert}
use pathwiseai.Degrader.Defs.{
  powershell, SelectiveRule, Address, IpAddress, validate_ips, strip, apply_rule, remove_rule,
  apply_windows, second,
}
use pathwiseai.Degrader.Rules.{Request, started, start_rule, sweep}
use pathwiseai.Degrader.Fates.{effects, AreRemoved, with_effects}
use pathwiseai.Degrader.Leftovers.{is_left, IsClean}
use pathwiseai.Degrader.Lifecycle.{
  Op, starts, sweeps, step, steps, idle, steps-IsClean, sweep_leaves,
}
use pathwiseai.Degrader.Bounds.{start_rule_bounds}

abbrev address : String → Address
address text = record {
  text = text;
  is_loopback = false;
  is_link_local = false;
  is_multicast = false;
}

-- Takes every text for an address.
abbrev lenient : IpAddress
lenient = record { ip_network = λ s. some (address s); ip_address = λ s. some (address s) }

abbrev two_ips : Request
two_ips = record {
  ips = " 142.250.1.1" ∷ "142.250.1.2" ∷ [];
  mode = "block";
  duration_s = 30;
  throttle_kbps = none;
  app_id = some "youtube";
  reason = "";
}

abbrev one_net : Request
one_net = record {
  ips = "10.0.0.0/8" ∷ [];
  mode = "throttle";
  duration_s = 600;
  throttle_kbps = some 64;
  app_id = none;
  reason = "demo";
}

-- The first rule expires at 31 seconds, the second at 602 seconds.
abbrev ops : List Op
ops =
    starts lenient two_ips "aa" (1 * second)
    ∷ starts lenient one_net "bb" (2 * second)
    ∷ sweeps (20 * second)
    ∷ []

-- The first command, which blocks the addresses of the first rule, fails.
removed : AreRemoved (false ∷ []) (steps ops idle).commands
unfolding AreRemoved steps step sweep start_rule validate_ips strip apply_rule
removed = (λ h. absurd (cc), tt)

removed_late : AreRemoved (false ∷ []) (sweep powershell (31 * second) (steps ops idle)).commands
unfolding AreRemoved steps step sweep start_rule validate_ips strip apply_rule insert remove_rule
removed_late = (λ h. absurd (cc), tt)

steps-IsClean_example : IsClean (with_effects (false ∷ []) (steps ops idle))
steps-IsClean_example = steps-IsClean ops (false ∷ []) removed

first_gone : is_left "aa" (sweep powershell (31 * second) (steps ops idle)).commands ≡ false
unfolding steps sweep start_rule validate_ips strip apply_rule insert remove_rule
first_gone = refl

second_left :
    is_left "bb" (effects (false ∷ []) (sweep powershell (31 * second) (steps ops idle)).commands)
    ≡ true
unfolding effects steps sweep start_rule validate_ips strip apply_rule insert remove_rule
second_left = refl

sweep_leaves_example :
    (r : SelectiveRule) × (lookup "bb" (sweep powershell (31 * second) (steps ops idle)).rules
      ≡ some r)
    × (r.active ≡ true)
    × (31 * second < r.expires_at)
sweep_leaves_example = sweep_leaves ops (31 * second) "bb" (false ∷ []) removed_late second_left

-- A removal that fails leaves the firewall rule of a rule that is no longer active.
stays_blocked :
    is_left "aa" (
      effects
        (true ∷ true ∷ true ∷ false ∷ [])
        (sweep powershell (31 * second) (steps ops idle)).commands)
    ≡ true
unfolding effects steps sweep start_rule validate_ips strip apply_rule insert remove_rule
stays_blocked = refl

abbrev blocked : SelectiveRule
blocked = record {
  id = "aa";
  app_id = some "youtube";
  ips = "142.250.1.1" ∷ "142.250.1.2" ∷ [];
  mode = "block";
  throttle_kbps = none;
  started_at = 0;
  duration_s = 30;
  expires_at = 30 * second;
  reason = "";
  active = true;
  commands_run = 0;
}

-- Two commands are sent, and four are counted.
two_sent : length (apply_windows blocked).0 ≡ 2
unfolding apply_windows
two_sent = refl

four_counted : (apply_windows blocked).1.commands_run ≡ 4
unfolding apply_windows
four_counted = refl

abbrev stored : SelectiveRule
stored = record blocked { commands_run = 4 }

starts_two : (start_rule lenient powershell two_ips "aa" 0 idle).0 ≡ started stored
unfolding start_rule validate_ips strip apply_rule
starts_two = refl

start_rule_bounds_example :
    (lookup "aa" (start_rule lenient powershell two_ips "aa" 0 idle).1.rules ≡ some stored)
    × (stored.active ≡ true)
    × (1 ≤ length stored.ips)
    × (length stored.ips ≤ 32)
    × (5 ≤ stored.duration_s)
    × (stored.duration_s ≤ 3600)
    × (stored.expires_at ≡ 0 + stored.duration_s * second)
start_rule_bounds_example =
    start_rule_bounds lenient powershell two_ips "aa" 0 idle stored starts_two
