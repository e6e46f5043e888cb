-- ===== src/Degrader/Defs.antt =====
-- The rules of server/app_qos/selective_degrader.py and the commands that they send.
-- A time is a whole number of microseconds. The module ipaddress is a parameter. `strip` knows the
-- ASCII white space. A duration or a rate below 0 is taken for 0, which is refused in the same way.
use Prim.Native.Char.{code}
use Prim.Native.String.{◌++◌ as ◌+++◌}
use pathwiseai.Prelude.{
  ℕ, ◌+◌, ◌*◌, String, Bool, true, false, not, Option, none, some, List, [], ◌∷◌, ◌++◌, map, length,
  select, leb, ◌==◌, ◌||◌, ◌&&◌, str_eq, if◌then◌else◌,
}
use pathwiseai.Prelude.Dict.{Dict}

-- The values of ENFORCER_MODE. Each other text is treated as "simulate".
pub data EnforcerMode : Type 0 where
  powershell tc simulate : EnforcerMode

abbrev pub second : ℕ
second = 1000000

abbrev pub min_duration_s : ℕ
min_duration_s = 5

abbrev pub max_duration_s : ℕ
max_duration_s = 60 * 60

abbrev pub min_throttle_kbps : ℕ
min_throttle_kbps = 32

abbrev pub max_ips_per_rule : ℕ
max_ips_per_rule = 32

pub record SelectiveRule : Type 0 where
  pub id : String
  pub app_id : Option String
  pub ips : List String
  pub mode : String
  pub throttle_kbps : Option ℕ
  pub started_at : ℕ
  pub duration_s : ℕ
  pub expires_at : ℕ
  pub reason : String
  pub active : Bool
  pub commands_run : ℕ

-- A command that is sent to the operating system, with the id of its rule.
pub data Command : Type 0 where
  block_tcp4 block_udp4 block_tcp6 : String → List String → Command
  new_qos_policy : String → ℕ → String → ℕ → Command
  remove_firewall_rules remove_qos_policies : String → Command
  iptables_drop_tcp iptables_drop_udp iptables_drop_random : String → String → Command
  iptables_restore : String → Command

-- `_rules`, and the commands sent so far.
pub record Degrader : Type 0 where
  pub rules : Dict SelectiveRule
  pub commands : List Command

-- What `ipaddress.ip_network` or `ipaddress.ip_address` says of a text that it accepts.
pub record Address : Type 0 where
  pub text : String
  pub is_loopback : Bool
  pub is_link_local : Bool
  pub is_multicast : Bool

pub record IpAddress : Type 0 where
  pub ip_network : String → Option Address
  pub ip_address : String → Option Address

-- `c in s`, for a character.
abbrev pub has_char : ℕ → String → Bool
has_char n String.[] = false
has_char n (String.◌∷◌ c s) = code c == n || has_char n s

abbrev is_space : ℕ → Bool
is_space n = n == 32 || leb 9 n && leb n 13 || leb 28 n && leb n 31

abbrev is_empty : String → Bool
is_empty String.[] = true
is_empty (String.◌∷◌ c s) = false

abbrev lstrip : String → String
lstrip String.[] = String.[]
lstrip (String.◌∷◌ c s) = let rest = lstrip s in if is_space (code c) then rest else String.◌∷◌ c s

abbrev rstrip : String → String
rstrip String.[] = String.[]
rstrip (String.◌∷◌ c s) =
    let rest = rstrip s in
    if is_empty rest && is_space (code c) then String.[] else String.◌∷◌ c rest

unfoldable pub strip : String → String
strip s = rstrip (lstrip s)

-- What one address gives in the loop of `_validate_ips`.
abbrev pub validate_ip : IpAddress → String → List String
validate_ip ia ip = elim (if has_char b'/' ip then ia.ip_network ip else ia.ip_address ip) [
  | none ↦ []
  | some a ↦ if a.is_loopback || a.is_link_local || a.is_multicast then [] else a.text ∷ []
]

unfoldable pub validate_ips : IpAddress → List String → List String
validate_ips ia [] = []
validate_ips ia (ip ∷ raw) = validate_ip ia ip ++ validate_ips ia raw

abbrev pub is_v6 : String → Bool
is_v6 ip = has_char b':' ip

abbrev pub is_v4 : String → Bool
is_v4 ip = not (is_v6 ip)

abbrev pub given : List String → List Command → List Command
given [] commands = []
given (ip ∷ ips) commands = commands

abbrev pub prefix : String → String
prefix ip = if has_char b'/' ip then ip else if is_v4 ip then ip +++ "/32" else ip +++ "/128"

abbrev pub qos_policies : String → ℕ → ℕ → List String → List Command
qos_policies id rate_bps idx [] = []
qos_policies id rate_bps idx (ip ∷ ips) =
    new_qos_policy id idx (prefix ip) rate_bps ∷ qos_policies id rate_bps (idx + 1) ips

-- `max(MIN_THROTTLE_KBPS, int(throttle_kbps or 0)) * 1000`
abbrev pub rate_bps : Option ℕ → ℕ
rate_bps none = min_throttle_kbps * 1000
rate_bps (some kbps) = (if leb min_throttle_kbps kbps then kbps else min_throttle_kbps) * 1000

unfoldable pub apply_windows : SelectiveRule → List Command × SelectiveRule
apply_windows rule =
    let v4 = select is_v4 rule.ips in
    let v6 = select is_v6 rule.ips in
    if str_eq rule.mode "block"
    then (
      given v4 (block_tcp4 rule.id v4 ∷ block_udp4 rule.id v4 ∷ [])
          ++ given v6 (block_tcp6 rule.id v6 ∷ []),
      record rule {
        commands_run = rule.commands_run + (length v4 * 2 + (if length v6 == 0 then 0 else 1));
      },
    )
    else (
      qos_policies rule.id (rate_bps rule.throttle_kbps) 0 rule.ips,
      record rule { commands_run = rule.commands_run + length rule.ips },
    )

abbrev pub drops : String → List String → List Command
drops id [] = []
drops id (ip ∷ ips) = iptables_drop_tcp id ip ∷ iptables_drop_udp id ip ∷ drops id ips

unfoldable pub apply_linux : SelectiveRule → List Command
apply_linux rule =
    if str_eq rule.mode "block"
    then drops rule.id rule.ips
    else map (iptables_drop_random rule.id) rule.ips

unfoldable pub apply_rule : EnforcerMode → SelectiveRule → List Command × SelectiveRule
unfolding apply_windows apply_linux
apply_rule powershell rule = apply_windows rule
apply_rule tc rule = (apply_linux rule, rule)
apply_rule simulate rule = ([], rule)

abbrev pub remove_windows : SelectiveRule → List Command
remove_windows rule = remove_firewall_rules rule.id ∷ remove_qos_policies rule.id ∷ []

abbrev pub remove_linux : SelectiveRule → List Command
remove_linux rule = iptables_restore rule.id ∷ []

unfoldable pub remove_rule : EnforcerMode → SelectiveRule → List Command
remove_rule powershell rule = remove_windows rule
remove_rule tc rule = remove_linux rule
remove_rule simulate rule = []
