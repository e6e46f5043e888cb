-- ===== src/Shaper/Defs.antt =====
-- The state of server/traffic_shaper.py and the commands that it sends.
-- A command stands for the text that is sent; the shell, the resolution of names and the clock are
-- parameters. The policies are changed in place, but no other part keeps one of them.
use Prim.Native.String.{◌++◌ as ◌+++◌}
use pathwiseai.Prelude.{
  ℕ, suc, String, Bool, List, [], ◌∷◌, ◌++◌, map, take, leb, ◌||◌, str_eq, if◌then◌else◌,
}
use pathwiseai.Prelude.Text.{decimal}
use pathwiseai.Degrader.Candidates.{contains, without_stars}
use pathwiseai.Shaper.Registry.{PriorityClass, AppProfile}
use pathwiseai.Qos.Priorities.{PriorityManager}

pub record TrafficPolicy : Type 0 where
  pub id : String
  pub app_name : String
  pub display_name : String
  pub action : String
  pub bandwidth_kbps : ℕ
  pub priority : PriorityClass
  pub created_at : ℕ
  pub created_by : String
  pub qos_policy_name : String
  pub active : Bool
  pub reason : String

pub data Command : Type 0 where
  qos_process qos_prefix : String → String → ℕ → Command
  firewall_quic firewall_block : String → List String → Command
  remove_like : String → Command

-- `policy_change` and `details` of an event for the audit log.
pub data PolicyChange : Type 0 where
  throttled : String → ℕ → String → PolicyChange
  prioritized : String → String → PolicyChange
  removed : String → String → String → PolicyChange

-- The scripts that were sent, each a list of commands, and the state of the priority manager, which
-- enforces the priorities of the user "ibn".
pub record TrafficShaper : Type 0 where
  pub active_policies : List TrafficPolicy
  pub policy_counter : ℕ
  pub scripts : List (List Command)
  pub audit : List PolicyChange
  pub manager : PriorityManager

abbrev pub max_policies : ℕ
max_policies = 100

-- The addresses that the system finds for a name, none when it cannot be resolved.
abbrev pub Resolver : Type 0
Resolver = String → List String

abbrev add_ips : List String → List String → List String
add_ips ips [] = ips
add_ips ips (ip ∷ found) =
    if contains ip ips then add_ips ips found else add_ips (ips ++ ip ∷ []) found

abbrev add_resolved : Resolver → List String → List String → List String
add_resolved resolve ips [] = ips
add_resolved resolve ips (domain ∷ domains) =
    add_resolved resolve (add_ips ips (resolve (without_stars domain))) domains

abbrev pub resolve_domains : Resolver → List String → List String
resolve_domains resolve domains = add_resolved resolve [] domains

abbrev is_browser : String → Bool
is_browser name = str_eq name "chrome.exe" || str_eq name "msedge.exe" || str_eq name "firefox.exe"

abbrev first_process : String → ℕ → List String → List Command
first_process policy bps [] = []
first_process policy bps (name ∷ names) =
    if is_browser name then [] else qos_process policy name bps ∷ []

abbrev prefix_rules : String → ℕ → ℕ → List String → List Command
prefix_rules policy bps i [] = []
prefix_rules policy bps i (prefix ∷ rest) =
    qos_prefix (policy +++ "-r" +++ decimal i) prefix bps ∷ prefix_rules policy bps (suc i) rest

abbrev with_mask : List String → List String
with_mask = map (λ ip. ip +++ "/32")

abbrev firewall_rules : String → ℕ → List String → List Command
firewall_rules policy bps [] = []
firewall_rules policy bps (ip ∷ ips) =
    firewall_quic (policy +++ "-quic") (ip ∷ ips)
    ∷ (if leb bps 1000 then firewall_block (policy +++ "-block") (ip ∷ ips) ∷ [] else [])

-- The commands that `_create_qos_throttle` puts into one script.
unfoldable pub throttle_commands : Resolver → String → AppProfile → ℕ → List Command
throttle_commands resolve policy app bps =
    first_process policy bps app.process_names
    ++ prefix_rules policy bps 0 (
        take 5 app.ip_prefixes ++ with_mask (take 8 (resolve_domains resolve (take 5 app.domains))))
    ++ firewall_rules policy bps (
        take 5 app.ip_prefixes ++ with_mask (take 5 (resolve_domains resolve (take 3 app.domains))))

-- No script is sent when there are no commands.
abbrev pub add_script : List Command → List (List Command) → List (List Command)
add_script [] scripts = scripts
add_script (c ∷ cs) scripts = scripts ++ (c ∷ cs) ∷ []

-- `_create_qos_throttle`; its callers do not read whether the script succeeded.
unfoldable pub create_qos_throttle :
    Resolver → String → AppProfile → ℕ → TrafficShaper → TrafficShaper
create_qos_throttle resolve policy app bps t = record t {
  scripts = add_script (throttle_commands resolve policy app bps) t.scripts;
}

-- `_remove_qos_policies` removes all whose name starts with the name that is given.
unfoldable pub remove_qos_policies : String → TrafficShaper → TrafficShaper
remove_qos_policies policy t = record t { scripts = t.scripts ++ (remove_like policy ∷ []) ∷ [] }
