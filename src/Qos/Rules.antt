-- ===== src/Qos/Rules.antt =====
-- The commands of server/app_qos/bandwidth_enforcer.py, and the rules in force.
-- A command stands for the text that is sent; the environment variables and the process that runs a
-- command are parameters.
use Prim.Native.Nat.{◌/◌}
use pathwiseai.Prelude.{
  ℕ, suc, ◌+◌, ◌*◌, String, Bool, Option, none, some, List, [], ◌∷◌, ◌++◌, map, take, leb, ◌||◌,
  str_eq, if◌then◌else◌,
}
use pathwiseai.Prelude.Dict.{Dict, lookup, keys}
use pathwiseai.Qos.Tiers.{AppSignature}
use pathwiseai.Qos.Signatures.{app_signatures}
use pathwiseai.Qos.Enforcer.{Allocation, total_or, compute_allocations}

pub data Command : Type 0 where
  tc_qdisc_del tc_qdisc_add : String → Command
  tc_class_root : String → ℕ → Command
  tc_class : String → ℕ → ℕ → Command
  tc_filter : String → ℕ → String → Command
  ps_remove_all : Command
  ps_policy_ip : String → ℕ → String → ℕ → Command
  ps_policy_proc : String → String → ℕ → Command

-- What the call of the process came to.
pub record Outcome : Type 0 where
  pub ok : Bool
  pub stdout : String
  pub stderr : String
  pub error : Option String

-- ENFORCER_MODE, WAN_INTERFACE, TOTAL_LINK_MBPS, the process and Python's `round`.
pub record Config : Type 0 where
  pub mode : String
  pub wan_interface : String
  pub total_link_mbps : ℕ
  pub run : Command → Outcome
  pub round : ℕ → ℕ → ℕ

pub record BandwidthEnforcer : Type 0 where
  pub active_rules : Dict Allocation
  pub commands_log : List (Command × Outcome)

abbrev pub no_rules : BandwidthEnforcer
no_rules = record { active_rules = []; commands_log = [] }

-- `max(low, n)`
abbrev at_least : ℕ → ℕ → ℕ
at_least low n = if leb low n then n else low

abbrev youtube_extra_cidrs : List String
youtube_extra_cidrs =
    "142.250.0.0/15" ∷ "172.217.0.0/16" ∷ "216.58.192.0/19" ∷ "216.239.32.0/19" ∷ "209.85.128.0/17"
    ∷ "74.125.0.0/16" ∷ "173.194.0.0/16" ∷ "64.233.160.0/19" ∷ "108.177.0.0/17" ∷ "172.253.0.0/16"
    ∷ []

-- The filters of the first five ranges of an app that is known.
abbrev pub tc_filters : String → ℕ → Option AppSignature → List Command
tc_filters iface class_id none = []
tc_filters iface class_id (some sig) = map (tc_filter iface class_id) (take 5 sig.cidrs)

unfoldable pub tc_classes : String → ℕ → Dict Allocation → List Command
tc_classes iface class_id [] = []
tc_classes iface class_id ((app_id, alloc) ∷ d) =
    tc_class iface class_id (at_least 1 (alloc.allocated_mbps * 10))
      ∷ tc_filters iface class_id (lookup app_id app_signatures)
    ++ tc_classes iface (class_id + 1) d

abbrev pub tc_rules : Config → Dict Allocation → List Command
tc_rules config allocations =
    let iface = config.wan_interface in
    tc_qdisc_del iface
    ∷ tc_qdisc_add iface
    ∷ tc_class_root iface (config.total_link_mbps / 100)
    ∷ tc_classes iface 10 allocations

-- In bits per second.
abbrev pub rate_bps : Allocation → ℕ
rate_bps alloc =
    if str_eq alloc.priority "BLOCKED" then 1000 else at_least 1000 (alloc.allocated_mbps * 10000)

abbrev pub app_cidrs : String → AppSignature → List String
app_cidrs app_id sig =
    if str_eq app_id "youtube" then sig.cidrs ++ youtube_extra_cidrs else sig.cidrs

abbrev pub ip_policies : String → ℕ → ℕ → List String → List Command
ip_policies app_id i rate [] = []
ip_policies app_id i rate (cidr ∷ cidrs) =
    ps_policy_ip app_id i cidr rate ∷ ip_policies app_id (suc i) rate cidrs

abbrev pub in_browser : String → Bool
in_browser app_id = str_eq app_id "youtube" || str_eq app_id "netflix" || str_eq app_id "twitch"

abbrev pub proc_policies : String → ℕ → List String → List Command
proc_policies app_id rate names =
    if in_browser app_id then [] else map (λ proc. ps_policy_proc app_id proc rate) (take 1 names)

abbrev pub app_policies : String → ℕ → Option AppSignature → List Command
app_policies app_id rate none = []
app_policies app_id rate (some sig) =
    ip_policies app_id 0 rate (take 8 (app_cidrs app_id sig))
    ++ proc_policies app_id rate sig.process_names

unfoldable pub powershell_policies : Dict Allocation → List Command
powershell_policies [] = []
powershell_policies ((app_id, alloc) ∷ d) =
    app_policies app_id (rate_bps alloc) (lookup app_id app_signatures) ++ powershell_policies d

abbrev pub powershell_rules : Dict Allocation → List Command
powershell_rules allocations = ps_remove_all ∷ powershell_policies allocations

abbrev pub sent : Config → Dict Allocation → List Command
sent config allocations =
    if str_eq config.mode "tc"
    then tc_rules config allocations
    else if str_eq config.mode "powershell"
    then powershell_rules allocations
    else []

-- `_run` and `_run_ps`, one command after the other.
abbrev pub run_all : Config → List Command → List (Command × Outcome)
run_all config = map (λ c. (c, config.run c))

abbrev pub allocations_for : Config → Dict String → Option ℕ → Dict Allocation
allocations_for config priorities total =
    compute_allocations config.round config.mode priorities (total_or config.total_link_mbps total)

unfoldable pub apply_priorities :
    Config → Dict String → Option ℕ → BandwidthEnforcer → BandwidthEnforcer × Dict Allocation
apply_priorities config priorities total e =
    let allocations = allocations_for config priorities total in
    (
      record {
        active_rules = allocations;
        commands_log = run_all config (sent config allocations);
      },
      allocations,
    )

abbrev cleanup : Config → List Command
cleanup config =
    if str_eq config.mode "tc"
    then tc_qdisc_del config.wan_interface ∷ []
    else if str_eq config.mode "powershell"
    then ps_remove_all ∷ []
    else []

-- The rules that were removed come back by their apps.
unfoldable pub clear_all_rules : Config → BandwidthEnforcer → BandwidthEnforcer × List String
clear_all_rules config e = (
  record { active_rules = []; commands_log = run_all config (cleanup config) },
  keys e.active_rules,
)

abbrev pub get_active_allocations : BandwidthEnforcer → Dict Allocation
get_active_allocations e = e.active_rules

abbrev pub get_commands_log : BandwidthEnforcer → List (Command × Outcome)
get_commands_log e = e.commands_log
