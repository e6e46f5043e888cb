-- ===== src/Shaper/Tests.antt =====
-- Tests of the model of server/traffic_shaper.py, and its theorems at sample inputs.
use pathwiseai.Prelude.{
  ℕ, zero, suc, ◌≡◌, refl, Bool, true, false, Option, none, some, List, [], ◌∷◌, select, any,
}
use pathwiseai.Prelude.Dict.{lookup, keys}
use pathwiseai.Prelude.Text.{codes, is_prefix, decimal}
use pathwiseai.Qos.Signatures.{app_signatures}
use pathwiseai.Qos.Rules.{Config, no_rules, allocations_for}
use pathwiseai.Qos.Priorities.{validate}
use pathwiseai.Degrader.Defs.{strip}
use pathwiseai.Shaper.Registry.{normal, AppProfile, app_registry}
use pathwiseai.Shaper.Defs.{TrafficPolicy, TrafficShaper, Resolver, create_qos_throttle}
use pathwiseai.Shaper.Records.{Request, throttle_name, throttle_policy, priority_policy}
use pathwiseai.Shaper.Policies.{is_on, is_active_id, throttle_app, prioritize_app, remove_policy}
use pathwiseai.Shaper.Queries.{get_active_policies, resolve_codes, resolve_app_name}
use pathwiseai.Shaper.Lifecycle.{prioritize_app-only, drop_first, remove_policy_lem}
use pathwiseai.Shaper.Enforcement.{throttle_app-prioritize_app, resolve_codes-known}

abbrev windows : Config
windows = record {
  mode = "powershell";
  wan_interface = "eth0";
  total_link_mbps = 10000;
  run = λ c. record { ok = true; stdout = ""; stderr = ""; error = none };
  round = λ n d. 0;
}

abbrev offline : Resolver
offline name = []

abbrev idle : TrafficShaper
idle = record {
  active_policies = [];
  policy_counter = 0;
  scripts = [];
  audit = [];
  manager = record {
    objects = λ r. [];
    next = 0;
    user_priorities = [];
    enforcer = no_rules;
    priority_log = [];
  };
}

abbrev ask : Request
ask = record { id = "a1"; now = 7; reason = ""; created_by = "manual" }

abbrev profile : Option AppProfile → AppProfile
profile none = record {
  name = "";
  display_name = "";
  category = "";
  process_names = [];
  domains = [];
  ip_prefixes = [];
  default_priority = normal;
  default_bandwidth_kbps = 0;
}
profile (some app) = app

abbrev youtube : AppProfile
youtube = profile (lookup "youtube" app_registry)

abbrev slowed : TrafficShaper
slowed = (throttle_app windows offline ask "youtube" 1 idle).0

abbrev favoured : TrafficPolicy
favoured = priority_policy ask "youtube" youtube 2

prioritize_app-only_example :
    select (is_on "youtube") (prioritize_app ask "youtube" slowed).0.active_policies ≡ favoured ∷ []
unfolding prioritize_app lookup throttle_app create_qos_throttle
prioritize_app-only_example = prioritize_app-only ask "youtube" slowed favoured refl

remove_policy_lem_example :
    ((remove_policy windows 9 "a1" slowed).1 ≡ any (is_active_id "a1") slowed.active_policies)
    × (get_active_policies (remove_policy windows 9 "a1" slowed).0
        ≡ drop_first (is_active_id "a1") (get_active_policies slowed))
remove_policy_lem_example = remove_policy_lem windows 9 "a1" slowed

throttle_app-prioritize_app_example :
    let t' = (throttle_app windows offline ask "youtube" 1 idle).0 in
    let rules = allocations_for windows (("youtube", "BLOCKED") ∷ []) none in
    (t'.manager.enforcer.active_rules ≡ rules)
    × ((prioritize_app ask "youtube" t').0.manager.enforcer.active_rules ≡ rules)
unfolding lookup validate
throttle_app-prioritize_app_example =
    throttle_app-prioritize_app windows offline ask ask "youtube" "youtube" 1 idle youtube refl refl

abbrev many : ℕ → List TrafficPolicy
many zero = []
many (suc n) = favoured ∷ many n

abbrev full : TrafficShaper
full = record {
  active_policies = throttle_policy ask "youtube" youtube 1 1 ∷ many 99;
  policy_counter = 100;
  scripts = [];
  audit = [];
  manager = idle.manager;
}

resolve_codes-known_example : (app : AppProfile) × (lookup "zoom" app_registry ≡ some app)
unfolding resolve_codes
resolve_codes-known_example = resolve_codes-known (codes "my zoom call") "zoom" refl

-- Any text with "yt" in it is taken for YouTube.
anything : resolve_app_name "Anything" ≡ some "youtube"
unfolding resolve_codes strip
anything = refl

-- The name that removes the first policy of an application also fits its tenth.
tenth : is_prefix (codes (throttle_name "zoom" 1)) (codes (throttle_name "zoom" 10)) ≡ true
unfolding decimal
tenth = refl

abbrev is_unknown : {A : Type 0} → Option A → Bool
is_unknown none = true
is_unknown (some a) = false

-- The applications that can be throttled but that the priority manager refuses.
unenforced :
    select (λ name. is_unknown (lookup name app_signatures)) (keys app_registry)
    ≡ "slack" ∷ "gaming" ∷ "skype" ∷ "whatsapp" ∷ "telegram" ∷ "web_browsing" ∷ "file_transfer" ∷ []
unfolding lookup
unenforced = refl
