-- ===== src/Shaper/Records.antt =====
-- The policies that server/traffic_shaper.py makes, and the fields of its state that it changes.
use Prim.Native.String.{◌++◌ as ◌+++◌}
use pathwiseai.Prelude.{
  ℕ, ◌+◌, String, true, false, List, [], ◌∷◌, ◌++◌, push, str_eq, if◌then◌else◌,
}
use pathwiseai.Prelude.Text.{decimal}
use pathwiseai.Qos.Priorities.{PriorityManager}
use pathwiseai.Shaper.Registry.{critical, low, AppProfile}
use pathwiseai.Shaper.Defs.{TrafficPolicy, PolicyChange, TrafficShaper, max_policies}

-- `text or default`
abbrev pub or_text : String → String → String
or_text text default = if str_eq text "" then default else text

-- The new policy with its event.
abbrev pub add_policy : TrafficPolicy → PolicyChange → TrafficShaper → TrafficShaper
add_policy p change t = record t {
  active_policies = push max_policies t.active_policies p;
  audit = t.audit ++ change ∷ [];
}

abbrev pub count_up : TrafficShaper → TrafficShaper
count_up t = record t { policy_counter = t.policy_counter + 1 }

abbrev pub with_manager : PriorityManager → TrafficShaper → TrafficShaper
with_manager m t = record t { manager = m }

abbrev pub with_policies : List TrafficPolicy → TrafficShaper → TrafficShaper
with_policies ps t = record t { active_policies = ps }

abbrev pub switched_off : TrafficPolicy → TrafficPolicy
switched_off p = record p { active = false }

abbrev pub throttle_name : String → ℕ → String
throttle_name app_name n = "PathWise-" +++ app_name +++ "-" +++ decimal n

-- What a policy is made of: the id, the time, the reason and the author.
pub record Request : Type 0 where
  pub id : String
  pub now : ℕ
  pub reason : String
  pub created_by : String

abbrev pub throttle_policy : Request → String → AppProfile → ℕ → ℕ → TrafficPolicy
throttle_policy r app_name app kbps n = record {
  id = r.id;
  app_name = app_name;
  display_name = app.display_name;
  action = "throttle";
  bandwidth_kbps = kbps;
  priority = low;
  created_at = r.now;
  created_by = r.created_by;
  qos_policy_name = throttle_name app_name n;
  active = true;
  reason =
      or_text r.reason ("Throttled " +++ app.display_name +++ " to " +++ decimal kbps +++ " Kbps");
}

abbrev pub priority_policy : Request → String → AppProfile → ℕ → TrafficPolicy
priority_policy r app_name app n = record {
  id = r.id;
  app_name = app_name;
  display_name = app.display_name;
  action = "prioritize";
  bandwidth_kbps = 0;
  priority = critical;
  created_at = r.now;
  created_by = r.created_by;
  qos_policy_name = "PathWise-pri-" +++ app_name +++ "-" +++ decimal n;
  active = true;
  reason = or_text r.reason ("Prioritized " +++ app.display_name +++ " — unlimited bandwidth");
}
