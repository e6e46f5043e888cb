-- ===== src/Ibn/Tests.antt =====
-- Tests of the model of server/ibn_engine.py, and its theorems at sample inputs.
use pathwiseai.Prelude.{
  ℕ, ◌+◌, arith, ◌≡◌, refl, String, Bool, true, false, not, Option, none, some, List, [], ◌∷◌, all,
  ◌&&◌, str_eq,
}
use pathwiseai.Prelude.Dict.{Dict, lookup}
use pathwiseai.State.Queries.{AppState, TelemetryPoint}
use pathwiseai.Sandbox.Run.{unavailable}
use pathwiseai.Sdn.{Adapter, odl, response, raised, update_flow_table}
use pathwiseai.Degrader.Defs.{simulate}
use pathwiseai.Qos.Rules.{no_rules}
use pathwiseai.Ibn.Defs.{
  active, IntentAction, ensure_latency, throttle_app, block, ParsedIntent, NetworkIntent, Network,
}
use pathwiseai.Ibn.Check.{Clock, Engine, since_start, check_intent_compliance}
use pathwiseai.Ibn.Yang.{action_value}
use pathwiseai.Ibn.Shaping.{Env, Fresh}
use pathwiseai.Ibn.Store.{Ibn, delete_intent}
use pathwiseai.Ibn.Later.{AreLater}
use pathwiseai.Ibn.Statuses.{create, delete, resume, round, steps, steps-AreLater}
use pathwiseai.Ibn.Deletion.{delete_intent-shaper}
use pathwiseai.Ibn.Verdict.{is_compliant, meets, check_intent_compliance-meets}
use pathwiseai.Ibn.Cooldown.{AreSpaced, steer_times, steer_times-AreSpaced}
use pathwiseai.Ibn.Recheck.{checks, checks-meets}
use pathwiseai.Ibn.Deploy.{DeployEnv, parsed_to_dict, deploy_parsed, succeeded}
use pathwiseai.Ibn.Deployment.{deploy_parsed-memory}

abbrev asks : IntentAction → ParsedIntent
asks action = record {
  action = action;
  traffic_classes = "voip" ∷ [];
  metric = some "latency_ms";
  threshold = some 100000;
  threshold_unit = none;
  preferred_link = none;
  avoid_link = none;
  source_link = none;
  target_link = none;
  high_app = none;
  low_app = some "youtube";
  throttle_kbps = none;
  target_ips = none;
  degrade_mode = none;
  duration_s = none;
}

abbrev intent : IntentAction → NetworkIntent
intent action = record {
  id = "i1";
  raw_text = "";
  parsed = asks action;
  status = active;
  created_at = 0;
  last_checked = 0;
  violation_count = 0;
  auto_steer_count = 0;
  last_violation = none;
  yang_config = "";
}

abbrev point : String → ℕ → TelemetryPoint
point link latency = record {
  timestamp = 0;
  link_id = link;
  latency = latency;
  jitter = 0;
  packet_loss = 0;
  bandwidth_util = 0;
  rtt = 0;
}

-- A satellite above 100 ms beside a fibre.
abbrev slow : Network
slow = record {
  app_state = record {
    telemetry = [];
    effective_telemetry =
        ("satellite-backup", point "satellite-backup" 600000 ∷ [])
        ∷ ("fiber-primary", point "fiber-primary" 12000 ∷ [])
        ∷ [];
    routing_rules = [];
  };
  active_links = "satellite-backup" ∷ "fiber-primary" ∷ [];
  health_scores = [];
  lstm_enabled = true;
  steering_history = [];
}

abbrev fresh_engine : Engine
fresh_engine = record { last_auto_steer = []; network = slow }

-- A clock that goes on between the readings.
abbrev at : ℕ → Clock
at t = record { checked = t; guard = t + 1; event = t + 2; stored = t + 3 }

check_intent_compliance-meets_example :
    is_compliant
      (check_intent_compliance (at 40000000) (intent ensure_latency) fresh_engine).0.status
    ≡ all (meets slow "latency_ms" 100000 none) ("satellite-backup" ∷ "fiber-primary" ∷ [])
check_intent_compliance-meets_example =
    check_intent_compliance-meets (at 40000000) (intent ensure_latency) fresh_engine "latency_ms"
      100000 refl refl refl

checks-meets_example :
    is_compliant
      (checks (at 40000000 ∷ at 80000000 ∷ []) (intent ensure_latency) fresh_engine).0.status
    ≡ all (meets slow "latency_ms" 100000 none) ("satellite-backup" ∷ "fiber-primary" ∷ [])
checks-meets_example =
    checks-meets (at 40000000) (at 80000000 ∷ []) (intent ensure_latency) fresh_engine "latency_ms"
      100000 refl refl refl

abbrev two_checks : List (Clock × NetworkIntent × Network)
two_checks =
    (at 40000000, intent ensure_latency, slow) ∷ (at 50000000, intent ensure_latency, slow) ∷ []

steer_times-AreSpaced_example : AreSpaced 0 (steer_times "i1" two_checks [])
unfolding lookup
steer_times-AreSpaced_example =
    steer_times-AreSpaced "i1" two_checks []
      ((omega arith, omega arith), ((omega arith, omega arith), tt))

-- The first check steers, the second one does not.
once : steer_times "i1" two_checks [] ≡ 40000002 ∷ []
unfolding steer_times check_intent_compliance pathwiseai.Ibn.Compliance.first_over
    pathwiseai.Ibn.Metrics.get_link_metric pathwiseai.State.Queries.get_latest_effective lookup
    pathwiseai.Ibn.Check.auto_steer_for_intent pathwiseai.Ibn.Metrics.best_from
    pathwiseai.State.Queries.is_traffic_diverted_from pathwiseai.Prelude.Dict.insert
once = refl

abbrev env : Env
env = record {
  config = record {
    mode = "simulate";
    wan_interface = "eth0";
    total_link_mbps = 10000;
    run = λ c. record { ok = true; stdout = ""; stderr = ""; error = none };
    round = λ n d. 0;
  };
  resolve = λ name. [];
  addresses = λ name. [];
  ip = record { ip_network = λ s. none; ip_address = λ s. none };
  mode = simulate;
  show = λ n. "";
  error_text = λ e. "";
}

abbrev fresh : Fresh
fresh = record {
  intent_id = "i1";
  first_policy = "p1";
  second_policy = "p2";
  rule_id = "r1";
  now = 5;
}

abbrev empty : Ibn
empty = record {
  intents = [];
  engine = fresh_engine;
  shaper = record {
    active_policies = [];
    policy_counter = 0;
    scripts = [];
    audit = [];
    manager = record {
      objects = λ r. [];
      next = 0;
      user_priorities = [];
      enforcer = no_rules;
      priority_log = [];
    };
  };
  degrader = record { rules = []; commands = [] };
}

abbrev created : Ibn
created = steps (create env fresh "throttle youtube" (asks throttle_app) ∷ []) empty

steps-AreLater_example :
    AreLater created.intents
      (steps (delete env 9 "i1" ∷ resume "i1" ∷ round (λ k. at 10) ∷ []) created).intents
steps-AreLater_example =
    steps-AreLater (delete env 9 "i1" ∷ resume "i1" ∷ round (λ k. at 10) ∷ []) created

delete_intent-shaper_example : (delete_intent env 9 "i1" created).0.shaper ≡ created.shaper
delete_intent-shaper_example = delete_intent-shaper env 9 "i1" created

abbrev sdn : Adapter
sdn = record { controller_type = odl; installed_flows = []; exchanges = [] }

abbrev answers : DeployEnv
answers = record {
  servers = record { mininet_mode = false; mininet = none; batfish = unavailable };
  sandbox_time = 10;
  odl_reply = response 201 none;
  onos_reply = raised;
}

deploy_parsed-memory_example : succeeded (deploy_parsed answers "f1" (asks block) sdn).0 ≡ (
    not (str_eq (action_value block) "block")
    && (update_flow_table
        (parsed_to_dict (asks block)).node_id
        "f1"
        0
        (response 201 none)
        raised
        sdn).0)
deploy_parsed-memory_example = deploy_parsed-memory answers "f1" (asks block) sdn refl refl refl
