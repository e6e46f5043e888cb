-- ===== src/Ibn/Shaping.antt =====
-- What server/ibn_engine.py does with an intent on applications when it is created.
use Prim.Native.String.{◌++◌ as ◌+++◌}
use pathwiseai.Prelude.{
  ℕ, String, Option, none, some, List, [], take, length, ltb, ◌==◌, str_eq, if◌then◌else◌, ◌&&◌,
}
use pathwiseai.Prelude.Text.{decimal}
use pathwiseai.Qos.Rules.{Config}
use pathwiseai.Shaper.Defs.{TrafficShaper, Resolver}
use pathwiseai.Shaper.Records.{Request}
use pathwiseai.Shaper.Policies.{
  throttle_app as throttle, prioritize_app as favour, prioritize_over as favour_over,
}
use pathwiseai.Degrader.Defs.{Degrader, EnforcerMode, IpAddress, SelectiveRule}
use pathwiseai.Degrader.Rules.{start_rule, StartReply, invalid, started, ValueError}
use pathwiseai.Degrader.Rules.{Request as DegradeRequest}
use pathwiseai.Degrader.Candidates.{candidate_ips_for}
use pathwiseai.Ibn.Defs.{
  compliant, violated, IntentAction, throttle_app, prioritize_app, prioritize_over, NetworkIntent,
  failure, truthy,
}
use pathwiseai.Ibn.Check.{with_status}

-- What the operations on intents take from their surroundings: the enforcers, the resolvers, the
-- text of a number with decimals and of an error.
pub record Env : Type 0 where
  pub config : Config
  pub resolve : Resolver
  pub addresses : String → List String
  pub ip : IpAddress
  pub mode : EnforcerMode
  pub show : ℕ → String
  pub error_text : ValueError → String

-- The ids that are drawn, and the clock, in one call.
pub record Fresh : Type 0 where
  pub intent_id : String
  pub first_policy : String
  pub second_policy : String
  pub rule_id : String
  pub now : ℕ

-- `n or default`
abbrev pub or_number : Option ℕ → ℕ → ℕ
or_number none default = default
or_number (some n) default = if n == 0 then default else n

abbrev request_of : String → Fresh → NetworkIntent → Request
request_of policy_id fresh i = record {
  id = policy_id;
  now = fresh.now;
  reason = i.raw_text;
  created_by = i.id;
}

abbrev shape_over :
    Env
    → Fresh
    → NetworkIntent
    → TrafficShaper
    → Option String
    → Option String
    → NetworkIntent × TrafficShaper
shape_over env fresh i t (some high_app) (some low_app) =
    let (t', policies) =
      favour_over env.config env.resolve (request_of fresh.first_policy fresh i)
        (request_of fresh.second_policy fresh i) high_app low_app
        (or_number i.parsed.throttle_kbps 500) t in
    (with_status compliant i, t')
shape_over env fresh i t (some high_app) none = (i, t)
shape_over env fresh i t none low_app = (i, t)

abbrev shape_low :
    Env → Fresh → NetworkIntent → TrafficShaper → Option String → NetworkIntent × TrafficShaper
shape_low env fresh i t none = (i, t)
shape_low env fresh i t (some low_app) =
    let (t', policy) =
      throttle env.config env.resolve (request_of fresh.first_policy fresh i) low_app
        (or_number i.parsed.throttle_kbps 500) t in
    (with_status compliant i, t')

abbrev shape_high :
    Fresh → NetworkIntent → TrafficShaper → Option String → NetworkIntent × TrafficShaper
shape_high fresh i t none = (i, t)
shape_high fresh i t (some high_app) =
    let (t', policy) = favour (request_of fresh.first_policy fresh i) high_app t in
    (with_status compliant i, t')

abbrev pub shape_for :
    Env → Fresh → NetworkIntent → TrafficShaper → IntentAction → NetworkIntent × TrafficShaper
shape_for env fresh i t prioritize_over =
    shape_over env fresh i t (truthy i.parsed.high_app) (truthy i.parsed.low_app)
shape_for env fresh i t throttle_app = shape_low env fresh i t (truthy i.parsed.low_app)
shape_for env fresh i t prioritize_app = shape_high fresh i t (truthy i.parsed.high_app)
shape_for env fresh i t _ = (i, t)

-- The operations that it calls do not raise.
unfoldable pub execute_traffic_shaping :
    Env → Fresh → NetworkIntent → TrafficShaper → NetworkIntent × TrafficShaper
execute_traffic_shaping env fresh i t = shape_for env fresh i t i.parsed.action

abbrev listed : Option (List String) → List String
listed none = []
listed (some ips) = ips

abbrev candidates : Env → Option String → List String
candidates env none = []
candidates env (some app) = take 8 (candidate_ips_for env.addresses app)

-- The addresses of the intent, or else the candidates of its application.
abbrev pub target_ips : Env → NetworkIntent → List String
target_ips env i =
    let ips = listed i.parsed.target_ips in
    if length ips == 0 then candidates env (truthy i.parsed.low_app) else ips

abbrev or_throttle : Option String → String
or_throttle none = "throttle"
or_throttle (some mode) = mode

-- 500 kbps for a throttle whose rate is not given or is below 32.
abbrev rate_for : String → Option ℕ → Option ℕ
rate_for mode none = if str_eq mode "throttle" then some 500 else none
rate_for mode (some kbps) = if str_eq mode "throttle" && ltb kbps 32 then some 500 else some kbps

abbrev failed : String → NetworkIntent → NetworkIntent
failed text i = record i { status = violated; last_violation = some (failure text) }

abbrev in_force : SelectiveRule → NetworkIntent → NetworkIntent
in_force rule i = record i {
  status = compliant;
  last_violation = none;
  yang_config =
      i.yang_config
      +++ "\n<!-- selective-rule id="
      +++ rule.id
      +++ " ips="
      +++ decimal (length rule.ips)
      +++ " mode="
      +++ rule.mode
      +++ " ttl="
      +++ decimal rule.duration_s
      +++ "s -->";
}

abbrev answered : Env → NetworkIntent → StartReply → NetworkIntent
answered env i (invalid error) = failed (env.error_text error) i
answered env i (started rule) = in_force rule i

abbrev degrade_request : NetworkIntent → List String → DegradeRequest
degrade_request i ips =
    let mode = or_throttle (truthy i.parsed.degrade_mode) in
    record {
      ips = ips;
      mode = mode;
      duration_s = or_number i.parsed.duration_s 60;
      throttle_kbps = rate_for mode i.parsed.throttle_kbps;
      app_id = i.parsed.low_app;
      reason = i.raw_text;
    }

unfoldable pub execute_selective_degrade :
    Env → Fresh → NetworkIntent → Degrader → NetworkIntent × Degrader
execute_selective_degrade env fresh i d =
    let ips = target_ips env i in
    if length ips == 0
    then (failed "No target IPs available for selective degrade" i, d)
    else let (reply, d') =
        start_rule env.ip env.mode (degrade_request i ips) fresh.rule_id fresh.now d in
      (answered env i reply, d')
