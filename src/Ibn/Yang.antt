-- ===== src/Ibn/Yang.antt =====
-- The configuration that server/ibn_engine.py writes for an intent. The text of a threshold is a
-- parameter.
use Prim.Native.String.{◌++◌ as ◌+++◌}
use pathwiseai.Prelude.{ℕ, String, Option, none, some, List, [], ◌∷◌, ◌++◌}
use pathwiseai.Ibn.Defs.{
  IntentAction, prioritize, ensure_latency, ensure_jitter, ensure_loss, ensure_bandwidth, block,
  redirect, deprioritize, throttle_app, prioritize_app, prioritize_over, selective_degrade,
  ParsedIntent, truthy,
}

-- `action.value`
abbrev pub action_value : IntentAction → String
action_value prioritize = "prioritize"
action_value ensure_latency = "ensure_latency"
action_value ensure_jitter = "ensure_jitter"
action_value ensure_loss = "ensure_loss"
action_value ensure_bandwidth = "ensure_bandwidth"
action_value block = "block"
action_value redirect = "redirect"
action_value deprioritize = "deprioritize"
action_value throttle_app = "throttle_app"
action_value prioritize_app = "prioritize_app"
action_value prioritize_over = "prioritize_over"
action_value selective_degrade = "selective_degrade"

-- `sep.join(texts)`
abbrev pub join : String → List String → String
join sep [] = ""
join sep (s ∷ []) = s
join sep (s ∷ t ∷ rest) = s +++ sep +++ join sep (t ∷ rest)

abbrev unit_line : Option String → List String
unit_line none = []
unit_line (some unit) = ("      <unit>" +++ unit +++ "</unit>") ∷ []

abbrev constraint : (ℕ → String) → Option String → Option ℕ → Option String → List String
constraint show (some metric) (some threshold) unit =
    "    <constraint>"
      ∷ ("      <metric>" +++ metric +++ "</metric>")
      ∷ ("      <threshold>" +++ show threshold +++ "</threshold>")
      ∷ unit_line unit
    ++ "    </constraint>" ∷ []
constraint show (some metric) none unit = []
constraint show none threshold unit = []

abbrev path_line : String → Option String → List String
path_line tag none = []
path_line tag (some link) = ("    <" +++ tag +++ ">" +++ link +++ "</" +++ tag +++ ">") ∷ []

abbrev redirect_line : Option String → Option String → List String
redirect_line (some source) (some target) =
    ("    <redirect from=\"" +++ source +++ "\" to=\"" +++ target +++ "\" />") ∷ []
redirect_line (some source) none = []
redirect_line none target = []

unfoldable pub generate_yang_config : (ℕ → String) → String → String → ParsedIntent → String
generate_yang_config show id raw_text p = join "\n" (
    "<intent xmlns=\"urn:pathwise:ibn\">"
      ∷ ("  <id>" +++ id +++ "</id>")
      ∷ ("  <description>" +++ raw_text +++ "</description>")
      ∷ "  <policy>"
      ∷ ("    <action>" +++ action_value p.action +++ "</action>")
      ∷ ("    <traffic-classes>" +++ join ", " p.traffic_classes +++ "</traffic-classes>")
      ∷ constraint show (truthy p.metric) p.threshold (truthy p.threshold_unit)
    ++ path_line "preferred-path" (truthy p.preferred_link)
    ++ path_line "avoid-path" (truthy p.avoid_link)
    ++ redirect_line (truthy p.source_link) (truthy p.target_link)
    ++ "  </policy>" ∷ "</intent>" ∷ [])
