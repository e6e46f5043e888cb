-- ===== src/Ibn/Store.antt =====
-- The store of intents of server/ibn_engine.py: creation, removal, pauses and the monitor. The parser
-- stands before `create_parsed`, which takes what it makes of a text.
use pathwiseai.Prelude.{
  ℕ, suc, String, Bool, true, false, not, Option, none, some, List, [], ◌∷◌, ◌++◌, find, select,
  str_eq, if◌then◌else◌,
}
use pathwiseai.Prelude.Dict.{lookup}
use pathwiseai.Qos.Rules.{Config}
use pathwiseai.Shaper.Defs.{TrafficShaper}
use pathwiseai.Shaper.Policies.{remove_policy}
use pathwiseai.Shaper.Queries.{Value, text, number, truth, AllPolicy, get_all_policies}
use pathwiseai.Degrader.Defs.{Degrader}
use pathwiseai.Ibn.Defs.{
  IntentStatus, active, paused, deleted, IntentAction, throttle_app, prioritize_app,
  prioritize_over, selective_degrade, ParsedIntent, NetworkIntent,
}
use pathwiseai.Ibn.Yang.{generate_yang_config}
use pathwiseai.Ibn.Compliance.{is_idle}
use pathwiseai.Ibn.Check.{Clock, Engine, with_status, check_intent_compliance}
use pathwiseai.Ibn.Shaping.{Env, Fresh, execute_traffic_shaping, execute_selective_degrade}

-- `_intents`, with the state of the parts that the engine calls.
pub record Ibn : Type 0 where
  pub intents : List NetworkIntent
  pub engine : Engine
  pub shaper : TrafficShaper
  pub degrader : Degrader

abbrev pub is_deleted : IntentStatus → Bool
is_deleted deleted = true
is_deleted _ = false

abbrev pub is_paused : IntentStatus → Bool
is_paused paused = true
is_paused _ = false

unfoldable pub get_all_intents : Ibn → List NetworkIntent
get_all_intents s = select (λ i. not (is_deleted i.status)) s.intents

abbrev pub has_id : String → NetworkIntent → Bool
has_id id i = str_eq i.id id

unfoldable pub get_intent : String → Ibn → Option NetworkIntent
get_intent id s = find (has_id id) s.intents

-- A change of the intent that `get_intent` finds, which is the first of its id.
unfoldable pub change_first :
    String → (NetworkIntent → NetworkIntent) → List NetworkIntent → List NetworkIntent
change_first id f [] = []
change_first id f (i ∷ is) =
    let rest = change_first id f is in if has_id id i then f i ∷ is else i ∷ rest

abbrev pub new_intent : Env → Fresh → String → ParsedIntent → NetworkIntent
new_intent env fresh raw_text parsed = record {
  id = fresh.intent_id;
  raw_text = raw_text;
  parsed = parsed;
  status = active;
  created_at = fresh.now;
  last_checked = 0;
  violation_count = 0;
  auto_steer_count = 0;
  last_violation = none;
  yang_config = generate_yang_config env.show fresh.intent_id raw_text parsed;
}

abbrev pub is_shaping : IntentAction → Bool
is_shaping throttle_app = true
is_shaping prioritize_app = true
is_shaping prioritize_over = true
is_shaping _ = false

abbrev pub is_selective : IntentAction → Bool
is_selective selective_degrade = true
is_selective _ = false

-- The intent, which goes into the list before it is carried out, is changed in place.
unfoldable pub create_parsed : Env → Fresh → String → ParsedIntent → Ibn → Ibn × NetworkIntent
create_parsed env fresh raw_text parsed s =
    let i = new_intent env fresh raw_text parsed in
    if is_shaping parsed.action
    then (let (i', t) = execute_traffic_shaping env fresh i s.shaper in
        (record s { intents = s.intents ++ i' ∷ []; shaper = t }, i'))
    else if is_selective parsed.action
    then (let (i', d) = execute_selective_degrade env fresh i s.degrader in
        (record s { intents = s.intents ++ i' ∷ []; degrader = d }, i'))
    else (record s { intents = s.intents ++ i ∷ [] }, i)

-- `p.get("created_by") == intent_id`
abbrev is_text : String → Option Value → Bool
is_text id none = false
is_text id (some (text author)) = str_eq author id
is_text id (some (number n)) = false
is_text id (some (truth b)) = false

-- `remove_policy(p["id"])`; a missing key ends the loop.
abbrev remove_row : Config → ℕ → Option Value → TrafficShaper → Option TrafficShaper
remove_row config now (some (text id)) t = some ((remove_policy config now id t).0)
remove_row config now (some (number n)) t = some t
remove_row config now (some (truth b)) t = some t
remove_row config now none t = none

unfoldable pub remove_created : Config → ℕ → String → List AllPolicy → TrafficShaper → TrafficShaper
remove_created config now id [] t = t
remove_created config now id (row ∷ rows) t =
    let kept = remove_created config now id rows t in
    if is_text id (lookup "created_by" row)
    then elim (remove_row config now (lookup "id" row) t) [
      | none ↦ t
      | some t' ↦ remove_created config now id rows t'
    ]
    else kept

abbrev pub delete_found : Env → ℕ → String → Ibn → Option NetworkIntent → Ibn × Bool
delete_found env now id s none = (s, false)
delete_found env now id s (some i) = (
  record s {
    intents = change_first id (with_status deleted) s.intents;
    shaper =
        if is_shaping i.parsed.action
        then remove_created env.config now id (get_all_policies env.config.round now s.shaper)
            s.shaper
        else s.shaper;
  },
  true,
)

unfoldable pub delete_intent : Env → ℕ → String → Ibn → Ibn × Bool
delete_intent env now id s = delete_found env now id s (get_intent id s)

abbrev pub switch_found :
    (IntentStatus → Bool) → IntentStatus → String → Ibn → Option NetworkIntent → Ibn × Bool
switch_found test status id s none = (s, false)
switch_found test status id s (some i) =
    if test i.status
    then (record s { intents = change_first id (with_status status) s.intents }, true)
    else (s, false)

unfoldable pub pause_intent : String → Ibn → Ibn × Bool
pause_intent id s = switch_found (λ status. not (is_deleted status)) paused id s (get_intent id s)

unfoldable pub resume_intent : String → Ibn → Ibn × Bool
resume_intent id s = switch_found is_paused active id s (get_intent id s)

-- One round of `ibn_monitor_loop`; `clock` gives the times of each check.
unfoldable pub monitor : (ℕ → Clock) → ℕ → List NetworkIntent → Engine → List NetworkIntent × Engine
monitor clock k [] e = ([], e)
monitor clock k (i ∷ is) e =
    let (i', e') = if is_idle i.status then (i, e) else check_intent_compliance (clock k) i e in
    let (is', e'') = monitor clock (suc k) is e' in (i' ∷ is', e'')

unfoldable pub monitor_round : (ℕ → Clock) → Ibn → Ibn
monitor_round clock s =
    let (is, e) = monitor clock 0 s.intents s.engine in record s { intents = is; engine = e }
