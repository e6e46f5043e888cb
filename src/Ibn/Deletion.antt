-- ===== src/Ibn/Deletion.antt =====
-- What server/ibn_engine.py leaves behind when an intent is deleted.
use pathwiseai.Prelude.{
  ℕ, ◌≡◌, refl, String, Option, none, some, List, [], ◌∷◌, map, Bool-cases, inl, inr,
}
use pathwiseai.Prelude.Dict.{lookup}
use pathwiseai.Qos.Rules.{Config}
use pathwiseai.Shaper.Defs.{TrafficPolicy, TrafficShaper}
use pathwiseai.Shaper.Queries.{row_of}
use pathwiseai.Ibn.Defs.{NetworkIntent}
use pathwiseai.Ibn.Shaping.{Env}
use pathwiseai.Ibn.Store.{Ibn, get_intent, is_shaping, remove_created, delete_found, delete_intent}

-- The rows of `get_all_policies` have no key "created_by".
remove_created-rows :
    (config : Config) (now : ℕ) (id : String) (ps : List TrafficPolicy) (t : TrafficShaper)
    → remove_created config now id (map (row_of config.round now) ps) t ≡ t
unfolding remove_created lookup
remove_created-rows config now id [] t = refl
remove_created-rows config now id (p ∷ ps) t = remove_created-rows config now id ps t

delete_found-shaper :
    (env : Env) (now : ℕ) (id : String) (s : Ibn) (o : Option NetworkIntent)
    → (delete_found env now id s o).0.shaper ≡ s.shaper
delete_found-shaper env now id s none = refl
delete_found-shaper env now id s (some i) =
    let kept = remove_created-rows env.config now id s.shaper.active_policies s.shaper in
    elim (Bool-cases (is_shaping i.parsed.action)) [
      | inl shaping ↦ rw shaping kept
      | inr other ↦ rw other refl
    ]

-- To delete an intent removes no traffic policy, also none that the intent created: the policies,
-- the rules in force and the commands sent stay as they were.
pub delete_intent-shaper :
    (env : Env) (now : ℕ) (id : String) (s : Ibn) → (delete_intent env now id s).0.shaper ≡ s.shaper
unfolding delete_intent
delete_intent-shaper env now id s = delete_found-shaper env now id s (get_intent id s)
