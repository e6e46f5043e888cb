-- ===== src/Degrader/Fates.antt =====
-- Commands of server/app_qos/selective_degrader.py that fail. `_run_ps` logs a failure or a timeout,
-- and the code goes on as if the command had succeeded.
use pathwiseai.Prelude.{String, ◌≡◌, Bool, true, false, List, [], ◌∷◌, arith, if◌then◌else◌}
use pathwiseai.Degrader.Defs.{Command, remove_firewall_rules, remove_qos_policies, Degrader}
use pathwiseai.Degrader.Leftovers.{firewall_after, qos_after, fold, is_left}

abbrev pub is_removal : Command → Bool
is_removal (remove_firewall_rules j) = true
is_removal (remove_qos_policies j) = true
is_removal _ = false

-- The commands that took effect, by whether each did; those for which this is not said did.
unfoldable pub effects : List Bool → List Command → List Command
effects [] commands = commands
effects (took ∷ fates) [] = []
effects (took ∷ fates) (c ∷ commands) =
    let rest = effects fates commands in if took then c ∷ rest else rest

-- Each command that removes took effect.
unfoldable pub AreRemoved : List Bool → List Command → Type 0
AreRemoved [] commands = Unit
AreRemoved (took ∷ fates) [] = Unit
AreRemoved (took ∷ fates) (c ∷ commands) =
    (is_removal c ≡ true → took ≡ true) × AreRemoved fates commands

-- The state, with only the commands that took effect.
abbrev pub with_effects : List Bool → Degrader → Degrader
with_effects fates s = record s { commands = effects fates s.commands }

module _ (after : Bool → Command → Bool)
    (mono : (b b' : Bool) (c : Command)
      → (b ≡ true → b' ≡ true)
      → after b c ≡ true
      → after b' c ≡ true)
    (grows : (b : Bool) (c : Command) → is_removal c ≡ false → b ≡ true → after b c ≡ true) where
  fold-le :
      (b b' : Bool) (commands : List Command)
      → (b ≡ true → b' ≡ true)
      → fold after b commands ≡ true
      → fold after b' commands ≡ true
  fold-le b b' [] le left = le left
  fold-le b b' (c ∷ commands) le left =
      fold-le (after b c) (after b' c) commands (mono b b' c le) left

  -- Commands that failed to add something leave no more than all commands would.
  fold-effects-le :
      (b b' : Bool) (fates : List Bool) (commands : List Command)
      → AreRemoved fates commands
      → (b ≡ true → b' ≡ true)
      → fold after b (effects fates commands) ≡ true
      → fold after b' commands ≡ true
  unfolding effects AreRemoved
  fold-effects-le b b' [] commands removed le left = fold-le b b' commands le left
  fold-effects-le b b' (took ∷ fates) [] removed le left = le left
  fold-effects-le b b' (true ∷ fates) (c ∷ commands) removed le left =
      fold-effects-le (after b c) (after b' c) fates commands removed.1 (mono b b' c le) left
  fold-effects-le b b' (false ∷ fates) (c ∷ commands) removed le left =
      fold-effects-le b (after b' c) fates commands removed.1
        (λ h. grows b' c (ground (arith, removed.0)) (le h)) left

firewall_after-le :
    (id : String) (b b' : Bool) (c : Command)
    → (b ≡ true → b' ≡ true)
    → firewall_after id b c ≡ true
    → firewall_after id b' c ≡ true
firewall_after-le id b b' c le left = ground arith

firewall_after-grows :
    (id : String) (b : Bool) (c : Command)
    → is_removal c ≡ false
    → b ≡ true
    → firewall_after id b c ≡ true
firewall_after-grows id b c adds on = ground arith

qos_after-le :
    (id : String) (b b' : Bool) (c : Command)
    → (b ≡ true → b' ≡ true)
    → qos_after id b c ≡ true
    → qos_after id b' c ≡ true
qos_after-le id b b' c le left = ground arith

qos_after-grows :
    (id : String) (b : Bool) (c : Command)
    → is_removal c ≡ false
    → b ≡ true
    → qos_after id b c ≡ true
qos_after-grows id b c adds on = ground arith

pub is_left-effects :
    (id : String) (fates : List Bool) (commands : List Command)
    → AreRemoved fates commands
    → is_left id (effects fates commands) ≡ true
    → is_left id commands ≡ true
is_left-effects id fates commands removed left = ground (
  arith,
  fold-effects-le (firewall_after id) (firewall_after-le id) (firewall_after-grows id) false false
      fates commands removed (λ h. h),
  fold-effects-le (qos_after id) (qos_after-le id) (qos_after-grows id) false false fates commands
      removed (λ h. h),
)
