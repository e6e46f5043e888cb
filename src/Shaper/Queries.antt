-- ===== src/Shaper/Queries.antt =====
-- The queries of server/traffic_shaper.py. A time is a whole number of microseconds;
-- `round` gives the nearest whole number to a quotient.
use pathwiseai.Prelude.{
  ℕ, ◌-◌, String, Bool, Option, none, some, List, [], ◌∷◌, map, select, ltb, find, if◌then◌else◌,
}
use pathwiseai.Prelude.Dict.{Dict, values}
use pathwiseai.Prelude.Text.{size, lower, codes, same_codes, is_within}
use pathwiseai.Degrader.Defs.{strip}
use pathwiseai.Shaper.Registry.{
  PriorityClass, critical, high, normal, low, blocked, AppProfile, app_registry, app_aliases,
}
use pathwiseai.Shaper.Defs.{TrafficPolicy, TrafficShaper}

unfoldable pub get_active_policies : TrafficShaper → List TrafficPolicy
get_active_policies t = select (λ p. p.active) t.active_policies

-- A value in a row that is sent to a client.
pub data Value : Type 0 where
  text : String → Value
  number : ℕ → Value
  truth : Bool → Value

abbrev pub AllPolicy : Type 0
AllPolicy = Dict Value

abbrev class_value : PriorityClass → String
class_value critical = "critical"
class_value high = "high"
class_value normal = "normal"
class_value low = "low"
class_value blocked = "blocked"

-- A row of `get_all_policies`, with the age in tenths of a second.
abbrev pub row_of : (ℕ → ℕ → ℕ) → ℕ → TrafficPolicy → AllPolicy
row_of round now p =
    ("id", text p.id)
    ∷ ("app_name", text p.app_name)
    ∷ ("display_name", text p.display_name)
    ∷ ("action", text p.action)
    ∷ ("bandwidth_kbps", number p.bandwidth_kbps)
    ∷ ("priority", text (class_value p.priority))
    ∷ ("active", truth p.active)
    ∷ ("reason", text p.reason)
    ∷ ("created_at", number p.created_at)
    ∷ ("age_seconds", number (round (now - p.created_at) 100000))
    ∷ []

abbrev pub get_all_policies : (ℕ → ℕ → ℕ) → ℕ → TrafficShaper → List AllPolicy
get_all_policies round now t = map (row_of round now) t.active_policies

pub record AppRow : Type 0 where
  pub name : String
  pub display_name : String
  pub category : String
  pub default_priority : PriorityClass

abbrev app_row : AppProfile → AppRow
app_row app = record {
  name = app.name;
  display_name = app.display_name;
  category = app.category;
  default_priority = app.default_priority;
}

abbrev pub get_app_list : List AppRow
get_app_list = map app_row (values app_registry)

-- `sorted(…, key=lambda x: -len(x[0]))`, which keeps the order of texts of one length.
abbrev insert_alias : String × String → Dict String → Dict String
insert_alias a [] = a ∷ []
insert_alias a (b ∷ d) =
    let rest = insert_alias a d in if ltb (size a.0) (size b.0) then b ∷ rest else a ∷ b ∷ d

abbrev pub sort_aliases : Dict String → Dict String
sort_aliases [] = []
sort_aliases (a ∷ d) = insert_alias a (sort_aliases d)

abbrev pub key_of : Option (String × AppProfile) → Option String
key_of none = none
key_of (some (name, app)) = some name

abbrev pub alias_of : Option (String × String) → Option String
alias_of none = none
alias_of (some (alias, name)) = some name

abbrev pub or_else : Option String → Option String → Option String
or_else none later = later
or_else (some name) later = some name

-- A key of the registry, or else the name for the longest alias that the text holds.
unfoldable pub resolve_codes : List ℕ → Option String
resolve_codes t =
    or_else (key_of (find (λ e. same_codes (codes e.0) t) app_registry))
      (alias_of (find (λ e. is_within (codes e.0) t) (sort_aliases app_aliases)))

abbrev pub resolve_app_name : String → Option String
resolve_app_name query = resolve_codes (lower (strip query))
