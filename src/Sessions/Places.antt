-- ===== src/Sessions/Places.antt =====
-- The abstract view of the session table of server/session_manager.py: where each session stands and
-- whether it is active. The lists of the links, their order and the shared objects are forgotten.
use pathwiseai.Prelude.{
  ℕ, String, ◌≡◌, refl, Bool, true, false, not, Option, none, some, str_eq, contains, ◌==◌, ◌&&◌,
  if◌then◌else◌,
}
use pathwiseai.Sessions.Defs.{NetworkSession, SessionManager, is_active, moved_to}

-- The link of a session that is listed, and whether the session is active.
pub record Place : Type 0 where
  pub link : String
  pub live : Bool

abbrev pub Map : Type 0
Map = ℕ → Option Place

abbrev pub place_of : NetworkSession → Bool → Option Place
place_of o held = if held then some (record { link = o.link_id; live = is_active o }) else none

-- The abstract view of a table.
abbrev pub view : SessionManager → Map
view m r = place_of (m.objects r) (contains r (m.table (m.objects r).link_id))

-- A registration puts a fresh session on its link.
abbrev pub spec_register : String → ℕ → Map → Map
spec_register link fresh s r =
    if r == fresh then some (record { link = link; live = true }) else s r

-- A migration takes all sessions off the source; those that were active stand on the target after
-- it, if that is another link, and are active no more.
abbrev moved : String → String → Place → Option Place
moved source target p =
    if not (str_eq p.link source)
    then some p
    else if p.live && not (str_eq source target)
    then some (record { link = target; live = false })
    else none

abbrev pub migrated_place : String → String → Option Place → Option Place
migrated_place source target none = none
migrated_place source target (some p) = moved source target p

abbrev pub spec_migrate : String → String → Map → Map
spec_migrate source target s r = migrated_place source target (s r)

-- What becomes of the place of a session that is on another link, that is moved to another link or
-- to its own, and that is not moved.
pub stays_apart :
    (source target : String) (o : NetworkSession) (held : Bool)
    → str_eq o.link_id source ≡ false
    → place_of o held ≡ migrated_place source target (place_of o held)
stays_apart source target o true apart = rw apart refl
stays_apart source target o false apart = refl

pub goes_over :
    (source target : String) (now : ℕ) (o : NetworkSession)
    → str_eq o.link_id source ≡ true
    → str_eq source target ≡ false
    → is_active o ≡ true
    → place_of (moved_to target now o) true ≡ migrated_place source target (place_of o true)
goes_over source target now o here apart live = rw (here, apart, live) refl

pub goes_away :
    (source target : String) (o : NetworkSession) (held : Bool)
    → str_eq o.link_id source ≡ true
    → (held && is_active o && not (str_eq source target)) ≡ false
    → none ≡ migrated_place source target (place_of o held)
goes_away source target o true here out = rw (here, out) refl
goes_away source target o false here out = refl
