-- ===== src/Sessions/Migration.antt =====
-- What one migration of server/session_manager.py does to the table and to the sessions.
use native.Mathlib.Decide.{ℕ_discrete}
use pathwiseai.Prelude.{
  ℕ, String, ◌≡◌, ◌≢◌, refl, ◌∙◌, true, false, ◌&&◌, List, [], ◌∷◌, ◌++◌, arith, str_eq, eq_iff,
  eq_refl, contains, contains-append, contains-select, select-nil, if◌then◌else◌,
}
use mathlib.Core.List.{append-nil, append_assoc}
use pathwiseai.Sessions.Defs.{
  SessionManager, HandoffResult, set_list, is_active, get_active_sessions, get_session_count,
  moved_to, migrate_one, migrate_all, migrate_sessions,
}

set_list_self : (l : String) (refs : List ℕ) (t : String → List ℕ) → set_list l refs t l ≡ refs
unfolding set_list
set_list_self l refs t = rw eq_refl refl

set_list_ne :
    (k l : String) (refs : List ℕ) (t : String → List ℕ) → k ≢ l → set_list k refs t l ≡ t l
unfolding set_list
set_list_ne k l refs t apart = ground (arith, eq_iff k l)

module _ (target : String) (times : ℕ → ℕ) where
  table-migrate_all :
      (refs : List ℕ) (m : SessionManager) (l : String)
      → (migrate_all target times refs m).table l
        ≡ (if str_eq target l then m.table l ++ refs else m.table l)
  unfolding migrate_all
  table-migrate_all [] m l = ground (arith, append-nil (m.table l))
  table-migrate_all (r ∷ refs) m l =
      table-migrate_all refs (migrate_one target times r m) l
      ∙ ground (arith, eq_iff target l, append_assoc (m.table l) (r ∷ []) refs)

  objects-migrate_all :
      (refs : List ℕ) (m : SessionManager) (q : ℕ)
      → (migrate_all target times refs m).objects q
        ≡ (if contains q refs then moved_to target (times q) (m.objects q) else m.objects q)
  unfolding migrate_all
  objects-migrate_all [] m q = refl
  objects-migrate_all (r ∷ refs) m q =
      objects-migrate_all refs (migrate_one target times r m) q
      ∙ elim (ℕ_discrete r q) [ yes same ↦ rw same (ground arith) | no other ↦ ground arith ]

next-migrate_all :
    (target : String) (times : ℕ → ℕ) (refs : List ℕ) (m : SessionManager)
    → (migrate_all target times refs m).next ≡ m.next
unfolding migrate_all
next-migrate_all target times [] m = refl
next-migrate_all target times (r ∷ refs) m =
    next-migrate_all target times refs (migrate_one target times r m)

module _ (source target : String) (times : ℕ → ℕ) (elapsed : ℕ) (m : SessionManager) where
  abbrev pub after : SessionManager
  after = (migrate_sessions source target times elapsed m).1

  abbrev pub report : HandoffResult
  report = (migrate_sessions source target times elapsed m).0

  -- Exactly the sessions that were active on the source are changed: they are put on the target,
  -- marked as migrated and dated. All else of them, such as sequence numbers and codec, stays.
  pub objects-migrate_sessions :
      (q : ℕ)
      → after.objects q ≡ (
          if contains q (get_active_sessions source m)
          then moved_to target (times q) (m.objects q)
          else m.objects q)
  unfolding migrate_sessions
  objects-migrate_sessions q = objects-migrate_all target times (get_active_sessions source m) m q

  pub contains-active :
      (q : ℕ)
      → contains q (get_active_sessions source m)
        ≡ (contains q (m.table source) && is_active (m.objects q))
  unfolding get_active_sessions
  contains-active q = contains-select q (λ r. is_active (m.objects r)) (m.table source)

  none_active :
      (r : ℕ)
      → contains r ((migrate_all target times (get_active_sessions source m) m).table source) ≡ true
      → is_active ((migrate_all target times (get_active_sessions source m) m).objects r) ≡ false
  none_active r held =
      let refs = get_active_sessions source m in
      ground (
        arith,
        table-migrate_all target times refs m source,
        contains-append r (m.table source) refs,
        contains-active r,
        objects-migrate_all target times refs m r,
      )

  -- After a migration the source has no sessions, whatever the target.
  pub table-source : after.table source ≡ []
  unfolding migrate_sessions get_active_sessions
  table-source = rw set_list_self (
      select-nil _ ((migrate_all target times (get_active_sessions source m) m).table source)
        (λ r held. none_active r held))

  -- The active sessions of the source are added to the list of the target, in their order, and the
  -- lists of all other links stay.
  pub table-target :
      source ≢ target → after.table target ≡ m.table target ++ get_active_sessions source m
  unfolding migrate_sessions
  table-target apart = rw (set_list_ne source target _ _ apart, table-migrate_all, eq_refl) refl

  pub table-other : (l : String) → source ≢ l → target ≢ l → after.table l ≡ m.table l
  unfolding migrate_sessions
  table-other l ne ne' =
      rw (set_list_ne source l _ _ ne, table-migrate_all) (ground (arith, eq_iff target l))

  pub next-migrate_sessions : after.next ≡ m.next
  unfolding migrate_sessions
  next-migrate_sessions = next-migrate_all target times (get_active_sessions source m) m

  -- What the result of a migration says: all active sessions of the source were migrated.
  pub report_lem :
      (report.preserved ≡ true)
      × (report.total_sessions ≡ get_session_count source m)
      × (report.migrated_sessions ≡ get_session_count source m)
      × (report.dropped_sessions ≡ 0)
  unfolding migrate_sessions get_session_count
  report_lem = (refl, refl, refl, refl)
