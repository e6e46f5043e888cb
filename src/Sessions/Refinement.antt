-- ===== src/Sessions/Refinement.antt =====
-- The operations of server/session_manager.py do to the session table what the abstract ones do to
-- its view.
use mathlib.Core.Path.{fun_ext}
use pathwiseai.Prelude.{
  ℕ, ◌+◌, String, ◌≡◌, ◌≢◌, refl, ap, sym, ◌∙◌, true, false, List, [], ◌∷◌, arith, str_eq, eq_iff,
  eq_refl, contains, contains-append, Bool-cases, inl, inr, ◌==◌, ==_iff,
}
use pathwiseai.Sessions.Defs.{
  NetworkSession, SessionManager, is_active, get_active_sessions, register_session, set_object,
  set_list, moved_to,
}
use pathwiseai.Sessions.Migration.{
  table-source, table-target, table-other, objects-migrate_sessions, contains-active, after,
  next-migrate_sessions,
}
use pathwiseai.Sessions.Handoffs.{
  IsConsistent, String-cases, Op, register, migrate, step, steps, step-IsConsistent,
}
use pathwiseai.Sessions.Places.{
  Map, view, spec_register, spec_migrate, stays_apart, goes_over, goes_away,
}

register_refines :
    (link id : String) (now : ℕ) (given : NetworkSession) (m : SessionManager) (r : ℕ)
    → view (register_session link id now given m).1 r ≡ spec_register link m.next (view m) r
unfolding register_session set_object set_list
register_refines link id now given m r = elim (Bool-cases (r == m.next)) [
  | inl same ↦
      let e = (==_iff r m.next).0 same in
      rw e (
        ground (
          arith,
          ==_iff m.next m.next,
          eq_refl link,
          contains-append m.next (m.table link) (m.next ∷ []),
        ))
  | inr other ↦ ground (
    arith,
    contains-append r (m.table link) (m.next ∷ []),
    eq_iff link (m.objects r).link_id,
    ==_iff r m.next,
    ==_iff m.next r,
  )
]

module _ (source target : String) (times : ℕ → ℕ) (elapsed : ℕ) (m : SessionManager)
    (v : IsConsistent m) where
  abbrev m' : SessionManager
  m' = after source target times elapsed m

  -- On another link than the source nothing changes.
  elsewhere_refines :
      (r : ℕ) → source ≢ (m.objects r).link_id → view m' r ≡ spec_migrate source target (view m) r
  elsewhere_refines r apart =
      let l = (m.objects r).link_id in
      let idle : contains r (get_active_sessions source m) ≡ false =
        ground (arith, contains-active source target times elapsed m r, v.home source r) in
      let same : m'.objects r ≡ m.objects r =
        rw idle at (objects-migrate_sessions source target times elapsed m r) in
      let held : contains r (m'.table l) ≡ contains r (m.table l) = elim (String-cases target l) [
        | inl there ↦
            let arrived = table-target source target times elapsed m (λ e. apart (e ∙ there)) in
            ground (
              arith,
              ap (contains r) arrived,
              ap m'.table there,
              ap m.table there,
              contains-append r (m.table target) (get_active_sessions source m),
            )
        | inr other ↦ ap (contains r) (table-other source target times elapsed m l apart other)
      ] in
      let other : str_eq l source ≡ false = ground (arith, eq_iff l source) in
      rw (same, held) (stays_apart source target (m.objects r) (contains r (m.table l)) other)

  -- A session that was active on the source.
  source_moves :
      (r : ℕ)
      → source ≡ (m.objects r).link_id
      → str_eq (m.objects r).link_id source ≡ true
      → contains r (get_active_sessions source m) ≡ true
      → view m' r ≡ spec_migrate source target (view m) r
  source_moves r here named moves =
      let o = m.objects r in
      let new : m'.objects r ≡ moved_to target (times r) o =
        rw moves at (objects-migrate_sessions source target times elapsed m r) in
      let listed = contains-active source target times elapsed m r in
      let live : is_active o ≡ true = ground arith in
      let held : contains r (m.table o.link_id) ≡ true =
        sym (ap (λ k. contains r (m.table k)) here) ∙ ground arith in
      elim (String-cases source target) [
        | inl loop ↦
            let gone : m'.table target ≡ [] =
              ap m'.table (sym loop) ∙ table-source source target times elapsed m in
            rw (new, gone, held)
              (goes_away source target o true named (ground (arith, eq_iff source target)))
        | inr apart ↦
            let arrived : contains r (m'.table target) ≡ true =
              ap (contains r) (table-target source target times elapsed m apart)
              ∙ contains-append r (m.table target) (get_active_sessions source m)
              ∙ ground arith in
            rw (new, arrived, held)
              (goes_over source target (times r) o named (ground (arith, eq_iff source target))
                live)
      ]

  source_refines :
      (r : ℕ) → source ≡ (m.objects r).link_id → view m' r ≡ spec_migrate source target (view m) r
  source_refines r here =
      let l = (m.objects r).link_id in
      let empty : m'.table l ≡ [] =
        ap m'.table (sym here) ∙ table-source source target times elapsed m in
      let on : contains r (m.table source) ≡ contains r (m.table l) =
        ap (λ k. contains r (m.table k)) here in
      let named : str_eq l source ≡ true = (eq_iff l source).1 (sym here) in
      elim (Bool-cases (contains r (get_active_sessions source m))) [
        | inl moves ↦ source_moves r here named moves
        | inr stays ↦
            let same : m'.objects r ≡ m.objects r =
              rw stays at (objects-migrate_sessions source target times elapsed m r) in
            rw (same, empty)
              (goes_away source target (m.objects r) (contains r (m.table l)) named
                (ground (arith, on, contains-active source target times elapsed m r)))
      ]

  migrate_refines : (r : ℕ) → view m' r ≡ spec_migrate source target (view m) r
  migrate_refines r = elim (String-cases source (m.objects r).link_id) [
    | inl here ↦ source_refines r here
    | inr apart ↦ elsewhere_refines r apart
  ]

-- The same operations on the map alone; `next` counts the registrations.
unfoldable pub replay : List Op → ℕ → Map → Map
replay [] next s = s
replay (register link id now given ∷ ops) next s = replay ops (next + 1) (spec_register link next s)
replay (migrate source target times elapsed ∷ ops) next s =
    replay ops next (spec_migrate source target s)

-- Any sequence of registrations and migrations of a consistent table does what the same sequence
-- does to the map alone: each session ends on the link, and active or not, as the map says.
pub steps_refines :
    (ops : List Op) (m : SessionManager)
    → IsConsistent m
    → view (steps ops m) ≡ replay ops m.next (view m)
unfolding steps replay register_session
steps_refines [] m v = refl
steps_refines (register link id now given ∷ ops) m v =
    let op = register link id now given in
    steps_refines ops (step op m) (step-IsConsistent op m v)
    ∙ ap (replay ops (m.next + 1)) (fun_ext (register_refines link id now given m))
steps_refines (migrate source target times elapsed ∷ ops) m v =
    let op = migrate source target times elapsed in
    steps_refines ops (step op m) (step-IsConsistent op m v)
    ∙ rw (next-migrate_sessions source target times elapsed m)
        (ap (replay ops m.next) (fun_ext (migrate_refines source target times elapsed m v)))
