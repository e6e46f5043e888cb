-- ===== src/Sessions/Handoffs.antt =====
-- Sequences of handoffs in server/session_manager.py: what the table keeps, and what it loses.
use pathwiseai.Prelude.{
  ℕ, ◌<◌, String, ◌≡◌, ◌≢◌, refl, ap, sym, ◌∙◌, Bool, true, false, List, [], ◌∷◌, arith, str_eq,
  eq_iff, contains, contains-append, Bool-cases, inl, inr, ◌⊎◌,
}
use pathwiseai.Sessions.Defs.{
  NetworkSession, SessionManager, is_active, get_active_sessions, register_session,
  migrate_sessions,
}
use pathwiseai.Sessions.Migration.{
  table-source, table-target, table-other, objects-migrate_sessions, contains-active, after, report,
  next-migrate_sessions, report_lem,
}

-- A reference in the list of a link is in use, and its session names that link.
pub record IsConsistent (m : SessionManager) : Type 0 where
  pub home :
      (l : String) (r : ℕ)
      → contains r (m.table l) ≡ true
      → ((m.objects r).link_id ≡ l) × (r < m.next)

pub String-cases : (s t : String) → (s ≡ t) ⊎ (s ≢ t)
String-cases s t = elim (Bool-cases (str_eq s t)) [
  | inl same ↦ inl ((eq_iff s t).0 same)
  | inr other ↦ inr (λ e. cc (other, (eq_iff s t).1 e))
]

pub register_session-IsConsistent :
    (link id : String) (now : ℕ) (given : NetworkSession) (m : SessionManager)
    → IsConsistent m
    → IsConsistent (register_session link id now given m).1
unfolding register_session
register_session-IsConsistent link id now given m v = record {
  home = λ l r held.
      ground (arith, v.home l r, contains-append r (m.table link) (m.next ∷ []), eq_iff link l);
}

module _ (source target : String) (times : ℕ → ℕ) (elapsed : ℕ) (m : SessionManager) where
  -- Where a reference stands after a migration.
  pub held-after :
      (l : String) (r : ℕ)
      → contains r ((after source target times elapsed m).table l) ≡ true
      → ((l ≡ target) × (contains r (get_active_sessions source m) ≡ true))
        ⊎ ((contains r (m.table l) ≡ true) × (l ≢ source))
  held-after l r held = elim (String-cases source l) [
    | inl here ↦
        let gone : (after source target times elapsed m).table l ≡ [] =
          ap (after source target times elapsed m).table (sym here)
          ∙ table-source source target times elapsed m in
        absurd (let no_one = rw gone at held in cc)
    | inr elsewhere ↦ elim (String-cases target l) [
      | inl there ↦
          let arrived = table-target source target times elapsed m (λ e. elsewhere (e ∙ there)) in
          ground (
            arith,
            ap (contains r) arrived,
            ap (after source target times elapsed m).table there,
            ap m.table there,
            contains-append r (m.table target) (get_active_sessions source m),
          )
      | inr other ↦ inr (
        rw (table-other source target times elapsed m l elsewhere other) at held,
        λ e. elsewhere (sym e),
      )
    ]
  ]

  pub migrate_sessions-IsConsistent :
      IsConsistent m → IsConsistent (after source target times elapsed m)
  migrate_sessions-IsConsistent v = record {
    home = λ l r held. elim (held-after l r held) [
      | inl (there, was_active) ↦ ground (
        arith,
        objects-migrate_sessions source target times elapsed m r,
        contains-active source target times elapsed m r,
        v.home source r,
        next-migrate_sessions source target times elapsed m,
      )
      | inr (stayed, elsewhere) ↦ ground (
        arith,
        objects-migrate_sessions source target times elapsed m r,
        contains-active source target times elapsed m r,
        v.home source r,
        v.home l r,
        next-migrate_sessions source target times elapsed m,
      )
    ];
  }

  -- A session that was migrated is active no more.
  pub active_gone :
      (r : ℕ)
      → contains r (get_active_sessions source m) ≡ true
      → is_active ((after source target times elapsed m).objects r) ≡ false
  active_gone r was_active =
      ground (arith, objects-migrate_sessions source target times elapsed m r)

-- The changes of the table: a registration or a migration.
pub data Op : Type 0 where
  register : String → String → ℕ → NetworkSession → Op
  migrate : String → String → (ℕ → ℕ) → ℕ → Op

abbrev pub step : Op → SessionManager → SessionManager
step (register link id now given) m = (register_session link id now given m).1
step (migrate source target times elapsed) m = (migrate_sessions source target times elapsed m).1

unfoldable pub steps : List Op → SessionManager → SessionManager
steps [] m = m
steps (op ∷ ops) m = steps ops (step op m)

pub step-IsConsistent : (op : Op) (m : SessionManager) → IsConsistent m → IsConsistent (step op m)
step-IsConsistent (register link id now given) m v =
    register_session-IsConsistent link id now given m v
step-IsConsistent (migrate source target times elapsed) m v =
    migrate_sessions-IsConsistent source target times elapsed m v

-- Any sequence of registrations and migrations of a consistent table, in which every session that a
-- link lists exists and names that link, leads to a consistent table.
pub steps-IsConsistent :
    (ops : List Op) (m : SessionManager) → IsConsistent m → IsConsistent (steps ops m)
unfolding steps
steps-IsConsistent [] m v = v
steps-IsConsistent (op ∷ ops) m v = steps-IsConsistent ops (step op m) (step-IsConsistent op m v)

-- After any sequence of registrations and migrations of a consistent table no session is listed by
-- two links.
pub steps_one_link :
    (ops : List Op) (m : SessionManager) (l k : String) (r : ℕ)
    → IsConsistent m
    → contains r ((steps ops m).table l) ≡ true
    → contains r ((steps ops m).table k) ≡ true
    → l ≡ k
steps_one_link ops m l k r v here there =
    let v' = steps-IsConsistent ops m v in sym (v'.home l r here).0 ∙ (v'.home k r there).0

not_true : (b : Bool) → (b ≡ true → ⊥) → b ≡ false
not_true true h = absurd (h refl)
not_true false h = refl

module _ (a : String) (times : ℕ → ℕ) (elapsed : ℕ) (m : SessionManager) (v : IsConsistent m)
    (r : ℕ) (was_active : contains r (get_active_sessions a m) ≡ true) where
  on_a : contains r (m.table a) ≡ true
  on_a = ground (arith, contains-active a a times elapsed m r)

  only_on_a : (l : String) → contains r (m.table l) ≡ true → l ≡ a
  only_on_a l held = sym (v.home l r held).0 ∙ (v.home a r on_a).0

  -- In a consistent table, a session that is active on a link is in the list of no link after a migration
  -- of the link to itself, although the result says that all sessions were preserved.
  pub self_migration_loses :
      (l : String)
      → (contains r ((after a a times elapsed m).table l) ≡ false)
        × ((report a a times elapsed m).preserved ≡ true)
  self_migration_loses l = (
    not_true _ λ held. elim (held-after a a times elapsed m l r held) [
      | inl (here, _) ↦
          let gone : (after a a times elapsed m).table l ≡ [] =
            ap (after a a times elapsed m).table here ∙ table-source a a times elapsed m in
          (let no_one = rw gone at held in cc)
      | inr (stayed, elsewhere) ↦ elsewhere (only_on_a l stayed)
    ],
    (report_lem a a times elapsed m).0,
  )

  -- In a consistent table, a session that is active on link a is in the list of no link after a migration
  -- from a to another link b and a migration from b to a third link c, although the result of the
  -- second migration, too, says that all sessions were preserved.
  pub second_migration_loses :
      (b c : String) (times' : ℕ → ℕ) (elapsed' : ℕ)
      → a ≢ b
      → b ≢ c
      → (l : String)
      → let m' = after a b times elapsed m in
        (contains r ((after b c times' elapsed' m').table l) ≡ false)
        × ((report b c times' elapsed' m').preserved ≡ true)
  second_migration_loses b c times' elapsed' ab bc l =
      let m' = after a b times elapsed m in
      (
        not_true _ λ held. elim (held-after b c times' elapsed' m' l r held) [
          | inl (_, active_on_b) ↦ absurd (
              ground (
                arith,
                active_gone a b times elapsed m r was_active,
                contains-active b c times' elapsed' m' r,
              ))
          | inr (on_l, not_b) ↦ elim (held-after a b times elapsed m l r on_l) [
            | inl (is_b, _) ↦ not_b is_b
            | inr (stayed, not_a) ↦ not_a (only_on_a l stayed)
          ]
        ],
        (report_lem b c times' elapsed' m').0,
      )
