-- ===== src/Alerts/Suppression.antt =====
-- The suppression window of server/alerts.py.
use pathwiseai.Prelude.{
  ℕ, ◌+◌, ◌<◌, String, ◌≡◌, refl, Bool, Option, none, some, List, [], ◌∷◌, ◌++◌, select,
  select-append, str_eq, eq_iff, eq_refl, arith, All,
}
use pathwiseai.Prelude.Dict.{lookup-insert}
use pathwiseai.Alerts.Defs.{
  AlertRecord, Alerts, Call, Format, last_alert, alert_of, check_and_alert,
}

abbrev given : Option AlertRecord → List AlertRecord
given none = []
given (some a) = a ∷ []

-- The alerts that a sequence of calls raises, and the state after it.
unfoldable pub run : Format → List Call → Alerts → List AlertRecord × Alerts
run f [] s = ([], s)
run f (c ∷ calls) s =
    let (alert, s') = check_and_alert f c s in
    let (alerts, s'') = run f calls s' in (given alert ++ alerts, s'')

abbrev pub is_on : String → AlertRecord → Bool
is_on link a = str_eq a.link_id link

-- A call in the window raises nothing for the link, and leaves the window as it was.
module _ (f : Format) (link : String) (t window : ℕ) where
  abbrev IsQuiet : Alerts → Type 0
  IsQuiet s = (last_alert link s ≡ t) × (s.suppression_window ≡ window)

  check_quiet :
      (c : Call) (s : Alerts)
      → IsQuiet s
      → c.check_time < t + window
      → (select (is_on link) (given (check_and_alert f c s).0) ≡ [])
        × (last_alert link (check_and_alert f c s).1 ≡ t)
        × ((check_and_alert f c s).1.suppression_window ≡ window)
  unfolding check_and_alert last_alert alert_of
  check_quiet c s quiet early =
      let ins = lookup-insert c.link_id link c.last_time s.last_alert_time in
      let names = eq_iff c.link_id link in
      (ground (arith, names), ground (arith, ins, names), ground arith)

  run_quiet :
      (calls : List Call) (s : Alerts)
      → IsQuiet s
      → All (λ c. c.check_time < t + window) calls
      → select (is_on link) (run f calls s).0 ≡ []
  unfolding run
  run_quiet [] s quiet early = refl
  run_quiet (c ∷ calls) s quiet early =
      let (nothing, last, window_same) = check_quiet c s quiet early.0 in
      let rest = run_quiet calls (check_and_alert f c s).1 (last, window_same) early.1 in
      rw
        (
          select-append (is_on link) (given (check_and_alert f c s).0)
              (run f calls (check_and_alert f c s).1).0,
          nothing,
          rest,
        )
        refl

fired :
    (f : Format) (c : Call) (s : Alerts) (a : AlertRecord)
    → (check_and_alert f c s).0 ≡ some a
    → (last_alert c.link_id (check_and_alert f c s).1 ≡ c.last_time)
      × ((check_and_alert f c s).1.suppression_window ≡ s.suppression_window)
unfolding check_and_alert last_alert
fired f c s a raised =
    let ins = lookup-insert c.link_id c.link_id c.last_time s.last_alert_time in
    (ground (arith, ins, eq_refl c.link_id), ground arith)

-- After an alert, no call raises another alert for the same link within the suppression window,
-- whatever calls for this link and for others come before it in that time, as long as the
-- configuration is not changed.
pub run_suppressed :
    (f : Format) (c : Call) (s : Alerts) (a : AlertRecord) (calls : List Call)
    → (check_and_alert f c s).0 ≡ some a
    → All (λ (d : Call). d.check_time < c.last_time + s.suppression_window) calls
    → select (is_on c.link_id) (run f calls (check_and_alert f c s).1).0 ≡ []
run_suppressed f c s a calls raised early =
    run_quiet f c.link_id c.last_time s.suppression_window calls (check_and_alert f c s).1
      (fired f c s a raised) early
