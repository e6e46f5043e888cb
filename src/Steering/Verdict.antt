-- ===== src/Steering/Verdict.antt =====
-- When `validate_steering` of server/sandbox.py lets a request pass.
use pathwiseai.Prelude.{
  ℕ, String, ◌≡◌, refl, Bool, true, false, not, Option, none, some, List, [], ◌∷◌, find_holds,
  all-find, all, any, length, ltb, leb, ◌==◌, ◌||◌, ◌&&◌, str_eq, eq_iff, arith, Bool-cases,
  Option-cases, inl, inr,
}
use pathwiseai.Steering.Topology.{TopologyLink, links}
use pathwiseai.Steering.Pipeline.{
  pass, ValidationResult, SandboxReport, LinkState, link_spec, valid_link, violates, shared_hops,
  is_ok, prediction, check_no_loops, check_policy_compliance, check_reachability,
  check_performance_impact, validate_steering, report_of, build_report, Status,
}

abbrev pub is_pass : ValidationResult → Bool
is_pass pass = true
is_pass _ = false

module _ (id source target : String) (classes : List String) (known loop_free : Bool)
    (policy : Status) (reachable : Bool) (performance : Status) where
  abbrev report : SandboxReport
  report = report_of id source target classes known loop_free policy reachable performance

  report_of_flags :
      (is_pass report.result ≡ report.performance_acceptable)
      × ((report.performance_acceptable && report.reachability_verified)
          ≡ report.performance_acceptable)
      × ((report.reachability_verified && report.policy_compliant) ≡ report.reachability_verified)
      × ((report.policy_compliant && report.loop_free) ≡ report.policy_compliant)
  unfolding report_of build_report
  report_of_flags = ground arith

  report_of-pass :
      is_pass report.result ≡ (known && loop_free && is_ok policy && reachable && is_ok performance)
  unfolding report_of build_report
  report_of-pass = ground arith

-- The flags of a report are set in the order of the checks: one that is set has all earlier ones set,
-- and the last one is set exactly if the result is a pass.
pub validate_steering_flags :
    (st : LinkState) (rolls : ℕ × ℕ) (id source target : String) (classes : List String)
    → let r = validate_steering st rolls id source target classes in
      (is_pass r.result ≡ r.performance_acceptable)
      × ((r.performance_acceptable && r.reachability_verified) ≡ r.performance_acceptable)
      × ((r.reachability_verified && r.policy_compliant) ≡ r.reachability_verified)
      × ((r.policy_compliant && r.loop_free) ≡ r.policy_compliant)
unfolding validate_steering
validate_steering_flags st rolls id source target classes =
    report_of_flags id source target classes (valid_link source && valid_link target)
      (check_no_loops rolls.0 source target) (check_policy_compliance st target classes)
      (check_reachability st rolls.1 target) (check_performance_impact st target)

abbrev are_apart : TopologyLink → TopologyLink → Bool
are_apart a b = str_eq a.link_id b.link_id || length (shared_hops a b) == 0

-- No two paths of the topology share a hop but the edge routers.
links_apart : all (λ a. all (are_apart a) links) links ≡ true
links_apart = refl

no_shared_hops :
    (source target : String) (a b : TopologyLink)
    → str_eq source target ≡ false
    → link_spec source ≡ some a
    → link_spec target ≡ some b
    → (length (shared_hops a b) == 0) ≡ true
unfolding link_spec
no_shared_hops source target a b apart from to =
    let is_named : String → TopologyLink → Bool = λ name l. str_eq l.link_id name in
    let all_apart =
      all-find (is_named source) (λ x. all (are_apart x) links) links a links_apart from in
    let both_apart = all-find (is_named target) (are_apart a) links b all_apart to in
    let a_is : str_eq a.link_id source ≡ true = find_holds (is_named source) links a from in
    let b_is : str_eq b.link_id target ≡ true = find_holds (is_named target) links b to in
    let from_id = (eq_iff a.link_id source).0 a_is in
    let to_id = (eq_iff b.link_id target).0 b_is in
    let other : str_eq a.link_id b.link_id ≡ false = rw (from_id, to_id) apart in
    rw other at both_apart

check_no_loops_lem :
    (roll : ℕ) (source target : String)
    → check_no_loops roll source target ≡ (not (str_eq source target) && ltb 30000 roll)
unfolding check_no_loops
check_no_loops_lem roll source target = elim (Bool-cases (str_eq source target)) [
  | inl same ↦ rw same refl
  | inr apart ↦ elim (Option-cases (link_spec source)) [
    | inl unknown ↦ rw (apart, unknown) refl
    | inr (a, from) ↦ elim (Option-cases (link_spec target)) [
      | inl unknown ↦ rw (apart, from, unknown) refl
      | inr (b, to) ↦ rw (apart, from, to, no_shared_hops source target a b apart from to) refl
    ]
  ]
]

abbrev pub is_healthy : Option ℕ → Bool
is_healthy none = true
is_healthy (some health) = leb 35000 health

abbrev pub meets : Option TopologyLink → List String → Bool
meets none classes = false
meets (some l) classes = not (any (violates l) classes)

policy_lem :
    (st : LinkState) (target : String) (classes : List String)
    → is_ok (check_policy_compliance st target classes) ≡ meets (link_spec target) classes
unfolding check_policy_compliance
policy_lem st target classes = ground arith

performance_lem :
    (st : LinkState) (target : String)
    → is_ok (check_performance_impact st target) ≡ is_healthy (prediction st target)
unfolding check_performance_impact
performance_lem st target = ground arith

-- A request passes exactly if its links are different and known, the draw of the loop check is above
-- 0.03, the target meets the requirements of every traffic class, the reachability check passes, and
-- the predicted health of the target, if there is a prediction, is at least 35.
pub validate_steering-pass :
    (st : LinkState) (rolls : ℕ × ℕ) (id source target : String) (classes : List String)
    → is_pass (validate_steering st rolls id source target classes).result ≡ (
        not (str_eq source target)
        && valid_link source
        && valid_link target
        && ltb 30000 rolls.0
        && meets (link_spec target) classes
        && check_reachability st rolls.1 target
        && is_healthy (prediction st target))
unfolding validate_steering
validate_steering-pass st rolls id source target classes =
    let e =
      report_of-pass id source target classes (valid_link source && valid_link target)
        (check_no_loops rolls.0 source target) (check_policy_compliance st target classes)
        (check_reachability st rolls.1 target) (check_performance_impact st target) in
    ground (
      arith,
      e,
      policy_lem st target classes,
      performance_lem st target,
      check_no_loops_lem rolls.0 source target,
    )

abbrev pub is_strict : String → Bool
is_strict tc = str_eq "voip" tc || str_eq "video" tc || str_eq "critical" tc

violates-satellite :
    (l : TopologyLink) (tc : String)
    → link_spec "satellite-backup" ≡ some l
    → is_strict tc ≡ true
    → violates l tc ≡ true
unfolding link_spec violates
violates-satellite l tc spec strict = let slow : l.delay_ms ≡ 300 = ground arith in ground arith

any-violates-satellite :
    (l : TopologyLink) (classes : List String)
    → link_spec "satellite-backup" ≡ some l
    → any is_strict classes ≡ true
    → any (violates l) classes ≡ true
any-violates-satellite l [] spec strict = absurd (cc)
any-violates-satellite l (tc ∷ classes) spec strict =
    ground (arith, violates-satellite l tc spec, any-violates-satellite l classes spec)

-- Whatever the state and the draws, a request that puts voice, video or critical traffic on the
-- satellite link does not pass.
pub validate_steering-satellite :
    (st : LinkState) (rolls : ℕ × ℕ) (id source : String) (classes : List String)
    → any is_strict classes ≡ true
    → is_pass (validate_steering st rolls id source "satellite-backup" classes).result ≡ false
validate_steering-satellite st rolls id source classes strict =
    elim (Option-cases (link_spec "satellite-backup")) [
      | inl unknown ↦
          ground (arith, validate_steering-pass st rolls id source "satellite-backup" classes)
      | inr (l, spec) ↦ ground (
        arith,
        validate_steering-pass st rolls id source "satellite-backup" classes,
        any-violates-satellite l classes spec strict,
      )
    ]
