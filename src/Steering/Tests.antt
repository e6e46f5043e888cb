-- ===== src/Steering/Tests.antt =====
-- Tests of the model of `validate_steering`, and its theorems at sample inputs.
use pathwiseai.Prelude.{ℕ, ◌≡◌, refl, true, not, none, some, [], ◌∷◌, ◌&&◌, ltb, str_eq}
use pathwiseai.Steering.Pipeline.{
  SandboxReport, LinkState, link_spec, valid_link, prediction, check_reachability,
  validate_steering, report_of, check_no_loops, check_policy_compliance, check_performance_impact,
  build_report, pass, fail_unreachable,
}
use pathwiseai.Steering.Verdict.{is_pass, meets, is_healthy, validate_steering-pass}

-- The fiber link is predicted to fail, the 5G link to be well.
abbrev st : LinkState
st = record {
  predictions =
      ("fiber-primary", some 20000) ∷ ("5g-mobile", some 85000) ∷ ("satellite-backup", none) ∷ [];
  brownout_active = ("fiber-primary", true) ∷ [];
}

abbrev rolls : ℕ × ℕ
rolls = (500000, 700000)

abbrev to_5g : SandboxReport
to_5g = validate_steering st rolls "r1" "fiber-primary" "5g-mobile" ("voip" ∷ "bulk" ∷ [])

-- A host link is accepted as the target.
to_host :
    (validate_steering st rolls "r2" "fiber-primary" "host-link-1" ("voip" ∷ [])).result ≡ pass
unfolding validate_steering report_of build_report valid_link check_no_loops check_policy_compliance
    check_reachability check_performance_impact
to_host = refl

unknown : (validate_steering st rolls "r3" "fiber-primary" "wifi" []).result ≡ fail_unreachable
unfolding validate_steering report_of build_report valid_link check_no_loops check_policy_compliance
    check_reachability check_performance_impact
unknown = refl

validate_steering-pass_example : is_pass to_5g.result ≡ (
    not (str_eq "fiber-primary" "5g-mobile")
    && valid_link "fiber-primary"
    && valid_link "5g-mobile"
    && ltb 30000 rolls.0
    && meets (link_spec "5g-mobile") ("voip" ∷ "bulk" ∷ [])
    && check_reachability st rolls.1 "5g-mobile"
    && is_healthy (prediction st "5g-mobile"))
validate_steering-pass_example =
    validate_steering-pass st rolls "r1" "fiber-primary" "5g-mobile" ("voip" ∷ "bulk" ∷ [])
