-- ===== src/Degrader/Leftovers.antt =====
-- What stays in the operating system of the rules of server/app_qos/selective_degrader.py, in the
-- mode "powershell", of commands that take effect: the two commands that remove take away what their rule
-- has put there.
use pathwiseai.Prelude.{
  ℕ, ◌+◌, String, ◌≡◌, refl, sym, ◌∙◌, Bool, true, false, not, none, some, List, [], ◌∷◌, ◌++◌,
  select, ◌||◌, ◌&&◌, str_eq, eq_iff, if◌then◌else◌, arith, Option-cases, Bool-cases, inl, inr, All,
}
use pathwiseai.Prelude.Dict.{Dict, lookup, insert}
use pathwiseai.Degrader.Defs.{
  EnforcerMode, powershell, SelectiveRule, Command, Degrader, block_tcp4, block_udp4, block_tcp6,
  new_qos_policy, remove_firewall_rules, remove_qos_policies, apply_windows, remove_rule,
  qos_policies, is_v4, is_v6, rate_bps,
}
use pathwiseai.Degrader.Rules.{retire, deactivated}

-- Whether the firewall rules of a rule are there after a command.
abbrev pub firewall_after : String → Bool → Command → Bool
firewall_after id b (block_tcp4 j ips) = b || str_eq j id
firewall_after id b (block_udp4 j ips) = b || str_eq j id
firewall_after id b (block_tcp6 j ips) = b || str_eq j id
firewall_after id b (remove_firewall_rules j) = b && not (str_eq j id)
firewall_after id b _ = b

-- Whether QoS policies of a rule are there after a command.
abbrev pub qos_after : String → Bool → Command → Bool
qos_after id b (new_qos_policy j idx prefix rate) = b || str_eq j id
qos_after id b (remove_qos_policies j) = b && not (str_eq j id)
qos_after id b _ = b

abbrev pub fold : (Bool → Command → Bool) → Bool → List Command → Bool
fold after b [] = b
fold after b (c ∷ commands) = fold after (after b c) commands

-- Whether something of the rule with the id is left in the operating system.
abbrev pub is_left : String → List Command → Bool
is_left id commands = fold (firewall_after id) false commands || fold (qos_after id) false commands

abbrev pub has_active : String → Dict SelectiveRule → Bool
has_active id rules = elim (lookup id rules) [ none ↦ false | some rule ↦ rule.active ]

-- Each rule stands under its own id, and what is left in the operating system is of active rules.
abbrev pub IsClean : Degrader → Type 0
IsClean s =
    All (λ (e : String × SelectiveRule). e.1.id ≡ e.0) s.rules
    × ((id : String) → is_left id s.commands ≡ true → has_active id s.rules ≡ true)

pub fold-append :
    (after : Bool → Command → Bool) (b : Bool) (cs ds : List Command)
    → fold after b (cs ++ ds) ≡ fold after (fold after b cs) ds
fold-append after b [] ds = refl
fold-append after b (c ∷ cs) ds = fold-append after (after b c) cs ds

-- The commands that apply a rule leave nothing of another id.
module _ (id : String) (b : Bool) where
  fold-qos_policies :
      (other : String) (rate idx : ℕ) (ips : List String)
      → str_eq other id ≡ false
      → (fold (firewall_after id) b (qos_policies other rate idx ips) ≡ b)
        × (fold (qos_after id) b (qos_policies other rate idx ips) ≡ b)
  fold-qos_policies other rate idx [] apart = (refl, refl)
  fold-qos_policies other rate idx (ip ∷ ips) apart =
      ground (arith, fold-qos_policies other rate (idx + 1) ips apart)

  pub fold-apply_windows :
      (rule : SelectiveRule)
      → str_eq rule.id id ≡ false
      → (fold (firewall_after id) b (apply_windows rule).0 ≡ b)
        × (fold (qos_after id) b (apply_windows rule).0 ≡ b)
  unfolding apply_windows
  fold-apply_windows rule apart = ground (
    arith,
    fold-qos_policies rule.id (rate_bps rule.throttle_kbps) 0 rule.ips apart,
    select is_v4 rule.ips,
    select is_v6 rule.ips,
  )

  pub fold-remove_rule :
      (rule : SelectiveRule)
      → (fold (firewall_after id) b (remove_rule powershell rule) ≡ (b && not (str_eq rule.id id)))
        × (fold (qos_after id) b (remove_rule powershell rule) ≡ (b && not (str_eq rule.id id)))
  unfolding remove_rule
  fold-remove_rule rule = (refl, refl)

-- Whether a rule with the id passes the test.
abbrev hit : String → (SelectiveRule → Bool) → Dict SelectiveRule → Bool
hit id test [] = false
hit id test ((k, rule) ∷ rules) = test rule && str_eq rule.id id || hit id test rules

module _ (id : String) (test : SelectiveRule → Bool) where
  fold-retire :
      (b : Bool) (rules : Dict SelectiveRule)
      → (fold (firewall_after id) b (retire powershell test rules).1
          ≡ (b && not (hit id test rules)))
        × (fold (qos_after id) b (retire powershell test rules).1 ≡ (b && not (hit id test rules)))
  unfolding retire
  fold-retire b [] = ground arith
  fold-retire b ((k, rule) ∷ rules) = elim (Bool-cases (test rule)) [
    | inl hits ↦ rw hits (
        ground (
          arith,
          fold-append (firewall_after id) b (remove_rule powershell rule)
              (retire powershell test rules).1,
          fold-append (qos_after id) b (remove_rule powershell rule)
              (retire powershell test rules).1,
          fold-remove_rule id b rule,
          fold-retire (b && not (str_eq rule.id id)) rules,
        ))
    | inr misses ↦ rw misses (ground (arith, fold-retire b rules))
  ]

  lookup-retire :
      (e : EnforcerMode) (rules : Dict SelectiveRule)
      → lookup id (retire e test rules).0 ≡ (elim (lookup id rules) [
        | none ↦ none
        | some r ↦ some (if test r then deactivated r else r)
      ])
  unfolding retire lookup
  lookup-retire e [] = refl
  lookup-retire e ((k, rule) ∷ rules) = ground (arith, lookup-retire e rules)

  hit-lookup :
      (rules : Dict SelectiveRule) (r : SelectiveRule)
      → All (λ (e : String × SelectiveRule). e.1.id ≡ e.0) rules
      → lookup id rules ≡ some r
      → test r ≡ true
      → hit id test rules ≡ true
  unfolding lookup
  hit-lookup [] r keyed found passed = absurd (cc)
  hit-lookup ((k, rule) ∷ rules) r keyed found passed =
      ground (arith, eq_iff k id, eq_iff rule.id id, keyed.0, hit-lookup rules r keyed.1)

abbrev pub IsKeyed : Dict SelectiveRule → Type 0
IsKeyed = All (λ (e : String × SelectiveRule). e.1.id ≡ e.0)

pub insert-IsKeyed :
    (k : String) (rule : SelectiveRule) (rules : Dict SelectiveRule)
    → rule.id ≡ k
    → IsKeyed rules
    → IsKeyed (insert k rule rules)
unfolding insert
insert-IsKeyed k rule [] same h = (same, tt)
insert-IsKeyed k rule ((j, r) ∷ rules) same h = elim (Bool-cases (str_eq j k)) [
  | inl hits ↦ rw hits (same ∙ sym ((eq_iff j k).0 hits), h.1)
  | inr misses ↦ rw misses (h.0, insert-IsKeyed k rule rules same h.1)
]

pub retire-IsKeyed :
    (e : EnforcerMode) (test : SelectiveRule → Bool) (rules : Dict SelectiveRule)
    → IsKeyed rules
    → IsKeyed (retire e test rules).0
unfolding retire
retire-IsKeyed e test [] h = tt
retire-IsKeyed e test ((k, rule) ∷ rules) h = elim (Bool-cases (test rule)) [
  | inl hits ↦ rw hits (h.0, retire-IsKeyed e test rules h.1)
  | inr misses ↦ rw misses (h.0, retire-IsKeyed e test rules h.1)
]

abbrev pub retired : (SelectiveRule → Bool) → Degrader → Degrader
retired test s = record {
  rules = (retire powershell test s.rules).0;
  commands = s.commands ++ (retire powershell test s.rules).1;
}

pub is_left-append :
    (id : String) (cs ds : List Command)
    → is_left id (cs ++ ds) ≡ (
        fold (firewall_after id) (fold (firewall_after id) false cs) ds
        || fold (qos_after id) (fold (qos_after id) false cs) ds)
is_left-append id cs ds =
    rw (fold-append (firewall_after id) false cs ds, fold-append (qos_after id) false cs ds) refl

pub is_left-retired :
    (id : String) (test : SelectiveRule → Bool) (s : Degrader)
    → is_left id (retired test s).commands ≡ (is_left id s.commands && not (hit id test s.rules))
is_left-retired id test s = ground (
  arith,
  is_left-append id s.commands (retire powershell test s.rules).1,
  fold-retire id test (fold (firewall_after id) false s.commands) s.rules,
  fold-retire id test (fold (qos_after id) false s.commands) s.rules,
)

pub retired-left :
    (test : SelectiveRule → Bool) (s : Degrader)
    → IsClean s
    → (id : String) → is_left id (retired test s).commands ≡ true
    → (r : SelectiveRule) × (lookup id (retired test s).rules ≡ some r)
      × (r.active ≡ true)
      × (test r ≡ false)
retired-left test s clean id left = elim (Option-cases (lookup id s.rules)) [
  | inl missing ↦ absurd (ground (arith, is_left-retired id test s, clean.1 id, missing))
  | inr (r, found) ↦ elim (Bool-cases (test r)) [
    | inl hits ↦
        absurd (
          ground
            (arith, is_left-retired id test s, hit-lookup id test s.rules r clean.0 found hits))
    | inr misses ↦ (
      r,
      ground (arith, lookup-retire id test powershell s.rules),
      ground (arith, is_left-retired id test s, clean.1 id),
      misses,
    )
  ]
]

pub retired-IsClean :
    (test : SelectiveRule → Bool) (s : Degrader) → IsClean s → IsClean (retired test s)
retired-IsClean test s clean = (
  retire-IsKeyed powershell test s.rules clean.0,
  λ id left. let (r, found, active, _) = retired-left test s clean id left in ground arith,
)
