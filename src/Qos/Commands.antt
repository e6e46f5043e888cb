-- ===== src/Qos/Commands.antt =====
-- How many commands server/app_qos/bandwidth_enforcer.py sends for one setting.
use pathwiseai.Prelude.{
  ℕ, suc, ◌+◌, ◌*◌, ◌≤◌, ◌≡◌, refl, String, true, Option, none, some, List, [], ◌∷◌, map, take,
  arith, length, length-append, length-take, Bool-cases, inl, inr, str_eq, eq_iff, ap, ◌==◌,
}
use pathwiseai.Prelude.Dict.{Dict, lookup}
use pathwiseai.Qos.Tiers.{AppSignature}
use pathwiseai.Qos.Signatures.{app_signatures}
use pathwiseai.Qos.Enforcer.{
  Allocation, total_pct, total_or, whole_pct, allocation, no_allocation, compute_allocations,
}
use pathwiseai.Qos.Rules.{
  Command, Outcome, run_all, tc_filter, Config, BandwidthEnforcer, allocations_for, ip_policies,
  proc_policies, app_cidrs, app_policies, rate_bps, powershell_policies, tc_filters, tc_classes,
  sent, apply_priorities,
}

length-map : {A B : Type 0} (f : A → B) (xs : List A) → length (map f xs) ≡ length xs
length-map f [] = refl
length-map f (x ∷ xs) = ground (arith, length-map f xs)

length-ip_policies :
    (app : String) (i rate : ℕ) (cidrs : List String)
    → length (ip_policies app i rate cidrs) ≡ length cidrs
length-ip_policies app i rate [] = refl
length-ip_policies app i rate (c ∷ cidrs) =
    ground (arith, length-ip_policies app (suc i) rate cidrs)

length-proc_policies-le :
    (app : String) (rate : ℕ) (names : List String) → length (proc_policies app rate names) ≤ 1
length-proc_policies-le app rate [] = ground arith
length-proc_policies-le app rate (n ∷ names) = ground arith

length-app_policies-le :
    (app : String) (rate : ℕ) (sig : Option AppSignature) → length (app_policies app rate sig) ≤ 9
length-app_policies-le app rate none = omega arith
length-app_policies-le app rate (some sig) =
    let cidrs = take 8 (app_cidrs app sig) in
    omega (
      arith,
      length-append (ip_policies app 0 rate cidrs) (proc_policies app rate sig.process_names),
      length-ip_policies app 0 rate cidrs,
      length-take 8 (app_cidrs app sig),
      length-proc_policies-le app rate sig.process_names,
    )

length-powershell_policies-le :
    (d : Dict Allocation) → length (powershell_policies d) ≤ 9 * length d
unfolding powershell_policies
length-powershell_policies-le [] = omega arith
length-powershell_policies-le ((app, a) ∷ d) =
    let own = app_policies app (rate_bps a) (lookup app app_signatures) in
    omega (
      arith,
      length-append own (powershell_policies d),
      length-app_policies-le app (rate_bps a) (lookup app app_signatures),
      length-powershell_policies-le d,
    )

length-tc_filters-le :
    (iface : String) (id : ℕ) (sig : Option AppSignature) → length (tc_filters iface id sig) ≤ 5
length-tc_filters-le iface id none = omega arith
length-tc_filters-le iface id (some sig) =
    omega (arith, length-map (tc_filter iface id) (take 5 sig.cidrs), length-take 5 sig.cidrs)

length-tc_classes-le :
    (iface : String) (id : ℕ) (d : Dict Allocation) → length (tc_classes iface id d) ≤ 6 * length d
unfolding tc_classes
length-tc_classes-le iface id [] = omega arith
length-tc_classes-le iface id ((app, a) ∷ d) =
    let own = tc_filters iface id (lookup app app_signatures) in
    omega (
      arith,
      length-append own (tc_classes iface (id + 1) d),
      length-tc_filters-le iface id (lookup app app_signatures),
      length-tc_classes-le iface (id + 1) d,
    )

length-sent-le : (config : Config) (d : Dict Allocation) → length (sent config d) ≤ 3 + 9 * length d
length-sent-le config d =
    ground (arith, length-tc_classes-le config.wan_interface 10 d, length-powershell_policies-le d)

sent-simulated :
    (config : Config) (d : Dict Allocation)
    → str_eq config.mode "simulate" ≡ true
    → sent config d ≡ []
sent-simulated config d simulated =
    let e : config.mode ≡ "simulate" = (eq_iff config.mode "simulate").0 simulated in rw e refl

length-compute_allocations :
    (round : ℕ → ℕ → ℕ) (mode : String) (d : Dict String) (total : ℕ)
    → length (compute_allocations round mode d total) ≡ length d
unfolding compute_allocations
length-compute_allocations round mode d total = elim (Bool-cases (total_pct d == 0)) [
  | inl nothing ↦ rw nothing (length-map (no_allocation round mode) d)
  | inr something ↦
      rw something (length-map (allocation round mode (whole_pct (total_pct d)) total) d)
]

-- One setting of k applications logs one outcome for each command it sends, at most 3 + 9 k of them
-- in any mode, and none when the rules are only simulated.
pub apply_priorities-commands :
    (config : Config) (priorities : Dict String) (total : Option ℕ) (e : BandwidthEnforcer)
    → let log = (apply_priorities config priorities total e).0.commands_log in
      (length log ≤ 3 + 9 * length priorities) × (str_eq config.mode "simulate" ≡ true → log ≡ [])
unfolding apply_priorities
apply_priorities-commands config priorities total e =
    let allocations = allocations_for config priorities total in
    let whole = total_or config.total_link_mbps total in
    (
      omega (
        arith,
        length-map {B = Command × Outcome} (λ (c : Command). (c, config.run c))
            (sent config allocations),
        length-sent-le config allocations,
        length-compute_allocations config.round config.mode priorities whole,
      ),
      λ simulated. ap (run_all config) (sent-simulated config allocations simulated),
    )
