-- ===== src/Qos/Separation.antt =====
-- The dicts of server/app_qos/priority_manager.py: no two users share one.
use pathwiseai.Prelude.{
  ℕ, ◌+◌, ◌<◌, ◌≡◌, ◌≢◌, refl, ap, sym, String, some, [], arith, eq_iff, str_eq, ◌==◌, ==_iff,
  Bool-cases, Option-cases, inl, inr, if◌then◌else◌,
}
use pathwiseai.Prelude.Dict.{Dict, lookup, insert, erase, lookup-insert, lookup-erase}
use pathwiseai.Qos.Priorities.{
  PriorityManager, write, new_dict, user_dict, contents, get_priorities,
}

pub record IsSeparate (next : ℕ) (users : Dict ℕ) : Type 0 where
  pub below : (user : String) (ref : ℕ) → lookup user users ≡ some ref → ref < next
  pub apart :
      (u v : String) (ref : ℕ) → lookup u users ≡ some ref → lookup v users ≡ some ref → u ≡ v

-- A dict that only `user` may have.
abbrev pub IsOwn : Dict ℕ → String → ℕ → Type 0
IsOwn users user ref = (v : String) → lookup v users ≡ some ref → v ≡ user

module _ (next : ℕ) (users : Dict ℕ) (sep : IsSeparate next users) where
  pub IsSeparate-later : IsSeparate (next + 1) users
  IsSeparate-later = record { below = λ u r h. omega (arith, sep.below u r h); apart = sep.apart }

  pub IsSeparate-insert :
      (user : String) (ref : ℕ)
      → ref < next
      → IsOwn users user ref
      → IsSeparate next (insert user ref users)
  IsSeparate-insert user ref low own = record {
    below = λ u r h. ground (arith, lookup-insert user u ref users, sep.below u r);
    apart = λ u v r hu hv. ground (
      arith,
      lookup-insert user u ref users,
      lookup-insert user v ref users,
      sep.apart u v r,
      own u,
      own v,
      eq_iff user u,
      eq_iff user v,
    );
  }

  pub IsSeparate-erase : (user : String) → IsSeparate next (erase user users)
  IsSeparate-erase user = record {
    below = λ u r h. ground (arith, lookup-erase user u users, sep.below u r);
    apart = λ u v r hu hv.
        ground (arith, lookup-erase user u users, lookup-erase user v users, sep.apart u v r);
  }

  pub contents_fresh :
      (objects : ℕ → Dict String) (d : Dict String) (v : String)
      → contents (write next d objects) (lookup v users) ≡ contents objects (lookup v users)
  contents_fresh objects d v = elim (Option-cases (lookup v users)) [
    | inl gone ↦ rw gone refl
    | inr (ref, found) ↦ rw found (ground (arith, sep.below v ref found, ==_iff ref next))
  ]

  -- A write to a dict of one user is not seen by another.
  pub contents_other :
      (objects : ℕ → Dict String) (d : Dict String) (user : String) (ref : ℕ) (v : String)
      → IsOwn users user ref
      → v ≢ user
      → contents (write ref d objects) (lookup v users) ≡ contents objects (lookup v users)
  contents_other objects d user ref v own other = elim (Option-cases (lookup v users)) [
    | inl gone ↦ rw gone refl
    | inr (r, found) ↦ elim (Bool-cases (r == ref)) [
      | inl same ↦ absurd (other (own v (let e = (==_iff r ref).0 same in ground (arith, found))))
      | inr apart ↦ rw (found, apart) refl
    ]
  ]

pub contents-insert :
    (objects : ℕ → Dict String) (users : Dict ℕ) (user : String) (ref : ℕ) (v : String)
    → contents objects (lookup v (insert user ref users))
      ≡ (if str_eq user v then objects ref else contents objects (lookup v users))
contents-insert objects users user ref v = elim (Bool-cases (str_eq user v)) [
  | inl same ↦ rw (lookup-insert user v ref users, same) refl
  | inr other ↦ rw (lookup-insert user v ref users, other) refl
]

pub contents-erase :
    (objects : ℕ → Dict String) (users : Dict ℕ) (user v : String)
    → contents objects (lookup v (erase user users))
      ≡ (if str_eq user v then [] else contents objects (lookup v users))
contents-erase objects users user v = elim (Bool-cases (str_eq user v)) [
  | inl same ↦ rw (lookup-erase user v users, same) refl
  | inr other ↦ rw (lookup-erase user v users, other) refl
]

-- A dict of `user`, and the state in which it was looked up in `m`.
pub record IsUserDict (user : String) (m : PriorityManager) (ref : ℕ) (m1 : PriorityManager)
    : Type 0 where
  pub low : ref < m1.next
  pub own : IsOwn m1.user_priorities user ref
  pub users : m1.user_priorities ≡ m.user_priorities
  pub separate : IsSeparate m1.next m1.user_priorities
  pub keeps : (v : String) → get_priorities v m1 ≡ get_priorities v m
  pub holds : m1.objects ref ≡ get_priorities user m
  pub enforcer : m1.enforcer ≡ m.enforcer

pub user_dict-IsUserDict :
    (user : String) (m : PriorityManager)
    → IsSeparate m.next m.user_priorities
    → IsUserDict user m (user_dict user m).0 (user_dict user m).1
unfolding user_dict new_dict get_priorities
user_dict-IsUserDict user m sep = elim (Option-cases (lookup user m.user_priorities)) [
  | inl gone ↦ rw gone (record {
    low = omega arith;
    own = λ v h. (let low = sep.below v m.next h in absurd (omega (arith, low)));
    users = refl;
    separate = IsSeparate-later m.next m.user_priorities sep;
    keeps = contents_fresh m.next m.user_priorities sep m.objects [];
    holds = ground (arith, ==_iff m.next m.next);
    enforcer = refl;
  })
  | inr (ref, found) ↦ rw found (record {
    low = sep.below user ref found;
    own = λ v h. sep.apart v user ref h found;
    users = refl;
    separate = sep;
    keeps = λ v. refl;
    holds = ap (contents m.objects) (sym found);
    enforcer = refl;
  })
]
