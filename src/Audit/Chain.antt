-- ===== src/Audit/Chain.antt =====
-- When the check of the chain of server/audit.py accepts a log.
use Prim.Native.Nat.{min}
use native.Mathlib.Decide.{dec_lt}
use native.Mathlib.Nat.{add-zero, zero-add}
use pathwiseai.Prelude.{
  ℕ, suc, ◌+◌, ◌≤◌, ◌<◌, String, ◌≡◌, refl, List, [], ◌∷◌, ◌++◌, arith, length, push, eq_iff,
  length-append, ◌↔◌, push_fits, push_full, append-eq-nil, ◌∙◌, sym, ap,
}
use pathwiseai.Prelude.Text.{size}
use pathwiseai.Audit.Defs.{
  AuditEntry, AuditLog, Digest, Event, HasDigestSize, compute_checksum, entry_of, log_event, fields,
  check_entry, check_from, empty, genesis, maxlen,
}

-- Each entry refers to the checksum before it and has the checksum of its own fields. `start` is
-- the checksum before the first entry, and `last` that of the last one.
abbrev pub IsChain : Digest → String → List AuditEntry → String → Type 0
IsChain h start [] last = start ≡ last
IsChain h start (e ∷ es) last =
    (e.prev_checksum ≡ start)
    × (e.checksum ≡ compute_checksum h e start)
    × IsChain h e.checksum es last

add-suc-eq : (n m : ℕ) → n + suc m ≡ n + 1 + m
add-suc-eq n m = omega arith

module _ (h : Digest) where
  check_entry-nil :
      (i : ℕ) (e : AuditEntry) (prev : String)
      → (check_entry h i e prev ≡ [])
        ↔ ((e.prev_checksum ≡ prev) × (e.checksum ≡ compute_checksum h e prev))
  unfolding check_entry
  check_entry-nil i e prev =
      ground (arith, eq_iff e.checksum (compute_checksum h e prev), eq_iff e.prev_checksum prev)

  -- The checksum that the log ends with.
  abbrev pub last_of : String → List AuditEntry → String
  last_of start [] = start
  last_of start (e ∷ es) = last_of e.checksum es

  last_of-IsChain :
      (start : String) (es : List AuditEntry) {last : String}
      → IsChain h start es last
      → last_of start es ≡ last
  last_of-IsChain start [] c = c
  last_of-IsChain start (e ∷ es) c = last_of-IsChain e.checksum es c.2

  pub check_from-nil_of_chain :
      (i : ℕ) (start : String) (es : List AuditEntry) (last : String)
      → IsChain h start es last
      → check_from h i es start ≡ []
  unfolding check_from
  check_from-nil_of_chain i start [] last c = refl
  check_from-nil_of_chain i start (e ∷ es) last c =
      rw
        (
          (check_entry-nil i e start).1 (c.0, c.1),
          check_from-nil_of_chain (i + 1) e.checksum es last c.2,
        )
        refl

  pub IsChain-of_check_from-nil :
      (i : ℕ) (start : String) (es : List AuditEntry)
      → check_from h i es start ≡ []
      → IsChain h start es (last_of start es)
  unfolding check_from
  IsChain-of_check_from-nil i start [] c = refl
  IsChain-of_check_from-nil i start (e ∷ es) c =
      let (here, later) =
        append-eq-nil (check_entry h i e start) (check_from h (i + 1) es e.checksum) c in
      let (prev, sum) = (check_entry-nil i e start).0 here in
      (prev, sum, IsChain-of_check_from-nil (i + 1) e.checksum es later)

  IsChain-snoc :
      (start : String) (es : List AuditEntry) (e : AuditEntry) {last : String}
      → IsChain h start es last
      → e.prev_checksum ≡ last
      → e.checksum ≡ compute_checksum h e last
      → IsChain h start (es ++ e ∷ []) e.checksum
  IsChain-snoc start [] e {last} c prev sum =
      (prev ∙ sym c, sum ∙ ap (compute_checksum h e) (sym c), refl)
  IsChain-snoc start (x ∷ es) e c prev sum = (c.0, c.1, IsChain-snoc x.checksum es e c.2 prev sum)

  prev_checksum-entry_of : (e : Event) (prev : String) → (entry_of h e prev).prev_checksum ≡ prev
  unfolding entry_of
  prev_checksum-entry_of e prev = refl

  checksum-entry_of :
      (e : Event) (prev : String)
      → (entry_of h e prev).checksum ≡ compute_checksum h (entry_of h e prev) prev
  unfolding entry_of compute_checksum fields
  checksum-entry_of e prev = refl

  -- The events of a log, one after the other.
  unfoldable pub log_all : List Event → AuditLog → AuditLog
  unfolding log_event
  log_all [] log = log
  log_all (e ∷ es) log = log_all es (log_event h e log).1

  size-compute_checksum :
      HasDigestSize h → (e : AuditEntry) (prev : String) → size (compute_checksum h e prev) ≡ 64
  unfolding compute_checksum
  size-compute_checksum digest e prev = digest _

  -- What the deque holds after `n` events: the last of them, a chain that starts from the genesis
  -- text while nothing was dropped, and from a digest afterwards.
  pub record IsWindow (n : ℕ) (es : List AuditEntry) (last : String) : Type 0 where
    pub start : String
    pub chain : IsChain h start es last
    pub held : length es ≡ min n maxlen
    pub whole : n ≤ maxlen → start ≡ genesis
    pub dropped : maxlen < n → size start ≡ 64

  module _ (digest : HasDigestSize h) (n : ℕ) (x : AuditEntry) (last : String)
      (prev : x.prev_checksum ≡ last) (sum : x.checksum ≡ compute_checksum h x last) where
    IsWindow-push_fits :
        (es : List AuditEntry)
        → n < maxlen
        → IsWindow n es last
        → IsWindow (n + 1) (push maxlen es x) x.checksum
    IsWindow-push_fits es room w = rw (push_fits maxlen es x (omega (arith, w.held))) (record {
      start = w.start;
      chain = IsChain-snoc w.start es x w.chain prev sum;
      held = omega (arith, w.held, length-append es (x ∷ []));
      whole = λ _. w.whole (omega arith);
      dropped = λ more. absurd (omega arith);
    })

    IsWindow-push_full :
        (es : List AuditEntry)
        → maxlen ≤ n
        → IsWindow n es last
        → IsWindow (n + 1) (push maxlen es x) x.checksum
    IsWindow-push_full [] full w = absurd (omega (arith, w.held))
    IsWindow-push_full (y ∷ ys) full w =
        rw (push_full maxlen y ys x (omega (arith, w.held))) (record {
          start = y.checksum;
          chain = IsChain-snoc y.checksum ys x w.chain.2 prev sum;
          held = omega (arith, w.held, length-append ys (x ∷ []));
          whole = λ few. absurd (omega arith);
          dropped = λ _. ap size w.chain.1 ∙ size-compute_checksum digest y w.start;
        })

    IsWindow-push :
        (es : List AuditEntry) → IsWindow n es last → IsWindow (n + 1) (push maxlen es x) x.checksum
    IsWindow-push es w = elim (dec_lt n maxlen) [
      | yes room ↦ IsWindow-push_fits es room w
      | no full ↦ IsWindow-push_full es (omega arith) w
    ]

  module _ (digest : HasDigestSize h) where
    IsWindow-log_all :
        (n : ℕ) (events : List Event) (log : AuditLog)
        → IsWindow n log.entries log.last_checksum
        → let log' = log_all events log in
          IsWindow (n + length events) log'.entries log'.last_checksum
    unfolding log_all
    IsWindow-log_all n [] log w = rw add-zero w
    IsWindow-log_all n (e ∷ es) log w =
        let x = entry_of h e log.last_checksum in
        let w' =
          IsWindow-push digest n x log.last_checksum (prev_checksum-entry_of e log.last_checksum)
            (checksum-entry_of e log.last_checksum) log.entries w in
        rw (add-suc-eq n (length es)) (IsWindow-log_all (n + 1) es (log_event h e log).1 w')

    IsWindow-empty : IsWindow 0 [] genesis
    IsWindow-empty = record {
      start = genesis;
      chain = refl;
      held = refl;
      whole = λ _. refl;
      dropped = λ more. absurd (omega arith);
    }

    pub IsWindow-events :
        (events : List Event)
        → let log = log_all events empty in IsWindow (length events) log.entries log.last_checksum
    IsWindow-events events = rw zero-add at (IsWindow-log_all 0 events empty IsWindow-empty)
