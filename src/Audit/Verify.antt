-- ===== src/Audit/Verify.antt =====
-- Which logs of server/audit.py its own check accepts.
use pathwiseai.Prelude.{
  ℕ, suc, ◌≤◌, ◌<◌, String, ◌≡◌, refl, true, false, List, [], ◌∷◌, arith, length, leb, ◌==◌, inl,
  inr, Bool-cases, ap, ◌∙◌, sym, leb→le, ==_iff,
}
use pathwiseai.Prelude.Text.{size}
use pathwiseai.Audit.Defs.{
  AuditEntry, AuditLog, Digest, Event, Integrity, IntegrityError, HasDigestSize, check_from,
  verify_integrity, empty, genesis, maxlen,
}
use pathwiseai.Audit.Chain.{
  IsChain, IsWindow, IsWindow-events, check_from-nil_of_chain, IsChain-of_check_from-nil, last_of,
  log_all,
}

nil_of_length : (xs : List IntegrityError) → (length xs == 0) ≡ true → xs ≡ []
nil_of_length [] h = refl
nil_of_length (x ∷ xs) h = absurd (omega (arith, (==_iff (suc (length xs)) 0).0 h))

module _ (h : Digest) where
  pub IsChain-of_valid :
      (log : AuditLog)
      → (verify_integrity h log).valid ≡ true
      → IsChain h genesis log.entries (last_of h genesis log.entries)
  unfolding verify_integrity
  IsChain-of_valid log v =
      IsChain-of_check_from-nil h 0 genesis log.entries
        (nil_of_length (check_from h 0 log.entries genesis) v)

  -- A chain of full length cannot start from the genesis text and from a digest.
  one_start :
      (es : List AuditEntry) {a b : String} (last last' : String)
      → 0 < length es
      → IsChain h a es last
      → IsChain h b es last'
      → a ≡ b
  one_start [] _ _ nonempty c d = absurd (omega arith)
  one_start (e ∷ es) _ _ nonempty c d = sym c.0 ∙ d.0

  verify_whole :
      (log : AuditLog) (n : ℕ)
      → n ≤ maxlen
      → IsWindow h n log.entries log.last_checksum
      → verify_integrity h log ≡ record { valid = true; checked = n; errors = [] }
  unfolding verify_integrity
  verify_whole log n few w =
      let chain : IsChain h genesis log.entries log.last_checksum = rw (w.whole few) at w.chain in
      let count : length log.entries ≡ n = omega (arith, w.held) in
      rw (check_from-nil_of_chain h 0 genesis log.entries log.last_checksum chain, count) refl

  verify_dropped :
      (log : AuditLog) (n : ℕ)
      → maxlen < n
      → IsWindow h n log.entries log.last_checksum
      → (verify_integrity h log).valid ≡ false
  verify_dropped log n many w = elim (Bool-cases (verify_integrity h log).valid) [
    | inr invalid ↦ invalid
    | inl valid ↦
        let start =
          one_start log.entries _ _ (omega (arith, w.held)) w.chain (IsChain-of_valid log valid) in
        absurd (omega (arith, w.dropped many, ap size start))
  ]

  -- The check of a log to which only `log_event` has written accepts it exactly as long as at most
  -- 10000 events were logged, which is what the deque holds. After that it reports a broken chain
  -- although nothing was tampered with.
  pub verify_integrity-log_all :
      HasDigestSize h
      → (events : List Event)
      → (verify_integrity h (log_all h events empty)).valid ≡ leb (length events) maxlen
  verify_integrity-log_all digest events = elim (Bool-cases (leb (length events) maxlen)) [
    | inl few ↦ rw few (
        ap (λ (r : Integrity). r.valid)
          (verify_whole (log_all h events empty) (length events) (leb→le _ _ few)
            (IsWindow-events h digest events)))
    | inr many ↦ rw many (
        verify_dropped (log_all h events empty) (length events) (ground arith)
          (IsWindow-events h digest events))
  ]
