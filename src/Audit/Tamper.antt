-- ===== src/Audit/Tamper.antt =====
-- What an accepted log of server/audit.py says of its entries, and what it cannot say.
use Prim.Native.String.append
use Prim.Native.String.{◌++◌ as ◌+++◌}
use pathwiseai.Prelude.{
  ℕ, suc, ◌+◌, String, ◌≡◌, ◌≢◌, refl, true, List, [], ◌∷◌, ◌++◌, arith, length, ◌⊎◌, inl, inr,
  Bool-cases, ap, ◌∙◌, sym, str_eq, eq_iff,
}
use pathwiseai.Prelude.Text.{size, size-append, append_assoc, suffix-eq}
use pathwiseai.Audit.Defs.{
  AuditEntry, AuditLog, Digest, HasDigestSize, ◌<|>◌, fields, payload, compute_checksum,
  check_entry, check_from, verify_integrity, genesis,
}
use pathwiseai.Audit.Chain.{IsChain, last_of}
use pathwiseai.Audit.Verify.{IsChain-of_valid}

-- Two texts with one digest.
pub record Collision (h : Digest) : Type 0 where
  pub one : String
  pub other : String
  pub differ : one ≢ other
  pub digest : h.hexdigest one ≡ h.hexdigest other

module _ (h : Digest) where
  -- Entry by entry the two logs hash the same text.
  abbrev pub SamePayloads : String → List AuditEntry → String → List AuditEntry → Type 0
  SamePayloads p [] q [] = Unit
  SamePayloads p (e ∷ es) q (f ∷ fs) =
      (payload h e p ≡ payload h f q) × SamePayloads e.checksum es f.checksum fs
  SamePayloads p _ q _ = ⊥

  fields-append : (e : AuditEntry) (rest : String) → fields h e rest ≡ fields h e "" +++ rest
  unfolding fields
  fields-append e rest = simp (append_assoc, append.nil)

  payload-prev :
      (e f : AuditEntry) (p q : String) → size p ≡ size q → payload h e p ≡ payload h f q → p ≡ q
  payload-prev e f p q sizes same =
      suffix-eq (fields h e "") (fields h f "") p q sizes
        (sym (fields-append e p) ∙ same ∙ fields-append f q)

  digest_sizes :
      HasDigestSize h
      → (e f : AuditEntry) (p q : String) → e.checksum ≡ compute_checksum h e p
      → f.checksum ≡ compute_checksum h f q
      → size e.checksum ≡ size f.checksum
  unfolding compute_checksum
  digest_sizes digest e f p q x y =
      ap size x ∙ digest (payload h e p) ∙ sym (ap size y ∙ digest (payload h f q))

  digests_meet :
      (e f : AuditEntry) (p q : String)
      → e.checksum ≡ compute_checksum h e p
      → f.checksum ≡ compute_checksum h f q
      → e.checksum ≡ f.checksum
      → h.hexdigest (payload h e p) ≡ h.hexdigest (payload h f q)
  unfolding compute_checksum
  digests_meet e f p q x y z = sym x ∙ z ∙ y

  String-cases : (s t : String) → (s ≡ t) ⊎ (s ≢ t)
  String-cases s t = elim (Bool-cases (str_eq s t)) [
    | inl same ↦ inl ((eq_iff s t).0 same)
    | inr other ↦ inr (λ e. cc (other, (eq_iff s t).1 e))
  ]

  chains_agree :
      HasDigestSize h
      → (es fs : List AuditEntry) (p q last : String) → IsChain h p es last
      → IsChain h q fs last
      → length es ≡ length fs
      → size p ≡ size q
      → (SamePayloads p es q fs × (p ≡ q)) ⊎ Collision h
  chains_agree digest [] [] p q last c d counts sizes = inl (tt, c ∙ sym d)
  chains_agree digest [] (f ∷ fs) p q last c d counts sizes = absurd (omega arith)
  chains_agree digest (e ∷ es) [] p q last c d counts sizes = absurd (omega arith)
  chains_agree digest (e ∷ es) (f ∷ fs) p q last c d counts sizes =
      elim (chains_agree digest es fs e.checksum f.checksum last c.2 d.2 (omega arith)
        (digest_sizes digest e f p q c.1 d.1)) [
          | inr collision ↦ inr collision
          | inl (same, sums) ↦ elim (String-cases (payload h e p) (payload h f q)) [
            | inl here ↦ inl ((here, same), payload-prev e f p q sizes here)
            | inr differ ↦ inr (record {
              one = payload h e p;
              other = payload h f q;
              differ = differ;
              digest = digests_meet e f p q c.1 d.1 sums;
            })
          ]
        ]

  -- If the check accepts two logs of one length whose last entries have the same checksum, then the
  -- payloads of the two logs are the same, entry by entry, or else they give a collision of SHA-256.
  -- So an accepted log that was changed behind its last checksum hashes the same texts.
  pub valid-SamePayloads :
      HasDigestSize h
      → (log log' : AuditLog) → (verify_integrity h log).valid ≡ true
      → (verify_integrity h log').valid ≡ true
      → length log.entries ≡ length log'.entries
      → last_of h genesis log.entries ≡ last_of h genesis log'.entries
      → SamePayloads genesis log.entries genesis log'.entries ⊎ Collision h
  valid-SamePayloads digest log log' v v' counts sums =
      elim (chains_agree digest log.entries log'.entries genesis genesis
        (last_of h genesis log.entries) (IsChain-of_valid h log v)
        (rw (← sums) at (IsChain-of_valid h log' v')) counts refl) [
          | inl (same, _) ↦ inl same
          | inr collision ↦ inr collision
        ]

  -- The same entry with the bar in its actor, and with what stands before the bar moved over to
  -- the event type.
  abbrev pub bar_in_actor : AuditEntry → String → String → String → AuditEntry
  bar_in_actor e t a b = record e { event_type = t; actor = a <|> b }

  abbrev pub bar_in_type : AuditEntry → String → String → String → AuditEntry
  bar_in_type e t a b = record e { event_type = t <|> a; actor = b }

  checksum-bar :
      (e : AuditEntry) (t a b prev : String)
      → compute_checksum h (bar_in_actor e t a b) prev
        ≡ compute_checksum h (bar_in_type e t a b) prev
  unfolding compute_checksum fields
  checksum-bar e t a b prev = ap h.hexdigest (simp append_assoc)

  check_from-bar :
      (i : ℕ) (xs ys : List AuditEntry) (e : AuditEntry) (t a b start : String)
      → check_from h i (xs ++ bar_in_actor e t a b ∷ ys) start
        ≡ check_from h i (xs ++ bar_in_type e t a b ∷ ys) start
  unfolding check_from check_entry
  check_from-bar i [] ys e t a b start = rw (checksum-bar e t a b start) refl
  check_from-bar i (x ∷ xs) ys e t a b start =
      rw (check_from-bar (i + 1) xs ys e t a b x.checksum) refl

  length-bar :
      (xs ys : List AuditEntry) (e f : AuditEntry) → length (xs ++ e ∷ ys) ≡ length (xs ++ f ∷ ys)
  length-bar [] ys e f = refl
  length-bar (x ∷ xs) ys e f = ap suc (length-bar xs ys e f)

  -- The bars of the payload are not escaped. Of an entry whose actor contains a bar, what stands
  -- before the bar can be moved over to the event type: the entry then has another event type, and
  -- the check of the log gives the same answer, wherever in the log the entry stands.
  pub verify_integrity-bar :
      (xs ys : List AuditEntry) (e : AuditEntry) (t a b last : String)
      → ((bar_in_actor e t a b).event_type ≢ (bar_in_type e t a b).event_type)
        × (verify_integrity h
              (record { entries = xs ++ bar_in_actor e t a b ∷ ys; last_checksum = last })
            ≡ verify_integrity h
                (record { entries = xs ++ bar_in_type e t a b ∷ ys; last_checksum = last }))
  unfolding verify_integrity
  verify_integrity-bar xs ys e t a b last = (
    λ same. absurd (omega (arith, ap size same, size-append t ("|" +++ a), size-append "|" a)),
    rw
        (
          check_from-bar 0 xs ys e t a b genesis,
          length-bar xs ys (bar_in_actor e t a b) (bar_in_type e t a b),
        )
        refl,
  )
