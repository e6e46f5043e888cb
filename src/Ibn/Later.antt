-- ===== src/Ibn/Later.antt =====
-- Intents of server/ibn_engine.py and what they may become.
use pathwiseai.Prelude.{
  ◌≡◌, refl, sym, ◌∙◌, String, true, some, List, [], ◌∷◌, ◌++◌, find, arith, Bool-cases, inl, inr,
}
use pathwiseai.Ibn.Defs.{IntentStatus, NetworkIntent}
use pathwiseai.Ibn.Check.{with_status}
use pathwiseai.Ibn.Store.{is_deleted, has_id, change_first}

-- The same intent later: if it was deleted it still is.
pub record IsLater (i j : NetworkIntent) : Type 0 where
  pub same_id : i.id ≡ j.id
  pub stays : is_deleted i.status ≡ true → is_deleted j.status ≡ true

-- Each intent of the first list has its later form at the same place of the second.
abbrev pub AreLater : List NetworkIntent → List NetworkIntent → Type 0
AreLater [] js = Unit
AreLater (i ∷ is) [] = ⊥
AreLater (i ∷ is) (j ∷ js) = IsLater i j × AreLater is js

pub IsLater-refl : (i : NetworkIntent) → IsLater i i
IsLater-refl i = record { same_id = refl; stays = λ h. h }

pub AreLater-refl : (is : List NetworkIntent) → AreLater is is
AreLater-refl [] = tt
AreLater-refl (i ∷ is) = (IsLater-refl i, AreLater-refl is)

pub AreLater-trans :
    (is js ks : List NetworkIntent) → AreLater is js → AreLater js ks → AreLater is ks
AreLater-trans [] js ks h h' = tt
AreLater-trans (i ∷ is) [] ks h h' = absurd h
AreLater-trans (i ∷ is) (j ∷ js) [] h h' = absurd h'
AreLater-trans (i ∷ is) (j ∷ js) (k ∷ ks) (h, hs) (h', hs') = (
  record { same_id = h.same_id ∙ h'.same_id; stays = λ d. h'.stays (h.stays d) },
  AreLater-trans is js ks hs hs',
)

pub AreLater-append : (is js : List NetworkIntent) → AreLater is (is ++ js)
AreLater-append [] js = tt
AreLater-append (i ∷ is) js = (IsLater-refl i, AreLater-append is js)

-- The intent that is found may get a status if that is deleted or the intent was not.
pub AreLater-change :
    (id : String) (status : IntentStatus) (is : List NetworkIntent) (i : NetworkIntent)
    → find (has_id id) is ≡ some i
    → (is_deleted i.status ≡ true → is_deleted status ≡ true)
    → AreLater is (change_first id (with_status status) is)
unfolding change_first
AreLater-change id status [] i found h = tt
AreLater-change id status (j ∷ js) i found h = elim (Bool-cases (has_id id j)) [
  | inl hit ↦
      let same : j ≡ i = ground arith in
      rw hit (record { same_id = refl; stays = λ d. h (rw (sym same) d) }, AreLater-refl js)
  | inr miss ↦ rw miss (IsLater-refl j, AreLater-change id status js i (rw miss at found) h)
]
