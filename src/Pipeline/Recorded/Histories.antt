-- ===== src/Pipeline/Recorded/Histories.antt =====
-- The calls of each kind in the registry's history, and what one more call changes.
use orbshred.Prelude.{
  ◌≡◌, refl, sym, Bool, true, false, List, [], ◌∷◌, ◌++◌, if◌then◌else◌, Bool-cases, inl, inr,
  arith,
}
use orbshred.Registry.{ShredEvent, SlotEvent, GrpcLatencyEvent, RegistryOp, shred, slot, grpc}
use orbshred.Aggregator.{Run}
use orbshred.Aggregator.Calls.{admits}

-- The elements that pass a test.
unfoldable pub keep_if : {E : Type 0} → (E → Bool) → List E → List E
keep_if p [] = []
keep_if p (e ∷ es) = if p e then e ∷ keep_if p es else keep_if p es

keep_if-snoc :
    {E : Type 0} (p : E → Bool) (es : List E) (e : E)
    → keep_if p (es ++ (e ∷ [])) ≡ (if p e then keep_if p es ++ (e ∷ []) else keep_if p es)
unfolding keep_if
keep_if-snoc p [] e = ground arith
keep_if-snoc p (x ∷ es) e = ground (arith, keep_if-snoc p es e)

-- The calls of each kind in a history, oldest first.
unfoldable pub shreds_in : List RegistryOp → List ShredEvent
shreds_in [] = []
shreds_in (shred e ∷ older) = shreds_in older ++ (e ∷ [])
shreds_in (slot e ∷ older) = shreds_in older
shreds_in (grpc e ∷ older) = shreds_in older

unfoldable pub slots_in : List RegistryOp → List SlotEvent
slots_in [] = []
slots_in (shred e ∷ older) = slots_in older
slots_in (slot e ∷ older) = slots_in older ++ (e ∷ [])
slots_in (grpc e ∷ older) = slots_in older

unfoldable pub grpcs_in : List RegistryOp → List GrpcLatencyEvent
grpcs_in [] = []
grpcs_in (shred e ∷ older) = grpcs_in older
grpcs_in (slot e ∷ older) = grpcs_in older
grpcs_in (grpc e ∷ older) = grpcs_in older ++ (e ∷ [])

abbrev pub admits_shred : Run → ShredEvent → Bool
admits_shred c e = admits c e.key.slot

abbrev pub admits_slot : Run → SlotEvent → Bool
admits_slot c e = admits c e.slot

module _ (c : Run) where
  pub put_shred-in :
      (e : ShredEvent) (h : List RegistryOp) (l : List ShredEvent)
      → shreds_in h ≡ keep_if (admits_shred c) l
      → shreds_in (if admits c e.key.slot then shred e ∷ h else h)
        ≡ keep_if (admits_shred c) (l ++ (e ∷ []))
  unfolding shreds_in
  put_shred-in e h l q = elim (Bool-cases (admits c e.key.slot)) [
    | inl a ↦ rw (a, q) (sym (rw (keep_if-snoc (admits_shred c) l e, a) refl))
    | inr a ↦ rw (a, q) (sym (rw (keep_if-snoc (admits_shred c) l e, a) refl))
  ]

  -- The other equation that a call which is made under a test leaves.
  pub put_shred-slots :
      (b : Bool) (e : ShredEvent) (h : List RegistryOp)
      → (slots_in (if b then shred e ∷ h else h) ≡ slots_in h)
        × (grpcs_in (if b then shred e ∷ h else h) ≡ grpcs_in h)
  unfolding slots_in grpcs_in
  put_shred-slots true e h = (refl, refl)
  put_shred-slots false e h = (refl, refl)

  pub put_slot-in :
      (e : SlotEvent) (h : List RegistryOp) (l : List SlotEvent)
      → slots_in h ≡ keep_if (admits_slot c) l
      → slots_in (if admits c e.slot then slot e ∷ h else h)
        ≡ keep_if (admits_slot c) (l ++ (e ∷ []))
  unfolding slots_in
  put_slot-in e h l q = elim (Bool-cases (admits c e.slot)) [
    | inl a ↦ rw (a, q) (sym (rw (keep_if-snoc (admits_slot c) l e, a) refl))
    | inr a ↦ rw (a, q) (sym (rw (keep_if-snoc (admits_slot c) l e, a) refl))
  ]

  pub put_slot-shreds :
      (b : Bool) (e : SlotEvent) (h : List RegistryOp)
      → (shreds_in (if b then slot e ∷ h else h) ≡ shreds_in h)
        × (grpcs_in (if b then slot e ∷ h else h) ≡ grpcs_in h)
  unfolding shreds_in grpcs_in
  put_slot-shreds true e h = (refl, refl)
  put_slot-shreds false e h = (refl, refl)
