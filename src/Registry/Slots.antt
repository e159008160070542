-- ===== src/Registry/Slots.antt =====
-- src/registry.rs: the slot records after a history of calls, newest first.
use Prim.Native.Nat.{min}
use native.Mathlib.Decide.{ℕ_discrete}
use orbshred.Prelude.{
  ℕ, suc, max, ◌≤◌, ◌≡◌, refl, sym, subst, ◌∙◌, ◌⊎◌, inl, inr, Option, none, some, List, [], ◌∷◌,
  ◌&&◌, arith, ltb, ◌==◌, if◌then◌else◌, Bool-cases, ==_self,
}
use orbshred.DashMap.{DashMap, modify_or, lookup_by}
use orbshred.Registry.{
  SourceId, Instant, GrpcLatencyEvent, same_id, ShredEvent, SlotEvent, SlotRecord, Store, new,
  record_grpc_latency, shrink_first, slot_of_shred, note_arrival, note_entry, slot_of_entry,
  record_shred, record_slot_event, RegistryOp, shred, slot, grpc, apply, after,
}

-- The slot that a call is about, if it is about one.
abbrev pub Touches : ℕ → RegistryOp → Type 0
Touches k (shred e) = e.key.slot ≡ k
Touches k (slot e) = e.slot ≡ k
Touches k (grpc e) = ⊥

-- No call was about the slot.
abbrev pub Untouched : ℕ → List RegistryOp → Type 0
Untouched k [] = Unit {0}
Untouched k (op ∷ older) = (¬ Touches k op) × Untouched k older

-- Each shred of the slot came at `t` or later.
abbrev pub ShredsFrom : ℕ → Instant → List RegistryOp → Type 0
ShredsFrom k t [] = Unit {0}
ShredsFrom k t (shred e ∷ older) = (e.key.slot ≡ k → t ≤ e.received_at) × ShredsFrom k t older
ShredsFrom k t (slot e ∷ older) = ShredsFrom k t older
ShredsFrom k t (grpc e ∷ older) = ShredsFrom k t older

-- `t` is the time of a shred of the slot, or of the slot event that was the first call about it.
abbrev pub TimeOf : ℕ → Instant → List RegistryOp → Type 0
TimeOf k t [] = ⊥
TimeOf k t (shred e ∷ older) = ((e.key.slot ≡ k) × (e.received_at ≡ t)) ⊎ TimeOf k t older
TimeOf k t (slot e ∷ older) =
    ((e.slot ≡ k) × (e.received_at ≡ t) × Untouched k older) ⊎ TimeOf k t older
TimeOf k t (grpc e ∷ older) = TimeOf k t older

ShredsFrom-mono :
    (k t u : ℕ) (ops : List RegistryOp) → t ≤ u → ShredsFrom k u ops → ShredsFrom k t ops
ShredsFrom-mono k t u [] h f = tt
ShredsFrom-mono k t u (shred e ∷ older) h f =
    ((λ q. let v = f.0 q in omega arith), ShredsFrom-mono k t u older h f.1)
ShredsFrom-mono k t u (slot e ∷ older) h f = ShredsFrom-mono k t u older h f
ShredsFrom-mono k t u (grpc e ∷ older) h f = ShredsFrom-mono k t u older h f

ShredsFrom-Untouched : (k t : ℕ) (ops : List RegistryOp) → Untouched k ops → ShredsFrom k t ops
ShredsFrom-Untouched k t [] u = tt
ShredsFrom-Untouched k t (shred e ∷ older) u =
    ((λ q. absurd (u.0 q)), ShredsFrom-Untouched k t older u.1)
ShredsFrom-Untouched k t (slot e ∷ older) u = ShredsFrom-Untouched k t older u.1
ShredsFrom-Untouched k t (grpc e ∷ older) u = ShredsFrom-Untouched k t older u.1

-- The lowest time of the source's events for the slot.
unfoldable pub entry_time : SourceId → ℕ → List RegistryOp → Option Instant
entry_time s k [] = none
entry_time s k (shred e ∷ older) = entry_time s k older
entry_time s k (grpc e ∷ older) = entry_time s k older
entry_time s k (slot e ∷ older) =
    if e.slot == k && e.source == s
    then some (modify_or (λ t. min e.received_at t) e.received_at (entry_time s k older))
    else entry_time s k older

-- How many arrivals of the source there are.
unfoldable pub arrivals_of : SourceId → List (SourceId × Instant) → ℕ
arrivals_of s [] = 0
arrivals_of s ((r, t) ∷ rest) = if r == s then suc (arrivals_of s rest) else arrivals_of s rest

-- What a slot's record says of the history.
abbrev pub SlotMatches : ℕ → List RegistryOp → Option SlotRecord → Type 0
SlotMatches k ops none = Untouched k ops
SlotMatches k ops (some rec) =
    ShredsFrom k rec.first_shred_at ops
    × TimeOf k rec.first_shred_at ops
    × ((s : SourceId) → lookup_by same_id s rec.entry_arrivals ≡ entry_time s k ops)
    × ((s : SourceId) → arrivals_of s rec.entry_arrivals ≤ 1)

entry_time-Untouched :
    (s k : ℕ) (ops : List RegistryOp) → Untouched k ops → entry_time s k ops ≡ none
unfolding entry_time
entry_time-Untouched s k [] u = refl
entry_time-Untouched s k (shred e ∷ older) u = entry_time-Untouched s k older u.1
entry_time-Untouched s k (grpc e ∷ older) u = entry_time-Untouched s k older u.1
entry_time-Untouched s k (slot e ∷ older) u = ground (arith, entry_time-Untouched s k older u.1)

pub lookup_by-note_arrival :
    (s src t : ℕ) (l : List (SourceId × Instant))
    → lookup_by same_id s (note_arrival src t l) ≡ (
        if src == s
        then some (modify_or (λ u. min t u) t (lookup_by same_id s l))
        else lookup_by same_id s l)
unfolding note_arrival
lookup_by-note_arrival s src t [] = refl
lookup_by-note_arrival s src t ((r, u) ∷ rest) = ground (arith, lookup_by-note_arrival s src t rest)

arrivals_of-note_arrival :
    (s src t : ℕ) (l : List (SourceId × Instant))
    → arrivals_of s (note_arrival src t l)
      ≡ (if src == s then max 1 (arrivals_of s l) else arrivals_of s l)
unfolding note_arrival arrivals_of
arrivals_of-note_arrival s src t [] = ground arith
arrivals_of-note_arrival s src t ((r, u) ∷ rest) =
    ground (arith, arrivals_of-note_arrival s src t rest)

shred_hit :
    (k : ℕ) (e : ShredEvent) (older : List RegistryOp) (o : Option SlotRecord)
    → e.key.slot ≡ k
    → SlotMatches k older o
    → SlotMatches k (shred e ∷ older) (some (modify_or (shrink_first e) (slot_of_shred e) o))
unfolding shrink_first slot_of_shred entry_time arrivals_of
shred_hit k e older none q m = (
  ((λ _. omega arith), ShredsFrom-Untouched k e.received_at older m),
  inl (q, refl),
  (λ s. ground (arith, entry_time-Untouched s k older m)),
  λ s. ground arith,
)
shred_hit k e older (some rec) q m = elim (Bool-cases (ltb e.received_at rec.first_shred_at)) [
  | inl lower ↦
      let lowered : shrink_first e rec ≡ record rec { first_shred_at = e.received_at } = rw lower in
      subst (λ r. SlotMatches k (shred e ∷ older) (some r)) (sym lowered)
        (
          (
            (λ _. omega arith),
            ShredsFrom-mono k e.received_at rec.first_shred_at older (ground arith) m.0,
          ),
          inl (q, refl),
          m.2,
          m.3,
        )
  | inr higher ↦
      let kept : shrink_first e rec ≡ rec = rw higher in
      subst (λ r. SlotMatches k (shred e ∷ older) (some r)) (sym kept)
        (((λ _. ground arith), m.0), inr m.1, m.2, m.3)
]

shred_miss :
    (k : ℕ) (e : ShredEvent) (older : List RegistryOp) (o : Option SlotRecord)
    → ¬ (e.key.slot ≡ k)
    → SlotMatches k older o
    → SlotMatches k (shred e ∷ older) o
unfolding entry_time
shred_miss k e older none q m = (q, m)
shred_miss k e older (some rec) q m = (((λ c. absurd (q c)), m.0), inr m.1, m.2, m.3)

slot_hit :
    (k : ℕ) (e : SlotEvent) (older : List RegistryOp) (o : Option SlotRecord)
    → e.slot ≡ k
    → SlotMatches k older o
    → SlotMatches k (slot e ∷ older) (some (modify_or (note_entry e) (slot_of_entry e) o))
unfolding note_entry slot_of_entry entry_time arrivals_of
slot_hit k e older none q m = (
  ShredsFrom-Untouched k e.received_at older m,
  inl (q, refl, m),
  (λ s. ground (arith, entry_time-Untouched s k older m)),
  λ s. ground arith,
)
slot_hit k e older (some rec) q m = (
  m.0,
  inr m.1,
  (λ s. ground (arith, lookup_by-note_arrival s e.source e.received_at rec.entry_arrivals, m.2 s)),
  λ s. ground (arith, arrivals_of-note_arrival s e.source e.received_at rec.entry_arrivals, m.3 s),
)

slot_miss :
    (k : ℕ) (e : SlotEvent) (older : List RegistryOp) (o : Option SlotRecord)
    → ¬ (e.slot ≡ k)
    → SlotMatches k older o
    → SlotMatches k (slot e ∷ older) o
unfolding entry_time
slot_miss k e older none q m = (q, m)
slot_miss k e older (some rec) q m = (m.0, inr m.1, (λ s. ground (arith, m.2 s)), m.3)

grpc_skip :
    (k : ℕ) (e : GrpcLatencyEvent) (older : List RegistryOp) (o : Option SlotRecord)
    → SlotMatches k older o
    → SlotMatches k (grpc e ∷ older) o
unfolding entry_time
grpc_skip k e older none m = ((λ c. c), m)
grpc_skip k e older (some rec) m = m

module _ {V : Type 0} (m : DashMap ℕ V same_id) (j k : ℕ) (f : V → V) (v : V) (t : m.Map) where
  get_hit : j ≡ k → m.get k (m.upsert j f v t) ≡ some (modify_or f v (m.get k t))
  get_hit e =
      subst (λ i. m.get i (m.upsert j f v t) ≡ some (modify_or f v (m.get i t))) e
        (m.get-upsert j j f v t ∙ rw (==_self j))

  get_miss : ¬ (j ≡ k) → m.get k (m.upsert j f v t) ≡ m.get k t
  get_miss e = m.get-upsert j k f v t ∙ ground arith

module _ (st : Store) (start : Instant) where
  open st use {slot_map}

  -- After any history: a slot has no record exactly when no call was about it. Otherwise its first
  -- shred time is at most the time of every shred of the slot, and is the time of one of them or of
  -- the slot event that opened the record; and each entry-level source has the lowest of its times for
  -- the slot as its arrival, or none if it had no call for it, and never a second arrival.
  pub slots-after :
      (ops : List RegistryOp) (k : ℕ)
      → SlotMatches k ops (slot_map.get k (after st start ops).slots)
  unfolding after apply new record_shred record_slot_event record_grpc_latency
  slots-after [] k = rw (slot_map.get-empty k) tt
  slots-after (shred e ∷ older) k = elim (ℕ_discrete e.key.slot k) [
    | yes hit ↦
        rw (get_hit slot_map e.key.slot k (shrink_first e) (slot_of_shred e) _ hit)
          (shred_hit k e older _ hit (slots-after older k))
    | no miss ↦
        rw (get_miss slot_map e.key.slot k (shrink_first e) (slot_of_shred e) _ miss)
          (shred_miss k e older _ miss (slots-after older k))
  ]
  slots-after (slot e ∷ older) k = elim (ℕ_discrete e.slot k) [
    | yes hit ↦
        rw (get_hit slot_map e.slot k (note_entry e) (slot_of_entry e) _ hit)
          (slot_hit k e older _ hit (slots-after older k))
    | no miss ↦
        rw (get_miss slot_map e.slot k (note_entry e) (slot_of_entry e) _ miss)
          (slot_miss k e older _ miss (slots-after older k))
  ]
  slots-after (grpc e ∷ older) k = grpc_skip k e older _ (slots-after older k)
