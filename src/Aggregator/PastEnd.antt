-- ===== src/Aggregator/PastEnd.antt =====
-- src/main.rs:307-439: what starts the delayed cancellation.
use orbshred.Prelude.{
  ℕ, ◌<◌, ◌≡◌, ◌⊎◌, true, false, List, [], ◌∷◌, ltb, ◌==◌, arith, Bool-cases, inl, inr,
}
use orbshred.Registry.{Store}
use orbshred.Aggregator.{
  Run, Flags, within_range, on_shred_slot, on_entry_slot, Monitor, monitor_tick, Event, shred_msg,
  slot_msg, grpc_msg, closed, second, grace_over, stop, System, step, execute,
}

-- No delayed cancellation was started.
abbrev pub NotYet : Flags → Type 0
NotYet f = (f.range_end_triggered ≡ false) × (f.graces ≡ 0)

-- A shred or an entry event of a slot past the end slot.
abbrev pub PastEnd : Run → Event → Type 0
PastEnd c (shred_msg e) = c.end_slot < e.key.slot
PastEnd c (slot_msg e) = c.end_slot < e.slot
PastEnd c (grpc_msg e) = ⊥
PastEnd c closed = ⊥
PastEnd c second = ⊥
PastEnd c grace_over = ⊥
PastEnd c stop = ⊥

abbrev pub SomePastEnd : Run → List Event → Type 0
SomePastEnd c [] = ⊥
SomePastEnd c (e ∷ es) = PastEnd c e ⊎ SomePastEnd c es

on_shred_slot-NotYet :
    (c : Run) (n : ℕ) (f : Flags) → NotYet f → NotYet (on_shred_slot c n f).0 ⊎ (c.end_slot < n)
unfolding on_shred_slot within_range
on_shred_slot-NotYet c n f h = elim (Bool-cases (ltb c.end_slot n)) [
  | inl past ↦ inr (ground (arith, past))
  | inr before ↦ inl (ground (arith, before, h))
]

on_entry_slot-NotYet :
    (c : Run) (n : ℕ) (f : Flags) → NotYet f → NotYet (on_entry_slot c n f).0 ⊎ (c.end_slot < n)
unfolding on_entry_slot within_range
on_entry_slot-NotYet c n f h = elim (Bool-cases (ltb c.end_slot n)) [
  | inl past ↦ inr (ground (arith, past))
  | inr before ↦ inl (ground (arith, before, h))
]

monitor_tick-NotYet : (c : Run) (f : Flags) (m : Monitor) → NotYet f → NotYet (monitor_tick c f m).0
unfolding monitor_tick
monitor_tick-NotYet c f m h = ground (arith, h)

module _ (st : Store) (c : Run) where
  step-NotYet :
      (e : Event) (s : System st) → NotYet s.flags → NotYet (step st c e s).flags ⊎ PastEnd c e
  unfolding step
  step-NotYet (shred_msg e) s h = elim (Bool-cases s.aggregating) [
    | inl on ↦ rw on (on_shred_slot-NotYet c e.key.slot s.flags h)
    | inr off ↦ rw off (inl h)
  ]
  step-NotYet (slot_msg e) s h = elim (Bool-cases s.aggregating) [
    | inl on ↦ rw on (on_entry_slot-NotYet c e.slot s.flags h)
    | inr off ↦ rw off (inl h)
  ]
  step-NotYet (grpc_msg e) s h = elim (Bool-cases s.aggregating) [
    | inl on ↦ rw on (inl h)
    | inr off ↦ rw off (inl h)
  ]
  step-NotYet closed s h = inl h
  step-NotYet second s h = inl (monitor_tick-NotYet c s.flags s.monitor h)
  step-NotYet grace_over s h =
      let none_left : (s.flags.graces == 0) ≡ true = ground (arith, h.1) in rw none_left (inl h)
  step-NotYet stop s h = inl h

  pub execute-NotYet :
      (es : List Event) (s : System st)
      → NotYet s.flags
      → NotYet (execute st c es s).flags ⊎ SomePastEnd c es
  unfolding execute
  execute-NotYet [] s h = inl h
  execute-NotYet (e ∷ es) s h = elim (step-NotYet e s h) [
    | inr past ↦ inr (inl past)
    | inl same ↦ elim (execute-NotYet es (step st c e s) same) [
      | inl kept ↦ inl kept
      | inr past ↦ inr (inr past)
    ]
  ]
