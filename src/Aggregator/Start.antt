-- ===== src/Aggregator/Start.antt =====
-- src/main.rs:359-380: the test of the start slot.
use orbshred.Prelude.{◌<◌, ◌≡◌, refl, true, false, List, [], ◌∷◌, ◌++◌, arith, All}
use orbshred.Registry.{Instant, ShredEvent, Store, Registry, new}
use orbshred.Aggregator.{
  Run, Flags, Monitor, monitor_tick, Event, shred_msg, slot_msg, grpc_msg, closed, second,
  grace_over, stop, on_shred_slot, on_entry_slot, System, start_system, step, execute,
}

-- A shred or an entry event of a slot before the start slot, or a second of the monitor.
abbrev pub Early : Run → Event → Type 0
Early c (shred_msg e) = e.key.slot < c.start_slot
Early c (slot_msg e) = e.slot < c.start_slot
Early c second = Unit {0}
Early c (grpc_msg e) = ⊥
Early c closed = ⊥
Early c grace_over = ⊥
Early c stop = ⊥

monitor_tick-unchecked :
    (c : Run) (f : Flags) (m : Monitor)
    → f.start_slot_checked ≡ false
    → (monitor_tick c f m).0.start_slot_checked ≡ false
unfolding monitor_tick
monitor_tick-unchecked c f m h = ground (arith, h)

module _ (st : Store) (c : Run) where
  -- The aggregator receives and has not met the first shred of the range.
  Waiting : Registry st → System st → Type 0
  Waiting r s = (s.registry ≡ r) × (s.aggregating ≡ true) × (s.flags.start_slot_checked ≡ false)

  step-Waiting :
      (e : Event) (r : Registry st) (s : System st)
      → Early c e
      → Waiting r s
      → Waiting r (step st c e s)
  unfolding step on_shred_slot on_entry_slot Waiting
  step-Waiting (shred_msg e) r s h w = ground arith
  step-Waiting (slot_msg e) r s h w = ground arith
  step-Waiting second r s h w = (w.0, w.1, monitor_tick-unchecked c s.flags s.monitor w.2)
  step-Waiting (grpc_msg e) r s h w = absurd h
  step-Waiting closed r s h w = absurd h
  step-Waiting grace_over r s h w = absurd h
  step-Waiting stop r s h w = absurd h

  step_cancels :
      (e : ShredEvent) (r : Registry st) (s : System st)
      → c.start_slot_configured ≡ true
      → c.start_slot < e.key.slot
      → Waiting r s
      → ((step st c (shred_msg e) s).flags.cancelled ≡ true)
        × ((step st c (shred_msg e) s).registry ≡ r)
  unfolding step on_shred_slot Waiting
  step_cancels e r s on h w = ground arith

  execute_cancels :
      (es : List Event) (e : ShredEvent) (r : Registry st) (s : System st)
      → c.start_slot_configured ≡ true
      → All (Early c) es
      → c.start_slot < e.key.slot
      → Waiting r s
      → ((execute st c (es ++ (shred_msg e ∷ [])) s).flags.cancelled ≡ true)
        × ((execute st c (es ++ (shred_msg e ∷ [])) s).registry ≡ r)
  unfolding execute
  execute_cancels [] e r s on a h w = step_cancels e r s on h w
  execute_cancels (d ∷ es) e r s on (a, b) h w =
      execute_cancels es e r _ on b h (step-Waiting d r s a w)

  -- A shred past a configured start slot cancels the run, with nothing recorded, if all that was
  -- received before it are shreds and entry events of slots before the start slot, in any number and
  -- with seconds of the monitor in between: so does a run that was started in time end.
  pub late_start-cancels :
      (es : List Event) (e : ShredEvent) (t : Instant)
      → c.start_slot_configured ≡ true
      → All (Early c) es
      → c.start_slot < e.key.slot
      → ((execute st c (es ++ (shred_msg e ∷ [])) (start_system st t)).flags.cancelled ≡ true)
        × ((execute st c (es ++ (shred_msg e ∷ [])) (start_system st t)).registry ≡ new st t)
  unfolding start_system Waiting
  late_start-cancels es e t on a h =
      execute_cancels es e (new st t) (start_system st t) on a h (refl, refl, refl)
