-- ===== src/Aggregator/Calls.antt =====
-- src/main.rs:347-439: the calls that a schedule makes, apart from the state of the other tasks.
use orbshred.Prelude.{
  ℕ, ◌≡◌, refl, ap, Bool, true, false, not, ◌&&◌, List, [], ◌∷◌, leb, ◌==◌, if◌then◌else◌, arith,
  Bool-cases, inl, inr,
}
use orbshred.Registry.{
  Instant, ShredEvent, SlotEvent, GrpcLatencyEvent, Store, Registry, RegistryOp, shred, slot, grpc,
  apply, after,
}
use orbshred.Aggregator.{
  Run, leads, Flags, Monitor, monitor_tick, on_shred_slot, on_entry_slot, Event, shred_msg,
  slot_msg, grpc_msg, closed, second, grace_over, stop, System, start_system, step, execute,
}

-- The test of a slot alone, without the state.
unfoldable pub admits : Run → ℕ → Bool
admits c n = leb c.start_slot n && leb n c.end_slot && leads c n

-- The calls that a schedule makes, newest first, on top of older ones: every admitted message up to
-- the closing of a channel.
unfoldable pub calls : Run → List Event → List RegistryOp → List RegistryOp
unfolding admits
calls c [] older = older
calls c (shred_msg e ∷ es) older =
    calls c es (if admits c e.key.slot then shred e ∷ older else older)
calls c (slot_msg e ∷ es) older = calls c es (if admits c e.slot then slot e ∷ older else older)
calls c (grpc_msg e ∷ es) older = calls c es (grpc e ∷ older)
calls c (closed ∷ es) older = older
calls c (second ∷ es) older = calls c es older
calls c (grace_over ∷ es) older = calls c es older
calls c (stop ∷ es) older = calls c es older

-- No message can be the one that shows the start slot to be in the past.
abbrev pub NoStartCheck : Run → Flags → Type 0
NoStartCheck c f = (c.start_slot_configured && not f.start_slot_checked) ≡ false

on_shred_slot-admits :
    (c : Run) (n : ℕ) (f : Flags)
    → NoStartCheck c f
    → ((on_shred_slot c n f).1 ≡ admits c n) × NoStartCheck c (on_shred_slot c n f).0
unfolding on_shred_slot admits
on_shred_slot-admits c n f h = (ground arith, ground arith)

on_entry_slot-admits :
    (c : Run) (n : ℕ) (f : Flags)
    → NoStartCheck c f
    → ((on_entry_slot c n f).1 ≡ admits c n) × NoStartCheck c (on_entry_slot c n f).0
unfolding on_entry_slot admits
on_entry_slot-admits c n f h = (ground arith, ground arith)

monitor-NoStartCheck :
    (c : Run) (f : Flags) (m : Monitor) → NoStartCheck c f → NoStartCheck c (monitor_tick c f m).0
unfolding monitor_tick
monitor-NoStartCheck c f m h = ground arith

module _ (st : Store) (c : Run) (t : Instant) where
  abbrev pub Left : Registry st → System st → Type 0
  Left r s = (s.registry ≡ r) × (s.aggregating ≡ false)

  pub step-Left : (e : Event) (r : Registry st) (s : System st) → Left r s → Left r (step st c e s)
  unfolding step
  step-Left (shred_msg e) r s (h, off) = rw off (h, refl)
  step-Left (slot_msg e) r s (h, off) = rw off (h, refl)
  step-Left (grpc_msg e) r s (h, off) = rw off (h, refl)
  step-Left closed r s l = (l.0, refl)
  step-Left second r s l = l
  step-Left grace_over r s l = elim (Bool-cases (s.flags.graces == 0)) [
    | inl e ↦ rw e l
    | inr e ↦ rw e l
  ]
  step-Left stop r s l = l

  execute-Left :
      (es : List Event) (r : Registry st) (s : System st)
      → Left r s
      → (execute st c es s).registry ≡ r
  unfolding execute
  execute-Left [] r s l = l.0
  execute-Left (e ∷ es) r s l = execute-Left es r (step st c e s) (step-Left e r s l)

  -- The aggregator receives, and the registry is that of the calls so far.
  abbrev pub Going : List RegistryOp → System st → Type 0
  Going older s = (s.aggregating ≡ true) × (s.registry ≡ after st t older) × NoStartCheck c s.flags

  put_if :
      (b d : Bool) (op : RegistryOp) (older : List RegistryOp) (r : Registry st)
      → b ≡ d
      → r ≡ after st t older
      → (if b then apply st op r else r) ≡ after st t (if d then op ∷ older else older)
  unfolding after
  put_if b true op older r e h = rw e (ap (apply st op) h)
  put_if b false op older r e h = rw e h

  pub step_shred-Going :
      (e : ShredEvent) (older : List RegistryOp) (s : System st)
      → Going older s
      → Going (if admits c e.key.slot then shred e ∷ older else older) (step st c (shred_msg e) s)
  unfolding step apply
  step_shred-Going e older s (on, h, n) =
      let (same, n1) = on_shred_slot-admits c e.key.slot s.flags n in
      rw on (
        refl,
        put_if (on_shred_slot c e.key.slot s.flags).1 _ (shred e) older s.registry same h,
        n1,
      )

  pub step_slot-Going :
      (e : SlotEvent) (older : List RegistryOp) (s : System st)
      → Going older s
      → Going (if admits c e.slot then slot e ∷ older else older) (step st c (slot_msg e) s)
  unfolding step apply
  step_slot-Going e older s (on, h, n) =
      let (same, n1) = on_entry_slot-admits c e.slot s.flags n in
      rw on (refl, put_if (on_entry_slot c e.slot s.flags).1 _ (slot e) older s.registry same h, n1)

  pub step_grpc-Going :
      (e : GrpcLatencyEvent) (older : List RegistryOp) (s : System st)
      → Going older s
      → Going (grpc e ∷ older) (step st c (grpc_msg e) s)
  unfolding step apply
  step_grpc-Going e older s (on, h, n) =
      rw on (refl, put_if true true (grpc e) older s.registry refl h, n)

  -- The other tasks do not touch the registry.
  abbrev pub Stays : List RegistryOp → System st → Type 0
  Stays older s = (s.registry ≡ after st t older) × NoStartCheck c s.flags

  pub step_tick-Stays :
      (older : List RegistryOp) (s : System st) → Stays older s → Stays older (step st c second s)
  unfolding step
  step_tick-Stays older s (h, n) = (h, monitor-NoStartCheck c s.flags s.monitor n)

  pub step_grace-Stays :
      (older : List RegistryOp) (s : System st)
      → Stays older s
      → Stays older (step st c grace_over s)
  unfolding step
  step_grace-Stays older s l = elim (Bool-cases (s.flags.graces == 0)) [
    | inl e ↦ rw e l
    | inr e ↦ rw e l
  ]

  execute-Going :
      (es : List Event) (older : List RegistryOp) (s : System st)
      → Going older s
      → (execute st c es s).registry ≡ after st t (calls c es older)
  unfolding execute step calls
  execute-Going [] older s g = g.1
  execute-Going (shred_msg e ∷ es) older s g = execute-Going es _ _ (step_shred-Going e older s g)
  execute-Going (slot_msg e ∷ es) older s g = execute-Going es _ _ (step_slot-Going e older s g)
  execute-Going (grpc_msg e ∷ es) older s g = execute-Going es _ _ (step_grpc-Going e older s g)
  execute-Going (closed ∷ es) older s (on, h, n) = execute-Left es _ _ (h, refl)
  execute-Going (second ∷ es) older s (on, h, n) =
      execute-Going es _ _ (on, h, monitor-NoStartCheck c s.flags s.monitor n)
  execute-Going (grace_over ∷ es) older s (on, h, n) =
      execute-Going es _ _ (elim (Bool-cases (s.flags.graces == 0)) [
        | inl e ↦ rw e (on, h, n)
        | inr e ↦ rw e (on, h, n)
      ])
  execute-Going (stop ∷ es) older s (on, h, n) = execute-Going es _ _ (on, h, n)

  -- Where no start slot is configured, the registry after a schedule is that of exactly the messages
  -- received before a channel closed whose slot is in range and the leader's, in their order: what
  -- the other tasks do and when never changes which messages count.
  pub execute-calls :
      (es : List Event)
      → c.start_slot_configured ≡ false
      → (execute st c es (start_system st t)).registry ≡ after st t (calls c es [])
  unfolding start_system after
  execute-calls es h = execute-Going es [] (start_system st t) (refl, refl, rw h refl)
