-- ===== src/Aggregator/Control.antt =====
-- src/main.rs:307-439: cancellation, the grace period and the silence timeout.
use orbshred.Prelude.{
  ℕ, zero, suc, max, ◌+◌, ◌≤◌, ◌<◌, ◌≡◌, ◌⊎◌, refl, ap, ◌∙◌, true, false, List, [], ◌∷◌, ltb, ◌==◌,
  arith, Bool-cases, inl, inr,
}
use orbshred.Registry.{Instant, Store}
use orbshred.Aggregator.{
  Run, Flags, range_end, within_range, on_shred_slot, on_entry_slot, Monitor, monitor_tick, Event,
  shred_msg, slot_msg, grpc_msg, closed, second, grace_over, stop, System, start_system, step,
  execute,
}
use orbshred.Aggregator.PastEnd.{NotYet, SomePastEnd, execute-NotYet}

-- The delayed cancellation is started once at most, and only by a message past the end: before it
-- nothing sleeps, and never more than one task does.
abbrev pub GraceOnce : Flags → Type 0
GraceOnce f = (f.graces ≤ 1) × (f.range_end_triggered ≡ false → f.graces ≡ 0)

range_end-GraceOnce : (c : Run) (f : Flags) → GraceOnce f → GraceOnce (range_end c f)
unfolding range_end
range_end-GraceOnce c f g = ground (arith, g.1)

within_range-GraceOnce :
    (c : Run) (n : ℕ) (f : Flags) → GraceOnce f → GraceOnce (within_range c n f).0
unfolding within_range
within_range-GraceOnce c n f g = ground (arith, g.1)

monitor_tick-GraceOnce :
    (c : Run) (f : Flags) (m : Monitor) → GraceOnce f → GraceOnce (monitor_tick c f m).0
unfolding monitor_tick
monitor_tick-GraceOnce c f m g = ground (arith, g.1)

-- The token is never reset by what the events leave of the flags.
abbrev Stays : Flags → Flags → Type 0
Stays f g = f.cancelled ≡ true → g.cancelled ≡ true

on_shred_slot-Stays : (c : Run) (n : ℕ) (f : Flags) → Stays f (on_shred_slot c n f).0
unfolding on_shred_slot
on_shred_slot-Stays c n f h = ground arith

on_entry_slot-Stays : (c : Run) (n : ℕ) (f : Flags) → Stays f (on_entry_slot c n f).0
unfolding on_entry_slot
on_entry_slot-Stays c n f h = ground arith

monitor_tick-Stays : (c : Run) (f : Flags) (m : Monitor) → Stays f (monitor_tick c f m).0
unfolding monitor_tick
monitor_tick-Stays c f m h = ground arith

-- `n` seconds of the monitor with no message in between.
unfoldable pub silence : Run → ℕ → Flags → Monitor → Flags × Monitor
silence c zero f m = (f, m)
silence c (suc n) f m = let (f', m') = monitor_tick c f m in silence c n f' m'

-- A silent second short of the timeout counts.
quiet_tick :
    (c : Run) (k : ℕ) (f : Flags)
    → f.activity ≡ false
    → f.cancelled ≡ false
    → k + 1 < c.silence_timeout_secs
    → monitor_tick c f (record { silent_secs = k; watching = true })
      ≡ (f, record { silent_secs = k + 1; watching = true })
unfolding monitor_tick
quiet_tick c k f a b h = ground arith

-- The silent second that reaches the timeout cancels.
last_tick :
    (c : Run) (k : ℕ) (f : Flags)
    → f.activity ≡ false
    → f.cancelled ≡ false
    → c.silence_timeout_secs ≤ k + 1
    → (monitor_tick c f (record { silent_secs = k; watching = true })).0.cancelled ≡ true
unfolding monitor_tick
last_tick c k f a b h = ground arith

silence-Stays : (c : Run) (n : ℕ) (f : Flags) (m : Monitor) → Stays f (silence c n f m).0
unfolding silence
silence-Stays c zero f m h = h
silence-Stays c (suc n) f m h =
    silence-Stays c n (monitor_tick c f m).0 (monitor_tick c f m).1 (monitor_tick-Stays c f m h)

silence_short :
    (c : Run) (n k : ℕ) (f : Flags)
    → f.activity ≡ false
    → f.cancelled ≡ false
    → k + n < max 1 c.silence_timeout_secs
    → (silence c n f (record { silent_secs = k; watching = true })).0.cancelled ≡ false
unfolding silence
silence_short c zero k f a b h = b
silence_short c (suc n) k f a b h =
    ap (λ (p : Flags × Monitor). (silence c n p.0 p.1).0.cancelled)
      (quiet_tick c k f a b (omega arith))
    ∙ silence_short c n (k + 1) f a b (omega arith)

silence_long :
    (c : Run) (n k : ℕ) (f : Flags)
    → f.activity ≡ false
    → f.cancelled ≡ false
    → k < max 1 c.silence_timeout_secs
    → max 1 c.silence_timeout_secs ≤ k + n
    → (silence c n f (record { silent_secs = k; watching = true })).0.cancelled ≡ true
unfolding silence
silence_long c zero k f a b h l = absurd (omega arith)
silence_long c (suc n) k f a b h l = elim (Bool-cases (ltb (k + 1) c.silence_timeout_secs)) [
  | inl more ↦
      ap (λ (p : Flags × Monitor). (silence c n p.0 p.1).0.cancelled)
        (quiet_tick c k f a b (ground arith))
      ∙ silence_long c n (k + 1) f a b (ground arith) (omega arith)
  | inr reached ↦
      let tick = monitor_tick c f (record { silent_secs = k; watching = true }) in
      silence-Stays c n tick.0 tick.1 (last_tick c k f a b (ground arith))
]

first_tick :
    (c : Run) (k : ℕ) (f : Flags)
    → f.activity ≡ true
    → f.cancelled ≡ false
    → monitor_tick c f (record { silent_secs = k; watching = true })
      ≡ (record f { activity = false }, record { silent_secs = 0; watching = true })
unfolding monitor_tick
first_tick c k f a b = ground arith

-- After the last activity the run goes on for exactly the timeout, where a timeout of 0 is one of 1:
-- if nothing arrives for `n` seconds of the monitor and nobody else cancels, the token is still clear
-- as long as `n` is at most the timeout, and it is set from the next second on.
pub silence_timeout :
    (c : Run) (n k : ℕ) (f : Flags)
    → f.activity ≡ true
    → f.cancelled ≡ false
    → let after_n = (silence c n f (record { silent_secs = k; watching = true })).0 in
      (n ≤ max 1 c.silence_timeout_secs → after_n.cancelled ≡ false)
      × (max 1 c.silence_timeout_secs < n → after_n.cancelled ≡ true)
unfolding silence
silence_timeout c zero k f a b = ((λ _. b), λ l. absurd (omega arith))
silence_timeout c (suc n) k f a b =
    let next =
      ap (λ (p : Flags × Monitor). (silence c n p.0 p.1).0.cancelled) (first_tick c k f a b) in
    (
      (λ l. next ∙ silence_short c n 0 (record f { activity = false }) refl b (omega arith)),
      λ l.
          next
          ∙ silence_long c n 0 (record f { activity = false }) refl b (omega arith) (omega arith),
    )

on_shred_slot-GraceOnce :
    (c : Run) (n : ℕ) (f : Flags) → GraceOnce f → GraceOnce (on_shred_slot c n f).0
unfolding on_shred_slot
on_shred_slot-GraceOnce c n f g = ground (arith, g.1)

on_entry_slot-GraceOnce :
    (c : Run) (n : ℕ) (f : Flags) → GraceOnce f → GraceOnce (on_entry_slot c n f).0
unfolding on_entry_slot
on_entry_slot-GraceOnce c n f g = ground (arith, g.1)

module _ (st : Store) (c : Run) where
  abbrev KeepsToken : System st → System st → Type 0
  KeepsToken s s' = Stays s.flags s'.flags × (GraceOnce s.flags → GraceOnce s'.flags)

  step-KeepsToken : (e : Event) (s : System st) → KeepsToken s (step st c e s)
  unfolding step
  step-KeepsToken (shred_msg e) s = elim (Bool-cases s.aggregating) [
    | inl on ↦
        rw on
          (on_shred_slot-Stays c e.key.slot s.flags, on_shred_slot-GraceOnce c e.key.slot s.flags)
    | inr off ↦ rw off ((λ h. h), λ g. g)
  ]
  step-KeepsToken (slot_msg e) s = elim (Bool-cases s.aggregating) [
    | inl on ↦
        rw on (on_entry_slot-Stays c e.slot s.flags, on_entry_slot-GraceOnce c e.slot s.flags)
    | inr off ↦ rw off ((λ h. h), λ g. g)
  ]
  step-KeepsToken (grpc_msg e) s = elim (Bool-cases s.aggregating) [
    | inl on ↦ rw on ((λ h. h), λ g. g)
    | inr off ↦ rw off ((λ h. h), λ g. g)
  ]
  step-KeepsToken closed s = ((λ h. h), λ g. g)
  step-KeepsToken second s =
      (monitor_tick-Stays c s.flags s.monitor, monitor_tick-GraceOnce c s.flags s.monitor)
  step-KeepsToken grace_over s = elim (Bool-cases (s.flags.graces == 0)) [
    | inl none_left ↦ rw none_left ((λ h. h), λ g. g)
    | inr sleeping ↦
        rw sleeping ((λ h. refl), λ g. (omega arith, λ e. let z = g.1 e in omega arith))
  ]
  step-KeepsToken stop s = ((λ h. refl), λ g. g)

  execute-KeepsToken : (es : List Event) (s : System st) → KeepsToken s (execute st c es s)
  unfolding execute
  execute-KeepsToken [] s = ((λ h. h), λ g. g)
  execute-KeepsToken (e ∷ es) s =
      let first = step-KeepsToken e s in
      let rest = execute-KeepsToken es (step st c e s) in
      ((λ h. rest.0 (first.0 h)), λ g. rest.1 (first.1 g))

  -- However the tasks are scheduled, at most one delayed cancellation is ever asleep; none was started
  -- unless the schedule has a shred or an entry event past the end slot; and a token that was
  -- cancelled at some point of the run stays so.
  pub execute-GraceOnce :
      (t : Instant) (es later : List Event)
      → let s = execute st c es (start_system st t) in
        GraceOnce s.flags
        × (NotYet s.flags ⊎ SomePastEnd c es)
        × (s.flags.cancelled ≡ true → (execute st c later s).flags.cancelled ≡ true)
  unfolding start_system
  execute-GraceOnce t es later = (
    (execute-KeepsToken es (start_system st t)).1 (omega arith, λ _. refl),
    execute-NotYet st c es (start_system st t) (refl, refl),
    (execute-KeepsToken later (execute st c es (start_system st t))).0,
  )
