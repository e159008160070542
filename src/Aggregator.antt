-- ===== src/Aggregator.antt =====
-- src/main.rs:105-109 and 307-439: the run's bounds, the event aggregator, the silence monitor and
-- the delayed cancellation, as one system.
-- The tasks share the activity flag and the cancellation token. A message and a second of the monitor
-- are one step each, so an execution is a list of events: the order in which tokio runs the tasks.
pub mod Recorded
pub mod PastEnd
pub mod Control
pub mod Calls
pub mod Start
use orbshred.Prelude.{
  ℕ, zero, suc, ◌+◌, ◌-◌, ◌^◌, ◌≡◌, Bool, true, false, not, ◌&&◌, ◌||◌, Option, none, some, List,
  [], ◌∷◌, ltb, leb, ◌==◌, if◌then◌else◌,
}
use orbshred.Registry.{
  Instant, ShredEvent, SlotEvent, GrpcLatencyEvent, Store, Registry, new, record_shred,
  record_slot_event, record_grpc_latency,
}

-- What `main` takes from the configuration before the run.
pub record Run : Type 0 where
  pub slot_range_mode : Bool
  pub start_slot_configured : Bool
  pub start_slot : ℕ
  pub end_slot : ℕ
  pub leader_slots : Option (List ℕ)
  pub silence_timeout_secs : ℕ

abbrev is_some {ℓ} : {A : Type ℓ} → Option A → Bool
is_some none = false
is_some (some a) = true

abbrev unwrap_or : Option ℕ → ℕ → ℕ
unwrap_or none d = d
unwrap_or (some n) d = n

-- `start_slot` and `end_slot` of the configuration, the leader's slots and the timeout.
unfoldable pub run_of : Option ℕ → Option ℕ → Option (List ℕ) → ℕ → Run
run_of start end_ leader timeout = record {
  slot_range_mode = is_some start || is_some end_;
  start_slot_configured = is_some start;
  start_slot = unwrap_or start 0;
  end_slot = unwrap_or end_ (2 ^ 64 - 1);
  leader_slots = leader;
  silence_timeout_secs = timeout;
}

-- `HashSet::contains`
unfoldable pub contains : ℕ → List ℕ → Bool
contains n [] = false
contains n (x ∷ xs) = x == n || contains n xs

-- The leader filter lets the slot through.
unfoldable pub leads : Run → ℕ → Bool
unfolding contains
leads c n = elim c.leader_slots [ none ↦ true | some slots ↦ contains n slots ]

pub record Flags : Type 0 where
  pub activity : Bool
  pub range_end_triggered : Bool
  pub start_slot_checked : Bool
  pub cancelled : Bool
  -- delayed cancellations that sleep
  pub graces : ℕ

-- A message past `end_slot`: the first one starts the grace period.
unfoldable pub range_end : Run → Flags → Flags
range_end c f =
    if c.slot_range_mode && not f.range_end_triggered
    then record f { range_end_triggered = true; graces = f.graces + 1 }
    else f

-- What a branch does: the flags it leaves, and whether the event reaches the registry.
unfoldable pub within_range : Run → ℕ → Flags → Flags × Bool
unfolding range_end leads
within_range c n f =
    if ltb c.end_slot n then (range_end c f, false) else (record f { activity = true }, leads c n)

unfoldable pub on_shred_slot : Run → ℕ → Flags → Flags × Bool
unfolding within_range
on_shred_slot c n f =
    if ltb n c.start_slot
    then (record f { activity = true }, false)
    else if not f.start_slot_checked && c.start_slot_configured && ltb c.start_slot n
    then (record f { start_slot_checked = true; cancelled = true }, false)
    else within_range c n (record f { start_slot_checked = true })

unfoldable pub on_entry_slot : Run → ℕ → Flags → Flags × Bool
unfolding within_range
on_entry_slot c n f =
    if ltb n c.start_slot then (record f { activity = true }, false) else within_range c n f

-- The silence monitor; it ends when it sees the token cancelled or cancels it itself.
pub record Monitor : Type 0 where
  pub silent_secs : ℕ
  pub watching : Bool

-- What it does after the flag was found to be `was_active` and was cleared.
unfoldable pub count_silence : Run → Bool → Flags → Monitor → Flags × Monitor
count_silence c was_active f m =
    if was_active
    then (f, record m { silent_secs = 0 })
    else if leb c.silence_timeout_secs (m.silent_secs + 1)
    then (
      record f { cancelled = true },
      record { silent_secs = m.silent_secs + 1; watching = false },
    )
    else (f, record m { silent_secs = m.silent_secs + 1 })

-- One second of the monitor.
unfoldable pub monitor_tick : Run → Flags → Monitor → Flags × Monitor
unfolding count_silence
monitor_tick c f m =
    if not m.watching
    then (f, m)
    else if f.cancelled
    then (f, record m { watching = false })
    else count_silence c f.activity (record f { activity = false }) m

-- What can happen next: a message is received, a channel turns out closed, a second passes for the
-- monitor, a grace period ends, or `main` cancels (the duration is over, or Ctrl+C).
pub data Event : Type 0 where
  shred_msg : ShredEvent → Event
  slot_msg : SlotEvent → Event
  grpc_msg : GrpcLatencyEvent → Event
  closed second grace_over stop : Event

module _ (st : Store) where
  pub record System : Type 0 where
    pub registry : Registry st
    pub flags : Flags
    pub monitor : Monitor
    pub aggregating : Bool

  unfoldable pub start_system : Instant → System
  start_system t = record {
    registry = new st t;
    flags = record {
      activity = true;
      range_end_triggered = false;
      start_slot_checked = false;
      cancelled = false;
      graces = 0;
    };
    monitor = record { silent_secs = 0; watching = true };
    aggregating = true;
  }

  abbrev receive : Flags × Bool → (Registry st → Registry st) → System → System
  receive (f, admitted) put s = record s {
    registry = if admitted then put s.registry else s.registry;
    flags = f;
  }

  -- One event. An aggregator that has left its loop receives nothing.
  unfoldable pub step : Run → Event → System → System
  unfolding on_shred_slot on_entry_slot monitor_tick
  step c (shred_msg e) s =
      if s.aggregating
      then receive (on_shred_slot c e.key.slot s.flags) (record_shred st e) s
      else s
  step c (slot_msg e) s =
      if s.aggregating
      then receive (on_entry_slot c e.slot s.flags) (record_slot_event st e) s
      else s
  step c (grpc_msg e) s =
      if s.aggregating then record s { registry = record_grpc_latency st e s.registry } else s
  step c closed s = record s { aggregating = false }
  step c second s =
      let (f, m) = monitor_tick c s.flags s.monitor in record s { flags = f; monitor = m }
  step c grace_over s =
      if s.flags.graces == 0
      then s
      else record s { flags = record (s.flags) { cancelled = true; graces = s.flags.graces - 1 } }
  step c stop s = record s { flags = record (s.flags) { cancelled = true } }

  -- A schedule, the first event first.
  unfoldable pub execute : Run → List Event → System → System
  execute c [] s = s
  execute c (e ∷ es) s = execute c es (step c e s)
