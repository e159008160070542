-- ===== src/Examples/Runs.antt =====
-- Concrete schedules for src/main.rs.
use orbshred.Prelude.{ℕ, ◌≤◌, ◌<◌, ◌≡◌, ◌⊎◌, refl, true, false, none, some, List, [], ◌∷◌, arith}
use orbshred.Shred.{ShredKey, data_shred}
use orbshred.Registry.{ShredEvent, ShredRecord, new}
use orbshred.Aggregator.{
  Run, run_of, Flags, Event, shred_msg, closed, second, grace_over, stop, start_system, execute,
}
use orbshred.Aggregator.PastEnd.{NotYet, SomePastEnd}
use orbshred.Aggregator.Control.{GraceOnce, silence, silence_timeout, execute-GraceOnce}
use orbshred.Aggregator.Start.{late_start-cancels}
use orbshred.Examples.Records.{store}

abbrev shred_of : ℕ → ShredEvent
shred_of n = record {
  source = 1;
  key = record { slot = n; index = 0; shred_type = data_shred };
  received_at = 5;
}

abbrev key_at : ℕ → ShredKey
key_at n = record { slot = n; index = 0; shred_type = data_shred }

-- The slots from 100 to 200.
abbrev range : Run
range = record {
  slot_range_mode = true;
  start_slot_configured = true;
  start_slot = 100;
  end_slot = 200;
  leader_slots = none;
  silence_timeout_secs = 30;
}

range_run : run_of (some 100) (some 200) none 30 ≡ range
unfolding run_of
range_run = refl

-- Everything up to slot 200, for one leader's slots.
abbrev up_to : Run
up_to = record {
  slot_range_mode = true;
  start_slot_configured = false;
  start_slot = 0;
  end_slot = 200;
  leader_slots = some (150 ∷ 151 ∷ []);
  silence_timeout_secs = 30;
}

abbrev timeline : List Event
timeline =
    shred_msg (shred_of 150)
    ∷ second
    ∷ shred_msg (shred_of 160)
    ∷ shred_msg (shred_of 201)
    ∷ grace_over
    ∷ shred_msg (shred_of 151)
    ∷ closed
    ∷ shred_msg (shred_of 152)
    ∷ []

abbrev in_time : List Event
in_time = shred_msg (shred_of 99) ∷ shred_msg (shred_of 100) ∷ shred_msg (shred_of 201) ∷ []

abbrev recorded : ShredRecord
recorded = record { first_seen = 5; first_source = 1; arrivals = (1, 5) ∷ [] }

abbrev active : Flags
active = record {
  activity = true;
  range_end_triggered = false;
  start_slot_checked = false;
  cancelled = false;
  graces = 0;
}

silence_timeout_example :
    let after_n = (silence range 31 active (record { silent_secs = 4; watching = true })).0 in
    (31 ≤ 30 → after_n.cancelled ≡ false) × (30 < 31 → after_n.cancelled ≡ true)
silence_timeout_example = silence_timeout range 31 4 active refl refl

execute-GraceOnce_example :
    let s = execute store up_to timeline (start_system store 0) in
    GraceOnce s.flags
    × (NotYet s.flags ⊎ SomePastEnd up_to timeline)
    × (s.flags.cancelled ≡ true → (execute store up_to (stop ∷ []) s).flags.cancelled ≡ true)
execute-GraceOnce_example = execute-GraceOnce store up_to 0 timeline (stop ∷ [])

late_start-cancels_example :
    let s =
      execute store range
        (shred_msg (shred_of 99) ∷ second ∷ shred_msg (shred_of 101) ∷ [])
        (start_system store 0) in
    (s.flags.cancelled ≡ true) × (s.registry ≡ new store 0)
late_start-cancels_example =
    late_start-cancels store range (shred_msg (shred_of 99) ∷ second ∷ []) (shred_of 101) 0 refl
      (omega arith, (tt, tt)) (omega arith)
