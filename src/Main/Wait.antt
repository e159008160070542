-- ===== src/Main/Wait.antt =====
-- src/main.rs:444-467: how long `main` waits, and how it stops the run. Time passes in seconds; of each
-- second it is an input whether the token is cancelled and whether Ctrl+C was pressed.
use orbshred.Prelude.{
  ℕ, suc, ◌+◌, ◌≤◌, ◌<◌, ◌≡◌, refl, sym, ap, subst, ◌∙◌, Bool, true, false, ◌||◌, Option, none,
  some, List, [], ◌∷◌, ◌++◌, length, leb, if◌then◌else◌, take, All, arith, Bool-cases, inl, inr,
}
use orbshred.Config.{Config}
use orbshred.Aggregator.{Run, step}
use orbshred.Registry.{Instant, Store}
use orbshred.Pipeline.{
  Move, drop_shred_tx, drop_slot_tx, drop_grpc_tx, stops, Channels, World, start_world, schedule,
  move, tell,
}
use orbshred.Pipeline.Drained.{AllTaken, receive_all, drained, schedule-append, drained-AllTaken}
use orbshred.Pipeline.Conserved.{schedule-Conserved, schedule-keeps}
use orbshred.Main.{time_limit}

pub record Signals : Type 0 where
  pub cancelled : Bool
  pub ctrl_c : Bool

-- The timer's branch of the `select!`, which is there only with a limit.
unfoldable pub is_elapsed : Option ℕ → ℕ → Bool
is_elapsed none n = false
is_elapsed (some limit) n = leb limit n

-- Some branch is ready.
unfoldable pub is_woken : Option ℕ → ℕ → Signals → Bool
unfolding is_elapsed
is_woken limit n s = is_elapsed limit n || s.cancelled || s.ctrl_c

-- The second at which the wait ends, from the `n`-th on; none if it outlasts the input.
unfoldable pub main_wait : Option ℕ → ℕ → List Signals → Option ℕ
unfolding is_woken
main_wait limit n [] = none
main_wait limit n (s ∷ ss) =
    let rest = main_wait limit (suc n) ss in if is_woken limit n s then some n else rest

-- What `main` does then: it cancels the token, gives the other tasks time, drops its senders, and
-- waits for the aggregator.
abbrev drops : List Move
drops = drop_shred_tx ∷ drop_slot_tx ∷ drop_grpc_tx ∷ []

unfoldable pub stop_run : List Move → List Move → List Move
stop_run drain finish = stops ∷ (drain ++ (drops ++ finish))

abbrev pub IsQuiet : Signals → Type 0
IsQuiet s = (s.cancelled ≡ false) × (s.ctrl_c ≡ false)

asleep-IsQuiet :
    (limit n : ℕ) (s : Signals) → is_woken (some limit) n s ≡ false → n < limit × IsQuiet s
unfolding is_woken is_elapsed
asleep-IsQuiet limit n s h = ground (arith, h)

-- From the `n`-th second on, no later than at `limit`, and only quiet seconds before.
wait_limited :
    (limit n : ℕ) (ss : List Signals)
    → n ≤ limit
    → limit < n + length ss
    → (i : ℕ) × (main_wait (some limit) n ss ≡ some (n + i))
      × n + i ≤ limit
      × All IsQuiet (take i ss)
unfolding main_wait take
wait_limited limit n [] h long = absurd (omega arith)
wait_limited limit n (s ∷ ss) h long = elim (Bool-cases (is_woken (some limit) n s)) [
  | inl woken ↦ (0, rw woken (ap some (omega arith)), omega arith, tt)
  | inr asleep ↦
      let (early, quiet) = asleep-IsQuiet limit n s asleep in
      let (i, e, last, before) = wait_limited limit (suc n) ss early (omega (arith, long)) in
      (suc i, rw asleep (e ∙ ap some (omega arith)), omega (arith, last), (quiet, before))
]

wait_unlimited : (n : ℕ) (ss : List Signals) → All IsQuiet ss → main_wait none n ss ≡ none
unfolding main_wait is_woken is_elapsed
wait_unlimited n [] h = refl
wait_unlimited n (s ∷ ss) ((a, b), h) = rw (a, b) (wait_unlimited (suc n) ss h)

-- A run with a duration and without a slot range ends within its duration, and before only on the
-- token or on Ctrl+C.
main_wait_limited :
    (config : Config) (run : Run) (ss : List Signals)
    → 0 < config.duration_secs
    → run.slot_range_mode ≡ false
    → config.duration_secs < length ss
    → (i : ℕ) × (main_wait (time_limit config run) 0 ss ≡ some i)
      × i ≤ config.duration_secs
      × All IsQuiet (take i ss)
unfolding time_limit
main_wait_limited config run ss positive free long =
    let timed : time_limit config run ≡ some config.duration_secs =
      ground (arith, positive, free) in
    let (i, e, last, quiet) =
      wait_limited config.duration_secs 0 ss (omega arith) (omega (arith, long)) in
    (i, rw timed (e ∙ ap some (omega arith)), omega (arith, last), quiet)

-- In slot range mode nothing but the token or Ctrl+C ends the wait.
main_wait_slots :
    (config : Config) (run : Run) (ss : List Signals)
    → run.slot_range_mode ≡ true
    → All IsQuiet ss
    → main_wait (time_limit config run) 0 ss ≡ none
unfolding time_limit
main_wait_slots config run ss ranged quiet =
    let untimed : time_limit config run ≡ none = ground (arith, ranged) in
    rw untimed (wait_unlimited 0 ss quiet)

module _ (st : Store) (cs : Channels) (c : Run) where
  -- Cancelling the token before and dropping the senders after takes no event.
  drops-AllTaken :
      (w v : World st cs)
      → AllTaken st cs c (move st cs c stops w) v
      → AllTaken st cs c w (schedule st cs c drops v)
  unfolding schedule move tell step
  drops-AllTaken w v h = record { on = h.on; shreds = h.shreds; slots = h.slots; grpcs = h.grpcs }

  -- The stop loses nothing if the aggregator is in time: where it has not left, and receives what
  -- waits in the three channels between the cancellation and the drop of the senders, it has then
  -- taken every event that was ever accepted.
  pub stop_run-AllTaken :
      (t : Instant) (ms : List Move)
      → (schedule st cs c ms (start_world st cs t)).system.aggregating ≡ true
      → let w = schedule st cs c ms (start_world st cs t) in
        AllTaken st cs c w (schedule st cs c (stop_run (receive_all st cs c w) []) w)
  unfolding stop_run schedule move tell step
  stop_run-AllTaken t ms on =
      let w : World st cs = schedule st cs c ms (start_world st cs t) in
      let stopped : World st cs = move st cs c stops w in
      let kept = schedule-keeps st cs c (stops ∷ []) w (schedule-Conserved st cs c t ms) in
      subst (AllTaken st cs c w)
        (sym (schedule-append st cs c (receive_all st cs c w) drops stopped))
        (drops-AllTaken w (drained st cs c stopped) (drained-AllTaken st cs c stopped on kept))
