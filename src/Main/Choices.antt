-- ===== src/Main/Choices.antt =====
-- src/main.rs:70-131: the bounds, the timer and the log's path that a configuration asks for.
use Prim.Native.String.{String}
use orbshred.Prelude.{
  ℕ, ◌-◌, ◌^◌, ◌<◌, ◌≡◌, refl, ◌⊎◌, inl, inr, Bool, true, false, Option, none, some, List, arith,
  ltb, ◌&&◌, if◌then◌else◌, Bool-cases,
}
use orbshred.Prelude.Text.{blank}
use orbshred.Config.{Config}
use orbshred.Aggregator.{Run, run_of}
use orbshred.Main.{Args, override_duration, log_path, time_limit}

-- A run has a range of slots just if one of its ends is configured. A missing start is slot 0, and a
-- missing end the highest slot.
abbrev pub Bounds : Option ℕ → Option ℕ → Run → Type 0
Bounds none none r =
    (r.slot_range_mode ≡ false)
    × (r.start_slot_configured ≡ false)
    × (r.start_slot ≡ 0)
    × (r.end_slot ≡ 2 ^ 64 - 1)
Bounds none (some b) r =
    (r.slot_range_mode ≡ true)
    × (r.start_slot_configured ≡ false)
    × (r.start_slot ≡ 0)
    × (r.end_slot ≡ b)
Bounds (some a) none r =
    (r.slot_range_mode ≡ true)
    × (r.start_slot_configured ≡ true)
    × (r.start_slot ≡ a)
    × (r.end_slot ≡ 2 ^ 64 - 1)
Bounds (some a) (some b) r =
    (r.slot_range_mode ≡ true)
    × (r.start_slot_configured ≡ true)
    × (r.start_slot ≡ a)
    × (r.end_slot ≡ b)

pub run_of-Bounds :
    (start end_ : Option ℕ) (leader : Option (List ℕ)) (timeout : ℕ)
    → let r = run_of start end_ leader timeout in
      Bounds start end_ r × (r.leader_slots ≡ leader) × (r.silence_timeout_secs ≡ timeout)
unfolding run_of
run_of-Bounds none none leader timeout = ((refl, refl, refl, refl), refl, refl)
run_of-Bounds none (some b) leader timeout = ((refl, refl, refl, refl), refl, refl)
run_of-Bounds (some a) none leader timeout = ((refl, refl, refl, refl), refl, refl)
run_of-Bounds (some a) (some b) leader timeout = ((refl, refl, refl, refl), refl, refl)

-- A timer of so many seconds, unless there are none or a slot bound is configured.
abbrev pub TimerOf : ℕ → Option ℕ → Option ℕ → Option ℕ → Type 0
TimerOf secs none none o = ((0 < secs) × (o ≡ some secs)) ⊎ ((secs ≡ 0) × (o ≡ none))
TimerOf secs none (some b) o = o ≡ none
TimerOf secs (some a) end_ o = o ≡ none

-- The seconds of the command line, or else those of the configuration.
abbrev pub Timer : Option ℕ → Config → Option ℕ → Type 0
Timer none p o = TimerOf p.duration_secs p.start_slot p.end_slot o
Timer (some secs) p o = TimerOf secs p.start_slot p.end_slot o

limited : (secs : ℕ) → TimerOf secs none none (if ltb 0 secs && true then some secs else none)
limited secs = elim (Bool-cases (ltb 0 secs)) [
  | inl more ↦ rw more (inl (ground (arith, more), refl))
  | inr zero_secs ↦ rw zero_secs (inr (ground (arith, zero_secs), refl))
]

unlimited : (secs : ℕ) → (if ltb 0 secs && false then some secs else none) ≡ none
unlimited secs = ground arith

time_limit-TimerOf :
    (secs : ℕ) (p : Config) (start end_ : Option ℕ) (leader : Option (List ℕ)) (timeout : ℕ)
    → TimerOf secs start end_
        (time_limit (record p { duration_secs = secs }) (run_of start end_ leader timeout))
unfolding time_limit run_of
time_limit-TimerOf secs p none none leader timeout = limited secs
time_limit-TimerOf secs p none (some b) leader timeout = unlimited secs
time_limit-TimerOf secs p (some a) end_ leader timeout = unlimited secs

override_duration-Timer :
    (given : Option ℕ) (args : Args) (p : Config) (leader : Option (List ℕ))
    → args.duration ≡ given
    → Timer given p (
        time_limit
          (override_duration args p)
          (run_of p.start_slot p.end_slot leader p.silence_timeout_secs))
unfolding override_duration
override_duration-Timer none args p leader e =
    rw e
      (time_limit-TimerOf p.duration_secs p p.start_slot p.end_slot leader p.silence_timeout_secs)
override_duration-Timer (some secs) args p leader e =
    rw e (time_limit-TimerOf secs p p.start_slot p.end_slot leader p.silence_timeout_secs)

pub time_limit-Timer :
    (args : Args) (p : Config) (leader : Option (List ℕ))
    → Timer args.duration p (
        time_limit
          (override_duration args p)
          (run_of p.start_slot p.end_slot leader p.silence_timeout_secs))
time_limit-Timer args p leader = override_duration-Timer args.duration args p leader refl

-- No log if none is wanted; else the file of the command line, or that of the configuration if it is
-- not blank.
abbrev pub PathOf : Bool → Option String → String → Option String → Type 0
PathOf true given configured o = o ≡ none
PathOf false (some file) configured o = o ≡ some file
PathOf false none configured o =
    ((blank configured ≡ true) × (o ≡ none)) ⊎ ((blank configured ≡ false) × (o ≡ some configured))

path_by :
    (no_log : Bool) (given : Option String) (args : Args) (p : Config)
    → args.no_log ≡ no_log
    → args.log_file ≡ given
    → PathOf no_log given p.output.log_file (log_path args p)
unfolding log_path
path_by true given args p e f = rw e refl
path_by false (some file) args p e f = rw (e, f) refl
path_by false none args p e f = elim (Bool-cases (blank p.output.log_file)) [
  | inl nothing ↦ rw (e, f, nothing) (inl (refl, refl))
  | inr named ↦ rw (e, f, named) (inr (refl, refl))
]

pub log_path-PathOf :
    (args : Args) (p : Config)
    → PathOf args.no_log args.log_file p.output.log_file (log_path args p)
log_path-PathOf args p = path_by args.no_log args.log_file args p refl refl
