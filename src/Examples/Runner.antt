-- ===== src/Examples/Runner.antt =====
-- A concrete run of src/main.rs from the command line to the report.
use orbshred.Prelude.{ℕ, suc, ◌≡◌, refl, inr, true, false, none, some, List, [], ◌∷◌, map, length}
use orbshred.Config.{Config}
use orbshred.Leader.{slots}
use orbshred.Registry.{ShredEvent, Registry, new, record_shred}
use orbshred.Aggregator.{Run, run_of}
use orbshred.Log.{log_entry}
use orbshred.Log.Write.{LogCalls, write_log, texts, Ended, write_log-Ended}
use orbshred.Pipeline.{Move, send_shred, recv_shred, start_world, schedule}
use orbshred.Setup.{start_sources, start_raw_udp, start_yellowstone}
use orbshred.Setup.Captures.{start_all}
use orbshred.Main.{Args, Ready, Surroundings, prepare}
use orbshred.Main.Prepared.{Parsed, Outcome, prepare-Outcome}
use orbshred.Setup.Named.Reported.{Reported}
use orbshred.Stats.{SourceStats, EntrySourceStats}
use orbshred.Main.Report.{Outputs, Report, run_main}
use orbshred.Main.Faithful.{Faithful, run_main-Faithful}
use orbshred.Examples.Records.{store, key, thousandths}
use orbshred.Examples.Setups.{config, shown, starts, running}
use orbshred.Examples.Tables.{fmt}
use orbshred.Examples.Pipelines.{channels}

-- A run of ten seconds on the command line, for one leader.
abbrev args : Args
args = record {
  config = "config.toml";
  duration = some 10;
  log_file = some "run.log";
  no_log = false;
}

abbrev from_file : Config
from_file = record {
  duration_secs = 60;
  start_slot = none;
  end_slot = none;
  silence_timeout_secs = 30;
  leader_pubkey = "leader";
  rpc_url = "http://localhost:8899";
  sources = config;
  output = record { log_file = "" };
}

abbrev surroundings : Surroundings
surroundings = record {
  config_text = λ path. some "text";
  parse_toml = λ t. some from_file;
  rpc = λ url pubkey. slots (1000 ∷ []);
  shown = shown;
  starts = starts;
  parse_ip = λ t. none;
}

prepare-Outcome_example : Outcome surroundings args (prepare surroundings args)
prepare-Outcome_example = prepare-Outcome surroundings args

abbrev run : Run
run = run_of none none (some (1000 ∷ [])) 30

abbrev ready : Ready
ready = record {
  config = record from_file { duration_secs = 10 };
  path = some "run.log";
  run = run;
  limit = some 10;
  setup = running;
  captures = [];
}

ready_run : prepare surroundings args ≡ inr ready
unfolding prepare start_all start_sources start_raw_udp start_yellowstone run_of
ready_run = refl

abbrev delivery : ℕ → ShredEvent
delivery t = record { source = 0; key = key; received_at = t }

-- Three deliveries of one shred to a channel of two places, of which one is taken.
abbrev moves : List Move
moves =
    send_shred (delivery 50) ∷ send_shred (delivery 60) ∷ send_shred (delivery 70) ∷ recv_shred ∷ []

abbrev calls : LogCalls
calls = record { creates = true; writes = λ n. true; flushes = true; serialize = λ e. some "{}" }

abbrev outputs : Outputs ℕ
outputs = record {
  started = "2025-01-01 00:00:00 UTC";
  rounded = λ secs. "10";
  files = λ path. calls;
  title = "// orbshred log";
  fallback = λ id. "source_0";
}

run_main-Faithful_example :
    (rep : Report ℕ) × (run_main store channels fmt thousandths surroundings args outputs 10 0 moves
      ≡ inr rep)
    × Faithful store channels fmt thousandths outputs ready
        (schedule store channels run moves (start_world store channels 0))
        rep
    × (p : Config) × Parsed surroundings args p
    × Reported p.sources ready.setup
        (map (λ (a : SourceStats). a.id) rep.stats.sources)
        (map (λ (a : EntrySourceStats). a.id) rep.stats.slot_stats.entry_sources)
run_main-Faithful_example =
    run_main-Faithful store channels fmt thousandths surroundings args outputs 10 0 moves ready
      ready_run

abbrev registry : Registry store
registry = record_shred store (delivery 60) (record_shred store (delivery 50) (new store 0))

write_log-Ended_example :
    Ended calls
      ("title"
        ∷ texts calls
            (map (log_entry (λ id. "source_0") [] 0) (store.shred_map.entries registry.shreds)))
      (suc (length (store.shred_map.entries registry.shreds)))
      (write_log calls (λ id. "source_0") "title" registry 0 [])
write_log-Ended_example = write_log-Ended calls (λ id. "source_0") "title" registry 0 []
