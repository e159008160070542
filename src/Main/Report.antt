-- ===== src/Main/Report.antt =====
-- src/main.rs:441-488: the run itself and what it reports. The tasks of a run are a schedule of
-- `Pipeline`; its messages are whatever the sources parsed.
use Prim.Native.String.{String}
use orbshred.Prelude.{◌⊎◌, inr, Option, none, some, List}
use orbshred.Exec.{Exec}
use orbshred.Registry.{SourceId, Instant, Store}
use orbshred.Stats.{BenchmarkStats, compute_stats}
use orbshred.Stats.Percentiles.{F64}
use orbshred.Table.{Format}
use orbshred.Table.Printout.{Printed, printout}
use orbshred.Log.Write.{LogCalls, Log, write_log}
use orbshred.Pipeline.{Move, Channels, World, start_world, schedule}
use orbshred.Main.{Args, MainError, ◌>>=◌, Ready, Surroundings, nonblank, prepare}

-- The file system's answers for a path, the clock's for the log's title and for the start, the text
-- for an id without a name and that of a rounded duration.
pub record Outputs (F : Type 0) : Type 0 where
  pub started : String
  pub rounded : F → String
  pub files : String → LogCalls
  pub title : String
  pub fallback : SourceId → String

pub record Report (F : Type 0) : Type 0 where
  pub stats : BenchmarkStats F
  pub printed : Exec (List Printed)
  pub log : Option Log

module _ (st : Store) (cs : Channels) (fmt : Format) (fl : F64) {F : Type 0} where
  -- From the end of the wait for the aggregator on.
  unfoldable pub report : Outputs F → F → Ready → World st cs → Report F
  unfolding compute_stats printout write_log
  report out duration r w =
      let stats =
        compute_stats st w.system.registry r.setup.active_shred_sources r.setup.active_entry_sources
          w.drops duration in
      record {
        stats = stats;
        printed = printout fmt fl out.rounded out.started (nonblank r.config.leader_pubkey) stats;
        log = elim r.path [
          | none ↦ none
          | some path ↦ some (
              write_log (out.files path) out.fallback out.title w.system.registry
                w.system.registry.start_time r.setup.source_names)
        ];
      }

  -- `main` as a whole, for one schedule of its tasks.
  unfoldable pub run_main :
      Surroundings → Args → Outputs F → F → Instant → List Move → MainError ⊎ Report F
  unfolding prepare report schedule
  run_main w args out duration t ms = do
    r ← prepare w args
    inr (report out duration r (schedule st cs r.run ms (start_world st cs t)))
