-- ===== src/Main/Faithful.antt =====
-- src/main.rs:441-488: what the report of a run says.
use Prim.Native.String.{String}
use orbshred.Prelude.{
  ◌≡◌, refl, sym, subst, ◌∙◌, inr, Option, none, some, List, ◌∷◌, ◌++◌, map, length, suc,
}
use orbshred.Exec.{ok}
use orbshred.Registry.{Instant, Store}
use orbshred.Stats.{SourceStats, EntrySourceStats, compute_stats}
use orbshred.Stats.Percentiles.{F64}
use orbshred.Table.{Format, Tables, print_results}
use orbshred.Table.Banner.{banner}
use orbshred.Table.Printout.{line, sections, printout}
use orbshred.Table.Ranked.{print_results-Ranked}
use orbshred.Log.{log_entry}
use orbshred.Log.Write.{Log, write_log, texts, Ended, write_log-Ended}
use orbshred.Pipeline.{Move, Channels, World, start_world, schedule}
use orbshred.Pipeline.Conserved.{Conserved, schedule-Conserved}
use orbshred.Main.{Args, Ready, Surroundings, nonblank, prepare}
use orbshred.Config.{Config}
use orbshred.Setup.Named.{ids}
use orbshred.Setup.Named.Reported.{Reported, start_all-Reported}
use orbshred.Main.Prepared.{Parsed, prepare-Ready}
use orbshred.Main.Report.{Outputs, Report, report, run_main}
use orbshred.Main.Charged.{
  account_of, entry_account_of, observe_all-account, observe_slots-account, charged, entry_ids,
  charged_sources, charged_entry_sources, shown_ids, shown_entry_ids,
}

module _ (st : Store) (cs : Channels) where
  -- No log without a path; else the title and a line for each shred, or a failure that some call
  -- explains and the first of these lines.
  abbrev pub Logged :
      {F : Type 0} → Outputs F → Ready → World st cs → Option String → Option Log → Type 0
  Logged out r w none o = o ≡ none
  Logged out r w (some path) o =
      (l : Log) × (o ≡ some l)
      × Ended (out.files path)
          (out.title
            ∷ texts (out.files path) (
                map (log_entry out.fallback r.setup.source_names w.system.registry.start_time)
                  (st.shred_map.entries w.system.registry.shreds)))
          (suc (length (st.shred_map.entries w.system.registry.shreds))) l

  module _ (fmt : Format) (fl : F64) {F : Type 0} where
    -- What a report says of a run that ended in `w`.
    pub record Faithful (out : Outputs F) (r : Ready) (w : World st cs) (rep : Report F)
        : Type 0 where
      pub shred_sources :
          map account_of rep.stats.sources ≡ map (charged st cs w) r.setup.active_shred_sources
      pub entry_sources :
          map entry_account_of rep.stats.slot_stats.entry_sources
          ≡ map (charged st cs w) r.setup.active_entry_sources
      pub shown :
          (t : Tables) × (print_results fmt fl rep.stats ≡ ok t)
          × (rep.printed
              ≡ ok (
                  map
                    (λ (l : String). line l)
                    (banner fmt out.rounded out.started (nonblank r.config.leader_pubkey) rep.stats)
                  ++ sections t))
      pub logged : Logged out r w r.path rep.log

    report-Faithful :
        (out : Outputs F) (duration : F) (r : Ready) (w : World st cs)
        → Conserved st cs w
        → Faithful out r w (report st cs fmt fl out duration r w)
    unfolding report compute_stats printout
    report-Faithful out duration r w k = record {
      shred_sources =
          observe_all-account (st.shred_map.entries w.system.registry.shreds) _
          ∙ charged_sources st cs w k _;
      entry_sources =
          observe_slots-account (st.slot_map.entries w.system.registry.slots) _
          ∙ charged_entry_sources st cs w k _;
      shown =
          let drawn = print_results-Ranked fmt fl (
            compute_stats st w.system.registry r.setup.active_shred_sources
              r.setup.active_entry_sources w.drops duration) in
          (drawn.0, drawn.2, rw (drawn.2) refl);
      logged = log_of r.path;
    }
      where
        log_of :
            (o : Option String)
            → Logged out r w o (elim o [
              | none ↦ none
              | some path ↦ some (
                  write_log
                    (out.files path)
                    out.fallback
                    out.title
                    w.system.registry
                    w.system.registry.start_time
                    r.setup.source_names)
            ])
        log_of none = refl
        log_of (some path) =
            (_, refl, write_log-Ended (out.files path) out.fallback out.title w.system.registry _ _)

    -- A run that is prepared ends with a report, under every schedule of its tasks. Its shred-level
    -- sources have just the ids that the started sources were told to report shreds under, in their
    -- order, and then one for each enabled packet capture, and its entry-level sources just those for
    -- entries; it charges each with the number of its events that a channel refused, modulo 2^64. The
    -- box, with the configured leader if there is one, and all tables can always be printed.
    pub run_main-Faithful :
        (s : Surroundings) (args : Args) (out : Outputs F) (duration : F) (t : Instant)
        (ms : List Move) (r : Ready)
        → prepare s args ≡ inr r
        → (rep : Report F) × (run_main st cs fmt fl s args out duration t ms ≡ inr rep)
          × Faithful out r (schedule st cs r.run ms (start_world st cs t)) rep
          × (p : Config) × Parsed s args p
          × Reported p.sources r.setup
              (map (λ (a : SourceStats). a.id) rep.stats.sources)
              (map (λ (a : EntrySourceStats). a.id) rep.stats.slot_stats.entry_sources)
    unfolding run_main
    run_main-Faithful s args out duration t ms r e =
        let w = schedule st cs r.run ms (start_world st cs t) in
        let rep = report st cs fmt fl out duration r w in
        let faithful = report-Faithful out duration r w (schedule-Conserved st cs r.run t ms) in
        let (p, parsed, prepared) = prepare-Ready s args r e in
        (
          rep,
          rw e refl,
          faithful,
          p,
          parsed,
          subst
              (λ l.
                Reported p.sources r.setup l (entry_ids st cs rep.stats.slot_stats.entry_sources))
              (sym (shown_ids st cs w rep.stats.sources _ faithful.shred_sources))
              (subst (Reported p.sources r.setup (ids r.setup.active_shred_sources))
                (sym (
                  shown_entry_ids st cs w rep.stats.slot_stats.entry_sources _
                    faithful.entry_sources))
                (start_all-Reported s.shown s.starts s.parse_ip p.sources r.setup r.captures
                  prepared.started)),
        )
