-- ===== src/Main/Prepared.antt =====
-- src/main.rs:59-131 and 161-305: every way in which the preparation of a run can end.
use Prim.Native.String.{String}
use orbshred.Prelude.{
  ℕ, ◌+◌, ◌<◌, ◌≡◌, refl, subst, ◌⊎◌, inl, inr, Bool, true, false, Option, none, some, List, [],
  ◌∷◌, length, arith, ltb, if◌then◌else◌, Bool-cases,
}
use orbshred.Prelude.Text.{blank}
use orbshred.Config.{
  RawUdpConfig, JitoConfig, DoubleZeroConfig, YellowstoneConfig, PcapConfig, SourcesConfig, Config,
}
use orbshred.Leader.{Fetched, slots, error}
use orbshred.Aggregator.{Run, run_of}
use orbshred.Setup.{Setup, no_sources, enabled}
use orbshred.Setup.Captures.{CaptureRun, start_all}
use orbshred.Main.{
  Args, MainError, config_unread, config_unparsed, no_source, no_rpc_url, leader_failed,
  source_failed, ◌>>=◌, or_error, override_duration, any_enabled, any_source, log_path, fetched,
  leader_filter, time_limit, Ready, Surroundings, start_run, prepare,
}
use orbshred.Main.Choices.{Bounds, run_of-Bounds, Timer, time_limit-Timer, PathOf, log_path-PathOf}
use orbshred.Main.Starts.{listeners_on, sources_on, Listens, start_all-Listens}

any_enabled_iff :
    {C : Type 0} (on : C → Bool) (cs : List C) → any_enabled on cs ≡ ltb 0 (length (enabled on cs))
unfolding any_enabled enabled
any_enabled_iff on [] = ground arith
any_enabled_iff on (c ∷ cs) = ground (arith, any_enabled_iff on cs)

any_source_eq : (s : SourcesConfig) → any_source s ≡ ltb 0 (sources_on s)
unfolding any_source
any_source_eq s = ground (
  arith,
  any_enabled_iff (λ (c : RawUdpConfig). c.enabled) s.raw_udp,
  any_enabled_iff (λ (c : JitoConfig). c.enabled) s.jito,
  any_enabled_iff (λ (c : DoubleZeroConfig). c.enabled) s.doublezero,
  any_enabled_iff (λ (c : YellowstoneConfig). c.enabled) s.yellowstone,
  any_enabled_iff (λ (c : PcapConfig). c.enabled) s.pcap,
)

module _ (w : Surroundings) (args : Args) where
  -- The configuration that was read.
  abbrev pub Parsed : Config → Type 0
  Parsed p =
      (text : String) × (w.config_text args.config ≡ some text) × (w.parse_toml text ≡ some p)

  -- The leader filter: none without a key, else what the RPC node gave.
  abbrev pub Filter : Config → Option (List ℕ) → Type 0
  Filter p o =
      ((blank p.leader_pubkey ≡ true) × (o ≡ none))
      ⊎ ((blank p.leader_pubkey ≡ false)
          × (blank p.rpc_url ≡ false)
          × ((l : List ℕ) × (w.rpc p.rpc_url p.leader_pubkey ≡ slots l) × (o ≡ some l)))

  -- What a run that starts is made of: the bounds, the timer and the started sources, of which one
  -- at least listens.
  pub record Prepared (p : Config) (r : Ready) : Type 0 where
    pub leader : Option (List ℕ)
    pub filtered : Filter p leader
    pub bounds : Bounds p.start_slot p.end_slot r.run
    pub led : r.run.leader_slots ≡ leader
    pub silence : r.run.silence_timeout_secs ≡ p.silence_timeout_secs
    pub limit : Timer args.duration p r.limit
    pub path : PathOf args.no_log args.log_file p.output.log_file r.path
    pub started :
        start_all w.shown w.starts w.parse_ip p.sources no_sources ≡ some (r.setup, r.captures)
    pub listening : length r.setup.started ≡ listeners_on p.sources
    pub heard : 0 < length r.setup.started + length r.captures

  -- Why the preparation ended as it did.
  pub Outcome : MainError ⊎ Ready → Type 0
  Outcome (inl config_unread) = w.config_text args.config ≡ none
  Outcome (inl config_unparsed) =
      (text : String) × (w.config_text args.config ≡ some text) × (w.parse_toml text ≡ none)
  Outcome (inl no_source) = (p : Config) × Parsed p × (sources_on p.sources ≡ 0)
  Outcome (inl no_rpc_url) =
      (p : Config) × Parsed p × (blank p.leader_pubkey ≡ false) × (blank p.rpc_url ≡ true)
  Outcome (inl (leader_failed e)) =
      (p : Config) × Parsed p
      × (blank p.leader_pubkey ≡ false)
      × (w.rpc p.rpc_url p.leader_pubkey ≡ error e)
  Outcome (inl source_failed) =
      (p : Config) × Parsed p × (start_all w.shown w.starts w.parse_ip p.sources no_sources ≡ none)
  Outcome (inr r) = (p : Config) × Parsed p × Prepared p r

  start_run-Outcome :
      (p : Config) (leader : Option (List ℕ))
      → Parsed p
      → 0 < sources_on p.sources
      → Filter p leader
      → Outcome (
          start_run w args
            (override_duration args p)
            (run_of p.start_slot p.end_slot leader p.silence_timeout_secs))
  unfolding start_run override_duration log_path Outcome
  start_run-Outcome p leader h some_on f =
      go (start_all w.shown w.starts w.parse_ip p.sources no_sources) refl
        (start_all-Listens w.shown w.starts w.parse_ip p.sources some_on)
    where
      c : Config
      c = override_duration args p

      run : Run
      run = run_of p.start_slot p.end_slot leader p.silence_timeout_secs

      chosen :
          Bounds p.start_slot p.end_slot run
          × (run.leader_slots ≡ leader)
          × (run.silence_timeout_secs ≡ p.silence_timeout_secs)
      chosen = run_of-Bounds p.start_slot p.end_slot leader p.silence_timeout_secs

      go :
          (o : Option (Setup × List CaptureRun))
          → start_all w.shown w.starts w.parse_ip p.sources no_sources ≡ o
          → Listens p.sources o
          → Outcome (
              ◌>>=◌ {B = Ready} (or_error source_failed o) (λ s. inr (record {
                config = c;
                path = log_path args c;
                run = run;
                limit = time_limit c run;
                setup = s.0;
                captures = s.1;
              })))
      go none e l = (p, h, e)
      go (some (s, captures)) e l = (
        p,
        h,
        record {
          leader = leader;
          filtered = f;
          bounds = chosen.0;
          led = chosen.1;
          silence = chosen.2;
          limit = time_limit-Timer args p leader;
          path = log_path-PathOf args p;
          started = e;
          listening = l.0;
          heard = l.1;
        },
      )

  -- What follows the leader filter.
  abbrev goes_on : Config → Option (List ℕ) → MainError ⊎ Ready
  goes_on p leader =
      start_run w args (override_duration args p)
        (run_of p.start_slot p.end_slot leader p.silence_timeout_secs)

  fetched_then :
      (p : Config)
      → Parsed p
      → 0 < sources_on p.sources
      → blank p.leader_pubkey ≡ false
      → blank p.rpc_url ≡ false
      → (f : Fetched) → w.rpc p.rpc_url p.leader_pubkey ≡ f
      → Outcome (◌>>=◌ {B = Ready} (fetched f) (goes_on p))
  unfolding Outcome
  fetched_then p h some_on given url (slots l) e =
      start_run-Outcome p (some l) h some_on (inr (given, url, (l, e, refl)))
  fetched_then p h some_on given url (error x) e = (p, h, given, e)

  filter_then :
      (p : Config)
      → Parsed p
      → 0 < sources_on p.sources
      → Outcome (◌>>=◌ {B = Ready} (leader_filter w.rpc (override_duration args p)) (goes_on p))
  unfolding leader_filter override_duration Outcome
  filter_then p h some_on = elim (Bool-cases (blank p.leader_pubkey)) [
    | inl none_given ↦ simp none_given (start_run-Outcome p none h some_on (inl (none_given, refl)))
    | inr given ↦ elim (Bool-cases (blank p.rpc_url)) [
      | inl no_url ↦ simp (given, no_url) (p, h, given, no_url)
      | inr url ↦
          simp (given, url)
            (fetched_then p h some_on given url (w.rpc p.rpc_url p.leader_pubkey) refl)
    ]
  ]

  -- Every end of the preparation has its cause: the configuration cannot be read or parsed, no source
  -- is enabled, a leader's key is given without a URL, the leader's slots cannot be had, or a source
  -- cannot be started. Otherwise the run starts: its slot bounds are the configured ones, or 0 and
  -- 2^64 - 1, and it has the configured silence timeout, a leader filter just if a key is given, and a
  -- timer just if no slot bound is configured and the duration, of the command line or else of the
  -- configuration, is not 0; the log's path is that of the command line or else of the configuration;
  -- as many sources that listen themselves are started as are enabled, and at least one source or
  -- packet capture listens.
  pub prepare-Outcome : Outcome (prepare w args)
  unfolding prepare override_duration Outcome
  prepare-Outcome = read (w.config_text args.config) refl
    where
      checked :
          (p : Config)
          → Parsed p
          → Outcome (
              if any_source p.sources
              then ◌>>=◌ {B = Ready} (leader_filter w.rpc (override_duration args p)) (goes_on p)
              else inl no_source)
      checked p h = elim (Bool-cases (ltb 0 (sources_on p.sources))) [
        | inl on ↦ rw (any_source_eq p.sources, on) (filter_then p h (ground arith))
        | inr off ↦ rw (any_source_eq p.sources, off) (p, h, ground arith)
      ]

      parsed :
          (text : String)
          → w.config_text args.config ≡ some text
          → (o : Option Config) → w.parse_toml text ≡ o
          → Outcome (
              ◌>>=◌ {B = Ready} (or_error config_unparsed o) (λ p.
                if any_source p.sources
                then ◌>>=◌ {B = Ready} (leader_filter w.rpc (override_duration args p)) (goes_on p)
                else inl no_source))
      parsed text e none q = (text, e, q)
      parsed text e (some p) q = checked p (text, e, q)

      read :
          (o : Option String)
          → w.config_text args.config ≡ o
          → Outcome (
              ◌>>=◌ {B = Ready} (or_error config_unread o) (λ text.
                ◌>>=◌ {B = Ready} (or_error config_unparsed (w.parse_toml text)) (λ p.
                  if any_source p.sources
                  then ◌>>=◌ {B = Ready}
                      (leader_filter w.rpc (override_duration args p))
                      (goes_on p)
                  else inl no_source)))
      read none e = e
      read (some text) e = parsed text e (w.parse_toml text) refl

  -- A run that starts is prepared from the configuration that was read.
  pub prepare-Ready : (r : Ready) → prepare w args ≡ inr r → (p : Config) × Parsed p × Prepared p r
  unfolding Outcome
  prepare-Ready r e = subst Outcome e prepare-Outcome
