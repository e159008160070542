-- ===== src/Main.antt =====
-- src/main.rs:27-131, 161-305 and 441-488: what `main` decides before the run.
-- `Args` is what the command line gives; reading and parsing the configuration, the RPC node and the
-- starts of the sources are inputs.
pub mod Starts
pub mod Choices
pub mod Prepared
pub mod Wait
pub mod Report
pub mod Charged
pub mod Faithful
use Prim.Native.String.{String}
use orbshred.Prelude.{
  ℕ, ◌+◌, ◌≡◌, ◌⊎◌, inl, inr, Bool, true, false, not, ◌&&◌, ◌||◌, Option, none, some, List, [], ◌∷◌,
  ltb, leb, if◌then◌else◌,
}
use orbshred.Prelude.Text.{blank}
use orbshred.Pcap.{Ipv4Addr}
use orbshred.Config.{
  RawUdpConfig, JitoConfig, DoubleZeroConfig, YellowstoneConfig, PcapConfig, SourcesConfig, Config,
}
use orbshred.Leader.{LeaderError, Fetched, slots, error}
use orbshred.Aggregator.{Run, run_of}
use orbshred.Setup.{Started, Setup, no_sources}
use orbshred.Setup.Captures.{CaptureRun, start_all}

pub record Args : Type 0 where
  pub config : String
  pub duration : Option ℕ
  pub log_file : Option String
  pub no_log : Bool

-- The errors that end `main` before the run.
pub data MainError : Type 0 where
  config_unread config_unparsed no_source no_rpc_url : MainError
  leader_failed : LeaderError → MainError
  source_failed : MainError

infixl 5 ◌>>=◌
abbrev pub ◌>>=◌ {ℓ κ} :
    {A : Type ℓ} {B : Type κ} → MainError ⊎ A → (A → MainError ⊎ B) → MainError ⊎ B
inl e >>= f = inl e
inr a >>= f = f a

abbrev pub or_error {ℓ} : {A : Type ℓ} → MainError → Option A → MainError ⊎ A
or_error e none = inl e
or_error e (some a) = inr a

abbrev or_given : Option ℕ → ℕ → ℕ
or_given none d = d
or_given (some n) d = n

unfoldable pub override_duration : Args → Config → Config
override_duration args config = record config {
  duration_secs = or_given args.duration config.duration_secs;
}

-- `iter().any(|c| c.enabled)`
unfoldable pub any_enabled : {C : Type 0} → (C → Bool) → List C → Bool
any_enabled on [] = false
any_enabled on (c ∷ cs) = on c || any_enabled on cs

unfoldable pub any_source : SourcesConfig → Bool
unfolding any_enabled
any_source s =
    any_enabled (λ (c : RawUdpConfig). c.enabled) s.raw_udp
    || any_enabled (λ (c : JitoConfig). c.enabled) s.jito
    || any_enabled (λ (c : DoubleZeroConfig). c.enabled) s.doublezero
    || any_enabled (λ (c : YellowstoneConfig). c.enabled) s.yellowstone
    || any_enabled (λ (c : PcapConfig). c.enabled) s.pcap

abbrev pub nonblank : String → Option String
nonblank s = if blank s then none else some s

-- `or_else`
abbrev or_else : Option String → Option String → Option String
or_else none o = o
or_else (some s) o = some s

unfoldable pub log_path : Args → Config → Option String
log_path args config =
    if args.no_log then none else or_else args.log_file (nonblank config.output.log_file)

abbrev fetched : Fetched → MainError ⊎ Option (List ℕ)
fetched (slots l) = inr (some l)
fetched (error e) = inl (leader_failed e)

-- `rpc` is what `leader::fetch_leader_slots` brings for the URL and the validator's key.
unfoldable pub leader_filter : (String → String → Fetched) → Config → MainError ⊎ Option (List ℕ)
leader_filter rpc config =
    if not (blank config.leader_pubkey)
    then (if blank config.rpc_url
        then inl no_rpc_url
        else fetched (rpc config.rpc_url config.leader_pubkey))
    else inr none

-- The timer of the wait, if it has one.
unfoldable pub time_limit : Config → Run → Option ℕ
time_limit config run =
    if ltb 0 config.duration_secs && not run.slot_range_mode
    then some config.duration_secs
    else none

-- What the run starts from.
pub record Ready : Type 0 where
  pub config : Config
  pub path : Option String
  pub run : Run
  pub limit : Option ℕ
  pub setup : Setup
  pub captures : List CaptureRun

-- Everything outside of the program that `main` asks.
pub record Surroundings : Type 0 where
  pub config_text : String → Option String
  pub parse_toml : String → Option Config
  pub rpc : String → String → Fetched
  pub shown : ℕ → String
  pub starts : Started → Bool
  pub parse_ip : String → Option Ipv4Addr

-- A start that fails ends `main`; a capture's thread always starts.
unfoldable pub start_run : Surroundings → Args → Config → Run → MainError ⊎ Ready
unfolding time_limit log_path
start_run w args config run = do
  started ← or_error source_failed (start_all w.shown w.starts w.parse_ip config.sources no_sources)
  inr (record {
    config = config;
    path = log_path args config;
    run = run;
    limit = time_limit config run;
    setup = started.0;
    captures = started.1;
  })

unfoldable pub prepare : Surroundings → Args → MainError ⊎ Ready
unfolding override_duration any_source leader_filter start_run
prepare w args = do
  text ← or_error config_unread (w.config_text args.config)
  parsed ← or_error config_unparsed (w.parse_toml text)
  let config = override_duration args parsed
  if any_source config.sources
      then (do
        leader ← leader_filter w.rpc config
        start_run w args config
            (run_of config.start_slot config.end_slot leader config.silence_timeout_secs))
      else inl no_source
