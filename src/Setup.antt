-- ===== src/Setup.antt =====
-- src/main.rs:49-57 and 150-257: the source ids and names that `main` hands out, and the sources that
-- listen themselves. The packet captures are `Captures`. Starting a source can fail, which ends the
-- program: `starts` says which ones do not. `shown` is the decimal that `format!` prints.
pub mod Ids
pub mod Distinct
pub mod Start
pub mod Captures
pub mod Named
use Prim.Native.String.{String}
use orbshred.Prelude.Text.{join, blank}
use mathlib.Core.List.{filter_map, filter}
use orbshred.Prelude.{
  ℕ, ◌+◌, ◌%◌, ◌^◌, ◌≡◌, Bool, true, false, not, ◌&&◌, ◌||◌, Option, none, some, List, [], ◌∷◌,
  ◌++◌, map, leb, ◌==◌, if◌then◌else◌, length, foldl, max,
}
use orbshred.Prelude.{ltb}
use orbshred.DashMap.{upsert_by}
use orbshred.Registry.{SourceId, same_id}
use orbshred.Pcap.{Ipv4Addr}
use orbshred.Pcap.Route.{PcapRoute}
use orbshred.Config.{
  RawUdpConfig, JitoConfig, DoubleZeroConfig, YellowstoneConfig, PcapConfig, SourcesConfig,
}

infixl 5 ◌>>=◌
abbrev pub ◌>>=◌ {ℓ κ} : {A : Type ℓ} {B : Type κ} → Option A → (A → Option B) → Option B
none >>= f = none
some a >>= f = f a

abbrev pub Names : Type 0
Names = List (SourceId × String)

-- A call of a source's `run`.
pub data Started : Type 0 where
  raw_udp_run : RawUdpConfig → SourceId → Started
  jito_run : JitoConfig → SourceId → SourceId → Started
  doublezero_run : DoubleZeroConfig → SourceId → Started
  yellowstone_run : YellowstoneConfig → SourceId → Option SourceId → Started

pub record Setup : Type 0 where
  pub next_id : ℕ
  pub active_shred_sources : Names
  pub active_entry_sources : Names
  pub source_names : Names
  pub started : List Started

abbrev pub no_sources : Setup
no_sources = record {
  next_id = 0;
  active_shred_sources = [];
  active_entry_sources = [];
  source_names = [];
  started = [];
}

-- `next_id += 1`; the id is the old value.
unfoldable pub alloc : Setup → Setup
alloc s = record s { next_id = (s.next_id + 1) % 2 ^ 32 }

-- `source_names.insert(id, name)`, and a push on one of the lists.
unfoldable pub add_shred : SourceId → String → Setup → Setup
add_shred id name s = record s {
  source_names = upsert_by same_id id (λ _. name) name s.source_names;
  active_shred_sources = s.active_shred_sources ++ ((id, name) ∷ []);
}

unfoldable pub add_entry_source : SourceId → String → Setup → Setup
add_entry_source id name s = record s {
  source_names = upsert_by same_id id (λ _. name) name s.source_names;
  active_entry_sources = s.active_entry_sources ++ ((id, name) ∷ []);
}

-- The loop over the enabled sources of one kind, from the `idx`-th on.
unfoldable pub start_each {ℓ} :
    {C : Type ℓ} → (ℕ → C → Setup → Option Setup) → ℕ → List C → Setup → Option Setup
start_each f idx [] s = some s
start_each f idx (c ∷ cs) s = do s1 ← f idx c s; start_each f (idx + 1) cs s1

unfoldable pub enabled {ℓ} : {C : Type ℓ} → (C → Bool) → List C → List C
enabled on [] = []
enabled on (c ∷ cs) = if on c then c ∷ enabled on cs else enabled on cs

module _ (shown : ℕ → String) (starts : Started → Bool) where
  unfoldable pub source_name : String → String → ℕ → ℕ → String
  source_name configured type_default idx total_enabled =
      if not (blank configured)
      then configured
      else if leb total_enabled 1
      then type_default
      else join type_default (join " " (shown (idx + 1)))

  unfoldable pub launch : Started → Setup → Option Setup
  launch r s = if starts r then some (record s { started = s.started ++ (r ∷ []) }) else none

  unfoldable pub start_raw_udp : ℕ → ℕ → RawUdpConfig → Setup → Option Setup
  unfolding launch alloc add_shred source_name
  start_raw_udp total idx cfg s = do
    s1 ← launch (raw_udp_run cfg s.next_id) (alloc s)
    some (add_shred s.next_id (source_name cfg.name "Raw UDP" idx total) s1)

  unfoldable pub start_doublezero : ℕ → ℕ → DoubleZeroConfig → Setup → Option Setup
  unfolding launch alloc add_shred source_name
  start_doublezero total idx cfg s = do
    s1 ← launch (doublezero_run cfg s.next_id) (alloc s)
    some (add_shred s.next_id (source_name cfg.name "DoubleZero" idx total) s1)

  -- The shred part of a Jito source, if it has one, and the entry part.
  unfoldable pub jito_shreds : JitoConfig → SourceId → String → Setup → Setup
  unfolding add_shred
  jito_shreds cfg id name s =
      if not (blank cfg.block_engine_url) || not (blank cfg.proxy_udp_addr)
      then add_shred id name s
      else s

  unfoldable pub jito_entries : JitoConfig → SourceId → String → Setup → Setup
  unfolding add_entry_source
  jito_entries cfg id name s =
      if not (blank cfg.proxy_grpc_addr) then add_entry_source id name s else s

  unfoldable pub jito_entry_name : ℕ → ℕ → JitoConfig → String
  unfolding source_name
  jito_entry_name total idx cfg =
      if blank cfg.name then source_name "" "Jito Entries" idx total else join cfg.name " (entries)"

  unfoldable pub start_jito : ℕ → ℕ → JitoConfig → Setup → Option Setup
  unfolding launch alloc jito_shreds jito_entries jito_entry_name
  start_jito total idx cfg s =
      let s1 = alloc s in
      let s2 =
        jito_shreds cfg s.next_id (source_name cfg.name "Jito ShredStream" idx total) (alloc s1) in
      launch (jito_run cfg s.next_id s1.next_id)
        (jito_entries cfg s1.next_id (jito_entry_name total idx cfg) s2)

  unfoldable pub account_name : YellowstoneConfig → String → String
  account_name cfg name =
      if blank cfg.account_name then join name " (account)" else cfg.account_name

  -- The second id, for the account measurement, and the state after it.
  unfoldable pub account_source : YellowstoneConfig → String → Setup → Option SourceId × Setup
  unfolding account_name alloc add_entry_source
  account_source cfg name s =
      if blank cfg.account_pubkey
      then (none, s)
      else (some s.next_id, add_entry_source s.next_id (account_name cfg name) (alloc s))

  unfoldable pub start_yellowstone : ℕ → ℕ → YellowstoneConfig → Setup → Option Setup
  unfolding launch account_source
  start_yellowstone total idx cfg s = do
    let name = source_name cfg.name "Yellowstone" idx total
    let with_account = account_source cfg name (alloc s)
    s1 ← launch (yellowstone_run cfg s.next_id with_account.0) with_account.1
    some (add_entry_source s.next_id name s1)

  -- The sources that listen themselves, in the order of `main`.
  unfoldable pub start_sources : SourcesConfig → Setup → Option Setup
  unfolding start_each enabled
  start_sources cfg s = do
    let raw = enabled (λ (c : RawUdpConfig). c.enabled) cfg.raw_udp
    let jito = enabled (λ (c : JitoConfig). c.enabled) cfg.jito
    let dz = enabled (λ (c : DoubleZeroConfig). c.enabled) cfg.doublezero
    let ys = enabled (λ (c : YellowstoneConfig). c.enabled) cfg.yellowstone
    s1 ← start_each (start_raw_udp (length raw)) 0 raw s
    s2 ← start_each (start_jito (length jito)) 0 jito s1
    s3 ← start_each (start_doublezero (length dz)) 0 dz s2
    start_each (start_yellowstone (length ys)) 0 ys s3
