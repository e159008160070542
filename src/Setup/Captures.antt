-- ===== src/Setup/Captures.antt =====
-- src/main.rs:260-305: the packet captures. Those with the same port and interface share one socket.
-- The groups are kept in the order of their first member, not in that of a `BTreeMap`: only the order
-- of the sockets' starts shows it. `parse` reads an IPv4 address.
pub mod Sockets
pub mod Grouped
use Prim.Native.String.{String}
use mathlib.Core.List.{filter_map}
use orbshred.Prelude.{
  ℕ, ◌+◌, Bool, ◌&&◌, Option, none, some, List, [], ◌∷◌, ◌++◌, map, length, max, ◌==◌,
  if◌then◌else◌,
}
use orbshred.Prelude.Strings.{same_text}
use orbshred.DashMap.{upsert_by}
use orbshred.Registry.{SourceId}
use orbshred.Pcap.{Ipv4Addr}
use orbshred.Pcap.Route.{PcapRoute}
use orbshred.Config.{PcapConfig, SourcesConfig}
use orbshred.Setup.{Setup, Started, ◌>>=◌, alloc, add_shred, source_name, enabled, start_sources}

pub record CaptureKey : Type 0 where
  pub port : ℕ
  pub interface : String

pub record Member : Type 0 where
  pub name : String
  pub id : SourceId
  pub include_ips : List Ipv4Addr
  pub exclude_ips : List Ipv4Addr
  pub recv_buf_size : ℕ
  pub pin_cpu : Option ℕ

abbrev pub Groups : Type 0
Groups = List (CaptureKey × List Member)

-- What `sources::pcap::run` is called with.
pub record CaptureRun : Type 0 where
  pub port : ℕ
  pub interface : String
  pub recv_buf_size : ℕ
  pub routes : List PcapRoute
  pub pin_cpu : Option ℕ

-- `max().unwrap_or(0)`
unfoldable pub largest_buf : List Member → ℕ
largest_buf [] = 0
largest_buf (m ∷ ms) = max m.recv_buf_size (largest_buf ms)

-- `find_map(|m| m.pin_cpu)`
unfoldable pub first_pin : List Member → Option ℕ
first_pin [] = none
first_pin (m ∷ ms) = elim m.pin_cpu [ none ↦ first_pin ms | some cpu ↦ some cpu ]

abbrev pub route_of : Member → PcapRoute
route_of m = record { source_id = m.id; include_ips = m.include_ips; exclude_ips = m.exclude_ips }

unfoldable pub capture_of : CaptureKey × List Member → CaptureRun
unfolding largest_buf first_pin
capture_of (key, members) = record {
  port = key.port;
  interface = key.interface;
  recv_buf_size = largest_buf members;
  routes = map route_of members;
  pin_cpu = first_pin members;
}

abbrev pub same_group : CaptureKey → CaptureKey → Bool
same_group a b = a.port == b.port && same_text a.interface b.interface

abbrev pub key_of_config : PcapConfig → CaptureKey
key_of_config cfg = record { port = cfg.port; interface = cfg.interface }

-- `groups.entry(key).or_default().push(member)`
unfoldable pub add_member : CaptureKey → Member → Groups → Groups
add_member key m = upsert_by same_group key (λ ms. ms ++ (m ∷ [])) (m ∷ [])

module _ (shown : ℕ → String) (starts : Started → Bool) (parse : String → Option Ipv4Addr) where
  unfoldable pub member_of : ℕ → ℕ → PcapConfig → SourceId → Member
  unfolding source_name
  member_of total idx cfg id = record {
    name = source_name shown starts cfg.name "Raw Capture" idx total;
    id = id;
    include_ips = filter_map parse cfg.source_ips;
    exclude_ips = filter_map parse cfg.exclude_ips;
    recv_buf_size = cfg.recv_buf_size;
    pin_cpu = cfg.pin_cpu;
  }

  unfoldable pub register_capture : ℕ → ℕ → PcapConfig → Setup × Groups → Setup × Groups
  unfolding member_of add_member alloc add_shred
  register_capture total idx cfg (s, groups) =
      let m = member_of total idx cfg s.next_id in
      (add_shred m.id m.name (alloc s), add_member (key_of_config cfg) m groups)

  -- The loop over the enabled captures from the `idx`-th on.
  unfoldable pub register_each : ℕ → ℕ → List PcapConfig → Setup × Groups → Setup × Groups
  unfolding register_capture
  register_each total idx [] s = s
  register_each total idx (c ∷ cs) s =
      register_each total (idx + 1) cs (register_capture total idx c s)

  -- All sources: those that listen themselves, then the captures.
  unfoldable pub start_all : SourcesConfig → Setup → Option (Setup × List CaptureRun)
  unfolding start_sources register_each capture_of enabled
  start_all cfg s = do
    s1 ← start_sources shown starts cfg s
    let captures = enabled (λ (c : PcapConfig). c.enabled) cfg.pcap
    let registered = register_each (length captures) 0 captures (s1, [])
    some (registered.0, map capture_of registered.1)
