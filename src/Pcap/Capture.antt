-- ===== src/Pcap/Capture.antt =====
-- src/sources/pcap.rs:251-316: what `capture_loop` does with each frame that it receives. A frame
-- and its receive time come from the kernel; the sender is a channel.
pub mod Offers
pub mod Ledger
use orbshred.Prelude.{
  ℕ, zero, suc, ◌+◌, ◌%◌, ◌^◌, ◌≡◌, Bool, true, false, ◌||◌, Option, none, some, List, [], ◌∷◌, map,
  length, if◌then◌else◌,
}
use orbshred.Exec.{Exec, ok, panic, ◌>>=◌, Bytes}
use orbshred.Shred.{ShredKey, parse_shred_key}
use orbshred.Channel.{Channel}
use orbshred.Registry.{Instant, ShredEvent, Store, DropCounters, inc}
use orbshred.Stats.{add_u64}
use orbshred.Pcap.{Ipv4Addr, extract_src_ip, extract_udp_payload}
use orbshred.Pcap.Route.{PcapRoute, has_filter, route_matches}

abbrev pub event_of : ShredKey → Instant → PcapRoute → ShredEvent
event_of key t r = record { source = r.source_id; key = key; received_at = t }

unfoldable pub any_filter : List PcapRoute → Bool
any_filter [] = false
any_filter (r ∷ rs) = has_filter r || any_filter rs

-- `route_counts[i] += 1`
unfoldable pub bump : ℕ → List ℕ → Exec (List ℕ)
bump i [] = panic
bump zero (c ∷ cs) = ok (add_u64 c 1 ∷ cs)
bump (suc i) (c ∷ cs) = do cs' ← bump i cs; ok (c ∷ cs')

unfoldable pub zero_counts : List PcapRoute → List ℕ
zero_counts [] = []
zero_counts (r ∷ rs) = 0 ∷ zero_counts rs

module _ (st : Store) (ch : Channel ShredEvent) where
  open ch use {Queue, try_send}

  pub record Capture : Type 0 where
    pub tx : Queue
    pub drops : DropCounters st
    pub raw_count : ℕ
    pub parsed_count : ℕ
    pub route_counts : List ℕ

  unfoldable pub start_capture : List PcapRoute → Queue → DropCounters st → Capture
  unfolding zero_counts
  start_capture routes tx drops = record {
    tx = tx;
    drops = drops;
    raw_count = 0;
    parsed_count = 0;
    route_counts = zero_counts routes;
  }

  -- What the answer of `try_send` leads to.
  unfoldable pub after_send : ShredEvent → Option Queue → Capture → Capture
  after_send e none s = record s { drops = inc st e.source s.drops }
  after_send e (some q) s = record s { tx = q }

  unfoldable pub send_event : ShredEvent → Capture → Capture
  unfolding after_send
  send_event e s = after_send e (try_send e s.tx) s

  unfoldable pub on_route :
      ShredKey → Instant → Option Ipv4Addr → ℕ → PcapRoute → Capture → Exec Capture
  unfolding send_event
  on_route key t src i r s =
      if route_matches r src
      then (do
        counts ← bump i s.route_counts
        ok (send_event (event_of key t r) (record s { route_counts = counts })))
      else ok s

  -- The loop over the routes from the `i`-th on.
  unfoldable pub route_loop :
      ShredKey → Instant → Option Ipv4Addr → ℕ → List PcapRoute → Capture → Exec Capture
  route_loop key t src i [] s = ok s
  route_loop key t src i (r ∷ rs) s = do
    s' ← on_route key t src i r s
    route_loop key t src (suc i) rs s'

  unfoldable pub on_key :
      List PcapRoute → Instant → Option Ipv4Addr → Option ShredKey → Capture → Exec Capture
  unfolding route_loop
  on_key routes t src none s = ok s
  on_key routes t src (some key) s =
      route_loop key t src 0 routes (record s { parsed_count = add_u64 s.parsed_count 1 })

  unfoldable pub on_payload :
      List PcapRoute → Instant → Option Ipv4Addr → Option Bytes → Capture → Exec Capture
  unfolding on_key
  on_payload routes t src none s = ok s
  on_payload routes t src (some payload) s = do
    key ← parse_shred_key payload
    on_key routes t src key s

  unfoldable pub on_frame : List PcapRoute → Bytes × Instant → Capture → Exec Capture
  unfolding any_filter on_payload
  on_frame routes (frame, t) s = do
    let counted = record s { raw_count = add_u64 s.raw_count 1 }
    src ← if any_filter routes then extract_src_ip frame else ok none
    payload ← extract_udp_payload frame
    on_payload routes t src payload counted

  -- The frames received before the token is cancelled.
  unfoldable pub capture_loop : List PcapRoute → List (Bytes × Instant) → Capture → Exec Capture
  unfolding on_frame
  capture_loop routes [] s = ok s
  capture_loop routes (f ∷ fs) s = do s' ← on_frame routes f s; capture_loop routes fs s'
