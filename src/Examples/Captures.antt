-- ===== src/Examples/Captures.antt =====
-- A concrete capture for src/sources/pcap.rs: two routes, room for one event.
use orbshred.Prelude.{◌≡◌, refl, List, [], ◌∷◌, ◌++◌, arith}
use orbshred.Exec.{ok, Bytes}
use orbshred.Channel.{Channel, bounded}
use orbshred.Registry.{Instant, ShredEvent}
use orbshred.Pcap.{Ipv4Addr}
use orbshred.Pcap.Route.{PcapRoute}
use orbshred.Pcap.Capture.{Capture, start_capture, capture_loop}
use orbshred.Pcap.Capture.Offers.{all_offers}
use orbshred.Pcap.Capture.Ledger.{Handled, capture_loop-Handled}
use orbshred.Examples.Packets.{zeros, datagram}
use orbshred.Examples.Records.{store}

abbrev pub sender : Ipv4Addr
sender = record { a = 10; b = 0; c = 0; d = 1 }

abbrev pub routes : List PcapRoute
routes =
    record { source_id = 1; include_ips = sender ∷ []; exclude_ips = [] }
    ∷ record { source_id = 2; include_ips = []; exclude_ips = [] }
    ∷ []

-- An IPv4 packet from the sender with the shred as its payload.
abbrev pub shred_frame : Bytes
shred_frame =
    zeros 12
    ++ (8 ∷ 0 ∷ 69 ∷ 0 ∷ 0 ∷ 114 ∷ 0 ∷ 0 ∷ 0 ∷ 0 ∷ 64 ∷ 17 ∷ 0 ∷ 0 ∷ 10 ∷ 0 ∷ 0 ∷ 1 ∷ 10 ∷ 0 ∷ 0 ∷ 2
        ∷ 0 ∷ 1 ∷ 31 ∷ 64 ∷ 0 ∷ 94 ∷ 0 ∷ 0 ∷ datagram)

abbrev pub channel : Channel ShredEvent
channel = bounded 1

abbrev frames : List (Bytes × Instant)
frames = (shred_frame, 5) ∷ (zeros 20, 6) ∷ []

abbrev pub start : Capture store channel
start = record { tx = []; drops = []; raw_count = 0; parsed_count = 0; route_counts = 0 ∷ 0 ∷ [] }

captured_start : start_capture store channel routes [] [] ≡ start
unfolding start_capture
captured_start = refl

abbrev filtered : PcapRoute
filtered = record { source_id = 1; include_ips = sender ∷ []; exclude_ips = [] }

capture_loop-Handled_example :
    (es : List ShredEvent) × (all_offers routes frames ≡ ok es)
    × Handled store channel (capture_loop store channel routes frames start) es start
capture_loop-Handled_example = capture_loop-Handled store channel routes frames start (omega arith)
