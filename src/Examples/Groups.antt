-- ===== src/Examples/Groups.antt =====
-- Three packet captures for src/main.rs and src/sources/pcap.rs, two of them on one port.
use Prim.Native.String.{String}
use orbshred.Prelude.{
  ℕ, suc, ◌≡◌, ◌↔◌, refl, Bool, true, false, Option, none, some, List, [], ◌∷◌, map, length,
  if◌then◌else◌, arith,
}
use orbshred.Exec.{ok}
use orbshred.DashMap.{lookup_by}
use orbshred.Registry.{ShredEvent}
use orbshred.Pcap.{Ipv4Addr, extract_src_ip, extract_udp_payload}
use orbshred.Pcap.Built.{build_frame, build_frame-extract}
use orbshred.Bpf.{build_bpf_filter, run_cbpf}
use orbshred.Pcap.Capture.Offers.{all_offers}
use orbshred.Pcap.Capture.Ledger.{Ledger}
use orbshred.Pcap.Socket.{CaptureCalls, Reception, got, nothing, Process, run_capture}
use orbshred.Pcap.Socket.Closed.{leaks, received, works, run_capture-Closed}
use orbshred.Config.{PcapConfig, SourcesConfig}
use orbshred.Setup.{Started, Setup, no_sources, enabled, start_sources, start_each}
use orbshred.Setup.Ids.{IsNumbered}
use orbshred.Setup.Captures.{Groups, CaptureKey, capture_of, same_group, register_each, start_all}
use orbshred.Setup.Captures.Sockets.{RunsEach}
use orbshred.Setup.Captures.Grouped.{OneEach, joined, members_for, start_all-Grouped}
use orbshred.Examples.Datagrams.{copying, anchor}
use orbshred.Examples.Captures.{sender, routes, shred_frame, channel, start}
use orbshred.Examples.Packets.{datagram, datagram_bytes}
use orbshred.Examples.Records.{store}

abbrev pcap : Bool → ℕ → PcapConfig
pcap on port = record {
  name = "capture";
  enabled = on;
  port = port;
  interface = "";
  recv_buf_size = port;
  source_ips = [];
  exclude_ips = [];
  pin_cpu = none;
}

abbrev config : SourcesConfig
config = record {
  raw_udp = [];
  jito = [];
  doublezero = [];
  yellowstone = [];
  pcap = pcap true 1 ∷ pcap false 1 ∷ pcap true 2 ∷ pcap true 1 ∷ [];
}

abbrev shown : ℕ → String
shown n = "1"

abbrev starts : Started → Bool
starts r = true

abbrev parse : String → Option Ipv4Addr
parse s = none

abbrev on : List PcapConfig
on = enabled (λ (c : PcapConfig). c.enabled) config.pcap

abbrev registered : Setup × Groups
registered = register_each shown starts parse (length on) 0 on (no_sources, [])

started :
    start_all shown starts parse config no_sources
    ≡ some (registered.0, map capture_of registered.1)
unfolding start_all start_sources start_each enabled
started = refl

start_all-Grouped_example :
    (s1 : Setup) × (gs : Groups) × (start_sources shown starts config no_sources ≡ some s1)
    × RunsEach gs (map capture_of registered.1)
    × IsNumbered (registered.0).next_id registered.0
    × OneEach gs
    × ((κ : CaptureKey)
        → joined (lookup_by same_group κ gs) []
          ≡ joined none (members_for shown starts parse κ (length on) 0 on s1.next_id))
start_all-Grouped_example =
    start_all-Grouped shown starts parse config registered.0 (map capture_of registered.1)
      (omega arith) started

-- The interface's name has a NUL byte.
abbrev calls : CaptureCalls
calls = record {
  opens = true;
  permitted = true;
  attaches = true;
  name_ok = false;
  ifindex = 2;
  binds = true;
  kernel_timestamps = true;
}

abbrev receptions : List Reception
receptions = nothing ∷ got (record { bytes = shred_frame; messages = [] }) 5 ∷ []

run_capture-Closed_example :
    (p : Process copying store channel) × (es : List ShredEvent) × (run_capture copying store
        channel anchor calls "eth0" routes receptions start 4
      ≡ ok p)
    × (p.open_fds ≡ (if leaks calls "eth0" then suc 4 else 4))
    × ((p.error ≡ none) ↔ (works calls "eth0" ≡ true))
    × (all_offers routes
          (if works calls "eth0" then received copying store channel anchor true receptions else [])
        ≡ ok es)
    × Ledger store channel es start p.capture
run_capture-Closed_example =
    run_capture-Closed copying store channel anchor calls "eth0" routes receptions start 4
      (omega arith)

abbrev port : ℕ
port = 8001

-- The shred to the port behind VLAN tag 42.
build_frame-extract_example :
    let f = build_frame (some 42) sender port datagram in
    (extract_src_ip f ≡ ok (some sender))
    × (extract_udp_payload f ≡ ok (some datagram))
    × ((run_cbpf (build_bpf_filter port) f ≡ ok 0xffff) ↔ (port ≡ port))
build_frame-extract_example =
    build_frame-extract (some 42) sender port port datagram
      (omega arith, omega arith, omega arith, omega arith) datagram_bytes (omega arith)
      (omega arith)
