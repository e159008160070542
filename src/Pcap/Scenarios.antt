-- ===== src/Pcap/Scenarios.antt =====
-- src/sources/pcap.rs:367-457: the frames and routes of the tests
-- that are no edited UDP packets.
use orbshred.Prelude.{
  ℕ, ◌+◌, ◌≡◌, refl, true, false, Option, none, some, [], ◌∷◌, ◌++◌, get_elem?, arith,
}
use orbshred.Exec.{Exec, ok, ◌>>=◌, Bytes, index}
use orbshred.KernelTs.{replicate}
use orbshred.Pcap.{
  Ipv4Addr, word_at, ip_header_offset, extract_udp_payload, ip_payload_at, datagram_at,
  udp_payload_at,
}
use orbshred.Pcap.Frame.{ip_header_offset_iff}
use orbshred.Pcap.Built.{build_frame, header_start, built_IpStart}
use orbshred.Pcap.Route.{PcapRoute, route_matches, has_filter, address_matches, has_ip}
use orbshred.Bpf.{build_bpf_filter, run_cbpf, SockFilter}
use orbshred.Bpf.Frames.{set_byte}

abbrev addr : ℕ → Ipv4Addr
addr n = record { a = n; b = n; c = n; d = n }

-- An ARP frame, cut off behind the ethertype and padded with `n` bytes.
unfoldable pub arp_frame : ℕ → Bytes
arp_frame n = replicate 12 0 ++ (0x08 ∷ 0x06 ∷ replicate n 0)

-- A VLAN tag around IPv6.
unfoldable pub vlan_ipv6_frame : ℕ → Bytes
vlan_ipv6_frame n = replicate 12 0 ++ (0x81 ∷ 0x00 ∷ 0x00 ∷ 0x0a ∷ 0x86 ∷ 0xdd ∷ replicate n 0)

unfoldable pub truncated_frame : Bytes
truncated_frame = replicate 13 0

unfoldable pub truncated_vlan_frame : Bytes
truncated_vlan_frame = replicate 12 0 ++ (0x81 ∷ 0x00 ∷ 0x00 ∷ 0x0a ∷ [])

-- The protocol is TCP.
unfoldable pub tcp_frame : Exec Bytes
unfolding set_byte
tcp_frame =
    set_byte (14 + 9) 6 (build_frame none (record { a = 1; b = 2; c = 3; d = 4 }) 8001 (120 ∷ []))

-- A later fragment.
unfoldable pub fragment_frame : Exec Bytes
unfolding set_byte
fragment_frame = do
  f ← set_byte (14 + 6) 0 (build_frame none (record { a = 1; b = 2; c = 3; d = 4 }) 8001 (120 ∷ []))
  set_byte (14 + 7) 1 f

unfoldable pub include_route : PcapRoute
include_route = record { source_id = 1; include_ips = addr 1 ∷ []; exclude_ips = [] }

unfoldable pub exclude_route : PcapRoute
exclude_route = record { source_id = 1; include_ips = []; exclude_ips = addr 9 ∷ [] }

arp_rejected : (n : ℕ) → ip_header_offset (arp_frame n) ≡ ok none
unfolding arp_frame ip_header_offset word_at index
arp_rejected n = ground arith

vlan_ipv6_rejected : (n : ℕ) → ip_header_offset (vlan_ipv6_frame n) ≡ ok none
unfolding vlan_ipv6_frame ip_header_offset word_at index
vlan_ipv6_rejected n = ground arith

truncated_rejected :
    (ip_header_offset truncated_frame ≡ ok none) × (ip_header_offset truncated_vlan_frame ≡ ok none)
unfolding truncated_frame truncated_vlan_frame ip_header_offset word_at index
truncated_rejected = (refl, refl)

built_offset :
    (tag : Option ℕ) (ip : Ipv4Addr) (port : ℕ) (payload : Bytes)
    → ip_header_offset (build_frame tag ip port payload) ≡ ok (some (header_start tag))
built_offset tag ip port payload =
    (ip_header_offset_iff (build_frame tag ip port payload) (header_start tag)).1
      (built_IpStart tag ip port payload)

tcp_rejected : (tcp_frame >>= extract_udp_payload) ≡ ok none
unfolding tcp_frame extract_udp_payload ip_header_offset ip_payload_at datagram_at udp_payload_at
    word_at index
tcp_rejected = refl

fragment_rejected : (fragment_frame >>= extract_udp_payload) ≡ ok none
unfolding fragment_frame extract_udp_payload ip_header_offset ip_payload_at datagram_at
    udp_payload_at word_at index
fragment_rejected = refl

routes_match :
    (route_matches include_route (some (addr 1)) ≡ true)
    × (route_matches include_route (some (addr 2)) ≡ false)
    × (route_matches include_route none ≡ false)
    × (route_matches exclude_route (some (addr 1)) ≡ true)
    × (route_matches exclude_route (some (addr 9)) ≡ false)
unfolding include_route exclude_route route_matches has_filter address_matches has_ip
routes_match = (refl, refl, refl, refl, refl)

-- The filter drops what is no IPv4, as the extractor does.
arp_dropped : (port n : ℕ) → run_cbpf (build_bpf_filter port) (arp_frame n) ≡ ok 0
unfolding arp_frame run_cbpf build_bpf_filter index
arp_dropped port n = ground arith

vlan_ipv6_dropped : (port n : ℕ) → run_cbpf (build_bpf_filter port) (vlan_ipv6_frame n) ≡ ok 0
unfolding vlan_ipv6_frame run_cbpf build_bpf_filter index
vlan_ipv6_dropped port n = ground arith

-- Both comparisons with the port carry it.
port_immediates :
    (port : ℕ)
    → (i j : SockFilter) × (get_elem? (build_bpf_filter port) 11 ≡ some i)
      × (get_elem? (build_bpf_filter port) 18 ≡ some j)
      × (i.k ≡ port)
      × (j.k ≡ port)
unfolding build_bpf_filter
port_immediates port = (_, _, refl, refl, refl, refl)
