-- ===== src/Pcap/Built.antt =====
-- src/sources/pcap.rs:334-365: the frames that the tests build, and what the filter and the
-- extractors make of them.
use orbshred.Prelude.{
  ℕ, suc, ◌+◌, ◌/◌, ◌%◌, ◌<◌, ◌≡◌, refl, ap, subst, ◌↔◌, false, Option, none, some, [], ◌∷◌, ◌++◌,
  length, take, drop, ltb, arith, inl, inr,
}
use orbshred.Exec.{ok, Bytes, AreBytes, index_ok}
use orbshred.Pcap.{Ipv4Addr, extract_src_ip, src_ip_at, extract_udp_payload}
use orbshred.Pcap.Frame.{IpStart, DatagramAt, ip_header_offset_iff, extract_udp_payload_iff}
use orbshred.Bpf.{build_bpf_filter, run_cbpf}
use orbshred.Bpf.Accepts.{PassAt, run_cbpf_iff}

-- `to_be_bytes` of a `u16`, which `as u16` cuts off.
abbrev pub be_bytes : ℕ → Bytes
be_bytes n = n / 256 % 256 ∷ n % 256 ∷ []

-- `vid & 0x0fff`
abbrev pub vlan_tag_bytes : Option ℕ → Bytes
vlan_tag_bytes none = []
vlan_tag_bytes (some vid) = 0x81 ∷ 0x00 ∷ be_bytes (vid % 4096)

abbrev pub ip_bytes : Ipv4Addr → Bytes
ip_bytes ip = ip.a ∷ ip.b ∷ ip.c ∷ ip.d ∷ []

-- From the ethertype on.
abbrev pub packet : Ipv4Addr → ℕ → Bytes → Bytes
packet src_ip dst_port payload =
    0x08
    ∷ 0x00
    ∷ 0x45
    ∷ 0x00
    ∷ (be_bytes (20 + 8 + length payload)
        ++ (0
            ∷ 0
            ∷ 0
            ∷ 0
            ∷ 64
            ∷ 17
            ∷ 0
            ∷ 0
            ∷ (ip_bytes src_ip
                ++ (10
                    ∷ 0
                    ∷ 0
                    ∷ 1
                    ∷ (be_bytes 1234
                        ++ (be_bytes dst_port
                            ++ (be_bytes (8 + length payload) ++ (0 ∷ 0 ∷ payload))))))))

abbrev pub build_frame : Option ℕ → Ipv4Addr → ℕ → Bytes → Bytes
build_frame vlan_tag src_ip dst_port payload =
    0
    ∷ 0
    ∷ 0
    ∷ 0
    ∷ 0
    ∷ 0
    ∷ 0
    ∷ 0
    ∷ 0
    ∷ 0
    ∷ 0
    ∷ 0
    ∷ (vlan_tag_bytes vlan_tag ++ packet src_ip dst_port payload)

abbrev pub IsAddress : Ipv4Addr → Type 0
IsAddress ip = (ip.a < 256) × (ip.b < 256) × (ip.c < 256) × (ip.d < 256)

take_all : (n : ℕ) (xs : Bytes) → n ≡ length xs → xs ≡ take n xs
unfolding take
take_all n [] h = let z : n ≡ 0 = omega arith in rw z
take_all n (x ∷ xs) h =
    let z : n ≡ suc (length xs) = omega arith in
    rw z (ap (λ ys. x ∷ ys) (take_all (length xs) xs refl))

-- Where the IPv4 header of a built frame starts.
abbrev pub header_start : Option ℕ → ℕ
header_start none = 14
header_start (some vid) = 18

AreBytes-packet :
    (ip : Ipv4Addr) (port : ℕ) (payload : Bytes)
    → IsAddress ip
    → AreBytes payload
    → AreBytes (packet ip port payload)
AreBytes-packet ip port payload a b = grind arith

AreBytes-build_frame :
    (tag : Option ℕ) (ip : Ipv4Addr) (port : ℕ) (payload : Bytes)
    → IsAddress ip
    → AreBytes payload
    → AreBytes (build_frame tag ip port payload)
AreBytes-build_frame none ip port payload a b =
    let rest = AreBytes-packet ip port payload a b in grind arith
AreBytes-build_frame (some vid) ip port payload a b =
    let rest = AreBytes-packet ip port payload a b in grind arith

pub built_IpStart :
    (tag : Option ℕ) (ip : Ipv4Addr) (port : ℕ) (payload : Bytes)
    → IpStart (build_frame tag ip port payload) (header_start tag)
built_IpStart none ip port payload = inl (refl, omega arith, refl)
built_IpStart (some vid) ip port payload = inr (refl, omega arith, refl, refl)

-- At most one of the two places.
IpStart-unique :
    (tag : Option ℕ) (ip : Ipv4Addr) (port s : ℕ) (payload : Bytes)
    → IpStart (build_frame tag ip port payload) s
    → s ≡ header_start tag
IpStart-unique none ip port s payload (inl h) = h.0
IpStart-unique none ip port s payload (inr h) = absurd (omega (arith, h.2))
IpStart-unique (some vid) ip port s payload (inl h) = absurd (omega (arith, h.2))
IpStart-unique (some vid) ip port s payload (inr h) = h.0

built_DatagramAt :
    (tag : Option ℕ) (ip : Ipv4Addr) (port : ℕ) (payload : Bytes)
    → 28 + length payload < 65536
    → DatagramAt (build_frame tag ip port payload) (header_start tag) payload
unfolding drop
built_DatagramAt none ip port payload h =
    (omega arith, omega arith, refl, refl, omega arith, take_all _ payload (omega arith))
built_DatagramAt (some vid) ip port payload h =
    (omega arith, omega arith, refl, refl, omega arith, take_all _ payload (omega arith))

built_PassAt :
    (tag : Option ℕ) (ip : Ipv4Addr) (port q : ℕ) (payload : Bytes)
    → port < 65536
    → PassAt q (build_frame tag ip port payload) (header_start tag) ↔ (q ≡ port)
built_PassAt none ip port q payload h =
    (λ p. omega (arith, p.4), λ e. (omega arith, refl, refl, omega arith, omega arith))
built_PassAt (some vid) ip port q payload h =
    (λ p. omega (arith, p.4), λ e. (omega arith, refl, refl, omega arith, omega arith))

src_ip_at-built :
    (tag : Option ℕ) (ip : Ipv4Addr) (port : ℕ) (payload : Bytes)
    → src_ip_at (build_frame tag ip port payload) (header_start tag) ≡ ok (some ip)
unfolding src_ip_at
src_ip_at-built none ip port payload =
    let f = build_frame none ip port payload in
    let long : ltb (length f) 30 ≡ false = ground arith in
    rw (
      long,
      index_ok f 26 (omega arith),
      index_ok f 27 (omega arith),
      index_ok f 28 (omega arith),
      index_ok f 29 (omega arith),
    )
src_ip_at-built (some vid) ip port payload =
    let f = build_frame (some vid) ip port payload in
    let long : ltb (length f) 34 ≡ false = ground arith in
    rw (
      long,
      index_ok f 30 (omega arith),
      index_ok f 31 (omega arith),
      index_ok f 32 (omega arith),
      index_ok f 33 (omega arith),
    )

-- A UDP packet that is built into a frame, with or without a VLAN tag, is taken apart again: the
-- extractors give back its source address and its payload, and the filter for a port accepts it just
-- if the packet was sent to that port. The address and the payload are bytes, the port is below 2^16,
-- and the packet's length fits its field.
pub build_frame-extract :
    (tag : Option ℕ) (ip : Ipv4Addr) (port q : ℕ) (payload : Bytes)
    → IsAddress ip
    → AreBytes payload
    → port < 65536
    → 28 + length payload < 65536
    → let f = build_frame tag ip port payload in
      (extract_src_ip f ≡ ok (some ip))
      × (extract_udp_payload f ≡ ok (some payload))
      × ((run_cbpf (build_bpf_filter q) f ≡ ok 0xffff) ↔ (q ≡ port))
unfolding extract_src_ip
build_frame-extract tag ip port q payload a b small short =
    let f = build_frame tag ip port payload in
    let s = header_start tag in
    let bytes = AreBytes-build_frame tag ip port payload a b in
    let start = built_IpStart tag ip port payload in
    let pass = built_PassAt tag ip port q payload small in
    (
      rw ((ip_header_offset_iff f s).1 start) (src_ip_at-built tag ip port payload),
      (extract_udp_payload_iff f payload bytes).1
          (s, start, built_DatagramAt tag ip port payload short),
      (
        λ e.
            let (s', start', p) = (run_cbpf_iff q f bytes).0 e in
            pass.0 (subst (PassAt q f) (IpStart-unique tag ip port s' payload start') p),
        λ e. (run_cbpf_iff q f bytes).1 (s, start, pass.1 e),
      ),
    )
