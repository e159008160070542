-- ===== src/Bpf/Accepts.antt =====
-- src/sources/bpf_filter.rs: which packets the filter lets through, and that the extractor of
-- src/sources/pcap.rs takes no packet for the port that the filter would have dropped.
use orbshred.Prelude.{
  ℕ, ◌+◌, ◌*◌, ◌%◌, ◌≤◌, ◌<◌, ◌≡◌, ◌↔◌, subst, ◌⊎◌, inl, inr, some, bit_and, arith, length, ltb,
  ◌==◌, if◌then◌else◌,
}
use orbshred.Prelude.Bits.{bit_and-low_nibble, bit_and-low_13}
use orbshred.Exec.{ok, panic, Bytes, AreBytes, AreBytes-byte_at, index_eq, index_ok, byte_at}
use orbshred.Pcap.{word_at, extract_udp_payload}
use orbshred.Pcap.Frame.{word, word-lt, IpStart, header_len, extract_udp_payload_iff}
use orbshred.Bpf.{build_bpf_filter, run_cbpf}
use orbshred.Bpf.Run.{dst_at, frag_at, path_at, demux, run_cbpf-demux}

word_at_eq :
    (buf : Bytes) (i : ℕ)
    → word_at buf i ≡ (if ltb (i + 1) (length buf) then ok (word buf i) else panic)
unfolding word_at
word_at_eq buf i = ground (arith, index_eq buf i, index_eq buf (i + 1))

-- Behind an IPv4 header at `s`: UDP, not a later fragment, and sent to `port`, all of it in range.
abbrev pub PassAt : ℕ → Bytes → ℕ → Type 0
PassAt port buf s =
    (s + 10 ≤ length buf)
    × (byte_at buf (s + 9) ≡ 17)
    × (word buf (s + 6) % 8192 ≡ 0)
    × (s + header_len buf s + 4 ≤ length buf)
    × (word buf (s + header_len buf s + 2) ≡ port)

-- The port's offset as the program adds it up.
dst_off :
    (buf : Bytes) (s : ℕ)
    → AreBytes buf
    → bit_and (byte_at buf s) 0x0f * 4 + (s + 2) ≡ s + header_len buf s + 2
dst_off buf s b = omega (arith, bit_and-low_nibble (byte_at buf s) (AreBytes-byte_at buf s b))

dst_at_eq :
    (port s : ℕ) (buf : Bytes)
    → AreBytes buf
    → s < length buf
    → dst_at port s buf ≡ (
        if ltb (s + header_len buf s + 3) (length buf)
        then ok (if word buf (s + header_len buf s + 2) == port then 0xffff else 0)
        else panic)
unfolding dst_at
dst_at_eq port s buf b h =
    rw (index_ok buf s h, dst_off buf s b, word_at_eq buf (s + header_len buf s + 2)) (ground arith)

path_at_iff :
    (port s : ℕ) (buf : Bytes) → AreBytes buf → (path_at port s buf ≡ ok 0xffff) ↔ PassAt port buf s
unfolding path_at frag_at
path_at_iff port s buf b = ground (
  arith,
  index_eq buf (s + 9),
  word_at_eq buf (s + 6),
  bit_and-low_13 (word buf (s + 6)) (word-lt buf (s + 6) b),
  dst_at_eq port s buf b,
)

abbrev Branch : ℕ → Bytes → ℕ → Type 0
Branch port buf s = IpStart buf s × (path_at port s buf ≡ ok 0xffff)

demux_iff :
    (port : ℕ) (buf : Bytes)
    → (demux port buf ≡ ok 0xffff) ↔ (Branch port buf 14 ⊎ Branch port buf 18)
unfolding demux
demux_iff port buf = ground (arith, word_at_eq buf 12, word_at_eq buf 16)

-- The filter accepts exactly the IPv4 packets, plain or behind one VLAN tag, that carry UDP to the
-- port and are no later fragment. A packet too short for these reads is not accepted.
pub run_cbpf_iff :
    (port : ℕ) (buf : Bytes)
    → AreBytes buf
    → (run_cbpf (build_bpf_filter port) buf ≡ ok 0xffff)
      ↔ ((s : ℕ) × IpStart buf s × PassAt port buf s)
run_cbpf_iff port buf b = rw (run_cbpf-demux port buf) (from, to)
  where
    from : demux port buf ≡ ok 0xffff → (s : ℕ) × IpStart buf s × PassAt port buf s
    from e = elim ((demux_iff port buf).0 e) [
      | inl (i, q) ↦ (14, i, (path_at_iff port 14 buf b).0 q)
      | inr (i, q) ↦ (18, i, (path_at_iff port 18 buf b).0 q)
    ]

    to : ((s : ℕ) × IpStart buf s × PassAt port buf s) → demux port buf ≡ ok 0xffff
    to (s, inl i, q) =
        let q' : PassAt port buf 14 = subst (PassAt port buf) i.0 q in
        (demux_iff port buf).1 (inl (ground arith, (path_at_iff port 14 buf b).1 q'))
    to (s, inr i, q) =
        let q' : PassAt port buf 18 = subst (PassAt port buf) i.0 q in
        (demux_iff port buf).1 (inr (ground arith, (path_at_iff port 18 buf b).1 q'))

-- Nothing that the extractor would take is lost in the kernel: a frame of which the extractor takes a
-- payload is an IPv4 packet, plain or behind one VLAN tag, and the filter for the destination port of
-- its UDP header accepts it.
pub extract_udp_payload-passes :
    (buf p : Bytes)
    → AreBytes buf
    → extract_udp_payload buf ≡ ok (some p)
    → (s : ℕ) × IpStart buf s
      × (run_cbpf (build_bpf_filter (word buf (s + header_len buf s + 2))) buf ≡ ok 0xffff)
extract_udp_payload-passes buf p b e =
    let (s, i, d) = (extract_udp_payload_iff buf p b).0 e in
    (s, i, (run_cbpf_iff (word buf (s + header_len buf s + 2)) buf b).1 (s, i, omega arith))

path_at_returns :
    (port s : ℕ) (buf : Bytes)
    → AreBytes buf
    → s + 64 ≤ length buf
    → (path_at port s buf ≡ ok 0xffff) ⊎ (path_at port s buf ≡ ok 0)
unfolding path_at frag_at
path_at_returns port s buf b h =
    ground (arith, index_eq buf (s + 9), word_at_eq buf (s + 6), dst_at_eq port s buf b)

-- On a frame of at least 82 bytes (two tags, the longest IPv4 header and the UDP ports) the program
-- reads nothing out of range: it accepts the packet whole or drops it.
pub run_cbpf_returns :
    (port : ℕ) (buf : Bytes)
    → AreBytes buf
    → 82 ≤ length buf
    → (run_cbpf (build_bpf_filter port) buf ≡ ok 0xffff)
      ⊎ (run_cbpf (build_bpf_filter port) buf ≡ ok 0)
unfolding demux
run_cbpf_returns port buf b h = rw (run_cbpf-demux port buf) (
    ground (
      arith,
      word_at_eq buf 12,
      word_at_eq buf 16,
      path_at_returns port 14 buf b,
      path_at_returns port 18 buf b,
    ))
