-- ===== src/Pcap/Frame.antt =====
-- src/sources/pcap.rs: no frame makes the extractors read out of range.
use orbshred.Prelude.{
  ℕ, ◌+◌, ◌*◌, ◌%◌, ◌≤◌, ◌<◌, ◌≡◌, ap, ◌↔◌, ◌∙◌, ◌-◌, ◌⊎◌, inl, inr, Option, none, some, ◌&&◌, ◌||◌,
  bit_and, arith, length, ltb, leb, take, drop, Option-cases, ◌==◌, if◌then◌else◌,
}
use orbshred.Exec.{
  ok, Bytes, Returns, slice, be_u16, byte_at, index_ok, slice_ok, AreBytes, AreBytes-byte_at,
}
use orbshred.Prelude.Bits.{bit_and-low_nibble, bit_and-low_13}
use orbshred.Pcap.{
  Ipv4Addr, word_at, ip_header_offset, src_ip_at, extract_src_ip, udp_payload_at, datagram_at,
  ip_payload_at, extract_udp_payload,
}

-- A 16-bit big-endian field, for statements.
abbrev pub word : Bytes → ℕ → ℕ
word buf i = be_u16 (byte_at buf i) (byte_at buf (i + 1))

pub word_at_ok : (buf : Bytes) (i : ℕ) → i + 1 < length buf → word_at buf i ≡ ok (word buf i)
unfolding word_at
word_at_ok buf i h = rw (index_ok buf i (omega arith), index_ok buf (i + 1) h)

-- Where the IPv4 header starts: behind 14 bytes, or behind 18 with a VLAN tag.
abbrev pub IpStart : Bytes → ℕ → Type 0
IpStart buf s =
    ((s ≡ 14) × (14 ≤ length buf) × (word buf 12 ≡ 0x0800))
    ⊎ ((s ≡ 18) × (18 ≤ length buf) × (word buf 12 ≡ 0x8100) × (word buf 16 ≡ 0x0800))

-- What `ip_header_offset` finds, with no read out of range.
start_of : Bytes → Option ℕ
start_of buf =
    if ltb (length buf) 14
    then none
    else if word buf 12 == 0x0800
    then some 14
    else if word buf 12 == 0x8100 && leb 18 (length buf) && word buf 16 == 0x0800
    then some 18
    else none

ip_header_offset-start_of : (buf : Bytes) → ip_header_offset buf ≡ ok (start_of buf)
unfolding ip_header_offset start_of
ip_header_offset-start_of buf = ground (arith, word_at_ok buf 12, word_at_ok buf 16)

-- The header's offset is returned exactly when the frame carries IPv4 there, plain or behind one tag.
pub ip_header_offset_iff :
    (buf : Bytes) (s : ℕ) → (ip_header_offset buf ≡ ok (some s)) ↔ IpStart buf s
unfolding start_of
ip_header_offset_iff buf s = ground (arith, ip_header_offset-start_of buf)

src_ip_of : Bytes → ℕ → Option Ipv4Addr
src_ip_of buf s =
    if ltb (length buf) (s + 16)
    then none
    else some (record {
      a = byte_at buf (s + 12);
      b = byte_at buf (s + 12 + 1);
      c = byte_at buf (s + 12 + 2);
      d = byte_at buf (s + 12 + 3);
    })

src_ip_at-src_ip_of : (buf : Bytes) (s : ℕ) → src_ip_at buf s ≡ ok (src_ip_of buf s)
unfolding src_ip_at src_ip_of
src_ip_at-src_ip_of buf s = ground (
  arith,
  index_ok buf (s + 12),
  index_ok buf (s + 12 + 1),
  index_ok buf (s + 12 + 2),
  index_ok buf (s + 12 + 3),
)

-- The source address is read without a panic, whatever the frame holds.
pub extract_src_ip-Returns : (buf : Bytes) → Returns (extract_src_ip buf)
unfolding extract_src_ip
extract_src_ip-Returns buf = elim (Option-cases (start_of buf)) [
  | inl e ↦ (none, rw (ip_header_offset-start_of buf, e))
  | inr (s, e) ↦
      (src_ip_of buf s, rw (ip_header_offset-start_of buf, e) (src_ip_at-src_ip_of buf s))
]

-- The payload that the length field at `u` delimits.
udp_payload_of : Bytes → ℕ → Option Bytes
udp_payload_of buf u =
    if ltb (length buf) (u + 8 + (word buf (u + 4) - 8))
    then none
    else some (take (word buf (u + 4) - 8) (drop (u + 8) buf))

slice_from :
    (buf : Bytes) (a n : ℕ) → a + n ≤ length buf → slice buf a (a + n) ≡ ok (take n (drop a buf))
slice_from buf a n h =
    let e : a + n - a ≡ n = omega arith in slice_ok buf a (a + n) (omega arith) h ∙ rw e

udp_payload_at_of :
    (buf : Bytes) (u : ℕ) → u + 8 ≤ length buf → udp_payload_at buf u ≡ ok (udp_payload_of buf u)
unfolding udp_payload_at udp_payload_of
udp_payload_at_of buf u h =
    let len : word_at buf (u + 4) ≡ ok (word buf (u + 4)) = word_at_ok buf (u + 4) (omega arith) in
    rw len (ground (arith, slice_from buf (u + 8) (word buf (u + 4) - 8)))

datagram_of : Bytes → ℕ → ℕ → Option Bytes
datagram_of buf s ihl =
    if byte_at buf (s + 9) == 17 && bit_and (word buf (s + 6)) 0x1fff == 0
    then udp_payload_of buf (s + ihl)
    else none

datagram_at_of :
    (buf : Bytes) (s ihl : ℕ)
    → s + 20 ≤ length buf
    → s + ihl + 8 ≤ length buf
    → datagram_at buf s ihl ≡ ok (datagram_of buf s ihl)
unfolding datagram_at datagram_of
datagram_at_of buf s ihl h k =
    rw (index_ok buf (s + 9) (omega arith), word_at_ok buf (s + 6) (omega arith))
      (ground (arith, udp_payload_at_of buf (s + ihl) k))

abbrev ihl_at : Bytes → ℕ → ℕ
ihl_at buf s = bit_and (byte_at buf s) 0x0f * 4 % 256

ip_payload_of : Bytes → ℕ → Option Bytes
ip_payload_of buf s =
    if ltb (length buf) (s + 20) || ltb (ihl_at buf s) 20 || ltb (length buf) (s + ihl_at buf s + 8)
    then none
    else datagram_of buf s (ihl_at buf s)

ip_payload_at_of : (buf : Bytes) (s : ℕ) → ip_payload_at buf s ≡ ok (ip_payload_of buf s)
unfolding ip_payload_at ip_payload_of
ip_payload_at_of buf s = ground (arith, index_ok buf s, datagram_at_of buf s (ihl_at buf s))

payload_of : Option ℕ → Bytes → Option Bytes
payload_of none buf = none
payload_of (some s) buf = ip_payload_of buf s

extract_udp_payload_of :
    (buf : Bytes) → extract_udp_payload buf ≡ ok (payload_of (start_of buf) buf)
unfolding extract_udp_payload payload_of
extract_udp_payload_of buf = elim (Option-cases (start_of buf)) [
  | inl e ↦ rw (ip_header_offset-start_of buf, e)
  | inr (s, e) ↦ rw (ip_header_offset-start_of buf, e) (ip_payload_at_of buf s)
]

-- No frame makes the payload's extraction read or slice out of range.
pub extract_udp_payload-Returns : (buf : Bytes) → Returns (extract_udp_payload buf)
extract_udp_payload-Returns buf = (payload_of (start_of buf) buf, extract_udp_payload_of buf)

-- The header length in bytes: four times the low nibble.
abbrev pub header_len : Bytes → ℕ → ℕ
header_len buf s = byte_at buf s % 16 * 4

-- A UDP header at fragment offset 0 and the bytes that its length field counts lie in the frame behind
-- an IPv4 header at `s`, and `p` is the payload that the field delimits.
abbrev pub DatagramAt : Bytes → ℕ → Bytes → Type 0
DatagramAt buf s p =
    let u = s + header_len buf s in
    let n = word buf (u + 4) - 8 in
    (20 ≤ header_len buf s)
    × (u + 8 ≤ length buf)
    × (byte_at buf (s + 9) ≡ 17)
    × (word buf (s + 6) % 8192 ≡ 0)
    × (u + 8 + n ≤ length buf)
    × (p ≡ take n (drop (u + 8) buf))

pub word-lt : (buf : Bytes) (i : ℕ) → AreBytes buf → word buf i < 65536
word-lt buf i b = omega (arith, AreBytes-byte_at buf i b, AreBytes-byte_at buf (i + 1) b)

ihl_at-header_len : (buf : Bytes) (s : ℕ) → AreBytes buf → ihl_at buf s ≡ header_len buf s
ihl_at-header_len buf s b =
    omega (arith, bit_and-low_nibble (byte_at buf s) (AreBytes-byte_at buf s b))

ip_payload_of_iff :
    (buf : Bytes) (s : ℕ) (p : Bytes)
    → AreBytes buf
    → (ip_payload_of buf s ≡ some p) ↔ DatagramAt buf s p
unfolding ip_payload_of datagram_of udp_payload_of
ip_payload_of_iff buf s p b =
    rw (ihl_at-header_len buf s b)
      (ground (arith, bit_and-low_13 (word buf (s + 6)) (word-lt buf (s + 6) b)))

-- The payload is extracted exactly from frames that carry over IPv4, plain or behind one VLAN tag, a
-- UDP header at fragment offset 0 and the bytes that its length field counts, and the payload is
-- what follows the header of these bytes. The flag for more fragments is not read, so the first fragment of a datagram
-- counts when it holds that many bytes.
pub extract_udp_payload_iff :
    (buf p : Bytes)
    → AreBytes buf
    → (extract_udp_payload buf ≡ ok (some p)) ↔ ((s : ℕ) × IpStart buf s × DatagramAt buf s p)
unfolding payload_of
extract_udp_payload_iff buf p b = (from, to)
  where
    from : extract_udp_payload buf ≡ ok (some p) → (s : ℕ) × IpStart buf s × DatagramAt buf s p
    from e = elim (Option-cases (start_of buf)) [
      | inl missing ↦ cc (extract_udp_payload_of buf, ap (λ o. payload_of o buf) missing)
      | inr (s, found) ↦ (
        s,
        (ip_header_offset_iff buf s).0 (rw (ip_header_offset-start_of buf, found)),
        (ip_payload_of_iff buf s p b).0
            (cc (extract_udp_payload_of buf, ap (λ o. payload_of o buf) found)),
      )
    ]

    to : ((s : ℕ) × IpStart buf s × DatagramAt buf s p) → extract_udp_payload buf ≡ ok (some p)
    to (s, i, d) =
        let found = (ip_header_offset_iff buf s).1 i in
        let start : start_of buf ≡ some s = cc (ip_header_offset-start_of buf, found) in
        rw (extract_udp_payload_of buf, start) (ap ok ((ip_payload_of_iff buf s p b).1 d))
