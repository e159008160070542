-- ===== src/Pcap.antt =====
-- src/sources/pcap.rs: taking a captured Ethernet frame apart.
-- What `capture_loop` does with each frame is `Capture`, and the rest of it `Socket`.
pub mod Frame
pub mod Route
pub mod Capture
pub mod Socket
pub mod Scenarios
pub mod Built
use orbshred.Prelude.{
  ℕ, ◌+◌, ◌-◌, ◌*◌, ◌%◌, ◌≡◌, Bool, true, false, not, ◌&&◌, ◌||◌, Option, none, some, List, [], ◌∷◌,
  bit_and, arith, length, ltb, ◌==◌, if◌then◌else◌,
}
use orbshred.Exec.{Exec, ok, ◌>>=◌, Bytes, index, slice, be_u16}

pub record Ipv4Addr : Type 0 where
  pub a : ℕ
  pub b : ℕ
  pub c : ℕ
  pub d : ℕ

-- `u16::from_be_bytes([buf[i], buf[i + 1]])`
unfoldable pub word_at : Bytes → ℕ → Exec ℕ
word_at buf i = do hi ← index buf i; lo ← index buf (i + 1); ok (be_u16 hi lo)

-- The inner ethertype, behind one 802.1Q tag.
unfoldable pub vlan_header_offset : Bytes → Exec (Option ℕ)
vlan_header_offset buf =
    if ltb (length buf) 18
    then ok none
    else do inner ← word_at buf 16; ok (if inner == 0x0800 then some 18 else none)

unfoldable pub ip_header_offset : Bytes → Exec (Option ℕ)
unfolding vlan_header_offset
ip_header_offset buf = if ltb (length buf) 14 then ok none else do
  ethertype ← word_at buf 12
  if ethertype == 0x0800
      then ok (some 14)
      else if ethertype == 0x8100
      then vlan_header_offset buf
      else ok none

-- `extract_src_ip` behind its `?`.
unfoldable pub src_ip_at : Bytes → ℕ → Exec (Option Ipv4Addr)
src_ip_at buf ip_start =
    let src_off = ip_start + 12 in
    if ltb (length buf) (src_off + 4) then ok none else do
      a ← index buf src_off
      b ← index buf (src_off + 1)
      c ← index buf (src_off + 2)
      d ← index buf (src_off + 3)
      ok (some (record { a = a; b = b; c = c; d = d }))

unfoldable pub extract_src_ip : Bytes → Exec (Option Ipv4Addr)
extract_src_ip buf = do
  start ← ip_header_offset buf
  elim start [ none ↦ ok none | some ip_start ↦ src_ip_at buf ip_start ]

-- `extract_udp_payload` from `udp_start` on: the length field bounds the slice.
unfoldable pub udp_payload_at : Bytes → ℕ → Exec (Option Bytes)
udp_payload_at buf udp_start = do
  let payload_start = udp_start + 8
  udp_len ← word_at buf (udp_start + 4)
  let payload_len = udp_len - 8
  if ltb (length buf) (payload_start + payload_len)
      then ok none
      else do payload ← slice buf payload_start (payload_start + payload_len); ok (some payload)

-- The checks on the protocol and the fragment offset.
unfoldable pub datagram_at : Bytes → ℕ → ℕ → Exec (Option Bytes)
datagram_at buf ip_start ihl = do
  proto ← index buf (ip_start + 9)
  if not (proto == 17) then ok none else do
    frag ← word_at buf (ip_start + 6)
    if bit_and frag 0x1fff == 0 then udp_payload_at buf (ip_start + ihl) else ok none

-- The checks on the header's length. `(b & 0x0f) * 4` is computed in `u8`.
unfoldable pub ip_payload_at : Bytes → ℕ → Exec (Option Bytes)
ip_payload_at buf ip_start = if ltb (length buf) (ip_start + 20) then ok none else do
  first ← index buf ip_start
  let ihl = bit_and first 0x0f * 4 % 256
  if ltb ihl 20 || ltb (length buf) (ip_start + ihl + 8)
      then ok none
      else datagram_at buf ip_start ihl

unfoldable pub extract_udp_payload : Bytes → Exec (Option Bytes)
extract_udp_payload buf = do
  start ← ip_header_offset buf
  elim start [ none ↦ ok none | some ip_start ↦ ip_payload_at buf ip_start ]
