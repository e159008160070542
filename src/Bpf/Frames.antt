-- ===== src/Bpf/Frames.antt =====
-- src/sources/bpf_filter.rs:165-203: the frames that the tests build and edit, and what the filter
-- answers for every one of them.
use orbshred.Prelude.{
  ℕ, zero, suc, ◌+◌, ◌/◌, ◌%◌, ◌<◌, ◌≡◌, ◌∙◌, Bool, true, false, ◌&&◌, Option, none, some, [], ◌∷◌,
  arith, ◌==◌, if◌then◌else◌,
}
use orbshred.Prelude.Bits.{bit_and-low_13}
use orbshred.Exec.{Exec, ok, panic, ◌>>=◌, Bytes, index}
use orbshred.Pcap.{Ipv4Addr, word_at}
use orbshred.Pcap.Built.{build_frame}
use orbshred.Bpf.{build_bpf_filter, run_cbpf}
use orbshred.Bpf.Run.{dst_at, frag_at, path_at, demux, run_cbpf-demux}

-- `frame[i] = v`
unfoldable pub set_byte : ℕ → ℕ → Bytes → Exec Bytes
set_byte i v [] = panic
set_byte zero v (b ∷ bs) = ok (v ∷ bs)
set_byte (suc i) v (b ∷ bs) = do rest ← set_byte i v bs; ok (b ∷ rest)

abbrev pub ip_offset : Bool → ℕ
ip_offset vlan = if vlan then 18 else 14

unfoldable pub set_ip_proto : Bool → ℕ → Bytes → Exec Bytes
unfolding set_byte
set_ip_proto vlan proto frame = set_byte (ip_offset vlan + 9) proto frame

-- `>> 8` and `& 0xff` of a `u16`.
unfoldable pub set_ip_fragoff : Bool → ℕ → Bytes → Exec Bytes
unfolding set_byte
set_ip_fragoff vlan fragoff frame = do
  frame ← set_byte (ip_offset vlan + 6) (fragoff / 256 % 256) frame
  set_byte (ip_offset vlan + 7) (fragoff % 256) frame

abbrev is_tagged : Option ℕ → Bool
is_tagged none = false
is_tagged (some vid) = true

-- The tests' frames go from 1.2.3.4 to 10.0.0.1.
abbrev test_source : Ipv4Addr
test_source = record { a = 1; b = 2; c = 3; d = 4 }

unfoldable pub test_frame : Option ℕ → ℕ → Bytes → Bytes
test_frame tag = build_frame tag test_source

-- A frame as the tests build and edit it, under the filter for `port`.
unfoldable pub filter_edited : ℕ → Option ℕ → ℕ → ℕ → ℕ → Bytes → Exec ℕ
unfolding set_ip_proto set_ip_fragoff test_frame
filter_edited port tag proto fragoff dst_port payload = do
  frame ← set_ip_proto (is_tagged tag) proto (test_frame tag dst_port payload)
  frame ← set_ip_fragoff (is_tagged tag) fragoff frame
  run_cbpf (build_bpf_filter port) frame

abbrev pub verdict : ℕ → ℕ → ℕ → ℕ → ℕ
verdict port proto fragoff dst_port =
    if proto == 17 && fragoff % 8192 == 0 && dst_port == port then 0xffff else 0

-- Whatever frame the tests' helpers build, with or without a VLAN tag, for any port, payload, protocol
-- and fragment field of their widths, the filter accepts it whole if the protocol is UDP, the fragment
-- offset is 0 whatever the flags above it, and the port is the filter's, and drops it otherwise.
pub filter_edited-verdict :
    (port : ℕ) (tag : Option ℕ) (proto fragoff dst_port : ℕ) (payload : Bytes)
    → fragoff < 65536
    → dst_port < 65536
    → filter_edited port tag proto fragoff dst_port payload
      ≡ ok (verdict port proto fragoff dst_port)
unfolding filter_edited set_byte demux path_at frag_at dst_at word_at index
filter_edited-verdict port none proto fragoff dst_port payload hf hp =
    run_cbpf-demux port _ ∙ ground (arith, bit_and-low_13 fragoff hf)
filter_edited-verdict port (some vid) proto fragoff dst_port payload hf hp =
    run_cbpf-demux port _ ∙ ground (arith, bit_and-low_13 fragoff hf)
