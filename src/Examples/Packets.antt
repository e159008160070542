-- ===== src/Examples/Packets.antt =====
-- Concrete datagrams and frames for src/shred.rs, src/sources/pcap.rs and
-- src/sources/bpf_filter.rs.
use orbshred.Prelude.{
  ◌+◌, ℕ, zero, suc, ◌≡◌, refl, ◌↔◌, some, [], ◌∷◌, ◌++◌, arith, take, drop, length,
}
use orbshred.Exec.{ok, Returns, Bytes, AreBytes, index, slice, to_array, from_le_bytes}
use orbshred.Shred.{ShredKey, data_shred, shred_type, key_of, parse_shred_key}
use orbshred.Shred.Header.{Header, encode, to_le_bytes}
use orbshred.Shred.Parse.{parse-encode}
use orbshred.Pcap.{
  word_at, ip_header_offset, udp_payload_at, datagram_at, ip_payload_at, extract_udp_payload,
}
use orbshred.Pcap.Frame.{word, header_len, IpStart, DatagramAt, extract_udp_payload_iff}
use orbshred.Bpf.{build_bpf_filter, run_cbpf}
use orbshred.Bpf.Valid.{is_valid-Returns, build_bpf_filter-is_valid}
use orbshred.Bpf.Frames.{filter_edited, filter_edited-verdict, verdict}
use orbshred.Bpf.Accepts.{PassAt, run_cbpf_iff, extract_udp_payload-passes}

abbrev pub zeros : ℕ → Bytes
zeros zero = []
zeros (suc n) = 0 ∷ zeros n

abbrev header : Header
header = record {
  signature = zeros 64;
  variant = 0xA5;
  slot = 1000;
  index = 7;
  version = 1;
  fec_set_index = 0;
}

abbrev key : ShredKey
key = record { slot = 1000; index = 7; shred_type = data_shred }

-- The header's bytes and a payload of three.
abbrev pub datagram : Bytes
datagram =
    zeros 64
    ++ (0xA5 ∷ 232 ∷ 3 ∷ 0 ∷ 0 ∷ 0 ∷ 0 ∷ 0 ∷ 0 ∷ 7 ∷ 0 ∷ 0 ∷ 0 ∷ 1 ∷ 0 ∷ 0 ∷ 0 ∷ 0 ∷ 0 ∷ 1 ∷ 2 ∷ 3
        ∷ [])

encode_run : encode header (1 ∷ 2 ∷ 3 ∷ []) ≡ datagram
unfolding encode to_le_bytes
encode_run = refl

parse_run : parse_shred_key datagram ≡ ok (some key)
unfolding parse_shred_key key_of shred_type index slice to_array take drop from_le_bytes
parse_run = refl

pub datagram_bytes : AreBytes datagram
datagram_bytes = omega arith

parse-encode_example :
    parse_shred_key (encode header (1 ∷ 2 ∷ 3 ∷ []))
    ≡ ok (some (record { slot = 1000; index = 7; shred_type = shred_type 0xA5 }))
parse-encode_example =
    parse-encode header (1 ∷ 2 ∷ 3 ∷ []) refl (omega arith) (omega arith) (omega arith)

-- An IPv4 packet with UDP from 10.0.0.1 to port 8000 that carries the bytes 1, 2 and 3, and padding.
abbrev sample_frame : Bytes
sample_frame =
    zeros 12
    ++ (8
        ∷ 0
        ∷ 69
        ∷ 0
        ∷ 0
        ∷ 31
        ∷ 0
        ∷ 0
        ∷ 0
        ∷ 0
        ∷ 64
        ∷ 17
        ∷ 0
        ∷ 0
        ∷ 10
        ∷ 0
        ∷ 0
        ∷ 1
        ∷ 10
        ∷ 0
        ∷ 0
        ∷ 2
        ∷ 0
        ∷ 1
        ∷ 31
        ∷ 64
        ∷ 0
        ∷ 11
        ∷ 0
        ∷ 0
        ∷ 1
        ∷ 2
        ∷ 3
        ∷ zeros 40)

abbrev payload : Bytes
payload = 1 ∷ 2 ∷ 3 ∷ []

frame_bytes : AreBytes sample_frame
frame_bytes = omega arith

extract_run : extract_udp_payload sample_frame ≡ ok (some payload)
unfolding extract_udp_payload ip_header_offset ip_payload_at datagram_at udp_payload_at word_at
    index slice take drop
extract_run = refl

extract_udp_payload_iff_example :
    (extract_udp_payload sample_frame ≡ ok (some payload))
    ↔ ((s : ℕ) × IpStart sample_frame s × DatagramAt sample_frame s payload)
extract_udp_payload_iff_example = extract_udp_payload_iff sample_frame payload frame_bytes

filter_run : run_cbpf (build_bpf_filter 8000) sample_frame ≡ ok 0xffff
unfolding run_cbpf build_bpf_filter index
filter_run = refl

run_cbpf_iff_example :
    (run_cbpf (build_bpf_filter 8000) sample_frame ≡ ok 0xffff)
    ↔ ((s : ℕ) × IpStart sample_frame s × PassAt 8000 sample_frame s)
run_cbpf_iff_example = run_cbpf_iff 8000 sample_frame frame_bytes

extract_udp_payload-passes_example :
    (s : ℕ) × IpStart sample_frame s
    × (run_cbpf
          (build_bpf_filter (word sample_frame (s + header_len sample_frame s + 2)))
          sample_frame
        ≡ ok 0xffff)
extract_udp_payload-passes_example =
    extract_udp_payload-passes sample_frame payload frame_bytes extract_run

abbrev long_frame : Bytes
long_frame = sample_frame ++ zeros 10

long_frame_bytes : AreBytes long_frame
long_frame_bytes = omega arith

is_valid-Returns_example : Returns (run_cbpf (build_bpf_filter 8000) long_frame)
is_valid-Returns_example =
    is_valid-Returns long_frame long_frame_bytes (build_bpf_filter 8000)
      (build_bpf_filter-is_valid 8000 (length long_frame) (omega arith))

-- A first fragment passes, a TCP packet does not.
filter_edited-verdict_example :
    filter_edited 8001 (some 42) 17 0x2000 8001 (104 ∷ 101 ∷ []) ≡ ok (verdict 8001 17 0x2000 8001)
filter_edited-verdict_example =
    filter_edited-verdict 8001 (some 42) 17 0x2000 8001 (104 ∷ 101 ∷ []) (omega arith) (omega arith)
