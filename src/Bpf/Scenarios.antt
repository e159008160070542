-- ===== src/Bpf/Scenarios.antt =====
-- src/sources/bpf_filter.rs:204-330: the file's tests, each as the run of the filter that it makes, and
-- what the runs give.
use orbshred.Prelude.{
  ℕ, ◌<◌, ◌≡◌, refl, ◌∙◌, true, false, Option, none, some, [], ◌∷◌, ◌++◌, get_elem?, ◌==◌,
  if◌then◌else◌, arith,
}
use orbshred.Exec.{Exec, ok, ◌>>=◌, Bytes, index, or_panic}
use orbshred.KernelTs.{replicate}
use orbshred.Pcap.{word_at}
use orbshred.Bpf.{build_bpf_filter, run_cbpf}
use orbshred.Bpf.Run.{dst_at, frag_at, path_at, demux, run_cbpf-demux}
use orbshred.Bpf.Frames.{set_byte, set_ip_proto, set_ip_fragoff, test_frame}

abbrev port : ℕ
port = 8001

abbrev wrong_port : ℕ
wrong_port = 9999

-- `b"hello"`
abbrev hello : Bytes
hello = 104 ∷ 101 ∷ 108 ∷ 108 ∷ 111 ∷ []

unfoldable filter_built : ℕ → Option ℕ → ℕ → Bytes → Exec ℕ
unfolding test_frame
filter_built p tag dst_port payload =
    run_cbpf (build_bpf_filter p) (test_frame tag dst_port payload)

-- A frame that a test builds and does not edit is judged by its port alone.
filter_built-verdict :
    (p : ℕ) (tag : Option ℕ) (dst_port : ℕ) (payload : Bytes)
    → dst_port < 65536
    → filter_built p tag dst_port payload ≡ ok (if dst_port == p then 0xffff else 0)
unfolding filter_built demux path_at frag_at dst_at word_at index
filter_built-verdict p none dst_port payload h = run_cbpf-demux p _ ∙ ground arith
filter_built-verdict p (some vid) dst_port payload h = run_cbpf-demux p _ ∙ ground arith

unfoldable plain_right_port : Exec ℕ
unfolding filter_built
plain_right_port = filter_built port none port hello

unfoldable plain_wrong_port : Exec ℕ
unfolding filter_built
plain_wrong_port = filter_built port none wrong_port hello

unfoldable vlan_right_port : Exec ℕ
unfolding filter_built
vlan_right_port = filter_built port (some 42) port hello

unfoldable vlan_wrong_port : Exec ℕ
unfolding filter_built
vlan_wrong_port = filter_built port (some 42) wrong_port hello

-- 60 bytes with the ethertype of ARP.
unfoldable arp : Exec ℕ
arp = run_cbpf (build_bpf_filter port) (replicate 12 0 ++ (0x08 ∷ 0x06 ∷ replicate 46 0))

-- 64 bytes with a VLAN tag around IPv6.
unfoldable vlan_ipv6 : Exec ℕ
vlan_ipv6 =
    run_cbpf (build_bpf_filter port)
      (replicate 12 0 ++ (0x81 ∷ 0x00 ∷ 0x00 ∷ 0x0a ∷ 0x86 ∷ 0xdd ∷ replicate 46 0))

unfoldable plain_tcp : Exec ℕ
unfolding set_ip_proto test_frame
plain_tcp = do
  frame ← set_ip_proto false 6 (test_frame none port hello)
  run_cbpf (build_bpf_filter port) frame

unfoldable vlan_tcp : Exec ℕ
unfolding set_ip_proto test_frame
vlan_tcp = do
  frame ← set_ip_proto true 6 (test_frame (some 7) port hello)
  run_cbpf (build_bpf_filter port) frame

unfoldable plain_fragment : Exec ℕ
unfolding set_ip_fragoff test_frame
plain_fragment = do
  frame ← set_ip_fragoff false 0x0001 (test_frame none port hello)
  run_cbpf (build_bpf_filter port) frame

unfoldable vlan_fragment : Exec ℕ
unfolding set_ip_fragoff test_frame
vlan_fragment = do
  frame ← set_ip_fragoff true 0x0001 (test_frame (some 7) port hello)
  run_cbpf (build_bpf_filter port) frame

unfoldable first_fragment : Exec ℕ
unfolding set_ip_fragoff test_frame
first_fragment = do
  frame ← set_ip_fragoff false 0x2000 (test_frame none port hello)
  run_cbpf (build_bpf_filter port) frame

unfoldable snap_length : Exec ℕ
unfolding filter_built
snap_length = filter_built port none port (120 ∷ [])

-- The values of the two comparisons with the port.
unfoldable immediates : Exec (ℕ × ℕ)
immediates = do
  untagged ← or_panic (get_elem? (build_bpf_filter 12345) 11)
  tagged ← or_panic (get_elem? (build_bpf_filter 12345) 18)
  ok (untagged.k, tagged.k)

-- 14 bytes, cut off behind the ethertype.
unfoldable cut_off : Exec ℕ
cut_off = run_cbpf (build_bpf_filter port) (replicate 12 0 ++ (0x08 ∷ 0x06 ∷ []))

built_runs :
    (plain_right_port ≡ ok 0xffff)
    × (plain_wrong_port ≡ ok 0)
    × (vlan_right_port ≡ ok 0xffff)
    × (vlan_wrong_port ≡ ok 0)
    × (snap_length ≡ ok 0xffff)
unfolding plain_right_port plain_wrong_port vlan_right_port vlan_wrong_port snap_length
built_runs = (
  filter_built-verdict port none port hello (omega arith),
  filter_built-verdict port none wrong_port hello (omega arith),
  filter_built-verdict port (some 42) port hello (omega arith),
  filter_built-verdict port (some 42) wrong_port hello (omega arith),
  filter_built-verdict port none port (120 ∷ []) (omega arith),
)

other_runs : (arp ≡ ok 0) × (vlan_ipv6 ≡ ok 0) × (cut_off ≡ ok 0) × (immediates ≡ ok (12345, 12345))
unfolding arp vlan_ipv6 cut_off immediates run_cbpf build_bpf_filter index or_panic
other_runs = (refl, refl, refl, refl)

edited_runs :
    (plain_tcp ≡ ok 0)
    × (vlan_tcp ≡ ok 0)
    × (plain_fragment ≡ ok 0)
    × (vlan_fragment ≡ ok 0)
    × (first_fragment ≡ ok 0xffff)
unfolding plain_tcp vlan_tcp plain_fragment vlan_fragment first_fragment set_byte run_cbpf
    build_bpf_filter index
edited_runs = (refl, refl, refl, refl, refl)
