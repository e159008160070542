-- ===== src/Bpf/Run.antt =====
-- src/sources/bpf_filter.rs: the program run on any packet, block by block.
use orbshred.Prelude.{
  ℕ, suc, ◌+◌, ◌*◌, ◌≡◌, refl, ◌∙◌, inl, inr, bit_and, ◌==◌, if◌then◌else◌, Bool-cases,
}
use orbshred.Exec.{Exec, ok, ◌>>=◌, Bytes, index, bind_cong}
use orbshred.Pcap.{word_at}
use orbshred.Bpf.{build_bpf_filter, cbpf_loop, run_cbpf}
use orbshred.Bpf.Step.{step_ldh, step_ldb, step_jeq, step_jset, step_msh, step_ind, step_ret}

-- The port check on a header at `s`.
unfoldable pub dst_at : ℕ → ℕ → Bytes → Exec ℕ
dst_at port s buf = do
  first ← index buf s
  dst ← word_at buf (bit_and first 0x0f * 4 + (s + 2))
  ok (if dst == port then 0xffff else 0)

-- The fragment check, and the port check behind it.
unfoldable pub frag_at : ℕ → ℕ → Bytes → Exec ℕ
frag_at port s buf = do
  frag ← word_at buf (s + 6)
  if bit_and frag 0x1fff == 0 then dst_at port s buf else ok 0

-- All the checks on an IP header at `s`, one after the other.
unfoldable pub path_at : ℕ → ℕ → Bytes → Exec ℕ
unfolding frag_at dst_at
path_at port s buf = do
  proto ← index buf (s + 9)
  if proto == 0x11 then frag_at port s buf else ok 0

-- The decisions of the whole program.
unfoldable pub demux : ℕ → Bytes → Exec ℕ
unfolding path_at
demux port buf = do
  ethertype ← word_at buf 12
  if ethertype == 0x0800
      then path_at port 14 buf
      else if ethertype == 0x8100
      then (do inner ← word_at buf 16; if inner == 0x0800 then path_at port 18 buf else ok 0)
      else ok 0

module _ (port : ℕ) (buf : Bytes) where
  abbrev run_from : ℕ → ℕ → ℕ → ℕ → Exec ℕ
  run_from fuel a x pc =
      cbpf_loop fuel (build_bpf_filter port) buf (record { a = a; x = x; pc = pc })

  accept : (f a x : ℕ) → run_from (suc f) a x 19 ≡ ok 0xffff
  unfolding build_bpf_filter
  accept f a x = step_ret f (build_bpf_filter port) buf a x 19 0 0 0xffff refl

  drops : (f a x : ℕ) → run_from (suc f) a x 20 ≡ ok 0
  unfolding build_bpf_filter
  drops f a x = step_ret f (build_bpf_filter port) buf a x 20 0 0 0 refl

  plain_port : (a x : ℕ) → run_from 13 a x 11 ≡ ok (if a == port then 0xffff else 0)
  unfolding build_bpf_filter
  plain_port a x =
      step_jeq 12 (build_bpf_filter port) buf a x 11 7 8 port refl
      ∙ (elim (Bool-cases (a == port)) [
        | inl e ↦ rw e (accept 11 a x)
        | inr e ↦ rw e (drops 11 a x)
      ])

  plain_dst : (a x : ℕ) → run_from 15 a x 9 ≡ dst_at port 14 buf
  unfolding build_bpf_filter dst_at
  plain_dst a x =
      step_msh 14 (build_bpf_filter port) buf a x 9 0 0 14 refl
      ∙ bind_cong (index buf 14) λ b.
        step_ind 13 (build_bpf_filter port) buf a (bit_and b 0x0f * 4) 10 0 0 16 refl
        ∙ bind_cong (word_at buf (bit_and b 0x0f * 4 + 16)) λ d. plain_port d (bit_and b 0x0f * 4)

  plain_frag : (a x : ℕ) → run_from 17 a x 7 ≡ frag_at port 14 buf
  unfolding build_bpf_filter frag_at
  plain_frag a x =
      step_ldh 16 (build_bpf_filter port) buf a x 7 0 0 20 refl
      ∙ bind_cong (word_at buf 20) λ w.
        step_jset 15 (build_bpf_filter port) buf w x 8 11 0 0x1fff refl
        ∙ (elim (Bool-cases (bit_and w 0x1fff == 0)) [
          | inl e ↦ rw e (plain_dst w x)
          | inr e ↦ rw e (drops 14 w x)
        ])

  run_plain : (a x : ℕ) → run_from 19 a x 5 ≡ path_at port 14 buf
  unfolding build_bpf_filter path_at
  run_plain a x =
      step_ldb 18 (build_bpf_filter port) buf a x 5 0 0 23 refl
      ∙ bind_cong (index buf 23) λ b.
        step_jeq 17 (build_bpf_filter port) buf b x 6 0 13 0x11 refl
        ∙ (elim (Bool-cases (b == 0x11)) [
          | inl e ↦ rw e (plain_frag b x)
          | inr e ↦ rw e (drops 16 b x)
        ])

  vlan_port : (a x : ℕ) → run_from 10 a x 18 ≡ ok (if a == port then 0xffff else 0)
  unfolding build_bpf_filter
  vlan_port a x =
      step_jeq 9 (build_bpf_filter port) buf a x 18 0 1 port refl
      ∙ (elim (Bool-cases (a == port)) [ inl e ↦ rw e (accept 8 a x) | inr e ↦ rw e (drops 8 a x) ])

  vlan_dst : (a x : ℕ) → run_from 12 a x 16 ≡ dst_at port 18 buf
  unfolding build_bpf_filter dst_at
  vlan_dst a x =
      step_msh 11 (build_bpf_filter port) buf a x 16 0 0 18 refl
      ∙ bind_cong (index buf 18) λ b.
        step_ind 10 (build_bpf_filter port) buf a (bit_and b 0x0f * 4) 17 0 0 20 refl
        ∙ bind_cong (word_at buf (bit_and b 0x0f * 4 + 20)) λ d. vlan_port d (bit_and b 0x0f * 4)

  vlan_frag : (a x : ℕ) → run_from 14 a x 14 ≡ frag_at port 18 buf
  unfolding build_bpf_filter frag_at
  vlan_frag a x =
      step_ldh 13 (build_bpf_filter port) buf a x 14 0 0 24 refl
      ∙ bind_cong (word_at buf 24) λ w.
        step_jset 12 (build_bpf_filter port) buf w x 15 4 0 0x1fff refl
        ∙ (elim (Bool-cases (bit_and w 0x1fff == 0)) [
          | inl e ↦ rw e (vlan_dst w x)
          | inr e ↦ rw e (drops 11 w x)
        ])

  run_vlan : (a x : ℕ) → run_from 16 a x 12 ≡ path_at port 18 buf
  unfolding build_bpf_filter path_at
  run_vlan a x =
      step_ldb 15 (build_bpf_filter port) buf a x 12 0 0 27 refl
      ∙ bind_cong (index buf 27) λ b.
        step_jeq 14 (build_bpf_filter port) buf b x 13 0 6 0x11 refl
        ∙ (elim (Bool-cases (b == 0x11)) [
          | inl e ↦ rw e (vlan_frag b x)
          | inr e ↦ rw e (drops 13 b x)
        ])

  run_inner :
      (a x : ℕ)
      → run_from 18 a x 3
        ≡ (word_at buf 16 >>= λ inner. if inner == 0x0800 then path_at port 18 buf else ok 0)
  unfolding build_bpf_filter
  run_inner a x =
      step_ldh 17 (build_bpf_filter port) buf a x 3 0 0 16 refl
      ∙ bind_cong (word_at buf 16) λ w.
        step_jeq 16 (build_bpf_filter port) buf w x 4 7 15 0x0800 refl
        ∙ (elim (Bool-cases (w == 0x0800)) [
          | inl e ↦ rw e (run_vlan w x)
          | inr e ↦ rw e (drops 15 w x)
        ])

  run_tagged :
      (a x : ℕ)
      → run_from 19 a x 2 ≡ (
          if a == 0x8100
          then (word_at buf 16 >>= λ inner. if inner == 0x0800 then path_at port 18 buf else ok 0)
          else ok 0)
  unfolding build_bpf_filter
  run_tagged a x =
      step_jeq 18 (build_bpf_filter port) buf a x 2 0 17 0x8100 refl
      ∙ (elim (Bool-cases (a == 0x8100)) [
        | inl e ↦ rw e (run_inner a x)
        | inr e ↦ rw e (drops 17 a x)
      ])

  pub run_cbpf-demux : run_cbpf (build_bpf_filter port) buf ≡ demux port buf
  unfolding run_cbpf build_bpf_filter demux
  run_cbpf-demux =
      step_ldh 20 (build_bpf_filter port) buf 0 0 0 0 0 12 refl
      ∙ bind_cong (word_at buf 12) λ w.
        step_jeq 19 (build_bpf_filter port) buf w 0 1 3 0 0x0800 refl
        ∙ (elim (Bool-cases (w == 0x0800)) [
          | inl e ↦ rw e (run_plain w 0)
          | inr e ↦ rw e (run_tagged w 0)
        ])
