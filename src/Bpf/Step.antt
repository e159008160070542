-- ===== src/Bpf/Step.antt =====
-- src/sources/bpf_filter.rs:112-162: one round of the interpreter's loop, for each opcode.
use orbshred.Prelude.{
  ℕ, suc, ◌+◌, ◌*◌, ◌≡◌, some, List, bit_and, get_elem?, ◌==◌, if◌then◌else◌, arith,
}
use orbshred.Exec.{ok, ◌>>=◌, Bytes, index}
use orbshred.Pcap.{word_at}
use orbshred.Bpf.{Vm, SockFilter, inst, cbpf_step, cbpf_loop}

module _ (f : ℕ) (p : List SockFilter) (buf : Bytes) (a x pc jt jf k : ℕ) where
  abbrev at : ℕ → ℕ → ℕ → Vm
  at a' x' pc' = record { a = a'; x = x'; pc = pc' }

  pub step_ldh :
      get_elem? p pc ≡ some (inst 0x28 jt jf k)
      → cbpf_loop (suc f) p buf (at a x pc)
        ≡ (word_at buf k >>= λ w. cbpf_loop f p buf (at w x (pc + 1)))
  unfolding cbpf_loop cbpf_step word_at
  step_ldh e = rw e (ground arith)

  pub step_ldb :
      get_elem? p pc ≡ some (inst 0x30 jt jf k)
      → cbpf_loop (suc f) p buf (at a x pc)
        ≡ (index buf k >>= λ w. cbpf_loop f p buf (at w x (pc + 1)))
  unfolding cbpf_loop cbpf_step
  step_ldb e = rw e (ground arith)

  pub step_jeq :
      get_elem? p pc ≡ some (inst 0x15 jt jf k)
      → cbpf_loop (suc f) p buf (at a x pc)
        ≡ cbpf_loop f p buf (at a x (pc + (1 + (if a == k then jt else jf))))
  unfolding cbpf_loop cbpf_step
  step_jeq e = rw e

  pub step_jset :
      get_elem? p pc ≡ some (inst 0x45 jt jf k)
      → cbpf_loop (suc f) p buf (at a x pc)
        ≡ cbpf_loop f p buf (at a x (pc + (1 + (if bit_and a k == 0 then jf else jt))))
  unfolding cbpf_loop cbpf_step
  step_jset e = rw e

  pub step_msh :
      get_elem? p pc ≡ some (inst 0xb1 jt jf k)
      → cbpf_loop (suc f) p buf (at a x pc)
        ≡ (index buf k >>= λ b. cbpf_loop f p buf (at a (bit_and b 0x0f * 4) (pc + 1)))
  unfolding cbpf_loop cbpf_step
  step_msh e = rw e (ground arith)

  pub step_ind :
      get_elem? p pc ≡ some (inst 0x48 jt jf k)
      → cbpf_loop (suc f) p buf (at a x pc)
        ≡ (word_at buf (x + k) >>= λ w. cbpf_loop f p buf (at w x (pc + 1)))
  unfolding cbpf_loop cbpf_step word_at
  step_ind e = rw e (ground arith)

  pub step_ret :
      get_elem? p pc ≡ some (inst 0x06 jt jf k) → cbpf_loop (suc f) p buf (at a x pc) ≡ ok k
  unfolding cbpf_loop cbpf_step
  step_ret e = rw e
