-- ===== src/Bpf.antt =====
-- src/sources/bpf_filter.rs: the classic BPF program that the capture socket carries, and the
-- interpreter of the file's tests, which says what the kernel does with it.
-- A load out of range panics there; the kernel drops such a packet. `run_cbpf` takes the number of
-- instructions it may execute as fuel.
pub mod Step
pub mod Run
pub mod Accepts
pub mod Frames
pub mod Scenarios
pub mod Valid
use orbshred.Prelude.{
  ℕ, zero, suc, ◌+◌, ◌*◌, ◌≡◌, refl, Option, none, some, List, [], ◌∷◌, bit_and, get_elem?, length,
  ◌==◌, if◌then◌else◌,
}
use orbshred.Exec.{Exec, ok, panic, stuck, ◌>>=◌, Bytes, index, be_u16, or_panic}

pub record SockFilter : Type 0 where
  pub code : ℕ
  pub jt : ℕ
  pub jf : ℕ
  pub k : ℕ

abbrev pub inst : ℕ → ℕ → ℕ → ℕ → SockFilter
inst code jt jf k = record { code = code; jt = jt; jf = jf; k = k }

unfoldable pub build_bpf_filter : ℕ → List SockFilter
build_bpf_filter port =
    inst 0x28 0 0 12
    ∷ inst 0x15 3 0 0x0800
    ∷ inst 0x15 0 17 0x8100
    ∷ inst 0x28 0 0 16
    ∷ inst 0x15 7 15 0x0800
    ∷ inst 0x30 0 0 23
    ∷ inst 0x15 0 13 0x11
    ∷ inst 0x28 0 0 20
    ∷ inst 0x45 11 0 0x1fff
    ∷ inst 0xb1 0 0 14
    ∷ inst 0x48 0 0 16
    ∷ inst 0x15 7 8 port
    ∷ inst 0x30 0 0 27
    ∷ inst 0x15 0 6 0x11
    ∷ inst 0x28 0 0 24
    ∷ inst 0x45 4 0 0x1fff
    ∷ inst 0xb1 0 0 18
    ∷ inst 0x48 0 0 20
    ∷ inst 0x15 0 1 port
    ∷ inst 0x06 0 0 0xffff
    ∷ inst 0x06 0 0 0
    ∷ []

-- The two registers and the program counter.
pub record Vm : Type 0 where
  pub a : ℕ
  pub x : ℕ
  pub pc : ℕ

pub data Outcome : Type 0 where
  running : Vm → Outcome
  returned : ℕ → Outcome

-- One instruction. `packet[k]`, `packet[k + 1]` behind their bound are `index`.
unfoldable pub execute : SockFilter → Bytes → Vm → Exec Outcome
execute i packet vm =
    if i.code == 0x28
    then (do
      hi ← index packet i.k
      lo ← index packet (i.k + 1)
      ok (running (record vm { a = be_u16 hi lo; pc = vm.pc + 1 })))
    else if i.code == 0x30
    then (do b ← index packet i.k; ok (running (record vm { a = b; pc = vm.pc + 1 })))
    else if i.code == 0x15
    then ok (running (record vm { pc = vm.pc + (1 + (if vm.a == i.k then i.jt else i.jf)) }))
    else if i.code == 0x45
    then ok
        (running (record vm { pc = vm.pc + (1 + (if bit_and vm.a i.k == 0 then i.jf else i.jt)) }))
    else if i.code == 0xb1
    then (do
      b ← index packet i.k
      ok (running (record vm { x = bit_and b 0x0f * 4; pc = vm.pc + 1 })))
    else if i.code == 0x48
    then (do
      hi ← index packet (vm.x + i.k)
      lo ← index packet (vm.x + i.k + 1)
      ok (running (record vm { a = be_u16 hi lo; pc = vm.pc + 1 })))
    else if i.code == 0x06
    then ok (returned i.k)
    else panic

unfoldable pub cbpf_step : List SockFilter → Bytes → Vm → Exec Outcome
unfolding execute or_panic
cbpf_step program packet vm = do i ← or_panic (get_elem? program vm.pc); execute i packet vm

unfoldable pub cbpf_loop : ℕ → List SockFilter → Bytes → Vm → Exec ℕ
cbpf_loop zero program packet vm = stuck
cbpf_loop (suc fuel) program packet vm = do
  o ← cbpf_step program packet vm
  elim o [ running vm' ↦ cbpf_loop fuel program packet vm' | returned r ↦ ok r ]

-- The program jumps forwards only, so as many rounds as it has instructions are enough.
unfoldable pub run_cbpf : List SockFilter → Bytes → Exec ℕ
unfolding cbpf_step cbpf_loop
run_cbpf program packet =
    cbpf_loop (length program) program packet (record { a = 0; x = 0; pc = 0 })
