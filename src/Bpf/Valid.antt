-- ===== src/Bpf/Valid.antt =====
-- src/sources/bpf_filter.rs:112-162: programs that cannot go wrong, by the checks that the kernel
-- makes when a filter is attached: known opcodes, jumps that land in the program, a return at the end.
-- Loads are checked against the packet's length as well.
use orbshred.Prelude.{
  ℕ, zero, suc, ◌+◌, ◌≤◌, ◌<◌, ◌≡◌, refl, subst, Bool, true, ◌&&◌, ◌||◌, some, List, [], ◌∷◌,
  length, get_elem?, ltb, leb, arith, ◌==◌, if◌then◌else◌,
}
use orbshred.Prelude.Bits.{bit_and-low_nibble}
use orbshred.Exec.{
  Exec, ok, panic, stuck, ◌>>=◌, Returns, Bytes, AreBytes, AreBytes-byte_at, byte_at, index_eq,
}
use orbshred.Bpf.{
  SockFilter, Vm, Outcome, running, returned, execute, build_bpf_filter, cbpf_step, cbpf_loop,
  run_cbpf,
}

-- The index register of a `ldxb` load is at most 60, and a half-word has two bytes.
unfoldable pub checks : ℕ → ℕ → ℕ → SockFilter → Bool
checks len n pc i =
    if i.code == 0x06
    then true
    else if i.code == 0x15 || i.code == 0x45
    then ltb (pc + (1 + i.jt)) n && ltb (pc + (1 + i.jf)) n
    else (i.code == 0x28 || i.code == 0x30 || i.code == 0xb1 || i.code == 0x48)
      && ltb (pc + 1) n
      && leb (i.k + 62) len

unfoldable pub checks_from : ℕ → ℕ → ℕ → List SockFilter → Bool
unfolding checks
checks_from len n pc [] = true
checks_from len n pc (i ∷ is) = checks len n pc i && checks_from len n (pc + 1) is

unfoldable pub is_valid : ℕ → List SockFilter → Bool
unfolding checks_from
is_valid len p = ltb 0 (length p) && checks_from len (length p) 0 p

checks_from-get :
    (len n pc j : ℕ) (p : List SockFilter)
    → checks_from len n pc p ≡ true
    → j < length p
    → (i : SockFilter) × (get_elem? p j ≡ some i) × (checks len n (pc + j) i ≡ true)
unfolding checks_from
checks_from-get len n pc j [] h l = absurd (omega (arith, l))
checks_from-get len n pc zero (i ∷ p) h l = (i, refl, ground arith)
checks_from-get len n pc (suc j) (i ∷ p) h l =
    let rest : checks_from len n (pc + 1) p ≡ true = ground arith in
    later (checks_from-get len n (pc + 1) j p rest (omega (arith, l)))
  where
    later :
        ((i' : SockFilter) × (get_elem? p j ≡ some i') × (checks len n (pc + 1 + j) i' ≡ true))
        → (i' : SockFilter) × (get_elem? p j ≡ some i') × (checks len n (pc + suc j) i' ≡ true)
    later (i', e, c) =
        let same : pc + 1 + j ≡ pc + suc j = omega arith in
        (i', e, subst (λ q. checks len n q i' ≡ true) same c)

module _ (buf : Bytes) (b : AreBytes buf) (n : ℕ) where
  -- What a round may lead to: a result, or a later instruction of the program.
  Goes : Vm → Exec Outcome → Type 0
  Goes vm (ok (running v)) = (vm.pc < v.pc) × (v.pc < n) × (v.x ≤ 60)
  Goes vm (ok (returned r)) = Unit {0}
  Goes vm panic = ⊥
  Goes vm stuck = ⊥

  execute-Goes :
      (i : SockFilter) (vm : Vm)
      → vm.x ≤ 60
      → checks (length buf) n vm.pc i ≡ true
      → Goes vm (execute i buf vm)
  unfolding execute checks Goes
  execute-Goes i vm hx h = ground (
    arith,
    index_eq buf i.k,
    index_eq buf (i.k + 1),
    index_eq buf (vm.x + i.k),
    index_eq buf (vm.x + i.k + 1),
    bit_and-low_nibble (byte_at buf i.k) (AreBytes-byte_at buf i.k b),
  )

module _ (buf : Bytes) (b : AreBytes buf) (p : List SockFilter) where
  loop_Returns :
      (f : ℕ) (vm : Vm)
      → checks_from (length buf) (length p) 0 p ≡ true
      → vm.x ≤ 60
      → vm.pc < length p
      → length p ≤ f + vm.pc
      → Returns (cbpf_loop f p buf vm)
  unfolding cbpf_loop cbpf_step Goes
  loop_Returns zero vm h hx l m = absurd (omega (arith, l, m))
  loop_Returns (suc f) vm h hx l m =
      found (checks_from-get (length buf) (length p) 0 vm.pc p h l)
        (λ v small inside n. loop_Returns f v h small inside n)
    where
      Rest : Type 0
      Rest =
          (v : Vm)
          → v.x ≤ 60
          → v.pc < length p
          → length p ≤ f + v.pc
          → Returns (cbpf_loop f p buf v)

      goes_on :
          Rest
          → (o : Exec Outcome) → Goes buf b (length p) vm o
          → Returns (o >>= λ r. elim r [ running v ↦ cbpf_loop f p buf v | returned k ↦ ok k ])
      goes_on rest (ok (running v)) (later, inside, small) =
          rest v small inside (omega (arith, later, m))
      goes_on rest (ok (returned k)) g = (k, refl)
      goes_on rest panic g = absurd g
      goes_on rest stuck g = absurd g

      found :
          ((i : SockFilter) × (get_elem? p vm.pc ≡ some i)
            × (checks (length buf) (length p) (0 + vm.pc) i ≡ true))
          → Rest
          → Returns (cbpf_loop (suc f) p buf vm)
      found (i, e, c) rest =
          let at_pc : 0 + vm.pc ≡ vm.pc = omega arith in
          let c' = subst (λ q. checks (length buf) (length p) q i ≡ true) at_pc c in
          rw e (goes_on rest (execute i buf vm) (execute-Goes buf b (length p) i vm hx c'))

  -- A program that passes the checks for the packet's length does not go wrong on the packet: no
  -- unknown opcode, no jump out of the program, no read out of range and no endless run; the
  -- interpreter gives a result.
  pub is_valid-Returns : is_valid (length buf) p ≡ true → Returns (run_cbpf p buf)
  unfolding is_valid run_cbpf
  is_valid-Returns h =
      loop_Returns (length p) _ (ground arith) (omega arith) (ground arith) (omega arith)

-- The checks hold for the filter of any port and any packet of at least 89 bytes.
pub build_bpf_filter-is_valid :
    (port len : ℕ) → 89 ≤ len → is_valid len (build_bpf_filter port) ≡ true
unfolding is_valid checks_from checks build_bpf_filter
build_bpf_filter-is_valid port len h = ground arith
