-- ===== src/Setup/Distinct.antt =====
-- src/main.rs:150-257: starting the sources keeps their ids apart.
use Prim.Native.String.{String}
use orbshred.Prelude.{
  ℕ, ◌+◌, ◌*◌, ◌%◌, ◌^◌, ◌≤◌, ◌<◌, ◌≡◌, ◌||◌, Bool, not, Option, none, some, List, [], ◌∷◌, arith,
  length, Bool-cases, inl, inr, subst,
}
use orbshred.Prelude.Text.{blank}
use orbshred.Config.{RawUdpConfig, JitoConfig, DoubleZeroConfig, YellowstoneConfig}
use orbshred.Setup.{
  ◌>>=◌, Started, raw_udp_run, jito_run, doublezero_run, yellowstone_run, Setup, alloc, add_shred,
  add_entry_source, source_name, launch, start_raw_udp, start_doublezero, jito_shreds, jito_entries,
  jito_entry_name, start_jito, account_name, account_source, start_yellowstone, start_each, enabled,
}
use orbshred.Setup.Ids.{
  IsNumbered, sources_with, uses, uses-append, add_shred-IsNumbered, add_entry_source-IsNumbered,
  IsNumbered-next,
}

-- If the start succeeds, at most `k` ids were handed out and the sources are numbered.
abbrev pub Grown : ℕ → Setup → Option Setup → Type 0
Grown k s none = Unit {0}
Grown k s (some s') = (s'.next_id ≤ s.next_id + k) × IsNumbered s'.next_id s'

pub Grown-bind :
    (k l : ℕ) (s : Setup) (m : Option Setup) (f : Setup → Option Setup)
    → Grown k s m
    → ((t : Setup) → t.next_id ≤ s.next_id + k → IsNumbered t.next_id t → Grown l t (f t))
    → Grown (k + l) s (m >>= f)
Grown-bind k l s none f g h = tt
Grown-bind k l s (some t) f (le, n) h = wider (f t) (h t le n)
  where
    wider : (o : Option Setup) → Grown l t o → Grown (k + l) s o
    wider none g = tt
    wider (some u) (le', n') = (omega arith, n')

pub start_each-Grown {ℓ} :
    {C : Type ℓ} (f : ℕ → C → Setup → Option Setup) (idx : ℕ) (cs : List C) (s : Setup)
    → ((i : ℕ) (c : C) (t : Setup)
        → t.next_id + 2 < 2 ^ 32
        → IsNumbered t.next_id t
        → Grown 2 t (f i c t))
    → s.next_id + 2 * length cs < 2 ^ 32
    → IsNumbered s.next_id s
    → Grown (2 * length cs) s (start_each f idx cs s)
unfolding start_each
start_each-Grown f idx [] s each h n = (omega arith, n)
start_each-Grown f idx (c ∷ cs) s each h n =
    let size : 2 + 2 * length cs ≡ 2 * length (c ∷ cs) = omega arith in
    subst (λ k. Grown k s (f idx c s >>= λ t. start_each f (idx + 1) cs t)) size
      (Grown-bind 2 (2 * length cs) s (f idx c s) (λ t. start_each f (idx + 1) cs t)
        (each idx c s (omega arith) n)
        (λ t le m. start_each-Grown f (idx + 1) cs t each (omega arith) m))

pub length-enabled {ℓ} :
    {C : Type ℓ} (on : C → Bool) (cs : List C) → length (enabled on cs) ≤ length cs
unfolding enabled
length-enabled on [] = omega arith
length-enabled on (c ∷ cs) = ground (arith, length-enabled on cs)

module _ (shown : ℕ → String) (starts : Started → Bool) where
  pub start_raw_udp-Grown :
      (total idx : ℕ) (cfg : RawUdpConfig) (s : Setup)
      → s.next_id + 2 < 2 ^ 32
      → IsNumbered s.next_id s
      → Grown 2 s (start_raw_udp shown starts total idx cfg s)
  unfolding start_raw_udp launch alloc
  start_raw_udp-Grown total idx cfg s h n = elim (Bool-cases (starts (raw_udp_run cfg s.next_id))) [
    | inl up ↦ rw up (
      omega arith,
      add_shred-IsNumbered s.next_id _ s.next_id _ _ (n.below s.next_id (omega arith)) (omega arith)
          (omega arith) (IsNumbered-next s.next_id s.next_id _ _ s (omega arith) n),
    )
    | inr down ↦ rw down tt
  ]

  pub start_doublezero-Grown :
      (total idx : ℕ) (cfg : DoubleZeroConfig) (s : Setup)
      → s.next_id + 2 < 2 ^ 32
      → IsNumbered s.next_id s
      → Grown 2 s (start_doublezero shown starts total idx cfg s)
  unfolding start_doublezero launch alloc
  start_doublezero-Grown total idx cfg s h n =
      elim (Bool-cases (starts (doublezero_run cfg s.next_id))) [
        | inl up ↦ rw up (
          omega arith,
          add_shred-IsNumbered s.next_id _ s.next_id _ _ (n.below s.next_id (omega arith))
              (omega arith) (omega arith)
              (IsNumbered-next s.next_id s.next_id _ _ s (omega arith) n),
        )
        | inr down ↦ rw down tt
      ]

  jito_shreds-IsNumbered :
      (cfg : JitoConfig) (b c id : ℕ) (name : String) (s : Setup)
      → sources_with id s ≡ 0
      → id < c
      → b ≤ c
      → IsNumbered b s
      → IsNumbered c (jito_shreds shown starts cfg id name s)
  unfolding jito_shreds
  jito_shreds-IsNumbered cfg b c id name s u h le n =
      elim (Bool-cases (not (blank cfg.block_engine_url) || not (blank cfg.proxy_udp_addr))) [
        | inl udp ↦ rw udp (add_shred-IsNumbered b c id name s u h le n)
        | inr none_ ↦ rw none_ (IsNumbered-next b c s.next_id s.started s le n)
      ]

  jito_entries-IsNumbered :
      (cfg : JitoConfig) (b c id : ℕ) (name : String) (s : Setup)
      → sources_with id s ≡ 0
      → id < c
      → b ≤ c
      → IsNumbered b s
      → IsNumbered c (jito_entries shown starts cfg id name s)
  unfolding jito_entries
  jito_entries-IsNumbered cfg b c id name s u h le n =
      elim (Bool-cases (not (blank cfg.proxy_grpc_addr))) [
        | inl grpc ↦ rw grpc (add_entry_source-IsNumbered b c id name s u h le n)
        | inr none_ ↦ rw none_ (IsNumbered-next b c s.next_id s.started s le n)
      ]

  jito-next_id :
      (cfg : JitoConfig) (i j : ℕ) (m n : String) (s : Setup)
      → (jito_entries shown starts cfg j n (jito_shreds shown starts cfg i m s)).next_id ≡ s.next_id
  unfolding jito_shreds jito_entries add_shred add_entry_source
  jito-next_id cfg i j m n s = ground arith

  pub start_jito-Grown :
      (total idx : ℕ) (cfg : JitoConfig) (s : Setup)
      → s.next_id + 2 < 2 ^ 32
      → IsNumbered s.next_id s
      → Grown 2 s (start_jito shown starts total idx cfg s)
  unfolding start_jito launch alloc
  start_jito-Grown total idx cfg s h n =
      let id = s.next_id in
      let id2 = (id + 1) % 2 ^ 32 in
      let shred_name = source_name shown starts cfg.name "Jito ShredStream" idx total in
      let entry_name = jito_entry_name shown starts total idx cfg in
      let x = jito_shreds shown starts cfg id shred_name (alloc (alloc s)) in
      let y = jito_entries shown starts cfg id2 entry_name x in
      let nx : IsNumbered (id + 1) x =
        jito_shreds-IsNumbered cfg id (id + 1) id shred_name (alloc (alloc s))
          (n.below id (omega arith)) (omega arith) (omega arith)
          (IsNumbered-next id id _ s.started s (omega arith) n) in
      let ny : IsNumbered (id + 2) y =
        jito_entries-IsNumbered cfg (id + 1) (id + 2) id2 entry_name x (nx.below id2 (omega arith))
          (omega arith) (omega arith) nx in
      let next = jito-next_id cfg id id2 shred_name entry_name (alloc (alloc s)) in
      elim (Bool-cases (starts (jito_run cfg id id2))) [
        | inl up ↦ rw up (
          omega (arith, next),
          IsNumbered-next (id + 2) y.next_id y.next_id _ y (omega (arith, next)) ny,
        )
        | inr down ↦ rw down tt
      ]

  account_source-Grown :
      (cfg : YellowstoneConfig) (name : String) (s : Setup)
      → s.next_id + 2 < 2 ^ 32
      → IsNumbered s.next_id s
      → let t = (account_source shown starts cfg name (alloc s)).1 in
        (t.next_id ≤ s.next_id + 2)
        × (s.next_id < t.next_id)
        × (sources_with s.next_id t ≡ 0)
        × IsNumbered t.next_id t
  unfolding account_source alloc uses add_entry_source
  account_source-Grown cfg name s h n = elim (Bool-cases (blank cfg.account_pubkey)) [
    | inl without ↦ rw without (
      omega arith,
      omega arith,
      n.below s.next_id (omega arith),
      IsNumbered-next s.next_id _ _ s.started s (omega arith) n,
    )
    | inr account ↦
        let id2 = (s.next_id + 1) % 2 ^ 32 in
        rw account (
          omega arith,
          omega arith,
          ground (
            arith,
            uses-append s.next_id s.active_entry_sources
                ((id2, account_name shown starts cfg name) ∷ []),
            n.below s.next_id,
          ),
          add_entry_source-IsNumbered s.next_id _ id2 _ _ (n.below id2 (omega arith)) (omega arith)
              (omega arith) (IsNumbered-next s.next_id s.next_id _ s.started s (omega arith) n),
        )
  ]

  pub start_yellowstone-Grown :
      (total idx : ℕ) (cfg : YellowstoneConfig) (s : Setup)
      → s.next_id + 2 < 2 ^ 32
      → IsNumbered s.next_id s
      → Grown 2 s (start_yellowstone shown starts total idx cfg s)
  unfolding start_yellowstone launch
  start_yellowstone-Grown total idx cfg s h n =
      let name = source_name shown starts cfg.name "Yellowstone" idx total in
      let (aid, t) = account_source shown starts cfg name (alloc s) in
      let (le, lt, unused, m) = account_source-Grown cfg name s h n in
      elim (Bool-cases (starts (yellowstone_run cfg s.next_id aid))) [
        | inl up ↦ rw up (
          le,
          add_entry_source-IsNumbered t.next_id t.next_id s.next_id name _ unused lt (omega arith)
              (IsNumbered-next t.next_id t.next_id t.next_id _ t (omega arith) m),
        )
        | inr down ↦ rw down tt
      ]
