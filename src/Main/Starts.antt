-- ===== src/Main/Starts.antt =====
-- src/main.rs:161-305: how many sources are started.
use Prim.Native.String.{String}
use orbshred.Prelude.{
  ℕ, ◌+◌, ◌<◌, ◌≡◌, refl, ap, ◌∙◌, Bool, Option, none, some, List, [], ◌∷◌, map, length,
  length-append, length-map, arith, Bool-cases, inl, inr, ◌⊎◌,
}
use orbshred.DashMap.{upsert_by}
use orbshred.Pcap.{Ipv4Addr}
use orbshred.Config.{
  RawUdpConfig, JitoConfig, DoubleZeroConfig, YellowstoneConfig, PcapConfig, SourcesConfig,
}
use orbshred.Registry.{SourceId}
use orbshred.Setup.{
  Setup, Started, ◌>>=◌, no_sources, alloc, add_shred, add_entry_source, launch, start_raw_udp,
  start_doublezero, start_jito, jito_shreds, jito_entries, account_source, start_yellowstone,
  start_each, enabled, start_sources,
}
use orbshred.Setup.Captures.{
  CaptureKey, Member, key_of_config, member_of, Groups, CaptureRun, capture_of, same_group,
  add_member, register_capture, register_each, start_all,
}

-- The starts that do not fail made `n` calls.
abbrev pub Calls : ℕ → Setup → Option Setup → Type 0
Calls n s none = Unit {0}
Calls n s (some t) = length t.started ≡ n + length s.started

Calls-bind :
    (n m k : ℕ) (s : Setup) (o : Option Setup) (f : Setup → Option Setup)
    → k ≡ n + m
    → Calls n s o
    → ((t : Setup) → Calls m t (f t))
    → Calls k s (o >>= f)
Calls-bind n m k s none f e h each = tt
Calls-bind n m k s (some t) f e h each = go (f t) (each t)
  where
    go : (o : Option Setup) → Calls m t o → Calls k s o
    go none q = tt
    go (some u) q = omega (arith, e, q, h)

start_each-Calls :
    {C : Type 0} (f : ℕ → C → Setup → Option Setup) (i : ℕ) (cs : List C) (s : Setup)
    → ((j : ℕ) (c : C) (t : Setup) → Calls 1 t (f j c t))
    → Calls (length cs) s (start_each f i cs s)
unfolding start_each
start_each-Calls f i [] s h = omega arith
start_each-Calls f i (c ∷ cs) s h =
    Calls-bind 1 (length cs) _ s (f i c s) _ (omega arith) (h i c s)
      (λ t. start_each-Calls f (i + 1) cs t h)

module _ (shown : ℕ → String) (starts : Started → Bool) where
  launch-Calls :
      (r : Started) (s t : Setup)
      → length t.started ≡ length s.started
      → Calls 1 s (launch shown starts r t)
  unfolding launch
  launch-Calls r s t h = elim (Bool-cases (starts r)) [
    | inl e ↦ rw (e, length-append t.started (r ∷ [])) (omega (arith, h))
    | inr e ↦ rw e tt
  ]

  -- A source's names and ids are no calls.
  named :
      (r : Started) (s t : Setup) (f : Setup → Setup)
      → length t.started ≡ length s.started
      → ((u : Setup) → (f u).started ≡ u.started)
      → Calls 1 s (launch shown starts r t >>= λ u. some (f u))
  named r s t f h k =
      Calls-bind 1 0 1 s (launch shown starts r t) _ (omega arith) (launch-Calls r s t h)
        (λ u. rw (k u) (omega arith))

  raw_udp-Calls :
      (total i : ℕ) (c : RawUdpConfig) (s : Setup)
      → Calls 1 s (start_raw_udp shown starts total i c s)
  unfolding start_raw_udp alloc add_shred
  raw_udp-Calls total i c s = named _ s _ _ refl (λ u. refl)

  doublezero-Calls :
      (total i : ℕ) (c : DoubleZeroConfig) (s : Setup)
      → Calls 1 s (start_doublezero shown starts total i c s)
  unfolding start_doublezero alloc add_shred
  doublezero-Calls total i c s = named _ s _ _ refl (λ u. refl)

  jito_shreds-started :
      (c : JitoConfig) (id : SourceId) (n : String) (s : Setup)
      → (jito_shreds shown starts c id n s).started ≡ s.started
  unfolding jito_shreds add_shred
  jito_shreds-started c id n s = ground arith

  jito_entries-started :
      (c : JitoConfig) (id : SourceId) (n : String) (s : Setup)
      → (jito_entries shown starts c id n s).started ≡ s.started
  unfolding jito_entries add_entry_source
  jito_entries-started c id n s = ground arith

  jito-Calls :
      (total i : ℕ) (c : JitoConfig) (s : Setup) → Calls 1 s (start_jito shown starts total i c s)
  unfolding start_jito alloc
  jito-Calls total i c s =
      launch-Calls _ s _ (ap length (jito_entries-started c _ _ _ ∙ jito_shreds-started c _ _ _))

  account_source-started :
      (c : YellowstoneConfig) (n : String) (s : Setup)
      → (account_source shown starts c n s).1.started ≡ s.started
  unfolding account_source alloc add_entry_source
  account_source-started c n s = ground arith

  yellowstone-Calls :
      (total i : ℕ) (c : YellowstoneConfig) (s : Setup)
      → Calls 1 s (start_yellowstone shown starts total i c s)
  unfolding start_yellowstone alloc add_entry_source
  yellowstone-Calls total i c s =
      named _ s _ _ (ap length (account_source-started c _ _)) (λ u. refl)

-- How many of the sources of each kind are enabled.
module _ (cfg : SourcesConfig) where
  abbrev raw_on : List RawUdpConfig
  raw_on = enabled (λ (c : RawUdpConfig). c.enabled) cfg.raw_udp

  abbrev jito_on : List JitoConfig
  jito_on = enabled (λ (c : JitoConfig). c.enabled) cfg.jito

  abbrev doublezero_on : List DoubleZeroConfig
  doublezero_on = enabled (λ (c : DoubleZeroConfig). c.enabled) cfg.doublezero

  abbrev yellowstone_on : List YellowstoneConfig
  yellowstone_on = enabled (λ (c : YellowstoneConfig). c.enabled) cfg.yellowstone

  abbrev captures_on : List PcapConfig
  captures_on = enabled (λ (c : PcapConfig). c.enabled) cfg.pcap

  -- The enabled sources that listen themselves.
  abbrev pub listeners_on : ℕ
  listeners_on = length raw_on + length jito_on + length doublezero_on + length yellowstone_on

  abbrev pub sources_on : ℕ
  sources_on = listeners_on + length captures_on

-- Every enabled source that listens itself is started once, and something listens.
abbrev pub Listens : SourcesConfig → Option (Setup × List CaptureRun) → Type 0
Listens cfg none = Unit {0}
Listens cfg (some (t, runs)) =
    (length t.started ≡ listeners_on cfg) × (0 < length t.started + length runs)

upsert_by-nonempty :
    (K M : Type 0) (same : K → K → Bool) (k : K) (f : M → M) (m : M) (g : List (K × M))
    → 0 < length (upsert_by same k f m g)
upsert_by-nonempty K M same k f m [] = omega arith
upsert_by-nonempty K M same k f m ((j, w) ∷ g) = elim (Bool-cases (same j k)) [
  | inl e ↦ rw e (omega arith)
  | inr e ↦ rw e (omega arith)
]

add_member-nonempty : (k : CaptureKey) (m : Member) (gs : Groups) → 0 < length (add_member k m gs)
unfolding add_member
add_member-nonempty k m gs = upsert_by-nonempty CaptureKey (List Member) same_group k _ _ gs

module _ (shown : ℕ → String) (starts : Started → Bool) (parse : String → Option Ipv4Addr) where
  register_each-started :
      (total i : ℕ) (cs : List PcapConfig) (s : Setup) (gs : Groups)
      → (register_each shown starts parse total i cs (s, gs)).0.started ≡ s.started
  unfolding register_each register_capture alloc add_shred
  register_each-started total i [] s gs = refl
  register_each-started total i (c ∷ cs) s gs = register_each-started total (i + 1) cs _ _

  register_each-nonempty :
      (total i : ℕ) (cs : List PcapConfig) (s : Setup) (gs : Groups)
      → 0 < length gs + length cs
      → 0 < length (register_each shown starts parse total i cs (s, gs)).1
  unfolding register_each register_capture
  register_each-nonempty total i [] s gs h = omega (arith, h)
  register_each-nonempty total i (c ∷ cs) s gs h =
      let more =
        add_member-nonempty (key_of_config c) (member_of shown starts parse total i c s.next_id)
          gs in
      register_each-nonempty total (i + 1) cs _ _ (omega (arith, more))

  start_sources-Calls :
      (cfg : SourcesConfig) (s : Setup)
      → Calls (listeners_on cfg) s (start_sources shown starts cfg s)
  unfolding start_sources
  start_sources-Calls cfg s =
      let jito : ℕ = length (jito_on cfg) in
      let dz : ℕ = length (doublezero_on cfg) in
      let ys : ℕ = length (yellowstone_on cfg) in
      Calls-bind (length (raw_on cfg)) (jito + (dz + ys)) _ s _ _ (omega arith)
        (start_each-Calls _ 0 (raw_on cfg) s (raw_udp-Calls shown starts _))
        λ t.
          Calls-bind jito (dz + ys) _ t _ _ refl
            (start_each-Calls _ 0 (jito_on cfg) t (jito-Calls shown starts _))
            λ u.
              Calls-bind dz ys _ u _ _ refl
                (start_each-Calls _ 0 (doublezero_on cfg) u (doublezero-Calls shown starts _))
                λ v. start_each-Calls _ 0 (yellowstone_on cfg) v (yellowstone-Calls shown starts _)

  -- The captures of a set-up, and the runs of their groups.
  abbrev with_captures : List PcapConfig → Setup → Setup × List CaptureRun
  with_captures cs s =
      let r = register_each shown starts parse (length cs) 0 cs (s, []) in (r.0, map capture_of r.1)

  with_captures_listens :
      (cs : List PcapConfig) (s : Setup)
      → ((with_captures cs s).0.started ≡ s.started)
        × ((length cs ≡ 0) ⊎ (0 < length (with_captures cs s).1))
  with_captures_listens [] s = (register_each-started 0 0 [] s [], inl refl)
  with_captures_listens (c ∷ cs) s =
      let r = register_each shown starts parse (length (c ∷ cs)) 0 (c ∷ cs) (s, []) in
      let some_group = register_each-nonempty (length (c ∷ cs)) 0 (c ∷ cs) s [] (omega arith) in
      (
        register_each-started _ 0 (c ∷ cs) s [],
        inr (omega (arith, some_group, length-map r.1 capture_of)),
      )

  pub start_all-Listens :
      (cfg : SourcesConfig)
      → 0 < sources_on cfg
      → Listens cfg (start_all shown starts parse cfg no_sources)
  unfolding start_all
  start_all-Listens cfg h =
      go (start_sources shown starts cfg no_sources) (start_sources-Calls cfg no_sources)
    where
      go :
          (o : Option Setup)
          → Calls (listeners_on cfg) no_sources o
          → Listens cfg (o >>= λ s. some (with_captures (captures_on cfg) s))
      go none q = tt
      go (some s) q =
          let (same, heard) = with_captures_listens (captures_on cfg) s in
          let n : length s.started ≡ listeners_on cfg = omega (arith, q) in
          let m : length (with_captures (captures_on cfg) s).0.started ≡ listeners_on cfg =
            ap length same ∙ n in
          (m, elim heard [ inl e ↦ omega (arith, m, h, e) | inr g ↦ omega (arith, g) ])
