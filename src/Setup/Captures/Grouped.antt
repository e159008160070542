-- ===== src/Setup/Captures/Grouped.antt =====
-- src/main.rs:260-305: which captures share a socket, and the ids of all sources.
use Prim.Native.String.{String}
use orbshred.Prelude.{
  ℕ, suc, ◌+◌, ◌*◌, ◌%◌, ◌^◌, ◌≤◌, ◌<◌, ◌≡◌, refl, ap, subst, ◌∙◌, Bool, true, false, Option, none,
  some, List, [], ◌∷◌, ◌++◌, map, max, length, ◌==◌, ◌&&◌, if◌then◌else◌, arith, Bool-cases, inl,
  inr, ==_iff,
}
use mathlib.Core.List.{append_assoc, filter_map}
use orbshred.Prelude.Strings.{same_text, same_text_iff}
use orbshred.DashMap.{Decides, lookup_by, lookup_by-upsert_by, modify_or}
use orbshred.Registry.{SourceId}
use orbshred.Pcap.{Ipv4Addr}
use orbshred.Config.{PcapConfig, SourcesConfig}
use orbshred.Setup.{
  ◌>>=◌, Setup, Started, no_sources, source_name, alloc, add_shred, enabled, start_sources,
}
use orbshred.Setup.Ids.{IsNumbered, add_shred-IsNumbered, IsNumbered-next}
use orbshred.Setup.Distinct.{length-enabled}
use orbshred.Setup.Start.{configured, start_sources_ids}
use orbshred.Setup.Captures.Sockets.{RunsEach, capture_of-RunsEach}
use orbshred.Setup.Captures.{
  CaptureKey, Member, Groups, CaptureRun, capture_of, same_group, key_of_config, add_member,
  member_of, register_capture, register_each, start_all,
}

same_group_iff : Decides same_group
same_group_iff a b = ground (arith, ==_iff a.port b.port, same_text_iff a.interface b.interface)

not_shared :
    (j key κ : CaptureKey)
    → same_group j key ≡ false
    → same_group j κ ≡ true
    → same_group key κ ≡ false
not_shared j key κ h k =
    ground (arith, same_group_iff j key, same_group_iff j κ, same_group_iff key κ)

-- How many groups have the key.
unfoldable pub groups_with : CaptureKey → Groups → ℕ
groups_with κ [] = 0
groups_with κ ((key, ms) ∷ gs) =
    if same_group key κ then suc (groups_with κ gs) else groups_with κ gs

abbrev pub OneEach : Groups → Type 0
OneEach gs = (κ : CaptureKey) → groups_with κ gs ≤ 1

-- More members after those that are there.
unfoldable pub joined : Option (List Member) → List Member → Option (List Member)
joined none [] = none
joined none (m ∷ ms) = some (m ∷ ms)
joined (some l) ms = some (l ++ ms)

joined-append :
    (o : Option (List Member)) (m : Member) (ms : List Member)
    → joined (some (modify_or (λ l. l ++ (m ∷ [])) (m ∷ []) o)) ms ≡ joined o (m ∷ ms)
unfolding joined
joined-append none m ms = refl
joined-append (some l) m ms = ap some (append_assoc l (m ∷ []) ms)

groups_with-add_member :
    (key κ : CaptureKey) (m : Member) (gs : Groups)
    → groups_with κ (add_member key m gs)
      ≡ (if same_group key κ then max 1 (groups_with κ gs) else groups_with κ gs)
unfolding groups_with add_member
groups_with-add_member key κ m [] = ground arith
groups_with-add_member key κ m ((j, ms) ∷ gs) = elim (Bool-cases (same_group j key)) [
  | inl hit ↦
      rw (hit, (same_group_iff j key).0 hit)
        (elim (Bool-cases (same_group key κ)) [
          | inl here ↦ rw here (omega arith)
          | inr there ↦ rw there
        ])
  | inr miss ↦
      rw (miss, groups_with-add_member key κ m gs)
        (elim (Bool-cases (same_group j κ)) [
          | inr other ↦ rw other
          | inl here ↦ rw (here, not_shared j key κ miss here)
        ])
]

pub some_same : {A : Type 0} (a b : A) → some a ≡ some b → a ≡ b
some_same {A} a b e = ap (λ (o : Option A). elim o [ none ↦ b | some x ↦ x ]) e

-- What comes before in a chain that succeeds.
pub bind_some :
    {A B : Type 0} (m : Option A) (f : A → Option B) (b : B)
    → (m >>= f) ≡ some b
    → (a : A) × (m ≡ some a) × (f a ≡ some b)
bind_some none f b e = cc
bind_some (some a) f b e = (a, refl, e)

module _ (shown : ℕ → String) (starts : Started → Bool) (parse : String → Option Ipv4Addr) where
  -- The members of a key among captures from the `idx`-th on, whose first one gets the id.
  unfoldable pub members_for : CaptureKey → ℕ → ℕ → List PcapConfig → SourceId → List Member
  members_for κ total idx [] id = []
  members_for κ total idx (c ∷ cs) id =
      let rest = members_for κ total (idx + 1) cs ((id + 1) % 2 ^ 32) in
      if c.port == κ.port && same_text c.interface κ.interface
      then record {
        name = source_name shown starts c.name "Raw Capture" idx total;
        id = id;
        include_ips = filter_map parse c.source_ips;
        exclude_ips = filter_map parse c.exclude_ips;
        recv_buf_size = c.recv_buf_size;
        pin_cpu = c.pin_cpu;
      }
        ∷ rest
      else rest

  lookup-add_member :
      (key κ : CaptureKey) (m : Member) (gs : Groups) (ms : List Member)
      → joined (lookup_by same_group κ (add_member key m gs)) ms
        ≡ joined (lookup_by same_group κ gs) (if same_group key κ then m ∷ ms else ms)
  unfolding add_member
  lookup-add_member key κ m gs ms =
      ap (λ o. joined o ms)
        (lookup_by-upsert_by same_group same_group_iff key κ (λ l. l ++ (m ∷ [])) (m ∷ []) gs)
      ∙ (elim (Bool-cases (same_group key κ)) [
        | inl hit ↦
            rw (hit, (same_group_iff key κ).0 hit) (joined-append (lookup_by same_group κ gs) m ms)
        | inr miss ↦ rw miss
      ])

  register_each-Grouped :
      (total idx : ℕ) (cs : List PcapConfig) (s : Setup) (gs : Groups) (κ : CaptureKey)
      → joined (lookup_by same_group κ (register_each shown starts parse total idx cs (s, gs)).1) []
        ≡ joined (lookup_by same_group κ gs) (members_for κ total idx cs s.next_id)
  unfolding register_each members_for register_capture member_of add_shred alloc
  register_each-Grouped total idx [] s gs κ = refl
  register_each-Grouped total idx (c ∷ cs) s gs κ =
      let m = member_of shown starts parse total idx c s.next_id in
      let r = register_capture shown starts parse total idx c (s, gs) in
      register_each-Grouped total (idx + 1) cs r.0 r.1 κ
      ∙ lookup-add_member (key_of_config c) κ m gs
          (members_for κ total (idx + 1) cs ((s.next_id + 1) % 2 ^ 32))

  register_each-OneEach :
      (total idx : ℕ) (cs : List PcapConfig) (s : Setup) (gs : Groups)
      → OneEach gs
      → OneEach (register_each shown starts parse total idx cs (s, gs)).1
  unfolding register_each register_capture
  register_each-OneEach total idx [] s gs h = h
  register_each-OneEach total idx (c ∷ cs) s gs h =
      let m = member_of shown starts parse total idx c s.next_id in
      let r = register_capture shown starts parse total idx c (s, gs) in
      register_each-OneEach total (idx + 1) cs r.0 r.1
        λ κ. ground (arith, groups_with-add_member (key_of_config c) κ m gs, h κ)

  register_each-IsNumbered :
      (total idx : ℕ) (cs : List PcapConfig) (s : Setup) (gs : Groups)
      → s.next_id + length cs < 2 ^ 32
      → IsNumbered s.next_id s
      → let s' = (register_each shown starts parse total idx cs (s, gs)).0 in
        IsNumbered s'.next_id s'
  unfolding register_each register_capture alloc
  register_each-IsNumbered total idx [] s gs h n = n
  register_each-IsNumbered total idx (c ∷ cs) s gs h n =
      let r = register_capture shown starts parse total idx c (s, gs) in
      let next : (s.next_id + 1) % 2 ^ 32 ≡ s.next_id + 1 = omega arith in
      register_each-IsNumbered total (idx + 1) cs r.0 r.1 (omega (arith, next)) (
        add_shred-IsNumbered s.next_id ((s.next_id + 1) % 2 ^ 32) s.next_id _ (alloc s)
          (n.below s.next_id (omega arith)) (omega (arith, next)) (omega (arith, next))
          (IsNumbered-next s.next_id s.next_id ((s.next_id + 1) % 2 ^ 32) _ s (omega arith) n))

  -- Once all sources are started, every active source has an id of its own and its name, packet
  -- captures included, and the captures that share a port and an interface share one socket: for each
  -- port and interface there is at most one group of captures, and it holds the enabled captures of
  -- just that port and interface, in the order of the configuration, each under the id that it got.
  -- There is one capture run for each group, on its port and interface, with a buffer as large as any
  -- member asks for and one route for each member, with the member's id and addresses. Every start
  -- succeeds, and fewer than 2^31 sources are configured.
  pub start_all-Grouped :
      (cfg : SourcesConfig) (s : Setup) (runs : List CaptureRun)
      → 2 * (configured cfg + length cfg.pcap) < 2 ^ 32
      → start_all shown starts parse cfg no_sources ≡ some (s, runs)
      → (s1 : Setup) × (gs : Groups) × (start_sources shown starts cfg no_sources ≡ some s1)
        × RunsEach gs runs
        × IsNumbered s.next_id s
        × OneEach gs
        × ((κ : CaptureKey)
            → joined (lookup_by same_group κ gs) []
              ≡ joined none (
                  members_for κ
                    (length (enabled (λ (c : PcapConfig). c.enabled) cfg.pcap))
                    0
                    (enabled (λ (c : PcapConfig). c.enabled) cfg.pcap)
                    s1.next_id))
  unfolding start_all groups_with
  start_all-Grouped cfg s runs few e =
      let on = enabled (λ (c : PcapConfig). c.enabled) cfg.pcap in
      let started = start_sources shown starts cfg no_sources in
      let (s1, e1, e2) = bind_some started _ (s, runs) e in
      let r = register_each shown starts parse (length on) 0 on (s1, []) in
      let r' : Setup × List CaptureRun = (r.0, map capture_of r.1) in
      let same : r' ≡ (s, runs) = some_same r' (s, runs) e2 in
      let (le, n) = start_sources_ids shown starts cfg s1 (omega arith) e1 in
      let fits : s1.next_id + length on < 2 ^ 32 =
        omega (arith, le, length-enabled (λ (c : PcapConfig). c.enabled) cfg.pcap) in
      (
        s1,
        r.1,
        e1,
        subst (RunsEach r.1) (ap (λ (p : Setup × List CaptureRun). p.1) same)
            (capture_of-RunsEach r.1),
        subst (λ t. IsNumbered t.next_id t) (ap (λ (p : Setup × List CaptureRun). p.0) same)
            (register_each-IsNumbered (length on) 0 on s1 [] fits n),
        register_each-OneEach (length on) 0 on s1 [] (λ κ. omega arith),
        register_each-Grouped (length on) 0 on s1 [],
      )
