-- ===== src/Setup/Named.antt =====
-- src/main.rs:150-305: which ids the started sources report under.
pub mod Starts
pub mod Reported
use Prim.Native.String.{String}
use orbshred.Prelude.{
  ℕ, zero, suc, ◌+◌, ◌%◌, ◌^◌, ◌≡◌, refl, sym, ap, subst, ◌∙◌, Bool, ◌&&◌, Option, none, some, List,
  [], ◌∷◌, ◌++◌, map, if◌then◌else◌, arith, Bool-cases, inl, inr, length,
}
use mathlib.Core.List.{append_assoc, append-nil}
use orbshred.Prelude.Text.{blank}
use orbshred.Pcap.{Ipv4Addr}
use orbshred.Config.{
  RawUdpConfig, JitoConfig, DoubleZeroConfig, YellowstoneConfig, PcapConfig, SourcesConfig,
}
use orbshred.Registry.{SourceId}
use orbshred.Setup.{
  ◌>>=◌, Names, Started, raw_udp_run, jito_run, doublezero_run, yellowstone_run, Setup, no_sources,
  alloc, add_shred, add_entry_source, launch, start_each, enabled, start_raw_udp, start_doublezero,
  jito_shreds, jito_entries, start_jito, account_source, start_yellowstone, start_sources,
}
use orbshred.Setup.Captures.{
  CaptureRun, Groups, register_capture, register_each, capture_of, start_all,
}
use orbshred.Setup.Captures.Grouped.{bind_some, some_same}

-- The ids of a list of named sources.
abbrev pub ids : Names → List SourceId
ids [] = []
ids ((i, n) ∷ l) = i ∷ ids l

-- The ids that a started source reports shreds under, by its own configuration.
unfoldable pub shred_ids_of : Started → List SourceId
shred_ids_of (raw_udp_run c i) = i ∷ []
shred_ids_of (doublezero_run c i) = i ∷ []
shred_ids_of (yellowstone_run c i account) = []
shred_ids_of (jito_run c i j) =
    if blank c.block_engine_url && blank c.proxy_udp_addr then [] else i ∷ []

-- The ids that it reports entries under: the account measurement of Yellowstone has its own.
unfoldable pub entry_ids_of : Started → List SourceId
entry_ids_of (raw_udp_run c i) = []
entry_ids_of (doublezero_run c i) = []
entry_ids_of (yellowstone_run c i none) = i ∷ []
entry_ids_of (yellowstone_run c i (some account)) = account ∷ i ∷ []
entry_ids_of (jito_run c i j) = if blank c.proxy_grpc_addr then [] else j ∷ []

unfoldable pub ids_from : (Started → List SourceId) → List Started → List SourceId
ids_from f [] = []
ids_from f (r ∷ rs) = f r ++ ids_from f rs

-- So many ids in a row.
unfoldable pub numbered : SourceId → ℕ → List SourceId
numbered id zero = []
numbered id (suc n) = id ∷ numbered ((id + 1) % 2 ^ 32) n

pub ids-append : (l m : Names) → ids (l ++ m) ≡ ids l ++ ids m
ids-append [] m = refl
ids-append ((i, n) ∷ l) m = ap (λ k. i ∷ k) (ids-append l m)

ids_from-append :
    (f : Started → List SourceId) (rs : List Started) (r : Started)
    → ids_from f (rs ++ (r ∷ [])) ≡ ids_from f rs ++ f r
unfolding ids_from
ids_from-append f [] r = append-nil (f r)
ids_from-append f (q ∷ rs) r =
    ap (λ l. f q ++ l) (ids_from-append f rs r) ∙ sym (append_assoc (f q) (ids_from f rs) (f r))

-- The active sources are those that the started ones report under.
abbrev pub Named : Setup → Type 0
Named s =
    (ids s.active_shred_sources ≡ ids_from shred_ids_of s.started)
    × (ids s.active_entry_sources ≡ ids_from entry_ids_of s.started)

abbrev pub NamedIf : Option Setup → Type 0
NamedIf none = Unit {0}
NamedIf (some s) = Named s

-- A started source and its ids are added together.
pub both_grow :
    (f : Started → List SourceId) (rs : List Started) (r : Started) (l more : Names)
    → ids l ≡ ids_from f rs
    → ids more ≡ f r
    → ids (l ++ more) ≡ ids_from f (rs ++ (r ∷ []))
both_grow f rs r l more h k =
    ids-append l more
    ∙ ap (λ m. m ++ ids more) h
    ∙ ap (λ m. ids_from f rs ++ m) k
    ∙ sym (ids_from-append f rs r)

pub none_grow :
    (f : Started → List SourceId) (rs : List Started) (r : Started) (l : Names)
    → ids l ≡ ids_from f rs
    → f r ≡ []
    → ids l ≡ ids_from f (rs ++ (r ∷ []))
none_grow f rs r l h k =
    h
    ∙ sym (append-nil (ids_from f rs))
    ∙ ap (λ m. ids_from f rs ++ m) (sym k)
    ∙ sym (ids_from-append f rs r)

pub NamedIf-bind :
    (o : Option Setup) (f : Setup → Option Setup)
    → NamedIf o
    → ((s : Setup) → Named s → NamedIf (f s))
    → NamedIf (o >>= f)
NamedIf-bind none f h k = tt
NamedIf-bind (some s) f h k = k s h

pub start_each-NamedIf :
    {C : Type 0} (f : ℕ → C → Setup → Option Setup) (i : ℕ) (cs : List C) (s : Setup)
    → ((j : ℕ) (c : C) (t : Setup) → Named t → NamedIf (f j c t))
    → Named s
    → NamedIf (start_each f i cs s)
unfolding start_each
start_each-NamedIf f i [] s k h = h
start_each-NamedIf f i (c ∷ cs) s k h =
    NamedIf-bind (f i c s) _ (k i c s h) (λ t. start_each-NamedIf f (i + 1) cs t k)
