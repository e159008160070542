-- ===== src/Setup/Named/Reported.antt =====
-- src/main.rs:150-305: the active sources once all sources are started.
use Prim.Native.String.{String}
use orbshred.Prelude.{
  ℕ, ◌+◌, ◌%◌, ◌^◌, ◌≡◌, refl, sym, ap, subst, ◌∙◌, Bool, Option, some, List, [], ◌∷◌, ◌++◌, map,
  length,
}
use mathlib.Core.List.{append_assoc, append-nil}
use orbshred.Pcap.{Ipv4Addr}
use orbshred.Config.{
  RawUdpConfig, JitoConfig, DoubleZeroConfig, YellowstoneConfig, PcapConfig, SourcesConfig,
}
use orbshred.Registry.{SourceId}
use orbshred.Setup.{
  ◌>>=◌, Started, Setup, no_sources, alloc, add_shred, enabled, start_raw_udp, start_doublezero,
  start_jito, start_yellowstone, start_each, start_sources,
}
use orbshred.Setup.Captures.{
  CaptureRun, Groups, register_capture, register_each, capture_of, start_all,
}
use orbshred.Setup.Captures.Grouped.{bind_some, some_same}
use orbshred.Setup.Named.{
  ids, ids-append, shred_ids_of, entry_ids_of, ids_from, numbered, NamedIf, NamedIf-bind,
  start_each-NamedIf,
}
use orbshred.Setup.Named.Starts.{
  raw_udp-NamedIf, jito-NamedIf, doublezero-NamedIf, yellowstone-NamedIf,
}

-- The active shred-level sources are those that the started sources report shreds under, and then one
-- for each enabled packet capture; the entry-level ones are those that the started sources report
-- entries under.
abbrev pub Reported : SourcesConfig → Setup → List SourceId → List SourceId → Type 0
Reported cfg s shreds entries =
    (first : ℕ) × (shreds
      ≡ ids_from shred_ids_of s.started
        ++ numbered first (length (enabled (λ (c : PcapConfig). c.enabled) cfg.pcap)))
    × (entries ≡ ids_from entry_ids_of s.started)

module _ (shown : ℕ → String) (starts : Started → Bool) (parse : String → Option Ipv4Addr) where
  start_sources-NamedIf :
      (cfg : SourcesConfig) → NamedIf (start_sources shown starts cfg no_sources)
  unfolding start_sources ids_from
  start_sources-NamedIf cfg =
      let raw = enabled (λ (c : RawUdpConfig). c.enabled) cfg.raw_udp in
      let jito = enabled (λ (c : JitoConfig). c.enabled) cfg.jito in
      let dz = enabled (λ (c : DoubleZeroConfig). c.enabled) cfg.doublezero in
      let ys = enabled (λ (c : YellowstoneConfig). c.enabled) cfg.yellowstone in
      let start_raw = start_raw_udp shown starts (length raw) in
      let start_j = start_jito shown starts (length jito) in
      let start_dz = start_doublezero shown starts (length dz) in
      let start_ys = start_yellowstone shown starts (length ys) in
      NamedIf-bind (start_each start_raw 0 raw no_sources)
        (λ s. start_each start_j 0 jito s >>= λ t.
          start_each start_dz 0 dz t >>= λ u. start_each start_ys 0 ys u)
        (start_each-NamedIf start_raw 0 raw no_sources (raw_udp-NamedIf shown starts _)
          (refl, refl))
        λ s h.
          NamedIf-bind (start_each start_j 0 jito s)
            (λ t. start_each start_dz 0 dz t >>= λ u. start_each start_ys 0 ys u)
            (start_each-NamedIf start_j 0 jito s (jito-NamedIf shown starts _) h)
            λ t h'.
              NamedIf-bind (start_each start_dz 0 dz t) (λ u. start_each start_ys 0 ys u)
                (start_each-NamedIf start_dz 0 dz t (doublezero-NamedIf shown starts _) h')
                λ u h''. start_each-NamedIf start_ys 0 ys u (yellowstone-NamedIf shown starts _) h''

  register_each-ids :
      (total idx : ℕ) (cs : List PcapConfig) (s : Setup) (gs : Groups)
      → let t = (register_each shown starts parse total idx cs (s, gs)).0 in
        (ids t.active_shred_sources ≡ ids s.active_shred_sources ++ numbered s.next_id (length cs))
        × (t.active_entry_sources ≡ s.active_entry_sources)
        × (t.started ≡ s.started)
  unfolding register_each register_capture alloc add_shred numbered
  register_each-ids total idx [] s gs = (sym (append-nil (ids s.active_shred_sources)), refl, refl)
  register_each-ids total idx (c ∷ cs) s gs =
      let r = register_capture shown starts parse total idx c (s, gs) in
      let (shreds, entries, kept) = register_each-ids total (idx + 1) cs r.0 r.1 in
      let more = numbered ((s.next_id + 1) % 2 ^ 32) (length cs) in
      (
        shreds
            ∙ ap (λ l. l ++ more) (ids-append s.active_shred_sources _)
            ∙ append_assoc (ids s.active_shred_sources) (s.next_id ∷ []) more,
        entries,
        kept,
      )

  pub start_all-Reported :
      (cfg : SourcesConfig) (s : Setup) (runs : List CaptureRun)
      → start_all shown starts parse cfg no_sources ≡ some (s, runs)
      → Reported cfg s (ids s.active_shred_sources) (ids s.active_entry_sources)
  unfolding start_all
  start_all-Reported cfg s runs e =
      let on = enabled (λ (c : PcapConfig). c.enabled) cfg.pcap in
      let started = start_sources shown starts cfg no_sources in
      let (s1, e1, e2) = bind_some started _ (s, runs) e in
      let r = register_each shown starts parse (length on) 0 on (s1, []) in
      let r' : Setup × List CaptureRun = (r.0, map capture_of r.1) in
      let same : r' ≡ (s, runs) = some_same r' (s, runs) e2 in
      let (shreds, entries) = subst NamedIf e1 (start_sources-NamedIf cfg) in
      let (grown, kept, calls) = register_each-ids (length on) 0 on s1 [] in
      let more = numbered s1.next_id (length on) in
      subst
        (λ (t : Setup). Reported cfg t (ids t.active_shred_sources) (ids t.active_entry_sources))
        (ap (λ (p : Setup × List CaptureRun). p.0) same)
        (
          s1.next_id,
          grown ∙ ap (λ l. l ++ more) (shreds ∙ ap (ids_from shred_ids_of) (sym calls)),
          ap ids kept ∙ entries ∙ ap (ids_from entry_ids_of) (sym calls),
        )
