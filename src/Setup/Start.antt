-- ===== src/Setup/Start.antt =====
-- src/main.rs:150-257: the ids and names after all sources are started.
use Prim.Native.String.{String}
use orbshred.Prelude.{ℕ, ◌+◌, ◌*◌, ◌^◌, ◌≤◌, ◌<◌, ◌≡◌, refl, subst, Bool, some, List, length, arith}
use orbshred.Config.{RawUdpConfig, JitoConfig, DoubleZeroConfig, YellowstoneConfig, SourcesConfig}
use orbshred.Setup.{Started, Setup, no_sources, enabled, start_sources}
use orbshred.Setup.Ids.{IsNumbered, uses}
use orbshred.Setup.Distinct.{
  Grown, Grown-bind, start_each-Grown, start_raw_udp-Grown, start_doublezero-Grown,
  start_jito-Grown, start_yellowstone-Grown, length-enabled,
}

no_sources-IsNumbered : IsNumbered 0 no_sources
unfolding uses
no_sources-IsNumbered = record {
  once = λ i. omega arith;
  below = λ i k. refl;
  shreds_named = tt;
  entries_named = tt;
}

-- How many sources are configured, enabled or not.
abbrev pub configured : SourcesConfig → ℕ
configured cfg =
    length cfg.raw_udp + length cfg.jito + length cfg.doublezero + length cfg.yellowstone

module _ (shown : ℕ → String) (starts : Started → Bool) (cfg : SourcesConfig) where
  abbrev raw : List RawUdpConfig
  raw = enabled (λ (c : RawUdpConfig). c.enabled) cfg.raw_udp

  abbrev jito : List JitoConfig
  jito = enabled (λ (c : JitoConfig). c.enabled) cfg.jito

  abbrev dz : List DoubleZeroConfig
  dz = enabled (λ (c : DoubleZeroConfig). c.enabled) cfg.doublezero

  abbrev ys : List YellowstoneConfig
  ys = enabled (λ (c : YellowstoneConfig). c.enabled) cfg.yellowstone

  start_sources-Grown :
      2 * (length raw + length jito + length dz + length ys) < 2 ^ 32
      → Grown
          (2 * length raw + (2 * length jito + (2 * length dz + 2 * length ys)))
          no_sources
          (start_sources shown starts cfg no_sources)
  unfolding start_sources
  start_sources-Grown h =
      Grown-bind (2 * length raw) _ no_sources _ _
        (start_each-Grown _ 0 raw no_sources (start_raw_udp-Grown shown starts (length raw))
          (omega arith) no_sources-IsNumbered)
        λ s le n.
          Grown-bind (2 * length jito) _ s _ _
            (start_each-Grown _ 0 jito s (start_jito-Grown shown starts (length jito)) (omega arith)
              n)
            λ t le' m.
              Grown-bind (2 * length dz) _ t _ _
                (start_each-Grown _ 0 dz t (start_doublezero-Grown shown starts (length dz))
                  (omega arith) m)
                λ u le'' o.
                  start_each-Grown _ 0 ys u (start_yellowstone-Grown shown starts (length ys))
                    (omega arith) o

  -- At most two ids for each configured source, and all of them numbered.
  pub start_sources_ids :
      (s : Setup)
      → 2 * configured cfg < 2 ^ 32
      → start_sources shown starts cfg no_sources ≡ some s
      → (s.next_id ≤ 2 * configured cfg) × IsNumbered s.next_id s
  start_sources_ids s h e =
      let few : 2 * (length raw + length jito + length dz + length ys) < 2 ^ 32 = omega (
        arith,
        length-enabled (λ (c : RawUdpConfig). c.enabled) cfg.raw_udp,
        length-enabled (λ (c : JitoConfig). c.enabled) cfg.jito,
        length-enabled (λ (c : DoubleZeroConfig). c.enabled) cfg.doublezero,
        length-enabled (λ (c : YellowstoneConfig). c.enabled) cfg.yellowstone,
      ) in
      let (le, n) =
        subst
          (Grown (2 * length raw + (2 * length jito + (2 * length dz + 2 * length ys))) no_sources)
          e (start_sources-Grown few) in
      (
        omega (
          arith,
          length-enabled (λ (c : RawUdpConfig). c.enabled) cfg.raw_udp,
          length-enabled (λ (c : JitoConfig). c.enabled) cfg.jito,
          length-enabled (λ (c : DoubleZeroConfig). c.enabled) cfg.doublezero,
          length-enabled (λ (c : YellowstoneConfig). c.enabled) cfg.yellowstone,
          le,
        ),
        n,
      )

  -- If fewer than 2^31 sources that listen themselves are configured and every start succeeds: no two
  -- active sources, shred-level or entry-level, share an id, all ids are below the next one, and the
  -- name table holds each active source's name under its id.
  pub start_sources-IsNumbered :
      (s : Setup)
      → 2 * configured cfg < 2 ^ 32
      → start_sources shown starts cfg no_sources ≡ some s
      → IsNumbered s.next_id s
  start_sources-IsNumbered s h e = (start_sources_ids s h e).1
