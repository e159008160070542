-- ===== src/Setup/Named/Starts.antt =====
-- src/main.rs:161-258: each start of a source adds just its own ids to the active ones.
use Prim.Native.String.{String}
use orbshred.Prelude.{
  ℕ, ◌+◌, ◌%◌, ◌^◌, ◌≡◌, refl, sym, ap, ◌∙◌, Bool, none, some, [], ◌∷◌, ◌++◌, arith, Bool-cases,
  inl, inr,
}
use mathlib.Core.List.{append_assoc}
use orbshred.Prelude.Text.{blank}
use orbshred.Config.{RawUdpConfig, JitoConfig, DoubleZeroConfig, YellowstoneConfig}
use orbshred.Registry.{SourceId}
use orbshred.Setup.{
  Started, raw_udp_run, jito_run, doublezero_run, yellowstone_run, Setup, alloc, add_shred,
  add_entry_source, launch, start_raw_udp, start_doublezero, jito_shreds, jito_entries, start_jito,
  account_source, start_yellowstone,
}
use orbshred.Setup.Named.{
  ids, shred_ids_of, entry_ids_of, ids_from, Named, NamedIf, both_grow, none_grow,
}

module _ (shown : ℕ → String) (starts : Started → Bool) where
  pub raw_udp-NamedIf :
      (total i : ℕ) (c : RawUdpConfig) (s : Setup)
      → Named s
      → NamedIf (start_raw_udp shown starts total i c s)
  unfolding start_raw_udp launch alloc add_shred shred_ids_of entry_ids_of
  raw_udp-NamedIf total i c s h =
      let r = raw_udp_run c s.next_id in
      elim (Bool-cases (starts r)) [
        | inr down ↦ rw down tt
        | inl up ↦ rw up (
          both_grow shred_ids_of s.started r s.active_shred_sources _ h.0 refl,
          none_grow entry_ids_of s.started r s.active_entry_sources h.1 refl,
        )
      ]

  pub doublezero-NamedIf :
      (total i : ℕ) (c : DoubleZeroConfig) (s : Setup)
      → Named s
      → NamedIf (start_doublezero shown starts total i c s)
  unfolding start_doublezero launch alloc add_shred shred_ids_of entry_ids_of
  doublezero-NamedIf total i c s h =
      let r = doublezero_run c s.next_id in
      elim (Bool-cases (starts r)) [
        | inr down ↦ rw down tt
        | inl up ↦ rw up (
          both_grow shred_ids_of s.started r s.active_shred_sources _ h.0 refl,
          none_grow entry_ids_of s.started r s.active_entry_sources h.1 refl,
        )
      ]

  jito_shreds-grow :
      (c : JitoConfig) (i j : SourceId) (n : String) (s : Setup)
      → ids s.active_shred_sources ≡ ids_from shred_ids_of s.started
      → ids (jito_shreds shown starts c i n s).active_shred_sources
        ≡ ids_from shred_ids_of (s.started ++ (jito_run c i j ∷ []))
  unfolding jito_shreds add_shred shred_ids_of
  jito_shreds-grow c i j n s h = elim (Bool-cases (blank c.block_engine_url)) [
    | inr url ↦
        rw url
          (both_grow shred_ids_of s.started (jito_run c i j) s.active_shred_sources _ h (rw url))
    | inl no_url ↦ elim (Bool-cases (blank c.proxy_udp_addr)) [
      | inr udp ↦
          rw (no_url, udp)
            (both_grow shred_ids_of s.started (jito_run c i j) s.active_shred_sources _ h
              (rw (no_url, udp)))
      | inl no_udp ↦
          rw (no_url, no_udp)
            (none_grow shred_ids_of s.started (jito_run c i j) s.active_shred_sources h
              (rw (no_url, no_udp)))
    ]
  ]

  jito_entries-grow :
      (c : JitoConfig) (i j : SourceId) (n : String) (s : Setup)
      → ids s.active_entry_sources ≡ ids_from entry_ids_of s.started
      → ids (jito_entries shown starts c j n s).active_entry_sources
        ≡ ids_from entry_ids_of (s.started ++ (jito_run c i j ∷ []))
  unfolding jito_entries add_entry_source entry_ids_of
  jito_entries-grow c i j n s h = elim (Bool-cases (blank c.proxy_grpc_addr)) [
    | inr grpc ↦
        rw grpc
          (both_grow entry_ids_of s.started (jito_run c i j) s.active_entry_sources _ h (rw grpc))
    | inl no_grpc ↦
        rw no_grpc
          (none_grow entry_ids_of s.started (jito_run c i j) s.active_entry_sources h (rw no_grpc))
  ]

  jito_shreds-keeps :
      (c : JitoConfig) (i : SourceId) (n : String) (s : Setup)
      → ((jito_shreds shown starts c i n s).active_entry_sources ≡ s.active_entry_sources)
        × ((jito_shreds shown starts c i n s).started ≡ s.started)
  unfolding jito_shreds add_shred
  jito_shreds-keeps c i n s = ground arith

  jito_entries-keeps :
      (c : JitoConfig) (j : SourceId) (n : String) (s : Setup)
      → ((jito_entries shown starts c j n s).active_shred_sources ≡ s.active_shred_sources)
        × ((jito_entries shown starts c j n s).started ≡ s.started)
  unfolding jito_entries add_entry_source
  jito_entries-keeps c j n s = ground arith

  -- Both parts of a Jito source and its start.
  jito_parts-Named :
      (c : JitoConfig) (i j : SourceId) (m n : String) (s : Setup)
      → Named s
      → let y = jito_entries shown starts c j n (jito_shreds shown starts c i m s) in
        Named (record y { started = y.started ++ (jito_run c i j ∷ []) })
  jito_parts-Named c i j m n s h =
      let x = jito_shreds shown starts c i m s in
      let y = jito_entries shown starts c j n x in
      let (entries, kept) = jito_shreds-keeps c i m s in
      let (shreds, kept') = jito_entries-keeps c j n x in
      let started : y.started ≡ s.started = kept' ∙ kept in
      (
        ap ids shreds
            ∙ jito_shreds-grow c i j m s h.0
            ∙ ap (λ q. ids_from shred_ids_of (q ++ (jito_run c i j ∷ []))) (sym started),
        jito_entries-grow c i j n x (ap ids entries ∙ h.1 ∙ ap (ids_from entry_ids_of) (sym kept))
            ∙ ap (λ q. ids_from entry_ids_of (q ++ (jito_run c i j ∷ []))) (sym kept'),
      )

  pub jito-NamedIf :
      (total i : ℕ) (c : JitoConfig) (s : Setup)
      → Named s
      → NamedIf (start_jito shown starts total i c s)
  unfolding start_jito launch alloc
  jito-NamedIf total i c s h =
      elim (Bool-cases (starts (jito_run c s.next_id ((s.next_id + 1) % 2 ^ 32)))) [
        | inr down ↦ rw down tt
        | inl up ↦
            rw up (jito_parts-Named c s.next_id ((s.next_id + 1) % 2 ^ 32) _ _ (alloc (alloc s)) h)
      ]

  pub yellowstone-NamedIf :
      (total i : ℕ) (c : YellowstoneConfig) (s : Setup)
      → Named s
      → NamedIf (start_yellowstone shown starts total i c s)
  unfolding start_yellowstone account_source launch alloc add_entry_source shred_ids_of entry_ids_of
  yellowstone-NamedIf total i c s h = elim (Bool-cases (blank c.account_pubkey)) [
    | inl alone ↦
        let r = yellowstone_run c s.next_id none in
        elim (Bool-cases (starts r)) [
          | inr down ↦ rw (alone, down) tt
          | inl up ↦
              rw (alone, up)
                (
                  none_grow shred_ids_of s.started r s.active_shred_sources h.0 refl,
                  both_grow entry_ids_of s.started r s.active_entry_sources _ h.1 refl,
                )
        ]
    | inr account ↦
        let r = yellowstone_run c s.next_id (some ((s.next_id + 1) % 2 ^ 32)) in
        elim (Bool-cases (starts r)) [
          | inr down ↦ rw (account, down) tt
          | inl up ↦
              rw (account, up)
                (
                  none_grow shred_ids_of s.started r s.active_shred_sources h.0 refl,
                  ap ids (append_assoc s.active_entry_sources _ _)
                      ∙ both_grow entry_ids_of s.started r s.active_entry_sources _ h.1 refl,
                )
        ]
  ]
