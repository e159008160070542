-- ===== src/DoubleZero/Packets.antt =====
-- src/sources/doublezero.rs:188-295: what becomes of the packets of a DoubleZero source.
use orbshred.Prelude.{
  ◌+◌, ◌%◌, ◌^◌, ◌≡◌, refl, sym, ap, ◌∙◌, subst, Bool, true, false, ◌&&◌, Option, none, some, List,
  [], ◌∷◌, ◌++◌, length, length-append, min, ◌==◌, if◌then◌else◌, Bool-cases, inl, inr, arith,
}
use orbshred.Exec.{Exec, ok, Bytes, Returns, slice, slice_ok}
use orbshred.Shred.{ShredKey}
use orbshred.Shred.Parse.{parse-Returns}
use orbshred.Channel.{Channel}
use orbshred.Registry.{SourceId, Instant, ShredEvent, Store}
use orbshred.Stats.{add_u64}
use orbshred.KernelTs.{ClockAnchor, Kernel}
use orbshred.Sender.{source_of_shred}
use orbshred.Sender.Ledger.{Accounted-refl, offer_all, offer_all-append, offer_all-Accounted}
use orbshred.Receive.{Socket}
use orbshred.Receive.Handled.{Frames, handle_all}
use orbshred.Receive.Sockets.{SocketFits, socket_frames, recv_loop_handled}
use orbshred.Receive.Listener.{Listener, offer_key, on_datagram}
use orbshred.Receive.Listener.Ledger.{
  key_events, shred_events, ShredsAccounted, offer_key-offer_all,
}
use orbshred.DoubleZero.{
  MulticastCalls, join_multicast_by_index, DzListener, count_key, on_packet, run_dz_recv_loop, run,
}

dump-Returns :
    (f : Bytes) (first : Bool) → Returns (if first then slice f 0 (min (length f) 96) else ok [])
dump-Returns f true = (_, slice_ok f 0 (min (length f) 96) (omega arith) (omega arith))
dump-Returns f false = ([], refl)

module _ (st : Store) (ch : Channel ShredEvent) where
  -- The listener comes back with both counters moved on, in the state after the events were offered to
  -- the channel one after the other, and accounts for them.
  abbrev pub Counts : Exec (DzListener st ch) → Frames → List ShredEvent → DzListener st ch → Type 0
  Counts m fs es x =
      (y : DzListener st ch) × (m ≡ ok y)
      × (y.raw_count % 2 ^ 64 ≡ (x.raw_count + length fs) % 2 ^ 64)
      × (y.parsed_count % 2 ^ 64 ≡ (x.parsed_count + length es) % 2 ^ 64)
      × (y.listener ≡ offer_all st source_of_shred ch es x.listener)
      × ShredsAccounted st ch es x.listener y.listener

  offered-Accounted :
      (es : List ShredEvent) (x y : Listener st ch)
      → y ≡ offer_all st source_of_shred ch es x
      → ShredsAccounted st ch es x y
  offered-Accounted es x y e =
      subst (ShredsAccounted st ch es x) (sym e) (offer_all-Accounted st source_of_shred ch es x)

  count_key-counts :
      (src : SourceId) (t : Instant) (key : Option ShredKey) (x : DzListener st ch)
      → let y = count_key st ch src t key x in
        (y.raw_count ≡ x.raw_count)
        × (y.parsed_count % 2 ^ 64 ≡ (x.parsed_count + length (key_events src t key)) % 2 ^ 64)
        × (y.listener ≡ offer_key st ch src t key x.listener)
  unfolding count_key key_events offer_key
  count_key-counts src t none x = (refl, omega arith, refl)
  count_key-counts src t (some key) x = (refl, ground arith, refl)

  handle_all-Counts :
      (src : SourceId) (fs : Frames) (x : DzListener st ch)
      → (es : List ShredEvent) × (shred_events src fs ≡ ok es)
        × Counts (handle_all (on_packet st ch src) fs x) fs es x
  unfolding shred_events handle_all on_packet offer_all
  handle_all-Counts src [] x = (
    [],
    refl,
    (x, refl, omega arith, omega arith, refl, Accounted-refl st source_of_shred ch x.listener),
  )
  handle_all-Counts src ((f, t) ∷ fs) x =
      let (key, e) = parse-Returns f in
      let n = add_u64 x.raw_count 1 in
      let (dump, d) = dump-Returns f (n == 1) in
      let x' = record x { raw_count = n } in
      let (same, one, sent) = count_key-counts src t key x' in
      let (es, o, (y, e', r, p, l, _)) = handle_all-Counts src fs (count_key st ch src t key x') in
      let here = key_events src t key in
      let offered : y.listener ≡ offer_all st source_of_shred ch (here ++ es) x.listener =
        l
        ∙ ap (offer_all st source_of_shred ch es)
            (sent ∙ offer_key-offer_all st ch src t key x.listener)
        ∙ sym (offer_all-append st source_of_shred ch here es x.listener) in
      (
        here ++ es,
        rw (e, o),
        (
          y,
          rw (d, e, e'),
          ground (arith, same, r),
          omega (arith, one, p, length-append here es),
          offered,
          offered-Accounted (here ++ es) x.listener y.listener offered,
        ),
      )

  -- Beside its counters a DoubleZero source does what every listener does.
  pub handle_all-listener :
      (src : SourceId) (fs : Frames) (x : DzListener st ch)
      → (y : DzListener st ch) × (handle_all (on_packet st ch src) fs x ≡ ok y)
        × (handle_all (on_datagram st ch src) fs x.listener ≡ ok y.listener)
  unfolding handle_all on_packet on_datagram
  handle_all-listener src [] x = (x, refl, refl)
  handle_all-listener src ((f, t) ∷ fs) x =
      let (key, e) = parse-Returns f in
      let n = add_u64 x.raw_count 1 in
      let (dump, d) = dump-Returns f (n == 1) in
      let x' = record x { raw_count = n } in
      let (_, _, sent) = count_key-counts src t key x' in
      let (y, e', l) = handle_all-listener src fs (count_key st ch src t key x') in
      (
        y,
        rw (d, e, e') refl,
        rw e (subst (λ z. handle_all (on_datagram st ch src) fs z ≡ ok y.listener) sent l),
      )

module _ (k : Kernel) (st : Store) (ch : Channel ShredEvent) where
  -- The datagrams that the source gets to handle: none unless every call of its set-up succeeds.
  unfoldable pub heard : ClockAnchor → MulticastCalls → Socket → Frames
  heard anchor calls sock =
      if calls.group_parses && calls.creates && calls.binds && join_multicast_by_index calls.join
      then socket_frames k anchor calls.kernel_timestamps sock
      else []

  -- A DoubleZero source never panics, whatever arrives, the dump of its first packet included. When
  -- it stops it has counted every datagram as raw and each one that parses as a shred as parsed. Each
  -- of the latter became an event of the source with its key and time; these events, and nothing else,
  -- were offered to the channel in their order, and each is in it or counted as a drop (all counts
  -- modulo 2^64). If a call of the set-up fails, nothing
  -- happens. No batch exceeds the slots, and the control messages fit.
  pub run-Counts :
      (src : SourceId) (anchor : ClockAnchor) (calls : MulticastCalls) (sock : Socket)
      (x : Listener st ch)
      → SocketFits k sock
      → (es : List ShredEvent) × (shred_events src (heard anchor calls sock) ≡ ok es)
        × Counts st ch
            (run st ch k src anchor calls sock x)
            (heard anchor calls sock)
            es
            (record { listener = x; raw_count = 0; parsed_count = 0 })
  unfolding run run_dz_recv_loop heard shred_events offer_all
  run-Counts src anchor calls sock x fit =
      let start : DzListener st ch = record { listener = x; raw_count = 0; parsed_count = 0 } in
      let on = calls.kernel_timestamps in
      let joined = join_multicast_by_index calls.join in
      let set_up = calls.group_parses && calls.creates && calls.binds && joined in
      elim (Bool-cases set_up) [
        | inl done ↦
            rw (done, recv_loop_handled k (on_packet st ch src) anchor on sock start fit)
              (handle_all-Counts st ch src (socket_frames k anchor on sock) start)
        | inr failed ↦ rw failed (
          [],
          refl,
          (start, refl, omega arith, omega arith, refl, Accounted-refl st source_of_shred ch x),
        )
      ]
