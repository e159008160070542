-- ===== src/Pcap/Capture/Ledger.antt =====
-- src/sources/pcap.rs:293-316: no frame stops the capture, and no matching shred vanishes.
use orbshred.Prelude.{
  ℕ, zero, suc, ◌+◌, ◌≤◌, ◌<◌, ◌≡◌, refl, sym, ap, subst, ◌∙◌, Option, none, some, List, [], ◌∷◌,
  ◌++◌, length, arith, Bool-cases, inl, inr,
}
use orbshred.Exec.{Exec, ok, Bytes}
use orbshred.Shred.{ShredKey}
use orbshred.Shred.Parse.{parse-Returns}
use orbshred.Channel.{Channel}
use orbshred.Registry.{Instant, ShredEvent, Store}
use orbshred.Stats.{add_u64}
use orbshred.Sender.{Sender, source_of_shred, after_offer, offer_event}
use orbshred.Sender.Ledger.{Accounted, offer_all, offer_all-append, offer_all-Accounted}
use orbshred.Pcap.{Ipv4Addr}
use orbshred.Pcap.Frame.{extract_src_ip-Returns, extract_udp_payload-Returns}
use orbshred.Pcap.Route.{PcapRoute, route_matches}
use orbshred.Pcap.Capture.Offers.{
  events_for, events_for-cons, offers_key, offers_key_unfiltered, offers_payload, offers,
  all_offers,
}
use orbshred.Pcap.Capture.{
  event_of, any_filter, bump, Capture, after_send, send_event, on_route, route_loop, on_key,
  on_payload, on_frame, capture_loop,
}

bump_ok :
    (i : ℕ) (cs : List ℕ)
    → i < length cs
    → (cs' : List ℕ) × (bump i cs ≡ ok cs') × (length cs' ≡ length cs)
unfolding bump
bump_ok i [] h = absurd (omega arith)
bump_ok zero (c ∷ cs) h = (_, refl, refl)
bump_ok (suc i) (c ∷ cs) h =
    let (cs', e, l) = bump_ok i cs (omega arith) in (c ∷ cs', rw e, ap suc l)

module _ (st : Store) (ch : Channel ShredEvent) where
  open ch use {Queue, try_send}

  abbrev pub sender_of : Capture st ch → Sender st source_of_shred ch
  sender_of x = record { tx = x.tx; drops = x.drops }

  -- Between two states the events were offered to the channel, one after the other.
  abbrev pub Offered : List ShredEvent → Capture st ch → Capture st ch → Type 0
  Offered es x y = sender_of y ≡ offer_all st source_of_shred ch es (sender_of x)

  Offered-refl : (x : Capture st ch) → Offered [] x x
  unfolding offer_all
  Offered-refl x = refl

  Offered-trans :
      (es fs : List ShredEvent) (x y z : Capture st ch)
      → Offered es x y
      → Offered fs y z
      → Offered (es ++ fs) x z
  Offered-trans es fs x y z l m =
      m
      ∙ ap (offer_all st source_of_shred ch fs) l
      ∙ sym (offer_all-append st source_of_shred ch es fs (sender_of x))

  after_send-Offered :
      (e : ShredEvent) (o : Option Queue) (x : Capture st ch)
      → sender_of (after_send st ch e o x)
        ≡ after_offer st source_of_shred ch e.source o (sender_of x)
  unfolding after_send after_offer
  after_send-Offered e none x = refl
  after_send-Offered e (some q) x = refl

  send_event-Offered :
      (e : ShredEvent) (x : Capture st ch) → Offered (e ∷ []) x (send_event st ch e x)
  unfolding send_event offer_all offer_event
  send_event-Offered e x = after_send-Offered e (try_send e x.tx) x

  after_send-route_counts :
      (e : ShredEvent) (o : Option Queue) (x : Capture st ch)
      → (after_send st ch e o x).route_counts ≡ x.route_counts
  unfolding after_send
  after_send-route_counts e none x = refl
  after_send-route_counts e (some q) x = refl

  -- A part of the capture comes back, keeps the number of counters and offers `es`.
  abbrev Passes : Exec (Capture st ch) → List ShredEvent → Capture st ch → Type 0
  Passes m es x =
      (y : Capture st ch) × (m ≡ ok y)
      × (length y.route_counts ≡ length x.route_counts)
      × Offered es x y

  on_route-Passes :
      (key : ShredKey) (t : Instant) (src : Option Ipv4Addr) (i : ℕ) (r : PcapRoute)
      (x : Capture st ch)
      → i < length x.route_counts
      → Passes (on_route st ch key t src i r x) (events_for key t src (r ∷ [])) x
  unfolding on_route send_event events_for
  on_route-Passes key t src i r x h = elim (Bool-cases (route_matches r src)) [
    | inl hit ↦
        let (counts, e, l) = bump_ok i x.route_counts h in
        let x' = record x { route_counts = counts } in
        let ev = event_of key t r in
        rw (hit, e)
          (
            send_event st ch ev x',
            refl,
            ap length (after_send-route_counts ev (try_send ev x.tx) x') ∙ l,
            send_event-Offered ev x',
          )
    | inr miss ↦ rw miss (x, refl, refl, Offered-refl x)
  ]

  route_loop-Passes :
      (key : ShredKey) (t : Instant) (src : Option Ipv4Addr) (i : ℕ) (rs : List PcapRoute)
      (x : Capture st ch)
      → i + length rs ≤ length x.route_counts
      → Passes (route_loop st ch key t src i rs x) (events_for key t src rs) x
  unfolding route_loop events_for
  route_loop-Passes key t src i [] x h = (x, refl, refl, Offered-refl x)
  route_loop-Passes key t src i (r ∷ rs) x h =
      let (y, e, l, g) = on_route-Passes key t src i r x (omega arith) in
      let (z, e', l', g') = route_loop-Passes key t src (suc i) rs y (omega (arith, l)) in
      (
        z,
        rw e e',
        l' ∙ l,
        subst (λ es. Offered es x z) (events_for-cons key t src r rs)
            (Offered-trans _ _ x y z g g'),
      )

  on_key-Passes :
      (routes : List PcapRoute) (t : Instant) (src : Option Ipv4Addr) (key : Option ShredKey)
      (x : Capture st ch)
      → length routes ≤ length x.route_counts
      → Passes (on_key st ch routes t src key x) (offers_key routes t src key) x
  unfolding on_key offers_key
  on_key-Passes routes t src none x h = (x, refl, refl, Offered-refl x)
  on_key-Passes routes t src (some key) x h = route_loop-Passes key t src 0 routes _ (omega arith)

  -- The address that is used may differ from the packet's if no route asks for it.
  on_payload-Passes :
      (routes : List PcapRoute) (t : Instant) (src used : Option Ipv4Addr) (payload : Option Bytes)
      (x : Capture st ch)
      → ((key : Option ShredKey) → offers_key routes t used key ≡ offers_key routes t src key)
      → length routes ≤ length x.route_counts
      → (es : List ShredEvent) × (offers_payload routes t src payload ≡ ok es)
        × Passes (on_payload st ch routes t used payload x) es x
  unfolding on_payload offers_payload
  on_payload-Passes routes t src used none x same h = ([], refl, (x, refl, refl, Offered-refl x))
  on_payload-Passes routes t src used (some p) x same h =
      let (key, e) = parse-Returns p in
      (
        offers_key routes t src key,
        rw e,
        rw e (
            subst (λ es. Passes (on_key st ch routes t used key x) es x) (same key)
              (on_key-Passes routes t used key x h)),
      )

  on_frame-Passes :
      (routes : List PcapRoute) (f : Bytes × Instant) (x : Capture st ch)
      → length routes ≤ length x.route_counts
      → (es : List ShredEvent) × (offers routes f ≡ ok es) × Passes (on_frame st ch routes f x) es x
  unfolding on_frame offers
  on_frame-Passes routes (frame, t) x h =
      let (src, found) = extract_src_ip-Returns frame in
      let (payload, e) = extract_udp_payload-Returns frame in
      let counted = record x { raw_count = add_u64 x.raw_count 1 } in
      elim (Bool-cases (any_filter routes)) [
        | inl on ↦
            rw (on, found, e) (on_payload-Passes routes t src src payload counted (λ key. refl) h)
        | inr off ↦
            rw (off, found, e)
              (on_payload-Passes routes t src none payload counted
                (λ key. offers_key_unfiltered routes t src key off) h)
      ]

  capture_loop-Passes :
      (routes : List PcapRoute) (fs : List (Bytes × Instant)) (x : Capture st ch)
      → length routes ≤ length x.route_counts
      → (es : List ShredEvent) × (all_offers routes fs ≡ ok es)
        × Passes (capture_loop st ch routes fs x) es x
  unfolding capture_loop all_offers
  capture_loop-Passes routes [] x h = ([], refl, (x, refl, refl, Offered-refl x))
  capture_loop-Passes routes (f ∷ fs) x h =
      let (es, o, (y, e, l, g)) = on_frame-Passes routes f x h in
      let (es', o', (z, e', l', g')) = capture_loop-Passes routes fs y (omega (arith, l)) in
      (es ++ es', rw (o, o'), (z, rw e e', l' ∙ l, Offered-trans es es' x y z g g'))

  -- Between two states: the events were offered, and each is in the channel or counted as a drop.
  abbrev pub Ledger : List ShredEvent → Capture st ch → Capture st ch → Type 0
  Ledger es x y = Offered es x y × Accounted st source_of_shred ch es (sender_of x) (sender_of y)

  pub Offered-Ledger : (es : List ShredEvent) (x y : Capture st ch) → Offered es x y → Ledger es x y
  Offered-Ledger es x y g = (
    g,
    subst (Accounted st source_of_shred ch es (sender_of x)) (sym g)
        (offer_all-Accounted st source_of_shred ch es (sender_of x)),
  )

  pub Ledger-refl : (x : Capture st ch) → Ledger [] x x
  Ledger-refl x = Offered-Ledger [] x x (Offered-refl x)

  -- The loop comes back, keeps the number of counters and accounts for `es`.
  abbrev pub Handled : Exec (Capture st ch) → List ShredEvent → Capture st ch → Type 0
  Handled m es x =
      (y : Capture st ch) × (m ≡ ok y)
      × (length y.route_counts ≡ length x.route_counts)
      × Ledger es x y

  -- The capture never panics: whatever frames it receives, the loop comes back. The shred events that
  -- a frame is worth, one for every route that takes its source address, are offered to the channel in
  -- the order of the frames and routes, and nothing else is; each of them is then in the channel or
  -- counted as a drop of its source (modulo 2^64). It does not matter that the address is only looked
  -- up if some route has a filter. There is a counter for each route.
  pub capture_loop-Handled :
      (routes : List PcapRoute) (fs : List (Bytes × Instant)) (x : Capture st ch)
      → length routes ≤ length x.route_counts
      → (es : List ShredEvent) × (all_offers routes fs ≡ ok es)
        × Handled (capture_loop st ch routes fs x) es x
  capture_loop-Handled routes fs x h =
      let (es, o, (y, e, l, g)) = capture_loop-Passes routes fs x h in
      (es, o, (y, e, l, Offered-Ledger es x y g))
