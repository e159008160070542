-- ===== src/Pcap/Capture/Offers.antt =====
-- src/sources/pcap.rs:293-309: the events that a frame is worth, apart from the loop's state.
use orbshred.Prelude.{
  ℕ, ◌*◌, ◌≤◌, ◌≡◌, refl, false, Option, none, some, List, [], ◌∷◌, ◌++◌, length, length-append,
  arith, if◌then◌else◌, Bool-cases, inl, inr,
}
use orbshred.Exec.{Exec, ok, ◌>>=◌, Bytes}
use orbshred.Shred.{ShredKey, parse_shred_key}
use orbshred.Shred.Parse.{parse-Returns}
use orbshred.Registry.{Instant, ShredEvent}
use orbshred.Pcap.{Ipv4Addr, extract_src_ip, extract_udp_payload}
use orbshred.Pcap.Frame.{extract_src_ip-Returns, extract_udp_payload-Returns}
use orbshred.Pcap.Route.{PcapRoute, route_matches}
use orbshred.Pcap.Capture.{event_of, any_filter}

-- One event for each route that takes the packet.
unfoldable pub events_for : ShredKey → Instant → Option Ipv4Addr → List PcapRoute → List ShredEvent
events_for key t src [] = []
events_for key t src (r ∷ rs) =
    if route_matches r src
    then event_of key t r ∷ events_for key t src rs
    else events_for key t src rs

pub events_for-cons :
    (key : ShredKey) (t : Instant) (src : Option Ipv4Addr) (r : PcapRoute) (rs : List PcapRoute)
    → events_for key t src (r ∷ []) ++ events_for key t src rs ≡ events_for key t src (r ∷ rs)
unfolding events_for
events_for-cons key t src r rs = elim (Bool-cases (route_matches r src)) [
  | inl hit ↦ rw hit
  | inr miss ↦ rw miss
]

-- Without a filter the address makes no difference.
events_for_unfiltered :
    (key : ShredKey) (t : Instant) (src : Option Ipv4Addr) (rs : List PcapRoute)
    → any_filter rs ≡ false
    → events_for key t none rs ≡ events_for key t src rs
unfolding events_for any_filter route_matches
events_for_unfiltered key t src [] h = refl
events_for_unfiltered key t src (r ∷ rs) h = ground (arith, events_for_unfiltered key t src rs)

-- The events that a frame is worth: those of the shred in its payload, whose routes are chosen by its
-- source address.
unfoldable pub offers_key :
    List PcapRoute → Instant → Option Ipv4Addr → Option ShredKey → List ShredEvent
offers_key routes t src none = []
offers_key routes t src (some key) = events_for key t src routes

pub offers_key_unfiltered :
    (routes : List PcapRoute) (t : Instant) (src : Option Ipv4Addr) (key : Option ShredKey)
    → any_filter routes ≡ false
    → offers_key routes t none key ≡ offers_key routes t src key
unfolding offers_key
offers_key_unfiltered routes t src none h = refl
offers_key_unfiltered routes t src (some key) h = events_for_unfiltered key t src routes h

unfoldable pub offers_payload :
    List PcapRoute → Instant → Option Ipv4Addr → Option Bytes → Exec (List ShredEvent)
unfolding offers_key
offers_payload routes t src none = ok []
offers_payload routes t src (some p) = do key ← parse_shred_key p; ok (offers_key routes t src key)

unfoldable pub offers : List PcapRoute → Bytes × Instant → Exec (List ShredEvent)
unfolding offers_payload
offers routes (frame, t) = do
  src ← extract_src_ip frame
  payload ← extract_udp_payload frame
  offers_payload routes t src payload

unfoldable pub all_offers : List PcapRoute → List (Bytes × Instant) → Exec (List ShredEvent)
unfolding offers
all_offers routes [] = ok []
all_offers routes (f ∷ fs) = do es ← offers routes f; more ← all_offers routes fs; ok (es ++ more)

-- No more events than routes for each frame.
events_for-few :
    (key : ShredKey) (t : Instant) (src : Option Ipv4Addr) (rs : List PcapRoute)
    → length (events_for key t src rs) ≤ length rs
unfolding events_for
events_for-few key t src [] = omega arith
events_for-few key t src (r ∷ rs) = ground (arith, events_for-few key t src rs)

offers_key-few :
    (routes : List PcapRoute) (t : Instant) (src : Option Ipv4Addr) (key : Option ShredKey)
    → length (offers_key routes t src key) ≤ length routes
unfolding offers_key
offers_key-few routes t src none = omega arith
offers_key-few routes t src (some key) = events_for-few key t src routes

abbrev Few : ℕ → Exec (List ShredEvent) → Type 0
Few n m = (es : List ShredEvent) × (m ≡ ok es) × length es ≤ n

offers_payload-Few :
    (routes : List PcapRoute) (t : Instant) (src : Option Ipv4Addr) (payload : Option Bytes)
    → Few (length routes) (offers_payload routes t src payload)
unfolding offers_payload
offers_payload-Few routes t src none = ([], refl, omega arith)
offers_payload-Few routes t src (some p) =
    let (key, e) = parse-Returns p in
    (offers_key routes t src key, rw e refl, offers_key-few routes t src key)

offers-Few : (routes : List PcapRoute) (f : Bytes × Instant) → Few (length routes) (offers routes f)
unfolding offers
offers-Few routes (frame, t) =
    let (src, found) = extract_src_ip-Returns frame in
    let (payload, e) = extract_udp_payload-Returns frame in
    rw (found, e) (offers_payload-Few routes t src payload)

pub all_offers-Few :
    (routes : List PcapRoute) (fs : List (Bytes × Instant))
    → Few (length fs * length routes) (all_offers routes fs)
unfolding all_offers
all_offers-Few routes [] = ([], refl, omega arith)
all_offers-Few routes (f ∷ fs) =
    let (es, e, few) = offers-Few routes f in
    let (more, e', few') = all_offers-Few routes fs in
    (es ++ more, rw (e, e') refl, grind (arith, few, few', length-append es more))
