-- ===== src/Receive/Listener/Ledger.antt =====
-- What becomes of the shreds that a listener receives.
use orbshred.Prelude.{
  ◌≤◌, ◌≡◌, refl, sym, ap, ◌∙◌, Option, none, some, List, [], ◌∷◌, ◌++◌, length, length-append,
  arith,
}
use orbshred.Exec.{Exec, ok, ◌>>=◌}
use orbshred.Shred.{ShredKey, parse_shred_key}
use orbshred.Shred.Parse.{parse-Returns}
use orbshred.Channel.{Channel}
use orbshred.Registry.{SourceId, Instant, ShredEvent, Store}
use orbshred.Sender.{source_of_shred}
use orbshred.Sender.Ledger.{Accounted, offer_all, offer_all-append, offer_all-Accounted}
use orbshred.Receive.Handled.{Frames, handle_all}
use orbshred.Receive.Listener.{Listener, offer_key, on_datagram}

-- The event that a datagram is worth, if it parses.
unfoldable pub key_events : SourceId → Instant → Option ShredKey → List ShredEvent
key_events src t none = []
key_events src t (some key) = record { source = src; key = key; received_at = t } ∷ []

unfoldable pub shred_events : SourceId → Frames → Exec (List ShredEvent)
unfolding key_events
shred_events src [] = ok []
shred_events src ((f, t) ∷ fs) = do
  key ← parse_shred_key f
  more ← shred_events src fs
  ok (key_events src t key ++ more)

key_events-few :
    (src : SourceId) (t : Instant) (o : Option ShredKey) → length (key_events src t o) ≤ 1
unfolding key_events
key_events-few src t none = omega arith
key_events-few src t (some key) = omega arith

module _ (st : Store) (ch : Channel ShredEvent) where
  -- The events were sent or counted as drops.
  abbrev pub ShredsAccounted : List ShredEvent → Listener st ch → Listener st ch → Type 0
  ShredsAccounted = Accounted st source_of_shred ch

  pub offer_key-offer_all :
      (src : SourceId) (t : Instant) (key : Option ShredKey) (x : Listener st ch)
      → offer_key st ch src t key x ≡ offer_all st source_of_shred ch (key_events src t key) x
  unfolding offer_key key_events offer_all
  offer_key-offer_all src t none x = refl
  offer_key-offer_all src t (some key) x = refl

  -- Handling datagrams is offering their events, at most one for each.
  pub handle_all-Offers :
      (src : SourceId) (fs : Frames) (x : Listener st ch)
      → (es : List ShredEvent) × (shred_events src fs ≡ ok es)
        × length es ≤ length fs
        × (handle_all (on_datagram st ch src) fs x ≡ ok (offer_all st source_of_shred ch es x))
  unfolding shred_events handle_all on_datagram offer_all
  handle_all-Offers src [] x = ([], refl, omega arith, refl)
  handle_all-Offers src ((f, t) ∷ fs) x =
      let (key, e) = parse-Returns f in
      let here = key_events src t key in
      let (es, o, few, h) = handle_all-Offers src fs (offer_key st ch src t key x) in
      (
        here ++ es,
        rw (e, o) refl,
        omega (arith, few, key_events-few src t key, length-append here es),
        rw (e, h)
            (ap (λ y. ok (offer_all st source_of_shred ch es y)) (offer_key-offer_all src t key x)
              ∙ ap ok (sym (offer_all-append st source_of_shred ch here es x))),
      )

  -- The events of a listener: it comes back in the state after they were offered to the channel one
  -- after the other, so each is sent or counted as a drop.
  abbrev pub Accounts : Exec (Listener st ch) → List ShredEvent → Listener st ch → Type 0
  Accounts m es x =
      (m ≡ ok (offer_all st source_of_shred ch es x))
      × ShredsAccounted es x (offer_all st source_of_shred ch es x)

  pub handle_all-Accounts :
      (src : SourceId) (fs : Frames) (x : Listener st ch)
      → (es : List ShredEvent) × (shred_events src fs ≡ ok es)
        × Accounts (handle_all (on_datagram st ch src) fs x) es x
  handle_all-Accounts src fs x =
      let (es, o, few, h) = handle_all-Offers src fs x in
      (es, o, (h, offer_all-Accounted st source_of_shred ch es x))
