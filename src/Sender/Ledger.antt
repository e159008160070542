-- ===== src/Sender/Ledger.antt =====
-- No event that a source offers vanishes.
use orbshred.Prelude.{
  ℕ, suc, ◌+◌, ◌%◌, ◌^◌, ◌≡◌, refl, Option, none, some, List, [], ◌∷◌, ◌++◌, ◌==◌, if◌then◌else◌,
  arith,
}
use orbshred.Channel.{Channel}
use orbshred.Registry.{SourceId, Store, drops_of}
use orbshred.Registry.Drops.{drops_of-inc}
use orbshred.Sender.{Sender, after_offer, offer_event}

module _ {E : Type 0} (source_of : E → SourceId) where
  -- The events of one source.
  unfoldable pub count_by : SourceId → List E → ℕ
  count_by s [] = 0
  count_by s (e ∷ es) = if source_of e == s then suc (count_by s es) else count_by s es

  pub count_by-append :
      (s : SourceId) (xs ys : List E) → count_by s (xs ++ ys) ≡ count_by s xs + count_by s ys
  unfolding count_by
  count_by-append s [] ys = omega arith
  count_by-append s (e ∷ es) ys = ground (arith, count_by-append s es ys)

module _ (st : Store) {E : Type 0} (source_of : E → SourceId) (ch : Channel E) where
  open ch use {Queue, pending, try_send, pending-try_send}

  -- A source's events: those counted as dropped and those in the channel.
  abbrev pub account : SourceId → Sender st source_of ch → ℕ
  account s x = drops_of st s x.drops + count_by source_of s (pending x.tx)

  -- Between two states every event was sent or counted as dropped, and nothing else was.
  abbrev pub Accounted : List E → Sender st source_of ch → Sender st source_of ch → Type 0
  Accounted es x y =
      (s : SourceId) → account s y % 2 ^ 64 ≡ (account s x + count_by source_of s es) % 2 ^ 64

  pub Accounted-trans :
      (es fs : List E) (x y z : Sender st source_of ch)
      → Accounted es x y
      → Accounted fs y z
      → Accounted (es ++ fs) x z
  Accounted-trans es fs x y z l m s = omega (arith, l s, m s, count_by-append source_of s es fs)

  pub Accounted-refl : (x : Sender st source_of ch) → Accounted [] x x
  unfolding count_by
  Accounted-refl x s = omega arith

  after_offer-Accounted :
      (e : E) (o : Option Queue) (x : Sender st source_of ch)
      → try_send e x.tx ≡ o
      → Accounted (e ∷ []) x (after_offer st source_of ch (source_of e) o x)
  unfolding after_offer count_by
  after_offer-Accounted e none x h s = ground (arith, drops_of-inc st (source_of e) s x.drops)
  after_offer-Accounted e (some q) x h s =
      rw (pending-try_send e x.tx q h, count_by-append source_of s (pending x.tx) (e ∷ []))
        (ground arith)

  pub offer_event-Accounted :
      (e : E) (x : Sender st source_of ch) → Accounted (e ∷ []) x (offer_event st source_of ch e x)
  unfolding offer_event
  offer_event-Accounted e x = after_offer-Accounted e (try_send e x.tx) x refl

  -- Events offered one after the other.
  unfoldable pub offer_all : List E → Sender st source_of ch → Sender st source_of ch
  offer_all [] x = x
  offer_all (e ∷ es) x = offer_all es (offer_event st source_of ch e x)

  pub offer_all-append :
      (es fs : List E) (x : Sender st source_of ch)
      → offer_all (es ++ fs) x ≡ offer_all fs (offer_all es x)
  unfolding offer_all
  offer_all-append [] fs x = refl
  offer_all-append (e ∷ es) fs x = offer_all-append es fs (offer_event st source_of ch e x)

  pub offer_all-Accounted :
      (es : List E) (x : Sender st source_of ch) → Accounted es x (offer_all es x)
  unfolding offer_all
  offer_all-Accounted [] x = Accounted-refl x
  offer_all-Accounted (e ∷ es) x =
      let y = offer_event st source_of ch e x in
      Accounted-trans (e ∷ []) es x y (offer_all es y) (offer_event-Accounted e x)
        (offer_all-Accounted es y)
