-- ===== src/Pipeline/Lanes.antt =====
-- src/main.rs:140-148 and 347-439: one of the three channels between the sources and the aggregator,
-- with what passed through it. `accepted`, `taken` and `refused` only remember the events.
pub mod Kept
use orbshred.Prelude.{
  ℕ, suc, ◌+◌, ◌^◌, ◌%◌, ◌≡◌, refl, Bool, true, false, Option, none, some, List, [], ◌∷◌, ◌++◌,
  length, ◌==◌, if◌then◌else◌, arith,
}
use orbshred.Channel.{Channel}
use orbshred.Registry.{SourceId, Store, DropCounters, drops_of}
use orbshred.Registry.Drops.{drops_of-inc}
use orbshred.Sender.{Sender, after_offer}
use orbshred.Sender.Ledger.{count_by, count_by-append}

module _ (st : Store) {E : Type 0} (source_of : E → SourceId) (ch : Channel E) where
  open ch use {Queue, try_send, recv, empty, pending}

  pub record Lane : Type 0 where
    pub queue : Queue
    -- some task still holds a sender
    pub held : Bool
    pub accepted : List E
    pub taken : List E
    pub refused : List E

  unfoldable pub open_lane : Lane
  open_lane = record { queue = empty; held = true; accepted = []; taken = []; refused = [] }

  -- A channel whose receiver is gone refuses every event.
  unfoldable pub answer : Bool → E → Queue → Option Queue
  answer receiving e q = if receiving then try_send e q else none

  unfoldable pub keep_account : E → Option Queue → Lane → Lane
  keep_account e none l = record l { refused = l.refused ++ (e ∷ []) }
  keep_account e (some q) l = record l { queue = q; accepted = l.accepted ++ (e ∷ []) }

  -- `if tx.try_send(event).is_err() { drops.inc(source) }`
  unfoldable pub put : E → Option Queue → Lane → DropCounters st → Lane × DropCounters st
  unfolding keep_account after_offer
  put e o l d = (
    keep_account e o l,
    (after_offer st source_of ch (source_of e) o (record { tx = l.queue; drops = d })).drops,
  )

  unfoldable pub send : Bool → E → Lane → DropCounters st → Lane × DropCounters st
  unfolding answer put
  send receiving e l d = if l.held then put e (answer receiving e l.queue) l d else (l, d)

  -- What `recv().await` gives: an event, the end of the channel, or nothing so far.
  pub data RecvAnswer : Type 0 where
    got : E → Lane → RecvAnswer
    over : RecvAnswer
    waits : RecvAnswer

  unfoldable pub recv_answer : Option (E × Queue) → Lane → RecvAnswer
  recv_answer none l = if l.held then waits else over
  recv_answer (some (e, q)) l = got e (record l { queue = q; taken = l.taken ++ (e ∷ []) })

  unfoldable pub recv_event : Lane → RecvAnswer
  unfolding recv_answer
  recv_event l = recv_answer (recv l.queue) l
