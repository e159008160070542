-- ===== src/Pipeline/Lanes/Kept.antt =====
-- src/main.rs:140-148 and 347-439: what goes into a channel comes out of it in its order, is still in
-- it or was counted as dropped.
use orbshred.Prelude.{
  ℕ, suc, ◌+◌, ◌^◌, ◌%◌, ◌<◌, ◌≡◌, refl, sym, Bool, true, false, Option, none, some, [], ◌∷◌, ◌++◌,
  length, Bool-cases, inl, inr, arith,
}
use mathlib.Core.List.{append_assoc}
use orbshred.Channel.{Channel}
use orbshred.Registry.{SourceId, Store, DropCounters, drops_of}
use orbshred.Registry.Drops.{drops_of-inc}
use orbshred.Sender.{after_offer}
use orbshred.Sender.Ledger.{count_by, count_by-append}
use orbshred.Pipeline.Lanes.{
  Lane, answer, keep_account, put, send, RecvAnswer, got, over, waits, recv_answer, recv_event,
}

module _ (st : Store) {E : Type 0} (source_of : E → SourceId) (ch : Channel E) where
  open ch use {
    Queue, try_send, recv, pending, pending-try_send, pending-recv, recv_none, pending-empty,
    try_send-full, capacity,
  }

  -- The events that a channel accepted are those taken from it and those that wait, in their order.
  abbrev pub Kept : Lane st source_of ch → Type 0
  Kept l = l.accepted ≡ l.taken ++ pending l.queue

  -- What a receive says of the lane it was made on.
  abbrev pub Sound : Lane st source_of ch → RecvAnswer st source_of ch → Type 0
  Sound l (got e m) =
      (pending l.queue ≡ e ∷ pending m.queue)
      × (m.taken ≡ l.taken ++ (e ∷ []))
      × (m.accepted ≡ l.accepted)
      × (m.refused ≡ l.refused)
  Sound l over = (pending l.queue ≡ []) × (l.held ≡ false)
  Sound l waits = (pending l.queue ≡ []) × (l.held ≡ true)

  pub recv_event-Sound : (l : Lane st source_of ch) → Sound l (recv_event st source_of ch l)
  unfolding recv_event recv_answer
  recv_event-Sound l = go (recv l.queue) refl
    where
      go : (o : Option (E × Queue)) → recv l.queue ≡ o → Sound l (recv_answer st source_of ch o l)
      go none h = elim (Bool-cases l.held) [
        | inl e ↦ rw e (recv_none l.queue h, refl)
        | inr e ↦ rw e (recv_none l.queue h, refl)
      ]
      go (some (e, q)) h = (pending-recv e l.queue q h, refl, refl, refl)

  pub Sound-Kept : (l m : Lane st source_of ch) (e : E) → Sound l (got e m) → Kept l → Kept m
  Sound-Kept l m e (p, t, a, r) k =
      rw (a, t, k, p) (sym (append_assoc l.taken (e ∷ []) (pending m.queue)))

  answer-pending :
      (b : Bool) (e : E) (q r : Queue)
      → answer st source_of ch b e q ≡ some r
      → pending r ≡ pending q ++ (e ∷ [])
  unfolding answer
  answer-pending true e q r h = pending-try_send e q r h
  answer-pending false e q r h = ground arith

  -- Between two drop counters and two lanes: the refused events were counted.
  abbrev pub Counts : SourceId → ℕ → Lane st source_of ch → DropCounters st → Type 0
  Counts s n l d = drops_of st s d ≡ (n + count_by source_of s l.refused) % 2 ^ 64

  put-Kept :
      (b : Bool) (e : E) (o : Option Queue) (l : Lane st source_of ch) (d : DropCounters st)
      → answer st source_of ch b e l.queue ≡ o
      → Kept l
      → Kept (put st source_of ch e o l d).0
  unfolding put keep_account
  put-Kept b e none l d h k = k
  put-Kept b e (some q) l d h k =
      rw (k, answer-pending b e l.queue q h) (append_assoc l.taken (pending l.queue) (e ∷ []))

  put-Counts :
      (e : E) (o : Option Queue) (l : Lane st source_of ch) (d : DropCounters st) (s : SourceId)
      (n : ℕ)
      → Counts s n l d
      → Counts s n (put st source_of ch e o l d).0 (put st source_of ch e o l d).1
  unfolding put keep_account after_offer count_by
  put-Counts e none l d s n h =
      ground (
        arith,
        h,
        drops_of-inc st (source_of e) s d,
        count_by-append source_of s l.refused (e ∷ []),
      )
  put-Counts e (some q) l d s n h = h

  pub send-Kept :
      (b : Bool) (e : E) (l : Lane st source_of ch) (d : DropCounters st)
      → Kept l
      → Kept (send st source_of ch b e l d).0
  unfolding send
  send-Kept b e l d k = elim (Bool-cases l.held) [
    | inl h ↦ simp h (put-Kept b e (answer st source_of ch b e l.queue) l d refl k)
    | inr h ↦ simp h k
  ]

  pub send-Counts :
      (b : Bool) (e : E) (l : Lane st source_of ch) (d : DropCounters st) (s : SourceId) (n : ℕ)
      → Counts s n l d
      → Counts s n (send st source_of ch b e l d).0 (send st source_of ch b e l d).1
  unfolding send
  send-Counts b e l d s n k = elim (Bool-cases l.held) [
    | inl h ↦ simp h (put-Counts e (answer st source_of ch b e l.queue) l d s n k)
    | inr h ↦ simp h k
  ]

  put-taken :
      (e : E) (o : Option Queue) (l : Lane st source_of ch) (d : DropCounters st)
      → (put st source_of ch e o l d).0.taken ≡ l.taken
  unfolding put keep_account
  put-taken e none l d = refl
  put-taken e (some q) l d = refl

  pub send-taken :
      (b : Bool) (e : E) (l : Lane st source_of ch) (d : DropCounters st)
      → (send st source_of ch b e l d).0.taken ≡ l.taken
  unfolding send
  send-taken b e l d = elim (Bool-cases l.held) [
    | inl h ↦ simp h (put-taken e (answer st source_of ch b e l.queue) l d)
    | inr h ↦ simp h refl
  ]

  -- An event that a lane accepts waits behind the others and costs no drop.
  abbrev pub Joins :
      E → Lane st source_of ch → DropCounters st → Lane st source_of ch × DropCounters st → Type 0
  Joins e l d (m, d') =
      (pending m.queue ≡ pending l.queue ++ (e ∷ []))
      × (m.accepted ≡ l.accepted ++ (e ∷ []))
      × (m.held ≡ true)
      × (d' ≡ d)

  put-Joins :
      (e : E) (l : Lane st source_of ch) (d : DropCounters st) (o : Option Queue)
      → try_send e l.queue ≡ o
      → l.held ≡ true
      → length (pending l.queue) < capacity
      → Joins e l d (put st source_of ch e o l d)
  unfolding put keep_account after_offer
  put-Joins e l d none h alive room = absurd (omega (arith, try_send-full e l.queue h, room))
  put-Joins e l d (some q) h alive room = (pending-try_send e l.queue q h, refl, alive, refl)

  -- A lane with room accepts what is sent.
  pub send-Joins :
      (b : Bool) (e : E) (l : Lane st source_of ch) (d : DropCounters st)
      → b ≡ true
      → l.held ≡ true
      → length (pending l.queue) < capacity
      → Joins e l d (send st source_of ch b e l d)
  unfolding send answer
  send-Joins b e l d on alive room =
      simp (on, alive) (put-Joins e l d (try_send e l.queue) refl alive room)

  -- A channel without a receiver keeps what it holds.
  pub send_gone :
      (e : E) (l : Lane st source_of ch) (d : DropCounters st)
      → (send st source_of ch false e l d).0.queue ≡ l.queue
  unfolding send answer put keep_account
  send_gone e l d = elim (Bool-cases l.held) [ inl h ↦ simp h refl | inr h ↦ simp h refl ]

  -- A channel without senders and events has ended.
  pub recv_event_over :
      (l : Lane st source_of ch)
      → l.held ≡ false
      → pending l.queue ≡ []
      → recv_event st source_of ch l ≡ over
  recv_event_over l off none_waits = go (recv_event st source_of ch l) (recv_event-Sound l)
    where
      go : (a : RecvAnswer st source_of ch) → Sound l a → a ≡ over
      go (got e m) h = let waiting : pending l.queue ≡ e ∷ pending m.queue = h.0 in cc
      go over h = refl
      go waits h = let held : l.held ≡ true = h.1 in cc

  -- A channel in which an event waits gives one, and one fewer waits.
  abbrev pub Gives : ℕ → RecvAnswer st source_of ch → Type 0
  Gives n (got e m) = length (pending m.queue) ≡ n
  Gives n over = ⊥
  Gives n waits = ⊥

  pub recv_event-Gives :
      (l : Lane st source_of ch) (n : ℕ)
      → length (pending l.queue) ≡ suc n
      → Gives n (recv_event st source_of ch l)
  recv_event-Gives l n some_wait = go (recv_event st source_of ch l) (recv_event-Sound l)
    where
      go : (a : RecvAnswer st source_of ch) → Sound l a → Gives n a
      go (got e m) h = ground (arith, h.0, some_wait)
      go over h = ground (arith, h.0, some_wait)
      go waits h = ground (arith, h.0, some_wait)
