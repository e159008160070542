-- ===== src/Receive/Handled.antt =====
-- What the receive loops hand on: the datagrams of the socket in their order, each with its time,
-- whichever loop runs.
use mathlib.Core.List.{append_assoc}
use orbshred.Prelude.{
  ℕ, suc, ◌≤◌, ◌≡◌, refl, ap, sym, ◌∙◌, List, [], ◌∷◌, ◌++◌, map, length, length-append, take, All,
  arith, length-map, min,
}
use orbshred.Exec.{Exec, ok, ◌>>=◌, Bytes, bind_cong, bind_assoc}
use orbshred.Registry.{Instant}
use orbshred.KernelTs.{
  ClockAnchor, Kernel, Datagram, Answer, datagrams, would_block, timed_out, failed, Slot, BatchRecv,
  reset_slot, stamp, fill_slot, deliver, recvmmsg, on_answer,
}
use orbshred.KernelTs.Batch.{
  Sized, IsPrepared, MessagesFit, Fits, recvmmsg-IsPrepared, written_slice, frame_delivered,
  timestamp_delivered,
}
use orbshred.Receive.{
  Clock, Arrival, arrived, quiet, recv_failed, frame_loop, on_received, batched_loop, single_loop,
}

-- A datagram as it is handed on, with its time.
abbrev pub Frames : Type 0
Frames = List (Bytes × Instant)

unfoldable pub handle_all {ℓ} : {S : Type ℓ} → (Bytes → Instant → S → Exec S) → Frames → S → Exec S
handle_all handle [] s = ok s
handle_all handle ((f, t) ∷ fs) s = do s' ← handle f t s; handle_all handle fs s'

pub handle_all-append :
    {S : Type 0} (handle : Bytes → Instant → S → Exec S) (fs gs : Frames) (s : S)
    → (handle_all handle fs s >>= handle_all handle gs) ≡ handle_all handle (fs ++ gs) s
unfolding handle_all
handle_all-append handle [] gs s = refl
handle_all-append handle ((f, t) ∷ fs) gs s =
    bind_assoc (handle f t s) (handle_all handle fs) (handle_all handle gs)
    ∙ bind_cong (handle f t s) (λ s'. handle_all-append handle fs gs s')

module _ (k : Kernel) (anchor : ClockAnchor) (size : ℕ) where
  -- The datagrams of a batch from the `i`-th on, cut to the buffers' size.
  unfoldable pub stamped : Clock → ℕ → List Datagram → Frames
  stamped now i [] = []
  stamped now i (d ∷ ds) =
      (take size d.bytes, stamp k anchor (now i) d.messages) ∷ stamped now (suc i) ds

  unfoldable pub answer_frames : Answer → Clock → Frames
  unfolding stamped
  answer_frames (datagrams ds) now = stamped now 0 ds
  answer_frames would_block now = []
  answer_frames timed_out now = []
  answer_frames failed now = []

  unfoldable pub batched_frames : List (Answer × Clock) → Frames
  unfolding answer_frames
  batched_frames [] = []
  batched_frames ((a, now) ∷ rest) = answer_frames a now ++ batched_frames rest

unfoldable pub single_frames : ℕ → List Arrival → Frames
single_frames size [] = []
single_frames size (arrived p t ∷ rest) = (take size p, t) ∷ single_frames size rest
single_frames size (quiet ∷ rest) = single_frames size rest
single_frames size (recv_failed ∷ rest) = single_frames size rest

module _ (k : Kernel) {S : Type 0} (handle : Bytes → Instant → S → Exec S) (size : ℕ) where
  open k use {fill, length-fill}

  -- The frames behind a prefix of slots.
  frame_loop-deliver :
      (anchor : ClockAnchor) (now : Clock) (ds : List Datagram) (pre ss : List Slot) (s : S)
      → Sized size ss
      → All (MessagesFit k) ds
      → length ds ≤ length ss
      → frame_loop k handle anchor now
          (record { slots = pre ++ deliver k ds (map reset_slot ss) })
          (length ds)
          (length pre)
          s
        ≡ handle_all handle (stamped k anchor size now (length pre) ds) s
  unfolding frame_loop handle_all stamped deliver
  frame_loop-deliver anchor now [] pre ss s h fit short = refl
  frame_loop-deliver anchor now (d ∷ ds) pre [] s h fit short = absurd (omega arith)
  frame_loop-deliver anchor now (d ∷ ds) pre (x ∷ ss) s h fit short =
      let filled = fill_slot k d (reset_slot x) in
      let rest = deliver k ds (map reset_slot ss) in
      let next : length (pre ++ (filled ∷ [])) ≡ suc (length pre) =
        omega (arith, length-append pre (filled ∷ [])) in
      let again = λ (s' : S).
        frame_loop-deliver anchor now ds (pre ++ (filled ∷ [])) ss s' h.1 fit.1 (omega arith) in
      rw
        (
          frame_delivered k pre rest d x size h.0,
          timestamp_delivered k anchor (now (length pre)) pre rest d x fit.0,
        )
        (bind_cong (handle (take size d.bytes) (stamp k anchor (now (length pre)) d.messages) s)
          (λ s'. rw (append_assoc pre (filled ∷ []) rest, next) at (again s')))

  on_received-handled :
      (anchor : ClockAnchor) (now : Clock) (n : ℕ) (a : Answer) (b : BatchRecv) (s : S)
      → IsPrepared n size b
      → Fits k n a
      → on_received k handle anchor now (recvmmsg k a b).0 (recvmmsg k a b).1 s
        ≡ handle_all handle (answer_frames k anchor size a now) s
  unfolding on_received recvmmsg on_answer answer_frames frame_loop handle_all
  on_received-handled anchor now n (datagrams ds) b s h fit =
      let same = length-map b.slots reset_slot in
      let all : min (length ds) (length (map reset_slot b.slots)) ≡ length ds =
        omega (arith, same, h.0, fit.0) in
      rw all (frame_loop-deliver anchor now ds [] b.slots s h.1 fit.1 (omega (arith, h.0, fit.0)))
  on_received-handled anchor now n would_block b s h fit = refl
  on_received-handled anchor now n timed_out b s h fit = refl
  on_received-handled anchor now n failed b s h fit = refl

  pub batched_handled :
      (anchor : ClockAnchor) (n : ℕ) (qs : List (Answer × Clock)) (b : BatchRecv) (s : S)
      → IsPrepared n size b
      → All (λ a. Fits k n a.0) qs
      → batched_loop k handle anchor qs b s ≡ handle_all handle (batched_frames k anchor size qs) s
  unfolding batched_loop batched_frames handle_all
  batched_handled anchor n [] b s h fit = refl
  batched_handled anchor n ((a, now) ∷ qs) b s h fit =
      let r = recvmmsg k a b in
      rw (on_received-handled anchor now n a b s h fit.0) (
        bind_cong (handle_all handle (answer_frames k anchor size a now) s)
          (λ s'. batched_handled anchor n qs r.1 s' (recvmmsg-IsPrepared k n size a b h) fit.1)
        ∙ handle_all-append handle (answer_frames k anchor size a now)
            (batched_frames k anchor size qs) s)

  pub single_handled :
      (qs : List Arrival) (buf : Bytes) (s : S)
      → length buf ≡ size
      → single_loop k handle qs buf s ≡ handle_all handle (single_frames size qs) s
  unfolding single_loop single_frames handle_all
  single_handled [] buf s h = refl
  single_handled (arrived p t ∷ qs) buf s h = rw (written_slice k p buf size h) (
      bind_cong (handle (take size p) t s)
        (λ s'. single_handled qs (fill p buf).0 s' (length-fill p buf ∙ h)))
  single_handled (quiet ∷ qs) buf s h = single_handled qs buf s h
  single_handled (recv_failed ∷ qs) buf s h = single_handled qs buf s h

  -- The two receive loops agree. The batched loop reuses its slots and the single one its buffer, and
  -- neither hands on a byte or a time of an earlier datagram: given datagrams of the same bytes, cut
  -- to the buffers' size, and the same times, both end in the same state. The slots and the buffer
  -- have the size, no batch exceeds the slots, and the control messages fit.
  pub loops_agree :
      (anchor : ClockAnchor) (n : ℕ) (qs : List (Answer × Clock)) (b : BatchRecv)
      (bs : List Arrival) (buf : Bytes) (s : S)
      → IsPrepared n size b
      → All (λ a. Fits k n a.0) qs
      → length buf ≡ size
      → batched_frames k anchor size qs ≡ single_frames size bs
      → batched_loop k handle anchor qs b s ≡ single_loop k handle bs buf s
  loops_agree anchor n qs b bs buf s h fit l same =
      batched_handled anchor n qs b s h fit
      ∙ ap (λ fs. handle_all handle fs s) same
      ∙ sym (single_handled bs buf s l)
