-- ===== src/KernelTs/Batch.antt =====
-- src/sources/kernel_ts.rs:178-245: what a batched receive leaves in the slots.
use orbshred.Prelude.{
  ℕ, suc, ◌-◌, ◌≤◌, ◌≡◌, refl, ap, ◌∙◌, List, [], ◌∷◌, ◌++◌, map, length, length-map, take, drop,
  get_elem?-append, All, arith,
}
use orbshred.Exec.{ok, Bytes, or_panic, slice, slice_ok}
use orbshred.Registry.{Instant}
use orbshred.KernelTs.{
  ClockAnchor, Kernel, Datagram, Answer, datagrams, would_block, timed_out, failed, Slot, BatchRecv,
  cmsg_buf_size, reset_slot, frame, stamp, timestamp, fill_slot, deliver, recvmmsg, on_answer,
}

-- Every slot has a buffer of the size.
abbrev pub Sized : ℕ → List Slot → Type 0
Sized size = All (λ s. length s.buf ≡ size)

-- The batch has `n` slots of the size.
abbrev pub IsPrepared : ℕ → ℕ → BatchRecv → Type 0
IsPrepared n size b = (length b.slots ≡ n) × Sized size b.slots

Sized-reset : (size : ℕ) (ss : List Slot) → Sized size ss → Sized size (map reset_slot ss)
unfolding reset_slot
Sized-reset size [] h = tt
Sized-reset size (s ∷ ss) h = (h.0, Sized-reset size ss h.1)

module _ (k : Kernel) where
  open k use {
    fill, fill_control, length-fill, fill_bound, take-fill, fill_control_fits, control_size,
  }

  -- A datagram's control messages fit into a slot.
  abbrev pub MessagesFit : Datagram → Type 0
  MessagesFit d = control_size d.messages ≤ cmsg_buf_size

  -- At most `n` datagrams come, and their control messages fit.
  abbrev pub Fits : ℕ → Answer → Type 0
  Fits n (datagrams ds) = (length ds ≤ n) × All MessagesFit ds
  Fits n would_block = Unit
  Fits n timed_out = Unit
  Fits n failed = Unit

  length-deliver : (ds : List Datagram) (ss : List Slot) → length (deliver k ds ss) ≡ length ss
  unfolding deliver
  length-deliver [] ss = refl
  length-deliver (d ∷ ds) [] = refl
  length-deliver (d ∷ ds) (s ∷ ss) = ap suc (length-deliver ds ss)

  deliver-Sized :
      (size : ℕ) (ds : List Datagram) (ss : List Slot)
      → Sized size ss
      → Sized size (deliver k ds ss)
  unfolding deliver fill_slot
  deliver-Sized size [] ss h = h
  deliver-Sized size (d ∷ ds) [] h = tt
  deliver-Sized size (d ∷ ds) (s ∷ ss) h =
      (length-fill d.bytes s.buf ∙ h.0, deliver-Sized size ds ss h.1)

  -- A receive keeps the slots, whatever the kernel answers.
  pub recvmmsg-IsPrepared :
      (n size : ℕ) (a : Answer) (b : BatchRecv)
      → IsPrepared n size b
      → IsPrepared n size (recvmmsg k a b).1
  unfolding recvmmsg on_answer
  recvmmsg-IsPrepared n size (datagrams ds) b h = (
    length-deliver ds (map reset_slot b.slots) ∙ length-map b.slots reset_slot ∙ h.0,
    deliver-Sized size ds (map reset_slot b.slots) (Sized-reset size b.slots h.1),
  )
  recvmmsg-IsPrepared n size would_block b h =
      (length-map b.slots reset_slot ∙ h.0, Sized-reset size b.slots h.1)
  recvmmsg-IsPrepared n size timed_out b h =
      (length-map b.slots reset_slot ∙ h.0, Sized-reset size b.slots h.1)
  recvmmsg-IsPrepared n size failed b h =
      (length-map b.slots reset_slot ∙ h.0, Sized-reset size b.slots h.1)

  -- What the buffer holds after a receive, read up to the reported length.
  pub written_slice :
      (p buf : Bytes) (size : ℕ)
      → length buf ≡ size
      → slice (fill p buf).0 0 (fill p buf).1 ≡ ok (take size p)
  unfolding drop
  written_slice p buf size h =
      let whole : (fill p buf).1 - 0 ≡ (fill p buf).1 = omega arith in
      slice_ok (fill p buf).0 0 (fill p buf).1 (omega arith)
        (omega (arith, fill_bound p buf, length-fill p buf))
      ∙ ap ok (ap (λ n. take n (fill p buf).0) whole ∙ take-fill p buf ∙ ap (λ n. take n p) h)

  -- The slot behind a prefix, after its datagram was delivered.
  pub frame_delivered :
      (pre rest : List Slot) (d : Datagram) (s : Slot) (size : ℕ)
      → length s.buf ≡ size
      → frame (record { slots = pre ++ (fill_slot k d (reset_slot s) ∷ rest) }) (length pre)
        ≡ ok (take size d.bytes)
  unfolding frame or_panic fill_slot reset_slot
  frame_delivered pre rest d s size h =
      rw (get_elem?-append pre (fill_slot k d (reset_slot s) ∷ rest) (length pre) 0 (omega arith))
        (written_slice d.bytes s.buf size h)

  pub timestamp_delivered :
      (anchor : ClockAnchor) (now : Instant) (pre rest : List Slot) (d : Datagram) (s : Slot)
      → MessagesFit d
      → timestamp k anchor now
          (record { slots = pre ++ (fill_slot k d (reset_slot s) ∷ rest) })
          (length pre)
        ≡ ok (stamp k anchor now d.messages)
  unfolding timestamp or_panic fill_slot reset_slot
  timestamp_delivered anchor now pre rest d s h =
      rw (get_elem?-append pre (fill_slot k d (reset_slot s) ∷ rest) (length pre) 0 (omega arith))
        (ap (λ hs. ok (stamp k anchor now hs)) (fill_control_fits d.messages cmsg_buf_size h))
