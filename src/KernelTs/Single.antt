-- ===== src/KernelTs/Single.antt =====
-- src/sources/kernel_ts.rs:36-44, 57-63 and 114-165: the anchor and the receive of one datagram,
-- against the batched receive.
use Prim.Native.Nat.{min}
use orbshred.Prelude.{
  ℕ, ◌+◌, ◌^◌, ◌<◌, ◌≡◌, refl, ap, Option, none, some, List, [], ◌∷◌, map, take, length, arith,
}
use orbshred.Prelude.Int.{ℤ, pos, ◌+ℤ◌, ◌-ℤ◌, ◌*ℤ◌}
use orbshred.Exec.{ok, Bytes, or_panic}
use orbshred.Registry.{Instant}
use orbshred.KernelTs.Batch.{written_slice}
use orbshred.KernelTs.{
  ClockAnchor, Kernel, Slot, BatchRecv, Datagram, datagrams, received, cmsg_buf_size, frame, stamp,
  timestamp, recvmmsg, reset_slot, on_answer, fill_slot, deliver, instant_from_realtime_ns,
  shift_instant,
}

-- What `clock_gettime` writes.
pub record Timespec : Type 0 where
  pub tv_sec : ℤ
  pub tv_nsec : ℤ

unfoldable pub realtime_ns_now : Timespec → ℤ
realtime_ns_now ts = ts.tv_sec *ℤ pos 1000000000 +ℤ ts.tv_nsec

-- The two clocks are read one after the other.
unfoldable pub capture : Timespec → Instant → ClockAnchor
unfolding realtime_ns_now
capture ts now = record { instant = now; realtime_ns = realtime_ns_now ts }

-- A packet that the kernel stamps `n` nanoseconds after the anchor's reading arrived that long after
-- the anchor's instant.
pub capture_later :
    (ts us : Timespec) (now n : ℕ)
    → n < 2 ^ 64
    → realtime_ns_now us -ℤ realtime_ns_now ts ≡ pos n
    → instant_from_realtime_ns (capture ts now) (realtime_ns_now us) ≡ now + n
unfolding instant_from_realtime_ns capture shift_instant
capture_later ts us now n small h = rw h (omega arith)

module _ (k : Kernel) where
  open k use {fill, fill_control, take-fill}

  -- `recvmsg` brings a datagram or an error; the buffer after it is returned as well.
  unfoldable pub recv_with_timestamp :
      ClockAnchor → Instant → Option Datagram → Bytes → Option (ℕ × Instant) × Bytes
  unfolding stamp
  recv_with_timestamp anchor now none buf = (none, buf)
  recv_with_timestamp anchor now (some d) buf =
      let written = fill d.bytes buf in
      let controls = fill_control d.messages cmsg_buf_size in
      (some (written.1, stamp k anchor now controls.0), written.0)

  -- A datagram that comes alone is handed on by the batched receive as by the receive of one datagram:
  -- the same bytes, which are the datagram's as far as the buffer holds them, and the same time,
  -- whatever the slot was used for before.
  pub recv_with_timestamp-recvmmsg :
      (anchor : ClockAnchor) (now : Instant) (d : Datagram) (s : Slot) (ss : List Slot)
      → let b : BatchRecv = record { slots = s ∷ ss } in
        let batched = recvmmsg k (datagrams (d ∷ [])) b in
        let single = recv_with_timestamp anchor now (some d) s.buf in
        (batched.0 ≡ received 1)
        × ((n : ℕ) × (t : Instant) × (single.0 ≡ some (n, t))
            × (take n single.1 ≡ take (length s.buf) d.bytes)
            × (frame batched.1 0 ≡ ok (take (length s.buf) d.bytes))
            × (timestamp k anchor now batched.1 0 ≡ ok t))
  unfolding recvmmsg reset_slot on_answer deliver fill_slot recv_with_timestamp frame timestamp
      or_panic
  recv_with_timestamp-recvmmsg anchor now d s ss =
      let one : min 1 (length (map reset_slot (s ∷ ss))) ≡ 1 = omega arith in
      (
        ap (λ n. received n) one,
        (
          (fill d.bytes s.buf).1,
          stamp k anchor now (fill_control d.messages cmsg_buf_size).0,
          refl,
          take-fill d.bytes s.buf,
          written_slice k d.bytes s.buf (length s.buf) refl,
          refl,
        ),
      )
