-- ===== src/Receive.antt =====
-- The two receive loops that src/sources/raw_udp.rs, src/sources/jito.rs and
-- src/sources/doublezero.rs share: batched with kernel timestamps, or one datagram at a time. What a
-- source does with a datagram is the parameter `handle`. A loop's input is what the kernel answers
-- until the token is cancelled.
pub mod Handled
pub mod Sockets
pub mod Platform
pub mod Listener
use orbshred.Prelude.{ℕ, zero, suc, Bool, List, [], ◌∷◌, if◌then◌else◌}
use orbshred.Exec.{Exec, ok, ◌>>=◌, slice, Bytes}
use orbshred.Registry.{Instant}
use orbshred.KernelTs.{
  ClockAnchor, Kernel, Answer, Received, received, recv_error, BatchRecv, frame, timestamp,
  recvmmsg, new_batch, replicate,
}

-- What the clock shows when the `i`-th datagram of a batch is handled.
abbrev pub Clock : Type 0
Clock = ℕ → Instant

-- What `recv_from` comes to; `would_block` or `timed_out` is `quiet`.
pub data Arrival : Type 0 where
  arrived : Bytes → Instant → Arrival
  quiet recv_failed : Arrival

-- What a socket answers to either kind of call.
pub record Socket : Type 0 where
  pub batches : List (Answer × Clock)
  pub arrivals : List Arrival

abbrev pub recv_batch_size : ℕ
recv_batch_size = 64

abbrev pub datagram_size : ℕ
datagram_size = 1280

module _ (k : Kernel) {S : Type 0} (handle : Bytes → Instant → S → Exec S) where
  open k use {fill}

  -- `for i in 0..n`, with `n` rounds left.
  unfoldable pub frame_loop : ClockAnchor → Clock → BatchRecv → ℕ → ℕ → S → Exec S
  frame_loop anchor now b zero i s = ok s
  frame_loop anchor now b (suc n) i s = do
    f ← frame b i
    t ← timestamp k anchor (now i) b i
    s' ← handle f t s
    frame_loop anchor now b n (suc i) s'

  unfoldable pub on_received : ClockAnchor → Clock → Received → BatchRecv → S → Exec S
  unfolding frame_loop
  on_received anchor now (received n) b s = frame_loop anchor now b n 0 s
  on_received anchor now recv_error b s = ok s

  unfoldable pub batched_loop : ClockAnchor → List (Answer × Clock) → BatchRecv → S → Exec S
  unfolding on_received
  batched_loop anchor [] b s = ok s
  batched_loop anchor ((a, now) ∷ rest) b s = do
    let r = recvmmsg k a b
    s' ← on_received anchor now r.0 r.1 s
    batched_loop anchor rest r.1 s'

  unfoldable pub single_loop : List Arrival → Bytes → S → Exec S
  single_loop [] buf s = ok s
  single_loop (arrived p t ∷ rest) buf s = do
    let written = fill p buf
    f ← slice written.0 0 written.1
    s' ← handle f t s
    single_loop rest written.0 s'
  single_loop (quiet ∷ rest) buf s = single_loop rest buf s
  single_loop (recv_failed ∷ rest) buf s = single_loop rest buf s

  unfoldable pub recv_loop : ClockAnchor → Bool → Socket → S → Exec S
  unfolding batched_loop single_loop
  recv_loop anchor kernel_ts_enabled sock s =
      if kernel_ts_enabled
      then (do b ← new_batch recv_batch_size datagram_size; batched_loop anchor sock.batches b s)
      else single_loop sock.arrivals (replicate datagram_size 0) s
