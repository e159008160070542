-- ===== src/KernelTs.antt =====
-- src/sources/kernel_ts.rs: kernel receive timestamps and the batched receive.
-- What the kernel writes on a receive is the parameter `Kernel`, with what the code relies on as its
-- laws. An `Instant` counts nanoseconds from the earliest instant that can be represented, so
-- `checked_sub` fails below 0. No sum leaves `i128`, since both clocks hold seconds of 64 bits.
pub mod Clock
pub mod Batch
pub mod Single
use orbshred.Prelude.{
  ℕ, zero, suc, ◌+◌, ◌-◌, ◌%◌, ◌^◌, ◌≤◌, ◌≡◌, ◌&&◌, Option, none, some, List, [], ◌∷◌, map, length,
  take, get_elem?, ltb, ◌==◌, if◌then◌else◌, min,
}
use orbshred.Prelude.Int.{ℤ, pos, negsuc, ◌+ℤ◌, ◌-ℤ◌, ◌*ℤ◌}
use orbshred.Exec.{Exec, ok, panic, ◌>>=◌, or_panic, slice, Bytes}
use orbshred.Registry.{Instant}

pub record ClockAnchor : Type 0 where
  pub instant : Instant
  pub realtime_ns : ℤ

-- `self.instant` moved by the difference, of which 64 bits are kept.
unfoldable pub shift_instant : Instant → ℤ → Instant
shift_instant t (pos n) = t + n % 2 ^ 64
shift_instant t (negsuc n) = let back = suc n % 2 ^ 64 in if ltb t back then t else t - back

unfoldable pub instant_from_realtime_ns : ClockAnchor → ℤ → Instant
unfolding shift_instant
instant_from_realtime_ns a ts_ns = shift_instant a.instant (ts_ns -ℤ a.realtime_ns)

-- A control message with its data read as a `timespec`.
pub record ControlMessage : Type 0 where
  pub cmsg_level : ℕ
  pub cmsg_type : ℕ
  pub tv_sec : ℤ
  pub tv_nsec : ℤ

-- What the code uses of the kernel: two constants, and how a receive fills the buffer and the control
-- messages of a slot. It says how many bytes it wrote. A datagram that is too long is cut off. Control
-- messages that do not fit may be.
pub record Kernel : Type 0 where
  pub sol_socket : ℕ
  pub scm_timestampns : ℕ
  pub fill : Bytes → Bytes → Bytes × ℕ
  pub control_size : List ControlMessage → ℕ
  pub fill_control : List ControlMessage → ℕ → List ControlMessage × ℕ
  pub length-fill : (p b : Bytes) → length (fill p b).0 ≡ length b
  pub fill_bound : (p b : Bytes) → (fill p b).1 ≤ length b
  pub take-fill : (p b : Bytes) → take (fill p b).1 (fill p b).0 ≡ take (length b) p
  pub fill_control_fits :
      (cs : List ControlMessage) (n : ℕ) → control_size cs ≤ n → (fill_control cs n).0 ≡ cs

abbrev pub cmsg_buf_size : ℕ
cmsg_buf_size = 128

-- The `i`-th buffer with the `i`-th message header.
pub record Slot : Type 0 where
  pub buf : Bytes
  pub msg_len : ℕ
  pub msg_controllen : ℕ
  pub control : List ControlMessage

pub record BatchRecv : Type 0 where
  pub slots : List Slot

-- A datagram as it arrives.
pub record Datagram : Type 0 where
  pub bytes : Bytes
  pub messages : List ControlMessage

-- What a receive call comes to.
pub data Answer : Type 0 where
  datagrams : List Datagram → Answer
  would_block timed_out failed : Answer

-- `io::Result<usize>`
pub data Received : Type 0 where
  received : ℕ → Received
  recv_error : Received

abbrev pub replicate {ℓ} : {A : Type ℓ} → ℕ → A → List A
replicate zero a = []
replicate (suc n) a = a ∷ replicate n a

unfoldable pub new_batch : ℕ → ℕ → Exec BatchRecv
new_batch batch_size buf_size =
    if batch_size == 0
    then panic
    else ok (record {
      slots = replicate batch_size (record {
        buf = replicate buf_size 0;
        msg_len = 0;
        msg_controllen = cmsg_buf_size;
        control = [];
      });
    })

unfoldable pub reset_slot : Slot → Slot
reset_slot s = record s { msg_controllen = cmsg_buf_size; msg_len = 0 }

unfoldable pub frame : BatchRecv → ℕ → Exec Bytes
frame b i = do s ← or_panic (get_elem? b.slots i); slice s.buf 0 s.msg_len

module _ (k : Kernel) where
  open k use {sol_socket, scm_timestampns, fill, fill_control}

  -- The loop over the control messages: the time of the first timestamp.
  unfoldable pub kernel_time : List ControlMessage → Option ℤ
  kernel_time [] = none
  kernel_time (h ∷ hs) =
      if h.cmsg_level == sol_socket && h.cmsg_type == scm_timestampns
      then some (h.tv_sec *ℤ pos 1000000000 +ℤ h.tv_nsec)
      else kernel_time hs

  -- The kernel's time, or that of the clock.
  unfoldable pub stamp : ClockAnchor → Instant → List ControlMessage → Instant
  unfolding kernel_time
  stamp anchor now hs = elim (kernel_time hs) [
    | none ↦ now
    | some ns ↦ instant_from_realtime_ns anchor ns
  ]

  unfoldable pub timestamp : ClockAnchor → Instant → BatchRecv → ℕ → Exec Instant
  unfolding stamp
  timestamp anchor now b i = do s ← or_panic (get_elem? b.slots i); ok (stamp anchor now s.control)

  unfoldable pub fill_slot : Datagram → Slot → Slot
  fill_slot d s =
      let written = fill d.bytes s.buf in
      let controls = fill_control d.messages s.msg_controllen in
      record {
        buf = written.0;
        msg_len = written.1;
        msg_controllen = controls.1;
        control = controls.0;
      }

  -- One datagram for each slot, from the first slot on.
  unfoldable pub deliver : List Datagram → List Slot → List Slot
  unfolding fill_slot
  deliver [] ss = ss
  deliver (d ∷ ds) [] = []
  deliver (d ∷ ds) (s ∷ ss) = fill_slot d s ∷ deliver ds ss

  -- What `libc::recvmmsg` answers, turned into the result.
  unfoldable pub on_answer : Answer → List Slot → Received × List Slot
  unfolding deliver
  on_answer (datagrams ds) ss = (received (min (length ds) (length ss)), deliver ds ss)
  on_answer would_block ss = (received 0, ss)
  on_answer timed_out ss = (received 0, ss)
  on_answer failed ss = (recv_error, ss)

  unfoldable pub recvmmsg : Answer → BatchRecv → Received × BatchRecv
  unfolding reset_slot on_answer
  recvmmsg a b =
      let answered = on_answer a (map reset_slot b.slots) in
      (answered.0, record { slots = answered.1 })
