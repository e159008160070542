-- ===== src/Receive/Sockets.antt =====
-- The receive loop of a whole socket, its slots or its buffer included.
use orbshred.Prelude.{
  ℕ, zero, suc, ◌≡◌, refl, ap, Bool, true, false, if◌then◌else◌, length, All, [],
}
use orbshred.Exec.{Exec, Bytes}
use orbshred.Registry.{Instant}
use orbshred.KernelTs.{ClockAnchor, Kernel, Slot, replicate, cmsg_buf_size, new_batch}
use orbshred.KernelTs.Batch.{Fits}
use orbshred.Receive.{Socket, recv_batch_size, datagram_size, recv_loop}
use orbshred.Receive.Handled.{
  Frames, handle_all, batched_frames, single_frames, batched_handled, single_handled,
}

pub length-replicate : {A : Type 0} (n : ℕ) (a : A) → length (replicate n a) ≡ n
length-replicate zero a = refl
length-replicate (suc n) a = ap suc (length-replicate n a)

All-replicate : {A : Type 0} (P : A → Type 0) (n : ℕ) (a : A) → P a → All P (replicate n a)
All-replicate P zero a h = tt
All-replicate P (suc n) a h = (h, All-replicate P n a h)

module _ (k : Kernel) where
  -- No batch is larger than the slots, and the control messages fit.
  abbrev pub SocketFits : Socket → Type 0
  SocketFits sock = All (λ a. Fits k recv_batch_size a.0) sock.batches

  unfoldable pub socket_frames : ClockAnchor → Bool → Socket → Frames
  unfolding batched_frames single_frames
  socket_frames anchor kernel_ts_enabled sock =
      if kernel_ts_enabled
      then batched_frames k anchor datagram_size sock.batches
      else single_frames datagram_size sock.arrivals

  pub recv_loop_handled :
      {S : Type 0} (handle : Bytes → Instant → S → Exec S) (anchor : ClockAnchor) (on : Bool)
      (sock : Socket) (s : S)
      → SocketFits sock
      → recv_loop k handle anchor on sock s ≡ handle_all handle (socket_frames anchor on sock) s
  unfolding recv_loop socket_frames new_batch
  recv_loop_handled handle anchor true sock s fit =
      let empty : Slot = record {
        buf = replicate datagram_size 0;
        msg_len = 0;
        msg_controllen = cmsg_buf_size;
        control = [];
      } in
      batched_handled k handle datagram_size anchor recv_batch_size sock.batches
        (record { slots = replicate recv_batch_size empty }) s
        (
          length-replicate recv_batch_size empty,
          All-replicate (λ x. length x.buf ≡ datagram_size) recv_batch_size empty
              (length-replicate {A = ℕ} datagram_size 0),
        )
        fit
  recv_loop_handled handle anchor false sock s fit =
      single_handled k handle datagram_size sock.arrivals (replicate datagram_size 0) s
        (length-replicate {A = ℕ} datagram_size 0)
