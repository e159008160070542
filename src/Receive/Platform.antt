-- ===== src/Receive/Platform.antt =====
-- What src/sources/raw_udp.rs, src/sources/jito.rs and src/sources/doublezero.rs compile to on each
-- system: kernel timestamps and batches exist on Linux alone.
use orbshred.Prelude.{◌≡◌, refl, ◌∙◌, Bool, false}
use orbshred.Exec.{Exec, Bytes}
use orbshred.Registry.{Instant}
use orbshred.KernelTs.{ClockAnchor, Kernel, replicate}
use orbshred.Receive.Handled.{handle_all}
use orbshred.Receive.Sockets.{SocketFits, socket_frames, recv_loop_handled}
use orbshred.Receive.{Socket, datagram_size, single_loop, recv_loop}

-- `cfg(target_os = "linux")` or not.
pub data Platform : Type 0 where
  linux other : Platform

-- Given whether the `setsockopt` for the timestamps succeeds.
unfoldable pub enable_kernel_ts_on_udp : Platform → Bool → Bool
enable_kernel_ts_on_udp linux enabled = enabled
enable_kernel_ts_on_udp other enabled = false

module _ (k : Kernel) {S : Type 0} (handle : Bytes → Instant → S → Exec S) where
  -- The loop into a new buffer.
  unfoldable pub single_udp_loop : Socket → S → Exec S
  unfolding single_loop
  single_udp_loop sock s = single_loop k handle sock.arrivals (replicate datagram_size 0) s

  unfoldable pub recv_loop_on : Platform → ClockAnchor → Bool → Socket → S → Exec S
  unfolding recv_loop single_udp_loop
  recv_loop_on linux anchor kernel_ts_enabled sock s =
      recv_loop k handle anchor kernel_ts_enabled sock s
  recv_loop_on other anchor kernel_ts_enabled sock s = single_udp_loop sock s

  unfoldable pub listen_on : Platform → ClockAnchor → Bool → Socket → S → Exec S
  unfolding recv_loop_on enable_kernel_ts_on_udp
  listen_on p anchor enabled sock s =
      recv_loop_on p anchor (enable_kernel_ts_on_udp p enabled) sock s

  listen_on-recv_loop :
      (p : Platform) (anchor : ClockAnchor) (enabled : Bool) (sock : Socket) (s : S)
      → listen_on p anchor enabled sock s
        ≡ recv_loop k handle anchor (enable_kernel_ts_on_udp p enabled) sock s
  unfolding listen_on recv_loop_on single_udp_loop enable_kernel_ts_on_udp recv_loop
  listen_on-recv_loop linux anchor enabled sock s = refl
  listen_on-recv_loop other anchor enabled sock s = refl

  -- On every system a listener hands on all that its socket receives, in its order: on Linux with the
  -- kernel's times if they are enabled, and elsewhere with those that the clock shows, whatever the
  -- `setsockopt` would answer. No batch exceeds the slots, and the control messages fit.
  pub listen_on-handled :
      (p : Platform) (anchor : ClockAnchor) (enabled : Bool) (sock : Socket) (s : S)
      → SocketFits k sock
      → listen_on p anchor enabled sock s
        ≡ handle_all handle (socket_frames k anchor (enable_kernel_ts_on_udp p enabled) sock) s
  listen_on-handled p anchor enabled sock s fit =
      listen_on-recv_loop p anchor enabled sock s
      ∙ recv_loop_handled k handle anchor (enable_kernel_ts_on_udp p enabled) sock s fit
