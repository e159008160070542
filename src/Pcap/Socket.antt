-- ===== src/Pcap/Socket.antt =====
-- src/sources/pcap.rs:134-327: the capture's socket. The system calls are inputs: whether each one
-- succeeds, and what each receive brings until the token is cancelled. The state counts the
-- descriptors that the process holds open.
pub mod Closed
use Prim.Native.String.{String}
use orbshred.Prelude.{
  ℕ, suc, ◌+◌, ◌-◌, Bool, not, Option, none, some, List, [], ◌∷◌, ◌==◌, if◌then◌else◌,
}
use orbshred.Prelude.Text.{blank}
use orbshred.Exec.{Exec, ok, ◌>>=◌, Bytes, slice}
use orbshred.Channel.{Channel}
use orbshred.Registry.{Instant, ShredEvent, Store, DropCounters}
use orbshred.KernelTs.{ClockAnchor, Kernel, Datagram, stamp, cmsg_buf_size, replicate}
use orbshred.Pcap.Route.{PcapRoute}
use orbshred.Pcap.Capture.{Capture, start_capture, on_frame}

-- `socket` fails with EPERM if it is not permitted; `ifindex` is what `if_nametoindex` returns.
pub record CaptureCalls : Type 0 where
  pub opens : Bool
  pub permitted : Bool
  pub attaches : Bool
  pub name_ok : Bool
  pub ifindex : ℕ
  pub binds : Bool
  pub kernel_timestamps : Bool

pub data CaptureError : Type 0 where
  permission_denied os_error bad_name interface_not_found : CaptureError

-- A frame with its control messages and the time that the clock shows then, or an error, after which
-- the loop goes on.
pub data Reception : Type 0 where
  got : Datagram → Instant → Reception
  nothing : Reception

abbrev pub frame_buf_size : ℕ
frame_buf_size = 2048

-- `libc::close(fd)`
abbrev pub close : ℕ → ℕ
close fds = fds - 1

-- An error or none, and the descriptors that are then open.
unfoldable pub bind_interface : CaptureCalls → String → ℕ → Option CaptureError × ℕ
bind_interface calls interface fds =
    if blank interface
    then (none, fds)
    else if not calls.name_ok
    then (some bad_name, fds)
    else if calls.ifindex == 0
    then (some interface_not_found, close fds)
    else if not calls.binds
    then (some os_error, close fds)
    else (none, fds)

unfoldable pub open_socket : CaptureCalls → String → ℕ → Option CaptureError × ℕ
unfolding bind_interface
open_socket calls interface fds =
    if not calls.opens
    then (some (if calls.permitted then os_error else permission_denied), fds)
    else if not calls.attaches
    then (some os_error, close (suc fds))
    else bind_interface calls interface (suc fds)

module _ (k : Kernel) (st : Store) (ch : Channel ShredEvent) where
  open k use {fill, fill_control}

  -- `recv_with_timestamp`, or the clock after `recv`.
  unfoldable pub receive_time : ClockAnchor → Bool → Datagram → Instant → Instant
  receive_time anchor kernel_ts_enabled d now =
      if kernel_ts_enabled
      then stamp k anchor now (fill_control d.messages cmsg_buf_size).0
      else now

  unfoldable pub receive_loop :
      ClockAnchor
      → Bool
      → List PcapRoute
      → List Reception
      → Bytes
      → Capture st ch
      → Exec (Capture st ch)
  unfolding receive_time
  receive_loop anchor on routes [] buf s = ok s
  receive_loop anchor on routes (got d now ∷ rest) buf s = do
    let written = fill d.bytes buf
    frame ← slice written.0 0 written.1
    s' ← on_frame st ch routes (frame, receive_time anchor on d now) s
    receive_loop anchor on routes rest written.0 s'
  receive_loop anchor on routes (nothing ∷ rest) buf s = receive_loop anchor on routes rest buf s

  pub record Process : Type 0 where
    pub error : Option CaptureError
    pub open_fds : ℕ
    pub capture : Capture st ch

  -- The loop, unless the set-up fails.
  unfoldable pub after_open :
      ClockAnchor
      → Bool
      → List PcapRoute
      → List Reception
      → Capture st ch
      → Option CaptureError × ℕ
      → Exec Process
  unfolding receive_loop
  after_open anchor on routes rs s (some e, fds) =
      ok (record { error = some e; open_fds = fds; capture = s })
  after_open anchor on routes rs s (none, fds) = do
    s' ← receive_loop anchor on routes rs (replicate frame_buf_size 0) s
    ok (record { error = none; open_fds = close fds; capture = s' })

  -- The whole of `capture_loop`.
  unfoldable pub run_capture :
      ClockAnchor
      → CaptureCalls
      → String
      → List PcapRoute
      → List Reception
      → Capture st ch
      → ℕ
      → Exec Process
  unfolding open_socket after_open
  run_capture anchor calls interface routes rs s fds =
      after_open anchor calls.kernel_timestamps routes rs s (open_socket calls interface fds)
