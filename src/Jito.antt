-- ===== src/Jito.antt =====
-- src/sources/jito.rs: the Jito source. Each mode that is configured runs on its own: `run` says which
-- ones, and the other definitions what each does. An address is a string of the configuration;
-- `codes` gives its characters.
pub mod Auth
pub mod Entries
pub mod Port
pub mod Accounts
use Prim.Native.String.{String}
use orbshred.Prelude.{Bool, not, Option, none, some, List, [], ◌∷◌, ◌++◌, if◌then◌else◌, ℕ}
use orbshred.Prelude.Int.{ℤ}
use orbshred.Prelude.Text.{blank}
use orbshred.Exec.{Exec, ok, Bytes}
use orbshred.Channel.{Channel}
use orbshred.Registry.{SourceId, ShredEvent, Store}
use orbshred.Config.{JitoConfig}
use orbshred.Setup.{◌>>=◌}
use orbshred.KernelTs.{ClockAnchor, Kernel}
use orbshred.Receive.{Socket, recv_loop}
use orbshred.Receive.Listener.{Listener, on_datagram}
use orbshred.RawUdp.{UdpCalls}
use orbshred.Jito.Auth.{
  Crates, AuthService, Round, Beat, load_keypair, authenticate, heartbeat_loop,
}
use orbshred.Jito.Port.{port_from_addr}

module _ (k : Kernel) (st : Store) (ch : Channel ShredEvent) where
  unfoldable pub udp_recv_loop :
      SourceId → ClockAnchor → Bool → Socket → Listener st ch → Exec (Listener st ch)
  udp_recv_loop src = recv_loop k (on_datagram st ch src)

  unfoldable pub udp_listener :
      SourceId → ClockAnchor → UdpCalls → Socket → Listener st ch → Exec (Listener st ch)
  unfolding udp_recv_loop
  udp_listener src anchor calls sock s =
      if calls.binds then udp_recv_loop src anchor calls.kernel_timestamps sock s else ok s

-- The tasks that `run` spawns.
pub data Mode : Type 0 where
  direct_mode : Mode
  proxy_udp proxy_entries : String → Mode

unfoldable pub run : JitoConfig → List Mode
run cfg =
    (if not (blank cfg.block_engine_url) then direct_mode ∷ [] else [])
    ++ (if not (blank cfg.proxy_udp_addr) then proxy_udp cfg.proxy_udp_addr ∷ [] else [])
    ++ (if not (blank cfg.proxy_grpc_addr) then proxy_entries cfg.proxy_grpc_addr ∷ [] else [])

-- Where the block engine sends the shreds.
pub record HeartbeatSocket : Type 0 where
  pub ip : String
  pub port : ℤ

module _ (crates : Crates) (codes : String → List ℕ) where
  -- What the direct mode starts and sends: the address that it listens on, if it has one, and the
  -- heartbeats with their socket and regions.
  pub record Direct : Type 0 where
    pub listens_on : Option String
    pub socket : HeartbeatSocket
    pub desired_regions : List String
    pub beats : List (Beat crates)

  unfoldable pub run_direct_mode :
      JitoConfig → Option Bytes → Bool → AuthService → List (Round crates) → Option Direct
  run_direct_mode cfg keypair_file connects service rounds = do
    keypair ← load_keypair keypair_file
    tokens ← if connects then authenticate crates service keypair else none
    some (record {
      listens_on = if not (blank cfg.udp_bind_addr) then some cfg.udp_bind_addr else none;
      socket = record { ip = cfg.public_ip; port = port_from_addr (codes cfg.udp_bind_addr) };
      desired_regions = cfg.desired_regions;
      beats = heartbeat_loop crates keypair rounds tokens;
    })
