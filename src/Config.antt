-- ===== src/Config.antt =====
-- src/config.rs: the configuration as the program reads it. `serde` fills the fields; `enabled` and
-- `silence_timeout_secs` have the defaults below, all others the empty value of their type.
use Prim.Native.String.{String}
use orbshred.Prelude.{ℕ, Bool, true, Option, List}

abbrev pub default_silence_timeout : ℕ
default_silence_timeout = 30

abbrev pub default_true : Bool
default_true = true

pub record PcapConfig : Type 0 where
  pub name : String
  pub enabled : Bool
  pub port : ℕ
  pub interface : String
  pub recv_buf_size : ℕ
  pub source_ips : List String
  pub exclude_ips : List String
  pub pin_cpu : Option ℕ

pub record RawUdpConfig : Type 0 where
  pub name : String
  pub enabled : Bool
  pub bind_addr : String
  pub recv_buf_size : ℕ
  pub pin_cpu : Option ℕ

pub record JitoConfig : Type 0 where
  pub name : String
  pub enabled : Bool
  pub block_engine_url : String
  pub auth_keypair_path : String
  pub desired_regions : List String
  pub public_ip : String
  pub udp_bind_addr : String
  pub proxy_udp_addr : String
  pub proxy_grpc_addr : String
  pub pin_cpu : Option ℕ

pub record DoubleZeroConfig : Type 0 where
  pub name : String
  pub enabled : Bool
  pub multicast_group : String
  pub port : ℕ
  pub interface : String
  pub pin_cpu : Option ℕ

pub record YellowstoneConfig : Type 0 where
  pub name : String
  pub enabled : Bool
  pub endpoint : String
  pub x_token : String
  pub account_pubkey : String
  pub account_name : String

pub record OutputConfig : Type 0 where
  pub log_file : String

pub record SourcesConfig : Type 0 where
  pub raw_udp : List RawUdpConfig
  pub jito : List JitoConfig
  pub doublezero : List DoubleZeroConfig
  pub yellowstone : List YellowstoneConfig
  pub pcap : List PcapConfig

pub record Config : Type 0 where
  pub duration_secs : ℕ
  pub start_slot : Option ℕ
  pub end_slot : Option ℕ
  pub silence_timeout_secs : ℕ
  pub leader_pubkey : String
  pub rpc_url : String
  pub sources : SourcesConfig
  pub output : OutputConfig
