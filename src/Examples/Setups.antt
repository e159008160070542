-- ===== src/Examples/Setups.antt =====
-- A concrete configuration for src/main.rs: a raw UDP source that is switched off, one that is not,
-- and a Yellowstone source with an account.
use Prim.Native.String.{String}
use orbshred.Prelude.{ℕ, ◌≡◌, refl, Bool, true, false, none, some, [], ◌∷◌}
use orbshred.Config.{RawUdpConfig, YellowstoneConfig, SourcesConfig}
use orbshred.Setup.{
  Started, raw_udp_run, yellowstone_run, Setup, no_sources, start_raw_udp, start_yellowstone,
  start_sources,
}

abbrev udp : Bool → RawUdpConfig
udp on = record {
  name = "";
  enabled = on;
  bind_addr = "0.0.0.0:8001";
  recv_buf_size = 0;
  pin_cpu = none;
}

abbrev geyser : YellowstoneConfig
geyser = record {
  name = "Geyser";
  enabled = true;
  endpoint = "http://localhost:10000";
  x_token = "";
  account_pubkey = "key";
  account_name = "";
}

abbrev pub config : SourcesConfig
config = record {
  raw_udp = udp false ∷ udp true ∷ [];
  jito = [];
  doublezero = [];
  yellowstone = geyser ∷ [];
  pcap = [];
}

-- A decimal printer for one digit is enough here.
abbrev pub shown : ℕ → String
shown n = "1"

abbrev pub starts : Started → Bool
starts r = true

abbrev pub running : Setup
running = record {
  next_id = 3;
  active_shred_sources = (0, "Raw UDP") ∷ [];
  active_entry_sources = (2, "Geyser (account)") ∷ (1, "Geyser") ∷ [];
  source_names = (0, "Raw UDP") ∷ (2, "Geyser (account)") ∷ (1, "Geyser") ∷ [];
  started = raw_udp_run (udp true) 0 ∷ yellowstone_run geyser 1 (some 2) ∷ [];
}

running_run : start_sources shown starts config no_sources ≡ some running
unfolding start_sources start_raw_udp start_yellowstone
running_run = refl
