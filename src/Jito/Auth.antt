-- ===== src/Jito/Auth.antt =====
-- src/sources/jito.rs:38-43, 305-427 and 468-486: tokens and heartbeats of the block engine.
-- The service and the cryptography are parameters, and each round of the loop brings its answers. A
-- `DateTime` is a number of nanoseconds since the epoch.
pub mod Fresh
use Prim.Native.String.{String}
use orbshred.Prelude.{
  ℕ, ◌/◌, ◌%◌, ◌^◌, Bool, Option, none, some, List, [], ◌∷◌, ◌++◌, length, take, drop, max, ◌==◌,
  if◌then◌else◌,
}
use orbshred.Prelude.Text.{join}
use orbshred.Prelude.Int.{ℤ, pos, ◌-ℤ◌, ltb_ℤ}
use orbshred.Exec.{Bytes}
use orbshred.Setup.{◌>>=◌}

abbrev pub DateTime : Type 0
DateTime = ℤ

-- `chrono::Duration::seconds(60)`
abbrev pub refresh_margin : ℤ
refresh_margin = pos 60000000000

pub record TokenPair : Type 0 where
  pub access_token : String
  pub access_expires_at : DateTime
  pub refresh_token : String
  pub refresh_expires_at : DateTime

-- `prost_types::Timestamp`, with `nanos` already cast to `u32`.
pub record Timestamp : Type 0 where
  pub seconds : ℤ
  pub nanos : ℕ

-- The token messages of proto/jito/auth.proto.
pub record Token : Type 0 where
  pub value : String
  pub expires_at_utc : Option Timestamp

pub record TokensResponse : Type 0 where
  pub access_token : Option Token
  pub refresh_token : Option Token

-- What the service answers, or an error.
pub record AuthService : Type 0 where
  pub generate_auth_challenge : Bytes → Option String
  pub generate_auth_tokens : String → Bytes → Bytes → Option TokensResponse
  pub refresh_access_token : String → Option (Option Token)

-- Base 58, Ed25519 and `timestamp_opt`, of other crates.
pub record Crates : Type 0 where
  pub base58 : Bytes → String
  pub sign : Bytes → String → Bytes
  pub timestamp_opt : ℤ → ℕ → Option DateTime

unfoldable pub or_default : Option DateTime → DateTime
or_default none = pos 0
or_default (some t) = t

-- `load_keypair` on the bytes of the file, if it can be read and is a list of bytes.
unfoldable pub load_keypair : Option Bytes → Option Bytes
load_keypair file = do bytes ← file; if length bytes == 64 then some bytes else none

-- `expires_at - Utc::now() < 60 s`
unfoldable pub expires_soon : DateTime → DateTime → Bool
expires_soon expires_at now = ltb_ℤ (expires_at -ℤ now) refresh_margin

-- The wait after a heartbeat, in milliseconds; an error counts as a time to live of 1000.
unfoldable pub ttl_ms : Option ℕ → ℕ
ttl_ms none = 1000
ttl_ms (some ttl) = ttl

unfoldable pub heartbeat_wait : ℕ → ℕ
heartbeat_wait ttl = max (ttl / 2) 500

module _ (crates : Crates) where
  open crates use {base58, sign, timestamp_opt}

  unfoldable pub proto_ts_to_datetime : Option Timestamp → DateTime
  unfolding or_default
  proto_ts_to_datetime ts = or_default (do t ← ts; timestamp_opt t.seconds t.nanos)

  unfoldable pub full_challenge : Bytes → String → String
  full_challenge pubkey server_challenge = join (base58 pubkey) (join "-" server_challenge)

  unfoldable pub authenticate : AuthService → Bytes → Option TokenPair
  unfolding proto_ts_to_datetime full_challenge take drop
  authenticate service keypair = do
    let pubkey = drop 32 keypair
    server_challenge ← service.generate_auth_challenge pubkey
    let challenge = full_challenge pubkey server_challenge
    let signature = sign (take 32 keypair) challenge
    resp ← service.generate_auth_tokens challenge pubkey signature
    access ← resp.access_token
    refresh ← resp.refresh_token
    some (record {
      access_token = access.value;
      access_expires_at = proto_ts_to_datetime access.expires_at_utc;
      refresh_token = refresh.value;
      refresh_expires_at = proto_ts_to_datetime refresh.expires_at_utc;
    })

  -- `refresh_access_token` and the pair that it gives.
  unfoldable pub refresh_access : AuthService → TokenPair → Option TokenPair
  unfolding proto_ts_to_datetime
  refresh_access service tokens = do
    resp ← service.refresh_access_token tokens.refresh_token
    access ← resp
    some (record tokens {
      access_token = access.value;
      access_expires_at = proto_ts_to_datetime access.expires_at_utc;
    })

  unfoldable pub try_refresh : AuthService → DateTime → TokenPair → Bytes → Option TokenPair
  unfolding authenticate refresh_access expires_soon
  try_refresh service now tokens keypair =
      if expires_soon tokens.refresh_expires_at now
      then authenticate service keypair
      else refresh_access service tokens

  -- One round: the clock at both checks, the service's answers, and the heartbeat's.
  pub record Round : Type 0 where
    pub now : DateTime
    pub refresh_now : DateTime
    pub service : AuthService
    pub answer : Option ℕ

  -- A heartbeat as it was sent: when the expiry was checked last before it, the tokens of the client,
  -- the text of its header and the wait after it.
  pub record Beat : Type 0 where
    pub checked_at : DateTime
    pub tokens : TokenPair
    pub bearer : String
    pub wait_ms : ℕ

  unfoldable pub keep_or : TokenPair → Option TokenPair → TokenPair
  keep_or tokens none = tokens
  keep_or tokens (some new_tokens) = new_tokens

  -- The tokens after the check of their expiry.
  unfoldable pub checked_tokens : Bytes → Round → TokenPair → TokenPair
  unfolding try_refresh keep_or expires_soon
  checked_tokens keypair r tokens =
      if expires_soon tokens.access_expires_at r.now
      then keep_or tokens (try_refresh r.service r.refresh_now tokens keypair)
      else tokens

  -- The rounds until the token is cancelled, and the heartbeats that they send.
  unfoldable pub heartbeat_loop : Bytes → List Round → TokenPair → List Beat
  unfolding checked_tokens ttl_ms heartbeat_wait
  heartbeat_loop keypair [] tokens = []
  heartbeat_loop keypair (r ∷ rs) tokens =
      let tokens' = checked_tokens keypair r tokens in
      record {
        checked_at = r.now;
        tokens = tokens';
        bearer = join "Bearer " tokens'.access_token;
        wait_ms = heartbeat_wait (ttl_ms r.answer);
      }
      ∷ heartbeat_loop keypair rs tokens'
