-- ===== src/Jito/Auth/Fresh.antt =====
-- src/sources/jito.rs:350-427: the access tokens that the heartbeats carry.
use Prim.Native.String.{String}
use orbshred.Prelude.{◌≡◌, false, Option, some}
use orbshred.Exec.{Bytes}
use orbshred.Jito.Auth.{
  DateTime, TokenPair, Token, AuthService, Crates, expires_soon, proto_ts_to_datetime,
}

module _ (crates : Crates) where
  -- The token lasts a minute or more.
  abbrev Lasts : DateTime → Token → Type 0
  Lasts now t = expires_soon (proto_ts_to_datetime crates t.expires_at_utc) now ≡ false

  -- The service answers every request that it gets at the time, and its access tokens last.
  pub record Serves (now : DateTime) (s : AuthService) : Type 0 where
    pub challenges : (key : Bytes) → (c : String) × (s.generate_auth_challenge key ≡ some c)
    pub grants :
        (c : String) (key signature : Bytes)
        → (access refresh : Token) × (s.generate_auth_tokens c key signature
            ≡ some (record { access_token = some access; refresh_token = some refresh }))
          × Lasts now access
    pub refreshes :
        (token : String)
        → (access : Token) × (s.refresh_access_token token ≡ some (some access)) × Lasts now access

  abbrev LastsPair : DateTime → TokenPair → Type 0
  LastsPair now p = expires_soon p.access_expires_at now ≡ false

  -- A refresh gives a pair that lasts.
  abbrev Renewed : DateTime → Option TokenPair → Type 0
  Renewed now o = (p : TokenPair) × (o ≡ some p) × LastsPair now p
