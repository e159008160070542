-- ===== src/Examples/Blocks.antt =====
-- A concrete block engine and proxy for src/sources/jito.rs.
use orbshred.Prelude.{some, none, List, [], ◌∷◌}
use orbshred.Prelude.Int.{pos, ◌+ℤ◌, ◌*ℤ◌}
use orbshred.Channel.{Channel, bounded}
use orbshred.Registry.{SlotEvent}
use orbshred.Jito.Auth.{TokenPair, Token, AuthService, Crates, Round}
use orbshred.Jito.Entries.{entry_msg, entry_error, entry_end, Session, refused, opened, SlotSender}
use orbshred.Examples.Records.{store}

abbrev crates : Crates
crates = record {
  base58 = λ key. "key";
  sign = λ key text. [];
  timestamp_opt = λ s n. some (s *ℤ pos 1000000000 +ℤ pos n);
}

abbrev token : Token
token = record { value = "token"; expires_at_utc = some (record { seconds = pos 1000; nanos = 0 }) }

abbrev service : AuthService
service = record {
  generate_auth_challenge = λ key. some "challenge";
  generate_auth_tokens =
      λ c key signature. some (record { access_token = some token; refresh_token = some token });
  refresh_access_token = λ t. some (some token);
}

-- Tokens that have expired already.
abbrev expired : TokenPair
expired = record {
  access_token = "old";
  access_expires_at = pos 0;
  refresh_token = "old";
  refresh_expires_at = pos 0;
}

abbrev round : Round crates
round = record {
  now = pos 10000000000;
  refresh_now = pos 10000000001;
  service = service;
  answer = none;
}

abbrev slots : Channel SlotEvent
slots = bounded 1

-- A connection that is refused, one that breaks, and one that ends.
abbrev sessions : List Session
sessions =
    refused
    ∷ opened (entry_msg 7 20 ∷ entry_error ∷ [])
    ∷ opened (entry_msg 8 30 ∷ entry_msg 9 40 ∷ entry_end ∷ [])
    ∷ []

abbrev sender : SlotSender store slots
sender = record { tx = []; drops = [] }
