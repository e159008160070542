-- ===== src/Reconnect.antt =====
-- src/sources/yellowstone.rs:36-51 and src/sources/jito.rs:105-118: a source connects again after an
-- error and stops when a connection ends in order. The list holds the connections that begin before
-- the token is cancelled, in the loop's test or during the pause.
use orbshred.Prelude.{List, [], ◌∷◌}
use orbshred.Yellowstone.{Ended, finished, failed}

-- Whether the source stops with what it has or goes on.
unfoldable pub on_end : {A : Type 0} → Ended → A → A → A
on_end finished stop again = stop
on_end failed stop again = again

module _ {A S : Type 0} (connect : A → S → S × Ended) where
  unfoldable pub reconnect : List A → S → S
  unfolding on_end
  reconnect [] s = s
  reconnect (a ∷ rest) s =
      let r = connect a s in let again = reconnect rest r.0 in on_end r.1 r.0 again
