-- ===== src/Channel.antt =====
-- The bounded channels of the `tokio` crate, as the program uses them: `try_send` puts an event at
-- the queue's end or refuses it, the latter only where as many events wait as the channel holds, and
-- `recv` takes the first one; a new channel is empty. `bounded` shows that the interface can be met.
use orbshred.Prelude.{
  ℕ, ◌≡◌, refl, Option, none, some, List, [], ◌∷◌, ◌++◌, length, ltb, if◌then◌else◌, arith, ◌≤◌,
}

pub record Channel (E : Type 0) : Type 1 where
  pub Queue : Type 0
  -- what `mpsc::channel` is given
  pub capacity : ℕ
  pub try_send : E → Queue → Option Queue
  pub recv : Queue → Option (E × Queue)
  pub empty : Queue
  pub pending : Queue → List E
  pub pending-empty : pending empty ≡ []
  pub pending-try_send :
      (e : E) (q q' : Queue) → try_send e q ≡ some q' → pending q' ≡ pending q ++ (e ∷ [])
  pub try_send-full : (e : E) (q : Queue) → try_send e q ≡ none → capacity ≤ length (pending q)
  pub pending-recv : (e : E) (q q' : Queue) → recv q ≡ some (e, q') → pending q ≡ e ∷ pending q'
  pub recv_none : (q : Queue) → recv q ≡ none → pending q ≡ []

-- The first event and the others.
abbrev pub first_of : {E : Type 0} → List E → Option (E × List E)
first_of [] = none
first_of (e ∷ es) = some (e, es)

pub first_of_law : {E : Type 0} (e : E) (q q' : List E) → first_of q ≡ some (e, q') → q ≡ e ∷ q'
first_of_law e [] q' h = cc
first_of_law e (x ∷ q) q' h = ground (arith, h)

pub first_of-none : {E : Type 0} (q : List E) → first_of q ≡ none → q ≡ []
first_of-none [] h = refl
first_of-none (x ∷ q) h = ground (arith, h)

pub bounded_law :
    {E : Type 0} (n : ℕ) (e : E) (q q' : List E)
    → (if ltb (length q) n then some (q ++ (e ∷ [])) else none) ≡ some q'
    → q' ≡ q ++ (e ∷ [])
bounded_law n e q q' h = ground (arith, h)

pub bounded_full :
    {E : Type 0} (n : ℕ) (e : E) (q : List E)
    → (if ltb (length q) n then some (q ++ (e ∷ [])) else none) ≡ none
    → n ≤ length q
bounded_full n e q h = ground (arith, h)

-- At most `n` events wait.
abbrev pub bounded : {E : Type 0} → ℕ → Channel E
bounded {E} n = record {
  Queue = List E;
  capacity = n;
  try_send = λ e q. if ltb (length q) n then some (q ++ (e ∷ [])) else none;
  recv = first_of;
  empty = [];
  pending = λ q. q;
  pending-empty = refl;
  pending-try_send = bounded_law n;
  try_send-full = bounded_full n;
  pending-recv = first_of_law;
  recv_none = first_of-none;
}
