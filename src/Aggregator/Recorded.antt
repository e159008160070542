-- ===== src/Aggregator/Recorded.antt =====
-- src/main.rs:347-439: which messages reach the registry.
use orbshred.Prelude.{ℕ, ◌≤◌, ◌≡◌, true, List, All}
use orbshred.Registry.{Instant, Store, Registry, RegistryOp, shred, slot, grpc, after}
use orbshred.Aggregator.{Run, leads}

-- The slot lies in the configured range and is one of the leader's, if a leader is set.
abbrev pub InRange : Run → ℕ → Type 0
InRange c n = (c.start_slot ≤ n) × (n ≤ c.end_slot) × (leads c n ≡ true)

abbrev pub Admitted : Run → RegistryOp → Type 0
Admitted c (shred e) = InRange c e.key.slot
Admitted c (slot e) = InRange c e.slot
Admitted c (grpc e) = Unit {0}

module _ (st : Store) (c : Run) (t : Instant) where
  -- The registry is that of a history of admitted calls.
  abbrev Logged : Registry st → Type 0
  Logged r = (ops : List RegistryOp) × (r ≡ after st t ops) × All (Admitted c) ops
