-- ===== src/Leader.antt =====
-- src/leader.rs: the leader's slots, computed from the two answers of the RPC node. A request
-- can fail or bring no JSON; an answer is what is left of its JSON behind the accessors that the code
-- calls.
pub mod Slots
use orbshred.Prelude.{
  ℕ, ◌+◌, ◌-◌, ◌%◌, ◌^◌, ◌≤◌, ◌<◌, ◌≡◌, refl, ◌⊎◌, inl, inr, Bool, true, false, Option, none, some,
  List, [], ◌∷◌, map, arith, ltb, if◌then◌else◌, All, Bool-cases, sym, subst, ap, ◌∙◌,
}

-- `error`, and `result` where it is present.
pub record RpcResponse (R : Type 0) : Type 0 where
  pub failed : Bool
  pub result : Option R

-- `result.as_object()` and in it the array under the validator's key, if there is one: an element is
-- what `as_u64` makes of it.
pub record Schedule : Type 0 where
  pub is_object : Bool
  pub indices : Option (List (Option ℕ))

pub record EpochInfo : Type 0 where
  pub absolute_slot : Option ℕ
  pub slot_index : Option ℕ

-- The errors of `bail!`, of `ok_or_else` and of the requests.
pub data LeaderError : Type 0 where
  connect_failed not_json epoch_failed epoch_not_json rpc_error no_result not_object no_leader_slots
        epoch_error no_epoch missing_slot all_past :
      LeaderError

pub data Fetched : Type 0 where
  slots : List ℕ → Fetched
  error : LeaderError → Fetched

unfoldable pub known : List (Option ℕ) → List ℕ
known [] = []
known (none ∷ l) = known l
known (some n ∷ l) = n ∷ known l

unfoldable pub slot_indices : Schedule → List ℕ
unfolding known
slot_indices s = elim s.indices [ none ↦ [] | some l ↦ known l ]

unfoldable pub any_after : ℕ → List ℕ → Bool
any_after now [] = false
any_after now (s ∷ l) = if ltb now s then true else any_after now l

-- From the epoch's numbers on, below 2^64 each; without overflow checks both operations wrap around.
unfoldable pub leader_slots : List ℕ → ℕ → ℕ → Fetched
unfolding any_after
leader_slots indices absolute index =
    let first = (absolute + 2 ^ 64 - index) % 2 ^ 64 in
    let all = map (λ i. (first + i) % 2 ^ 64) indices in
    if any_after absolute all then slots all else error all_past

unfoldable pub epoch_slots : List ℕ → EpochInfo → Fetched
unfolding leader_slots
epoch_slots indices e = elim e.absolute_slot [
  | none ↦ error missing_slot
  | some absolute ↦ elim e.slot_index [
    | none ↦ error missing_slot
    | some index ↦ leader_slots indices absolute index
  ]
]

unfoldable pub some_indices : List ℕ → LeaderError ⊎ List ℕ
some_indices [] = inl no_leader_slots
some_indices (n ∷ l) = inr (n ∷ l)

-- The first answer: the indices, or an error.
unfoldable pub schedule_indices : RpcResponse Schedule → LeaderError ⊎ List ℕ
unfolding slot_indices some_indices
schedule_indices r = if r.failed then inl rpc_error else elim r.result [
  | none ↦ inl no_result
  | some s ↦ if s.is_object then some_indices (slot_indices s) else inl not_object
]

-- The second answer.
unfoldable pub with_indices : LeaderError ⊎ List ℕ → RpcResponse EpochInfo → Fetched
unfolding epoch_slots
with_indices (inl e) epoch = error e
with_indices (inr indices) epoch =
    if epoch.failed
    then error epoch_error
    else elim epoch.result [ none ↦ error no_epoch | some e ↦ epoch_slots indices e ]

-- `send().await?.json().await?`
pub data Reply (R : Type 0) : Type 0 where
  unreachable : Reply R
  unreadable : Reply R
  reply : RpcResponse R → Reply R

unfoldable pub schedule_reply : Reply Schedule → LeaderError ⊎ List ℕ
unfolding schedule_indices
schedule_reply unreachable = inl connect_failed
schedule_reply unreadable = inl not_json
schedule_reply (reply r) = schedule_indices r

-- The second request is made only with indices at hand.
unfoldable pub epoch_reply : LeaderError ⊎ List ℕ → Reply EpochInfo → Fetched
unfolding with_indices
epoch_reply (inl e) epoch = error e
epoch_reply (inr indices) unreachable = error epoch_failed
epoch_reply (inr indices) unreadable = error epoch_not_json
epoch_reply (inr indices) (reply r) = with_indices (inr indices) r

unfoldable pub fetch_leader_slots : Reply Schedule → Reply EpochInfo → Fetched
unfolding schedule_reply epoch_reply
fetch_leader_slots schedule epoch = epoch_reply (schedule_reply schedule) epoch
