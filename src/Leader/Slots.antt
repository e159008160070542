-- ===== src/Leader/Slots.antt =====
-- src/leader.rs: what a successful fetch returns.
use orbshred.Prelude.{
  ℕ, ◌+◌, ◌-◌, ◌%◌, ◌^◌, ◌≤◌, ◌<◌, ◌≡◌, refl, ◌⊎◌, inl, inr, Bool, true, false, Option, none, some,
  List, [], ◌∷◌, map, arith, ltb, All, Bool-cases, sym, subst, ap, ◌∙◌,
}
use orbshred.Leader.{
  RpcResponse, error, Reply, unreachable, unreadable, reply, schedule_reply, epoch_reply, Schedule,
  EpochInfo, LeaderError, slots, slot_indices, any_after, leader_slots, epoch_slots, some_indices,
  schedule_indices, with_indices, fetch_leader_slots,
}

-- Some slot of the list lies ahead.
abbrev pub Ahead : ℕ → List ℕ → Type 0
Ahead now [] = ⊥
Ahead now (s ∷ l) = (now < s) ⊎ Ahead now l

any_after-Ahead : (now : ℕ) (l : List ℕ) → any_after now l ≡ true → Ahead now l
unfolding any_after
any_after-Ahead now [] h = cc
any_after-Ahead now (s ∷ l) h = elim (Bool-cases (ltb now s)) [
  | inl later ↦ inl (ground (arith, later))
  | inr past ↦ inr (any_after-Ahead now l (ground (arith, past, h)))
]

slots_same : (a b : List ℕ) → slots a ≡ slots b → a ≡ b
slots_same a b h = ap (λ r. elim r [ slots l ↦ l | error e ↦ a ]) h

-- The slots of the indices, counted from the first slot of the epoch as the code computes it.
abbrev pub counted_from : ℕ → ℕ → List ℕ → List ℕ
counted_from absolute index indices =
    map (λ i. ((absolute + 2 ^ 64 - index) % 2 ^ 64 + i) % 2 ^ 64) indices

-- When neither the subtraction nor an addition overflows, a counted slot is the index after the
-- absolute slot less its index in the epoch.
counted_one :
    (absolute index i : ℕ)
    → index ≤ absolute
    → absolute + i < 2 ^ 64
    → ((absolute + 2 ^ 64 - index) % 2 ^ 64 + i) % 2 ^ 64 ≡ absolute - index + i
counted_one absolute index i le fits =
    let first : (absolute + 2 ^ 64 - index) % 2 ^ 64 ≡ absolute - index = omega arith in
    rw first (omega arith)

-- Without an overflow the slots are counted from the absolute slot less its index in the epoch.
counted_from-exact :
    (absolute index : ℕ) (is : List ℕ)
    → index ≤ absolute
    → All (λ i. absolute + i < 2 ^ 64) is
    → counted_from absolute index is ≡ map (λ i. absolute - index + i) is
counted_from-exact absolute index [] le fits = refl
counted_from-exact absolute index (i ∷ is) le fits =
    rw (counted_one absolute index i le fits.0, counted_from-exact absolute index is le fits.1)

-- If the slots are returned, they are the schedule's indices counted from the epoch's first slot, and
-- one of them is still ahead of the current slot.
pub leader_slots-Ahead :
    (indices : List ℕ) (absolute index : ℕ) (l : List ℕ)
    → leader_slots indices absolute index ≡ slots l
    → (l ≡ counted_from absolute index indices) × Ahead absolute l
unfolding leader_slots
leader_slots-Ahead indices absolute index l h =
    let all = counted_from absolute index indices in
    elim (Bool-cases (any_after absolute all)) [
      | inl ahead ↦
          let same : all ≡ l = slots_same all l (rw ahead at h) in
          (sym same, subst (Ahead absolute) same (any_after-Ahead absolute all ahead))
      | inr behind ↦ absurd (cc (rw behind at h))
    ]

some_indices-same : (l is : List ℕ) → some_indices l ≡ inr is → l ≡ is
unfolding some_indices
some_indices-same [] is h = absurd (cc h)
some_indices-same (n ∷ l) is h = ground (arith, h)

schedule_indices-from :
    (failed : Bool) (o : Option Schedule) (is : List ℕ)
    → schedule_indices (record { failed = failed; result = o }) ≡ inr is
    → (s : Schedule) × (failed ≡ false) × (o ≡ some s) × (slot_indices s ≡ is)
unfolding schedule_indices
schedule_indices-from true o is h = absurd (cc h)
schedule_indices-from false none is h = absurd (cc h)
schedule_indices-from false (some s) is h = elim (Bool-cases s.is_object) [
  | inl object ↦ (s, refl, refl, some_indices-same (slot_indices s) is (rw object at h))
  | inr other ↦ absurd (cc (rw other at h))
]

epoch_slots-from :
    (indices : List ℕ) (absolute index : Option ℕ) (l : List ℕ)
    → epoch_slots indices (record { absolute_slot = absolute; slot_index = index }) ≡ slots l
    → (a : ℕ) × (i : ℕ) × (absolute ≡ some a)
      × (index ≡ some i)
      × (leader_slots indices a i ≡ slots l)
unfolding epoch_slots
epoch_slots-from indices none index l h = absurd (cc h)
epoch_slots-from indices (some a) none l h = absurd (cc h)
epoch_slots-from indices (some a) (some i) l h = (a, i, refl, refl, h)

with_indices-from :
    (r : LeaderError ⊎ List ℕ) (failed : Bool) (o : Option EpochInfo) (l : List ℕ)
    → with_indices r (record { failed = failed; result = o }) ≡ slots l
    → (is : List ℕ) × (e : EpochInfo) × (r ≡ inr is)
      × (failed ≡ false)
      × (o ≡ some e)
      × (epoch_slots is e ≡ slots l)
unfolding with_indices
with_indices-from (inl x) failed o l h = absurd (cc h)
with_indices-from (inr is) true o l h = absurd (cc h)
with_indices-from (inr is) false none l h = absurd (cc h)
with_indices-from (inr is) false (some e) l h = (is, e, refl, refl, refl, h)

answer_eq :
    {R : Type 0} (failed : Bool) (o : Option R) (x : R)
    → failed ≡ false
    → o ≡ some x
    → ◌≡◌ {A = RpcResponse R}
        (record { failed = failed; result = o })
        (record { failed = false; result = some x })
answer_eq failed o x h k = rw (h, k) refl

abbrev pub info : Option ℕ → Option ℕ → EpochInfo
info a i = record { absolute_slot = a; slot_index = i }

schedule_reply-from :
    (q : Reply Schedule) (is : List ℕ)
    → schedule_reply q ≡ inr is
    → (r : RpcResponse Schedule) × (q ≡ reply r) × (schedule_indices r ≡ inr is)
unfolding schedule_reply
schedule_reply-from unreachable is h = absurd (cc h)
schedule_reply-from unreadable is h = absurd (cc h)
schedule_reply-from (reply r) is h = (r, refl, h)

epoch_reply-from :
    (x : LeaderError ⊎ List ℕ) (q : Reply EpochInfo) (l : List ℕ)
    → epoch_reply x q ≡ slots l
    → (r : RpcResponse EpochInfo) × (q ≡ reply r) × (with_indices x r ≡ slots l)
unfolding epoch_reply
epoch_reply-from (inl e) q l h = absurd (cc h)
epoch_reply-from (inr is) unreachable l h = absurd (cc h)
epoch_reply-from (inr is) unreadable l h = absurd (cc h)
epoch_reply-from (inr is) (reply r) l h = (r, refl, h)

-- If the fetch succeeds, both requests brought an answer without an error and complete, the slots are
-- the schedule's indices counted from the epoch's first slot, that is, from the current slot less its
-- index in the epoch, all modulo 2^64 and without the remainder where nothing overflows, and one of
-- the slots lies ahead of the current one.
pub fetch_leader_slots-Ahead :
    (schedule : Reply Schedule) (epoch : Reply EpochInfo) (l : List ℕ)
    → fetch_leader_slots schedule epoch ≡ slots l
    → (s : Schedule) × (absolute : ℕ) × (index : ℕ) × (schedule
        ≡ reply (record { failed = false; result = some s }))
      × (epoch
          ≡ reply (record { failed = false; result = some (info (some absolute) (some index)) }))
      × (l ≡ map (λ i. ((absolute + 2 ^ 64 - index) % 2 ^ 64 + i) % 2 ^ 64) (slot_indices s))
      × (index ≤ absolute
          → All (λ i. absolute + i < 2 ^ 64) (slot_indices s)
          → l ≡ map (λ i. absolute - index + i) (slot_indices s))
      × Ahead absolute l
unfolding fetch_leader_slots
fetch_leader_slots-Ahead schedule epoch l h =
    let (er, eq, eh) = epoch_reply-from (schedule_reply schedule) epoch l h in
    let (is, e, got, clean, answer, done) =
      with_indices-from (schedule_reply schedule) er.failed er.result l eh in
    let (sr, sq, sh) = schedule_reply-from schedule is got in
    let (s, fine, found, same) = schedule_indices-from sr.failed sr.result is sh in
    let (a, i, ea, ei, last) = epoch_slots-from is e.absolute_slot e.slot_index l done in
    let (all, ahead) = leader_slots-Ahead is a i l last in
    (
      s,
      a,
      i,
      sq ∙ ap (λ x. reply x) (answer_eq sr.failed sr.result s fine found),
      eq
          ∙ ap (λ x. reply x)
              (answer_eq er.failed er.result (info (some a) (some i)) clean (
                answer
                ∙ (ap (λ x. some (info x e.slot_index)) ea ∙ ap (λ y. some (info (some a) y)) ei))),
      subst (λ js. l ≡ counted_from a i js) (sym same) all,
      (λ le fits.
          subst (λ js. l ≡ counted_from a i js) (sym same) all
          ∙ counted_from-exact a i (slot_indices s) le fits),
      ahead,
    )
