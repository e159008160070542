-- ===== src/Yellowstone/Entries.antt =====
-- src/sources/yellowstone.rs: what the entry map holds, and which entry is an update's baseline.
use orbshred.Prelude.{
  ℕ, ◌+◌, ◌-◌, ◌≡◌, refl, sym, ap, ◌∙◌, Bool, true, false, Option, none, some, List, [], ◌∷◌, ◌++◌,
  arith, leb, ◌==◌, if◌then◌else◌, max, Bool-cases, inl, inr, ==_iff,
}
use orbshred.Channel.{Channel}
use orbshred.DashMap.{modify_or, lookup_by, upsert_by, lookup_by-upsert_by}
use orbshred.Registry.{SourceId, Instant, same_id, SlotEvent, GrpcLatencyEvent, Store, DropCounters}
use orbshred.Yellowstone.{
  EntryRecord, Update, slot_update, entry_update, account_update, other_update, Message, update_msg,
  error_msg, end_msg, EntryMap, retain, add_entry, Stream, start_stream, after_slot_send, send_slot,
  after_grpc_send, send_grpc, sample_overhead, on_account, on_update, stream_loop,
}

abbrev pub Updates : Type 0
Updates = List (Update × Instant)

-- The updates before the stream's end, newest first, on top of older ones.
unfoldable pub received : List Message → Updates → Updates
received [] h = h
received (update_msg u t ∷ ms) h = received ms ((u, t) ∷ h)
received (error_msg ∷ ms) h = h
received (end_msg ∷ ms) h = h

-- The entries of a slot, oldest first.
unfoldable pub entries_of : ℕ → Updates → List EntryRecord
entries_of k [] = []
entries_of k ((entry_update slot start count, t) ∷ h) =
    if slot == k
    then entries_of k h
      ++ (record { starting_tx_index = start; tx_count = count; received_at = t } ∷ [])
    else entries_of k h
entries_of k ((slot_update status slot, t) ∷ h) = entries_of k h
entries_of k ((account_update slot is_startup, t) ∷ h) = entries_of k h
entries_of k ((other_update, t) ∷ h) = entries_of k h

-- The highest slot of an entry.
unfoldable pub highest : Updates → ℕ
highest [] = 0
highest ((entry_update slot start count, t) ∷ h) = max (highest h) slot
highest ((slot_update status slot, t) ∷ h) = highest h
highest ((account_update slot is_startup, t) ∷ h) = highest h
highest ((other_update, t) ∷ h) = highest h

abbrev pub some_entries : List EntryRecord → Option (List EntryRecord)
some_entries [] = none
some_entries (e ∷ es) = some (e ∷ es)

some_entries-snoc :
    (e : EntryRecord) (es : List EntryRecord)
    → some (modify_or (λ l. l ++ (e ∷ [])) (e ∷ []) (some_entries es))
      ≡ some_entries (es ++ (e ∷ []))
some_entries-snoc e [] = refl
some_entries-snoc e (x ∷ xs) = refl

-- All entries of the slot if it is at most 300 below the highest one, and none otherwise.
unfoldable pub kept : ℕ → Updates → Option (List EntryRecord)
unfolding highest entries_of
kept k h = if leb (highest h) (k + 300) then some_entries (entries_of k h) else none

lookup_by-retain :
    (k bound : ℕ) (m : EntryMap)
    → lookup_by same_id k (retain bound m) ≡ (if leb bound k then lookup_by same_id k m else none)
unfolding retain
lookup_by-retain k bound [] = ground arith
lookup_by-retain k bound ((s, es) ∷ m) = ground (arith, lookup_by-retain k bound m)

lookup_by-add_entry :
    (k slot top : ℕ) (e : EntryRecord) (m : EntryMap)
    → lookup_by same_id k (add_entry slot e top m) ≡ (
        if leb top (k + 300)
        then lookup_by same_id k (upsert_by same_id slot (λ es. es ++ (e ∷ [])) (e ∷ []) m)
        else none)
unfolding add_entry
lookup_by-add_entry k slot top e m = ground (
  arith,
  lookup_by-retain k (top - 300) (upsert_by same_id slot (λ es. es ++ (e ∷ [])) (e ∷ []) m),
)

added_kept :
    (k slot top : ℕ) (e : EntryRecord) (old : ℕ → List EntryRecord) (m : EntryMap)
    → ((j : ℕ) → lookup_by same_id j m ≡ (if leb top (j + 300) then some_entries (old j) else none))
    → leb (max top slot) (k + 300) ≡ true
    → lookup_by same_id k (upsert_by same_id slot (λ es. es ++ (e ∷ [])) (e ∷ []) m)
      ≡ some_entries (if slot == k then old k ++ (e ∷ []) else old k)
added_kept k slot top e old m h fits =
    lookup_by-upsert_by same_id ==_iff slot k (λ es. es ++ (e ∷ [])) (e ∷ []) m
    ∙ elim (Bool-cases (slot == k)) [
      | inl hit ↦
          let same = (==_iff slot k).0 hit in
          let stored : lookup_by same_id k m ≡ some_entries (old k) = h k ∙ ground (arith, fits) in
          rw (hit, same, stored) (some_entries-snoc e (old k))
      | inr miss ↦ rw miss (h k ∙ ground (arith, fits))
    ]

Kept : Updates → ℕ → EntryMap → Type 0
Kept h top m = (top ≡ highest h) × ((k : ℕ) → lookup_by same_id k m ≡ kept k h)

add_entry-Kept :
    (h : Updates) (top : ℕ) (m : EntryMap) (slot start count : ℕ) (t : Instant)
    → Kept h top m
    → Kept ((entry_update slot start count, t) ∷ h) (max top slot) (
        add_entry slot
          (record { starting_tx_index = start; tx_count = count; received_at = t })
          (max top slot)
          m)
unfolding Kept kept highest entries_of
add_entry-Kept h top m slot start count t (same, each) =
    let e : EntryRecord = record { starting_tx_index = start; tx_count = count; received_at = t } in
    let each' : (j : ℕ)
        → lookup_by same_id j m
          ≡ (if leb top (j + 300) then some_entries (entries_of j h) else none) =
      λ j. rw same (each j) in
    (
      ap (λ n. max n slot) same,
      λ k.
          lookup_by-add_entry k slot (max top slot) e m
          ∙ (rw⁻¹ same (elim (Bool-cases (leb (max top slot) (k + 300))) [
            | inl fits ↦ rw fits (added_kept k slot top e (λ j. entries_of j h) m each' fits)
            | inr old ↦ rw old refl
          ])),
    )

module _ (st : Store) (slots : Channel SlotEvent) (grpc : Channel GrpcLatencyEvent) where
  -- The sends leave the map alone.
  abbrev SameEntries : Stream st slots grpc → Stream st slots grpc → Type 0
  SameEntries x y = (y.entry_map ≡ x.entry_map) × (y.max_slot_seen ≡ x.max_slot_seen)

  send_slot-SameEntries :
      (e : SlotEvent) (x : Stream st slots grpc) → SameEntries x (send_slot st slots grpc e x)
  unfolding send_slot after_slot_send
  send_slot-SameEntries e x = go (slots.try_send e x.tx)
    where
      go : (o : Option slots.Queue) → SameEntries x (after_slot_send st slots grpc e.source o x)
      go none = (refl, refl)
      go (some q) = (refl, refl)

  if_SameEntries :
      (b : Bool) (x y : Stream st slots grpc) → SameEntries x y → SameEntries x (if b then y else x)
  if_SameEntries true x y s = s
  if_SameEntries false x y s = (refl, refl)

  sample_overhead-SameEntries :
      (aid : SourceId) (t : Instant) (o : Option EntryRecord) (x : Stream st slots grpc)
      → SameEntries x (sample_overhead st slots grpc aid t o x)
  unfolding sample_overhead send_grpc after_grpc_send
  sample_overhead-SameEntries aid t none x = (refl, refl)
  sample_overhead-SameEntries aid t (some e) x = go (grpc.try_send _ x.grpc_tx)
    where
      go : (o : Option grpc.Queue) → SameEntries x (after_grpc_send st slots grpc aid o x)
      go none = (refl, refl)
      go (some q) = (refl, refl)

  on_account-SameEntries :
      (account : Option SourceId) (slot : ℕ) (t : Instant) (x : Stream st slots grpc)
      → SameEntries x (on_account st slots grpc account slot t x)
  unfolding on_account
  on_account-SameEntries none slot t x = (refl, refl)
  on_account-SameEntries (some aid) slot t x =
      let (m, n) =
        send_slot-SameEntries (record { source = aid; slot = slot; received_at = t }) x in
      let (m', n') = sample_overhead-SameEntries aid t _ _ in (m' ∙ m, n' ∙ n)

  Holds : Updates → Stream st slots grpc → Type 0
  Holds h x = Kept h x.max_slot_seen x.entry_map

  SameEntries-Holds :
      (h h' : Updates) (x y : Stream st slots grpc)
      → highest h' ≡ highest h
      → ((k : ℕ) → kept k h' ≡ kept k h)
      → SameEntries x y
      → Holds h x
      → Holds h' y
  unfolding Holds Kept
  SameEntries-Holds h h' x y top each (m, n) (same, holds) =
      (n ∙ same ∙ sym top, λ k. ap (lookup_by same_id k) m ∙ holds k ∙ sym (each k))

  on_update-Holds :
      (src : SourceId) (account : Option SourceId) (u : Update) (t : Instant) (h : Updates)
      (x : Stream st slots grpc)
      → Holds h x
      → Holds ((u, t) ∷ h) (on_update st slots grpc src account u t x)
  unfolding on_update Holds kept highest entries_of
  on_update-Holds src account (slot_update status slot) t h x k =
      let y = send_slot st slots grpc (record { source = src; slot = slot; received_at = t }) x in
      SameEntries-Holds h ((slot_update status slot, t) ∷ h) x (if status == 3 then y else x) refl
        (λ j. refl)
        (if_SameEntries (status == 3) x y
          (send_slot-SameEntries (record { source = src; slot = slot; received_at = t }) x))
        k
  on_update-Holds src account (entry_update slot start count) t h x k =
      add_entry-Kept h x.max_slot_seen x.entry_map slot start count t k
  on_update-Holds src account (account_update slot true) t h x k =
      SameEntries-Holds h _ x x refl (λ j. refl) (refl, refl) k
  on_update-Holds src account (account_update slot false) t h x k =
      SameEntries-Holds h ((account_update slot false, t) ∷ h) x
        (on_account st slots grpc account slot t x) refl (λ j. refl)
        (on_account-SameEntries account slot t x) k
  on_update-Holds src account other_update t h x k =
      SameEntries-Holds h _ x x refl (λ j. refl) (refl, refl) k

  stream_loop-Holds :
      (src : SourceId) (account : Option SourceId) (ms : List Message) (h : Updates)
      (x : Stream st slots grpc)
      → Holds h x
      → Holds (received ms h) (stream_loop st slots grpc src account ms x).0
  unfolding stream_loop received
  stream_loop-Holds src account [] h x k = k
  stream_loop-Holds src account (update_msg u t ∷ ms) h x k =
      stream_loop-Holds src account ms ((u, t) ∷ h) _ (on_update-Holds src account u t h x k)
  stream_loop-Holds src account (error_msg ∷ ms) h x k = k
  stream_loop-Holds src account (end_msg ∷ ms) h x k = k

  -- After any stream the entry map holds, of each slot at most 300 below the highest slot of an
  -- entry, every entry received, in order, and it holds nothing of an older slot: the map stays
  -- small, and no entry of a recent slot is lost.
  pub entries-kept :
      (src : SourceId) (account : Option SourceId) (ms : List Message) (tx : slots.Queue)
      (grpc_tx : grpc.Queue) (drops : DropCounters st) (k : ℕ)
      → lookup_by same_id k
          (stream_loop st slots grpc src account ms
            (start_stream st slots grpc tx grpc_tx drops)).0.entry_map
        ≡ kept k (received ms [])
  unfolding start_stream Holds Kept kept highest entries_of
  entries-kept src account ms tx grpc_tx drops k =
      (stream_loop-Holds src account ms [] (start_stream st slots grpc tx grpc_tx drops)
          (refl, λ j. ground arith)).1
        k
