-- ===== src/Yellowstone/Baseline.antt =====
-- src/sources/yellowstone.rs:203-210: the entry that an account update is measured against.
use orbshred.Prelude.{
  ◌≤◌, ◌<◌, ◌≡◌, refl, ◌⊎◌, inl, inr, Option, none, some, List, [], ◌∷◌, arith, leb, Bool-cases,
}
use orbshred.Registry.{Instant}
use orbshred.Yellowstone.{EntryRecord, latest_from}

abbrev pub Among : EntryRecord → List EntryRecord → Type 0
Among e [] = ⊥
Among e (d ∷ ds) = (d ≡ e) ⊎ Among e ds

-- No entry that had arrived by `t` arrived after `u`.
abbrev pub NoneAfter : Instant → Instant → List EntryRecord → Type 0
NoneAfter t u [] = Unit {0}
NoneAfter t u (d ∷ ds) = (d.received_at ≤ t → d.received_at ≤ u) × NoneAfter t u ds

-- All entries arrived after `t`.
abbrev pub AllLater : Instant → List EntryRecord → Type 0
AllLater t [] = Unit {0}
AllLater t (d ∷ ds) = (t < d.received_at) × AllLater t ds

-- What the choice says of the entries.
abbrev pub IsBaseline : Instant → List EntryRecord → Option EntryRecord → Type 0
IsBaseline t es none = AllLater t es
IsBaseline t es (some e) = Among e es × (e.received_at ≤ t) × NoneAfter t e.received_at es

-- The same with a best one so far.
abbrev BestFrom : Instant → EntryRecord → List EntryRecord → Option EntryRecord → Type 0
BestFrom t b es none = ⊥
BestFrom t b es (some e) =
    ((b ≡ e) ⊎ Among e es)
    × (e.received_at ≤ t)
    × (b.received_at ≤ e.received_at)
    × NoneAfter t e.received_at es

BestFrom-skip :
    (t : Instant) (b d : EntryRecord) (es : List EntryRecord) (o : Option EntryRecord)
    → (d.received_at ≤ t → d.received_at ≤ b.received_at)
    → BestFrom t b es o
    → BestFrom t b (d ∷ es) o
BestFrom-skip t b d es none h f = f
BestFrom-skip t b d es (some e) h (inl same, le, up, f) =
    (inl same, le, up, ((λ q. let g = h q in omega arith), f))
BestFrom-skip t b d es (some e) h (inr among, le, up, f) =
    (inr (inr among), le, up, ((λ q. let g = h q in omega arith), f))

BestFrom-take :
    (t : Instant) (b d : EntryRecord) (es : List EntryRecord) (o : Option EntryRecord)
    → b.received_at ≤ d.received_at
    → BestFrom t d es o
    → BestFrom t b (d ∷ es) o
BestFrom-take t b d es none h f = f
BestFrom-take t b d es (some e) h (inl same, le, up, f) =
    (inr (inl same), le, omega arith, ((λ q. up), f))
BestFrom-take t b d es (some e) h (inr among, le, up, f) =
    (inr (inr among), le, omega arith, ((λ q. up), f))

latest_from-BestFrom :
    (t : Instant) (b : EntryRecord) (es : List EntryRecord)
    → b.received_at ≤ t
    → BestFrom t b es (latest_from t (some b) es)
unfolding latest_from
latest_from-BestFrom t b [] h = (inl refl, h, omega arith, tt)
latest_from-BestFrom t b (d ∷ es) h = elim (Bool-cases (leb d.received_at t)) [
  | inl came ↦ elim (Bool-cases (leb b.received_at d.received_at)) [
    | inl newer ↦
        rw (came, newer)
          (BestFrom-take t b d es _ (ground (arith, newer))
            (latest_from-BestFrom t d es (ground (arith, came))))
    | inr older ↦
        rw (came, older)
          (BestFrom-skip t b d es _ (λ q. ground (arith, older)) (latest_from-BestFrom t b es h))
  ]
  | inr later ↦
      rw later
        (BestFrom-skip t b d es _ (λ q. ground (arith, later)) (latest_from-BestFrom t b es h))
]

BestFrom-IsBaseline :
    (t : Instant) (d : EntryRecord) (es : List EntryRecord) (o : Option EntryRecord)
    → BestFrom t d es o
    → IsBaseline t (d ∷ es) o
BestFrom-IsBaseline t d es none f = absurd f
BestFrom-IsBaseline t d es (some e) (among, le, up, f) = (among, le, ((λ q. up), f))

IsBaseline-skip :
    (t : Instant) (d : EntryRecord) (es : List EntryRecord) (o : Option EntryRecord)
    → t < d.received_at
    → IsBaseline t es o
    → IsBaseline t (d ∷ es) o
IsBaseline-skip t d es none h f = (h, f)
IsBaseline-skip t d es (some e) h f = (inr f.0, f.1, ((λ q. absurd (omega arith)), f.2))

-- The baseline of an account update is one of the slot's entries that had arrived by then, and none
-- of them arrived later; there is no baseline only if every entry arrived after the update.
pub latest_from-IsBaseline :
    (t : Instant) (es : List EntryRecord) → IsBaseline t es (latest_from t none es)
unfolding latest_from
latest_from-IsBaseline t [] = tt
latest_from-IsBaseline t (d ∷ es) = elim (Bool-cases (leb d.received_at t)) [
  | inl came ↦
      rw came (BestFrom-IsBaseline t d es _ (latest_from-BestFrom t d es (ground (arith, came))))
  | inr later ↦
      rw later (IsBaseline-skip t d es _ (ground (arith, later)) (latest_from-IsBaseline t es))
]
