-- ===== src/Prelude/SortBy.antt =====
-- `sort_by_key` and `sort_by` on a vector of rows with their keys: a stable sort, and what it keeps.
use Prim.Native.Nat.{ℕ, suc}
use mathlib.Core.Path.{◌≡◌, refl}
use mathlib.Core.Bool.{Bool, true, false}
use mathlib.Core.List.{List, [], ◌∷◌}
use native.Mathlib.Omega.{arith}
use mathlib.Core.Logic.{inl, inr}
use orbshred.Prelude.Tests.{if◌then◌else◌, Bool-cases}
use orbshred.Prelude.Lists.{All}

module _ {R : Type 0} (before : ℕ → ℕ → Bool) where
  unfoldable pub insert_by : ℕ × R → List (ℕ × R) → List (ℕ × R)
  insert_by x [] = x ∷ []
  insert_by x (y ∷ ys) = if before x.0 y.0 then x ∷ y ∷ ys else y ∷ insert_by x ys

  unfoldable pub sort_by : List (ℕ × R) → List (ℕ × R)
  unfolding insert_by
  sort_by [] = []
  sort_by (x ∷ xs) = insert_by x (sort_by xs)

  -- Each row stands before all that follow it.
  abbrev pub InOrder : List (ℕ × R) → Type 0
  InOrder [] = Unit {0}
  InOrder (x ∷ xs) = All (λ y. before x.0 y.0 ≡ true) xs × InOrder xs

  unfoldable pub count_if : (ℕ × R → Bool) → List (ℕ × R) → ℕ
  count_if p [] = 0
  count_if p (x ∷ xs) = if p x then suc (count_if p xs) else count_if p xs

  -- The same rows, each as often.
  abbrev pub SameRows : List (ℕ × R) → List (ℕ × R) → Type 0
  SameRows xs ys = (p : ℕ × R → Bool) → count_if p xs ≡ count_if p ys

  count_if-insert_by :
      (p : ℕ × R → Bool) (x : ℕ × R) (xs : List (ℕ × R))
      → count_if p (insert_by x xs) ≡ count_if p (x ∷ xs)
  unfolding insert_by count_if
  count_if-insert_by p x [] = refl
  count_if-insert_by p x (y ∷ ys) = ground (arith, count_if-insert_by p x ys)

  pub sort_by-SameRows : (xs : List (ℕ × R)) → SameRows xs (sort_by xs)
  unfolding sort_by count_if
  sort_by-SameRows [] p = refl
  sort_by-SameRows (x ∷ xs) p =
      ground (arith, count_if-insert_by p x (sort_by xs), sort_by-SameRows xs p)

  module _ (total : (a b : ℕ) → before a b ≡ false → before b a ≡ true)
      (trans : (a b c : ℕ) → before a b ≡ true → before b c ≡ true → before a c ≡ true) where
    All-before :
        (a b : ℕ) (ys : List (ℕ × R))
        → before a b ≡ true
        → All (λ y. before b y.0 ≡ true) ys
        → All (λ y. before a y.0 ≡ true) ys
    All-before a b [] h k = tt
    All-before a b (y ∷ ys) h k = (trans a b y.0 h k.0, All-before a b ys h k.1)

    All-insert_by :
        (a : ℕ) (x : ℕ × R) (ys : List (ℕ × R))
        → before a x.0 ≡ true
        → All (λ y. before a y.0 ≡ true) ys
        → All (λ y. before a y.0 ≡ true) (insert_by x ys)
    unfolding insert_by
    All-insert_by a x [] h k = (h, tt)
    All-insert_by a x (y ∷ ys) h k = elim (Bool-cases (before x.0 y.0)) [
      | inl first ↦ rw first (h, (k.0, k.1))
      | inr later ↦ rw later (k.0, All-insert_by a x ys h k.1)
    ]

    insert_by-InOrder : (x : ℕ × R) (ys : List (ℕ × R)) → InOrder ys → InOrder (insert_by x ys)
    unfolding insert_by
    insert_by-InOrder x [] h = (tt, tt)
    insert_by-InOrder x (y ∷ ys) h = elim (Bool-cases (before x.0 y.0)) [
      | inl first ↦ rw first ((first, All-before x.0 y.0 ys first h.0), h)
      | inr later ↦
          rw later (All-insert_by y.0 x ys (total x.0 y.0 later) h.0, insert_by-InOrder x ys h.1)
    ]

    pub sort_by-InOrder : (xs : List (ℕ × R)) → InOrder (sort_by xs)
    unfolding sort_by
    sort_by-InOrder [] = tt
    sort_by-InOrder (x ∷ xs) = insert_by-InOrder x (sort_by xs) (sort_by-InOrder xs)
