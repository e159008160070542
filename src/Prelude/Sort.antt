-- ===== src/Prelude/Sort.antt =====
-- `sort_unstable` and a stable sort by a key, as insertion sorts, and what sorting keeps.
use Prim.Native.Nat.{ℕ, zero, suc, ◌+◌, ◌≤◌, ◌<◌}
use mathlib.Core.Path.{◌≡◌, refl, ap, ◌∙◌}
use mathlib.Core.List.{List, [], ◌∷◌}
use native.Mathlib.Omega.{arith}
use orbshred.Prelude.Tests.{ltb, leb, if◌then◌else◌}
use orbshred.Prelude.Lists.{length, get_or, All}

pub insert : ℕ → List ℕ → List ℕ
insert x [] = x ∷ []
insert x (y ∷ ys) = if leb x y then x ∷ y ∷ ys else y ∷ insert x ys

unfoldable pub sort : List ℕ → List ℕ
unfolding insert
sort [] = []
sort (x ∷ xs) = insert x (sort xs)

-- Each element is at most all that follow it.
abbrev pub IsSorted : List ℕ → Type 0
IsSorted [] = Unit {0}
IsSorted (x ∷ xs) = All (λ y. x ≤ y) xs × IsSorted xs

-- How many elements are at most `b`, and how many are below it.
unfoldable pub count_le : ℕ → List ℕ → ℕ
count_le b [] = 0
count_le b (x ∷ xs) = (if leb x b then 1 else 0) + count_le b xs

unfoldable pub count_lt : ℕ → List ℕ → ℕ
count_lt b [] = 0
count_lt b (x ∷ xs) = (if ltb x b then 1 else 0) + count_lt b xs

All-mono : (x y : ℕ) (l : List ℕ) → x ≤ y → All (λ z. y ≤ z) l → All (λ z. x ≤ z) l
All-mono x y [] h a = tt
All-mono x y (z ∷ l) h a = (omega arith, All-mono x y l h a.1)

All-insert : (b x : ℕ) (l : List ℕ) → b ≤ x → All (λ z. b ≤ z) l → All (λ z. b ≤ z) (insert x l)
unfolding insert
All-insert b x [] h a = (h, tt)
All-insert b x (y ∷ ys) h a = ground (arith, All-insert b x ys h a.1)

insert-IsSorted : (x : ℕ) (l : List ℕ) → IsSorted l → IsSorted (insert x l)
unfolding insert
insert-IsSorted x [] s = (tt, tt)
insert-IsSorted x (y ∷ ys) s =
    ground (arith, All-mono x y ys, All-insert y x ys, insert-IsSorted x ys s.1)

pub sort-IsSorted : (l : List ℕ) → IsSorted (sort l)
unfolding sort
sort-IsSorted [] = tt
sort-IsSorted (x ∷ xs) = insert-IsSorted x (sort xs) (sort-IsSorted xs)

length-insert : (x : ℕ) (l : List ℕ) → length (insert x l) ≡ suc (length l)
unfolding insert
length-insert x [] = refl
length-insert x (y ∷ ys) = ground (arith, length-insert x ys)

pub length-sort : (l : List ℕ) → length (sort l) ≡ length l
unfolding sort
length-sort [] = refl
length-sort (x ∷ xs) = length-insert x (sort xs) ∙ ap suc (length-sort xs)

count_le-insert : (b x : ℕ) (l : List ℕ) → count_le b (insert x l) ≡ count_le b (x ∷ l)
unfolding insert count_le
count_le-insert b x [] = refl
count_le-insert b x (y ∷ ys) = ground (arith, count_le-insert b x ys)

pub count_le-sort : (b : ℕ) (l : List ℕ) → count_le b (sort l) ≡ count_le b l
unfolding sort count_le
count_le-sort b [] = refl
count_le-sort b (x ∷ xs) = omega (arith, count_le-insert b x (sort xs), count_le-sort b xs)

count_lt-insert : (b x : ℕ) (l : List ℕ) → count_lt b (insert x l) ≡ count_lt b (x ∷ l)
unfolding insert count_lt
count_lt-insert b x [] = refl
count_lt-insert b x (y ∷ ys) = ground (arith, count_lt-insert b x ys)

pub count_lt-sort : (b : ℕ) (l : List ℕ) → count_lt b (sort l) ≡ count_lt b l
unfolding sort count_lt
count_lt-sort b [] = refl
count_lt-sort b (x ∷ xs) = omega (arith, count_lt-insert b x (sort xs), count_lt-sort b xs)

All-get_or : (b : ℕ) (l : List ℕ) (i : ℕ) → All (λ z. b ≤ z) l → i < length l → b ≤ get_or l i 0
All-get_or b [] i a h = elim h [ ]
All-get_or b (x ∷ xs) zero a h = a.0
All-get_or b (x ∷ xs) (suc i) a h = All-get_or b xs i a.1 (omega arith)

-- A sorted list ascends along its positions.
pub get_or_mono :
    (l : List ℕ) (i j : ℕ) → IsSorted l → i ≤ j → j < length l → get_or l i 0 ≤ get_or l j 0
get_or_mono [] i j s h k = elim k [ ]
get_or_mono (x ∷ xs) zero zero s h k = omega arith
get_or_mono (x ∷ xs) zero (suc j) s h k = All-get_or x xs j s.0 (omega arith)
get_or_mono (x ∷ xs) (suc i) zero s h k = absurd (omega arith)
get_or_mono (x ∷ xs) (suc i) (suc j) s h k = get_or_mono xs i j s.1 (omega arith) (omega arith)

count_lt-zero : (b : ℕ) (l : List ℕ) → All (λ z. b ≤ z) l → count_lt b l ≡ 0
unfolding count_lt
count_lt-zero b [] a = refl
count_lt-zero b (x ∷ xs) a = ground (arith, count_lt-zero b xs a.1)

-- The element at position `i` has more than `i` elements at or below it, and at most `i` below.
pub get_or-counts :
    (l : List ℕ) (i : ℕ)
    → IsSorted l
    → i < length l
    → (i < count_le (get_or l i 0) l) × (count_lt (get_or l i 0) l ≤ i)
unfolding count_le count_lt
get_or-counts [] i s h = elim h [ ]
get_or-counts (x ∷ xs) zero s h = ground (arith, count_lt-zero x xs s.0)
get_or-counts (x ∷ xs) (suc i) s h =
    ground (arith, get_or-counts xs i s.1 (omega arith), All-get_or x xs i s.0 (omega arith))
