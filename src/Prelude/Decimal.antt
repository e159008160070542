-- ===== src/Prelude/Decimal.antt =====
-- Decimal digits, as `to_string` of an unsigned integer prints them and `parse` reads them back. A
-- character is its code.
use Prim.Native.Nat.{ℕ, zero, suc, ◌+◌, ◌-◌, ◌*◌, ◌/◌, ◌%◌, ◌≤◌, ◌<◌}
use mathlib.Core.Path.{◌≡◌, refl}
use mathlib.Core.List.{List, [], ◌∷◌, ◌++◌}
use mathlib.Core.Logic.{inl, inr}
use native.Mathlib.Omega.{arith}
use orbshred.Prelude.Tests.{ltb, ltb→lt, if◌then◌else◌, Bool-cases}
use orbshred.Prelude.Lists.{All, length, length-append}

abbrev pub digit_char : ℕ → ℕ
digit_char d = 48 + d

-- The digits from the last one on; a number has at most that many digits.
unfoldable pub last_digits : ℕ → ℕ → List ℕ
last_digits zero n = []
last_digits (suc fuel) n =
    let rest = last_digits fuel (n / 10) in
    if ltb n 10 then digit_char n ∷ [] else digit_char (n % 10) ∷ rest

-- `n.to_string().chars().rev()`
unfoldable pub reversed_decimal : ℕ → List ℕ
unfolding last_digits
reversed_decimal n = last_digits (suc n) n

-- The value of digits from the last one on.
unfoldable pub value_of : List ℕ → ℕ
value_of [] = 0
value_of (c ∷ cs) = (c - 48) + 10 * value_of cs

abbrev pub IsDigit : ℕ → Type 0
IsDigit c = (48 ≤ c) × (c < 58)

-- Enough fuel gives digits that read back as the number.
pub last_digits-value :
    (fuel n : ℕ) → n < fuel → (value_of (last_digits fuel n) ≡ n) × All IsDigit (last_digits fuel n)
unfolding last_digits value_of
last_digits-value zero n h = absurd (omega arith)
last_digits-value (suc fuel) n h = elim (Bool-cases (ltb n 10)) [
  | inl small ↦ rw small (omega arith, ((omega arith, omega (arith, ltb→lt n 10 small)), tt))
  | inr big ↦
      let bound : n / 10 < fuel = ground arith in
      let (v, d) = last_digits-value fuel (n / 10) bound in
      rw big (omega (arith, v), ((omega arith, omega arith), d))
]

pub reversed_decimal-long : (n : ℕ) → 0 < length (reversed_decimal n)
unfolding reversed_decimal last_digits
reversed_decimal-long n = ground arith

-- The value of digits from the first one on, behind a value.
unfoldable pub digits_value : ℕ → List ℕ → ℕ
digits_value v [] = v
digits_value v (c ∷ cs) = digits_value (10 * v + (c - 48)) cs

-- A list from its last element on.
unfoldable pub backwards : List ℕ → List ℕ
backwards [] = []
backwards (c ∷ cs) = backwards cs ++ (c ∷ [])

pub digits_value-append :
    (v : ℕ) (xs : List ℕ) (c : ℕ)
    → digits_value v (xs ++ (c ∷ [])) ≡ 10 * digits_value v xs + (c - 48)
unfolding digits_value
digits_value-append v [] c = refl
digits_value-append v (x ∷ xs) c = digits_value-append (10 * v + (x - 48)) xs c

pub digits_value-backwards : (cs : List ℕ) → digits_value 0 (backwards cs) ≡ value_of cs
unfolding backwards value_of digits_value
digits_value-backwards [] = refl
digits_value-backwards (c ∷ cs) =
    omega (arith, digits_value-append 0 (backwards cs) c, digits_value-backwards cs)

pub All-append : (P : ℕ → Type 0) (xs ys : List ℕ) → All P xs → All P ys → All P (xs ++ ys)
All-append P [] ys h k = k
All-append P (x ∷ xs) ys h k = (h.0, All-append P xs ys h.1 k)

pub backwards-IsDigit : (cs : List ℕ) → All IsDigit cs → All IsDigit (backwards cs)
unfolding backwards
backwards-IsDigit [] h = tt
backwards-IsDigit (c ∷ cs) h =
    All-append IsDigit (backwards cs) (c ∷ []) (backwards-IsDigit cs h.1) (h.0, tt)

pub length-backwards : (cs : List ℕ) → length (backwards cs) ≡ length cs
unfolding backwards
length-backwards [] = refl
length-backwards (c ∷ cs) =
    omega (arith, length-append (backwards cs) (c ∷ []), length-backwards cs)
