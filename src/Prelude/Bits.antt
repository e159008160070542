-- ===== src/Prelude/Bits.antt =====
-- The masks that the program uses, as arithmetic. Each law is a table over all bytes or all
-- 16-bit words, checked by evaluation.
use Prim.Native.Nat.{ℕ, zero, suc, ◌%◌, ◌/◌, ◌*◌, ◌<◌, bit_and}
use mathlib.Core.Path.{◌≡◌, refl}
use mathlib.Core.Bool.{Bool, true, false}
use native.Mathlib.Omega.{arith}
use orbshred.Prelude.Tests.{◌==◌, if◌then◌else◌}

module _ (f g : ℕ → ℕ) where
  -- An accumulator keeps the evaluation flat.
  agree_below : ℕ → Bool → Bool
  agree_below zero acc = acc
  agree_below (suc n) acc = agree_below n (if f n == g n then acc else false)

  agree_below_acc : (n : ℕ) (acc : Bool) → agree_below n acc ≡ true → acc ≡ true
  unfolding agree_below
  agree_below_acc zero acc e = e
  agree_below_acc (suc n) acc e =
      ground (arith, agree_below_acc n (if f n == g n then acc else false) e)

  agree_below→eq : (n : ℕ) (acc : Bool) → agree_below n acc ≡ true → (i : ℕ) → i < n → f i ≡ g i
  unfolding agree_below
  agree_below→eq zero acc e i h = elim h [ ]
  agree_below→eq (suc n) acc e i h = ground (
    arith,
    agree_below_acc n (if f n == g n then acc else false) e,
    agree_below→eq n (if f n == g n then acc else false) e i,
  )

-- `b & 0x0f`
pub bit_and-low_nibble : (b : ℕ) → b < 256 → bit_and b 0x0f ≡ b % 16
unfolding agree_below
bit_and-low_nibble = agree_below→eq _ _ 256 true refl

-- `b & 0x80`
pub bit_and-top_bit : (b : ℕ) → b < 256 → bit_and b 0x80 ≡ b / 128 * 128
unfolding agree_below
bit_and-top_bit = agree_below→eq _ _ 256 true refl

-- `w & 0x1fff`
pub bit_and-low_13 : (w : ℕ) → w < 65536 → bit_and w 0x1fff ≡ w % 8192
unfolding agree_below
bit_and-low_13 = agree_below→eq _ _ 65536 true refl
