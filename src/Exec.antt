-- ===== src/Exec.antt =====
-- What Rust's slices, fixed arrays and byte conversions do. A read out of range panics, so code that
-- indexes runs in `Exec`; the loops that recur on fuel say so by `stuck`, which is no Rust value.
use native.Mathlib.Nat.{pow-suc}
use orbshred.Prelude.{
  ℕ, zero, suc, ◌^◌, ◌+◌, ◌-◌, ◌*◌, ◌≤◌, ◌<◌, ◌≡◌, refl, ap, Option, none, some, List, [], ◌∷◌,
  ◌++◌, arith, length, get_elem?, get_or, take, drop, length-take, length-drop, get_elem?-get_or,
  get_elem?-append, drop-append, take-append, length-append, ltb, leb, le→leb, leb→le, ◌∙◌, ◌==◌,
  if◌then◌else◌, ◌&&◌,
}

pub data Exec {ℓ} (A : Type ℓ) : Type ℓ where
  ok : A → Exec A
  panic : Exec A
  stuck : Exec A

infixl 5 ◌>>=◌ ◌>>◌
abbrev pub ◌>>=◌ {ℓ κ} : {A : Type ℓ} {B : Type κ} → Exec A → (A → Exec B) → Exec B
ok a >>= f = f a
panic >>= f = panic
stuck >>= f = stuck

abbrev pub ◌>>◌ {ℓ} : {B : Type ℓ} → Exec (Unit {0}) → Exec B → Exec B
m >> k = m >>= λ _. k

-- The code comes back with a value.
abbrev pub Returns {ℓ} : {A : Type ℓ} → Exec A → Type ℓ
Returns {A = A} m = (a : A) × (m ≡ ok a)

abbrev pub Bytes : Type 0
Bytes = List ℕ

-- Every element is a byte.
abbrev pub AreBytes : Bytes → Type 0
AreBytes [] = Unit {0}
AreBytes (b ∷ bs) = (b < 256) × AreBytes bs

unfoldable pub or_panic {ℓ} : {A : Type ℓ} → Option A → Exec A
or_panic none = panic
or_panic (some a) = ok a

-- `buf[i]`
unfoldable pub index : Bytes → ℕ → Exec ℕ
unfolding or_panic
index buf i = or_panic (get_elem? buf i)

-- `&buf[a..b]`
unfoldable pub slice : Bytes → ℕ → ℕ → Exec Bytes
slice buf a b = if leb a b && leb b (length buf) then ok (take (b - a) (drop a buf)) else panic

-- `slice.try_into::<[u8; n]>().ok()`
unfoldable pub to_array : ℕ → Bytes → Option Bytes
to_array n bs = if length bs == n then some bs else none

unfoldable pub from_le_bytes : Bytes → ℕ
from_le_bytes [] = 0
from_le_bytes (b ∷ bs) = b + 256 * from_le_bytes bs

-- `u16::from_be_bytes([hi, lo])`
abbrev pub be_u16 : ℕ → ℕ → ℕ
be_u16 hi lo = hi * 256 + lo

-- The byte at a position, for statements; the code's own reads are `index`.
abbrev pub byte_at : Bytes → ℕ → ℕ
byte_at buf i = get_or buf i 0

pub index_ok : (buf : Bytes) (i : ℕ) → i < length buf → index buf i ≡ ok (byte_at buf i)
unfolding index or_panic
index_ok buf i h = rw (get_elem?-get_or buf i 0 h)

pub index-append : (xs ys : Bytes) (n k : ℕ) → n ≡ length xs + k → index (xs ++ ys) n ≡ index ys k
unfolding index
index-append xs ys n k e = ap or_panic (get_elem?-append xs ys n k e)

pub slice_ok :
    (buf : Bytes) (a b : ℕ)
    → a ≤ b
    → b ≤ length buf
    → slice buf a b ≡ ok (take (b - a) (drop a buf))
unfolding slice
slice_ok buf a b p q = rw (le→leb a b p, le→leb b (length buf) q)

-- A slice that starts behind a prefix and covers the list after it.
pub slice-append :
    (xs ys zs : Bytes) (a b : ℕ)
    → a ≡ length xs
    → b ≡ length xs + length ys
    → slice (xs ++ (ys ++ zs)) a b ≡ ok ys
unfolding drop
slice-append xs ys zs a b p q =
    slice_ok (xs ++ (ys ++ zs)) a b (omega arith)
      (omega (arith, length-append xs (ys ++ zs), length-append ys zs))
    ∙ ap ok (
        ap (take (b - a)) (drop-append xs (ys ++ zs) a 0 (omega arith))
        ∙ take-append ys zs (b - a) (omega arith))

pub length-slice : (buf : Bytes) (a b : ℕ) {s : Bytes} → slice buf a b ≡ ok s → length s ≡ b - a
unfolding slice
length-slice buf a b h =
    ground (
      arith,
      length-take (b - a) (drop a buf),
      length-drop a buf,
      leb→le b (length buf),
      leb→le a b,
    )

-- Positions past a prefix count into the rest.
pub slice_shift :
    (xs ys : Bytes) (a b c d : ℕ)
    → a ≡ length xs + c
    → b ≡ length xs + d
    → slice (xs ++ ys) a b ≡ slice ys c d
unfolding slice
slice_shift xs ys a b c d p q = ground (arith, length-append xs ys, drop-append xs ys a c p)

pub AreBytes-take : (n : ℕ) (bs : Bytes) → AreBytes bs → AreBytes (take n bs)
unfolding take
AreBytes-take zero bs h = tt
AreBytes-take (suc n) [] h = tt
AreBytes-take (suc n) (b ∷ bs) h = (h.0, AreBytes-take n bs h.1)

pub AreBytes-drop : (n : ℕ) (bs : Bytes) → AreBytes bs → AreBytes (drop n bs)
unfolding drop
AreBytes-drop zero bs h = h
AreBytes-drop (suc n) [] h = tt
AreBytes-drop (suc n) (b ∷ bs) h = AreBytes-drop n bs h.1

pub AreBytes-byte_at : (bs : Bytes) (i : ℕ) → AreBytes bs → byte_at bs i < 256
AreBytes-byte_at [] i h = omega arith
AreBytes-byte_at (b ∷ bs) zero h = h.0
AreBytes-byte_at (b ∷ bs) (suc i) h = AreBytes-byte_at bs i h.1

pub from_le_bytes-lt : (bs : Bytes) → AreBytes bs → from_le_bytes bs < 256 ^ length bs
unfolding from_le_bytes
from_le_bytes-lt [] h = omega arith
from_le_bytes-lt (b ∷ bs) h = omega (arith, pow-suc 256 (length bs), from_le_bytes-lt bs h.1)

pub to_array_ok : (n : ℕ) (bs : Bytes) → length bs ≡ n → to_array n bs ≡ some bs
unfolding to_array
to_array_ok n bs h = ground arith

pub bind_cong {ℓ κ} :
    {A : Type ℓ} {B : Type κ} (m : Exec A) {f g : A → Exec B}
    → ((a : A) → f a ≡ g a)
    → (m >>= f) ≡ (m >>= g)
bind_cong (ok a) h = h a
bind_cong panic h = refl
bind_cong stuck h = refl

pub bind_assoc {ℓ κ μ} :
    {A : Type ℓ} {B : Type κ} {C : Type μ} (m : Exec A) (f : A → Exec B) (g : B → Exec C)
    → (m >>= f >>= g) ≡ (m >>= λ a. f a >>= g)
bind_assoc (ok a) f g = refl
bind_assoc panic f g = refl
bind_assoc stuck f g = refl

-- A read as a test of its position.
pub index_eq :
    (buf : Bytes) (i : ℕ) → index buf i ≡ (if ltb i (length buf) then ok (byte_at buf i) else panic)
unfolding index or_panic
index_eq [] i = ground arith
index_eq (b ∷ bs) zero = ground arith
index_eq (b ∷ bs) (suc i) = index_eq bs i ∙ ground arith
