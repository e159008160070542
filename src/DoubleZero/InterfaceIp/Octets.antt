-- ===== src/DoubleZero/InterfaceIp/Octets.antt =====
-- src/sources/doublezero.rs:311: an address that is printed is read back.
use orbshred.Prelude.{
  ℕ, zero, suc, ◌<◌, ◌≡◌, refl, Bool, true, false, ◌&&◌, Option, none, some, [], ◌∷◌, ◌++◌, All,
  ◌==◌, Bool-cases, inl, inr, arith,
}
use orbshred.Prelude.Decimal.{
  backwards, backwards-IsDigit, IsDigit, All-append, reversed_decimal, last_digits-value,
  last_digits, digits_value,
}
use orbshred.Pcap.{Ipv4Addr}
use orbshred.Pcap.Built.{IsAddress}
use orbshred.Jito.Port.{all_digits}
use orbshred.DoubleZero.InterfaceIp.{Text, push_front, split, read_octet, from_str}

abbrev pub decimal : ℕ → Text
decimal n = backwards (reversed_decimal n)

-- `Display` of an address.
unfoldable pub print_ip : Ipv4Addr → Text
print_ip ip = decimal ip.a ++ (46 ∷ (decimal ip.b ++ (46 ∷ (decimal ip.c ++ (46 ∷ decimal ip.d)))))

pub decimal-IsDigit : (n : ℕ) → All IsDigit (decimal n)
unfolding reversed_decimal
decimal-IsDigit n =
    backwards-IsDigit (reversed_decimal n) (last_digits-value (suc n) n (omega arith)).1

pub All-map : (P Q : ℕ → Type 0) (t : Text) → ((c : ℕ) → P c → Q c) → All P t → All Q t
All-map P Q [] f h = tt
All-map P Q (c ∷ cs) f h = (f c h.0, All-map P Q cs f h.1)

-- The printed address is of digits and dots.
pub print_ip-All :
    (P : ℕ → Type 0) (ip : Ipv4Addr) → ((c : ℕ) → IsDigit c → P c) → P 46 → All P (print_ip ip)
unfolding print_ip
print_ip-All P ip f dot =
    let of : (n : ℕ) → All P (decimal n) =
      λ n. All-map IsDigit P (decimal n) f (decimal-IsDigit n) in
    All-append P _ _ (of ip.a)
      (dot, All-append P _ _ (of ip.b) (dot, All-append P _ _ (of ip.c) (dot, of ip.d)))

-- Texts without a character.
abbrev pub Free : ℕ → Text → Type 0
Free sep t = All (λ c. (c == sep) ≡ false) t

pub split-word : (sep : ℕ) (w : Text) → Free sep w → split sep w ≡ w ∷ []
unfolding split push_front
split-word sep [] h = refl
split-word sep (c ∷ w) h = rw (h.0, split-word sep w h.1) refl

pub split-append :
    (sep : ℕ) (w t : Text) → Free sep w → split sep (w ++ (sep ∷ t)) ≡ w ∷ split sep t
unfolding split push_front
split-append sep [] t h = ground arith
split-append sep (c ∷ w) t h = rw (h.0, split-append sep w t h.1) refl

-- Every octet is read back: tried for all 256.
unfoldable is_read : ℕ → Bool
is_read n = elim (read_octet (decimal n)) [ none ↦ false | some v ↦ v == n ]

unfoldable all_read : ℕ → Bool
unfolding is_read
all_read zero = true
all_read (suc n) = is_read n && all_read n

all_read-is_read : (n m : ℕ) → m < n → all_read n ≡ true → is_read m ≡ true
unfolding all_read
all_read-is_read zero m h e = absurd (omega arith)
all_read-is_read (suc n) m h e = elim (Bool-cases (m == n)) [
  | inl same ↦ ground (arith, same, e)
  | inr other ↦ all_read-is_read n m (ground (arith, other, h)) (ground (arith, e))
]

octets_read : all_read 256 ≡ true
unfolding all_read is_read read_octet reversed_decimal last_digits backwards digits_value all_digits
octets_read = refl

is_read-some : (n : ℕ) → is_read n ≡ true → read_octet (decimal n) ≡ some n
unfolding is_read
is_read-some n h = go (read_octet (decimal n)) refl
  where
    go : (o : Option ℕ) → read_octet (decimal n) ≡ o → read_octet (decimal n) ≡ some n
    go none e = ground (arith, e, h)
    go (some v) e = ground (arith, e, h)

-- An octet that is printed is read back.
read_octet-decimal : (n : ℕ) → n < 256 → read_octet (decimal n) ≡ some n
read_octet-decimal n h = is_read-some n (all_read-is_read 256 n h octets_read)

no_dot : (n : ℕ) → Free 46 (decimal n)
no_dot n =
    All-map IsDigit (λ c. (c == 46) ≡ false) (decimal n) (λ c h. ground arith) (decimal-IsDigit n)

-- An address that is printed is read back.
pub from_str-print_ip : (ip : Ipv4Addr) → IsAddress ip → from_str (print_ip ip) ≡ some ip
unfolding from_str print_ip
from_str-print_ip ip (a, b, c, d) =
    rw
      (
        split-append 46 (decimal ip.a)
            (decimal ip.b ++ (46 ∷ (decimal ip.c ++ (46 ∷ decimal ip.d)))) (no_dot ip.a),
        split-append 46 (decimal ip.b) (decimal ip.c ++ (46 ∷ decimal ip.d)) (no_dot ip.b),
        split-append 46 (decimal ip.c) (decimal ip.d) (no_dot ip.c),
        split-word 46 (decimal ip.d) (no_dot ip.d),
        read_octet-decimal ip.a a,
        read_octet-decimal ip.b b,
        read_octet-decimal ip.c c,
        read_octet-decimal ip.d d,
      )
      refl
