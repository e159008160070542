-- ===== src/Jito/Port/Printed.antt =====
-- src/sources/jito.rs:488-490: the port of an address that was printed.
use orbshred.Prelude.{
  ℕ, suc, ◌^◌, ◌<◌, ◌≡◌, refl, ap, ◌∙◌, true, false, some, length, List, [], ◌∷◌, ◌++◌, arith, All,
}
use orbshred.Prelude.Int.{pos}
use orbshred.Prelude.Decimal.{
  backwards, digits_value, digits_value-backwards, backwards-IsDigit, length-backwards, IsDigit,
  reversed_decimal, reversed_decimal-long, last_digits-value,
}
use orbshred.Jito.Port.{
  colon, has_colon, last_part, all_digits, parse_digits, to_i64, parse_i64, or_20000,
  port_from_addr,
}

all_digits-true : (cs : List ℕ) → All IsDigit cs → all_digits cs ≡ true
unfolding all_digits
all_digits-true [] h = refl
all_digits-true (c ∷ cs) h = ground (arith, all_digits-true cs h.1, h.0)

no_colon : (cs : List ℕ) → All IsDigit cs → has_colon cs ≡ false
unfolding has_colon
no_colon [] h = refl
no_colon (c ∷ cs) h = ground (arith, no_colon cs h.1, h.0)

last_part_digits : (cs : List ℕ) → has_colon cs ≡ false → last_part cs ≡ cs
unfolding last_part
last_part_digits [] h = refl
last_part_digits (c ∷ cs) h = rw h

has_colon-append : (host cs : List ℕ) → has_colon (host ++ (colon ∷ cs)) ≡ true
unfolding has_colon
has_colon-append [] cs = refl
has_colon-append (h ∷ host) cs = ground (arith, has_colon-append host cs)

last_part-append : (host cs : List ℕ) → has_colon cs ≡ false → last_part (host ++ (colon ∷ cs)) ≡ cs
unfolding last_part
last_part-append [] cs h =
    let found : has_colon (colon ∷ cs) ≡ true = has_colon-append [] cs in
    rw found (last_part_digits cs h)
last_part-append (x ∷ host) cs h =
    let found : has_colon (x ∷ (host ++ (colon ∷ cs))) ≡ true = has_colon-append (x ∷ host) cs in
    rw found (last_part-append host cs h)

parse_i64_digits :
    (cs : List ℕ)
    → All IsDigit cs
    → digits_value 0 cs < 2 ^ 63
    → 0 < length cs
    → parse_i64 cs ≡ some (pos (digits_value 0 cs))
unfolding parse_i64 parse_digits to_i64
parse_i64_digits [] h lt ne = absurd (omega arith)
parse_i64_digits (c ∷ cs) h lt ne = ground (arith, all_digits-true (c ∷ cs) h, h.0)

-- A port that is printed behind a host and a colon is read back, whatever the host is, colons
-- included. The port is below 2^63.
pub port_from_addr-decimal :
    (host : List ℕ) (p : ℕ)
    → p < 2 ^ 63
    → port_from_addr (host ++ (colon ∷ backwards (reversed_decimal p))) ≡ pos p
unfolding port_from_addr or_20000 reversed_decimal
port_from_addr-decimal host p h =
    let (value, digits) = last_digits-value (suc p) p (omega arith) in
    let ds = reversed_decimal p in
    let forward = backwards-IsDigit ds digits in
    let number : digits_value 0 (backwards ds) ≡ p = digits_value-backwards ds ∙ value in
    let some_digit : 0 < length ds = reversed_decimal-long p in
    rw
      (
        last_part-append host (backwards ds) (no_colon (backwards ds) forward),
        parse_i64_digits (backwards ds) forward (omega (arith, number))
            (omega (arith, length-backwards ds, some_digit)),
      )
      (ap pos number)
