-- ===== src/Jito/Port.antt =====
-- src/sources/jito.rs:488-490: the port of an address, over the codes of its characters.
pub mod Printed
use orbshred.Prelude.{
  ℕ, ◌+◌, ◌-◌, ◌*◌, ◌^◌, Bool, true, false, not, ◌&&◌, ◌||◌, Option, none, some, List, [], ◌∷◌, ltb,
  leb, ◌==◌, if◌then◌else◌,
}
use orbshred.Prelude.Decimal.{digits_value}
use orbshred.Prelude.Int.{ℤ, pos, negsuc}

abbrev pub colon : ℕ
colon = 58

unfoldable pub has_colon : List ℕ → Bool
has_colon [] = false
has_colon (c ∷ cs) = c == colon || has_colon cs

-- `addr.rsplit(':').next()`
unfoldable pub last_part : List ℕ → List ℕ
last_part [] = []
last_part (c ∷ cs) = let rest = last_part cs in if has_colon (c ∷ cs) then rest else c ∷ cs

unfoldable pub all_digits : List ℕ → Bool
all_digits [] = true
all_digits (c ∷ cs) = leb 48 c && ltb c 58 && all_digits cs

-- One digit or more.
unfoldable pub parse_digits : List ℕ → Option ℕ
unfolding all_digits digits_value
parse_digits [] = none
parse_digits (c ∷ cs) = if all_digits (c ∷ cs) then some (digits_value 0 (c ∷ cs)) else none

unfoldable pub to_i64 : Bool → Option ℕ → Option ℤ
to_i64 negative none = none
to_i64 false (some v) = if ltb v (2 ^ 63) then some (pos v) else none
to_i64 true (some v) =
    if v == 0 then some (pos 0) else if leb v (2 ^ 63) then some (negsuc (v - 1)) else none

-- `parse::<i64>()`: a sign may stand before the digits.
unfoldable pub parse_i64 : List ℕ → Option ℤ
unfolding parse_digits to_i64
parse_i64 [] = none
parse_i64 (c ∷ cs) =
    if c == 43
    then to_i64 false (parse_digits cs)
    else if c == 45
    then to_i64 true (parse_digits cs)
    else to_i64 false (parse_digits (c ∷ cs))

unfoldable pub or_20000 : Option ℤ → ℤ
or_20000 none = pos 20000
or_20000 (some p) = p

unfoldable pub port_from_addr : List ℕ → ℤ
unfolding last_part parse_i64 or_20000
port_from_addr addr = or_20000 (parse_i64 (last_part addr))
