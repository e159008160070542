-- ===== src/DoubleZero/InterfaceIp.antt =====
-- src/sources/doublezero.rs:160-167 and 297-316: how systems other than Linux join the group, by the
-- address that the `ip` command shows for the interface. A text is the codes of its characters; what
-- the command prints is an input, and none if it cannot be run.
pub mod Octets
pub mod Words
pub mod Shown
use orbshred.Prelude.{
  ℕ, Bool, true, false, not, ◌&&◌, ◌||◌, Option, none, some, List, [], ◌∷◌, length, ltb, leb, ◌==◌,
  if◌then◌else◌,
}
use orbshred.Prelude.Decimal.{digits_value}
use orbshred.Pcap.{Ipv4Addr}
use orbshred.Jito.Port.{all_digits}

abbrev pub Text : Type 0
Text = List ℕ

-- `char::is_whitespace`
unfoldable pub is_whitespace : ℕ → Bool
is_whitespace c =
    (leb 9 c && ltb c 14)
    || c == 32
    || c == 0x85
    || c == 0xa0
    || c == 0x1680
    || (leb 0x2000 c && ltb c 0x200b)
    || c == 0x2028
    || c == 0x2029
    || c == 0x202f
    || c == 0x205f
    || c == 0x3000

unfoldable pub push_front : ℕ → List Text → List Text
push_front c [] = (c ∷ []) ∷ []
push_front c (l ∷ ls) = (c ∷ l) ∷ ls

-- `lines`: an empty piece behind the last line feed is no line. A carriage return before a line feed,
-- which `lines` takes off as well, is left to `trim` here.
unfoldable pub text_lines : Text → List Text
unfolding push_front
text_lines [] = []
text_lines (c ∷ cs) = let rest = text_lines cs in if c == 10 then [] ∷ rest else push_front c rest

unfoldable pub trim_start : Text → Text
unfolding is_whitespace
trim_start [] = []
trim_start (c ∷ cs) = let rest = trim_start cs in if is_whitespace c then rest else c ∷ cs

abbrev pub push_if : Bool → ℕ → Text → Text
push_if blank c [] = if blank then [] else c ∷ []
push_if blank c (d ∷ ds) = c ∷ d ∷ ds

unfoldable pub trim_end : Text → Text
unfolding is_whitespace
trim_end [] = []
trim_end (c ∷ cs) = push_if (is_whitespace c) c (trim_end cs)

unfoldable pub trim : Text → Text
unfolding trim_start trim_end
trim t = trim_end (trim_start t)

unfoldable pub starts_with : Text → Text → Bool
starts_with [] t = true
starts_with (p ∷ ps) [] = false
starts_with (p ∷ ps) (c ∷ cs) = p == c && starts_with ps cs

-- The text goes on with a word.
unfoldable pub in_word : Text → Bool
unfolding is_whitespace
in_word [] = false
in_word (c ∷ cs) = not (is_whitespace c)

unfoldable pub split_whitespace : Text → List Text
unfolding is_whitespace in_word push_front
split_whitespace [] = []
split_whitespace (c ∷ cs) =
    let rest = split_whitespace cs in
    if is_whitespace c then rest else if in_word cs then push_front c rest else (c ∷ []) ∷ rest

-- `split(sep)`: there is one piece more than separators.
unfoldable pub split : ℕ → Text → List Text
unfolding push_front
split sep [] = [] ∷ []
split sep (c ∷ cs) = let rest = split sep cs in if c == sep then [] ∷ rest else push_front c rest

abbrev pub first_piece : List Text → Text
first_piece [] = []
first_piece (p ∷ ps) = p

-- What the standard library takes for a part of an address: one to three digits, without a zero in
-- front of others, of a value below 256.
unfoldable pub read_octet : Text → Option ℕ
unfolding all_digits digits_value
read_octet [] = none
read_octet (c ∷ cs) =
    let v = digits_value 0 (c ∷ cs) in
    if all_digits (c ∷ cs)
      && leb (length (c ∷ cs)) 3
      && not (c == 48 && ltb 1 (length (c ∷ cs)))
      && ltb v 256
    then some v
    else none

abbrev four_octets : Option ℕ → Option ℕ → Option ℕ → Option ℕ → Option Ipv4Addr
four_octets (some a) (some b) (some c) (some d) = some (record { a = a; b = b; c = c; d = d })
four_octets _ _ _ _ = none

abbrev address_of : List Text → Option Ipv4Addr
address_of (a ∷ b ∷ c ∷ d ∷ []) =
    four_octets (read_octet a) (read_octet b) (read_octet c) (read_octet d)
address_of _ = none

-- `Ipv4Addr::from_str`
unfoldable pub from_str : Text → Option Ipv4Addr
unfolding split read_octet
from_str t = address_of (split 46 t)

-- `"inet "`
abbrev pub inet : Text
inet = 105 ∷ 110 ∷ 101 ∷ 116 ∷ 32 ∷ []

-- The part of a line behind its first word, up to the slash; `otherwise` is what the next lines give.
unfoldable pub address_in : List Text → Option Ipv4Addr → Option Ipv4Addr
unfolding from_str
address_in (first ∷ addr_cidr ∷ parts) otherwise = from_str (first_piece (split 47 addr_cidr))
address_in _ otherwise = otherwise

unfoldable pub search_lines : List Text → Option Ipv4Addr
unfolding trim starts_with split_whitespace address_in
search_lines [] = none
search_lines (l ∷ ls) =
    let rest = search_lines ls in
    if starts_with inet (trim l) then address_in (split_whitespace (trim l)) rest else rest

unfoldable pub get_interface_ip : Option Text → Option Ipv4Addr
unfolding text_lines search_lines
get_interface_ip none = none
get_interface_ip (some output) = search_lines (text_lines output)

-- `Ipv4Addr::UNSPECIFIED`
abbrev pub unspecified : Ipv4Addr
unspecified = record { a = 0; b = 0; c = 0; d = 0 }

abbrev or_unspecified : Option Ipv4Addr → Ipv4Addr
or_unspecified none = unspecified
or_unspecified (some ip) = ip

-- `join_multicast_by_index` there: the address by which the group is joined.
unfoldable pub joins_by : Option Text → Ipv4Addr
unfolding get_interface_ip
joins_by output = or_unspecified (get_interface_ip output)
