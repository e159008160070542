-- ===== src/DoubleZero/InterfaceIp/Shown.antt =====
-- src/sources/doublezero.rs:297-316: the address of an interface as the `ip` command prints it.
use orbshred.Prelude.{
  ℕ, ◌<◌, ◌≡◌, refl, sym, ap, subst, ◌∙◌, false, some, List, [], ◌∷◌, ◌++◌, length, All, ◌==◌,
  arith,
}
use orbshred.Prelude.Decimal.{
  IsDigit, All-append, reversed_decimal, reversed_decimal-long, length-backwards,
}
use orbshred.Pcap.{Ipv4Addr}
use orbshred.Pcap.Built.{IsAddress}
use orbshred.DoubleZero.InterfaceIp.{
  Text, is_whitespace, push_front, text_lines, trim, starts_with, split, first_piece, from_str,
  inet, address_in, search_lines, get_interface_ip,
}
use orbshred.DoubleZero.InterfaceIp.Octets.{
  decimal, print_ip, decimal-IsDigit, All-map, print_ip-All, Free, split-append, from_str-print_ip,
}
use orbshred.DoubleZero.InterfaceIp.Words.{
  Graphic, inet_line, words-inet_line, starts_with-inet_line,
}

text_lines-append : (l t : Text) → Free 10 l → text_lines (l ++ (10 ∷ t)) ≡ l ∷ text_lines t
unfolding text_lines push_front
text_lines-append [] t h = refl
text_lines-append (c ∷ l) t h = rw (h.0, text_lines-append l t h.1) refl

decimal-long : (n : ℕ) → (c : ℕ) × (w : Text) × (decimal n ≡ c ∷ w)
decimal-long n =
    go (decimal n) (omega (arith, reversed_decimal-long n, length-backwards (reversed_decimal n)))
  where
    go : (t : Text) → 0 < length t → (c : ℕ) × (w : Text) × (t ≡ c ∷ w)
    go [] h = absurd (omega (arith, h))
    go (c ∷ w) h = (c, w, refl)

-- A line of the command's output without an address: it has no line feed, and does not begin with the
-- word `inet`.
abbrev pub IsOther : Text → Type 0
IsOther l = Free 10 l × (starts_with inet (trim l) ≡ false)

-- The lines, each with its line feed.
abbrev pub unlines : List Text → Text → Text
unlines [] t = t
unlines (l ∷ ls) t = l ++ (10 ∷ unlines ls t)

search_lines-unlines :
    (ls : List Text) (t : Text)
    → All IsOther ls
    → search_lines (text_lines (unlines ls t)) ≡ search_lines (text_lines t)
unfolding search_lines
search_lines-unlines [] t h = refl
search_lines-unlines (l ∷ ls) t ((free, other), h) =
    rw (text_lines-append l (unlines ls t) free, other) (search_lines-unlines ls t h)

-- How the command shows an address with its prefix length.
unfoldable pub shown : Ipv4Addr → ℕ → Text → Text
unfolding print_ip
shown ip mask rest = inet_line (print_ip ip ++ (47 ∷ decimal mask)) rest

search_lines-inet_line :
    (c : ℕ) (w rest : Text) (ls : List Text)
    → Graphic (c ∷ w)
    → search_lines (inet_line (c ∷ w) rest ∷ ls) ≡ from_str (first_piece (split 47 (c ∷ w)))
unfolding search_lines address_in
search_lines-inet_line c w rest ls h =
    rw (starts_with-inet_line c w rest h, words-inet_line c w rest h) refl

-- A printed address with a prefix length.
abbrev cidr : Ipv4Addr → ℕ → Text
cidr ip mask = print_ip ip ++ (47 ∷ decimal mask)

abbrev Long : Text → Type 0
Long t = (c : ℕ) × (w : Text) × (t ≡ c ∷ w)

Long-append : (t u : Text) → Long t → Long (t ++ u)
Long-append t u (c, w, e) = (c, w ++ u, ap (λ x. x ++ u) e)

cidr-long : (ip : Ipv4Addr) (mask : ℕ) → (c : ℕ) × (w : Text) × (cidr ip mask ≡ c ∷ w)
unfolding print_ip
cidr-long ip mask =
    Long-append (print_ip ip) (47 ∷ decimal mask) (Long-append (decimal ip.a) _ (decimal-long ip.a))

cidr-All :
    (P : ℕ → Type 0) (ip : Ipv4Addr) (mask : ℕ)
    → ((c : ℕ) → IsDigit c → P c)
    → P 46
    → P 47
    → All P (cidr ip mask)
cidr-All P ip mask f dot slash =
    All-append P (print_ip ip) (47 ∷ decimal mask) (print_ip-All P ip f dot)
      (slash, All-map IsDigit P (decimal mask) f (decimal-IsDigit mask))

cidr-Graphic : (ip : Ipv4Addr) (mask : ℕ) → Graphic (cidr ip mask)
unfolding is_whitespace
cidr-Graphic ip mask =
    cidr-All (λ c. is_whitespace c ≡ false) ip mask (λ c h. ground arith) refl refl

shown-Free :
    (ip : Ipv4Addr) (mask : ℕ) (rest : Text)
    → Free 10 rest
    → Free 10 (inet_line (cidr ip mask) rest)
shown-Free ip mask rest h =
    let inner = cidr-All (λ c. (c == 10) ≡ false) ip mask (λ c h. ground arith) refl refl in
    let tail = All-append (λ c. (c == 10) ≡ false) (cidr ip mask) (32 ∷ rest) inner (refl, h) in
    (refl, (refl, (refl, (refl, (refl, (refl, (refl, (refl, (refl, tail)))))))))

search_lines-shown :
    (ip : Ipv4Addr) (mask : ℕ) (rest : Text) (ls : List Text)
    → search_lines (inet_line (cidr ip mask) rest ∷ ls)
      ≡ from_str (first_piece (split 47 (cidr ip mask)))
search_lines-shown ip mask rest ls =
    let (c, w, e) = cidr-long ip mask in
    subst (λ t. search_lines (inet_line t rest ∷ ls) ≡ from_str (first_piece (split 47 t))) (sym e)
      (search_lines-inet_line c w rest ls (subst Graphic e (cidr-Graphic ip mask)))

no_slash : (ip : Ipv4Addr) → Free 47 (print_ip ip)
no_slash ip = print_ip-All (λ c. (c == 47) ≡ false) ip (λ c h. ground arith) refl

-- The address of an interface is found in what the command prints: the first line that begins with
-- the word `inet` gives it, whatever prefix length and text follow, whatever lines come later, and
-- whatever lines come before that do not begin so.
pub get_interface_ip-shown :
    (earlier : List Text) (ip : Ipv4Addr) (mask : ℕ) (rest later : Text)
    → IsAddress ip
    → All IsOther earlier
    → Free 10 rest
    → get_interface_ip (some (unlines earlier (shown ip mask rest ++ (10 ∷ later)))) ≡ some ip
unfolding get_interface_ip shown
get_interface_ip-shown earlier ip mask rest later h others free =
    search_lines-unlines earlier (inet_line (cidr ip mask) rest ++ (10 ∷ later)) others
    ∙ ap search_lines
        (text_lines-append (inet_line (cidr ip mask) rest) later (shown-Free ip mask rest free))
    ∙ search_lines-shown ip mask rest (text_lines later)
    ∙ ap (λ ps. from_str (first_piece ps))
        (split-append 47 (print_ip ip) (decimal mask) (no_slash ip))
    ∙ from_str-print_ip ip h
