-- ===== src/Examples/Interfaces.antt =====
-- What the `ip` command prints, for src/sources/doublezero.rs.
use orbshred.Prelude.{◌≡◌, refl, some, [], ◌∷◌, ◌++◌, arith}
use orbshred.Pcap.{Ipv4Addr}
use orbshred.DoubleZero.InterfaceIp.{
  Text, is_whitespace, trim, trim_start, trim_end, starts_with, get_interface_ip,
}
use orbshred.DoubleZero.InterfaceIp.Shown.{unlines, shown, get_interface_ip-shown}

-- `3: utun`
abbrev headline : Text
headline = 51 ∷ 58 ∷ 32 ∷ 117 ∷ 116 ∷ 117 ∷ 110 ∷ []

-- `brd`
abbrev further : Text
further = 98 ∷ 114 ∷ 100 ∷ []

abbrev address : Ipv4Addr
address = record { a = 10; b = 100; c = 0; d = 7 }

get_interface_ip-shown_example :
    get_interface_ip (some (unlines (headline ∷ []) (shown address 24 further ++ (10 ∷ headline))))
    ≡ some address
unfolding trim trim_start trim_end starts_with is_whitespace
get_interface_ip-shown_example =
    get_interface_ip-shown (headline ∷ []) address 24 further headline
      (omega arith, omega arith, omega arith, omega arith)
      (((refl, (refl, (refl, (refl, (refl, (refl, (refl, tt))))))), refl), tt)
      (refl, (refl, (refl, tt)))
