-- ===== src/Pcap/Route.antt =====
-- src/sources/pcap.rs:13-17 and 112-125: the routes and their address filters. A `HashSet` of
-- addresses is a list.
use orbshred.Prelude.{
  ◌≡◌, refl, ◌↔◌, ◌⊎◌, inl, inr, Bool, true, false, not, ◌&&◌, ◌||◌, Option, none, some, List, [],
  ◌∷◌, arith, ◌==◌, if◌then◌else◌, subst, sym, Bool-cases,
}
use orbshred.Pcap.{Ipv4Addr}
use orbshred.Registry.{SourceId}

pub record PcapRoute : Type 0 where
  pub source_id : SourceId
  pub include_ips : List Ipv4Addr
  pub exclude_ips : List Ipv4Addr

abbrev pub same_ip : Ipv4Addr → Ipv4Addr → Bool
same_ip x y = x.a == y.a && x.b == y.b && x.c == y.c && x.d == y.d

abbrev pub is_empty : List Ipv4Addr → Bool
is_empty [] = true
is_empty (x ∷ xs) = false

unfoldable pub has_ip : Ipv4Addr → List Ipv4Addr → Bool
has_ip ip [] = false
has_ip ip (x ∷ xs) = same_ip x ip || has_ip ip xs

unfoldable pub has_filter : PcapRoute → Bool
has_filter r = not (is_empty r.include_ips) || not (is_empty r.exclude_ips)

-- The two tests on a known address.
unfoldable pub address_matches : PcapRoute → Ipv4Addr → Bool
address_matches r ip =
    if not (is_empty r.include_ips) && not (has_ip ip r.include_ips)
    then false
    else if not (is_empty r.exclude_ips) && has_ip ip r.exclude_ips
    then false
    else true

unfoldable pub route_matches : PcapRoute → Option Ipv4Addr → Bool
route_matches r src =
    if not (has_filter r) then true else elim src [ none ↦ false | some ip ↦ address_matches r ip ]

-- What a route asks of an address: it is included, if any is, and not excluded.
abbrev pub Allowed : PcapRoute → Ipv4Addr → Type 0
Allowed r ip =
    ((r.include_ips ≡ []) ⊎ (has_ip ip r.include_ips ≡ true)) × (has_ip ip r.exclude_ips ≡ false)

included_iff :
    (ip : Ipv4Addr) (l : List Ipv4Addr)
    → ((not (is_empty l) && not (has_ip ip l)) ≡ false) ↔ ((l ≡ []) ⊎ (has_ip ip l ≡ true))
included_iff ip [] = ((λ _. inl refl), λ _. refl)
included_iff ip (x ∷ xs) = ground arith

excluded_iff :
    (ip : Ipv4Addr) (l : List Ipv4Addr)
    → ((not (is_empty l) && has_ip ip l) ≡ false) ↔ (has_ip ip l ≡ false)
unfolding has_ip
excluded_iff ip [] = ((λ _. refl), λ _. refl)
excluded_iff ip (x ∷ xs) = ground arith

pub address_matches_iff :
    (r : PcapRoute) (ip : Ipv4Addr) → (address_matches r ip ≡ true) ↔ Allowed r ip
unfolding address_matches
address_matches_iff r ip =
    ground (arith, included_iff ip r.include_ips, excluded_iff ip r.exclude_ips)

some_inj : (x y : Ipv4Addr) → some x ≡ some y → x ≡ y
some_inj x y e = ground (arith, e)

-- A route takes a packet exactly when it has no filter, or when the packet's source address is
-- known, is included if the route includes any, and is not excluded.
pub route_matches_iff :
    (r : PcapRoute) (src : Option Ipv4Addr)
    → (route_matches r src ≡ true)
      ↔ ((has_filter r ≡ false) ⊎ ((ip : Ipv4Addr) × (src ≡ some ip) × Allowed r ip))
unfolding route_matches
route_matches_iff r none = ground arith
route_matches_iff r (some ip) = elim (Bool-cases (has_filter r)) [
  | inl on ↦ rw on (
    (λ e. inr (ip, refl, (address_matches_iff r ip).0 e)),
    λ h. elim h [
      | inl off ↦ absurd (cc off)
      | inr (j, e, a) ↦ (address_matches_iff r ip).1 (subst (Allowed r) (sym (some_inj ip j e)) a)
    ],
  )
  | inr off ↦ rw off ((λ _. inl refl), λ _. refl)
]
