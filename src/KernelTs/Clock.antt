-- ===== src/KernelTs/Clock.antt =====
-- src/sources/kernel_ts.rs:43-54: what the conversion between the two clocks keeps.
use orbshred.Prelude.{ℕ, ◌+◌, ◌^◌, ◌≤◌, ◌<◌, ◌≡◌, arith}
use orbshred.Prelude.Int.{ℤ, pos, pos_part, neg_part, ◌-ℤ◌, int_laws}
use orbshred.KernelTs.{ClockAnchor, instant_from_realtime_ns, shift_instant}

-- The time is less than 2^64 ns after the anchor, and no instant is before the earliest one.
abbrev pub InWindow : ClockAnchor → ℤ → Type 0
InWindow a ts =
    (pos_part (ts -ℤ a.realtime_ns) < 2 ^ 64)
    × (neg_part (ts -ℤ a.realtime_ns) < 2 ^ 64)
    × (neg_part (ts -ℤ a.realtime_ns) ≤ a.instant)

shift_parts :
    (t : ℕ) (d : ℤ)
    → pos_part d < 2 ^ 64
    → neg_part d < 2 ^ 64
    → neg_part d ≤ t
    → shift_instant t d + neg_part d ≡ t + pos_part d
unfolding shift_instant
shift_parts t d p q r = ground arith

-- The conversion keeps distances: two kernel times that lie in the anchor's window become instants
-- that are as far apart, and in the same order.
pub instant_distances :
    (a : ClockAnchor) (ts us : ℤ)
    → InWindow a ts
    → InWindow a us
    → pos (instant_from_realtime_ns a us) -ℤ pos (instant_from_realtime_ns a ts) ≡ us -ℤ ts
unfolding instant_from_realtime_ns
instant_distances a ts us h k =
    let e = shift_parts a.instant (ts -ℤ a.realtime_ns) h.0 h.1 h.2 in
    let f = shift_parts a.instant (us -ℤ a.realtime_ns) k.0 k.1 k.2 in omega (int_laws, e, f)
