-- ===== src/Setup/Captures/Sockets.antt =====
-- src/main.rs:281-305: what each shared socket is opened with.
use orbshred.Prelude.{◌≤◌, ◌≡◌, refl, List, [], ◌∷◌, map, max, All, ℕ, arith}
use orbshred.Setup.Captures.{CaptureKey, Member, Groups, CaptureRun, largest_buf, capture_of}

-- What one socket is opened with: the port and the interface of its group, room for the largest buffer,
-- and one route for each member, under the member's id and with its addresses.
abbrev pub Runs : CaptureKey × List Member → CaptureRun → Type 0
Runs (key, members) r =
    (r.port ≡ key.port)
    × (r.interface ≡ key.interface)
    × All (λ (m : Member). m.recv_buf_size ≤ r.recv_buf_size) members
    × (r.routes
        ≡ map
            (λ (m : Member). record {
              source_id = m.id;
              include_ips = m.include_ips;
              exclude_ips = m.exclude_ips;
            })
            members)

-- One socket for each group, in the groups' order.
abbrev pub RunsEach : Groups → List CaptureRun → Type 0
RunsEach [] [] = Unit {0}
RunsEach [] (r ∷ rs) = ⊥
RunsEach (g ∷ gs) [] = ⊥
RunsEach (g ∷ gs) (r ∷ rs) = Runs g r × RunsEach gs rs

All-raise :
    (a b : ℕ) (ms : List Member)
    → a ≤ b
    → All (λ (m : Member). m.recv_buf_size ≤ a) ms
    → All (λ (m : Member). m.recv_buf_size ≤ b) ms
All-raise a b [] h l = tt
All-raise a b (m ∷ ms) h l = (omega (arith, h, l.0), All-raise a b ms h l.1)

largest_buf-bounds : (ms : List Member) → All (λ (m : Member). m.recv_buf_size ≤ largest_buf ms) ms
unfolding largest_buf
largest_buf-bounds [] = tt
largest_buf-bounds (m ∷ ms) = (
  omega arith,
  All-raise (largest_buf ms) (max m.recv_buf_size (largest_buf ms)) ms (omega arith)
      (largest_buf-bounds ms),
)

pub capture_of-RunsEach : (gs : Groups) → RunsEach gs (map capture_of gs)
unfolding capture_of
capture_of-RunsEach [] = tt
capture_of-RunsEach ((key, ms) ∷ gs) =
    ((refl, refl, largest_buf-bounds ms, refl), capture_of-RunsEach gs)
