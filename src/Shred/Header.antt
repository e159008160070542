-- ===== src/Shred/Header.antt =====
-- src/shred.rs:16-22: the documented layout of a shred, written out as an encoder.
use native.Mathlib.Nat.{pow-suc}
use orbshred.Prelude.{ℕ, zero, suc, ◌/◌, ◌%◌, ◌^◌, ◌<◌, ◌≡◌, refl, ap, ◌∷◌, [], ◌++◌, arith, length}
use orbshred.Exec.{Bytes, from_le_bytes}

-- The `n` low bytes of `x`, least significant first.
unfoldable pub to_le_bytes : ℕ → ℕ → Bytes
to_le_bytes zero x = []
to_le_bytes (suc n) x = (x % 256) ∷ to_le_bytes n (x / 256)

pub record Header : Type 0 where
  pub signature : Bytes
  pub variant : ℕ
  pub slot : ℕ
  pub index : ℕ
  pub version : ℕ
  pub fec_set_index : ℕ

unfoldable pub encode : Header → Bytes → Bytes
encode h payload =
    h.signature
    ++ (h.variant
        ∷ (to_le_bytes 8 h.slot
            ++ (to_le_bytes 4 h.index
                ++ (to_le_bytes 2 h.version ++ (to_le_bytes 4 h.fec_set_index ++ payload)))))

pub length-to_le_bytes : (n x : ℕ) → length (to_le_bytes n x) ≡ n
unfolding to_le_bytes
length-to_le_bytes zero x = refl
length-to_le_bytes (suc n) x = ap suc (length-to_le_bytes n (x / 256))

pub from_le_bytes-to_le_bytes : (n x : ℕ) → x < 256 ^ n → from_le_bytes (to_le_bytes n x) ≡ x
unfolding to_le_bytes from_le_bytes
from_le_bytes-to_le_bytes zero x h = omega arith
from_le_bytes-to_le_bytes (suc n) x h =
    omega
      (arith, pow-suc 256 n, from_le_bytes-to_le_bytes n (x / 256) (omega (arith, pow-suc 256 n)))
