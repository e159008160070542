-- ===== src/Shred.antt =====
-- src/shred.rs: the shred header, its variant byte and `parse_shred_key`.
-- A buffer is a list of bytes; a read or a slice out of range is a panic of `Exec`.

pub mod Header
pub mod Parse
use orbshred.Prelude.{
  ℕ, ◌≡◌, refl, ◌↔◌, Bool, true, false, ◌&&◌, Option, none, some, bit_and, arith, length, ltb, ◌==◌,
  if◌then◌else◌,
}
use orbshred.Exec.{Exec, ok, ◌>>=◌, Bytes, index, slice, to_array, from_le_bytes}

pub data ShredType : Type 0 where
  data_shred code_shred : ShredType

pub record ShredKey : Type 0 where
  pub slot : ℕ
  pub index : ℕ
  pub shred_type : ShredType

abbrev pub min_shred_size : ℕ
min_shred_size = 83

unfoldable pub shred_type : ℕ → ShredType
shred_type v =
    if v == 0xA5
    then data_shred
    else if v == 0x5A
    then code_shred
    else if bit_and v 0x80 == 0
    then code_shred
    else data_shred

-- What follows the reads: `try_into().ok()?` on both slices, and the test of the slot.
unfoldable pub key_of : ℕ → Option Bytes → Option Bytes → Option ShredKey
key_of variant none index_bytes = none
key_of variant (some s) none = none
key_of variant (some s) (some i) =
    if from_le_bytes s == 0
    then none
    else some (record {
      slot = from_le_bytes s;
      index = from_le_bytes i;
      shred_type = shred_type variant;
    })

unfoldable pub parse_shred_key : Bytes → Exec (Option ShredKey)
parse_shred_key buf = if ltb (length buf) min_shred_size then ok none else do
  variant ← index buf 64
  slot_bytes ← slice buf 65 73
  index_bytes ← slice buf 73 77
  ok (key_of variant (to_array 8 slot_bytes) (to_array 4 index_bytes))

unfoldable pub same_type : ShredType → ShredType → Bool
same_type data_shred data_shred = true
same_type code_shred code_shred = true
same_type _ _ = false

-- The derived `PartialEq` of `ShredKey`.
unfoldable pub same_key : ShredKey → ShredKey → Bool
unfolding same_type
same_key a b = a.slot == b.slot && a.index == b.index && same_type a.shred_type b.shred_type

same_type_iff : (a b : ShredType) → (same_type a b ≡ true) ↔ (a ≡ b)
unfolding same_type
same_type_iff data_shred data_shred = (λ _. refl, λ _. refl)
same_type_iff data_shred code_shred = ground arith
same_type_iff code_shred data_shred = ground arith
same_type_iff code_shred code_shred = (λ _. refl, λ _. refl)

pub same_key_iff : (a b : ShredKey) → (same_key a b ≡ true) ↔ (a ≡ b)
unfolding same_key
same_key_iff a b = ground (arith, same_type_iff a.shred_type b.shred_type)
