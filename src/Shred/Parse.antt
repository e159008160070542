-- ===== src/Shred/Parse.antt =====
-- src/shred.rs: what `parse_shred_key` accepts and returns.
use orbshred.Prelude.{
  ℕ, ◌+◌, ◌^◌, ◌≤◌, ◌<◌, ◌≡◌, ◌≢◌, ◌↔◌, refl, ◌∙◌, inl, inr, none, some, ◌∷◌, [], arith, length,
  length-append, take, drop, length-take, length-drop, ltb, leb, ◌==◌, if◌then◌else◌, Bool-cases,
  ltb→lt, ltb_of_le,
}
use orbshred.Prelude.Bits.{bit_and-top_bit}
use orbshred.Exec.{
  ok, Bytes, Returns, AreBytes, index, slice, to_array, from_le_bytes, byte_at, index_ok, slice_ok,
  slice_shift, slice-append, index-append, to_array_ok, AreBytes-take, AreBytes-drop,
  from_le_bytes-lt,
}
use orbshred.Shred.{ShredKey, data_shred, code_shred, shred_type, key_of, parse_shred_key}
use orbshred.Shred.Header.{
  Header, encode, to_le_bytes, length-to_le_bytes, from_le_bytes-to_le_bytes,
}

-- Of a byte, bit 7 alone decides the type: the two special values agree with it.
pub shred_type_top_bit :
    (v : ℕ) → v < 256 → shred_type v ≡ (if leb 128 v then data_shred else code_shred)
unfolding shred_type
shred_type_top_bit v h = ground (arith, bit_and-top_bit v h)

-- The reads of a long enough buffer.
pub parse_long :
    (buf : Bytes)
    → 83 ≤ length buf
    → parse_shred_key buf
      ≡ ok (
          key_of
            (byte_at buf 64)
            (to_array 8 (take 8 (drop 65 buf)))
            (to_array 4 (take 4 (drop 73 buf))))
unfolding parse_shred_key
parse_long buf h = rw (
  ltb_of_le (length buf) 83 h,
  index_ok buf 64 (omega arith),
  slice_ok buf 65 73 (omega arith) (omega arith),
  slice_ok buf 73 77 (omega arith) (omega arith),
)

pub parse_short : (buf : Bytes) → length buf < 83 → parse_shred_key buf ≡ ok none
unfolding parse_shred_key
parse_short buf h = ground arith

-- Whatever the datagram holds, the parser returns: none of its reads is out of range.
pub parse-Returns : (buf : Bytes) → Returns (parse_shred_key buf)
parse-Returns buf = elim (Bool-cases (ltb (length buf) 83)) [
  | inl short ↦ (none, parse_short buf (ltb→lt _ _ short))
  | inr long ↦ (_, parse_long buf (ground arith))
]

module _ (h : Header) (payload : Bytes) (sig : length h.signature ≡ 64) where
  encoded_variant : index (encode h payload) 64 ≡ ok h.variant
  unfolding encode index
  encoded_variant = index-append h.signature _ 64 0 (omega arith)

  encoded_slot : slice (encode h payload) 65 73 ≡ ok (to_le_bytes 8 h.slot)
  unfolding encode
  encoded_slot =
      slice_shift h.signature _ 65 73 1 9 (omega arith) (omega arith)
      ∙ slice_shift (h.variant ∷ []) _ 1 9 0 8 (omega arith) (omega arith)
      ∙ slice-append [] (to_le_bytes 8 h.slot) _ 0 8 (omega arith)
          (omega (arith, length-to_le_bytes 8 h.slot))

  encoded_index : slice (encode h payload) 73 77 ≡ ok (to_le_bytes 4 h.index)
  unfolding encode
  encoded_index =
      slice_shift h.signature _ 73 77 9 13 (omega arith) (omega arith)
      ∙ slice_shift (h.variant ∷ []) _ 9 13 8 12 (omega arith) (omega arith)
      ∙ slice_shift (to_le_bytes 8 h.slot) _ 8 12 0 4 (omega (arith, length-to_le_bytes 8 h.slot))
          (omega (arith, length-to_le_bytes 8 h.slot))
      ∙ slice-append [] (to_le_bytes 4 h.index) _ 0 4 (omega arith)
          (omega (arith, length-to_le_bytes 4 h.index))

  length-encode : length (encode h payload) ≡ 83 + length payload
  unfolding encode
  length-encode = simp (length-append, length-to_le_bytes) (omega (arith, sig))

-- A shred laid out as documented parses to its own key, whatever its signature, version, FEC set
-- and payload are, if the slot is not 0 and the numbers fit their fields.
pub parse-encode :
    (h : Header) (payload : Bytes)
    → length h.signature ≡ 64
    → h.slot ≢ 0
    → h.slot < 2 ^ 64
    → h.index < 2 ^ 32
    → parse_shred_key (encode h payload)
      ≡ ok (some (record { slot = h.slot; index = h.index; shred_type = shred_type h.variant }))
unfolding parse_shred_key key_of
parse-encode h payload sig nonzero s i =
    rw
      (
        ltb_of_le (length (encode h payload)) 83 (omega (arith, length-encode h payload sig)),
        encoded_variant h payload sig,
        encoded_slot h payload sig,
        encoded_index h payload sig,
        to_array_ok 8 (to_le_bytes 8 h.slot) (length-to_le_bytes 8 h.slot),
        to_array_ok 4 (to_le_bytes 4 h.index) (length-to_le_bytes 4 h.index),
        from_le_bytes-to_le_bytes 8 h.slot s,
        from_le_bytes-to_le_bytes 4 h.index i,
      )
      (ground arith)

-- The two number fields of a long enough buffer.
abbrev pub slot_field : Bytes → ℕ
slot_field buf = from_le_bytes (take 8 (drop 65 buf))

abbrev pub index_field : Bytes → ℕ
index_field buf = from_le_bytes (take 4 (drop 73 buf))

pub parse_fields :
    (buf : Bytes)
    → 83 ≤ length buf
    → parse_shred_key buf
      ≡ ok (
          if slot_field buf == 0
          then none
          else some (record {
            slot = slot_field buf;
            index = index_field buf;
            shred_type = shred_type (byte_at buf 64);
          }))
unfolding key_of
parse_fields buf h =
    parse_long buf h
    ∙ rw
        (
          to_array_ok 8 (take 8 (drop 65 buf))
              (omega (arith, length-take 8 (drop 65 buf), length-drop 65 buf)),
          to_array_ok 4 (take 4 (drop 73 buf))
              (omega (arith, length-take 4 (drop 73 buf), length-drop 73 buf)),
        )
        (refl)

-- What it means for a key to be read off a buffer: the buffer holds a whole header, its slot is
-- not 0, and each part of the key is the field at the documented place.
abbrev pub KeyOf : Bytes → ShredKey → Type 0
KeyOf buf k =
    (83 ≤ length buf)
    × (k.slot ≢ 0)
    × (k.slot ≡ slot_field buf)
    × (k.index ≡ index_field buf)
    × (k.shred_type ≡ shred_type (byte_at buf 64))

-- The parser returns a key exactly when the buffer holds it.
pub parse_iff_KeyOf :
    (buf : Bytes) (k : ShredKey) → (parse_shred_key buf ≡ ok (some k)) ↔ KeyOf buf k
parse_iff_KeyOf buf k = elim (Bool-cases (ltb (length buf) 83)) [
  | inl short ↦
      (λ e. cc (parse_short buf (ltb→lt _ _ short)), λ f. absurd (omega (arith, ltb→lt _ _ short)))
  | inr long ↦
      let fields = parse_fields buf (ground arith) in
      (λ e. ground (arith, fields), λ f. ground (arith, fields))
]

field_lt :
    (n k : ℕ) (buf : Bytes)
    → AreBytes buf
    → k + n ≤ length buf
    → from_le_bytes (take n (drop k buf)) < 256 ^ n
field_lt n k buf b h =
    let e : length (take n (drop k buf)) ≡ n =
      omega (arith, length-take n (drop k buf), length-drop k buf) in
    rw e at (from_le_bytes-lt (take n (drop k buf)) (AreBytes-take n _ (AreBytes-drop k buf b)))

-- A key read off a buffer of bytes fits the machine widths of its fields.
pub parse_bounds :
    (buf : Bytes) (k : ShredKey)
    → AreBytes buf
    → parse_shred_key buf ≡ ok (some k)
    → (k.slot < 2 ^ 64) × (k.index < 2 ^ 32)
parse_bounds buf k b e =
    let f = (parse_iff_KeyOf buf k).0 e in
    (
      omega (arith, field_lt 8 65 buf b (omega arith)),
      omega (arith, field_lt 4 73 buf b (omega arith)),
    )
