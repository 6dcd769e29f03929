-- ===== src/Core/Listpack/Encode/RoundTrip.antt =====
-- src/core/listpack.rs: each encoding that is written is decoded to what was encoded.
use dragonflydb_rs.Common.{
  ℕ, suc, ◌+◌, ◌*◌, ◌/◌, ◌%◌, ◌^◌, ◌≤◌, ◌<◌, ◌≡◌, refl, ap, sym, ◌∙◌, arith, true, inl, inr,
  Bool-cases, ltb→lt, List, [], ◌∷◌, ◌++◌, some, slice, length, mask_80, mask_c0, mask_e0, mask_f0,
  mask_1f, mask_3f, mask_0f, tag_80, tag_c0, tag_e0, bit_or_fields, bit_and_mask, bit_and, bit_or,
  leb, ltb, if◌then◌else◌, ◌&&◌, slice_middle,
}
use mathlib.Core.Path.{subst}
use dragonflydb_rs.Common.Int.{ℤ, pos, ◌-ℤ◌, IsI64, leb_ℤ, to_signed, to_unsigned}
use dragonflydb_rs.Common.Le.{le_bytes, from_le-le_bytes, length-le_bytes}
use dragonflydb_rs.Core.Listpack.Encode.{encode_integer, string_head, unsigned, fits}
use dragonflydb_rs.Core.Listpack.Decode.{
  read_le, entry_at, encoded_size, Entry, int, str, shift_right_8, int_13bit, len_12bit,
}

-- The bytes of an element, without the length behind it.
unfoldable pub encode_entry : Entry → List ℕ
encode_entry (int v) = encode_integer v
encode_entry (str s) = string_head (length s) ++ s

-- A number behind the first byte is read back.
read_le_front :
    (n v b : ℕ) (rest : List ℕ) → v < 256 ^ n → read_le n (b ∷ le_bytes n v ++ rest) 1 ≡ some v
unfolding read_le
read_le_front n v b rest h = rw front (ap some (from_le-le_bytes n v h))
  where
    front : slice (b ∷ le_bytes n v ++ rest) 1 n ≡ some (le_bytes n v)
    front =
        ap (slice (b ∷ le_bytes n v ++ rest) 1) (sym (length-le_bytes n v))
        ∙ slice_middle (b ∷ []) (le_bytes n v) rest

-- What the two readers say of an element `e` of `size` bytes at the front of `buf`.
abbrev Reads : Entry → ℕ → List ℕ → Type 0
Reads e size buf = (entry_at buf 0 ≡ some e) × (encoded_size buf 0 ≡ some size)

one_byte : (n : ℕ) (rest : List ℕ) → n ≤ 127 → Reads (int (pos n)) 1 (n % 256 ∷ rest)
unfolding entry_at encoded_size
one_byte n rest h = ground (arith, mask_80 n)

two_bytes :
    (u : ℕ) (rest : List ℕ)
    → u < 8192
    → Reads
        (int (if leb 4096 u then pos u -ℤ pos 8192 else pos u))
        2
        (bit_or 0xc0 (u / 2 ^ 8 % 256) ∷ u % 256 ∷ rest)
unfolding entry_at encoded_size
two_bytes u rest h =
    let b = 0xc0 + u / 256 in
    let head : bit_or 0xc0 (u / 2 ^ 8 % 256) ≡ b =
      tag_c0 (u / 2 ^ 8 % 256) (omega arith) ∙ omega arith in
    let value : bit_and (int_13bit b (u % 256)) 0x1fff ≡ u =
      ap (λ t. bit_and t 0x1fff) (rw (mask_1f b) (bit_or_fields 8 (b % 32) (u % 256) (omega arith)))
      ∙ bit_and_mask 13 (b % 32 * 256 + u % 256)
      ∙ omega arith in
    rw (head, value) (ground (arith, mask_80 b, mask_c0 b, mask_e0 b))

module _ (u : ℕ) (rest : List ℕ) where
  three_bytes : u < 256 ^ 2 → Reads (int (to_signed (2 ^ 15) u)) 3 (0xf1 ∷ le_bytes 2 u ++ rest)
  unfolding entry_at encoded_size
  three_bytes h = (rw (read_le_front 2 u 0xf1 rest h), refl)

  four_bytes :
      u < 256 ^ 3
      → Reads (int (shift_right_8 (to_signed (2 ^ 31) (u * 2 ^ 8)))) 4 (0xf2 ∷ le_bytes 3 u ++ rest)
  unfolding entry_at encoded_size
  four_bytes h = (rw (read_le_front 3 u 0xf2 rest h), refl)

  five_bytes : u < 256 ^ 4 → Reads (int (to_signed (2 ^ 31) u)) 5 (0xf3 ∷ le_bytes 4 u ++ rest)
  unfolding entry_at encoded_size
  five_bytes h = (rw (read_le_front 4 u 0xf3 rest h), refl)

  nine_bytes : u < 256 ^ 8 → Reads (int (to_signed (2 ^ 63) u)) 9 (0xf4 ∷ le_bytes 8 u ++ rest)
  unfolding entry_at encoded_size
  nine_bytes h = (rw (read_le_front 8 u 0xf4 rest h), refl)

-- Each width gives its values back from their residues, and the residues fit the width.
module _ (v : ℤ) where
  width_13 :
      fits 4096 v ≡ true
      → (unsigned 13 v < 8192)
        × ((if leb 4096 (unsigned 13 v)
              then pos (unsigned 13 v) -ℤ pos 8192
              else pos (unsigned 13 v))
            ≡ v)
  unfolding ◌-ℤ◌
  width_13 h = (ground arith, ground arith)

  width_16 :
      fits 32768 v ≡ true → (unsigned 16 v < 256 ^ 2) × (to_signed (2 ^ 15) (unsigned 16 v) ≡ v)
  width_16 h = (ground arith, ground arith)

  width_24 :
      fits 8388608 v ≡ true
      → (unsigned 24 v < 256 ^ 3) × (shift_right_8 (to_signed (2 ^ 31) (unsigned 24 v * 2 ^ 8)) ≡ v)
  width_24 h = (ground arith, ground arith)

  width_32 :
      fits 2147483648 v ≡ true
      → (unsigned 32 v < 256 ^ 4) × (to_signed (2 ^ 31) (unsigned 32 v) ≡ v)
  width_32 h = (ground arith, ground arith)

  width_64 :
      IsI64 v
      → (to_unsigned (2 ^ 64) v < 256 ^ 8) × (to_signed (2 ^ 63) (to_unsigned (2 ^ 64) v) ≡ v)
  width_64 h = (ground arith, ground arith)

  unsigned_pos :
      leb_ℤ (pos 0) v && leb_ℤ v (pos 127) ≡ true → (unsigned 8 v ≤ 127) × (pos (unsigned 8 v) ≡ v)
  unsigned_pos h = ground arith

  -- The element that an integer is written as reads back as that integer, at its whole size.
  Reads-integer :
      (rest : List ℕ)
      → IsI64 v
      → Reads (int v) (length (encode_integer v)) (encode_integer v ++ rest)
  unfolding encode_integer
  Reads-integer rest h = elim (Bool-cases (leb_ℤ (pos 0) v && leb_ℤ v (pos 127))) [
    | inl a ↦ rw a (
        let (lt, e) = unsigned_pos a in
        subst (λ x. Reads (int x) 1 (unsigned 8 v % 256 ∷ rest)) e
          (one_byte (unsigned 8 v) rest lt))
    | inr a ↦ rw a (elim (Bool-cases (fits 4096 v)) [
      | inl b ↦ rw b (
          let (lt, e) = width_13 b in
          subst
            (λ x.
              Reads (int x) 2
                (bit_or 0xc0 (unsigned 13 v / 2 ^ 8 % 256) ∷ unsigned 13 v % 256 ∷ rest))
            e (two_bytes (unsigned 13 v) rest lt))
      | inr b ↦ rw b (elim (Bool-cases (fits 32768 v)) [
        | inl c ↦ rw c (
            let (lt, e) = width_16 c in
            subst (λ x. Reads (int x) 3 (0xf1 ∷ le_bytes 2 (unsigned 16 v) ++ rest)) e
              (three_bytes (unsigned 16 v) rest lt))
        | inr c ↦ rw c (elim (Bool-cases (fits 8388608 v)) [
          | inl d ↦ rw d (
              let (lt, e) = width_24 d in
              subst (λ x. Reads (int x) 4 (0xf2 ∷ le_bytes 3 (unsigned 24 v) ++ rest)) e
                (four_bytes (unsigned 24 v) rest lt))
          | inr d ↦ rw d (elim (Bool-cases (fits 2147483648 v)) [
            | inl w ↦ rw w (
                let (lt, e) = width_32 w in
                subst (λ x. Reads (int x) 5 (0xf3 ∷ le_bytes 4 (unsigned 32 v) ++ rest)) e
                  (five_bytes (unsigned 32 v) rest lt))
            | inr w ↦ rw w (
                let (lt, e) = width_64 h in
                subst (λ x. Reads (int x) 9 (0xf4 ∷ le_bytes 8 (to_unsigned (2 ^ 64) v) ++ rest)) e
                  (nine_bytes (to_unsigned (2 ^ 64) v) rest lt))
          ])
        ])
      ])
    ])
  ]

module _ (s rest : List ℕ) where
  short_string :
      length s < 64 → Reads (str s) (suc (length s)) (bit_or 0x80 (length s % 256) ∷ s ++ rest)
  unfolding entry_at encoded_size
  short_string h =
      let b = 0x80 + length s in
      let head : bit_or 0x80 (length s % 256) ≡ b =
        tag_80 (length s % 256) (omega arith) ∙ omega arith in
      let len : bit_and b 0x3f ≡ length s = mask_3f b ∙ omega arith in
      rw (head, len, slice_middle (b ∷ []) s rest) (ground (arith, mask_80 b, mask_c0 b))

  medium_string :
      length s < 4096
      → Reads
          (str s)
          (suc (suc (length s)))
          (bit_or 0xe0 (bit_and (length s / 2 ^ 8 % 256) 0x0f) ∷ length s % 256 ∷ s ++ rest)
  unfolding entry_at encoded_size
  medium_string h =
      let b = 0xe0 + length s / 256 in
      let c = length s % 256 in
      let field : bit_and (length s / 2 ^ 8 % 256) 0x0f ≡ length s / 256 =
        mask_0f (length s / 2 ^ 8 % 256) ∙ omega arith in
      let head : bit_or 0xe0 (length s / 256) ≡ b = tag_e0 (length s / 256) (omega arith) in
      let len : len_12bit b c ≡ length s =
        rw (mask_0f b) (omega (arith, bit_or_fields 8 (b % 16) c (omega arith))) in
      rw (field, head, len, slice_middle (b ∷ c ∷ []) s rest)
        (ground (arith, mask_80 b, mask_c0 b, mask_e0 b, mask_f0 b))

  long_string :
      length s < 2 ^ 32
      → Reads
          (str s)
          (suc (suc (suc (suc (suc (length s))))))
          (0xf0 ∷ le_bytes 4 (length s % 2 ^ 32) ++ (s ++ rest))
  unfolding entry_at encoded_size
  long_string h =
      let n = length s in
      let len : n % 2 ^ 32 ≡ n = omega arith in
      rw
        (
          len,
          read_le_front 4 n 0xf0 (s ++ rest) (omega arith),
          slice_middle (0xf0 ∷ le_bytes 4 n) s rest,
        )
        (refl, ap some (omega arith))

  -- The element that a string is written as reads back as that string, at its whole size.
  Reads-string :
      length s < 2 ^ 32
      → Reads (str s) (length (string_head (length s) ++ s)) ((string_head (length s) ++ s) ++ rest)
  unfolding string_head
  Reads-string h = elim (Bool-cases (ltb (length s) 64)) [
    | inl short ↦ rw short (short_string (ltb→lt _ _ short))
    | inr long ↦ rw long (elim (Bool-cases (ltb (length s) 4096)) [
      | inl medium ↦ rw medium (medium_string (ltb→lt _ _ medium))
      | inr huge ↦ rw huge (long_string h)
    ])
  ]

-- The entries that the format can hold.
abbrev pub Encodable : Entry → Type 0
Encodable (int v) = IsI64 v
Encodable (str s) = length s < 2 ^ 32

-- Whatever follows an encoded element, `entry_at` decodes it and `encoded_size` measures it.
pub reads_entry :
    (e : Entry) (rest : List ℕ)
    → Encodable e
    → (entry_at (encode_entry e ++ rest) 0 ≡ some e)
      × (encoded_size (encode_entry e ++ rest) 0 ≡ some (length (encode_entry e)))
unfolding encode_entry
reads_entry (int v) rest h = Reads-integer v rest h
reads_entry (str s) rest h = Reads-string s rest h
