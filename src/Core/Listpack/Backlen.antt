-- ===== src/Core/Listpack/Backlen.antt =====
-- src/core/listpack.rs: the length that stands behind each element, most significant group
-- first, with a continuation bit on every other group; it is read from its last byte backwards.
pub mod RoundTrip
use dragonflydb_rs.Common.{
  ℕ, zero, suc, ◌+◌, ◌*◌, ◌/◌, ◌%◌, ◌^◌, List, [], ◌∷◌, ◌++◌, Option, none, some, bit_and, bit_or,
  get_elem?, ltb, leb, ◌==◌, if◌then◌else◌, ◌>>=◌,
}

unfoldable pub backlen_size : ℕ → ℕ
backlen_size l =
    if leb l 127
    then 1
    else if leb l 16382
    then 2
    else if leb l 2097150
    then 3
    else if leb l 268435454
    then 4
    else 5

-- `((l >> k) & 127) | 128) as u8`, a group with its continuation bit.
abbrev pub more_group : ℕ → ℕ → ℕ
more_group l k = bit_or (bit_and (l / 2 ^ k) 127) 128 % 256

-- `(l >> k) as u8`, the most significant group.
abbrev pub top_group : ℕ → ℕ → ℕ
top_group l k = l / 2 ^ k % 256

unfoldable pub backlen_groups : ℕ → ℕ → List ℕ
backlen_groups size l =
    if size == 1
    then top_group l 0 ∷ []
    else if size == 2
    then top_group l 7 ∷ more_group l 0 ∷ []
    else if size == 3
    then top_group l 14 ∷ more_group l 7 ∷ more_group l 0 ∷ []
    else if size == 4
    then top_group l 21 ∷ more_group l 14 ∷ more_group l 7 ∷ more_group l 0 ∷ []
    else top_group l 28 ∷ more_group l 21 ∷ more_group l 14 ∷ more_group l 7 ∷ more_group l 0 ∷ []

unfoldable pub write_backlen : List ℕ → ℕ → List ℕ
unfolding backlen_groups backlen_size
write_backlen out l = out ++ backlen_groups (backlen_size l) l

-- `val |= (b & 127) << shift`
abbrev pub add_group : ℕ → ℕ → ℕ → ℕ
add_group val b shift = bit_or val (bit_and b 127 * 2 ^ shift)

-- The loop of `decode_backlen`; the recursion is on `pos`, which the loop decrements.
unfoldable pub decode_loop : List ℕ → ℕ → ℕ → ℕ → Option ℕ
decode_loop buf zero val shift = do
  b ← get_elem? buf 0
  if bit_and b 128 == 0 then some (add_group val b shift) else none
decode_loop buf (suc pos) val shift =
    let rest = λ (b : ℕ). decode_loop buf pos (add_group val b shift) (shift + 7) in
    do
      b ← get_elem? buf (suc pos)
      if bit_and b 128 == 0
          then some (add_group val b shift)
          else if ltb 28 (shift + 7)
          then none
          else rest b

unfoldable pub decode_backlen : List ℕ → ℕ → Option ℕ
unfolding decode_loop
decode_backlen buf pos = decode_loop buf pos 0 0
