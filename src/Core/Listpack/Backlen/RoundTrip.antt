-- ===== src/Core/Listpack/Backlen/RoundTrip.antt =====
-- src/core/listpack.rs: `write_backlen` against `decode_backlen`.
use dragonflydb_rs.Common.{
  ℕ, zero, suc, ◌+◌, ◌-◌, ◌*◌, ◌/◌, ◌%◌, ◌^◌, ◌≤◌, ◌<◌, ◌≡◌, refl, ap, ◌∙◌, arith, List, [], ◌∷◌,
  ◌++◌, some, bit_and, bit_or, get_elem?, length, length-append, append_assoc, get_elem?_front,
  mask_7f, mask_80, or_80, bit_or_low,
}
use native.Mathlib.Nat.{pow-suc, div-add-mod}
use native.Mathlib.Numerals.{towards_suc}
use dragonflydb_rs.Core.Listpack.Backlen.{
  backlen_size, backlen_groups, write_backlen, decode_loop, decode_backlen, add_group,
}

-- The groups of `l`, for an `l` below 128 ^ (k + 1), in plain arithmetic.
unfoldable pub groups : ℕ → ℕ → List ℕ
groups zero l = l ∷ []
groups (suc k) l = groups k (l / 128) ++ (l % 128 + 128) ∷ []

pub length-groups : (k l : ℕ) → length (groups k l) ≡ k + 1
unfolding groups
length-groups zero l = refl
length-groups (suc k) l =
    omega
      (arith, length-groups k (l / 128), length-append (groups k (l / 128)) ((l % 128 + 128) ∷ []))

pub more_group_lem : (x : ℕ) → bit_or (bit_and x 127) 128 % 256 ≡ x % 128 + 128
more_group_lem x = rw (mask_7f x, or_80 (x % 128) (omega arith)) (omega arith)

-- The five forms that are written are the groups.
pub backlen_groups_lem :
    (l : ℕ) → l < 2 ^ 35 → backlen_groups (backlen_size l) l ≡ groups (backlen_size l - 1) l
unfolding backlen_groups backlen_size groups
backlen_groups_lem l h = ground (
  arith,
  more_group_lem (l / 2 ^ 0),
  more_group_lem (l / 2 ^ 7),
  more_group_lem (l / 2 ^ 14),
  more_group_lem (l / 2 ^ 21),
)

add_group_lem :
    (val b shift : ℕ) → val < 2 ^ shift → add_group val b shift ≡ b % 128 * 2 ^ shift + val
add_group_lem val b shift h = rw (mask_7f b) (bit_or_low shift (b % 128) val h)

decode_loop_last :
    (buf : List ℕ) (at val b shift : ℕ)
    → get_elem? buf at ≡ some b
    → b < 128
    → val < 2 ^ shift
    → decode_loop buf at val shift ≡ some (b * 2 ^ shift + val)
unfolding decode_loop
decode_loop_last buf zero val b shift e h fits =
    rw e (ground (arith, mask_80 b, add_group_lem val b shift))
decode_loop_last buf (suc at) val b shift e h fits =
    rw e (ground (arith, mask_80 b, add_group_lem val b shift))

decode_loop_more :
    (buf : List ℕ) (at val b shift : ℕ)
    → get_elem? buf (suc at) ≡ some b
    → 128 ≤ b
    → b < 256
    → val < 2 ^ shift
    → shift + 7 ≤ 28
    → decode_loop buf (suc at) val shift
      ≡ decode_loop buf at (b % 128 * 2 ^ shift + val) (shift + 7)
unfolding decode_loop
decode_loop_more buf at val b shift e lo hi fits few =
    rw (e, add_group_lem val b shift fits) (ground (arith, mask_80 b))

shift_seven : (s : ℕ) → 2 ^ (s + 7) ≡ 128 * 2 ^ s
shift_seven s = simp towards_suc (omega arith)

-- Adding the lowest group keeps the value below the next shift, and does not change the sum.
group_fits : (r val s : ℕ) → r < 128 → val < 2 ^ s → r * 2 ^ s + val < 2 ^ (s + 7)
group_fits r val s h fits =
    let e : r * 2 ^ s ≤ 127 * 2 ^ s = grind arith in omega (arith, shift_seven s)

group_sum : (l val s : ℕ) → l / 128 * 2 ^ (s + 7) + (l % 128 * 2 ^ s + val) ≡ l * 2 ^ s + val
group_sum l val s = omega (
  arith,
  ap (λ (t : ℕ). t * 2 ^ s) (div-add-mod l 128),
  ap (λ (t : ℕ). l / 128 * t) (shift_seven s),
)

-- Reading `groups k l` from its last byte, with what has been read so far.
decode_loop-groups :
    (k l val shift : ℕ) (pre rest : List ℕ)
    → l < 128 ^ suc k
    → val < 2 ^ shift
    → shift + 7 * k ≤ 28
    → decode_loop (pre ++ (groups k l ++ rest)) (length pre + k) val shift
      ≡ some (l * 2 ^ shift + val)
unfolding groups
decode_loop-groups zero l val shift pre rest h fits few =
    let e : length pre + 0 ≡ length pre = omega arith in
    rw e (decode_loop_last _ _ val l shift (get_elem?_front pre rest l) (omega arith) fits)
decode_loop-groups (suc k) l val shift pre rest h fits few =
    let b = l % 128 + 128 in
    let front = pre ++ groups k (l / 128) in
    let regroup : pre ++ ((groups k (l / 128) ++ b ∷ []) ++ rest) ≡ front ++ (b ∷ rest) =
      rw (append_assoc, append_assoc) refl in
    let here : length pre + suc k ≡ suc (length pre + k) = omega arith in
    let last : suc (length pre + k) ≡ length front =
      omega (arith, length-append pre (groups k (l / 128)), length-groups k (l / 128)) in
    let small : l < 128 * 128 ^ suc k = omega (arith, pow-suc 128 (suc k)) in
    let byte : get_elem? (front ++ (b ∷ rest)) (suc (length pre + k)) ≡ some b =
      rw last (get_elem?_front front rest b) in
    let low : b % 128 ≡ l % 128 = omega arith in
    rw (here, regroup)
      (decode_loop_more _ (length pre + k) val b shift byte (omega arith) (omega arith) fits
          (omega arith)
        ∙ rw (low, append_assoc)
            (decode_loop-groups k (l / 128) (l % 128 * 2 ^ shift + val) (shift + 7) pre (b ∷ rest)
                (omega arith) (group_fits (l % 128) val shift (omega arith) fits) (omega arith)
              ∙ ap some (group_sum l val shift)))

backlen_size_pos : (l : ℕ) → (1 ≤ backlen_size l) × (backlen_size l ≤ 5)
unfolding backlen_size
backlen_size_pos l = ground arith

groups_enough : (l : ℕ) → l < 2 ^ 35 → l < 128 ^ suc (backlen_size l - 1)
unfolding backlen_size
groups_enough l h = ground arith

pub length-write_backlen :
    (out : List ℕ) (l : ℕ) → l < 2 ^ 35 → length (write_backlen out l) ≡ length out + backlen_size l
unfolding write_backlen
length-write_backlen out l h = rw (backlen_groups_lem l h) (
    omega (
      arith,
      length-append out (groups (backlen_size l - 1) l),
      length-groups (backlen_size l - 1) l,
      backlen_size_pos l,
    ))

-- `decode_backlen`, started at the last byte that `write_backlen` wrote, gives the length back
-- whatever stands before it and behind it, for every length below 2^35.
pub decode_backlen-write_backlen :
    (out rest : List ℕ) (l : ℕ)
    → l < 2 ^ 35
    → decode_backlen (write_backlen out l ++ rest) (length out + backlen_size l - 1) ≡ some l
unfolding write_backlen decode_backlen
decode_backlen-write_backlen out rest l h =
    let here : length out + backlen_size l - 1 ≡ length out + (backlen_size l - 1) =
      omega (arith, backlen_size_pos l) in
    rw (backlen_groups_lem l h, append_assoc, here)
      (decode_loop-groups (backlen_size l - 1) l 0 0 out rest (groups_enough l h) (omega arith)
          (omega (arith, backlen_size_pos l))
        ∙ ap some (omega arith))
