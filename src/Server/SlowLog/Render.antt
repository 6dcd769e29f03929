-- ===== src/Server/SlowLog/Render.antt =====
-- src/server/slowlog.rs: what a reply shows of the arguments.
use dragonflydb_rs.Common.{
  ℕ, ◌+◌, ◌-◌, ◌%◌, ◌^◌, ◌≤◌, ◌<◌, ◌≡◌, refl, ap, arith, min, false, List, [], ◌∷◌, ◌++◌, map,
  length, length-append, length-take, take, ltb, Bool-cases, inl, inr,
}
use dragonflydb_rs.Common.Int.{pos}
use dragonflydb_rs.Util.Decimal.{itoa}
use dragonflydb_rs.Util.RoundTrip.{length-itoa}
use dragonflydb_rs.Server.SlowLog.{
  SlowLogEntry, cut_arg, effective, stored_args, render_arg, render_args, more_bytes,
  more_arguments,
}

take_all {ℓ} : {A : Type ℓ} (xs : List A) → take (length xs) xs ≡ xs
take_all [] = refl
take_all (x ∷ xs) = ap (◌∷◌ x) (take_all xs)

length-map {ℓ κ} :
    {A : Type ℓ} {B : Type κ} (f : A → B) (xs : List A) → length (map f xs) ≡ length xs
length-map f [] = refl
length-map f (x ∷ xs) = omega (arith, length-map f xs)

length-more_bytes : (n : ℕ) → n < 2 ^ 63 → length (more_bytes n) ≤ 128
length-more_bytes n fits = omega (
  arith,
  length-itoa (pos n) (fits, omega arith),
  length-append (itoa (pos n))
      (b' ' ∷ b'm' ∷ b'o' ∷ b'r' ∷ b'e' ∷ b' ' ∷ b'b' ∷ b'y' ∷ b't' ∷ b'e' ∷ b's' ∷ b')' ∷ []),
)

-- A prefix and a suffix of 128 bytes together.
cut_le :
    (bytes suffix : List ℕ)
    → length suffix ≤ 128
    → length (take (min (128 - length suffix) (length bytes)) bytes ++ suffix) ≤ 128
cut_le bytes suffix h =
    let front = take (min (128 - length suffix) (length bytes)) bytes in
    omega (
      arith,
      length-append front suffix,
      length-take (min (128 - length suffix) (length bytes)) bytes,
    )

-- An argument of the command is shown in at most 128 bytes, however long it is.
pub length-render_arg : (arg : List ℕ) → length (render_arg (cut_arg arg)) ≤ 128
unfolding render_arg cut_arg
length-render_arg arg = elim (Bool-cases (ltb 0 extra)) [
  | inl more ↦ rw more (cut_le kept (more_bytes extra) (length-more_bytes extra (omega arith)))
  | inr less ↦ rw less (omega (arith, length-take (min (length arg) 128) arg))
]
  where
    kept : List ℕ
    kept = take (min (length arg) 128) arg

    extra : ℕ
    extra = (length arg - 128) % 2 ^ 32

-- An argument of at most 128 bytes is shown whole.
pub render_arg-cut_arg : (arg : List ℕ) → length arg ≤ 128 → render_arg (cut_arg arg) ≡ arg
unfolding render_arg cut_arg
render_arg-cut_arg arg h =
    let no_extra : ltb 0 ((length arg - 128) % 2 ^ 32) ≡ false = ground arith in
    let all : min (length arg) 128 ≡ length arg = omega arith in rw no_extra (rw all (take_all arg))

length-stored_args :
    (name : List ℕ) (tail : List (List ℕ))
    → (length (stored_args name tail) ≤ 32)
      × (length (stored_args name tail) < length tail + 1 → length (stored_args name tail) ≤ 31)
unfolding stored_args effective
length-stored_args name tail =
    let kept = take (effective (length tail)) tail in
    (
      ground (arith, length-map cut_arg kept, length-take (effective (length tail)) tail),
      λ cut. ground (arith, length-map cut_arg kept, length-take (effective (length tail)) tail),
    )

-- A reply shows at most 32 elements for the arguments of an entry that `add` made.
pub length-render_args :
    (e : SlowLogEntry) (name : List ℕ) (tail : List (List ℕ))
    → e.args ≡ stored_args name tail
    → e.original_length ≡ length tail + 1
    → length (render_args e) ≤ 32
unfolding render_args
length-render_args e name tail args original =
    let (few, fewer) = length-stored_args name tail in
    let size = ap length args in
    let shown = length-map render_arg e.args in
    elim (Bool-cases (ltb (length e.args) e.original_length)) [
      | inl more ↦ rw more (
          let note = more_arguments (e.original_length - length e.args) in
          omega (
            arith,
            length-append (map render_arg e.args) (note ∷ []),
            shown,
            size,
            fewer (ground (arith, size, original)),
          ))
      | inr all ↦ rw all (omega (arith, length-append (map render_arg e.args) [], shown, size, few))
    ]
