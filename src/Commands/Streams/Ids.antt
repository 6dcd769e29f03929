-- ===== src/Commands/Streams/Ids.antt =====
-- src/commands/exec/streams.rs: the ids that XADD gives out.
use dragonflydb_rs.Common.{
  ℕ, ◌+◌, ◌-◌, ◌^◌, ◌<◌, ◌≡◌, refl, ap, sym, ◌∙◌, arith, true, false, List, [], ◌∷◌, ◌++◌, All,
  Option, none, some, length, drop, ◌==◌, if◌then◌else◌, bytes_eq, Option-cases, Bool-cases, inl,
  inr, length-append, append-nil,
}
use dragonflydb_rs.Common.Int.{pos}
use dragonflydb_rs.Common.Results.{Result, ok, err, ◌>>=◌, Result-cases}
use dragonflydb_rs.Util.Decimal.{parse_u64, itoa}
use dragonflydb_rs.Util.Unsigned.{IsDigit, parse_u64-itoa, itoa-IsDigit, itoa_head}
use dragonflydb_rs.Core.HashMap.{HashMap}
use dragonflydb_rs.Core.Stream.Id.{StreamId, less, render}
use dragonflydb_rs.Core.Stream.Defs.{Name, Fields, Stream, append}
use dragonflydb_rs.Core.Stream.Trim.{trim}
use dragonflydb_rs.Core.Stream.Live.{live, IsValid}
use dragonflydb_rs.Core.Stream.Bounds.{trim-Cuts, trim_lem}
use dragonflydb_rs.Core.Stream.Exact.{trim-maxlen}
use dragonflydb_rs.Core.Stream.Edits.{append_lem}
use dragonflydb_rs.Commands.Streams.{
  IdError, equal_or_smaller, ok_or, split_dash, with_first, is_star, next_star_id, xadd_parts,
  auto_id, explicit_id, complete_id, parse_xadd_id, xadd,
}

next_star_above :
    (last : StreamId) (now : ℕ) (id : StreamId)
    → next_star_id last now ≡ some id
    → less last id ≡ true
unfolding next_star_id less
next_star_above last now id h = ground arith

auto_above :
    (last : StreamId) (ms : ℕ) (id : StreamId) → auto_id last ms ≡ ok id → less last id ≡ true
unfolding less
auto_above last ms id h = ground arith

explicit_above :
    (last : StreamId) (ms seq : ℕ) (id : StreamId)
    → explicit_id last ms seq ≡ ok id
    → less last id ≡ true
explicit_above last ms seq id h = elim (Bool-cases (less last (record { ms = ms; seq = seq }))) [
  | inl above ↦ ground arith
  | inr not_above ↦ ground arith
]

complete_above :
    (last : StreamId) (ms : ℕ) (seq_str : Option (List ℕ)) (id : StreamId)
    → complete_id last (ms, seq_str) ≡ ok id
    → less last id ≡ true
complete_above last ms none id h = auto_above last ms id h
complete_above last ms (some s) id h = elim (Bool-cases (is_star s)) [
  | inl star ↦ auto_above last ms id (rw star at h)
  | inr text ↦ elim (Option-cases (parse_u64 s)) [
    | inl bad ↦ ground arith
    | inr (seq, good) ↦ explicit_above last ms seq id (rw (text, good) at h)
  ]
]

ok_or_eq : {A : Type 0} (e : IdError) (o : Option A) {a : A} → ok_or e o ≡ ok a → o ≡ some a
ok_or_eq e none h = cc
ok_or_eq e (some b) h = cc

parts_above :
    (last id : StreamId) (x : Result IdError (ℕ × Option (List ℕ)))
    → (x >>= λ parts. complete_id last parts) ≡ ok id
    → less last id ≡ true
parts_above last id (ok (ms, seq_str)) h = complete_above last ms seq_str id h
parts_above last id (err e) h = cc

-- Every id that XADD takes or makes lies above the last one of the stream, whatever form its argument
-- has: `*`, milliseconds alone, `*` for either part, or both parts.
pub parse_xadd_id_above :
    (s : List ℕ) (last : StreamId) (now : ℕ) (id : StreamId)
    → parse_xadd_id s last now ≡ ok id
    → less last id ≡ true
unfolding parse_xadd_id
parse_xadd_id_above s last now id h = elim (Bool-cases (is_star s)) [
  | inl star ↦ next_star_above last now id (ok_or_eq equal_or_smaller _ (rw star at h))
  | inr text ↦ parts_above last id (xadd_parts last s (split_dash s)) (rw text at h)
]

-- Digits hold no dash, and are not the star.
split_digits : (xs ys : List ℕ) → All IsDigit xs → split_dash (xs ++ b'-' ∷ ys) ≡ some (xs, ys)
unfolding split_dash
split_digits [] ys h = refl
split_digits (x ∷ xs) ys h =
    let other : (x == b'-') ≡ false = ground (arith, h.0) in
    rw other (ap (with_first x) (split_digits xs ys h.1))

not_star : (n : ℕ) (ys : List ℕ) → n < 2 ^ 64 → is_star (itoa (pos n) ++ ys) ≡ false
not_star n ys h =
    let (d, rest, e, low) = itoa_head n h in
    let other : (d == b'*') ≡ false = ground arith in rw e (unfold bytes_eq in rw other refl)

-- An id written as render writes it, with both parts in 64 bits, is taken exactly where it lies above
-- the last one of the stream, and refused as equal or smaller otherwise.
pub parse_xadd_id-render :
    (id last : StreamId) (now : ℕ)
    → id.ms < 2 ^ 64
    → id.seq < 2 ^ 64
    → parse_xadd_id (render id) last now ≡ (if less last id then ok id else err equal_or_smaller)
unfolding parse_xadd_id render
parse_xadd_id-render id last now hm hs =
    let text = not_star id.ms (b'-' ∷ itoa (pos id.seq)) hm in
    let split = split_digits (itoa (pos id.ms)) (itoa (pos id.seq)) (itoa-IsDigit id.ms) in
    let ms_text : is_star (itoa (pos id.ms)) ≡ false =
      ap is_star (sym (append-nil (itoa (pos id.ms)))) ∙ not_star id.ms [] hm in
    let seq_text : is_star (itoa (pos id.seq)) ≡ false =
      ap is_star (sym (append-nil (itoa (pos id.seq)))) ∙ not_star id.seq [] hs in
    rw (text, split, ms_text, parse_u64-itoa id.ms hm)
      (rw (seq_text, parse_u64-itoa id.seq hs)
        (elim (Bool-cases (less last id)) [
          | inl above ↦ rw above refl
          | inr below ↦ rw below refl
        ]))

not_ok : {A : Type 0} {e : IdError} {a : A} → ◌≡◌ {A = Result IdError A} (err e) (ok a) → ⊥
not_ok h = cc

module _ {m : HashMap Name bytes_eq} where
  -- XADD on a valid stream with exact trimming to a length: the stream stays valid, the new id lies
  -- above all others and is the last one, and of the live entries and the new one the newest remain, at
  -- most as many as the length. The stream has room for one more entry.
  pub xadd-maxlen :
      (s s' : Stream m) (max : ℕ) (id_arg : List ℕ) (fields : Fields) (now : ℕ) (id : StreamId)
      → IsValid s
      → length (live s.entries) + 1 < 2 ^ 64
      → xadd s
          (record { maxlen = some max; minid = none; approx = false; limit = none })
          id_arg
          fields
          now
        ≡ ok (s', id)
      → IsValid s'
        × (less s.last_id id ≡ true)
        × (s'.last_id ≡ id)
        × (live s'.entries ≡ drop (length (live s.entries) + 1 - max) (live s.entries ++ id ∷ []))
  unfolding xadd
  xadd-maxlen s s' max id_arg fields now id v room h =
      elim (Result-cases (parse_xadd_id id_arg s.last_id now)) [
        | inl (id', parsed) ↦
            let s1 = append s id' fields in
            let both = rw parsed at h in
            let same : id' ≡ id = cc in
            let state : (trim s1 (some max) none false none).0 ≡ s' = cc in
            let above = parse_xadd_id_above id_arg s.last_id now id' parsed in
            let (v1, ids, _) = append_lem s id' fields v above room in
            let (v2, _, _) = trim_lem s1 (some max) none false none v1 in
            let (_, c) = trim-Cuts s1 (some max) none false none v1 in
            let (_, kept, _) = trim-maxlen s1 max v1 in
            let size : length (live s1.entries) ≡ length (live s.entries) + 1 =
              ap length ids ∙ length-append (live s.entries) (id' ∷ []) in
            rw (← state) (
              rw (← same)
                (v2, above, c.leaves.same_last ∙ unfold append in refl, kept ∙ rw (size, ids) refl))
        | inr (e, failed) ↦ absurd (not_ok (rw failed at h))
      ]
