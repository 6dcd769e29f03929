-- ===== src/Protocol/Resp/Inline.antt =====
-- src/protocol/resp.rs: a line behind an empty one.
use dragonflydb_rs.Common.{
  ℕ, suc, ◌+◌, ◌≡◌, refl, ap, ◌∙◌, inl, inr, arith, false, not, ◌&&◌, List, [], ◌∷◌, ◌++◌, All,
  some, length, append_assoc, append-nil, drop, take_front, drop_front, drop-append, ◌==◌,
  if◌then◌else◌, bytes_eq, Bool-cases,
}
use dragonflydb_rs.Common.Results.{ok}
use dragonflydb_rs.Protocol.Resp.{
  RespParser, Parsed, inline_args, one_more, find_lf, is_ascii_whitespace, flush, split_on,
  split_inline, line_of, inline_step, inline_on, parse_inline, finish, next_request,
}

-- A byte of a word: neither blank nor a quote.
abbrev pub IsPlain : ℕ → Type 0
IsPlain b = (is_ascii_whitespace b ≡ false) × ((b == b'"') ≡ false)

find_plain :
    (line t : List ℕ) → All IsPlain line → find_lf (line ++ 13 ∷ 10 ∷ t) ≡ some (suc (length line))
unfolding find_lf
find_plain [] t h = refl
find_plain (b ∷ line) t h =
    let other : (b == 10) ≡ false = ground (arith, h.0.0) in
    rw other (ap one_more (find_plain line t h.1))

split_plain :
    (line cur : List ℕ)
    → All IsPlain line
    → split_on line [] cur false false ≡ ok (flush [] (cur ++ line))
unfolding split_on
split_plain [] cur h = rw (append-nil cur) refl
split_plain (b ∷ line) cur h =
    let no_escape : (b == b'\\' && false) ≡ false = elim (Bool-cases (b == b'\\')) [
      | inl e ↦ rw e refl
      | inr e ↦ rw e refl
    ] in
    let word : (is_ascii_whitespace b && not false) ≡ false = rw (h.0.0) refl in
    rw (no_escape, h.0.1, word)
      (split_plain line (cur ++ b ∷ []) h.1
        ∙ ap (λ c. ok (flush [] c)) (append_assoc cur (b ∷ []) line))

abbrev with_line :
    (List ℕ → List ℕ × Parsed (ℕ × List (List ℕ)))
    → List ℕ
    → ℕ
    → List ℕ
    → List ℕ × Parsed (ℕ × List (List ℕ))
with_line again buf end line =
    let next = again (drop (suc end) buf) in
    if bytes_eq line [] then next else (buf, inline_args (suc end) (split_inline line))

module _ (b : ℕ) (word rest : List ℕ) (plain : All IsPlain (b ∷ word)) where
  text_plain : line_of (b ∷ word ++ 13 ∷ 10 ∷ rest) (suc (suc (length word))) ≡ b ∷ word
  unfolding bytes_eq
  text_plain =
      let w = b ∷ word in rw (drop_front w (13 ∷ 10 ∷ rest)) (take_front w (13 ∷ 10 ∷ rest))

  args_plain : split_inline (b ∷ word) ≡ ok ((b ∷ word) ∷ [])
  unfolding split_inline
  args_plain = split_plain (b ∷ word) [] plain

  not_empty : bytes_eq (b ∷ word) [] ≡ false
  unfolding bytes_eq
  not_empty = refl

  inline_plain :
      (again : List ℕ → List ℕ × Parsed (ℕ × List (List ℕ)))
      → inline_step again (b ∷ word ++ 13 ∷ 10 ∷ rest) (some (suc (suc (length word))))
        ≡ (b ∷ word ++ 13 ∷ 10 ∷ rest, ok (some (suc (suc (suc (length word))), (b ∷ word) ∷ [])))
  inline_plain again =
      let buf = b ∷ word ++ 13 ∷ 10 ∷ rest in
      ap (λ l. with_line again buf (suc (suc (length word))) l) text_plain
      ∙ rw (not_empty, args_plain) refl

  first_empty :
      (fuel : ℕ)
      → inline_on (suc fuel) (13 ∷ 10 ∷ (b ∷ word ++ 13 ∷ 10 ∷ rest))
        ≡ inline_on fuel (b ∷ word ++ 13 ∷ 10 ∷ rest)
  unfolding inline_on find_lf bytes_eq
  first_empty fuel = refl

  then_word :
      (fuel : ℕ)
      → inline_on (suc fuel) (b ∷ word ++ 13 ∷ 10 ∷ rest)
        ≡ (b ∷ word ++ 13 ∷ 10 ∷ rest, ok (some (suc (suc (suc (length word))), (b ∷ word) ∷ [])))
  unfolding inline_on
  then_word fuel =
      ap (inline_step (λ r. inline_on fuel r) (b ∷ word ++ 13 ∷ 10 ∷ rest))
        (find_plain (b ∷ word) rest plain)
      ∙ inline_plain (λ r. inline_on fuel r)

  -- Behind an empty line, whatever line of one word without blanks and quotes follows is taken as an inline
  -- command, also one that starts a request of bulk strings, by a parser that has seen no error.
  pub next_request_empty_line :
      next_request (record { buf = 13 ∷ 10 ∷ (b ∷ word ++ 13 ∷ 10 ∷ rest); protocol_error = false })
      ≡ (record { buf = rest; protocol_error = false }, ok (some ((b ∷ word) ∷ [])))
  unfolding next_request parse_inline
  next_request_empty_line =
      let w = b ∷ word in
      let buf = w ++ 13 ∷ 10 ∷ rest in
      let p : RespParser = record { buf = 13 ∷ 10 ∷ buf; protocol_error = false } in
      let used : length w + 2 ≡ suc (suc (length w)) = omega arith in
      let left : drop (length w + 2) buf ≡ rest = drop-append w (13 ∷ 10 ∷ rest) 2 in
      ap (finish p) (first_empty (suc (length buf)) ∙ then_word (length buf))
      ∙ ap (λ b. (record { buf = b; protocol_error = false }, ok (some (w ∷ [])))) (rw used at left)
