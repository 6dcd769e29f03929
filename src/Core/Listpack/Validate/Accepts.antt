-- ===== src/Core/Listpack/Validate/Accepts.antt =====
-- src/core/listpack.rs: what the builder makes is accepted, element by element.
use dragonflydb_rs.Common.{
  ℕ, zero, suc, ◌+◌, ◌-◌, ◌^◌, ◌≤◌, ◌<◌, ◌≡◌, ◌≢◌, ◌⊎◌, refl, ap, sym, ◌∙◌, arith, List, [], ◌∷◌,
  ◌++◌, some, true, Option-cases, inl, inr, byte_at, get_elem?, length, append_assoc, length-append,
  All, get_elem?_front,
}
use dragonflydb_rs.Common.Int.{ℤ}
use dragonflydb_rs.Core.Listpack.Header.{lp_eof, total_bytes, num_elements}
use dragonflydb_rs.Core.Listpack.Backlen.{
  backlen_size, backlen_groups, decode_backlen, write_backlen,
}
use dragonflydb_rs.Core.Listpack.Backlen.RoundTrip.{
  decode_backlen-write_backlen, length-write_backlen,
}
use dragonflydb_rs.Core.Listpack.Encode.{encode_integer, string_head}
use dragonflydb_rs.Core.Listpack.Encode.RoundTrip.{encode_entry, Encodable, reads_entry}
use dragonflydb_rs.Core.Listpack.Decode.{size_bytes, encoded_size, entry_at, Entry, int, str}
use dragonflydb_rs.Core.Listpack.Decode.Prefix.{entry_at-append, encoded_size-append}
use dragonflydb_rs.Core.Listpack.Build.Layout.{
  element, body, layout, header, total_bytes-layout, num_elements-layout,
}
use dragonflydb_rs.Core.Listpack.Validate.{
  check_backlen, validate_next, scan, at_eof, validate_deep,
}

-- No encoding is longer than its content by more than nine bytes.
length-encode_integer : (v : ℤ) → length (encode_integer v) ≤ 9
unfolding encode_integer
length-encode_integer v = ground arith

length-string_head : (n : ℕ) → length (string_head n) ≤ 5
unfolding string_head
length-string_head n = ground arith

encode_entry_small : (e : Entry) → Encodable e → length (encode_entry e) < 2 ^ 35
unfolding encode_entry
encode_entry_small (int v) h = omega (arith, length-encode_integer v)
encode_entry_small (str s) h =
    omega (arith, length-string_head (length s), length-append (string_head (length s)) s)

-- What `encoded_size` accepts has a first byte with its length fields inside the element.
size_bytes-le :
    (buf : List ℕ) (p b size : ℕ)
    → get_elem? buf p ≡ some b
    → encoded_size buf p ≡ some size
    → (size_bytes b ≤ size) × (1 ≤ size_bytes b)
unfolding encoded_size size_bytes
size_bytes-le buf p b size found e = ground arith

pub byte_at_lem :
    (buf : List ℕ) (p b : ℕ) → get_elem? buf p ≡ some b → (byte_at buf p ≡ b) × (p < length buf)
byte_at_lem [] p b e = absurd (ground arith)
byte_at_lem (x ∷ buf) zero b e = (ground arith, omega arith)
byte_at_lem (x ∷ buf) (suc p) b e = (let (q, r) = byte_at_lem buf p b e in (q, omega arith))

-- An element that `entry_at` decodes begins with a byte that is not the terminator.
pub entry_at_head :
    (buf : List ℕ) (p : ℕ) (e : Entry)
    → entry_at buf p ≡ some e
    → (b : ℕ) × (get_elem? buf p ≡ some b) × (b ≢ lp_eof)
unfolding entry_at
entry_at_head buf p e h = elim (Option-cases (get_elem? buf p)) [
  | inl missing ↦ absurd (ground arith)
  | inr (b, found) ↦ (b, found, λ eof. ground arith)
]

-- The element `e` behind `pre`, whatever follows it.
module _ (pre rest : List ℕ) (e : Entry) (ok : Encodable e) where
  regroup : (xs : List ℕ) (l : ℕ) → (ys : List ℕ) × (write_backlen xs l ++ rest ≡ xs ++ ys)
  unfolding write_backlen
  regroup xs l = (_, append_assoc xs _ rest)

  -- `entry_at` and `encoded_size` read the element behind `pre`.
  pub reads_here :
      (entry_at (pre ++ (element e ++ rest)) (length pre) ≡ some e)
      × (encoded_size (pre ++ (element e ++ rest)) (length pre) ≡ some (length (encode_entry e)))
  unfolding element
  reads_here =
      let (ys, split) = regroup (encode_entry e) (length (encode_entry e)) in
      let (value, size) = reads_entry e ys ok in
      rw split (
        entry_at-append pre (encode_entry e ++ ys) ∙ value,
        encoded_size-append pre (encode_entry e ++ ys) ∙ size,
      )

  prevlen :
      decode_backlen
        (pre ++ (element e ++ rest))
        (length pre + length (encode_entry e) + backlen_size (length (encode_entry e)) - 1)
      ≡ some (length (encode_entry e))
  unfolding element
  prevlen =
      let x = encode_entry e in
      let same : write_backlen (pre ++ x) (length x) ++ rest
          ≡ pre ++ (write_backlen x (length x) ++ rest) =
        unfold write_backlen in simp append_assoc in
      rw (sym same, sym (length-append pre x))
        (decode_backlen-write_backlen (pre ++ x) rest (length x) (encode_entry_small e ok))

  length_whole :
      length (pre ++ (element e ++ rest))
      ≡ length pre
        + (length (encode_entry e) + backlen_size (length (encode_entry e)))
        + length rest
  unfolding element
  length_whole = omega (
    arith,
    length-append pre (element e ++ rest),
    length-append (element e) rest,
    length-write_backlen (encode_entry e) (length (encode_entry e)) (encode_entry_small e ok),
  )

  check :
      0 < length rest
      → check_backlen (pre ++ (element e ++ rest)) (length pre) (length (encode_entry e))
        ≡ some (length pre + length (element e))
  unfolding check_backlen
  check h =
      let n = length (encode_entry e) in
      let bound : backlen_size n ≤ 5 = unfold backlen_size in ground arith in
      let total : length (element e) ≡ n + backlen_size n =
        unfold element in length-write_backlen (encode_entry e) n (encode_entry_small e ok) in
      let place : length pre + n + backlen_size n - 1 ≡ length pre + (n + backlen_size n) - 1 =
        omega arith in
      let read : decode_backlen (pre ++ (element e ++ rest)) (length pre + (n + backlen_size n) - 1)
          ≡ some n =
        rw place at prevlen in
      rw (read, length_whole, total) (ground (arith, encode_entry_small e ok))

  -- `validate_next` steps over the element, to the byte behind it.
  pub validate_next-element :
      6 ≤ length pre
      → 0 < length rest
      → validate_next (pre ++ (element e ++ rest)) (length pre)
        ≡ some (length pre + length (element e))
  unfolding validate_next
  validate_next-element inside more =
      let buf = pre ++ (element e ++ rest) in
      let (value, size) = reads_here in
      let (b, found, ne) = entry_at_head buf (length pre) e value in
      let (same, lt) = byte_at_lem buf (length pre) b found in
      let bound : backlen_size (length (encode_entry e)) ≤ 5 =
        unfold backlen_size in ground arith in
      rw (same, size)
        (ground (
          arith,
          size_bytes-le buf (length pre) b (length (encode_entry e)) found size,
          length_whole,
          check more,
        ))

scan_step :
    (fuel : ℕ) (buf : List ℕ) (p count b np : ℕ)
    → get_elem? buf p ≡ some b
    → b ≢ lp_eof
    → validate_next buf p ≡ some np
    → scan (suc fuel) buf p count ≡ scan fuel buf np (count + 1)
unfolding scan
scan_step fuel buf p count b np found ne go = ground (arith, byte_at_lem buf p b found)

scan_end :
    (fuel : ℕ) (pre : List ℕ) (count : ℕ)
    → scan (suc fuel) (pre ++ lp_eof ∷ []) (length pre) count ≡ at_eof (length pre) count
unfolding scan
scan_end fuel pre count =
    ground
      (arith, byte_at_lem (pre ++ lp_eof ∷ []) (length pre) lp_eof (get_elem?_front pre [] lp_eof))

-- The scan goes over all the elements and stops at the terminator.
scan-body :
    (es : List Entry) (fuel : ℕ) (pre : List ℕ) (count : ℕ)
    → All Encodable es
    → 6 ≤ length pre
    → length es < fuel
    → scan fuel (pre ++ (body es ++ lp_eof ∷ [])) (length pre) count
      ≡ at_eof (length pre + length (body es)) (count + length es)
unfolding body
scan-body es zero pre count ok inside few = absurd (omega arith)
scan-body [] (suc fuel) pre count ok inside few =
    let p : length pre + 0 ≡ length pre = omega arith in
    let c : count + 0 ≡ count = omega arith in rw (p, c) (scan_end fuel pre count)
scan-body (e ∷ es) (suc fuel) pre count ok inside few =
    let rest = body es ++ lp_eof ∷ [] in
    let buf = pre ++ (element e ++ rest) in
    let (value, size) = reads_here pre rest e ok.0 in
    let (b, found, ne) = entry_at_head buf (length pre) e value in
    let more : 0 < length rest = omega (arith, length-append (body es) (lp_eof ∷ [])) in
    let go = validate_next-element pre rest e ok.0 inside more in
    let next : length pre + length (element e) ≡ length (pre ++ element e) =
      sym (length-append pre (element e)) in
    let front : (pre ++ element e) ++ rest ≡ buf = append_assoc pre (element e) rest in
    let whole : pre ++ ((element e ++ body es) ++ lp_eof ∷ []) ≡ buf = simp append_assoc in
    let end : length pre + length (element e ++ body es)
        ≡ length (pre ++ element e) + length (body es) =
      omega (arith, length-append pre (element e), length-append (element e) (body es)) in
    let counted : count + suc (length es) ≡ count + 1 + length es = omega arith in
    rw (end, counted)
      (ap (λ buf. scan (suc fuel) buf (length pre) count) whole
        ∙ scan_step fuel buf (length pre) count b _ found ne go
        ∙ rw (next, sym front)
            (scan-body es fuel (pre ++ element e) (count + 1) ok.1
              (omega (arith, length-append pre (element e))) (omega arith)))

backlen_groups_some : (size l : ℕ) → 1 ≤ length (backlen_groups size l)
unfolding backlen_groups
backlen_groups_some size l = ground arith

pub element_some : (e : Entry) → 1 ≤ length (element e)
unfolding element write_backlen
element_some e =
    let x = encode_entry e in
    let gs = backlen_groups (backlen_size (length x)) (length x) in
    omega (arith, length-append x gs, backlen_groups_some (backlen_size (length x)) (length x))

length-le-body : (es : List Entry) → length es ≤ length (body es)
unfolding body
length-le-body [] = omega arith
length-le-body (e ∷ es) =
    omega (arith, element_some e, length-append (element e) (body es), length-le-body es)

last_byte :
    (xs : List ℕ) (x : ℕ)
    → (length (xs ++ x ∷ []) ≡ length xs + 1)
      × (byte_at (xs ++ x ∷ []) (length (xs ++ x ∷ []) - 1) ≡ x)
last_byte xs x =
    let len : length (xs ++ x ∷ []) ≡ length xs + 1 = length-append xs (x ∷ []) in
    let place : length (xs ++ x ∷ []) - 1 ≡ length xs = omega arith in
    (len, rw place ((byte_at_lem (xs ++ x ∷ []) (length xs) x (get_elem?_front xs [] x)).0))

-- The checks around the scan, over any buffer.
validate_deep_checks :
    (buf : List ℕ) (total n : ℕ)
    → length buf ≡ total
    → 7 ≤ total
    → total_bytes buf ≡ total
    → byte_at buf (length buf - 1) ≡ lp_eof
    → scan (length buf) buf 6 0 ≡ at_eof (total - 1) n
    → (num_elements buf ≡ 65535) ⊎ (num_elements buf ≡ n)
    → validate_deep buf ≡ true
unfolding validate_deep
validate_deep_checks buf total n size more sum eof scanned counted = rw scanned (ground arith)

-- `validate_deep` accepts a buffer of encoded elements with a right header: the size of the
-- whole, and the number of the elements, or 65535 where that number is not known.
pub validate_deep-layout :
    (es : List Entry) (count : ℕ)
    → All Encodable es
    → length (body es) + 7 < 2 ^ 32
    → (count ≡ 65535) ⊎ ((count < 65535) × (count ≡ length es))
    → validate_deep (layout (length (body es) + 7) count (body es)) ≡ true
unfolding validate_deep
validate_deep-layout es count ok fits counted =
    let total = length (body es) + 7 in
    let buf = layout total count (body es) in
    let (len, eof) = last_byte (header total count ++ body es) lp_eof in
    let size : length buf ≡ total = omega arith in
    let scanned : scan (length buf) buf 6 0 ≡ at_eof (6 + length (body es)) (0 + length es) =
      scan-body es (length buf) (header total count) 0 ok (omega arith)
        (omega (arith, length-le-body es)) in
    validate_deep_checks buf total (length es) size (omega arith)
      (total_bytes-layout total count (body es) fits) eof (scanned ∙ rw (end, counts) refl)
      (number counted)
  where
    end : 6 + length (body es) ≡ length (body es) + 7 - 1
    end = omega arith

    counts : 0 + length es ≡ length es
    counts = omega arith

    number :
        (count ≡ 65535) ⊎ ((count < 65535) × (count ≡ length es))
        → (num_elements (layout (length (body es) + 7) count (body es)) ≡ 65535)
          ⊎ (num_elements (layout (length (body es) + 7) count (body es)) ≡ length es)
    number (inl all) = inl (num_elements-layout _ count (body es) (omega arith) ∙ all)
    number (inr (lt, e)) = inr (num_elements-layout _ count (body es) (omega arith) ∙ e)
