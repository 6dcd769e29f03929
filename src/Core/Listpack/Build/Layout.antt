-- ===== src/Core/Listpack/Build/Layout.antt =====
-- src/core/listpack.rs: what the builder's buffer looks like after any appends.
use dragonflydb_rs.Common.{
  init-snoc, ℕ, suc, ◌+◌, ◌/◌, ◌%◌, ◌^◌, ◌≤◌, ◌<◌, ◌≡◌, refl, ap, ◌∙◌, arith, min, false, List, [],
  ◌∷◌, ◌++◌, map, Option, none, some, append_assoc, append-nil, length, length-append, init,
  bit_or_low, ◌==◌,
}
use native.Mathlib.Decide.{dec_lt}
use dragonflydb_rs.Common.Int.{ℤ}
use dragonflydb_rs.Core.Listpack.Header.{
  lp_eof, total_bytes, num_elements, set_total, set_num_elements,
}
use dragonflydb_rs.Core.Listpack.Backlen.{backlen_size, backlen_groups, write_backlen}
use dragonflydb_rs.Core.Listpack.Backlen.RoundTrip.{length-write_backlen}
use dragonflydb_rs.Core.Listpack.Number.{string_to_i64}
use dragonflydb_rs.Core.Listpack.Encode.RoundTrip.{encode_entry}
use dragonflydb_rs.Core.Listpack.Decode.{Entry, int, str}
use dragonflydb_rs.Core.Listpack.Build.{
  Listpack, new, count_one, append_encoded, append_integer, append_parsed, append_bytes,
}

-- The header's six bytes, for a total below 2^32 and a count below 2^16.
abbrev pub header : ℕ → ℕ → List ℕ
header total count =
    total % 256
    ∷ total / 2 ^ 8 % 256
    ∷ total / 2 ^ 16 % 256
    ∷ total / 2 ^ 24 % 256
    ∷ count % 256
    ∷ count / 2 ^ 8 % 256
    ∷ []

-- An element with the length behind it.
unfoldable pub element : Entry → List ℕ
element e = write_backlen (encode_entry e) (length (encode_entry e))

unfoldable pub body : List Entry → List ℕ
body [] = []
body (e ∷ es) = element e ++ body es

abbrev pub layout : ℕ → ℕ → List ℕ → List ℕ
layout total count b = header total count ++ (b ++ lp_eof ∷ [])

pub total_bytes-layout :
    (total count : ℕ) (b : List ℕ) → total < 2 ^ 32 → total_bytes (layout total count b) ≡ total
unfolding total_bytes
total_bytes-layout total count b h = omega arith

pub num_elements-layout :
    (total count : ℕ) (b : List ℕ) → count < 2 ^ 16 → num_elements (layout total count b) ≡ count
unfolding num_elements
num_elements-layout total count b h =
    bit_or_low 8 (count / 2 ^ 8 % 256) (count % 256) (omega arith) ∙ omega arith

count_one-layout :
    (total count : ℕ) (b : List ℕ)
    → count ≤ 65535
    → count_one (layout total count b) ≡ layout total (min (count + 1) 65535) b
unfolding count_one set_num_elements
count_one-layout total count b h =
    rw (num_elements-layout total count b (omega arith)) (elim (dec_lt count 65535) [
      | yes more ↦
          let e : min (count + 1) 65535 ≡ count + 1 = omega arith in
          let t : (count == 65535) ≡ false = ground arith in rw (t, e)
      | no full ↦ let e : count ≡ 65535 = omega arith in rw e
    ])

set_total-layout :
    (total total' count : ℕ) (b : List ℕ)
    → set_total (layout total count b) total' ≡ layout total' count b
unfolding set_total
set_total-layout total total' count b = refl

regroup :
    (h b elem : List ℕ) (n : ℕ)
    → write_backlen ((h ++ b) ++ elem) n ++ lp_eof ∷ []
      ≡ h ++ ((b ++ write_backlen elem n) ++ lp_eof ∷ [])
unfolding write_backlen
regroup h b elem n = simp append_assoc

-- One append of an encoded element `elem`: the header counts it and its length, and the bytes go
-- before the terminator.
append_encoded-layout :
    (total count : ℕ) (b elem : List ℕ)
    → total < 2 ^ 32
    → count ≤ 65535
    → append_encoded (record { buf = layout total count b }) elem ≡ record {
      buf =
          layout
            ((total + length elem + backlen_size (length elem)) % 2 ^ 32)
            (min (count + 1) 65535)
            (b ++ write_backlen elem (length elem));
    }
unfolding append_encoded set_total
append_encoded-layout total count b elem ht hc =
    let n = length elem in
    let size = (total + n + backlen_size n) % 2 ^ 32 in
    let cut : init (layout total count b) ≡ header total count ++ b =
      init-snoc (header total count ++ b) lp_eof in
    rw (total_bytes-layout total count b ht) (
      ap
        (λ (front : List ℕ). record {
          buf = set_total (count_one (write_backlen (front ++ elem) n ++ lp_eof ∷ [])) size;
        })
        cut
      ∙ ap (λ (buf : List ℕ). record { buf = set_total (count_one buf) size })
          (regroup (header total count) b elem n)
      ∙ ap (λ (buf : List ℕ). record { buf = set_total buf size })
          (count_one-layout total count (b ++ write_backlen elem n) hc))

-- The entry that an appended value is stored as: a string that reads as a canonical `i64` becomes
-- that integer.
abbrev pub stored_as : List ℕ → Option ℤ → Entry
stored_as s (some v) = int v
stored_as s none = str s

unfoldable pub stored : Entry → Entry
stored (int v) = int v
stored (str s) = stored_as s (string_to_i64 s)

abbrev pub append : Listpack → Entry → Listpack
append lp (int v) = append_integer lp v
append lp (str s) = append_bytes lp s

append_parsed-stored :
    (lp : Listpack) (s : List ℕ) (o : Option ℤ)
    → append_parsed lp s o ≡ append_encoded lp (encode_entry (stored_as s o))
unfolding append_parsed append_integer encode_entry
append_parsed-stored lp s none = refl
append_parsed-stored lp s (some v) = refl

append-stored :
    (lp : Listpack) (e : Entry) → append lp e ≡ append_encoded lp (encode_entry (stored e))
unfolding append_integer append_bytes stored encode_entry
append-stored lp (int v) = refl
append-stored lp (str s) = append_parsed-stored lp s (string_to_i64 s)

abbrev pub append_all : Listpack → List Entry → Listpack
append_all lp [] = lp
append_all lp (e ∷ es) = append_all (append lp e) es

-- The bytes of the elements that the values are stored as.
abbrev pub stored_body : List Entry → List ℕ
stored_body es = body (map stored es)

length-element :
    (e : Entry)
    → length (encode_entry e) < 2 ^ 35
    → length (element e) ≡ length (encode_entry e) + backlen_size (length (encode_entry e))
unfolding element
length-element e h = length-write_backlen (encode_entry e) (length (encode_entry e)) h

encode-le-element : (e : Entry) → length (encode_entry e) ≤ length (element e)
unfolding element write_backlen
encode-le-element e = omega (
  arith,
  length-append (encode_entry e)
      (backlen_groups (backlen_size (length (encode_entry e))) (length (encode_entry e))),
)

append-layout :
    (e : Entry) (total count : ℕ) (b : List ℕ)
    → count ≤ 65535
    → total + length (element (stored e)) < 2 ^ 32
    → append (record { buf = layout total count b }) e ≡ record {
      buf =
          layout
            (total + length (element (stored e)))
            (min (count + 1) 65535)
            (b ++ element (stored e));
    }
append-layout e total count b hc fits =
    let x = encode_entry (stored e) in
    let size : (total + length x + backlen_size (length x)) % 2 ^ 32
        ≡ total + length (element (stored e)) =
      omega (
        arith,
        encode-le-element (stored e),
        length-element (stored e) (omega (arith, encode-le-element (stored e))),
      ) in
    append-stored _ e
    ∙ append_encoded-layout total count b x (omega arith) hc
    ∙ ap
        (λ (t : ℕ). record {
          buf = layout t (min (count + 1) 65535) (b ++ write_backlen x (length x));
        })
        size
    ∙ (unfold element in refl)

-- The buffer after any appends to a listpack with `count` elements and the bytes `b`, as long as
-- the size of the result fits the header's 32 bits.
append_all-layout :
    (es : List Entry) (total count : ℕ) (b : List ℕ)
    → count ≤ 65535
    → total ≡ length b + 7
    → length (stored_body es) + total < 2 ^ 32
    → append_all (record { buf = layout total count b }) es ≡ record {
      buf =
          layout
            (length (stored_body es) + total)
            (min (count + length es) 65535)
            (b ++ stored_body es);
    }
unfolding body
append_all-layout [] total count b hc ht fits =
    let e : min (count + 0) 65535 ≡ count = omega arith in
    let t : 0 + total ≡ total = omega arith in rw (e, t, append-nil)
append_all-layout (e ∷ es) total count b hc ht fits =
    let x = element (stored e) in
    let size : length (x ++ stored_body es) ≡ length x + length (stored_body es) =
      length-append x (stored_body es) in
    let counts : min (min (count + 1) 65535 + length es) 65535
        ≡ min (count + suc (length es)) 65535 =
      omega arith in
    let totals : length (stored_body es) + (total + length x)
        ≡ length (x ++ stored_body es) + total =
      omega arith in
    ap (λ lp. append_all lp es) (append-layout e total count b hc (omega arith))
    ∙ append_all-layout es (total + length x) (min (count + 1) 65535) (b ++ x) (omega arith)
        (omega (arith, length-append b x)) (omega arith)
    ∙ rw (counts, totals) (simp append_assoc)

-- Whatever values are appended to a new listpack, its bytes are the header with the size of the
-- whole (below 2^32) and the number of the values (at most 65535, the mark for "unknown"), then
-- the elements in the order of the appends, then the terminator.
pub append_all-new :
    (es : List Entry)
    → length (stored_body es) + 7 < 2 ^ 32
    → append_all new es ≡ record {
      buf = layout (length (stored_body es) + 7) (min (length es) 65535) (stored_body es);
    }
append_all-new es h =
    let zero_count : min (0 + length es) 65535 ≡ min (length es) 65535 = omega arith in
    let start : new ≡ record { buf = layout 7 0 [] } = unfold new set_total in refl in
    ap (λ lp. append_all lp es) start
    ∙ append_all-layout es 7 0 [] (omega arith) refl h
    ∙ rw zero_count
