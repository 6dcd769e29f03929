-- ===== src/Core/Listpack/Validate/Walk.antt =====
-- src/core/listpack.rs: `first` and `next` over encoded elements.
use dragonflydb_rs.Common.{
  ℕ, suc, ◌+◌, ◌≤◌, ◌<◌, ◌^◌, ◌≡◌, refl, ap, ◌∙◌, arith, List, [], ◌∷◌, ◌++◌, map, none, some, true,
  get_elem?, length, ◌==◌, if◌then◌else◌, length-append, All, get_elem?_front, get_elem?-append,
  min,
}
use dragonflydb_rs.Core.Listpack.Header.{lp_eof}
use dragonflydb_rs.Core.Listpack.Encode.RoundTrip.{Encodable}
use dragonflydb_rs.Core.Listpack.Decode.{Entry}
use dragonflydb_rs.Core.Listpack.Build.{new, into_vec}
use dragonflydb_rs.Core.Listpack.Build.Layout.{
  element, stored, stored_body, append_all, append_all-new,
}
use dragonflydb_rs.Core.Listpack.Validate.{validate_next, validate_deep, next}
use dragonflydb_rs.Core.Listpack.Validate.Accepts.{
  reads_here, entry_at_head, validate_next-element, validate_deep-layout, element_some,
}

next_at :
    (buf : List ℕ) (p np b : ℕ)
    → validate_next buf p ≡ some np
    → get_elem? buf np ≡ some b
    → next buf p ≡ (if b == lp_eof then none else some np)
unfolding next
next_at buf p np b go found = rw (go, found)

module _ (pre : List ℕ) (e : Entry) (ok : Encodable e) (inside : 6 ≤ length pre) where
  -- `next` at an encoded element behind the header, where the terminator follows, gives nothing.
  pub next_last : next (pre ++ (element e ++ lp_eof ∷ [])) (length pre) ≡ none
  next_last =
      let buf = pre ++ (element e ++ lp_eof ∷ []) in
      let np = length pre + length (element e) in
      let found : get_elem? buf np ≡ some lp_eof =
        get_elem?-append pre _ _ ∙ get_elem?_front (element e) [] lp_eof in
      next_at buf (length pre) np lp_eof
        (validate_next-element pre (lp_eof ∷ []) e ok inside (omega arith)) found

  -- `next` at an encoded element behind the header, where another element follows, gives the position
  -- of that element.
  pub next_more :
      (f : Entry) (rest : List ℕ)
      → Encodable f
      → next (pre ++ (element e ++ (element f ++ rest))) (length pre)
        ≡ some (length pre + length (element e))
  next_more f rest okf =
      let tail = element f ++ rest in
      let np = length pre + length (element e) in
      let (value, size) = reads_here [] rest f okf in
      let (b, head, ne) = entry_at_head tail 0 f value in
      let place : length (element e) ≡ length (element e) + 0 = omega arith in
      let found : get_elem? (pre ++ (element e ++ tail)) np ≡ some b =
        get_elem?-append pre _ _
        ∙ ap (get_elem? (element e ++ tail)) place
        ∙ get_elem?-append (element e) tail 0
        ∙ head in
      next_at _ (length pre) np b
        (validate_next-element pre tail e ok inside
          (omega (arith, element_some f, length-append (element f) rest)))
        found
      ∙ ground arith

length-stored : (es : List Entry) → length (map stored es) ≡ length es
length-stored [] = refl
length-stored (e ∷ es) = ap suc (length-stored es)

-- What the incremental builder makes of any values is accepted by the deep validation, as long as
-- its size fits 32 bits.
pub validate_deep-append_all :
    (es : List Entry)
    → All Encodable (map stored es)
    → length (stored_body es) + 7 < 2 ^ 32
    → validate_deep (into_vec (append_all new es)) ≡ true
unfolding into_vec
validate_deep-append_all es ok fits = rw (append_all-new es fits) (
    validate_deep-layout (map stored es) (min (length es) 65535) ok fits
      (omega (arith, length-stored es)))
