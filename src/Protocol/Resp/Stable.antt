-- ===== src/Protocol/Resp/Stable.antt =====
-- src/protocol/resp.rs: what the parser has decided on some bytes stands when more come.
use dragonflydb_rs.Common.{
  ℕ, zero, suc, ◌+◌, ◌-◌, ◌≤◌, ◌≡◌, refl, ap, ◌⊎◌, inl, inr, arith, false, ◌&&◌, List, [], ◌∷◌,
  ◌++◌, Option, none, some, length, length-append, length-drop, take, drop, ltb, ◌==◌, bytes_eq,
  Bool-cases, Option-cases,
}
use dragonflydb_rs.Common.Results.{Result, ok, err, ◌>>=◌, Result-cases}
use dragonflydb_rs.Util.Decimal.{parse_i64}
use dragonflydb_rs.Protocol.Resp.{
  ProtocolError, Parsed, crlf, find_crlf, max_bulk, max_multibulk, invalid_bulk_length,
  invalid_multibulk_length, checked_len, bulk_body, bulk_line, bulk, with_arg, with_bulk, bulks,
  parse_multibulk,
}

-- Still open on the first bytes, or decided alike on both.
abbrev pub Keeps : {A : Type 0} → Parsed A → Parsed A → Type 0
Keeps x y = (x ≡ ok none) ⊎ (y ≡ x)

module _ {ℓ} {A : Type ℓ} where
  pub take-append_le : (n : ℕ) (xs ys : List A) → n ≤ length xs → take n (xs ++ ys) ≡ take n xs
  take-append_le zero xs ys h = refl
  take-append_le (suc n) [] ys h = absurd (omega arith)
  take-append_le (suc n) (x ∷ xs) ys h = ap (◌∷◌ x) (take-append_le n xs ys (omega arith))

  pub drop-append_le :
      (n : ℕ) (xs ys : List A) → n ≤ length xs → drop n (xs ++ ys) ≡ drop n xs ++ ys
  drop-append_le zero xs ys h = refl
  drop-append_le (suc n) [] ys h = absurd (omega arith)
  drop-append_le (suc n) (x ∷ xs) ys h = drop-append_le n xs ys (omega arith)

pub find_crlf-append :
    (b more : List ℕ) (p : ℕ)
    → find_crlf b ≡ some p
    → (find_crlf (b ++ more) ≡ some p) × (p + 2 ≤ length b)
unfolding find_crlf
find_crlf-append [] more p h = cc
find_crlf-append (x ∷ []) more p h = cc
find_crlf-append (x ∷ y ∷ t) more p h = elim (Bool-cases (x == 13 && y == 10)) [
  | inl here ↦ rw here (rw here at h, ground arith)
  | inr later ↦ elim (Option-cases (find_crlf (y ∷ t))) [
    | inl nowhere ↦ ground arith
    | inr (q, found) ↦
        let (more_found, within) = find_crlf-append (y ∷ t) more q found in
        let e : suc q ≡ p = ground arith in
        rw later (rw more_found (ap some e), omega (arith, within))
  ]
]

body-Keeps :
    (used len : ℕ) (d more : List ℕ) → Keeps (bulk_body used len d) (bulk_body used len (d ++ more))
body-Keeps used len d more = elim (Bool-cases (ltb (length d) (len + 2))) [
  | inl short ↦ inl (rw short refl)
  | inr enough ↦
      let low : len + 2 ≤ length d = ground arith in
      let size = length-append d more in
      let still : ltb (length (d ++ more)) (len + 2) ≡ false = ground (arith, size) in
      let text = take-append_le len d more (omega arith) in
      let behind = drop-append_le len d more (omega arith) in
      let end = take-append_le 2 (drop len d) more (omega (arith, length-drop len d)) in
      inr (rw (still, enough) (rw (text, behind) (rw end refl)))
]

line-Keeps :
    (t more : List ℕ)
    → Keeps (bulk_line t (find_crlf t)) (bulk_line (t ++ more) (find_crlf (t ++ more)))
line-Keeps t more = elim (Option-cases (find_crlf t)) [
  | inl nowhere ↦ inl (rw nowhere refl)
  | inr (p, found) ↦
      let (again, within) = find_crlf-append t more p found in
      let text = take-append_le p t more (omega arith) in
      let behind = drop-append_le (p + 2) t more within in
      rw (found, again, text, behind)
        (elim (Result-cases (checked_len invalid_bulk_length max_bulk (parse_i64 (take p t)))) [
          | inl (len, good) ↦ rw good (body-Keeps (p + 3) len (drop (p + 2) t) more)
          | inr (e, bad) ↦ rw bad (inr refl)
        ])
]

bulk-Keeps : (rest more : List ℕ) → Keeps (bulk rest) (bulk (rest ++ more))
unfolding bulk
bulk-Keeps [] more = inl refl
bulk-Keeps (c ∷ t) more = elim (Bool-cases (c == b'$')) [
  | inl dollar ↦ rw dollar (line-Keeps t more)
  | inr other ↦ rw other (inr refl)
]

not_ok :
    {A : Type 0} {e : ProtocolError} {a : A} → ◌≡◌ {A = Result ProtocolError A} (err e) (ok a) → ⊥
not_ok h = cc

not_some : {A : Type 0} {a : A} → ◌≡◌ {A = Parsed A} (ok none) (ok (some a)) → ⊥
not_some h = cc

body_within :
    (used len : ℕ) (d : List ℕ) (end : ℕ) (arg : List ℕ)
    → bulk_body used len d ≡ ok (some (end, arg))
    → end ≤ used + length d
body_within used len d end arg h = elim (Bool-cases (bytes_eq (take 2 (drop len d)) crlf)) [
  | inl closed ↦ ground arith
  | inr open_end ↦ ground arith
]

-- A bulk string takes no more bytes than there are.
bulk_within :
    (rest : List ℕ) (used : ℕ) (arg : List ℕ)
    → bulk rest ≡ ok (some (used, arg))
    → used ≤ length rest
unfolding bulk
bulk_within [] used arg h = absurd (cc)
bulk_within (c ∷ t) used arg h = elim (Bool-cases (c == b'$')) [
  | inr other ↦ absurd (not_ok (rw other at h))
  | inl dollar ↦ elim (Option-cases (find_crlf t)) [
    | inl nowhere ↦ absurd (not_some (rw (dollar, nowhere) at h))
    | inr (p, found) ↦
        let (_, within) = find_crlf-append t [] p found in
        elim (Result-cases (checked_len invalid_bulk_length max_bulk (parse_i64 (take p t)))) [
          | inr (e, bad) ↦ absurd (not_ok (rw (dollar, found, bad) at h))
          | inl (len, good) ↦
              let bound =
                body_within (p + 3) len (drop (p + 2) t) used arg (rw (dollar, found, good) at h) in
              omega (arith, bound, length-drop (p + 2) t)
        ]
  ]
]

-- The arguments that follow.
args_keep :
    (arg : List ℕ) (x y : Parsed (ℕ × List (List ℕ)))
    → Keeps x y
    → Keeps (x >>= λ more. with_arg arg more) (y >>= λ more. with_arg arg more)
args_keep arg x y (inl open_end) = inl (rw open_end refl)
args_keep arg x y (inr same) = inr (rw same refl)

with_bulk-Keeps :
    (again : ℕ → List ℕ → Parsed (ℕ × List (List ℕ))) (at : ℕ) (rest more : List ℕ)
    (found : Option (ℕ × List ℕ))
    → ((at : ℕ) (rest more : List ℕ) → Keeps (again at rest) (again at (rest ++ more)))
    → bulk rest ≡ ok found
    → Keeps (with_bulk again at rest found) (with_bulk again at (rest ++ more) found)
with_bulk-Keeps again at rest more none keep good = inl refl
with_bulk-Keeps again at rest more (some (used, arg)) keep good =
    let behind = drop-append_le used rest more (bulk_within rest used arg good) in
    rw behind (args_keep arg _ _ (keep (at + used) (drop used rest) more))

bulks_keep :
    (count at : ℕ) (rest more : List ℕ)
    → Keeps (bulks count at rest) (bulks count at (rest ++ more))
unfolding bulks
bulks_keep zero at rest more = inr refl
bulks_keep (suc count) at rest more =
    let next = λ (found : Option (ℕ × List ℕ)) (good : bulk rest ≡ ok found).
      with_bulk-Keeps (bulks count) at rest more found (bulks_keep count) good in
    elim (bulk-Keeps rest more) [
      | inl open_end ↦ inl (rw open_end refl)
      | inr same ↦ elim (Result-cases (bulk rest)) [
        | inr (e, bad) ↦ rw (same, bad) (inr refl)
        | inl (found, good) ↦ rw (same, good) (next found good)
      ]
    ]

args_end :
    (arg : List ℕ) (x : Parsed (ℕ × List (List ℕ))) (end : ℕ) (args : List (List ℕ))
    → (x >>= λ more. with_arg arg more) ≡ ok (some (end, args))
    → (rest : List (List ℕ)) × (x ≡ ok (some (end, rest)))
args_end arg (ok none) end args h = absurd (not_some h)
args_end arg (ok (some (e, more))) end args h = (more, let same : e ≡ end = cc in rw same refl)
args_end arg (err e) end args h = absurd (not_ok h)

with_bulk_end :
    (again : ℕ → List ℕ → Parsed (ℕ × List (List ℕ))) (at : ℕ) (rest : List ℕ)
    (found : Option (ℕ × List ℕ)) (end : ℕ) (args : List (List ℕ))
    → ((at : ℕ) (rest : List ℕ) (end : ℕ) (args : List (List ℕ))
        → again at rest ≡ ok (some (end, args))
        → end ≤ at + length rest)
    → bulk rest ≡ ok found
    → with_bulk again at rest found ≡ ok (some (end, args))
    → end ≤ at + length rest
with_bulk_end again at rest none end args bound good h = absurd (not_some h)
with_bulk_end again at rest (some (used, arg)) end args bound good h =
    let (others, e) = args_end arg (again (at + used) (drop used rest)) end args h in
    omega (
      arith,
      bound (at + used) (drop used rest) end others e,
      bulk_within rest used arg good,
      length-drop used rest,
    )

bulks_end :
    (count at : ℕ) (rest : List ℕ) (end : ℕ) (args : List (List ℕ))
    → bulks count at rest ≡ ok (some (end, args))
    → end ≤ at + length rest
unfolding bulks
bulks_end zero at rest end args h = let e : at ≡ end = cc in omega arith
bulks_end (suc count) at rest end args h =
    let next = λ (found : Option (ℕ × List ℕ)) (good : bulk rest ≡ ok found).
      with_bulk_end (bulks count) at rest found end args (bulks_end count) good in
    elim (Result-cases (bulk rest)) [
      | inr (e, bad) ↦ absurd (not_ok (rw bad at h))
      | inl (found, good) ↦ next found good (rw good at h)
    ]

-- What parse_multibulk decides on some bytes it decides alike when more follow them.
pub multibulk-Keeps :
    (buf more : List ℕ) → Keeps (parse_multibulk buf) (parse_multibulk (buf ++ more))
unfolding parse_multibulk
multibulk-Keeps buf more = elim (Option-cases (find_crlf buf)) [
  | inl nowhere ↦ inl (rw nowhere refl)
  | inr (p, found) ↦
      let (again, within) = find_crlf-append buf more p found in
      let first = drop-append_le 1 buf more (omega arith) in
      let text = take-append_le (p - 1) (drop 1 buf) more (omega (arith, length-drop 1 buf)) in
      let behind = drop-append_le (p + 2) buf more within in
      rw (found, again, first, text, behind)
        (elim (Result-cases (
          checked_len invalid_multibulk_length max_multibulk
            (parse_i64 (take (p - 1) (drop 1 buf))))) [
              | inl (count, good) ↦ rw good (bulks_keep count (p + 2) (drop (p + 2) buf) more)
              | inr (e, bad) ↦ rw bad (inr refl)
            ])
]

pub multibulk_end :
    (buf : List ℕ) (end : ℕ) (args : List (List ℕ))
    → parse_multibulk buf ≡ ok (some (end, args))
    → end ≤ length buf
unfolding parse_multibulk
multibulk_end buf end args h = elim (Option-cases (find_crlf buf)) [
  | inl nowhere ↦ absurd (not_some (rw nowhere at h))
  | inr (p, found) ↦
      let (_, within) = find_crlf-append buf [] p found in
      elim (Result-cases (
        checked_len invalid_multibulk_length max_multibulk
          (parse_i64 (take (p - 1) (drop 1 buf))))) [
            | inl (count, good) ↦ omega (
              arith,
              bulks_end count (p + 2) (drop (p + 2) buf) end args (rw (found, good) at h),
              length-drop (p + 2) buf,
            )
            | inr (e, bad) ↦ absurd (not_ok (rw (found, bad) at h))
          ]
]
