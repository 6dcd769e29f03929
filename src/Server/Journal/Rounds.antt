-- ===== src/Server/Journal/Rounds.antt =====
-- src/server/journal.rs: the rounds of `read_entry` end with the bytes.
use dragonflydb_rs.Common.{
  ℕ, zero, suc, ◌+◌, ◌-◌, ◌^◌, ◌≤◌, ◌<◌, ◌≡◌, refl, ap, sym, ◌∙◌, arith, true, false, Bool,
  if◌then◌else◌, length, ltb, ◌==◌, get_elem?, slice, Option-cases, Bool-cases, inl, inr, ◌⊎◌,
  get_elem?-eq_some, get_elem?-eq_none,
}
use dragonflydb_rs.Common.Results.{ok, err, ◌>>=◌}
use dragonflydb_rs.Server.Journal.{
  Reader, Read, JournalError, truncated, corrupt, read_byte, read_exact, read_packed_from,
  read_packed, ParsedEntry, read_payload, entry_step, read_entry_on, read_entry, op_select,
}

-- A later place in the same bytes.
pub record Follows (r r' : Reader) : Type 0 where
  pub same : r'.bytes ≡ r.bytes
  pub later : r.pos ≤ r'.pos

-- A read fails, or it leaves a later place.
data Leaves {A : Type 0} (r : Reader) : Read A → Type 0 where
  left : (a : A) (r' : Reader) → Follows r r' → Leaves r (ok (a, r'))
  failed : (e : JournalError) → Leaves r (err e)

abbrev next : Reader → Reader
next r = record r { pos = r.pos + 1 }

read_byte_cases :
    (r : Reader)
    → ((b : ℕ) × (read_byte r ≡ ok (b, next r)) × (r.pos < length r.bytes))
      ⊎ ((read_byte r ≡ err truncated) × (length r.bytes ≤ r.pos))
unfolding read_byte
read_byte_cases r = elim (Option-cases (get_elem? r.bytes r.pos)) [
  | inl out ↦ inr (rw out refl, get_elem?-eq_none r.bytes r.pos out)
  | inr (b, found) ↦ inl (b, rw found refl, get_elem?-eq_some r.bytes r.pos found)
]

read_exact-Leaves : (r : Reader) (n : ℕ) → Leaves r (read_exact r n)
unfolding read_exact
read_exact-Leaves r n = elim (Bool-cases (ltb (r.pos + n) (2 ^ 64))) [
  | inl fits ↦ elim (Option-cases (slice r.bytes r.pos n)) [
    | inl out ↦ rw (fits, out) (failed _)
    | inr (s, found) ↦ rw (fits, found) (left s _ (record { same = refl; later = omega arith }))
  ]
  | inr wraps ↦ rw wraps (failed _)
]

Follows-trans : {r s t : Reader} → Follows r s → Follows s t → Follows r t
Follows-trans p q = record { same = q.same ∙ p.same; later = omega (arith, p.later, q.later) }

bind-Leaves :
    {A B : Type 0} (r : Reader) (x : Read A) (f : A × Reader → Read B)
    → Leaves r x
    → ((a : A) (s : Reader) → Leaves s (f (a, s)))
    → Leaves r (x >>= f)
bind-Leaves {A} {B} r x f (left a s p) q = onward (f (a, s)) (q a s)
  where
    onward : (y : Read B) → Leaves s y → Leaves r y
    onward y (left b t q) = left b t (Follows-trans p q)
    onward y (failed e) = failed e
bind-Leaves r x f (failed e) q = failed e

if-Leaves :
    {A : Type 0} (r : Reader) (c : Bool) (x y : Read A)
    → Leaves r x
    → Leaves r y
    → Leaves r (if c then x else y)
if-Leaves r true x y p q = p
if-Leaves r false x y p q = q

stay-Leaves : {A : Type 0} (r : Reader) (a : A) → Leaves r (ok (a, r))
stay-Leaves r a = left a r (record { same = refl; later = omega arith })

read_byte-Leaves : (r : Reader) → Leaves r (read_byte r)
read_byte-Leaves r = elim (read_byte_cases r) [
  | inl (b, e, there) ↦ rw e (left b _ (record { same = refl; later = omega arith }))
  | inr (e, past) ↦ rw e (failed _)
]

read_packed_from-Leaves : (b : ℕ) (r : Reader) → Leaves r (read_packed_from b r)
unfolding read_packed_from
read_packed_from-Leaves b r =
    let two = bind-Leaves r (read_byte r) _ (read_byte-Leaves r) (λ lo s. stay-Leaves s _) in
    let four = bind-Leaves r (read_exact r 4) _ (read_exact-Leaves r 4) (λ bs s. stay-Leaves s _) in
    let eight =
      bind-Leaves r (read_exact r 8) _ (read_exact-Leaves r 8) (λ bs s. stay-Leaves s _) in
    let wide =
      if-Leaves r (b == 0x80) _ _ four (if-Leaves r (b == 0x81) _ _ eight (failed corrupt)) in
    if-Leaves r _ _ _ (stay-Leaves r _)
      (if-Leaves r _ _ _ two (if-Leaves r _ _ _ wide (failed corrupt)))

read_packed-Leaves : (r : Reader) → Leaves r (read_packed r)
unfolding read_packed
read_packed-Leaves r =
    bind-Leaves r (read_byte r) _ (read_byte-Leaves r) (λ b s. read_packed_from-Leaves b s)

if_agrees :
    {A : Type 0} (c : Bool) {x y : A} (z : A) → x ≡ y → (if c then x else z) ≡ (if c then y else z)
if_agrees true z e = e
if_agrees false z e = refl

module _ (f g : Reader → Read ParsedEntry) (r : Reader)
    (agree : (s : Reader)
      → s.bytes ≡ r.bytes
      → r.pos < s.pos
      → r.pos < length r.bytes
      → f s ≡ g s) where
  after_select :
      (x : Read ℕ)
      → Leaves (next r) x
      → r.pos < length r.bytes
      → (x >>= λ p. f (record p.1 { dbid = p.0 })) ≡ (x >>= λ p. g (record p.1 { dbid = p.0 }))
  after_select x (left d s p) there =
      agree (record s { dbid = d }) p.same (omega (arith, p.later)) there
  after_select x (failed e) there = refl

  -- A round depends on its call only at later readers of the same bytes.
  entry_step_agrees : entry_step f r ≡ entry_step g r
  entry_step_agrees = elim (read_byte_cases r) [
    | inl (b, e, there) ↦ rw e (
        if_agrees (b == op_select) (read_payload b (next r))
          (after_select (read_packed (next r)) (read_packed-Leaves (next r)) there))
    | inr (e, past) ↦ rw e refl
  ]

-- A round at the end of the bytes.
entry_step_end :
    (f : Reader → Read ParsedEntry) (r : Reader)
    → length r.bytes ≤ r.pos
    → entry_step f r ≡ err truncated
entry_step_end f r past = elim (read_byte_cases r) [
  | inl (b, e, there) ↦ absurd (omega arith)
  | inr (e, _) ↦ rw e refl
]

-- More fuel than there are bytes changes nothing.
read_entry_on_more :
    (n : ℕ) (r : Reader) → length r.bytes - r.pos ≤ n → read_entry_on (suc n) r ≡ read_entry_on n r
unfolding read_entry_on
read_entry_on_more zero r h = entry_step_end (λ s. err truncated) r (omega arith)
read_entry_on_more (suc n) r h =
    entry_step_agrees (λ s. read_entry_on (suc n) s) (λ s. read_entry_on n s) r
      (λ s same later there. read_entry_on_more n s (rw same (omega arith)))

read_entry_on_enough :
    (extra : ℕ) (r : Reader) → read_entry_on (extra + (length r.bytes - r.pos)) r ≡ read_entry r
unfolding read_entry
read_entry_on_enough zero r = ap (λ n. read_entry_on n r) (omega arith)
read_entry_on_enough (suc k) r =
    let n = length r.bytes - r.pos in
    let e : suc k + n ≡ suc (k + n) = omega arith in
    rw e (read_entry_on_more (k + n) r (omega arith) ∙ read_entry_on_enough k r)

pub read_entry_ends : (r : Reader) → read_entry r ≡ entry_step read_entry r
unfolding read_entry_on
read_entry_ends r =
    let n = length r.bytes - r.pos in
    let one : 1 + n ≡ suc n = omega arith in
    sym (rw one at (read_entry_on_enough 1 r))
    ∙ entry_step_agrees (λ s. read_entry_on n s) read_entry r
        (λ s same later there.
          let m = length s.bytes - s.pos in
          let size : length s.bytes ≡ length r.bytes = ap length same in
          let e : n ≡ n - m + m = omega (arith, size) in
          ap (λ k. read_entry_on k s) e ∙ read_entry_on_enough (n - m) s)
