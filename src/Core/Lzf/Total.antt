-- ===== src/Core/Lzf/Total.antt =====
-- src/core/lzf.rs: `decompress` ends, and what it gives has the expected length.
use dragonflydb_rs.Common.{
  length-set, ℕ, zero, suc, ◌+◌, ◌-◌, ◌*◌, ◌/◌, ◌^◌, bit_and, ◌==◌, ◌≤◌, ◌<◌, ◌≡◌, ◌≢◌, refl, ap,
  sym, ◌∙◌, arith, List, [], ◌∷◌, Option, none, some, length, set, take, drop, byte_at, ltb, leb,
  Bool-cases, Option-cases, inl, inr, false,
}
use mathlib.Core.Path.{subst}
use dragonflydb_rs.Core.Lzf.{
  zeros, write_at, copy_back, literal_run, back_ref, long_ref, turn, Outcome, done, refused,
  out_of_fuel, loop, result, decompress,
}

length-write_at : (bs out : List ℕ) (op : ℕ) → length (write_at out op bs) ≡ length out
unfolding write_at
length-write_at [] out op = refl
length-write_at (b ∷ bs) out op = length-write_at bs (set out op b) (op + 1) ∙ length-set out op b

length-copy_back : (n : ℕ) (out : List ℕ) (op r : ℕ) → length (copy_back n out op r) ≡ length out
unfolding copy_back
length-copy_back zero out op r = refl
length-copy_back (suc n) out op r =
    length-copy_back n (set out op (byte_at out r)) (op + 1) (r + 1)
    ∙ length-set out op (byte_at out r)

-- A turn goes on in the input and keeps the length of the output.
abbrev pub Advances : ℕ → ℕ → Option (ℕ × ℕ × List ℕ) → Type 0
Advances ip size none = Unit
Advances ip size (some (ip', op', out')) = (ip < ip') × (length out' ≡ size)

literal_run-Advances :
    (input : List ℕ) (n ip op : ℕ) (out : List ℕ)
    → Advances ip (length out) (literal_run input (n + 1) ip op out)
unfolding literal_run
literal_run-Advances input n ip op out = elim (Bool-cases (ltb (length out) (op + (n + 1)))) [
  | inl full ↦ rw full tt
  | inr room ↦ elim (Bool-cases (ltb (length input) (ip + (n + 1)))) [
    | inl short ↦ rw room (rw short tt)
    | inr there ↦
        rw room (rw there (omega arith, length-write_at (take (n + 1) (drop ip input)) out op))
  ]
]

back_ref-Advances :
    (input : List ℕ) (len ref_off ip op : ℕ) (out : List ℕ)
    → Advances ip (length out) (back_ref input len ref_off ip op out)
unfolding back_ref
back_ref-Advances input len ref_off ip op out = elim (Bool-cases (ltb ref_off (byte_at input ip))) [
  | inl before ↦ rw before tt
  | inr inside ↦ elim (Bool-cases (ltb (length out) (op + len + 2))) [
    | inl full ↦ rw inside (rw full tt)
    | inr room ↦ elim (Bool-cases (ltb (length out) (ref_off - byte_at input ip + len + 2))) [
      | inl past ↦ rw inside (rw room (rw past tt))
      | inr fits ↦ rw inside (
          rw room
            (rw fits (omega arith, length-copy_back (len + 2) out op (ref_off - byte_at input ip))))
    ]
  ]
]

earlier :
    (ip ip' size : ℕ) (r : Option (ℕ × ℕ × List ℕ))
    → ip ≤ ip'
    → Advances ip' size r
    → Advances ip size r
earlier ip ip' size none h a = tt
earlier ip ip' size (some (ip'', op, out)) h a = (omega (arith, a.0), a.1)

long_ref-Advances :
    (input : List ℕ) (ctrl ip op : ℕ) (out : List ℕ)
    → Advances ip (length out) (long_ref input ctrl ip op out)
unfolding long_ref
long_ref-Advances input ctrl ip op out = elim (Bool-cases (leb (length input) ip)) [
  | inl over ↦ rw over tt
  | inr more ↦ elim (Bool-cases (ltb op (bit_and ctrl 0x1f * 2 ^ 8 + 1))) [
    | inl low ↦ rw more (rw low tt)
    | inr back ↦ elim (Bool-cases (ctrl / 2 ^ 5 == 7)) [
      | inl long ↦ elim (Bool-cases (leb (length input) (ip + 1))) [
        | inl short ↦ rw more (rw back (rw long (rw short tt)))
        | inr there ↦ rw more (
            rw back (
              rw long (
                rw there (
                  earlier ip (ip + 1) (length out)
                    (back_ref input (ctrl / 2 ^ 5 + byte_at input ip)
                      (op - (bit_and ctrl 0x1f * 2 ^ 8 + 1)) (ip + 1) op out)
                    (omega arith)
                    (back_ref-Advances input (ctrl / 2 ^ 5 + byte_at input ip)
                      (op - (bit_and ctrl 0x1f * 2 ^ 8 + 1)) (ip + 1) op out)))))
      ]
      | inr plain ↦ rw more (
          rw back (
            rw plain (
              back_ref-Advances input (ctrl / 2 ^ 5) (op - (bit_and ctrl 0x1f * 2 ^ 8 + 1)) ip op
                out)))
    ]
  ]
]

turn-Advances :
    (input : List ℕ) (ip op : ℕ) (out : List ℕ) → Advances ip (length out) (turn input ip op out)
unfolding turn
turn-Advances input ip op out = elim (Bool-cases (ltb (byte_at input ip) 32)) [
  | inl literal ↦ rw literal (
      earlier ip (ip + 1) (length out) (literal_run input (byte_at input ip + 1) (ip + 1) op out)
        (omega arith) (literal_run-Advances input (byte_at input ip) (ip + 1) op out))
  | inr back ↦ rw back (
      earlier ip (ip + 1) (length out) (long_ref input (byte_at input ip) (ip + 1) op out)
        (omega arith) (long_ref-Advances input (byte_at input ip) (ip + 1) op out))
]

-- An outcome that the source has, whose output is as long as it should be.
abbrev pub Ends : ℕ → Outcome → Type 0
Ends size (done out) = length out ≡ size
Ends size refused = Unit
Ends size out_of_fuel = ⊥

loop-Ends :
    (fuel : ℕ) (input : List ℕ) (ip op : ℕ) (out : List ℕ)
    → length input ≤ fuel + ip
    → Ends (length out) (loop fuel input ip op out)
unfolding loop
loop-Ends zero input ip op out h =
    let over : ltb ip (length input) ≡ false = ground arith in rw over refl
loop-Ends (suc fuel) input ip op out h = elim (Bool-cases (ltb ip (length input))) [
  | inl more ↦ elim (Option-cases (turn input ip op out)) [
    | inl stop ↦ rw more (rw stop tt)
    | inr ((ip', op', out'), went) ↦
        let a : Advances ip (length out) (some (ip', op', out')) =
          rw went at (turn-Advances input ip op out) in
        rw more (
          rw went (
            subst (λ n. Ends n (loop fuel input ip' op' out')) a.1
              (loop-Ends fuel input ip' op' out' (omega (arith, a.0, h)))))
  ]
  | inr over ↦ rw over refl
]

length-zeros : (n : ℕ) → length (zeros n) ≡ n
length-zeros zero = refl
length-zeros (suc n) = ap suc (length-zeros n)

loop-Ends_whole :
    (input : List ℕ) (expected : ℕ) → Ends expected (loop (length input) input 0 0 (zeros expected))
loop-Ends_whole input expected =
    subst (λ n. Ends n (loop (length input) input 0 0 (zeros expected))) (length-zeros expected)
      (loop-Ends (length input) input 0 0 (zeros expected) (omega arith))

-- On every input the loop of `decompress` ends within the input's length.
pub decompress_ends :
    (input : List ℕ) (expected : ℕ) → loop (length input) input 0 0 (zeros expected) ≢ out_of_fuel
decompress_ends input expected =
    ends (loop (length input) input 0 0 (zeros expected)) (loop-Ends_whole input expected)
  where
    ends : (o : Outcome) → Ends expected o → o ≢ out_of_fuel
    ends (done out) h e = absurd (ground arith)
    ends refused h e = absurd (ground arith)
    ends out_of_fuel h e = h

-- Whatever `decompress` gives is exactly as long as it was said to be.
pub length-decompress :
    (input : List ℕ) (expected : ℕ) (out : List ℕ)
    → decompress input expected ≡ some out
    → length out ≡ expected
unfolding decompress
length-decompress input expected out e =
    sized (loop (length input) input 0 0 (zeros expected)) (loop-Ends_whole input expected) e
  where
    sized : (o : Outcome) → Ends expected o → result o ≡ some out → length out ≡ expected
    sized (done out') h e = (let same : out' ≡ out = ground arith in ap length (sym same) ∙ h)
    sized refused h e = absurd (ground arith)
    sized out_of_fuel h e = absurd h
