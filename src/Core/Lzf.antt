-- ===== src/Core/Lzf.antt =====
-- src/core/lzf.rs: `decompress`. A buffer is its list of bytes.
pub mod Total
mod Tests
use dragonflydb_rs.Common.{
  ℕ, zero, suc, ◌+◌, ◌-◌, ◌*◌, ◌/◌, ◌%◌, ◌^◌, bit_and, List, [], ◌∷◌, Option, none, some, length,
  set, take, drop, byte_at, ltb, leb, ◌==◌, if◌then◌else◌,
}

-- `vec![0u8; n]`
abbrev pub zeros : ℕ → List ℕ
zeros zero = []
zeros (suc n) = 0 ∷ zeros n

-- `out[op..op + n].copy_from_slice(..)`
unfoldable pub write_at : List ℕ → ℕ → List ℕ → List ℕ
write_at out op [] = out
write_at out op (b ∷ bs) = write_at (set out op b) (op + 1) bs

-- The byte-by-byte copy of a back reference.
unfoldable pub copy_back : ℕ → List ℕ → ℕ → ℕ → List ℕ
copy_back zero out op ref_off = out
copy_back (suc remaining) out op ref_off =
    copy_back remaining (set out op (byte_at out ref_off)) (op + 1) (ref_off + 1)

-- One turn of the loop: the input position, the output position and the output behind it, or `none`
-- where the stream is refused.
unfoldable pub literal_run : List ℕ → ℕ → ℕ → ℕ → List ℕ → Option (ℕ × ℕ × List ℕ)
unfolding write_at
literal_run input n ip op out =
    if ltb (length out) (op + n)
    then none
    else if ltb (length input) (ip + n)
    then none
    else some (ip + n, op + n, write_at out op (take n (drop ip input)))

-- The end of a back reference, at its last byte: `len` is as the stream has it.
unfoldable pub back_ref : List ℕ → ℕ → ℕ → ℕ → ℕ → List ℕ → Option (ℕ × ℕ × List ℕ)
unfolding copy_back
back_ref input len ref_off ip op out =
    if ltb ref_off (byte_at input ip)
    then none
    else if ltb (length out) (op + len + 2)
    then none
    else if ltb (length out) (ref_off - byte_at input ip + len + 2)
    then none
    else some (ip + 1, op + (len + 2), copy_back (len + 2) out op (ref_off - byte_at input ip))

-- A back reference from its second byte on.
unfoldable pub long_ref : List ℕ → ℕ → ℕ → ℕ → List ℕ → Option (ℕ × ℕ × List ℕ)
unfolding back_ref
long_ref input ctrl ip op out =
    let high = bit_and ctrl 0x1f * 2 ^ 8 + 1 in
    if leb (length input) ip
    then none
    else if ltb op high
    then none
    else if ctrl / 2 ^ 5 == 7
    then if leb (length input) (ip + 1)
      then none
      else back_ref input (ctrl / 2 ^ 5 + byte_at input ip) (op - high) (ip + 1) op out
    else back_ref input (ctrl / 2 ^ 5) (op - high) ip op out

unfoldable pub turn : List ℕ → ℕ → ℕ → List ℕ → Option (ℕ × ℕ × List ℕ)
unfolding literal_run long_ref
turn input ip op out =
    let ctrl = byte_at input ip in
    if ltb ctrl 32
    then literal_run input (ctrl + 1) (ip + 1) op out
    else long_ref input ctrl (ip + 1) op out

-- How the loop ends. `out_of_fuel` is no outcome of the source.
pub data Outcome : Type 0 where
  done : List ℕ → Outcome
  refused : Outcome
  out_of_fuel : Outcome

unfoldable pub loop : ℕ → List ℕ → ℕ → ℕ → List ℕ → Outcome
unfolding turn
loop zero input ip op out = if ltb ip (length input) then out_of_fuel else done out
loop (suc fuel) input ip op out =
    if ltb ip (length input)
    then elim (turn input ip op out) [
      | none ↦ refused
      | some (ip', op', out') ↦ loop fuel input ip' op' out'
    ]
    else done out

abbrev pub result : Outcome → Option (List ℕ)
result (done out) = some out
result refused = none
result out_of_fuel = none

unfoldable pub decompress : List ℕ → ℕ → Option (List ℕ)
unfolding loop
decompress input expected = result (loop (length input) input 0 0 (zeros expected))
