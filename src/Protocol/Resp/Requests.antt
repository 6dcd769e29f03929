-- ===== src/Protocol/Resp/Requests.antt =====
-- src/protocol/resp.rs: the parser reads the requests that the encoder of replies writes, and waits for
-- the rest of one that has not come in whole.
use dragonflydb_rs.Common.{
  ℕ, suc, ◌+◌, ◌-◌, ◌≤◌, ◌<◌, ◌≡◌, refl, ap, sym, ◌∙◌, inl, inr, arith, false, List, [], ◌∷◌, ◌++◌,
  All, none, some, length, length-append, append_assoc, append-nil, take, drop, take_front,
  drop_front, drop-append, ltb, le→ltb_false, ◌==◌, bytes_eq_self,
}
use dragonflydb_rs.Common.Int.{pos}
use dragonflydb_rs.Common.Results.{ok}
use dragonflydb_rs.Util.Decimal.{itoa}
use dragonflydb_rs.Util.RoundTrip.{parse_i64-itoa}
use dragonflydb_rs.Util.Unsigned.{IsDigit, itoa-IsDigit}
use dragonflydb_rs.Protocol.Resp.{
  RespParser, crlf, one_more, find_crlf, max_bulk, max_multibulk, bulk, bulks, parse_multibulk,
  finish, request_from, next_request,
}
use dragonflydb_rs.Protocol.Resp.Reply.{
  Values, array, bulk_string, no_values, value, count_values, bulk_bytes, reply_bytes, values_bytes,
}
use dragonflydb_rs.Protocol.Resp.Stable.{multibulk-Keeps, multibulk_end}

find_skip : (x : ℕ) (t : List ℕ) → (x == 13) ≡ false → find_crlf (x ∷ t) ≡ one_more (find_crlf t)
unfolding find_crlf
find_skip x [] h = refl
find_skip x (y ∷ t) h = rw h refl

-- The line end behind a number.
find_line : (ds t : List ℕ) → All IsDigit ds → find_crlf (ds ++ 13 ∷ 10 ∷ t) ≡ some (length ds)
find_line [] t h = unfold find_crlf in refl
find_line (d ∷ ds) t h =
    find_skip d (ds ++ 13 ∷ 10 ∷ t) (ground (arith, h.0)) ∙ ap one_more (find_line ds t h.1)

-- A bulk string, whatever follows it.
bulk-bulk_bytes :
    (b rest : List ℕ)
    → length b ≤ max_bulk
    → bulk (bulk_bytes b ++ rest) ≡ ok (some (length (bulk_bytes b), b))
unfolding bulk
bulk-bulk_bytes b rest small =
    let ds = itoa (pos (length b)) in
    let body = b ++ (13 ∷ 10 ∷ rest) in
    let split : ((ds ++ crlf) ++ (b ++ crlf)) ++ rest ≡ ds ++ 13 ∷ 10 ∷ body = simp append_assoc in
    let found = find_line ds body (itoa-IsDigit (length b)) in
    let text = take_front ds (13 ∷ 10 ∷ body) in
    let behind : drop (length ds + 2) (ds ++ 13 ∷ 10 ∷ body) ≡ body =
      drop-append ds (13 ∷ 10 ∷ body) 2 in
    let parsed = parse_i64-itoa (pos (length b)) (omega arith, omega arith) in
    let good : ltb max_bulk (length b) ≡ false = le→ltb_false max_bulk (length b) small in
    let size : length body ≡ length b + suc (suc (length rest)) =
      length-append b (13 ∷ 10 ∷ rest) in
    let enough : ltb (length body) (length b + 2) ≡ false =
      le→ltb_false _ _ (omega (arith, size)) in
    let tail : drop (length b) body ≡ 13 ∷ 10 ∷ rest = drop_front b (13 ∷ 10 ∷ rest) in
    let arg : take (length b) body ≡ b = take_front b (13 ∷ 10 ∷ rest) in
    let closed = bytes_eq_self crlf in
    let used : length ds + 3 + length b + 2 ≡ length (bulk_bytes b) = omega (
      arith,
      length-append (ds ++ crlf) (b ++ crlf),
      length-append ds crlf,
      length-append b crlf,
    ) in
    rw (split, found, text, behind)
      (rw parsed (rw good (rw (enough, tail, arg) (rw closed (rw used refl)))))

abbrev all_bytes : List (List ℕ) → List ℕ
all_bytes [] = []
all_bytes (b ∷ args) = bulk_bytes b ++ all_bytes args

-- Every argument is short enough.
abbrev pub Small : List ℕ → Type 0
Small b = length b ≤ max_bulk

bulks-all_bytes :
    (args : List (List ℕ)) (at : ℕ) (rest : List ℕ)
    → All Small args
    → bulks (length args) at (all_bytes args ++ rest)
      ≡ ok (some (at + length (all_bytes args), args))
unfolding bulks
bulks-all_bytes [] at rest small = let e : at + 0 ≡ at = omega arith in rw e refl
bulks-all_bytes (b ∷ args) at rest small =
    let more = all_bytes args in
    let n = length (bulk_bytes b) in
    let split : (bulk_bytes b ++ more) ++ rest ≡ bulk_bytes b ++ (more ++ rest) =
      append_assoc (bulk_bytes b) more rest in
    let first = bulk-bulk_bytes b (more ++ rest) small.0 in
    let behind : drop n (bulk_bytes b ++ (more ++ rest)) ≡ more ++ rest =
      drop_front (bulk_bytes b) (more ++ rest) in
    let end : at + n + length more ≡ at + length (bulk_bytes b ++ more) =
      omega (arith, length-append (bulk_bytes b) more) in
    rw (split, first) (rw behind (rw (bulks-all_bytes args (at + n) rest small.1) (rw end refl)))

from_star :
    (p : RespParser) (buf t : List ℕ)
    → buf ≡ b'*' ∷ t
    → request_from p buf ≡ finish p (buf, parse_multibulk buf)
from_star p buf t e = rw e refl

head_eq : {x y : ℕ} {xs ys : List ℕ} → ◌≡◌ {A = List ℕ} (x ∷ xs) (y ∷ ys) → x ≡ y
head_eq h = cc

module _ {F : Type 0} (format_double : F → List ℕ) where
  abbrev pub values_of : List (List ℕ) → Values F
  values_of [] = no_values
  values_of (b ∷ args) = value (bulk_string b) (values_of args)

  -- A request: an array of bulk strings.
  abbrev pub request_bytes : List (List ℕ) → List ℕ
  request_bytes args = reply_bytes format_double (array (values_of args))

  count_values_of : (args : List (List ℕ)) → count_values (values_of args) ≡ length args
  count_values_of [] = refl
  count_values_of (b ∷ args) = ap suc (count_values_of args)

  values_bytes_of :
      (args : List (List ℕ)) → values_bytes format_double (values_of args) ≡ all_bytes args
  unfolding values_bytes reply_bytes
  values_bytes_of [] = refl
  values_bytes_of (b ∷ args) = ap (λ r. bulk_bytes b ++ r) (values_bytes_of args)

  request_form :
      (args : List (List ℕ))
      → request_bytes args ≡ b'*' ∷ (itoa (pos (length args)) ++ 13 ∷ 10 ∷ all_bytes args)
  unfolding reply_bytes
  request_form args = rw (count_values_of args, values_bytes_of args) (simp append_assoc)

  multibulk-request :
      (args : List (List ℕ)) (rest : List ℕ)
      → length args ≤ max_multibulk
      → All Small args
      → parse_multibulk (request_bytes args ++ rest) ≡ ok (some (length (request_bytes args), args))
  unfolding parse_multibulk
  multibulk-request args rest few small =
      let ds = itoa (pos (length args)) in
      let body = all_bytes args ++ rest in
      let form = request_form args in
      let split : (b'*' ∷ (ds ++ 13 ∷ 10 ∷ all_bytes args)) ++ rest
          ≡ b'*' ∷ (ds ++ 13 ∷ 10 ∷ body) =
        simp append_assoc in
      let found : find_crlf (b'*' ∷ (ds ++ 13 ∷ 10 ∷ body)) ≡ some (suc (length ds)) =
        find_skip b'*' (ds ++ 13 ∷ 10 ∷ body) refl
        ∙ ap one_more (find_line ds body (itoa-IsDigit (length args))) in
      let one : suc (length ds) - 1 ≡ length ds = omega arith in
      let text = take_front ds (13 ∷ 10 ∷ body) in
      let next : suc (length ds) + 2 ≡ suc (length ds + 2) = omega arith in
      let behind : drop (length ds + 2) (ds ++ 13 ∷ 10 ∷ body) ≡ body =
        drop-append ds (13 ∷ 10 ∷ body) 2 in
      let parsed = parse_i64-itoa (pos (length args)) (omega arith, omega arith) in
      let good : ltb max_multibulk (length args) ≡ false =
        le→ltb_false max_multibulk (length args) few in
      let end : suc (length ds + 2) + length (all_bytes args)
          ≡ length (b'*' ∷ (ds ++ 13 ∷ 10 ∷ all_bytes args)) =
        omega (arith, length-append ds (13 ∷ 10 ∷ all_bytes args)) in
      rw form (
        rw (split, found)
          (rw (one, text, next)
            (rw behind (
              rw (parsed, good)
                (bulks-all_bytes args (suc (length ds + 2)) rest small ∙ rw end refl)))))

  -- A request of bulk strings, as the encoder writes an array of them, is read from the front of the
  -- buffer with its arguments, whatever bytes follow it, and only its bytes are drained. Counts and
  -- sizes are within the limits of the parser, which has seen no error.
  pub next_request-request :
      (args : List (List ℕ)) (rest : List ℕ)
      → length args ≤ max_multibulk
      → All Small args
      → next_request (record { buf = request_bytes args ++ rest; protocol_error = false })
        ≡ (record { buf = rest; protocol_error = false }, ok (some args))
  unfolding next_request
  next_request-request args rest few small =
      let whole = multibulk-request args rest few small in
      let drained = drop_front (request_bytes args) rest in
      let buf = request_bytes args ++ rest in
      let p : RespParser = record { buf = buf; protocol_error = false } in
      from_star p buf _ (ap (λ b. b ++ rest) (request_form args))
      ∙ ap (λ r. finish p (buf, r)) whole
      ∙ ap (λ b. (record { buf = b; protocol_error = false }, ok (some args))) drained

  -- While a last part of a request is missing, a parser that has seen no error asks for more and keeps what
  -- it has, wherever the request is cut, for counts and sizes within the limits of the parser.
  pub next_request-waits :
      (args : List (List ℕ)) (first more : List ℕ)
      → first ++ more ≡ request_bytes args
      → 0 < length more
      → length args ≤ max_multibulk
      → All Small args
      → next_request (record { buf = first; protocol_error = false })
        ≡ (record { buf = first; protocol_error = false }, ok none)
  unfolding next_request
  next_request-waits args [] more cut left few small = refl
  next_request-waits args (c ∷ t) more cut left few small =
      let buf = c ∷ t in
      let p : RespParser = record { buf = buf; protocol_error = false } in
      let whole : parse_multibulk (buf ++ more) ≡ ok (some (length (request_bytes args), args)) =
        ap parse_multibulk (cut ∙ sym (append-nil (request_bytes args)))
        ∙ multibulk-request args [] few small in
      let star : c ≡ b'*' = head_eq (cut ∙ request_form args) in
      let open_end : parse_multibulk buf ≡ ok none = elim (multibulk-Keeps buf more) [
        | inl undecided ↦ undecided
        | inr same ↦
            let bound = multibulk_end buf (length (request_bytes args)) args (sym same ∙ whole) in
            let size : length buf + length more ≡ length (request_bytes args) =
              sym (length-append buf more) ∙ ap length cut in
            absurd (omega (arith, bound, size, left))
      ] in
      from_star p buf t (ap (λ x. x ∷ t) star) ∙ ap (λ r. finish p (buf, r)) open_end
