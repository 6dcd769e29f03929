-- ===== src/Protocol/Resp.antt =====
-- src/protocol/resp.rs: the incremental parser of requests. The messages
-- of its errors are the constructors of `ProtocolError`.
pub mod Reply
pub mod Stable
pub mod Requests
pub mod Inline
mod Tests
use dragonflydb_rs.Common.{
  ℕ, zero, suc, ◌+◌, ◌-◌, ◌*◌, Bool, true, false, not, ◌&&◌, ◌||◌, List, [], ◌∷◌, ◌++◌, Option,
  none, some, length, take, drop, ltb, leb, ◌==◌, if◌then◌else◌, bytes_eq,
}
use dragonflydb_rs.Common.Int.{ℤ, pos, negsuc}
use dragonflydb_rs.Common.Results.{Result, ok, err, ◌>>=◌}
use dragonflydb_rs.Util.Decimal.{parse_i64}

abbrev pub max_multibulk : ℕ
max_multibulk = 1048576

abbrev pub max_bulk : ℕ
max_bulk = 512 * 1024 * 1024

abbrev pub max_inline : ℕ
max_inline = 64 * 1024

pub data ProtocolError : Type 0 where
  reset_by_error : ProtocolError
  expected_array : ℕ → ProtocolError
  invalid_multibulk_length : ProtocolError
  expected_bulk : ℕ → ProtocolError
  invalid_bulk_length : ProtocolError
  invalid_bulk_terminator : ProtocolError
  too_big_inline : ProtocolError
  unbalanced_quotes : ProtocolError

pub record RespParser : Type 0 where
  pub buf : List ℕ
  pub protocol_error : Bool

abbrev pub new : RespParser
new = record { buf = []; protocol_error = false }

unfoldable pub feed : RespParser → List ℕ → RespParser
feed p bytes = if p.protocol_error then p else record p { buf = p.buf ++ bytes }

unfoldable pub has_protocol_error : RespParser → Bool
has_protocol_error p = p.protocol_error

abbrev pub crlf : List ℕ
crlf = 13 ∷ 10 ∷ []

abbrev pub one_more : Option ℕ → Option ℕ
one_more none = none
one_more (some p) = some (suc p)

-- `windows(2).position(|w| w == b"\r\n")`
unfoldable pub find_crlf : List ℕ → Option ℕ
find_crlf [] = none
find_crlf (x ∷ []) = none
find_crlf (x ∷ y ∷ t) = if x == 13 && y == 10 then some 0 else one_more (find_crlf (y ∷ t))

abbrev pub Parsed : Type 0 → Type 0
Parsed A = Result ProtocolError (Option A)

-- `len < 0 || len as usize > max`, and otherwise the length.
abbrev pub checked_len : ProtocolError → ℕ → Option ℤ → Result ProtocolError ℕ
checked_len e max none = err e
checked_len e max (some (pos n)) = if ltb max n then err e else ok n
checked_len e max (some (negsuc n)) = err e

-- The bytes of a bulk string and the two behind them: `used` bytes stand in front.
abbrev pub bulk_body : ℕ → ℕ → List ℕ → Parsed (ℕ × List ℕ)
bulk_body used len body =
    if ltb (length body) (len + 2)
    then ok none
    else if not (bytes_eq (take 2 (drop len body)) crlf)
    then err invalid_bulk_terminator
    else ok (some (used + len + 2, take len body))

abbrev pub bulk_line : List ℕ → Option ℕ → Parsed (ℕ × List ℕ)
bulk_line t none = ok none
bulk_line t (some p) = do
  len ← checked_len invalid_bulk_length max_bulk (parse_i64 (take p t))
  bulk_body (p + 3) len (drop (p + 2) t)

-- One turn of the loop over the arguments, at `&self.buf[pos..]`: the argument and the bytes it took.
unfoldable pub bulk : List ℕ → Parsed (ℕ × List ℕ)
bulk [] = ok none
bulk (c ∷ t) = if not (c == b'$') then err (expected_bulk c) else bulk_line t (find_crlf t)

abbrev pub with_arg : List ℕ → Option (ℕ × List (List ℕ)) → Parsed (ℕ × List (List ℕ))
with_arg arg none = ok none
with_arg arg (some (end, args)) = ok (some (end, arg ∷ args))

-- What an argument leads to once it is there, with the rest of the loop.
abbrev pub with_bulk :
    (ℕ → List ℕ → Parsed (ℕ × List (List ℕ)))
    → ℕ
    → List ℕ
    → Option (ℕ × List ℕ)
    → Parsed (ℕ × List (List ℕ))
with_bulk again at rest none = ok none
with_bulk again at rest (some (used, arg)) = do
  more ← again (at + used) (drop used rest)
  with_arg arg more

-- `for _ in 0..count`: the end of the last argument and the arguments.
unfoldable pub bulks : ℕ → ℕ → List ℕ → Parsed (ℕ × List (List ℕ))
bulks zero at rest = ok (some (at, []))
bulks (suc count) at rest = do found ← bulk rest; with_bulk (bulks count) at rest found

abbrev pub multibulk_line : List ℕ → Option ℕ → Parsed (ℕ × List (List ℕ))
multibulk_line buf none = ok none
multibulk_line buf (some p) = do
  count ← checked_len invalid_multibulk_length max_multibulk (parse_i64 (take (p - 1) (drop 1 buf)))
  bulks count (p + 2) (drop (p + 2) buf)

unfoldable pub parse_multibulk : List ℕ → Parsed (ℕ × List (List ℕ))
parse_multibulk buf = multibulk_line buf (find_crlf buf)

-- The position of the first line feed.
unfoldable pub find_lf : List ℕ → Option ℕ
find_lf [] = none
find_lf (x ∷ t) = if x == 10 then some 0 else one_more (find_lf t)

-- `u8::is_ascii_whitespace`
abbrev pub is_ascii_whitespace : ℕ → Bool
is_ascii_whitespace b = b == 32 || b == 9 || b == 10 || b == 12 || b == 13

-- `args.push(take(&mut cur))` unless `cur` is empty.
abbrev pub flush : List (List ℕ) → List ℕ → List (List ℕ)
flush args [] = args
flush args (b ∷ cur) = args ++ (b ∷ cur) ∷ []

-- The loop of `split_inline` over the bytes of a line.
unfoldable pub split_on :
    List ℕ → List (List ℕ) → List ℕ → Bool → Bool → Result ProtocolError (List (List ℕ))
split_on [] args cur in_quotes escaped =
    if in_quotes
    then err unbalanced_quotes
    else ok (flush args (if escaped then cur ++ b'\\' ∷ [] else cur))
split_on (b ∷ line) args cur in_quotes escaped =
    let pushed = split_on line args (cur ++ b ∷ []) in_quotes false in
    let escape = split_on line args cur in_quotes true in
    let quote = split_on line args cur (not in_quotes) false in
    let space = split_on line (flush args cur) [] in_quotes false in
    if escaped
    then pushed
    else if b == b'\\' && in_quotes
    then escape
    else if b == b'"'
    then quote
    else if is_ascii_whitespace b && not in_quotes
    then space
    else pushed

unfoldable pub split_inline : List ℕ → Result ProtocolError (List (List ℕ))
unfolding split_on
split_inline line = split_on line [] [] false false

-- The line before a line feed at `end`, without a carriage return.
abbrev pub line_of : List ℕ → ℕ → List ℕ
line_of buf zero = []
line_of buf (suc k) =
    if bytes_eq (take 1 (drop k buf)) (13 ∷ []) then take k buf else take (suc k) buf

abbrev pub inline_args : ℕ → Result ProtocolError (List (List ℕ)) → Parsed (ℕ × List (List ℕ))
inline_args consumed (ok args) = ok (some (consumed, args))
inline_args consumed (err e) = err e

-- A line that is found: the buffer is what is left when an empty line has been drained.
abbrev pub inline_step :
    (List ℕ → List ℕ × Parsed (ℕ × List (List ℕ)))
    → List ℕ
    → Option ℕ
    → List ℕ × Parsed (ℕ × List (List ℕ))
inline_step again buf none =
    (buf, if ltb max_inline (length buf) then err too_big_inline else ok none)
inline_step again buf (some end) =
    let next = again (drop (suc end) buf) in
    if bytes_eq (line_of buf end) []
    then next
    else (buf, inline_args (suc end) (split_inline (line_of buf end)))

-- Each turn of the loop that goes on drains a byte at least.
unfoldable pub inline_on : ℕ → List ℕ → List ℕ × Parsed (ℕ × List (List ℕ))
inline_on zero buf = (buf, ok none)
inline_on (suc fuel) buf = inline_step (λ rest. inline_on fuel rest) buf (find_lf buf)

unfoldable pub parse_inline : List ℕ → List ℕ × Parsed (ℕ × List (List ℕ))
unfolding inline_on
parse_inline buf = inline_on (length buf) buf

-- What `next_request` makes of the result of either parser.
abbrev pub finish :
    RespParser → List ℕ × Parsed (ℕ × List (List ℕ)) → RespParser × Parsed (List (List ℕ))
finish p (buf, ok (some (consumed, args))) = (record p { buf = drop consumed buf }, ok (some args))
finish p (buf, ok none) = (record p { buf = buf }, ok none)
finish p (buf, err e) = (record p { buf = buf; protocol_error = true }, err e)

-- `$`, `+`, `-` or `:` in front of a request.
abbrev pub is_reply_byte : ℕ → Bool
is_reply_byte c = c == b'$' || c == b'+' || c == b'-' || c == b':'

abbrev pub request_from : RespParser → List ℕ → RespParser × Parsed (List (List ℕ))
request_from p [] = (p, ok none)
request_from p (c ∷ t) =
    if c == b'*'
    then finish p (c ∷ t, parse_multibulk (c ∷ t))
    else if is_reply_byte c
    then (p, err (expected_array c))
    else finish p (parse_inline (c ∷ t))

unfoldable pub next_request : RespParser → RespParser × Parsed (List (List ℕ))
next_request p = if p.protocol_error then (p, err reset_by_error) else request_from p p.buf
