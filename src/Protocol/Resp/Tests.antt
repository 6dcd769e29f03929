-- ===== src/Protocol/Resp/Tests.antt =====
-- Runs of src/protocol/resp.rs.
use dragonflydb_rs.Common.{ℕ, ◌≡◌, refl, arith, false, List, [], ◌∷◌, ◌++◌, All, none, some}
use dragonflydb_rs.Common.Int.{pos}
use dragonflydb_rs.Common.Results.{ok, err}
use dragonflydb_rs.Util.Decimal.{itoa}
use dragonflydb_rs.Protocol.Resp.{
  new, feed, expected_array, unbalanced_quotes, next_request, split_inline,
}
use dragonflydb_rs.Protocol.Resp.Reply.{
  array, error, integer, value, no_values, map, pair, no_pairs, encode_reply, reply_bytes,
}
use dragonflydb_rs.Protocol.Resp.Requests.{
  Small, request_bytes, next_request-request, next_request-waits,
}
use dragonflydb_rs.Protocol.Resp.Inline.{next_request_empty_line}

-- Doubles are their text.
abbrev as_text : List ℕ → List ℕ
as_text s = s

abbrev echo : List (List ℕ)
echo = (b'E' ∷ b'C' ∷ b'H' ∷ b'O' ∷ []) ∷ (b'h' ∷ b'i' ∷ []) ∷ []

echo-Small : All Small echo
echo-Small = (omega arith, (omega arith, tt))

abbrev first_part : List ℕ
first_part =
    b'*' ∷ b'2' ∷ 13 ∷ 10 ∷ b'$' ∷ b'4' ∷ 13 ∷ 10 ∷ b'E' ∷ b'C' ∷ b'H' ∷ b'O' ∷ 13 ∷ 10 ∷ b'$'
    ∷ b'2' ∷ []

abbrev second_part : List ℕ
second_part = 13 ∷ 10 ∷ b'h' ∷ b'i' ∷ 13 ∷ 10 ∷ []

echo_bytes : first_part ++ second_part ≡ request_bytes as_text echo
unfolding reply_bytes itoa
echo_bytes = refl

next_request-request_example :
    next_request (record { buf = request_bytes as_text echo ++ b'*' ∷ []; protocol_error = false })
    ≡ (record { buf = b'*' ∷ []; protocol_error = false }, ok (some echo))
next_request-request_example =
    next_request-request as_text echo (b'*' ∷ []) (omega arith) echo-Small

next_request-waits_example :
    next_request (record { buf = first_part; protocol_error = false })
    ≡ (record { buf = first_part; protocol_error = false }, ok none)
next_request-waits_example =
    next_request-waits as_text echo first_part second_part echo_bytes (omega arith) (omega arith)
      echo-Small

-- An array of no arguments behind an empty line.
next_request_empty_line_example :
    next_request (record { buf = 13 ∷ 10 ∷ b'*' ∷ b'0' ∷ 13 ∷ 10 ∷ []; protocol_error = false })
    ≡ (record { buf = []; protocol_error = false }, ok (some ((b'*' ∷ b'0' ∷ []) ∷ [])))
next_request_empty_line_example =
    next_request_empty_line b'*' (b'0' ∷ []) [] ((refl, refl), ((refl, refl), tt))

set_line :
    split_inline (b'S' ∷ 32 ∷ b'"' ∷ b'a' ∷ 32 ∷ b'b' ∷ b'"' ∷ [])
    ≡ ok ((b'S' ∷ []) ∷ (b'a' ∷ 32 ∷ b'b' ∷ []) ∷ [])
unfolding split_inline
set_line = refl

open_quote : split_inline (b'"' ∷ []) ≡ err unbalanced_quotes
unfolding split_inline
open_quote = refl

-- A reply in place of a request is refused, and the parser goes on.
reply_refused :
    next_request (feed new (b'+' ∷ [])) ≡ (feed new (b'+' ∷ []), err (expected_array b'+'))
unfolding next_request feed
reply_refused = refl

-- An error that brings its dash along.
dash_kept : encode_reply as_text (error (b'-' ∷ b'x' ∷ [])) [] ≡ b'-' ∷ b'x' ∷ 13 ∷ 10 ∷ []
unfolding encode_reply
dash_kept = refl

map_flat :
    encode_reply as_text (map (pair (integer (pos 1)) (integer (pos 2)) no_pairs)) []
    ≡ encode_reply as_text (array (value (integer (pos 1)) (value (integer (pos 2)) no_values))) []
unfolding encode_reply
map_flat = refl
