-- ===== src/Protocol/Resp/Reply.antt =====
-- src/protocol/resp.rs and `RespValue` of src/error.rs: replies. The formatting of floating-point
-- numbers is not modelled: their type and its `format_double` are parameters.
use dragonflydb_rs.Common.{
  ℕ, suc, ◌*◌, Bool, true, false, List, [], ◌∷◌, ◌++◌, length, ◌==◌, if◌then◌else◌,
}
use dragonflydb_rs.Common.Int.{ℤ, pos}
use dragonflydb_rs.Util.Decimal.{itoa}
use dragonflydb_rs.Protocol.Resp.{crlf}

module _ (F : Type 0) where
  mutual
    pub data RespValue : Type 0 where
      simple : List ℕ → RespValue
      error : List ℕ → RespValue
      integer : ℤ → RespValue
      bulk_string : List ℕ → RespValue
      nil : RespValue
      nil_array : RespValue
      array : Values → RespValue
      double : F → RespValue
      bool : Bool → RespValue
      map : Pairs → RespValue
      push : Values → RespValue

    pub data Values : Type 0 where
      no_values : Values
      value : RespValue → Values → Values

    pub data Pairs : Type 0 where
      no_pairs : Pairs
      pair : RespValue → RespValue → Pairs → Pairs

module _ {F : Type 0} where
  abbrev pub count_values : Values F → ℕ
  count_values no_values = 0
  count_values (value v vs) = suc (count_values vs)

  abbrev pub count_pairs : Pairs F → ℕ
  count_pairs no_pairs = 0
  count_pairs (pair k v ps) = suc (count_pairs ps)

-- A marker, a number and a line end.
abbrev pub header : ℕ → ℤ → List ℕ
header marker n = marker ∷ (itoa n ++ crlf)

abbrev pub bulk_bytes : List ℕ → List ℕ
bulk_bytes b = header b'$' (pos (length b)) ++ (b ++ crlf)

abbrev pub starts_with_dash : List ℕ → Bool
starts_with_dash [] = false
starts_with_dash (c ∷ t) = c == b'-'

abbrev pub from_bool : Bool → ℤ
from_bool true = pos 1
from_bool false = pos 0

module _ {F : Type 0} (format_double : F → List ℕ) where
  -- The bytes that `encode_reply` appends. A map is sent as the array of its keys and values.
  unfoldable mutual
    pub reply_bytes : RespValue F → List ℕ
    reply_bytes (simple s) = b'+' ∷ (s ++ crlf)
    reply_bytes (error e) = if starts_with_dash e then e ++ crlf else b'-' ∷ (e ++ crlf)
    reply_bytes (integer i) = header b':' i
    reply_bytes (bulk_string b) = bulk_bytes b
    reply_bytes nil = b'$' ∷ b'-' ∷ b'1' ∷ crlf
    reply_bytes nil_array = b'*' ∷ b'-' ∷ b'1' ∷ crlf
    reply_bytes (array items) = header b'*' (pos (count_values items)) ++ values_bytes items
    reply_bytes (double f) = bulk_bytes (format_double f)
    reply_bytes (bool b) = header b':' (from_bool b)
    reply_bytes (map pairs) = header b'*' (pos (2 * count_pairs pairs)) ++ pairs_bytes pairs
    reply_bytes (push items) = header b'>' (pos (count_values items)) ++ values_bytes items

    pub values_bytes : Values F → List ℕ
    values_bytes no_values = []
    values_bytes (value v items) = reply_bytes v ++ values_bytes items

    pub pairs_bytes : Pairs F → List ℕ
    pairs_bytes no_pairs = []
    pairs_bytes (pair k v pairs) = reply_bytes k ++ (reply_bytes v ++ pairs_bytes pairs)

  unfoldable pub encode_reply : RespValue F → List ℕ → List ℕ
  unfolding reply_bytes
  encode_reply v out = out ++ reply_bytes v

abbrev pub encode_nil_array : List ℕ
encode_nil_array = b'*' ∷ b'-' ∷ b'1' ∷ crlf
