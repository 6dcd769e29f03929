-- ===== src/Core/Stream/Id.antt =====
-- src/core/stream.rs: `StreamId` and its derived order, by `ms` and then by `seq`.
use dragonflydb_rs.Common.{
  ℕ, ◌+◌, ◌-◌, ◌%◌, ◌^◌, ◌≡◌, arith, Bool, true, false, ◌&&◌, ◌||◌, List, ◌++◌, ◌∷◌, ltb, ◌==◌,
}
use dragonflydb_rs.Common.Int.{pos}
use dragonflydb_rs.Util.Decimal.{itoa}

pub record StreamId : Type 0 where
  pub ms : ℕ
  pub seq : ℕ

abbrev pub min_id : StreamId
min_id = record { ms = 0; seq = 0 }

abbrev pub max_id : StreamId
max_id = record { ms = 2 ^ 64 - 1; seq = 2 ^ 64 - 1 }

unfoldable pub is_zero : StreamId → Bool
is_zero id = id.ms == 0 && id.seq == 0

-- `self.seq + 1`, on `u64`.
unfoldable pub next : StreamId → StreamId
next id = record id { seq = (id.seq + 1) % 2 ^ 64 }

-- The decimals are those of `itoa` on numbers that are not negative.
unfoldable pub render : StreamId → List ℕ
render id = itoa (pos id.ms) ++ b'-' ∷ itoa (pos id.seq)

unfoldable pub less : StreamId → StreamId → Bool
less a b = ltb a.ms b.ms || (a.ms == b.ms && ltb a.seq b.seq)

unfoldable pub same : StreamId → StreamId → Bool
same a b = a.ms == b.ms && a.seq == b.seq

pub same→eq : (a b : StreamId) → same a b ≡ true → a ≡ b
unfolding same
same→eq a b h = ground arith

pub same_self : (a : StreamId) → same a a ≡ true
unfolding same
same_self a = ground arith

pub less_trans : (a b c : StreamId) → less a b ≡ true → less b c ≡ true → less a c ≡ true
unfolding less
less_trans a b c p q = ground arith

pub less-ne : (a b : StreamId) → less a b ≡ true → same a b ≡ false
unfolding less same
less-ne a b p = ground arith

pub less-asym : (a b : StreamId) → less a b ≡ true → less b a ≡ false
unfolding less
less-asym a b p = ground arith

-- What is not below a bound stays so going up.
pub above_trans : (a b m : StreamId) → less a m ≡ false → less a b ≡ true → less b m ≡ false
unfolding less
above_trans a b m p q = ground arith

pub same_of_neither : (a b : StreamId) → less a b ≡ false → less b a ≡ false → same a b ≡ true
unfolding less same
same_of_neither a b p q = ground arith

pub same_join : (a b c : StreamId) → same a c ≡ true → same b c ≡ true → same a b ≡ true
unfolding same
same_join a b c p q = ground arith

-- Where even the least id is not below a bound, none is.
pub not_below_min : (a m : StreamId) → less min_id m ≡ false → less a m ≡ false
unfolding less
not_below_min a m h = ground arith

pub less-snoc : (a b c : StreamId) → less b a ≡ false → less b c ≡ true → less a c ≡ true
unfolding less
less-snoc a b c p q = ground arith

pub less_self : (a : StreamId) → less a a ≡ false
unfolding less
less_self a = ground arith

pub less-ne_sym : (a b : StreamId) → less a b ≡ true → same b a ≡ false
unfolding less same
less-ne_sym a b p = ground arith

pub not_less_trans : (a b c : StreamId) → less a b ≡ false → less b c ≡ false → less a c ≡ false
unfolding less
not_less_trans a b c p q = ground arith

pub same_sym : (a b : StreamId) → same a b ≡ same b a
unfolding same
same_sym a b = ground arith
