-- ===== src/Core/Set.antt =====
-- src/core/set.rs: a set is a vector of members or a table, with the expiry of members beside it. Random
-- choice is only that of `pop_random`, whose hash is a parameter.
pub mod Small
pub mod Shows
pub mod Contents
pub mod Runs
pub mod Pop
mod Tests
use dragonflydb_rs.Common.{
  ℕ, zero, suc, ◌-◌, ◌%◌, ◌^◌, Bool, true, false, not, ◌||◌, ◌&&◌, List, [], ◌∷◌, ◌++◌, Option,
  none, some, length, get_elem?, init, ltb, leb, ◌==◌, if◌then◌else◌, bytes_eq,
}
use dragonflydb_rs.Common.Int.{ℤ, pos, negsuc, ◌-ℤ◌, ltb_ℤ, to_signed}
use dragonflydb_rs.Core.HashMap.{HashMap}
use dragonflydb_rs.Core.HashMap.Entries.{Listing}

abbrev pub Member : Type 0
Member = List ℕ

abbrev pub set_max_small : ℕ
set_max_small = 128

abbrev pub is_some {ℓ} : {A : Type ℓ} → Option A → Bool
is_some none = false
is_some (some a) = true

-- `v.iter().any(|m| m == member)`
abbrev pub any_eq : List Member → Member → Bool
any_eq [] k = false
any_eq (x ∷ v) k = bytes_eq x k || any_eq v k

abbrev pub one_more : Option ℕ → Option ℕ
one_more none = none
one_more (some i) = some (suc i)

abbrev pub position : List Member → Member → Option ℕ
position [] k = none
position (x ∷ v) k = if bytes_eq x k then some 0 else one_more (position v k)

module _ {A : Type 0} where
  -- The last of a non-empty vector.
  abbrev pub last_of : A → List A → A
  last_of x [] = x
  last_of x (y ∷ v) = last_of y v

  abbrev pub last_first : List A → List A
  last_first [] = []
  last_first (x ∷ v) = last_of x v ∷ init (x ∷ v)

  -- `Vec::swap_remove`: the last element takes the place of the removed one.
  abbrev pub swap_remove : List A → ℕ → List A
  swap_remove [] i = []
  swap_remove (x ∷ v) zero = last_first v
  swap_remove (x ∷ v) (suc i) = x ∷ swap_remove v i

  abbrev pub removed_at : List A → Option ℕ → List A
  removed_at v none = v
  removed_at v (some i) = swap_remove v i

-- `i64::saturating_sub`
abbrev pub saturated : ℤ → ℤ
saturated d =
    if ltb_ℤ (pos (2 ^ 63 - 1)) d
    then pos (2 ^ 63 - 1)
    else if ltb_ℤ d (negsuc (2 ^ 63 - 1))
    then negsuc (2 ^ 63 - 1)
    else d

-- The members that have expired.
abbrev pub expired : ℕ → List (Member × ℕ) → List Member
expired now [] = []
expired now ((k, at) ∷ rest) = if leb at now then k ∷ expired now rest else expired now rest

abbrev pub keys : List (Member × Unit {0}) → List Member
keys [] = []
keys ((k, u) ∷ rest) = k ∷ keys rest

abbrev pub ttl_of : ℕ → Option ℕ → ℤ
ttl_of now none = negsuc 0
ttl_of now (some at) = saturated (to_signed (2 ^ 63) at -ℤ to_signed (2 ^ 63) now)

module _ (m : HashMap Member bytes_eq) where
  pub data SetRepr : Type 0 where
    small : List Member → SetRepr
    large : m.Table Unit → SetRepr

  pub record Set : Type 0 where
    pub repr : SetRepr
    pub expiry : Option (m.Table ℕ)

  abbrev pub new : Set
  new = record { repr = small []; expiry = none }

  -- `v.iter().cloned().collect()`
  abbrev pub collect : List Member → m.Table Unit → m.Table Unit
  collect [] t = t
  collect (k ∷ v) t = collect v (m.put t k tt)

  -- `get_or_insert_with(HashMap::new)`
  abbrev pub or_empty : Option (m.Table ℕ) → m.Table ℕ
  or_empty none = m.empty ℕ
  or_empty (some exp) = exp

  -- `for m in &expired { exp.remove(m); }`
  abbrev pub delete_all : List Member → m.Table ℕ → m.Table ℕ
  delete_all [] exp = exp
  delete_all (k ∷ ks) exp = delete_all ks (m.delete exp k)

  abbrev pub unless_empty : m.Table ℕ → Option (m.Table ℕ)
  unless_empty exp = if m.size exp == 0 then none else some exp

  abbrev pub expiry_in : Option (m.Table ℕ) → Member → Option ℕ
  expiry_in none k = none
  expiry_in (some exp) k = m.lookup exp k

module _ {m : HashMap Member bytes_eq} where
  abbrev pub repr_contains : SetRepr m → Member → Bool
  repr_contains (small v) k = any_eq v k
  repr_contains (large t) k = is_some (m.lookup t k)

  unfoldable pub contains : Set m → Member → Bool
  contains s k = repr_contains s.repr k

  abbrev pub repr_len : SetRepr m → ℕ
  repr_len (small v) = length v
  repr_len (large t) = m.size t

  unfoldable pub len : Set m → ℕ
  len s = repr_len s.repr

  abbrev pub promote : SetRepr m → SetRepr m
  promote (small v) = large (collect m v (m.empty Unit))
  promote (large t) = large t

  abbrev pub add_to : SetRepr m → Member → SetRepr m × Bool
  add_to (small v) k =
      if any_eq v k
      then (small v, false)
      else if ltb set_max_small (length (v ++ k ∷ []))
      then (promote (small (v ++ k ∷ [])), true)
      else (small (v ++ k ∷ []), true)
  add_to (large t) k = (large (m.put t k tt), not (is_some (m.lookup t k)))

  unfoldable pub add : Set m → Member → Set m × Bool
  add s k = (record s { repr = (add_to s.repr k).0 }, (add_to s.repr k).1)

  abbrev pub remove_from : SetRepr m → Member → SetRepr m × Bool
  remove_from (small v) k = (small (removed_at v (position v k)), is_some (position v k))
  remove_from (large t) k = (large (m.delete t k), is_some (m.lookup t k))

  unfoldable pub remove : Set m → Member → Set m × Bool
  remove s k = (record s { repr = (remove_from s.repr k).0 }, (remove_from s.repr k).1)

  abbrev pub set_expiry : Set m → Member → ℕ → Set m
  set_expiry s k at = record s { expiry = some (m.put (or_empty m s.expiry) k at) }

  unfoldable pub add_expirable : Set m → Member → ℕ → Bool → Set m × Bool
  unfolding contains add
  add_expirable s k at keepttl =
      if contains s k
      then (if keepttl then s else set_expiry s k at, false)
      else (set_expiry (add s k).0 k at, true)

  -- `for m in &expired { self.remove(m.as_bytes()); }`
  abbrev pub remove_all : List Member → SetRepr m → SetRepr m
  remove_all [] r = r
  remove_all (k ∷ ks) r = remove_all ks (remove_from r k).0

  abbrev pub prune : Set m → m.Table ℕ → List Member → Set m
  prune s exp [] = s
  prune s exp (k ∷ ks) = record {
    repr = remove_all (k ∷ ks) s.repr;
    expiry = unless_empty m (delete_all m (k ∷ ks) exp);
  }

  unfoldable pub member_expire_ms : Set m → Member → Option ℕ
  member_expire_ms s k = expiry_in m s.expiry k

  unfoldable pub member_ttl_ms : Set m → Member → ℕ → ℤ
  member_ttl_ms s k now = ttl_of now (expiry_in m s.expiry k)

  abbrev pub has_expiry : Set m → Bool
  has_expiry s = is_some s.expiry

  unfoldable pub extend : List Member → Set m → Set m
  unfolding add
  extend [] s = s
  extend (k ∷ ks) s = extend ks (add s k).0

  abbrev pub clear : Set m → Set m
  clear s = record { repr = small []; expiry = none }

module _ {m : HashMap Member bytes_eq} (l : Listing m) where
  abbrev pub expired_in : ℕ → Option (m.Table ℕ) → List Member
  expired_in now none = []
  expired_in now (some exp) = expired now (l.entries exp)

  unfoldable pub prune_expired : Set m → ℕ → Set m
  prune_expired s now = prune s (or_empty m s.expiry) (expired_in now s.expiry)

  abbrev pub repr_members : SetRepr m → List Member
  repr_members (small v) = v
  repr_members (large t) = keys (l.entries t)

  unfoldable pub members : Set m → List Member
  members s = repr_members s.repr

  abbrev pub member_at : SetRepr m → ℕ → Option Member
  member_at r i = get_elem? (repr_members r) i

  -- The first member, or no bytes.
  abbrev pub first_or_empty : List Member → Member
  first_or_empty [] = []
  first_or_empty (k ∷ v) = k

  abbrev pub sample_seed : SetRepr m → Member
  sample_seed r = first_or_empty (repr_members r)

  -- The removal of the member at an index, with the member.
  abbrev pub taken : SetRepr m → ℕ → Option Member → SetRepr m × Option Member
  taken r i none = (r, none)
  taken (small v) i (some k) = (small (swap_remove v i), some k)
  taken (large t) i (some k) = (large (m.delete t k), some k)

  abbrev pub pop_at : SetRepr m → ℕ → SetRepr m × Option Member
  pop_at r i = taken r i (member_at r i)

  unfoldable pub pop_random : (Member → ℕ) → Set m → Set m × Option Member
  unfolding len
  pop_random shard_hash s = if len s == 0 then (s, none) else (
    record s { repr = (pop_at s.repr (shard_hash (sample_seed s.repr) % len s)).0 },
    (pop_at s.repr (shard_hash (sample_seed s.repr) % len s)).1,
  )
