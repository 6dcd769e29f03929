-- ===== src/Core/Hash.antt =====
-- src/core/hash.rs: a hash is a vector of fields with their values or a table, with the expiry of fields
-- beside it. The table of expiries is handled as that of a set. Random choice is not modelled.
pub mod Small
pub mod Shows
pub mod Contents
pub mod Runs
mod Tests
use dragonflydb_rs.Common.{
  ℕ, zero, suc, ◌+◌, Bool, true, false, ◌||◌, List, [], ◌∷◌, ◌++◌, Option, none, some, length, ltb,
  ◌==◌, if◌then◌else◌, bytes_eq,
}
use dragonflydb_rs.Core.HashMap.{HashMap}
use dragonflydb_rs.Core.HashMap.Entries.{Listing, find_in}
use dragonflydb_rs.Core.Set.{
  Member, is_some, one_more, removed_at, or_empty, unless_empty, expiry_in, expired_in,
}

abbrev pub Pair : Type 0
Pair = Member × Member

abbrev pub hash_max_small : ℕ
hash_max_small = 128

abbrev pub any_field : List Pair → Member → Bool
any_field [] k = false
any_field ((f, x) ∷ v) k = bytes_eq f k || any_field v k

abbrev pub position : List Pair → Member → Option ℕ
position [] k = none
position ((f, x) ∷ v) k = if bytes_eq f k then some 0 else one_more (position v k)

-- The value at an index.
abbrev pub value_at : List Pair → Option ℕ → Option Member
value_at v none = none
value_at [] (some i) = none
value_at ((f, x) ∷ v) (some zero) = some x
value_at ((f, x) ∷ v) (some (suc i)) = value_at v (some i)

-- `std::mem::replace(&mut v[idx].1, value)`
abbrev pub replaced_at : List Pair → Option ℕ → Member → List Pair
replaced_at v none y = v
replaced_at [] (some i) y = []
replaced_at ((f, x) ∷ v) (some zero) y = (f, y) ∷ v
replaced_at ((f, x) ∷ v) (some (suc i)) y = (f, x) ∷ replaced_at v (some i) y

module _ (m : HashMap Member bytes_eq) where
  pub data HashRepr : Type 0 where
    small : List Pair → HashRepr
    large : m.Table Member → HashRepr

  pub record Hash : Type 0 where
    pub repr : HashRepr
    pub expiry : Option (m.Table ℕ)

  abbrev pub new : Hash
  new = record { repr = small []; expiry = none }

  -- `for (f, val) in v`
  abbrev pub insert_all : List Pair → m.Table Member → m.Table Member
  insert_all [] t = t
  insert_all ((f, x) ∷ v) t = insert_all v (m.put t f x)

  -- The expiries without that of a field.
  abbrev pub expiry_without : Option (m.Table ℕ) → Member → Option (m.Table ℕ)
  expiry_without none f = none
  expiry_without (some exp) f = unless_empty m (m.delete exp f)

module _ {m : HashMap Member bytes_eq} where
  abbrev pub repr_len : HashRepr m → ℕ
  repr_len (small v) = length v
  repr_len (large t) = m.size t

  unfoldable pub len : Hash m → ℕ
  len h = repr_len h.repr

  abbrev pub is_small : Hash m → Bool
  is_small h = elim h.repr [ small v ↦ true | large t ↦ false ]

  abbrev pub repr_get : HashRepr m → Member → Option Member
  repr_get (small v) k = find_in v k
  repr_get (large t) k = m.lookup t k

  unfoldable pub get : Hash m → Member → Option Member
  get h k = repr_get h.repr k

  abbrev pub repr_contains : HashRepr m → Member → Bool
  repr_contains (small v) k = any_field v k
  repr_contains (large t) k = is_some (m.lookup t k)

  unfoldable pub contains : Hash m → Member → Bool
  contains h k = repr_contains h.repr k

  unfoldable pub field_expire_ms : Hash m → Member → Option ℕ
  field_expire_ms h k = expiry_in m h.expiry k

  abbrev pub has_expiry : Hash m → Bool
  has_expiry h = is_some h.expiry

  abbrev pub promote : HashRepr m → HashRepr m
  promote (small v) = large (insert_all m v (m.empty Member))
  promote (large t) = large t

  -- A field at its position, or a new one.
  abbrev pub set_small : List Pair → Member → Member → Option ℕ → HashRepr m × Option Member
  set_small v k y (some i) = (small (replaced_at v (some i) y), value_at v (some i))
  set_small v k y none = (
    if ltb hash_max_small (length (v ++ (k, y) ∷ []))
        then promote (small (v ++ (k, y) ∷ []))
        else small (v ++ (k, y) ∷ []),
    none,
  )

  abbrev pub set_in : HashRepr m → Member → Member → HashRepr m × Option Member
  set_in (small v) k y = set_small v k y (position v k)
  set_in (large t) k y = (large (m.put t k y), m.lookup t k)

  unfoldable pub set : Hash m → Member → Member → Hash m × Option Member
  set h k y = (record h { repr = (set_in h.repr k y).0 }, (set_in h.repr k y).1)

  abbrev pub remove_from : HashRepr m → Member → HashRepr m × Option Member
  remove_from (small v) k = (small (removed_at v (position v k)), value_at v (position v k))
  remove_from (large t) k = (large (m.delete t k), m.lookup t k)

  unfoldable pub remove : Hash m → Member → Hash m × Option Member
  remove h k = (
    record { repr = (remove_from h.repr k).0; expiry = expiry_without m h.expiry k },
    (remove_from h.repr k).1,
  )

  abbrev pub set_expiry : Hash m → Member → ℕ → Hash m
  set_expiry h k at = record h { expiry = some (m.put (or_empty m h.expiry) k at) }

  abbrev pub clear_field_expiry : Hash m → Member → Hash m
  clear_field_expiry h k = record h { expiry = expiry_without m h.expiry k }

  -- The expiry of a field that is there: `keepttl`, its expiry, and the new one.
  abbrev pub expire_present : Hash m → Member → Bool → Option ℕ → Option ℕ → Hash m
  expire_present h k false old (some at) = set_expiry h k at
  expire_present h k false old none = clear_field_expiry h k
  expire_present h k true none (some at) = set_expiry h k at
  expire_present h k true none none = h
  expire_present h k true (some old) at = h

  abbrev pub expire_new : Hash m → Member → Option ℕ → Hash m
  expire_new h k none = h
  expire_new h k (some at) = set_expiry h k at

  unfoldable pub add_expirable : Hash m → Member → Member → Option ℕ → Bool → Hash m × Bool
  unfolding contains field_expire_ms set
  add_expirable h k y at keepttl =
      if contains h k
      then ((set (expire_present h k keepttl (field_expire_ms h k) at) k y).0, false)
      else ((set (expire_new h k at) k y).0, true)

  unfoldable pub add_or_skip : Hash m → Member → Member → Option ℕ → Hash m × Bool
  unfolding contains set
  add_or_skip h k y at =
      if contains h k then (h, false) else ((set (expire_new h k at) k y).0, true)

  -- `for f in &expired { self.remove(f.as_bytes()); }`
  unfoldable pub remove_all : List Member → Hash m → Hash m
  unfolding remove
  remove_all [] h = h
  remove_all (k ∷ ks) h = remove_all ks (remove h k).0

module _ {m : HashMap Member bytes_eq} (l : Listing m) where
  unfoldable pub prune_expired : Hash m → ℕ → Hash m
  unfolding remove_all
  prune_expired h now = remove_all (expired_in l now h.expiry) h

  abbrev pub pairs_of : HashRepr m → List Pair
  pairs_of (small v) = v
  pairs_of (large t) = l.entries t

  unfoldable pub iter : Hash m → List Pair
  iter h = pairs_of h.repr

  abbrev pub total_bytes : List Pair → ℕ
  total_bytes [] = 0
  total_bytes ((f, x) ∷ v) = length f + length x + total_bytes v

  unfoldable pub len_bytes : Hash m → ℕ
  unfolding iter
  len_bytes h = total_bytes (iter h)
