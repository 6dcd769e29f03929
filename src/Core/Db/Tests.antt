-- ===== src/Core/Db/Tests.antt =====
-- Runs of src/core/db.rs, on maps that are lists of writes.
use dragonflydb_rs.Common.{true, ℕ, ◌+◌, ◌^◌, ◌<◌, ◌≡◌, refl, arith, [], ◌∷◌, none, some, bytes_eq}
use dragonflydb_rs.Core.HashMap.{HashMap}
use dragonflydb_rs.Core.HashMap.Writes.{writes}
use dragonflydb_rs.Core.Db.{
  set_sticky_flag, is_sticky, Key, same_watermark, DbSlice, new, insert, set_expiry, is_some,
  version_of, find, find_mut, expire_if_needed, expire_check,
}
use dragonflydb_rs.Core.Db.Expiry.{is_sticky-set_expiry, live, expire_if_needed_lem, find_lem}
use dragonflydb_rs.Core.Db.Calls.{after, call_set_expiry, call_insert_if_absent}
use dragonflydb_rs.Core.Db.Covered.{IsValid, after-IsValid}
use dragonflydb_rs.Core.Db.Watch.{Moves}
use dragonflydb_rs.Core.Db.Watch.Every.{after-Moves, find_mut-versions}

abbrev maps : HashMap Key bytes_eq
maps = writes Key bytes_eq

abbrev marks : HashMap (ℕ × Key) same_watermark
marks = writes (ℕ × Key) same_watermark

abbrev key : Key
key = b'k' ∷ []

-- A slice with the key 'k', which holds 7 and expires at 100.
abbrev db : DbSlice maps marks ℕ
db = set_expiry (insert (new maps marks ℕ 0) key 7) key 100 50

expire_if_needed_lem_example :
    let db1 = (expire_if_needed db key 100).1 in
    ((j : Key) → live db1 100 j ≡ live db 100 j)
    × (maps.lookup db1.prime_table key ≡ live db 100 key)
expire_if_needed_lem_example = expire_if_needed_lem db key 100

find_lem_example :
    let (result, db1) = find db key 99 in
    (result ≡ live db 99 key)
    × ((j : Key) → live db1 99 j ≡ live db 99 j)
    × (is_some (maps.lookup db1.prime_table key) ≡ is_some (live db 99 key))
find_lem_example = find_lem db key 99

few_versions : version_of db key + 2 < 2 ^ 64
unfolding version_of set_expiry insert expire_check bytes_eq
few_versions = omega arith

after-Moves_example : Moves 2 db (after db (call_set_expiry key 40 50)) key
after-Moves_example = after-Moves db (call_set_expiry key 40 50) key few_versions

alive : live db 99 key ≡ some 7
unfolding set_expiry insert expire_check bytes_eq
alive = refl

find_mut-versions_example :
    let (found, db1) = find_mut db key 99 in
    (found ≡ some 7) × (version_of db1 key ≡ version_of db key)
find_mut-versions_example = find_mut-versions db key 99 7 key alive

new-IsValid : IsValid (new maps marks ℕ 0)
new-IsValid j = tt

after-IsValid_example : IsValid (after (new maps marks ℕ 0) (call_insert_if_absent key 7 50))
after-IsValid_example =
    after-IsValid (new maps marks ℕ 0) (call_insert_if_absent key 7 50) new-IsValid

-- The same key, made sticky.
abbrev sticky_db : DbSlice maps marks ℕ
sticky_db = set_sticky_flag db key true

sticky_alive : live sticky_db 60 key ≡ some 7
unfolding set_sticky_flag set_expiry insert expire_check bytes_eq
sticky_alive = refl

is_sticky-set_expiry_example :
    let db1 = set_expiry sticky_db key 40 60 in
    (maps.lookup db1.prime_table key ≡ none) × (is_sticky db1 key ≡ is_sticky sticky_db key)
is_sticky-set_expiry_example = is_sticky-set_expiry sticky_db key 40 60 7 sticky_alive refl
