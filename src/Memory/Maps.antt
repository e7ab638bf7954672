-- ===== src/Memory/Maps.antt =====
-- What the commands do with the fields of a hash or the members of a sorted set, which are JavaScript maps:
-- the loops of redisHashes.ts and redisZsets.ts.
use yorr.Prelude.{
  ℕ, ◌+◌, String, List, [], ◌∷◌, Dict, insert, delete, keys, includes, if◌then◌else◌,
}

-- `for (const [k, v] of pairs) map.set(k, v)`
unfoldable pub write_all : {V : Type 0} → List (String × V) → Dict V → Dict V
write_all [] m = m
write_all ((k, v) ∷ rest) m = write_all rest (insert k v m)

-- The pairs whose key was not there when it was written.
unfoldable pub count_added : {V : Type 0} → List (String × V) → Dict V → ℕ
count_added [] m = 0
count_added ((k, v) ∷ rest) m =
    let later = count_added rest (insert k v m) in if includes (keys m) k then later else later + 1

unfoldable pub delete_all : {V : Type 0} → List String → Dict V → Dict V
delete_all [] m = m
delete_all (k ∷ rest) m = delete_all rest (delete k m)

unfoldable pub count_removed : {V : Type 0} → List String → Dict V → ℕ
count_removed [] m = 0
count_removed (k ∷ rest) m =
    let later = count_removed rest (delete k m) in if includes (keys m) k then later + 1 else later
