-- ===== src/Rooms/Hashes.antt =====
-- One hash of the store as a script sees it: its fields, and how long it has yet to live. The commands
-- are those of redisHashes.ts and redisKeyCommands.ts on a key that holds a hash or nothing; a hash
-- without fields is a key that is not there.
use yorr.Prelude.{
  ℕ, String, ℤ, ◌+ℤ◌, Bool, true, false, Option, none, some, List, [], ◌∷◌, Dict, lookup, lookup_or,
  insert, delete, keys, length, includes, leb, if◌then◌else◌, number, integer, integer_text, str_eq,
}

pub record Hash : Type 0 where
  pub fields : Dict String
  pub ttl : Option ℕ

abbrev pub gone : Hash
gone = record { fields = []; ttl = none }

-- `r.exists(key) === 1`
unfoldable pub exists : Hash → Bool
exists h = elim h.fields [ [] ↦ false | x ∷ rest ↦ true ]

unfoldable pub hget : Hash → String → Option String
hget h k = lookup k h.fields

-- `r.hget(key, field) === value`
unfoldable pub has_value : Hash → String → String → Bool
has_value h k v = elim (lookup k h.fields) [ none ↦ false | some w ↦ str_eq w v ]

unfoldable pub hexists : Hash → String → Bool
hexists h k = includes (keys h.fields) k

unfoldable pub hlen : Hash → ℕ
hlen h = length h.fields

abbrev pub hkeys : Hash → List String
hkeys h = keys h.fields

-- A hash that is written keeps its time to live; a new one has none.
unfoldable pub hset : Hash → String → String → Hash
hset h k v = record h { fields = insert k v h.fields }

-- A hash that loses its last field is gone.
unfoldable pub dropped : Dict String → Option ℕ → Hash
dropped [] ttl = record { fields = []; ttl = none }
dropped (x ∷ rest) ttl = record { fields = x ∷ rest; ttl = ttl }

unfoldable pub hdel : Hash → String → Hash
unfolding dropped
hdel h k = dropped (delete k h.fields) h.ttl

-- `Number(r.hget(key, field))`, where a field that is missing is 0
unfoldable pub hnumber : Hash → String → ℕ
hnumber h k = number (lookup_or h.fields k "0")

-- The value that `hincrby` writes and returns.
unfoldable pub incremented : Hash → String → ℤ → ℤ
incremented h k step = integer (lookup_or h.fields k "0") +ℤ step

unfoldable pub hincrby : Hash → String → ℤ → Hash
unfolding incremented hset
hincrby h k step = hset h k (integer_text (incremented h k step))

-- A time to live of nothing deletes the key.
unfoldable pub pexpire : Hash → ℕ → Hash
unfolding exists
pexpire h ms = if exists h then (if leb ms 0 then gone else record h { ttl = some ms }) else h

-- `const ttl = r.pttl(room); if (ttl > 0) r.pexpire(key, ttl)`
unfoldable pub align : Hash → Hash → Hash
unfolding pexpire
align room h = elim room.ttl [ none ↦ h | some ms ↦ if leb ms 0 then h else pexpire h ms ]

-- `value ?? ''`
abbrev pub or_blank : Option String → String
or_blank none = ""
or_blank (some value) = value
