-- ===== src/Memory/Keyspace.antt =====
-- redisTypes.ts and redisKeyspace.ts: entries with their expiry, the ways to reach them and the limit on
-- the number of keys. Every function is given the time, `store.now()`, and gives the store that it leaves.
use yorr.Prelude.{
  ℕ, String, Bool, false, Option, none, some, List, [], ◌∷◌, Dict, lookup, insert, delete, keys,
  length, includes, leb, ltb, if◌then◌else◌,
}

-- The score of a member of a sorted set is a JavaScript number.
pub data Value (Score : Type 0) : Type 0 where
  text : String → Value Score
  hash : Dict String → Value Score
  zset : Dict Score → Value Score

pub record Entry (Score : Type 0) : Type 0 where
  pub value : Value Score
  pub expires_at : Option ℕ

-- `script_creates` are the keys that the script that is running may create.
pub record Keyspace (Score : Type 0) : Type 0 where
  pub entries : Dict (Entry Score)
  pub max_keys : ℕ
  pub script_creates : Option (List String)

abbrev pub wrong_type : String
wrong_type = "WRONGTYPE Operation against a key holding the wrong kind of value"

abbrev pub oom_message : String
oom_message = "OOM command not allowed when used memory > 'maxmemory'."

abbrev pub undeclared : String
undeclared = "the script did not declare this key"

module _ {Score : Type 0} where
  -- `entry.expiresAt !== undefined && entry.expiresAt <= now`
  unfoldable pub is_expired : ℕ → Entry Score → Bool
  is_expired now e = elim e.expires_at [ none ↦ false | some at ↦ leb at now ]

  -- The entries that have not expired, in their order.
  unfoldable pub alive : ℕ → Dict (Entry Score) → Dict (Entry Score)
  alive now [] = []
  alive now ((key, e) ∷ rest) =
      let later = alive now rest in if is_expired now e then later else (key, e) ∷ later

  -- The entry of a key; one that has expired is deleted.
  unfoldable pub live : Keyspace Score → ℕ → String → Option (Entry Score) × Keyspace Score
  unfolding is_expired
  live s now key = elim (lookup key s.entries) [
    | none ↦ (none, s)
    | some e ↦
        if is_expired now e
        then (none, record s { entries = delete key s.entries })
        else (some e, s)
  ]

  abbrev pub put : Keyspace Score → String → Entry Score → Keyspace Score
  put s key e = record s { entries = insert key e s.entries }

  abbrev pub remove : Keyspace Score → String → Keyspace Score
  remove s key = record s { entries = delete key s.entries }

  abbrev pub sweep : Keyspace Score → ℕ → Keyspace Score
  sweep s now = record s { entries = alive now s.entries }

  -- A new key, and the error in place of it: at the limit what has expired is swept first.
  unfoldable pub create : Keyspace Score → ℕ → String → Entry Score → Option String × Keyspace Score
  create s now key e =
      if includes (keys s.entries) key then (none, put s key e) else elim s.script_creates [
        | some declared ↦
            if includes declared key then (none, put s key e) else (some undeclared, s)
        | none ↦
            let swept = sweep s now in
            if ltb (length s.entries) s.max_keys
            then (none, put s key e)
            else if ltb (length swept.entries) s.max_keys
            then (none, put swept key e)
            else (some oom_message, swept)
      ]
