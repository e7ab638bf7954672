-- ===== src/Memory/Snapshot.antt =====
-- redisSnapshot.ts: the live keys as lines with the absolute time of their expiry, and the store that is
-- made from such lines when the server starts again.
use yorr.Prelude.{
  ℕ, ◌+◌, String, Bool, true, false, ◌||◌, Option, none, some, List, [], ◌∷◌, Dict, length, every,
  ◌&&◌, ◌>>=◌, leb, ltb, if◌then◌else◌, Result, ok, err,
}
use yorr.Memory.Keyspace.{Value, text, hash, zset, Entry, Keyspace, is_expired, create, oom_message}

-- A line of the right shape, whose scores may still be infinite.
pub data Line (Score : Type 0) : Type 0 where
  s : String → String → Option ℕ → Line Score
  h : String → Dict String → Option ℕ → Line Score
  z : String → Dict Score → Option ℕ → Line Score

module _ {Score : Type 0} where
  unfoldable pub line_of_value : String → Value Score → Option ℕ → Line Score
  line_of_value k (text v) at = s k v at
  line_of_value k (hash m) at = h k m at
  line_of_value k (zset m) at = z k m at

  unfoldable pub line_of : String × Entry Score → Line Score
  unfolding line_of_value
  line_of (k, e) = line_of_value k e.value e.expires_at

  unfoldable pub snapshot : ℕ → Dict (Entry Score) → List (Line Score)
  unfolding is_expired line_of
  snapshot now [] = []
  snapshot now ((k, e) ∷ rest) =
      let lines = snapshot now rest in if is_expired now e then lines else line_of (k, e) ∷ lines

  unfoldable pub entry_of : Line Score → String × Entry Score
  entry_of (s k v at) = (k, record { value = text v; expires_at = at })
  entry_of (h k m at) = (k, record { value = hash m; expires_at = at })
  entry_of (z k m at) = (k, record { value = zset m; expires_at = at })

  -- `parseEntry` on a line whose texts are texts and whose times and scores are numbers; `is_finite` is
  -- `Number.isFinite`.
  unfoldable pub parse_entry : (Score → Bool) → Line Score → Result (Line Score)
  parse_entry is_finite (s k v at) = ok (s k v at)
  parse_entry is_finite (h k m at) = ok (h k m at)
  parse_entry is_finite (z k m at) =
      if every (λ (member, score). is_finite score) m
      then ok (z k m at)
      else err "the shape of a snapshot entry is wrong"

  unfoldable pub parse_all : (Score → Bool) → List (Line Score) → Result (List (Line Score))
  unfolding parse_entry
  parse_all is_finite [] = ok []
  parse_all is_finite (line ∷ rest) = do
    parsed ← parse_entry is_finite line
    later ← parse_all is_finite rest
    ok (parsed ∷ later)

  -- An empty hash or sorted set, which Redis does not have.
  unfoldable pub is_hollow : Value Score → Bool
  is_hollow (text v) = false
  is_hollow (hash m) = leb (length m) 0
  is_hollow (zset m) = leb (length m) 0

  -- The lines that have not expired and hold something.
  unfoldable pub restorable : ℕ → List (Line Score) → List (Line Score)
  unfolding is_expired entry_of is_hollow
  restorable now [] = []
  restorable now (line ∷ rest) =
      let lines = restorable now rest in
      if is_expired now (entry_of line).1 || is_hollow (entry_of line).1.value
      then lines
      else line ∷ lines

  unfoldable pub create_all : Keyspace Score → ℕ → List (Line Score) → Keyspace Score × Result ℕ
  unfolding create entry_of
  create_all store now [] = (store, ok 0)
  create_all store now (line ∷ rest) =
      let (k, e) = entry_of line in
      let (refusal, t) = create store now k e in
      let (u, restored) = create_all t now rest in
      elim refusal [
        | some code ↦ (t, err code)
        | none ↦ (u, elim restored [ err code ↦ err code | ok n ↦ ok (n + 1) ])
      ]

  -- The lines whose shape has been checked.
  unfoldable pub restore_parsed : Keyspace Score → ℕ → List (Line Score) → Keyspace Score × Result ℕ
  unfolding restorable create_all
  restore_parsed store now parsed =
      let kept = restorable now parsed in
      if ltb store.max_keys (length kept)
      then (store, err oom_message)
      else create_all store now kept

  unfoldable pub restore :
      (Score → Bool) → Keyspace Score → ℕ → List (Line Score) → Keyspace Score × Result ℕ
  unfolding parse_all restore_parsed
  restore is_finite store now lines =
      if ltb 0 (length store.entries)
      then (store, err "a snapshot goes into an empty store")
      else elim (parse_all is_finite lines) [
        | err code ↦ (store, err code)
        | ok parsed ↦ restore_parsed store now parsed
      ]

  -- What is left of a store after a restart.
  unfoldable pub solid : Dict (Entry Score) → Dict (Entry Score)
  unfolding is_hollow
  solid [] = []
  solid ((k, e) ∷ rest) =
      let later = solid rest in if is_hollow e.value then later else (k, e) ∷ later

  -- The scores of a value, and of all values of a store, are finite.
  abbrev pub has_finite : (Score → Bool) → Value Score → Bool
  has_finite is_finite (text v) = true
  has_finite is_finite (hash m) = true
  has_finite is_finite (zset m) = every (λ (member, score). is_finite score) m

  abbrev pub all_finite : (Score → Bool) → Dict (Entry Score) → Bool
  all_finite is_finite [] = true
  all_finite is_finite ((k, e) ∷ rest) = has_finite is_finite e.value && all_finite is_finite rest

  -- What is read of lines that were written for entries.
  abbrev pub read_as : Bool → List (Line Score) → Result (List (Line Score))
  read_as b lines = if b then ok lines else err "the shape of a snapshot entry is wrong"

  abbrev pub read_first : Bool → Line Score → Result (Line Score)
  read_first b line = if b then ok line else err "the shape of a snapshot entry is wrong"
