-- ===== src/Memory/Commands.antt =====
-- The commands of redisKeyCommands.ts, redisStrings.ts, redisHashes.ts and redisZsets.ts. A command on one
-- key reaches its entry, and decides from it what to write and what to reply; `plan` is that decision.
use yorr.Prelude.{
  ℕ, ◌+◌, ◌-◌, ◌*◌, ◌/◌, String, ℤ, pos, negsuc, ◌+ℤ◌, leb_ℤ, Bool, true, false, not, ◌&&◌, ◌||◌,
  Option, none, some, List, [], ◌∷◌, Dict, lookup, lookup_or, insert, keys, length, includes, ltb,
  if◌then◌else◌, integer_text, text_lt, Result, ok, err, ◌>>=◌, take, drop,
}
use yorr.Memory.Maps.{write_all, count_added, delete_all, count_removed}
use yorr.Memory.Keyspace.{Value, text, hash, zset, Entry, wrong_type}

-- What the code uses of JavaScript's numbers as scores, and `Number(text)` where that is an integer.
pub record Numbers : Type 1 where
  pub Score : Type 0
  pub le : Score → Score → Bool
  pub lt : Score → Score → Bool
  pub numeric : String → Option ℤ

pub data Reply : Type 0 where
  nil done : Reply
  number : ℤ → Reply
  string : String → Reply
  strings : List String → Reply
  fields : Dict String → Reply

pub data SetOption : Type 0 where
  ex px : ℤ → SetOption
  nx xx : SetOption

-- What becomes of the entry.
pub data Plan (Score : Type 0) : Type 0 where
  untouched dropped : Plan Score
  write : Entry Score → Plan Score

unfoldable pub flag : Bool → Reply
flag b = number (if b then pos 1 else pos 0)

unfoldable pub is_some {ℓ} : {A : Type ℓ} → Option A → Bool
is_some none = false
is_some (some x) = true

-- `store.now() + amount`; what would lie before 0 has expired at any time.
unfoldable pub moment : ℕ → ℤ → ℕ
moment now (pos n) = now + n
moment now (negsuc n) = now - (n + 1)

unfoldable pub times_1000 : ℤ → ℤ
times_1000 (pos n) = pos (n * 1000)
times_1000 (negsuc n) = negsuc (n * 1000 + 999)

-- `parseSetOptions`: the last of each kind counts.
pub data Condition : Type 0 where
  any only_new only_old : Condition

unfoldable pub set_options : ℕ → Option ℕ → Condition → List SetOption → Option ℕ × Condition
unfolding moment times_1000
set_options now at condition [] = (at, condition)
set_options now at condition (ex n ∷ rest) =
    set_options now (some (moment now (times_1000 n))) condition rest
set_options now at condition (px n ∷ rest) = set_options now (some (moment now n)) condition rest
set_options now at condition (nx ∷ rest) = set_options now at only_new rest
set_options now at condition (xx ∷ rest) = set_options now at only_old rest

unfoldable pub is_refused : Condition → Bool → Bool
is_refused any there = false
is_refused only_new there = there
is_refused only_old there = not there

module _ (N : Numbers) where
  open N use {Score, le, lt, numeric}

  pub data Op : Type 0 where
    pexpire expire : ℤ → Op
    pttl ttl get getdel hgetall hlen hkeys : Op
    set : String → List SetOption → Op
    hset : List (String × String) → Op
    hget hexists : String → Op
    hdel zrem : List String → Op
    hincrby : String → ℤ → Op
    zadd : List (String × Score) → Op
    zrange : ℤ → ℤ → Op
    zremrangebyscore : Score → Score → Op

  unfoldable pub expiry_of : Option (Entry Score) → Option ℕ
  expiry_of none = none
  expiry_of (some e) = e.expires_at

  unfoldable pub as_text : Option (Entry Score) → Result (Option String)
  as_text none = ok none
  as_text (some e) = elim e.value [ text v ↦ ok (some v) | _ ↦ err wrong_type ]

  unfoldable pub as_hash : Option (Entry Score) → Result (Option (Dict String))
  as_hash none = ok none
  as_hash (some e) = elim e.value [ hash m ↦ ok (some m) | _ ↦ err wrong_type ]

  unfoldable pub as_zset : Option (Entry Score) → Result (Option (Dict Score))
  as_zset none = ok none
  as_zset (some e) = elim e.value [ zset m ↦ ok (some m) | _ ↦ err wrong_type ]

  abbrev pub or_empty : {V : Type 0} → Option (Dict V) → Dict V
  or_empty none = []
  or_empty (some m) = m

  -- A container that has lost its last member goes with its key.
  unfoldable pub keep_unless_empty :
      {V : Type 0} → (Dict V → Value Score) → Option ℕ → Dict V → Plan Score
  keep_unless_empty as_value at [] = dropped
  keep_unless_empty as_value at (x ∷ m) =
      write (record { value = as_value (x ∷ m); expires_at = at })

  unfoldable pub plan_pexpire : ℕ → ℤ → Option (Entry Score) → Plan Score × Reply
  unfolding moment
  plan_pexpire now ms none = (untouched, number (pos 0))
  plan_pexpire now ms (some e) =
      if leb_ℤ ms (pos 0)
      then (dropped, number (pos 1))
      else (write (record e { expires_at = some (moment now ms) }), number (pos 1))

  -- Milliseconds that are left, or -1 for ever, or -2 for no key.
  unfoldable pub left_of : ℕ → Option (Entry Score) → ℤ
  left_of now none = negsuc 1
  left_of now (some e) = elim e.expires_at [ none ↦ negsuc 0 | some at ↦ pos (at - now) ]

  -- `Math.round(ms / 1000)`
  unfoldable pub seconds : ℤ → ℤ
  seconds (pos ms) = pos ((ms + 500) / 1000)
  seconds (negsuc n) = negsuc n

  -- By score, and by name where the scores are the same.
  unfoldable pub before : (String × Score) → (String × Score) → Bool
  before (a, x) (b, y) = lt x y || (not (lt y x) && text_lt a b)

  unfoldable pub insert_member : String × Score → Dict Score → Dict Score
  unfolding before
  insert_member x [] = x ∷ []
  insert_member x (y ∷ ys) =
      let later = insert_member x ys in if before y x then y ∷ later else x ∷ y ∷ ys

  unfoldable pub sorted_members : Dict Score → Dict Score
  unfolding insert_member
  sorted_members [] = []
  sorted_members (x ∷ xs) = insert_member x (sorted_members xs)

  unfoldable pub from_end : ℕ → ℤ → ℤ
  from_end size (pos n) = pos n
  from_end size (negsuc n) = negsuc n +ℤ pos size

  -- `clampRange` and the slice.
  unfoldable pub or_first : ℤ → ℕ
  or_first (pos n) = n
  or_first (negsuc n) = 0

  unfoldable pub slice_range : ℤ → ℤ → List String → List String
  unfolding from_end or_first
  slice_range start stop members = elim (from_end (length members) stop) [
    | negsuc n ↦ []
    | pos to ↦
        let from = or_first (from_end (length members) start) in
        if ltb to from then [] else drop from (take (to + 1) members)
  ]

  unfoldable pub out_of_range : Score → Score → Dict Score → Dict Score
  out_of_range low high [] = []
  out_of_range low high ((m, x) ∷ rest) =
      let later = out_of_range low high rest in
      if le low x && le x high then later else (m, x) ∷ later

  unfoldable pub plan_set : ℕ → String → List SetOption → Option (Entry Score) → Plan Score × Reply
  unfolding set_options is_refused is_some
  plan_set now value options e =
      let (at, condition) = set_options now none any options in
      if is_refused condition (is_some e)
      then (untouched, nil)
      else (write (record { value = text value; expires_at = at }), done)

  abbrev pub string_or_nil : Option String → Reply
  string_or_nil none = nil
  string_or_nil (some v) = string v

  -- `HINCRBY`: a field that is not there is 0, and one that is no integer is refused.
  unfoldable pub plan_hincrby :
      String → ℤ → Option (Entry Score) → Option (Dict String) → Result (Plan Score × Reply)
  unfolding lookup_or expiry_of
  plan_hincrby field step e h = elim (numeric (lookup_or (or_empty h) field "0")) [
    | none ↦ err "ERR hash value is not an integer"
    | some current ↦
        let next = current +ℤ step in
        ok (
          write (record {
            value = hash (insert field (integer_text next) (or_empty h));
            expires_at = expiry_of e;
          }),
          number next,
        )
  ]

  -- What a command does with the live entry of its key.
  unfoldable pub plan : Op → ℕ → Option (Entry Score) → Result (Plan Score × Reply)
  unfolding plan_pexpire times_1000 left_of seconds as_text as_hash as_zset plan_set plan_hincrby
      expiry_of keep_unless_empty write_all count_added delete_all count_removed sorted_members
      slice_range out_of_range flag
  plan (pexpire ms) now e = ok (plan_pexpire now ms e)
  plan (expire s) now e = ok (plan_pexpire now (times_1000 s) e)
  plan pttl now e = ok (untouched, number (left_of now e))
  plan ttl now e = ok (untouched, number (seconds (left_of now e)))
  plan get now e = do v ← as_text e; ok (untouched, string_or_nil v)
  plan getdel now e = do
    v ← as_text e
    elim v [ none ↦ ok (untouched, nil) | some t ↦ ok (dropped, string t) ]
  plan (set value options) now e = ok (plan_set now value options e)
  plan (hset pairs) now e = do
    h ← as_hash e
    ok (
      write (record { value = hash (write_all pairs (or_empty h)); expires_at = expiry_of e }),
      number (pos (count_added pairs (or_empty h))),
    )
  plan (hget field) now e = do
    h ← as_hash e
    ok (untouched, string_or_nil (lookup field (or_empty h)))
  plan hgetall now e = do h ← as_hash e; ok (untouched, fields (or_empty h))
  plan (hexists field) now e = do
    h ← as_hash e
    ok (untouched, flag (includes (keys (or_empty h)) field))
  plan hlen now e = do h ← as_hash e; ok (untouched, number (pos (length (or_empty h))))
  plan hkeys now e = do h ← as_hash e; ok (untouched, strings (keys (or_empty h)))
  plan (hdel names) now e = do
    h ← as_hash e
    elim h [
      | none ↦ ok (untouched, number (pos 0))
      | some m ↦ ok (
        keep_unless_empty hash (expiry_of e) (delete_all names m),
        number (pos (count_removed names m)),
      )
    ]
  plan (hincrby field step) now e = do h ← as_hash e; plan_hincrby field step e h
  plan (zadd pairs) now e = do
    z ← as_zset e
    ok (
      write (record { value = zset (write_all pairs (or_empty z)); expires_at = expiry_of e }),
      number (pos (count_added pairs (or_empty z))),
    )
  plan (zrange start stop) now e = do
    z ← as_zset e
    ok (untouched, strings (slice_range start stop (keys (sorted_members (or_empty z)))))
  plan (zrem names) now e = do
    z ← as_zset e
    elim z [
      | none ↦ ok (untouched, number (pos 0))
      | some m ↦ ok (
        keep_unless_empty zset (expiry_of e) (delete_all names m),
        number (pos (count_removed names m)),
      )
    ]
  plan (zremrangebyscore low high) now e = do
    z ← as_zset e
    elim z [
      | none ↦ ok (untouched, number (pos 0))
      | some m ↦
          let rest = out_of_range low high m in
          ok (keep_unless_empty zset (expiry_of e) rest, number (pos (length m - length rest)))
    ]
