-- ===== src/Memory/Examples.antt =====
-- Runs of the store in memory.
use yorr.Prelude.{
  ℕ, ◌≡◌, refl, pos, Bool, true, false, Option, none, some, List, [], ◌∷◌, insert, delete, leb, ltb,
  integer, ok, err, arith,
}
use yorr.Memory.Keyspace.{text, hash, zset, Keyspace, is_expired, alive, live, create, sweep}
use yorr.Memory.Commands.{Numbers, done, number, string, px, nx, get, set, hset}
use yorr.Memory.Execute.{
  lazy, has_room, returns, calls, on_key, exists_keys, Request, command, script, replies,
}
use yorr.Memory.Eager.{eager}
use yorr.Memory.Refinement.{replies_lem}
use yorr.Memory.Snapshot.{snapshot, restore, solid}
use yorr.Memory.Restored.{restore-snapshot}

abbrev whole : Numbers
whole = record { Score = ℕ; le = leb; lt = ltb; numeric = λ t. some (integer t) }

abbrev two_keys : Keyspace ℕ
two_keys = record {
  entries =
      ("session", record { value = text "s"; expires_at = some 40 })
      ∷ ("room", record { value = hash (("phase", "LOBBY") ∷ []); expires_at = none })
      ∷ [];
  max_keys = 2;
  script_creates = none;
}

-- A key is set when the store is full, which it is until the session has expired; then a script runs.
abbrev requests : List (ℕ × Request whole)
requests =
    (10, command (on_key "lock" (set "t" (nx ∷ px (pos 30) ∷ []))))
    ∷ (10, command (on_key "session" get))
    ∷ (30, command (on_key "lock" (set "t" (nx ∷ px (pos 30) ∷ []))))
    ∷ (
      5,
      script ("room" ∷ [])
          (calls (on_key "room" (hset (("phase", "PLAYING") ∷ []))) (λ added. returns (pos 1))),
    )
    ∷ (40, command (exists_keys ("lock" ∷ "room" ∷ "session" ∷ [])))
    ∷ []

replies_example :
    replies whole lazy two_keys 0 requests ≡ replies whole eager (sweep two_keys 0) 0 requests
replies_example = replies_lem whole two_keys 0 requests (refl, (refl, tt))

replies_at_the_limit :
    replies whole lazy two_keys 0 requests
    ≡ err "OOM command not allowed when used memory > 'maxmemory'."
      ∷ ok (string "s")
      ∷ ok done
      ∷ ok (number (pos 1))
      ∷ ok (number (pos 1))
      ∷ []
unfolding replies live create alive has_room insert delete
replies_at_the_limit = refl

-- A score is a number, or `none` where it is infinite.
abbrev is_number : Option ℕ → Bool
is_number none = false
is_number (some n) = true

abbrev ranked : Option ℕ → Keyspace (Option ℕ)
ranked best = record {
  entries =
      ("session", record { value = text "s"; expires_at = some 40 })
      ∷ ("week", record { value = zset (("ann", best) ∷ []); expires_at = some 90 })
      ∷ [];
  max_keys = 2;
  script_creates = none;
}

abbrev one_place : Keyspace (Option ℕ)
one_place = record { entries = []; max_keys = 1; script_creates = none }

restore-snapshot_example :
    restore is_number one_place 50 (snapshot 10 (ranked (some 7)).entries)
    ≡ (record one_place { entries = solid (alive 50 (ranked (some 7)).entries) }, ok 1)
unfolding solid alive is_expired
restore-snapshot_example =
    restore-snapshot is_number (ranked (some 7)) 10 50 1 (refl, (refl, tt)) (omega arith)
      (omega arith)

infinite_refused :
    restore is_number one_place 50 (snapshot 10 (ranked none).entries)
    ≡ (one_place, err "the shape of a snapshot entry is wrong")
unfolding restore snapshot is_expired
infinite_refused = refl
