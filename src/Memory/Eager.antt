-- ===== src/Memory/Eager.antt =====
-- The store that a reader expects: a key is gone at the moment it expires, and the limit counts what is
-- there. It is reached by the same commands and scripts.
use yorr.Prelude.{
  ℕ, ◌+◌, String, ◌||◌, Option, none, some, keys, length, includes, lookup, leb, ltb, if◌then◌else◌,
}
use yorr.Memory.Keyspace.{Entry, Keyspace, put, sweep, oom_message, undeclared}
use yorr.Memory.Execute.{Access}

module _ {Score : Type 0} where
  unfoldable pub eager_make :
      Keyspace Score → ℕ → String → Entry Score → Option String × Keyspace Score
  eager_make s now key e =
      let written = sweep (put s key e) now in
      if includes (keys s.entries) key then (none, written) else elim s.script_creates [
        | some declared ↦ if includes declared key then (none, written) else (some undeclared, s)
        | none ↦
            if ltb (length s.entries) s.max_keys then (none, written) else (some oom_message, s)
      ]

  abbrev pub eager : Access Score
  eager = record {
    reach = λ s now key. (lookup key s.entries, s);
    overwrite = λ s now key e. sweep (put s key e) now;
    make = eager_make;
    comes_to = sweep;
    room_for = λ s now missing. (leb missing 0 || leb (length s.entries + missing) s.max_keys, s);
  }
