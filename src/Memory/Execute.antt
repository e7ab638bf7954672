-- ===== src/Memory/Execute.antt =====
-- How a command, a script and a history of them run, over the ways to reach the entries of a store that
-- redisKeyspace.ts has: a script runs by `runAdmitted`, and what it throws ends it where it stands.
use yorr.Prelude.{
  ℕ, ◌+◌, String, ℤ, pos, Bool, true, false, not, ◌&&◌, ◌||◌, Option, none, some, List, [], ◌∷◌,
  keys, length, includes, leb, if◌then◌else◌, Result, ok, err,
}
use yorr.Memory.Keyspace.{Entry, Keyspace, live, put, remove, sweep, create, oom_message}
use yorr.Memory.Commands.{
  Numbers, Op, Plan, untouched, dropped, write, Reply, done, number, strings, plan, is_some,
}

-- The operations of the keys that commands and scripts use. `room_for` is the check of the limit, and
-- `comes_to` what it does to a store that a later time comes.
pub record Access (Score : Type 0) : Type 0 where
  pub reach : Keyspace Score → ℕ → String → Option (Entry Score) × Keyspace Score
  pub overwrite : Keyspace Score → ℕ → String → Entry Score → Keyspace Score
  pub make : Keyspace Score → ℕ → String → Entry Score → Option String × Keyspace Score
  pub comes_to : Keyspace Score → ℕ → Keyspace Score
  pub room_for : Keyspace Score → ℕ → ℕ → Bool × Keyspace Score

module _ {Score : Type 0} where
  -- The limit before a script: what has expired is swept only if there is no room otherwise.
  unfoldable pub has_room : Keyspace Score → ℕ → ℕ → Bool × Keyspace Score
  has_room s now missing =
      let swept = sweep s now in
      if leb missing 0 || leb (length s.entries + missing) s.max_keys
      then (true, s)
      else (leb (length swept.entries + missing) s.max_keys, swept)

  -- The store of the source: what has expired goes when it is reached, or when room is needed.
  abbrev pub lazy : Access Score
  lazy = record {
    reach = live;
    overwrite = λ s now. put s;
    make = create;
    comes_to = λ s now. s;
    room_for = has_room;
  }

pub data Command (N : Numbers) : Type 0 where
  on_key : String → Op N → Command N
  exists_keys del_keys : List String → Command N
  keys_like : (String → Bool) → Command N
  flushall : Command N

-- What a script does next depends on the replies that it has had.
pub data Script (N : Numbers) : Type 0 where
  returns : ℤ → Script N
  calls : Command N → (Reply → Script N) → Script N

pub data Request (N : Numbers) : Type 0 where
  command : Command N → Request N
  script : List String → Script N → Request N

unfoldable pub distinct : List String → List String
distinct [] = []
distinct (x ∷ xs) = let rest = distinct xs in if includes xs x then rest else x ∷ rest

module _ (N : Numbers) where
  open N use {Score}

  abbrev pub Store : Type 0
  Store = Keyspace Score

  module _ (A : Access Score) where
    open A use {reach, overwrite, make, comes_to, room_for}

    unfoldable pub carry_out : Store → ℕ → String → Bool → Plan Score → Reply → Store × Result Reply
    carry_out s now key there untouched reply = (s, ok reply)
    carry_out s now key there dropped reply = (remove s key, ok reply)
    carry_out s now key true (write e) reply = (overwrite s now key e, ok reply)
    carry_out s now key false (write e) reply =
        let (refusal, t) = make s now key e in
        (t, elim refusal [ none ↦ ok reply | some code ↦ err code ])

    unfoldable pub settle :
        Store → ℕ → String → Bool → Result (Plan Score × Reply) → Store × Result Reply
    unfolding carry_out
    settle s now key there (err code) = (s, err code)
    settle s now key there (ok (next, reply)) = carry_out s now key there next reply

    -- A command on one key, by what it does with the entry.
    unfoldable pub perform :
        Store
        → ℕ
        → String
        → (Option (Entry Score) → Result (Plan Score × Reply))
        → Store × Result Reply
    unfolding settle is_some
    perform s now key decide =
        let (e, t) = reach s now key in settle t now key (is_some e) (decide e)

    unfoldable pub count_live : Store → ℕ → List String → Store × ℕ
    unfolding is_some
    count_live s now [] = (s, 0)
    count_live s now (key ∷ rest) =
        let (e, t) = reach s now key in
        let (u, n) = count_live t now rest in (u, if is_some e then n + 1 else n)

    unfoldable pub del_live : Store → ℕ → List String → Store × ℕ
    unfolding is_some
    del_live s now [] = (s, 0)
    del_live s now (key ∷ rest) =
        let (e, t) = reach s now key in
        let (u, n) = del_live (if is_some e then remove t key else t) now rest in
        (u, if is_some e then n + 1 else n)

    unfoldable pub matching : Store → ℕ → (String → Bool) → List String → Store × List String
    unfolding is_some
    matching s now like [] = (s, [])
    matching s now like (key ∷ rest) =
        let (e, t) = reach s now key in
        let (u, found) = matching t now like rest in
        (u, if is_some e && like key then key ∷ found else found)

    unfoldable pub exec : Store → ℕ → Command N → Store × Result Reply
    unfolding perform plan count_live del_live matching
    exec s now (on_key key op) = perform s now key (plan N op now)
    exec s now (exists_keys names) = let (t, n) = count_live s now names in (t, ok (number (pos n)))
    exec s now (del_keys names) = let (t, n) = del_live s now names in (t, ok (number (pos n)))
    exec s now (keys_like like) =
        let (t, found) = matching s now like (keys s.entries) in (t, ok (strings found))
    exec s now flushall = (record s { entries = [] }, ok done)

    unfoldable pub run_script : Store → ℕ → Script N → Store × Result Reply
    unfolding exec
    run_script s now (returns n) = (s, ok (number n))
    run_script s now (calls c next) =
        let (t, reply) = exec s now c in
        elim reply [ err code ↦ (t, err code) | ok r ↦ run_script t now (next r) ]

    -- The declared keys that are not there.
    unfoldable pub absent_keys : Store → ℕ → List String → Store × List String
    unfolding is_some
    absent_keys s now [] = (s, [])
    absent_keys s now (key ∷ rest) =
        let (e, t) = reach s now key in
        let (u, found) = absent_keys t now rest in (u, if is_some e then found else key ∷ found)

    unfoldable pub run_admitted : Store → ℕ → List String → Script N → Store × Result Reply
    unfolding absent_keys distinct run_script
    run_admitted s now creatable body =
        let (t, missing) = absent_keys s now creatable in
        let (admitted, u) = room_for t now (length (distinct missing)) in
        if not admitted
        then (u, err oom_message)
        else (let (after, reply) =
              run_script (record u { script_creates = some creatable }) now body in
            (record after { script_creates = none }, reply))

    unfoldable pub serve : Store → ℕ → Request N → Store × Result Reply
    unfolding exec run_admitted
    serve s now (command c) = exec s now c
    serve s now (script creatable body) = run_admitted s now creatable body

    -- The replies to requests, each with the milliseconds since the one before it.
    unfoldable pub replies : Store → ℕ → List (ℕ × Request N) → List (Result Reply)
    unfolding serve
    replies s before [] = []
    replies s before ((ms, request) ∷ rest) =
        let now = before + ms in
        let (t, reply) = serve (comes_to s now) now request in reply ∷ replies t now rest
