-- ===== src/Rooms/Making.antt =====
-- How a room comes to be, and how its game is over: `create` and `close` of lifecycle.ts, and the script
-- FINISH_IF_COMPLETE of completion/scripts.ts on the hashes of the room.
use mathlib.Core.Path.{subst}
use yorr.Prelude.{
  ℕ, ◌*◌, ◌<◌, String, ◌≡◌, ◌⊎◌, refl, sym, ◌∙◌, inl, inr, Bool, true, false, some, [], ◌∷◌, lookup,
  insert, leb, if◌then◌else◌, decimal, number-decimal, lookup_or, arith, Option-cases,
}
use yorr.Rooms.Hashes.{Hash, gone, exists, hget, hset, hnumber, has_value, pexpire}
use yorr.Rooms.Store.{Store, game_scoreboard_key}
use yorr.Rooms.Scripts.{create, created_room, close}
use yorr.Rooms.Seats.{IsSeated}
use yorr.Rooms.Laws.{hget-hset, exists-hset}
use yorr.Rooms.Valid.{IsOpen, IsGone}
use yorr.Rooms.Phases.{rephased}
use yorr.Completion.Finish.{finish_if_complete}

hget-created :
    (capacity : ℕ) (host_id game_code : String) (ttl_seconds : ℕ) (mode j : String)
    → 0 < ttl_seconds
    → hget (created_room capacity host_id game_code ttl_seconds mode) j
      ≡ lookup j (
          ("capacity", decimal capacity)
          ∷ ("members", "0")
          ∷ ("phase", "LOBBY")
          ∷ ("hostId", host_id)
          ∷ ("gameCode", game_code)
          ∷ ("mode", mode)
          ∷ [])
unfolding created_room hset pexpire exists hget insert
hget-created capacity host_id game_code ttl_seconds mode j p =
    let more : leb (ttl_seconds * 1000) 0 ≡ false = ground arith in rw more refl

module _ (capacity : ℕ) (host_id game_code : String) (ttl_seconds : ℕ) (mode : String)
    (p : 0 < ttl_seconds) where
  abbrev made : Hash
  made = created_room capacity host_id game_code ttl_seconds mode

  ttl-made : (made.ttl ≡ some (ttl_seconds * 1000)) × (exists made ≡ true)
  unfolding created_room hset pexpire exists insert
  ttl-made = let more : leb (ttl_seconds * 1000) 0 ≡ false = ground arith in rw more (refl, refl)

  hnumber-made : hnumber made "capacity" ≡ capacity
  unfolding hnumber lookup_or hget
  hnumber-made =
      rw (hget-created capacity host_id game_code ttl_seconds mode "capacity" p, lookup_or)
        (number-decimal capacity)

  -- A room is made with no one in it.
  empty-IsSeated : IsSeated (some "0") capacity host_id [] [] []
  unfolding decimal
  empty-IsSeated = record {
    counted = refl;
    scored = refl;
    distinct = tt;
    fits = ground arith;
    bots_seated = λ k h. cc;
    named_bots = refl;
    human_host = λ h. refl;
    hosted = λ k h b. cc;
  }

  opened :
      (games : String → Hash)
      → IsOpen (record { room = made; players = gone; scores = gone; bots = gone; games = games })
  unfolding exists lookup
  opened games =
      let reads = λ (j : String). hget-created capacity host_id game_code ttl_seconds mode j p in
      record {
        lives = ttl-made.1;
        left = ttl_seconds * 1000;
        has_left = ttl-made.0;
        left_pos = omega arith;
        host = host_id;
        is_host = reads "hostId";
        seats = rw (reads "members", hnumber-made, reads "hostId") empty-IsSeated;
        players_aligned = refl;
        scores_aligned = refl;
        bots_aligned = refl;
        phase = inl (reads "phase", reads "gameId");
      }

  pub create-IsOpen :
      (s : Store) → IsGone s → IsOpen (create s capacity host_id game_code ttl_seconds mode).1
  unfolding create exists
  create-IsOpen s absent =
      rw (absent.no_room, absent.no_players, absent.no_scores, absent.no_bots) (opened s.games)

pub create_again :
    (s : Store) (capacity : ℕ) (host_id game_code : String) (ttl_seconds : ℕ) (mode : String)
    → IsOpen s
    → create s capacity host_id game_code ttl_seconds mode ≡ (false, s)
unfolding create
create_again s capacity host_id game_code ttl_seconds mode v = rw v.lives refl

pub close-IsGone : (s : Store) → IsGone (close s)
unfolding close
close-IsGone s = elim (Option-cases (hget s.room "gameId")) [
  | inl none_yet ↦
      rw (none_yet, close)
        (record { no_room = refl; no_players = refl; no_scores = refl; no_bots = refl })
  | inr (id, known) ↦
      rw (known, close)
        (record { no_room = refl; no_players = refl; no_scores = refl; no_bots = refl })
]

-- The room after a call for a game; the boards are what the game holds for each player.
unfoldable pub finish : Store → String → Bool → ℕ → Store
unfolding finish_if_complete game_scoreboard_key
finish s game_id force required =
    let (done, after) =
      finish_if_complete
        (record {
          room = s.room.fields;
          players = s.players.fields;
          boards = λ p. (s.games (game_scoreboard_key game_id p)).fields;
        })
        game_id force required in
    if done then record s { room = record s.room { fields = after.room } } else s

ttl-hset : (h : Hash) (k w : String) → (hset h k w).ttl ≡ h.ttl
unfolding hset
ttl-hset h k w = refl

-- A call changes nothing, or ends a game that is being played.
pub finished_room :
    (s : Store) (game_id : String) (force : Bool) (required : ℕ)
    → (finish s game_id force required ≡ s)
      ⊎ ((finish s game_id force required ≡ record s { room = hset s.room "phase" "FINISHED" })
          × (has_value s.room "phase" "PLAYING" ≡ true))
unfolding finish finish_if_complete hset has_value
finished_room s game_id force required = ground arith

module _ (s : Store) (v : IsOpen s) where
  -- A game that is being played has an id.
  played :
      has_value s.room "phase" "PLAYING" ≡ true → (id : String) × (hget s.room "gameId" ≡ some id)
  unfolding has_value hget
  played p = elim v.phase [
    | inl (lobby, none_yet) ↦ ground (arith, lobby)
    | inr (later, game) ↦ game
  ]

  ended :
      has_value s.room "phase" "PLAYING" ≡ true
      → IsOpen (record s { room = hset s.room "phase" "FINISHED" })
  ended p =
      let reads = hget-hset s.room "phase" "FINISHED" in
      let (id, known) = played p in
      rephased s v (hset s.room "phase" "FINISHED") (exists-hset s.room "phase" "FINISHED")
        (ttl-hset s.room "phase" "FINISHED") (reads "members") (reads "capacity") (reads "hostId")
        (inr (inr (reads "phase"), (id, reads "gameId" ∙ known))) s.scores s.bots s.games refl refl
        v.scores_aligned v.bots_aligned

pub finish-IsOpen :
    (s : Store) (game_id : String) (force : Bool) (required : ℕ)
    → IsOpen s
    → IsOpen (finish s game_id force required)
finish-IsOpen s game_id force required v = elim (finished_room s game_id force required) [
  | inl kept ↦ subst IsOpen (sym kept) v
  | inr (done, playing) ↦ subst IsOpen (sym done) (ended s v playing)
]
