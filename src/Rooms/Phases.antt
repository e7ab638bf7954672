-- ===== src/Rooms/Phases.antt =====
-- The scripts that leave the seats alone: a game starts, is undone or is over, the lobby opens again.
use mathlib.Core.Path.{subst}
use yorr.Prelude.{
  ℕ, String, ◌≡◌, refl, ◌∙◌, inl, inr, true, false, not, ◌||◌, none, some, List, [], ◌∷◌, lookup,
  includes, str_eq, ltb, if◌then◌else◌, arith, Bool-cases, Option-cases, eq_refl,
}
use yorr.Rooms.Hashes.{Hash, exists, hget, hlen, hkeys, hset, has_value, align}
use yorr.Rooms.Store.{Store}
use yorr.Rooms.Scripts.{
  start, rollback_start, cancel_active_game, back_to_lobby, return_to_lobby, zero_scores,
}
use yorr.Rooms.Laws.{
  hkeys-hset, hget-hset, hget-hdel, hkeys-align, exists-hset, IsAligned, align-IsAligned, no_ttl,
  ttl-hdel,
}
use yorr.Rooms.Valid.{IsOpen, HasPhase, HasSeats-of_reads}

-- The other hashes of the room: what they hold, and how long.
module _ (s : Store) (v : IsOpen s) (t : Hash) (here : exists t ≡ true) (ttl : t.ttl ≡ s.room.ttl)
    (members : hget t "members" ≡ hget s.room "members")
    (capacity : hget t "capacity" ≡ hget s.room "capacity")
    (host : hget t "hostId" ≡ hget s.room "hostId")
    (phase : HasPhase (hget t "phase") (hget t "gameId")) where
  pub rephased :
      (scores bots : Hash) (games : String → Hash)
      → hkeys scores ≡ hkeys s.scores
      → hkeys bots ≡ hkeys s.bots
      → IsAligned s.room.ttl scores
      → IsAligned s.room.ttl bots
      → IsOpen (record s { room = t; scores = scores; bots = bots; games = games })
  rephased scores bots games sk bk sa ba = record {
    lives = here;
    left = v.left;
    has_left = ttl ∙ v.has_left;
    left_pos = v.left_pos;
    host = v.host;
    is_host = host ∙ v.is_host;
    seats =
        rw (sk, bk)
          (HasSeats-of_reads s.room t (hkeys s.players) (hkeys s.scores) (hkeys s.bots) members
            capacity host v.seats);
    players_aligned = rw ttl v.players_aligned;
    scores_aligned = rw ttl sa;
    bots_aligned = rw ttl ba;
    phase = phase;
  }

hget-back_to_lobby :
    (room : Hash) (j : String)
    → hget (back_to_lobby room) j
      ≡ (if str_eq "gameId" j then none else if str_eq "phase" j then some "LOBBY" else hget room j)
unfolding back_to_lobby
hget-back_to_lobby room j =
    rw (hget-hdel (hset room "phase" "LOBBY") "gameId" j, hget-hset room "phase" "LOBBY" j) refl

exists_of_hget : (h : Hash) (k v : String) → hget h k ≡ some v → exists h ≡ true
unfolding exists hget lookup
exists_of_hget h k v e = ground (arith, e)

ttl-back_to_lobby :
    (room : Hash) → exists (back_to_lobby room) ≡ true → (back_to_lobby room).ttl ≡ room.ttl
unfolding back_to_lobby hset
ttl-back_to_lobby room e = ttl-hdel (hset room "phase" "LOBBY") "gameId" e

lobby_lives : (room : Hash) → exists (back_to_lobby room) ≡ true
lobby_lives room =
    exists_of_hget (back_to_lobby room) "phase" "LOBBY" (hget-back_to_lobby room "phase")

lobby_phase :
    (room : Hash)
    → HasPhase (hget (back_to_lobby room) "phase") (hget (back_to_lobby room) "gameId")
lobby_phase room = inl (hget-back_to_lobby room "phase", hget-back_to_lobby room "gameId")

module _ (s : Store) (v : IsOpen s) where
  -- The lobby opens again.
  reopened :
      (scores bots : Hash) (games : String → Hash)
      → hkeys scores ≡ hkeys s.scores
      → hkeys bots ≡ hkeys s.bots
      → IsAligned s.room.ttl scores
      → IsAligned s.room.ttl bots
      → IsOpen
          (record s { room = back_to_lobby s.room; scores = scores; bots = bots; games = games })
  reopened =
      rephased s v (back_to_lobby s.room) (lobby_lives s.room)
        (ttl-back_to_lobby s.room (lobby_lives s.room)) (hget-back_to_lobby s.room "members")
        (hget-back_to_lobby s.room "capacity") (hget-back_to_lobby s.room "hostId")
        (lobby_phase s.room)

  pub rollback_start-IsOpen : (game_id : String) → IsOpen (rollback_start s game_id).1
  unfolding rollback_start
  rollback_start-IsOpen game_id =
      elim (Bool-cases
        (not (has_value s.room "phase" "PLAYING") || not (has_value s.room "gameId" game_id))) [
          | inl kept ↦ rw kept v
          | inr undone ↦
              rw undone (reopened s.scores s.bots _ refl refl v.scores_aligned v.bots_aligned)
        ]

  pub cancel_active_game-IsOpen : IsOpen (cancel_active_game s).1
  unfolding cancel_active_game
  cancel_active_game-IsOpen =
      elim (Bool-cases (not (exists s.room) || not (has_value s.room "phase" "PLAYING"))) [
        | inl kept ↦ rw kept v
        | inr undone ↦
            rw undone (reopened s.scores s.bots _ refl refl v.scores_aligned v.bots_aligned)
      ]

  zero_scores-keys :
      (names : List String) (scores : Hash)
      → ((k : String) → includes names k ≡ true → includes (hkeys scores) k ≡ true)
      → hkeys (zero_scores names scores) ≡ hkeys scores
  unfolding zero_scores
  zero_scores-keys [] scores sub = refl
  zero_scores-keys (p ∷ rest) scores sub =
      let same : hkeys (hset scores p "0") ≡ hkeys scores =
        hkeys-hset scores p "0" ∙ rw (sub p (ground (arith, eq_refl p))) refl in
      zero_scores-keys rest (hset scores p "0") (λ k h. rw same (sub k (ground arith))) ∙ same

  zero_scores_there :
      (names : List String) (scores : Hash)
      → (exists scores ≡ false → scores.ttl ≡ none)
      → exists (zero_scores names scores) ≡ false
      → (zero_scores names scores).ttl ≡ none
  unfolding zero_scores
  zero_scores_there [] scores absent = absent
  zero_scores_there (p ∷ rest) scores absent =
      zero_scores_there rest (hset scores p "0") (λ e. ground (arith, exists-hset scores p "0"))

  alike-IsAligned :
      (room h : Hash)
      → room.ttl ≡ s.room.ttl
      → (exists h ≡ false → h.ttl ≡ none)
      → IsAligned s.room.ttl (align room h)
  alike-IsAligned room h e absent =
      subst (λ t. IsAligned t (align room h)) e
        (align-IsAligned room h v.left (e ∙ v.has_left) v.left_pos absent)

  pub return_to_lobby-IsOpen : IsOpen (return_to_lobby s).1
  unfolding return_to_lobby
  return_to_lobby-IsOpen =
      let room = back_to_lobby s.room in
      let zeroed = zero_scores (hkeys s.players) s.scores in
      let ttl = ttl-back_to_lobby s.room (lobby_lives s.room) in
      elim (Bool-cases (not (exists s.room) || not (has_value s.room "phase" "FINISHED"))) [
        | inl kept ↦ rw kept v
        | inr over ↦ rw over (
            reopened (align room zeroed) (align room s.bots) s.games
              (hkeys-align room zeroed
                ∙ zero_scores-keys (hkeys s.players) s.scores (λ k h. rw v.seats.scored h))
              (hkeys-align room s.bots)
              (alike-IsAligned room zeroed ttl (
                zero_scores_there (hkeys s.players) s.scores
                  (no_ttl s.room.ttl s.scores v.scores_aligned)))
              (alike-IsAligned room s.bots ttl (no_ttl s.room.ttl s.bots v.bots_aligned)))
      ]

  abbrev begun : String → Hash
  begun game_id = hset (hset s.room "phase" "PLAYING") "gameId" game_id

  hget-begun :
      (game_id j : String)
      → hget (begun game_id) j ≡ (
          if str_eq "gameId" j
          then some game_id
          else if str_eq "phase" j
          then some "PLAYING"
          else hget s.room j)
  hget-begun game_id j =
      rw
        (
          hget-hset (hset s.room "phase" "PLAYING") "gameId" game_id j,
          hget-hset s.room "phase" "PLAYING" j,
        )
        refl

  ttl-begun : (game_id : String) → (begun game_id).ttl ≡ s.room.ttl
  unfolding hset
  ttl-begun game_id = refl

  pub start-IsOpen :
      (game_id code : String) (min_players : ℕ) → IsOpen (start s game_id code min_players).1
  unfolding start
  start-IsOpen game_id code min_players =
      elim (Bool-cases (
        not (exists s.room)
        || not (has_value s.room "phase" "LOBBY")
        || ltb (hlen s.players) min_players)) [
          | inl kept ↦ rw kept v
          | inr ready ↦ elim (Option-cases (hget s.room "gameCode")) [
            | inl unknown ↦ rw (ready) (rw (unknown, start) v)
            | inr (game_code, known) ↦ rw (ready) (
                rw (known, start)
                  (rephased s v (begun game_id)
                    (exists-hset (hset s.room "phase" "PLAYING") "gameId" game_id)
                    (ttl-begun game_id) (hget-begun game_id "members")
                    (hget-begun game_id "capacity") (hget-begun game_id "hostId")
                    (inr (inl (hget-begun game_id "phase"), (game_id, hget-begun game_id "gameId")))
                    s.scores (align (begun game_id) s.bots) _ refl
                    (hkeys-align (begun game_id) s.bots) v.scores_aligned
                    (alike-IsAligned (begun game_id) s.bots (ttl-begun game_id)
                      (no_ttl s.room.ttl s.bots v.bots_aligned))))
          ]
        ]
