-- ===== src/Rooms/Scripts.antt =====
-- The atomic scripts of room/scripts: lifecycle.ts, bots.ts, gameFlow.ts and expiry.ts. A script is
-- given the hashes of one room and its arguments, and gives its code and the hashes that it leaves.
use yorr.Prelude.{
  ℕ, ◌*◌, String, pos, negsuc, leb_ℤ, Bool, true, false, not, ◌||◌, ◌&&◌, Option, none, some, List,
  [], ◌∷◌, find, leb, ltb, str_eq, if◌then◌else◌, decimal, sort_texts,
}
use yorr.Rooms.Hashes.{
  Hash, gone, exists, hget, has_value, hexists, hlen, hkeys, hset, hdel, hnumber, incremented,
  hincrby, pexpire, align, or_blank,
}
use yorr.Rooms.Store.{Store, game_key, put, each_board, delete_family}

-- What the source returns as the number of each constructor.
pub data Joined : Type 0 where
  no_room joined started full duplicate : Joined

pub data Left : Type 0 where
  not_seated closed stayed : Left

-- The room that a script of `lifecycle.ts` makes.
unfoldable pub created_room : ℕ → String → String → ℕ → String → Hash
unfolding hset pexpire exists
created_room capacity host_id game_code ttl_seconds mode =
    pexpire
      (hset
        (hset
          (hset
            (hset (hset (hset gone "capacity" (decimal capacity)) "members" "0") "phase" "LOBBY")
            "hostId" host_id)
          "gameCode" game_code)
        "mode" mode)
      (ttl_seconds * 1000)

unfoldable pub create : Store → ℕ → String → String → ℕ → String → Bool × Store
unfolding exists created_room
create s capacity host_id game_code ttl_seconds mode =
    if exists s.room
    then (false, s)
    else (true, record s { room = created_room capacity host_id game_code ttl_seconds mode })

-- `r.hget(room, 'hostId')`, where a missing one is falsy as the empty text is
unfoldable pub host_of : Hash → String
host_of room = or_blank (hget room "hostId")

-- `!host || r.hexists(players, host) === 0`
unfoldable pub is_ownerless : Hash → Hash → Bool
unfolding host_of hexists
is_ownerless room players = str_eq (host_of room) "" || not (hexists players (host_of room))

-- The host of the room after a human has come in.
unfoldable pub with_owner : Hash → Hash → String → Hash
unfolding is_ownerless hset
with_owner room players user_id =
    if is_ownerless room players then hset room "hostId" user_id else room

unfoldable pub take_seat : Store → String → String → Store
unfolding hset hincrby with_owner align
take_seat s user_id nickname =
    let players = hset s.players user_id nickname in
    let room = with_owner (hincrby s.room "members" (pos 1)) players user_id in
    record s {
      room = room;
      players = align room players;
      scores = align room (hset s.scores user_id "0");
      bots = align room s.bots;
    }

unfoldable pub join : Store → String → String → Joined × Store
unfolding exists has_value hexists hlen hnumber take_seat
join s user_id nickname =
    if not (exists s.room)
    then (no_room, s)
    else if not (has_value s.room "phase" "LOBBY")
    then (started, s)
    else if hexists s.players user_id
    then (duplicate, s)
    else if leb (hnumber s.room "capacity") (hlen s.players)
    then (full, s)
    else (joined, take_seat s user_id nickname)

-- The first human by name.
unfoldable pub heir : Hash → Hash → Option String
unfolding hexists
heir players bots = find (λ candidate. not (hexists bots candidate)) (sort_texts (hkeys players))

unfoldable pub give_up_seat : Store → String → Store
unfolding hdel hincrby has_value heir hset
give_up_seat s player_id =
    let room = hincrby s.room "members" (negsuc 0) in
    let players = hdel s.players player_id in
    let bots = hdel s.bots player_id in
    record s {
      room =
          if has_value room "hostId" player_id
          then hset room "hostId" (or_blank (heir players bots))
          else room;
      players = players;
      scores = hdel s.scores player_id;
      bots = bots;
    }

unfoldable pub leave : Store → String → Left × Store
unfolding exists hexists incremented hincrby has_value give_up_seat
leave s player_id =
    if not (exists s.room) || not (hexists s.players player_id)
    then (not_seated, s)
    else if leb_ℤ (incremented s.room "members" (negsuc 0)) (pos 0)
        && not (has_value (hincrby s.room "members" (negsuc 0)) "mode" "PARTY")
    then (closed, delete_family s)
    else (stayed, give_up_seat s player_id)

unfoldable pub close : Store → Store
unfolding hget game_key each_board
close s = elim (hget s.room "gameId") [
  | none ↦ delete_family s
  | some game_id ↦
      let games = each_board (λ h. gone) game_id (hkeys s.players) s.games in
      record (delete_family s) { games = put games (game_key game_id) gone }
]

pub data BotAdded : Type 0 where
  no_room not_lobby not_host full duplicate added : BotAdded

-- The requester is the host and still in the room.
unfoldable pub is_seated_host : Store → String → Bool
unfolding has_value hexists
is_seated_host s requester_id =
    has_value s.room "hostId" requester_id && hexists s.players requester_id

unfoldable pub seat_bot : Store → String → String → String → Store
unfolding hset hincrby align
seat_bot s bot_id nickname marker =
    let room = hincrby s.room "members" (pos 1) in
    record s {
      room = room;
      players = align room (hset s.players bot_id nickname);
      scores = align room (hset s.scores bot_id "0");
      bots = align room (hset s.bots bot_id marker);
    }

unfoldable pub bot_add : Store → String → String → String → String → BotAdded × Store
unfolding exists has_value is_seated_host hlen hnumber hexists seat_bot
bot_add s requester_id bot_id nickname marker =
    if not (exists s.room)
    then (BotAdded.no_room, s)
    else if not (has_value s.room "phase" "LOBBY")
    then (not_lobby, s)
    else if not (is_seated_host s requester_id)
    then (not_host, s)
    else if leb (hnumber s.room "capacity") (hlen s.players)
    then (BotAdded.full, s)
    else if hexists s.players bot_id
    then (BotAdded.duplicate, s)
    else (added, seat_bot s bot_id nickname marker)

pub data BotRemoved : Type 0 where
  no_room not_lobby not_host no_bot removed : BotRemoved

unfoldable pub dismiss : Store → String → Store
unfolding hdel hincrby
dismiss s bot_id = record s {
  room = hincrby s.room "members" (negsuc 0);
  players = hdel s.players bot_id;
  scores = hdel s.scores bot_id;
  bots = hdel s.bots bot_id;
}

unfoldable pub bot_remove : Store → String → String → BotRemoved × Store
unfolding exists has_value is_seated_host hexists dismiss
bot_remove s requester_id bot_id =
    if not (exists s.room)
    then (BotRemoved.no_room, s)
    else if not (has_value s.room "phase" "LOBBY")
    then (BotRemoved.not_lobby, s)
    else if not (is_seated_host s requester_id)
    then (BotRemoved.not_host, s)
    else if not (hexists s.bots bot_id)
    then (no_bot, s)
    else (removed, dismiss s bot_id)

unfoldable pub start : Store → String → String → ℕ → Bool × Store
unfolding exists has_value hlen hget hset game_key align
start s game_id room_code min_players =
    if not (exists s.room)
      || not (has_value s.room "phase" "LOBBY")
      || ltb (hlen s.players) min_players
    then (false, s)
    else elim (hget s.room "gameCode") [
      | none ↦ (false, s)
      | some game_code ↦
          let room = hset (hset s.room "phase" "PLAYING") "gameId" game_id in
          let game =
            hset (hset (s.games (game_key game_id)) "roomCode" room_code) "gameCode" game_code in
          (
            true,
            record s {
              room = room;
              games = put s.games (game_key game_id) (align room game);
              bots = align room s.bots;
            },
          )
    ]

-- The room is in its lobby again, with no game.
unfoldable pub back_to_lobby : Hash → Hash
unfolding hset hdel
back_to_lobby room = hdel (hset room "phase" "LOBBY") "gameId"

unfoldable pub rollback_start : Store → String → Bool × Store
unfolding has_value back_to_lobby game_key
rollback_start s game_id =
    if not (has_value s.room "phase" "PLAYING") || not (has_value s.room "gameId" game_id)
    then (false, s)
    else (
      true,
      record s { room = back_to_lobby s.room; games = put s.games (game_key game_id) gone },
    )

unfoldable pub cancel_active_game : Store → Bool × Store
unfolding exists has_value hget back_to_lobby game_key
cancel_active_game s =
    if not (exists s.room) || not (has_value s.room "phase" "PLAYING") then (false, s) else (
      true,
      record s {
        room = back_to_lobby s.room;
        games = elim (hget s.room "gameId") [
          | none ↦ s.games
          | some game_id ↦ put s.games (game_key game_id) gone
        ];
      },
    )

-- `for (const player of r.hkeys(players)) r.hset(scores, player, '0')`
unfoldable pub zero_scores : List String → Hash → Hash
unfolding hset
zero_scores [] scores = scores
zero_scores (p ∷ rest) scores = zero_scores rest (hset scores p "0")

unfoldable pub return_to_lobby : Store → Bool × Store
unfolding exists has_value back_to_lobby zero_scores align
return_to_lobby s =
    if not (exists s.room) || not (has_value s.room "phase" "FINISHED")
    then (false, s)
    else (let room = back_to_lobby s.room in
        (
          true,
          record s {
            room = room;
            scores = align room (zero_scores (hkeys s.players) s.scores);
            bots = align room s.bots;
          },
        ))

unfoldable pub touch : Store → ℕ → Bool × Store
unfolding exists pexpire hget game_key each_board
touch s ttl_seconds =
    if not (exists s.room)
    then (false, s)
    else (let ms = ttl_seconds * 1000 in
        let room = pexpire s.room ms in
        if leb ms 0 then (true, record s { room = room }) else (
          true,
          record s {
            room = room;
            players = pexpire s.players ms;
            scores = pexpire s.scores ms;
            bots = pexpire s.bots ms;
            games = elim (hget room "gameId") [
              | none ↦ s.games
              | some game_id ↦
                  let key = game_key game_id in
                  each_board (λ h. pexpire h ms) game_id (hkeys s.players)
                    (put s.games key (pexpire (s.games key) ms))
            ];
          },
        ))
