-- ===== src/Rooms/Entering.antt =====
-- A human or a bot takes a seat (`JOIN`, `BOT_ADD`).
use yorr.Prelude.{
  ◌+◌, ◌<◌, String, pos, ◌≡◌, refl, ◌∙◌, inl, inr, true, false, not, ◌||◌, none, some, [], ◌∷◌,
  ◌++◌, includes, str_eq, leb, if◌then◌else◌, decimal, arith, Bool-cases, Option-cases, eq_iff,
  lookup,
}
use yorr.Rooms.Hashes.{
  Hash, exists, hget, hexists, hlen, hkeys, hset, hnumber, has_value, hincrby, align, or_blank,
}
use yorr.Rooms.Store.{Store}
use yorr.Rooms.Scripts.{
  join, take_seat, with_owner, is_ownerless, host_of, bot_add, seat_bot, is_seated_host,
}
use yorr.Rooms.Seats.{add_human-IsSeated, add_bot-IsSeated}
use yorr.Rooms.Laws.{hget-hset, exists-hset, hlen_lem, hkeys-align, no_ttl, align-IsAligned}
use yorr.Rooms.Valid.{
  IsOpen, HasSeats, hget-hincrby_other, hkeys-hset_new, one_more, no_score, no_bot, count,
  hnumber-of_hget, hincrby_lives, ttl-hincrby,
}

there :
    (h : Hash) (j value : String) → exists (hset h j value) ≡ false → (hset h j value).ttl ≡ none
there h j value e = ground (arith, exists-hset h j value)

module _ (room players : Hash) (user_id : String) where
  owner : String
  owner = if is_ownerless room players then user_id else host_of room

  hget-with_owner :
      (j : String)
      → str_eq "hostId" j ≡ false
      → hget (with_owner room players user_id) j ≡ hget room j
  unfolding with_owner
  hget-with_owner j e = elim (Bool-cases (is_ownerless room players)) [
    | inl new ↦ rw (new, hget-hset room "hostId" user_id j, e) refl
    | inr old ↦ rw old refl
  ]

  host_of-with_owner : host_of (with_owner room players user_id) ≡ owner
  unfolding with_owner owner host_of
  host_of-with_owner = elim (Bool-cases (is_ownerless room players)) [
    | inl new ↦ rw (new, hget-hset room "hostId" user_id "hostId") refl
    | inr old ↦ rw old refl
  ]

  hget-with_owner_host :
      (host : String)
      → hget room "hostId" ≡ some host
      → hget (with_owner room players user_id) "hostId" ≡ some owner
  unfolding with_owner owner host_of
  hget-with_owner_host host e = elim (Bool-cases (is_ownerless room players)) [
    | inl new ↦ rw (new, hget-hset room "hostId" user_id "hostId") refl
    | inr old ↦ rw (old, e) refl
  ]

  ttl-with_owner : (with_owner room players user_id).ttl ≡ room.ttl
  unfolding with_owner hset
  ttl-with_owner = ground arith

  exists-with_owner : exists room ≡ true → exists (with_owner room players user_id) ≡ true
  unfolding with_owner
  exists-with_owner e = elim (Bool-cases (is_ownerless room players)) [
    | inl new ↦ rw (new, exists-hset room "hostId" user_id) refl
    | inr old ↦ rw old e
  ]

module _ (s : Store) (v : IsOpen s) (k name : String) (fresh : hexists s.players k ≡ false)
    (free : hlen s.players < hnumber s.room "capacity") where
  abbrev counted : Hash
  counted = hincrby s.room "members" (pos 1)

  abbrev entered : Hash
  entered = with_owner counted (hset s.players k name) k

  entered_host : or_blank (hget entered "hostId") ≡ (
      if str_eq (host_of s.room) "" || not (includes (hkeys s.players ++ k ∷ []) (host_of s.room))
      then k
      else host_of s.room)
  unfolding host_of owner is_ownerless hexists
  entered_host =
      host_of-with_owner counted (hset s.players k name) k
      ∙ rw (hget-hincrby_other s.room "hostId" (pos 1) refl, hkeys-hset_new s.players k name fresh)
          refl

  entered_seats :
      HasSeats entered (hkeys s.players ++ k ∷ []) (hkeys s.scores ++ k ∷ []) (hkeys s.bots)
  unfolding host_of hexists
  entered_seats =
      let members : hget entered "members" ≡ some (decimal (count s v + 1)) =
        hget-with_owner counted (hset s.players k name) k "members" refl ∙ one_more s v in
      let capacity : hget entered "capacity" ≡ hget s.room "capacity" =
        hget-with_owner counted (hset s.players k name) k "capacity" refl
        ∙ hget-hincrby_other s.room "capacity" (pos 1) refl in
      rw (members, hnumber-of_hget s.room entered "capacity" capacity)
        (add_human-IsSeated k (or_blank (hget entered "hostId")) v.seats fresh
          (rw (hlen_lem s.players) free) entered_host)

  entered_ttl : entered.ttl ≡ some v.left
  unfolding hincrby hset
  entered_ttl = ttl-with_owner counted (hset s.players k name) k ∙ v.has_left

  entered_same :
      (j : String)
      → str_eq "hostId" j ≡ false
      → str_eq "members" j ≡ false
      → hget entered j ≡ hget s.room j
  entered_same j host members =
      hget-with_owner counted (hset s.players k name) k j host
      ∙ hget-hincrby_other s.room j (pos 1) members

  aligned_seats :
      HasSeats entered
        (hkeys (align entered (hset s.players k name)))
        (hkeys (align entered (hset s.scores k "0")))
        (hkeys (align entered s.bots))
  aligned_seats =
      rw
        (
          hkeys-align entered (hset s.players k name),
          hkeys-align entered (hset s.scores k "0"),
          hkeys-align entered s.bots,
          hkeys-hset_new s.players k name fresh,
          hkeys-hset_new s.scores k "0" (no_score s v k fresh),
        )
        entered_seats

  pub take_seat-IsOpen : IsOpen (take_seat s k name)
  unfolding take_seat
  take_seat-IsOpen = record {
    lives = exists-with_owner counted (hset s.players k name) k (hincrby_lives s.room (pos 1));
    left = v.left;
    has_left = entered_ttl;
    left_pos = v.left_pos;
    host = owner counted (hset s.players k name) k;
    is_host =
        hget-with_owner_host counted (hset s.players k name) k v.host
          (hget-hincrby_other s.room "hostId" (pos 1) refl ∙ v.is_host);
    seats = aligned_seats;
    players_aligned =
        align-IsAligned entered (hset s.players k name) v.left entered_ttl v.left_pos
          (there s.players k name);
    scores_aligned =
        align-IsAligned entered (hset s.scores k "0") v.left entered_ttl v.left_pos
          (there s.scores k "0");
    bots_aligned =
        align-IsAligned entered s.bots v.left entered_ttl v.left_pos
          (no_ttl s.room.ttl s.bots v.bots_aligned);
    phase = rw (entered_same "phase" refl refl, entered_same "gameId" refl refl) v.phase;
  }

module _ (s : Store) (v : IsOpen s) (k name marker : String) (fresh : hexists s.players k ≡ false)
    (named : str_eq k "" ≡ false) (free : hlen s.players < hnumber s.room "capacity")
    (owned : hexists s.players (host_of s.room) ≡ true) where
  abbrev more : Hash
  more = hincrby s.room "members" (pos 1)

  bot_seats :
      HasSeats more
        (hkeys (align more (hset s.players k name)))
        (hkeys (align more (hset s.scores k "0")))
        (hkeys (align more (hset s.bots k marker)))
  unfolding host_of hexists
  bot_seats =
      rw
        (
          hkeys-align more (hset s.players k name),
          hkeys-align more (hset s.scores k "0"),
          hkeys-align more (hset s.bots k marker),
          hkeys-hset_new s.players k name fresh,
          hkeys-hset_new s.scores k "0" (no_score s v k fresh),
          hkeys-hset_new s.bots k marker (no_bot s v k fresh),
          one_more s v,
          hnumber-of_hget s.room more "capacity"
              (hget-hincrby_other s.room "capacity" (pos 1) refl),
          hget-hincrby_other s.room "hostId" (pos 1) refl,
        )
        (add_bot-IsSeated k v.seats fresh named owned (rw (hlen_lem s.players) free))

  more_ttl : more.ttl ≡ some v.left
  more_ttl = ttl-hincrby s.room (pos 1) ∙ v.has_left

  pub seat_bot-IsOpen : IsOpen (seat_bot s k name marker)
  unfolding seat_bot
  seat_bot-IsOpen = record {
    lives = hincrby_lives s.room (pos 1);
    left = v.left;
    has_left = more_ttl;
    left_pos = v.left_pos;
    host = v.host;
    is_host = hget-hincrby_other s.room "hostId" (pos 1) refl ∙ v.is_host;
    seats = bot_seats;
    players_aligned =
        align-IsAligned more (hset s.players k name) v.left more_ttl v.left_pos
          (there s.players k name);
    scores_aligned =
        align-IsAligned more (hset s.scores k "0") v.left more_ttl v.left_pos
          (there s.scores k "0");
    bots_aligned =
        align-IsAligned more (hset s.bots k marker) v.left more_ttl v.left_pos
          (there s.bots k marker);
    phase =
        rw
          (
            hget-hincrby_other s.room "phase" (pos 1) refl,
            hget-hincrby_other s.room "gameId" (pos 1) refl,
          )
          v.phase;
  }

pub join-IsOpen : (s : Store) (k name : String) → IsOpen s → IsOpen (join s k name).1
unfolding join
join-IsOpen s k name v = elim (Bool-cases (has_value s.room "phase" "LOBBY")) [
  | inr begun ↦ rw (v.lives, begun) v
  | inl lobby ↦ elim (Bool-cases (hexists s.players k)) [
    | inl again ↦ rw (v.lives, lobby, again) v
    | inr fresh ↦ elim (Bool-cases (leb (hnumber s.room "capacity") (hlen s.players))) [
      | inl full ↦ rw (v.lives, lobby, fresh, full) v
      | inr free ↦
          rw (v.lives, lobby, fresh, free) (take_seat-IsOpen s v k name fresh (ground arith))
    ]
  ]
]

-- A host who is seated there may add bots.
pub seated_host :
    (s : Store) (requester : String)
    → is_seated_host s requester ≡ true
    → hexists s.players (host_of s.room) ≡ true
unfolding is_seated_host has_value host_of hget hexists
seated_host s requester e = elim (Option-cases (lookup "hostId" s.room.fields)) [
  | inl nobody ↦ ground (arith, nobody)
  | inr (host, h) ↦ ground (arith, h, eq_iff host requester)
]

pub bot_add-IsOpen :
    (s : Store) (requester k name marker : String)
    → str_eq k "" ≡ false
    → IsOpen s
    → IsOpen (bot_add s requester k name marker).1
unfolding bot_add
bot_add-IsOpen s requester k name marker named v =
    elim (Bool-cases (has_value s.room "phase" "LOBBY")) [
      | inr begun ↦ rw (v.lives, begun) v
      | inl lobby ↦ elim (Bool-cases (is_seated_host s requester)) [
        | inr guest ↦ rw (v.lives, lobby, guest) v
        | inl host ↦ elim (Bool-cases (leb (hnumber s.room "capacity") (hlen s.players))) [
          | inl full ↦ rw (v.lives, lobby, host, full) v
          | inr free ↦ elim (Bool-cases (hexists s.players k)) [
            | inl again ↦ rw (v.lives, lobby, host, free, again) v
            | inr fresh ↦
                rw (v.lives, lobby, host, free, fresh)
                  (seat_bot-IsOpen s v k name marker fresh named (ground arith)
                    (seated_host s requester host))
          ]
        ]
      ]
    ]
