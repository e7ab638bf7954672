-- ===== src/Rooms/Leaving.antt =====
-- A seat is given up (`LEAVE`), and a bot is sent away (`BOT_REMOVE`).
use yorr.Prelude.{
  ◌-◌, ◌<◌, String, pos, negsuc, ◌≡◌, refl, ◌∙◌, inl, inr, true, false, not, ◌||◌, ◌&&◌, Option,
  none, some, List, [], ◌∷◌, length, find, includes, without, sort_texts, includes-sort_texts,
  str_eq, str_eq→eq, leb_ℤ, decimal, arith, Bool-cases, eq_iff, eq_refl,
}
use yorr.Rooms.Hashes.{
  Hash, exists, hget, hexists, hkeys, hset, hdel, hnumber, has_value, incremented, hincrby,
  or_blank,
}
use yorr.Rooms.Store.{Store}
use yorr.Rooms.Scripts.{leave, give_up_seat, heir, bot_remove, dismiss, is_seated_host, host_of}
use yorr.Rooms.Seats.{Inherits, remove_guest-IsSeated, remove_host-IsSeated}
use yorr.Rooms.Entering.{seated_host}
use yorr.Rooms.Laws.{hkeys-hdel, hget-hset, exists-hset, hdel-IsAligned}
use yorr.Rooms.Valid.{
  IsOpen, IsGone, HasSeats, HasPhase, hget-hincrby_other, one_less, count, hnumber-of_hget,
  hincrby_lives, ttl-hincrby,
}

-- The same heir among other names, if those have the old ones and but bots besides.
Inherits-of_names :
    (o : Option String) (xs ys bots : List String)
    → ((k : String) → includes xs k ≡ true → includes ys k ≡ true)
    → ((k : String) → includes ys k ≡ true → (includes xs k || includes bots k) ≡ true)
    → Inherits o xs bots
    → Inherits o ys bots
Inherits-of_names none xs ys bots more less n = λ k h. ground (arith, less k, n k)
Inherits-of_names (some y) xs ys bots more less n = (more y n.0, n.1)

-- The one that `find` gives is in the list and no bot; if it gives none, the list has only bots.
find-Inherits : (bots xs : List String) → Inherits (find (λ c. not (includes bots c)) xs) xs bots
find-Inherits bots [] = λ k h. cc
find-Inherits bots (x ∷ xs) = elim (Bool-cases (includes bots x)) [
  | inr human ↦ rw (human, find) (ground (arith, eq_refl x), human)
  | inl bot ↦
      rw (bot, find)
        (Inherits-of_names (find (λ c. not (includes bots c)) xs) xs (x ∷ xs) bots
          (λ k h. ground arith) (λ k h. ground (arith, eq_iff x k, bot)) (find-Inherits bots xs))
]

heir-Inherits : (players bots : Hash) → Inherits (heir players bots) (hkeys players) (hkeys bots)
unfolding heir
heir-Inherits players bots =
    let names = hkeys players in
    Inherits-of_names (heir players bots) (sort_texts names) names (hkeys bots)
      (λ k h. rw (includes-sort_texts names k) at h)
      (λ k h. rw (includes-sort_texts names k, h) refl)
      (find-Inherits (hkeys bots) (sort_texts names))

count_pos : (xs : List String) (k : String) → includes xs k ≡ true → 0 < length xs
count_pos [] k h = cc
count_pos (x ∷ xs) k h = omega arith

-- Who is not the host by the test of the script has another name.
other_name :
    (room : Hash) (host k : String)
    → hget room "hostId" ≡ some host
    → has_value room "hostId" k ≡ false
    → str_eq host k ≡ false
unfolding hget has_value
other_name room host k e h = rw (e, has_value) at h

same_name :
    (room : Hash) (host k : String)
    → hget room "hostId" ≡ some host
    → has_value room "hostId" k ≡ true
    → str_eq host k ≡ true
unfolding hget has_value
same_name room host k e h = rw (e, has_value) at h

module _ (s : Store) (v : IsOpen s) (k : String) (seated : hexists s.players k ≡ true) where
  abbrev less : Hash
  less = hincrby s.room "members" (negsuc 0)

  abbrev next : Option String
  next = heir (hdel s.players k) (hdel s.bots k)

  less_members : hget less "members" ≡ some (decimal (count s v - 1))
  unfolding hexists
  less_members = (one_less s v (count_pos (hkeys s.players) k seated)).1

  less_host : hget less "hostId" ≡ some v.host
  less_host = hget-hincrby_other s.room "hostId" (negsuc 0) refl ∙ v.is_host

  less_capacity : hnumber less "capacity" ≡ hnumber s.room "capacity"
  less_capacity =
      hnumber-of_hget s.room less "capacity" (hget-hincrby_other s.room "capacity" (negsuc 0) refl)

  guest_seats :
      has_value less "hostId" k ≡ false
      → HasSeats less (hkeys (hdel s.players k)) (hkeys (hdel s.scores k)) (hkeys (hdel s.bots k))
  unfolding hexists
  guest_seats e =
      rw
        (
          hkeys-hdel s.players k,
          hkeys-hdel s.scores k,
          hkeys-hdel s.bots k,
          less_members,
          less_capacity,
          less_host,
        )
        (remove_guest-IsSeated k (rw v.is_host at v.seats) seated
          (other_name less v.host k less_host e))

  abbrev handed : Hash
  handed = hset less "hostId" (or_blank next)

  handed_seats :
      HasSeats handed (hkeys (hdel s.players k)) (hkeys (hdel s.scores k)) (hkeys (hdel s.bots k))
  unfolding hexists
  handed_seats =
      let heirs : Inherits next (without k (hkeys s.players)) (without k (hkeys s.bots)) =
        rw (← hkeys-hdel s.players k, ← hkeys-hdel s.bots k)
          (heir-Inherits (hdel s.players k) (hdel s.bots k)) in
      rw
        (
          hkeys-hdel s.players k,
          hkeys-hdel s.scores k,
          hkeys-hdel s.bots k,
          hget-hset less "hostId" (or_blank next) "members",
          less_members,
          hnumber-of_hget less handed "capacity"
              (hget-hset less "hostId" (or_blank next) "capacity"),
          less_capacity,
          hget-hset less "hostId" (or_blank next) "hostId",
        )
        (remove_host-IsSeated k next v.seats seated heirs)

  less_ttl : less.ttl ≡ s.room.ttl
  less_ttl = ttl-hincrby s.room (negsuc 0)

  less_phase : HasPhase (hget less "phase") (hget less "gameId")
  less_phase =
      rw
        (
          hget-hincrby_other s.room "phase" (negsuc 0) refl,
          hget-hincrby_other s.room "gameId" (negsuc 0) refl,
        )
        v.phase

  handed_phase : HasPhase (hget handed "phase") (hget handed "gameId")
  handed_phase =
      rw
        (
          hget-hset less "hostId" (or_blank next) "phase",
          hget-hset less "hostId" (or_blank next) "gameId",
        )
        less_phase

  handed_host : hget handed "hostId" ≡ some (or_blank next)
  handed_host = rw (hget-hset less "hostId" (or_blank next) "hostId") refl

  handed_ttl : handed.ttl ≡ s.room.ttl
  unfolding hset
  handed_ttl = less_ttl

  -- The hashes without `k`, under another hash of the room.
  emptied :
      (room : Hash) (host : String)
      → exists room ≡ true
      → room.ttl ≡ s.room.ttl
      → hget room "hostId" ≡ some host
      → HasSeats room (hkeys (hdel s.players k)) (hkeys (hdel s.scores k)) (hkeys (hdel s.bots k))
      → HasPhase (hget room "phase") (hget room "gameId")
      → IsOpen (record s {
        room = room;
        players = hdel s.players k;
        scores = hdel s.scores k;
        bots = hdel s.bots k;
      })
  emptied room host here ttl h seats phase = record {
    lives = here;
    left = v.left;
    has_left = ttl ∙ v.has_left;
    left_pos = v.left_pos;
    host = host;
    is_host = h;
    seats = seats;
    players_aligned = rw ttl (hdel-IsAligned s.room.ttl s.players k v.players_aligned);
    scores_aligned = rw ttl (hdel-IsAligned s.room.ttl s.scores k v.scores_aligned);
    bots_aligned = rw ttl (hdel-IsAligned s.room.ttl s.bots k v.bots_aligned);
    phase = phase;
  }

  give_up_seat-IsOpen : IsOpen (give_up_seat s k)
  unfolding give_up_seat
  give_up_seat-IsOpen = elim (Bool-cases (has_value less "hostId" k)) [
    | inl host ↦ rw host (
        emptied handed (or_blank next) (exists-hset less "hostId" (or_blank next)) handed_ttl
          handed_host handed_seats handed_phase)
    | inr guest ↦ rw guest (
        emptied less v.host (hincrby_lives s.room (negsuc 0)) less_ttl less_host (guest_seats guest)
          less_phase)
  ]

  -- The host is no bot.
  bot_is_guest :
      hexists s.bots k ≡ true → hexists s.players v.host ≡ true → has_value less "hostId" k ≡ false
  unfolding hexists
  bot_is_guest bot sits = elim (Bool-cases (has_value less "hostId" k)) [
    | inr other ↦ other
    | inl same ↦
        let human : includes (hkeys s.bots) v.host ≡ false =
          (rw v.is_host at v.seats).human_host sits in
        let e = str_eq→eq v.host k (same_name less v.host k less_host same) in
        absurd (ground (arith, e))
  ]

  dismiss-IsOpen : hexists s.bots k ≡ true → hexists s.players v.host ≡ true → IsOpen (dismiss s k)
  unfolding dismiss
  dismiss-IsOpen bot sits =
      emptied less v.host (hincrby_lives s.room (negsuc 0)) less_ttl less_host
        (guest_seats (bot_is_guest bot sits)) less_phase

bot_seated :
    (s : Store) (k : String) → IsOpen s → hexists s.bots k ≡ true → hexists s.players k ≡ true
unfolding hexists
bot_seated s k v bot = v.seats.bots_seated k bot

host_sits :
    (s : Store) (requester : String) (v : IsOpen s)
    → is_seated_host s requester ≡ true
    → hexists s.players v.host ≡ true
unfolding host_of
host_sits s requester v e = rw v.is_host at (seated_host s requester e)

-- A room is gone with everything in it, or open.
pub data IsRoom (s : Store) : Type 0 where
  shut : IsGone s → IsRoom s
  open_room : IsOpen s → IsRoom s

pub leave-IsRoom : (s : Store) (k : String) → IsOpen s → IsRoom (leave s k).1
unfolding leave
leave-IsRoom s k v = elim (Bool-cases (hexists s.players k)) [
  | inr absent ↦ rw (v.lives, absent) (open_room v)
  | inl seated ↦
      let last =
        leb_ℤ (incremented s.room "members" (negsuc 0)) (pos 0)
        && not (has_value (hincrby s.room "members" (negsuc 0)) "mode" "PARTY") in
      elim (Bool-cases last) [
        | inl empty ↦
            rw (v.lives, seated, empty)
              (shut
                (record { no_room = refl; no_players = refl; no_scores = refl; no_bots = refl }))
        | inr rest ↦ rw (v.lives, seated, rest) (open_room (give_up_seat-IsOpen s v k seated))
      ]
]

pub bot_remove-IsOpen :
    (s : Store) (requester k : String) → IsOpen s → IsOpen (bot_remove s requester k).1
unfolding bot_remove
bot_remove-IsOpen s requester k v = elim (Bool-cases (has_value s.room "phase" "LOBBY")) [
  | inr begun ↦ rw (v.lives, begun) v
  | inl lobby ↦ elim (Bool-cases (is_seated_host s requester)) [
    | inr guest ↦ rw (v.lives, lobby, guest) v
    | inl host ↦ elim (Bool-cases (hexists s.bots k)) [
      | inr nobody ↦ rw (v.lives, lobby, host, nobody) v
      | inl bot ↦
          rw (v.lives, lobby, host, bot)
            (dismiss-IsOpen s v k (bot_seated s k v bot) bot (host_sits s requester v host))
    ]
  ]
]
