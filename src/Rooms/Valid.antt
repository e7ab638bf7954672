-- ===== src/Rooms/Valid.antt =====
-- The invariant of an open room, under the scripts that change who sits there.
use yorr.Prelude.{
  ℕ, ◌+◌, ◌-◌, ◌<◌, String, ℤ, pos, negsuc, ◌+ℤ◌, ◌≡◌, ◌⊎◌, refl, ◌∙◌, true, false, Option, none,
  some, List, [], ◌∷◌, ◌++◌, lookup_or, length, str_eq, decimal, integer_text, integer-decimal,
  arith,
}
use yorr.Rooms.Hashes.{
  Hash, gone, exists, hget, hexists, hkeys, hset, hnumber, incremented, hincrby, or_blank,
}
use yorr.Rooms.Store.{Store}
use yorr.Rooms.Seats.{IsSeated}
use yorr.Rooms.Laws.{hkeys-hset, hget-hset, exists-hset, IsAligned}

-- A lobby has no game, and any other phase has one.
abbrev pub HasPhase : Option String → Option String → Type 0
HasPhase phase game_id =
    ((phase ≡ some "LOBBY") × (game_id ≡ none))
    ⊎ (((phase ≡ some "PLAYING") ⊎ (phase ≡ some "FINISHED"))
        × ((id : String) × (game_id ≡ some id)))

abbrev pub HasSeats : Hash → List String → List String → List String → Type 0
HasSeats room players scores bots =
    IsSeated (hget room "members") (hnumber room "capacity") (or_blank (hget room "hostId")) players
      scores bots

pub record IsOpen (s : Store) : Type 0 where
  pub lives : exists s.room ≡ true
  pub left : ℕ
  pub has_left : s.room.ttl ≡ some left
  pub left_pos : 0 < left
  pub host : String
  pub is_host : hget s.room "hostId" ≡ some host
  pub seats : HasSeats s.room (hkeys s.players) (hkeys s.scores) (hkeys s.bots)
  pub players_aligned : IsAligned s.room.ttl s.players
  pub scores_aligned : IsAligned s.room.ttl s.scores
  pub bots_aligned : IsAligned s.room.ttl s.bots
  pub phase : HasPhase (hget s.room "phase") (hget s.room "gameId")

-- A room that is not there has left nothing behind.
pub record IsGone (s : Store) : Type 0 where
  pub no_room : s.room ≡ gone
  pub no_players : s.players ≡ gone
  pub no_scores : s.scores ≡ gone
  pub no_bots : s.bots ≡ gone

pub hnumber-of_hget : (r t : Hash) (k : String) → hget t k ≡ hget r k → hnumber t k ≡ hnumber r k
unfolding hnumber hget lookup_or
hnumber-of_hget r t k e = ground arith

-- Another hash of the room that reads the same where it matters for the seats.
pub HasSeats-of_reads :
    (r t : Hash) (players scores bots : List String)
    → hget t "members" ≡ hget r "members"
    → hget t "capacity" ≡ hget r "capacity"
    → hget t "hostId" ≡ hget r "hostId"
    → HasSeats r players scores bots
    → HasSeats t players scores bots
HasSeats-of_reads r t players scores bots m c h v = rw (m, hnumber-of_hget r t "capacity" c, h) v

plus_one : (n : ℕ) → pos n +ℤ pos 1 ≡ pos (n + 1)
plus_one n = ground arith

pub minus_one : (n : ℕ) → 0 < n → pos n +ℤ negsuc 0 ≡ pos (n - 1)
minus_one n h = ground arith

pub incremented_lem :
    (room : Hash) (n : ℕ) (step : ℤ)
    → hget room "members" ≡ some (decimal n)
    → incremented room "members" step ≡ pos n +ℤ step
unfolding incremented hget lookup_or
incremented_lem room n step e = rw (e, lookup_or) (rw (integer-decimal n) refl)

pub hget-hincrby_other :
    (room : Hash) (j : String) (step : ℤ)
    → str_eq "members" j ≡ false
    → hget (hincrby room "members" step) j ≡ hget room j
unfolding hincrby
hget-hincrby_other room j step e =
    rw (hget-hset room "members" (integer_text (incremented room "members" step)) j, e) refl

pub hget-hincrby_self :
    (room : Hash) (n : ℕ) (step : ℤ)
    → incremented room "members" step ≡ pos n
    → hget (hincrby room "members" step) "members" ≡ some (decimal n)
unfolding hincrby integer_text
hget-hincrby_self room n step e =
    rw (hget-hset room "members" (integer_text (incremented room "members" step)) "members")
      (rw e refl)

-- A name is added to the end of the names.
pub hkeys-hset_new :
    (h : Hash) (k v : String) → hexists h k ≡ false → hkeys (hset h k v) ≡ hkeys h ++ k ∷ []
unfolding hexists
hkeys-hset_new h k v e = rw (hkeys-hset h k v) (rw e refl)

module _ (s : Store) (v : IsOpen s) where
  abbrev pub count : ℕ
  count = length (hkeys s.players)

  -- The room's hash after a new name is counted.
  pub one_more : hget (hincrby s.room "members" (pos 1)) "members" ≡ some (decimal (count + 1))
  one_more =
      hget-hincrby_self s.room (count + 1) (pos 1)
        (incremented_lem s.room count (pos 1) v.seats.counted ∙ plus_one count)

  pub no_score : (k : String) → hexists s.players k ≡ false → hexists s.scores k ≡ false
  unfolding hexists
  no_score k e = rw v.seats.scored e

  pub no_bot : (k : String) → hexists s.players k ≡ false → hexists s.bots k ≡ false
  unfolding hexists
  no_bot k e = ground (arith, v.seats.bots_seated k)

-- The room's hash after a name is taken off the count.
pub one_less :
    (s : Store) (v : IsOpen s)
    → 0 < count s v
    → (incremented s.room "members" (negsuc 0) ≡ pos (count s v - 1))
      × (hget (hincrby s.room "members" (negsuc 0)) "members" ≡ some (decimal (count s v - 1)))
one_less s v p =
    let e =
      incremented_lem s.room (count s v) (negsuc 0) v.seats.counted ∙ minus_one (count s v) p in
    (e, hget-hincrby_self s.room (count s v - 1) (negsuc 0) e)

pub hincrby_lives : (room : Hash) (step : ℤ) → exists (hincrby room "members" step) ≡ true
unfolding hincrby
hincrby_lives room step = exists-hset room "members" _

pub ttl-hincrby : (room : Hash) (step : ℤ) → (hincrby room "members" step).ttl ≡ room.ttl
unfolding hincrby hset
ttl-hincrby room step = refl
