-- ===== src/Rooms/Clock.antt =====
-- A room in time: it is made with a time to live, the scripts of expiry.ts give it more, and all that it
-- keeps goes when that time is up.
use mathlib.Core.Path.{subst}
use yorr.Prelude.{
  ℕ, ◌-◌, ◌*◌, ◌<◌, String, ◌≡◌, refl, inl, inr, true, false, Option, none, some, [], ◌∷◌, Dict,
  leb, if◌then◌else◌, arith, Bool-cases,
}
use yorr.Rooms.Hashes.{Hash, gone, exists, hget, hkeys, hnumber}
use yorr.Rooms.Store.{Store}
use yorr.Rooms.Scripts.{touch}
use yorr.Rooms.Laws.{IsAligned, no_ttl}
use yorr.Rooms.Valid.{IsOpen, IsGone}
use yorr.Rooms.Leaving.{IsRoom, shut, open_room}

-- Time runs: a hash whose time is up is gone, as `live` of redisKeyspace.ts has it.
unfoldable pub aged : ℕ → Hash → Hash
aged ms h = elim h.ttl [
  | none ↦ h
  | some left ↦ if leb left ms then gone else record h { ttl = some (left - ms) }
]

unfoldable pub pass : Store → ℕ → Store
unfolding aged
pass s ms = record s {
  room = aged ms s.room;
  players = aged ms s.players;
  scores = aged ms s.scores;
  bots = aged ms s.bots;
  games = λ key. aged ms (s.games key);
}

gone_of_fields :
    (m : Dict String) (ttl : Option ℕ)
    → exists (record { fields = m; ttl = ttl }) ≡ false
    → ttl ≡ none
    → let h : Hash = record { fields = m; ttl = ttl } in h ≡ gone
unfolding exists
gone_of_fields [] ttl e t = rw t refl
gone_of_fields (x ∷ rest) ttl e t = cc

gone_of_nothing : (h : Hash) → exists h ≡ false → h.ttl ≡ none → h ≡ gone
gone_of_nothing h e t = gone_of_fields h.fields h.ttl e t

-- What is there has the time of its room.
has_ttl : (ttl : Option ℕ) (h : Hash) → IsAligned ttl h → exists h ≡ true → h.ttl ≡ ttl
has_ttl ttl h a e = ground arith

aged_out :
    (ms left : ℕ) (h : Hash) → leb left ms ≡ true → IsAligned (some left) h → aged ms h ≡ gone
unfolding aged
aged_out ms left h up a = elim (Bool-cases (exists h)) [
  | inl here ↦ rw (has_ttl (some left) h a here, aged) (rw up refl)
  | inr absent ↦ let t = no_ttl (some left) h a absent in rw (t, aged) (gone_of_nothing h absent t)
]

aged-IsAligned :
    (ms left : ℕ) (h : Hash)
    → leb left ms ≡ false
    → IsAligned (some left) h
    → IsAligned (some (left - ms)) (aged ms h) × (hkeys (aged ms h) ≡ hkeys h)
unfolding aged exists
aged-IsAligned ms left h more a = elim (Bool-cases (exists h)) [
  | inl here ↦ rw (has_ttl (some left) h a here, aged) (rw more (ground arith, refl))
  | inr absent ↦ let t = no_ttl (some left) h a absent in rw (t, aged) (ground arith, refl)
]

-- The same fields, and the time that is left.
aged_room :
    (ms left : ℕ) (room : Hash)
    → leb left ms ≡ false
    → room.ttl ≡ some left
    → aged ms room ≡ record room { ttl = some (left - ms) }
unfolding aged
aged_room ms left room more t = rw (t, aged) (rw more refl)

hnumber-record :
    (room : Hash) (ttl : Option ℕ) (k : String)
    → hnumber (record room { ttl = ttl }) k ≡ hnumber room k
unfolding hnumber
hnumber-record room ttl k = refl

-- An open room with another time to live, its other hashes with the same names.
module _ (s : Store) (v : IsOpen s) (ms : ℕ) (positive : 0 < ms) (players scores bots : Hash)
    (same_players : hkeys players ≡ hkeys s.players) (same_scores : hkeys scores ≡ hkeys s.scores)
    (same_bots : hkeys bots ≡ hkeys s.bots) (players_time : IsAligned (some ms) players)
    (scores_time : IsAligned (some ms) scores) (bots_time : IsAligned (some ms) bots) where
  retimed :
      (games : String → Hash)
      → IsOpen (record {
        room = record s.room { ttl = some ms };
        players = players;
        scores = scores;
        bots = bots;
        games = games;
      })
  unfolding exists hget hnumber
  retimed games = record {
    lives = v.lives;
    left = ms;
    has_left = refl;
    left_pos = positive;
    host = v.host;
    is_host = v.is_host;
    seats = rw (same_players, same_scores, same_bots) v.seats;
    players_aligned = players_time;
    scores_aligned = scores_time;
    bots_aligned = bots_time;
    phase = v.phase;
  }

-- What `pexpire` leaves for a time that is not nothing.
abbrev extended : ℕ → Hash → Hash
extended ms h = if exists h then record h { ttl = some ms } else h

extended-IsAligned :
    (ttl : Option ℕ) (ms : ℕ) (h : Hash)
    → IsAligned ttl h
    → IsAligned (some ms) (extended ms h) × (hkeys (extended ms h) ≡ hkeys h)
unfolding exists
extended-IsAligned ttl ms h a = elim (Bool-cases (exists h)) [
  | inl here ↦ rw here (rw here refl, refl)
  | inr absent ↦ rw absent (rw absent (no_ttl ttl h a absent), refl)
]

module _ (s : Store) (v : IsOpen s) where
  timed : (h : Hash) → IsAligned s.room.ttl h → IsAligned (some v.left) h
  timed h a = subst (λ t. IsAligned t h) v.has_left a

  pub pass-IsRoom : (ms : ℕ) → IsRoom (pass s ms)
  unfolding pass
  pass-IsRoom ms = elim (Bool-cases (leb v.left ms)) [
    | inl up ↦ shut (record {
      no_room = aged_out ms v.left s.room up (rw v.lives v.has_left);
      no_players = aged_out ms v.left s.players up (timed s.players v.players_aligned);
      no_scores = aged_out ms v.left s.scores up (timed s.scores v.scores_aligned);
      no_bots = aged_out ms v.left s.bots up (timed s.bots v.bots_aligned);
    })
    | inr more ↦
        let (players_time, same_players) =
          aged-IsAligned ms v.left s.players more (timed s.players v.players_aligned) in
        let (scores_time, same_scores) =
          aged-IsAligned ms v.left s.scores more (timed s.scores v.scores_aligned) in
        let (bots_time, same_bots) =
          aged-IsAligned ms v.left s.bots more (timed s.bots v.bots_aligned) in
        rw (aged_room ms v.left s.room more v.has_left) (
          open_room (
            retimed s v (v.left - ms) (ground arith) (aged ms s.players) (aged ms s.scores)
              (aged ms s.bots) same_players same_scores same_bots players_time scores_time bots_time
              (λ key. aged ms (s.games key))))
  ]

  pub touch-IsOpen : (ttl_seconds : ℕ) → 0 < ttl_seconds → IsOpen (touch s ttl_seconds).1
  unfolding touch
  touch-IsOpen ttl_seconds p =
      let ms = ttl_seconds * 1000 in
      let pos_ms : 0 < ms = omega arith in
      let more : leb ms 0 ≡ false = ground arith in
      let (players_time, same_players) =
        extended-IsAligned s.room.ttl ms s.players v.players_aligned in
      let (scores_time, same_scores) = extended-IsAligned s.room.ttl ms s.scores v.scores_aligned in
      let (bots_time, same_bots) = extended-IsAligned s.room.ttl ms s.bots v.bots_aligned in
      rw v.lives (
        rw more (
          retimed s v ms pos_ms (extended ms s.players) (extended ms s.scores) (extended ms s.bots)
            same_players same_scores same_bots players_time scores_time bots_time _))

pub pass-IsGone : (s : Store) (ms : ℕ) → IsGone s → IsGone (pass s ms)
unfolding pass aged
pass-IsGone s ms absent = record {
  no_room = rw absent.no_room refl;
  no_players = rw absent.no_players refl;
  no_scores = rw absent.no_scores refl;
  no_bots = rw absent.no_bots refl;
}
