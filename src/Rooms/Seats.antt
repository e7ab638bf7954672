-- ===== src/Rooms/Seats.antt =====
-- Who sits in a room: the invariant of the names that its hashes hold, and what it is for one name to be
-- added or taken away.
use yorr.Prelude.{
  ℕ, ◌+◌, ◌-◌, ◌≤◌, ◌<◌, String, ◌≡◌, sym, ap, true, false, not, ◌||◌, Option, none, some, List, [],
  ◌∷◌, ◌++◌, length, length-append, includes, includes-append, includes-without, without,
  length-without, Distinct, Distinct-append, Distinct-without, str_eq, eq_iff, eq_refl, decimal,
  if◌then◌else◌, arith,
}
use yorr.Rooms.Hashes.{or_blank}

-- `members` is the count on record; `players`, `scores` and `bots` are the names with a seat, with a
-- score, and of bots.
pub record IsSeated (members : Option String) (capacity : ℕ) (host : String)
    (players scores bots : List String) : Type 0 where
  pub counted : members ≡ some (decimal (length players))
  pub scored : scores ≡ players
  pub distinct : Distinct players
  pub fits : length players ≤ capacity
  pub bots_seated : (k : String) → includes bots k ≡ true → includes players k ≡ true
  pub named_bots : includes bots "" ≡ false
  -- A host who sits in the room is no bot,
  pub human_host : includes players host ≡ true → includes bots host ≡ false
  -- and sits there whenever any human does.
  pub hosted :
      (k : String)
      → includes players k ≡ true
      → includes bots k ≡ false
      → includes players host ≡ true

-- An heir is a human of the room; there is none if only bots are left.
abbrev pub Inherits : Option String → List String → List String → Type 0
Inherits none players bots = (k : String) → includes players k ≡ true → includes bots k ≡ true
Inherits (some h) players bots = (includes players h ≡ true) × (includes bots h ≡ false)

module _ {members : Option String} {capacity : ℕ} {host : String}
    {players scores bots : List String} where
  -- A human takes a seat, and the ownerless room.
  pub add_human-IsSeated :
      (k host' : String)
      → IsSeated members capacity host players scores bots
      → includes players k ≡ false
      → length players < capacity
      → host' ≡ (if str_eq host "" || not (includes (players ++ k ∷ []) host) then k else host)
      → IsSeated
          (some (decimal (length players + 1)))
          capacity
          host'
          (players ++ k ∷ [])
          (scores ++ k ∷ [])
          bots
  add_human-IsSeated k host' v fresh free e =
      let no_bot : includes bots k ≡ false = ground (arith, v.bots_seated k) in
      let in_room : includes (players ++ k ∷ []) host' ≡ true =
        ground (arith, includes-append players k host, includes-append players k k, eq_refl k) in
      let old_host : includes (players ++ k ∷ []) host ≡ true → includes bots host ≡ false =
        λ h. ground (arith, v.human_host, includes-append players k host, eq_iff k host) in
      record {
        counted = ap (λ n. some (decimal n)) (sym (length-append players (k ∷ [])));
        scored = ap (λ xs. xs ++ k ∷ []) v.scored;
        distinct = Distinct-append players k v.distinct fresh;
        fits = omega (arith, length-append players (k ∷ []));
        bots_seated = λ j h. ground (arith, v.bots_seated j, includes-append players k j);
        named_bots = v.named_bots;
        human_host = λ h. ground (arith, old_host);
        hosted = λ j h b. in_room;
      }

  -- A bot takes a seat in a room whose host sits there.
  pub add_bot-IsSeated :
      (k : String)
      → IsSeated members capacity host players scores bots
      → includes players k ≡ false
      → str_eq k "" ≡ false
      → includes players host ≡ true
      → length players < capacity
      → IsSeated
          (some (decimal (length players + 1)))
          capacity
          host
          (players ++ k ∷ [])
          (scores ++ k ∷ [])
          (bots ++ k ∷ [])
  add_bot-IsSeated k v fresh named owned free = record {
    counted = ap (λ n. some (decimal n)) (sym (length-append players (k ∷ [])));
    scored = ap (λ xs. xs ++ k ∷ []) v.scored;
    distinct = Distinct-append players k v.distinct fresh;
    fits = omega (arith, length-append players (k ∷ []));
    bots_seated = λ j h.
        ground (arith, v.bots_seated j, includes-append players k j, includes-append bots k j);
    named_bots = ground (arith, v.named_bots, includes-append bots k "");
    human_host = λ h. ground (arith, v.human_host, includes-append bots k host, eq_iff k host);
    hosted = λ j h b. ground (arith, includes-append players k host);
  }

  less :
      (k : String)
      → IsSeated members capacity host players scores bots
      → includes players k ≡ true
      → decimal (length players - 1) ≡ decimal (length (without k players))
  less k v seated = ap decimal (omega (arith, length-without k players v.distinct seated))

  -- Somebody else than the host gives up a seat.
  pub remove_guest-IsSeated :
      (k : String)
      → IsSeated members capacity host players scores bots
      → includes players k ≡ true
      → str_eq host k ≡ false
      → IsSeated
          (some (decimal (length players - 1)))
          capacity
          host
          (without k players)
          (without k scores)
          (without k bots)
  remove_guest-IsSeated k v seated other = record {
    counted = ap some (less k v seated);
    scored = ap (without k) v.scored;
    distinct = Distinct-without k players v.distinct;
    fits = omega (arith, length-without k players v.distinct seated, v.fits);
    bots_seated = λ j h.
        ground (arith, v.bots_seated j, includes-without k j players, includes-without k j bots);
    named_bots = ground (arith, v.named_bots, includes-without k "" bots);
    human_host = λ h.
        ground (arith, v.human_host, includes-without k host players, includes-without k host bots);
    hosted = λ j h b. ground (
      arith,
      v.hosted j,
      includes-without k j players,
      includes-without k j bots,
      includes-without k host players,
      eq_iff k host,
      eq_iff host k,
    );
  }

  -- The host gives up the seat: a human inherits the room, or no human is left.
  pub remove_host-IsSeated :
      (k : String) (heir : Option String)
      → IsSeated members capacity host players scores bots
      → includes players k ≡ true
      → Inherits heir (without k players) (without k bots)
      → IsSeated
          (some (decimal (length players - 1)))
          capacity
          (or_blank heir)
          (without k players)
          (without k scores)
          (without k bots)
  remove_host-IsSeated k heir v seated next = record {
    counted = ap some (less k v seated);
    scored = ap (without k) v.scored;
    distinct = Distinct-without k players v.distinct;
    fits = omega (arith, length-without k players v.distinct seated, v.fits);
    bots_seated = λ j h.
        ground (arith, v.bots_seated j, includes-without k j players, includes-without k j bots);
    named_bots = ground (arith, v.named_bots, includes-without k "" bots);
    human_host = human heir next;
    hosted = λ j h b. at_home heir next j h b;
  }
    where
      human :
          (o : Option String)
          → Inherits o (without k players) (without k bots)
          → includes (without k players) (or_blank o) ≡ true
          → includes (without k bots) (or_blank o) ≡ false
      human none n h = ground (arith, v.named_bots, includes-without k "" bots)
      human (some x) n h = n.1

      at_home :
          (o : Option String)
          → Inherits o (without k players) (without k bots)
          → (j : String) → includes (without k players) j ≡ true
          → includes (without k bots) j ≡ false
          → includes (without k players) (or_blank o) ≡ true
      at_home none n j h b = ground (arith, n j)
      at_home (some x) n j h b = n.0
