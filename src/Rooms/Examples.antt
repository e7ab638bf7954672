-- ===== src/Rooms/Examples.antt =====
-- Runs of the scripts of a room.
use yorr.Prelude.{
  String, ◌≡◌, refl, true, false, some, List, [], ◌∷◌, decimal, number, integer, integer_text,
  lookup, lookup_or, insert, delete, text_lt, sort_texts,
}
use yorr.Rooms.Hashes.{Hash, gone, exists, hget}
use yorr.Rooms.Leaving.{IsRoom}
use yorr.Rooms.History.{
  Action, creates, joins, leaves, adds_bot, starts, finishes, returns, passes, run, run-IsRoom,
  nothing,
}

abbrev no_games : String → Hash
no_games key = gone

-- A party: two humans and a bot play, the host leaves, and time runs.
abbrev party : List Action
party =
    creates 3 "ann" "YACHT" "NORMAL"
    ∷ joins "bob" "Bob"
    ∷ joins "ann" "Ann"
    ∷ adds_bot "bob" "1" "Bot" "{}"
    ∷ joins "cat" "Cat"
    ∷ starts "g" "ROOM" 1
    ∷ finishes "g" true 12
    ∷ returns
    ∷ leaves "bob"
    ∷ passes 1000
    ∷ []

run-IsRoom_example : IsRoom (run (nothing no_games) party)
run-IsRoom_example = run-IsRoom no_games party

-- Bob, who took the room over from the host that had not come in, leaves it to Ann.
party_after :
    let s = run (nothing no_games) party in
    (hget s.room "members" ≡ some "2")
    × (hget s.room "hostId" ≡ some "ann")
    × (s.players.fields ≡ ("ann", "Ann") ∷ ("bot-1", "Bot") ∷ [])
    × (s.bots.ttl ≡ some 2399000)
unfolding run hget lookup insert number lookup_or decimal delete integer integer_text sort_texts
    text_lt
party_after = (refl, refl, refl, refl)

-- The last member takes the room along.
closed_after :
    exists
      (run
        (nothing no_games)
        (creates 1 "ann" "YACHT" "NORMAL" ∷ joins "ann" "Ann" ∷ leaves "ann" ∷ [])).room
    ≡ false
unfolding run exists insert lookup number lookup_or decimal integer integer_text
closed_after = refl
