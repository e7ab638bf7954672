-- ===== src/Pingpong/Calls.antt =====
-- The calls on a room of pingPongGameService.ts, in any order.
use yorr.Prelude.{
  ℕ, String, ℤ, Bool, true, false, Option, none, some, List, [], ◌∷◌, Result, ok, err,
}
use yorr.Pingpong.Types.{Floats, State}
use yorr.Pingpong.Service.{
  Room, Effect, Entrant, service_swing, host_state, service_ready, fire, fire_busy, leave, start,
  pause, resume, rehydrate, reset, close,
}

pub data Request (F : Floats) : Type 0 where
  starts : Option String → List Entrant → ℕ → Request F
  swings : String → ℤ → ℕ → ℕ → F.Float → Request F
  reports : String → State F.Float → Request F
  readies : String → ℕ → Request F
  leaves : String → ℕ → Request F
  fires : ℕ → F.Float → Request F
  fires_busy pauses resumes rehydrates resets closes : Request F

module _ (F : Floats) where
  open F use {Float}

  -- A call that throws leaves the room as it was.
  abbrev pub settled : Room Float → Result (Room Float × List (Effect Float)) → Room Float
  settled room (err code) = room
  settled room (ok (next, effects)) = next

  unfoldable pub serve_request : Room Float → Request F → Room Float
  unfolding start service_swing host_state service_ready leave fire fire_busy pause resume rehydrate
      reset close
  serve_request room (starts host entrants now) = settled room (start F room host entrants now)
  serve_request room (swings p seq ts now x) = settled room (service_swing F room p seq ts now x)
  serve_request room (reports p s) = (host_state F room p s).0
  serve_request room (readies p now) = (service_ready F room p now).0
  serve_request room (leaves p now) = (leave F room p now).0
  serve_request room (fires now x) = elim room.deadline [
    | none ↦ room
    | some d ↦ (fire F room d now x).0
  ]
  serve_request room fires_busy = fire_busy F room
  serve_request room pauses = (pause F room).0
  serve_request room rehydrates = settled room (rehydrate F room)
  serve_request room resumes = (resume F room).0
  serve_request room resets = (reset F room).0
  serve_request room closes = (close F room).0

  unfoldable pub serve_requests : Room Float → List (Request F) → Room Float
  unfolding serve_request
  serve_requests room [] = room
  serve_requests room (r ∷ rest) = serve_requests (serve_request room r) rest

  -- Whether a room may be without its deadline after the requests: it may when it was paused or its
  -- deadline was lost, until it is resumed or its match is put away.
  abbrev pub halts : Bool → Request F → Bool
  halts halted pauses = true
  halts halted fires_busy = true
  halts halted resumes = false
  halts halted rehydrates = false
  halts halted resets = false
  halts halted closes = false
  halts halted (starts host entrants now) = halted
  halts halted (swings p seq ts now x) = halted
  halts halted (reports p s) = halted
  halts halted (readies p now) = halted
  halts halted (leaves p now) = halted
  halts halted (fires now x) = halted

  abbrev pub halts_after : Bool → List (Request F) → Bool
  halts_after halted [] = halted
  halts_after halted (r ∷ rest) = halts_after (halts halted r) rest

  abbrev pub fresh_room : Bool → Room Float
  fresh_room is_party = record {
    state = none;
    deadline = none;
    host_judged = none;
    is_party = is_party;
  }
