-- ===== src/Completion/Finish.antt =====
-- The script FINISH_IF_COMPLETE of scripts.ts, on the hash of the room, the hash of its players and the
-- score boards of the game. `completionStore.ts` gives it 12 as the number of boxes.
use Prim.Native.Char.{Char, code}
use yorr.Prelude.{
  ℕ, suc, ◌≤◌, ◌≡◌, ◌≢◌, inl, inr, refl, String, Bool, true, false, not, ◌&&◌, List, [], ◌∷◌, map,
  keep, every, length, Dict, insert, lookup-insert, eqb, ltb, if◌then◌else◌, arith, Bool-cases,
}
use yorr.Score.Confirm.{exists, has_value}

pub record Store : Type 0 where
  pub room : Dict String
  pub players : Dict String
  pub boards : String → Dict String

-- `!field.startsWith('_')`
unfoldable pub is_box : String → Bool
is_box String.[] = true
is_box (String.◌∷◌ c s) = not (eqb (code c) 95)

unfoldable pub recorded_boxes : Dict String → ℕ
unfolding is_box
recorded_boxes board = length (keep (λ (field, value). is_box field) board)

-- `hkeys`
abbrev pub hkeys : Dict String → List String
hkeys m = map (λ (k, v). k) m

unfoldable pub is_complete : Store → ℕ → Bool
unfolding exists recorded_boxes
is_complete s required =
    exists s.players
    && every (λ p. not (ltb (recorded_boxes (s.boards p)) required)) (hkeys s.players)

-- Whether this call has made the change, and the store it leaves.
unfoldable pub finish_if_complete : Store → String → Bool → ℕ → Bool × Store
unfolding exists has_value
finish_if_complete s game_id force required =
    if not (exists s.room)
    then (false, s)
    else if not (has_value s.room "phase" "PLAYING")
    then (false, s)
    else if not (has_value s.room "gameId" game_id)
    then (false, s)
    else if not force && not (is_complete s required)
    then (false, s)
    else (true, record s { room = insert "phase" "FINISHED" s.room })

finished_not_playing :
    (m : Dict String) → has_value (insert "phase" "FINISHED" m) "phase" "PLAYING" ≡ false
unfolding has_value
finished_not_playing m = rw (lookup-insert "phase" "phase" "FINISHED" m, has_value) refl

not_playing_refused :
    (t : Store) (game_id : String) (force : Bool) (required : ℕ)
    → has_value t.room "phase" "PLAYING" ≡ false
    → finish_if_complete t game_id force required ≡ (false, t)
unfolding finish_if_complete
not_playing_refused t game_id force required h = elim (Bool-cases (exists t.room)) [
  | inl e ↦ rw (e, h) refl
  | inr e ↦ rw e refl
]

changed_store :
    (s : Store) (game_id : String) (force : Bool) (required : ℕ)
    → (finish_if_complete s game_id force required).0 ≡ true
    → ((finish_if_complete s game_id force required).1
        ≡ record s { room = insert "phase" "FINISHED" s.room })
      × ((not force && not (is_complete s required)) ≡ false)
unfolding finish_if_complete
changed_store s game_id force required e = (ground arith, ground arith)

complete_parts :
    (s : Store) (n : ℕ)
    → is_complete s n ≡ true
    → (exists s.players ≡ true)
      × (every (λ p. not (ltb (recorded_boxes (s.boards p)) n)) (hkeys s.players) ≡ true)
unfolding is_complete
complete_parts s n e = (ground arith, ground arith)

exists-ne : (m : Dict String) → exists m ≡ true → m ≢ []
unfolding exists
exists-ne [] e h = cc
exists-ne (x ∷ m) e h = cc

-- Of all calls for a game, forced or not, one at most makes the change: once one has, every later one
-- finds nothing to do.
pub finish_once :
    (s : Store) (game_id : String) (force : Bool) (required : ℕ)
    → (finish_if_complete s game_id force required).0 ≡ true
    → (later_id : String) (later_force : Bool) (later_required : ℕ)
    → let t = (finish_if_complete s game_id force required).1 in
      finish_if_complete t later_id later_force later_required ≡ (false, t)
finish_once s game_id force required e later_id later_force later_required =
    rw ((changed_store s game_id force required e).0) (
      not_playing_refused (record s { room = insert "phase" "FINISHED" s.room }) later_id
        later_force later_required (finished_not_playing s.room))

-- How many boxes a score board has: the fields whose name does not begin with an underscore, which has
-- the code 95. The others hold the sums and the bonus.
pub data HasBoxes : Dict String → ℕ → Type 0 where
  empty : HasBoxes [] 0
  sums :
      {c : Char} {name value : String} {rest : Dict String} {n : ℕ}
      → code c ≡ 95
      → HasBoxes rest n
      → HasBoxes ((String.◌∷◌ c name, value) ∷ rest) n
  box :
      {c : Char} {name value : String} {rest : Dict String} {n : ℕ}
      → code c ≢ 95
      → HasBoxes rest n
      → HasBoxes ((String.◌∷◌ c name, value) ∷ rest) (suc n)
  unnamed :
      {value : String} {rest : Dict String} {n : ℕ}
      → HasBoxes rest n
      → HasBoxes ((String.[], value) ∷ rest) (suc n)

recorded_boxes-HasBoxes : (board : Dict String) → HasBoxes board (recorded_boxes board)
unfolding recorded_boxes is_box
recorded_boxes-HasBoxes [] = empty
recorded_boxes-HasBoxes ((String.[], value) ∷ rest) = unnamed (recorded_boxes-HasBoxes rest)
recorded_boxes-HasBoxes ((String.◌∷◌ c name, value) ∷ rest) = elim (Bool-cases (eqb (code c) 95)) [
  | inl e ↦ rw e (sums (ground arith) (recorded_boxes-HasBoxes rest))
  | inr e ↦ rw e (box (λ h. ground arith) (recorded_boxes-HasBoxes rest))
]

-- Every one of the players has so many boxes at least on his board.
abbrev pub AllHave : (String → Dict String) → ℕ → List String → Type 0
AllHave boards required [] = Unit {0}
AllHave boards required (p ∷ players) =
    ((n : ℕ) × HasBoxes (boards p) n × (required ≤ n)) × AllHave boards required players

every-AllHave :
    (boards : String → Dict String) (required : ℕ) (players : List String)
    → every (λ p. not (ltb (recorded_boxes (boards p)) required)) players ≡ true
    → AllHave boards required players
every-AllHave boards required [] e = tt
every-AllHave boards required (p ∷ players) e = (
  (recorded_boxes (boards p), recorded_boxes-HasBoxes (boards p), ground arith),
  every-AllHave boards required players (ground arith),
)

-- A call that is not forced makes the change only if the room has players, and each of them has on his
-- board as many boxes as the game asks for, fields that begin with an underscore not counted.
pub finish_complete :
    (s : Store) (game_id : String) (required : ℕ)
    → (finish_if_complete s game_id false required).0 ≡ true
    → (s.players ≢ []) × AllHave s.boards required (hkeys s.players)
finish_complete s game_id required e =
    let complete : is_complete s required ≡ true =
      ground (arith, (changed_store s game_id false required e).1) in
    let (some_player, all) = complete_parts s required complete in
    (exists-ne s.players some_player, every-AllHave s.boards required (hkeys s.players) all)
