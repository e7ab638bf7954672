-- ===== src/Round/Valid.antt =====
-- The invariant of `RoundState` in roundState.ts, under all its transitions.
use yorr.Prelude.{
  ℕ, ◌+◌, ◌≤◌, ◌<◌, ◌≡◌, inl, inr, refl, String, Bool, true, false, ◌&&◌, Option, none, some, List,
  [], ◌∷◌, length, get_elem?, every, eqb, Result, ok, err, ◌>>=◌, require, arith, Bool-cases,
  Option-cases,
}
use yorr.Round.Types.{State, Submission, Roll, Advanced}
use yorr.Round.Contracts.{
  restore, validate_held, validate_dice, merge_rolled_dice, keep_held, is_die,
}
use yorr.Round.Rules.{
  active_player_id, record_roll, record_hold, has_rolls_left, auto_roll, submit, expire,
  without_participant, is_none,
}

-- The dice of the active turn: none before the first roll, five of them after it, with five marks.
pub data IsRolled : ℕ → Option (List ℕ) → Option (List Bool) → Type 0 where
  not_yet : IsRolled 0 none none
  rolled :
      {n : ℕ} {dice : List ℕ} {held : List Bool}
      → 1 ≤ n
      → n ≤ 3
      → length dice ≡ 5
      → every is_die dice ≡ true
      → length held ≡ 5
      → IsRolled n (some dice) (some held)

-- A round between 1 and the limit, a turn that is some participant's, and a roll in order.
pub record IsValid (s : State) : Type 0 where
  pub round_from : 1 ≤ s.round_number
  pub round_to : s.round_number ≤ s.total_rounds
  pub turn : s.active_player_index < length s.participant_order
  pub roll : IsRolled s.active_roll_count s.active_dice s.active_held

pub data Action : Type 0 where
  rolls : Roll → Action
  holds : String → ℕ → List Bool → Action
  auto_rolls : List ℕ → Action
  submits : Submission → Action
  expires : Action
  leaves : String → Action

-- The state that an advance leaves.
unfoldable pub advanced : Result Advanced → Result State
advanced r = do a ← r; ok a.state

unfoldable pub apply : State → Action → Result State
unfolding advanced
apply s (rolls i) = record_roll s i
apply s (holds player_id round_number held) = record_hold s player_id round_number held
apply s (auto_rolls dice) = auto_roll s dice
apply s (submits i) = advanced (submit s i)
apply s expires = advanced (expire s)
apply s (leaves player_id) = without_participant s player_id

unfoldable pub run : State → List Action → Result State
run s [] = ok s
run s (a ∷ rest) = do t ← apply s a; run t rest

-- A bind that gives a result comes from a first part that gives one.
bound :
    {A B : Type 0} (m : Result A) (f : A → Result B) (b : B)
    → (m >>= f) ≡ ok b
    → (a : A) × (m ≡ ok a) × (f a ≡ ok b)
bound (ok a) f b e = (a, refl, e)
bound (err why) f b e = cc

required : (test : Bool) (why : String) (u : Unit {0}) → require test why ≡ ok u → test ≡ true
required true why u e = refl
required false why u e = cc

restored : (s t : State) → restore s ≡ ok t → t ≡ s
unfolding restore
restored s t e = ground arith

length-keep_held :
    (previous dice : List ℕ) (held : List Bool)
    → length (keep_held previous dice held) ≡ length dice
unfolding keep_held
length-keep_held (x ∷ previous) (y ∷ dice) (h ∷ held) =
    ground (arith, length-keep_held previous dice held)
length-keep_held [] dice held = refl
length-keep_held (x ∷ previous) [] held = refl
length-keep_held (x ∷ previous) (y ∷ dice) [] = refl

every-keep_held :
    (previous dice : List ℕ) (held : List Bool)
    → every is_die previous ≡ true
    → every is_die dice ≡ true
    → every is_die (keep_held previous dice held) ≡ true
unfolding keep_held
every-keep_held (x ∷ previous) (y ∷ dice) (true ∷ held) h i =
    ground (arith, every-keep_held previous dice held)
every-keep_held (x ∷ previous) (y ∷ dice) (false ∷ held) h i =
    ground (arith, every-keep_held previous dice held)
every-keep_held [] dice held h i = i
every-keep_held (x ∷ previous) [] held h i = refl
every-keep_held (x ∷ previous) (y ∷ dice) [] h i = i

-- What an accepted roll fulfils, and the state it leaves.
record RollAccepted (s : State) (i : Roll) (t : State) : Type 0 where
  count : i.roll_count ≡ s.active_roll_count + 1
  few : i.roll_count ≤ 3
  marks : length i.held ≡ 5
  dice : (eqb (length i.rolled_dice) 5 && every is_die i.rolled_dice) ≡ true
  next : t ≡ record s {
    active_roll_count = i.roll_count;
    active_dice = some (merge_rolled_dice s.active_dice i.rolled_dice i.held);
    active_held = some i.held;
    finished = false;
  }

record_roll-RollAccepted :
    (s : State) (i : Roll) (t : State) → record_roll s i ≡ ok t → RollAccepted s i t
unfolding record_roll validate_held validate_dice restore
record_roll-RollAccepted s i t e = record {
  count = ground arith;
  few = ground arith;
  marks = ground arith;
  dice = ground arith;
  next = ground arith;
}

IsRolled-merge :
    {n : ℕ} {before : Option (List ℕ)} {marks : Option (List Bool)}
    → IsRolled n before marks
    → (dice : List ℕ) (held : List Bool) → n + 1 ≤ 3
    → length held ≡ 5
    → (eqb (length dice) 5 && every is_die dice) ≡ true
    → IsRolled (n + 1) (some (merge_rolled_dice before dice held)) (some held)
unfolding merge_rolled_dice
IsRolled-merge not_yet dice held few five ok_dice =
    rolled (omega arith) (omega arith) (ground arith) (ground arith) five
IsRolled-merge (rolled {dice = before} one three five_before faces marks) dice held few five
      ok_dice =
    rolled (omega arith) few (ground (arith, length-keep_held before dice held))
      (every-keep_held before dice held faces (ground arith)) five

pub record_roll-IsValid :
    (s : State) (i : Roll) (t : State) → record_roll s i ≡ ok t → IsValid s → IsValid t
record_roll-IsValid s i t e v =
    let a = record_roll-RollAccepted s i t e in
    let few : s.active_roll_count + 1 ≤ 3 = rw (← a.count) a.few in
    rw a.next (record {
      round_from = v.round_from;
      round_to = v.round_to;
      turn = v.turn;
      roll = rw a.count (IsRolled-merge v.roll i.rolled_dice i.held few a.marks a.dice);
    })

hold_fields :
    (s : State) (player_id : String) (n : ℕ) (held : List Bool) (t : State)
    → record_hold s player_id n held ≡ ok t
    → (is_none s.active_dice ≡ false)
      × (length held ≡ 5)
      × (t ≡ record s { active_held = some held; finished = false })
unfolding record_hold validate_held restore
hold_fields s player_id n held t e = ground arith

IsRolled-hold :
    {n : ℕ} {dice : Option (List ℕ)} {marks : Option (List Bool)}
    → IsRolled n dice marks
    → is_none dice ≡ false
    → (held : List Bool) → length held ≡ 5
    → IsRolled n dice (some held)
unfolding is_none
IsRolled-hold not_yet e held five = cc
IsRolled-hold (rolled one three five_dice faces marks) e held five =
    rolled one three five_dice faces five

pub record_hold-IsValid :
    (s : State) (player_id : String) (n : ℕ) (held : List Bool) (t : State)
    → record_hold s player_id n held ≡ ok t
    → IsValid s
    → IsValid t
record_hold-IsValid s player_id n held t e v =
    let (dice, five, next) = hold_fields s player_id n held t e in
    rw next (record {
      round_from = v.round_from;
      round_to = v.round_to;
      turn = v.turn;
      roll = IsRolled-hold v.roll dice held five;
    })

auto_roll-record_roll :
    (s : State) (dice : List ℕ) (t : State)
    → auto_roll s dice ≡ ok t
    → (i : Roll) × (record_roll s i ≡ ok t)
unfolding auto_roll active_player_id
auto_roll-record_roll s dice t e = elim (Bool-cases (has_rolls_left s)) [
  | inr none_left ↦ ground arith
  | inl left ↦ elim (Option-cases (get_elem? s.participant_order s.active_player_index)) [
    | inl nobody ↦ ground arith
    | inr (p, active) ↦ (_, rw (left, active, auto_roll, active_player_id) at e)
  ]
]

pub auto_roll-IsValid :
    (s : State) (dice : List ℕ) (t : State) → auto_roll s dice ≡ ok t → IsValid s → IsValid t
auto_roll-IsValid s dice t e v =
    let (i, f) = auto_roll-record_roll s dice t e in record_roll-IsValid s i t f v
