-- ===== src/Pingpong/Examples.antt =====
-- Runs of the rules of ping pong, and the theorems at concrete matches.
use Prim.Native.Nat.{◌^◌}
use yorr.Prelude.{
  ℕ, zero, suc, ◌+◌, ◌*◌, ◌/◌, String, ℤ, pos, negsuc, pos_part, neg_part, ◌+ℤ◌, ◌-ℤ◌, leb_ℤ, ltb_ℤ,
  ◌≡◌, ◌≢◌, refl, Bool, true, false, List, [], ◌∷◌, arith, eq_iff, ok, some, insert,
}
use yorr.Pingpong.Types.{Floats, State, countdown, points}
use yorr.Pingpong.Court.{ball_at, fault_of}
use yorr.Pingpong.Scoring.{serve, served_ball, expire, point}
use yorr.Pingpong.Service.{timeout_rule}
use yorr.Pingpong.Rules.{first_state, initial, ready, swing, struck, returned}
use yorr.Pingpong.Match.{IsMatch}
use yorr.Pingpong.History.{Action, readies, swings, runs_out, run, HasLeft, IsMatch-from_initial}
use yorr.Pingpong.Reservations.{IsTimed}
use yorr.Pingpong.Calls.{
  Request, starts, fires, pauses, resumes, fresh_room, halts_after, serve_requests,
}
use yorr.Pingpong.Requests.{room-IsTimed}

-- Thousandths, cut off after the third place.
abbrev signed : Bool → ℕ → ℤ
signed negative zero = pos 0
signed true (suc n) = negsuc n
signed false (suc n) = pos (suc n)

abbrev is_negative : ℤ → Bool
is_negative (pos n) = false
is_negative (negsuc n) = true

abbrev size : ℤ → ℕ
size a = pos_part a + neg_part a

abbrev xor : Bool → Bool → Bool
xor true true = false
xor true false = true
xor false b = b

abbrev thousandths : Floats
thousandths = record {
  Float = ℤ;
  of_nat = λ n. pos (n * 1000);
  literal = λ n places. pos (n * 1000 / 10 ^ places);
  add = λ a b. a +ℤ b;
  sub = λ a b. a -ℤ b;
  mul = λ a b. signed (xor (is_negative a) (is_negative b)) (size a * size b / 1000);
  div = λ a b. signed (xor (is_negative a) (is_negative b)) (size a * 1000 / size b);
  lt = ltb_ℤ;
  le = leb_ℤ;
  abs = λ a. pos (size a);
  round = λ a. (pos_part a + 500) / 1000;
}

abbrev ann : String
ann = "ann"

abbrev ben : String
ben = "ben"

ann-ne-ben : ann ≢ ben
ann-ne-ben = ground (arith, eq_iff ann ben)

abbrev swing_of : String → ℕ → ℕ → Action thousandths
swing_of p seq now =
    swings (record { player_id = p; input_seq = pos seq; now = now; target_x = pos 500 })

-- Both practise and get ready, Ben serves to Ann, who returns the ball at its best moment, and Ben
-- misses it.
abbrev one_point : List (Action thousandths)
one_point =
    swing_of ann 0 10
    ∷ swing_of ben 0 20
    ∷ readies ann 30
    ∷ readies ben 40
    ∷ runs_out 2640 (pos 300)
    ∷ swing_of ann 1 3540
    ∷ runs_out 4050 (pos 0)
    ∷ []

abbrev match : List (Action thousandths) → State ℤ
match history = run thousandths (first_state thousandths (ann ∷ ben ∷ []) ann 0) history

one_point_phase : (match one_point).phase ≡ countdown
unfolding run first_state ready swing timeout_rule serve served_ball expire point struck returned
    ball_at fault_of insert
one_point_phase = refl

one_point_score : points (match one_point).scores ann ≡ 1
unfolding run first_state ready swing timeout_rule serve served_ball expire point struck returned
    ball_at fault_of insert
one_point_score = refl

IsMatch-from_initial_example :
    (s : State ℤ) × (initial thousandths (ann ∷ ben ∷ []) 0 ≡ ok s)
    × IsMatch thousandths ann ben (λ x. HasLeft x one_point) (run thousandths s (one_point))
IsMatch-from_initial_example = IsMatch-from_initial thousandths ann ben ann-ne-ben 0 one_point

-- The same point in a room of the service.
abbrev one_point_requests : List (Request thousandths)
one_point_requests =
    starts (some ann)
      (record { player_id = ann; is_human = true }
        ∷ record { player_id = ben; is_human = true }
        ∷ [])
      0
    ∷ Request.swings ann (pos 0) 10 10 (pos 500)
    ∷ Request.swings ben (pos 0) 20 20 (pos 500)
    ∷ Request.readies ann 30
    ∷ Request.readies ben 40
    ∷ pauses
    ∷ resumes
    ∷ fires 2640 (pos 300)
    ∷ Request.swings ann (pos 1) 3540 3540 (pos 500)
    ∷ fires 4050 (pos 0)
    ∷ []

room-IsTimed_example :
    IsTimed thousandths
      (halts_after thousandths false one_point_requests)
      (serve_requests thousandths (fresh_room thousandths false) one_point_requests)
room-IsTimed_example = room-IsTimed thousandths false one_point_requests
