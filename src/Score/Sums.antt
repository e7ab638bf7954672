-- ===== src/Score/Sums.antt =====
-- That the script CONFIRM_SCORE of scripts.ts keeps the sums of the score board.
use yorr.Prelude.{
  ℕ, suc, ◌+◌, ◌≡◌, refl, sym, ap, ◌∙◌, String, none, some, List, [], ◌∷◌, Dict, insert, lookup,
  lookup-insert, lookup_or-insert, str_eq, if◌then◌else◌, decimal, number, number-decimal, arith,
  eq_iff, Bool-cases, inl, inr, Option-cases,
}
use yorr.Score.Category.{
  Category, api_key, is_upper_category, upper_face, score_categories, ones, twos, threes, fours,
  fives, sixes, choice, four_of_a_kind, full_house, small_straight, large_straight, yacht,
}
use yorr.Score.Calculator.{upper_categories}
use yorr.Score.Confirm.{
  Store, Request, hexists, confirm_guard, field, next_subtotal, bonus_of, next_total, next_board,
  confirm, request, upper_subtotal_field, upper_bonus_field, total_field,
}

-- The recorded scores under so many keys, an empty box counting 0.
unfoldable pub recorded : List Category → Dict String → ℕ
recorded [] board = 0
recorded (c ∷ rest) board =
    elim (lookup (api_key c) board) [ none ↦ 0 | some t ↦ number t ] + recorded rest board

times : String → List Category → ℕ
times k [] = 0
times k (c ∷ rest) = let n = times k rest in if str_eq k (api_key c) then suc n else n

recorded_other :
    (cs : List Category) (k v : String) (board : Dict String)
    → times k cs ≡ 0
    → recorded cs (insert k v board) ≡ recorded cs board
unfolding recorded times
recorded_other [] k v board h = refl
recorded_other (c ∷ rest) k v board h =
    ground (arith, recorded_other rest k v board, lookup-insert k (api_key c) v board)

recorded_new :
    (cs : List Category) (k v : String) (board : Dict String)
    → lookup k board ≡ none
    → times k cs ≡ 1
    → recorded cs (insert k v board) ≡ recorded cs board + number v
unfolding recorded times
recorded_new [] k v board fresh h = ground arith
recorded_new (c ∷ rest) k v board fresh h = elim (Bool-cases (str_eq k (api_key c))) [
  | inl e ↦
      let same : k ≡ api_key c = (eq_iff k (api_key c)).0 e in
      let empty : lookup (api_key c) board ≡ none = rw (← same) fresh in
      ground (arith, recorded_other rest k v board, lookup-insert k (api_key c) v board)
  | inr e ↦ ground (arith, recorded_new rest k v board fresh, lookup-insert k (api_key c) v board)
]

-- The sums that stand in a score board: the upper boxes, the bonus for 63 or more of them, and all boxes
-- with the bonus.
pub record IsSummed (board : Dict String) : Type 0 where
  pub subtotal : field board upper_subtotal_field ≡ recorded upper_categories board
  pub bonus : field board upper_bonus_field ≡ bonus_of (recorded upper_categories board)
  pub total :
      field board total_field
      ≡ recorded score_categories board + bonus_of (recorded upper_categories board)

times_all : (c : Category) → times (api_key c) score_categories ≡ 1
unfolding times api_key
times_all ones = refl
times_all twos = refl
times_all threes = refl
times_all fours = refl
times_all fives = refl
times_all sixes = refl
times_all choice = refl
times_all four_of_a_kind = refl
times_all full_house = refl
times_all small_straight = refl
times_all large_straight = refl
times_all yacht = refl

times_upper :
    (c : Category) → times (api_key c) upper_categories ≡ (if is_upper_category c then 1 else 0)
unfolding times api_key is_upper_category upper_face
times_upper ones = refl
times_upper twos = refl
times_upper threes = refl
times_upper fours = refl
times_upper fives = refl
times_upper sixes = refl
times_upper choice = refl
times_upper four_of_a_kind = refl
times_upper full_house = refl
times_upper small_straight = refl
times_upper large_straight = refl
times_upper yacht = refl

field-insert :
    (k j v : String) (board : Dict String)
    → field (insert k v board) j ≡ (if str_eq k j then number v else field board j)
unfolding field
field-insert k j v board = ground (arith, lookup_or-insert k j v "0" board)

module _ (board : Dict String) (i : Request) where
  next_board-fields :
      (field (next_board board i) upper_subtotal_field ≡ next_subtotal board i)
      × (field (next_board board i) upper_bonus_field ≡ bonus_of (next_subtotal board i))
      × (field (next_board board i) total_field ≡ next_total board i)
  unfolding next_board
  next_board-fields =
      let sub = decimal (next_subtotal board i) in
      let bonus = decimal (bonus_of (next_subtotal board i)) in
      let total = decimal (next_total board i) in
      let b1 = insert i.category i.score board in
      let b2 = insert upper_subtotal_field sub b1 in
      let b3 = insert upper_bonus_field bonus b2 in
      (
        field-insert total_field upper_subtotal_field total b3
            ∙ field-insert upper_bonus_field upper_subtotal_field bonus b2
            ∙ field-insert upper_subtotal_field upper_subtotal_field sub b1
            ∙ number-decimal _,
        field-insert total_field upper_bonus_field total b3
            ∙ field-insert upper_bonus_field upper_bonus_field bonus b2
            ∙ number-decimal _,
        field-insert total_field total_field total b3 ∙ number-decimal _,
      )

  recorded-next_board :
      (cs : List Category)
      → times total_field cs ≡ 0
      → times upper_bonus_field cs ≡ 0
      → times upper_subtotal_field cs ≡ 0
      → recorded cs (next_board board i) ≡ recorded cs (insert i.category i.score board)
  unfolding next_board
  recorded-next_board cs t b s =
      recorded_other cs total_field _ _ t
      ∙ recorded_other cs upper_bonus_field _ _ b
      ∙ recorded_other cs upper_subtotal_field _ _ s

module _ (board : Dict String) (room_code game_id player_id signature : String)
    (round_number score : ℕ) (c : Category) where
  asked : Request
  asked = request room_code game_id player_id round_number c score signature

  recorded_upper :
      lookup (api_key c) board ≡ none
      → recorded upper_categories (insert (api_key c) (decimal score) board)
        ≡ recorded upper_categories board + (if is_upper_category c then score else 0)
  recorded_upper fresh = elim (Bool-cases (is_upper_category c)) [
    | inl e ↦ rw e (
        recorded_new upper_categories (api_key c) (decimal score) board fresh
          (times_upper c ∙ rw e refl)
        ∙ ap (λ n. recorded upper_categories board + n) (number-decimal score))
    | inr e ↦ rw e (
        recorded_other upper_categories (api_key c) (decimal score) board
          (times_upper c ∙ rw e refl)
        ∙ omega arith)
  ]

  next_subtotal_lem :
      IsSummed board
      → next_subtotal board asked
        ≡ recorded upper_categories board + (if is_upper_category c then score else 0)
  unfolding asked request next_subtotal
  next_subtotal_lem h = elim (Bool-cases (is_upper_category c)) [
    | inl e ↦ rw (e, h.subtotal, number-decimal score) refl
    | inr e ↦ rw (e, h.subtotal) refl
  ]

  next_total_lem :
      IsSummed board
      → next_total board asked
        ≡ recorded score_categories board + score + bonus_of (next_subtotal board asked)
  unfolding asked request next_total
  next_total_lem h = ground (arith, number-decimal score, h.total, h.bonus)

  next_board-IsSummed :
      IsSummed board → lookup (api_key c) board ≡ none → IsSummed (next_board board asked)
  unfolding times api_key asked request
  next_board-IsSummed h fresh =
      let (sub, bonus, total) = next_board-fields board asked in
      let upper : recorded upper_categories (next_board board asked) ≡ next_subtotal board asked =
        recorded-next_board board asked upper_categories refl refl refl
        ∙ recorded_upper fresh
        ∙ sym (next_subtotal_lem h) in
      let all : recorded score_categories (next_board board asked)
          ≡ recorded score_categories board + score =
        recorded-next_board board asked score_categories refl refl refl
        ∙ recorded_new score_categories (api_key c) (decimal score) board fresh (times_all c)
        ∙ ap (λ n. recorded score_categories board + n) (number-decimal score) in
      record {
        subtotal = sub ∙ sym upper;
        bonus = bonus ∙ ap bonus_of (sym upper);
        total = rw (upper, all) (total ∙ next_total_lem h);
      }

guard_fresh :
    (s : Store) (i : Request)
    → confirm_guard s i ≡ none
    → (lookup i.category s.scoreboard ≡ none) × (lookup i.round_number s.submissions ≡ none)
unfolding confirm_guard hexists
guard_fresh s i e = (ground arith, ground arith)

-- Whatever the script answers, a score board whose sums are right keeps them right: a score is added to
-- the total once, to the upper sum if its box is an upper one, and the bonus is in the total once, from
-- the call on that brings the upper sum to 63.
pub confirm-IsSummed :
    (s : Store) (room_code game_id player_id signature : String) (round_number score : ℕ)
    (c : Category)
    → IsSummed s.scoreboard
    → IsSummed
        (confirm s
          (request room_code game_id player_id round_number c score signature)).1.scoreboard
unfolding confirm request asked
confirm-IsSummed s room_code game_id player_id signature round_number score c h =
    elim (Option-cases (confirm_guard s i)) [
      | inr (code, e) ↦ rw (e, confirm) h
      | inl e ↦
          rw (e, confirm)
            (next_board-IsSummed s.scoreboard room_code game_id player_id signature round_number
              score c h (guard_fresh s i e).0)
    ]
  where
    i : Request
    i = request room_code game_id player_id round_number c score signature
