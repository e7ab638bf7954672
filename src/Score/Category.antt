-- ===== src/Score/Category.antt =====
-- scoreCategory.ts: the twelve categories, and which dice satisfy which. A die is a natural number: a
-- wire value that is negative or no integer is read as 0, which the same tests refuse.
use yorr.Prelude.{
  ℕ, zero, suc, ◌+◌, String, Bool, true, false, ◌&&◌, ◌||◌, Option, none, some, List, [], ◌∷◌,
  length, find, every, keep, eqb, leb, str_eq, if◌then◌else◌, Result, ok, err, ◌>>=◌, ◌>>◌, require,
}

pub data Category : Type 0 where
  ones twos threes fours fives sixes choice four_of_a_kind full_house small_straight large_straight
        yacht :
      Category

-- `SCORE_CATEGORIES`, whose order is that of the score board.
abbrev pub score_categories : List Category
score_categories =
    ones ∷ twos ∷ threes ∷ fours ∷ fives ∷ sixes ∷ choice ∷ four_of_a_kind ∷ full_house
    ∷ small_straight ∷ large_straight ∷ yacht ∷ []

-- The key of a category, on the wire and in the store.
unfoldable pub api_key : Category → String
api_key ones = "ones"
api_key twos = "twos"
api_key threes = "threes"
api_key fours = "fours"
api_key fives = "fives"
api_key sixes = "sixes"
api_key choice = "choice"
api_key four_of_a_kind = "fourOfAKind"
api_key full_house = "fullHouse"
api_key small_straight = "smallStraight"
api_key large_straight = "largeStraight"
api_key yacht = "yacht"

-- `scoreCategoryOf`
unfoldable pub category_of : String → Result Category
category_of key = elim (find (λ c. str_eq (api_key c) key) score_categories) [
  | none ↦ err "unknown_category"
  | some c ↦ ok c
]

-- `UPPER_FACE`: the face that an upper category counts; the others are no upper category.
unfoldable pub upper_face : Category → Option ℕ
upper_face ones = some 1
upper_face twos = some 2
upper_face threes = some 3
upper_face fours = some 4
upper_face fives = some 5
upper_face sixes = some 6
upper_face _ = none

unfoldable pub is_upper_category : Category → Bool
unfolding upper_face
is_upper_category c = elim (upper_face c) [ none ↦ false | some n ↦ true ]

abbrev pub dice_count : ℕ
dice_count = 5

unfoldable pub is_face : ℕ → Bool
is_face die = leb 1 die && leb die 6

unfoldable pub validate_dice : List ℕ → Result (Unit {0})
unfolding is_face
validate_dice dice =
    require (eqb (length dice) dice_count) "dice_count" >> require (every is_face dice) "dice_face"

-- One more of a face in the table of counts.
unfoldable pub tally : ℕ → List (ℕ × ℕ) → List (ℕ × ℕ)
tally die [] = (die, 1) ∷ []
tally die ((face, n) ∷ rest) =
    let more = tally die rest in if eqb face die then (face, suc n) ∷ rest else (face, n) ∷ more

-- `counts`: the faces in the order of their first showing, each with the number of dice that show it.
unfoldable pub counts_from : List (ℕ × ℕ) → List ℕ → List (ℕ × ℕ)
unfolding tally
counts_from table [] = table
counts_from table (die ∷ dice) = counts_from (tally die table) dice

unfoldable pub counts : List ℕ → List (ℕ × ℕ)
unfolding counts_from
counts dice = counts_from [] dice

-- `values().some(...)` on a table of counts
unfoldable pub some_count : (ℕ → Bool) → List (ℕ × ℕ) → Bool
some_count test [] = false
some_count test ((face, n) ∷ rest) = test n || some_count test rest

-- `dice.includes(face)`
unfoldable pub contains_face : List ℕ → ℕ → Bool
contains_face [] face = false
contains_face (die ∷ dice) face = eqb die face || contains_face dice face

unfoldable pub is_four_of_a_kind : List ℕ → Bool
unfolding counts some_count
is_four_of_a_kind dice = some_count (λ n. leb 4 n) (counts dice)

unfoldable pub is_full_house : List ℕ → Bool
unfolding counts some_count
is_full_house dice =
    eqb (length (counts dice)) 2
    && some_count (λ n. eqb n 2) (counts dice)
    && some_count (λ n. eqb n 3) (counts dice)

-- The loop of `hasRun` over the `left` faces from `face` on.
unfoldable pub run_from : ℕ → ℕ → ℕ → List ℕ → ℕ → Bool
run_from zero face run dice wanted = false
run_from (suc left) face run dice wanted =
    let longer = if contains_face dice face then run + 1 else 0 in
    let rest = run_from left (face + 1) longer dice wanted in
    if leb wanted longer then true else rest

unfoldable pub has_run : List ℕ → ℕ → Bool
unfolding run_from
has_run dice wanted = run_from 6 1 0 dice wanted

-- The `switch` of `isSatisfiedBy`.
unfoldable pub satisfied : Category → List ℕ → Bool
unfolding counts
satisfied ones dice = contains_face dice 1
satisfied twos dice = contains_face dice 2
satisfied threes dice = contains_face dice 3
satisfied fours dice = contains_face dice 4
satisfied fives dice = contains_face dice 5
satisfied sixes dice = contains_face dice 6
satisfied choice dice = true
satisfied four_of_a_kind dice = is_four_of_a_kind dice
satisfied full_house dice = is_full_house dice
satisfied small_straight dice = has_run dice 4
satisfied large_straight dice = has_run dice 5
satisfied yacht dice = eqb (length (counts dice)) 1

unfoldable pub is_satisfied_by : Category → List ℕ → Result Bool
is_satisfied_by category dice = do valid ← validate_dice dice; ok (satisfied category dice)

unfoldable pub sum : List ℕ → ℕ
sum [] = 0
sum (n ∷ rest) = n + sum rest

unfoldable pub upper_face_sum : ℕ → List ℕ → ℕ
unfolding sum
upper_face_sum face dice = sum (keep (λ die. eqb die face) dice)
