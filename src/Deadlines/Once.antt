-- ===== src/Deadlines/Once.antt =====
-- Whatever the executor does, a task runs at most once, and only while it is the last that was handed over
-- for its room and has not been cancelled.
use yorr.Prelude.{
  ℕ, ◌+◌, ◌≤◌, String, ◌≡◌, ◌≢◌, ◌⊎◌, refl, sym, ap, ◌∙◌, inl, inr, Bool, true, false, not, ◌||◌,
  Option, none, some, List, [], ◌∷◌, every, str_eq, str_eq→eq, eq_iff, eqb, leb, if◌then◌else◌,
  arith, Bool-cases,
}
use yorr.Deadlines.Scheduler.{Task}

-- A task of this generation is among these.
abbrev pub has_generation : ℕ → List Task → Bool
has_generation g [] = false
has_generation g (t ∷ rest) = eqb t.generation g || has_generation g rest

abbrev pub Once : List Task → Type 0
Once [] = Unit {0}
Once (t ∷ rest) = (has_generation t.generation rest ≡ false) × Once rest

-- None of these tasks is a later one of the room than this generation.
abbrev pub is_newest : String → ℕ → List Task → Bool
is_newest r g tasks = every (λ t. not (str_eq t.room_id r) || leb t.generation g) tasks

abbrev pub are_bounded : ℕ → List Task → Bool
are_bounded g tasks = every (λ t. leb t.generation g) tasks

-- `slots` gives the generation that each room waits for.
pub record IsOrderly (slots : String → Option ℕ) (generations : ℕ) (given ran : List Task)
    : Type 0 where
  -- No reservation has run twice,
  pub once : Once ran
  -- and the one that a room waits for has not run;
  pub waiting : (r : String) (g : ℕ) → slots r ≡ some g → has_generation g ran ≡ false
  -- it is the last one that the executor was handed for the room,
  pub newest : (r : String) (g : ℕ) → slots r ≡ some g → is_newest r g given ≡ true
  -- and it is no other room's.
  pub apart : (r q : String) (g : ℕ) → slots r ≡ some g → slots q ≡ some g → r ≡ q
  pub slots_bounded : (r : String) (g : ℕ) → slots r ≡ some g → g ≤ generations
  pub ran_bounded : (g : ℕ) → has_generation g ran ≡ true → g ≤ generations
  pub given_bounded : are_bounded generations given ≡ true

every_newer :
    (r : String) (g : ℕ) (tasks : List Task)
    → are_bounded g tasks ≡ true
    → (are_bounded (g + 1) tasks ≡ true) × (is_newest r (g + 1) tasks ≡ true)
every_newer r g [] h = (refl, refl)
every_newer r g (t ∷ rest) h =
    let (bounded, newest) = every_newer r g rest (ground arith) in (ground arith, ground arith)

module _ {slots later : String → Option ℕ} {generations : ℕ} {given ran : List Task}
    (v : IsOrderly slots generations given ran) where
  -- No slot is new.
  pub fewer :
      ((j : String) (g : ℕ) → later j ≡ some g → slots j ≡ some g)
      → IsOrderly later generations given ran
  fewer sub = record {
    once = v.once;
    waiting = λ r g e. v.waiting r g (sub r g e);
    newest = λ r g e. v.newest r g (sub r g e);
    apart = λ r q g e f. v.apart r q g (sub r g e) (sub q g f);
    slots_bounded = λ r g e. v.slots_bounded r g (sub r g e);
    ran_bounded = v.ran_bounded;
    given_bounded = v.given_bounded;
  }

  -- A room waits for a new task.
  pub reserved :
      (t : Task)
      → t.generation ≡ generations + 1
      → ((j : String) → later j ≡ (if str_eq t.room_id j then some t.generation else slots j))
      → IsOrderly later (generations + 1) (t ∷ given) ran
  reserved t new step = record {
    once = v.once;
    waiting = λ r g e. elim (found r g e) [
      | inl (here, last) ↦
          rw last (unran (has_generation (generations + 1) ran) (v.ran_bounded (generations + 1)))
      | inr (there, old) ↦ v.waiting r g old
    ];
    newest = λ r g e. elim (found r g e) [
      | inl (here, last) ↦
          ground (arith, last, new, every_newer r generations given v.given_bounded)
      | inr (there, old) ↦ ground (arith, there, v.newest r g old)
    ];
    apart = λ r q g e f. elim (found r g e) [
      | inl (here, last) ↦ elim (found q g f) [
        | inl (here', last') ↦ sym (str_eq→eq t.room_id r here) ∙ str_eq→eq t.room_id q here'
        | inr (there, old) ↦ absurd (omega (arith, v.slots_bounded q g old, last))
      ]
      | inr (there, old) ↦ elim (found q g f) [
        | inl (here, last) ↦ absurd (omega (arith, v.slots_bounded r g old, last))
        | inr (there', old') ↦ v.apart r q g old old'
      ]
    ];
    slots_bounded = λ r g e. elim (found r g e) [
      | inl (here, last) ↦ omega (arith, last)
      | inr (there, old) ↦ omega (arith, v.slots_bounded r g old)
    ];
    ran_bounded = λ g h. omega (arith, v.ran_bounded g h);
    given_bounded =
        ground (arith, new, (every_newer t.room_id generations given v.given_bounded).0);
  }
    where
      unran : (b : Bool) → (b ≡ true → generations + 1 ≤ generations) → b ≡ false
      unran false h = refl
      unran true h = absurd (omega (arith, h refl))

      found :
          (r : String) (g : ℕ)
          → later r ≡ some g
          → ((str_eq t.room_id r ≡ true) × (g ≡ generations + 1))
            ⊎ ((str_eq t.room_id r ≡ false) × (slots r ≡ some g))
      found r g e = elim (Bool-cases (str_eq t.room_id r)) [
        | inl here ↦ inl (here, ground (arith, here, step r, new))
        | inr there ↦ inr (there, ground (arith, there, step r))
      ]

  -- The task that its room waits for runs.
  pub runs :
      (t : Task)
      → slots t.room_id ≡ some t.generation
      → ((j : String) → later j ≡ (if str_eq t.room_id j then none else slots j))
      → IsOrderly later generations given (t ∷ ran)
  runs t current step = record {
    once = (v.waiting t.room_id t.generation current, v.once);
    waiting = λ r g e. elim (Bool-cases (eqb t.generation g)) [
      | inr other ↦ ground (arith, other, v.waiting r g (kept r g e))
      | inl same ↦ absurd (gone r g e (alone r g e (ground (arith, same))))
    ];
    newest = λ r g e. v.newest r g (kept r g e);
    apart = λ r q g e f. v.apart r q g (kept r g e) (kept q g f);
    slots_bounded = λ r g e. v.slots_bounded r g (kept r g e);
    ran_bounded = λ g h. elim (Bool-cases (eqb t.generation g)) [
      | inr other ↦ v.ran_bounded g (ground arith)
      | inl same ↦ ground (arith, same, v.slots_bounded t.room_id t.generation current)
    ];
    given_bounded = v.given_bounded;
  }
    where
      kept : (j : String) (g : ℕ) → later j ≡ some g → slots j ≡ some g
      kept j g e = ground (arith, step j)

      alone : (r : String) (g : ℕ) → later r ≡ some g → t.generation ≡ g → t.room_id ≡ r
      alone r g e same = v.apart t.room_id r g (current ∙ ap some same) (kept r g e)

      gone : (r : String) (g : ℕ) → later r ≡ some g → t.room_id ≢ r
      gone r g e here = ground (arith, step r, eq_iff t.room_id r)
