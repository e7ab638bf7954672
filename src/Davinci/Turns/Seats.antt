-- ===== src/Davinci/Turns/Seats.antt =====
-- The round of seats that `advance` of davinciTurnFlow.ts walks.
use native.Mathlib.Nat.{mod-eq_of_lt, add-mod_right}
use yorr.Prelude.{
  ℕ, zero, suc, ◌+◌, ◌-◌, ◌%◌, ◌≤◌, ◌<◌, String, ℤ, pos, negsuc, pos_part, ◌+ℤ◌, ◌≡◌, refl, ap, ◌∙◌,
  leb, ◌⊎◌, inl, inr, true, not, ◌&&◌, some, List, [], ◌∷◌, arith, length, get_elem?, includes,
  str_eq, eq_iff, Bool-cases, Option-cases,
}
use yorr.Davinci.Types.{survivors, State}
use yorr.Davinci.TurnFlow.{index_from, next_seat, next_player}

pub includes-survivors :
    (order out : List String) (p : String)
    → includes (survivors order out) p ≡ (includes order p && not (includes out p))
includes-survivors [] out p = refl
includes-survivors (x ∷ xs) out p = ground (arith, includes-survivors xs out p, eq_iff x p)

-- A member of a list stands at some index.
position :
    (xs : List String) (p : String)
    → includes xs p ≡ true
    → (j : ℕ) × (j < length xs) × (get_elem? xs j ≡ some p)
position [] p h = cc
position (x ∷ xs) p h = elim (Bool-cases (str_eq x p)) [
  | inl e ↦ (0, omega arith, ground (arith, eq_iff x p))
  | inr e ↦ let (j, lt, at) = position xs p (rw e at h) in (suc j, omega (arith, lt), at)
]

index_from_range :
    (i : ℕ) (xs : List String) (p : String)
    → (index_from i xs p ≡ negsuc 0) ⊎ ((j : ℕ) × (index_from i xs p ≡ pos j) × (j < i + length xs))
unfolding index_from
index_from_range i [] p = inl refl
index_from_range i (x ∷ xs) p = elim (Bool-cases (str_eq x p)) [
  | inl e ↦ rw e (inr (i, refl, omega arith))
  | inr e ↦ rw e (elim (index_from_range (i + 1) xs p) [
    | inl m ↦ inl m
    | inr (j, m, lt) ↦ inr (j, m, omega (arith, lt))
  ])
]

-- If a survivor sits on a seat that the loop still visits, the loop finds one.
next_seat_alive :
    (left step : ℕ) (seat : ℤ) (order alive : List String) (current : String) (k t : ℕ) (c : String)
    → k < left
    → step + k ≡ t
    → get_elem? order (pos_part (seat +ℤ pos t) % length order) ≡ some c
    → includes alive c ≡ true
    → includes alive (next_seat left step seat order alive current) ≡ true
unfolding next_seat
next_seat_alive zero step seat order alive current k t c h st e a = absurd (omega arith)
next_seat_alive (suc left) step seat order alive current zero t c h st e a =
    let now : t ≡ step = omega arith in
    let here : get_elem? order (pos_part (seat +ℤ pos step) % length order) ≡ some c =
      rw now at e in
    rw (here, next_seat) (rw a a)
next_seat_alive (suc left) step seat order alive current (suc k) t c h st e a =
    let later =
      next_seat_alive left (step + 1) seat order alive current k t c (omega arith) (omega arith) e
        a in
    elim (Option-cases (get_elem? order (pos_part (seat +ℤ pos step) % length order))) [
      | inl n ↦ rw (n, next_seat) later
      | inr (d, n) ↦
          rw (n, next_seat)
            (elim (Bool-cases (includes alive d)) [ inl y ↦ rw y y | inr y ↦ rw y later ])
    ]

-- From any seat, or from none, every index is met within one round.
meets : (base j n : ℕ) → base ≤ n → j < n → (k : ℕ) × (k < n) × ((base + k) % n ≡ j)
meets base j n b h = elim (Bool-cases (leb base j)) [
  | inl le ↦ (j - base, ground arith, (ap (λ (x : ℕ). x % n) (ground arith) ∙ mod-eq_of_lt h))
  | inr gt ↦ (
    j + n - base,
    ground arith,
    (ap (λ (x : ℕ). x % n) (ground arith) ∙ (add-mod_right j n ∙ mod-eq_of_lt h)),
  )
]

-- A step on from a seat, which is -1 for a player without one.
from_seat :
    (seat : ℤ) (n : ℕ)
    → ((seat ≡ negsuc 0) ⊎ ((j : ℕ) × (seat ≡ pos j) × (j < 0 + n)))
    → (base : ℕ) × (base ≤ n) × ((i : ℕ) → pos_part (seat +ℤ pos (1 + i)) ≡ base + i)
from_seat seat n (inl e) = (0, omega arith, λ i. rw e (ground arith))
from_seat seat n (inr (j, e, lt)) = (j + 1, omega arith, λ i. rw e (ground arith))

pub next_player_alive :
    (s : State) (alive : List String) (c : String)
    → includes s.player_order c ≡ true
    → includes alive c ≡ true
    → includes alive (next_player s alive) ≡ true
unfolding next_player
next_player_alive s alive c sits a =
    let n = length s.player_order in
    let seat = index_from 0 s.player_order s.turn_player_id in
    let (j, lt, e) = position s.player_order c sits in
    let (base, within, steps) =
      from_seat seat n (index_from_range 0 s.player_order s.turn_player_id) in
    let (k, few, met) = meets base j n within lt in
    next_seat_alive n 1 seat s.player_order alive s.turn_player_id k (1 + k) c few refl
      (rw (steps k, met) e) a
