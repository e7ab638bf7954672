-- ===== src/Davinci/Opening.antt =====
-- The state that davinciSetup.ts deals meets the invariants of the game.
use yorr.Prelude.{
  ℕ, ◌+◌, ◌≤◌, String, pos, leb_ℤ, ◌≡◌, refl, ◌⊎◌, true, some, List, [], ◌∷◌, arith, Dict, length,
  head?, ok, Result-cases, Bool-cases, inl, inr, eq_refl,
}
use yorr.Davinci.Types.{Tile, State, finished, is_finished, survivors}
use yorr.Davinci.Tiles.{compare_tiles}
use yorr.Davinci.Setup.{sort_insert, sort_tiles, deal_hands, deal, initial_state, shuffle_from}
use yorr.Davinci.Order.Insertion.{Below, IsSorted, le_tile, le_tile_total, le_tile_trans}
use yorr.Davinci.Order.{AllSorted, AllSorted-insert, IsOrdered, run-IsOrdered}
use yorr.Davinci.Turns.{InPlay, IsValid, run-IsValid}
use yorr.Davinci.Play.{Action, run}
use yorr.Davinci.Jokers.{HoldsJoker}

-- Every tile of the list, jokers included, comes after `t`.
abbrev FullBelow : Tile → List Tile → Type 0
FullBelow t [] = Unit {0}
FullBelow t (x ∷ xs) = (le_tile t x ≡ true) × FullBelow t xs

abbrev FullSorted : List Tile → Type 0
FullSorted [] = Unit {0}
FullSorted (x ∷ xs) = FullBelow x xs × FullSorted xs

FullBelow-trans :
    (s t : Tile) (xs : List Tile) → le_tile s t ≡ true → FullBelow t xs → FullBelow s xs
FullBelow-trans s t [] h b = tt
FullBelow-trans s t (x ∷ xs) h b = (le_tile_trans s t x h b.0, FullBelow-trans s t xs h b.1)

FullBelow-sort_insert :
    (s t : Tile) (xs : List Tile)
    → le_tile s t ≡ true
    → FullBelow s xs
    → FullBelow s (sort_insert t xs)
unfolding sort_insert
FullBelow-sort_insert s t [] h b = (h, tt)
FullBelow-sort_insert s t (x ∷ xs) h b =
    let rest = FullBelow-sort_insert s t xs h b.1 in
    elim (Bool-cases (leb_ℤ (compare_tiles t x) (pos 0))) [
      | inl e ↦ rw e (h, b)
      | inr e ↦ rw e (b.0, rest)
    ]

FullSorted-sort_insert : (t : Tile) (xs : List Tile) → FullSorted xs → FullSorted (sort_insert t xs)
unfolding sort_insert
FullSorted-sort_insert t [] s = (tt, tt)
FullSorted-sort_insert t (x ∷ xs) s =
    let rest = FullSorted-sort_insert t xs s.1 in
    elim (Bool-cases (leb_ℤ (compare_tiles t x) (pos 0))) [
      | inl e ↦
          let le : le_tile t x ≡ true = unfold le_tile in e in
          rw e ((le, FullBelow-trans t x xs le s.0), s)
      | inr e ↦
          rw e (FullBelow-sort_insert x t xs (le_tile_total t x (unfold le_tile in e)) s.0, rest)
    ]

FullSorted-sort_tiles : (xs : List Tile) → FullSorted (sort_tiles xs)
unfolding sort_tiles
FullSorted-sort_tiles [] = tt
FullSorted-sort_tiles (t ∷ ts) = FullSorted-sort_insert t _ (FullSorted-sort_tiles ts)

Below-of_FullBelow : (t : Tile) (xs : List Tile) → FullBelow t xs → Below t xs
Below-of_FullBelow t [] b = tt
Below-of_FullBelow t (x ∷ xs) b = ((λ _. b.0), Below-of_FullBelow t xs b.1)

IsSorted-of_FullSorted : (xs : List Tile) → FullSorted xs → IsSorted xs
IsSorted-of_FullSorted [] s = tt
IsSorted-of_FullSorted (x ∷ xs) s =
    ((λ _. Below-of_FullBelow x xs s.0), IsSorted-of_FullSorted xs s.1)

AllSorted-deal_hands :
    (dealt : List Tile) (size seat : ℕ) (players : List String) (hands : Dict (List Tile))
    → AllSorted hands
    → AllSorted (deal_hands dealt size seat players hands)
unfolding deal_hands
AllSorted-deal_hands dealt size seat [] hands h = h
AllSorted-deal_hands dealt size seat (p ∷ rest) hands h =
    AllSorted-deal_hands dealt size (seat + 1) rest _
      (AllSorted-insert p _ hands (IsSorted-of_FullSorted _ (FullSorted-sort_tiles _)) h)

pub deal-IsOrdered :
    (players : List String) (first : String) (shuffled : List Tile) (now : ℕ)
    → IsOrdered (deal players first shuffled now)
unfolding deal
deal-IsOrdered players first shuffled now = record {
  hands = AllSorted-deal_hands _ _ 0 players [] tt;
  waiting = λ t p d. cc;
}

survivors-nil : (players : List String) → survivors players [] ≡ players
survivors-nil [] = refl
survivors-nil (p ∷ ps) = rw (survivors-nil ps)

deal-IsValid :
    (players : List String) (first : String) (shuffled : List Tile) (now : ℕ)
    → 2 ≤ length players
    → head? players ≡ some first
    → IsValid (deal players first shuffled now)
unfolding deal
deal-IsValid (p ∷ ps) first shuffled now two e running = record {
  two = rw (survivors-nil ps) two;
  turn = rw (survivors-nil ps) (ground (arith, eq_refl first));
}
deal-IsValid [] first shuffled now two e running = cc

deal-HoldsJoker :
    (players : List String) (first : String) (shuffled : List Tile) (now : ℕ)
    → HoldsJoker (deal players first shuffled now)
unfolding deal
deal-HoldsJoker players first shuffled now = λ p. cc

-- What starting a game gives: a dealt state, for two players at least.
pub initial_state_deals :
    (players : List String) (order : List ℕ) (now : ℕ) (s : State)
    → initial_state players order now ≡ ok s
    → (first : String) × (shuffled : List Tile) × (s ≡ deal players first shuffled now)
      × (2 ≤ length players)
      × (head? players ≡ some first)
unfolding initial_state
initial_state_deals [] order now s h = cc
initial_state_deals (p ∷ ps) order now s h = elim (Result-cases (shuffle_from 0 order)) [
  | inl (shuffled, e) ↦ (p, shuffled, ground (arith, e), ground arith, refl)
  | inr (code, e) ↦ absurd (ground (arith, e))
]

in_play : (t : State) → IsValid t → (t.phase ≡ finished) ⊎ InPlay t
in_play t v = elim (Bool-cases (is_finished t.phase)) [
  | inl e ↦ inl (ground arith)
  | inr e ↦ inr (v (λ f. ground arith))
]

-- Every game that starts, with two to four different players and any shuffle of the deck, meets the
-- invariants: at least two players are left and one of them has the turn, every hand is in order, and
-- who has to place a tile holds one.
pub initial_state_starts :
    (players : List String) (order : List ℕ) (now : ℕ) (s : State)
    → initial_state players order now ≡ ok s
    → IsValid s × IsOrdered s × HoldsJoker s
initial_state_starts players order now s h =
    let (first, shuffled, e, two, head) = initial_state_deals players order now s h in
    rw e (
      deal-IsValid players first shuffled now two head,
      deal-IsOrdered players first shuffled now,
      deal-HoldsJoker players first shuffled now,
    )

-- In a game that starts, with two to four different players and any shuffle of the deck, and after any
-- inputs, deadlines and departures: the game is over, or at least two players are left and one of
-- them has the turn.
pub game-InPlay :
    (players : List String) (order : List ℕ) (now : ℕ) (s : State) (history : List Action)
    → initial_state players order now ≡ ok s
    → ((run s history).phase ≡ finished) ⊎ InPlay (run s history)
game-InPlay players order now s history h =
    in_play (run s history) (run-IsValid s history (initial_state_starts players order now s h).0)

-- In such a game every hand rises from left to right, black before white, when its jokers are left out.
pub game_in_order :
    (players : List String) (order : List ℕ) (now : ℕ) (s : State) (history : List Action)
    → initial_state players order now ≡ ok s
    → AllSorted (run s history).hands
game_in_order players order now s history h =
    let (valid, ordered, joker) = initial_state_starts players order now s h in
    (run-IsOrdered s history ordered).hands
