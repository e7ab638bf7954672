-- ===== src/Pingpong/Match.antt =====
-- A match of ping pong between two different players, under everything that may happen to it.
use yorr.Prelude.{
  ℕ, zero, suc, ◌+◌, ◌%◌, ◌≤◌, ◌<◌, String, ◌≡◌, refl, sym, ◌∙◌, ◌≢◌, ◌⊎◌, inl, inr, Bool, true,
  false, none, some, [], ◌∷◌, arith, Dict, insert, lookup_or-insert, eq_refl, str_eq, eqb, ltb,
  includes, every, ◌++◌, if◌then◌else◌, Bool-cases, ne→str_eq,
}
use mathlib.Core.Path.{subst, ap}
use yorr.Pingpong.Types.{
  Floats, Phase, preparing, countdown, playing, finished, EventType, Ball, Event, State,
  is_preparing, is_playing, is_countdown, name_of, player_at, points,
}
use yorr.Pingpong.Court.{duration, miss_deadline, flight_deadline}
use yorr.Pingpong.Scoring.{service_turn, serve_receiver, other_seat, has_won, point}
use yorr.Pingpong.Rules.{fill, first_state, cannot_ready, ready}

-- Neither player has won yet.
abbrev pub Undecided : ℕ → ℕ → Type 0
Undecided a b = ((a < 11) ⊎ (a < b + 2)) × ((b < 11) ⊎ (b < a + 2))

-- The first player has won with the last point: by 11 to at most 9, or by two from 10 to 10 on.
abbrev pub WonBy : ℕ → ℕ → Type 0
WonBy a b = ((a ≡ 11) × (b ≤ 9)) ⊎ ((a ≡ b + 2) × (10 ≤ b))

-- The receiver by the rule of table tennis: two serves each, and one each from 10 to 10 on.
abbrev pub first_receives : ℕ → Bool
first_receives total = if ltb total 20 then ltb (total % 4) 2 else eqb (total % 2) 0

module _ (F : Floats) where
  open F use {Float}

  -- One of the two left, and the last event names the other, who was given 11 points. `Left` holds of
  -- those who have left.
  pub record WasForfeited (p q : String) (Left : String → Type 0) (s : State Float) : Type 0 where
    pub event : Event
    pub leaver : String
    pub last : s.last_event ≡ some event
    pub told : event.type ≡ EventType.opponent_left
    pub gone : Left leaver
    pub sides : ((leaver ≡ p) × (event.player_id ≡ q)) ⊎ ((leaver ≡ q) × (event.player_id ≡ p))
    pub awarded : points s.scores event.player_id ≡ 11

  -- What every state of a match of `p` and `q` fulfils, phase by phase.
  abbrev pub Standing : String → String → (String → Type 0) → State Float → Phase → Type 0
  Standing p q Left s preparing =
      (points s.scores p ≡ 0)
      × (points s.scores q ≡ 0)
      × (s.next_action_at ≡ 0)
      × (s.serve_receiver_id ≡ some p)
  Standing p q Left s countdown =
      Undecided (points s.scores p) (points s.scores q)
      × (0 < s.next_action_at)
      × (s.serve_receiver_id
          ≡ some (if first_receives (points s.scores p + points s.scores q) then p else q))
  Standing p q Left s playing =
      Undecided (points s.scores p) (points s.scores q) × (0 < s.next_action_at)
  Standing p q Left s finished =
      (s.next_action_at ≡ 0)
      × (s.serve_receiver_id ≡ none)
      × ((WonBy (points s.scores p) (points s.scores q)
            ⊎ WonBy (points s.scores q) (points s.scores p))
          ⊎ WasForfeited p q Left s)

  pub record IsMatch (p q : String) (Left : String → Type 0) (s : State Float) : Type 0 where
    pub order : s.player_order ≡ p ∷ q ∷ []
    pub standing : Standing p q Left s s.phase

  duration_pos : (from to speed : Float) → 0 < duration F from to speed
  unfolding duration
  duration_pos from to speed = ground arith

  pub miss_deadline_pos : (ball : Ball Float) (now : ℕ) → 0 < miss_deadline F ball now
  unfolding miss_deadline
  miss_deadline_pos ball now = omega (arith, duration_pos)

  pub flight_deadline_pos : (ball : Ball Float) (now : ℕ) → 0 < flight_deadline F ball now
  unfolding flight_deadline
  flight_deadline_pos ball now = omega (arith, duration_pos)

turn_seat : (total : ℕ) → service_turn total % 2 ≡ (if first_receives total then 0 else 1)
unfolding service_turn
turn_seat total = ground arith

player_at_turn :
    (p q : String) (seat : ℕ) (b : Bool)
    → seat ≡ (if b then 0 else 1)
    → player_at (p ∷ q ∷ []) seat ≡ (if b then p else q)
unfolding player_at name_of
player_at_turn p q seat true e = rw e refl
player_at_turn p q seat false e = rw e refl

serve_receiver_lem :
    (p q : String) (scores : Dict ℕ)
    → serve_receiver (p ∷ q ∷ []) scores
      ≡ (if first_receives (points scores p + points scores q) then p else q)
unfolding serve_receiver player_at name_of
serve_receiver_lem p q scores =
    let total = points scores p + points scores q in
    player_at_turn p q (service_turn total % 2) (first_receives total) (turn_seat total)

pub points-insert :
    (scores : Dict ℕ) (k j : String) (n : ℕ)
    → points (insert k n scores) j ≡ (if str_eq k j then n else points scores j)
unfolding points
points-insert scores k j n = lookup_or-insert k j n 0 scores

won_now : (a b : ℕ) → Undecided a b → has_won (a + 1) b ≡ true → WonBy (a + 1) b
unfolding has_won
won_now a b u h = ground arith

not_won-Undecided : (a b : ℕ) → Undecided a b → has_won (a + 1) b ≡ false → Undecided (a + 1) b
unfolding has_won
not_won-Undecided a b u h = ground arith

pub preparing_of : (ph : Phase) → is_preparing ph ≡ true → ph ≡ preparing
unfolding is_preparing
preparing_of preparing e = refl
preparing_of countdown e = cc
preparing_of playing e = cc
preparing_of finished e = cc

pub playing_of : (ph : Phase) → is_playing ph ≡ true → ph ≡ playing
unfolding is_playing
playing_of preparing e = cc
playing_of countdown e = cc
playing_of playing e = refl
playing_of finished e = cc

pub countdown_of : (ph : Phase) → is_countdown ph ≡ true → ph ≡ countdown
unfolding is_countdown
countdown_of preparing e = cc
countdown_of countdown e = refl
countdown_of playing e = cc
countdown_of finished e = cc

module _ (F : Floats) (p q : String) (ne : p ≢ q) (Left : String → Type 0) where
  open F use {Float}

  pub first_state-IsMatch : (now : ℕ) → IsMatch F p q Left (first_state F (p ∷ q ∷ []) p now)
  unfolding first_state fill points
  first_state-IsMatch now =
      let none_yet : (k : String) → points (insert q 0 (insert p 0 [])) k ≡ 0 =
        λ k. simp (points-insert, points) (ground arith) in
      record { order = refl; standing = (none_yet p, none_yet q, refl, refl) }

  pub ready-IsMatch :
      (s : State Float) (x : String) (now : ℕ)
      → IsMatch F p q Left s
      → IsMatch F p q Left (ready F s x now)
  unfolding ready
  ready-IsMatch s x now m = elim (Bool-cases (cannot_ready F s x)) [
    | inl refused ↦ rw refused m
    | inr can ↦
        let e : s.phase ≡ preparing = preparing_of s.phase (ground arith) in
        let (zero_p, zero_q, still, first) = subst (Standing F p q Left s) e m.standing in
        elim (Bool-cases (every (λ y. includes (s.ready_player_ids ++ x ∷ []) y) s.player_order)) [
          | inl all ↦
              rw (can, all)
                (record {
                  order = m.order;
                  standing =
                      (rw (zero_p, zero_q) (omega arith), omega arith, rw (zero_p, zero_q) first);
                })
          | inr some_left ↦
              rw (can, some_left)
                (record { order = m.order; standing = (zero_p, zero_q, refl, first) })
        ]
  ]

  -- A state whose last point is decided by `over`.
  settled :
      (t : State Float) (over : Bool) (later : ℕ)
      → t.player_order ≡ p ∷ q ∷ []
      → t.phase ≡ (if over then finished else countdown)
      → t.next_action_at ≡ (if over then 0 else later)
      → 0 < later
      → t.serve_receiver_id ≡ (if over then none else some (serve_receiver t.player_order t.scores))
      → (over ≡ true
          → WonBy (points t.scores p) (points t.scores q)
            ⊎ WonBy (points t.scores q) (points t.scores p))
      → (over ≡ false → Undecided (points t.scores p) (points t.scores q))
      → IsMatch F p q Left t
  settled t true later o ph n ahead r won on = record {
    order = o;
    standing = subst (Standing F p q Left t) (sym ph) (n, r, inl (won refl));
  }
  settled t false later o ph n ahead r won on = record {
    order = o;
    standing =
        subst (Standing F p q Left t) (sym ph)
          (on refl, rw n ahead, r ∙ ap some (rw o (serve_receiver_lem p q t.scores)));
  }

  pub point-IsMatch :
      (s : State Float) (ball : Ball Float) (now : ℕ) (scorer : ℕ)
      → scorer < 2
      → s.player_order ≡ p ∷ q ∷ []
      → Undecided (points s.scores p) (points s.scores q)
      → IsMatch F p q Left (point F s scorer ball now)
  unfolding point player_at name_of other_seat
  point-IsMatch s ball now zero h o u =
      let a = points s.scores p in
      let b = points s.scores q in
      let scores = insert p (a + 1) s.scores in
      let mine : points scores p ≡ a + 1 =
        ground (arith, points-insert s.scores p p (a + 1), eq_refl p) in
      let theirs : points scores q ≡ b =
        ground (arith, points-insert s.scores p q (a + 1), ne→str_eq p q ne) in
      let t = point F s 0 ball now in
      let written : t.scores ≡ scores = rw o refl in
      let over = has_won (a + 1) b in
      settled t over (now + 2600) o (rw (o, theirs) refl) (rw (o, theirs) refl) (omega arith)
        (rw (o, theirs) refl) (λ e. rw written (rw (mine, theirs) (inl (won_now a b u e))))
        (λ e. rw written (rw (mine, theirs) (not_won-Undecided a b u e)))
  point-IsMatch s ball now (suc zero) h o u =
      let a = points s.scores p in
      let b = points s.scores q in
      let scores = insert q (b + 1) s.scores in
      let mine : points scores q ≡ b + 1 =
        ground (arith, points-insert s.scores q q (b + 1), eq_refl q) in
      let theirs : points scores p ≡ a =
        ground (arith, points-insert s.scores q p (b + 1), ne→str_eq q p (λ e. ne (sym e))) in
      let t = point F s 1 ball now in
      let written : t.scores ≡ scores = rw o refl in
      let over = has_won (b + 1) a in
      settled t over (now + 2600) o (rw (o, theirs) refl) (rw (o, theirs) refl) (omega arith)
        (rw (o, theirs) refl) (λ e. rw written (rw (mine, theirs) (inr (won_now b a (u.1, u.0) e))))
        (λ e.
          rw written
            (rw (mine, theirs) (let (x, y) = not_won-Undecided b a (u.1, u.0) e in (y, x))))
  point-IsMatch s ball now (suc (suc n)) h o u = absurd (omega arith)
