-- ===== src/Duel/Match.antt =====
-- The invariant of a match between two players, under the inputs and departures of duelRules.ts.
use yorr.Prelude.{
  ℕ, ◌+◌, String, ℤ, negsuc, ◌≡◌, refl, ◌∙◌, ◌≢◌, ◌⊎◌, Bool, true, false, not, none, List, [], ◌∷◌,
  arith, Dict, insert, eqb_ℤ, eqb, leb_ℤ, ◌||◌, length, min, includes, if◌then◌else◌, Result, ok,
  ◌>>=◌, Bool-cases, inl, inr, some, eq_iff, str_eq, lookup_or-insert_self,
}
use yorr.Duel.Types.{
  Phase, waiting, signal, result, finished, RoundKind, Round, State, foul, at, is_waiting,
  is_signal, is_finished,
}
use yorr.Duel.Round.{verdict, settle, resolve_round}
use yorr.Duel.Rules.{light, DrawInput, draw, judged, has_reaction, walk_over, forfeit, is_first}
use yorr.Duel.Timeout.{is_over, fallen, tick}
use yorr.Duel.Outcome.{BothStand, OneFell, verdict-Outcome}

pub data Action : Type 0 where
  draws : DrawInput → Action
  ticks : ℕ → ℕ → Action
  leaves : String → ℕ → Action

unfoldable pub apply : State → Action → Result State
apply s (draws i) = draw s i
apply s (ticks now wait) = tick s now wait
apply s (leaves p now) = forfeit s p now

unfoldable pub run : State → List Action → Result State
run s [] = ok s
run s (a ∷ rest) = do t ← apply s a; run t rest

unfoldable pub is_live : Phase → Bool
is_live ph = is_waiting ph || is_signal ph

module _ (p q : String) (ne : p ≢ q) where
  -- The round that stands is over, with one of the two fallen.
  abbrev pub Fell : State → Type 0
  Fell s = (is_over s.last_round ≡ true) × OneFell p q s.hp (fallen s.last_round)

  -- The last round is the departure of one of the two: he has no life, and the other is put down as the
  -- winner.
  pub record WalkedOver (s : State) : Type 0 where
    pub round : Round
    pub last : s.last_round ≡ some round
    pub kind : round.kind ≡ RoundKind.forfeit
    pub over : round.over ≡ true
    pub leaver : String
    pub stayer : String
    pub sides : ((leaver ≡ p) × (stayer ≡ q)) ⊎ ((leaver ≡ q) × (stayer ≡ p))
    pub fell : round.ko_id ≡ some leaver
    pub won : round.shooter_id ≡ some stayer
    pub lifeless : at s.hp leaver 0 ≡ 0

  -- What every state of the match fulfils, phase by phase.
  abbrev pub Standing : State → Phase → Type 0
  Standing s waiting = BothStand p q s.hp s.fouls
  Standing s signal = BothStand p q s.hp s.fouls
  Standing s result =
      ((is_over s.last_round ≡ false) × BothStand p q s.hp s.fouls × (s.last_round ≢ none)) ⊎ Fell s
  Standing s finished = Fell s ⊎ WalkedOver s

  pub record IsMatch (s : State) : Type 0 where
    pub order : s.player_order ≡ p ∷ q ∷ []
    pub standing : Standing s s.phase

  pub resolve_round-IsMatch :
      (s : State) (seqs : Dict ℤ) (reactions : Dict ℤ) (now : ℕ)
      → s.player_order ≡ p ∷ q ∷ []
      → BothStand p q s.hp s.fouls
      → (t : State) × (resolve_round s seqs reactions now ≡ ok t) × IsMatch t
  unfolding resolve_round settle is_over fallen
  resolve_round-IsMatch s seqs reactions now o b =
      let v = verdict s reactions p q now in
      (
        settle s seqs reactions now v,
        rw o refl,
        record {
          order = o;
          standing = elim (verdict-Outcome p q ne s reactions now b) [
            | inl (open', b') ↦ inl (open', b', (λ e. cc))
            | inr (over, fell) ↦ inr (over, fell)
          ];
        },
      )

  -- An action that does not throw, and leaves a match.
  abbrev pub Gives : Result State → Type 0
  Gives r = (t : State) × (r ≡ ok t) × IsMatch t

  IsMatch-of_frame :
      (s t : State)
      → t.player_order ≡ s.player_order
      → t.phase ≡ s.phase
      → t.hp ≡ s.hp
      → t.fouls ≡ s.fouls
      → t.last_round ≡ s.last_round
      → IsMatch s
      → IsMatch t
  IsMatch-of_frame s t o ph hp fouls r m = record {
    order = o ∙ m.order;
    standing = framed s t hp fouls r s.phase t.phase ph m.standing;
  }
    where
      framed :
          (s t : State)
          → t.hp ≡ s.hp
          → t.fouls ≡ s.fouls
          → t.last_round ≡ s.last_round
          → (x y : Phase) → y ≡ x
          → Standing s x
          → Standing t y
      framed s t hp fouls r waiting y e h = rw (e, hp, fouls) h
      framed s t hp fouls r signal y e h = rw (e, hp, fouls) h
      framed s t hp fouls r result y e h = rw (e, hp, fouls, r) h
      framed s t hp fouls r finished y e (inl h) = rw (e, hp, r) (inl h)
      framed s t hp fouls r finished y e (inr h) = rw e (
          inr (record {
            round = h.round;
            last = r ∙ h.last;
            kind = h.kind;
            over = h.over;
            leaver = h.leaver;
            stayer = h.stayer;
            sides = h.sides;
            fell = h.fell;
            won = h.won;
            lifeless = rw hp h.lifeless;
          }))

  Standing-of_live :
      (t : State) (ph : Phase) → is_live ph ≡ true → BothStand p q t.hp t.fouls → Standing t ph
  unfolding is_live
  Standing-of_live t waiting e b = b
  Standing-of_live t signal e b = b
  Standing-of_live t result e b = cc
  Standing-of_live t finished e b = cc

  pub stand_of_live :
      (s : State) (ph : Phase) → is_live ph ≡ true → Standing s ph → BothStand p q s.hp s.fouls
  unfolding is_live
  stand_of_live s waiting e h = h
  stand_of_live s signal e h = h
  stand_of_live s result e h = cc
  stand_of_live s finished e h = cc

  pub light-IsMatch : (s : State) (now : ℕ) → IsMatch s → IsMatch (light s now)
  unfolding light is_live
  light-IsMatch s now m = elim (Bool-cases (is_waiting s.phase)) [
    | inr e ↦ rw e m
    | inl e ↦
        rw e
          (record { order = m.order; standing = stand_of_live s s.phase (ground arith) m.standing })
  ]

  pub draw-Gives : (s : State) (i : DrawInput) → IsMatch s → Gives (draw s i)
  unfolding draw is_live
  draw-Gives s i m =
      let seqs = insert i.player_id i.input_seq s.last_input_seq in
      let reactions = insert i.player_id (judged s i) s.reactions in
      elim (Bool-cases (includes s.player_order i.player_id)) [
        | inr e ↦ (s, rw e refl, m)
        | inl e ↦
            elim (Bool-cases (leb_ℤ i.input_seq (at s.last_input_seq i.player_id (negsuc 0)))) [
              | inl f ↦ (s, rw (e, f) refl, m)
              | inr f ↦ elim (Bool-cases (not (is_live s.phase) || has_reaction s i.player_id)) [
                | inl g ↦ (
                  record s { version = s.version + 1; last_input_seq = seqs },
                  rw (e, f, g) refl,
                  IsMatch-of_frame s _ refl refl refl refl refl m,
                )
                | inr g ↦
                    let live : is_live s.phase ≡ true = ground arith in
                    let b = stand_of_live s s.phase live m.standing in
                    elim (Bool-cases
                      (eqb_ℤ (judged s i) foul || eqb (length reactions) (length s.player_order))) [
                        | inl h ↦
                            let (t, r, mt) =
                              resolve_round-IsMatch s seqs reactions i.now m.order b in
                            (t, rw (e, f, g, h) r, mt)
                        | inr h ↦
                            let t : State = record s {
                              version = s.version + 1;
                              reactions = reactions;
                              last_input_seq = seqs;
                              next_action_at = min s.next_action_at (i.now + 700);
                              last_round = none;
                            } in
                            (
                              t,
                              rw (e, f, g, h) refl,
                              record {
                                order = m.order;
                                standing = Standing-of_live t s.phase live b;
                              },
                            )
                      ]
              ]
            ]
      ]

  pub Fell-of :
      (s : State) (ph : Phase) → ph ≡ result → is_over s.last_round ≡ true → Standing s ph → Fell s
  Fell-of s result e o (inl h) = cc
  Fell-of s result e o (inr h) = h
  Fell-of s waiting e o h = cc
  Fell-of s signal e o h = cc
  Fell-of s finished e o h = cc

  one_of_two : (x : String) → includes (p ∷ q ∷ []) x ≡ true → (x ≡ p) ⊎ (x ≡ q)
  one_of_two x h = ground (arith, eq_iff p x, eq_iff q x)

  stayer_of :
      (x : String)
      → (x ≡ p) ⊎ (x ≡ q)
      → let y = if str_eq p x then q else p in ((x ≡ p) × (y ≡ q)) ⊎ ((x ≡ q) × (y ≡ p))
  stayer_of x (inl e) = inl (e, ground (arith, eq_iff p x))
  stayer_of x (inr e) = inr (e, ground (arith, eq_iff p x, ne))

  walk_over-IsMatch :
      (s : State) (x y : String) (now : ℕ)
      → s.player_order ≡ p ∷ q ∷ []
      → ((x ≡ p) × (y ≡ q)) ⊎ ((x ≡ q) × (y ≡ p))
      → IsMatch (walk_over s x y now)
  unfolding walk_over
  walk_over-IsMatch s x y now o sides = record {
    order = o;
    standing = inr (record {
      round = _;
      last = refl;
      kind = refl;
      over = refl;
      leaver = x;
      stayer = y;
      sides = sides;
      fell = refl;
      won = refl;
      lifeless = lookup_or-insert_self x 0 0 s.hp;
    });
  }

  pub forfeit-Gives : (s : State) (x : String) (now : ℕ) → IsMatch s → Gives (forfeit s x now)
  unfolding forfeit is_first
  forfeit-Gives s x now m =
      elim (Bool-cases (is_finished s.phase || not (includes s.player_order x))) [
        | inl e ↦ (s, rw e refl, m)
        | inr e ↦ (
          walk_over s x (if str_eq p x then q else p) now,
          rw (e, m.order) refl,
          walk_over-IsMatch s x _ now m.order (
              stayer_of x (
                one_of_two x (
                  let inside : includes s.player_order x ≡ true = ground arith in
                  rw m.order at inside))),
        )
      ]
