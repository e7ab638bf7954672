-- ===== src/Score/Repeats.antt =====
-- That the script CONFIRM_SCORE of scripts.ts answers a repeated request without counting it twice.
use yorr.Prelude.{
  ◌≡◌, ◌≢◌, refl, sym, ◌∙◌, none, some, insert, lookup-insert, str_eq, ltb, if◌then◌else◌, decimal,
  arith, eq_refl, ne→str_eq, inl, inr, Option-cases,
}
use yorr.Score.Confirm.{
  Store, Request, Code, success, idempotent_retry, round_conflict, exists, hexists, has_value,
  confirm_guard, next_total, next_board, confirm,
}

-- What the guards say once `i` has gone through.
guard_again :
    (s t : Store) (i j : Request)
    → confirm_guard s i ≡ none
    → t.game ≡ s.game
    → t.room ≡ s.room
    → t.players ≡ s.players
    → t.submissions ≡ insert i.round_number i.signature s.submissions
    → j.room_code ≡ i.room_code
    → j.game_id ≡ i.game_id
    → j.player_id ≡ i.player_id
    → j.round_number ≡ i.round_number
    → confirm_guard t j
      ≡ some (if str_eq i.signature j.signature then idempotent_retry else round_conflict)
unfolding confirm_guard hexists has_value exists
guard_again s t i j e game room players submissions a b c d =
    let round = lookup-insert i.round_number i.round_number i.signature s.submissions in
    let own = eq_refl i.round_number in
    rw (game, room, players, submissions, a, b, c, d) (ground arith)

never_success : (s : Store) (i : Request) → confirm_guard s i ≢ some success
unfolding confirm_guard
never_success s i e = ground arith

confirmed : (s : Store) (i : Request) → (confirm s i).0 ≡ success → confirm_guard s i ≡ none
unfolding confirm
confirmed s i e = elim (Option-cases (confirm_guard s i)) [
  | inl open' ↦ open'
  | inr (code, refused) ↦
      let clash : code ≡ success = rw (refused, confirm) at e in
      absurd (never_success s i (rw (← clash) refused))
]

accept : Store → Request → Store
accept s i = record s {
  scoreboard = next_board s.scoreboard i;
  submissions = insert i.round_number i.signature s.submissions;
  scores = insert i.player_id (decimal (next_total s.scoreboard i)) s.scores;
  scoreboard_ttl = if ltb 0 s.game_ttl then s.game_ttl else s.scoreboard_ttl;
  submissions_ttl = if ltb 0 s.game_ttl then s.game_ttl else s.submissions_ttl;
}

accepted :
    (s : Store) (i : Request) → confirm_guard s i ≡ none → confirm s i ≡ (success, accept s i)
unfolding confirm accept
accepted s i e = rw (e, confirm) refl

refused_same :
    (s : Store) (i : Request) (code : Code)
    → confirm_guard s i ≡ some code
    → confirm s i ≡ (code, s)
unfolding confirm
refused_same s i code e = rw (e, confirm) refl

-- A request that went through, sent again, is answered as a repetition and changes nothing.
pub confirm_repeated :
    (s : Store) (i : Request)
    → (confirm s i).0 ≡ success
    → confirm (confirm s i).1 i ≡ (idempotent_retry, (confirm s i).1)
unfolding accept
confirm_repeated s i e =
    let passed = confirmed s i e in
    let again = guard_again s (accept s i) i i passed refl refl refl refl refl refl refl refl in
    rw (accepted s i passed)
      (refused_same (accept s i) i idempotent_retry (again ∙ rw (eq_refl i.signature) refl))

-- Once a request has gone through, another one of the same player for the same round, with another
-- signature, is answered as a conflict and changes nothing.
pub confirm_conflict :
    (s : Store) (i j : Request)
    → (confirm s i).0 ≡ success
    → j.room_code ≡ i.room_code
    → j.game_id ≡ i.game_id
    → j.player_id ≡ i.player_id
    → j.round_number ≡ i.round_number
    → j.signature ≢ i.signature
    → confirm (confirm s i).1 j ≡ (round_conflict, (confirm s i).1)
unfolding accept
confirm_conflict s i j e a b c d ne =
    let passed = confirmed s i e in
    let other = guard_again s (accept s i) i j passed refl refl refl refl a b c d in
    rw (accepted s i passed) (
      refused_same (accept s i) j round_conflict
        (other ∙ rw (ne→str_eq i.signature j.signature (λ e. ne (sym e))) refl))
