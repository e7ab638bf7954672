-- ===== src/Memory/Refinement.antt =====
-- Scripts and histories of requests: nobody can tell the store of the source, which deletes what has
-- expired when it comes across it, from the one whose keys are gone at the moment they expire.
use yorr.Prelude.{
  ℕ, ◌+◌, String, ◌≡◌, refl, sym, ap, ◌∙◌, Bool, true, false, not, none, some, List, [], ◌∷◌, keys,
  length, Distinct, if◌then◌else◌, arith, Result, ok, err,
}
use yorr.Memory.Keyspace.{sweep, oom_message}
use yorr.Memory.Commands.{Numbers, Reply}
use yorr.Memory.Execute.{
  lazy, Access, Store, has_room, Script, returns, calls, Request, command, script, distinct, exec,
  run_script, absent_keys, run_admitted, serve, replies,
}
use yorr.Memory.Eager.{eager}
use yorr.Memory.Laws.{alive-alive}
use yorr.Memory.Steps.{Matches, roomy}
use yorr.Memory.Loops.{exec-Matches, absent_keys-Matches}

module _ (N : Numbers) where
  open N use {Score}

  -- A script goes on from a reply.
  abbrev goes_on :
      Access Score → ℕ → (Reply → Script N) → Store N × Result Reply → Store N × Result Reply
  goes_on A now next (s, err code) = (s, err code)
  goes_on A now next (s, ok reply) = run_script N A s now (next reply)

  goes_on-Matches :
      (s : Store N) (now : ℕ) (next : Reply → Script N) (reply : Result Reply)
      → Distinct (keys s.entries)
      → ((r : Reply)
          → Matches now
              (run_script N lazy s now (next r))
              (run_script N eager (sweep s now) now (next r)))
      → Matches now (goes_on lazy now next (s, reply)) (goes_on eager now next (sweep s now, reply))
  goes_on-Matches s now next (err code) d later = (refl, d)
  goes_on-Matches s now next (ok reply) d later = later reply

  run_script-Matches :
      (s : Store N) (now : ℕ) (body : Script N)
      → Distinct (keys s.entries)
      → Matches now (run_script N lazy s now body) (run_script N eager (sweep s now) now body)
  unfolding run_script
  run_script-Matches s now (returns n) d = (refl, d)
  run_script-Matches s now (calls c next) d =
      let (same, apart) = exec-Matches N s now c d in
      let (t, reply) = exec N lazy s now c in
      let (same', apart') =
        goes_on-Matches t now next reply apart (λ r. run_script-Matches t now (next r) apart) in
      (ap (goes_on eager now next) same ∙ same', apart')

  -- A script that is let in, and one that is not.
  abbrev enters :
      Access Score → ℕ → List String → Script N → Bool → Store N → Store N × Result Reply
  enters A now creatable body admitted s =
      let ran = run_script N A (record s { script_creates = some creatable }) now body in
      if not admitted then (s, err oom_message) else (record ran.0 { script_creates = none }, ran.1)

  enters-Matches :
      (s : Store N) (now : ℕ) (creatable : List String) (body : Script N) (admitted : Bool)
      → Distinct (keys s.entries)
      → Matches now
          (enters lazy now creatable body admitted s)
          (enters eager now creatable body admitted (sweep s now))
  enters-Matches s now creatable body false d = (refl, d)
  enters-Matches s now creatable body true d =
      let (same, apart) =
        run_script-Matches (record s { script_creates = some creatable }) now body d in
      (ap (λ ran. (record ran.0 { script_creates = none }, ran.1)) same, apart)

  run_admitted-Matches :
      (s : Store N) (now : ℕ) (creatable : List String) (body : Script N)
      → Distinct (keys s.entries)
      → Matches now
          (run_admitted N lazy s now creatable body)
          (run_admitted N eager (sweep s now) now creatable body)
  unfolding run_admitted
  run_admitted-Matches s now creatable body d =
      let (same, apart) = absent_keys-Matches N s now creatable d in
      let (t, missing) = absent_keys N lazy s now creatable in
      let n = length (distinct missing) in
      let (same_room, apart') = roomy t now n apart in
      let (admitted, u) = has_room t now n in
      let (same_run, apart'') = enters-Matches u now creatable body admitted apart' in
      let enter : Bool × Store N → Store N × Result Reply =
        λ r. enters eager now creatable body r.0 r.1 in
      (
        ap (λ q. enter (eager.room_for q.0 now (length (distinct q.1)))) same
            ∙ ap enter same_room
            ∙ same_run,
        apart'',
      )

  pub serve-Matches :
      (s : Store N) (now : ℕ) (request : Request N)
      → Distinct (keys s.entries)
      → Matches now (serve N lazy s now request) (serve N eager (sweep s now) now request)
  unfolding serve
  serve-Matches s now (command c) d = exec-Matches N s now c d
  serve-Matches s now (script creatable body) d = run_admitted-Matches s now creatable body d

  -- Any requests, commands and scripts, at any times, get the same replies from the store that deletes what
  -- has expired only when it comes across it, or needs room, and from the one in which every key is gone at
  -- the moment it expires and the limit counts only what is there.
  pub replies_lem :
      (s : Store N) (now : ℕ) (requests : List (ℕ × Request N))
      → Distinct (keys s.entries)
      → replies N lazy s now requests ≡ replies N eager (sweep s now) now requests
  unfolding replies
  replies_lem s before [] d = refl
  replies_lem s before ((ms, request) ∷ rest) d =
      let now = before + ms in
      let (same, apart) = serve-Matches s now request d in
      let (t, reply) = serve N lazy s now request in
      let at_once : sweep (sweep s before) now ≡ sweep s now =
        ap (λ m. record s { entries = m }) (alive-alive before now s.entries (omega arith)) in
      let answer : Store N × Result Reply → List (Result Reply) =
        λ p. p.1 ∷ replies N eager p.0 now rest in
      ap (λ rs. reply ∷ rs) (replies_lem t now rest apart)
      ∙ ap answer (sym same)
      ∙ ap (λ x. answer (serve N eager x now request)) (sym at_once)
