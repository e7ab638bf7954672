-- ===== src/Lib.antt =====
-- Yorr: the rules of the games that its backend referees, and what they guarantee.
--
-- The backend of Yorr keeps the one authoritative state of every game: clients send inputs, the server
-- judges them, stores the next state, and sends everybody a view. This library models that core of
-- backend/src/game, backend/src/room and backend/src/infra, and proves what players and operators rely on. The parts and their files:
--
-- * Davinci (backend/src/game/davinci): the Da Vinci Code. Davinci/Types has the state of
--   davinciState.ts with its constants and helpers; Tiles the order of tiles (davinciTiles.ts); View
--   what each viewer is sent (`toView`); TurnFlow how a turn ends (`advance`, `concludeTurn`,
--   `placeDrawn`, `timedOut`); Rules the inputs, the deadline and departures (`guess`, `decide`,
--   `place`, `expire`, `forfeit`); Setup the deal (`initialDavinciState`); Input the checks of
--   payloads and rosters; Service one room of davinciGameService.ts with its stored state and its
--   reserved deadline (`mutate`, `changed`, `schedule`, `timeout`, and `pause`, `resume` and
--   `rehydrate` of davinciResume.ts); Play the actions that may come in
--   any order. The laws are in Versions, Replays, Deadlines, Jokers, Conservation, Order, Secrecy,
--   Turns, Opening, Service/Timers and Service/Requests.
-- * Duel (backend/src/game/duel): the quick-draw duel. Types, Round (the verdict of duelRound.ts), Rules
--   (duelRules.ts) and Timeout (the clock of duelGameService.ts and the scores of duelProgress.ts);
--   the laws are in Outcome, Match, Clock, Verdicts, Scores and Progress.
-- * Score (backend/src/game/score): Yacht's categories (Category), scores (Calculator) and the script
--   that confirms a score in the store (Confirm); the laws are in Counts, Hands, Worth, Reorder, Sums
--   and Repeats.
-- * Round (backend/src/game/round): the turns of a Yacht game. Types, Contracts (the checks and
--   constructors), Rules (the methods of `RoundState` and roundTransitions.ts); the laws are in
--   Valid, Ends, Departures, Progress and Calls.
-- * Completion (backend/src/game/completion): the ranking of totals and the result (Ranking), and the
--   script that ends a game (Finish); the laws are in Ranks and Results.
-- * Pingpong (backend/src/game/pingpong): ping pong. Types, Court (pingPongCourtMath.ts), Scoring
--   (pingPongScoring.ts), Rules (pingPongRules.ts) and Service (the calls on one room of
--   pingPongGameService.ts, pingPongProgress.ts and pingPongResume.ts with its reserved deadline and the
--   one who judges it). Numbers with a fraction are a parameter, a record of the operations that the code
--   uses, since no law of them is needed. Match has the invariant and History the actions in any order;
--   Calls has those on a room of the service, and Timers, Reservations, Starts and Requests have the
--   reserved deadline under them.
-- * Rooms (backend/src/room and the commands of backend/src/infra that the scripts use): Hashes (one hash of
--   the store with its time to live), Store (the hashes of a room, keys.ts), Scripts (the scripts of
--   room/scripts), Clock (how time runs), Making (the end of a game, by completion/scripts.ts) and History
--   (the calls in any order). Seats, Laws, Valid, Entering, Leaving and Phases have the invariant.
-- * Memory (backend/src/infra): the store in the process that stands in for Redis. Keyspace (redisTypes.ts,
--   redisKeyspace.ts), Maps and Commands (what each command of redisStrings.ts, redisHashes.ts,
--   redisZsets.ts and redisKeyCommands.ts decides from the entry of its key), Execute (commands on several
--   keys, scripts by `runAdmitted` and histories of requests, over a record of the ways to reach an entry),
--   Eager (the other such record, of a store without lazy expiry) and Snapshot (redisSnapshot.ts, with
--   `parseEntry` of redisTypes.ts). Laws, Steps, Loops and Refinement have the simulation of the one
--   store by the other, and Restored what a snapshot gives back.
-- * Deadlines (backend/src/game/round/deadlineScheduler.ts): the scheduler that the games reserve their
--   deadlines with. Scheduler has its calls and the executor as one who may run any task that it was handed
--   at any time; Slots, Once, Calls and Cancelled have the laws.
-- * Prelude (what the parts share): Boolean tests, signed integers, lists, JavaScript objects as
--   dictionaries in insertion order, calls that throw, and numbers in decimal.
--
-- How the code is read. A state is a record and a rule a function to the next state; a rule that throws
-- gives a `Result` whose error is the code of the source's error. The time, the random waits and the
-- shuffled deck are arguments, as they are in the source. A `number` that may be -1 or -2 is an integer,
-- every other one a natural number; a die or a score that is negative or no integer, which the source
-- refuses, has no counterpart but 0 for a die. An asynchronous call on a room is one step, and the next
-- one starts when it has ended. That is an assumption of the model, which the locks do not ensure: they
-- cover the reading, the rule and the writing of a state, but not the broadcast and the reservation of a
-- deadline that follow, and a call that comes in between is not modelled. A call that waits too long for
-- a lock throws and leaves the state and the deadline alone, but for a deadline that fires, which is
-- lost (`fire_busy`). A Redis hash is a dictionary, and the hashes that a script is given are different
-- ones, as their keys have different prefixes. A command on the store and an atomic script take place at
-- one instant.
--
-- Recursion is structural throughout, but for `decimal`, whose fuel is the number plus one and thus more
-- than its digits. `hasRun` and the seat loop of `advance` count down the faces and the seats that
-- are left. `expire_times` takes a number of turns, and `turns` is shown to be the right one.
--
-- Not modelled: transport (backend/src/ws, backend/src/http), accounts, quick matching, the services on top
-- of the scripts of a room, the timers and stores of rounds, the archive and the weekly ranking, and the
-- frontend. Of the service of Da Vinci Code, reconnecting is left out, and of that of duel also pausing and
-- the restart of the server.
pub mod Prelude
pub mod Davinci
pub mod Duel
pub mod Score
pub mod Round
pub mod Completion
pub mod Pingpong
pub mod Rooms
pub mod Memory
pub mod Deadlines
