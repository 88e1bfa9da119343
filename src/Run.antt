-- ===== src/Run.antt =====
-- src/scheduler.c: mt_worker_loop as a whole, mt_run_internal, mt_run, mt_runtime_start,
-- mt_run_workers and mt_runtime_workers, where there are OS threads. What a worker meets in a round of
-- its loop (the clock, the polls, the run of a task, other workers) is an argument, and so is what
-- calloc and pthread_create give.
pub mod Settled
pub mod Leaving
use microthread.Base.{
  ℕ, zero, suc, ◌+◌, ◌-◌, ◌^◌, Bool, true, false, Option, none, some, List, [], ◌∷◌, ltb, ◌==◌,
  ◌&&◌, ◌||◌, not, if◌then◌else◌,
}
use microthread.State.{Code, is_ok, Runtime}
use microthread.Transitions.{guarded_dec, notify}
use microthread.Lifecycle.{Started, init}
use microthread.Scheduler.{Next, leave, poll, wait, wait_ns, again, run, worker_round, after_switch}

-- What a worker meets in a round: the clock's readings, mt_poll_fd_waiters_once, and what happens while
-- it polls, waits or runs a task.
pub record Round : Type 0 where
  pub times : ℕ × ℕ × ℕ
  pub polled : Runtime → Runtime
  pub meanwhile : Runtime → Runtime

-- The loop of mt_worker_loop; `none` means that the rounds ran out.
unfoldable pub worker_rounds : Bool → List Round → Runtime → Option Runtime
unfolding worker_round after_switch
worker_rounds sleep_for_timers [] rt = none
worker_rounds sleep_for_timers (r ∷ rs) rt =
    let (next, after) = worker_round sleep_for_timers r.polled r.times rt in
    elim next [
      | leave ↦ some after
      | poll ms ↦ worker_rounds sleep_for_timers rs (r.meanwhile after)
      | wait ↦ worker_rounds sleep_for_timers rs (r.meanwhile after)
      | wait_ns ns ↦ worker_rounds sleep_for_timers rs (r.meanwhile after)
      | again ↦ worker_rounds sleep_for_timers rs after
      | run t ↦ worker_rounds sleep_for_timers rs (after_switch (r.meanwhile after) t)
    ]

-- The fields worker_count, active_workers, worker_threads and workers (whether there is an array) of
-- the runtime, and how many threads were created and not joined.
pub record Crew : Type 0 where
  pub worker_count : ℕ
  pub active_workers : ℕ
  pub worker_threads : ℕ
  pub workers : Bool
  pub unjoined : ℕ

-- mt_worker_loop
unfoldable pub worker_loop : Bool → List Round → Runtime × Crew → Option (Runtime × Crew)
unfolding worker_rounds
worker_loop sleep_for_timers rounds (rt, crew) =
    let entered = record crew { active_workers = crew.active_workers + 1 } in
    let left = record entered { active_workers = guarded_dec entered.active_workers } in
    elim (worker_rounds sleep_for_timers rounds rt) [
      | none ↦ none
      | some after ↦ some (after, left)
    ]

-- what pthread_create gives, whether calloc has memory, what mt_init meets, and what the other workers
-- do while they are joined
pub record Threads : Type 0 where
  pub memory : Bool
  pub creates : ℕ → Bool
  pub start : Started
  pub joined : Runtime → Runtime

-- The loop over pthread_create, with the threads that are left to create and those that there are: the
-- number of the one that fails, and the threads that were not joined.
unfoldable pub create_threads : (ℕ → Bool) → ℕ → ℕ → ℕ → Option ℕ × ℕ
create_threads creates zero i unjoined = (none, unjoined)
create_threads creates (suc k) i unjoined =
    let rest = create_threads creates k (i + 1) (unjoined + 1) in
    if creates i then rest else (some i, unjoined)

-- the join of the first threads of the array, and its end
unfoldable pub disband : ℕ → Crew → Crew
disband n crew = record crew { workers = false; worker_threads = 0; unjoined = crew.unjoined - n }

-- mt_run_internal once its loop is left
unfoldable pub finish_run : Threads → Runtime × Crew → Code × Runtime × Crew
unfolding disband
finish_run os (rt, crew) =
    let ended = os.joined rt in
    (
      ended.run_result,
      record ended { running = false; stopping = false },
      disband crew.worker_threads crew,
    )

-- mt_run_internal where the thread with the number `i` could not be created
unfoldable pub abort_run : Threads → ℕ → Runtime × Crew → Code × Runtime × Crew
unfolding disband notify
abort_run os i (rt, crew) =
    let told = notify (record rt { run_result = Code.err; stopping = true }) in
    (Code.err, record (os.joined told) { running = false }, disband i crew)

-- mt_run_internal with its threads
unfoldable pub run_threads :
    Threads → Bool → List Round → Runtime × Crew → Option (Code × Runtime × Crew)
unfolding create_threads worker_loop finish_run abort_run
run_threads os sleep_for_timers rounds (rt, crew) =
    let n = crew.worker_count - 1 in
    let (broken, unjoined) = create_threads os.creates n 0 crew.unjoined in
    let manned = record crew { workers = true; worker_threads = n; unjoined = unjoined } in
    let refused = record rt { running = false } in
    let worked : Option (Code × Runtime × Crew) =
      elim (worker_loop sleep_for_timers rounds (rt, manned)) [
        | none ↦ none
        | some w ↦ some (finish_run os w)
      ] in
    if os.memory
    then elim broken [ none ↦ worked | some i ↦ some (abort_run os i (rt, manned)) ]
    else some (Code.err_nomem, refused, crew)

-- the runtime when a run begins
abbrev pub begun : Runtime → Runtime
begun rt = record rt { running = true; stopping = false; run_result = Code.ok }

-- the crew after mt_init, which clears the runtime
abbrev pub cleared : Bool → Crew → Crew
cleared worked crew = record {
  worker_count = if worked then 1 else 0;
  active_workers = 0;
  worker_threads = 0;
  workers = false;
  unjoined = crew.unjoined;
}

-- mt_run_internal on a runtime that is initialised
unfoldable pub run_initialized :
    Threads → ℕ → Bool → List Round → Runtime × Crew → Option (Code × Runtime × Crew)
unfolding run_threads
run_initialized os worker_count sleep_for_timers rounds (rt, crew) =
    let counted = record crew { worker_count = worker_count } in
    let manned = run_threads os sleep_for_timers rounds (begun rt, counted) in
    let alone : Option (Code × Runtime × Crew) =
      elim (worker_loop sleep_for_timers rounds (begun rt, counted)) [
        | none ↦ none
        | some w ↦ some (finish_run os w)
      ] in
    elim rt.current [
      | some t ↦ some (Code.err_state, rt, crew)
      | none ↦
          if rt.running
          then some (Code.err_state, rt, crew)
          else (if ltb 1 worker_count && sleep_for_timers then manned else alone)
    ]

unfoldable pub run_internal :
    Threads → ℕ → Bool → List Round → Runtime × Crew → Option (Code × Runtime × Crew)
unfolding run_initialized init is_ok
run_internal os worker_count sleep_for_timers rounds (rt, crew) =
    let (rc, started) = init os.start rt in
    let go : Runtime × Crew → Option (Code × Runtime × Crew) =
      λ w. run_initialized os worker_count sleep_for_timers rounds w in
    if rt.initialized
    then go (rt, crew)
    else (if is_ok rc
        then go (started, cleared true crew)
        else some (Code.err, started, cleared false crew))

-- mt_run: the call of mt_init before mt_run_internal does what the one in it does
unfoldable pub run_one : Threads → List Round → Runtime × Crew → Option (Code × Runtime × Crew)
unfolding run_internal
run_one os rounds w = run_internal os 1 true rounds w

-- mt_runtime_start and mt_run_workers
unfoldable pub runtime_start :
    Threads → ℕ → List Round → Runtime × Crew → Option (Code × Runtime × Crew)
unfolding run_internal init is_ok
runtime_start os worker_count rounds (rt, crew) =
    let (rc, started) = init os.start rt in
    let ready = if rt.initialized then rt else started in
    let manned = if rt.initialized then crew else cleared true crew in
    let go : Option (Code × Runtime × Crew) = elim ready.current [
      | some t ↦ some (Code.err_state, ready, manned)
      | none ↦
          if ready.running
          then some (Code.err_state, ready, manned)
          else run_internal os worker_count true rounds (ready, manned)
    ] in
    if worker_count == 0
    then some (Code.err_invalid, rt, crew)
    else (if rt.initialized || is_ok rc then go else some (Code.err, started, cleared false crew))

-- mt_runtime_workers
unfoldable pub runtime_workers : Runtime × Crew → ℕ
runtime_workers (rt, crew) =
    let n = if rt.running then crew.worker_count else 0 in
    let most : ℕ = 2 ^ 31 - 1 in if rt.initialized then (if ltb most n then most else n) else 0
