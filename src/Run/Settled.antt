-- ===== src/Run/Settled.antt =====
-- What a run of the scheduler leaves behind.
use microthread.Base.{
  ℕ, zero, suc, ◌+◌, ◌-◌, ◌≡◌, ◌⊎◌, refl, ap, ◌∙◌, inl, inr, Bool, true, false, Option, none, some,
  List, ltb, ◌&&◌, arith, if_both, Bool-cases, Option-cases, Returns, returns,
}
use microthread.State.{Code, Runtime}
use microthread.Run.{
  Round, worker_rounds, Crew, worker_loop, Threads, create_threads, disband, finish_run, abort_run,
  run_threads, begun, run_initialized,
}

-- nobody runs: there is no array of threads
pub record IsIdle (crew : Crew) : Type 0 where
  pub no_array : crew.workers ≡ false
  pub no_threads : crew.worker_threads ≡ 0

-- The runtime does not run any more, there is no array, and each thread that was created is joined.
pub record Settled (unjoined : ℕ) (w : Code × Runtime × Crew) : Type 0 where
  pub stopped : w.1.running ≡ false
  pub idle : IsIdle w.2
  pub joined : w.2.unjoined ≡ unjoined

-- all the threads are created, or those before the one that fails
created :
    (creates : ℕ → Bool) (k i unjoined : ℕ)
    → ((create_threads creates k i unjoined ≡ (none, unjoined + k)))
      ⊎ ((j : ℕ) × (extra : ℕ) × (create_threads creates k i unjoined ≡ (some j, unjoined + extra))
          × (j ≡ i + extra))
unfolding create_threads
created creates zero i unjoined = inl (ap (λ n. (none, n)) (omega arith))
created creates (suc k) i unjoined = elim (Bool-cases (creates i)) [
  | inl good ↦ elim (created creates k (i + 1) (unjoined + 1)) [
    | inl all ↦ inl (rw good (all ∙ ap (λ n. (none, n)) (omega arith)))
    | inr (j, extra, some_, at) ↦
        inr (j, extra + 1, rw good (some_ ∙ ap (λ n. (some j, n)) (omega arith)), omega (arith, at))
  ]
  | inr bad ↦ inr (i, 0, rw bad (ap (λ n. (some i, n)) (omega arith)), omega arith)
]

abort-Settled :
    (os : Threads) (i : ℕ) (rt : Runtime) (crew : Crew) (unjoined : ℕ)
    → crew.unjoined ≡ unjoined + i
    → Settled unjoined (abort_run os i (rt, crew))
unfolding abort_run disband
abort-Settled os i rt crew unjoined h = record {
  stopped = refl;
  idle = record { no_array = refl; no_threads = refl };
  joined = omega (arith, h);
}

finish-Settled :
    (os : Threads) (rt : Runtime) (crew : Crew) (unjoined : ℕ)
    → crew.unjoined ≡ unjoined + crew.worker_threads
    → Settled unjoined (finish_run os (rt, crew))
unfolding finish_run disband
finish-Settled os rt crew unjoined h = record {
  stopped = refl;
  idle = record { no_array = refl; no_threads = refl };
  joined = omega (arith, h);
}

-- the main thread's loop and the end of the run
loop-Settled :
    (os : Threads) (sleeps : Bool) (rounds : List Round) (rt after : Runtime) (crew : Crew)
    (unjoined : ℕ)
    → worker_rounds sleeps rounds rt ≡ some after
    → crew.unjoined ≡ unjoined + crew.worker_threads
    → Returns
        (Settled unjoined)
        (elim (worker_loop sleeps rounds (rt, crew)) as (λ x. Option (Code × Runtime × Crew)) [
          | none ↦ none
          | some w ↦ some (finish_run os w)
        ])
unfolding worker_loop
loop-Settled os sleeps rounds rt after crew unjoined e h =
    rw e (returns (finish-Settled os after _ unjoined h))

threads-Settled :
    (os : Threads) (sleeps : Bool) (rounds : List Round) (rt after : Runtime) (crew : Crew)
    → rt.running ≡ true
    → IsIdle crew
    → worker_rounds sleeps rounds rt ≡ some after
    → Returns (Settled crew.unjoined) (run_threads os sleeps rounds (rt, crew))
unfolding run_threads
threads-Settled os sleeps rounds rt after crew running idle e =
    let n = crew.worker_count - 1 in
    let manned = record crew {
      workers = true;
      worker_threads = n;
      unjoined = (create_threads os.creates n 0 crew.unjoined).1;
    } in
    if_both (λ (o : Option (Code × Runtime × Crew)). Returns (Settled crew.unjoined) o) os.memory
      (elim (created os.creates n 0 crew.unjoined) [
        | inl all ↦
            rw (ap (λ p. p.0) all)
              (loop-Settled os sleeps rounds rt after manned crew.unjoined e (ap (λ p. p.1) all))
        | inr (j, extra, some_, at) ↦ rw (ap (λ p. p.0) some_) (
            returns (
              abort-Settled os j rt manned crew.unjoined (ap (λ p. p.1) some_ ∙ omega (arith, at))))
      ])
      (returns (record { stopped = refl; idle = idle; joined = refl }))

-- Where the runtime is not running and has no threads, and the main thread's loop ends, a call of
-- mt_run_internal on an initialised runtime returns on every path: from within a task, without memory
-- for the threads, where a thread cannot be created, and after the run. Then the runtime does not run,
-- there is no array of threads, and as many threads are joined as were created.
pub run_initialized-Settled :
    (os : Threads) (worker_count : ℕ) (sleeps : Bool) (rounds : List Round) (rt after : Runtime)
    (crew : Crew)
    → rt.running ≡ false
    → IsIdle crew
    → worker_rounds sleeps rounds (begun rt) ≡ some after
    → Returns (Settled crew.unjoined) (run_initialized os worker_count sleeps rounds (rt, crew))
unfolding run_initialized
run_initialized-Settled os worker_count sleeps rounds rt after crew off idle e =
    let counted = record crew { worker_count = worker_count } in
    let still : IsIdle counted = record {
      no_array = idle.no_array;
      no_threads = idle.no_threads;
    } in
    elim (Option-cases rt.current) [
      | inr (t, s) ↦
          rw (run_initialized, s) (returns (record { stopped = off; idle = idle; joined = refl }))
      | inl n ↦
          rw (run_initialized, n, off)
            (if_both (λ (o : Option (Code × Runtime × Crew)). Returns (Settled crew.unjoined) o)
              (ltb 1 worker_count && sleeps)
              (threads-Settled os sleeps rounds (begun rt) after counted refl still e)
              (loop-Settled os sleeps rounds (begun rt) after counted crew.unjoined e
                (omega (arith, idle.no_threads))))
    ]
