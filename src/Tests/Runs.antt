-- ===== src/Tests/Runs.antt =====
-- The theorems on runs of the scheduler and on the registries at concrete inputs.
use microthread.Base.{◌≡◌, refl, true, false, none, some, [], ◌∷◌, ◌==◌, if◌then◌else◌, Returns}
use microthread.State.{Code, TaskState, Runtime}
use microthread.Transitions.{notify}
use microthread.Scheduler.{leave, wake_expired_timers, worker_round}
use microthread.Run.{Round, worker_rounds, Crew, Threads, begun, run_initialized}
use microthread.Run.Settled.{Settled, run_initialized-Settled}
use microthread.Run.Leaving.{Ending, worker_round-Ending}
use microthread.Registry.{Registry, unregister}
use microthread.Registry.Refined.{Lists, Unregisters, unregister-Unregisters}
use microthread.Hooks.{Resource, resource_number, Hooks, hooked_alloc, alloc_task_memory}
use microthread.Hooks.Balance.{InUse, HookStep, HookSteps, IsBalanced, steps-IsBalanced}
use microthread.Tests.{empty_channel, some_handle, world}

-- no task is alive
abbrev ended : Runtime
ended = record (world TaskState.ready empty_channel (some_handle [])) {
  running = false;
  current = none;
  live_count = 0;
  fd_waiting_count = 0;
}

abbrev plain_round : Round
plain_round = record { times = (0, 0, 0); polled = λ r. r; meanwhile = λ r. r }

abbrev idle_crew : Crew
idle_crew = record {
  worker_count = 1;
  active_workers = 0;
  worker_threads = 0;
  workers = false;
  unjoined = 0;
}

-- the second thread of three cannot be created
abbrev short : Threads
short = record {
  memory = true;
  creates = λ i. i == 0;
  start = record { mutex = true; cond = true; context = true; backend = Code.ok };
  joined = λ r. r;
}

abbrev stopped : Runtime
stopped = record ended { running = true; stopping = true; signals = 1 }

one_round : worker_rounds true (plain_round ∷ []) (begun ended) ≡ some stopped
unfolding worker_rounds worker_round notify
one_round = refl

run_initialized-Settled_example :
    Returns (Settled 0) (run_initialized short 4 true (plain_round ∷ []) (ended, idle_crew))
run_initialized-Settled_example =
    run_initialized-Settled short 4 true (plain_round ∷ []) ended stopped idle_crew refl
      (record { no_array = refl; no_threads = refl }) one_round

-- two tasks wait for a channel, and nothing runs
abbrev deadlocked : Runtime
deadlocked = record (begun ended) { live_count = 2; running_tasks = 0 }

worker_round-Ending_example :
    let after = (worker_round true (λ r. r) (0, 0, 0) deadlocked).1 in
    Ending true 0 deadlocked after × (worker_round false (λ r. r) (7, 8, 9) after ≡ (leave, after))
unfolding wake_expired_timers
worker_round-Ending_example =
    worker_round-Ending true (λ r. r) (0, 0, 0) deadlocked false (λ r. r) (7, 8, 9)
      (unfold worker_round in refl)

-- the objects 5, 6 and 7 in a row
abbrev registered : Registry
registered = record {
  head = some 5;
  next = λ p. if p == 5 then some 6 else (if p == 6 then some 7 else none);
}

registered-Lists : Lists registered (5 ∷ (6 ∷ (7 ∷ [])))
registered-Lists = record {
  chain = (refl, (refl, (refl, refl)));
  distinct = (refl, (refl, (refl, tt)));
}

unregister-Unregisters_example :
    Returns (Unregisters (5 ∷ (6 ∷ (7 ∷ []))) 6) (unregister 4 registered 6)
unregister-Unregisters_example =
    unregister-Unregisters registered (5 ∷ (6 ∷ (7 ∷ []))) 6 registered-Lists

-- a task's memory is taken, the next allocation fails on demand, and the memory is given back
abbrev fresh_hooks : Hooks
fresh_hooks = record { fails = λ f. false; allocs = λ r. 0; frees = λ r. 0 }

abbrev one_taken : Hooks
one_taken = (alloc_task_memory fresh_hooks (some 5)).1

abbrev one_used : InUse
one_used r = if 0 == resource_number r then 5 ∷ [] else []

taking : HookSteps (fresh_hooks, λ r. []) (one_taken, one_used)
unfolding hooked_alloc
taking = HookSteps.next HookSteps.here (HookStep.allocate Resource.task (some 5) 5 refl)

steps-IsBalanced_example : IsBalanced (one_taken, one_used)
steps-IsBalanced_example = steps-IsBalanced taking (λ r. refl)
