-- ===== src/Tests/Lifecycle.antt =====
-- The theorems on stacks, on the creation of tasks, on the shutdown and on sequences of steps.
use microthread.Base.{◌≡◌, ◌-◌, refl, true, false, List, none, some, [], ◌∷◌, arith, Returns}
use microthread.State.{Code, word_mod, TaskState, Runtime}
use microthread.Stack.{Mapping, stack_alloc}
use microthread.Stack.Bounds.{Allocated, stack_alloc-Allocated, stack_alloc-wraps}
use microthread.Create.{Held, Supply, create_task}
use microthread.Create.Failure.{Outcome, create_task-Outcome}
use microthread.Lifecycle.{shutdown}
use microthread.Lifecycle.Shutdown.{IsShutDown, shutdown-Returns}
use microthread.Chan.Ops.{chan_send, chan_recv}
use microthread.Chan.Stable.{AllStable}
use microthread.Steps.{send, recv, here, next}
use microthread.Steps.Stability.{Reach-Stable}
use microthread.Tests.{one_channel, some_handle, world}

abbrev held : List Mapping
held = record { address = 65536; size = 8192 } ∷ []

stack_alloc-Allocated_example :
    Allocated 4096 20000 held (stack_alloc 4096 (λ n. some 1000000) true held 20000)
stack_alloc-Allocated_example =
    stack_alloc-Allocated 4096 (λ n. some 1000000) true held 20000 (omega arith) (omega arith)

stack_alloc-wraps_example :
    let result = (stack_alloc 4096 (λ n. some 1000000) true held (word_mod - 1)).0 in
    (result.0 ≡ Code.ok) × (result.1.usable_size ≡ 0)
stack_alloc-wraps_example =
    stack_alloc-wraps 1000000 (word_mod - 1) held (omega arith) (omega arith)

-- everything works but the context
abbrev without_context : Supply
without_context = record {
  new_handle = some 7;
  new_task = some 9;
  page = 4096;
  mmap = λ n. some 1000000;
  protects = true;
  context = false;
}

abbrev busy : Runtime
busy = world TaskState.running one_channel (some_handle (2 ∷ []))

abbrev memory : Held
memory = record { task_memory = 1 ∷ 2 ∷ []; handle_memory = 0 ∷ []; mappings = held }

create_task-Outcome_example :
    let ((result, handle), after) =
      create_task without_context (busy, memory) (some 1234) 20000 true in
    Outcome (busy, memory) handle (result, after)
create_task-Outcome_example =
    create_task-Outcome without_context 20000 (busy, memory) (omega arith) (omega arith) (some 1234)
      true

abbrev resting : Runtime
resting = record busy { running = false; current = none }

shutdown-Returns_example : Returns (IsShutDown resting) (shutdown 3 resting)
shutdown-Returns_example = shutdown-Returns 3 resting refl refl refl (omega arith)

busy-AllStable : AllStable busy
busy-AllStable c = ground arith

-- a task sends, and a task receives
abbrev sent : Runtime
sent = (chan_send busy (some 0) (some 5)).1

Reach-Stable_example : AllStable (chan_recv sent (some 0) (some 6)).1
Reach-Stable_example =
    Reach-Stable (next (next here (send (some 0) (some 5))) (recv (some 0) (some 6))) busy-AllStable
