-- ===== src/Tests.antt =====
-- Concrete objects on which the theorems are tried.
pub mod Channels
pub mod Queues
pub mod Timers
pub mod Tasks
pub mod Lifecycle
pub mod Io
pub mod Backends
pub mod Runs
pub mod Pipe
use microthread.Base.{ℕ, true, false, Option, none, some, List, [], ◌∷◌, ◌==◌, if◌then◌else◌}
use microthread.State.{
  Ptr, Elem, Code, TaskState, TaskStatus, wait_none, wait_send, op_recv, Events, FdWaiterState,
  FdWaiter, Task, SelectWaiter, Handle, Chan, TimerHeap, Runtime,
}

abbrev pub silent : Events
silent = record { read = false; write = false }

-- an open channel of two slots, with `held` in its buffer
abbrev pub channel : List Elem → ℕ → ℕ → Chan
channel buffer len tail = record {
  elem_size = 8;
  capacity = 2;
  len = len;
  head = 0;
  tail = tail;
  buffer = buffer;
  closed = false;
  send = [];
  recv = [];
  select_send = [];
  select_recv = [];
}

abbrev pub empty_channel : Chan
empty_channel = channel ([] ∷ [] ∷ []) 0 0

abbrev pub one_channel : Chan
one_channel = channel ((7 ∷ []) ∷ [] ∷ []) 1 1

abbrev pub some_task : TaskState → Task
some_task state = record {
  id = 1;
  state = state;
  wake_ns = 0;
  timer_seq = 0;
  handle = some 0;
  join_waiting_on = some 0;
  chan_wait_kind = wait_send;
  chan_wait_ch = some 0;
  chan_value = some 5;
  chan_result = Code.ok;
  join_result = Code.ok;
  select_waiters = [];
  select_waiter_count = 0;
  select_index = 0;
  select_result = Code.ok;
  select_in_timer = false;
  select_counted_waiting = false;
  fd_waiter = none;
  fd_result = Code.ok;
  fd_ready_events = silent;
  fd_in_timer = false;
}

abbrev pub some_handle : List ℕ → Handle
some_handle joiners = record {
  task = some 1;
  status = TaskStatus.running;
  cancel_requested = false;
  completed = false;
  released = false;
  join_result = Code.ok;
  joiners = joiners;
}

abbrev pub world : TaskState → Chan → Handle → Runtime
world state ch handle = record {
  initialized = true;
  running = true;
  stopping = false;
  run_result = Code.ok;
  next_id = 3;
  default_stack_size = 65536;
  running_tasks = 1;
  current = some 1;
  all_tasks = 1 ∷ 2 ∷ [];
  runq = [];
  channels = 0 ∷ [];
  handles = 0 ∷ [];
  timers = record { items = []; cap = 0; next_seq = 0 };
  live_count = 2;
  completed_count = 0;
  channel_waiting_count = 2;
  join_waiting_count = 2;
  fd_waiters = 4 ∷ [];
  fd_waiting_count = 1;
  fd_generations = [];
  task = λ t. some_task state;
  chan = λ c. ch;
  handle = λ h. handle;
  waiter =
      λ w. record { task = none; ch = none; op = op_recv; value = none; index = 0; active = false };
  fd_waiter = λ w. record {
    task = some 2;
    fd = 9;
    events = record { read = true; write = false };
    generation = 1;
    state = if w == 4 then FdWaiterState.active else FdWaiterState.removed;
  };
  mem = λ p. 42 ∷ [];
  signals = 0;
}
