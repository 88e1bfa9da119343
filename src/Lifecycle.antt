-- ===== src/Lifecycle.antt =====
-- src/runtime_lifecycle.c: mt_init_with_options, mt_init and mt_shutdown. What the initialisers of the
-- lock, of the condition variable, of the scheduler's context and of the I/O backend give is an
-- argument, and so are the effects of their counterparts, which touch nothing that is modelled.
pub mod Registered
pub mod Shutdown
use microthread.Base.{
  ℕ, zero, suc, Bool, true, false, Option, none, some, List, [], ◌∷◌, ◌==◌, ◌&&◌, ltb,
  if◌then◌else◌, length, erase,
}
use microthread.State.{Ptr, Code, is_ok, TaskStatus, Chan, Handle, Runtime}
use microthread.Transitions.{set_task, set_chan, set_handle, guarded_dec, notify}
use microthread.SelectWait.{free_task_waiters}
use microthread.Fd.{fd_waiter_remove, fd_wake_all}
use microthread.Join.{task_destroy}
use microthread.Stack.{default_size, min_size}

-- `memset(&g_rt, 0, sizeof(g_rt))`; the objects that lie elsewhere stay
abbrev pub reset : Runtime → Runtime
reset rt = record rt {
  initialized = false;
  running = false;
  stopping = false;
  run_result = Code.ok;
  next_id = 0;
  default_stack_size = 0;
  running_tasks = 0;
  current = none;
  all_tasks = [];
  runq = [];
  channels = [];
  handles = [];
  timers = record { items = []; cap = 0; next_seq = 0 };
  live_count = 0;
  completed_count = 0;
  channel_waiting_count = 0;
  join_waiting_count = 0;
  fd_waiters = [];
  fd_waiting_count = 0;
  fd_generations = [];
}

-- the size that the options ask for; `none` is too small. Options of NULL ask for nothing.
unfoldable pub chosen_size : Option ℕ → Option ℕ
chosen_size none = some default_size
chosen_size (some size) =
    if size == 0 then some default_size else (if ltb size min_size then none else some size)

-- Whether the lock, the condition variable and the context could be initialised, and what
-- mt_io_backend_init gave.
pub record Started : Type 0 where
  pub mutex : Bool
  pub cond : Bool
  pub context : Bool
  pub backend : Code

unfoldable pub init_with_options : Started → Runtime → Option ℕ → Code × Runtime
unfolding chosen_size is_ok
init_with_options os rt options =
    let begun : ℕ → Runtime = λ size. record (reset rt) { default_stack_size = size } in
    if rt.initialized then (Code.ok, rt) else elim (chosen_size options) [
      | none ↦ (Code.err_invalid, rt)
      | some size ↦
          if os.mutex && (os.cond && os.context)
          then (if is_ok os.backend
              then (Code.ok, record (begun size) { initialized = true; next_id = 1 })
              else (os.backend, begun size))
          else (Code.err, begun size)
    ]

unfoldable pub init : Started → Runtime → Code × Runtime
unfolding init_with_options
init os rt = init_with_options os rt none

-- a channel after the first loop of mt_shutdown
abbrev pub abandoned : Chan → Chan
abandoned ch = record ch { closed = true; send = []; recv = []; select_send = []; select_recv = [] }

unfoldable pub close_all : Runtime → List ℕ → Runtime
close_all rt [] = rt
close_all rt (c ∷ cs) = close_all (set_chan rt c (abandoned (rt.chan c))) cs

-- a handle after the second loop
abbrev pub orphaned : Handle → Handle
orphaned x = record x {
  cancel_requested = true;
  completed = true;
  status = TaskStatus.cancelled;
  join_result = Code.err_cancelled;
  task = none;
  joiners = [];
}

unfoldable pub complete_all : Runtime → List ℕ → Runtime
complete_all rt [] = rt
complete_all rt (h ∷ hs) = complete_all (set_handle rt h (orphaned (rt.handle h))) hs

-- the body of `while (g_rt.all_tasks)` up to mt_task_destroy
unfoldable pub detach : Runtime → ℕ → Runtime
detach rt t =
    let freed = free_task_waiters rt t in
    let unwatched : Runtime = elim (freed.task t).fd_waiter [
      | none ↦ freed
      | some w ↦
          let off = fd_waiter_remove freed w in
          set_task off t (record (off.task t) { fd_waiter = none })
    ] in
    record unwatched { live_count = guarded_dec unwatched.live_count }

-- The loop on fuel; `none` means that the fuel ran out.
unfoldable pub destroy_all : ℕ → Runtime → Option Runtime
unfolding detach task_destroy
destroy_all zero rt = none
destroy_all (suc k) rt = elim rt.all_tasks [
  | [] ↦ some rt
  | t ∷ ts ↦ destroy_all k (task_destroy (detach rt t) t)
]

-- mt_shutdown where workers run: they are told to stop
unfoldable pub stop_workers : Runtime → Runtime
unfolding fd_wake_all notify
stop_workers rt = notify (
    fd_wake_all (record rt { stopping = true; run_result = Code.err_cancelled }) Code.err_cancelled)

-- mt_shutdown on fuel for its loop over the tasks
unfoldable pub shutdown : ℕ → Runtime → Option Runtime
unfolding stop_workers close_all complete_all destroy_all
shutdown fuel rt =
    let closed = close_all rt rt.channels in
    let ended = destroy_all fuel (complete_all closed closed.handles) in
    let idle : Option Runtime = elim ended [ none ↦ none | some r ↦ some (reset r) ] in
    elim rt.current [
      | some t ↦ some rt
      | none ↦
          if rt.initialized then (if rt.running then some (stop_workers rt) else idle) else some rt
    ]
