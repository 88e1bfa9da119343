-- ===== src/Create.antt =====
-- The creation of tasks in src/task.c, and mt_task_cancelled. What the allocators, mmap, mprotect and
-- the constructor of the context give is an argument; what the process holds of them is part of the
-- state. The identifiers are an `int` that no run is taken to exhaust.
pub mod Undone
pub mod Failure
use microthread.Base.{
  ℕ, ◌+◌, Bool, true, false, Option, none, some, List, [], ◌∷◌, ◌==◌, ◌&&◌, not, ltb, if◌then◌else◌,
  length, erase,
}
use microthread.State.{Ptr, Code, is_ok, TaskState, TaskStatus, wait_none, Task, Handle, Runtime}
use microthread.Transitions.{set_task, set_handle, runq_push}
use microthread.Fd.{no_events}
use microthread.Join.{is_null, handle_free_if_possible}
use microthread.Lifecycle.{Started, init}
use microthread.Stack.{Mapping, Stack, stack_alloc, stack_free}

-- the memory and the mappings that the process holds
pub record Held : Type 0 where
  pub task_memory : List ℕ
  pub handle_memory : List ℕ
  pub mappings : List Mapping

-- what a creation is given from outside: addresses, `none` where there is no memory, the page size,
-- mmap, and whether mprotect and mt_make_context work
pub record Supply : Type 0 where
  pub new_handle : Ptr
  pub new_task : Ptr
  pub page : ℕ
  pub mmap : ℕ → Ptr
  pub protects : Bool
  pub context : Bool

abbrev pub World : Type 0
World = Runtime × Held

-- memory from calloc
abbrev pub zero_handle : Handle
zero_handle = record {
  task = none;
  status = TaskStatus.ready;
  cancel_requested = false;
  completed = false;
  released = false;
  join_result = Code.ok;
  joiners = [];
}

abbrev pub zero_task : Task
zero_task = record {
  id = 0;
  state = TaskState.ready;
  wake_ns = 0;
  timer_seq = 0;
  handle = none;
  join_waiting_on = none;
  chan_wait_kind = wait_none;
  chan_wait_ch = none;
  chan_value = none;
  chan_result = Code.ok;
  join_result = Code.ok;
  select_waiters = [];
  select_waiter_count = 0;
  select_index = 0;
  select_result = Code.ok;
  select_in_timer = false;
  select_counted_waiting = false;
  fd_waiter = none;
  fd_result = Code.ok;
  fd_ready_events = no_events;
  fd_in_timer = false;
}

-- A call that creates a task returns its identifier, or an error code.
pub data Created : Type 0 where
  created : ℕ → Created
  failed : Code → Created

-- mt_alloc_handle_memory, and the entry in the registry
unfoldable pub make_handle : World → ℕ → World
make_handle (rt, held) h = (
  record (set_handle rt h zero_handle) { handles = h ∷ rt.handles },
  record held { handle_memory = h ∷ held.handle_memory },
)

-- mt_handle_free_if_possible frees the memory where it takes the handle off the registry
unfoldable pub drop_handle : World → Ptr → World
unfolding handle_free_if_possible
drop_handle w none = w
drop_handle (rt, held) (some h) =
    let released = set_handle rt h (record (rt.handle h) { released = true }) in
    let x = released.handle h in
    (
      handle_free_if_possible released h,
      if x.released && is_null x.task && not (ltb 0 (length x.joiners))
          then record held { handle_memory = erase h held.handle_memory }
          else held,
    )

-- `handle->task = target`
unfoldable pub link_handle : Runtime → Ptr → Ptr → Runtime
link_handle rt none target = rt
link_handle rt (some h) target = set_handle rt h (record (rt.handle h) { task = target })

-- the fields that a new task gets, and the way back from its handle
unfoldable pub fill_task : Runtime → ℕ → Ptr → Runtime
unfolding link_handle
fill_task rt t handle =
    link_handle
      (record (set_task rt t (record zero_task { id = rt.next_id; handle = handle })) {
        next_id = rt.next_id + 1;
      })
      handle (some t)

-- the end of mt_create_task_internal: the task joins the run queue and the registry
unfoldable pub launch : Runtime → ℕ → Runtime
unfolding runq_push
launch rt t =
    let queued = runq_push rt t in
    record queued { all_tasks = t ∷ queued.all_tasks; live_count = queued.live_count + 1 }

-- mt_create_task_internal once the task has its stack
unfoldable pub create_on : Bool → World → Ptr → ℕ → Stack → Created × World
unfolding drop_handle fill_task launch stack_free
create_on context (rt, held) handle t stack =
    let made = fill_task rt t handle in
    let unmapped = (stack_free held.mappings stack).1 in
    let given_back = record held { mappings = unmapped; task_memory = erase t held.task_memory } in
    if context
    then (created rt.next_id, (launch made t, held))
    else (failed Code.err, drop_handle (link_handle made handle none, given_back) handle)

-- mt_create_task_internal from the result of mt_stack_alloc on
unfoldable pub create_stacked :
    Bool → World → Ptr → ℕ → (Code × Stack) × List Mapping → Created × World
unfolding create_on drop_handle is_ok
create_stacked context (rt, held) handle t ((rc, stack), mappings) =
    let owned = record held { task_memory = t ∷ held.task_memory; mappings = mappings } in
    let freed = record held { mappings = mappings } in
    if is_ok rc
    then create_on context (set_task rt t zero_task, owned) handle t stack
    else (failed rc, drop_handle (rt, freed) handle)

-- mt_create_task_internal from the allocation of the task on
unfoldable pub create_with : Supply → World → Ptr → ℕ → Created × World
unfolding create_stacked stack_alloc drop_handle
create_with os (rt, held) handle stack_size = elim os.new_task [
  | none ↦ (failed Code.err_nomem, drop_handle (rt, held) handle)
  | some t ↦
      let size = if stack_size == 0 then rt.default_stack_size else stack_size in
      create_stacked os.context (rt, held) handle t
        (stack_alloc os.page os.mmap os.protects held.mappings size)
]

-- `*out_handle = handle`, which only a success does
abbrev pub handed_out : Created → Ptr → Ptr
handed_out (created id) handle = handle
handed_out (failed rc) handle = none

-- mt_create_task_internal: the result, and the handle
unfoldable pub create_task : Supply → World → Ptr → ℕ → Bool → (Created × Ptr) × World
unfolding create_with make_handle
create_task os w none stack_size want_handle = ((failed Code.err_invalid, none), w)
create_task os w (some fn) stack_size false =
    let (result, after) = create_with os w none stack_size in ((result, none), after)
create_task os w (some fn) stack_size true = elim os.new_handle [
  | none ↦ ((failed Code.err_nomem, none), w)
  | some h ↦
      let (result, after) = create_with os (make_handle w h) (some h) stack_size in
      ((result, handed_out result (some h)), after)
]

-- `!g_rt.initialized && mt_init() != MT_OK`, negated
unfoldable pub ensure_init : Started → Runtime → Bool × Runtime
unfolding init is_ok
ensure_init started rt =
    let (rc, after) = init started rt in if rt.initialized then (true, rt) else (is_ok rc, after)

-- mt_go_with_stack; mt_go is the size 0
unfoldable pub go_with_stack : Started → Supply → World → Ptr → ℕ → Created × World
unfolding ensure_init create_task
go_with_stack started os (rt, held) fn stack_size =
    let (ready, begun) = ensure_init started rt in
    let ((result, handle), after) = create_task os (begun, held) fn stack_size false in
    if ready then (result, after) else (failed Code.err, (begun, held))

abbrev pub go : Started → Supply → World → Ptr → Created × World
go started os w fn = go_with_stack started os w fn 0

-- mt_go_handle_with_stack; mt_go_handle is the size 0
unfoldable pub go_handle_with_stack : Started → Supply → World → Ptr → ℕ → Ptr × World
unfolding ensure_init create_task
go_handle_with_stack started os (rt, held) fn stack_size =
    let (ready, begun) = ensure_init started rt in
    let ((result, handle), after) = create_task os (begun, held) fn stack_size true in
    if ready then (handle, after) else (none, (begun, held))

abbrev pub go_handle : Started → Supply → World → Ptr → Ptr × World
go_handle started os w fn = go_handle_with_stack started os w fn 0

unfoldable pub task_cancelled : Runtime → Bool
task_cancelled rt = elim rt.current [
  | none ↦ false
  | some t ↦ elim (rt.task t).handle [ none ↦ false | some h ↦ (rt.handle h).cancel_requested ]
]
