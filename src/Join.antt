-- ===== src/Join.antt =====
-- src/join.c, the end of src/task.c (join, cancel, status, release), mt_task_destroy, and
-- mt_chan_remove_waiter of src/scheduler.c.
pub mod Wake
pub mod Live
pub mod Count
use microthread.Base.{
  ℕ, zero, suc, ◌+◌, Bool, true, false, Option, none, some, List, [], ◌∷◌, ◌==◌, ◌&&◌, ◌||◌, not,
  ltb, if◌then◌else◌, has, erase, length,
}
use microthread.State.{
  Ptr, Code, TaskState, TaskStatus, ChanWaitKind, wait_none, wait_send, wait_recv, Runtime,
}
use microthread.Transitions.{
  set_task, set_chan, set_handle, guarded_dec, mark_ready, mark_dead, clear_channel_wait,
  complete_channel_wait, block_on_join, complete_join_wait,
}
use microthread.TimerOps.{timer_remove}
use microthread.SelectWait.{free_task_waiters, unpark_task}
use microthread.Fd.{no_events, fd_ready_waiter, fd_waiter_remove}
use microthread.Queue.Fifo
use microthread.Chan.Ops.{Outcome, returned, parked}

abbrev pub is_null : Ptr → Bool
is_null none = true
is_null (some x) = false

abbrev pub is_pointer : ℕ → Ptr → Bool
is_pointer t none = false
is_pointer t (some x) = t == x

unfoldable pub status_from_task : TaskState → TaskStatus
status_from_task TaskState.ready = TaskStatus.ready
status_from_task TaskState.running = TaskStatus.running
status_from_task TaskState.sleeping = TaskStatus.sleeping
status_from_task TaskState.waiting_chan = TaskStatus.waiting_chan
status_from_task TaskState.waiting_select = TaskStatus.waiting_select
status_from_task TaskState.waiting_fd = TaskStatus.waiting_fd
status_from_task TaskState.waiting_join = TaskStatus.waiting_join
status_from_task TaskState.dead = TaskStatus.done

-- with mt_handle_unregister; the memory that it frees is not used again
unfoldable pub handle_free_if_possible : Runtime → ℕ → Runtime
handle_free_if_possible rt h =
    let x = rt.handle h in
    if x.released && is_null x.task && not (ltb 0 (length x.joiners))
    then record rt { handles = erase h rt.handles }
    else rt

-- the loop of mt_handle_complete on fuel
unfoldable pub wake_joiners : ℕ → Runtime → ℕ → Code → Runtime
wake_joiners zero rt h result = rt
wake_joiners (suc k) rt h result = elim (Fifo.first (rt.handle h).joiners) [
  | none ↦ rt
  | some t ↦
      let popped =
        set_handle rt h (record (rt.handle h) { joiners = Fifo.rest (rt.handle h).joiners }) in
      wake_joiners k (complete_join_wait popped t result) h result
]

-- the fields that mt_handle_complete sets first
unfoldable pub finish_handle : Runtime → ℕ → Bool → Runtime
finish_handle rt h cancelled = set_handle rt h (record (rt.handle h) {
  completed = true;
  task = none;
  status = if cancelled then TaskStatus.cancelled else TaskStatus.done;
  join_result = if cancelled then Code.err_cancelled else Code.ok;
})

unfoldable pub handle_complete : Runtime → ℕ → Bool → Runtime
unfolding wake_joiners finish_handle handle_free_if_possible
handle_complete rt h cancelled =
    let finished = finish_handle rt h cancelled in
    let woken =
      wake_joiners (length (rt.handle h).joiners) finished h (finished.handle h).join_result in
    if (rt.handle h).completed then rt else handle_free_if_possible woken h

unfoldable pub handle_remove_joiner : Runtime → Ptr → ℕ → Bool × Runtime
handle_remove_joiner rt none t = (false, rt)
handle_remove_joiner rt (some h) t =
    let removed =
      set_handle rt h (record (rt.handle h) { joiners = erase t (rt.handle h).joiners }) in
    if has t (rt.handle h).joiners
    then (
      true,
      set_task (record removed { join_waiting_count = guarded_dec rt.join_waiting_count }) t
          (record (rt.task t) { join_waiting_on = none }),
    )
    else (false, rt)

-- mt_join; when a parked task resumes, the call returns the `join_result` of its task
unfoldable pub join : Runtime → Ptr → Outcome × Runtime
join rt none = (returned Code.err_invalid, rt)
join rt (some h) =
    if (rt.handle h).completed then (returned (rt.handle h).join_result, rt) else elim rt.current [
      | none ↦ (returned Code.err_state, rt)
      | some t ↦
          let blocked = block_on_join rt t h in
          if is_pointer t (rt.handle h).task then (returned Code.err_state, rt) else (
            parked,
            set_handle blocked h
                (record (blocked.handle h) { joiners = Fifo.push (blocked.handle h).joiners t }),
          )
    ]

-- mt_chan_remove_waiter before it clears the task's fields: whether it found the task
unfoldable pub unqueue : Runtime → ℕ → ℕ → Bool × Runtime
unqueue rt t c = elim (rt.task t).chan_wait_kind [
  | wait_none ↦ (false, rt)
  | wait_send ↦ (
    has t (rt.chan c).send,
    set_chan rt c (record (rt.chan c) { send = erase t (rt.chan c).send }),
  )
  | wait_recv ↦ (
    has t (rt.chan c).recv,
    set_chan rt c (record (rt.chan c) { recv = erase t (rt.chan c).recv }),
  )
]

unfoldable pub chan_remove_waiter : Runtime → ℕ → Bool × Runtime
unfolding unqueue
chan_remove_waiter rt t = elim (rt.task t).chan_wait_ch [
  | none ↦ (false, rt)
  | some c ↦
      let (found, off) = unqueue rt t c in
      let count = off.channel_waiting_count in
      (
        found,
        clear_channel_wait
            (record off { channel_waiting_count = if found then guarded_dec count else count }) t,
      )
]

-- mt_task_destroy, without the release of the stack and the context
unfoldable pub task_destroy : Runtime → ℕ → Runtime
task_destroy rt t =
    let freed = free_task_waiters rt t in
    let unwatched : Runtime = elim (freed.task t).fd_waiter [
      | none ↦ freed
      | some w ↦
          let off = fd_waiter_remove freed w in
          set_task off t (record (off.task t) { fd_waiter = none; fd_in_timer = false })
    ] in
    record unwatched { all_tasks = erase t unwatched.all_tasks }

-- a ready task is taken out of the run queue, and counts as completed
unfoldable pub leave_runq : Runtime → ℕ → Runtime
leave_runq rt t =
    let dead = mark_dead (record rt { runq = erase t rt.runq }) t in
    record dead {
      live_count = guarded_dec dead.live_count;
      completed_count = dead.completed_count + 1;
    }

unfoldable pub tell_handle : Runtime → ℕ → Runtime
unfolding handle_complete
tell_handle rt t = elim (rt.task t).handle [ none ↦ rt | some h ↦ handle_complete rt h true ]

-- a ready task that is cancelled
unfoldable pub cancel_ready : Runtime → ℕ → Runtime
unfolding leave_runq tell_handle task_destroy
cancel_ready rt t = task_destroy (tell_handle (leave_runq rt t) t) t

unfoldable pub cancel_channel_wait : Runtime → ℕ → Runtime
unfolding chan_remove_waiter
cancel_channel_wait rt t =
    let (found, off) = chan_remove_waiter rt t in
    if found then complete_channel_wait off t Code.err_cancelled else off

unfoldable pub cancel_join_wait : Runtime → ℕ → Runtime
unfolding handle_remove_joiner
cancel_join_wait rt t =
    let (found, off) = handle_remove_joiner rt (rt.task t).join_waiting_on t in
    if found then complete_join_wait off t Code.err_cancelled else off

unfoldable pub task_wake_for_cancel : Runtime → ℕ → Runtime
unfolding cancel_ready cancel_channel_wait cancel_join_wait
task_wake_for_cancel rt t = elim (rt.task t).state [
  | TaskState.ready ↦ if has t rt.runq then cancel_ready rt t else rt
  | TaskState.sleeping ↦
      let (found, off) = timer_remove rt t in if found then mark_ready off t else off
  | TaskState.waiting_chan ↦ cancel_channel_wait rt t
  | TaskState.waiting_select ↦ unpark_task rt t Code.err_cancelled (rt.task t).select_index
  | TaskState.waiting_fd ↦ elim (rt.task t).fd_waiter [
    | none ↦ rt
    | some w ↦ fd_ready_waiter rt w Code.err_cancelled no_events
  ]
  | TaskState.waiting_join ↦ cancel_join_wait rt t
  | TaskState.running ↦ rt
  | TaskState.dead ↦ rt
]

-- mt_task_wake_for_cancel, for a handle whose task may be gone
unfoldable pub wake_target : Runtime → Ptr → Runtime
unfolding task_wake_for_cancel
wake_target rt none = rt
wake_target rt (some t) = task_wake_for_cancel rt t

unfoldable pub request_cancel : Runtime → ℕ → Runtime
request_cancel rt h = set_handle rt h (record (rt.handle h) { cancel_requested = true })

unfoldable pub show_cancelled : Runtime → ℕ → Runtime
show_cancelled rt h = set_handle rt h (record (rt.handle h) { status = TaskStatus.cancelled })

unfoldable pub task_cancel : Runtime → Ptr → Code × Runtime
unfolding wake_target request_cancel show_cancelled
task_cancel rt none = (Code.err_invalid, rt)
task_cancel rt (some h) =
    let requested = request_cancel rt h in
    let told = show_cancelled requested h in
    let woken = wake_target told (told.handle h).task in
    (Code.ok, if (rt.handle h).completed then requested else woken)

-- mt_task_status: the code, and the status where the code is MT_OK
unfoldable pub task_status : Runtime → Ptr → Ptr → Code × Option TaskStatus
unfolding status_from_task
task_status rt none out = (Code.err_invalid, none)
task_status rt (some h) none = (Code.err_invalid, none)
task_status rt (some h) (some out) =
    let x = rt.handle h in
    let of_task : TaskStatus = elim x.task [
      | none ↦ x.status
      | some t ↦ status_from_task (rt.task t).state
    ] in
    (
      Code.ok,
      some (
          if x.completed
          then x.status
          else (if x.cancel_requested then TaskStatus.cancelled else of_task)),
    )

unfoldable pub task_handle_release : Runtime → Ptr → Runtime
unfolding handle_free_if_possible
task_handle_release rt none = rt
task_handle_release rt (some h) =
    handle_free_if_possible (set_handle rt h (record (rt.handle h) { released = true })) h
