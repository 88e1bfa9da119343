-- ===== src/Scheduler.antt =====
-- src/scheduler.c: one round of mt_worker_loop up to the switch, mt_task_after_switch, mt_yield and
-- mt_sleep_ms, and mt_wake_expired_timers of src/timer.c. The polls of the backend are an argument,
-- as are the readings of the clock; there are OS threads.
pub mod Status
pub mod Live
pub mod Frame
pub mod Expiry
use microthread.Base.{
  ℕ, zero, suc, ◌+◌, ◌-◌, ◌/◌, ◌%◌, Bool, true, false, none, some, [], ◌∷◌, ltb, leb, ◌==◌, ◌&&◌,
  Option, ◌||◌, not, if◌then◌else◌, length,
}
use microthread.State.{Ptr, word_mod, Code, is_ok, TaskState, TaskStatus, Handle, Runtime}
use microthread.Deadline.{ns_per_ms, ns_of_ms, deadline_after}
use microthread.Transitions.{
  set_task, set_handle, guarded_dec, notify, runq_push, mark_ready, mark_running,
}
use microthread.TimerOps.{timer_pop, timer_push_state}
use microthread.SelectWait.{select_timeout_ready}
use microthread.Fd.{fd_timeout_ready}
use microthread.Join.{handle_complete, task_destroy}
use microthread.Queue.Fifo

-- mt_timer_peek
abbrev pub timer_peek : Runtime → Ptr
timer_peek rt = Fifo.first rt.timers.items

-- what becomes of a task whose timer has expired, by the state that it sleeps in
unfoldable pub expired_in : TaskState → Runtime → ℕ → Runtime
expired_in TaskState.waiting_select rt t = select_timeout_ready rt t
expired_in TaskState.waiting_fd rt t = fd_timeout_ready rt t
expired_in _ rt t = mark_ready rt t

unfoldable pub timer_ready : Runtime → ℕ → Runtime
unfolding expired_in
timer_ready rt t = expired_in (rt.task t).state rt t

-- mt_wake_expired_timers on fuel; each round takes one task from the heap
unfoldable pub wake_expired : ℕ → Runtime → ℕ → Runtime
unfolding timer_ready
wake_expired zero rt now = rt
wake_expired (suc k) rt now =
    let (top, popped) = timer_pop rt in
    let later : Runtime = elim top [
      | none ↦ popped
      | some x ↦ wake_expired k (timer_ready popped x) now
    ] in
    elim (timer_peek rt) [ none ↦ rt | some t ↦ if ltb now (rt.task t).wake_ns then rt else later ]

unfoldable pub wake_expired_timers : Runtime → ℕ → Runtime
unfolding wake_expired
wake_expired_timers rt now = wake_expired (length rt.timers.items) rt now

-- the status that a handle shows of a task that goes on
unfoldable pub show_status : Runtime → ℕ → TaskStatus → Runtime
show_status rt t status = elim (rt.task t).handle [
  | none ↦ rt
  | some h ↦
      let x = rt.handle h in
      if x.completed
      then rt
      else set_handle rt h
          (record x { status = if x.cancel_requested then TaskStatus.cancelled else status })
]

-- a task that has returned
unfoldable pub retire : Runtime → ℕ → Runtime
retire rt t =
    let counted = record rt {
      live_count = guarded_dec rt.live_count;
      completed_count = rt.completed_count + 1;
    } in
    let told : Runtime = elim (rt.task t).handle [
      | none ↦ counted
      | some h ↦ handle_complete counted h (rt.handle h).cancel_requested
    ] in
    task_destroy told t

-- no task is current
abbrev pub off_worker : Runtime → Runtime
off_worker rt = record rt { current = none; running_tasks = guarded_dec rt.running_tasks }

-- what follows the switch, by the state in which the task left
unfoldable pub switched_in : TaskState → Runtime → ℕ → Runtime
unfolding show_status retire
switched_in TaskState.ready rt t = runq_push (show_status rt t TaskStatus.ready) t
switched_in TaskState.sleeping rt t = show_status rt t TaskStatus.sleeping
switched_in TaskState.waiting_chan rt t = show_status rt t TaskStatus.waiting_chan
switched_in TaskState.waiting_select rt t = show_status rt t TaskStatus.waiting_select
switched_in TaskState.waiting_fd rt t = show_status rt t TaskStatus.waiting_fd
switched_in TaskState.waiting_join rt t = show_status rt t TaskStatus.waiting_join
switched_in TaskState.dead rt t = retire rt t
switched_in TaskState.running rt t =
    notify (record rt { run_result = Code.err_state; stopping = true })

unfoldable pub after_switch : Runtime → ℕ → Runtime
unfolding switched_in
after_switch before t = switched_in (before.task t).state (off_worker before) t

-- what a worker does next: leave the loop, poll for a number of milliseconds, wait for a signal,
-- for a signal or a number of nanoseconds, try again, or run a task
pub data Next : Type 0 where
  leave : Next
  poll : ℕ → Next
  wait : Next
  wait_ns : ℕ → Next
  again : Next
  run : ℕ → Next

-- `g_rt.run_result = MT_ERR_STATE; g_rt.stopping = 1; mt_notify_all();`
unfoldable pub stop_blocked : Runtime → Runtime
stop_blocked rt = notify (record rt { run_result = Code.err_state; stopping = true })

-- the poll's timeout in milliseconds, at most 10
unfoldable pub poll_timeout : Runtime → ℕ → ℕ
poll_timeout rt now = elim (timer_peek rt) [
  | none ↦ 10
  | some t ↦
      let delay_ms = ((rt.task t).wake_ns - now + ns_per_ms - 1) % word_mod / ns_per_ms in
      if leb (rt.task t).wake_ns now then 0 else (if ltb delay_ms 10 then delay_ms else 10)
]

-- without a timer and without fd waiters
unfoldable pub idle_untimed : Runtime → Next × Runtime
unfolding stop_blocked
idle_untimed rt =
    if rt.running_tasks == 0
      && (ltb 0 rt.channel_waiting_count
          || (ltb 0 rt.join_waiting_count || ltb 0 rt.fd_waiting_count))
    then (leave, stop_blocked rt)
    else (wait, rt)

-- no task is ready
unfoldable pub idle : Bool → ℕ → ℕ → Runtime → Next × Runtime
unfolding poll_timeout idle_untimed stop_blocked
idle sleep_for_timers now_for_poll now rt =
    let timed : Next × Runtime = elim (timer_peek rt) [
      | none ↦ idle_untimed rt
      | some t ↦
          if ltb now (rt.task t).wake_ns
          then (if sleep_for_timers
              then (wait_ns ((rt.task t).wake_ns - now), rt)
              else (leave, stop_blocked rt))
          else (again, rt)
    ] in
    if rt.stopping
    then (leave, rt)
    else (if rt.live_count == 0
        then (leave, notify (record rt { stopping = true }))
        else (if ltb 0 rt.fd_waiting_count
            then (poll (poll_timeout rt now_for_poll), rt)
            else timed))

-- a task is taken from the run queue
unfoldable pub start : Runtime → ℕ → Runtime
unfolding show_status
start rt t =
    show_status
      (mark_running (record rt { current = some t; running_tasks = rt.running_tasks + 1 }) t) t
      TaskStatus.running

pub is_cancelled : Code → Bool
is_cancelled Code.err_cancelled = true
is_cancelled _ = false

-- the first task of the run queue, or what there is to do without one
unfoldable pub take_next : Bool → ℕ → ℕ → Runtime → Next × Runtime
unfolding idle start
take_next sleep_for_timers now_for_poll now_for_wait rt = elim (Fifo.first rt.runq) [
  | none ↦ idle sleep_for_timers now_for_poll now_for_wait rt
  | some t ↦ (run t, start (record rt { runq = Fifo.rest rt.runq }) t)
]

-- One round of the loop, from the check of `stopping` to the switch or the wait. `polled` is
-- mt_poll_fd_waiters_once.
unfoldable pub worker_round : Bool → (Runtime → Runtime) → (ℕ × ℕ × ℕ) → Runtime → Next × Runtime
unfolding wake_expired_timers take_next is_cancelled
worker_round sleep_for_timers polled (now, now_for_poll, now_for_wait) rt =
    let woken = if rt.stopping then rt else polled (wake_expired_timers rt now) in
    if rt.stopping && (not (is_cancelled rt.run_result) || not (ltb 0 (length rt.runq)))
    then (leave, rt)
    else take_next sleep_for_timers now_for_poll now_for_wait woken

-- mt_yield up to the switch; `none` for the current task: it returns at once
unfoldable pub yield : Runtime → Runtime
yield rt = elim rt.current [
  | none ↦ rt
  | some t ↦ set_task rt t (record (rt.task t) { state = TaskState.ready })
]

-- mt_sleep_ms from the result of mt_timer_push_state on
unfoldable pub slept : Runtime → ℕ → Option (Code × Runtime) → (Bool × ℕ) × Runtime
unfolding is_ok
slept rt ms none = ((false, ns_of_ms ms), rt)
slept rt ms (some (rc, timed)) = if is_ok rc then ((true, 0), timed) else ((false, ns_of_ms ms), rt)

-- mt_sleep_ms up to the switch: whether it switches to the scheduler, and for how many nanoseconds
-- it blocks the OS thread where the heap cannot grow
unfoldable pub sleep_ms : (ℕ → Bool) → ℕ → Runtime → ℕ → (Bool × ℕ) × Runtime
unfolding yield slept
sleep_ms heap_grows now rt ms = elim rt.current [
  | none ↦ ((false, 0), rt)
  | some t ↦
      let pushed =
        slept rt ms (timer_push_state heap_grows rt t (deadline_after now ms) TaskState.sleeping) in
      if ms == 0 then ((true, 0), yield rt) else pushed
]
