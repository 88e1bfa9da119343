-- ===== src/SelectWait.antt =====
-- src/select_wait.c: the waiters of a task that is parked in a select.
use microthread.Base.{ℕ, Bool, false, none, some, List, [], ◌∷◌, if◌then◌else◌, has, erase}
use microthread.State.{Code, SelectOp, op_recv, op_send, op_default, op_timeout, Runtime}
use microthread.Transitions.{set_task, set_chan, set_waiter, mark_ready, complete_select_wait}
use microthread.TimerOps.{timer_remove}

-- mt_select_waitq_remove on one of the queues of a channel
unfoldable pub select_waitq_remove : Runtime → ℕ → List ℕ → Runtime
select_waitq_remove rt w queue =
    if has w queue then set_waiter rt w (record (rt.waiter w) { active = false }) else rt

-- where the waiter's operation says that it is queued
unfoldable pub dequeue : Runtime → SelectOp → ℕ → ℕ → Bool × Runtime
unfolding select_waitq_remove
dequeue rt op_send c w =
    let ch = rt.chan c in
    (
      has w ch.select_send,
      set_chan (select_waitq_remove rt w ch.select_send) c
          (record ch { select_send = erase w ch.select_send }),
    )
dequeue rt op_recv c w =
    let ch = rt.chan c in
    (
      has w ch.select_recv,
      set_chan (select_waitq_remove rt w ch.select_recv) c
          (record ch { select_recv = erase w ch.select_recv }),
    )
dequeue rt op_default c w = (false, rt)
dequeue rt op_timeout c w = (false, rt)

unfoldable pub remove_waiter_from_channel : Runtime → ℕ → Bool × Runtime
unfolding dequeue
remove_waiter_from_channel rt w =
    let x = rt.waiter w in
    elim x.ch [
      | none ↦ (false, rt)
      | some c ↦ if x.active then dequeue rt x.op c w else (false, rt)
    ]

-- the loop of mt_select_free_task_waiters; the memory that it frees is not used again
unfoldable pub remove_all : Runtime → List ℕ → Runtime
unfolding remove_waiter_from_channel
remove_all rt [] = rt
remove_all rt (w ∷ ws) =
    remove_all (if (rt.waiter w).active then (remove_waiter_from_channel rt w).1 else rt) ws

unfoldable pub free_task_waiters : Runtime → ℕ → Runtime
unfolding remove_all
free_task_waiters rt t =
    let cleared = remove_all rt (rt.task t).select_waiters in
    set_task cleared t (record (cleared.task t) { select_waiters = []; select_waiter_count = 0 })

-- the part of mt_select_unpark_task that stops the timeout
unfoldable pub stop_timeout : Runtime → ℕ → Runtime
stop_timeout rt t =
    let stopped = (timer_remove rt t).1 in
    if (rt.task t).select_in_timer
    then set_task stopped t (record (stopped.task t) { select_in_timer = false })
    else rt

unfoldable pub unpark_task : Runtime → ℕ → Code → ℕ → Runtime
unfolding stop_timeout free_task_waiters
unpark_task rt t result index =
    let ended = complete_select_wait (free_task_waiters (stop_timeout rt t) t) t in
    mark_ready
      (set_task ended t (record (ended.task t) { select_result = result; select_index = index })) t

unfoldable pub complete_waiter : Runtime → ℕ → Code → Runtime
unfolding unpark_task
complete_waiter rt w result =
    let x = rt.waiter w in
    elim x.task [
      | none ↦ rt
      | some t ↦ unpark_task (set_waiter rt w (record x { active = false })) t result x.index
    ]

unfoldable pub select_timeout_ready : Runtime → ℕ → Runtime
unfolding free_task_waiters
select_timeout_ready rt t =
    let stopped = set_task rt t (record (rt.task t) { select_in_timer = false }) in
    let ended = complete_select_wait (free_task_waiters stopped t) t in
    mark_ready (set_task ended t (record (ended.task t) { select_result = Code.ok })) t
