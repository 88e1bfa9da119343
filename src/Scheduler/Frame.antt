-- ===== src/Scheduler/Frame.antt =====
-- What becomes of a task whose timer has expired leaves the timers of the others alone.
use native.Mathlib.Decide.{ℕ_discrete}
use microthread.Base.{
  ℕ, ◌+◌, ◌≡◌, refl, ap, ◌∙◌, inl, inr, true, false, Bool, List, [], ◌∷◌, arith, eq→==, ne→==,
  Option-cases, if_both,
}
use microthread.State.{
  Code, TaskState, SelectOp, op_recv, op_send, op_default, op_timeout, Task, Runtime,
}
use microthread.Transitions.{
  set_task, mark_ready, runq_push, notify, complete_select_wait, guarded_dec,
}
use microthread.SelectWait.{
  select_waitq_remove, dequeue, remove_waiter_from_channel, remove_all, free_task_waiters,
  select_timeout_ready,
}
use microthread.Fd.{deactivated, fd_waiter_deactivate, fd_expire, fd_timeout_ready, no_events}
use microthread.Queue.Fifo
use microthread.Scheduler.{expired_in}

-- the timers, and what they go by, are the same
pub record SameTimers (a b : Runtime) : Type 0 where
  pub timers : b.timers ≡ a.timers
  pub wake : (u : ℕ) → (b.task u).wake_ns ≡ (a.task u).wake_ns
  pub age : (u : ℕ) → (b.task u).timer_seq ≡ (a.task u).timer_seq

SameTimers-refl : (a : Runtime) → SameTimers a a
SameTimers-refl a = record { timers = refl; wake = λ u. refl; age = λ u. refl }

SameTimers-trans : (a b c : Runtime) → SameTimers a b → SameTimers b c → SameTimers a c
SameTimers-trans a b c p q = record {
  timers = q.timers ∙ p.timers;
  wake = λ u. q.wake u ∙ p.wake u;
  age = λ u. q.age u ∙ p.age u;
}

-- a task is written, but for its timer
written-SameTimers :
    (rt : Runtime) (t : ℕ) (x : Task)
    → x.wake_ns ≡ (rt.task t).wake_ns
    → x.timer_seq ≡ (rt.task t).timer_seq
    → SameTimers rt (set_task rt t x)
written-SameTimers rt t x p q = record {
  timers = refl;
  wake = λ u. elim (ℕ_discrete t u) [
    | yes e ↦ rw (eq→== t u e) (p ∙ ap (λ v. (rt.task v).wake_ns) e)
    | no ne ↦ rw (ne→== t u ne) refl
  ];
  age = λ u. elim (ℕ_discrete t u) [
    | yes e ↦ rw (eq→== t u e) (q ∙ ap (λ v. (rt.task v).timer_seq) e)
    | no ne ↦ rw (ne→== t u ne) refl
  ];
}

notify-SameTimers : (rt : Runtime) → SameTimers rt (notify rt)
unfolding notify
notify-SameTimers rt =
    if_both (SameTimers rt) rt.initialized {x = record rt { signals = rt.signals + 1 }} {y = rt}
      (record { timers = refl; wake = λ u. refl; age = λ u. refl }) (SameTimers-refl rt)

ready-SameTimers : (rt : Runtime) (t : ℕ) → SameTimers rt (mark_ready rt t)
unfolding mark_ready runq_push
ready-SameTimers rt t =
    let marked = set_task rt t (record (rt.task t) { state = TaskState.ready }) in
    let queued = record marked { runq = Fifo.push rt.runq t } in
    let w = written-SameTimers rt t (record (rt.task t) { state = TaskState.ready }) refl refl in
    let n = notify-SameTimers queued in
    record {
      timers = n.timers ∙ w.timers;
      wake = λ u. n.wake u ∙ w.wake u;
      age = λ u. n.age u ∙ w.age u;
    }

-- the end of a select writes no task but its own
tasks-dequeue :
    (rt : Runtime) (op : SelectOp) (c w : ℕ)
    → ((dequeue rt op c w).1.task ≡ rt.task) × ((dequeue rt op c w).1.timers ≡ rt.timers)
unfolding dequeue select_waitq_remove
tasks-dequeue rt op_send c w = ground arith
tasks-dequeue rt op_recv c w = ground arith
tasks-dequeue rt op_default c w = (refl, refl)
tasks-dequeue rt op_timeout c w = (refl, refl)

tasks-remove_waiter :
    (rt : Runtime) (w : ℕ)
    → ((remove_waiter_from_channel rt w).1.task ≡ rt.task)
      × ((remove_waiter_from_channel rt w).1.timers ≡ rt.timers)
unfolding remove_waiter_from_channel
tasks-remove_waiter rt w = elim (Option-cases (rt.waiter w).ch) [
  | inl e ↦ rw (e, remove_waiter_from_channel) (refl, refl)
  | inr (c, e) ↦
      rw (e, remove_waiter_from_channel)
        (if_both (λ (r : Bool × Runtime). (r.1.task ≡ rt.task) × (r.1.timers ≡ rt.timers))
          (rt.waiter w).active {x = dequeue rt (rt.waiter w).op c w} {y = (false, rt)}
          (tasks-dequeue rt (rt.waiter w).op c w) (refl, refl))
]

tasks-remove_all :
    (rt : Runtime) (ws : List ℕ)
    → ((remove_all rt ws).task ≡ rt.task) × ((remove_all rt ws).timers ≡ rt.timers)
unfolding remove_all
tasks-remove_all rt [] = (refl, refl)
tasks-remove_all rt (w ∷ ws) =
    let rt' = (remove_waiter_from_channel rt w).1 in
    let (task, timers) = tasks-remove_waiter rt w in
    let (tasks', timers') = tasks-remove_all rt' ws in
    if_both
      (λ (r : Runtime). ((remove_all r ws).task ≡ rt.task) × ((remove_all r ws).timers ≡ rt.timers))
      (rt.waiter w).active {x = rt'} {y = rt} (tasks' ∙ task, timers' ∙ timers)
      (tasks-remove_all rt ws)

free-SameTimers : (rt : Runtime) (t : ℕ) → SameTimers rt (free_task_waiters rt t)
unfolding free_task_waiters
free-SameTimers rt t =
    let cleared = remove_all rt (rt.task t).select_waiters in
    let (tasks, timers) = tasks-remove_all rt (rt.task t).select_waiters in
    let w =
      written-SameTimers cleared t
        (record (cleared.task t) { select_waiters = []; select_waiter_count = 0 }) refl refl in
    record {
      timers = w.timers ∙ timers;
      wake = λ u. w.wake u ∙ ap (λ (f : ℕ → Task). (f u).wake_ns) tasks;
      age = λ u. w.age u ∙ ap (λ (f : ℕ → Task). (f u).timer_seq) tasks;
    }

complete-SameTimers : (rt : Runtime) (t : ℕ) → SameTimers rt (complete_select_wait rt t)
unfolding complete_select_wait
complete-SameTimers rt t =
    let x = record (rt.task t) { select_counted_waiting = false } in
    let w = written-SameTimers rt t x refl refl in
    if_both (SameTimers rt) (rt.task t).select_counted_waiting
      {x = record (set_task rt t x) {
        channel_waiting_count = guarded_dec rt.channel_waiting_count;
      }}
      {y = rt} (record { timers = w.timers; wake = w.wake; age = w.age }) (SameTimers-refl rt)

select_timeout-SameTimers : (rt : Runtime) (t : ℕ) → SameTimers rt (select_timeout_ready rt t)
unfolding select_timeout_ready
select_timeout-SameTimers rt t =
    let stopped = set_task rt t (record (rt.task t) { select_in_timer = false }) in
    let freed = free_task_waiters stopped t in
    let ended = complete_select_wait freed t in
    let told = set_task ended t (record (ended.task t) { select_result = Code.ok }) in
    SameTimers-trans rt stopped (mark_ready told t)
      (written-SameTimers rt t (record (rt.task t) { select_in_timer = false }) refl refl)
      (SameTimers-trans stopped freed (mark_ready told t) (free-SameTimers stopped t) (
        SameTimers-trans freed ended (mark_ready told t) (complete-SameTimers freed t) (
          SameTimers-trans ended told (mark_ready told t)
            (written-SameTimers ended t (record (ended.task t) { select_result = Code.ok }) refl
              refl)
            (ready-SameTimers told t))))

deactivate-tasks :
    (rt : Runtime) (w : ℕ) (keep : Bool)
    → ((fd_waiter_deactivate rt w keep).1.task ≡ rt.task)
      × ((fd_waiter_deactivate rt w keep).1.timers ≡ rt.timers)
unfolding fd_waiter_deactivate deactivated notify
deactivate-tasks rt w keep = ground arith

expire-SameTimers : (rt : Runtime) (t : ℕ) → SameTimers rt (fd_expire rt t)
unfolding fd_expire
expire-SameTimers rt t =
    let untimed = set_task rt t (record (rt.task t) { fd_in_timer = false }) in
    let w = written-SameTimers rt t (record (rt.task t) { fd_in_timer = false }) refl refl in
    elim (Option-cases (rt.task t).fd_waiter) [
      | inl e ↦ rw (fd_expire, e) w
      | inr (v, e) ↦
          let off = (fd_waiter_deactivate untimed v true).1 in
          let (tasks, timers) = deactivate-tasks untimed v true in
          rw (fd_expire, e)
            (SameTimers-trans rt untimed off w (record {
              timers = timers;
              wake = λ u. ap (λ (f : ℕ → Task). (f u).wake_ns) tasks;
              age = λ u. ap (λ (f : ℕ → Task). (f u).timer_seq) tasks;
            }))
    ]

fd_timeout-SameTimers : (rt : Runtime) (t : ℕ) → SameTimers rt (fd_timeout_ready rt t)
unfolding fd_timeout_ready
fd_timeout-SameTimers rt t =
    let freed = fd_expire rt t in
    let x = record (freed.task t) { fd_result = Code.err_timeout; fd_ready_events = no_events } in
    let told = set_task freed t x in
    SameTimers-trans rt freed (mark_ready told t) (expire-SameTimers rt t) (
      SameTimers-trans freed told (mark_ready told t) (written-SameTimers freed t x refl refl)
        (ready-SameTimers told t))

pub expired_in-SameTimers :
    (state : TaskState) (rt : Runtime) (t : ℕ) → SameTimers rt (expired_in state rt t)
unfolding expired_in
expired_in-SameTimers TaskState.waiting_select rt t = select_timeout-SameTimers rt t
expired_in-SameTimers TaskState.waiting_fd rt t = fd_timeout-SameTimers rt t
expired_in-SameTimers TaskState.ready rt t = ready-SameTimers rt t
expired_in-SameTimers TaskState.running rt t = ready-SameTimers rt t
expired_in-SameTimers TaskState.sleeping rt t = ready-SameTimers rt t
expired_in-SameTimers TaskState.waiting_chan rt t = ready-SameTimers rt t
expired_in-SameTimers TaskState.waiting_join rt t = ready-SameTimers rt t
expired_in-SameTimers TaskState.dead rt t = ready-SameTimers rt t
