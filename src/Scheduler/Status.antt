-- ===== src/Scheduler/Status.antt =====
-- The status that a handle shows of its task.
use microthread.Base.{ℕ, ◌≡◌, refl, ap, ◌∙◌, false, some, if◌then◌else◌, arith, eq→==}
use microthread.State.{TaskState, TaskStatus, Handle, Runtime}
use microthread.Transitions.{runq_push, notify}
use microthread.Join.{status_from_task, task_status}
use microthread.Scheduler.{off_worker, show_status, after_switch}

-- a task that goes on after it has switched to the scheduler
abbrev pub GoesOn : TaskState → Type 0
GoesOn TaskState.running = ⊥
GoesOn TaskState.dead = ⊥
GoesOn _ = Unit

show_status-lem :
    (rt : Runtime) (t h : ℕ) (status : TaskStatus)
    → (rt.task t).handle ≡ some h
    → (rt.handle h).completed ≡ false
    → ((show_status rt t status).handle h).status
      ≡ (if (rt.handle h).cancel_requested then TaskStatus.cancelled else status)
unfolding show_status
show_status-lem rt t h status e c = rw (e, show_status) (ground (arith, c, eq→== h h refl))

handle-runq_push : (rt : Runtime) (t : ℕ) → (runq_push rt t).handle ≡ rt.handle
unfolding runq_push notify
handle-runq_push rt t = ground arith

-- what a handle shows after the switch
shown :
    (rt : Runtime) (t h : ℕ) (s : TaskState)
    → GoesOn s
    → (rt.task t).state ≡ s
    → (rt.task t).handle ≡ some h
    → (rt.handle h).completed ≡ false
    → ((after_switch rt t).handle h).status
      ≡ (if (rt.handle h).cancel_requested then TaskStatus.cancelled else status_from_task s)
unfolding after_switch status_from_task
shown rt t h TaskState.ready g s e c =
    rw (s, after_switch)
      (ap (λ (f : ℕ → Handle). (f h).status)
          (handle-runq_push (show_status (off_worker rt) t TaskStatus.ready) t)
        ∙ show_status-lem (off_worker rt) t h TaskStatus.ready e c)
shown rt t h TaskState.sleeping g s e c =
    rw (s, after_switch) (show_status-lem (off_worker rt) t h TaskStatus.sleeping e c)
shown rt t h TaskState.waiting_chan g s e c =
    rw (s, after_switch) (show_status-lem (off_worker rt) t h TaskStatus.waiting_chan e c)
shown rt t h TaskState.waiting_select g s e c =
    rw (s, after_switch) (show_status-lem (off_worker rt) t h TaskStatus.waiting_select e c)
shown rt t h TaskState.waiting_fd g s e c =
    rw (s, after_switch) (show_status-lem (off_worker rt) t h TaskStatus.waiting_fd e c)
shown rt t h TaskState.waiting_join g s e c =
    rw (s, after_switch) (show_status-lem (off_worker rt) t h TaskStatus.waiting_join e c)
shown rt t h TaskState.running g s e c = absurd g
shown rt t h TaskState.dead g s e c = absurd g

-- After a task with an open handle has switched to the scheduler to go on later, the status stored
-- in the handle is the one that mt_task_status computes from the task's state and from a request
-- to cancel it.
pub after_switch-status :
    (rt : Runtime) (t h out : ℕ)
    → GoesOn (rt.task t).state
    → (rt.task t).handle ≡ some h
    → (rt.handle h).task ≡ some t
    → (rt.handle h).completed ≡ false
    → (task_status rt (some h) (some out)).1 ≡ some ((after_switch rt t).handle h).status
unfolding task_status
after_switch-status rt t h out g e back c =
    ground (arith, c, back, shown rt t h (rt.task t).state g refl e c)
