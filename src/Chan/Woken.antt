-- ===== src/Chan/Woken.antt =====
-- The tasks that the end of a wait on a channel makes ready.
use microthread.Base.{
  ℕ, ◌≡◌, refl, ◌∙◌, true, false, Bool, Option-cases, inl, inr, update, List, [], ◌∷◌, ◌++◌, arith,
  has, if_both, has-append, eq→==, if◌then◌else◌,
}
use microthread.State.{Code, TaskState, op_send, op_recv, op_default, op_timeout, SelectOp, Runtime}
use microthread.Transitions.{
  set_task, complete_channel_wait, complete_select_wait, mark_ready, runq_push, notify,
}
use microthread.TimerOps.{timer_remove}
use microthread.SelectWait.{
  select_waitq_remove, dequeue, remove_waiter_from_channel, remove_all, free_task_waiters,
  stop_timeout, unpark_task, complete_waiter,
}

-- The task is ready and queued to run, and its call on a channel returns `result`.
pub record IsWoken (result : Code) (rt : Runtime) (t : ℕ) : Type 0 where
  pub state : (rt.task t).state ≡ TaskState.ready
  pub chan_result : (rt.task t).chan_result ≡ result
  pub queued : has t rt.runq ≡ true

pub last_has : (t : ℕ) (xs : List ℕ) → has t (xs ++ t ∷ []) ≡ true
last_has t xs = ground (arith, has-append t xs (t ∷ []))

pub still_has : (t u : ℕ) (xs : List ℕ) → has t xs ≡ true → has t (xs ++ u ∷ []) ≡ true
still_has t u xs h = ground (arith, has-append t xs (u ∷ []), h)

pub complete-IsWoken :
    (rt : Runtime) (t : ℕ) (r : Code) → IsWoken r (complete_channel_wait rt t r) t
unfolding complete_channel_wait mark_ready runq_push notify
complete-IsWoken rt t r = ground (arith, eq→== t t refl, last_has t rt.runq)

pub complete-keeps :
    (rt : Runtime) (t u : ℕ) (r : Code)
    → IsWoken r rt u
    → IsWoken r (complete_channel_wait rt t r) u
unfolding complete_channel_wait mark_ready runq_push notify
complete-keeps rt t u r h = ground (arith, h, still_has u t rt.runq h.queued)

-- The ends of selects change neither tasks nor the run queue while they free their waiters, nor whose a
-- waiter is.
pub record IsSame (a b : Runtime) : Type 0 where
  pub task : b.task ≡ a.task
  pub runq : b.runq ≡ a.runq
  pub owner : (w : ℕ) → (b.waiter w).task ≡ (a.waiter w).task

IsSame-trans : (a b c : Runtime) → IsSame a b → IsSame b c → IsSame a c
IsSame-trans a b c x y = record {
  task = y.task ∙ x.task;
  runq = y.runq ∙ x.runq;
  owner = λ w. y.owner w ∙ x.owner w;
}

dequeue-IsSame : (rt : Runtime) (op : SelectOp) (c w : ℕ) → IsSame rt (dequeue rt op c w).1
unfolding dequeue select_waitq_remove
dequeue-IsSame rt op_send c w = record {
  task = ground arith;
  runq = ground arith;
  owner = λ u. ground arith;
}
dequeue-IsSame rt op_recv c w = record {
  task = ground arith;
  runq = ground arith;
  owner = λ u. ground arith;
}
dequeue-IsSame rt op_default c w = record { task = refl; runq = refl; owner = λ u. refl }
dequeue-IsSame rt op_timeout c w = record { task = refl; runq = refl; owner = λ u. refl }

remove-IsSame : (rt : Runtime) (w : ℕ) → IsSame rt (remove_waiter_from_channel rt w).1
unfolding remove_waiter_from_channel
remove-IsSame rt w = elim (Option-cases (rt.waiter w).ch) [
  | inl e ↦
      rw (e, remove_waiter_from_channel) (record { task = refl; runq = refl; owner = λ u. refl })
  | inr (c, e) ↦
      rw (e, remove_waiter_from_channel)
        (if_both (λ (x : Bool × Runtime). IsSame rt x.1) (rt.waiter w).active
          {x = dequeue rt (rt.waiter w).op c w} {y = (false, rt)}
          (dequeue-IsSame rt (rt.waiter w).op c w)
          (record { task = refl; runq = refl; owner = λ u. refl }))
]

pub remove_all-IsSame : (rt : Runtime) (ws : List ℕ) → IsSame rt (remove_all rt ws)
unfolding remove_all
remove_all-IsSame rt [] = record { task = refl; runq = refl; owner = λ u. refl }
remove_all-IsSame rt (w ∷ ws) =
    let next = if (rt.waiter w).active then (remove_waiter_from_channel rt w).1 else rt in
    IsSame-trans rt next (remove_all next ws)
      (if_both (IsSame rt) (rt.waiter w).active (remove-IsSame rt w)
        (record { task = refl; runq = refl; owner = λ u. refl }))
      (remove_all-IsSame next ws)

free-keeps :
    (rt : Runtime) (t u : ℕ) (r : Code) → IsWoken r rt u → IsWoken r (free_task_waiters rt t) u
unfolding free_task_waiters
free-keeps rt t u r h =
    let e = remove_all-IsSame rt (rt.task t).select_waiters in ground (arith, h, e.task, e.runq)

stop-keeps : (rt : Runtime) (t u : ℕ) (r : Code) → IsWoken r rt u → IsWoken r (stop_timeout rt t) u
unfolding stop_timeout timer_remove
stop-keeps rt t u r h = ground (arith, h)

wait-keeps :
    (rt : Runtime) (t u : ℕ) (r : Code) → IsWoken r rt u → IsWoken r (complete_select_wait rt t) u
unfolding complete_select_wait
wait-keeps rt t u r h = ground (arith, h)

ready-keeps :
    (rt : Runtime) (t u i : ℕ) (r s : Code)
    → IsWoken r rt u
    → IsWoken r
        (mark_ready (set_task rt t (record (rt.task t) { select_result = s; select_index = i })) t)
        u
unfolding mark_ready runq_push notify
ready-keeps rt t u i r s h = ground (arith, h, still_has u t rt.runq h.queued)

unpark-keeps :
    (rt : Runtime) (t u i : ℕ) (r s : Code) → IsWoken r rt u → IsWoken r (unpark_task rt t s i) u
unfolding unpark_task
unpark-keeps rt t u i r s h =
    let stopped = stop_timeout rt t in
    let freed = free_task_waiters stopped t in
    ready-keeps (complete_select_wait freed t) t u i r s
      (wait-keeps freed t u r (free-keeps stopped t u r (stop-keeps rt t u r h)))

-- the end of a select leaves the woken tasks as they are
pub waiter-keeps :
    (rt : Runtime) (w u : ℕ) (r s : Code) → IsWoken r rt u → IsWoken r (complete_waiter rt w s) u
unfolding complete_waiter
waiter-keeps rt w u r s h = elim (Option-cases (rt.waiter w).task) [
  | inl e ↦ rw (e, complete_waiter) h
  | inr (t, e) ↦
      rw (e, complete_waiter)
        (unpark-keeps
          (record rt { waiter = update rt.waiter w (record (rt.waiter w) { active = false }) }) t u
          (rt.waiter w).index r s
          (record { state = h.state; chan_result = h.chan_result; queued = h.queued }))
]
