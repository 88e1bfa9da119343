-- ===== src/Join/Live.antt =====
-- What a cancel does to the channels.
use microthread.Base.{
  ℕ, zero, suc, ◌≡◌, refl, ◌∙◌, inl, inr, true, false, Bool, none, some, arith, erase, has, length,
  Option-cases, if_both,
}
use microthread.State.{
  Ptr, Code, TaskState, ChanWaitKind, wait_none, wait_send, wait_recv, Events, Runtime,
}
use microthread.Transitions.{
  set_task, set_chan, set_handle, mark_ready, mark_dead, clear_channel_wait, complete_channel_wait,
  complete_join_wait, runq_push, notify,
}
use microthread.TimerOps.{timer_remove}
use microthread.SelectWait.{free_task_waiters, unpark_task}
use microthread.Fd.{
  deactivated, fd_waiter_deactivate, fd_waiter_remove, fd_tell, fd_wake, fd_ready_waiter, no_events,
}
use microthread.Queue.Fifo
use microthread.Chan.Frame.{
  chan-mark_ready, chan-timer_remove, free-Shrunk, unpark-Shrunk, length-erase-le,
}
use microthread.Chan.Stable.{
  AllStable, AllShrunk-Stable, set_chan-Stable, chan_eq-Stable, complete_channel_wait-Stable,
}
use microthread.Join.{
  handle_free_if_possible, wake_joiners, finish_handle, handle_complete, handle_remove_joiner,
  unqueue, chan_remove_waiter, task_destroy, leave_runq, tell_handle, cancel_ready,
  cancel_channel_wait, cancel_join_wait, task_wake_for_cancel, wake_target, request_cancel,
  show_cancelled, task_cancel,
}

chan-complete_join_wait :
    (rt : Runtime) (t : ℕ) (r : Code) → (complete_join_wait rt t r).chan ≡ rt.chan
unfolding complete_join_wait mark_ready runq_push notify
chan-complete_join_wait rt t r = ground arith

chan-wake_joiners :
    (k : ℕ) (rt : Runtime) (h : ℕ) (r : Code) → (wake_joiners k rt h r).chan ≡ rt.chan
unfolding wake_joiners
chan-wake_joiners zero rt h r = refl
chan-wake_joiners (suc k) rt h r = elim (Option-cases (Fifo.first (rt.handle h).joiners)) [
  | inl e ↦ rw (wake_joiners, e) refl
  | inr (t, e) ↦
      let popped =
        set_handle rt h (record (rt.handle h) { joiners = Fifo.rest (rt.handle h).joiners }) in
      rw (wake_joiners, e)
        (chan-wake_joiners k (complete_join_wait popped t r) h r
          ∙ chan-complete_join_wait popped t r)
]

chan-free_if_possible : (rt : Runtime) (h : ℕ) → (handle_free_if_possible rt h).chan ≡ rt.chan
unfolding handle_free_if_possible
chan-free_if_possible rt h =
    if_both (λ (r : Runtime). r.chan ≡ rt.chan) _ {x = record rt { handles = erase h rt.handles }}
      {y = rt} refl refl

pub chan-handle_complete :
    (rt : Runtime) (h : ℕ) (cancelled : Bool) → (handle_complete rt h cancelled).chan ≡ rt.chan
unfolding handle_complete finish_handle
chan-handle_complete rt h cancelled =
    let finished = finish_handle rt h cancelled in
    let code = (finished.handle h).join_result in
    let k = length (rt.handle h).joiners in
    if_both (λ (r : Runtime). r.chan ≡ rt.chan) (rt.handle h).completed {x = rt}
      {y = handle_free_if_possible (wake_joiners k finished h code) h} refl
      (chan-free_if_possible (wake_joiners k finished h code) h
        ∙ chan-wake_joiners k finished h code)

pub chan-deactivate :
    (rt : Runtime) (w : ℕ) (keep : Bool) → (fd_waiter_deactivate rt w keep).1.chan ≡ rt.chan
unfolding fd_waiter_deactivate deactivated notify
chan-deactivate rt w keep = ground arith

chan-fd_tell : (rt : Runtime) (t : ℕ) (r : Code) (e : Events) → (fd_tell rt t r e).chan ≡ rt.chan
unfolding fd_tell
chan-fd_tell rt t r e =
    let stopped = (timer_remove rt t).1 in
    if_both (λ (x : Runtime). x.chan ≡ rt.chan) (rt.task t).fd_in_timer
      {x = set_task stopped t (record (stopped.task t) { fd_in_timer = false })} {y = rt}
      (chan-timer_remove rt t) refl

chan-fd_wake : (rt : Runtime) (t : ℕ) (r : Code) (e : Events) → (fd_wake rt t r e).chan ≡ rt.chan
unfolding fd_wake
chan-fd_wake rt t r e =
    let told = fd_tell rt t r e in
    if_both (λ (x : Runtime). x.chan ≡ rt.chan) _ {x = mark_ready told t} {y = told}
      (chan-mark_ready told t ∙ chan-fd_tell rt t r e) (chan-fd_tell rt t r e)

pub chan-fd_ready_waiter :
    (rt : Runtime) (w : ℕ) (r : Code) (e : Events) → (fd_ready_waiter rt w r e).chan ≡ rt.chan
unfolding fd_ready_waiter
chan-fd_ready_waiter rt w r e = elim (Option-cases (rt.fd_waiter w).task) [
  | inl n ↦ rw (fd_ready_waiter, n) refl
  | inr (t, s) ↦
      rw (fd_ready_waiter, s)
        (chan-fd_wake (fd_waiter_deactivate rt w true).1 t r e ∙ chan-deactivate rt w true)
]

-- a task that is destroyed leaves the select queues
pub destroy_task-Stable : (rt : Runtime) (t : ℕ) → AllStable rt → AllStable (task_destroy rt t)
unfolding task_destroy fd_waiter_remove
destroy_task-Stable rt t s =
    let freed = free_task_waiters rt t in
    let kept = AllShrunk-Stable rt freed (free-Shrunk rt t) s in
    elim (Option-cases (freed.task t).fd_waiter) [
      | inl e ↦ rw (task_destroy, e) kept
      | inr (w, e) ↦
          rw (task_destroy, e)
            (chan_eq-Stable freed (fd_waiter_deactivate freed w false).1
              (chan-deactivate freed w false) kept)
    ]

chan-tell_handle : (rt : Runtime) (t : ℕ) → (tell_handle rt t).chan ≡ rt.chan
unfolding tell_handle
chan-tell_handle rt t = elim (Option-cases (rt.task t).handle) [
  | inl e ↦ rw (tell_handle, e) refl
  | inr (h, e) ↦ rw (tell_handle, e) (chan-handle_complete rt h true)
]

chan-leave_runq : (rt : Runtime) (t : ℕ) → (leave_runq rt t).chan ≡ rt.chan
unfolding leave_runq mark_dead
chan-leave_runq rt t = refl

cancel_ready-Stable : (rt : Runtime) (t : ℕ) → AllStable rt → AllStable (cancel_ready rt t)
unfolding cancel_ready
cancel_ready-Stable rt t s =
    let left_ = leave_runq rt t in
    destroy_task-Stable (tell_handle left_ t) t
      (chan_eq-Stable rt (tell_handle left_ t) (chan-tell_handle left_ t ∙ chan-leave_runq rt t) s)

unqueue-Stable : (rt : Runtime) (t c : ℕ) → AllStable rt → AllStable (unqueue rt t c).1
unfolding unqueue
unqueue-Stable rt t c s = by_kind (rt.task t).chan_wait_kind
  where
    by_kind :
        (kind : ChanWaitKind)
        → AllStable
            (elim kind as (λ x. Bool × Runtime) [
              | wait_none ↦ (false, rt)
              | wait_send ↦ (
                has t (rt.chan c).send,
                set_chan rt c (record (rt.chan c) { send = erase t (rt.chan c).send }),
              )
              | wait_recv ↦ (
                has t (rt.chan c).recv,
                set_chan rt c (record (rt.chan c) { recv = erase t (rt.chan c).recv }),
              )
            ]).1
    by_kind wait_none = s
    by_kind wait_send =
        set_chan-Stable rt c _ (ground (arith, s c, length-erase-le t (rt.chan c).send)) s
    by_kind wait_recv =
        set_chan-Stable rt c _ (ground (arith, s c, length-erase-le t (rt.chan c).recv)) s

remove_waiter-Stable : (rt : Runtime) (t : ℕ) → AllStable rt → AllStable (chan_remove_waiter rt t).1
unfolding chan_remove_waiter clear_channel_wait
remove_waiter-Stable rt t s = elim (Option-cases (rt.task t).chan_wait_ch) [
  | inl e ↦ rw (chan_remove_waiter, e) s
  | inr (c, e) ↦ rw (chan_remove_waiter, e) (unqueue-Stable rt t c s)
]

cancel_channel_wait-Stable :
    (rt : Runtime) (t : ℕ) → AllStable rt → AllStable (cancel_channel_wait rt t)
unfolding cancel_channel_wait
cancel_channel_wait-Stable rt t s =
    let off = (chan_remove_waiter rt t).1 in
    let kept = remove_waiter-Stable rt t s in
    if_both AllStable (chan_remove_waiter rt t).0
      {x = complete_channel_wait off t Code.err_cancelled} {y = off}
      (complete_channel_wait-Stable off t Code.err_cancelled kept) kept

chan-remove_joiner :
    (rt : Runtime) (h : Ptr) (t : ℕ) → (handle_remove_joiner rt h t).1.chan ≡ rt.chan
unfolding handle_remove_joiner
chan-remove_joiner rt none t = refl
chan-remove_joiner rt (some h) t = ground arith

cancel_join_wait-Stable : (rt : Runtime) (t : ℕ) → AllStable rt → AllStable (cancel_join_wait rt t)
unfolding cancel_join_wait
cancel_join_wait-Stable rt t s =
    let off = (handle_remove_joiner rt (rt.task t).join_waiting_on t).1 in
    let kept = chan_eq-Stable rt off (chan-remove_joiner rt (rt.task t).join_waiting_on t) s in
    if_both AllStable (handle_remove_joiner rt (rt.task t).join_waiting_on t).0
      {x = complete_join_wait off t Code.err_cancelled} {y = off}
      (chan_eq-Stable off (complete_join_wait off t Code.err_cancelled)
        (chan-complete_join_wait off t Code.err_cancelled) kept)
      kept

wake_for_cancel-Stable :
    (rt : Runtime) (t : ℕ) (state : TaskState)
    → (rt.task t).state ≡ state
    → AllStable rt
    → AllStable (task_wake_for_cancel rt t)
unfolding task_wake_for_cancel
wake_for_cancel-Stable rt t TaskState.ready e s =
    rw (task_wake_for_cancel, e)
      (if_both AllStable (has t rt.runq) {x = cancel_ready rt t} {y = rt}
        (cancel_ready-Stable rt t s) s)
wake_for_cancel-Stable rt t TaskState.sleeping e s =
    let off = (timer_remove rt t).1 in
    let kept = chan_eq-Stable rt off (chan-timer_remove rt t) s in
    rw (task_wake_for_cancel, e)
      (if_both AllStable (timer_remove rt t).0 {x = mark_ready off t} {y = off}
        (chan_eq-Stable off (mark_ready off t) (chan-mark_ready off t) kept) kept)
wake_for_cancel-Stable rt t TaskState.waiting_chan e s =
    rw (task_wake_for_cancel, e) (cancel_channel_wait-Stable rt t s)
wake_for_cancel-Stable rt t TaskState.waiting_select e s =
    let index = (rt.task t).select_index in
    rw (task_wake_for_cancel, e)
      (AllShrunk-Stable rt (unpark_task rt t Code.err_cancelled index)
        (unpark-Shrunk rt t Code.err_cancelled index) s)
wake_for_cancel-Stable rt t TaskState.waiting_fd e s = elim (Option-cases (rt.task t).fd_waiter) [
  | inl f ↦ rw (task_wake_for_cancel, e, f) s
  | inr (w, f) ↦
      rw (task_wake_for_cancel, e, f)
        (chan_eq-Stable rt (fd_ready_waiter rt w Code.err_cancelled no_events)
          (chan-fd_ready_waiter rt w Code.err_cancelled no_events) s)
]
wake_for_cancel-Stable rt t TaskState.waiting_join e s =
    rw (task_wake_for_cancel, e) (cancel_join_wait-Stable rt t s)
wake_for_cancel-Stable rt t TaskState.running e s = rw (task_wake_for_cancel, e) s
wake_for_cancel-Stable rt t TaskState.dead e s = rw (task_wake_for_cancel, e) s

target-Stable : (rt : Runtime) (target : Ptr) → AllStable rt → AllStable (wake_target rt target)
unfolding wake_target
target-Stable rt none s = s
target-Stable rt (some t) s = wake_for_cancel-Stable rt t (rt.task t).state refl s

-- Where every channel is stable, the cancel of a task, whatever it waits for, leaves every channel
-- stable.
pub cancel-Stable :
    (rt : Runtime) (handle : Ptr) → AllStable rt → AllStable (task_cancel rt handle).1
unfolding task_cancel request_cancel show_cancelled
cancel-Stable rt none s = s
cancel-Stable rt (some h) s =
    let told = show_cancelled (request_cancel rt h) h in
    if_both AllStable (rt.handle h).completed {x = request_cancel rt h}
      {y = wake_target told (told.handle h).task} s (target-Stable told (told.handle h).task s)
