-- ===== src/Join/Count.antt =====
-- The counts of the waiting tasks, by which mt_worker_loop tells a deadlock, under a cancel.
use microthread.Base.{
  ℕ, ◌+◌, ◌-◌, ◌≡◌, refl, ap, ◌∙◌, true, some, List, [], ◌∷◌, arith, has, erase, length, eq→==,
}
use microthread.State.{Code, TaskState, wait_send, Chan, Handle, Runtime}
use microthread.Transitions.{
  mark_ready, clear_channel_wait, complete_channel_wait, complete_join_wait, runq_push, notify,
}
use microthread.Join.{
  unqueue, chan_remove_waiter, handle_remove_joiner, cancel_channel_wait, cancel_join_wait,
  task_wake_for_cancel,
}

length-erase : (a : ℕ) (xs : List ℕ) → has a xs ≡ true → length (erase a xs) + 1 ≡ length xs
length-erase a [] h = cc
length-erase a (x ∷ xs) h = ground (arith, length-erase a xs)

count-complete_join_wait :
    (rt : Runtime) (t : ℕ) (r : Code)
    → (complete_join_wait rt t r).join_waiting_count ≡ rt.join_waiting_count - 1
unfolding complete_join_wait mark_ready runq_push notify
count-complete_join_wait rt t r = ground arith

count-complete_channel_wait :
    (rt : Runtime) (t : ℕ) (r : Code)
    → (complete_channel_wait rt t r).channel_waiting_count ≡ rt.channel_waiting_count - 1
unfolding complete_channel_wait mark_ready runq_push notify
count-complete_channel_wait rt t r = ground arith

handle-complete_join_wait :
    (rt : Runtime) (t : ℕ) (r : Code) → (complete_join_wait rt t r).handle ≡ rt.handle
unfolding complete_join_wait mark_ready runq_push notify
handle-complete_join_wait rt t r = ground arith

chan-complete_wait :
    (rt : Runtime) (t : ℕ) (r : Code) → (complete_channel_wait rt t r).chan ≡ rt.chan
unfolding complete_channel_wait mark_ready runq_push notify
chan-complete_wait rt t r = ground arith

-- The cancel of a task that waits in a join and is queued there takes one task out of the handle's
-- queue and two off the count of the waiting joiners.
pub cancel_join-miscounts :
    (rt : Runtime) (t h : ℕ)
    → (rt.task t).state ≡ TaskState.waiting_join
    → (rt.task t).join_waiting_on ≡ some h
    → has t (rt.handle h).joiners ≡ true
    → let after = task_wake_for_cancel rt t in
      (after.join_waiting_count ≡ rt.join_waiting_count - 2)
      × (length (after.handle h).joiners + 1 ≡ length (rt.handle h).joiners)
unfolding task_wake_for_cancel cancel_join_wait handle_remove_joiner
cancel_join-miscounts rt t h s on q =
    rw (s, task_wake_for_cancel, cancel_join_wait, on, handle_remove_joiner, q)
      (
        count-complete_join_wait _ t Code.err_cancelled ∙ ground arith,
        ap (λ (f : ℕ → Handle). length (f h).joiners + 1)
              (handle-complete_join_wait _ t Code.err_cancelled)
            ∙ rw (eq→== h h refl) (length-erase t (rt.handle h).joiners q),
      )

-- The cancel of a task that waits to send and is queued there takes one task out of the channel's
-- queue and two off the count of the tasks that wait on channels.
pub cancel_channel-miscounts :
    (rt : Runtime) (t c : ℕ)
    → (rt.task t).state ≡ TaskState.waiting_chan
    → (rt.task t).chan_wait_ch ≡ some c
    → (rt.task t).chan_wait_kind ≡ wait_send
    → has t (rt.chan c).send ≡ true
    → let after = task_wake_for_cancel rt t in
      (after.channel_waiting_count ≡ rt.channel_waiting_count - 2)
      × (length (after.chan c).send + 1 ≡ length (rt.chan c).send)
unfolding task_wake_for_cancel cancel_channel_wait chan_remove_waiter unqueue clear_channel_wait
cancel_channel-miscounts rt t c s on k q =
    rw (s, task_wake_for_cancel, cancel_channel_wait, chan_remove_waiter, on, unqueue, k, q)
      (
        count-complete_channel_wait _ t Code.err_cancelled ∙ ground arith,
        ap (λ (f : ℕ → Chan). length (f c).send + 1) (chan-complete_wait _ t Code.err_cancelled)
            ∙ rw (eq→== c c refl) (length-erase t (rt.chan c).send q),
      )
