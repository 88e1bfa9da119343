-- ===== src/Chan/Frame.antt =====
-- What the ends of waits do to the channels: the end of a channel wait touches none, and the end of
-- a select only takes waiters out of select queues.
use mathlib.Core.Path.{subst}
use microthread.Base.{
  ℕ, ◌≤◌, ◌≡◌, sym, ◌∙◌, false, List, [], ◌∷◌, arith, length, erase, Option-cases, Bool-cases, inl,
  inr,
}
use microthread.State.{Code, SelectOp, op_recv, op_send, op_default, op_timeout, Chan, Runtime}
use microthread.Transitions.{
  set_task, set_waiter, mark_ready, complete_channel_wait, complete_select_wait,
}
use microthread.TimerOps.{timer_remove}
use microthread.SelectWait.{
  dequeue, remove_waiter_from_channel, remove_all, free_task_waiters, stop_timeout, unpark_task,
  complete_waiter, select_timeout_ready,
}

-- `b` is `a` with some select waiters taken out
pub record Shrunk (a b : Chan) : Type 0 where
  pub elem_size : b.elem_size ≡ a.elem_size
  pub capacity : b.capacity ≡ a.capacity
  pub len : b.len ≡ a.len
  pub head : b.head ≡ a.head
  pub tail : b.tail ≡ a.tail
  pub buffer : b.buffer ≡ a.buffer
  pub closed : b.closed ≡ a.closed
  pub send : b.send ≡ a.send
  pub recv : b.recv ≡ a.recv
  pub select_send : length b.select_send ≤ length a.select_send
  pub select_recv : length b.select_recv ≤ length a.select_recv

abbrev pub AllShrunk : Runtime → Runtime → Type 0
AllShrunk rt rt' = (c : ℕ) → Shrunk (rt.chan c) (rt'.chan c)

pub Shrunk-refl : (a : Chan) → Shrunk a a
Shrunk-refl a = ground arith

pub Shrunk-trans : (a b c : Chan) → Shrunk a b → Shrunk b c → Shrunk a c
Shrunk-trans a b c p q = ground arith

pub Shrunk-of_eq : (a b : Chan) → b ≡ a → Shrunk a b
Shrunk-of_eq a b e = ground arith

pub length-erase-le : (w : ℕ) (xs : List ℕ) → length (erase w xs) ≤ length xs
length-erase-le w [] = omega arith
length-erase-le w (x ∷ xs) = ground (arith, length-erase-le w xs)

pub chan-mark_ready : (rt : Runtime) (t : ℕ) → (mark_ready rt t).chan ≡ rt.chan
unfolding mark_ready
chan-mark_ready rt t = ground arith

pub chan-complete_channel_wait :
    (rt : Runtime) (t : ℕ) (r : Code) → (complete_channel_wait rt t r).chan ≡ rt.chan
unfolding complete_channel_wait
chan-complete_channel_wait rt t r = ground arith

chan-complete_select_wait : (rt : Runtime) (t : ℕ) → (complete_select_wait rt t).chan ≡ rt.chan
unfolding complete_select_wait
chan-complete_select_wait rt t = ground arith

pub chan-timer_remove : (rt : Runtime) (t : ℕ) → (timer_remove rt t).1.chan ≡ rt.chan
unfolding timer_remove
chan-timer_remove rt t = ground arith

chan-stop_timeout : (rt : Runtime) (t : ℕ) → (stop_timeout rt t).chan ≡ rt.chan
unfolding stop_timeout
chan-stop_timeout rt t = ground (arith, chan-timer_remove rt t)

dequeue-Shrunk :
    (rt : Runtime) (op : SelectOp) (c w d : ℕ) → Shrunk (rt.chan d) ((dequeue rt op c w).1.chan d)
unfolding dequeue
dequeue-Shrunk rt op_send c w d = ground (arith, length-erase-le w (rt.chan c).select_send)
dequeue-Shrunk rt op_recv c w d = ground (arith, length-erase-le w (rt.chan c).select_recv)
dequeue-Shrunk rt op_default c w d = Shrunk-refl (rt.chan d)
dequeue-Shrunk rt op_timeout c w d = Shrunk-refl (rt.chan d)

remove_waiter-Shrunk : (rt : Runtime) (w : ℕ) → AllShrunk rt (remove_waiter_from_channel rt w).1
unfolding remove_waiter_from_channel
remove_waiter-Shrunk rt w d = elim (Option-cases (rt.waiter w).ch) [
  | inl e ↦ rw (e, remove_waiter_from_channel) (Shrunk-refl (rt.chan d))
  | inr (c, e) ↦
      rw (e, remove_waiter_from_channel)
        (elim (Bool-cases (rt.waiter w).active) [
          | inl on ↦ rw (on, remove_waiter_from_channel) (dequeue-Shrunk rt (rt.waiter w).op c w d)
          | inr off ↦ rw (off, remove_waiter_from_channel) (Shrunk-refl (rt.chan d))
        ])
]

remove_all-Shrunk : (rt : Runtime) (ws : List ℕ) → AllShrunk rt (remove_all rt ws)
unfolding remove_all
remove_all-Shrunk rt [] d = Shrunk-refl (rt.chan d)
remove_all-Shrunk rt (w ∷ ws) d = elim (Bool-cases (rt.waiter w).active) [
  | inl on ↦
      let rt' = (remove_waiter_from_channel rt w).1 in
      rw (on, remove_all)
        (Shrunk-trans (rt.chan d) (rt'.chan d) ((remove_all rt' ws).chan d)
          (remove_waiter-Shrunk rt w d) (remove_all-Shrunk rt' ws d))
  | inr off ↦ rw (off, remove_all) (remove_all-Shrunk rt ws d)
]

pub free-Shrunk : (rt : Runtime) (t : ℕ) → AllShrunk rt (free_task_waiters rt t)
unfolding free_task_waiters
free-Shrunk rt t d = remove_all-Shrunk rt (rt.task t).select_waiters d

chan-free_stopped :
    (rt : Runtime) (t d : ℕ) → Shrunk (rt.chan d) ((free_task_waiters (stop_timeout rt t) t).chan d)
chan-free_stopped rt t d =
    subst (λ (f : ℕ → Chan). Shrunk (f d) ((free_task_waiters (stop_timeout rt t) t).chan d))
      (chan-stop_timeout rt t) (free-Shrunk (stop_timeout rt t) t d)

-- The end of a select takes waiters out of queues, and does nothing else to any channel.
pub unpark-Shrunk : (rt : Runtime) (t : ℕ) (r : Code) (i : ℕ) → AllShrunk rt (unpark_task rt t r i)
unpark-Shrunk rt t r i d =
    subst (λ (f : ℕ → Chan). Shrunk (rt.chan d) (f d)) (sym same) (chan-free_stopped rt t d)
  where
    same : (unpark_task rt t r i).chan ≡ (free_task_waiters (stop_timeout rt t) t).chan
    same =
        unfold unpark_task in
        (chan-mark_ready _ t
          ∙ chan-complete_select_wait (free_task_waiters (stop_timeout rt t) t) t)

pub complete_waiter-Shrunk :
    (rt : Runtime) (w : ℕ) (r : Code) → AllShrunk rt (complete_waiter rt w r)
unfolding complete_waiter
complete_waiter-Shrunk rt w r d = elim (Option-cases (rt.waiter w).task) [
  | inl e ↦ rw (e, complete_waiter) (Shrunk-refl (rt.chan d))
  | inr (t, e) ↦
      rw (e, complete_waiter)
        (unpark-Shrunk (set_waiter rt w (record (rt.waiter w) { active = false })) t r
          (rt.waiter w).index d)
]

pub timeout-Shrunk : (rt : Runtime) (t : ℕ) → AllShrunk rt (select_timeout_ready rt t)
timeout-Shrunk rt t d =
    subst (λ (f : ℕ → Chan). Shrunk (rt.chan d) (f d)) (sym same) (free-Shrunk stopped t d)
  where
    stopped : Runtime
    stopped = set_task rt t (record (rt.task t) { select_in_timer = false })

    same : (select_timeout_ready rt t).chan ≡ (free_task_waiters stopped t).chan
    same =
        unfold select_timeout_ready in
        (chan-mark_ready _ t ∙ chan-complete_select_wait (free_task_waiters stopped t) t)
