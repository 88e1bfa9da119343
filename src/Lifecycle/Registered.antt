-- ===== src/Lifecycle/Registered.antt =====
-- What the end of a task leaves as it is: the registry of tasks and the handles, and of the channels
-- all but their select queues.
use microthread.Base.{
  ℕ, ◌≡◌, refl, ap, ◌∙◌, inl, inr, Bool, false, List, [], ◌∷◌, arith, erase, Option-cases,
  Bool-cases, if_both, eq→==,
}
use microthread.State.{SelectOp, op_recv, op_send, op_default, op_timeout, Chan, Runtime}
use microthread.Transitions.{notify}
use microthread.SelectWait.{
  select_waitq_remove, dequeue, remove_waiter_from_channel, remove_all, free_task_waiters,
}
use microthread.Fd.{deactivated, fd_waiter_deactivate, fd_waiter_remove}
use microthread.Join.{task_destroy}
use microthread.Chan.Frame.{AllShrunk, Shrunk-refl, Shrunk-trans, free-Shrunk, Shrunk-of_eq}
use microthread.Lifecycle.{detach}

pub record SameTasks (a b : Runtime) : Type 0 where
  pub tasks : b.all_tasks ≡ a.all_tasks
  pub handles : b.handle ≡ a.handle

SameTasks-refl : (a : Runtime) → SameTasks a a
SameTasks-refl a = record { tasks = refl; handles = refl }

SameTasks-trans : (a b c : Runtime) → SameTasks a b → SameTasks b c → SameTasks a c
SameTasks-trans a b c p q = record { tasks = q.tasks ∙ p.tasks; handles = q.handles ∙ p.handles }

same-dequeue : (rt : Runtime) (op : SelectOp) (c w : ℕ) → SameTasks rt (dequeue rt op c w).1
unfolding dequeue select_waitq_remove
same-dequeue rt op_send c w = record { tasks = ground arith; handles = ground arith }
same-dequeue rt op_recv c w = record { tasks = ground arith; handles = ground arith }
same-dequeue rt op_default c w = SameTasks-refl rt
same-dequeue rt op_timeout c w = SameTasks-refl rt

same-remove_waiter : (rt : Runtime) (w : ℕ) → SameTasks rt (remove_waiter_from_channel rt w).1
unfolding remove_waiter_from_channel
same-remove_waiter rt w = elim (Option-cases (rt.waiter w).ch) [
  | inl e ↦ rw (e, remove_waiter_from_channel) (SameTasks-refl rt)
  | inr (c, e) ↦
      rw (e, remove_waiter_from_channel)
        (if_both (λ (r : Bool × Runtime). SameTasks rt r.1) (rt.waiter w).active
          {x = dequeue rt (rt.waiter w).op c w} {y = (false, rt)}
          (same-dequeue rt (rt.waiter w).op c w) (SameTasks-refl rt))
]

same-remove_all : (rt : Runtime) (ws : List ℕ) → SameTasks rt (remove_all rt ws)
unfolding remove_all
same-remove_all rt [] = SameTasks-refl rt
same-remove_all rt (w ∷ ws) = elim (Bool-cases (rt.waiter w).active) [
  | inl on ↦
      let rt' = (remove_waiter_from_channel rt w).1 in
      rw (on, remove_all)
        (SameTasks-trans rt rt' (remove_all rt' ws) (same-remove_waiter rt w)
          (same-remove_all rt' ws))
  | inr off ↦ rw (off, remove_all) (same-remove_all rt ws)
]

same-free : (rt : Runtime) (t : ℕ) → SameTasks rt (free_task_waiters rt t)
unfolding free_task_waiters
same-free rt t =
    let s = same-remove_all rt (rt.task t).select_waiters in
    record { tasks = s.tasks; handles = s.handles }

same-fd_remove : (rt : Runtime) (w : ℕ) → SameTasks rt (fd_waiter_remove rt w)
unfolding fd_waiter_remove fd_waiter_deactivate deactivated notify
same-fd_remove rt w = record { tasks = ground arith; handles = ground arith }

chan-fd_remove : (rt : Runtime) (w : ℕ) → (fd_waiter_remove rt w).chan ≡ rt.chan
unfolding fd_waiter_remove fd_waiter_deactivate deactivated notify
chan-fd_remove rt w = ground arith

-- What one round of the loop of mt_shutdown keeps.
pub record Kept (a b : Runtime) : Type 0 where
  pub handles : b.handle ≡ a.handle
  pub channels : AllShrunk a b

pub Kept-refl : (a : Runtime) → Kept a a
Kept-refl a = record { handles = refl; channels = λ d. Shrunk-refl (a.chan d) }

pub Kept-trans : (a b c : Runtime) → Kept a b → Kept b c → Kept a c
Kept-trans a b c p q = record {
  handles = q.handles ∙ p.handles;
  channels = λ d. Shrunk-trans (a.chan d) (b.chan d) (c.chan d) (p.channels d) (q.channels d);
}

free-Kept : (rt : Runtime) (t : ℕ) → Kept rt (free_task_waiters rt t)
free-Kept rt t = record { handles = (same-free rt t).handles; channels = free-Shrunk rt t }

fd_remove-Kept : (rt : Runtime) (w : ℕ) → Kept rt (fd_waiter_remove rt w)
fd_remove-Kept rt w = record {
  handles = (same-fd_remove rt w).handles;
  channels = λ d.
      Shrunk-of_eq (rt.chan d) ((fd_waiter_remove rt w).chan d)
        (ap (λ (f : ℕ → Chan). f d) (chan-fd_remove rt w));
}

-- the waiters of a task are freed, and its fd waiter is removed
unwatched-Kept : (rt : Runtime) (t w : ℕ) → Kept rt (fd_waiter_remove (free_task_waiters rt t) w)
unwatched-Kept rt t w =
    let freed = free_task_waiters rt t in
    Kept-trans rt freed (fd_waiter_remove freed w) (free-Kept rt t) (fd_remove-Kept freed w)

unwatched-tasks :
    (rt : Runtime) (t w : ℕ)
    → (fd_waiter_remove (free_task_waiters rt t) w).all_tasks ≡ rt.all_tasks
unwatched-tasks rt t w = (same-fd_remove (free_task_waiters rt t) w).tasks ∙ (same-free rt t).tasks

detach-Kept :
    (rt : Runtime) (t : ℕ) → Kept rt (detach rt t) × ((detach rt t).all_tasks ≡ rt.all_tasks)
unfolding detach
detach-Kept rt t = elim (Option-cases ((free_task_waiters rt t).task t).fd_waiter) [
  | inl e ↦
      let k = free-Kept rt t in
      rw (detach, e) (record { handles = k.handles; channels = k.channels }, (same-free rt t).tasks)
  | inr (w, e) ↦
      let k = unwatched-Kept rt t w in
      rw (detach, e) (record { handles = k.handles; channels = k.channels }, unwatched-tasks rt t w)
]

destroy-Kept :
    (rt : Runtime) (t : ℕ)
    → Kept rt (task_destroy rt t) × ((task_destroy rt t).all_tasks ≡ erase t rt.all_tasks)
unfolding task_destroy
destroy-Kept rt t = elim (Option-cases ((free_task_waiters rt t).task t).fd_waiter) [
  | inl e ↦
      let k = free-Kept rt t in
      rw (task_destroy, e)
        (record { handles = k.handles; channels = k.channels }, ap (erase t) (same-free rt t).tasks)
  | inr (w, e) ↦
      let k = unwatched-Kept rt t w in
      rw (task_destroy, e)
        (
          record { handles = k.handles; channels = k.channels },
          ap (erase t) (unwatched-tasks rt t w),
        )
]

-- A round keeps the handles and the channels, and takes the first task off the registry.
pub round-Kept :
    (rt : Runtime) (t : ℕ) (ts : List ℕ)
    → rt.all_tasks ≡ t ∷ ts
    → Kept rt (task_destroy (detach rt t) t) × ((task_destroy (detach rt t) t).all_tasks ≡ ts)
round-Kept rt t ts e =
    let (kept, same) = detach-Kept rt t in
    let (kept', less) = destroy-Kept (detach rt t) t in
    (
      Kept-trans rt (detach rt t) (task_destroy (detach rt t) t) kept kept',
      less ∙ ap (erase t) (same ∙ e) ∙ rw (eq→== t t refl) refl,
    )
