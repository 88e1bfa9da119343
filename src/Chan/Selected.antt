-- ===== src/Chan/Selected.antt =====
-- Which waiters the end of a select takes out of the queues.
use mathlib.Core.Path.{subst}
use mathlib.Core.Option.{some-injective}
use native.Mathlib.Decide.{ℕ_discrete}
use microthread.Base.{
  ℕ, ◌≡◌, ◌≢◌, refl, sym, ◌∙◌, true, false, Bool, some, List, [], ◌∷◌, arith, has, has-erase-other,
  if_both, if◌then◌else◌, Option-cases, inl, inr, eq→==, ne→==,
}
use microthread.State.{Code, SelectOp, op_send, op_recv, op_default, op_timeout, Runtime}
use microthread.Transitions.{
  set_task, complete_channel_wait, complete_select_wait, mark_ready, runq_push, notify,
}
use microthread.TimerOps.{timer_remove}
use microthread.Chan.Woken.{remove_all-IsSame}
use microthread.SelectWait.{
  select_waitq_remove, dequeue, remove_waiter_from_channel, remove_all, free_task_waiters,
  stop_timeout, unpark_task,
}

-- the waiters that a task lists are its own
abbrev pub IsOwned : Runtime → Type 0
IsOwned rt = (t w : ℕ) → has w (rt.task t).select_waiters ≡ true → (rt.waiter w).task ≡ some t

-- the list of waiters of each task, and whose a waiter is, stay
pub record Quiet (a b : Runtime) : Type 0 where
  pub chan : b.chan ≡ a.chan
  pub owner : (w : ℕ) → (b.waiter w).task ≡ (a.waiter w).task
  pub waiters : (t : ℕ) → (b.task t).select_waiters ≡ (a.task t).select_waiters

stop-Quiet : (rt : Runtime) (t : ℕ) → Quiet rt (stop_timeout rt t)
unfolding stop_timeout timer_remove
stop-Quiet rt t = record {
  chan = ground arith;
  owner = λ w. ground arith;
  waiters = λ u. ground arith;
}

wait-Quiet : (rt : Runtime) (t : ℕ) → Quiet rt (complete_select_wait rt t)
unfolding complete_select_wait
wait-Quiet rt t = record {
  chan = ground arith;
  owner = λ w. ground arith;
  waiters = λ u. ground arith;
}

ready-Quiet :
    (rt : Runtime) (t i : ℕ) (s : Code)
    → Quiet rt
        (mark_ready (set_task rt t (record (rt.task t) { select_result = s; select_index = i })) t)
unfolding mark_ready runq_push notify
ready-Quiet rt t i s = record {
  chan = ground arith;
  owner = λ w. ground arith;
  waiters = λ u. ground arith;
}

pub complete-Quiet : (rt : Runtime) (t : ℕ) (s : Code) → Quiet rt (complete_channel_wait rt t s)
unfolding complete_channel_wait mark_ready runq_push notify
complete-Quiet rt t s = record {
  chan = ground arith;
  owner = λ w. ground arith;
  waiters = λ u. ground arith;
}

pub Quiet-IsOwned : (a b : Runtime) → Quiet a b → IsOwned a → IsOwned b
Quiet-IsOwned a b q o t w h =
    q.owner w ∙ o t w (subst (λ (ws : List ℕ). has w ws ≡ true) (q.waiters t) h)

-- a removal keeps the other members of the queues
pub record Removed (v : ℕ) (a b : Runtime) : Type 0 where
  pub sends : (c : ℕ) → has v (a.chan c).select_send ≡ true → has v (b.chan c).select_send ≡ true
  pub recvs : (c : ℕ) → has v (a.chan c).select_recv ≡ true → has v (b.chan c).select_recv ≡ true

Removed-refl : (v : ℕ) (a : Runtime) → Removed v a a
Removed-refl v a = record { sends = λ c h. h; recvs = λ c h. h }

Removed-trans : (v : ℕ) (a b d : Runtime) → Removed v a b → Removed v b d → Removed v a d
Removed-trans v a b d x y = record {
  sends = λ c h. y.sends c (x.sends c h);
  recvs = λ c h. y.recvs c (x.recvs c h);
}

dequeue-Removed :
    (rt : Runtime) (op : SelectOp) (c w v : ℕ) → w ≢ v → Removed v rt (dequeue rt op c w).1
unfolding dequeue select_waitq_remove
dequeue-Removed rt op_send c w v n = record {
  sends = λ d h. ground (arith, h, has-erase-other v w (rt.chan c).select_send n);
  recvs = λ d h. ground (arith, h);
}
dequeue-Removed rt op_recv c w v n = record {
  sends = λ d h. ground (arith, h);
  recvs = λ d h. ground (arith, h, has-erase-other v w (rt.chan c).select_recv n);
}
dequeue-Removed rt op_default c w v n = Removed-refl v rt
dequeue-Removed rt op_timeout c w v n = Removed-refl v rt

remove-Removed : (rt : Runtime) (w v : ℕ) → w ≢ v → Removed v rt (remove_waiter_from_channel rt w).1
unfolding remove_waiter_from_channel
remove-Removed rt w v n = elim (Option-cases (rt.waiter w).ch) [
  | inl e ↦ rw (e, remove_waiter_from_channel) (Removed-refl v rt)
  | inr (c, e) ↦
      rw (e, remove_waiter_from_channel)
        (if_both (λ (x : Bool × Runtime). Removed v rt x.1) (rt.waiter w).active
          {x = dequeue rt (rt.waiter w).op c w} {y = (false, rt)}
          (dequeue-Removed rt (rt.waiter w).op c w v n) (Removed-refl v rt))
]

-- the removal of waiters among which `v` is not
remove_all-Removed :
    (rt : Runtime) (ws : List ℕ) (v : ℕ) → has v ws ≡ false → Removed v rt (remove_all rt ws)
unfolding remove_all
remove_all-Removed rt [] v out = Removed-refl v rt
remove_all-Removed rt (w ∷ ws) v out =
    let next = if (rt.waiter w).active then (remove_waiter_from_channel rt w).1 else rt in
    Removed-trans v rt next (remove_all next ws)
      (if_both (Removed v rt) (rt.waiter w).active (remove-Removed rt w v (apart out))
        (Removed-refl v rt))
      (remove_all-Removed next ws v (ground (arith, out)))
  where
    apart : has v (w ∷ ws) ≡ false → w ≢ v
    apart o i = true≢false (sym (ground (arith, i)) ∙ o)
      where
        true≢false : Path Bool true false → ⊥
        true≢false e = cc

-- the waiters of a task are freed
free-IsOwned : (rt : Runtime) (t : ℕ) → IsOwned rt → IsOwned (free_task_waiters rt t)
unfolding free_task_waiters
free-IsOwned rt t o u w h =
    let same = remove_all-IsSame rt (rt.task t).select_waiters in
    same.owner w ∙ o u w (listed same.task h)
  where
    none_listed : Path Bool false true → ⊥
    none_listed e = cc

    listed :
        (remove_all rt (rt.task t).select_waiters).task ≡ rt.task
        → has w ((free_task_waiters rt t).task u).select_waiters ≡ true
        → has w (rt.task u).select_waiters ≡ true
    listed e l = elim (ℕ_discrete t u) [
      | yes i ↦ absurd (none_listed (rw (eq→== t u i) at l))
      | no n ↦ subst (λ f. has w (f u).select_waiters ≡ true) e (rw (ne→== t u n) at l)
    ]

-- the waiter of another task stays
free-Removed :
    (rt : Runtime) (t u w : ℕ)
    → IsOwned rt
    → (rt.waiter w).task ≡ some u
    → t ≢ u
    → Removed w rt (free_task_waiters rt t)
unfolding free_task_waiters
free-Removed rt t u w o e n =
    let r =
      remove_all-Removed rt (rt.task t).select_waiters w
        (elsewhere (has w (rt.task t).select_waiters) refl) in
    record { sends = r.sends; recvs = r.recvs }
  where
    elsewhere : (b : Bool) → has w (rt.task t).select_waiters ≡ b → b ≡ false
    elsewhere false h = refl
    elsewhere true h = absurd (n (some-injective t u (sym (o t w h) ∙ e)))

-- What is known of the waiter `w` of the task `t` while selects end.
pub record Tied (w t : ℕ) (rt : Runtime) : Type 0 where
  pub owned : IsOwned rt
  pub owner : (rt.waiter w).task ≡ some t

pub Quiet-Tied : (w t : ℕ) (a b : Runtime) → Quiet a b → Tied w t a → Tied w t b
Quiet-Tied w t a b q k = record { owned = Quiet-IsOwned a b q k.owned; owner = q.owner w ∙ k.owner }

free-Tied : (w t u : ℕ) (rt : Runtime) → Tied w t rt → Tied w t (free_task_waiters rt u)
unfolding free_task_waiters
free-Tied w t u rt k = record {
  owned = free-IsOwned rt u k.owned;
  owner = (remove_all-IsSame rt (rt.task u).select_waiters).owner w ∙ k.owner;
}

pub unpark-Tied :
    (w t u i : ℕ) (s : Code) (rt : Runtime) → Tied w t rt → Tied w t (unpark_task rt u s i)
unfolding unpark_task
unpark-Tied w t u i s rt k =
    let stopped = stop_timeout rt u in
    let freed = free_task_waiters stopped u in
    let ended = complete_select_wait freed u in
    Quiet-Tied w t ended _ (ready-Quiet ended u i s) (
      Quiet-Tied w t freed ended (wait-Quiet freed u)
        (free-Tied w t u stopped (Quiet-Tied w t rt stopped (stop-Quiet rt u) k)))

-- the end of another task's select leaves the waiter in its queue
pub unpark-Removed :
    (w t u i : ℕ) (s : Code) (rt : Runtime)
    → u ≢ t
    → Tied w t rt
    → Removed w rt (unpark_task rt u s i)
unfolding unpark_task
unpark-Removed w t u i s rt n k =
    let stopped = stop_timeout rt u in
    let freed = free_task_waiters stopped u in
    let ended = complete_select_wait freed u in
    let before = Quiet-Tied w t rt stopped (stop-Quiet rt u) k in
    let last_ =
      mark_ready (set_task ended u (record (ended.task u) { select_result = s; select_index = i }))
        u in
    Removed-trans w rt stopped last_ (quiet-Removed rt stopped (stop-Quiet rt u)) (
      Removed-trans w stopped freed last_ (free-Removed stopped u t w before.owned before.owner n) (
        Removed-trans w freed ended last_ (quiet-Removed freed ended (wait-Quiet freed u))
          (quiet-Removed ended last_ (ready-Quiet ended u i s))))
  where
    quiet-Removed : (a b : Runtime) → Quiet a b → Removed w a b
    quiet-Removed a b q = record {
      sends = λ c h. subst (λ f. has w (f c).select_send ≡ true) (sym q.chan) h;
      recvs = λ c h. subst (λ f. has w (f c).select_recv ≡ true) (sym q.chan) h;
    }
