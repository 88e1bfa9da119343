-- ===== src/Chan/Hanging.antt =====
-- Whom the end of a select wakes.
use mathlib.Core.Path.{subst}
use mathlib.Core.Option.{some-injective}
use native.Mathlib.Decide.{ℕ_discrete}
use microthread.Base.{
  ℕ, ◌≡◌, ◌⊎◌, refl, sym, ap, ◌∙◌, true, false, none, Option, some, arith, has, Option-cases, inl,
  inr, eq→==, update,
}
use microthread.State.{Code, TaskState, Runtime}
use microthread.Transitions.{
  set_task, set_waiter, complete_channel_wait, complete_select_wait, mark_ready, runq_push, notify,
}
use microthread.TimerOps.{timer_remove}
use microthread.Chan.Woken.{remove_all-IsSame, last_has, still_has}
use microthread.SelectWait.{free_task_waiters, stop_timeout, unpark_task, complete_waiter}
use microthread.Chan.Selected.{Quiet-Tied, complete-Quiet, Tied, unpark-Tied, unpark-Removed}

-- The task is ready and queued to run, and its select returns `result`.
pub record IsSelected (result : Code) (rt : Runtime) (t : ℕ) : Type 0 where
  pub state : (rt.task t).state ≡ TaskState.ready
  pub select_result : (rt.task t).select_result ≡ result
  pub queued : has t rt.runq ≡ true

ready-IsSelected :
    (rt : Runtime) (t i : ℕ) (s : Code)
    → IsSelected s
        (mark_ready (set_task rt t (record (rt.task t) { select_result = s; select_index = i })) t)
        t
unfolding mark_ready runq_push notify
ready-IsSelected rt t i s = ground (arith, eq→== t t refl, last_has t rt.runq)

ready-keeps :
    (rt : Runtime) (t u i : ℕ) (s : Code)
    → IsSelected s rt t
    → IsSelected s
        (mark_ready (set_task rt u (record (rt.task u) { select_result = s; select_index = i })) u)
        t
unfolding mark_ready runq_push notify
ready-keeps rt t u i s h = ground (arith, h, still_has t u rt.runq h.queued)

stop-keeps :
    (rt : Runtime) (t u : ℕ) (s : Code) → IsSelected s rt t → IsSelected s (stop_timeout rt u) t
unfolding stop_timeout timer_remove
stop-keeps rt t u s h = ground (arith, h)

wait-keeps :
    (rt : Runtime) (t u : ℕ) (s : Code)
    → IsSelected s rt t
    → IsSelected s (complete_select_wait rt u) t
unfolding complete_select_wait
wait-keeps rt t u s h = ground (arith, h)

free-keeps :
    (rt : Runtime) (t u : ℕ) (s : Code)
    → IsSelected s rt t
    → IsSelected s (free_task_waiters rt u) t
unfolding free_task_waiters
free-keeps rt t u s h =
    let e = remove_all-IsSame rt (rt.task u).select_waiters in ground (arith, h, e.task, e.runq)

unpark-IsSelected : (rt : Runtime) (t i : ℕ) (s : Code) → IsSelected s (unpark_task rt t s i) t
unfolding unpark_task
unpark-IsSelected rt t i s =
    ready-IsSelected (complete_select_wait (free_task_waiters (stop_timeout rt t) t) t) t i s

unpark-keeps :
    (rt : Runtime) (t u i : ℕ) (s : Code)
    → IsSelected s rt t
    → IsSelected s (unpark_task rt u s i) t
unfolding unpark_task
unpark-keeps rt t u i s h =
    let stopped = stop_timeout rt u in
    let freed = free_task_waiters stopped u in
    ready-keeps (complete_select_wait freed u) t u i s
      (wait-keeps freed t u s (free-keeps stopped t u s (stop-keeps rt t u s h)))

-- A select waiter of the task `t` on the channel `c`: it is queued there, or the select has ended.
pub record Hangs (s : Code) (c w t : ℕ) (rt : Runtime) : Type 0 where
  pub tied : Tied w t rt
  pub there :
      (has w (rt.chan c).select_send ≡ true)
      ⊎ (has w (rt.chan c).select_recv ≡ true)
      ⊎ IsSelected s rt t

-- the end of a task's select
unpark-Hangs :
    (s : Code) (c w t u i : ℕ) (rt : Runtime)
    → Hangs s c w t rt
    → Hangs s c w t (unpark_task rt u s i)
unpark-Hangs s c w t u i rt h = elim (ℕ_discrete u t) [
  | yes e ↦ record {
    tied = unpark-Tied w t u i s rt h.tied;
    there = inr (inr (subst (IsSelected s (unpark_task rt u s i)) e (unpark-IsSelected rt u i s)));
  }
  | no n ↦
      let r = unpark-Removed w t u i s rt n h.tied in
      record {
        tied = unpark-Tied w t u i s rt h.tied;
        there = elim h.there [
          | inl x ↦ inl (r.sends c x)
          | inr (inl x) ↦ inr (inl (r.recvs c x))
          | inr (inr x) ↦ inr (inr (unpark-keeps rt t u i s x))
        ];
      }
]

inactive-Tied :
    (rt : Runtime) (x w t : ℕ)
    → Tied w t rt
    → Tied w t (set_waiter rt x (record (rt.waiter x) { active = false }))
inactive-Tied rt x w t k = record {
  owned = λ u v h. same v ∙ k.owned u v h;
  owner = same w ∙ k.owner;
}
  where
    same :
        (v : ℕ)
        → (update rt.waiter x (record (rt.waiter x) { active = false }) v).task ≡ (rt.waiter v).task
    same v = ground arith

-- the end of a select, for a waiter that was taken out of its queue
pub complete-Hangs :
    (s : Code) (c w t x : ℕ) (rt : Runtime)
    → Tied w t rt
    → (x ≡ w)
      ⊎ (has w (rt.chan c).select_send ≡ true)
      ⊎ (has w (rt.chan c).select_recv ≡ true)
      ⊎ IsSelected s rt t
    → Hangs s c w t (complete_waiter rt x s)
unfolding complete_waiter
complete-Hangs s c w t x rt k h = elim (Option-cases (rt.waiter x).task) [
  | inl e ↦ rw (e, complete_waiter) (record { tied = k; there = unowned e h })
  | inr (u, e) ↦
      let marked = set_waiter rt x (record (rt.waiter x) { active = false }) in
      let i = (rt.waiter x).index in
      let tied = inactive-Tied rt x w t k in
      rw (e, complete_waiter)
        (elim h [
          | inl same ↦ record {
            tied = unpark-Tied w t u i s marked tied;
            there = inr (
                inr (
                  subst (IsSelected s (unpark_task marked u s i)) (own u e same)
                    (unpark-IsSelected marked u i s)));
          }
          | inr rest ↦ unpark-Hangs s c w t u i marked (record { tied = tied; there = moved rest })
        ])
]
  where
    own : (u : ℕ) → (rt.waiter x).task ≡ some u → x ≡ w → u ≡ t
    own u e i = some-injective u t (sym e ∙ ap (λ v. (rt.waiter v).task) i ∙ k.owner)

    none≢some : Path (Option ℕ) none (some t) → ⊥
    none≢some e = cc

    unowned :
        (rt.waiter x).task ≡ none
        → (x ≡ w)
          ⊎ (has w (rt.chan c).select_send ≡ true)
          ⊎ (has w (rt.chan c).select_recv ≡ true)
          ⊎ IsSelected s rt t
        → (has w (rt.chan c).select_send ≡ true)
          ⊎ (has w (rt.chan c).select_recv ≡ true)
          ⊎ IsSelected s rt t
    unowned e (inl i) = absurd (none≢some (sym e ∙ ap (λ v. (rt.waiter v).task) i ∙ k.owner))
    unowned e (inr rest) = rest

    moved :
        (has w (rt.chan c).select_send ≡ true)
          ⊎ (has w (rt.chan c).select_recv ≡ true)
          ⊎ IsSelected s rt t
        → (has w (rt.chan c).select_send ≡ true)
          ⊎ (has w (rt.chan c).select_recv ≡ true)
          ⊎ IsSelected s (set_waiter rt x (record (rt.waiter x) { active = false })) t
    moved (inl y) = inl y
    moved (inr (inl y)) = inr (inl y)
    moved (inr (inr y)) =
        inr (inr (record { state = y.state; select_result = y.select_result; queued = y.queued }))

channel_wait-keeps :
    (rt : Runtime) (t u : ℕ) (s r : Code)
    → IsSelected s rt t
    → IsSelected s (complete_channel_wait rt u r) t
unfolding complete_channel_wait mark_ready runq_push notify
channel_wait-keeps rt t u s r h = ground (arith, h, still_has t u rt.runq h.queued)

-- the end of another task's wait on a channel
pub channel_wait-Hangs :
    (s : Code) (c w t u : ℕ) (r : Code) (rt : Runtime)
    → Hangs s c w t rt
    → Hangs s c w t (complete_channel_wait rt u r)
channel_wait-Hangs s c w t u r rt h =
    let q = complete-Quiet rt u r in
    record {
      tied = Quiet-Tied w t rt (complete_channel_wait rt u r) q h.tied;
      there = elim h.there [
        | inl x ↦ inl (subst (λ f. has w (f c).select_send ≡ true) (sym q.chan) x)
        | inr (inl x) ↦ inr (inl (subst (λ f. has w (f c).select_recv ≡ true) (sym q.chan) x))
        | inr (inr x) ↦ inr (inr (channel_wait-keeps rt t u s r x))
      ];
    }
