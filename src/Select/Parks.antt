-- ===== src/Select/Parks.antt =====
-- When mt_select parks the calling task.
use microthread.Base.{
  ℕ, ◌≡◌, refl, inl, inr, Bool, true, Option, none, some, List, [], ◌∷◌, arith, if_both,
  Option-cases, eq→==,
}
use microthread.State.{Ptr, Code, is_ok, TaskState, Runtime}
use microthread.Transitions.{set_task, block_on_select}
use microthread.TimerOps.{timer_push_state}
use microthread.Deadline.{deadline_after}
use microthread.SelectWait.{free_task_waiters}
use microthread.Select.{
  SelectCase, Plan, plan, try_cases, register, reset, switch_timed, arm, park, at_once, select,
}
use microthread.Chan.Ops.{Outcome, returned, parked}
use microthread.Select.Unready.{AllBlocked, cases-blocked}

-- a call that returns does not park
returned≢parked : (rc : Code) → Path Outcome (returned rc) parked → ⊥
returned≢parked rc e = cc

block-state :
    (rt : Runtime) (t : ℕ) → ((block_on_select rt t).task t).state ≡ TaskState.waiting_select
unfolding block_on_select
block-state rt t = ground (arith, eq→== t t refl)

-- the current task has parked
Sleeps : ℕ → Outcome × Runtime → Type 0
Sleeps t r = r.0 ≡ parked → (r.1.task t).state ≡ TaskState.waiting_select

returned-Sleeps : (t : ℕ) (rc : Code) (rt : Runtime) → Sleeps t (returned rc, rt)
unfolding Sleeps
returned-Sleeps t rc rt e = absurd (returned≢parked rc e)

timed-Sleeps :
    (rt : Runtime) (t : ℕ) (pushed : Option (Code × Runtime)) → Sleeps t (switch_timed rt t pushed)
unfolding switch_timed Sleeps
timed-Sleeps rt t none = returned-Sleeps t Code.err_nomem (free_task_waiters rt t)
timed-Sleeps rt t (some (rc, timed)) =
    let there = set_task timed t (record (timed.task t) { select_in_timer = true }) in
    if_both (Sleeps t) (is_ok rc) {x = (parked, block_on_select there t)}
      {y = (returned Code.err_nomem, free_task_waiters rt t)} (λ e. block-state there t)
      (returned-Sleeps t Code.err_nomem (free_task_waiters rt t))

arm-Sleeps :
    (allocates : ℕ → Bool) (now : ℕ) (rt : Runtime) (t : ℕ) (p : Plan)
    → Sleeps t (arm allocates now rt t p)
unfolding arm Sleeps
arm-Sleeps allocates now rt t p = elim (Option-cases p.timeout_index) [
  | inl e ↦ rw (e, arm) (λ k. block-state rt t)
  | inr (i, e) ↦
      rw (e, arm)
        (timed-Sleeps (indexed i) t (
          timer_push_state allocates (indexed i) t (deadline_after now p.timeout_ms)
            TaskState.waiting_select))
]
  where
    indexed : ℕ → Runtime
    indexed i = set_task rt t (record (rt.task t) { select_index = i })

park-Sleeps :
    (fresh : ℕ → Ptr) (allocates : ℕ → Bool) (now : ℕ) (rt : Runtime) (ks : List SelectCase)
    (p : Plan) (t : ℕ)
    → rt.current ≡ some t
    → Sleeps t (park fresh allocates now rt ks p)
unfolding park Sleeps
park-Sleeps fresh allocates now rt ks p t e =
    let (all, registered) = register fresh (reset rt t p) t ks 0 in
    rw (e, park)
      (if_both (Sleeps t) _ {x = (returned Code.err_invalid, rt)}
        (returned-Sleeps t Code.err_invalid rt)
        (if_both (Sleeps t) all {x = arm allocates now registered t p}
          {y = (returned Code.err_nomem, registered)} (arm-Sleeps allocates now registered t p)
          (returned-Sleeps t Code.err_nomem registered)))

no_default : (p : Plan) → at_once p ≡ none → p.default_index ≡ none
unfolding at_once
no_default p e = ground (arith, e)

-- what is known where a call of mt_select parks
Parks : Runtime → List SelectCase → Plan → ℕ → (Option ℕ × Outcome) × Runtime → Type 0
Parks rt ks p t r =
    r.0.1 ≡ parked
    → AllBlocked rt ks × (p.default_index ≡ none) × ((r.1.task t).state ≡ TaskState.waiting_select)

select-Parks :
    (fresh : ℕ → Ptr) (allocates : ℕ → Bool) (now : ℕ) (between : Runtime → Runtime) (rt : Runtime)
    (k : SelectCase) (ks : List SelectCase) (p : Plan) (t : ℕ)
    → plan (k ∷ ks) ≡ some p
    → (between rt).current ≡ some t
    → Parks rt (k ∷ ks) p t (select fresh allocates now between rt (k ∷ ks))
unfolding select Parks Sleeps
select-Parks fresh allocates now between rt k ks p t planned current =
    rw (planned, select)
      (elim (Option-cases (try_cases rt (k ∷ ks) 0).0) [
        | inr (taken, f) ↦ rw (f, select) (λ e. absurd (returned≢parked taken.1 e))
        | inl f ↦
            let (same, blocked) = cases-blocked rt (k ∷ ks) 0 f in
            rw (f, select)
              (elim (Option-cases (at_once p)) [
                | inr (i, g) ↦ rw (g, select) (λ e. absurd (returned≢parked Code.ok e))
                | inl g ↦
                    rw (g, select, same)
                      (λ e. (
                        blocked,
                        no_default p g,
                        park-Sleeps fresh allocates now (between rt) (k ∷ ks) p t current e,
                      ))
              ])
      ])

-- Where mt_select parks, whatever other workers do between its tries and its registration, each of its
-- channel cases was blocked when it was tried: a channel to receive from was open and empty, and
-- neither a call nor a select waited to send there; a channel to send to was open and had no room, and
-- neither a call nor a select waited to receive there. No case is a default, and the task that calls
-- waits in the select.
pub select-parks :
    (fresh : ℕ → Ptr) (allocates : ℕ → Bool) (now : ℕ) (between : Runtime → Runtime) (rt : Runtime)
    (ks : List SelectCase) (p : Plan) (t : ℕ)
    → plan ks ≡ some p
    → (between rt).current ≡ some t
    → (select fresh allocates now between rt ks).0.1 ≡ parked
    → AllBlocked rt ks
      × (p.default_index ≡ none)
      × (((select fresh allocates now between rt ks).1.task t).state ≡ TaskState.waiting_select)
unfolding Parks select
select-parks fresh allocates now between rt [] p t planned current parks =
    absurd (returned≢parked Code.err_invalid parks)
select-parks fresh allocates now between rt (k ∷ ks) p t planned current parks =
    select-Parks fresh allocates now between rt k ks p t planned current parks
