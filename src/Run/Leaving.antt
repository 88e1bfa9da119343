-- ===== src/Run/Leaving.antt =====
-- When a worker leaves its loop.
use microthread.Base.{
  ℕ, ◌+◌, ◌-◌, ◌<◌, ◌≡◌, refl, sym, ap, ◌∙◌, inl, inr, Bool, true, false, none, some, List, [], ◌∷◌,
  ltb, ◌==◌, ◌&&◌, ◌||◌, not, if◌then◌else◌, arith, length, Option-cases,
}
use microthread.State.{Code, Runtime}
use microthread.Transitions.{notify}
use microthread.Scheduler.{
  Next, leave, poll, wait, wait_ns, again, run, timer_peek, poll_timeout, stop_blocked,
  idle_untimed, idle, is_cancelled, take_next, worker_round, wake_expired_timers,
}
use microthread.Queue.Fifo

-- The runtime is stopped and, once it is initialised, the workers that wait are signalled.
pub record Stops (woken after : Runtime) : Type 0 where
  pub stopping : after.stopping ≡ true
  pub signals : after.signals ≡ (if woken.initialized then woken.signals + 1 else woken.signals)
  pub runq : after.runq ≡ woken.runq

-- Why a worker leaves, from the state after its polls: it was told to; no task is alive; or no task can
-- go on, since nothing runs and tasks wait for each other, or a timer is not due and
-- the worker does not sleep for timers. Who finds this out stops the runtime.
pub data Ending (sleeps : Bool) (now : ℕ) (woken after : Runtime) : Type 0 where
  told : woken.stopping ≡ true → after ≡ woken → Ending sleeps now woken after
  finished :
      woken.runq ≡ []
      → woken.live_count ≡ 0
      → after.run_result ≡ woken.run_result
      → Stops woken after
      → Ending sleeps now woken after
  stuck :
      woken.runq ≡ []
      → woken.running_tasks ≡ 0
      → timer_peek woken ≡ none
      → 0 < woken.channel_waiting_count + woken.join_waiting_count + woken.fd_waiting_count
      → after.run_result ≡ Code.err_state
      → Stops woken after
      → Ending sleeps now woken after
  unslept :
      (t : ℕ)
      → sleeps ≡ false
      → woken.runq ≡ []
      → timer_peek woken ≡ some t
      → now < (woken.task t).wake_ns
      → after.run_result ≡ Code.err_state
      → Stops woken after
      → Ending sleeps now woken after

-- what makes the next round of any worker leave
IsOver : Runtime → Type 0
IsOver rt =
    (rt.stopping && (not (is_cancelled rt.run_result) || not (ltb 0 (length rt.runq)))) ≡ true

Leaves : Bool → ℕ → Runtime → Next × Runtime → Type 0
Leaves sleeps now woken (leave, after) = Ending sleeps now woken after × IsOver after
Leaves sleeps now woken (poll ms, rt) = Unit
Leaves sleeps now woken (wait, rt) = Unit
Leaves sleeps now woken (wait_ns ns, rt) = Unit
Leaves sleeps now woken (again, rt) = Unit
Leaves sleeps now woken (run t, rt) = Unit

-- what a test guards may use it, and what follows may use that it failed
if_guards :
    (P : Next × Runtime → Type 0) (test : Bool) (x y : Next × Runtime)
    → (test ≡ true → P x)
    → (test ≡ false → P y)
    → P (if test then x else y)
if_guards P true x y hx hy = hx refl
if_guards P false x y hx hy = hy refl

notify-Stops :
    (rt : Runtime) (result : Code)
    → Stops rt (notify (record rt { run_result = result; stopping = true }))
unfolding notify
notify-Stops rt result = ground arith

result-notify : (rt : Runtime) → (notify rt).run_result ≡ rt.run_result
unfolding notify
result-notify rt = ground arith

empty-IsOver : (after : Runtime) → after.stopping ≡ true → after.runq ≡ [] → IsOver after
unfolding IsOver
empty-IsOver after on empty = ground (arith, on, empty)

-- a runtime without ready tasks that is stopped
stopped-Leaves :
    (sleeps : Bool) (now : ℕ) (rt after : Runtime)
    → rt.runq ≡ []
    → (Stops rt after → Ending sleeps now rt after)
    → Stops rt after
    → Leaves sleeps now rt (leave, after)
unfolding Leaves
stopped-Leaves sleeps now rt after empty why s =
    (why s, empty-IsOver after s.stopping (s.runq ∙ empty))

blocked-result : (rt : Runtime) → (stop_blocked rt).run_result ≡ Code.err_state
unfolding stop_blocked
blocked-result rt = result-notify (record rt { run_result = Code.err_state; stopping = true })

blocked-Stops : (rt : Runtime) → Stops rt (stop_blocked rt)
unfolding stop_blocked
blocked-Stops rt = notify-Stops rt Code.err_state

untimed-Leaves :
    (sleeps : Bool) (now : ℕ) (rt : Runtime)
    → rt.runq ≡ []
    → timer_peek rt ≡ none
    → Leaves sleeps now rt (idle_untimed rt)
unfolding idle_untimed Leaves
untimed-Leaves sleeps now rt empty untimed =
    if_guards (Leaves sleeps now rt) _ (leave, stop_blocked rt) (wait, rt)
      (λ e.
        stopped-Leaves sleeps now rt (stop_blocked rt) empty
          (stuck empty (ground (arith, e)) untimed (ground (arith, e)) (blocked-result rt))
          (blocked-Stops rt))
      (λ e. tt)

-- a worker with a timer that is not due
timed-Leaves :
    (sleeps : Bool) (now t : ℕ) (rt : Runtime)
    → rt.runq ≡ []
    → timer_peek rt ≡ some t
    → Leaves sleeps now rt (
        if ltb now (rt.task t).wake_ns
        then (if sleeps
            then (wait_ns ((rt.task t).wake_ns - now), rt)
            else (leave, stop_blocked rt))
        else (again, rt))
unfolding Leaves
timed-Leaves sleeps now t rt empty timed =
    if_guards (Leaves sleeps now rt) (ltb now (rt.task t).wake_ns) _ (again, rt)
      (λ early.
        if_guards (Leaves sleeps now rt) sleeps (wait_ns ((rt.task t).wake_ns - now), rt)
          (leave, stop_blocked rt) (λ on. tt)
          (λ off.
            stopped-Leaves sleeps now rt (stop_blocked rt) empty
              (unslept t off empty timed (ground (arith, early)) (blocked-result rt))
              (blocked-Stops rt)))
      (λ late. tt)

idle-Leaves :
    (sleeps : Bool) (now_for_poll now : ℕ) (rt : Runtime)
    → rt.runq ≡ []
    → Leaves sleeps now rt (idle sleeps now_for_poll now rt)
unfolding idle Leaves
idle-Leaves sleeps now_for_poll now rt empty = elim (Option-cases (timer_peek rt)) [
  | inl n ↦ rw (idle, n) (ready_or (idle_untimed rt) (untimed-Leaves sleeps now rt empty n))
  | inr (t, s) ↦ rw (idle, s) (ready_or _ (timed-Leaves sleeps now t rt empty s))
]
  where
    ended : Runtime
    ended = notify (record rt { stopping = true })

    ready_or :
        (rest : Next × Runtime)
        → Leaves sleeps now rt rest
        → Leaves sleeps now rt (
            if rt.stopping
            then (leave, rt)
            else (if rt.live_count == 0
                then (leave, ended)
                else (if ltb 0 rt.fd_waiting_count
                    then (poll (poll_timeout rt now_for_poll), rt)
                    else rest)))
    ready_or rest l =
        if_guards (Leaves sleeps now rt) rt.stopping (leave, rt) _
          (λ on. (told on refl, empty-IsOver rt on empty))
          (λ off.
            if_guards (Leaves sleeps now rt) (rt.live_count == 0) (leave, ended) _
              (λ dead.
                stopped-Leaves sleeps now rt ended empty
                  (finished empty (ground (arith, dead))
                    (result-notify (record rt { stopping = true })))
                  (notify-Stops rt rt.run_result))
              (λ alive.
                if_guards (Leaves sleeps now rt) (ltb 0 rt.fd_waiting_count)
                  (poll (poll_timeout rt now_for_poll), rt) rest (λ w. tt) (λ w. l)))

no_first : (xs : List ℕ) → Fifo.first xs ≡ none → xs ≡ []
no_first [] e = refl
no_first (x ∷ xs) e = cc

next-Leaves :
    (sleeps : Bool) (now_for_poll now : ℕ) (rt : Runtime)
    → Leaves sleeps now rt (take_next sleeps now_for_poll now rt)
unfolding take_next Leaves
next-Leaves sleeps now_for_poll now rt = elim (Option-cases (Fifo.first rt.runq)) [
  | inl n ↦ rw (take_next, n) (idle-Leaves sleeps now_for_poll now rt (no_first rt.runq n))
  | inr (t, s) ↦ rw (take_next, s) tt
]

-- the runtime after the timers and the polls of a round
abbrev pub woken_in : (Runtime → Runtime) → ℕ → Runtime → Runtime
woken_in polled now rt = if rt.stopping then rt else polled (wake_expired_timers rt now)

woken_when_stopping :
    (polled : Runtime → Runtime) (now : ℕ) (rt : Runtime)
    → rt.stopping ≡ true
    → woken_in polled now rt ≡ rt
woken_when_stopping polled now rt on = rw on refl

round-Leaves :
    (sleeps : Bool) (polled : Runtime → Runtime) (times : ℕ × ℕ × ℕ) (rt : Runtime)
    → Leaves sleeps times.2 (woken_in polled times.0 rt) (worker_round sleeps polled times rt)
unfolding worker_round Leaves IsOver
round-Leaves sleeps polled (now, now_for_poll, now_for_wait) rt =
    let woken = woken_in polled now rt in
    if_guards (Leaves sleeps now_for_wait woken)
      (rt.stopping && (not (is_cancelled rt.run_result) || not (ltb 0 (length rt.runq))))
      (leave, rt) (take_next sleeps now_for_poll now_for_wait woken)
      (λ on.
        let stops : rt.stopping ≡ true = ground (arith, on) in
        let same = woken_when_stopping polled now rt stops in
        (told (ap (λ (x : Runtime). x.stopping) same ∙ stops) (sym same), on))
      (λ off. next-Leaves sleeps now_for_poll now_for_wait woken)

-- the next round of any worker
over-leaves :
    (sleeps : Bool) (polled : Runtime → Runtime) (times : ℕ × ℕ × ℕ) (rt : Runtime)
    → IsOver rt
    → worker_round sleeps polled times rt ≡ (leave, rt)
unfolding worker_round IsOver
over-leaves sleeps polled (now, now_for_poll, now_for_wait) rt over = rw over refl

leaving :
    (sleeps : Bool) (now : ℕ) (woken : Runtime) (n : Next × Runtime)
    → n.0 ≡ leave
    → Leaves sleeps now woken n
    → Ending sleeps now woken n.1 × IsOver n.1
unfolding Leaves
leaving sleeps now woken (leave, rt) e l = l
leaving sleeps now woken (poll ms, rt) e l = absurd cc
leaving sleeps now woken (wait, rt) e l = absurd cc
leaving sleeps now woken (wait_ns ns, rt) e l = absurd cc
leaving sleeps now woken (again, rt) e l = absurd cc
leaving sleeps now woken (run t, rt) e l = absurd cc

-- A round of mt_worker_loop leaves the loop only where, after its polls, the runtime is stopping; or
-- no task is ready or alive; or none is ready or running, no timer is set and some task waits; or none
-- is ready, the first timer is not due and the worker does not sleep for timers. In the last three it
-- stops the runtime and signals the workers that wait, with MT_ERR_STATE in the last two. In each case
-- the next round of any worker, whatever its clock and its polls give, leaves at once and changes
-- nothing.
pub worker_round-Ending :
    (sleeps : Bool) (polled : Runtime → Runtime) (times : ℕ × ℕ × ℕ) (rt : Runtime) (sleeps' : Bool)
    (polled' : Runtime → Runtime) (times' : ℕ × ℕ × ℕ)
    → (worker_round sleeps polled times rt).0 ≡ leave
    → let after = (worker_round sleeps polled times rt).1 in
      Ending sleeps times.2 (woken_in polled times.0 rt) after
      × (worker_round sleeps' polled' times' after ≡ (leave, after))
worker_round-Ending sleeps polled times rt sleeps' polled' times' e =
    let (why, over) =
      leaving sleeps times.2 (woken_in polled times.0 rt) (worker_round sleeps polled times rt) e
        (round-Leaves sleeps polled times rt) in
    (why, over-leaves sleeps' polled' times' (worker_round sleeps polled times rt).1 over)
