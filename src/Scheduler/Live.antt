-- ===== src/Scheduler/Live.antt =====
-- What the scheduler does to the channels.
use microthread.Base.{
  ℕ, ltb, ◌+◌, zero, suc, ◌≡◌, refl, ◌∙◌, inl, inr, true, false, Bool, none, some, arith, length,
  Option-cases, List-cases, if_both, if◌then◌else◌,
}
use microthread.State.{Code, TaskState, TaskStatus, Runtime}
use microthread.Transitions.{set_task, mark_ready, mark_running, runq_push, notify, guarded_dec}
use microthread.TimerOps.{timer_pop}
use microthread.SelectWait.{select_timeout_ready}
use microthread.Fd.{fd_expire, fd_timeout_ready, no_events}
use microthread.Queue.Fifo
use microthread.Chan.Frame.{chan-mark_ready, timeout-Shrunk}
use microthread.Chan.Stable.{AllStable, AllShrunk-Stable, chan_eq-Stable}
use microthread.Join.{handle_complete}
use microthread.Join.Live.{chan-handle_complete, chan-deactivate, destroy_task-Stable}
use microthread.Scheduler.{
  Next, leave, expired_in, timer_ready, wake_expired, wake_expired_timers, timer_peek, show_status,
  retire, off_worker, switched_in, after_switch, start, take_next, worker_round, idle, idle_untimed,
  stop_blocked,
}

chan-show_status :
    (rt : Runtime) (t : ℕ) (status : TaskStatus) → (show_status rt t status).chan ≡ rt.chan
unfolding show_status
chan-show_status rt t status = ground arith

chan-notify : (rt : Runtime) → (notify rt).chan ≡ rt.chan
unfolding notify
chan-notify rt = ground arith

chan-runq_push : (rt : Runtime) (t : ℕ) → (runq_push rt t).chan ≡ rt.chan
unfolding runq_push notify
chan-runq_push rt t = ground arith

woken-Stable : (rt : Runtime) (t : ℕ) → AllStable rt → AllStable (mark_ready rt t)
woken-Stable rt t = chan_eq-Stable rt (mark_ready rt t) (chan-mark_ready rt t)

chan-fd_expire : (rt : Runtime) (t : ℕ) → (fd_expire rt t).chan ≡ rt.chan
unfolding fd_expire
chan-fd_expire rt t = elim (Option-cases (rt.task t).fd_waiter) [
  | inl e ↦ rw (fd_expire, e) refl
  | inr (w, e) ↦
      rw (fd_expire, e)
        (chan-deactivate (set_task rt t (record (rt.task t) { fd_in_timer = false })) w true)
]

chan-fd_timeout_ready : (rt : Runtime) (t : ℕ) → (fd_timeout_ready rt t).chan ≡ rt.chan
unfolding fd_timeout_ready
chan-fd_timeout_ready rt t =
    let freed = fd_expire rt t in
    chan-mark_ready
      (set_task freed t
        (record (freed.task t) { fd_result = Code.err_timeout; fd_ready_events = no_events }))
      t
    ∙ chan-fd_expire rt t

expired_in-Stable :
    (state : TaskState) (rt : Runtime) (t : ℕ) → AllStable rt → AllStable (expired_in state rt t)
unfolding expired_in
expired_in-Stable TaskState.waiting_select rt t s =
    AllShrunk-Stable rt (select_timeout_ready rt t) (timeout-Shrunk rt t) s
expired_in-Stable TaskState.waiting_fd rt t s =
    chan_eq-Stable rt (fd_timeout_ready rt t) (chan-fd_timeout_ready rt t) s
expired_in-Stable TaskState.ready rt t s = woken-Stable rt t s
expired_in-Stable TaskState.running rt t s = woken-Stable rt t s
expired_in-Stable TaskState.sleeping rt t s = woken-Stable rt t s
expired_in-Stable TaskState.waiting_chan rt t s = woken-Stable rt t s
expired_in-Stable TaskState.waiting_join rt t s = woken-Stable rt t s
expired_in-Stable TaskState.dead rt t s = woken-Stable rt t s

chan-timer_pop : (rt : Runtime) → (timer_pop rt).1.chan ≡ rt.chan
unfolding timer_pop
chan-timer_pop rt = elim (List-cases rt.timers.items) [
  | inl e ↦ simp (timer_pop, e)
  | inr (x, xs, e) ↦ simp (timer_pop, e)
]

wake_expired-Stable :
    (k : ℕ) (rt : Runtime) (now : ℕ) → AllStable rt → AllStable (wake_expired k rt now)
unfolding wake_expired timer_ready
wake_expired-Stable zero rt now s = s
wake_expired-Stable (suc k) rt now s =
    let popped = (timer_pop rt).1 in
    let kept : AllStable popped = chan_eq-Stable rt popped (chan-timer_pop rt) s in
    let later : AllStable (elim (timer_pop rt).0 [
      | none ↦ popped
      | some x ↦ wake_expired k (timer_ready popped x) now
    ]) =
      elim (Option-cases (timer_pop rt).0) [
        | inl e ↦ rw e kept
        | inr (x, e) ↦ rw e (
            wake_expired-Stable k (timer_ready popped x) now
              (expired_in-Stable (popped.task x).state popped x kept))
      ] in
    elim (Option-cases (timer_peek rt)) [
      | inl e ↦ simp (wake_expired, e) s
      | inr (t, e) ↦
          simp (wake_expired, e) (if_both AllStable (ltb now (rt.task t).wake_ns) s later)
    ]

told-Stable :
    (rt : Runtime) (t : ℕ) (status : TaskStatus)
    → AllStable rt
    → AllStable (show_status rt t status)
told-Stable rt t status = chan_eq-Stable rt (show_status rt t status) (chan-show_status rt t status)

retire-Stable : (rt : Runtime) (t : ℕ) → AllStable rt → AllStable (retire rt t)
unfolding retire
retire-Stable rt t s =
    let counted = record rt {
      live_count = guarded_dec rt.live_count;
      completed_count = rt.completed_count + 1;
    } in
    elim (Option-cases (rt.task t).handle) [
      | inl e ↦ simp (retire, e) (destroy_task-Stable counted t s)
      | inr (h, e) ↦
          let told = handle_complete counted h (rt.handle h).cancel_requested in
          simp (retire, e)
            (destroy_task-Stable told t (
              chan_eq-Stable counted told
                (chan-handle_complete counted h (rt.handle h).cancel_requested) s))
    ]

switched_in-Stable :
    (state : TaskState) (rt : Runtime) (t : ℕ) → AllStable rt → AllStable (switched_in state rt t)
unfolding switched_in
switched_in-Stable TaskState.ready rt t s =
    let told = show_status rt t TaskStatus.ready in
    chan_eq-Stable rt (runq_push told t)
      (chan-runq_push told t ∙ chan-show_status rt t TaskStatus.ready) s
switched_in-Stable TaskState.running rt t s =
    let stopped = record rt { run_result = Code.err_state; stopping = true } in
    chan_eq-Stable rt (notify stopped) (chan-notify stopped) s
switched_in-Stable TaskState.dead rt t s = retire-Stable rt t s
switched_in-Stable TaskState.sleeping rt t s = told-Stable rt t TaskStatus.sleeping s
switched_in-Stable TaskState.waiting_chan rt t s = told-Stable rt t TaskStatus.waiting_chan s
switched_in-Stable TaskState.waiting_select rt t s = told-Stable rt t TaskStatus.waiting_select s
switched_in-Stable TaskState.waiting_fd rt t s = told-Stable rt t TaskStatus.waiting_fd s
switched_in-Stable TaskState.waiting_join rt t s = told-Stable rt t TaskStatus.waiting_join s

-- after a switch, whatever the task waits for
pub after_switch-Stable : (rt : Runtime) (t : ℕ) → AllStable rt → AllStable (after_switch rt t)
unfolding after_switch
after_switch-Stable rt t s = switched_in-Stable (rt.task t).state (off_worker rt) t s

chan-stop_blocked : (rt : Runtime) → (stop_blocked rt).chan ≡ rt.chan
unfolding stop_blocked notify
chan-stop_blocked rt = ground arith

chan-idle_untimed : (rt : Runtime) → (idle_untimed rt).1.chan ≡ rt.chan
unfolding idle_untimed
chan-idle_untimed rt = ground (arith, chan-stop_blocked rt)

-- no task is ready
chan-idle :
    (sleeps : Bool) (now_for_poll now : ℕ) (rt : Runtime)
    → (idle sleeps now_for_poll now rt).1.chan ≡ rt.chan
unfolding idle notify
chan-idle sleeps now_for_poll now rt = ground (arith, chan-stop_blocked rt, chan-idle_untimed rt)

start-Stable : (rt : Runtime) (t : ℕ) → AllStable rt → AllStable (start rt t)
unfolding start mark_running
start-Stable rt t s =
    let running =
      mark_running (record rt { current = some t; running_tasks = rt.running_tasks + 1 }) t in
    told-Stable running t TaskStatus.running s

take_next-Stable :
    (sleeps : Bool) (now_for_poll now_for_wait : ℕ) (rt : Runtime)
    → AllStable rt
    → AllStable (take_next sleeps now_for_poll now_for_wait rt).1
unfolding take_next
take_next-Stable sleeps now_for_poll now_for_wait rt s = elim (Option-cases (Fifo.first rt.runq)) [
  | inl e ↦
      simp (take_next, e)
        (chan_eq-Stable rt (idle sleeps now_for_poll now_for_wait rt).1
          (chan-idle sleeps now_for_poll now_for_wait rt) s)
  | inr (t, e) ↦ simp (take_next, e) (start-Stable (record rt { runq = Fifo.rest rt.runq }) t s)
]

-- one round of a worker up to the switch or the wait, where the polls leave the channels stable
pub worker_round-Stable :
    (sleeps : Bool) (polled : Runtime → Runtime) (now now_for_poll now_for_wait : ℕ) (rt : Runtime)
    → ((r : Runtime) → AllStable r → AllStable (polled r))
    → AllStable rt
    → AllStable (worker_round sleeps polled (now, now_for_poll, now_for_wait) rt).1
unfolding worker_round wake_expired_timers
worker_round-Stable sleeps polled now now_for_poll now_for_wait rt polls s =
    let swept = polled (wake_expired_timers rt now) in
    let woken = if rt.stopping then rt else swept in
    let kept : AllStable woken = if_both AllStable rt.stopping {x = rt} {y = swept} s (
      polls (wake_expired_timers rt now) (wake_expired-Stable (length rt.timers.items) rt now s)) in
    if_both (λ (r : Next × Runtime). AllStable r.1) _ {x = (leave, rt)}
      {y = take_next sleeps now_for_poll now_for_wait woken} s
      (take_next-Stable sleeps now_for_poll now_for_wait woken kept)
