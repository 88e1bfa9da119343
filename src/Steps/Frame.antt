-- ===== src/Steps/Frame.antt =====
-- The operations on tasks, timers and fds that touch no channel.
use microthread.Base.{
  ℕ, ◌&&◌, ◌≡◌, refl, ◌∙◌, inl, inr, true, false, Bool, Option, none, some, List, [], ◌∷◌, arith,
  ◌==◌, Option-cases, if_both,
}
use microthread.State.{Ptr, Code, TaskState, Events, FdWaiter, Runtime}
use microthread.Transitions.{block_on_join, notify}
use microthread.TimerOps.{timer_push_state}
use microthread.Fd.{
  no_events, generation_current, generation_bump, fd_set_closing, fd_waiter_add, fd_waiter_remove,
  fd_wake_each, fd_wake_for_close, fd_ready_waiter, is_active,
}
use microthread.FdApi.{
  fd_close, fd_make_waiter, disown, fd_switch, fd_wait_park, fd_wait, PollResult,
}
use microthread.Join.{join, task_handle_release, handle_free_if_possible}
use microthread.Join.Live.{chan-fd_ready_waiter, chan-deactivate}
use microthread.Chan.Ops.{Outcome, returned}
use microthread.Select.Register.{timer_push-chan}
use microthread.Deadline.{deadline_after}
use microthread.Scheduler.{yield, slept, sleep_ms}

pub chan-release : (rt : Runtime) (h : Ptr) → (task_handle_release rt h).chan ≡ rt.chan
unfolding task_handle_release handle_free_if_possible
chan-release rt none = refl
chan-release rt (some h) = ground arith

pub chan-join : (rt : Runtime) (h : Ptr) → (join rt h).1.chan ≡ rt.chan
unfolding join block_on_join
chan-join rt none = refl
chan-join rt (some h) = ground arith

pub chan-yield : (rt : Runtime) → (yield rt).chan ≡ rt.chan
unfolding yield
chan-yield rt = ground arith

-- what mt_timer_push_state leaves, if it returns
abbrev SameWhenPushed : Runtime → Option (Code × Runtime) → Type 0
SameWhenPushed rt none = Unit
SameWhenPushed rt (some (rc, after)) = after.chan ≡ rt.chan

chan-timer_push :
    (allocates : ℕ → Bool) (rt : Runtime) (t deadline : ℕ) (state : TaskState)
    → SameWhenPushed rt (timer_push_state allocates rt t deadline state)
chan-timer_push allocates rt t deadline state =
    elim (Option-cases (timer_push_state allocates rt t deadline state)) [
      | inl e ↦ rw e tt
      | inr ((rc, after), e) ↦ rw e (timer_push-chan allocates rt t deadline state rc after e)
    ]

chan-slept :
    (rt : Runtime) (ms : ℕ) (pushed : Option (Code × Runtime))
    → SameWhenPushed rt pushed
    → (slept rt ms pushed).1.chan ≡ rt.chan
unfolding slept
chan-slept rt ms none h = refl
chan-slept rt ms (some (rc, timed)) h = ground (arith, h)

pub chan-sleep :
    (allocates : ℕ → Bool) (now : ℕ) (rt : Runtime) (ms : ℕ)
    → (sleep_ms allocates now rt ms).1.chan ≡ rt.chan
unfolding sleep_ms
chan-sleep allocates now rt ms = elim (Option-cases rt.current) [
  | inl e ↦ simp (sleep_ms, e)
  | inr (t, e) ↦
      let pushed = timer_push_state allocates rt t (deadline_after now ms) TaskState.sleeping in
      simp (sleep_ms, e)
        (if_both (λ (r : (Bool × ℕ) × Runtime). r.1.chan ≡ rt.chan) (ms == 0)
          {x = ((true, 0), yield rt)} {y = slept rt ms pushed} (chan-yield rt)
          (chan-slept rt ms pushed
            (chan-timer_push allocates rt t (deadline_after now ms) TaskState.sleeping)))
]

chan-set_closing :
    (allocates : Bool) (rt : Runtime) (fd : ℕ) (closing : Bool)
    → (fd_set_closing allocates rt fd closing).1.chan ≡ rt.chan
unfolding fd_set_closing
chan-set_closing allocates rt fd closing = ground arith

chan-generation_bump :
    (allocates : Bool) (rt : Runtime) (fd : ℕ) → (generation_bump allocates rt fd).chan ≡ rt.chan
unfolding generation_bump
chan-generation_bump allocates rt fd = ground arith

chan-wake_each :
    (of : FdWaiter → Bool) (rt : Runtime) (ws : List ℕ) (r : Code)
    → (fd_wake_each of rt ws r).chan ≡ rt.chan
unfolding fd_wake_each
chan-wake_each of rt [] r = refl
chan-wake_each of rt (w ∷ ws) r =
    let woken = fd_ready_waiter rt w r no_events in
    if_both (λ (x : Runtime). (fd_wake_each of x ws r).chan ≡ rt.chan)
      (is_active (rt.fd_waiter w).state && of (rt.fd_waiter w)) {x = woken} {y = rt}
      (chan-wake_each of woken ws r ∙ chan-fd_ready_waiter rt w r no_events)
      (chan-wake_each of rt ws r)

chan-wake_for_close :
    (allocates : Bool) (rt : Runtime) (fd : ℕ) → (fd_wake_for_close allocates rt fd).chan ≡ rt.chan
unfolding fd_wake_for_close
chan-wake_for_close allocates rt fd =
    let bumped = generation_bump allocates rt fd in
    chan-wake_each (λ x. x.fd == fd) bumped bumped.fd_waiters Code.err_closed
    ∙ chan-generation_bump allocates rt fd

-- a close of a descriptor, where no other worker comes between
pub chan-fd_close :
    (allocates : Bool) (closed : Code) (rt : Runtime) (fd : Option ℕ)
    → (fd_close allocates closed (λ r. r) rt fd).1.chan ≡ rt.chan
unfolding fd_close
chan-fd_close allocates closed rt none = refl
chan-fd_close allocates closed rt (some fd) =
    let marked = (fd_set_closing allocates rt fd true).1 in
    let woken = fd_wake_for_close allocates marked fd in
    ground (
      arith,
      chan-set_closing allocates rt fd true,
      chan-wake_for_close allocates marked fd,
      chan-set_closing allocates woken fd false,
    )

chan-make_waiter :
    (allocates : Bool) (rt : Runtime) (t w fd : ℕ) (events : Events)
    → (fd_make_waiter allocates rt t w fd events).chan ≡ rt.chan
unfolding fd_make_waiter generation_current
chan-make_waiter allocates rt t w fd events = ground arith

chan-waiter_add :
    (registered : Code) (rt : Runtime) (w : ℕ) → (fd_waiter_add registered rt w).1.chan ≡ rt.chan
unfolding fd_waiter_add notify
chan-waiter_add registered rt w = ground arith

chan-waiter_remove : (rt : Runtime) (w : ℕ) → (fd_waiter_remove rt w).chan ≡ rt.chan
unfolding fd_waiter_remove
chan-waiter_remove rt w = chan-deactivate rt w false

chan-gave_up :
    (rt : Runtime) (t w : ℕ)
    → (fd_waiter_remove (disown (fd_waiter_remove rt w) t) w).chan ≡ rt.chan
chan-gave_up rt t w =
    chan-waiter_remove (disown (fd_waiter_remove rt w) t) w ∙ chan-waiter_remove rt w

chan-fd_switch :
    (rt : Runtime) (t w : ℕ) (pushed : Option (Code × Runtime))
    → SameWhenPushed rt pushed
    → (fd_switch rt t w pushed).1.chan ≡ rt.chan
unfolding fd_switch
chan-fd_switch rt t w none h = chan-gave_up rt t w
chan-fd_switch rt t w (some (rc, timed)) h = ground (arith, h, chan-gave_up rt t w)

chan-fd_park :
    (allocates : Bool) (fresh : Ptr) (registered : Code) (heap_grows : ℕ → Bool) (now : ℕ)
    (rt : Runtime) (t fd : ℕ) (events : Events) (ms : ℕ)
    → (fd_wait_park allocates fresh registered heap_grows now rt t fd events ms).1.chan ≡ rt.chan
unfolding fd_wait_park
chan-fd_park allocates none registered heap_grows now rt t fd events ms = refl
chan-fd_park allocates (some w) registered heap_grows now rt t fd events ms =
    let owned = fd_make_waiter allocates rt t w fd events in
    let added = (fd_waiter_add registered owned w).1 in
    let same : added.chan ≡ rt.chan =
      chan-waiter_add registered owned w ∙ chan-make_waiter allocates rt t w fd events in
    let pushed = timer_push_state heap_grows added t (deadline_after now ms) TaskState.waiting_fd in
    if_both (λ (r : Outcome × Runtime). r.1.chan ≡ rt.chan) _ {x = fd_switch added t w pushed}
      {y = (returned (fd_waiter_add registered owned w).0, fd_waiter_remove (disown added t) w)}
      (chan-fd_switch added t w pushed
          (chan-timer_push heap_grows added t (deadline_after now ms) TaskState.waiting_fd)
        ∙ same)
      (chan-waiter_remove (disown added t) w ∙ same)

pub chan-fd_wait :
    (allocates : Bool) (fresh : Ptr) (registered : Code) (heap_grows : ℕ → Bool) (now : ℕ)
    (polled : PollResult) (rt : Runtime) (fd : Option ℕ) (events : Events) (ms : ℕ)
    → (fd_wait allocates fresh registered heap_grows now polled rt fd events ms).1.chan ≡ rt.chan
unfolding fd_wait
chan-fd_wait allocates fresh registered heap_grows now polled rt none events ms = refl
chan-fd_wait allocates fresh registered heap_grows now polled rt (some fd) events ms =
    elim (Option-cases rt.current) [
      | inl e ↦ ground (arith, e)
      | inr (t, e) ↦
          ground
            (arith, e, chan-fd_park allocates fresh registered heap_grows now rt t fd events ms)
    ]
