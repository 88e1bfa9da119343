-- ===== src/FdApi/Waits.antt =====
-- A wait on a descriptor keeps the reservations of events apart.
use microthread.Base.{
  ℕ, ◌+◌, List, [], ◌∷◌, length, ◌≡◌, refl, ap, ◌∙◌, inl, inr, true, false, Bool, Option, none,
  some, ◌==◌, not, if◌then◌else◌, arith, has, update, eq→==, Bool-cases, if_both, Option-cases,
}
use microthread.State.{Ptr, Code, is_ok, TaskState, Events, FdWaiter, removed, Runtime}
use microthread.Transitions.{set_task, notify}
use microthread.Deadline.{deadline_after}
use microthread.TimerOps.{timer_reserve, timer_insert, timer_push_state}
use microthread.Chan.Ops.{Outcome, returned, parked}
use microthread.Fd.{
  set_fd_waiter, conflicts_in, fd_waiter_conflicts, fd_is_closing, generation_current,
  fd_waiter_add, fd_waiter_remove, no_events,
}
use microthread.Fd.Exclusive.{Excludes, unlisted-IsExclusive}
use microthread.Fd.Reserved.{LeavesWaiters, leaves-Excludes, deactivate-Excludes, add-Excludes}
use microthread.FdApi.{
  PollResult, poll_failed, poll_ready, poll_quiet, validate_events, disown, fd_make_waiter,
  fd_switch, fd_wait_park, fd_wait, common, reported,
}

current-LeavesWaiters :
    (allocates : Bool) (rt : Runtime) (fd : ℕ)
    → LeavesWaiters rt (generation_current allocates rt fd).1
unfolding generation_current
current-LeavesWaiters allocates rt fd = record { waiter = ground arith; waiters = ground arith }

-- the waiter that mt_fd_wait makes
abbrev made : Bool → Runtime → ℕ → ℕ → Events → FdWaiter
made allocates rt t fd events = record {
  task = some t;
  fd = fd;
  events = events;
  generation = (generation_current allocates rt fd).0;
  state = removed;
}

make-LeavesWaiters :
    (allocates : Bool) (rt : Runtime) (t w fd : ℕ) (events : Events)
    → LeavesWaiters
        (set_fd_waiter rt w (made allocates rt t fd events))
        (fd_make_waiter allocates rt t w fd events)
unfolding fd_make_waiter
make-LeavesWaiters allocates rt t w fd events =
    let l = current-LeavesWaiters allocates rt fd in
    record {
      waiter = ap (λ f. update f w (made allocates rt t fd events)) l.waiter;
      waiters = l.waiters;
    }

insert-LeavesWaiters :
    (rt : Runtime) (t deadline : ℕ) (state : TaskState)
    → LeavesWaiters rt (timer_insert rt t deadline state)
unfolding timer_insert notify
insert-LeavesWaiters rt t deadline state = record { waiter = ground arith; waiters = ground arith }

-- a free of the waiter after a failure
disowned-Excludes :
    (rt : Runtime) (t w : ℕ) → Excludes rt → Excludes (fd_waiter_remove (disown rt t) w)
unfolding fd_waiter_remove
disowned-Excludes rt t w e = deactivate-Excludes (disown rt t) w false e

removed_twice-Excludes :
    (rt : Runtime) (t w : ℕ)
    → Excludes rt
    → Excludes (fd_waiter_remove (disown (fd_waiter_remove rt w) t) w)
unfolding fd_waiter_remove
removed_twice-Excludes rt t w e =
    disowned-Excludes (fd_waiter_remove rt w) t w (deactivate-Excludes rt w false e)

-- the state that a push may leave keeps the reservations apart
abbrev PushExcludes : Option (Code × Runtime) → Type 0
PushExcludes none = Unit
PushExcludes (some (rc, r)) = Excludes r

push-Excludes :
    (heap_grows : ℕ → Bool) (rt : Runtime) (t deadline : ℕ) (state : TaskState)
    → Excludes rt
    → PushExcludes (timer_push_state heap_grows rt t deadline state)
unfolding timer_push_state
push-Excludes heap_grows rt t deadline state e =
    elim (Option-cases (timer_reserve heap_grows rt.timers (length rt.timers.items + 1))) [
      | inl n ↦ rw (timer_push_state, n) tt
      | inr ((rc, heap), s) ↦
          let grown = record rt { timers = heap } in
          rw (timer_push_state, s)
            (if_both PushExcludes' (is_ok rc) {x = (Code.ok, timer_insert grown t deadline state)}
              {y = (Code.err_nomem, rt)}
              (leaves-Excludes grown (timer_insert grown t deadline state)
                (insert-LeavesWaiters grown t deadline state) e)
              e)
    ]
  where
    PushExcludes' : Code × Runtime → Type 0
    PushExcludes' r = Excludes r.1

switch-Excludes :
    (added : Runtime) (t w : ℕ) (pushed : Option (Code × Runtime))
    → Excludes added
    → PushExcludes pushed
    → Excludes (fd_switch added t w pushed).1
unfolding fd_switch
switch-Excludes added t w none e p = removed_twice-Excludes added t w e
switch-Excludes added t w (some (rc, timed)) e p =
    if_both (λ (r : Outcome × Runtime). Excludes r.1) (is_ok rc)
      {x = (parked, set_task timed t (record (timed.task t) { fd_in_timer = true }))}
      {y = (returned Code.err_nomem, fd_waiter_remove (disown (fd_waiter_remove added w) t) w)} p
      (removed_twice-Excludes added t w e)

-- a waiter that is not listed does not conflict
conflicts-unlisted :
    (waiter : ℕ → FdWaiter) (ws : List ℕ) (w : ℕ) (x : FdWaiter) (fd : ℕ) (events : Events)
    → has w ws ≡ false
    → conflicts_in (update waiter w x) ws fd events ≡ conflicts_in waiter ws fd events
conflicts-unlisted waiter [] w x fd events h = refl
conflicts-unlisted waiter (v ∷ vs) w x fd events h =
    ground (arith, conflicts-unlisted waiter vs w x fd events)

-- the waiter is made and added
added-Excludes :
    (allocates : Bool) (registered : Code) (rt : Runtime) (t w fd : ℕ) (events : Events)
    → has w rt.fd_waiters ≡ false
    → conflicts_in rt.fd_waiter rt.fd_waiters fd events ≡ false
    → Excludes rt
    → let owned = fd_make_waiter allocates rt t w fd events in
      Excludes (fd_waiter_add registered owned w).1
added-Excludes allocates registered rt t w fd events new free e =
    let x = made allocates rt t fd events in
    let written = set_fd_waiter rt w x in
    let owned = fd_make_waiter allocates rt t w fd events in
    let l = make-LeavesWaiters allocates rt t w fd events in
    let own : written.fd_waiter w ≡ x = rw (eq→== w w refl) refl in
    let still : conflicts_in written.fd_waiter rt.fd_waiters (written.fd_waiter w).fd
          (written.fd_waiter w).events
        ≡ false =
      rw own (conflicts-unlisted rt.fd_waiter rt.fd_waiters w x fd events new ∙ free) in
    add-Excludes registered owned w (rw l.waiters new) (rw (l.waiter, l.waiters) still)
      (leaves-Excludes written owned l (unlisted-IsExclusive rt.fd_waiter rt.fd_waiters w x new e))

park-Excludes :
    (allocates : Bool) (fresh : Ptr) (registered : Code) (heap_grows : ℕ → Bool) (now : ℕ)
    (rt : Runtime) (t fd : ℕ) (events : Events) (ms : ℕ)
    → ((w : ℕ) → fresh ≡ some w → has w rt.fd_waiters ≡ false)
    → conflicts_in rt.fd_waiter rt.fd_waiters fd events ≡ false
    → Excludes rt
    → Excludes (fd_wait_park allocates fresh registered heap_grows now rt t fd events ms).1
unfolding fd_wait_park
park-Excludes allocates none registered heap_grows now rt t fd events ms new free e = e
park-Excludes allocates (some w) registered heap_grows now rt t fd events ms new free e =
    let owned = fd_make_waiter allocates rt t w fd events in
    let (rc, added) = fd_waiter_add registered owned w in
    let kept = added-Excludes allocates registered rt t w fd events (new w refl) free e in
    let pushed = timer_push_state heap_grows added t (deadline_after now ms) TaskState.waiting_fd in
    if_both (λ (r : Outcome × Runtime). Excludes r.1) (is_ok rc) {x = fd_switch added t w pushed}
      {y = (returned rc, fd_waiter_remove (disown added t) w)}
      (switch-Excludes added t w pushed kept
        (push-Excludes heap_grows added t (deadline_after now ms) TaskState.waiting_fd kept))
      (disowned-Excludes added t w kept)

-- what follows the poll
polled-Excludes :
    (polled : PollResult) (rt : Runtime) (events : Events) (ms : ℕ) (last : Outcome × Runtime)
    → Excludes rt
    → Excludes last.1
    → Excludes
        (elim polled as (λ x. (Outcome × Events) × Runtime) [
          | poll_failed rc ↦ ((returned rc, no_events), rt)
          | poll_ready found invalid hangup ↦
              if invalid
              then ((returned Code.err_invalid, common found events), rt)
              else ((returned Code.ok, reported events found hangup), rt)
          | poll_quiet ↦
              if ms == 0
              then ((returned Code.err_timeout, no_events), rt)
              else ((last.0, no_events), last.1)
        ]).1
polled-Excludes (poll_failed rc) rt events ms last e k = e
polled-Excludes (poll_ready found invalid hangup) rt events ms last e k =
    if_both (λ (r : (Outcome × Events) × Runtime). Excludes r.1) invalid
      {x = ((returned Code.err_invalid, common found events), rt)}
      {y = ((returned Code.ok, reported events found hangup), rt)} e e
polled-Excludes poll_quiet rt events ms last e k =
    if_both (λ (r : (Outcome × Events) × Runtime). Excludes r.1) (ms == 0)
      {x = ((returned Code.err_timeout, no_events), rt)} {y = ((last.0, no_events), last.1)} e k

-- Where the reservations are apart and the new waiter's address is not listed, mt_fd_wait keeps them
-- apart, on every path, whether it returns or parks the task.
pub fd_wait-Excludes :
    (allocates : Bool) (fresh : Ptr) (registered : Code) (heap_grows : ℕ → Bool) (now : ℕ)
    (polled : PollResult) (rt : Runtime) (fd : Option ℕ) (events : Events) (ms : ℕ)
    → ((w : ℕ) → fresh ≡ some w → has w rt.fd_waiters ≡ false)
    → Excludes rt
    → Excludes (fd_wait allocates fresh registered heap_grows now polled rt fd events ms).1
unfolding fd_wait fd_waiter_conflicts
fd_wait-Excludes allocates fresh registered heap_grows now polled rt none events ms new e = e
fd_wait-Excludes allocates fresh registered heap_grows now polled rt (some fd) events ms new e =
    elim (Option-cases rt.current) [
      | inl n ↦ rw (fd_wait, n) (if_both Kept (not (validate_events events)) e e)
      | inr (t, s) ↦ elim (Bool-cases (conflicts_in rt.fd_waiter rt.fd_waiters fd events)) [
        | inl taken ↦
            rw (fd_wait, s, fd_waiter_conflicts, taken)
              (if_both Kept (not (validate_events events)) e
                (if_both Kept (fd_is_closing rt fd) e e))
        | inr free ↦
            rw (fd_wait, s, fd_waiter_conflicts, free)
              (if_both Kept (not (validate_events events)) e (
                if_both Kept (fd_is_closing rt fd) e (
                  polled-Excludes polled rt events ms
                    (fd_wait_park allocates fresh registered heap_grows now rt t fd events ms) e
                    (park-Excludes allocates fresh registered heap_grows now rt t fd events ms new
                      free e))))
      ]
    ]
  where
    Kept : (Outcome × Events) × Runtime → Type 0
    Kept r = Excludes r.1
