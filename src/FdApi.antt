-- ===== src/FdApi.antt =====
-- The fd calls of src/io.c. What fcntl, poll and close return is an argument. A negative fd is
-- `none`. mt_fd_wait switches to the scheduler with the lock held and goes on in `fd_wait_resume`.
pub mod Reuse
pub mod Waits
use microthread.Base.{
  ℕ, Bool, true, false, Option, none, some, ◌==◌, ◌&&◌, ◌||◌, not, if◌then◌else◌,
}
use microthread.State.{Ptr, Code, is_ok, TaskState, Events, removed, FdGeneration, Runtime}
use microthread.Transitions.{set_task}
use microthread.Deadline.{deadline_after}
use microthread.TimerOps.{timer_push_state}
use microthread.Chan.Ops.{Outcome, returned, parked}
use microthread.Fd.{
  set_fd_waiter, no_events, overlap, generation_find, generation_change, generation_current,
  generation_remove, fd_is_closing, fd_set_closing, fd_waiter_conflicts, fd_waiter_add,
  fd_waiter_remove, fd_wake_for_close,
}

abbrev pub read_write : Events
read_write = record { read = true; write = true }

-- mt_fd_validate_events, for a mask of no other bits
abbrev pub validate_events : Events → Bool
validate_events e = e.read || e.write

-- the entry after the adoption, which keeps the flags of the first one
abbrev pub adopt_entry : ℕ → FdGeneration → FdGeneration
adopt_entry flags g =
    if g.adopted then g else record g { adopted = true; original_flags = some flags }

-- mt_fd_adopt. `flags` is what F_GETFL gave, `none` an error, and `failure` what
-- mt_io_error_from_errno makes of it; `set_flags` says whether F_SETFL, where it is needed, works.
unfoldable pub fd_adopt : Bool → Option ℕ → Bool → Code → Runtime → Option ℕ → Code × Runtime
fd_adopt allocates flags set_flags failure rt none = (Code.err_invalid, rt)
fd_adopt allocates none set_flags failure rt (some fd) = (failure, rt)
fd_adopt allocates (some flags) set_flags failure rt (some fd) =
    let (generation, asked) = generation_current allocates rt fd in
    let adopted = record asked {
      fd_generations = generation_change (adopt_entry flags) asked.fd_generations fd;
    } in
    if not set_flags
    then (failure, rt)
    else (if fd_is_closing rt fd
        then (Code.err_closed, rt)
        else (if generation == 0 then (Code.err_nomem, asked) else (Code.ok, adopted)))

-- mt_fd_release: the code, and the flags that it restores, `none` where it restores none
unfoldable pub fd_release : Runtime → Option ℕ → (Code × Option ℕ) × Runtime
fd_release rt none = ((Code.err_invalid, none), rt)
fd_release rt (some fd) =
    let restore : Option ℕ = elim (generation_find rt.fd_generations fd) [
      | none ↦ none
      | some g ↦ if g.adopted then g.original_flags else none
    ] in
    if fd_is_closing rt fd || fd_waiter_conflicts rt fd read_write
    then ((Code.err_state, none), rt)
    else (
      (Code.ok, restore),
      record rt { fd_generations = (generation_remove rt.fd_generations fd).1 },
    )

-- mt_fd_close: `closed` is what close(2) gave. The lock is free during close(2): `between` is what
-- other workers do then.
unfoldable pub fd_close : Bool → Code → (Runtime → Runtime) → Runtime → Option ℕ → Code × Runtime
fd_close allocates closed between rt none = (Code.err_invalid, rt)
fd_close allocates closed between rt (some fd) =
    let (rc, marked) = fd_set_closing allocates rt fd true in
    let woken = between (fd_wake_for_close allocates marked fd) in
    if fd_is_closing rt fd
    then (Code.err_state, rt)
    else (if is_ok rc
        then (closed, (fd_set_closing allocates woken fd false).1)
        else (Code.err_nomem, marked))

-- what poll(2) told of the fd, without waiting
pub data PollResult : Type 0 where
  poll_failed : Code → PollResult
  poll_ready : Events → (invalid hangup : Bool) → PollResult
  poll_quiet : PollResult

-- `a & b`
abbrev pub common : Events → Events → Events
common a b = record { read = a.read && b.read; write = a.write && b.write }

-- the events that the call reports when poll(2) found the fd ready
abbrev pub reported : Events → Events → Bool → Events
reported events found hangup =
    let masked = common found events in
    if not (overlap masked masked) && hangup then events else masked

-- the waiter of mt_fd_wait, made and given to the task
unfoldable pub fd_make_waiter : Bool → Runtime → ℕ → ℕ → ℕ → Events → Runtime
unfolding generation_current
fd_make_waiter allocates rt t w fd events =
    let (generation, asked) = generation_current allocates rt fd in
    let made = set_fd_waiter asked w (record {
      task = some t;
      fd = fd;
      events = events;
      generation = generation;
      state = removed;
    }) in
    set_task made t (record (made.task t) {
      fd_waiter = some w;
      fd_result = Code.ok;
      fd_ready_events = no_events;
      fd_in_timer = false;
    })

-- `task->fd_waiter = NULL`
abbrev pub disown : Runtime → ℕ → Runtime
disown rt t = set_task rt t (record (rt.task t) { fd_waiter = none })

-- mt_fd_wait from the result of mt_timer_push_state on
unfoldable pub fd_switch : Runtime → ℕ → ℕ → Option (Code × Runtime) → Outcome × Runtime
unfolding is_ok
fd_switch added t w none =
    (returned Code.err_nomem, fd_waiter_remove (disown (fd_waiter_remove added w) t) w)
fd_switch added t w (some (pushed, timed)) =
    if is_ok pushed
    then (parked, set_task timed t (record (timed.task t) { fd_in_timer = true }))
    else (returned Code.err_nomem, fd_waiter_remove (disown (fd_waiter_remove added w) t) w)

-- mt_fd_wait once the fd is not ready: the waiter's address is an argument, as in mt_select
unfoldable pub fd_wait_park :
    Bool → Ptr → Code → (ℕ → Bool) → ℕ → Runtime → ℕ → ℕ → Events → ℕ → Outcome × Runtime
unfolding is_ok fd_make_waiter fd_switch
fd_wait_park allocates none registered heap_grows now rt t fd events ms =
    (returned Code.err_nomem, rt)
fd_wait_park allocates (some w) registered heap_grows now rt t fd events ms =
    let owned = fd_make_waiter allocates rt t w fd events in
    let (rc, added) = fd_waiter_add registered owned w in
    if is_ok rc
    then fd_switch added t w
        (timer_push_state heap_grows added t (deadline_after now ms) TaskState.waiting_fd)
    else (returned rc, fd_waiter_remove (disown added t) w)

-- mt_fd_wait, with the events that it reports
unfoldable pub fd_wait :
    Bool
    → Ptr
    → Code
    → (ℕ → Bool)
    → ℕ
    → PollResult
    → Runtime
    → Option ℕ
    → Events
    → ℕ
    → (Outcome × Events) × Runtime
unfolding fd_wait_park
fd_wait allocates fresh registered heap_grows now polled rt none events ms =
    ((returned Code.err_invalid, no_events), rt)
fd_wait allocates fresh registered heap_grows now polled rt (some fd) events ms =
    let stop : Code → (Outcome × Events) × Runtime = λ rc. ((returned rc, no_events), rt) in
    if not (validate_events events) then stop Code.err_invalid else elim rt.current [
      | none ↦ stop Code.err_state
      | some t ↦
          let (outcome, after) =
            fd_wait_park allocates fresh registered heap_grows now rt t fd events ms in
          if fd_is_closing rt fd
          then stop Code.err_closed
          else (if fd_waiter_conflicts rt fd events then stop Code.err_state else elim polled [
            | poll_failed rc ↦ stop rc
            | poll_ready found invalid hangup ↦
                if invalid
                then ((returned Code.err_invalid, common found events), rt)
                else ((returned Code.ok, reported events found hangup), rt)
            | poll_quiet ↦ if ms == 0 then stop Code.err_timeout else ((outcome, no_events), after)
          ])
    ]

-- the end of mt_fd_wait, in the task that was woken: the code and the events
unfoldable pub fd_wait_resume : Runtime → ℕ → ℕ → (Code × Events) × Runtime
unfolding is_ok
fd_wait_resume rt t w =
    let x = rt.task t in
    let events : Events = if is_ok x.fd_result then x.fd_ready_events else no_events in
    let owns : Bool = elim x.fd_waiter [ none ↦ false | some v ↦ v == w ] in
    let disowned = set_task rt t (record x { fd_waiter = if owns then none else x.fd_waiter }) in
    ((x.fd_result, events), fd_waiter_remove disowned w)

-- mt_fd_wait_read and mt_fd_wait_write, which drop the events that the wait reports
unfoldable pub fd_wait_read :
    Bool → Ptr → Code → (ℕ → Bool) → ℕ → PollResult → Runtime → Option ℕ → ℕ → Outcome × Runtime
unfolding fd_wait
fd_wait_read allocates fresh registered heap_grows now polled rt fd ms =
    let ((outcome, events), after) =
      fd_wait allocates fresh registered heap_grows now polled rt fd
        (record { read = true; write = false }) ms in
    (outcome, after)

unfoldable pub fd_wait_write :
    Bool → Ptr → Code → (ℕ → Bool) → ℕ → PollResult → Runtime → Option ℕ → ℕ → Outcome × Runtime
unfolding fd_wait
fd_wait_write allocates fresh registered heap_grows now polled rt fd ms =
    let ((outcome, events), after) =
      fd_wait allocates fresh registered heap_grows now polled rt fd
        (record { read = false; write = true }) ms in
    (outcome, after)
