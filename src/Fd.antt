-- ===== src/Fd.antt =====
-- The fd waiters and fd generations of src/io_backend.c. The calls into epoll, kqueue and poll are
-- outside: the result of a registration is an argument, and so is whether the allocator has memory.
pub mod Counted
pub mod Wants
pub mod Exclusive
pub mod Reserved
use microthread.Base.{
  ℕ, ◌+◌, ◌%◌, Bool, true, false, Option, none, some, List, [], ◌∷◌, ◌==◌, ◌&&◌, ◌||◌, not,
  if◌then◌else◌, erase, update,
}
use microthread.State.{
  Ptr, Code, is_ok, word_mod, TaskState, Events, FdWaiterState, removed, active, ready_reserved,
  FdWaiter, FdGeneration, Runtime,
}
use microthread.Transitions.{set_task, guarded_dec, notify, mark_ready}
use microthread.TimerOps.{timer_remove}

abbrev pub set_fd_waiter : Runtime → ℕ → FdWaiter → Runtime
set_fd_waiter rt w x = record rt { fd_waiter = update rt.fd_waiter w x }

-- `a & b` is not 0
abbrev pub overlap : Events → Events → Bool
overlap a b = a.read && b.read || a.write && b.write

abbrev pub both_events : Events → Events → Events
both_events a b = record { read = a.read || b.read; write = a.write || b.write }

-- `events != 0`
abbrev pub is_some_event : Events → Bool
is_some_event e = e.read || e.write

-- `a & ~b`
abbrev pub without : Events → Events → Events
without a b = record { read = a.read && not b.read; write = a.write && not b.write }

abbrev pub no_events : Events
no_events = record { read = false; write = false }

-- mt_fd_generation_find
abbrev pub generation_find : List FdGeneration → ℕ → Option FdGeneration
generation_find [] fd = none
generation_find (g ∷ gs) fd = if g.fd == fd then some g else generation_find gs fd

-- the first entry of this fd is changed in place
abbrev pub generation_change :
    (FdGeneration → FdGeneration) → List FdGeneration → ℕ → List FdGeneration
generation_change change [] fd = []
generation_change change (g ∷ gs) fd =
    if g.fd == fd then change g ∷ gs else g ∷ generation_change change gs fd

abbrev pub generation_add : Runtime → FdGeneration → Runtime
generation_add rt g = record rt { fd_generations = g ∷ rt.fd_generations }

unfoldable pub generation_current : Bool → Runtime → ℕ → ℕ × Runtime
generation_current allocates rt fd = elim (generation_find rt.fd_generations fd) [
  | some g ↦ (g.generation, rt)
  | none ↦
      if allocates
      then (
        1,
        generation_add rt (record {
          fd = fd;
          generation = 1;
          closing = false;
          adopted = false;
          original_flags = none;
        }),
      )
      else (0, rt)
]

unfoldable pub fd_is_closing : Runtime → ℕ → Bool
fd_is_closing rt fd = elim (generation_find rt.fd_generations fd) [
  | none ↦ false
  | some g ↦ g.closing
]

unfoldable pub fd_set_closing : Bool → Runtime → ℕ → Bool → Code × Runtime
fd_set_closing allocates rt fd closing = elim (generation_find rt.fd_generations fd) [
  | some g ↦ (
    Code.ok,
    record rt {
      fd_generations = generation_change (λ x. record x { closing = closing }) rt.fd_generations fd;
    },
  )
  | none ↦
      if allocates
      then (
        Code.ok,
        generation_add rt (record {
          fd = fd;
          generation = 1;
          closing = closing;
          adopted = false;
          original_flags = some 0;
        }),
      )
      else (Code.err_nomem, rt)
]

-- `generation++; if (generation == 0) generation = 1;`
unfoldable pub next_generation : ℕ → ℕ
next_generation n = let m = (n + 1) % word_mod in if m == 0 then 1 else m

unfoldable pub generation_bump : Bool → Runtime → ℕ → Runtime
unfolding next_generation
generation_bump allocates rt fd = elim (generation_find rt.fd_generations fd) [
  | some g ↦ record rt {
    fd_generations =
        generation_change (λ x. record x { generation = next_generation x.generation })
          rt.fd_generations fd;
  }
  | none ↦
      if allocates
      then generation_add rt (record {
        fd = fd;
        generation = 2;
        closing = false;
        adopted = false;
        original_flags = none;
      })
      else rt
]

-- mt_fd_generation_remove on the list: whether there was an entry
abbrev pub generation_remove : List FdGeneration → ℕ → Bool × List FdGeneration
generation_remove [] fd = (false, [])
generation_remove (g ∷ gs) fd =
    let (found, rest) = generation_remove gs fd in
    if g.fd == fd then (true, gs) else (found, g ∷ rest)

-- mt_fd_waiter_is_active
abbrev pub is_active : FdWaiterState → Bool
is_active active = true
is_active removed = false
is_active ready_reserved = false

-- mt_fd_waiter_reserves_conflict
abbrev pub reserves_conflict : FdWaiterState → Bool
reserves_conflict active = true
reserves_conflict removed = false
reserves_conflict ready_reserved = true

abbrev pub conflicts_in : (ℕ → FdWaiter) → List ℕ → ℕ → Events → Bool
conflicts_in waiter [] fd events = false
conflicts_in waiter (w ∷ ws) fd events =
    reserves_conflict (waiter w).state && (waiter w).fd == fd && overlap (waiter w).events events
    || conflicts_in waiter ws fd events

unfoldable pub fd_waiter_conflicts : Runtime → ℕ → Events → Bool
fd_waiter_conflicts rt fd events = conflicts_in rt.fd_waiter rt.fd_waiters fd events

abbrev pub active_events_in : (ℕ → FdWaiter) → List ℕ → ℕ → Ptr → Events → Events
active_events_in waiter [] fd exclude events = events
active_events_in waiter (w ∷ ws) fd exclude events =
    let excluded : Bool = elim exclude [ none ↦ false | some x ↦ w == x ] in
    let more = both_events events (waiter w).events in
    active_events_in waiter ws fd exclude
      (if not excluded && is_active (waiter w).state && (waiter w).fd == fd then more else events)

unfoldable pub fd_active_events_for_fd : Runtime → ℕ → Ptr → Events → Events
fd_active_events_for_fd rt fd exclude extra =
    active_events_in rt.fd_waiter rt.fd_waiters fd exclude extra

-- mt_fd_waiter_deactivate before it signals
unfoldable pub deactivated : Runtime → ℕ → Bool → Runtime
deactivated rt w keep =
    let x = rt.fd_waiter w in
    let counted = record rt {
      fd_waiting_count =
          if is_active x.state then guarded_dec rt.fd_waiting_count else rt.fd_waiting_count;
    } in
    let marked =
      set_fd_waiter counted w (record x { state = if keep then ready_reserved else removed }) in
    record marked { fd_waiters = if keep then marked.fd_waiters else erase w marked.fd_waiters }

-- mt_fd_waiter_deactivate: whether the waiter was active
unfoldable pub fd_waiter_deactivate : Runtime → ℕ → Bool → Bool × Runtime
unfolding deactivated
fd_waiter_deactivate rt w keep =
    let was_active = is_active (rt.fd_waiter w).state in
    let off = deactivated rt w keep in (was_active, if was_active || keep then notify off else off)

-- mt_fd_waiter_add, from the result of mt_io_backend_add
unfoldable pub fd_waiter_add : Code → Runtime → ℕ → Code × Runtime
unfolding is_ok
fd_waiter_add registered rt w =
    if is_ok registered
    then (
      Code.ok,
      notify (record (set_fd_waiter rt w (record (rt.fd_waiter w) { state = active })) {
        fd_waiters = w ∷ rt.fd_waiters;
        fd_waiting_count = rt.fd_waiting_count + 1;
      }),
    )
    else (registered, rt)

-- mt_fd_waiter_remove and mt_fd_free_waiter, whose memory is not used again
unfoldable pub fd_waiter_remove : Runtime → ℕ → Runtime
unfolding fd_waiter_deactivate
fd_waiter_remove rt w = (fd_waiter_deactivate rt w false).1

unfoldable pub is_waiting_fd : TaskState → Bool
is_waiting_fd TaskState.waiting_fd = true
is_waiting_fd _ = false

-- the timer and the result of the task in mt_fd_ready_waiter
unfoldable pub fd_tell : Runtime → ℕ → Code → Events → Runtime
fd_tell rt t result events =
    let stopped = (timer_remove rt t).1 in
    let untimed =
      if (rt.task t).fd_in_timer
      then set_task stopped t (record (stopped.task t) { fd_in_timer = false })
      else rt in
    set_task untimed t (record (untimed.task t) { fd_result = result; fd_ready_events = events })

-- the end of mt_fd_ready_waiter, on the task
unfoldable pub fd_wake : Runtime → ℕ → Code → Events → Runtime
unfolding fd_tell is_waiting_fd
fd_wake rt t result events =
    let told = fd_tell rt t result events in
    if is_waiting_fd (told.task t).state then mark_ready told t else told

unfoldable pub fd_ready_waiter : Runtime → ℕ → Code → Events → Runtime
unfolding fd_waiter_deactivate fd_wake
fd_ready_waiter rt w result events = elim (rt.fd_waiter w).task [
  | none ↦ rt
  | some t ↦ fd_wake (fd_waiter_deactivate rt w true).1 t result events
]

-- the timer and the waiter of the task in mt_fd_timeout_ready
unfoldable pub fd_expire : Runtime → ℕ → Runtime
unfolding fd_waiter_deactivate
fd_expire rt t =
    let untimed = set_task rt t (record (rt.task t) { fd_in_timer = false }) in
    elim (rt.task t).fd_waiter [ none ↦ untimed | some w ↦ (fd_waiter_deactivate untimed w true).1 ]

unfoldable pub fd_timeout_ready : Runtime → ℕ → Runtime
unfolding fd_expire
fd_timeout_ready rt t =
    let freed = fd_expire rt t in
    mark_ready
      (set_task freed t
        (record (freed.task t) { fd_result = Code.err_timeout; fd_ready_events = no_events }))
      t

-- the loops of mt_fd_wake_all and mt_fd_wake_for_close: `of` says which waiters they wake
unfoldable pub fd_wake_each : (FdWaiter → Bool) → Runtime → List ℕ → Code → Runtime
unfolding fd_ready_waiter
fd_wake_each of rt [] result = rt
fd_wake_each of rt (w ∷ ws) result =
    let woken = fd_ready_waiter rt w result no_events in
    fd_wake_each of (if is_active (rt.fd_waiter w).state && of (rt.fd_waiter w) then woken else rt)
      ws result

unfoldable pub fd_wake_all : Runtime → Code → Runtime
unfolding fd_wake_each
fd_wake_all rt result = fd_wake_each (λ x. true) rt rt.fd_waiters result

unfoldable pub fd_wake_for_close : Bool → Runtime → ℕ → Runtime
unfolding generation_bump fd_wake_each
fd_wake_for_close allocates rt fd =
    let bumped = generation_bump allocates rt fd in
    fd_wake_each (λ x. x.fd == fd) bumped bumped.fd_waiters Code.err_closed

-- the loop of mt_fd_find_waiter; a waiter of an older generation is woken with MT_ERR_CLOSED
unfoldable pub find_waiter_in : Bool → Runtime → List ℕ → ℕ → Events → Ptr × Runtime
unfolding generation_current fd_ready_waiter
find_waiter_in allocates rt [] fd ready = (none, rt)
find_waiter_in allocates rt (w ∷ ws) fd ready =
    let x = rt.fd_waiter w in
    let (current, asked) = generation_current allocates rt fd in
    let later = find_waiter_in allocates rt ws fd ready in
    if is_active x.state && x.fd == fd && overlap x.events ready
    then (if x.generation == current
        then (some w, asked)
        else (none, fd_ready_waiter asked w Code.err_closed no_events))
    else later

unfoldable pub fd_find_waiter : Bool → Runtime → ℕ → Events → Ptr × Runtime
unfolding find_waiter_in
fd_find_waiter allocates rt fd ready = find_waiter_in allocates rt rt.fd_waiters fd ready
