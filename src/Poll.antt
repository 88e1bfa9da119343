-- ===== src/Poll.antt =====
-- src/io_backend_poll.c. What poll(2) gives for the descriptors that it is asked about, whether there is
-- memory for them, and what other workers do while the lock is free are arguments. The bytes of the
-- wake pipe are in IoBackend.Wake.
pub mod Told
use microthread.Base.{
  ℕ, zero, suc, ◌+◌, Bool, true, false, Option, none, some, List, [], ◌∷◌, ◌==◌, ◌&&◌, ◌||◌, not,
  if◌then◌else◌, length,
}
use microthread.State.{Ptr, Code, Events, FdWaiter, Runtime}
use microthread.Fd.{overlap, no_events, is_active, fd_find_waiter, fd_ready_waiter}
use microthread.FdApi.{read_write, common}

-- the bits POLLIN, POLLOUT, POLLERR, POLLHUP and POLLNVAL
pub record PollEvents : Type 0 where
  pub pollin : Bool
  pub pollout : Bool
  pub pollerr : Bool
  pub pollhup : Bool
  pub pollnval : Bool

unfoldable pub fd_events_to_poll : Events → PollEvents
fd_events_to_poll e = record {
  pollin = e.read;
  pollout = e.write;
  pollerr = false;
  pollhup = false;
  pollnval = false;
}

unfoldable pub poll_revents_to_fd_events : PollEvents → Events
poll_revents_to_fd_events r = record {
  read = r.pollin || (r.pollhup || r.pollerr);
  write = r.pollout || (r.pollhup || r.pollerr);
}

pub record PollFd : Type 0 where
  pub fd : ℕ
  pub events : PollEvents

-- the entries of the active waiters, in the order of the list
unfoldable pub waiter_entries : (ℕ → FdWaiter) → List ℕ → List PollFd
unfolding fd_events_to_poll
waiter_entries waiter [] = []
waiter_entries waiter (w ∷ ws) =
    let rest = waiter_entries waiter ws in
    let wanted = record (fd_events_to_poll (waiter w).events) { pollerr = true; pollhup = true } in
    if is_active (waiter w).state
    then record { fd = (waiter w).fd; events = wanted } ∷ rest
    else rest

-- the array for poll(2): the wake pipe comes first
unfoldable pub entries : ℕ → Runtime → List PollFd
unfolding waiter_entries
entries wake_fd rt =
    record { fd = wake_fd; events = fd_events_to_poll (record { read = true; write = false }) }
    ∷ waiter_entries rt.fd_waiter rt.fd_waiters

-- `revents == 0`
abbrev pub is_silent : PollEvents → Bool
is_silent r = not (r.pollin || (r.pollout || (r.pollerr || (r.pollhup || r.pollnval))))

-- The loop on a descriptor that poll(2) refuses, on fuel: each round deactivates a waiter.
unfoldable pub wake_invalid : ℕ → Bool → Runtime → ℕ → Runtime
wake_invalid zero allocates rt fd = rt
wake_invalid (suc k) allocates rt fd =
    let (found, asked) = fd_find_waiter allocates rt fd read_write in
    elim found [
      | none ↦ asked
      | some w ↦ wake_invalid k allocates (fd_ready_waiter asked w Code.err_invalid no_events) fd
    ]

-- the events that a waiter is told
unfoldable pub told_events : Events → PollEvents → Events
unfolding poll_revents_to_fd_events
told_events wanted r =
    let ready = common (poll_revents_to_fd_events r) wanted in
    if not (overlap ready ready) && (r.pollerr || r.pollhup) then wanted else ready

-- one entry for which poll(2) gave something
unfoldable pub handle_ready : Bool → Runtime → ℕ → PollEvents → Runtime
unfolding told_events
handle_ready allocates rt fd r =
    let (found, asked) = fd_find_waiter allocates rt fd (poll_revents_to_fd_events r) in
    elim found [
      | none ↦ asked
      | some w ↦ fd_ready_waiter asked w Code.ok (told_events (asked.fd_waiter w).events r)
    ]

-- the body of the loop over the entries
unfoldable pub handle_entry : Bool → ℕ → Runtime → ℕ → PollEvents → Runtime
unfolding wake_invalid handle_ready
handle_entry allocates wake_fd rt fd r =
    if is_silent r || fd == wake_fd
    then rt
    else (if r.pollnval
        then wake_invalid (length rt.fd_waiters + 1) allocates rt fd
        else handle_ready allocates rt fd r)

unfoldable pub handle_entries : Bool → ℕ → Runtime → List PollFd → List PollEvents → Runtime
unfolding handle_entry
handle_entries allocates wake_fd rt [] rs = rt
handle_entries allocates wake_fd rt (e ∷ es) [] = rt
handle_entries allocates wake_fd rt (e ∷ es) (r ∷ rs) =
    handle_entries allocates wake_fd (handle_entry allocates wake_fd rt e.fd r) es rs

-- mt_poll_backend_wait_locked. `polled` gives the `revents` of the entries, `none` where no entry is
-- ready or poll(2) fails.
unfoldable pub poll_backend_wait :
    Bool
    → Bool
    → ℕ
    → (List PollFd → Option (List PollEvents))
    → (Runtime → Runtime)
    → Runtime
    → Runtime
unfolding entries handle_entries
poll_backend_wait memory allocates wake_fd polled between rt =
    let asked = entries wake_fd rt in
    let unlocked = between rt in
    let handled : Runtime = elim (polled asked) [
      | none ↦ unlocked
      | some rs ↦ handle_entries allocates wake_fd unlocked asked rs
    ] in
    if memory then handled else rt
