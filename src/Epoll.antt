-- ===== src/Epoll.antt =====
-- src/io_backend_epoll.c. epoll_ctl is an interface with the documented behaviour as its laws; what
-- epoll_wait gives and what other workers do while the lock is free are arguments. The bytes of the
-- wake pipe are in IoBackend.Wake.
pub mod Mirror
pub mod Rounds
pub mod Served
use microthread.Base.{
  ℕ, zero, suc, ◌≡◌, Bool, true, false, Option, none, some, List, [], ◌∷◌, ◌==◌, ◌&&◌, ◌||◌, not,
  if◌then◌else◌,
}
use microthread.State.{Code, Events, FdWaiterState, removed, ready_reserved, Runtime}
use microthread.Fd.{
  is_some_event, without, no_events, both_events, is_active, set_fd_waiter, fd_active_events_for_fd,
  fd_waiter_add, fd_waiter_deactivate, fd_find_waiter, fd_ready_waiter,
}
use microthread.FdApi.{common}

-- the bits EPOLLIN, EPOLLOUT, EPOLLERR and EPOLLHUP
pub record EpollEvents : Type 0 where
  pub epollin : Bool
  pub epollout : Bool
  pub epollerr : Bool
  pub epollhup : Bool

pub data CtlOp : Type 0 where
  ctl_add ctl_mod ctl_del : CtlOp

-- epoll_ctl returns 0, fails with EBADF, or fails otherwise
pub data CtlResult : Type 0 where
  done bad_fd refused : CtlResult

-- whether epoll_ctl(2) takes an operation, by what is registered for the descriptor: EEXIST and ENOENT
abbrev pub fits : CtlOp → Option EpollEvents → Bool
fits CtlOp.ctl_add none = true
fits CtlOp.ctl_add (some e) = false
fits CtlOp.ctl_mod none = false
fits CtlOp.ctl_mod (some e) = true
fits CtlOp.ctl_del none = false
fits CtlOp.ctl_del (some e) = true

-- what is registered after an operation that succeeds
abbrev pub registered_by : CtlOp → EpollEvents → Option EpollEvents
registered_by CtlOp.ctl_add e = some e
registered_by CtlOp.ctl_mod e = some e
registered_by CtlOp.ctl_del e = none

-- An epoll instance as epoll_ctl(2) documents it. `grants` says that nothing but the registrations
-- stands against a call: the file is open and can be polled, and there is room.
pub record EpollKernel : Type 1 where
  pub Instance : Type 0
  pub interest : Instance → ℕ → Option EpollEvents
  pub grants : Instance → ℕ → Bool
  pub ctl : Instance → CtlOp → ℕ → EpollEvents → CtlResult × Instance
  pub ctl_done :
      (k : Instance) (op : CtlOp) (fd : ℕ) (e : EpollEvents)
      → grants k fd ≡ true
      → fits op (interest k fd) ≡ true
      → (ctl k op fd e).0 ≡ CtlResult.done
  pub ctl_sets :
      (k : Instance) (op : CtlOp) (fd : ℕ) (e : EpollEvents) (other : ℕ)
      → (ctl k op fd e).0 ≡ CtlResult.done
      → interest (ctl k op fd e).1 other
        ≡ (if fd == other then registered_by op e else interest k other)
  pub ctl_fails :
      (k : Instance) (op : CtlOp) (fd : ℕ) (e : EpollEvents) (other : ℕ)
      → ¬ ((ctl k op fd e).0 ≡ CtlResult.done)
      → interest (ctl k op fd e).1 other ≡ interest k other

unfoldable pub epoll_events_to_fd_events : EpollEvents → Events
epoll_events_to_fd_events e = record {
  read = e.epollin || (e.epollhup || e.epollerr);
  write = e.epollout || (e.epollhup || e.epollerr);
}

unfoldable pub epoll_events_from_fd_events : Events → EpollEvents
epoll_events_from_fd_events e = record {
  epollin = e.read;
  epollout = e.write;
  epollerr = true;
  epollhup = true;
}

-- `errno == EBADF ? MT_ERR_INVALID : MT_ERR_BACKEND`, or MT_OK
unfoldable pub ctl_code : CtlResult → Code
ctl_code CtlResult.done = Code.ok
ctl_code CtlResult.bad_fd = Code.err_invalid
ctl_code CtlResult.refused = Code.err_backend

module _ (ep : EpollKernel) where
  open ep use {Instance, ctl}

  -- mt_epoll_backend_add
  unfoldable pub epoll_backend_add : Instance → Runtime → ℕ → Code × Instance
  unfolding ctl_code epoll_events_from_fd_events
  epoll_backend_add k rt w =
      let fd = (rt.fd_waiter w).fd in
      let previous = fd_active_events_for_fd rt fd none no_events in
      let combined = both_events previous (rt.fd_waiter w).events in
      let op = if is_some_event previous then CtlOp.ctl_mod else CtlOp.ctl_add in
      let (result, after) = ctl k op fd (epoll_events_from_fd_events combined) in
      (ctl_code result, after)

  -- mt_epoll_backend_remove; EPOLL_CTL_DEL does not read the events
  unfoldable pub epoll_backend_remove : Instance → Runtime → ℕ → Instance
  unfolding epoll_events_from_fd_events
  epoll_backend_remove k rt w =
      let fd = (rt.fd_waiter w).fd in
      let remaining = fd_active_events_for_fd rt fd none no_events in
      let events = epoll_events_from_fd_events remaining in
      if is_some_event remaining
      then (ctl k CtlOp.ctl_mod fd events).1
      else (ctl k CtlOp.ctl_del fd events).1

  -- mt_fd_waiter_add on this backend
  unfoldable pub epoll_waiter_add : Instance → Runtime → ℕ → (Code × Runtime) × Instance
  unfolding epoll_backend_add
  epoll_waiter_add k rt w =
      let (registered, after) = epoll_backend_add k rt w in (fd_waiter_add registered rt w, after)

  -- mt_fd_waiter_deactivate on this backend: an active waiter is marked before it is removed there
  unfoldable pub epoll_waiter_deactivate :
      Instance → Runtime → ℕ → Bool → (Bool × Runtime) × Instance
  unfolding epoll_backend_remove
  epoll_waiter_deactivate k rt w keep =
      let x = rt.fd_waiter w in
      let marked =
        set_fd_waiter rt w (record x { state = if keep then ready_reserved else removed }) in
      (
        fd_waiter_deactivate rt w keep,
        if is_active x.state then epoll_backend_remove k marked w else k,
      )

-- the events that a waiter is told
unfoldable pub epoll_told : Events → EpollEvents → Events → Events
epoll_told wanted raw remaining =
    let ready = common remaining wanted in
    if not (is_some_event ready) && (raw.epollerr || raw.epollhup) then wanted else ready

-- The loop on one descriptor, on fuel; `none` means that the fuel ran out.
unfoldable pub tell_ready : ℕ → Bool → Runtime → ℕ → EpollEvents → Events → Option Runtime
unfolding epoll_told
tell_ready zero allocates rt fd raw remaining = none
tell_ready (suc k) allocates rt fd raw remaining =
    let (found, asked) = fd_find_waiter allocates rt fd remaining in
    let later : Option Runtime = elim found [
      | none ↦ some asked
      | some w ↦
          let told = epoll_told (asked.fd_waiter w).events raw remaining in
          tell_ready k allocates (fd_ready_waiter asked w Code.ok told) fd raw
            (without remaining told)
    ] in
    if is_some_event remaining then later else some rt

-- The loop over what epoll_wait gave; `none` for the descriptor is the wake pipe.
unfoldable pub tell_all : Bool → Runtime → List (Option ℕ × EpollEvents) → Option Runtime
unfolding tell_ready epoll_events_to_fd_events
tell_all allocates rt [] = some rt
tell_all allocates rt ((none, raw) ∷ es) = tell_all allocates rt es
tell_all allocates rt ((some fd, raw) ∷ es) =
    elim (tell_ready 3 allocates rt fd raw (epoll_events_to_fd_events raw)) [
      | none ↦ none
      | some r ↦ tell_all allocates r es
    ]

-- mt_epoll_backend_wait_locked. `given` is what epoll_wait gave, nothing where it failed.
unfoldable pub epoll_backend_wait :
    Bool → List (Option ℕ × EpollEvents) → (Runtime → Runtime) → Runtime → Option Runtime
unfolding tell_all
epoll_backend_wait allocates given between rt = tell_all allocates (between rt) given
