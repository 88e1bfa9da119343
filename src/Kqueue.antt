-- ===== src/Kqueue.antt =====
-- src/io_backend_kqueue.c. kevent with a list of changes is an interface with the documented
-- behaviour as its laws; what kevent gives on a wait and what other workers do while the lock is free
-- are arguments. The bytes of the wake pipe are in IoBackend.Wake.
pub mod Filters
use microthread.Base.{
  ℕ, ◌≡◌, ◌+◌, ◌*◌, ◌/◌, ◌%◌, Bool, true, false, Option, none, some, List, [], ◌∷◌, ◌==◌, ◌&&◌,
  ◌||◌, not, if◌then◌else◌,
}
use microthread.State.{Code, Events, removed, ready_reserved, Runtime}
use microthread.Fd.{
  overlap, is_some_event, without, both_events, is_active, set_fd_waiter, fd_waiter_add,
  fd_waiter_deactivate, fd_find_waiter, fd_ready_waiter,
}
use microthread.FdApi.{read_write, common}
use microthread.Epoll.{CtlResult, ctl_code}

-- A kqueue as kevent(2) documents it, for changes of the filters EVFILT_READ and EVFILT_WRITE of one
-- descriptor: EV_ADD takes filters that are there already, EV_DELETE does not take others. `grants`
-- says that nothing else stands against a call: the file is open and fit, and there is room.
pub record KqueueKernel : Type 1 where
  pub Instance : Type 0
  pub filters : Instance → ℕ → Events
  pub grants : Instance → ℕ → Bool
  pub add : Instance → ℕ → Events → CtlResult × Instance
  pub delete : Instance → ℕ → Events → CtlResult × Instance
  pub add_done :
      (k : Instance) (fd : ℕ) (e : Events) → grants k fd ≡ true → (add k fd e).0 ≡ CtlResult.done
  pub add_sets :
      (k : Instance) (fd : ℕ) (e : Events) (other : ℕ)
      → (add k fd e).0 ≡ CtlResult.done
      → filters (add k fd e).1 other
        ≡ (if fd == other then both_events e (filters k other) else filters k other)
  pub delete_done :
      (k : Instance) (fd : ℕ) (e : Events)
      → grants k fd ≡ true
      → without e (filters k fd) ≡ record { read = false; write = false }
      → (delete k fd e).0 ≡ CtlResult.done
  pub delete_sets :
      (k : Instance) (fd : ℕ) (e : Events) (other : ℕ)
      → (delete k fd e).0 ≡ CtlResult.done
      → filters (delete k fd e).1 other
        ≡ (if fd == other then without (filters k other) e else filters k other)

module _ (kq : KqueueKernel) where
  open kq use {Instance, add, delete}

  -- mt_kqueue_backend_add: a change for each event of the waiter
  unfoldable pub kqueue_backend_add : Instance → Runtime → ℕ → Code × Instance
  unfolding ctl_code
  kqueue_backend_add k rt w =
      let (result, after) = add k (rt.fd_waiter w).fd (rt.fd_waiter w).events in
      (ctl_code result, after)

  -- mt_kqueue_backend_remove, which makes no call without an event
  unfoldable pub kqueue_backend_remove : Instance → Runtime → ℕ → Instance
  kqueue_backend_remove k rt w =
      let after = (delete k (rt.fd_waiter w).fd (rt.fd_waiter w).events).1 in
      if is_some_event (rt.fd_waiter w).events then after else k

  -- mt_fd_waiter_add on this backend
  unfoldable pub kqueue_waiter_add : Instance → Runtime → ℕ → (Code × Runtime) × Instance
  unfolding kqueue_backend_add
  kqueue_waiter_add k rt w =
      let (registered, after) = kqueue_backend_add k rt w in (fd_waiter_add registered rt w, after)

  -- mt_fd_waiter_deactivate on this backend
  unfoldable pub kqueue_waiter_deactivate :
      Instance → Runtime → ℕ → Bool → (Bool × Runtime) × Instance
  unfolding kqueue_backend_remove
  kqueue_waiter_deactivate k rt w keep =
      let x = rt.fd_waiter w in
      let marked =
        set_fd_waiter rt w (record x { state = if keep then ready_reserved else removed }) in
      (
        fd_waiter_deactivate rt w keep,
        if is_active x.state then kqueue_backend_remove k marked w else k,
      )

-- The fields of `struct kevent` that a wait gives: the descriptor, whether the filter is EVFILT_READ or
-- EVFILT_WRITE, and whether EV_EOF or EV_ERROR is set.
pub record Kevent : Type 0 where
  pub ident : ℕ
  pub filter_read : Bool
  pub filter_write : Bool
  pub ended : Bool

-- `ready_events` before the search
unfoldable pub kevent_events : Kevent → Events
kevent_events e =
    if e.ended
    then read_write
    else record { read = e.filter_read; write = not e.filter_read && e.filter_write }

-- what the waiter is told
unfoldable pub kqueue_told : Events → Events → Events
kqueue_told wanted ready =
    let both = common ready wanted in if is_some_event both then both else wanted

-- the body of the loop over what kevent gave
unfoldable pub kqueue_tell : Bool → ℕ → Runtime → Kevent → Runtime
unfolding kevent_events kqueue_told
kqueue_tell allocates wake_fd rt e =
    let (found, asked) = fd_find_waiter allocates rt e.ident (kevent_events e) in
    let told : Runtime = elim found [
      | none ↦ asked
      | some w ↦
          fd_ready_waiter asked w Code.ok (kqueue_told (asked.fd_waiter w).events (kevent_events e))
    ] in
    if e.ident == wake_fd then rt else told

unfoldable pub kqueue_tell_all : Bool → ℕ → Runtime → List Kevent → Runtime
unfolding kqueue_tell
kqueue_tell_all allocates wake_fd rt [] = rt
kqueue_tell_all allocates wake_fd rt (e ∷ es) =
    kqueue_tell_all allocates wake_fd (kqueue_tell allocates wake_fd rt e) es

-- `ts.tv_sec` and `ts.tv_nsec`
unfoldable pub kqueue_timeout : ℕ → ℕ × ℕ
kqueue_timeout ms = (ms / 1000, (ms % 1000) * 1000000)

-- mt_kqueue_backend_wait_locked. `given` is what kevent gave for the timeout, nothing where it failed.
unfoldable pub kqueue_backend_wait :
    Bool → ℕ → (ℕ × ℕ → List Kevent) → (Runtime → Runtime) → ℕ → Runtime → Runtime
unfolding kqueue_tell_all kqueue_timeout
kqueue_backend_wait allocates wake_fd given between ms rt =
    kqueue_tell_all allocates wake_fd (between rt) (given (kqueue_timeout ms))
