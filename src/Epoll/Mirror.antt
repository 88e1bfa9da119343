-- ===== src/Epoll/Mirror.antt =====
-- The registrations of the epoll instance against the waiters of the runtime.
use native.Mathlib.Decide.{ℕ_discrete}
use microthread.Base.{
  ℕ, ◌≡◌, ◌≢◌, refl, sym, ap, ◌∙◌, inl, inr, true, false, Bool, Option, none, some, if◌then◌else◌,
  has, eq→==, ne→==, Bool-cases, if_both,
}
use microthread.State.{Code, is_ok, Events, removed, ready_reserved, Runtime}
use microthread.Transitions.{notify}
use microthread.Fd.{is_some_event, both_events, is_active, fd_waiter_add, fd_waiter_deactivate}
use microthread.Fd.Counted.{IsCounted}
use microthread.Epoll.{
  EpollEvents, CtlOp, CtlResult, fits, registered_by, EpollKernel, epoll_events_from_fd_events,
  ctl_code, epoll_backend_add, epoll_backend_remove, epoll_waiter_add, epoll_waiter_deactivate,
}
use microthread.Fd.Wants.{
  both_comm, union-off, union-other_fd, union-some, notify-wanted, added, added-other, added-own,
  both-some, marked_as, marked-off, deactivate-wanted, wanted_events, active_events_lem,
}

-- the registration that a descriptor should have
abbrev pub registration : Events → Option EpollEvents
registration e = if is_some_event e then some (epoll_events_from_fd_events e) else none

module _ (ep : EpollKernel) where
  open ep use {Instance, interest, grants, ctl, ctl_done, ctl_sets, ctl_fails}

  -- Each descriptor is registered for what its active waiters wait for together, and not at all where
  -- no active waiter waits for it.
  abbrev pub IsMirrored : Instance → Runtime → Type 0
  IsMirrored k rt = (fd : ℕ) → interest k fd ≡ registration (wanted_events rt fd)

  -- an operation that sets what a changed list wants
  set-IsMirrored :
      (k : Instance) (rt after : Runtime) (op : CtlOp) (fd : ℕ) (e : EpollEvents)
      → IsMirrored k rt
      → ((other : ℕ) → fd ≢ other → wanted_events after other ≡ wanted_events rt other)
      → registered_by op e ≡ registration (wanted_events after fd)
      → (ctl k op fd e).0 ≡ CtlResult.done
      → IsMirrored (ctl k op fd e).1 after
  set-IsMirrored k rt after op fd e m same now ok other = elim (ℕ_discrete fd other) [
    | yes here ↦
        ctl_sets k op fd e other ok
        ∙ rw (eq→== fd other here) (now ∙ ap (λ x. registration (wanted_events after x)) here)
    | no there ↦
        ctl_sets k op fd e other ok
        ∙ rw (ne→== fd other there) (m other ∙ ap registration (sym (same other there)))
  ]

  -- where the runtime wants what it wanted before
  same-IsMirrored :
      (k : Instance) (rt after : Runtime)
      → IsMirrored k rt
      → ((other : ℕ) → wanted_events after other ≡ wanted_events rt other)
      → IsMirrored k after
  same-IsMirrored k rt after m same other = m other ∙ ap registration (sym (same other))

  fits_mod :
      (k : Instance) (rt : Runtime) (fd : ℕ)
      → IsMirrored k rt
      → is_some_event (wanted_events rt fd) ≡ true
      → (fits CtlOp.ctl_mod (interest k fd) ≡ true) × (fits CtlOp.ctl_del (interest k fd) ≡ true)
  fits_mod k rt fd m h =
      let e : interest k fd ≡ some (epoll_events_from_fd_events (wanted_events rt fd)) =
        m fd ∙ rw h refl in
      rw e (refl, refl)

  fits_add :
      (k : Instance) (rt : Runtime) (fd : ℕ)
      → IsMirrored k rt
      → is_some_event (wanted_events rt fd) ≡ false
      → fits CtlOp.ctl_add (interest k fd) ≡ true
  fits_add k rt fd m h = let e : interest k fd ≡ none = m fd ∙ rw h refl in rw e refl

  -- the call of mt_epoll_backend_add fits what is registered
  fits_either :
      (k : Instance) (rt : Runtime) (fd : ℕ)
      → IsMirrored k rt
      → fits
          (if is_some_event (wanted_events rt fd) then CtlOp.ctl_mod else CtlOp.ctl_add)
          (interest k fd)
        ≡ true
  fits_either k rt fd m = elim (Bool-cases (is_some_event (wanted_events rt fd))) [
    | inl some_ ↦ rw some_ (fits_mod k rt fd m some_).0
    | inr none_ ↦ rw none_ (fits_add k rt fd m none_)
  ]

  -- the registration that mt_epoll_backend_add asks for, where it is done
  add_done :
      (k : Instance) (rt : Runtime) (w : ℕ)
      → has w rt.fd_waiters ≡ false
      → is_some_event (rt.fd_waiter w).events ≡ true
      → IsMirrored k rt
      → let fd = (rt.fd_waiter w).fd in
        let previous = wanted_events rt fd in
        let op = if is_some_event previous then CtlOp.ctl_mod else CtlOp.ctl_add in
        let e = epoll_events_from_fd_events (both_events previous (rt.fd_waiter w).events) in
        (ctl k op fd e).0 ≡ CtlResult.done
        → let fd = (rt.fd_waiter w).fd in
          let previous = wanted_events rt fd in
          let op = if is_some_event previous then CtlOp.ctl_mod else CtlOp.ctl_add in
          let e = epoll_events_from_fd_events (both_events previous (rt.fd_waiter w).events) in
          IsMirrored (ctl k op fd e).1 (added rt w)
  add_done k rt w new some_ m ok =
      let fd = (rt.fd_waiter w).fd in
      let previous = wanted_events rt fd in
      let combined = both_events previous (rt.fd_waiter w).events in
      let op = if is_some_event previous then CtlOp.ctl_mod else CtlOp.ctl_add in
      let now : wanted_events (added rt w) fd ≡ combined =
        added-own rt w new ∙ both_comm (rt.fd_waiter w).events previous in
      let e = epoll_events_from_fd_events combined in
      let sets : registered_by op e ≡ some e =
        if_both (λ o. registered_by o e ≡ some e) (is_some_event previous) refl refl in
      set-IsMirrored k rt (added rt w) op fd e m (λ other ne. added-other rt w other new ne)
        (sets ∙ rw (now, both-some previous (rt.fd_waiter w).events some_) refl) ok

  -- mt_fd_waiter_add by what the kernel has answered
  add_settles :
      (after : Instance) (rt : Runtime) (w : ℕ) (r : CtlResult)
      → (r ≡ CtlResult.done → IsMirrored after (added rt w))
      → (¬ (r ≡ CtlResult.done) → IsMirrored after rt)
      → IsMirrored after (fd_waiter_add (ctl_code r) rt w).1
  unfolding fd_waiter_add ctl_code is_ok
  add_settles after rt w CtlResult.done yes_ no_ =
      same-IsMirrored after (added rt w) (notify (added rt w)) (yes_ refl)
        (λ fd. notify-wanted (added rt w) fd)
  add_settles after rt w CtlResult.bad_fd yes_ no_ = no_ (λ e. cc)
  add_settles after rt w CtlResult.refused yes_ no_ = no_ (λ e. cc)

  failed-IsMirrored :
      (k : Instance) (rt : Runtime) (op : CtlOp) (fd : ℕ) (e : EpollEvents)
      → IsMirrored k rt
      → ¬ ((ctl k op fd e).0 ≡ CtlResult.done)
      → IsMirrored (ctl k op fd e).1 rt
  failed-IsMirrored k rt op fd e m no_ other = ctl_fails k op fd e other no_ ∙ m other

  -- Where the epoll instance mirrors the waiters and a new waiter waits for something, mt_fd_waiter_add
  -- keeps the mirror, whether the kernel takes the registration or refuses it.
  pub epoll_waiter_add-IsMirrored :
      (k : Instance) (rt : Runtime) (w : ℕ)
      → has w rt.fd_waiters ≡ false
      → is_some_event (rt.fd_waiter w).events ≡ true
      → IsMirrored k rt
      → IsMirrored (epoll_waiter_add ep k rt w).1 (epoll_waiter_add ep k rt w).0.1
  unfolding epoll_waiter_add epoll_backend_add
  epoll_waiter_add-IsMirrored k rt w new some_ m =
      let fd = (rt.fd_waiter w).fd in
      let previous = wanted_events rt fd in
      let op = if is_some_event previous then CtlOp.ctl_mod else CtlOp.ctl_add in
      let e = epoll_events_from_fd_events (both_events previous (rt.fd_waiter w).events) in
      rw (active_events_lem rt fd) (
        add_settles (ctl k op fd e).1 rt w (ctl k op fd e).0 (add_done k rt w new some_ m)
          (failed-IsMirrored k rt op fd e m))

  -- Where the epoll instance mirrors the waiters and the kernel has nothing else against the call,
  -- mt_epoll_backend_add, with EPOLL_CTL_ADD or EPOLL_CTL_MOD, succeeds.
  pub epoll_backend_add-ok :
      (k : Instance) (rt : Runtime) (w : ℕ)
      → grants k (rt.fd_waiter w).fd ≡ true
      → IsMirrored k rt
      → (epoll_backend_add ep k rt w).0 ≡ Code.ok
  unfolding epoll_backend_add ctl_code
  epoll_backend_add-ok k rt w granted m =
      let fd = (rt.fd_waiter w).fd in
      let previous = wanted_events rt fd in
      let op = if is_some_event previous then CtlOp.ctl_mod else CtlOp.ctl_add in
      let e = epoll_events_from_fd_events (both_events previous (rt.fd_waiter w).events) in
      rw (active_events_lem rt fd)
        (ap ctl_code (ctl_done k op fd e granted (fits_either k rt fd m)))

  -- the end of a waiter that was active, in the kernel
  remove_active :
      (k : Instance) (rt marked : Runtime) (w : ℕ)
      → grants k (marked.fd_waiter w).fd ≡ true
      → is_some_event (wanted_events rt (marked.fd_waiter w).fd) ≡ true
      → ((other : ℕ)
          → (marked.fd_waiter w).fd ≢ other
          → wanted_events marked other ≡ wanted_events rt other)
      → IsMirrored k rt
      → IsMirrored (epoll_backend_remove ep k marked w) marked
  unfolding epoll_backend_remove
  remove_active k rt marked w granted some_ same m =
      let fd = (marked.fd_waiter w).fd in
      let remaining = wanted_events marked fd in
      let e = epoll_events_from_fd_events remaining in
      let (fits_m, fits_d) = fits_mod k rt fd m some_ in
      rw (active_events_lem marked fd) (elim (Bool-cases (is_some_event remaining)) [
        | inl left ↦ rw left (
            set-IsMirrored k rt marked CtlOp.ctl_mod fd e m same (rw left refl)
              (ctl_done k CtlOp.ctl_mod fd e granted fits_m))
        | inr none_ ↦ rw none_ (
            set-IsMirrored k rt marked CtlOp.ctl_del fd e m same (rw none_ refl)
              (ctl_done k CtlOp.ctl_del fd e granted fits_d))
      ])

  -- Where the epoll instance mirrors the waiters, the runtime counts its active waiters, the waiter
  -- waits for something and the kernel has nothing else against the call, mt_fd_waiter_deactivate keeps
  -- the mirror, for an active waiter and for one that is not, kept or taken off the list.
  pub epoll_waiter_deactivate-IsMirrored :
      (k : Instance) (rt : Runtime) (w : ℕ) (keep : Bool)
      → IsCounted rt
      → is_some_event (rt.fd_waiter w).events ≡ true
      → grants k (rt.fd_waiter w).fd ≡ true
      → IsMirrored k rt
      → IsMirrored
          (epoll_waiter_deactivate ep k rt w keep).1
          (epoll_waiter_deactivate ep k rt w keep).0.1
  unfolding epoll_waiter_deactivate
  epoll_waiter_deactivate-IsMirrored k rt w keep c some_ granted m =
      let marked = marked_as rt w keep in
      let x = record (rt.fd_waiter w) { state = if keep then ready_reserved else removed } in
      let own : (marked.fd_waiter w).fd ≡ (rt.fd_waiter w).fd = rw (eq→== w w refl) refl in
      elim (Bool-cases (is_active (rt.fd_waiter w).state)) [
        | inl on ↦ rw on (
            same-IsMirrored (epoll_backend_remove ep k marked w) marked
              (fd_waiter_deactivate rt w keep).1
              (remove_active k rt marked w (ap (grants k) own ∙ granted)
                (ap (λ fd. is_some_event (wanted_events rt fd)) own
                  ∙ union-some rt.fd_waiter rt.fd_waiters w (c.listed w on) on some_)
                (λ other ne.
                  union-other_fd rt.fd_waiter rt.fd_waiters other w x refl (λ e. ne (own ∙ e)))
                m)
              (deactivate-wanted rt w keep))
        | inr off ↦ rw off (
            same-IsMirrored k rt (fd_waiter_deactivate rt w keep).1 m (λ other.
              deactivate-wanted rt w keep other
              ∙ union-off rt.fd_waiter rt.fd_waiters other w x off (marked-off keep)))
      ]
