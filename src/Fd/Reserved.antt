-- ===== src/Fd/Reserved.antt =====
-- The operations on fd waiters keep the reservations of events apart.
use mathlib.Core.Path.{subst}
use microthread.Base.{
  sym, ℕ, ◌+◌, ◌≡◌, refl, ◌∙◌, inl, inr, true, false, Bool, none, some, ◌∷◌, ◌||◌, arith, has,
  if_both, Option-cases,
}
use microthread.State.{Code, is_ok, Events, active, removed, ready_reserved, Runtime}
use microthread.Transitions.{set_task, mark_ready, notify}
use microthread.TimerOps.{timer_remove}
use microthread.Fd.{
  set_fd_waiter, is_active, conflicts_in, deactivated, fd_waiter_deactivate, fd_waiter_add, fd_tell,
  fd_wake, fd_ready_waiter,
}
use microthread.Fd.Exclusive.{Excludes, kept-IsExclusive, left-IsExclusive, joined-IsExclusive}

-- an operation that leaves the fd waiters alone
pub record LeavesWaiters (rt after : Runtime) : Type 0 where
  pub waiter : after.fd_waiter ≡ rt.fd_waiter
  pub waiters : after.fd_waiters ≡ rt.fd_waiters

pub leaves-Excludes : (rt after : Runtime) → LeavesWaiters rt after → Excludes rt → Excludes after
leaves-Excludes rt after l e = rw (l.waiter, l.waiters) e

pub notify-LeavesWaiters : (rt : Runtime) → LeavesWaiters rt (notify rt)
unfolding notify
notify-LeavesWaiters rt =
    if_both (LeavesWaiters rt) rt.initialized (record { waiter = refl; waiters = refl })
      (record { waiter = refl; waiters = refl })

pub mark_ready-LeavesWaiters : (rt : Runtime) (t : ℕ) → LeavesWaiters rt (mark_ready rt t)
unfolding mark_ready
mark_ready-LeavesWaiters rt t = record { waiter = ground arith; waiters = ground arith }

pub timer_remove-LeavesWaiters : (rt : Runtime) (t : ℕ) → LeavesWaiters rt (timer_remove rt t).1
unfolding timer_remove
timer_remove-LeavesWaiters rt t = record { waiter = ground arith; waiters = ground arith }

trans-LeavesWaiters : (a b c : Runtime) → LeavesWaiters a b → LeavesWaiters b c → LeavesWaiters a c
trans-LeavesWaiters a b c l m = record {
  waiter = m.waiter ∙ l.waiter;
  waiters = m.waiters ∙ l.waiters;
}

tell-LeavesWaiters :
    (rt : Runtime) (t : ℕ) (r : Code) (e : Events) → LeavesWaiters rt (fd_tell rt t r e)
unfolding fd_tell
tell-LeavesWaiters rt t r e =
    let stopped = (timer_remove rt t).1 in
    let l = timer_remove-LeavesWaiters rt t in
    let timed = set_task stopped t (record (stopped.task t) { fd_in_timer = false }) in
    record {
      waiter =
          if_both (λ (a : Runtime). a.fd_waiter ≡ rt.fd_waiter) (rt.task t).fd_in_timer {x = timed}
            {y = rt} l.waiter refl;
      waiters =
          if_both (λ (a : Runtime). a.fd_waiters ≡ rt.fd_waiters) (rt.task t).fd_in_timer
            {x = timed} {y = rt} l.waiters refl;
    }

wake-LeavesWaiters :
    (rt : Runtime) (t : ℕ) (r : Code) (e : Events) → LeavesWaiters rt (fd_wake rt t r e)
unfolding fd_wake
wake-LeavesWaiters rt t r e =
    let told = fd_tell rt t r e in
    let l = tell-LeavesWaiters rt t r e in
    if_both (λ (a : Runtime). LeavesWaiters rt a) _ {x = mark_ready told t} {y = told}
      (trans-LeavesWaiters rt told (mark_ready told t) l (mark_ready-LeavesWaiters told t)) l

-- a waiter that is woken keeps its reservation, and the others are left alone
pub ready_waiter-LeavesWaiters :
    (rt : Runtime) (w t : ℕ) (r : Code) (e : Events)
    → (rt.fd_waiter w).task ≡ some t
    → LeavesWaiters
        (set_fd_waiter rt w (record (rt.fd_waiter w) { state = ready_reserved }))
        (fd_ready_waiter rt w r e)
unfolding fd_ready_waiter fd_waiter_deactivate deactivated
ready_waiter-LeavesWaiters rt w t r e s =
    let off = (fd_waiter_deactivate rt w true).1 in
    let marked = set_fd_waiter rt w (record (rt.fd_waiter w) { state = ready_reserved }) in
    let d = deactivated rt w true in
    let same : LeavesWaiters marked d = record { waiter = refl; waiters = refl } in
    let kept : LeavesWaiters marked off =
      if_both (λ (a : Runtime). LeavesWaiters marked a) (is_active (rt.fd_waiter w).state || true)
        {x = notify d} {y = d}
        (trans-LeavesWaiters marked d (notify d) same (notify-LeavesWaiters d)) same in
    subst
      (λ o.
        LeavesWaiters marked (elim o as (λ x. Runtime) [ none ↦ rt | some u ↦ fd_wake off u r e ]))
      (sym s)
      (trans-LeavesWaiters marked off (fd_wake off t r e) kept (wake-LeavesWaiters off t r e))

deactivated-Excludes :
    (rt : Runtime) (w : ℕ) (keep : Bool) → Excludes rt → Excludes (deactivated rt w keep)
unfolding deactivated
deactivated-Excludes rt w false e =
    left-IsExclusive rt.fd_waiter rt.fd_waiters w (record (rt.fd_waiter w) { state = removed }) e
deactivated-Excludes rt w true e =
    let x = record (rt.fd_waiter w) { state = ready_reserved } in
    kept-IsExclusive rt.fd_waiter rt.fd_waiters w x refl refl refl e

-- mt_fd_waiter_deactivate keeps the reservations apart, whether the waiter keeps its own or leaves.
pub deactivate-Excludes :
    (rt : Runtime) (w : ℕ) (keep : Bool) → Excludes rt → Excludes (fd_waiter_deactivate rt w keep).1
unfolding fd_waiter_deactivate
deactivate-Excludes rt w keep e =
    let off = deactivated rt w keep in
    let kept = deactivated-Excludes rt w keep e in
    if_both (λ (a : Runtime). Excludes a) (is_active (rt.fd_waiter w).state || keep)
      (leaves-Excludes off (notify off) (notify-LeavesWaiters off) kept) kept

pub ready_waiter-Excludes :
    (rt : Runtime) (w : ℕ) (r : Code) (e : Events)
    → Excludes rt
    → Excludes (fd_ready_waiter rt w r e)
unfolding fd_ready_waiter
ready_waiter-Excludes rt w r e x = elim (Option-cases (rt.fd_waiter w).task) [
  | inl n ↦ rw (fd_ready_waiter, n) x
  | inr (t, s) ↦
      rw (fd_ready_waiter, s)
        (leaves-Excludes (fd_waiter_deactivate rt w true).1
          (fd_wake (fd_waiter_deactivate rt w true).1 t r e)
          (wake-LeavesWaiters (fd_waiter_deactivate rt w true).1 t r e)
          (deactivate-Excludes rt w true x))
]

-- mt_fd_waiter_add, of a waiter for events that nobody reserves
pub add-Excludes :
    (registered : Code) (rt : Runtime) (w : ℕ)
    → has w rt.fd_waiters ≡ false
    → conflicts_in rt.fd_waiter rt.fd_waiters (rt.fd_waiter w).fd (rt.fd_waiter w).events ≡ false
    → Excludes rt
    → Excludes (fd_waiter_add registered rt w).1
unfolding fd_waiter_add
add-Excludes registered rt w new free e =
    let joined = record (set_fd_waiter rt w (record (rt.fd_waiter w) { state = active })) {
      fd_waiters = w ∷ rt.fd_waiters;
      fd_waiting_count = rt.fd_waiting_count + 1;
    } in
    if_both (λ (r : Code × Runtime). Excludes r.1) (is_ok registered) {x = (Code.ok, notify joined)}
      {y = (registered, rt)}
      (leaves-Excludes joined (notify joined) (notify-LeavesWaiters joined) (
        joined-IsExclusive rt.fd_waiter rt.fd_waiters w (record (rt.fd_waiter w) { state = active })
          new free refl e))
      e
