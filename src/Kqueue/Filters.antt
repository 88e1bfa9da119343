-- ===== src/Kqueue/Filters.antt =====
-- The filters of the kqueue against the waiters of the runtime.
use mathlib.Core.Path.{subst}
use native.Mathlib.Decide.{ℕ_discrete}
use microthread.Base.{
  ℕ, ◌≡◌, ◌≢◌, refl, sym, ap, ◌∙◌, inl, inr, true, false, Bool, List, [], ◌∷◌, ◌==◌, ◌&&◌,
  if◌then◌else◌, arith, has, update, IsDistinct, eq→==, ne→==, Bool-cases,
}
use microthread.State.{Code, is_ok, Events, FdWaiter, removed, ready_reserved, Runtime}
use microthread.Transitions.{notify}
use microthread.Fd.{
  overlap, is_some_event, without, both_events, is_active, fd_waiter_add, fd_waiter_deactivate,
}
use microthread.Fd.Counted.{IsCounted}
use microthread.Fd.Exclusive.{Excludes}
use microthread.Fd.Wants.{
  union_in, wanted_events, union-unlisted, union-off, union-other_fd, notify-wanted, added,
  added-other, added-own, marked_as, marked-off, deactivate-wanted,
}
use microthread.Epoll.{CtlResult, ctl_code}
use microthread.Kqueue.{
  KqueueKernel, kqueue_backend_add, kqueue_backend_remove, kqueue_waiter_add,
  kqueue_waiter_deactivate,
}

swap_both :
    (test : Bool) (a b c : Events)
    → (if test then both_events a (both_events b c) else both_events b c)
      ≡ both_events b (if test then both_events a c else c)
swap_both true a b c = ground arith
swap_both false a b c = refl

both_apart :
    (a b c : Events)
    → overlap a c ≡ false
    → overlap b c ≡ false
    → overlap (both_events a b) c ≡ false
both_apart a b c h k = ground (arith, h, k)

-- what is left when an active waiter of the list is turned off
union-split :
    (waiter : ℕ → FdWaiter) (ws : List ℕ) (w : ℕ) (x : FdWaiter)
    → IsDistinct ws
    → has w ws ≡ true
    → is_active (waiter w).state ≡ true
    → is_active x.state ≡ false
    → let fd = (waiter w).fd in
      union_in waiter ws fd ≡ both_events (waiter w).events (union_in (update waiter w x) ws fd)
union-split waiter [] w x d h on off = cc
union-split waiter (v ∷ vs) w x d h on off = elim (ℕ_discrete w v) [
  | yes i ↦
      let new : has w vs ≡ false = subst (λ u. has u vs ≡ false) (sym i) d.0 in
      subst
        (λ u.
          union_in waiter (u ∷ vs) (waiter w).fd
          ≡ both_events (waiter w).events (union_in (update waiter w x) (u ∷ vs) (waiter w).fd))
        i
        (rw (eq→== w w refl, eq→== (waiter w).fd (waiter w).fd refl, on, off)
          (ap (both_events (waiter w).events)
            (sym (union-unlisted waiter vs (waiter w).fd w x new))))
  | no n ↦
      let rest = union-split waiter vs w x d.1 (rw (ne→== v w (λ i. n (sym i))) at h) on off in
      rw (ne→== w v n, rest)
        (swap_both (is_active (waiter v).state && (waiter v).fd == (waiter w).fd) (waiter v).events
          (waiter w).events (union_in (update waiter w x) vs (waiter w).fd))
]

-- what is left shares nothing with a waiter that is apart from the others
union-apart :
    (waiter : ℕ → FdWaiter) (ws : List ℕ) (w fd : ℕ) (x : FdWaiter) (events : Events)
    → is_active x.state ≡ false
    → ((v : ℕ)
        → has v ws ≡ true
        → v ≢ w
        → (waiter v).fd ≡ fd
        → overlap (waiter v).events events ≡ false)
    → overlap (union_in (update waiter w x) ws fd) events ≡ false
union-apart waiter [] w fd x events off apart = refl
union-apart waiter (v ∷ vs) w fd x events off apart =
    let rest =
      union-apart waiter vs w fd x events off (λ u h ne f. apart u (ground (arith, h)) ne f) in
    elim (ℕ_discrete w v) [
      | yes i ↦ rw (eq→== w v i, off) rest
      | no n ↦ elim (Bool-cases (is_active (waiter v).state && (waiter v).fd == fd)) [
        | inl hit ↦
            rw (ne→== w v n, hit)
              (both_apart (waiter v).events (union_in (update waiter w x) vs fd) events
                (apart v (ground arith) (λ i. n (sym i)) (ground (arith, hit))) rest)
        | inr miss ↦ rw (ne→== w v n, miss) rest
      ]
    ]

without_part : (a b : Events) → without a (both_events a b) ≡ record { read = false; write = false }
without_part a b = ground arith

without_apart : (a b : Events) → overlap b a ≡ false → without (both_events a b) a ≡ b
without_apart a b h = ground (arith, h)

module _ (kq : KqueueKernel) where
  open kq use {Instance, filters, grants, add, delete, add_done, add_sets, delete_done, delete_sets}

  -- A filter is set for a descriptor exactly where an active waiter waits for its event.
  abbrev pub IsFiltered : Instance → Runtime → Type 0
  IsFiltered k rt = (fd : ℕ) → filters k fd ≡ wanted_events rt fd

  same-IsFiltered :
      (k : Instance) (rt after : Runtime)
      → IsFiltered k rt
      → ((other : ℕ) → wanted_events after other ≡ wanted_events rt other)
      → IsFiltered k after
  same-IsFiltered k rt after m same other = m other ∙ sym (same other)

  add_filters :
      (k : Instance) (rt : Runtime) (w : ℕ)
      → has w rt.fd_waiters ≡ false
      → IsFiltered k rt
      → (add k (rt.fd_waiter w).fd (rt.fd_waiter w).events).0 ≡ CtlResult.done
      → IsFiltered (add k (rt.fd_waiter w).fd (rt.fd_waiter w).events).1 (added rt w)
  add_filters k rt w new m ok other =
      let fd = (rt.fd_waiter w).fd in
      let events = (rt.fd_waiter w).events in
      elim (ℕ_discrete fd other) [
        | yes here ↦
            add_sets k fd events other ok
            ∙ rw (eq→== fd other here) (
                subst (λ o. both_events events (filters k o) ≡ wanted_events (added rt w) o) here
                  (ap (both_events events) (m fd) ∙ sym (added-own rt w new)))
        | no there ↦
            add_sets k fd events other ok
            ∙ rw (ne→== fd other there) (m other ∙ sym (added-other rt w other new there))
      ]

  -- Where the filters are those that the active waiters want and the kernel has nothing against the
  -- call, mt_fd_waiter_add succeeds and keeps them so.
  pub kqueue_waiter_add-IsFiltered :
      (k : Instance) (rt : Runtime) (w : ℕ)
      → has w rt.fd_waiters ≡ false
      → grants k (rt.fd_waiter w).fd ≡ true
      → IsFiltered k rt
      → ((kqueue_waiter_add kq k rt w).0.0 ≡ Code.ok)
        × IsFiltered (kqueue_waiter_add kq k rt w).1 (kqueue_waiter_add kq k rt w).0.1
  unfolding kqueue_waiter_add kqueue_backend_add fd_waiter_add is_ok ctl_code
  kqueue_waiter_add-IsFiltered k rt w new granted m =
      let ok = add_done k (rt.fd_waiter w).fd (rt.fd_waiter w).events granted in
      let after = (add k (rt.fd_waiter w).fd (rt.fd_waiter w).events).1 in
      rw ok (
        refl,
        same-IsFiltered after (added rt w) (notify (added rt w)) (add_filters k rt w new m ok)
            (λ fd. notify-wanted (added rt w) fd),
      )

  -- the end of an active waiter, in the kernel
  remove_filters :
      (k : Instance) (rt : Runtime) (w : ℕ) (keep : Bool)
      → IsCounted rt
      → Excludes rt
      → is_active (rt.fd_waiter w).state ≡ true
      → is_some_event (rt.fd_waiter w).events ≡ true
      → grants k (rt.fd_waiter w).fd ≡ true
      → IsFiltered k rt
      → IsFiltered (kqueue_backend_remove kq k (marked_as rt w keep) w) (marked_as rt w keep)
  unfolding kqueue_backend_remove
  remove_filters k rt w keep c e on some_ granted m other =
      let fd = (rt.fd_waiter w).fd in
      let events = (rt.fd_waiter w).events in
      let x = record (rt.fd_waiter w) { state = if keep then ready_reserved else removed } in
      let marked = marked_as rt w keep in
      let rest = wanted_events marked fd in
      let off = marked-off keep in
      let split : wanted_events rt fd ≡ both_events events rest =
        union-split rt.fd_waiter rt.fd_waiters w x c.distinct (c.listed w on) on off in
      let apart : overlap rest events ≡ false =
        union-apart rt.fd_waiter rt.fd_waiters w fd x events off
          (λ v h ne f. e.apart v w h (c.listed w on) ne f) in
      let ok : (delete k fd events).0 ≡ CtlResult.done =
        delete_done k fd events granted
          (ap (without events) (m fd ∙ split) ∙ without_part events rest) in
      rw (eq→== w w refl, some_)
        (elim (ℕ_discrete fd other) [
          | yes here ↦
              delete_sets k fd events other ok
              ∙ rw (eq→== fd other here) (
                  subst (λ o. without (filters k o) events ≡ wanted_events marked o) here
                    (ap (λ s. without s events) (m fd ∙ split) ∙ without_apart events rest apart))
          | no there ↦
              delete_sets k fd events other ok
              ∙ rw (ne→== fd other there)
                  (m other ∙ sym (union-other_fd rt.fd_waiter rt.fd_waiters other w x refl there))
        ])

  -- Where the filters are those that the active waiters want, no two waiters reserve the same event, the
  -- runtime counts its active waiters, the waiter waits for something and the kernel has nothing
  -- against the call, mt_fd_waiter_deactivate keeps the filters so, for an active waiter and for one
  -- that is not, kept or taken off the list.
  pub kqueue_waiter_deactivate-IsFiltered :
      (k : Instance) (rt : Runtime) (w : ℕ) (keep : Bool)
      → IsCounted rt
      → Excludes rt
      → is_some_event (rt.fd_waiter w).events ≡ true
      → grants k (rt.fd_waiter w).fd ≡ true
      → IsFiltered k rt
      → IsFiltered
          (kqueue_waiter_deactivate kq k rt w keep).1
          (kqueue_waiter_deactivate kq k rt w keep).0.1
  unfolding kqueue_waiter_deactivate
  kqueue_waiter_deactivate-IsFiltered k rt w keep c e some_ granted m =
      let marked = marked_as rt w keep in
      let x = record (rt.fd_waiter w) { state = if keep then ready_reserved else removed } in
      elim (Bool-cases (is_active (rt.fd_waiter w).state)) [
        | inl on ↦ rw on (
            same-IsFiltered (kqueue_backend_remove kq k marked w) marked
              (fd_waiter_deactivate rt w keep).1 (remove_filters k rt w keep c e on some_ granted m)
              (deactivate-wanted rt w keep))
        | inr off ↦ rw off (
            same-IsFiltered k rt (fd_waiter_deactivate rt w keep).1 m (λ other.
              deactivate-wanted rt w keep other
              ∙ union-off rt.fd_waiter rt.fd_waiters other w x off (marked-off keep)))
      ]
