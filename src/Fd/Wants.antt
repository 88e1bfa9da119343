-- ===== src/Fd/Wants.antt =====
-- What the active waiters of a descriptor wait for together, after each operation on a waiter.
use microthread.Base.{
  ℕ, ◌+◌, ◌≡◌, ◌≢◌, refl, sym, ◌∙◌, inl, inr, true, false, Bool, none, List, [], ◌∷◌, ◌==◌, ◌&&◌,
  ◌||◌, if◌then◌else◌, arith, has, erase, update, eq→==, Bool-cases, if_both,
}
use microthread.State.{Events, FdWaiter, active, removed, ready_reserved, Runtime}
use microthread.Transitions.{notify}
use microthread.Fd.{
  is_some_event, no_events, both_events, is_active, set_fd_waiter, active_events_in,
  fd_active_events_for_fd, deactivated, fd_waiter_deactivate,
}

-- what the active waiters of a descriptor wait for together
abbrev pub union_in : (ℕ → FdWaiter) → List ℕ → ℕ → Events
union_in waiter [] fd = no_events
union_in waiter (w ∷ ws) fd =
    let more = union_in waiter ws fd in
    if is_active (waiter w).state && (waiter w).fd == fd
    then both_events (waiter w).events more
    else more

both_assoc : (a b c : Events) → both_events (both_events a b) c ≡ both_events a (both_events b c)
both_assoc a b c = ground arith

pub both_comm : (a b : Events) → both_events a b ≡ both_events b a
both_comm a b = ground arith

both-nothing : (a : Events) → both_events a no_events ≡ a
both-nothing a = ground arith

active_events-union :
    (waiter : ℕ → FdWaiter) (ws : List ℕ) (fd : ℕ) (start : Events)
    → active_events_in waiter ws fd none start ≡ both_events start (union_in waiter ws fd)
active_events-union waiter [] fd start = sym (both-nothing start)
active_events-union waiter (w ∷ ws) fd start =
    elim (Bool-cases (is_active (waiter w).state && (waiter w).fd == fd)) [
      | inl on ↦ rw on (
          active_events-union waiter ws fd (both_events start (waiter w).events)
          ∙ both_assoc start (waiter w).events (union_in waiter ws fd))
      | inr off ↦ rw off (active_events-union waiter ws fd start)
    ]

abbrev pub wanted_events : Runtime → ℕ → Events
wanted_events rt fd = union_in rt.fd_waiter rt.fd_waiters fd

-- mt_fd_active_events_for_fd computes the union
pub active_events_lem :
    (rt : Runtime) (fd : ℕ) → fd_active_events_for_fd rt fd none no_events ≡ wanted_events rt fd
unfolding fd_active_events_for_fd
active_events_lem rt fd =
    active_events-union rt.fd_waiter rt.fd_waiters fd no_events
    ∙ both_comm no_events (wanted_events rt fd)
    ∙ both-nothing (wanted_events rt fd)

pub union-unlisted :
    (waiter : ℕ → FdWaiter) (ws : List ℕ) (fd w : ℕ) (x : FdWaiter)
    → has w ws ≡ false
    → union_in (update waiter w x) ws fd ≡ union_in waiter ws fd
union-unlisted waiter [] fd w x h = refl
union-unlisted waiter (v ∷ ws) fd w x h = ground (arith, union-unlisted waiter ws fd w x)

-- a waiter that is off and stays off
pub union-off :
    (waiter : ℕ → FdWaiter) (ws : List ℕ) (fd w : ℕ) (x : FdWaiter)
    → is_active (waiter w).state ≡ false
    → is_active x.state ≡ false
    → union_in (update waiter w x) ws fd ≡ union_in waiter ws fd
union-off waiter [] fd w x h k = refl
union-off waiter (v ∷ ws) fd w x h k = ground (arith, union-off waiter ws fd w x h k)

pub union-other_fd :
    (waiter : ℕ → FdWaiter) (ws : List ℕ) (fd w : ℕ) (x : FdWaiter)
    → x.fd ≡ (waiter w).fd
    → (waiter w).fd ≢ fd
    → union_in (update waiter w x) ws fd ≡ union_in waiter ws fd
union-other_fd waiter [] fd w x h k = refl
union-other_fd waiter (v ∷ ws) fd w x h k = ground (arith, h, union-other_fd waiter ws fd w x h k)

union-erase :
    (waiter : ℕ → FdWaiter) (ws : List ℕ) (fd w : ℕ)
    → is_active (waiter w).state ≡ false
    → union_in waiter (erase w ws) fd ≡ union_in waiter ws fd
union-erase waiter [] fd w h = refl
union-erase waiter (v ∷ ws) fd w h = ground (arith, union-erase waiter ws fd w)

-- an active waiter of the list waits for something
pub union-some :
    (waiter : ℕ → FdWaiter) (ws : List ℕ) (w : ℕ)
    → has w ws ≡ true
    → is_active (waiter w).state ≡ true
    → is_some_event (waiter w).events ≡ true
    → is_some_event (union_in waiter ws (waiter w).fd) ≡ true
union-some waiter [] w h on e = cc
union-some waiter (v ∷ ws) w h on e = ground (arith, union-some waiter ws w)

pub notify-wanted : (rt : Runtime) (fd : ℕ) → wanted_events (notify rt) fd ≡ wanted_events rt fd
unfolding notify
notify-wanted rt fd =
    if_both (λ (r : Runtime). wanted_events r fd ≡ wanted_events rt fd) rt.initialized refl refl

-- the state that mt_fd_waiter_add leaves where the registration succeeds
abbrev pub added : Runtime → ℕ → Runtime
added rt w = record (set_fd_waiter rt w (record (rt.fd_waiter w) { state = active })) {
  fd_waiters = w ∷ rt.fd_waiters;
  fd_waiting_count = rt.fd_waiting_count + 1;
}

pub added-other :
    (rt : Runtime) (w fd : ℕ)
    → has w rt.fd_waiters ≡ false
    → (rt.fd_waiter w).fd ≢ fd
    → wanted_events (added rt w) fd ≡ wanted_events rt fd
added-other rt w fd new ne =
    let x = record (rt.fd_waiter w) { state = active } in
    ground (arith, ne, union-unlisted rt.fd_waiter rt.fd_waiters fd w x new)

pub added-own :
    (rt : Runtime) (w : ℕ)
    → has w rt.fd_waiters ≡ false
    → wanted_events (added rt w) (rt.fd_waiter w).fd
      ≡ both_events (rt.fd_waiter w).events (wanted_events rt (rt.fd_waiter w).fd)
added-own rt w new =
    let x = record (rt.fd_waiter w) { state = active } in
    ground (arith, union-unlisted rt.fd_waiter rt.fd_waiters (rt.fd_waiter w).fd w x new)

pub both-some : (a b : Events) → is_some_event b ≡ true → is_some_event (both_events a b) ≡ true
both-some a b h = ground arith

-- the waiter as mt_fd_waiter_deactivate marks it
abbrev pub marked_as : Runtime → ℕ → Bool → Runtime
marked_as rt w keep =
    set_fd_waiter rt w
      (record (rt.fd_waiter w) { state = if keep then ready_reserved else removed })

pub marked-off : (keep : Bool) → is_active (if keep then ready_reserved else removed) ≡ false
marked-off true = refl
marked-off false = refl

deactivated-wanted :
    (rt : Runtime) (w : ℕ) (keep : Bool) (fd : ℕ)
    → wanted_events (deactivated rt w keep) fd ≡ wanted_events (marked_as rt w keep) fd
unfolding deactivated
deactivated-wanted rt w true fd = refl
deactivated-wanted rt w false fd =
    let x = record (rt.fd_waiter w) { state = removed } in
    union-erase (update rt.fd_waiter w x) rt.fd_waiters fd w (rw (eq→== w w refl) refl)

pub deactivate-wanted :
    (rt : Runtime) (w : ℕ) (keep : Bool) (fd : ℕ)
    → wanted_events (fd_waiter_deactivate rt w keep).1 fd ≡ wanted_events (marked_as rt w keep) fd
unfolding fd_waiter_deactivate
deactivate-wanted rt w keep fd =
    let off = deactivated rt w keep in
    if_both (λ (r : Runtime). wanted_events r fd ≡ wanted_events (marked_as rt w keep) fd)
      (is_active (rt.fd_waiter w).state || keep)
      (notify-wanted off fd ∙ deactivated-wanted rt w keep fd) (deactivated-wanted rt w keep fd)
