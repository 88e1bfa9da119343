-- ===== src/Poll/Told.antt =====
-- What a waiter is told after a poll.
use mathlib.Core.Path.{subst}
use mathlib.Core.Option.{some-injective}
use microthread.Base.{
  sym, ℕ, ◌≡◌, refl, ap, ◌∙◌, eq→==, inl, inr, Bool, true, false, none, some, List, [], ◌∷◌, ◌==◌,
  ◌&&◌, ◌||◌, not, if◌then◌else◌, has, arith, Bool-cases,
}
use microthread.State.{Ptr, Code, Events, FdWaiterState, Runtime}
use microthread.Transitions.{mark_ready, runq_push, notify}
use microthread.Fd.{
  overlap, is_active, is_waiting_fd, generation_current, fd_waiter_deactivate, fd_tell, fd_wake,
  fd_ready_waiter, find_waiter_in, fd_find_waiter,
}
use microthread.Fd.Reserved.{ready_waiter-LeavesWaiters}
use microthread.FdApi.{common}
use microthread.Poll.{
  PollEvents, poll_revents_to_fd_events, told_events, is_silent, handle_ready, handle_entry,
}

-- Some event of `a`, and only events of `b`.
pub record IsPart (a b : Events) : Type 0 where
  pub some_event : overlap a a ≡ true
  pub read : a.read ≡ true → b.read ≡ true
  pub write : a.write ≡ true → b.write ≡ true

-- an active waiter of the list, on the descriptor, that waits for one of the events
pub record Matches (rt : Runtime) (ws : List ℕ) (fd : ℕ) (ready : Events) (w : ℕ) : Type 0 where
  pub listed : has w ws ≡ true
  pub active : is_active (rt.fd_waiter w).state ≡ true
  pub same_fd : (rt.fd_waiter w).fd ≡ fd
  pub wanted : overlap (rt.fd_waiter w).events ready ≡ true

pub later-Matches :
    (rt : Runtime) (v : ℕ) (ws : List ℕ) (fd : ℕ) (ready : Events) (w : ℕ)
    → Matches rt ws fd ready w
    → Matches rt (v ∷ ws) fd ready w
later-Matches rt v ws fd ready w m = record {
  listed = ground (arith, m.listed);
  active = m.active;
  same_fd = m.same_fd;
  wanted = m.wanted;
}

find-Matches :
    (allocates : Bool) (rt : Runtime) (ws : List ℕ) (fd : ℕ) (ready : Events) (w : ℕ)
    → (find_waiter_in allocates rt ws fd ready).0 ≡ some w
    → Matches rt ws fd ready w
unfolding find_waiter_in
find-Matches allocates rt [] fd ready w e = cc
find-Matches allocates rt (v ∷ ws) fd ready w e = elim (Bool-cases fits) [
  | inr no_ ↦
      later-Matches rt v ws fd ready w
        (find-Matches allocates rt ws fd ready w (rw (find_waiter_in, no_) at e))
  | inl yes_ ↦
      elim (Bool-cases ((rt.fd_waiter v).generation == (generation_current allocates rt fd).0)) [
        | inl now_ ↦
            let here : v ≡ w = some-injective v w (rw (find_waiter_in, yes_, now_) at e) in
            subst (Matches rt (v ∷ ws) fd ready) here (record {
              listed = ground arith;
              active = ground (arith, yes_);
              same_fd = ground (arith, yes_);
              wanted = ground (arith, yes_);
            })
        | inr old_ ↦ absurd (none≢some (rw (find_waiter_in, yes_, old_) at e))
      ]
]
  where
    fits : Bool
    fits =
        is_active (rt.fd_waiter v).state
        && (rt.fd_waiter v).fd == fd
        && overlap (rt.fd_waiter v).events ready

    none≢some : Path Ptr none (some w) → ⊥
    none≢some h = ground arith

-- what both want is something
common_some : (a b : Events) → overlap b a ≡ true → overlap (common a b) (common a b) ≡ true
common_some a b h = ground arith

common-IsPart : (a b : Events) → overlap b a ≡ true → IsPart (common a b) b × IsPart (common a b) a
common-IsPart a b h =
    let some_ = common_some a b h in
    (
      record { some_event = some_; read = λ e. ground (arith, e); write = λ e. ground (arith, e) },
      record { some_event = some_; read = λ e. ground (arith, e); write = λ e. ground (arith, e) },
    )

-- a guard that the first test refutes
guarded : (b c : Bool) (x y : Events) → b ≡ true → (if not b && c then x else y) ≡ y
guarded true c x y e = refl
guarded false c x y e = cc

told_exact :
    (wanted : Events) (r : PollEvents)
    → overlap wanted (poll_revents_to_fd_events r) ≡ true
    → told_events wanted r ≡ common (poll_revents_to_fd_events r) wanted
unfolding told_events
told_exact wanted r h =
    let ready = common (poll_revents_to_fd_events r) wanted in
    guarded (overlap ready ready) (r.pollerr || r.pollhup) wanted ready
      (common_some (poll_revents_to_fd_events r) wanted h)

told_parts :
    (wanted : Events) (r : PollEvents)
    → overlap wanted (poll_revents_to_fd_events r) ≡ true
    → IsPart (told_events wanted r) wanted
      × IsPart (told_events wanted r) (poll_revents_to_fd_events r)
told_parts wanted r h =
    let (part, given) = common-IsPart (poll_revents_to_fd_events r) wanted h in
    let same = sym (told_exact wanted r h) in
    (
      subst (λ (x : Events). IsPart x wanted) same part,
      subst (λ (x : Events). IsPart x (poll_revents_to_fd_events r)) same given,
    )

-- What an entry of a poll does where it finds the waiter `w` of the task `t`.
pub record IsTold (before after : Runtime) (fd : ℕ) (r : PollEvents) (w t : ℕ) : Type 0 where
  pub matches : Matches before before.fd_waiters fd (poll_revents_to_fd_events r) w
  pub result : (after.task t).fd_result ≡ Code.ok
  pub wanted : IsPart (after.task t).fd_ready_events (before.fd_waiter w).events
  pub given : IsPart (after.task t).fd_ready_events (poll_revents_to_fd_events r)
  pub reserved : (after.fd_waiter w).state ≡ FdWaiterState.ready_reserved
  pub awake : is_waiting_fd (after.task t).state ≡ false

-- what the task of a waiter knows once it is woken
abbrev Knows : Code → Events → ℕ → Runtime → Type 0
Knows result events t rt =
    ((rt.task t).fd_result ≡ result)
    × ((rt.task t).fd_ready_events ≡ events)
    × (is_waiting_fd (rt.task t).state ≡ false)

tell-result :
    (rt : Runtime) (t : ℕ) (result : Code) (events : Events)
    → (((fd_tell rt t result events).task t).fd_result ≡ result)
      × (((fd_tell rt t result events).task t).fd_ready_events ≡ events)
unfolding fd_tell
tell-result rt t result events = (rw (eq→== t t refl) refl, rw (eq→== t t refl) refl)

ready-result :
    (rt : Runtime) (t : ℕ)
    → (((mark_ready rt t).task t).fd_result ≡ (rt.task t).fd_result)
      × (((mark_ready rt t).task t).fd_ready_events ≡ (rt.task t).fd_ready_events)
      × (is_waiting_fd ((mark_ready rt t).task t).state ≡ false)
unfolding mark_ready runq_push notify is_waiting_fd
ready-result rt t = ground (arith, eq→== t t refl)

wake-Knows :
    (rt : Runtime) (t : ℕ) (result : Code) (events : Events)
    → Knows result events t (fd_wake rt t result events)
unfolding fd_wake
wake-Knows rt t result events =
    let told = fd_tell rt t result events in
    let (r, e) = tell-result rt t result events in
    elim (Bool-cases (is_waiting_fd (told.task t).state)) [
      | inl on ↦ let (r', e', s) = ready-result told t in rw (fd_wake, on) (r' ∙ r, e' ∙ e, s)
      | inr off ↦ rw (fd_wake, off) (r, e, off)
    ]

ready_waiter-Knows :
    (rt : Runtime) (w t : ℕ) (result : Code) (events : Events)
    → (rt.fd_waiter w).task ≡ some t
    → Knows result events t (fd_ready_waiter rt w result events)
unfolding fd_ready_waiter
ready_waiter-Knows rt w t result events e =
    rw (fd_ready_waiter, e) (wake-Knows (fd_waiter_deactivate rt w true).1 t result events)

-- the search that finds a waiter changes none
asked-waiters :
    (allocates : Bool) (rt : Runtime) (fd : ℕ)
    → (generation_current allocates rt fd).1.fd_waiter ≡ rt.fd_waiter
unfolding generation_current
asked-waiters allocates rt fd = ground arith

find-waiters :
    (allocates : Bool) (rt : Runtime) (ws : List ℕ) (fd : ℕ) (ready : Events) (w : ℕ)
    → (find_waiter_in allocates rt ws fd ready).0 ≡ some w
    → (find_waiter_in allocates rt ws fd ready).1.fd_waiter ≡ rt.fd_waiter
unfolding find_waiter_in
find-waiters allocates rt [] fd ready w e = refl
find-waiters allocates rt (v ∷ ws) fd ready w e =
    let asked = asked-waiters allocates rt fd in
    let later = find-waiters allocates rt ws fd ready w in ground (arith, e, asked, later)

-- An entry of the poll's array that is not the wake pipe's, and for which poll(2) gives something and
-- does not refuse the descriptor: where the search finds a waiter, that is active, on the descriptor
-- and waits for one of the events; the entry reserves it, and its task no longer waits and
-- gets MT_OK with some events, all of which it waits for and poll gave.
pub entry-IsTold :
    (allocates : Bool) (wake_fd : ℕ) (rt : Runtime) (fd : ℕ) (r : PollEvents) (w t : ℕ)
    → is_silent r ≡ false
    → (fd == wake_fd) ≡ false
    → r.pollnval ≡ false
    → (fd_find_waiter allocates rt fd (poll_revents_to_fd_events r)).0 ≡ some w
    → (rt.fd_waiter w).task ≡ some t
    → IsTold rt (handle_entry allocates wake_fd rt fd r) fd r w t
unfolding handle_entry handle_ready fd_find_waiter
entry-IsTold allocates wake_fd rt fd r w t said other valid e owner =
    let ready = poll_revents_to_fd_events r in
    let asked = (find_waiter_in allocates rt rt.fd_waiters fd ready).1 in
    let same = find-waiters allocates rt rt.fd_waiters fd ready w e in
    let events = told_events (asked.fd_waiter w).events r in
    let m = find-Matches allocates rt rt.fd_waiters fd ready w e in
    let at : (asked.fd_waiter w).task ≡ some t = ap (λ f. (f w).task) same ∙ owner in
    let (result, told, awake) = ready_waiter-Knows asked w t Code.ok events at in
    let k = ready_waiter-LeavesWaiters asked w t Code.ok events at in
    let (part, given) = told_parts (rt.fd_waiter w).events r m.wanted in
    let wanted = ap (λ f. told_events (f w).events r) same in
    rw (handle_entry, handle_ready, said, other, valid, e)
      (record {
        matches = m;
        result = result;
        wanted = subst (λ x. IsPart x (rt.fd_waiter w).events) (sym (told ∙ wanted)) part;
        given = subst (λ x. IsPart x ready) (sym (told ∙ wanted)) given;
        reserved = ap (λ f. (f w).state) k.waiter ∙ rw (eq→== w w refl) refl;
        awake = awake;
      })
