-- ===== src/FdApi/Reuse.antt =====
-- What a descriptor that is closed and opened again keeps of the old file: mt_fd_close, mt_fd_adopt
-- and mt_fd_release of src/io.c in a row.
use microthread.Base.{
  ℕ, ◌≡◌, refl, ◌∙◌, inl, inr, true, false, Bool, Option, none, some, List, [], ◌∷◌, ◌==◌, ◌&&◌,
  if◌then◌else◌, arith, Option-cases, if_both,
}
use microthread.State.{Code, is_ok, Events, FdWaiter, FdGeneration, Runtime}
use microthread.Transitions.{set_task, mark_ready, notify}
use microthread.TimerOps.{timer_remove}
use microthread.Fd.{
  generation_find, generation_change, generation_current, generation_bump, fd_is_closing,
  fd_set_closing, fd_waiter_deactivate, deactivated, fd_tell, fd_wake, fd_ready_waiter,
  fd_wake_each, fd_wake_for_close, is_active, no_events, next_generation,
}
use microthread.FdApi.{adopt_entry, fd_adopt, fd_release, fd_close}

-- the flags that an adopted entry holds
abbrev pub entry_flags : Option FdGeneration → Option ℕ
entry_flags none = none
entry_flags (some g) = if g.adopted then g.original_flags else none

-- the flags that the runtime holds for a descriptor
abbrev pub captured : Runtime → ℕ → Option ℕ
captured rt fd = entry_flags (generation_find rt.fd_generations fd)

change-flags :
    (change : FdGeneration → FdGeneration) (gs : List FdGeneration) (fd : ℕ)
    → ((g : FdGeneration) → (change g).fd ≡ g.fd)
    → ((g : FdGeneration) (f : ℕ)
        → entry_flags (some g) ≡ some f
        → entry_flags (some (change g)) ≡ some f)
    → (f : ℕ) → entry_flags (generation_find gs fd) ≡ some f
    → entry_flags (generation_find (generation_change change gs fd) fd) ≡ some f
change-flags change [] fd same keeps f e = e
change-flags change (g ∷ gs) fd same keeps f e =
    ground (arith, same g, keeps g f, change-flags change gs fd same keeps f)

set_closing-captured :
    (allocates : Bool) (rt : Runtime) (fd : ℕ) (closing : Bool) (f : ℕ)
    → captured rt fd ≡ some f
    → captured (fd_set_closing allocates rt fd closing).1 fd ≡ some f
unfolding fd_set_closing
set_closing-captured allocates rt fd closing f e =
    elim (Option-cases (generation_find rt.fd_generations fd)) [
      | inl n ↦ ground (arith, n, e)
      | inr (g, s) ↦
          rw (fd_set_closing, s)
            (change-flags (λ x. record x { closing = closing }) rt.fd_generations fd (λ x. refl)
              (λ x k h. h) f e)
    ]

bump-captured :
    (allocates : Bool) (rt : Runtime) (fd f : ℕ)
    → captured rt fd ≡ some f
    → captured (generation_bump allocates rt fd) fd ≡ some f
unfolding generation_bump
bump-captured allocates rt fd f e = elim (Option-cases (generation_find rt.fd_generations fd)) [
  | inl n ↦ ground (arith, n, e)
  | inr (g, s) ↦
      rw (generation_bump, s)
        (change-flags (λ x. record x { generation = next_generation x.generation })
          rt.fd_generations fd (λ x. refl) (λ x k h. h) f e)
]

deactivate-generations :
    (rt : Runtime) (w : ℕ) (keep : Bool)
    → (fd_waiter_deactivate rt w keep).1.fd_generations ≡ rt.fd_generations
unfolding fd_waiter_deactivate deactivated notify
deactivate-generations rt w keep = ground arith

mark_ready-generations :
    (rt : Runtime) (t : ℕ) → (mark_ready rt t).fd_generations ≡ rt.fd_generations
unfolding mark_ready
mark_ready-generations rt t = ground arith

timer_remove-generations :
    (rt : Runtime) (t : ℕ) → (timer_remove rt t).1.fd_generations ≡ rt.fd_generations
unfolding timer_remove
timer_remove-generations rt t = ground arith

tell-generations :
    (rt : Runtime) (t : ℕ) (r : Code) (e : Events)
    → (fd_tell rt t r e).fd_generations ≡ rt.fd_generations
unfolding fd_tell
tell-generations rt t r e =
    let stopped = (timer_remove rt t).1 in
    if_both (λ (x : Runtime). x.fd_generations ≡ rt.fd_generations) (rt.task t).fd_in_timer
      {x = set_task stopped t (record (stopped.task t) { fd_in_timer = false })} {y = rt}
      (timer_remove-generations rt t) refl

wake-generations :
    (rt : Runtime) (t : ℕ) (r : Code) (e : Events)
    → (fd_wake rt t r e).fd_generations ≡ rt.fd_generations
unfolding fd_wake
wake-generations rt t r e =
    let told = fd_tell rt t r e in
    if_both (λ (x : Runtime). x.fd_generations ≡ rt.fd_generations) _ {x = mark_ready told t}
      {y = told} (mark_ready-generations told t ∙ tell-generations rt t r e)
      (tell-generations rt t r e)

pub ready_waiter-generations :
    (rt : Runtime) (w : ℕ) (r : Code) (e : Events)
    → (fd_ready_waiter rt w r e).fd_generations ≡ rt.fd_generations
unfolding fd_ready_waiter
ready_waiter-generations rt w r e = elim (Option-cases (rt.fd_waiter w).task) [
  | inl n ↦ rw (fd_ready_waiter, n) refl
  | inr (t, s) ↦
      rw (fd_ready_waiter, s)
        (wake-generations (fd_waiter_deactivate rt w true).1 t r e
          ∙ deactivate-generations rt w true)
]

wake_each-generations :
    (of : FdWaiter → Bool) (rt : Runtime) (ws : List ℕ) (r : Code)
    → (fd_wake_each of rt ws r).fd_generations ≡ rt.fd_generations
unfolding fd_wake_each
wake_each-generations of rt [] r = refl
wake_each-generations of rt (w ∷ ws) r =
    let woken = fd_ready_waiter rt w r no_events in
    if_both (λ (x : Runtime). (fd_wake_each of x ws r).fd_generations ≡ rt.fd_generations)
      (is_active (rt.fd_waiter w).state && of (rt.fd_waiter w)) {x = woken} {y = rt}
      (wake_each-generations of woken ws r ∙ ready_waiter-generations rt w r no_events)
      (wake_each-generations of rt ws r)

wake_for_close-captured :
    (allocates : Bool) (rt : Runtime) (fd f : ℕ)
    → captured rt fd ≡ some f
    → captured (fd_wake_for_close allocates rt fd) fd ≡ some f
unfolding fd_wake_for_close
wake_for_close-captured allocates rt fd f e =
    let bumped = generation_bump allocates rt fd in
    cc (
      wake_each-generations (λ x. x.fd == fd) bumped bumped.fd_waiters Code.err_closed,
      bump-captured allocates rt fd f e,
    )

close-captured :
    (allocates : Bool) (closed : Code) (rt : Runtime) (fd f : ℕ)
    → captured rt fd ≡ some f
    → captured (fd_close allocates closed (λ r. r) rt (some fd)).1 fd ≡ some f
unfolding fd_close
close-captured allocates closed rt fd f e =
    let (rc, marked) = fd_set_closing allocates rt fd true in
    let marked_e = set_closing-captured allocates rt fd true f e in
    let woken = fd_wake_for_close allocates marked fd in
    if_both (λ (r : Code × Runtime). captured r.1 fd ≡ some f) (fd_is_closing rt fd)
      {x = (Code.err_state, rt)} e
      (if_both (λ (r : Code × Runtime). captured r.1 fd ≡ some f) (is_ok rc)
        {x = (closed, (fd_set_closing allocates woken fd false).1)} {y = (Code.err_nomem, marked)}
        (set_closing-captured allocates woken fd false f
          (wake_for_close-captured allocates marked fd f marked_e))
        marked_e)

adopt-captured :
    (allocates set_flags : Bool) (flags : Option ℕ) (failure : Code) (rt : Runtime) (fd f : ℕ)
    → captured rt fd ≡ some f
    → captured (fd_adopt allocates flags set_flags failure rt (some fd)).1 fd ≡ some f
unfolding fd_adopt generation_current
adopt-captured allocates set_flags none failure rt fd f e = e
adopt-captured allocates set_flags (some flags) failure rt fd f e =
    elim (Option-cases (generation_find rt.fd_generations fd)) [
      | inl n ↦ ground (arith, n, e)
      | inr (g, s) ↦ ground (
        arith,
        s,
        e,
        change-flags (adopt_entry flags) rt.fd_generations fd (λ x. ground arith)
            (λ x k h. ground (arith, h)) f e,
      )
    ]

-- Where the runtime holds the flags of an adopted descriptor, a close, where no other worker comes
-- between, and an adoption of the same number, whatever the new file's flags are, keep them: a
-- release that succeeds then puts the closed file's flags on the new file.
pub reuse-restores :
    (allocates set_flags : Bool) (closed failure : Code) (flags : Option ℕ) (rt : Runtime)
    (fd f : ℕ)
    → captured rt fd ≡ some f
    → let shut = (fd_close allocates closed (λ r. r) rt (some fd)).1 in
      let opened = (fd_adopt allocates flags set_flags failure shut (some fd)).1 in
      (fd_release opened (some fd)).0.0 ≡ Code.ok
      → let shut = (fd_close allocates closed (λ r. r) rt (some fd)).1 in
        let opened = (fd_adopt allocates flags set_flags failure shut (some fd)).1 in
        (fd_release opened (some fd)).0.1 ≡ some f
unfolding fd_release
reuse-restores allocates set_flags closed failure flags rt fd f e ok =
    let shut = (fd_close allocates closed (λ r. r) rt (some fd)).1 in
    let opened = (fd_adopt allocates flags set_flags failure shut (some fd)).1 in
    release_captured opened
      (adopt-captured allocates set_flags flags failure shut fd f
        (close-captured allocates closed rt fd f e))
      ok
  where
    release_captured :
        (r : Runtime)
        → captured r fd ≡ some f
        → (fd_release r (some fd)).0.0 ≡ Code.ok
        → (fd_release r (some fd)).0.1 ≡ some f
    release_captured r c h = ground (arith, c, h)
