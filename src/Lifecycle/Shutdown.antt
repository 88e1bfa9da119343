-- ===== src/Lifecycle/Shutdown.antt =====
-- The loops of mt_shutdown.
use mathlib.Core.Path.{subst, ap₂}
use native.Mathlib.Decide.{ℕ_discrete}
use microthread.Base.{
  ℕ, zero, suc, ◌<◌, ◌≡◌, refl, sym, ap, ◌∙◌, if◌then◌else◌, inl, inr, Bool, false, true, Option,
  none, some, List, [], ◌∷◌, arith, length, has, ◌||◌, ◌==◌, List-cases, update, eq→==, ne→==,
  Returns, returns, Returns-mono,
}
use microthread.State.{Chan, Handle, Runtime}
use microthread.Transitions.{set_chan, set_handle}
use microthread.Join.{task_destroy}
use microthread.Chan.Frame.{Shrunk}
use microthread.Lifecycle.{
  reset, abandoned, close_all, orphaned, complete_all, detach, destroy_all, shutdown,
}
use microthread.Lifecycle.Registered.{Kept, Kept-refl, Kept-trans, round-Kept}

-- each round takes a task off the registry
destroy_all-Returns :
    (k : ℕ) (rt : Runtime)
    → length rt.all_tasks < k
    → Returns (λ (r : Runtime). Kept rt r × (r.all_tasks ≡ [])) (destroy_all k rt)
unfolding destroy_all
destroy_all-Returns zero rt h = absurd (omega arith)
destroy_all-Returns (suc k) rt h = elim (List-cases rt.all_tasks) [
  | inl e ↦ simp (destroy_all, e) (returns (Kept-refl rt, e))
  | inr (t, ts, e) ↦
      let next = task_destroy (detach rt t) t in
      let (kept, less) = round-Kept rt t ts e in
      simp (destroy_all, e)
        (Returns-mono (destroy_all-Returns k next (ground (arith, less, ap length e)))
          λ r good. (Kept-trans rt next r kept good.0, good.1))
]

-- A store where one object is changed, and later those of a list.
changed_step {ℓ} :
    {A : Type ℓ} (change : A → A) (f : ℕ → A) (d c : ℕ) (later : Bool)
    → ((x : A) → change (change x) ≡ change x)
    → (let g = update f d (change (f d)) in if later then change (g c) else g c)
      ≡ (if (d == c) || later then change (f c) else f c)
changed_step change f d c later again = elim (ℕ_discrete d c) [
  | yes e ↦ rw (eq→== d c e) (once later ∙ ap (λ x. change (f x)) e)
  | no ne ↦ rw (ne→== d c ne) refl
]
  where
    once : (b : Bool) → (if b then change (change (f d)) else change (f d)) ≡ change (f d)
    once true = again (f d)
    once false = refl

-- The loops over the registries change the objects of the registry, and no others.
chan-close_all :
    (rt : Runtime) (cs : List ℕ) (c : ℕ)
    → (close_all rt cs).chan c ≡ (if has c cs then abandoned (rt.chan c) else rt.chan c)
unfolding close_all
chan-close_all rt [] c = refl
chan-close_all rt (d ∷ cs) c =
    chan-close_all (set_chan rt d (abandoned (rt.chan d))) cs c
    ∙ changed_step abandoned rt.chan d c (has c cs) (λ x. refl)

handle-complete_all :
    (rt : Runtime) (hs : List ℕ) (h : ℕ)
    → (complete_all rt hs).handle h ≡ (if has h hs then orphaned (rt.handle h) else rt.handle h)
unfolding complete_all
handle-complete_all rt [] h = refl
handle-complete_all rt (d ∷ hs) h =
    handle-complete_all (set_handle rt d (orphaned (rt.handle d))) hs h
    ∙ changed_step orphaned rt.handle d h (has h hs) (λ x. refl)

close_all_frame :
    (rt : Runtime) (cs : List ℕ)
    → ((close_all rt cs).handle ≡ rt.handle)
      × ((close_all rt cs).handles ≡ rt.handles)
      × ((close_all rt cs).all_tasks ≡ rt.all_tasks)
unfolding close_all
close_all_frame rt [] = (refl, refl, refl)
close_all_frame rt (c ∷ cs) = close_all_frame (set_chan rt c (abandoned (rt.chan c))) cs

complete_all_frame :
    (rt : Runtime) (hs : List ℕ)
    → ((complete_all rt hs).chan ≡ rt.chan) × ((complete_all rt hs).all_tasks ≡ rt.all_tasks)
unfolding complete_all
complete_all_frame rt [] = (refl, refl)
complete_all_frame rt (h ∷ hs) = complete_all_frame (set_handle rt h (orphaned (rt.handle h))) hs

-- What a shutdown leaves: a runtime that is all zero, so not initialised and without tasks, timers and
-- fd waiters; each channel of the registry closed, with its elements and without waiters, and any other as it
-- was but for its select queues; each handle of the registry completed as cancelled and without its
-- task, and any other as it was.
pub record IsShutDown (before after : Runtime) : Type 0 where
  pub blank : after ≡ reset after
  pub channels :
      (c : ℕ)
      → Shrunk
          (if has c before.channels then abandoned (before.chan c) else before.chan c)
          (after.chan c)
  pub handles :
      (h : ℕ)
      → after.handle h
        ≡ (if has h before.handles then orphaned (before.handle h) else before.handle h)

-- the runtime before the loop over its tasks
abbrev silenced : Runtime → Runtime
silenced rt = let closed = close_all rt rt.channels in complete_all closed closed.handles

shutdown_idle :
    (k : ℕ) (rt : Runtime)
    → rt.current ≡ none
    → rt.initialized ≡ true
    → rt.running ≡ false
    → shutdown k rt ≡ elim (destroy_all k (silenced rt)) [ none ↦ none | some r ↦ some (reset r) ]
unfolding shutdown
shutdown_idle k rt outside on idle = simp (shutdown, outside, on, idle)

silenced_chan :
    (rt : Runtime) (c : ℕ)
    → (silenced rt).chan c ≡ (if has c rt.channels then abandoned (rt.chan c) else rt.chan c)
silenced_chan rt c =
    let closed = close_all rt rt.channels in
    ap (λ (f : ℕ → Chan). f c) (complete_all_frame closed closed.handles).0
    ∙ chan-close_all rt rt.channels c

silenced_handle :
    (rt : Runtime) (h : ℕ)
    → (silenced rt).handle h ≡ (if has h rt.handles then orphaned (rt.handle h) else rt.handle h)
silenced_handle rt h =
    let closed = close_all rt rt.channels in
    let (same, listed, _) = close_all_frame rt rt.channels in
    handle-complete_all closed closed.handles h
    ∙ ap₂ (λ (hs : List ℕ) (f : ℕ → Handle). if has h hs then orphaned (f h) else f h) listed same

ended :
    (rt : Runtime) {run : Option Runtime}
    → Returns (λ (r : Runtime). Kept (silenced rt) r × (r.all_tasks ≡ [])) run
    → Returns (IsShutDown rt) (elim run [ none ↦ none | some r ↦ some (reset r) ])
ended rt (returns {a = r} (kept, none_left)) = returns (record {
  blank = refl;
  channels = λ c. subst (λ (x : Chan). Shrunk x (r.chan c)) (silenced_chan rt c) (kept.channels c);
  handles = λ h. ap (λ (f : ℕ → Handle). f h) kept.handles ∙ silenced_handle rt h;
})

-- Outside of any task, a shutdown of an initialised runtime whose workers do not run ends, on fuel
-- for one round per registered task and one more, and leaves the runtime all zero, its channels closed, with their elements and without waiters, and its
-- handles completed as cancelled and without their tasks.
pub shutdown-Returns :
    (k : ℕ) (rt : Runtime)
    → rt.current ≡ none
    → rt.initialized ≡ true
    → rt.running ≡ false
    → length rt.all_tasks < k
    → Returns (IsShutDown rt) (shutdown k rt)
shutdown-Returns k rt outside on idle fuel =
    let closed = close_all rt rt.channels in
    let same : (silenced rt).all_tasks ≡ rt.all_tasks =
      (complete_all_frame closed closed.handles).1 ∙ (close_all_frame rt rt.channels).2 in
    subst (Returns (IsShutDown rt)) (sym (shutdown_idle k rt outside on idle)) (
      ended rt (
        destroy_all-Returns k (silenced rt)
          (omega (arith, ap (λ (xs : List ℕ). length xs) same, fuel))))
