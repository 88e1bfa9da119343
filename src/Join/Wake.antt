-- ===== src/Join/Wake.antt =====
-- Who waits for a handle that completes.
use mathlib.Core.Path.{subst}
use native.Mathlib.Decide.{ℕ_discrete}
use microthread.Base.{
  ℕ, zero, suc, ◌≤◌, ◌≡◌, ◌⊎◌, inl, inr, refl, sym, ap, ◌∙◌, true, false, Bool, none, some, List,
  [], ◌∷◌, if_false, if◌then◌else◌, arith, has, erase, length, if_both, eq→==, ne→==,
}
use microthread.State.{Code, TaskState, Task, Handle, Runtime}
use microthread.Queue.Fifo
use microthread.Transitions.{mark_ready, complete_join_wait, set_handle, runq_push, notify}
use microthread.Join.{wake_joiners, finish_handle, handle_free_if_possible, handle_complete}

-- a task that a completed wait has made ready
pub record IsWoken (result : Code) (x : Task) : Type 0 where
  pub state : x.state ≡ TaskState.ready
  pub join_result : x.join_result ≡ result
  pub join_waiting_on : x.join_waiting_on ≡ none

join_wait-handle :
    (rt : Runtime) (t : ℕ) (r : Code) → (complete_join_wait rt t r).handle ≡ rt.handle
unfolding complete_join_wait mark_ready runq_push notify
join_wait-handle rt t r = ground arith

join_wait-IsWoken :
    (rt : Runtime) (t : ℕ) (r : Code) → IsWoken r ((complete_join_wait rt t r).task t)
unfolding complete_join_wait mark_ready runq_push notify
join_wait-IsWoken rt t r = ground (arith, eq→== t t refl)

join_wait-keeps :
    (rt : Runtime) (t u : ℕ) (r : Code)
    → IsWoken r (rt.task u)
    → IsWoken r ((complete_join_wait rt t r).task u)
unfolding complete_join_wait mark_ready runq_push notify
join_wait-keeps rt t u r h = ground (arith, h)

-- one round of the loop
round : Runtime → ℕ → ℕ → Code → Runtime
round rt h t r =
    complete_join_wait
      (set_handle rt h (record (rt.handle h) { joiners = Fifo.rest (rt.handle h).joiners })) t r

round-joiners :
    (rt : Runtime) (h t : ℕ) (r : Code)
    → ((round rt h t r).handle h).joiners ≡ Fifo.rest (rt.handle h).joiners
unfolding round
round-joiners rt h t r =
    let popped =
      set_handle rt h (record (rt.handle h) { joiners = Fifo.rest (rt.handle h).joiners }) in
    subst (λ (f : ℕ → Handle). (f h).joiners ≡ Fifo.rest (rt.handle h).joiners)
      (sym (join_wait-handle popped t r)) (rw (eq→== h h refl) refl)

round-IsWoken :
    (rt : Runtime) (h t u : ℕ) (r : Code)
    → (t ≡ u) ⊎ IsWoken r (rt.task u)
    → IsWoken r ((round rt h t r).task u)
unfolding round
round-IsWoken rt h t u r (inl e) =
    subst (λ (x : ℕ). IsWoken r ((round rt h t r).task x)) e (join_wait-IsWoken _ t r)
round-IsWoken rt h t u r (inr w) =
    join_wait-keeps
      (set_handle rt h (record (rt.handle h) { joiners = Fifo.rest (rt.handle h).joiners })) t u r w

Woken : ℕ → Code → Runtime → Runtime → Type 0
Woken h r before after =
    (length (after.handle h).joiners ≡ 0)
    × ((u : ℕ)
        → (has u (before.handle h).joiners ≡ true) ⊎ IsWoken r (before.task u)
        → IsWoken r (after.task u))

-- after a round, a joiner still waits or is woken
round-case :
    (rt : Runtime) (h t u : ℕ) (r : Code) (js : List ℕ)
    → (rt.handle h).joiners ≡ t ∷ js
    → (has u (rt.handle h).joiners ≡ true) ⊎ IsWoken r (rt.task u)
    → (has u ((round rt h t r).handle h).joiners ≡ true) ⊎ IsWoken r ((round rt h t r).task u)
round-case rt h t u r js e (inr w) = inr (round-IsWoken rt h t u r (inr w))
round-case rt h t u r js e (inl w) = elim (ℕ_discrete t u) [
  | yes q ↦ inr (round-IsWoken rt h t u r (inl q))
  | no ne ↦ inl (
      subst (λ (xs : List ℕ). has u xs ≡ true) (sym (round-joiners rt h t r ∙ ap Fifo.rest e))
        (ground (arith, e, w, ne→== t u ne)))
]

-- one round of the loop is taken while a joiner waits, and none when nobody does
wake_joiners-stop :
    (k : ℕ) (rt : Runtime) (h : ℕ) (r : Code)
    → Fifo.first (rt.handle h).joiners ≡ none
    → wake_joiners (suc k) rt h r ≡ rt
unfolding wake_joiners
wake_joiners-stop k rt h r e = rw (wake_joiners, e) refl

wake_joiners-step :
    (k : ℕ) (rt : Runtime) (h t : ℕ) (r : Code)
    → Fifo.first (rt.handle h).joiners ≡ some t
    → wake_joiners (suc k) rt h r ≡ wake_joiners k (round rt h t r) h r
unfolding wake_joiners round
wake_joiners-step k rt h t r e = rw (wake_joiners, e) refl

wake_joiners-lem :
    (js : List ℕ) (k : ℕ) (rt : Runtime) (h : ℕ) (r : Code)
    → (rt.handle h).joiners ≡ js
    → length js ≤ k
    → Woken h r rt (wake_joiners k rt h r)
unfolding Woken wake_joiners round
wake_joiners-lem [] zero rt h r e n = (ground (arith, e), λ u w. ground (arith, e, w))
wake_joiners-lem [] (suc k) rt h r e n =
    subst (λ (x : Runtime). Woken h r rt x) (sym (wake_joiners-stop k rt h r (ap Fifo.first e)))
      (ground (arith, e), λ u w. ground (arith, e, w))
wake_joiners-lem (t ∷ js) zero rt h r e n = absurd (omega arith)
wake_joiners-lem (t ∷ js) (suc k) rt h r e n =
    let later =
      wake_joiners-lem js k (round rt h t r) h r (round-joiners rt h t r ∙ ap Fifo.rest e)
        (omega arith) in
    subst (λ (x : Runtime). Woken h r rt x) (sym (wake_joiners-step k rt h t r (ap Fifo.first e)))
      (later.0, λ u w. later.1 u (round-case rt h t u r js e w))

free-Woken :
    (before after : Runtime) (h : ℕ) (r : Code)
    → Woken h r before after
    → Woken h r before (handle_free_if_possible after h)
unfolding handle_free_if_possible Woken
free-Woken before after h r w =
    if_both (Woken h r before) _ {x = record after { handles = erase h after.handles }} {y = after}
      w w

result-finish_handle :
    (rt : Runtime) (h : ℕ) (cancelled : Bool)
    → ((finish_handle rt h cancelled).handle h).join_result
      ≡ (if cancelled then Code.err_cancelled else Code.ok)
unfolding finish_handle
result-finish_handle rt h cancelled = rw (eq→== h h refl) refl

joiners-finish_handle :
    (rt : Runtime) (h : ℕ) (cancelled : Bool)
    → ((finish_handle rt h cancelled).handle h).joiners ≡ (rt.handle h).joiners
unfolding finish_handle
joiners-finish_handle rt h cancelled = rw (eq→== h h refl) refl

-- When a handle that is not completed completes, nobody waits for it any more: each of its joiners
-- is ready, with the result of the join, which says whether the task was cancelled.
pub handle_complete-wakes :
    (rt : Runtime) (h : ℕ) (cancelled : Bool)
    → (rt.handle h).completed ≡ false
    → (length ((handle_complete rt h cancelled).handle h).joiners ≡ 0)
      × ((u : ℕ)
          → has u (rt.handle h).joiners ≡ true
          → IsWoken
              (if cancelled then Code.err_cancelled else Code.ok)
              ((handle_complete rt h cancelled).task u))
unfolding handle_complete Woken
handle_complete-wakes rt h cancelled open_ =
    let finished = finish_handle rt h cancelled in
    let k = length (rt.handle h).joiners in
    let code = (finished.handle h).join_result in
    let woken = free-Woken finished (wake_joiners k finished h code) h code (
      wake_joiners-lem (rt.handle h).joiners k finished h code
        (joiners-finish_handle rt h cancelled) (omega arith)) in
    let there =
      subst (λ (r : Runtime). Woken h code finished r)
        (sym (if_false (rt.handle h).completed rt _ open_)) woken in
    (
      there.0,
      λ u w.
          subst (λ (r : Code). IsWoken r ((handle_complete rt h cancelled).task u))
            (result-finish_handle rt h cancelled)
            (there.1 u (
              inl (
                subst (λ (js : List ℕ). has u js ≡ true)
                  (sym (joiners-finish_handle rt h cancelled)) w))),
    )
