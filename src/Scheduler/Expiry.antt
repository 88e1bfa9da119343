-- ===== src/Scheduler/Expiry.antt =====
-- The timers that a worker leaves behind when it has woken the tasks that are due.
use mathlib.Core.Path.{subst}
use mathlib.Core.Bool.{Bool-set}
use mathlib.Core.Logic.{∥∥₁_elim}
use native.Mathlib.Decide.{ℕ_discrete}
use mathlib.Core.List.{Permᴰ}
use mathlib.Core.List.Perm
use mathlib.Core.HLevel.{×_prop}
use microthread.Base.{
  ℕ, zero, suc, ◌-◌, ◌/◌, ◌≤◌, ◌<◌, ◌≡◌, ◌≢◌, refl, sym, ap, ◌∙◌, inl, inr, ◌⊎◌, true, false, none,
  some, List, [], ◌∷◌, arith, length, has, get_or, IsDistinct, ne→==, Option-cases, List-cases,
  Bool-cases, ltb, Perm, length-perm, Returns-inv,
}
use microthread.State.{TimerHeap, Task, Runtime}
use microthread.Transitions.{set_task}
use microthread.Timer.{pop_items}
use microthread.Timer.Order.{IsBounded, IsHeap, key, root_least}
use microthread.Timer.Remove.{Taken, pop_items-Taken}
use microthread.Queue.Fifo
use microthread.Chan.Stable.{length_of_none}
use microthread.TimerOps.{timer_pop}
use microthread.Scheduler.{timer_ready, wake_expired, wake_expired_timers, timer_peek}
use microthread.Scheduler.Frame.{SameTimers, expired_in-SameTimers}

has-permᴰ : (a : ℕ) {us vs : List ℕ} → Permᴰ us vs → has a us ≡ has a vs
has-permᴰ a (Permᴰ.trans left right) = has-permᴰ a left ∙ has-permᴰ a right
has-permᴰ a (Permᴰ.swap x y) = ground (arith, x, y)
has-permᴰ a (Permᴰ.cons x rest) = ground (arith, x, has-permᴰ a rest)
has-permᴰ a Permᴰ.nil = refl

has-perm : (a : ℕ) {xs ys : List ℕ} → Perm xs ys → has a xs ≡ has a ys
has-perm a p = ∥∥₁_elim p (Bool-set _ _) (has-permᴰ a)

IsDistinct-prop : (xs : List ℕ) → IsProp (IsDistinct xs)
IsDistinct-prop [] = hlevel
IsDistinct-prop (x ∷ xs) = ×_prop (Bool-set (has x xs) false) (IsDistinct-prop xs)

perm-IsDistinct : {xs ys : List ℕ} → Perm xs ys → IsDistinct xs → IsDistinct ys
perm-IsDistinct {ys} p d = ∥∥₁_elim p (IsDistinct-prop ys) λ q. by_step q d
  where
    by_step : {us vs : List ℕ} → Permᴰ us vs → IsDistinct us → IsDistinct vs
    by_step (Permᴰ.trans left right) e = by_step right (by_step left e)
    by_step (Permᴰ.swap x y) e = ground (arith, x, y, e)
    by_step (Permᴰ.cons {b} x rest) e = ground (arith, x, has-permᴰ b rest, by_step rest e.1)
    by_step Permᴰ.nil e = e

-- what stands in a list is a member
has-get_or : (xs : List ℕ) (i : ℕ) → i < length xs → has (get_or xs i 0) xs ≡ true
has-get_or [] i h = absurd (omega arith)
has-get_or (x ∷ xs) zero h = ground arith
has-get_or (x ∷ xs) (suc i) h = ground (arith, has-get_or xs i (omega arith))

-- No task is in the heap twice, and the heap is in order.
pub record IsTimed (rt : Runtime) : Type 0 where
  pub distinct : IsDistinct rt.timers.items
  pub heap : IsHeap rt.task rt.timers.items
  pub bounded : IsBounded rt.task

IsHeap-agree :
    (tasks tasks' : ℕ → Task) (items : List ℕ)
    → ((i : ℕ) → i < length items → key tasks' items i ≡ key tasks items i)
    → IsHeap tasks items
    → IsHeap tasks' items
IsHeap-agree tasks tasks' items same h c p q =
    ground (arith, h c p q, same c q, same ((c - 1) / 2) (omega arith))

same-IsTimed : (a b : Runtime) → SameTimers a b → IsTimed a → IsTimed b
same-IsTimed a b s k = record {
  distinct = subst (λ (h : TimerHeap). IsDistinct h.items) (sym s.timers) k.distinct;
  heap =
      subst (λ (h : TimerHeap). IsHeap b.task h.items) (sym s.timers)
        (IsHeap-agree a.task b.task a.timers.items
          (λ i h.
            ground (arith, s.wake (get_or a.timers.items i 0), s.age (get_or a.timers.items i 0)))
          k.heap);
  bounded = λ t. ground (arith, s.age t, k.bounded t);
}

-- the runtime once `top` is off the heap
abbrev popped : Runtime → ℕ → List ℕ → Runtime
popped rt top rest =
    set_task (record rt { timers = record (rt.timers) { items = rest } }) top
      (record (rt.task top) { wake_ns = 0 })

timer_pop-eq :
    (rt : Runtime) (x top : ℕ) (xs rest : List ℕ)
    → rt.timers.items ≡ x ∷ xs
    → pop_items rt.task rt.timers.items ≡ some (top, rest)
    → timer_pop rt ≡ (some top, popped rt top rest)
unfolding timer_pop
timer_pop-eq rt x top xs rest e q = simp (timer_pop, e, (rw e at q))

popped-IsTimed :
    (rt : Runtime) (top : ℕ) (rest : List ℕ)
    → IsTimed rt
    → Taken rt.task rt.timers.items top rest
    → IsTimed (popped rt top rest)
popped-IsTimed rt top rest k taken =
    let (out, others) = perm-IsDistinct (Perm.symm taken.same) k.distinct in
    record {
      distinct = others;
      heap =
          IsHeap-agree rt.task (popped rt top rest).task rest
            (λ i h. other out i h (ℕ_discrete top (get_or rest i 0))) taken.heap;
      bounded = λ t. ground (arith, k.bounded t, k.bounded top);
    }
  where
    other :
        has top rest ≡ false
        → (i : ℕ) → i < length rest
        → Dec (top ≡ get_or rest i 0)
        → key (popped rt top rest).task rest i ≡ key rt.task rest i
    other out i h (yes e) =
        absurd (ground (arith, out, subst (λ t. has t rest ≡ true) (sym e) (has-get_or rest i h)))
    other out i h (no ne) = ground (arith, ne→== top (get_or rest i 0) ne)

-- no task in the heap is due
abbrev pub NoneDue : ℕ → Runtime → Type 0
NoneDue now rt =
    (i : ℕ) → i < length rt.timers.items → now < (rt.task (get_or rt.timers.items i 0)).wake_ns

first-get_or : (xs : List ℕ) (t : ℕ) → Fifo.first xs ≡ some t → get_or xs 0 0 ≡ t
first-get_or [] t e = cc
first-get_or (x ∷ xs) t e = ground (arith, e)

-- the root is not due
root-NoneDue :
    (rt : Runtime) (t now : ℕ)
    → IsTimed rt
    → timer_peek rt ≡ some t
    → now < (rt.task t).wake_ns
    → NoneDue now rt
root-NoneDue rt t now k e later i h = ground (
  arith,
  first-get_or rt.timers.items t e,
  root_least rt.task rt.timers.items i k.heap h,
  k.bounded (get_or rt.timers.items 0 0),
  k.bounded (get_or rt.timers.items i 0),
  later,
)

-- a round of the loop on a task that is due
wake_expired-due :
    (n : ℕ) (rt : Runtime) (t now top : ℕ) (after : Runtime)
    → timer_peek rt ≡ some t
    → ltb now (rt.task t).wake_ns ≡ false
    → timer_pop rt ≡ (some top, after)
    → wake_expired (suc n) rt now ≡ wake_expired n (timer_ready after top) now
unfolding wake_expired
wake_expired-due n rt t now top after e due q = simp (wake_expired, e, due, q)

-- What the worker leaves: a heap in order without a task that is due, with each task that was not.
pub record IsSwept (now : ℕ) (before after : Runtime) : Type 0 where
  pub timed : IsTimed after
  pub none_due : NoneDue now after
  pub kept :
      (u : ℕ)
      → has u before.timers.items ≡ true
      → now < (before.task u).wake_ns
      → has u after.timers.items ≡ true

-- one task that was due is gone
one_due_gone :
    (now : ℕ) (rt : Runtime) (top : ℕ) (rest : List ℕ) (after : Runtime)
    → IsTimed rt
    → Taken rt.task rt.timers.items top rest
    → ltb now (rt.task top).wake_ns ≡ false
    → IsSwept now (timer_ready (popped rt top rest) top) after
    → IsSwept now rt after
unfolding timer_ready
one_due_gone now rt top rest after k taken due s =
    let gone = popped rt top rest in
    let same = expired_in-SameTimers (gone.task top).state gone top in
    record {
      timed = s.timed;
      none_due = s.none_due;
      kept = λ u h later.
          let ne : top ≢ u = λ e. ground (arith, due, later, ap (λ v. (rt.task v).wake_ns) e) in
          let in_rest : has u rest ≡ true =
            ground (arith, h, has-perm u taken.same, ne→== top u ne) in
          s.kept u (ap (λ (x : TimerHeap). has u x.items) same.timers ∙ in_rest)
            (ground (arith, same.wake u, later, ne→== top u ne));
    }

-- the heap is as it was
unswept : (rt : Runtime) (now : ℕ) → IsTimed rt → NoneDue now rt → IsSwept now rt rt
unswept rt now k none_due = record { timed = k; none_due = none_due; kept = λ u h later. h }

unswept_idle :
    (n : ℕ) (rt : Runtime) (now : ℕ) → timer_peek rt ≡ none → wake_expired (suc n) rt now ≡ rt
unfolding wake_expired
unswept_idle n rt now e = simp (wake_expired, e)

unswept_later :
    (n : ℕ) (rt : Runtime) (t now : ℕ)
    → timer_peek rt ≡ some t
    → ltb now (rt.task t).wake_ns ≡ true
    → wake_expired (suc n) rt now ≡ rt
unfolding wake_expired
unswept_later n rt t now e later = simp (wake_expired, e, later)

past_due_root :
    (n : ℕ) (rt : Runtime) (t now : ℕ)
    → ((r : Runtime) → IsTimed r → length r.timers.items ≤ n → IsSwept now r (wake_expired n r now))
    → IsTimed rt
    → length rt.timers.items ≤ suc n
    → timer_peek rt ≡ some t
    → ltb now (rt.task t).wake_ns ≡ false
    → (rt.timers.items ≡ []) ⊎ ((x : ℕ) × (xs : List ℕ) × (rt.timers.items ≡ x ∷ xs))
    → IsSwept now rt (wake_expired (suc n) rt now)
past_due_root n rt t now go_on k fuel e due (inl q) = absurd (ground (arith, e, q))
past_due_root n rt t now go_on k fuel e due (inr (x, xs, q)) =
    let items = rt.timers.items in
    let ((top, rest), popped_ok, (root, taken)) = Returns-inv (
      pop_items-Taken rt.task k.bounded items (length xs) k.heap
        (ap (λ (ys : List ℕ). length ys) q)) in
    let here : top ≡ t = root ∙ first-get_or items t e in
    let at_top : ltb now (rt.task top).wake_ns ≡ false =
      subst (λ u. ltb now (rt.task u).wake_ns ≡ false) (sym here) due in
    let gone = popped rt top rest in
    let same : SameTimers gone (timer_ready gone top) =
      unfold timer_ready in expired_in-SameTimers (gone.task top).state gone top in
    let fewer : length (timer_ready gone top).timers.items ≤ n =
      omega (arith, length-perm taken.same, ap (λ (h : TimerHeap). length h.items) same.timers) in
    subst (IsSwept now rt)
      (sym (wake_expired-due n rt t now top gone e due (timer_pop-eq rt x top xs rest q popped_ok)))
      (one_due_gone now rt top rest (wake_expired n (timer_ready gone top) now) k taken at_top (
        go_on (timer_ready gone top)
          (same-IsTimed gone (timer_ready gone top) same (popped-IsTimed rt top rest k taken))
          fewer))

swept :
    (n : ℕ) (rt : Runtime) (now : ℕ)
    → IsTimed rt
    → length rt.timers.items ≤ n
    → IsSwept now rt (wake_expired n rt now)
swept zero rt now k fuel = unfold wake_expired in unswept rt now k (λ i h. absurd (omega arith))
swept (suc n) rt now k fuel = elim (Option-cases (timer_peek rt)) [
  | inl e ↦
      subst (IsSwept now rt) (sym (unswept_idle n rt now e))
        (unswept rt now k (λ i h. absurd (omega (arith, length_of_none rt.timers.items e))))
  | inr (t, e) ↦ elim (Bool-cases (ltb now (rt.task t).wake_ns)) [
    | inl later ↦
        subst (IsSwept now rt) (sym (unswept_later n rt t now e later))
          (unswept rt now k (root-NoneDue rt t now k e (ground (arith, later))))
    | inr due ↦
        past_due_root n rt t now (λ r. swept n r now) k fuel e due (List-cases rt.timers.items)
  ]
]

-- Where no task is in the heap twice and the heap is in order, the wake-up of timers leaves a heap in
-- order in which no task is due, and in which each task still is that was not due.
pub wake_expired_timers-IsSwept :
    (rt : Runtime) (now : ℕ) → IsTimed rt → IsSwept now rt (wake_expired_timers rt now)
unfolding wake_expired_timers
wake_expired_timers-IsSwept rt now k = swept (length rt.timers.items) rt now k (omega arith)
