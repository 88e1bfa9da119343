-- ===== src/Hooks/Balance.antt =====
-- The counters of the test build against the objects that are in use.
use mathlib.Core.Path.{subst}
use native.Mathlib.Decide.{ℕ_discrete}
use microthread.Base.{
  eq→==, ne→==, ℕ, ◌+◌, ◌%◌, ◌≡◌, refl, sym, ap, ◌∙◌, ◌==◌, true, none, some, List, [], ◌∷◌, arith,
  if◌then◌else◌, length, has, erase,
}
use microthread.State.{Ptr, word_mod}
use microthread.Hooks.{
  Fault, Resource, Hooks, resource_number, set_fault, counter_inc, hooked_alloc, hooked_free,
  fail_next, reset_faults,
}

-- the objects of each resource that are in use
abbrev pub InUse : Type 0
InUse = Resource → List ℕ

abbrev taken : InUse → Resource → ℕ → InUse
taken used r p s = if resource_number r == resource_number s then p ∷ used s else used s

abbrev given_back : InUse → Resource → ℕ → InUse
given_back used r p s = if resource_number r == resource_number s then erase p (used s) else used s

-- A test and the library in turn: an allocation that gives an object or fails, a release of an object
-- in use or of NULL, and the hooks of the test.
pub data HookStep : Hooks × InUse → Hooks × InUse → Type 0 where
  allocate :
      {h : Hooks} {used : InUse} (r : Resource) (memory : Ptr) (p : ℕ)
      → (hooked_alloc r h memory).0 ≡ some p
      → HookStep (h, used) ((hooked_alloc r h memory).1, taken used r p)
  run_out :
      {h : Hooks} {used : InUse} (r : Resource) (memory : Ptr)
      → (hooked_alloc r h memory).0 ≡ none
      → HookStep (h, used) ((hooked_alloc r h memory).1, used)
  release :
      {h : Hooks} {used : InUse} (r : Resource) (p : ℕ)
      → has p (used r) ≡ true
      → HookStep (h, used) (hooked_free r h (some p), given_back used r p)
  release_null :
      {h : Hooks} {used : InUse} (r : Resource) → HookStep (h, used) (hooked_free r h none, used)
  ask_failure : {h : Hooks} {used : InUse} (f : Fault) → HookStep (h, used) (fail_next f h, used)
  reset : {h : Hooks} {used : InUse} → HookStep (h, used) (reset_faults h, used)

pub data HookSteps (s : Hooks × InUse) : Hooks × InUse → Type 0 where
  here : HookSteps s s
  next : {t u : Hooks × InUse} → HookSteps s t → HookStep t u → HookSteps s u

-- the counters, which wrap around at 2 ^ 64, tell how many objects are in use
abbrev pub IsBalanced : Hooks × InUse → Type 0
IsBalanced (h, used) =
    (r : Resource) → h.allocs r % word_mod ≡ (h.frees r + length (used r)) % word_mod

length-erase : (p : ℕ) (xs : List ℕ) → has p xs ≡ true → length xs ≡ length (erase p xs) + 1
length-erase p [] h = cc
length-erase p (x ∷ xs) h = ground (arith, length-erase p xs)

alloc-frees :
    (r : Resource) (h : Hooks) (memory : Ptr) (s : Resource)
    → (hooked_alloc r h memory).1.frees s ≡ h.frees s
unfolding hooked_alloc set_fault
alloc-frees r h memory s = ground arith

-- an allocation that gives an object is counted, and one that fails is not
alloc-some :
    (r : Resource) (h : Hooks) (memory : Ptr) (p : ℕ) (s : Resource)
    → (hooked_alloc r h memory).0 ≡ some p
    → (hooked_alloc r h memory).1.allocs s ≡ counter_inc h.allocs r s
unfolding hooked_alloc set_fault
alloc-some r h memory p s e = ground (arith, e)

alloc-none :
    (r : Resource) (h : Hooks) (memory : Ptr) (s : Resource)
    → (hooked_alloc r h memory).0 ≡ none
    → (hooked_alloc r h memory).1.allocs s ≡ h.allocs s
unfolding hooked_alloc set_fault
alloc-none r h memory s e = ground (arith, e)

-- the resource of a number
numbered : ℕ → Resource
numbered n =
    if n == 0
    then Resource.task
    else (if n == 1
        then Resource.timer
        else (if n == 2
            then Resource.channel
            else (if n == 3
                then Resource.channel_buffer
                else (if n == 4
                    then Resource.handle
                    else (if n == 5 then Resource.select_waiter else Resource.fd_waiter)))))

numbered_lem : (r : Resource) → numbered (resource_number r) ≡ r
unfolding numbered
numbered_lem Resource.task = refl
numbered_lem Resource.timer = refl
numbered_lem Resource.channel = refl
numbered_lem Resource.channel_buffer = refl
numbered_lem Resource.handle = refl
numbered_lem Resource.select_waiter = refl
numbered_lem Resource.fd_waiter = refl

same_resource : (r s : Resource) → resource_number r ≡ resource_number s → r ≡ s
same_resource r s e = sym (numbered_lem r) ∙ ap numbered e ∙ numbered_lem s

step-IsBalanced : {s t : Hooks × InUse} → HookStep s t → IsBalanced s → IsBalanced t
unfolding hooked_free set_fault reset_faults
step-IsBalanced (allocate {h} {used} r memory p e) b s =
    ground (arith, b s, alloc-some r h memory p s e, alloc-frees r h memory s)
step-IsBalanced (run_out {h} {used} r memory e) b s =
    ground (arith, b s, alloc-none r h memory s e, alloc-frees r h memory s)
step-IsBalanced (release {h} {used} r p held) b s =
    elim (ℕ_discrete (resource_number r) (resource_number s)) [
      | yes e ↦
          let held_s = subst (λ x. has p (used x) ≡ true) (same_resource r s e) held in
          rw (eq→== (resource_number r) (resource_number s) e)
            (omega (arith, b s, length-erase p (used s) held_s))
      | no n ↦ rw (ne→== (resource_number r) (resource_number s) n) (b s)
    ]
step-IsBalanced (release_null {h} {used} r) b s = b s
step-IsBalanced (ask_failure {h} {used} f) b s = b s
step-IsBalanced (reset {h} {used}) b s = b s

-- From counters that tell how many objects of each resource are in use, modulo 2 ^ 64, any sequence of
-- allocations, failures, releases and requests of the test leads to counters that do.
pub steps-IsBalanced : {s t : Hooks × InUse} → HookSteps s t → IsBalanced s → IsBalanced t
steps-IsBalanced here b = b
steps-IsBalanced (next before last) b = step-IsBalanced last (steps-IsBalanced before b)
