-- ===== src/Tests/Timers.antt =====
-- The theorems on the timer heap and on deadlines at concrete values.
use microthread.Base.{
  ℕ, zero, suc, ◌+◌, ◌*◌, ◌≡◌, ◌≤◌, ◌<◌, refl, List, [], ◌∷◌, arith, Returns, get_or, if◌then◌else◌,
  ltb,
}
use microthread.State.{Task, TaskState, Runtime}
use microthread.Deadline.{
  uint64_max, ns_per_ms, deadline_after, timeout_left_ms, deadline-exact, left-covers, timedwait_at,
  timedwait-exact,
}
use microthread.Timer.{push_items, pop_items, remove_at}
use microthread.Timer.Order.{IsBounded, IsHeap}
use microthread.Timer.Down.{Sunk}
use microthread.Timer.Remove.{Taken, push_items-Sunk, pop_items-Taken, remove_at-Taken}
use microthread.Scheduler.{wake_expired_timers}
use microthread.Scheduler.Expiry.{IsTimed, IsSwept, wake_expired_timers-IsSwept}
use microthread.Tests.{some_task, empty_channel, some_handle, world}

-- each task is due at its own address
abbrev sleepers : ℕ → Task
sleepers t = record (some_task TaskState.sleeping) { wake_ns = t; timer_seq = 0 }

sleepers-IsBounded : IsBounded sleepers
sleepers-IsBounded t = omega arith

abbrev two : List ℕ
two = 2 ∷ 5 ∷ []

two-IsHeap : IsHeap sleepers two
two-IsHeap zero p q = absurd (omega arith)
two-IsHeap (suc zero) p q = omega arith
two-IsHeap (suc (suc c)) p q = absurd (omega arith)

push_items-Sunk_example : Returns (Sunk sleepers (1 ∷ two)) (push_items sleepers two 1)
push_items-Sunk_example = push_items-Sunk sleepers sleepers-IsBounded two 1 two-IsHeap

pop_items-Taken_example :
    Returns (λ r. (r.0 ≡ get_or two 0 0) × Taken sleepers two r.0 r.1) (pop_items sleepers two)
pop_items-Taken_example = pop_items-Taken sleepers sleepers-IsBounded two 1 two-IsHeap refl

remove_at-Taken_example : Returns (Taken sleepers two 2) (remove_at sleepers two 0)
remove_at-Taken_example =
    remove_at-Taken sleepers sleepers-IsBounded two 0 1 two-IsHeap refl (omega arith)

deadline-exact_example :
    deadline_after 5 3
    ≡ (if ltb uint64_max (5 + 3 * ns_per_ms) then uint64_max else 5 + 3 * ns_per_ms)
deadline-exact_example = deadline-exact 5 3 (omega arith) (omega arith)

left-covers_example :
    (1_500_000 ≤ 5 + timeout_left_ms 5 1_500_000 * ns_per_ms)
    × (5 + timeout_left_ms 5 1_500_000 * ns_per_ms < 1_500_000 + ns_per_ms)
left-covers_example = left-covers 5 1_500_000 (omega arith) (omega arith)

-- two tasks sleep, until 2 and until 5, and it is 3
abbrev dozing : Runtime
dozing = record (world TaskState.sleeping empty_channel (some_handle [])) {
  task = sleepers;
  timers = record { items = two; cap = 16; next_seq = 0 };
}

dozing-IsTimed : IsTimed dozing
dozing-IsTimed = record {
  distinct = (refl, (refl, tt));
  heap = two-IsHeap;
  bounded = sleepers-IsBounded;
}

wake_expired_timers-IsSwept_example : IsSwept 3 dozing (wake_expired_timers dozing 3)
wake_expired_timers-IsSwept_example = wake_expired_timers-IsSwept dozing 3 dozing-IsTimed

timedwait-exact_example :
    ((timedwait_at (5, 999_999_999) 2_000_000_001).1 < 1_000_000_000)
    × ((timedwait_at (5, 999_999_999) 2_000_000_001).0 * 1_000_000_000
          + (timedwait_at (5, 999_999_999) 2_000_000_001).1
        ≡ 5 * 1_000_000_000 + 999_999_999 + 2_000_000_001)
timedwait-exact_example = timedwait-exact 5 999_999_999 2_000_000_001 (omega arith)
