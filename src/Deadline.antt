-- ===== src/Deadline.antt =====
-- Deadlines in nanoseconds on uint64_t: the saturating arithmetic that mt_sleep_ms, mt_select and
-- mt_deadline_from_timeout share, and mt_timeout_left_ms. The clock's reading is an argument.
use microthread.Base.{ℕ, ◌+◌, ◌-◌, ◌*◌, ◌/◌, ◌%◌, ◌≤◌, ◌<◌, ◌≡◌, ltb, leb, if◌then◌else◌, arith}
use microthread.State.{word_mod}

abbrev pub uint64_max : ℕ
uint64_max = word_mod - 1

-- MT_NS_PER_MS
abbrev pub ns_per_ms : ℕ
ns_per_ms = 1_000_000

unfoldable pub ns_of_ms : ℕ → ℕ
ns_of_ms ms = if ltb (uint64_max / ns_per_ms) ms then uint64_max else ms * ns_per_ms % word_mod

unfoldable pub deadline_after : ℕ → ℕ → ℕ
unfolding ns_of_ms
deadline_after now ms =
    if ltb (uint64_max - now) (ns_of_ms ms) then uint64_max else (now + ns_of_ms ms) % word_mod

-- mt_timeout_left_ms
unfoldable pub timeout_left_ms : ℕ → ℕ → ℕ
timeout_left_ms now deadline =
    if leb deadline now then 0 else (deadline - now + ns_per_ms - 1) % word_mod / ns_per_ms

abbrev pub ns_per_second : ℕ
ns_per_second = 1_000_000_000

-- mt_cond_timedwait_ns: the seconds and nanoseconds of the time to wait for, from those of the clock
unfoldable pub timedwait_at : ℕ × ℕ → ℕ → ℕ × ℕ
timedwait_at (seconds, nanoseconds) delay =
    let sum = nanoseconds + delay % ns_per_second in
    let whole = seconds + delay / ns_per_second in
    if leb ns_per_second sum then (whole + 1, sum - ns_per_second) else (whole, sum)

-- For a reading of the clock with less than a second of nanoseconds, the time to wait for is the exact
-- sum of the reading and the delay, again with less than a second of nanoseconds.
pub timedwait-exact :
    (seconds nanoseconds delay : ℕ)
    → nanoseconds < ns_per_second
    → let at = timedwait_at (seconds, nanoseconds) delay in
      (at.1 < ns_per_second)
      × (at.0 * ns_per_second + at.1 ≡ seconds * ns_per_second + nanoseconds + delay)
unfolding timedwait_at
timedwait-exact seconds nanoseconds delay h = ground arith

-- For a clock reading and a timeout of 64 bits the deadline is the exact sum, cut off at the
-- largest value: there is no wrap-around.
pub deadline-exact :
    (now ms : ℕ)
    → now ≤ uint64_max
    → ms ≤ uint64_max
    → deadline_after now ms
      ≡ (if ltb uint64_max (now + ms * ns_per_ms) then uint64_max else now + ms * ns_per_ms)
unfolding deadline_after
deadline-exact now ms hn hm = ground arith

-- What is left of a timeout is at least what is needed to reach the deadline, by less than a
-- millisecond, while the deadline is ahead and not within the last millisecond of the clock's
-- range.
pub left-covers :
    (now deadline : ℕ)
    → now < deadline
    → deadline ≤ uint64_max - ns_per_ms
    → (deadline ≤ now + timeout_left_ms now deadline * ns_per_ms)
      × (now + timeout_left_ms now deadline * ns_per_ms < deadline + ns_per_ms)
unfolding timeout_left_ms
left-covers now deadline h k = ground arith
