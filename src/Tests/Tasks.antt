-- ===== src/Tests/Tasks.antt =====
-- The theorems on joins, cancels, fd waiters and statuses at concrete runtimes.
use microthread.Base.{ℕ, ◌+◌, ◌≡◌, refl, true, some, [], ◌∷◌, arith, has, length}
use microthread.State.{Code, TaskState, Runtime}
use microthread.Fd.{fd_waiter_deactivate}
use microthread.Fd.Counted.{IsCounted, deactivate-IsCounted}
use microthread.Chan.Stable.{AllStable}
use microthread.Join.{handle_complete, task_wake_for_cancel, task_status}
use microthread.Join.Wake.{IsWoken, handle_complete-wakes}
use microthread.Join.Count.{cancel_join-miscounts, cancel_channel-miscounts}
use microthread.Scheduler.{after_switch}
use microthread.Scheduler.Status.{after_switch-status}
use microthread.Tests.{channel, empty_channel, some_handle, world}

-- tasks 1 and 2 wait for the task of handle 0
abbrev joining : Runtime
joining = world TaskState.waiting_join empty_channel (some_handle (1 ∷ 2 ∷ []))

-- tasks 1 and 2 wait to send
abbrev sending : Runtime
sending = world TaskState.waiting_chan (record empty_channel { send = 1 ∷ 2 ∷ [] }) (some_handle [])

handle_complete-wakes_example :
    (length ((handle_complete joining 0 true).handle 0).joiners ≡ 0)
    × ((u : ℕ)
        → has u (1 ∷ 2 ∷ []) ≡ true
        → IsWoken Code.err_cancelled ((handle_complete joining 0 true).task u))
handle_complete-wakes_example = handle_complete-wakes joining 0 true refl

cancel_join-miscounts_example :
    let after = task_wake_for_cancel joining 1 in
    (after.join_waiting_count ≡ 0) × (length (after.handle 0).joiners + 1 ≡ 2)
cancel_join-miscounts_example = cancel_join-miscounts joining 1 0 refl refl refl

cancel_channel-miscounts_example :
    let after = task_wake_for_cancel sending 1 in
    (after.channel_waiting_count ≡ 0) × (length (after.chan 0).send + 1 ≡ 2)
cancel_channel-miscounts_example = cancel_channel-miscounts sending 1 0 refl refl refl refl

joining-IsCounted : IsCounted joining
joining-IsCounted = record { distinct = (refl, tt); counted = refl; listed = λ w h. ground arith }

deactivate-IsCounted_example : IsCounted (fd_waiter_deactivate joining 4 true).1
deactivate-IsCounted_example = deactivate-IsCounted joining 4 true joining-IsCounted

after_switch-status_example :
    (task_status joining (some 0) (some 5)).1 ≡ some ((after_switch joining 1).handle 0).status
after_switch-status_example = after_switch-status joining 1 0 5 tt refl refl refl

-- tasks 1 and 2 wait to send on a full channel
abbrev blocked : Runtime
blocked =
    world TaskState.waiting_chan
      (record (channel ((1 ∷ []) ∷ (2 ∷ []) ∷ []) 2 0) { send = 1 ∷ 2 ∷ [] }) (some_handle [])

blocked-AllStable : AllStable blocked
blocked-AllStable c = ground arith
