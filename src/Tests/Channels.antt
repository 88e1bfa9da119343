-- ===== src/Tests/Channels.antt =====
-- The theorems on channels and selects at concrete runtimes.
use microthread.Base.{
  ◌≡◌, none, ◌==◌, if◌then◌else◌, ◌<◌, refl, true, some, List, [], ◌∷◌, arith, length,
}
use microthread.State.{Code, TaskState, op_recv, op_send, Chan, Runtime}
use microthread.Chan.{recv_now}
use microthread.Chan.Ring.{IsRing}
use microthread.Chan.Stable.{AllStable}
use microthread.Chan.Ops.{chan_try_send, chan_try_recv, chan_close}
use microthread.Chan.Close.{Closed, close-Closed}
use microthread.Chan.Pending.{OffersElsewhere}
use microthread.Chan.Refill.{IsPlain}
use microthread.Chan.Receive.{Received, try_recv-Received}
use microthread.Select.{SelectCase, Plan, select}
use microthread.Select.Unready.{AllBlocked}
use microthread.Select.Parks.{select-parks}
use microthread.Chan.Selected.{IsOwned}
use microthread.Select.Race.{receive_case, IsQuiet, select-race}
use microthread.Tests.{channel, empty_channel, one_channel, some_handle, some_task, world}

abbrev quiet : Runtime
quiet = world TaskState.running empty_channel (some_handle [])

abbrev holding : Runtime
holding = world TaskState.running one_channel (some_handle [])

quiet-AllStable : AllStable quiet
quiet-AllStable c = ground arith

holding-AllStable : AllStable holding
holding-AllStable c = ground arith

-- the task 1 waits to send, and the task 3 selects to send with the waiter 5
abbrev crowded : Runtime
crowded = record holding {
  chan =
      λ c. record (channel ((7 ∷ []) ∷ (8 ∷ []) ∷ []) 2 0) { send = 1 ∷ []; select_send = 5 ∷ [] };
  task = λ t. record (some_task (TaskState.waiting_select)) {
    select_waiters = if t == 3 then 5 ∷ [] else [];
    select_waiter_count = if t == 3 then 1 else 0;
  };
  waiter = λ w. record {
    task = some 3;
    ch = some 0;
    op = op_send;
    value = some 6;
    index = 0;
    active = w == 5;
  };
}

crowded-IsOwned : IsOwned crowded
crowded-IsOwned t w h = ground (arith, h)

close-Closed_example :
    ((chan_close crowded (some 0)).0 ≡ Code.ok) × Closed crowded (chan_close crowded (some 0)).1 0
close-Closed_example = close-Closed crowded 0 refl crowded-IsOwned

abbrev cases : List SelectCase
cases = receive_case 0 5 ∷ record { op = op_recv; ch = some 3; value = some 6; timeout_ms = 0 } ∷ []

-- both cases are on a channel
abbrev plain_plan : Plan
plain_plan = record {
  default_index = none;
  timeout_index = none;
  timeout_ms = 0;
  channel_cases = 2;
}

select-parks_example :
    AllBlocked quiet cases
    × (plain_plan.default_index ≡ none)
    × (((select (λ i. some i) (λ n. true) 100 (λ r. r) quiet cases).1.task 1).state
        ≡ TaskState.waiting_select)
unfolding select chan_try_recv recv_now
select-parks_example =
    select-parks (λ i. some i) (λ n. true) 100 (λ r. r) quiet cases plain_plan 1 refl refl refl

empty_channel-IsQuiet : IsQuiet empty_channel
empty_channel-IsQuiet = record {
  open_ = refl;
  empty = refl;
  room = omega arith;
  send = refl;
  recv = refl;
  select_send = refl;
  select_recv = refl;
}

select-race_example :
    let after =
      (select
        (λ i. some i)
        (λ n. true)
        100
        (λ r. (chan_try_send r (some 0) (some 6)).1)
        quiet
        (receive_case 0 5 ∷ [])).1 in
    (0 < (after.chan 0).len) × (0 < length (after.chan 0).select_recv)
select-race_example =
    select-race (λ i. some i) (λ n. true) 100 quiet 0 5 6 1 0 refl refl empty_channel-IsQuiet

one-IsRing : IsRing one_channel
one-IsRing = record { fits = omega arith; slots = refl; head = λ h. omega arith; tail = λ h. refl }

-- a full channel, on which the task 2 waits to send
abbrev full_channel : Chan
full_channel = record (channel ((7 ∷ []) ∷ (8 ∷ []) ∷ []) 2 0) { send = 2 ∷ [] }

abbrev full : Runtime
full = world TaskState.waiting_chan full_channel (some_handle [])

full-IsRing : IsRing full_channel
full-IsRing = record { fits = omega arith; slots = refl; head = λ h. omega arith; tail = λ h. refl }

full-IsPlain : IsPlain full_channel
full-IsPlain = record { ring = full-IsRing; distinct = (refl, tt); no_selects = refl }

full-Elsewhere : OffersElsewhere full 0 6
full-Elsewhere t h e = cc

try_recv-Received_example :
    let (rc, after) = chan_try_recv full (some 0) (some 6) in Received full after 0 6 rc
try_recv-Received_example = try_recv-Received full 0 6 full-IsPlain refl full-Elsewhere
