-- ===== src/Transitions.antt =====
-- src/task_state.c, and mt_runq_push and mt_notify_one with the runtime's counters.
use microthread.Base.{ℕ, ◌+◌, ◌-◌, true, false, none, some, ltb, if◌then◌else◌, update}
use microthread.State.{
  Ptr, Code, TaskState, ChanWaitKind, Task, SelectWaiter, Handle, Chan, Runtime,
}
use microthread.Queue.Fifo

-- Writes of one object.
abbrev pub set_task : Runtime → ℕ → Task → Runtime
set_task rt t x = record rt { task = update rt.task t x }

abbrev pub set_chan : Runtime → ℕ → Chan → Runtime
set_chan rt c x = record rt { chan = update rt.chan c x }

abbrev pub set_handle : Runtime → ℕ → Handle → Runtime
set_handle rt h x = record rt { handle = update rt.handle h x }

abbrev pub set_waiter : Runtime → ℕ → SelectWaiter → Runtime
set_waiter rt w x = record rt { waiter = update rt.waiter w x }

-- `if (n > 0) n--;`
abbrev pub guarded_dec : ℕ → ℕ
guarded_dec n = if ltb 0 n then n - 1 else n

-- mt_notify_one and mt_notify_all: nothing before the runtime is initialised.
unfoldable pub notify : Runtime → Runtime
notify rt = if rt.initialized then record rt { signals = rt.signals + 1 } else rt

unfoldable pub runq_push : Runtime → ℕ → Runtime
unfolding notify
runq_push rt t = notify (record rt { runq = Fifo.push rt.runq t })

unfoldable pub mark_ready : Runtime → ℕ → Runtime
unfolding runq_push
mark_ready rt t = runq_push (set_task rt t (record (rt.task t) { state = TaskState.ready })) t

unfoldable pub mark_running : Runtime → ℕ → Runtime
mark_running rt t = set_task rt t (record (rt.task t) { state = TaskState.running })

unfoldable pub mark_dead : Runtime → ℕ → Runtime
mark_dead rt t = set_task rt t (record (rt.task t) { state = TaskState.dead })

unfoldable pub block_on_channel : Runtime → ℕ → ℕ → ChanWaitKind → Ptr → Runtime
block_on_channel rt t c kind value =
    record (set_task rt t (record (rt.task t) {
      chan_wait_kind = kind;
      chan_wait_ch = some c;
      chan_value = value;
      chan_result = Code.ok;
      state = TaskState.waiting_chan;
    })) { channel_waiting_count = rt.channel_waiting_count + 1 }

unfoldable pub complete_channel_wait : Runtime → ℕ → Code → Runtime
unfolding mark_ready
complete_channel_wait rt t result =
    mark_ready
      (record (set_task rt t (record (rt.task t) {
        chan_result = result;
        chan_wait_kind = ChanWaitKind.wait_none;
        chan_wait_ch = none;
        chan_value = none;
      })) { channel_waiting_count = guarded_dec rt.channel_waiting_count })
      t

unfoldable pub clear_channel_wait : Runtime → ℕ → Runtime
clear_channel_wait rt t = set_task rt t (record (rt.task t) {
  chan_wait_kind = ChanWaitKind.wait_none;
  chan_wait_ch = none;
  chan_value = none;
})

unfoldable pub block_on_select : Runtime → ℕ → Runtime
block_on_select rt t =
    let parked = record (rt.task t) { state = TaskState.waiting_select } in
    if (rt.task t).select_counted_waiting
    then set_task rt t parked
    else record (set_task rt t (record parked { select_counted_waiting = true })) {
      channel_waiting_count = rt.channel_waiting_count + 1;
    }

unfoldable pub complete_select_wait : Runtime → ℕ → Runtime
complete_select_wait rt t =
    if (rt.task t).select_counted_waiting
    then record (set_task rt t (record (rt.task t) { select_counted_waiting = false })) {
      channel_waiting_count = guarded_dec rt.channel_waiting_count;
    }
    else rt

unfoldable pub block_on_join : Runtime → ℕ → ℕ → Runtime
block_on_join rt t h =
    record (set_task rt t (record (rt.task t) {
      join_waiting_on = some h;
      join_result = Code.ok;
      state = TaskState.waiting_join;
    })) { join_waiting_count = rt.join_waiting_count + 1 }

unfoldable pub complete_join_wait : Runtime → ℕ → Code → Runtime
unfolding mark_ready
complete_join_wait rt t result =
    mark_ready
      (record (set_task rt t
        (record (rt.task t) { join_result = result; join_waiting_on = none })) {
          join_waiting_count = guarded_dec rt.join_waiting_count;
        })
      t
