-- ===== src/Steps/Stability.antt =====
-- The states that the runtime can reach.
use microthread.State.{Runtime}
use microthread.Chan.Stable.{AllStable, chan_eq-Stable}
use microthread.Chan.Live.{try_send-Stable, try_recv-Stable, send-Stable, recv-Stable}
use microthread.Chan.Close.{close-Stable, destroy-Stable}
use microthread.Select.Live.{select-Stable}
use microthread.Join.Live.{cancel-Stable, chan-fd_ready_waiter}
use microthread.Join.{join, task_handle_release}
use microthread.Fd.{fd_ready_waiter}
use microthread.FdApi.{fd_wait, fd_close}
use microthread.Scheduler.{yield, sleep_ms}
use microthread.Scheduler.Live.{after_switch-Stable, worker_round-Stable}
use microthread.Create.{create_task}
use microthread.Steps.Frame.{
  chan-release, chan-join, chan-yield, chan-sleep, chan-fd_close, chan-fd_wait,
}
use microthread.Steps.Made.{chan-create_task, create_channel-Stable}
use microthread.Steps.{
  Step, try_send, try_recv, send, recv, close, create_channel, destroy, choose, create, wait_for,
  cancel, release, give_way, sleep, wait_fd, close_fd, fd_ready, switched, round, Reach, here, next,
}

mutual
  kept_by_step : {a b : Runtime} → Step a b → AllStable a → AllStable b
  kept_by_step (try_send {rt} ch value) s = try_send-Stable rt ch value s
  kept_by_step (try_recv {rt} ch out) s = try_recv-Stable rt ch out s
  kept_by_step (send {rt} ch value) s = send-Stable rt ch value s
  kept_by_step (recv {rt} ch out) s = recv-Stable rt ch out s
  kept_by_step (close {rt} ch) s = close-Stable rt ch s
  kept_by_step (create_channel {rt} address memory elem_size capacity) s =
      create_channel-Stable address memory rt elem_size capacity s
  kept_by_step (destroy {rt} ch) s = destroy-Stable rt ch s
  kept_by_step (choose {rt} fresh allocates now cases) s =
      select-Stable fresh allocates now rt cases s
  kept_by_step (create {rt} os held fn stack_size want_handle) s =
      chan_eq-Stable rt (create_task os (rt, held) fn stack_size want_handle).1.0
        (chan-create_task os (rt, held) fn stack_size want_handle) s
  kept_by_step (wait_for {rt} handle) s =
      chan_eq-Stable rt (join rt handle).1 (chan-join rt handle) s
  kept_by_step (cancel {rt} handle) s = cancel-Stable rt handle s
  kept_by_step (release {rt} handle) s =
      chan_eq-Stable rt (task_handle_release rt handle) (chan-release rt handle) s
  kept_by_step (give_way {rt}) s = chan_eq-Stable rt (yield rt) (chan-yield rt) s
  kept_by_step (sleep {rt} allocates now ms) s =
      chan_eq-Stable rt (sleep_ms allocates now rt ms).1 (chan-sleep allocates now rt ms) s
  kept_by_step (wait_fd {rt} allocates fresh registered heap_grows now polled fd events ms) s =
      chan_eq-Stable rt (fd_wait allocates fresh registered heap_grows now polled rt fd events ms).1
        (chan-fd_wait allocates fresh registered heap_grows now polled rt fd events ms) s
  kept_by_step (close_fd {rt} allocates closed fd) s =
      chan_eq-Stable rt (fd_close allocates closed (λ r. r) rt fd).1
        (chan-fd_close allocates closed rt fd) s
  kept_by_step (fd_ready {rt} waiter result events) s =
      chan_eq-Stable rt (fd_ready_waiter rt waiter result events)
        (chan-fd_ready_waiter rt waiter result events) s
  kept_by_step (switched {rt} task) s = after_switch-Stable rt task s
  kept_by_step (round {rt} sleeps polled now now_for_poll now_for_wait polls) s =
      worker_round-Stable sleeps polled now now_for_poll now_for_wait rt
        (λ r kept. kept_by_steps (polls r) kept) s

  kept_by_steps : {a b : Runtime} → Reach a b → AllStable a → AllStable b
  kept_by_steps here s = s
  kept_by_steps (next r st) s = kept_by_step st (kept_by_steps r s)

-- From a state in which every channel is stable, any sequence of steps, of the calls on channels, of
-- selects, creations, joins, cancels, sleeps and waits on descriptors, and of the workers' rounds and
-- switches, in any order, leads to a state in which every channel is stable, where no other worker
-- comes between the locked parts of a select or of a close of a descriptor. Stable means: a
-- task that waits to receive, in a call or in a select, finds no element and no call that waits to send,
-- and one in a call finds no select that waits to send; a task that waits to send, in a call or in a
-- select, finds no room; and nobody waits on a closed channel. Two selects that wait opposite each
-- other on an unbuffered channel are not excluded.
pub Reach-Stable : {a b : Runtime} → Reach a b → AllStable a → AllStable b
Reach-Stable r s = kept_by_steps r s
