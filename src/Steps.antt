-- ===== src/Steps.antt =====
-- The runtime as a whole: what its tasks and its workers do, one operation under the lock at a time, in
-- any order. What the operating system gives stands with each step.
pub mod Frame
pub mod Made
pub mod Stability
use microthread.Base.{ℕ, Bool, Option, List}
use microthread.State.{Ptr, Elem, Code, Events, Runtime}
use microthread.Chan.Ops.{
  chan_try_send, chan_try_recv, chan_send, chan_recv, chan_close, chan_create, chan_destroy,
}
use microthread.Select.{SelectCase, select}
use microthread.Join.{join, task_cancel, task_handle_release}
use microthread.Fd.{fd_ready_waiter}
use microthread.FdApi.{PollResult, fd_wait, fd_close}
use microthread.Scheduler.{after_switch, worker_round, yield, sleep_ms}
use microthread.Create.{Held, Supply, create_task}

mutual
  -- Between the locked parts of a select and of a close of a descriptor no other worker comes.
  -- During a poll others do: `polled` is a sequence of steps.
  pub data Step : Runtime → Runtime → Type 0 where
    try_send : {rt : Runtime} (ch value : Ptr) → Step rt (chan_try_send rt ch value).1
    try_recv : {rt : Runtime} (ch out : Ptr) → Step rt (chan_try_recv rt ch out).1
    send : {rt : Runtime} (ch value : Ptr) → Step rt (chan_send rt ch value).1
    recv : {rt : Runtime} (ch out : Ptr) → Step rt (chan_recv rt ch out).1
    close : {rt : Runtime} (ch : Ptr) → Step rt (chan_close rt ch).1
    create_channel :
        {rt : Runtime} (address : Ptr) (memory : ℕ → Option (List Elem)) (elem_size capacity : ℕ)
        → Step rt (chan_create address memory rt elem_size capacity).1
    destroy : {rt : Runtime} (ch : Ptr) → Step rt (chan_destroy rt ch).1
    choose :
        {rt : Runtime} (fresh : ℕ → Ptr) (allocates : ℕ → Bool) (now : ℕ) (cases : List SelectCase)
        → Step rt (select fresh allocates now (λ r. r) rt cases).1
    create :
        {rt : Runtime} (os : Supply) (held : Held) (fn : Ptr) (stack_size : ℕ) (want_handle : Bool)
        → Step rt (create_task os (rt, held) fn stack_size want_handle).1.0
    wait_for : {rt : Runtime} (handle : Ptr) → Step rt (join rt handle).1
    cancel : {rt : Runtime} (handle : Ptr) → Step rt (task_cancel rt handle).1
    release : {rt : Runtime} (handle : Ptr) → Step rt (task_handle_release rt handle)
    give_way : {rt : Runtime} → Step rt (yield rt)
    sleep :
        {rt : Runtime} (allocates : ℕ → Bool) (now ms : ℕ)
        → Step rt (sleep_ms allocates now rt ms).1
    wait_fd :
        {rt : Runtime} (allocates : Bool) (fresh : Ptr) (registered : Code) (heap_grows : ℕ → Bool)
        (now : ℕ) (polled : PollResult) (fd : Option ℕ) (events : Events) (ms : ℕ)
        → Step rt (fd_wait allocates fresh registered heap_grows now polled rt fd events ms).1
    close_fd :
        {rt : Runtime} (allocates : Bool) (closed : Code) (fd : Option ℕ)
        → Step rt (fd_close allocates closed (λ r. r) rt fd).1
    fd_ready :
        {rt : Runtime} (waiter : ℕ) (result : Code) (events : Events)
        → Step rt (fd_ready_waiter rt waiter result events)
    switched : {rt : Runtime} (task : ℕ) → Step rt (after_switch rt task)
    round :
        {rt : Runtime} (sleeps : Bool) (polled : Runtime → Runtime)
        (now now_for_poll now_for_wait : ℕ)
        → ((r : Runtime) → Reach r (polled r))
        → Step rt (worker_round sleeps polled (now, now_for_poll, now_for_wait) rt).1

  -- one step after the other
  pub data Reach : Runtime → Runtime → Type 0 where
    here : {rt : Runtime} → Reach rt rt
    next : {a b c : Runtime} → Reach a b → Step b c → Reach a c
