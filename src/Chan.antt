-- ===== src/Chan.antt =====
-- src/channel.c: the ring buffer, and what a send and a receive do at once.
pub mod Ring
pub mod Ops
pub mod Frame
pub mod Woken
pub mod Selected
pub mod Hanging
pub mod Stable
pub mod Now
pub mod Live
pub mod Drain
pub mod Waking
pub mod Ending
pub mod Close
pub mod Pending
pub mod Refill
pub mod Receive
pub mod Send
use microthread.Base.{
  ℕ, ◌+◌, ◌-◌, ◌%◌, Bool, true, false, Option, none, some, List, [], ◌∷◌, ◌&&◌, ltb, leb, ◌==◌,
  ◌||◌, if◌then◌else◌, get_or, set, update,
}
use microthread.State.{Ptr, Elem, Code, Chan, Runtime}
use microthread.Transitions.{set_chan, set_waiter, complete_channel_wait}
use microthread.SelectWait.{complete_waiter}
use microthread.Queue.Fifo

-- `memcpy(ch->buffer + ch->tail * ch->elem_size, value, ch->elem_size)` writes the element `tail`.
unfoldable pub buffer_push : Chan → Elem → Chan
buffer_push ch v = record ch {
  buffer = set ch.buffer ch.tail v;
  tail = (ch.tail + 1) % ch.capacity;
  len = ch.len + 1;
}

unfoldable pub buffer_pop : Chan → Elem × Chan
buffer_pop ch = (
  get_or ch.buffer ch.head [],
  record ch { head = (ch.head + 1) % ch.capacity; len = ch.len - 1 },
)

-- The element at an address. C leaves an access through NULL undefined; a task never waits with it.
unfoldable pub load : Runtime → Ptr → Elem
load rt none = []
load rt (some p) = rt.mem p

unfoldable pub store : Runtime → Ptr → Elem → Runtime
store rt none v = rt
store rt (some p) v = record rt { mem = update rt.mem p v }

-- mt_chan_waitq_pop and mt_select_waitq_pop on a queue whose first member is known
abbrev pub pop_send : Runtime → ℕ → Runtime
pop_send rt c = set_chan rt c (record (rt.chan c) { send = Fifo.rest (rt.chan c).send })

abbrev pub pop_recv : Runtime → ℕ → Runtime
pop_recv rt c = set_chan rt c (record (rt.chan c) { recv = Fifo.rest (rt.chan c).recv })

abbrev pub pop_select_send : Runtime → ℕ → ℕ → Runtime
pop_select_send rt c w =
    set_waiter
      (set_chan rt c (record (rt.chan c) { select_send = Fifo.rest (rt.chan c).select_send })) w
      (record (rt.waiter w) { active = false })

abbrev pub pop_select_recv : Runtime → ℕ → ℕ → Runtime
pop_select_recv rt c w =
    set_waiter
      (set_chan rt c (record (rt.chan c) { select_recv = Fifo.rest (rt.chan c).select_recv })) w
      (record (rt.waiter w) { active = false })

-- the effect of mt_chan_buffer_push on the channel at `c`
abbrev pub push_at : Runtime → ℕ → Elem → Runtime
push_at rt c v = set_chan rt c (buffer_push (rt.chan c) v)

-- the longest waiting sender fills the free slot
unfoldable pub fill_slot : Runtime → ℕ → Runtime
unfolding load
fill_slot rt c = elim (Fifo.first (rt.chan c).send) [
  | some t ↦
      complete_channel_wait (push_at (pop_send rt c) c (load rt (rt.task t).chan_value)) t Code.ok
  | none ↦ elim (Fifo.first (rt.chan c).select_send) [
    | some w ↦
        complete_waiter (push_at (pop_select_send rt c w) c (load rt (rt.waiter w).value)) w Code.ok
    | none ↦ rt
  ]
]

unfoldable pub fill_buffer_from_waiting_sender : Runtime → ℕ → Runtime
unfolding fill_slot
fill_buffer_from_waiting_sender rt c =
    let ch = rt.chan c in
    if ch.closed || (ch.capacity == 0 || leb ch.capacity ch.len) then rt else fill_slot rt c

-- What mt_chan_send and mt_chan_try_send do on an open channel before they would wait: hand the
-- element to a waiting receiver, to a waiting select, or to the buffer. `none`: they would wait.
unfoldable pub send_now : Runtime → ℕ → ℕ → Option Runtime
unfolding store
send_now rt c p =
    let ch = rt.chan c in
    elim (Fifo.first ch.recv) [
      | some t ↦
          let popped = pop_recv rt c in
          some (complete_channel_wait (store popped (rt.task t).chan_value (rt.mem p)) t Code.ok)
      | none ↦ elim (Fifo.first ch.select_recv) [
        | some w ↦
            let popped = pop_select_recv rt c w in
            some (complete_waiter (store popped (rt.waiter w).value (rt.mem p)) w Code.ok)
        | none ↦
            if ltb 0 ch.capacity && ltb ch.len ch.capacity
            then some (push_at rt c (rt.mem p))
            else none
      ]
    ]

-- a receive from the buffer
unfoldable pub recv_buffered : Runtime → ℕ → ℕ → Runtime
unfolding store fill_buffer_from_waiting_sender
recv_buffered rt c out =
    let (v, taken) = buffer_pop (rt.chan c) in
    fill_buffer_from_waiting_sender (store (set_chan rt c taken) (some out) v) c

-- a receive that meets a blocked sender or a select that sends; `none`: there is none
unfoldable pub recv_waiting : Runtime → ℕ → ℕ → Option (Code × Runtime)
unfolding load store
recv_waiting rt c out = elim (Fifo.first (rt.chan c).send) [
  | some t ↦
      let popped = pop_send rt c in
      some (
        if (rt.chan c).closed
        then (Code.err_closed, complete_channel_wait popped t Code.err_closed)
        else (
          Code.ok,
          complete_channel_wait (store popped (some out) (load rt (rt.task t).chan_value)) t
              Code.ok,
        ))
  | none ↦ elim (Fifo.first (rt.chan c).select_send) [
    | some w ↦
        let popped = pop_select_send rt c w in
        some (
          if (rt.chan c).closed
          then (Code.err_closed, complete_waiter popped w Code.err_closed)
          else (
            Code.ok,
            complete_waiter (store popped (some out) (load rt (rt.waiter w).value)) w Code.ok,
          ))
    | none ↦ none
  ]
]

-- What mt_chan_recv and mt_chan_try_recv do before they look at `closed` alone or would wait.
unfoldable pub recv_now : Runtime → ℕ → ℕ → Option (Code × Runtime)
unfolding recv_buffered recv_waiting
recv_now rt c out =
    if ltb 0 (rt.chan c).len then some (Code.ok, recv_buffered rt c out) else recv_waiting rt c out
