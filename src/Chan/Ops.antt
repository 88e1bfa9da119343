-- ===== src/Chan/Ops.antt =====
-- The public channel operations of src/channel.c. A task that parks switches to the scheduler with
-- the lock held; when it resumes, the call returns the `chan_result` of its task.
use microthread.Base.{
  Option, List, ℕ, zero, suc, ◌/◌, ◌-◌, Bool, true, false, none, some, [], ◌∷◌, ◌&&◌, ◌||◌, ltb,
  ◌==◌, if◌then◌else◌, length, erase,
}
use microthread.State.{Elem, Ptr, word_mod, Code, wait_send, wait_recv, Chan, Runtime}
use microthread.Transitions.{set_chan, block_on_channel, complete_channel_wait}
use microthread.SelectWait.{complete_waiter}
use microthread.Queue.Fifo
use microthread.Chan.{pop_send, pop_recv, pop_select_send, pop_select_recv, send_now, recv_now}

-- A call returns a code, or parks the calling task.
pub data Outcome : Type 0 where
  returned : Code → Outcome
  parked : Outcome

unfoldable pub chan_try_send : Runtime → Ptr → Ptr → Code × Runtime
chan_try_send rt none value = (Code.err_invalid, rt)
chan_try_send rt (some c) none = (Code.err_invalid, rt)
chan_try_send rt (some c) (some p) =
    if (rt.chan c).closed
    then (Code.err_closed, rt)
    else elim (send_now rt c p) [ some done ↦ (Code.ok, done) | none ↦ (Code.err_would_block, rt) ]

unfoldable pub chan_try_recv : Runtime → Ptr → Ptr → Code × Runtime
chan_try_recv rt none out = (Code.err_invalid, rt)
chan_try_recv rt (some c) none = (Code.err_invalid, rt)
chan_try_recv rt (some c) (some p) = elim (recv_now rt c p) [
  | some (rc, done) ↦ (rc, done)
  | none ↦ (if (rt.chan c).closed then Code.err_closed else Code.err_would_block, rt)
]

-- the end of mt_chan_send: the current task waits, last in the queue
unfoldable pub park_send : Runtime → ℕ → ℕ → Outcome × Runtime
park_send rt c p = elim rt.current [
  | none ↦ (returned Code.err_state, rt)
  | some t ↦
      let blocked = block_on_channel rt t c wait_send (some p) in
      (
        parked,
        set_chan blocked c (record (blocked.chan c) { send = Fifo.push (blocked.chan c).send t }),
      )
]

unfoldable pub park_recv : Runtime → ℕ → ℕ → Outcome × Runtime
park_recv rt c p = elim rt.current [
  | none ↦ (returned Code.err_state, rt)
  | some t ↦
      let blocked = block_on_channel rt t c wait_recv (some p) in
      (
        parked,
        set_chan blocked c (record (blocked.chan c) { recv = Fifo.push (blocked.chan c).recv t }),
      )
]

unfoldable pub chan_send : Runtime → Ptr → Ptr → Outcome × Runtime
unfolding park_send
chan_send rt none value = (returned Code.err_invalid, rt)
chan_send rt (some c) none = (returned Code.err_invalid, rt)
chan_send rt (some c) (some p) =
    if (rt.chan c).closed
    then (returned Code.err_closed, rt)
    else elim (send_now rt c p) [ some done ↦ (returned Code.ok, done) | none ↦ park_send rt c p ]

unfoldable pub chan_recv : Runtime → Ptr → Ptr → Outcome × Runtime
unfolding park_recv
chan_recv rt none out = (returned Code.err_invalid, rt)
chan_recv rt (some c) none = (returned Code.err_invalid, rt)
chan_recv rt (some c) (some p) = elim (recv_now rt c p) [
  | some (rc, done) ↦ (returned rc, done)
  | none ↦ if (rt.chan c).closed then (returned Code.err_closed, rt) else park_recv rt c p
]

-- `while ((x = pop(queue)) != NULL) end(x);` on fuel. The queue is read again in each round, since
-- the end of a select takes the other waiters of that task out of the queues too.
unfoldable pub drain : (Chan → List ℕ) → (Runtime → ℕ → ℕ → Runtime) → ℕ → Runtime → ℕ → Runtime
drain queue end_one zero rt c = rt
drain queue end_one (suc k) rt c = elim (Fifo.first (queue (rt.chan c))) [
  | none ↦ rt
  | some x ↦ drain queue end_one k (end_one rt c x) c
]

abbrev pub end_send : Runtime → ℕ → ℕ → Runtime
end_send rt c t = complete_channel_wait (pop_send rt c) t Code.err_closed

abbrev pub end_recv : Runtime → ℕ → ℕ → Runtime
end_recv rt c t = complete_channel_wait (pop_recv rt c) t Code.err_closed

abbrev pub end_select_send : Runtime → ℕ → ℕ → Runtime
end_select_send rt c w = complete_waiter (pop_select_send rt c w) w Code.err_closed

abbrev pub end_select_recv : Runtime → ℕ → ℕ → Runtime
end_select_recv rt c w = complete_waiter (pop_select_recv rt c w) w Code.err_closed

abbrev pub drain_all : (Chan → List ℕ) → (Runtime → ℕ → ℕ → Runtime) → Runtime → ℕ → Runtime
drain_all queue end_one rt c = drain queue end_one (length (queue (rt.chan c))) rt c

unfoldable pub wake_closed_waiters : Runtime → ℕ → Runtime
unfolding drain
wake_closed_waiters rt c =
    let a = drain_all (λ ch. ch.send) end_send rt c in
    let b = drain_all (λ ch. ch.recv) end_recv a c in
    let d = drain_all (λ ch. ch.select_send) end_select_send b c in
    drain_all (λ ch. ch.select_recv) end_select_recv d c

unfoldable pub chan_close : Runtime → Ptr → Code × Runtime
unfolding wake_closed_waiters
chan_close rt none = (Code.err_invalid, rt)
chan_close rt (some c) =
    if (rt.chan c).closed
    then (Code.err_closed, rt)
    else (Code.ok, wake_closed_waiters (set_chan rt c (record (rt.chan c) { closed = true })) c)

-- `memset(ch, 0, sizeof(*ch))`
abbrev pub zeroed : Chan
zeroed = record {
  elem_size = 0;
  capacity = 0;
  len = 0;
  head = 0;
  tail = 0;
  buffer = [];
  closed = false;
  send = [];
  recv = [];
  select_send = [];
  select_recv = [];
}

-- mt_chan_unregister, the `memset` and the release of the memory
unfoldable pub discard : Runtime → ℕ → Runtime
discard rt c = record (set_chan rt c zeroed) { channels = erase c rt.channels }

unfoldable pub chan_destroy : Runtime → Ptr → Code × Runtime
unfolding wake_closed_waiters discard
chan_destroy rt none = (Code.err_invalid, rt)
chan_destroy rt (some c) =
    let ch = rt.chan c in
    let woken = wake_closed_waiters (set_chan rt c (record ch { closed = true })) c in
    if ltb 0 (length ch.send) || ltb 0 (length ch.recv) then (Code.err_state, rt) else (
      Code.ok,
      discard (if ltb 0 (length ch.select_send) || ltb 0 (length ch.select_recv) then woken else rt)
          c,
    )

-- What the allocator returns is an argument: the address of the object, and for a number of slots a
-- buffer with whatever it holds. mt_init has been called.
unfoldable pub chan_create : Ptr → (ℕ → Option (List Elem)) → Runtime → ℕ → ℕ → Ptr × Runtime
chan_create address memory rt elem_size capacity =
    let made = λ (c : ℕ) (buffer : List Elem).
      record (set_chan rt c
        (record zeroed { elem_size = elem_size; capacity = capacity; buffer = buffer })) {
          channels = c ∷ rt.channels;
        } in
    if elem_size == 0 || ltb 0 capacity && ltb ((word_mod - 1) / capacity) elem_size
    then (none, rt)
    else elim address [
      | none ↦ (none, rt)
      | some c ↦ elim (if ltb 0 capacity then memory capacity else some []) [
        | none ↦ (none, rt)
        | some buffer ↦ (some c, made c buffer)
      ]
    ]

-- Of a NULL channel these are 0.
unfoldable pub chan_len : Runtime → Ptr → ℕ
chan_len rt none = 0
chan_len rt (some c) = (rt.chan c).len

unfoldable pub chan_capacity : Runtime → Ptr → ℕ
chan_capacity rt none = 0
chan_capacity rt (some c) = (rt.chan c).capacity

unfoldable pub chan_is_closed : Runtime → Ptr → Bool
chan_is_closed rt none = false
chan_is_closed rt (some c) = (rt.chan c).closed
