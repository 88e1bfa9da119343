-- ===== src/Chan/Send.antt =====
-- What a send adds to what the channel has to give.
use microthread.Base.{ℕ, ◌<◌, ◌≤◌, ◌≡◌, none, some, List, [], ◌∷◌, ◌++◌}
use microthread.State.{Elem, Code, TaskState, Chan, Runtime}
use microthread.Queue.Fifo
use microthread.Chan.Ops.{Outcome, returned, parked}
use microthread.Chan.Woken.{IsWoken}
use microthread.Chan.Stable.{Stable}
use microthread.Chan.Pending.{pending}

-- What a send on an open channel does, by the outcome. Where tasks wait to receive, it hands the
-- element to the one that has waited longest, which leaves the queue and is woken, while nothing is
-- pending. Where nobody does, the buffer takes the element while it has room, behind all that is pending;
-- or the caller waits with it, last in the queue, where there is none; or no task calls, and nothing
-- changes.
pub data Sent (before after : Runtime) (c : ℕ) (v : Elem) : Outcome → Type 0 where
  handed :
      (t : ℕ)
      → Fifo.first (before.chan c).recv ≡ some t
      → (after.chan c).recv ≡ Fifo.rest (before.chan c).recv
      → IsWoken Code.ok after t
      → ((q : ℕ) → (before.task t).chan_value ≡ some q → after.mem q ≡ v)
      → pending before c ≡ []
      → pending after c ≡ []
      → Sent before after c v (returned Code.ok)
  buffered :
      Fifo.first (before.chan c).recv ≡ none
      → (before.chan c).len < (before.chan c).capacity
      → pending after c ≡ pending before c ++ v ∷ []
      → Sent before after c v (returned Code.ok)
  waits :
      (t : ℕ)
      → before.current ≡ some t
      → Fifo.first (before.chan c).recv ≡ none
      → (before.chan c).capacity ≤ (before.chan c).len
      → (after.chan c).send ≡ (before.chan c).send ++ t ∷ []
      → (after.task t).state ≡ TaskState.waiting_chan
      → pending after c ≡ pending before c ++ v ∷ []
      → Sent before after c v parked
  outside : before.current ≡ none → after ≡ before → Sent before after c v (returned Code.err_state)
