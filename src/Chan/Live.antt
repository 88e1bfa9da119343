-- ===== src/Chan/Live.antt =====
-- The sends and receives of src/channel.c, and the stable states of the channels.
use microthread.Base.{
  ℕ, ◌≡◌, inl, inr, false, none, some, [], ◌∷◌, arith, length, length-append, Option-cases,
  Bool-cases, if_both,
}
use microthread.State.{Ptr, Code, Runtime}
use microthread.Transitions.{block_on_channel}
use microthread.Queue.Fifo
use microthread.Chan.{send_now, recv_now, recv_waiting}
use microthread.Chan.Stable.{AllStable, set_chan-Stable, length_of_none}
use microthread.Chan.Now.{send_now-Stable, recv_now-Stable}
use microthread.Chan.Ops.{chan_try_send, chan_try_recv, park_send, park_recv, chan_send, chan_recv}

-- Where every channel is stable, a nonblocking send leaves every channel stable, whatever it
-- returns.
pub try_send-Stable :
    (rt : Runtime) (ch value : Ptr) → AllStable rt → AllStable (chan_try_send rt ch value).1
unfolding chan_try_send
try_send-Stable rt none value s = s
try_send-Stable rt (some c) none s = s
try_send-Stable rt (some c) (some p) s =
    if_both (λ (r : Code × Runtime). AllStable r.1) (rt.chan c).closed s
      (elim (Option-cases (send_now rt c p)) [
        | inl e ↦ rw (e, chan_try_send) s
        | inr (r, e) ↦ rw (e, chan_try_send) (rw e at (send_now-Stable rt c p s))
      ])

-- Where every channel is stable, a nonblocking receive leaves every channel stable, whatever it
-- returns.
pub try_recv-Stable :
    (rt : Runtime) (ch out : Ptr) → AllStable rt → AllStable (chan_try_recv rt ch out).1
unfolding chan_try_recv
try_recv-Stable rt none out s = s
try_recv-Stable rt (some c) none s = s
try_recv-Stable rt (some c) (some p) s = elim (Option-cases (recv_now rt c p)) [
  | inl e ↦ rw (e, chan_try_recv) s
  | inr (r, e) ↦ rw (e, chan_try_recv) (rw e at (recv_now-Stable rt c p s))
]

send_now-none :
    (rt : Runtime) (c p : ℕ)
    → AllStable rt
    → send_now rt c p ≡ none
    → (length (rt.chan c).recv ≡ 0)
      × (length (rt.chan c).select_recv ≡ 0)
      × ((rt.chan c).len ≡ (rt.chan c).capacity)
unfolding send_now
send_now-none rt c p s e =
    ground (arith, s c, length_of_none (rt.chan c).recv, length_of_none (rt.chan c).select_recv)

recv_now-none :
    (rt : Runtime) (c p : ℕ)
    → AllStable rt
    → recv_now rt c p ≡ none
    → ((rt.chan c).len ≡ 0) × (length (rt.chan c).send ≡ 0) × (length (rt.chan c).select_send ≡ 0)
unfolding recv_now recv_waiting
recv_now-none rt c p s e =
    ground (arith, s c, length_of_none (rt.chan c).send, length_of_none (rt.chan c).select_send)

park_send-Stable :
    (rt : Runtime) (c p : ℕ)
    → AllStable rt
    → (rt.chan c).closed ≡ false
    → send_now rt c p ≡ none
    → AllStable (park_send rt c p).1
unfolding park_send block_on_channel
park_send-Stable rt c p s open_ e = elim (Option-cases rt.current) [
  | inl k ↦ rw (k, park_send) s
  | inr (t, k) ↦
      rw (k, park_send)
        (set_chan-Stable rt c (record (rt.chan c) { send = Fifo.push (rt.chan c).send t })
          (ground (arith, s c, send_now-none rt c p s e, length-append (rt.chan c).send (t ∷ [])))
          s)
]

park_recv-Stable :
    (rt : Runtime) (c p : ℕ)
    → AllStable rt
    → (rt.chan c).closed ≡ false
    → recv_now rt c p ≡ none
    → AllStable (park_recv rt c p).1
unfolding park_recv block_on_channel
park_recv-Stable rt c p s open_ e = elim (Option-cases rt.current) [
  | inl k ↦ rw (k, park_recv) s
  | inr (t, k) ↦
      rw (k, park_recv)
        (set_chan-Stable rt c (record (rt.chan c) { recv = Fifo.push (rt.chan c).recv t })
          (ground (arith, s c, recv_now-none rt c p s e, length-append (rt.chan c).recv (t ∷ [])))
          s)
]

-- Where every channel is stable (nobody waits on it for what it could give at once), a send leaves
-- every channel stable, whether it returns or parks the task.
pub send-Stable :
    (rt : Runtime) (ch value : Ptr) → AllStable rt → AllStable (chan_send rt ch value).1
unfolding chan_send
send-Stable rt none value s = s
send-Stable rt (some c) none s = s
send-Stable rt (some c) (some p) s = elim (Bool-cases (rt.chan c).closed) [
  | inl shut ↦ rw (shut, chan_send) s
  | inr open_ ↦
      rw (open_, chan_send)
        (elim (Option-cases (send_now rt c p)) [
          | inl e ↦ rw (e, chan_send) (park_send-Stable rt c p s open_ e)
          | inr (r, e) ↦ rw (e, chan_send) (rw e at (send_now-Stable rt c p s))
        ])
]

-- Where every channel is stable (nobody waits on it for what it could give at once), a receive
-- leaves every channel stable, whether it returns or parks the task.
pub recv-Stable : (rt : Runtime) (ch out : Ptr) → AllStable rt → AllStable (chan_recv rt ch out).1
unfolding chan_recv
recv-Stable rt none out s = s
recv-Stable rt (some c) none s = s
recv-Stable rt (some c) (some p) s = elim (Option-cases (recv_now rt c p)) [
  | inr (r, e) ↦ rw (e, chan_recv) (rw e at (recv_now-Stable rt c p s))
  | inl e ↦
      rw (e, chan_recv)
        (elim (Bool-cases (rt.chan c).closed) [
          | inl shut ↦ rw (shut, chan_recv) s
          | inr open_ ↦ rw (open_, chan_recv) (park_recv-Stable rt c p s open_ e)
        ])
]
