-- ===== src/Chan/Now.antt =====
-- What a send and a receive do at once, and the stable states of the channels.
use mathlib.Core.Path.{subst}
use native.Mathlib.Decide.{ℕ_discrete}
use microthread.Base.{
  ℕ, ◌+◌, ◌≤◌, ◌<◌, ◌≡◌, ◌≢◌, refl, ◌⊎◌, inl, inr, true, false, none, some, ◌&&◌, arith, length,
  ltb, leb, ◌==◌, if◌then◌else◌, eq→==, ne→==, Option-cases, Bool-cases, if_both,
}
use microthread.State.{Elem, Code, Chan, Runtime}
use microthread.Transitions.{set_chan}
use microthread.Queue.Fifo
use microthread.Chan.{
  buffer_push, buffer_pop, load, store, pop_send, pop_recv, pop_select_send, pop_select_recv,
  push_at, fill_slot, fill_buffer_from_waiting_sender, send_now, recv_buffered, recv_waiting,
  recv_now,
}
use microthread.Chan.Stable.{
  Stable, AllStable, set_chan-Stable, complete_channel_wait-Stable, complete_waiter-Stable,
  store-Stable, length-rest, length_of_none, length_of_some, pop_send-Stable, pop_recv-Stable,
  pop_select_send-Stable, pop_select_recv-Stable, WhenDone,
}

-- an element is buffered while nobody waits to receive
push_at-Stable :
    (rt : Runtime) (c : ℕ) (v : Elem)
    → AllStable rt
    → (rt.chan c).len < (rt.chan c).capacity
    → length (rt.chan c).recv ≡ 0
    → length (rt.chan c).select_recv ≡ 0
    → AllStable (push_at rt c v)
unfolding buffer_push
push_at-Stable rt c v s room r sr = set_chan-Stable rt c _ (ground (arith, s c)) s

-- What a send does at once leaves every channel stable.
pub send_now-Stable : (rt : Runtime) (c p : ℕ) → AllStable rt → WhenDone AllStable (send_now rt c p)
unfolding send_now
send_now-Stable rt c p s = elim (Option-cases (Fifo.first (rt.chan c).recv)) [
  | inr (t, e) ↦
      rw (e, send_now)
        (complete_channel_wait-Stable _ t Code.ok
          (store-Stable (pop_recv rt c) (rt.task t).chan_value (rt.mem p) (pop_recv-Stable rt c s)))
  | inl e ↦
      rw (e, send_now)
        (elim (Option-cases (Fifo.first (rt.chan c).select_recv)) [
          | inr (w, k) ↦
              rw (k, send_now)
                (complete_waiter-Stable _ w Code.ok (
                  store-Stable (pop_select_recv rt c w) (rt.waiter w).value (rt.mem p)
                    (pop_select_recv-Stable rt c w s)))
          | inl k ↦ rw (k, send_now) (buffered (length_of_none _ e) (length_of_none _ k))
        ])
]
  where
    buffered :
        length (rt.chan c).recv ≡ 0
        → length (rt.chan c).select_recv ≡ 0
        → WhenDone AllStable (
            if ltb 0 (rt.chan c).capacity && ltb (rt.chan c).len (rt.chan c).capacity
            then some (push_at rt c (rt.mem p))
            else none)
    buffered r sr = elim (Bool-cases (ltb (rt.chan c).len (rt.chan c).capacity)) [
      | inl room ↦
          let pos : ltb 0 (rt.chan c).capacity ≡ true = ground arith in
          rw (pos, room) (push_at-Stable rt c (rt.mem p) s (ground arith) r sr)
      | inr full ↦ elim (Bool-cases (ltb 0 (rt.chan c).capacity)) [
        | inl pos ↦ rw (pos, full) tt
        | inr zero_cap ↦ rw zero_cap tt
      ]
    ]

-- every channel but `c` is stable
abbrev Others : ℕ → Runtime → Type 0
Others c rt = (d : ℕ) → c ≢ d → Stable (rt.chan d)

-- a slot has come free, and nobody waits to receive
record Slack (ch : Chan) : Type 0 where
  free : ch.len + 1 ≤ ch.capacity
  receivers : length ch.recv ≡ 0
  select_receivers : length ch.select_recv ≡ 0
  senders : (length ch.send ≡ 0) ⊎ (ch.len + 1 ≡ ch.capacity)
  select_senders : (length ch.select_send ≡ 0) ⊎ (ch.len + 1 ≡ ch.capacity)
  shut : (ch.closed ≡ false) ⊎ (length ch.send ≡ 0) × (length ch.select_send ≡ 0)

AllStable-of : (rt : Runtime) (c : ℕ) → Others c rt → Stable (rt.chan c) → AllStable rt
AllStable-of rt c o s d = elim (ℕ_discrete c d) [
  | yes e ↦ subst (λ k. Stable (rt.chan k)) e s
  | no ne ↦ o d ne
]

set_chan-Others :
    (rt : Runtime) (c : ℕ) (x : Chan) → Others c rt → Stable x → AllStable (set_chan rt c x)
set_chan-Others rt c x o s d = elim (ℕ_discrete c d) [
  | yes e ↦ rw (eq→== c d e) s
  | no ne ↦ rw (ne→== c d ne) (o d ne)
]

Others-set_chan : (rt : Runtime) (c : ℕ) (x : Chan) → Others c rt → Others c (set_chan rt c x)
Others-set_chan rt c x o d ne = rw (ne→== c d ne) (o d ne)

-- one of the senders that waited for the slot takes it
pushed-Stable :
    (ch x : Chan) (v : Elem)
    → Slack ch
    → ch.len + 1 ≡ ch.capacity
    → (ch.closed ≡ false)
    → x ≡ record ch { send = Fifo.rest ch.send }
      ⊎ x ≡ record ch { select_send = Fifo.rest ch.select_send }
    → Stable (buffer_push x v)
unfolding buffer_push
pushed-Stable ch x v s full open_ (inl e) = rw e (ground (arith, length-rest ch.send))
pushed-Stable ch x v s full open_ (inr e) = rw e (ground (arith, length-rest ch.select_send))

module _ (rt : Runtime) (c : ℕ) (o : Others c rt) (s : Slack (rt.chan c))
    (open_ : (rt.chan c).closed ≡ false) where
  filled-Stable :
      (x : Chan) (v : Elem)
      → (x ≡ record (rt.chan c) { send = Fifo.rest (rt.chan c).send })
        ⊎ (x ≡ record (rt.chan c) { select_send = Fifo.rest (rt.chan c).select_send })
      → (rt.chan c).len + 1 ≡ (rt.chan c).capacity
      → AllStable (push_at (set_chan rt c x) c v)
  filled-Stable x v e full =
      set_chan-Others (set_chan rt c x) c (buffer_push ((set_chan rt c x).chan c) v)
        (Others-set_chan rt c x o)
        (rw (eq→== c c refl) (pushed-Stable (rt.chan c) x v s full open_ e))

  fill_slot-Stable : AllStable (fill_slot rt c)
  unfolding fill_slot
  fill_slot-Stable = elim (Option-cases (Fifo.first (rt.chan c).send)) [
    | inr (t, e) ↦
        rw (e, fill_slot)
          (complete_channel_wait-Stable _ t Code.ok
            (filled-Stable _ _ (inl refl) (ground (arith, s, length_of_some _ t e))))
    | inl e ↦
        rw (e, fill_slot)
          (elim (Option-cases (Fifo.first (rt.chan c).select_send)) [
            | inr (w, k) ↦
                rw (k, fill_slot)
                  (complete_waiter-Stable _ w Code.ok
                    (filled-Stable _ _ (inr refl) (ground (arith, s, length_of_some _ w k))))
            | inl k ↦
                rw (k, fill_slot)
                  (AllStable-of rt c o (ground (arith, length_of_none _ e, length_of_none _ k)))
          ])
  ]

fill-Stable :
    (rt : Runtime) (c : ℕ)
    → Others c rt
    → Slack (rt.chan c)
    → AllStable (fill_buffer_from_waiting_sender rt c)
unfolding fill_buffer_from_waiting_sender
fill-Stable rt c o s = elim (Bool-cases (rt.chan c).closed) [
  | inl shut ↦ rw (shut, fill_buffer_from_waiting_sender) (AllStable-of rt c o (ground arith))
  | inr open_ ↦
      let pos : ((rt.chan c).capacity == 0) ≡ false = ground (arith, s) in
      let room : leb (rt.chan c).capacity (rt.chan c).len ≡ false = ground (arith, s) in
      rw (open_, pos, room) (fill_slot-Stable rt c o s open_)
]

-- A receive from the buffer leaves every channel stable.
recv_buffered-Stable :
    (rt : Runtime) (c out : ℕ)
    → AllStable rt
    → 0 < (rt.chan c).len
    → AllStable (recv_buffered rt c out)
unfolding recv_buffered buffer_pop store
recv_buffered-Stable rt c out s more =
    let after =
      store (set_chan rt c (buffer_pop (rt.chan c)).1) (some out) (buffer_pop (rt.chan c)).0 in
    fill-Stable after c (λ d ne. rw (ne→== c d ne) (s d))
      (rw (eq→== c c refl) (ground (arith, s c)))

recv_waiting-Stable :
    (rt : Runtime) (c out : ℕ)
    → AllStable rt
    → WhenDone (λ r. AllStable r.1) (recv_waiting rt c out)
unfolding recv_waiting
recv_waiting-Stable rt c out s = elim (Option-cases (Fifo.first (rt.chan c).send)) [
  | inr (t, e) ↦
      rw (e, recv_waiting)
        (if_both (λ (r : Code × Runtime). AllStable r.1) (rt.chan c).closed
          (complete_channel_wait-Stable _ t Code.err_closed (pop_send-Stable rt c s))
          (complete_channel_wait-Stable _ t Code.ok (
            store-Stable (pop_send rt c) (some out) (load rt (rt.task t).chan_value)
              (pop_send-Stable rt c s))))
  | inl e ↦
      rw (e, recv_waiting)
        (elim (Option-cases (Fifo.first (rt.chan c).select_send)) [
          | inr (w, k) ↦
              rw (k, recv_waiting)
                (if_both (λ (r : Code × Runtime). AllStable r.1) (rt.chan c).closed
                  (complete_waiter-Stable _ w Code.err_closed (pop_select_send-Stable rt c w s))
                  (complete_waiter-Stable _ w Code.ok (
                    store-Stable (pop_select_send rt c w) (some out) (load rt (rt.waiter w).value)
                      (pop_select_send-Stable rt c w s))))
          | inl k ↦ rw (k, recv_waiting) tt
        ])
]

-- What a receive does at once leaves every channel stable.
pub recv_now-Stable :
    (rt : Runtime) (c out : ℕ) → AllStable rt → WhenDone (λ r. AllStable r.1) (recv_now rt c out)
unfolding recv_now
recv_now-Stable rt c out s = elim (Bool-cases (ltb 0 (rt.chan c).len)) [
  | inl more ↦ rw (more, recv_now) (recv_buffered-Stable rt c out s (ground arith))
  | inr none_left ↦ rw (none_left, recv_now) (recv_waiting-Stable rt c out s)
]
