-- ===== src/Chan/Receive.antt =====
-- What a receive takes, against what the channel has to give.
use mathlib.Core.Path.{subst, ap₂}
use microthread.Base.{
  ℕ, ◌<◌, ◌≡◌, ◌≢◌, refl, sym, ap, ◌∙◌, inl, inr, true, false, none, some, List, [], ◌∷◌, ◌++◌,
  arith, has, ltb, eq→==, Option-cases, Bool-cases,
}
use microthread.State.{Elem, Code, Chan, Runtime}
use microthread.Transitions.{set_chan, complete_channel_wait}
use microthread.Queue.Fifo
use microthread.Chan.{buffer_pop, load, store, pop_send, recv_buffered, recv_waiting, recv_now}
use microthread.Chan.Ops.{chan_try_recv}
use microthread.Chan.Ring.{contents, IsRing, contents-pop, pop-IsRing, contents_empty}
use microthread.Chan.Pending.{
  offers, pending, pending-complete_channel_wait, pending-set_chan, OffersElsewhere, offers-store,
  mem-complete_channel_wait,
}
use microthread.Chan.Refill.{offers-first, offers-none, first-distinct, IsPlain, fill-pending}

pending-store :
    (rt : Runtime) (c out : ℕ) (v : Elem)
    → OffersElsewhere rt c out
    → pending (store rt (some out) v) c ≡ pending rt c
unfolding pending store
pending-store rt c out v away =
    ap (λ (xs : List Elem). contents (rt.chan c) ++ xs)
      (offers-store rt out v (rt.chan c).send away)

-- a receive takes the oldest element to `out`, and leaves the others in their order
abbrev pub Dequeues : Runtime → Runtime → ℕ → ℕ → Type 0
Dequeues before after c out = pending before c ≡ after.mem out ∷ pending after c

popped-IsPlain : (ch : Chan) → 0 < ch.len → IsPlain ch → IsPlain (buffer_pop ch).1
unfolding buffer_pop
popped-IsPlain ch more w = record {
  ring = pop-IsRing ch w.ring more;
  distinct = w.distinct;
  no_selects = w.no_selects;
}

popped-room :
    (ch : Chan) → 0 < ch.len → IsRing ch → (buffer_pop ch).1.len < (buffer_pop ch).1.capacity
unfolding buffer_pop
popped-room ch more r = omega (arith, r.fits)

send-buffer_pop : (ch : Chan) → (buffer_pop ch).1.send ≡ ch.send
unfolding buffer_pop
send-buffer_pop ch = refl

popped-pending :
    (rt : Runtime) (c : ℕ)
    → IsRing (rt.chan c)
    → 0 < (rt.chan c).len
    → pending rt c
      ≡ (buffer_pop (rt.chan c)).0 ∷ pending (set_chan rt c (buffer_pop (rt.chan c)).1) c
unfolding pending
popped-pending rt c r more =
    let ch = rt.chan c in
    ap (λ (xs : List Elem). xs ++ offers rt ch.send) (contents-pop ch r more)
    ∙ ap (λ (xs : List ℕ). (buffer_pop ch).0 ∷ (contents (buffer_pop ch).1 ++ offers rt xs))
        (sym (send-buffer_pop ch))
    ∙ ap (λ (xs : List Elem). (buffer_pop ch).0 ∷ xs)
        (sym (pending-set_chan rt c (buffer_pop ch).1))

recv_buffered-Dequeues :
    (rt : Runtime) (c out : ℕ)
    → IsPlain (rt.chan c)
    → OffersElsewhere rt c out
    → 0 < (rt.chan c).len
    → Dequeues rt (recv_buffered rt c out) c out
unfolding recv_buffered
recv_buffered-Dequeues rt c out w away more =
    let ch = rt.chan c in
    let taken = (buffer_pop ch).1 in
    let v = (buffer_pop ch).0 in
    let cut = set_chan rt c taken in
    let stored = store cut (some out) v in
    let at : cut.chan c ≡ taken = rw (eq→== c c refl) refl in
    let here : stored.chan c ≡ taken = unfold store in at in
    let written : stored.mem out ≡ v = unfold store in rw (eq→== out out refl) refl in
    let away' : OffersElsewhere cut c out =
      subst (λ (x : Chan). (t : ℕ) → has t x.send ≡ true → (rt.task t).chan_value ≢ some out)
        (sym at)
        (subst (λ (xs : List ℕ). (t : ℕ) → has t xs ≡ true → (rt.task t).chan_value ≢ some out)
          (sym (send-buffer_pop ch)) away) in
    let (kept, mem) =
      fill-pending stored c (subst IsPlain (sym here) (popped-IsPlain ch more w))
        (subst (λ (x : Chan). x.len < x.capacity) (sym here) (popped-room ch more w.ring)) in
    popped-pending rt c w.ring more
    ∙ ap₂ ◌∷◌ (sym (ap (λ (f : ℕ → Elem). f out) mem ∙ written))
        (sym (kept ∙ pending-store cut c out v away'))

has-rest : (u : ℕ) (ts : List ℕ) → has u (Fifo.rest ts) ≡ true → has u ts ≡ true
has-rest u [] h = h
has-rest u (x ∷ ts) h = ground (arith, h)

-- with an empty buffer the longest waiting sender has the oldest element
waiting_pending :
    (rt : Runtime) (c t : ℕ)
    → (rt.chan c).len ≡ 0
    → Fifo.first (rt.chan c).send ≡ some t
    → pending rt c ≡ load rt (rt.task t).chan_value ∷ offers rt (Fifo.rest (rt.chan c).send)
unfolding pending
waiting_pending rt c t e q =
    ap (λ (xs : List Elem). xs ++ offers rt (rt.chan c).send) (contents_empty (rt.chan c) e)
    ∙ offers-first rt (rt.chan c).send t q

-- a receive from the longest waiting sender, on an open channel with an empty buffer
recv_sender-Dequeues :
    (rt : Runtime) (c out t : ℕ)
    → IsPlain (rt.chan c)
    → OffersElsewhere rt c out
    → (rt.chan c).len ≡ 0
    → Fifo.first (rt.chan c).send ≡ some t
    → let v = load rt (rt.task t).chan_value in
      Dequeues rt (complete_channel_wait (store (pop_send rt c) (some out) v) t Code.ok) c out
recv_sender-Dequeues rt c out t w away e q =
    let ch = rt.chan c in
    let v = load rt (rt.task t).chan_value in
    let popped = record ch { send = Fifo.rest ch.send } in
    let cut = pop_send rt c in
    let stored = store cut (some out) v in
    let at : cut.chan c ≡ popped = rw (eq→== c c refl) refl in
    let here : stored.chan c ≡ popped = unfold store in at in
    let written : stored.mem out ≡ v = unfold store in rw (eq→== out out refl) refl in
    let away' : OffersElsewhere cut c out =
      subst (λ (x : Chan). (u : ℕ) → has u x.send ≡ true → (rt.task u).chan_value ≢ some out)
        (sym at) (λ u h. away u (has-rest u ch.send h)) in
    let gone : has t (stored.chan c).send ≡ false =
      subst (λ (x : Chan). has t x.send ≡ false) (sym here)
        (first-distinct ch.send t q w.distinct) in
    let left_ : pending (complete_channel_wait stored t Code.ok) c ≡ offers rt (Fifo.rest ch.send) =
      pending-complete_channel_wait stored t Code.ok c gone
      ∙ pending-store cut c out v away'
      ∙ pending-set_chan rt c popped
      ∙ ap (λ (xs : List Elem). xs ++ offers rt (Fifo.rest ch.send)) (contents_empty popped e) in
    waiting_pending rt c t e q
    ∙ ap₂ ◌∷◌
        (sym (ap (λ (f : ℕ → Elem). f out) (mem-complete_channel_wait stored t Code.ok) ∙ written))
        (sym left_)

-- What a nonblocking receive on an open channel does, by the result: it takes the oldest element,
-- or there is none and nothing changes.
pub data Received (before after : Runtime) (c out : ℕ) : Code → Type 0 where
  taken : Dequeues before after c out → Received before after c out Code.ok
  nothing :
      pending before c ≡ [] → after ≡ before → Received before after c out Code.err_would_block

-- what an open channel with an empty buffer still has to give
recv_waiting_open :
    (rt : Runtime) (c out t : ℕ)
    → (rt.chan c).closed ≡ false
    → Fifo.first (rt.chan c).send ≡ some t
    → let v = load rt (rt.task t).chan_value in
      recv_waiting rt c out
      ≡ some (Code.ok, complete_channel_wait (store (pop_send rt c) (some out) v) t Code.ok)
unfolding recv_waiting
recv_waiting_open rt c out t open_ q = rw (recv_waiting, q, open_) refl

recv_waiting-none :
    (rt : Runtime) (c out : ℕ)
    → Fifo.first (rt.chan c).send ≡ none
    → Fifo.first (rt.chan c).select_send ≡ none
    → recv_waiting rt c out ≡ none
unfolding recv_waiting
recv_waiting-none rt c out q p = rw (recv_waiting, q, p) refl

nothing_pending :
    (rt : Runtime) (c : ℕ)
    → (rt.chan c).len ≡ 0
    → Fifo.first (rt.chan c).send ≡ none
    → pending rt c ≡ []
unfolding pending
nothing_pending rt c e q = rw (contents_empty (rt.chan c) e, offers-none rt (rt.chan c).send q) refl

-- On an open, consistent channel on which no select waits to send and no task twice, a nonblocking
-- receive into memory that no sender offers takes the oldest pending element, the buffered ones
-- before those of the tasks that wait to send, and leaves the others in their order; or nothing is
-- pending, and it changes nothing.
pub try_recv-Received :
    (rt : Runtime) (c out : ℕ)
    → IsPlain (rt.chan c)
    → (rt.chan c).closed ≡ false
    → OffersElsewhere rt c out
    → let (rc, after) = chan_try_recv rt (some c) (some out) in Received rt after c out rc
unfolding chan_try_recv recv_now
try_recv-Received rt c out w open_ away = elim (Bool-cases (ltb 0 (rt.chan c).len)) [
  | inl more ↦
      rw (chan_try_recv, recv_now, more)
        (taken (recv_buffered-Dequeues rt c out w away (ground (arith, more))))
  | inr empty ↦
      let e : (rt.chan c).len ≡ 0 = ground (arith, empty) in
      elim (Option-cases (Fifo.first (rt.chan c).send)) [
        | inl q ↦
            rw (chan_try_recv, recv_now, empty, recv_waiting-none rt c out q w.no_selects, open_)
              (nothing (nothing_pending rt c e q) refl)
        | inr (t, q) ↦
            rw (chan_try_recv, recv_now, empty, recv_waiting_open rt c out t open_ q)
              (taken (recv_sender-Dequeues rt c out t w away e q))
      ]
]
