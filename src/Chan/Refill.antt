-- ===== src/Chan/Refill.antt =====
-- A waiting sender fills the free slot of a buffer, and the channel has as much to give as before.
use mathlib.Core.Path.{subst}
use mathlib.Core.List.{append_assoc}
use microthread.Base.{
  ℕ, ◌<◌, ◌≡◌, refl, sym, ap, ◌∙◌, inl, inr, false, none, some, List, [], ◌∷◌, ◌++◌, arith, has,
  IsDistinct, eq→==, Option-cases, if_both,
}
use microthread.State.{Elem, Code, Chan, Runtime}
use microthread.Transitions.{complete_channel_wait}
use microthread.Queue.Fifo
use microthread.Chan.{
  buffer_push, load, pop_send, push_at, fill_slot, fill_buffer_from_waiting_sender,
}
use microthread.Chan.Ring.{contents, IsRing, contents-push}
use microthread.Chan.Pending.{offers, pending, pending_ended, mem-complete_channel_wait}

pub offers-first :
    (rt : Runtime) (ts : List ℕ) (t : ℕ)
    → Fifo.first ts ≡ some t
    → offers rt ts ≡ load rt (rt.task t).chan_value ∷ offers rt (Fifo.rest ts)
unfolding offers
offers-first rt [] t e = cc
offers-first rt (x ∷ ts) t e = ground (arith, e)

pub offers-none : (rt : Runtime) (ts : List ℕ) → Fifo.first ts ≡ none → offers rt ts ≡ []
unfolding offers
offers-none rt [] e = refl
offers-none rt (x ∷ ts) e = cc

pub first-distinct :
    (ts : List ℕ) (t : ℕ) → Fifo.first ts ≡ some t → IsDistinct ts → has t (Fifo.rest ts) ≡ false
first-distinct [] t e d = refl
first-distinct (x ∷ ts) t e d = ground (arith, e, d)

pub contents-send : (ch : Chan) (ts : List ℕ) → contents (record ch { send = ts }) ≡ contents ch
unfolding contents
contents-send ch ts = refl

pub send-IsRing : (ch : Chan) (ts : List ℕ) → IsRing ch → IsRing (record ch { send = ts })
send-IsRing ch ts r = record { fits = r.fits; slots = r.slots; head = r.head; tail = r.tail }

pub send-buffer_push : (ch : Chan) (v : Elem) → (buffer_push ch v).send ≡ ch.send
unfolding buffer_push
send-buffer_push ch v = refl

-- the first sender leaves the queue and its element goes to the buffer
pub pushed-pending :
    (rt : Runtime) (c t : ℕ)
    → Fifo.first (rt.chan c).send ≡ some t
    → IsDistinct (rt.chan c).send
    → IsRing (rt.chan c)
    → (rt.chan c).len < (rt.chan c).capacity
    → let v = load rt (rt.task t).chan_value in
      pending (complete_channel_wait (push_at (pop_send rt c) c v) t Code.ok) c ≡ pending rt c
unfolding pending
pushed-pending rt c t e d r room =
    let ch = rt.chan c in
    let v = load rt (rt.task t).chan_value in
    let popped = record ch { send = Fifo.rest ch.send } in
    let same = send-buffer_push popped v in
    pending_ended rt (push_at (pop_send rt c) c v) c t Code.ok (buffer_push popped v)
      (rw (eq→== c c refl) refl) refl refl
      (subst (λ (xs : List ℕ). has t xs ≡ false) (sym same) (first-distinct ch.send t e d))
    ∙ ap (λ (xs : List ℕ). contents (buffer_push popped v) ++ offers rt xs) same
    ∙ ap (λ (xs : List Elem). xs ++ offers rt (Fifo.rest ch.send))
        (contents-push popped (send-IsRing ch (Fifo.rest ch.send) r) v room
          ∙ ap (λ (xs : List Elem). xs ++ v ∷ []) (contents-send ch (Fifo.rest ch.send)))
    ∙ simp (append_assoc, offers-first rt ch.send t e)

-- A consistent channel on which no task waits twice to send, and no select waits to send.
pub record IsPlain (ch : Chan) : Type 0 where
  pub ring : IsRing ch
  pub distinct : IsDistinct ch.send
  pub no_selects : Fifo.first ch.select_send ≡ none

pub fill_slot-pending :
    (rt : Runtime) (c : ℕ)
    → IsPlain (rt.chan c)
    → (rt.chan c).len < (rt.chan c).capacity
    → (pending (fill_slot rt c) c ≡ pending rt c) × ((fill_slot rt c).mem ≡ rt.mem)
unfolding fill_slot
fill_slot-pending rt c w room = elim (Option-cases (Fifo.first (rt.chan c).send)) [
  | inl e ↦ rw (fill_slot, e, w.no_selects) (refl, refl)
  | inr (t, e) ↦
      rw (fill_slot, e)
        (
          pushed-pending rt c t e w.distinct w.ring room,
          mem-complete_channel_wait (push_at (pop_send rt c) c (load rt (rt.task t).chan_value)) t
              Code.ok,
        )
]

pub fill-pending :
    (rt : Runtime) (c : ℕ)
    → IsPlain (rt.chan c)
    → (rt.chan c).len < (rt.chan c).capacity
    → (pending (fill_buffer_from_waiting_sender rt c) c ≡ pending rt c)
      × ((fill_buffer_from_waiting_sender rt c).mem ≡ rt.mem)
unfolding fill_buffer_from_waiting_sender
fill-pending rt c w room =
    if_both (λ (x : Runtime). (pending x c ≡ pending rt c) × (x.mem ≡ rt.mem)) _ {x = rt}
      {y = fill_slot rt c} (refl, refl) (fill_slot-pending rt c w room)
