-- ===== src/Chan/Ending.antt =====
-- Whose selects the loops of mt_chan_wake_closed_waiters end.
use mathlib.Core.Path.{subst}
use microthread.Base.{
  ℕ, ◌≡◌, ◌⊎◌, inl, inr, refl, ap, ◌∙◌, update, true, false, some, arith, has, eq→==,
}
use microthread.State.{Code, Chan, Runtime}
use microthread.Queue.Fifo
use microthread.Transitions.{set_chan}
use microthread.Chan.{pop_send, pop_recv, pop_select_send, pop_select_recv}
use microthread.Chan.Selected.{Tied}
use microthread.Chan.Hanging.{IsSelected, Hangs, complete-Hangs, channel_wait-Hangs}
use microthread.Chan.Drain.{wake_lem}
use microthread.Chan.Ops.{end_select_send, end_select_recv, wake_closed_waiters}
use microthread.Chan.Waking.{all-keep, rest_or_first, no_member}

-- a write of the channel
write-Hangs :
    (c w t : ℕ) (rt : Runtime) (x : Chan)
    → x.select_send ≡ (rt.chan c).select_send
    → x.select_recv ≡ (rt.chan c).select_recv
    → Hangs Code.err_closed c w t rt
    → Hangs Code.err_closed c w t (set_chan rt c x)
write-Hangs c w t rt x es er h = record {
  tied = record { owned = h.tied.owned; owner = h.tied.owner };
  there = elim h.there [
    | inl y ↦ inl (rw (eq→== c c refl, es) y)
    | inr (inl y) ↦ inr (inl (rw (eq→== c c refl, er) y))
    | inr (inr y) ↦
        inr (inr (record { state = y.state; select_result = y.select_result; queued = y.queued }))
  ];
}

popped-Tied :
    (rt popped : Runtime) (w t x : ℕ)
    → popped.task ≡ rt.task
    → popped.waiter ≡ update rt.waiter x (record (rt.waiter x) { active = false })
    → Tied w t rt
    → Tied w t popped
popped-Tied rt popped w t x et ew k = record {
  owned = λ u v h. same v ∙ k.owned u v (subst (λ f. has v (f u).select_waiters ≡ true) et h);
  owner = same w ∙ k.owner;
}
  where
    kept :
        (v : ℕ)
        → (update rt.waiter x (record (rt.waiter x) { active = false }) v).task ≡ (rt.waiter v).task
    kept v = ground arith

    same : (v : ℕ) → (popped.waiter v).task ≡ (rt.waiter v).task
    same v = ap (λ f. (f v).task) ew ∙ kept v

-- a round of one of the last two loops
end_select_send-Hangs :
    (c w t : ℕ) (rt : Runtime) (x : ℕ)
    → Fifo.first (rt.chan c).select_send ≡ some x
    → Hangs Code.err_closed c w t rt
    → Hangs Code.err_closed c w t (end_select_send rt c x)
end_select_send-Hangs c w t rt x e h =
    complete-Hangs Code.err_closed c w t x (pop_select_send rt c x)
      (popped-Tied rt (pop_select_send rt c x) w t x refl refl h.tied)
      (elim h.there [
        | inl y ↦ elim (rest_or_first x w (rt.chan c).select_send e y) [
          | inl i ↦ inl i
          | inr r ↦ inr (inl (rw (eq→== c c refl) r))
        ]
        | inr (inl y) ↦ inr (inr (inl (rw (eq→== c c refl) y)))
        | inr (inr y) ↦ inr (
            inr (
              inr (record { state = y.state; select_result = y.select_result; queued = y.queued })))
      ])

end_select_recv-Hangs :
    (c w t : ℕ) (rt : Runtime) (x : ℕ)
    → Fifo.first (rt.chan c).select_recv ≡ some x
    → Hangs Code.err_closed c w t rt
    → Hangs Code.err_closed c w t (end_select_recv rt c x)
end_select_recv-Hangs c w t rt x e h =
    complete-Hangs Code.err_closed c w t x (pop_select_recv rt c x)
      (popped-Tied rt (pop_select_recv rt c x) w t x refl refl h.tied)
      (elim h.there [
        | inl y ↦ inr (inl (rw (eq→== c c refl) y))
        | inr (inl y) ↦ elim (rest_or_first x w (rt.chan c).select_recv e y) [
          | inl i ↦ inl i
          | inr r ↦ inr (inr (inl (rw (eq→== c c refl) r)))
        ]
        | inr (inr y) ↦ inr (
            inr (
              inr (record { state = y.state; select_result = y.select_result; queued = y.queued })))
      ])

-- The select that waits on the channel is ended with the code of a closed channel.
pub wake-IsSelected :
    (rt : Runtime) (c w t : ℕ)
    → Tied w t rt
    → (has w (rt.chan c).select_send ≡ true) ⊎ (has w (rt.chan c).select_recv ≡ true)
    → IsSelected Code.err_closed (wake_closed_waiters rt c) t
wake-IsSelected rt c w t k h =
    let (_, idle) = wake_lem rt c in
    let kept =
      all-keep c (Hangs Code.err_closed c w t)
        (λ r x e y. channel_wait-Hangs Code.err_closed c w t x Code.err_closed (pop_send r c) (
          write-Hangs c w t r (record (r.chan c) { send = Fifo.rest (r.chan c).send }) refl refl y))
        (λ r x e y. channel_wait-Hangs Code.err_closed c w t x Code.err_closed (pop_recv r c) (
          write-Hangs c w t r (record (r.chan c) { recv = Fifo.rest (r.chan c).recv }) refl refl y))
        (end_select_send-Hangs c w t) (end_select_recv-Hangs c w t) rt
        (record { tied = k; there = begin h }) in
    elim kept.there [
      | inl y ↦ absurd (no_member w _ idle.select_send y)
      | inr (inl y) ↦ absurd (no_member w _ idle.select_recv y)
      | inr (inr y) ↦ y
    ]
  where
    begin :
        (has w (rt.chan c).select_send ≡ true) ⊎ (has w (rt.chan c).select_recv ≡ true)
        → (has w (rt.chan c).select_send ≡ true)
          ⊎ (has w (rt.chan c).select_recv ≡ true)
          ⊎ IsSelected Code.err_closed rt t
    begin (inl y) = inl y
    begin (inr y) = inr (inl y)
