-- ===== src/Chan/Waking.antt =====
-- Whom the loops of mt_chan_wake_closed_waiters wake in the plain queues.
use mathlib.Core.Path.{subst}
use mathlib.Core.Option.{some-injective}
use native.Mathlib.Decide.{ℕ_discrete}
use microthread.Base.{
  ℕ, zero, suc, ◌≡◌, ◌⊎◌, inl, inr, refl, sym, ap, ◌∙◌, true, some, List, [], ◌∷◌, arith, has,
  length, eq→==, ne→==, Option-cases,
}
use microthread.State.{Code, Chan, Runtime}
use microthread.Queue.Fifo
use microthread.Transitions.{set_chan, complete_channel_wait}
use microthread.SelectWait.{complete_waiter}
use microthread.Chan.{pop_select_send, pop_select_recv}
use microthread.Chan.Frame.{chan-complete_channel_wait, complete_waiter-Shrunk}
use microthread.Chan.Woken.{IsWoken, complete-IsWoken, complete-keeps, waiter-keeps}
use microthread.Chan.Drain.{wake_lem}
use microthread.Chan.Ops.{
  drain, drain_all, end_send, end_recv, end_select_send, end_select_recv, wake_closed_waiters,
}

-- A loop keeps what each of its rounds keeps.
drain-keeps :
    (queue : Chan → List ℕ) (end_one : Runtime → ℕ → ℕ → Runtime) (c : ℕ) (P : Runtime → Type 0)
    → ((rt : Runtime) (x : ℕ) → Fifo.first (queue (rt.chan c)) ≡ some x → P rt → P (end_one rt c x))
    → (k : ℕ) (rt : Runtime) → P rt
    → P (drain queue end_one k rt c)
unfolding drain
drain-keeps queue end_one c P keeps zero rt h = h
drain-keeps queue end_one c P keeps (suc k) rt h =
    elim (Option-cases (Fifo.first (queue (rt.chan c)))) [
      | inl e ↦ rw (e, drain) h
      | inr (x, e) ↦
          rw (e, drain) (drain-keeps queue end_one c P keeps k (end_one rt c x) (keeps rt x e h))
    ]

pub all-keep :
    (c : ℕ) (P : Runtime → Type 0)
    → ((rt : Runtime) (x : ℕ) → Fifo.first (rt.chan c).send ≡ some x → P rt → P (end_send rt c x))
    → ((rt : Runtime) (x : ℕ) → Fifo.first (rt.chan c).recv ≡ some x → P rt → P (end_recv rt c x))
    → ((rt : Runtime) (x : ℕ)
        → Fifo.first (rt.chan c).select_send ≡ some x
        → P rt
        → P (end_select_send rt c x))
    → ((rt : Runtime) (x : ℕ)
        → Fifo.first (rt.chan c).select_recv ≡ some x
        → P rt
        → P (end_select_recv rt c x))
    → (rt : Runtime) → P rt
    → P (wake_closed_waiters rt c)
unfolding wake_closed_waiters
all-keep c P ks kr kss ksr rt h =
    let a = drain_all (λ ch. ch.send) end_send rt c in
    let b = drain_all (λ ch. ch.recv) end_recv a c in
    let d = drain_all (λ ch. ch.select_send) end_select_send b c in
    drain-keeps (λ ch. ch.select_recv) end_select_recv c P ksr (length (d.chan c).select_recv) d
      (drain-keeps (λ ch. ch.select_send) end_select_send c P kss (length (b.chan c).select_send) b
        (drain-keeps (λ ch. ch.recv) end_recv c P kr (length (a.chan c).recv) a
          (drain-keeps (λ ch. ch.send) end_send c P ks (length (rt.chan c).send) rt h)))

-- a member of a queue is its first, or stays in the rest
pub rest_or_first :
    (x u : ℕ) (xs : List ℕ)
    → Fifo.first xs ≡ some x
    → has u xs ≡ true
    → (x ≡ u) ⊎ (has u (Fifo.rest xs) ≡ true)
rest_or_first x u [] e h = absurd cc
rest_or_first x u (y ∷ ys) e h = elim (ℕ_discrete y u) [
  | yes i ↦ inl (sym (some-injective y x e) ∙ i)
  | no n ↦ inr (rw (ne→== y u n) at h)
]

-- A task that waits in a plain queue of the channel, or has been woken.
Waits : ℕ → ℕ → Runtime → Type 0
Waits c u rt =
    (has u (rt.chan c).send ≡ true) ⊎ (has u (rt.chan c).recv ≡ true) ⊎ IsWoken Code.err_closed rt u

-- a round of one of the first two loops
channel_wait-Waits :
    (rt : Runtime) (c t u : ℕ) (x : Chan)
    → (t ≡ u) ⊎ (has u x.send ≡ true) ⊎ (has u x.recv ≡ true) ⊎ IsWoken Code.err_closed rt u
    → Waits c u (complete_channel_wait (set_chan rt c x) t Code.err_closed)
unfolding Waits
channel_wait-Waits rt c t u x h =
    let popped = set_chan rt c x in
    let after = complete_channel_wait popped t Code.err_closed in
    let at : after.chan c ≡ x =
      ap (λ (f : ℕ → Chan). f c) (chan-complete_channel_wait popped t Code.err_closed)
      ∙ rw (eq→== c c refl) refl in
    elim h [
      | inl i ↦ inr (
          inr (subst (IsWoken Code.err_closed after) i (complete-IsWoken popped t Code.err_closed)))
      | inr (inl y) ↦ inl (subst (λ (z : Chan). has u z.send ≡ true) (sym at) y)
      | inr (inr (inl y)) ↦ inr (inl (subst (λ (z : Chan). has u z.recv ≡ true) (sym at) y))
      | inr (inr (inr y)) ↦ inr (
          inr (
            complete-keeps popped t u Code.err_closed
              (record { state = y.state; chan_result = y.chan_result; queued = y.queued })))
    ]

end_send-Waits :
    (c u : ℕ) (rt : Runtime) (x : ℕ)
    → Fifo.first (rt.chan c).send ≡ some x
    → Waits c u rt
    → Waits c u (end_send rt c x)
unfolding Waits
end_send-Waits c u rt x e h =
    channel_wait-Waits rt c x u (record (rt.chan c) { send = Fifo.rest (rt.chan c).send })
      (elim h [
        | inl y ↦ elim (rest_or_first x u (rt.chan c).send e y) [
          | inl i ↦ inl i
          | inr r ↦ inr (inl r)
        ]
        | inr rest ↦ inr (inr rest)
      ])

end_recv-Waits :
    (c u : ℕ) (rt : Runtime) (x : ℕ)
    → Fifo.first (rt.chan c).recv ≡ some x
    → Waits c u rt
    → Waits c u (end_recv rt c x)
unfolding Waits
end_recv-Waits c u rt x e h =
    channel_wait-Waits rt c x u (record (rt.chan c) { recv = Fifo.rest (rt.chan c).recv })
      (elim h [
        | inl y ↦ inr (inl y)
        | inr (inl y) ↦ elim (rest_or_first x u (rt.chan c).recv e y) [
          | inl i ↦ inl i
          | inr r ↦ inr (inr (inl r))
        ]
        | inr (inr y) ↦ inr (inr (inr y))
      ])

-- a round of one of the last two
select-Waits :
    (rt popped : Runtime) (c u w : ℕ)
    → (popped.chan c).send ≡ (rt.chan c).send
    → (popped.chan c).recv ≡ (rt.chan c).recv
    → popped.task ≡ rt.task
    → popped.runq ≡ rt.runq
    → Waits c u rt
    → Waits c u (complete_waiter popped w Code.err_closed)
unfolding Waits
select-Waits rt popped c u w es er et eq h =
    let s = complete_waiter-Shrunk popped w Code.err_closed c in
    elim h [
      | inl y ↦ inl (subst (λ xs. has u xs ≡ true) (sym (s.send ∙ es)) y)
      | inr (inl y) ↦ inr (inl (subst (λ xs. has u xs ≡ true) (sym (s.recv ∙ er)) y))
      | inr (inr y) ↦ inr (
          inr (waiter-keeps popped w u Code.err_closed Code.err_closed (ground (arith, y, et, eq))))
    ]

pub no_member : (u : ℕ) (xs : List ℕ) → length xs ≡ 0 → has u xs ≡ true → ⊥
no_member u [] e h = cc
no_member u (x ∷ xs) e h = omega arith

-- Who waits in a plain queue of the channel is woken with the code of a closed channel.
pub wake-IsWoken :
    (rt : Runtime) (c u : ℕ)
    → (has u (rt.chan c).send ≡ true) ⊎ (has u (rt.chan c).recv ≡ true)
    → IsWoken Code.err_closed (wake_closed_waiters rt c) u
unfolding Waits
wake-IsWoken rt c u h =
    let (_, idle) = wake_lem rt c in
    elim (all-keep c (Waits c u) (end_send-Waits c u) (end_recv-Waits c u)
      (λ r x e k.
        select-Waits r (pop_select_send r c x) c u x (rw (eq→== c c refl) refl)
          (rw (eq→== c c refl) refl) refl refl k)
      (λ r x e k.
        select-Waits r (pop_select_recv r c x) c u x (rw (eq→== c c refl) refl)
          (rw (eq→== c c refl) refl) refl refl k)
      rt (begin h)) [
        | inl y ↦ absurd (no_member u _ idle.send y)
        | inr (inl y) ↦ absurd (no_member u _ idle.recv y)
        | inr (inr y) ↦ y
      ]
  where
    begin : (has u (rt.chan c).send ≡ true) ⊎ (has u (rt.chan c).recv ≡ true) → Waits c u rt
    begin (inl y) = inl y
    begin (inr y) = inr (inl y)
