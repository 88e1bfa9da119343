-- ===== src/Chan/Drain.antt =====
-- The loops of mt_chan_wake_closed_waiters.
use mathlib.Core.Path.{subst}
use native.Mathlib.Nat.{le_trans}
use native.Mathlib.Decide.{ℕ_discrete}
use microthread.Base.{
  ℕ, zero, suc, ◌≤◌, ◌<◌, ◌≡◌, refl, sym, ap, ◌∙◌, update_self, inl, inr, some, List, [], ◌∷◌,
  arith, length, eq→==, ne→==, Option-cases,
}
use microthread.State.{Code, Chan, Runtime}
use microthread.Transitions.{set_chan, complete_channel_wait}
use microthread.SelectWait.{complete_waiter}
use microthread.Queue.Fifo
use microthread.Chan.{pop_select_send, pop_select_recv}
use microthread.Chan.Frame.{Shrunk, chan-complete_channel_wait, complete_waiter-Shrunk}
use microthread.Chan.Stable.{Stable, length-rest, length_of_none}
use microthread.Chan.Ops.{
  drain, drain_all, end_send, end_recv, end_select_send, end_select_recv, wake_closed_waiters,
}

-- `b` is `a` with some waiters of any kind taken out
pub record Fewer (a b : Chan) : Type 0 where
  pub capacity : b.capacity ≡ a.capacity
  pub len : b.len ≡ a.len
  pub head : b.head ≡ a.head
  pub tail : b.tail ≡ a.tail
  pub buffer : b.buffer ≡ a.buffer
  pub closed : b.closed ≡ a.closed
  pub send : length b.send ≤ length a.send
  pub recv : length b.recv ≤ length a.recv
  pub select_send : length b.select_send ≤ length a.select_send
  pub select_recv : length b.select_recv ≤ length a.select_recv

abbrev pub AllFewer : Runtime → Runtime → Type 0
AllFewer rt rt' = (c : ℕ) → Fewer (rt.chan c) (rt'.chan c)

Fewer-refl : (a : Chan) → Fewer a a
Fewer-refl a = ground arith

Fewer-trans : (a b c : Chan) → Fewer a b → Fewer b c → Fewer a c
Fewer-trans a b c p q = ground arith

AllFewer-trans : (x y z : Runtime) → AllFewer x y → AllFewer y z → AllFewer x z
AllFewer-trans x y z p q c = Fewer-trans (x.chan c) (y.chan c) (z.chan c) (p c) (q c)

Fewer-of_Shrunk : (a b : Chan) → Shrunk a b → Fewer a b
Fewer-of_Shrunk a b s = ground arith

pub Fewer-Stable : (a b : Chan) → Fewer a b → Stable a → Stable b
Fewer-Stable a b f s = ground arith

Fewer-set_chan :
    (rt : Runtime) (c : ℕ) (x : Chan) → Fewer (rt.chan c) x → AllFewer rt (set_chan rt c x)
Fewer-set_chan rt c x f d = elim (ℕ_discrete c d) [
  | yes e ↦ rw (eq→== c d e) (subst (λ k. Fewer (rt.chan k) x) e f)
  | no ne ↦ rw (ne→== c d ne) (Fewer-refl (rt.chan d))
]

add_one_le : {m n : ℕ} → m ≤ n → suc m ≤ suc n
add_one_le h = omega arith

-- A loop that takes a waiter out in each round empties its queue.
module _ (queue : Chan → List ℕ) (end_one : Runtime → ℕ → ℕ → Runtime)
    (fewer : (rt : Runtime) (c x : ℕ) → AllFewer rt (end_one rt c x))
    (shorter : (rt : Runtime) (c x : ℕ)
      → Fifo.first (queue (rt.chan c)) ≡ some x
      → length (queue ((end_one rt c x).chan c)) < length (queue (rt.chan c))) where
  pub drain_lem :
      (k : ℕ) (rt : Runtime) (c : ℕ)
      → length (queue (rt.chan c)) ≤ k
      → AllFewer rt (drain queue end_one k rt c)
        × (length (queue ((drain queue end_one k rt c).chan c)) ≡ 0)
  unfolding drain
  drain_lem zero rt c h = (λ d. Fewer-refl (rt.chan d), omega (arith, h))
  drain_lem (suc k) rt c h = elim (Option-cases (Fifo.first (queue (rt.chan c)))) [
    | inl e ↦ rw (e, drain) (λ d. Fewer-refl (rt.chan d), length_of_none (queue (rt.chan c)) e)
    | inr (x, e) ↦
        let rt' = end_one rt c x in
        let (f, z) = drain_lem k rt' c (omega (arith, shorter rt c x e)) in
        rw (e, drain)
          (
            λ d.
                Fewer-trans (rt.chan d) (rt'.chan d) ((drain queue end_one k rt' c).chan d)
                  (fewer rt c x d) (f d),
            z,
          )
  ]

end_channel_wait :
    (rt : Runtime) (c t : ℕ) (x : Chan)
    → Fewer (rt.chan c) x
    → AllFewer rt (complete_channel_wait (set_chan rt c x) t Code.err_closed)
end_channel_wait rt c t x f =
    subst (λ (g : ℕ → Chan). (d : ℕ) → Fewer (rt.chan d) (g d))
      (sym (chan-complete_channel_wait (set_chan rt c x) t Code.err_closed))
      (Fewer-set_chan rt c x f)

end_select :
    (rt rt' : Runtime) (w : ℕ)
    → AllFewer rt rt'
    → AllFewer rt (complete_waiter rt' w Code.err_closed)
end_select rt rt' w f d =
    Fewer-trans (rt.chan d) (rt'.chan d) ((complete_waiter rt' w Code.err_closed).chan d) (f d) (
      Fewer-of_Shrunk (rt'.chan d) ((complete_waiter rt' w Code.err_closed).chan d)
        (complete_waiter-Shrunk rt' w Code.err_closed d))

drop-lt : (xs : List ℕ) (x : ℕ) → Fifo.first xs ≡ some x → length (Fifo.rest xs) < length xs
drop-lt [] x e = cc
drop-lt (y ∷ xs) x e = omega arith

chan-end :
    (rt : Runtime) (c t : ℕ) (x : Chan)
    → (complete_channel_wait (set_chan rt c x) t Code.err_closed).chan c ≡ x
chan-end rt c t x =
    ap (λ (f : ℕ → Chan). f c) (chan-complete_channel_wait (set_chan rt c x) t Code.err_closed)
    ∙ update_self rt.chan c x

-- what a loop of mt_chan_wake_closed_waiters leaves
abbrev Drained : (Chan → List ℕ) → (Runtime → ℕ → ℕ → Runtime) → Runtime → ℕ → Type 0
Drained queue end_one rt c =
    AllFewer rt (drain_all queue end_one rt c)
    × (length (queue ((drain_all queue end_one rt c).chan c)) ≡ 0)

drain_send : (rt : Runtime) (c : ℕ) → Drained (λ ch. ch.send) end_send rt c
drain_send rt c =
    drain_lem (λ ch. ch.send) end_send
      (λ rt d t. end_channel_wait rt d t _ (ground (arith, length-rest (rt.chan d).send)))
      (λ rt d t e. rw (chan-end rt d t _) (drop-lt (rt.chan d).send t e)) (length (rt.chan c).send)
      rt c (omega arith)

drain_recv : (rt : Runtime) (c : ℕ) → Drained (λ ch. ch.recv) end_recv rt c
drain_recv rt c =
    drain_lem (λ ch. ch.recv) end_recv
      (λ rt d t. end_channel_wait rt d t _ (ground (arith, length-rest (rt.chan d).recv)))
      (λ rt d t e. rw (chan-end rt d t _) (drop-lt (rt.chan d).recv t e)) (length (rt.chan c).recv)
      rt c (omega arith)

drain_select_send : (rt : Runtime) (c : ℕ) → Drained (λ ch. ch.select_send) end_select_send rt c
drain_select_send rt c =
    drain_lem (λ ch. ch.select_send) end_select_send
      (λ rt d w.
        end_select rt (pop_select_send rt d w) w
          (Fewer-set_chan rt d _ (ground (arith, length-rest (rt.chan d).select_send))))
      (λ rt d w e.
        le_trans
          (add_one_le
            (complete_waiter-Shrunk (pop_select_send rt d w) w Code.err_closed d).select_send)
          (rw (eq→== d d refl) (drop-lt (rt.chan d).select_send w e)))
      (length (rt.chan c).select_send) rt c (omega arith)

drain_select_recv : (rt : Runtime) (c : ℕ) → Drained (λ ch. ch.select_recv) end_select_recv rt c
drain_select_recv rt c =
    drain_lem (λ ch. ch.select_recv) end_select_recv
      (λ rt d w.
        end_select rt (pop_select_recv rt d w) w
          (Fewer-set_chan rt d _ (ground (arith, length-rest (rt.chan d).select_recv))))
      (λ rt d w e.
        le_trans
          (add_one_le
            (complete_waiter-Shrunk (pop_select_recv rt d w) w Code.err_closed d).select_recv)
          (rw (eq→== d d refl) (drop-lt (rt.chan d).select_recv w e)))
      (length (rt.chan c).select_recv) rt c (omega arith)

-- nobody waits on the channel
pub record IsIdle (ch : Chan) : Type 0 where
  pub send : length ch.send ≡ 0
  pub recv : length ch.recv ≡ 0
  pub select_send : length ch.select_send ≡ 0
  pub select_recv : length ch.select_recv ≡ 0

pub wake_lem :
    (rt : Runtime) (c : ℕ)
    → AllFewer rt (wake_closed_waiters rt c) × IsIdle ((wake_closed_waiters rt c).chan c)
unfolding wake_closed_waiters
wake_lem rt c =
    let a = drain_all (λ ch. ch.send) end_send rt c in
    let b = drain_all (λ ch. ch.recv) end_recv a c in
    let d = drain_all (λ ch. ch.select_send) end_select_send b c in
    let (fa, za) = drain_send rt c in
    let (fb, zb) = drain_recv a c in
    let (fd, zd) = drain_select_send b c in
    let (fe, ze) = drain_select_recv d c in
    (
      AllFewer-trans rt a (wake_closed_waiters rt c) fa (
          AllFewer-trans a b (wake_closed_waiters rt c) fb
            (AllFewer-trans b d (wake_closed_waiters rt c) fd fe)),
      record {
        send = omega (arith, fb c, fd c, fe c);
        recv = omega (arith, fd c, fe c);
        select_send = omega (arith, fe c);
        select_recv = ze;
      },
    )
