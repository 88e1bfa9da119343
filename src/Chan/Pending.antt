-- ===== src/Chan/Pending.antt =====
-- What a channel has to give: the elements in its buffer, then those of the tasks that wait to send.
use mathlib.Core.Path.{subst}
use native.Mathlib.Decide.{ℕ_discrete}
use microthread.Base.{
  ℕ, ◌≡◌, ◌≢◌, refl, sym, ap, ◌∙◌, true, false, none, some, List, [], ◌∷◌, ◌++◌, arith, has, eq→==,
  ne→==,
}
use microthread.State.{Ptr, Elem, Code, Task, Chan, Runtime}
use microthread.Transitions.{set_chan, mark_ready, complete_channel_wait, runq_push, notify}
use microthread.Chan.{load, store}
use microthread.Chan.Ring.{contents}
use microthread.Chan.Frame.{chan-complete_channel_wait}

-- the elements that the tasks offer, in the order of the queue
unfoldable pub offers : Runtime → List ℕ → List Elem
offers rt [] = []
offers rt (t ∷ ts) = load rt (rt.task t).chan_value ∷ offers rt ts

unfoldable pub pending : Runtime → ℕ → List Elem
pending rt c = contents (rt.chan c) ++ offers rt (rt.chan c).send

load-mem : (rt rt' : Runtime) (p : Ptr) → rt'.mem ≡ rt.mem → load rt' p ≡ load rt p
unfolding load
load-mem rt rt' none e = refl
load-mem rt rt' (some p) e = ap (λ (f : ℕ → Elem). f p) e

-- tasks that offer the same in two states
pub offers-agree :
    (rt rt' : Runtime) (ts : List ℕ)
    → ((t : ℕ)
        → has t ts ≡ true
        → load rt' (rt'.task t).chan_value ≡ load rt (rt.task t).chan_value)
    → offers rt' ts ≡ offers rt ts
unfolding offers
offers-agree rt rt' [] same = refl
offers-agree rt rt' (t ∷ ts) same =
    ground (arith, same t, eq→== t t refl, offers-agree rt rt' ts λ u h. same u (ground (arith, h)))

pub offers-frame :
    (rt rt' : Runtime) (ts : List ℕ)
    → rt'.mem ≡ rt.mem
    → ((t : ℕ) → has t ts ≡ true → (rt'.task t).chan_value ≡ (rt.task t).chan_value)
    → offers rt' ts ≡ offers rt ts
offers-frame rt rt' ts e same =
    offers-agree rt rt' ts
      λ t h. load-mem rt rt' (rt'.task t).chan_value e ∙ ap (load rt) (same t h)

-- an element of a list without doubles is not among the others
pub ne_of_has : (t u : ℕ) (ts : List ℕ) → has t ts ≡ false → has u ts ≡ true → t ≢ u
ne_of_has t u ts out h e = ground (arith, subst (λ x. has x ts ≡ false) e out)

load-store_ne :
    (rt : Runtime) (q : Ptr) (out : ℕ) (v : Elem)
    → q ≢ some out
    → load (store rt (some out) v) q ≡ load rt q
unfolding load store
load-store_ne rt none out v ne = refl
load-store_ne rt (some p) out v ne = elim (ℕ_discrete out p) [
  | yes e ↦ absurd (ne (ap some (sym e)))
  | no n ↦ rw (ne→== out p n) refl
]

-- the end of a channel wait touches no other task's offer
module _ (rt : Runtime) (t : ℕ) (r : Code) where
  pub mem-complete_channel_wait : (complete_channel_wait rt t r).mem ≡ rt.mem
  unfolding complete_channel_wait mark_ready runq_push notify
  mem-complete_channel_wait = ground arith

  pub chan_value-complete_channel_wait :
      (u : ℕ) → t ≢ u → ((complete_channel_wait rt t r).task u).chan_value ≡ (rt.task u).chan_value
  unfolding complete_channel_wait mark_ready runq_push notify
  chan_value-complete_channel_wait u ne = ground (arith, ne→== t u ne)

  pub pending-complete_channel_wait :
      (c : ℕ)
      → has t (rt.chan c).send ≡ false
      → pending (complete_channel_wait rt t r) c ≡ pending rt c
  unfolding pending
  pending-complete_channel_wait c out =
      let rt' = complete_channel_wait rt t r in
      subst
        (λ (f : ℕ → Chan).
          contents (f c) ++ offers rt' (f c).send
          ≡ contents (rt.chan c) ++ offers rt (rt.chan c).send)
        (sym (chan-complete_channel_wait rt t r))
        (ap (λ (xs : List Elem). contents (rt.chan c) ++ xs)
          (offers-frame rt rt' (rt.chan c).send mem-complete_channel_wait
            λ u h. chan_value-complete_channel_wait u (ne_of_has t u (rt.chan c).send out h)))

-- one channel is written
pub pending-set_chan :
    (rt : Runtime) (c : ℕ) (x : Chan) → pending (set_chan rt c x) c ≡ contents x ++ offers rt x.send
unfolding pending
pending-set_chan rt c x = rw (eq→== c c refl) (
    ap (λ (xs : List Elem). contents x ++ xs)
      (offers-frame rt (set_chan rt c x) x.send refl λ u h. refl))

-- nobody on the channel offers what lies at `out`
abbrev pub OffersElsewhere : Runtime → ℕ → ℕ → Type 0
OffersElsewhere rt c out =
    (t : ℕ) → has t (rt.chan c).send ≡ true → (rt.task t).chan_value ≢ some out

pub offers-store :
    (rt : Runtime) (out : ℕ) (v : Elem) (ts : List ℕ)
    → ((t : ℕ) → has t ts ≡ true → (rt.task t).chan_value ≢ some out)
    → offers (store rt (some out) v) ts ≡ offers rt ts
unfolding store
offers-store rt out v ts away =
    offers-agree rt (store rt (some out) v) ts
      λ t h. load-store_ne rt (rt.task t).chan_value out v (away t h)

-- the end of a channel wait, in a state that differs from `rt` in the channel `c` only
pub pending_ended :
    (rt s : Runtime) (c t : ℕ) (r : Code) (x : Chan)
    → s.chan c ≡ x
    → s.mem ≡ rt.mem
    → s.task ≡ rt.task
    → has t x.send ≡ false
    → pending (complete_channel_wait s t r) c ≡ contents x ++ offers rt x.send
unfolding pending
pending_ended rt s c t r x at m k out =
    pending-complete_channel_wait s t r c (subst (λ (y : Chan). has t y.send ≡ false) (sym at) out)
    ∙ subst (λ (y : Chan). contents y ++ offers s y.send ≡ contents x ++ offers rt x.send) (sym at)
        (ap (λ (xs : List Elem). contents x ++ xs)
          (offers-frame rt s x.send m λ u h. ap (λ (f : ℕ → Task). (f u).chan_value) k))
