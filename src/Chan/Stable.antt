-- ===== src/Chan/Stable.antt =====
-- The stable states of a channel: nobody waits on it for what it could give at once, but for selects
-- that wait opposite each other.
use mathlib.Core.Path.{subst}
use native.Mathlib.Decide.{ℕ_discrete}
use microthread.Base.{
  ℕ, ◌≤◌, ◌<◌, ◌≡◌, refl, sym, ◌⊎◌, false, Option, none, some, List, [], ◌∷◌, arith, length, eq→==,
  ne→==,
}
use microthread.State.{Ptr, Elem, Code, Chan, Runtime}
use microthread.Transitions.{set_chan, complete_channel_wait}
use microthread.SelectWait.{complete_waiter}
use microthread.Queue.Fifo
use microthread.Chan.{store, pop_send, pop_recv, pop_select_send, pop_select_recv}
use microthread.Chan.Frame.{Shrunk, AllShrunk, chan-complete_channel_wait, complete_waiter-Shrunk}

-- A receiver waits only on an empty channel without senders, a sender only on a full one without
-- receivers, and nobody on a closed one. A select may wait to send and to receive.
pub record Stable (ch : Chan) : Type 0 where
  pub fits : ch.len ≤ ch.capacity
  pub receivers :
      (length ch.recv ≡ 0) ⊎ (length ch.send ≡ 0) × (length ch.select_send ≡ 0) × (ch.len ≡ 0)
  pub select_receivers : (length ch.select_recv ≡ 0) ⊎ (length ch.send ≡ 0) × (ch.len ≡ 0)
  pub senders : (length ch.send ≡ 0) ⊎ (ch.len ≡ ch.capacity)
  pub select_senders : (length ch.select_send ≡ 0) ⊎ (ch.len ≡ ch.capacity)
  pub shut :
      (ch.closed ≡ false)
      ⊎ (length ch.send ≡ 0)
        × (length ch.recv ≡ 0)
        × (length ch.select_send ≡ 0)
        × (length ch.select_recv ≡ 0)

abbrev pub AllStable : Runtime → Type 0
AllStable rt = (c : ℕ) → Stable (rt.chan c)

pub Shrunk-Stable : (a b : Chan) → Shrunk a b → Stable a → Stable b
Shrunk-Stable a b h s = ground arith

pub AllShrunk-Stable : (rt rt' : Runtime) → AllShrunk rt rt' → AllStable rt → AllStable rt'
AllShrunk-Stable rt rt' h s c = Shrunk-Stable (rt.chan c) (rt'.chan c) (h c) (s c)

-- one channel is written
pub set_chan-Stable :
    (rt : Runtime) (c : ℕ) (x : Chan) → Stable x → AllStable rt → AllStable (set_chan rt c x)
set_chan-Stable rt c x h s d = elim (ℕ_discrete c d) [
  | yes e ↦ rw (eq→== c d e) h
  | no ne ↦ rw (ne→== c d ne) (s d)
]

pub chan_eq-Stable : (rt rt' : Runtime) → rt'.chan ≡ rt.chan → AllStable rt → AllStable rt'
chan_eq-Stable rt rt' e s = subst (λ (f : ℕ → Chan). (c : ℕ) → Stable (f c)) (sym e) s

pub complete_channel_wait-Stable :
    (rt : Runtime) (t : ℕ) (r : Code) → AllStable rt → AllStable (complete_channel_wait rt t r)
complete_channel_wait-Stable rt t r =
    chan_eq-Stable rt (complete_channel_wait rt t r) (chan-complete_channel_wait rt t r)

pub complete_waiter-Stable :
    (rt : Runtime) (w : ℕ) (r : Code) → AllStable rt → AllStable (complete_waiter rt w r)
complete_waiter-Stable rt w r =
    AllShrunk-Stable rt (complete_waiter rt w r) (complete_waiter-Shrunk rt w r)

pub store-Stable : (rt : Runtime) (p : Ptr) (v : Elem) → AllStable rt → AllStable (store rt p v)
unfolding store
store-Stable rt none v s = s
store-Stable rt (some p) v s = s

pub length-rest : (xs : List ℕ) → length (Fifo.rest xs) ≤ length xs
length-rest [] = omega arith
length-rest (x ∷ xs) = omega arith

pub length_of_none : (xs : List ℕ) → Fifo.first xs ≡ none → length xs ≡ 0
length_of_none [] e = refl
length_of_none (x ∷ xs) e = cc

pub length_of_some : (xs : List ℕ) (x : ℕ) → Fifo.first xs ≡ some x → 0 < length xs
length_of_some [] x e = cc
length_of_some (y ∷ xs) x e = omega arith

-- a queue without its first member
pub pop_send-Stable : (rt : Runtime) (c : ℕ) → AllStable rt → AllStable (pop_send rt c)
pop_send-Stable rt c s =
    set_chan-Stable rt c _ (ground (arith, s c, length-rest (rt.chan c).send)) s

pub pop_recv-Stable : (rt : Runtime) (c : ℕ) → AllStable rt → AllStable (pop_recv rt c)
pop_recv-Stable rt c s =
    set_chan-Stable rt c _ (ground (arith, s c, length-rest (rt.chan c).recv)) s

pub pop_select_send-Stable :
    (rt : Runtime) (c w : ℕ) → AllStable rt → AllStable (pop_select_send rt c w)
pop_select_send-Stable rt c w s =
    set_chan-Stable rt c _ (ground (arith, s c, length-rest (rt.chan c).select_send)) s

pub pop_select_recv-Stable :
    (rt : Runtime) (c w : ℕ) → AllStable rt → AllStable (pop_select_recv rt c w)
pop_select_recv-Stable rt c w s =
    set_chan-Stable rt c _ (ground (arith, s c, length-rest (rt.chan c).select_recv)) s

-- the property holds of the value, if there is one
abbrev pub WhenDone {ℓ κ} : {A : Type ℓ} → (A → Type κ) → Option A → Type κ
WhenDone P none = Unit
WhenDone P (some a) = P a
