-- ===== src/Chan/Close.antt =====
-- mt_chan_close and mt_chan_destroy.
use mathlib.Core.Path.{subst}
use native.Mathlib.Decide.{ℕ_discrete}
use microthread.Base.{
  ℕ, ◌≡◌, ◌⊎◌, has, eq→==, refl, sym, update_self, true, false, none, some, ◌||◌, arith, length,
  ltb, if◌then◌else◌, ne→==, if_both, if_false,
}
use microthread.State.{Ptr, Code, Runtime}
use microthread.Transitions.{set_chan}
use microthread.Chan.Ring.{contents}
use microthread.Chan.Stable.{Stable, AllStable, set_chan-Stable}
use microthread.Chan.Drain.{Fewer, Fewer-Stable, IsIdle, wake_lem}
use microthread.Chan.Woken.{IsWoken}
use microthread.Chan.Selected.{IsOwned}
use microthread.Chan.Hanging.{IsSelected}
use microthread.Chan.Waking.{wake-IsWoken}
use microthread.Chan.Ending.{wake-IsSelected}
use microthread.Chan.Ops.{wake_closed_waiters, chan_close, chan_destroy, discard, zeroed}

abbrev marked : Runtime → ℕ → Runtime
marked rt c = set_chan rt c (record (rt.chan c) { closed = true })

-- the channels once the channel at `c` is closed and its waiters are woken
woken-Stable :
    (rt : Runtime) (c : ℕ) → AllStable rt → AllStable (wake_closed_waiters (marked rt c) c)
woken-Stable rt c s d =
    let (f, idle) = wake_lem (marked rt c) c in
    elim (ℕ_discrete c d) [
      | yes e ↦
          subst (λ k. Stable ((wake_closed_waiters (marked rt c) c).chan k)) e
            (ground
              (arith, f c, idle, s c, update_self rt.chan c (record (rt.chan c) { closed = true })))
      | no ne ↦
          Fewer-Stable (rt.chan d) _
            (subst (λ x. Fewer x ((wake_closed_waiters (marked rt c) c).chan d)) (rw (ne→== c d ne))
              (f d))
            (s d)
    ]

-- Where every channel is stable, a close leaves every channel stable.
pub close-Stable : (rt : Runtime) (ch : Ptr) → AllStable rt → AllStable (chan_close rt ch).1
unfolding chan_close
close-Stable rt none s = s
close-Stable rt (some c) s =
    if_both (λ (r : Code × Runtime). AllStable r.1) (rt.chan c).closed s (woken-Stable rt c s)

-- What the first close of a channel achieves: it is closed, nobody waits on it and its elements stay;
-- who waited to send or to receive is woken, and the select of whom waited in one is ended, each with
-- the code of a closed channel.
pub record Closed (before after : Runtime) (c : ℕ) : Type 0 where
  pub closed : (after.chan c).closed ≡ true
  pub idle : IsIdle (after.chan c)
  pub len : (after.chan c).len ≡ (before.chan c).len
  pub contents : contents (after.chan c) ≡ contents (before.chan c)
  pub woken :
      (t : ℕ)
      → (has t (before.chan c).send ≡ true) ⊎ (has t (before.chan c).recv ≡ true)
      → IsWoken Code.err_closed after t
  pub selected :
      (t w : ℕ)
      → (before.waiter w).task ≡ some t
      → (has w (before.chan c).select_send ≡ true) ⊎ (has w (before.chan c).select_recv ≡ true)
      → IsSelected Code.err_closed after t

close-open :
    (rt : Runtime) (c : ℕ)
    → (rt.chan c).closed ≡ false
    → chan_close rt (some c) ≡ (Code.ok, wake_closed_waiters (marked rt c) c)
unfolding chan_close
close-open rt c e = if_false (rt.chan c).closed _ _ e

woken-Closed :
    (rt : Runtime) (c : ℕ) → IsOwned rt → Closed rt (wake_closed_waiters (marked rt c) c) c
unfolding contents
woken-Closed rt c o =
    let (f, idle) = wake_lem (marked rt c) c in
    let at = update_self rt.chan c (record (rt.chan c) { closed = true }) in
    record {
      closed = ground (arith, f c, at);
      idle = idle;
      len = ground (arith, f c, at);
      contents = ground (arith, f c, at);
      woken = λ t h. wake-IsWoken (marked rt c) c t (rw (eq→== c c refl) h);
      selected = λ t w e h.
          wake-IsSelected (marked rt c) c w t (record { owned = o; owner = e })
            (rw (eq→== c c refl) h);
    }

-- Where each task lists only its own select waiters, the close of an open channel succeeds: the channel
-- is closed, nobody waits on it any more, and the elements in its buffer stay; each task that
-- waited to send or to receive, and each whose select waited on the channel, is ready and queued, and
-- its call returns the code of a closed channel.
pub close-Closed :
    (rt : Runtime) (c : ℕ)
    → (rt.chan c).closed ≡ false
    → IsOwned rt
    → ((chan_close rt (some c)).0 ≡ Code.ok) × Closed rt (chan_close rt (some c)).1 c
close-Closed rt c e o =
    subst (λ (r : Code × Runtime). (r.0 ≡ Code.ok) × Closed rt r.1 c) (sym (close-open rt c e))
      (refl, woken-Closed rt c o)

-- Closing a closed channel is refused, and changes nothing.
close-again :
    (rt : Runtime) (c : ℕ)
    → (rt.chan c).closed ≡ true
    → chan_close rt (some c) ≡ (Code.err_closed, rt)
unfolding chan_close
close-again rt c e = rw e

discard-Stable : (rt : Runtime) (c : ℕ) → AllStable rt → AllStable (discard rt c)
unfolding discard
discard-Stable rt c s = set_chan-Stable rt c zeroed (ground arith) s

-- Where every channel is stable, a destruction leaves every channel stable, whether it is refused
-- or not.
pub destroy-Stable : (rt : Runtime) (ch : Ptr) → AllStable rt → AllStable (chan_destroy rt ch).1
unfolding chan_destroy
destroy-Stable rt none s = s
destroy-Stable rt (some c) s =
    if_both (λ (r : Code × Runtime). AllStable r.1)
      (ltb 0 (length (rt.chan c).send) || ltb 0 (length (rt.chan c).recv)) s
      (discard-Stable
        (if ltb 0 (length (rt.chan c).select_send) || ltb 0 (length (rt.chan c).select_recv)
          then wake_closed_waiters (marked rt c) c
          else rt)
        c
        (if_both AllStable
          (ltb 0 (length (rt.chan c).select_send) || ltb 0 (length (rt.chan c).select_recv))
          (woken-Stable rt c s) s))
