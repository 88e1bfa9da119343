-- ===== src/Select/Race.antt =====
-- What other workers can do to mt_select while the lock is free between its tries and its
-- registration.
use microthread.Base.{
  ℕ, ◌<◌, ◌≡◌, refl, ap, Option, false, none, some, [], ◌∷◌, arith, length, length-append, Bool,
  eq→==,
}
use microthread.State.{Ptr, Code, op_recv, Chan, Runtime, Elem}
use microthread.Transitions.{block_on_select}
use microthread.Chan.{buffer_push, send_now, recv_now, recv_waiting, push_at}
use microthread.Chan.Ops.{parked, chan_try_send, chan_try_recv}
use microthread.Select.{
  SelectCase, plan_case, plan_from, plan, is_would_block, try_case, try_cases, channel_of, enqueue,
  register, reset, arm, park, at_once, select,
}

abbrev pub receive_case : ℕ → ℕ → SelectCase
receive_case c p = record { op = op_recv; ch = some c; value = some p; timeout_ms = 0 }

-- an open channel with room, on which nobody waits
pub record IsQuiet (ch : Chan) : Type 0 where
  pub open_ : ch.closed ≡ false
  pub empty : ch.len ≡ 0
  pub room : 0 < ch.capacity
  pub send : ch.send ≡ []
  pub recv : ch.recv ≡ []
  pub select_send : ch.select_send ≡ []
  pub select_recv : ch.select_recv ≡ []

quiet-recv :
    (rt : Runtime) (c p : ℕ)
    → IsQuiet (rt.chan c)
    → chan_try_recv rt (some c) (some p) ≡ (Code.err_would_block, rt)
unfolding chan_try_recv recv_now recv_waiting
quiet-recv rt c p h = ground (arith, h)

quiet-send :
    (rt : Runtime) (c q : ℕ)
    → IsQuiet (rt.chan c)
    → chan_try_send rt (some c) (some q) ≡ (Code.ok, push_at rt c (rt.mem q))
unfolding chan_try_send send_now
quiet-send rt c q h = ground (arith, h)

push_at-len : (rt : Runtime) (c : ℕ) (v : Elem) → 0 < ((push_at rt c v).chan c).len
unfolding buffer_push
push_at-len rt c v = rw (eq→== c c refl) (omega arith)

-- the part of the call that holds the lock, on one receive case
park-receive :
    (fresh : ℕ → Ptr) (allocates : ℕ → Bool) (now : ℕ) (rt : Runtime) (c p t w : ℕ)
    → fresh 0 ≡ some w
    → rt.current ≡ some t
    → let after = park fresh allocates now rt (receive_case c p ∷ []) (record {
      default_index = none;
      timeout_index = none;
      timeout_ms = 0;
      channel_cases = 1;
    }) in
      (after.0 ≡ parked)
      × ((after.1.chan c).len ≡ (rt.chan c).len)
      × (0 < length (after.1.chan c).select_recv)
unfolding park register channel_of enqueue reset arm block_on_select
park-receive fresh allocates now rt c p t w e f =
    rw (f, park, register, channel_of, e)
      (ground (arith, length-append (rt.chan c).select_recv (w ∷ [])))

quiet-tries :
    (rt : Runtime) (c p : ℕ)
    → IsQuiet (rt.chan c)
    → try_cases rt (receive_case c p ∷ []) 0 ≡ (none, rt)
unfolding try_cases try_case is_would_block
quiet-tries rt c p h = rw (try_cases, try_case, quiet-recv rt c p h) refl

-- on a quiet channel the call gets as far as the part that holds the lock
select-parks :
    (fresh : ℕ → Ptr) (allocates : ℕ → Bool) (now : ℕ) (between : Runtime → Runtime) (rt : Runtime)
    (c p : ℕ)
    → IsQuiet (rt.chan c)
    → (select fresh allocates now between rt (receive_case c p ∷ [])).1
      ≡ (park fresh allocates now (between rt) (receive_case c p ∷ []) (record {
        default_index = none;
        timeout_index = none;
        timeout_ms = 0;
        channel_cases = 1;
      })).1
unfolding select plan plan_from plan_case at_once
select-parks fresh allocates now between rt c p h =
    rw (select, quiet-tries rt c p h, at_once)
      (ap
        (λ (tried : Option (ℕ × Code) × Runtime).
          (park fresh allocates now (between tried.1) (receive_case c p ∷ []) (record {
            default_index = none;
            timeout_index = none;
            timeout_ms = 0;
            channel_cases = 1;
          })).1)
        (quiet-tries rt c p h))

-- Another worker may send between the tries of a select and its registration: where a task selects
-- to receive from an open channel with room on which nobody waits, that send comes in between, and
-- there is memory for the waiter, the waiter is queued on the channel while the buffer holds an
-- element.
pub select-race :
    (fresh : ℕ → Ptr) (allocates : ℕ → Bool) (now : ℕ) (rt : Runtime) (c p q t w : ℕ)
    → fresh 0 ≡ some w
    → rt.current ≡ some t
    → IsQuiet (rt.chan c)
    → let after =
        (select fresh allocates now
          (λ r. (chan_try_send r (some c) (some q)).1)
          rt
          (receive_case c p ∷ [])).1 in
      (0 < (after.chan c).len) × (0 < length (after.chan c).select_recv)
select-race fresh allocates now rt c p q t w e f h =
    rw
      (
        select-parks fresh allocates now (λ r. (chan_try_send r (some c) (some q)).1) rt c p h,
        quiet-send rt c q h,
      )
      (ground (
        arith,
        park-receive fresh allocates now (push_at rt c (rt.mem q)) c p t w e f,
        push_at-len rt c (rt.mem q),
      ))
