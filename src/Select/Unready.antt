-- ===== src/Select/Unready.antt =====
-- The first half of mt_select: what is known of the channels when every case would block.
use mathlib.Core.Path.{subst}
use microthread.Base.{
  ℕ, ◌+◌, ◌≤◌, ◌≡◌, refl, inl, inr, ◌∙◌, true, false, none, some, List, [], ◌∷◌, arith, length,
  Option-cases, Bool-cases,
}
use microthread.State.{Ptr, Code, SelectOp, op_recv, op_send, op_default, op_timeout, Chan, Runtime}
use microthread.Chan.{send_now, recv_now, recv_waiting}
use microthread.Chan.Ops.{chan_try_send, chan_try_recv}
use microthread.Chan.Stable.{length_of_none}
use microthread.Select.{SelectCase, is_would_block, try_case, try_cases}

-- A channel on which a case of this kind may wait for others.
abbrev pub IsUnready : SelectOp → Chan → Type 0
IsUnready op_recv ch = (ch.closed ≡ false) × (ch.len ≡ 0) × (length ch.send ≡ 0)
IsUnready op_send ch = (ch.closed ≡ false) × (length ch.recv ≡ 0) × (ch.capacity ≤ ch.len)
IsUnready op_default ch = Unit
IsUnready op_timeout ch = Unit

abbrev pub CaseUnready : Runtime → SelectCase → Type 0
CaseUnready rt k = (c : ℕ) → k.ch ≡ some c → IsUnready k.op (rt.chan c)

abbrev pub AllUnready : Runtime → List SelectCase → Type 0
AllUnready rt [] = Unit
AllUnready rt (k ∷ ks) = CaseUnready rt k × AllUnready rt ks

-- A channel on which a case of this kind finds nobody opposite, neither a call nor a select, and neither
-- an element nor room.
abbrev pub IsBlocked : SelectOp → Chan → Type 0
IsBlocked op_recv ch =
    (ch.closed ≡ false) × (ch.len ≡ 0) × (length ch.send ≡ 0) × (length ch.select_send ≡ 0)
IsBlocked op_send ch =
    (ch.closed ≡ false)
    × (length ch.recv ≡ 0)
    × (length ch.select_recv ≡ 0)
    × (ch.capacity ≤ ch.len)
IsBlocked op_default ch = Unit
IsBlocked op_timeout ch = Unit

abbrev pub AllBlocked : Runtime → List SelectCase → Type 0
AllBlocked rt [] = Unit
AllBlocked rt (k ∷ ks) = ((c : ℕ) → k.ch ≡ some c → IsBlocked k.op (rt.chan c)) × AllBlocked rt ks

blocked-IsUnready : (op : SelectOp) (ch : Chan) → IsBlocked op ch → IsUnready op ch
blocked-IsUnready op_recv ch b = (b.0, b.1, b.2)
blocked-IsUnready op_send ch b = (b.0, b.1, b.3)
blocked-IsUnready op_default ch b = tt
blocked-IsUnready op_timeout ch b = tt

pub blocked-AllUnready : (rt : Runtime) (ks : List SelectCase) → AllBlocked rt ks → AllUnready rt ks
blocked-AllUnready rt [] b = tt
blocked-AllUnready rt (k ∷ ks) b =
    (λ c e. blocked-IsUnready k.op (rt.chan c) (b.0 c e), blocked-AllUnready rt ks b.1)

send_now-none :
    (rt : Runtime) (c p : ℕ)
    → send_now rt c p ≡ none
    → (length (rt.chan c).recv ≡ 0)
      × (length (rt.chan c).select_recv ≡ 0)
      × ((rt.chan c).capacity ≤ (rt.chan c).len)
unfolding send_now
send_now-none rt c p e =
    ground (arith, length_of_none (rt.chan c).recv, length_of_none (rt.chan c).select_recv)

recv_now-none :
    (rt : Runtime) (c p : ℕ)
    → recv_now rt c p ≡ none
    → ((rt.chan c).len ≡ 0) × (length (rt.chan c).send ≡ 0) × (length (rt.chan c).select_send ≡ 0)
unfolding recv_now recv_waiting
recv_now-none rt c p e =
    ground (arith, length_of_none (rt.chan c).send, length_of_none (rt.chan c).select_send)

-- what is done at once never reports that it would block
recv_now-code :
    (rt : Runtime) (c p : ℕ) (r : Code × Runtime)
    → recv_now rt c p ≡ some r
    → is_would_block r.0 ≡ false
unfolding recv_now recv_waiting is_would_block
recv_now-code rt c p r e = ground arith

-- A nonblocking receive that would block has changed nothing, on a channel that has nothing.
try_recv-IsBlocked :
    (rt : Runtime) (c p : ℕ)
    → is_would_block (chan_try_recv rt (some c) (some p)).0 ≡ true
    → ((chan_try_recv rt (some c) (some p)).1 ≡ rt) × IsBlocked op_recv (rt.chan c)
unfolding chan_try_recv is_would_block
try_recv-IsBlocked rt c p = elim (Option-cases (recv_now rt c p)) [
  | inl e ↦ rw (e, chan_try_recv) (λ h. ground (arith, recv_now-none rt c p e))
  | inr (r, e) ↦ rw (e, chan_try_recv) (λ h. ground (arith, recv_now-code rt c p r e))
]

try_send-IsBlocked :
    (rt : Runtime) (c p : ℕ)
    → is_would_block (chan_try_send rt (some c) (some p)).0 ≡ true
    → ((chan_try_send rt (some c) (some p)).1 ≡ rt) × IsBlocked op_send (rt.chan c)
unfolding chan_try_send is_would_block
try_send-IsBlocked rt c p = elim (Option-cases (send_now rt c p)) [
  | inl e ↦ rw (e, chan_try_send) (λ h. ground (arith, send_now-none rt c p e))
  | inr (r, e) ↦ rw (e, chan_try_send) (λ h. ground arith)
]

-- a channel case that would block, by its operation
case-IsBlocked :
    (rt : Runtime) (op : SelectOp) (ch value : Ptr) (ms : ℕ)
    → is_would_block (try_case rt (record { op = op; ch = ch; value = value; timeout_ms = ms })).0
      ≡ true
    → ((try_case rt (record { op = op; ch = ch; value = value; timeout_ms = ms })).1 ≡ rt)
      × ((c : ℕ) → ch ≡ some c → IsBlocked op (rt.chan c))
unfolding try_case chan_try_recv chan_try_send is_would_block
case-IsBlocked rt op_recv none value ms h = cc
case-IsBlocked rt op_recv (some c) none ms h = cc
case-IsBlocked rt op_recv (some c) (some p) ms h =
    ((try_recv-IsBlocked rt c p h).0, λ d e. ground (arith, (try_recv-IsBlocked rt c p h).1))
case-IsBlocked rt op_send none value ms h = cc
case-IsBlocked rt op_send (some c) none ms h = cc
case-IsBlocked rt op_send (some c) (some p) ms h =
    ((try_send-IsBlocked rt c p h).0, λ d e. ground (arith, (try_send-IsBlocked rt c p h).1))
case-IsBlocked rt op_default ch value ms h = (refl, λ c e. tt)
case-IsBlocked rt op_timeout ch value ms h = (refl, λ c e. tt)

-- When no case is taken, nothing has changed and every case would block.
pub cases-blocked :
    (rt : Runtime) (ks : List SelectCase) (i : ℕ)
    → (try_cases rt ks i).0 ≡ none
    → ((try_cases rt ks i).1 ≡ rt) × AllBlocked rt ks
unfolding try_cases
cases-blocked rt [] i e = (refl, tt)
cases-blocked rt (k ∷ ks) i e = elim (Bool-cases (is_would_block (try_case rt k).0)) [
  | inl b ↦
      let done = (try_case rt k).1 in
      let here = case-IsBlocked rt k.op k.ch k.value k.timeout_ms b in
      let (same, unready) = cases-blocked done ks (i + 1) (rw (b, try_cases) at e) in
      (
        rw (b, try_cases) (same ∙ here.0),
        (here.1, subst (λ (r : Runtime). AllBlocked r ks) here.0 unready),
      )
  | inr b ↦ ground (arith, rw (b, try_cases) at e)
]
