-- ===== src/Select/Live.antt =====
-- mt_select as a whole.
use microthread.Base.{ℕ, ◌+◌, inl, inr, Bool, Option, List, [], ◌∷◌, Option-cases, if_both}
use microthread.State.{Ptr, Code, SelectOp, op_recv, op_send, op_default, op_timeout, Runtime}
use microthread.Chan.Ops.{Outcome, returned}
use microthread.Chan.Stable.{AllStable}
use microthread.Chan.Live.{try_send-Stable, try_recv-Stable}
use microthread.Select.{
  SelectCase, Plan, plan, is_would_block, try_case, try_cases, register, reset, arm, park, at_once,
  select,
}
use microthread.Select.Unready.{AllUnready, blocked-AllUnready, cases-blocked}
use microthread.Select.Register.{register-Stable, arm-Stable, reset-unready, reset-Stable}

try_case-Stable : (rt : Runtime) (k : SelectCase) → AllStable rt → AllStable (try_case rt k).1
unfolding try_case
try_case-Stable rt k s = by_op k.op k.ch k.value k.timeout_ms
  where
    by_op :
        (op : SelectOp) (ch value : Ptr) (ms : ℕ)
        → AllStable (try_case rt (record { op = op; ch = ch; value = value; timeout_ms = ms })).1
    by_op op_recv ch value ms = try_recv-Stable rt ch value s
    by_op op_send ch value ms = try_send-Stable rt ch value s
    by_op op_default ch value ms = s
    by_op op_timeout ch value ms = s

try_cases-Stable :
    (rt : Runtime) (ks : List SelectCase) (i : ℕ) → AllStable rt → AllStable (try_cases rt ks i).1
unfolding try_cases
try_cases-Stable rt [] i s = s
try_cases-Stable rt (k ∷ ks) i s =
    if_both (λ (r : Option (ℕ × Code) × Runtime). AllStable r.1) (is_would_block (try_case rt k).0)
      (try_cases-Stable (try_case rt k).1 ks (i + 1) (try_case-Stable rt k s))
      (try_case-Stable rt k s)

-- Parking keeps every channel stable where each case would still block.
pub park-Stable :
    (fresh : ℕ → Ptr) (allocates : ℕ → Bool) (now : ℕ) (rt : Runtime) (ks : List SelectCase)
    (p : Plan)
    → AllUnready rt ks
    → AllStable rt
    → AllStable (park fresh allocates now rt ks p).1
unfolding park
park-Stable fresh allocates now rt ks p u s = elim (Option-cases rt.current) [
  | inl e ↦ rw (e, park) s
  | inr (t, e) ↦
      let registered = (register fresh (reset rt t p) t ks 0).1 in
      let kept =
        register-Stable fresh (reset rt t p) t ks 0 (reset-unready rt t p ks u)
          (reset-Stable rt t p s) in
      let done =
        if_both (λ (x : Outcome × Runtime). AllStable x.1) (register fresh (reset rt t p) t ks 0).0
          {x = arm allocates now registered t p} {y = (returned Code.err_nomem, registered)}
          (arm-Stable allocates now registered t p kept) kept in
      rw (e, park)
        (if_both (λ (x : Outcome × Runtime). AllStable x.1) _ {x = (returned Code.err_invalid, rt)}
          s done)
]

-- Where every channel is stable and no other worker comes between the tries and the registration,
-- a select leaves every channel stable, however it ends.
pub select-Stable :
    (fresh : ℕ → Ptr) (allocates : ℕ → Bool) (now : ℕ) (rt : Runtime) (ks : List SelectCase)
    → AllStable rt
    → AllStable (select fresh allocates now (λ r. r) rt ks).1
unfolding select
select-Stable fresh allocates now rt [] s = s
select-Stable fresh allocates now rt (k ∷ ks) s = elim (Option-cases (plan (k ∷ ks))) [
  | inl e ↦ rw (e, select) s
  | inr (p, e) ↦
      rw (e, select)
        (elim (Option-cases (try_cases rt (k ∷ ks) 0).0) [
          | inr (taken, f) ↦ rw (f, select) (try_cases-Stable rt (k ∷ ks) 0 s)
          | inl f ↦
              let (same, unready) = cases-blocked rt (k ∷ ks) 0 f in
              rw (f, select)
                (elim (Option-cases (at_once p)) [
                  | inr (i, g) ↦ rw (g, select) (try_cases-Stable rt (k ∷ ks) 0 s)
                  | inl g ↦
                      rw (g, select, same)
                        (park-Stable fresh allocates now rt (k ∷ ks) p
                          (blocked-AllUnready rt (k ∷ ks) unready) s)
                ])
        ])
]
