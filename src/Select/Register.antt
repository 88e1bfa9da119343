-- ===== src/Select/Register.antt =====
-- The second half of mt_select: registration and parking on channels on which every case would
-- block.
use microthread.Base.{
  ℕ, ◌+◌, ◌≡◌, refl, if◌then◌else◌, inl, inr, true, false, Bool, Option, none, some, List, [], ◌∷◌,
  arith, length, length-append, Option-cases, if_both,
}
use microthread.State.{
  Ptr, Code, is_ok, TaskState, SelectOp, op_recv, op_send, op_default, op_timeout, TimerHeap,
  Runtime,
}
use microthread.Transitions.{notify, set_task, block_on_select}
use microthread.Deadline.{deadline_after}
use microthread.TimerOps.{timer_push_state, timer_insert, timer_reserve}
use microthread.SelectWait.{free_task_waiters}
use microthread.Chan.Frame.{free-Shrunk}
use microthread.Chan.Ops.{Outcome}
use microthread.Chan.Stable.{AllStable, AllShrunk-Stable, set_chan-Stable, chan_eq-Stable}
use microthread.Select.{SelectCase, Plan, channel_of, enqueue, register, reset, switch_timed, arm}
use microthread.Select.Unready.{IsUnready, AllUnready}

enqueue-Stable :
    (rt : Runtime) (t : ℕ) (k : SelectCase) (c w i : ℕ)
    → channel_of k ≡ some c
    → IsUnready k.op (rt.chan c)
    → AllStable rt
    → AllStable (enqueue rt t k c w i)
unfolding enqueue channel_of
enqueue-Stable rt t k c w i e u s =
    set_chan-Stable rt c _
      (ground (
        arith,
        s c,
        length-append (rt.chan c).select_send (w ∷ []),
        length-append (rt.chan c).select_recv (w ∷ []),
      ))
      s

-- the waiters of a select are no hindrance to its other cases
enqueue-IsUnready :
    (rt : Runtime) (t : ℕ) (k : SelectCase) (c w i : ℕ) (op : SelectOp) (d : ℕ)
    → IsUnready op (rt.chan d)
    → IsUnready op ((enqueue rt t k c w i).chan d)
unfolding enqueue
enqueue-IsUnready rt t k c w i op_recv d u = ground arith
enqueue-IsUnready rt t k c w i op_send d u = ground arith
enqueue-IsUnready rt t k c w i op_default d u = tt
enqueue-IsUnready rt t k c w i op_timeout d u = tt

enqueue-AllUnready :
    (rt : Runtime) (t : ℕ) (k : SelectCase) (c w i : ℕ) (ks : List SelectCase)
    → AllUnready rt ks
    → AllUnready (enqueue rt t k c w i) ks
enqueue-AllUnready rt t k c w i [] u = tt
enqueue-AllUnready rt t k c w i (j ∷ ks) u =
    (λ d e. enqueue-IsUnready rt t k c w i j.op d (u.0 d e), enqueue-AllUnready rt t k c w i ks u.1)

channel_of-ch :
    (op : SelectOp) (ch value : Ptr) (ms c : ℕ)
    → channel_of (record { op = op; ch = ch; value = value; timeout_ms = ms }) ≡ some c
    → ch ≡ some c
unfolding channel_of
channel_of-ch op_recv ch value ms c e = e
channel_of-ch op_send ch value ms c e = e
channel_of-ch op_default ch value ms c e = cc
channel_of-ch op_timeout ch value ms c e = cc

free-Stable : (rt : Runtime) (t : ℕ) → AllStable rt → AllStable (free_task_waiters rt t)
free-Stable rt t s = AllShrunk-Stable rt (free_task_waiters rt t) (free-Shrunk rt t) s

-- Registration keeps every channel stable, also where it runs out of memory.
pub register-Stable :
    (fresh : ℕ → Ptr) (rt : Runtime) (t : ℕ) (ks : List SelectCase) (i : ℕ)
    → AllUnready rt ks
    → AllStable rt
    → AllStable (register fresh rt t ks i).1
unfolding register
register-Stable fresh rt t [] i u s = s
register-Stable fresh rt t (k ∷ ks) i u s = elim (Option-cases (channel_of k)) [
  | inl e ↦ rw (e, register) (register-Stable fresh rt t ks (i + 1) u.1 s)
  | inr (c, e) ↦
      rw (e, register)
        (elim (Option-cases (fresh i)) [
          | inl f ↦ rw (f, register) (free-Stable rt t s)
          | inr (w, f) ↦
              rw (f, register)
                (register-Stable fresh (enqueue rt t k c w i) t ks (i + 1)
                  (enqueue-AllUnready rt t k c w i ks u.1)
                  (enqueue-Stable rt t k c w i e
                    (u.0 c (channel_of-ch k.op k.ch k.value k.timeout_ms c e)) s))
        ])
]

chan-block_on_select : (rt : Runtime) (t : ℕ) → (block_on_select rt t).chan ≡ rt.chan
unfolding block_on_select
chan-block_on_select rt t = ground arith

block_on_select-Stable : (rt : Runtime) (t : ℕ) → AllStable rt → AllStable (block_on_select rt t)
block_on_select-Stable rt t = chan_eq-Stable rt (block_on_select rt t) (chan-block_on_select rt t)

insert-chan :
    (rt : Runtime) (heap : TimerHeap) (t at_ns : ℕ) (state : TaskState)
    → (timer_insert (record rt { timers = heap }) t at_ns state).chan ≡ rt.chan
unfolding timer_insert notify
insert-chan rt heap t at_ns state =
    if_both (λ (r : Runtime). r.chan ≡ rt.chan) rt.initialized refl refl

-- the push of a timer leaves the channels as they are
pub timer_push-chan :
    (allocates : ℕ → Bool) (rt : Runtime) (t at_ns : ℕ) (state : TaskState) (rc : Code)
    (r : Runtime)
    → timer_push_state allocates rt t at_ns state ≡ some (rc, r)
    → r.chan ≡ rt.chan
unfolding timer_push_state
timer_push-chan allocates rt t at_ns state rc r e =
    elim (Option-cases (timer_reserve allocates rt.timers (length rt.timers.items + 1))) [
      | inl f ↦ absurd (none≢some (rw (f, timer_push_state) at e))
      | inr ((code, heap), f) ↦ by_code (is_ok code) heap (rw (f, timer_push_state) at e)
    ]
  where
    none≢some : Path (Option (Code × Runtime)) none (some (rc, r)) → ⊥
    none≢some h = ground arith

    by_code :
        (done : Bool) (heap : TimerHeap)
        → Path
            (Option (Code × Runtime))
            (some (
              if done
              then (Code.ok, timer_insert (record rt { timers = heap }) t at_ns state)
              else (Code.err_nomem, rt)))
            (some (rc, r))
        → r.chan ≡ rt.chan
    by_code true heap h = ground (arith, insert-chan rt heap t at_ns state)
    by_code false heap h = ground arith

switch_timed-Stable :
    (rt : Runtime) (t : ℕ) (pushed : Option (Code × Runtime))
    → ((rc : Code) (r : Runtime) → pushed ≡ some (rc, r) → AllStable r)
    → AllStable rt
    → AllStable (switch_timed rt t pushed).1
unfolding switch_timed
switch_timed-Stable rt t none h s = free-Stable rt t s
switch_timed-Stable rt t (some (rc, r)) h s =
    if_both (λ (x : Outcome × Runtime). AllStable x.1) (is_ok rc)
      (block_on_select-Stable (set_task r t (record (r.task t) { select_in_timer = true })) t
        (h rc r refl))
      (free-Stable rt t s)

pub arm-Stable :
    (allocates : ℕ → Bool) (now : ℕ) (rt : Runtime) (t : ℕ) (p : Plan)
    → AllStable rt
    → AllStable (arm allocates now rt t p).1
unfolding arm
arm-Stable allocates now rt t p s = elim (Option-cases p.timeout_index) [
  | inl e ↦ rw (e, arm) (block_on_select-Stable rt t s)
  | inr (i, e) ↦
      let indexed = set_task rt t (record (rt.task t) { select_index = i }) in
      rw (e, arm)
        (switch_timed-Stable indexed t _
          (λ rc r f.
            chan_eq-Stable indexed r
              (timer_push-chan allocates indexed t (deadline_after now p.timeout_ms)
                TaskState.waiting_select rc r f)
              s)
          s)
]

-- the reset of the task's fields leaves the channels as they are
pub reset-unready :
    (rt : Runtime) (t : ℕ) (p : Plan) (ks : List SelectCase)
    → AllUnready rt ks
    → AllUnready (reset rt t p) ks
unfolding reset
reset-unready rt t p [] u = tt
reset-unready rt t p (k ∷ ks) u = (u.0, reset-unready rt t p ks u.1)

pub reset-Stable : (rt : Runtime) (t : ℕ) (p : Plan) → AllStable rt → AllStable (reset rt t p)
unfolding reset
reset-Stable rt t p s = s
