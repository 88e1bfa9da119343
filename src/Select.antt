-- ===== src/Select.antt =====
-- mt_select of src/channel.c. The lock is free between the tries and the registration; what other
-- workers do there is `between`. The waiters' addresses are an argument, `none` where the allocator
-- has no memory. The enumeration has no value but the four operations.
pub mod Unready
pub mod Register
pub mod Live
pub mod Parks
pub mod Race
use microthread.Base.{
  ℕ, zero, suc, ◌+◌, ◌-◌, ◌*◌, ◌/◌, Bool, true, false, Option, none, some, List, [], ◌∷◌, ltb, ◌==◌,
  ◌&&◌, not, if◌then◌else◌, length,
}
use microthread.State.{
  Ptr, Code, is_ok, TaskState, SelectOp, op_recv, op_send, op_default, op_timeout, SelectWaiter,
  Runtime,
}
use microthread.Transitions.{set_task, set_chan, set_waiter, block_on_select}
use microthread.Deadline.{deadline_after}
use microthread.TimerOps.{timer_push_state}
use microthread.SelectWait.{free_task_waiters}
use microthread.Queue.Fifo
use microthread.Chan.Ops.{Outcome, returned, parked, chan_try_send, chan_try_recv}

pub record SelectCase : Type 0 where
  pub op : SelectOp
  pub ch : Ptr
  pub value : Ptr
  pub timeout_ms : ℕ

-- The locals that the first loop sets; `none` is SIZE_MAX.
pub record Plan : Type 0 where
  pub default_index : Option ℕ
  pub timeout_index : Option ℕ
  pub timeout_ms : ℕ
  pub channel_cases : ℕ

is_set : Option ℕ → Bool
is_set none = false
is_set (some x) = true

-- one round of the first loop; `none`: MT_ERR_INVALID
unfoldable pub plan_case : SelectCase → ℕ → Plan → Option Plan
unfolding is_set
plan_case k i p = elim k.op [
  | op_recv ↦
      if is_set k.ch && is_set k.value
      then some (record p { channel_cases = p.channel_cases + 1 })
      else none
  | op_send ↦
      if is_set k.ch && is_set k.value
      then some (record p { channel_cases = p.channel_cases + 1 })
      else none
  | op_default ↦ if is_set p.default_index then none else some (record p { default_index = some i })
  | op_timeout ↦
      if is_set p.timeout_index
      then none
      else some (record p { timeout_index = some i; timeout_ms = k.timeout_ms })
]

unfoldable pub plan_from : List SelectCase → ℕ → Plan → Option Plan
unfolding plan_case
plan_from [] i p = some p
plan_from (k ∷ ks) i p = elim (plan_case k i p) [ none ↦ none | some q ↦ plan_from ks (i + 1) q ]

unfoldable pub plan : List SelectCase → Option Plan
unfolding plan_from
plan ks =
    plan_from ks 0
      (record { default_index = none; timeout_index = none; timeout_ms = 0; channel_cases = 0 })

unfoldable pub is_would_block : Code → Bool
is_would_block Code.err_would_block = true
is_would_block _ = false

-- mt_select_try_case on a channel case; the other cases are passed over, as if they would block
unfoldable pub try_case : Runtime → SelectCase → Code × Runtime
try_case rt k = elim k.op [
  | op_recv ↦ chan_try_recv rt k.ch k.value
  | op_send ↦ chan_try_send rt k.ch k.value
  | op_default ↦ (Code.err_would_block, rt)
  | op_timeout ↦ (Code.err_would_block, rt)
]

-- the second loop: the first case that does not block, with its code
unfoldable pub try_cases : Runtime → List SelectCase → ℕ → Option (ℕ × Code) × Runtime
unfolding try_case is_would_block
try_cases rt [] i = (none, rt)
try_cases rt (k ∷ ks) i =
    let (rc, done) = try_case rt k in
    let later = try_cases done ks (i + 1) in
    if is_would_block rc then later else (some (i, rc), done)

-- one round of the registration loop: a new waiter, last in its channel's queue
unfoldable pub enqueue : Runtime → ℕ → SelectCase → ℕ → ℕ → ℕ → Runtime
enqueue rt t k c w i =
    let x = rt.task t in
    let made = set_waiter rt w (record {
      task = some t;
      ch = some c;
      op = k.op;
      value = k.value;
      index = i;
      active = true;
    }) in
    let owned = set_task made t (record x {
      select_waiters = w ∷ x.select_waiters;
      select_waiter_count = x.select_waiter_count + 1;
    }) in
    set_chan owned c (elim k.op [
      | op_send ↦ record (owned.chan c) { select_send = Fifo.push (owned.chan c).select_send w }
      | _ ↦ record (owned.chan c) { select_recv = Fifo.push (owned.chan c).select_recv w }
    ])

-- the channel of a case that is registered, NULL for the cases that are passed over
unfoldable pub channel_of : SelectCase → Ptr
channel_of k = elim k.op [ op_recv ↦ k.ch | op_send ↦ k.ch | _ ↦ none ]

-- The registration loop: whether it found memory for all waiters.
unfoldable pub register : (ℕ → Ptr) → Runtime → ℕ → List SelectCase → ℕ → Bool × Runtime
unfolding channel_of enqueue
register fresh rt t [] i = (true, rt)
register fresh rt t (k ∷ ks) i = elim (channel_of k) [
  | none ↦ register fresh rt t ks (i + 1)
  | some c ↦ elim (fresh i) [
    | none ↦ (false, free_task_waiters rt t)
    | some w ↦ register fresh (enqueue rt t k c w i) t ks (i + 1)
  ]
]

-- the fields of the task that the registration resets
unfoldable pub reset : Runtime → ℕ → Plan → Runtime
reset rt t p = set_task rt t (record (rt.task t) {
  select_waiters = [];
  select_waiter_count = 0;
  select_result = Code.ok;
  select_index = elim p.timeout_index [ none ↦ 0 | some i ↦ i ];
  select_in_timer = false;
  select_counted_waiting = false;
})

-- the end of the call, from the result of the timer's push
unfoldable pub switch_timed : Runtime → ℕ → Option (Code × Runtime) → Outcome × Runtime
unfolding is_ok
switch_timed rt t none = (returned Code.err_nomem, free_task_waiters rt t)
switch_timed rt t (some (rc, timed)) =
    if is_ok rc
    then (
      parked,
      block_on_select (set_task timed t (record (timed.task t) { select_in_timer = true })) t,
    )
    else (returned Code.err_nomem, free_task_waiters rt t)

-- the timer and the switch, once the waiters are registered
unfoldable pub arm : (ℕ → Bool) → ℕ → Runtime → ℕ → Plan → Outcome × Runtime
unfolding switch_timed
arm allocates now rt t p = elim p.timeout_index [
  | none ↦ (parked, block_on_select rt t)
  | some i ↦
      let indexed = set_task rt t (record (rt.task t) { select_index = i }) in
      switch_timed indexed t (
        timer_push_state allocates indexed t (deadline_after now p.timeout_ms)
          TaskState.waiting_select)
]

-- the rest of mt_select, from the second acquisition of the lock; the Outcome has the index with it
unfoldable pub park :
    (ℕ → Ptr) → (ℕ → Bool) → ℕ → Runtime → List SelectCase → Plan → Outcome × Runtime
unfolding is_set reset register arm
park fresh allocates now rt ks p = elim rt.current [
  | none ↦ (returned Code.err_state, rt)
  | some t ↦
      let (all, registered) = register fresh (reset rt t p) t ks 0 in
      if p.channel_cases == 0 && not (is_set p.timeout_index)
      then (returned Code.err_invalid, rt)
      else (if all then arm allocates now registered t p else (returned Code.err_nomem, registered))
]

-- the case that is taken without parking once no channel case can go on
unfoldable pub at_once : Plan → Option ℕ
unfolding is_set
at_once p = elim p.default_index [
  | some i ↦ some i
  | none ↦ if p.timeout_ms == 0 then p.timeout_index else none
]

-- mt_select: `selected_index` when it is set, with how the call ends. `between` is what other
-- workers do while the lock is free.
unfoldable pub select :
    (ℕ → Ptr)
    → (ℕ → Bool)
    → ℕ
    → (Runtime → Runtime)
    → Runtime
    → List SelectCase
    → (Option ℕ × Outcome) × Runtime
unfolding plan try_cases park at_once
select fresh allocates now between rt [] = ((none, returned Code.err_invalid), rt)
select fresh allocates now between rt (k ∷ ks) = elim (plan (k ∷ ks)) [
  | none ↦ ((none, returned Code.err_invalid), rt)
  | some p ↦
      let (taken, tried) = try_cases rt (k ∷ ks) 0 in
      let (outcome, after) = park fresh allocates now (between tried) (k ∷ ks) p in
      elim taken [
        | some (i, rc) ↦ ((some i, returned rc), tried)
        | none ↦ elim (at_once p) [
          | some i ↦ ((some i, returned Code.ok), tried)
          | none ↦ ((none, outcome), after)
        ]
      ]
]
