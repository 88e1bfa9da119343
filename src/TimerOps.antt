-- ===== src/TimerOps.antt =====
-- src/timer.c on the runtime: growth of the heap's array, push, pop and removal of a task.
-- Whether the allocator can serve a request is an argument, from the size in bytes.
use microthread.Base.{
  ℕ, zero, suc, ◌+◌, ◌*◌, ◌%◌, Bool, true, false, Option, none, some, [], ◌∷◌, ltb, leb, ◌==◌,
  if◌then◌else◌, ◌>>=◌, length, update,
}
use microthread.State.{Ptr, word_mod, Code, is_ok, TaskState, TimerHeap, Runtime}
use microthread.Transitions.{set_task, notify}
use microthread.Timer.{push_items, pop_items, index_of, remove_at}

-- `sizeof(mt_task_t *)`
abbrev pub pointer_size : ℕ
pointer_size = 8

-- `while (new_cap < needed) new_cap *= 2u;`
unfoldable pub double_until : ℕ → ℕ → ℕ → Option ℕ
double_until zero needed cap = none
double_until (suc k) needed cap =
    let more = double_until k needed (cap * 2 % word_mod) in
    if ltb cap needed then more else some cap

module _ (allocates : ℕ → Bool) where
  unfoldable pub timer_reserve : TimerHeap → ℕ → Option (Code × TimerHeap)
  unfolding double_until
  timer_reserve h needed =
      let start = if h.cap == 0 then 16 else h.cap * 2 % word_mod in
      let grow = double_until 64 needed start >>= λ new_cap. some (
        if allocates (new_cap * pointer_size % word_mod)
        then (Code.ok, record h { cap = new_cap })
        else (Code.err_nomem, h)) in
      if leb needed h.cap then some (Code.ok, h) else grow

-- the new heap, or the old one where the model of the array operation faults
abbrev pub or_same {ℓ} : {A : Type ℓ} → A → Option A → A
or_same a none = a
or_same a (some b) = b

unfoldable pub timer_remove : Runtime → ℕ → Bool × Runtime
timer_remove rt t = elim (index_of rt.timers.items t 0) [
  | none ↦ (false, rt)
  | some i ↦
      let items = or_same rt.timers.items (remove_at rt.task rt.timers.items i) in
      (
        true,
        set_task (record rt { timers = record (rt.timers) { items = items } }) t
            (record (rt.task t) { wake_ns = 0 }),
      )
]

unfoldable pub timer_pop : Runtime → Ptr × Runtime
timer_pop rt = elim rt.timers.items [
  | [] ↦ (none, rt)
  | x ∷ xs ↦
      let (top, items) = or_same (x, xs) (pop_items rt.task rt.timers.items) in
      (
        some top,
        set_task (record rt { timers = record (rt.timers) { items = items } }) top
            (record (rt.task top) { wake_ns = 0 }),
      )
]

-- after mt_timer_reserve has succeeded
unfoldable pub timer_insert : Runtime → ℕ → ℕ → TaskState → Runtime
timer_insert rt t deadline state =
    let h = rt.timers in
    let keyed =
      update rt.task t
        (record (rt.task t) { wake_ns = deadline; timer_seq = h.next_seq; state = state }) in
    notify (record rt {
      task = keyed;
      timers = record h {
        items = or_same h.items (push_items keyed h.items t);
        next_seq = (h.next_seq + 1) % word_mod;
      };
    })

unfoldable pub timer_push_state : (ℕ → Bool) → Runtime → ℕ → ℕ → TaskState → Option (Code × Runtime)
unfolding timer_reserve
timer_push_state allocates rt t deadline state = do
  (rc, heap) ← timer_reserve allocates rt.timers (length rt.timers.items + 1)
  some (
      if is_ok rc
      then (Code.ok, timer_insert (record rt { timers = heap }) t deadline state)
      else (Code.err_nomem, rt))
