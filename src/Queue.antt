-- ===== src/Queue.antt =====
-- src/wait_queue.c and src/run_queue.c: intrusive singly linked queues. A queue is a head and a tail
-- pointer with a count; the links are a field of the queued objects (`wait_next`, `chan_next`,
-- `next`), here a store from addresses to addresses. `none` is NULL.
pub mod Fifo
pub mod Chain
pub mod Insert
pub mod Remove
use microthread.Base.{
  ℕ, zero, suc, ◌+◌, ◌-◌, ◌%◌, ◌^◌, Bool, true, false, Option, none, some, ltb, ◌==◌, if◌then◌else◌,
  update,
}

abbrev pub Ptr : Type 0
Ptr = Option ℕ

-- `*head`, `*tail` and `*count` (a `size_t`), and the link field of every object.
pub record Queue : Type 0 where
  pub head : Ptr
  pub tail : Ptr
  pub count : ℕ
  pub next : ℕ → Ptr

abbrev pub size_mod : ℕ
size_mod = 2 ^ 64

abbrev pub empty : Queue
empty = record { head = none; tail = none; count = 0; next = λ _. none }

-- `if (*count > 0) (*count)--;`
abbrev pub guarded_dec : ℕ → ℕ
guarded_dec n = if ltb 0 n then n - 1 else n

-- the part of a push before the count: `task` becomes the last object
unfoldable pub link_last : Queue → ℕ → Queue
link_last q task =
    let cleared = update q.next task none in
    elim q.tail [
      | none ↦ record q { head = some task; tail = some task; next = cleared }
      | some last ↦ record q { tail = some task; next = update cleared last (some task) }
    ]

unfoldable pub chan_waitq_push : Queue → ℕ → Queue
unfolding link_last
chan_waitq_push q task = let r = link_last q task in record r { count = (r.count + 1) % size_mod }

is_null : Ptr → Bool
is_null none = true
is_null (some _) = false

-- the part of a pop before the count: the first object leaves
unfoldable pub unlink_first : Queue → ℕ → Queue
unfolding is_null
unlink_first q task = record q {
  head = q.next task;
  tail = if is_null (q.next task) then none else q.tail;
  next = update q.next task none;
}

unfoldable pub chan_waitq_pop : Queue → Ptr × Queue
unfolding unlink_first
chan_waitq_pop q = elim q.head [
  | none ↦ (none, q)
  | some task ↦ let r = unlink_first q task in (some task, record r { count = guarded_dec r.count })
]

-- `*link`, where `link` points to the head or to the link field of `prev`
unfoldable pub link_value : Queue → Ptr → Ptr
link_value q none = q.head
link_value q (some p) = q.next p

-- `*link = v`
unfoldable pub set_link : Queue → Ptr → Ptr → Queue
set_link q none v = record q { head = v }
set_link q (some p) v = record q { next = update q.next p v }

tail_is : Ptr → ℕ → Bool
tail_is none t = false
tail_is (some l) t = l == t

-- the body of the loop's `if (*link == task)`
unfoldable pub unlink_at : Queue → Ptr → ℕ → Queue
unfolding set_link tail_is
unlink_at q prev task =
    let r = set_link q prev (q.next task) in
    record r {
      tail = if tail_is q.tail task then prev else q.tail;
      next = update r.next task none;
      count = guarded_dec q.count;
    }

-- The loop of the remove functions, on fuel: `none` means that the fuel ran out.
unfoldable pub remove_loop : ℕ → Queue → Ptr → ℕ → Option (Bool × Queue)
unfolding link_value unlink_at
remove_loop zero q prev task = none
remove_loop (suc k) q prev task = elim (link_value q prev) [
  | none ↦ some (false, q)
  | some p ↦ elim (p == task) [
    | true ↦ some (true, unlink_at q prev task)
    | false ↦ remove_loop k q (some p) task
  ]
]

abbrev pub waitq_remove : ℕ → Queue → ℕ → Option (Bool × Queue)
waitq_remove fuel q task = remove_loop fuel q none task

-- A queue of select waiters also keeps the `active` field of its members.
pub record SelectQueue : Type 0 where
  pub queue : Queue
  pub active : ℕ → Bool

unfoldable pub select_waitq_push : SelectQueue → ℕ → SelectQueue
unfolding chan_waitq_push
select_waitq_push s w = record {
  queue = chan_waitq_push s.queue w;
  active = update s.active w true;
}

unfoldable pub select_waitq_pop : SelectQueue → Ptr × SelectQueue
unfolding chan_waitq_pop
select_waitq_pop s =
    let (w, q) = chan_waitq_pop s.queue in
    (w, elim w [ none ↦ s | some p ↦ record { queue = q; active = update s.active p false } ])

unfoldable pub select_waitq_remove : ℕ → SelectQueue → ℕ → Option (Bool × SelectQueue)
select_waitq_remove fuel s w = elim (waitq_remove fuel s.queue w) [
  | none ↦ none
  | some (found, q) ↦
      some
        (found, record { queue = q; active = if found then update s.active w false else s.active })
]

-- The run queue counts in `runnable_count`; its pop decrements with no test.
abbrev pub runq_push : Queue → ℕ → Queue
runq_push = chan_waitq_push

unfoldable pub runq_pop : Queue → Ptr × Queue
unfolding unlink_first
runq_pop q = elim q.head [
  | none ↦ (none, q)
  | some task ↦
      let r = unlink_first q task in
      (some task, record r { count = (r.count + size_mod - 1) % size_mod })
]

abbrev pub runq_remove : ℕ → Queue → ℕ → Option (Bool × Queue)
runq_remove = waitq_remove
