-- ===== src/Registry.antt =====
-- The registries of src/runtime.c with their links: the tasks (`all_next`), the channels and the handles
-- (`registry_next`); and the list of fd waiters of src/io_backend.c (`next`). The rest of the
-- development has lists of addresses for them.
pub mod Refined
use microthread.Base.{
  ℕ, zero, suc, Bool, true, false, Option, none, some, ◌==◌, if◌then◌else◌, update,
}
use microthread.State.{Ptr}

pub record Registry : Type 0 where
  pub head : Ptr
  pub next : ℕ → Ptr

-- mt_task_register, mt_chan_register, mt_handle_register, and the list in mt_fd_waiter_add
unfoldable pub register : Registry → ℕ → Registry
register r t = record { head = some t; next = update r.next t r.head }

-- `*link`, where `link` points to the head or to the link field of `prev`
unfoldable pub link_at : Registry → Ptr → Ptr
link_at r none = r.head
link_at r (some p) = r.next p

-- `*link = v`
unfoldable pub relink : Registry → Ptr → Ptr → Registry
relink r none v = record r { head = v }
relink r (some p) v = record r { next = update r.next p v }

-- the body of `if (*link == task)`
unfoldable pub take_out : Registry → Ptr → ℕ → Registry
unfolding relink
take_out r prev t =
    let linked = relink r prev (r.next t) in record linked { next = update linked.next t none }

-- The loop, on fuel, and whether the object was there, which only mt_fd_waiter_unlink returns; `none`
-- means that the fuel ran out.
unfoldable pub unregister_loop : ℕ → Registry → Ptr → ℕ → Option (Bool × Registry)
unfolding link_at take_out
unregister_loop zero r prev t = none
unregister_loop (suc k) r prev t = elim (link_at r prev) [
  | none ↦ some (false, r)
  | some p ↦ elim (p == t) [
    | true ↦ some (true, take_out r prev t)
    | false ↦ unregister_loop k r (some p) t
  ]
]

-- mt_task_unregister, mt_chan_unregister, mt_handle_unregister and mt_fd_waiter_unlink
unfoldable pub unregister : ℕ → Registry → ℕ → Option (Bool × Registry)
unfolding unregister_loop
unregister fuel r t = unregister_loop fuel r none t

-- mt_task_register and mt_task_unregister
abbrev pub task_register : Registry → ℕ → Registry
task_register tasks t = register tasks t

abbrev pub task_unregister : ℕ → Registry → ℕ → Option (Bool × Registry)
task_unregister fuel tasks t = unregister fuel tasks t

-- mt_chan_register and mt_chan_unregister
abbrev pub chan_register : Registry → ℕ → Registry
chan_register channels c = register channels c

abbrev pub chan_unregister : ℕ → Registry → ℕ → Option (Bool × Registry)
chan_unregister fuel channels c = unregister fuel channels c

-- mt_handle_register and mt_handle_unregister
abbrev pub handle_register : Registry → ℕ → Registry
handle_register handles h = register handles h

abbrev pub handle_unregister : ℕ → Registry → ℕ → Option (Bool × Registry)
handle_unregister fuel handles h = unregister fuel handles h

-- mt_fd_waiter_unlink
abbrev pub fd_waiter_unlink : ℕ → Registry → ℕ → Option (Bool × Registry)
fd_waiter_unlink fuel waiters w = unregister fuel waiters w
