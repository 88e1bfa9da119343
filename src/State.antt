-- ===== src/State.antt =====
-- include/microthread.h and src/runtime_internal.h: the types of the runtime and its state.
-- Objects lie in stores, from addresses to records; `none` is NULL. The intrusive queues are lists
-- of addresses, first to last (see Queue), so a waiter count is the length of its list.
use microthread.Base.{ℕ, Bool, true, false, Option, List, ◌^◌}

abbrev pub Ptr : Type 0
Ptr = Option ℕ

-- One channel element: `elem_size` bytes.
abbrev pub Elem : Type 0
Elem = List ℕ

abbrev pub word_mod : ℕ
word_mod = 2 ^ 64

-- The result codes, MT_OK to MT_ERR_UNSUPPORTED.
pub data Code : Type 0 where
  ok err err_invalid err_nomem err_state err_closed err_cancelled err_would_block : Code
  err_timeout err_io err_backend err_addrinfo err_unsupported : Code

-- `== MT_OK`
unfoldable pub is_ok : Code → Bool
is_ok Code.ok = true
is_ok _ = false

pub data TaskState : Type 0 where
  ready running sleeping waiting_chan waiting_select waiting_fd waiting_join dead : TaskState

pub data TaskStatus : Type 0 where
  ready running sleeping waiting_chan waiting_join done : TaskStatus
  cancelled waiting_select waiting_fd : TaskStatus

pub data ChanWaitKind : Type 0 where
  wait_none wait_send wait_recv : ChanWaitKind

pub data SelectOp : Type 0 where
  op_recv op_send op_default op_timeout : SelectOp

-- the bits MT_FD_READ and MT_FD_WRITE
pub record Events : Type 0 where
  pub read : Bool
  pub write : Bool

pub data FdWaiterState : Type 0 where
  removed active ready_reserved : FdWaiterState

pub record FdWaiter : Type 0 where
  pub task : Ptr
  pub fd : ℕ
  pub events : Events
  pub generation : ℕ
  pub state : FdWaiterState

-- `original_flags` of `none` is the -1 of an entry that was not adopted.
pub record FdGeneration : Type 0 where
  pub fd : ℕ
  pub generation : ℕ
  pub closing : Bool
  pub adopted : Bool
  pub original_flags : Option ℕ

-- The fields `next`, `wait_next` and `all_next` are in the lists; `fn`, `arg`, `stack` and `ctx`
-- belong to the context switch, which is not modelled.
pub record Task : Type 0 where
  pub id : ℕ
  pub state : TaskState
  pub wake_ns : ℕ
  pub timer_seq : ℕ
  pub handle : Ptr
  pub join_waiting_on : Ptr
  pub chan_wait_kind : ChanWaitKind
  pub chan_wait_ch : Ptr
  pub chan_value : Ptr
  pub chan_result : Code
  pub join_result : Code
  pub select_waiters : List ℕ
  pub select_waiter_count : ℕ
  pub select_index : ℕ
  pub select_result : Code
  pub select_in_timer : Bool
  pub select_counted_waiting : Bool
  pub fd_waiter : Ptr
  pub fd_result : Code
  pub fd_ready_events : Events
  pub fd_in_timer : Bool

pub record SelectWaiter : Type 0 where
  pub task : Ptr
  pub ch : Ptr
  pub op : SelectOp
  pub value : Ptr
  pub index : ℕ
  pub active : Bool

pub record Handle : Type 0 where
  pub task : Ptr
  pub status : TaskStatus
  pub cancel_requested : Bool
  pub completed : Bool
  pub released : Bool
  pub join_result : Code
  pub joiners : List ℕ

pub record Chan : Type 0 where
  pub elem_size : ℕ
  pub capacity : ℕ
  pub len : ℕ
  pub head : ℕ
  pub tail : ℕ
  pub buffer : List Elem
  pub closed : Bool
  pub send : List ℕ
  pub recv : List ℕ
  pub select_send : List ℕ
  pub select_recv : List ℕ

pub record TimerHeap : Type 0 where
  pub items : List ℕ
  pub cap : ℕ
  pub next_seq : ℕ

-- `signals` counts the calls of mt_notify_one and mt_notify_all, whose effect is outside.
pub record Runtime : Type 0 where
  pub initialized : Bool
  pub running : Bool
  pub stopping : Bool
  pub run_result : Code
  pub next_id : ℕ
  pub default_stack_size : ℕ
  pub running_tasks : ℕ
  pub current : Ptr
  pub all_tasks : List ℕ
  pub runq : List ℕ
  pub channels : List ℕ
  pub handles : List ℕ
  pub timers : TimerHeap
  pub live_count : ℕ
  pub completed_count : ℕ
  pub channel_waiting_count : ℕ
  pub join_waiting_count : ℕ
  pub fd_waiters : List ℕ
  pub fd_waiting_count : ℕ
  pub fd_generations : List FdGeneration
  pub task : ℕ → Task
  pub chan : ℕ → Chan
  pub handle : ℕ → Handle
  pub waiter : ℕ → SelectWaiter
  pub fd_waiter : ℕ → FdWaiter
  pub mem : ℕ → Elem
  pub signals : ℕ
