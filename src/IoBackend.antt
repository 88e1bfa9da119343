-- ===== src/IoBackend.antt =====
-- The life of the I/O backend, src/io_backend.c with the initialisers of src/io_backend_epoll.c and
-- src/io_backend_kqueue.c: the descriptors that it holds, and the choice of the backend. What the
-- system calls give is an argument; the open descriptors of the process are a list.
pub mod Closes
pub mod Wake
use Prim.Native.String.{String}
use microthread.Base.{
  ℕ, Bool, true, false, Option, none, some, List, [], ◌∷◌, ◌==◌, ◌&&◌, ◌||◌, ltb, not,
  if◌then◌else◌, erase,
}
use microthread.State.{Ptr, Code, is_ok, Runtime}
use microthread.Transitions.{notify}
use microthread.Epoll.{EpollKernel, epoll_backend_add, epoll_backend_remove}
use microthread.Kqueue.{KqueueKernel, kqueue_backend_add, kqueue_backend_remove}

pub data BackendKind : Type 0 where
  kind_none kind_poll kind_epoll kind_kqueue : BackendKind

-- the fields io_backend_kind, io_backend_fd, io_wake_read_fd, io_wake_write_fd and io_polling of the
-- runtime, where `none` is -1, and the open descriptors
pub record Backend : Type 0 where
  pub kind : BackendKind
  pub backend_fd : Option ℕ
  pub wake_read : Option ℕ
  pub wake_write : Option ℕ
  pub polling : Bool
  pub opened : List ℕ

-- What fcntl gives: whether the flags have O_NONBLOCK, `none` where F_GETFL fails, whether F_SETFL
-- works, and whether an error is EBADF.
pub record Nonblocking : Type 0 where
  pub flags : Option Bool
  pub sets : Bool
  pub bad_fd : Bool

-- mt_io_error_from_errno(1)
abbrev pub io_error : Bool → Code
io_error bad_fd = if bad_fd then Code.err_invalid else Code.err_io

unfoldable pub fd_set_nonblocking : Nonblocking → Option ℕ → Code
fd_set_nonblocking os none = Code.err_invalid
fd_set_nonblocking os (some fd) = elim os.flags [
  | none ↦ io_error os.bad_fd
  | some nonblocking ↦ if nonblocking || os.sets then Code.ok else io_error os.bad_fd
]

-- What pipe gives, what fcntl gives for its ends, what epoll_create1 or kqueue gives, and
-- whether the pipe can be registered there.
pub record IoCalls : Type 0 where
  pub pipe : Option (ℕ × ℕ)
  pub nonblocking_read : Nonblocking
  pub nonblocking_write : Nonblocking
  pub instance_fd : Option ℕ
  pub registers : Bool

-- close(2)
abbrev pub close_fd : Option ℕ → List ℕ → List ℕ
close_fd none opened = opened
close_fd (some fd) opened = erase fd opened

unfoldable pub io_make_wake_pipe : IoCalls → Backend → Code × Backend
unfolding fd_set_nonblocking is_ok
io_make_wake_pipe os b = elim os.pipe [
  | none ↦ (Code.err_backend, b)
  | some (r, w) ↦
      let opened = r ∷ (w ∷ b.opened) in
      if is_ok (fd_set_nonblocking os.nonblocking_read (some r))
        && is_ok (fd_set_nonblocking os.nonblocking_write (some w))
      then (Code.ok, record b { wake_read = some r; wake_write = some w; opened = opened })
      else (Code.err_backend, record b { opened = close_fd (some w) (close_fd (some r) opened) })
]

-- mt_epoll_backend_init and mt_kqueue_backend_init, which differ in the kind
unfoldable pub instance_init : BackendKind → IoCalls → Backend → Code × Backend
instance_init kind os b = elim os.instance_fd [
  | none ↦ (Code.err_backend, b)
  | some fd ↦
      let made = record b { kind = kind; backend_fd = some fd; opened = fd ∷ b.opened } in
      if os.registers then (Code.ok, made) else (Code.err_backend, made)
]

unfoldable pub epoll_backend_init : IoCalls → Backend → Code × Backend
unfolding instance_init
epoll_backend_init os b = instance_init BackendKind.kind_epoll os b

unfoldable pub kqueue_backend_init : IoCalls → Backend → Code × Backend
unfolding instance_init
kqueue_backend_init os b = instance_init BackendKind.kind_kqueue os b

-- what the build has: MT_HAVE_EPOLL, MT_HAVE_KQUEUE, or neither
pub data Build : Type 0 where
  have_epoll have_kqueue have_poll : Build

unfoldable pub native_init : Build → IoCalls → Backend → Code × Backend
unfolding epoll_backend_init kqueue_backend_init
native_init have_epoll os b = epoll_backend_init os b
native_init have_kqueue os b = kqueue_backend_init os b
native_init have_poll os b = (Code.ok, b)

-- mt_io_backend_init
unfoldable pub io_backend_init : Build → IoCalls → Backend → Code × Backend
unfolding io_make_wake_pipe native_init is_ok
io_backend_init build os b =
    let cleared = record b {
      kind = BackendKind.kind_poll;
      backend_fd = none;
      wake_read = none;
      wake_write = none;
      polling = false;
    } in
    let (rc, piped) = io_make_wake_pipe os cleared in
    if is_ok rc then native_init build os piped else (rc, piped)

-- mt_io_backend_shutdown; the generations are those of the runtime
unfoldable pub io_backend_shutdown : Backend → Runtime → Backend × Runtime
io_backend_shutdown b rt = (
  record {
    kind = BackendKind.kind_none;
    backend_fd = none;
    wake_read = none;
    wake_write = none;
    polling = false;
    opened = close_fd b.wake_write (close_fd b.wake_read (close_fd b.backend_fd b.opened));
  },
  record rt { fd_generations = [] },
)

-- the part of mt_init_with_options that starts the backend, and stops it where that fails
unfoldable pub start_backend : Build → IoCalls → Backend → Runtime → Code × Backend × Runtime
unfolding io_backend_init io_backend_shutdown is_ok
start_backend build os b rt =
    let (rc, begun) = io_backend_init build os b in
    let (stopped, cleared) = io_backend_shutdown begun rt in
    if is_ok rc then (rc, begun, rt) else (rc, stopped, cleared)

unfoldable pub io_backend_name : BackendKind → String
io_backend_name BackendKind.kind_none = "none"
io_backend_name BackendKind.kind_poll = "poll"
io_backend_name BackendKind.kind_epoll = "epoll"
io_backend_name BackendKind.kind_kqueue = "kqueue"

-- The registration of a waiter, by the kind. A waiter of NULL is `none`.
module _ (ep : EpollKernel) (kq : KqueueKernel) where
  unfoldable pub io_backend_add :
      BackendKind
      → EpollKernel.Instance ep × KqueueKernel.Instance kq
      → Runtime
      → Ptr
      → Code × EpollKernel.Instance ep × KqueueKernel.Instance kq
  unfolding epoll_backend_add kqueue_backend_add
  io_backend_add kind (e, k) rt none = (Code.err_invalid, e, k)
  io_backend_add BackendKind.kind_none (e, k) rt (some w) = (Code.ok, e, k)
  io_backend_add BackendKind.kind_poll (e, k) rt (some w) = (Code.ok, e, k)
  io_backend_add BackendKind.kind_epoll (e, k) rt (some w) =
      let (rc, after) = epoll_backend_add ep e rt w in (rc, after, k)
  io_backend_add BackendKind.kind_kqueue (e, k) rt (some w) =
      let (rc, after) = kqueue_backend_add kq k rt w in (rc, e, after)

  -- `holds` says whether the backend has a descriptor
  unfoldable pub io_backend_remove :
      BackendKind
      → Bool
      → EpollKernel.Instance ep × KqueueKernel.Instance kq
      → Runtime
      → Ptr
      → EpollKernel.Instance ep × KqueueKernel.Instance kq
  unfolding epoll_backend_remove kqueue_backend_remove
  io_backend_remove kind holds (e, k) rt none = (e, k)
  io_backend_remove BackendKind.kind_none holds (e, k) rt (some w) = (e, k)
  io_backend_remove BackendKind.kind_poll holds (e, k) rt (some w) = (e, k)
  io_backend_remove BackendKind.kind_epoll holds (e, k) rt (some w) =
      let after = epoll_backend_remove ep e rt w in if holds then (after, k) else (e, k)
  io_backend_remove BackendKind.kind_kqueue holds (e, k) rt (some w) =
      let after = kqueue_backend_remove kq k rt w in if holds then (e, after) else (e, k)

-- a wait for the descriptors: it does nothing, waits for the worker that polls, or polls
pub data Polling : Type 0 where
  nothing_waits : Polling
  waits_for_signal : Polling
  waits_ms : ℕ → Polling
  polls : Polling

-- mt_poll_fd_waiters_with_timeout where there are OS threads. `wait` is the wait of the backend, with
-- what other workers do meanwhile, who find `polling` set.
unfoldable pub poll_fd_waiters_with_timeout :
    (Backend × Runtime → Backend × Runtime) → ℕ → Backend × Runtime → Polling × Backend × Runtime
poll_fd_waiters_with_timeout wait timeout (b, rt) =
    let (waited, after) = wait (record b { polling = true }, rt) in
    let no_pipe : Bool = elim b.wake_read [ none ↦ true | some fd ↦ false ] in
    if rt.fd_waiting_count == 0 && no_pipe
    then (nothing_waits, b, rt)
    else (if b.polling
        then (if ltb 0 timeout then (waits_ms timeout, b, rt) else (waits_for_signal, b, rt))
        else (polls, record waited { polling = false }, notify after))

-- mt_poll_fd_waiters_once
unfoldable pub poll_fd_waiters_once :
    (Backend × Runtime → Backend × Runtime) → Backend × Runtime → Polling × Backend × Runtime
unfolding poll_fd_waiters_with_timeout
poll_fd_waiters_once wait (b, rt) =
    if ltb 0 rt.fd_waiting_count
    then poll_fd_waiters_with_timeout wait 0 (b, rt)
    else (nothing_waits, b, rt)
