-- ===== src/Status.antt =====
-- src/status.c: the messages of the result codes and the names of the task states.
pub mod Messages
use Prim.Native.String.{String}
use microthread.Base.{ℕ, Option, none, some}
use microthread.State.{Code, TaskStatus}

-- mt_strerror; `none` is a number that is no result code
unfoldable pub strerror : Option Code → String
strerror none = "unknown microthread error"
strerror (some Code.ok) = "ok"
strerror (some Code.err) = "microthread error"
strerror (some Code.err_invalid) = "invalid argument"
strerror (some Code.err_nomem) = "out of memory"
strerror (some Code.err_state) = "invalid runtime state"
strerror (some Code.err_closed) = "closed"
strerror (some Code.err_cancelled) = "cancelled"
strerror (some Code.err_would_block) = "operation would block"
strerror (some Code.err_timeout) = "operation timed out"
strerror (some Code.err_io) = "i/o error"
strerror (some Code.err_backend) = "i/o backend error"
strerror (some Code.err_addrinfo) = "address resolution error"
strerror (some Code.err_unsupported) = "operation unsupported on this platform"

-- mt_task_status_name; `none` is a number that is no status
unfoldable pub task_status_name : Option TaskStatus → String
task_status_name none = "unknown"
task_status_name (some TaskStatus.ready) = "ready"
task_status_name (some TaskStatus.running) = "running"
task_status_name (some TaskStatus.sleeping) = "sleeping"
task_status_name (some TaskStatus.waiting_chan) = "waiting_chan"
task_status_name (some TaskStatus.waiting_join) = "waiting_join"
task_status_name (some TaskStatus.done) = "done"
task_status_name (some TaskStatus.cancelled) = "cancelled"
task_status_name (some TaskStatus.waiting_select) = "waiting_select"
task_status_name (some TaskStatus.waiting_fd) = "waiting_fd"
