-- ===== src/Status/Messages.antt =====
-- Each result code has a message of its own, and each status a name of its own.
use Prim.Native.String.{String}
use text.Mathlib.Text.{◌==◌ as str_eq}
use microthread.Base.{◌≡◌, refl, sym, ap, ◌∙◌, Option, none, some, if◌then◌else◌}
use microthread.State.{Code, TaskStatus}
use microthread.Status.{strerror, task_status_name}

-- the code that a message tells of
code_told : String → Option Code
code_told s =
    if str_eq s "ok"
    then some Code.ok
    else (if str_eq s "microthread error"
        then some Code.err
        else (if str_eq s "invalid argument"
            then some Code.err_invalid
            else (if str_eq s "out of memory"
                then some Code.err_nomem
                else (if str_eq s "invalid runtime state"
                    then some Code.err_state
                    else (if str_eq s "closed"
                        then some Code.err_closed
                        else (if str_eq s "cancelled"
                            then some Code.err_cancelled
                            else (if str_eq s "operation would block"
                                then some Code.err_would_block
                                else (if str_eq s "operation timed out"
                                    then some Code.err_timeout
                                    else (if str_eq s "i/o error"
                                        then some Code.err_io
                                        else (if str_eq s "i/o backend error"
                                            then some Code.err_backend
                                            else (if str_eq s "address resolution error"
                                                then some Code.err_addrinfo
                                                else (if str_eq s
                                                      "operation unsupported on this platform"
                                                    then some Code.err_unsupported
                                                    else none))))))))))))

code_told-strerror : (c : Option Code) → code_told (strerror c) ≡ c
unfolding code_told strerror
code_told-strerror none = refl
code_told-strerror (some Code.ok) = refl
code_told-strerror (some Code.err) = refl
code_told-strerror (some Code.err_invalid) = refl
code_told-strerror (some Code.err_nomem) = refl
code_told-strerror (some Code.err_state) = refl
code_told-strerror (some Code.err_closed) = refl
code_told-strerror (some Code.err_cancelled) = refl
code_told-strerror (some Code.err_would_block) = refl
code_told-strerror (some Code.err_timeout) = refl
code_told-strerror (some Code.err_io) = refl
code_told-strerror (some Code.err_backend) = refl
code_told-strerror (some Code.err_addrinfo) = refl
code_told-strerror (some Code.err_unsupported) = refl

-- Two numbers with the same message are the same result code, or neither is one.
pub strerror_injective : (a b : Option Code) → strerror a ≡ strerror b → a ≡ b
strerror_injective a b e = sym (code_told-strerror a) ∙ ap code_told e ∙ code_told-strerror b

-- the status that a name tells of
status_told : String → Option TaskStatus
status_told s =
    if str_eq s "ready"
    then some TaskStatus.ready
    else (if str_eq s "running"
        then some TaskStatus.running
        else (if str_eq s "sleeping"
            then some TaskStatus.sleeping
            else (if str_eq s "waiting_chan"
                then some TaskStatus.waiting_chan
                else (if str_eq s "waiting_join"
                    then some TaskStatus.waiting_join
                    else (if str_eq s "done"
                        then some TaskStatus.done
                        else (if str_eq s "cancelled"
                            then some TaskStatus.cancelled
                            else (if str_eq s "waiting_select"
                                then some TaskStatus.waiting_select
                                else (if str_eq s "waiting_fd"
                                    then some TaskStatus.waiting_fd
                                    else none))))))))

status_told-name : (s : Option TaskStatus) → status_told (task_status_name s) ≡ s
unfolding status_told task_status_name
status_told-name none = refl
status_told-name (some TaskStatus.ready) = refl
status_told-name (some TaskStatus.running) = refl
status_told-name (some TaskStatus.sleeping) = refl
status_told-name (some TaskStatus.waiting_chan) = refl
status_told-name (some TaskStatus.waiting_join) = refl
status_told-name (some TaskStatus.done) = refl
status_told-name (some TaskStatus.cancelled) = refl
status_told-name (some TaskStatus.waiting_select) = refl
status_told-name (some TaskStatus.waiting_fd) = refl

-- Two numbers with the same name are the same status, or neither is one.
pub task_status_name_injective :
    (a b : Option TaskStatus) → task_status_name a ≡ task_status_name b → a ≡ b
task_status_name_injective a b e = sym (status_told-name a) ∙ ap status_told e ∙ status_told-name b
