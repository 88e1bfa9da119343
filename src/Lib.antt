-- ===== src/Lib.antt =====
-- MicroThread, a library of cooperative tasks in C: tasks with their own stacks run on worker
-- threads, and wait for channels, for several channels at once (select), for timers, for other
-- tasks and for file descriptors. All state lies in one global runtime, `g_rt`, behind one lock; a
-- public call takes the lock, changes the state, and either returns or parks the calling task and
-- switches to the scheduler with the lock held. The model follows this: a call is a function from
-- the runtime's state to a result and a new state, and a call that parks the task ends with
-- `parked`. Steps of other workers can come only between two calls, or where a call gives the lock
-- up, which is an argument of its model (`between`).
--
-- The files, with the code that they model:
--   State        src/runtime_internal.h, src/fd_wait_internal.h and include/microthread.h: the
--                structs as records, the enumerations as data types. Objects lie in stores from
--                addresses to records; the intrusive queues are lists of addresses.
--   Queue        src/wait_queue.c and src/run_queue.c with their head, tail, count and links.
--                Queue.Fifo has the lists that the rest of the model uses, Queue.Insert and
--                Queue.Remove compare the linked queues with them.
--   Transitions  src/task_state.c: mt_task_mark_ready, mt_task_block_on_channel and so on.
--   Timer        the array of the heap in src/timer.c; TimerOps its operations on the runtime:
--                mt_timer_reserve, mt_timer_push_state, mt_timer_pop, mt_timer_remove.
--   Deadline     the arithmetic on deadlines of src/scheduler.c, src/channel.c and src/io.c.
--   SelectWait   src/select_wait.c: how the wait of a select ends.
--   Chan         src/channel.c: the ring buffer and what can be done at once; Chan.Ops the public
--                operations mt_chan_send to mt_chan_is_closed. Chan.Pending has the abstract view:
--                what a channel has to give, its buffer and then its waiting senders.
--   Select       mt_select of src/channel.c.
--   Fd           the fd waiters and generations of src/io_backend.c; FdApi the calls mt_fd_adopt,
--                mt_fd_release, mt_fd_close and mt_fd_wait of src/io.c; FdApi.Reuse what a number
--                that is closed and opened again keeps.
--   Io           mt_fd_read and mt_fd_write of src/io.c, and their variants for sockets; Net
--                mt_net_listen_tcp and mt_net_accept.
--   Poll         src/io_backend_poll.c.
--   Epoll        src/io_backend_epoll.c, and what mt_fd_waiter_add and mt_fd_waiter_deactivate do with
--                it; Kqueue src/io_backend_kqueue.c likewise. The kernel is an interface.
--   IoBackend    the start and the end of the backend, its choice, and the flag that lets one worker
--                poll, in src/io_backend.c. Its child Wake has the wake pipe, an interface.
--   Join         src/join.c, and join, cancel, status and release of src/task.c.
--   Scheduler    src/scheduler.c: one round of mt_worker_loop, mt_task_after_switch, mt_yield,
--                mt_sleep_ms; mt_wake_expired_timers of src/timer.c.
--   Run          mt_worker_loop as a whole, mt_run_internal, mt_run, mt_runtime_start and
--                mt_runtime_workers of src/scheduler.c, with the threads.
--   Registry     the linked registries of src/runtime.c and the list of fd waiters.
--   Status       src/status.c. Hooks src/testing_hooks.c.
--   Stack        src/stack.c in the POSIX build with guard pages.
--   Lifecycle    src/runtime_lifecycle.c: mt_init_with_options, mt_init and mt_shutdown.
--   Create       mt_create_task_internal, mt_go and its variants and mt_task_cancelled of
--                src/task.c, with the memory and the mappings that the process holds.
--   Steps        the runtime as a whole: a step relation with a constructor for each operation of
--                a task or a worker, and the states that can be reached.
--   Base         shared helpers; Tests the theorems at concrete values.
--
-- Numbers are natural numbers; where the code computes on size_t or uint64_t near the limit, the
-- wrap-around is written out (the counts of the queues, `timer_seq`, the heap's capacity, the
-- deadlines, the fd generations). The counters of tasks stay below 2 ^ 64, since each counted task
-- takes memory, and are not wrapped.
--
-- Fuel: the removal from a queue has one unit for each member and one more; the loops of the heap
-- have the length of the array, since the position halves or grows in each round; the doubling of
-- the capacity has 64; the loops that empty a queue of waiters have its length, since each round
-- takes one waiter out and none comes in; the loop over the waiters of a descriptor that epoll reports
-- has 3, since each round clears one of two bits; the removal from a registry has one unit for each
-- object and one more; the wake-up of timers has the number of timers; the loop of mt_shutdown over
-- the tasks takes one off the registry in each round; a drain of the wake pipe has one unit for each
-- byte and each signal and one more, and a wake one for each signal and one more.
--
-- What is outside: memory allocation, the clock, mmap, poll, fcntl, close and the result of a backend
-- registration are arguments. Freed objects stay in their stores and are not used again. The lock
-- and the condition variable are not modelled, but the calls of mt_notify_one and mt_notify_all
-- are counted.
--
-- Not modelled: the context switch (src/context*.c), which is assembly, ucontext or fibers; the
-- last errno of src/status.c, a thread-local number, but for the calls of a drain; the lock, the
-- condition variable and the thread-local pointers of src/runtime.c.
pub mod Base
pub mod Queue
pub mod Registry
pub mod Stack
pub mod State
pub mod Status
pub mod Timer
pub mod Transitions
pub mod TimerOps
pub mod SelectWait
pub mod Deadline
pub mod Chan
pub mod Select
pub mod Fd
pub mod FdApi
pub mod Io
pub mod Net
pub mod Poll
pub mod Epoll
pub mod Kqueue
pub mod IoBackend
pub mod Join
pub mod Lifecycle
pub mod Create
pub mod Steps
pub mod Scheduler
pub mod Run
pub mod Hooks
pub mod Tests
