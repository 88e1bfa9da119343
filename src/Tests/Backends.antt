-- ===== src/Tests/Backends.antt =====
-- The theorems on the backends and on fd waits at concrete inputs.
use microthread.Base.{
  ℕ, ◌≡◌, refl, true, false, Option, none, some, [], ◌∷◌, ◌==◌, arith, if◌then◌else◌, update,
  Returns,
}
use microthread.State.{Code, Events, TaskState, FdGeneration, Runtime}
use microthread.Fd.{both_events, without}
use microthread.Fd.Counted.{IsCounted}
use microthread.Fd.Exclusive.{Excludes}
use microthread.FdApi.{PollResult, fd_wait}
use microthread.FdApi.Waits.{fd_wait-Excludes}
use microthread.Epoll.{
  EpollEvents, CtlOp, CtlResult, fits, registered_by, EpollKernel, epoll_events_from_fd_events,
  epoll_events_to_fd_events, epoll_waiter_add, epoll_waiter_deactivate, tell_ready,
}
use microthread.Epoll.Mirror.{
  IsMirrored, epoll_waiter_add-IsMirrored, epoll_waiter_deactivate-IsMirrored,
}
use microthread.Epoll.Rounds.{IsFresh, IsServed}
use microthread.Epoll.Served.{tell_ready-Returns}
use microthread.Kqueue.{KqueueKernel, kqueue_waiter_deactivate}
use microthread.Kqueue.Filters.{IsFiltered, kqueue_waiter_deactivate-IsFiltered}
use microthread.IoBackend.{BackendKind, Backend, Nonblocking, IoCalls, have_epoll, start_backend}
use microthread.IoBackend.Closes.{Starts, start_backend-Starts}
use microthread.Tests.{empty_channel, some_handle, world}

abbrev calm : Runtime
calm = world TaskState.waiting_fd empty_channel (some_handle [])

calm-Excludes : Excludes calm
calm-Excludes = record {
  distinct = (refl, tt);
  reserved = λ w h. ground arith;
  apart = λ v w h k ne e. absurd (ne (ground arith));
}

-- another wait on the descriptor 9, to write
fd_wait-Excludes_example :
    Excludes
      (fd_wait true
        (some 6)
        Code.ok
        (λ n. true)
        0
        PollResult.poll_quiet
        calm
        (some 9)
        (record { read = false; write = true })
        20).1
fd_wait-Excludes_example =
    fd_wait-Excludes true (some 6) Code.ok (λ n. true) 0 PollResult.poll_quiet calm (some 9)
      (record { read = false; write = true }) 20 (λ w e. ground (arith, e)) calm-Excludes

-- an epoll instance that is a table
abbrev table_ctl :
    (ℕ → Option EpollEvents) → CtlOp → ℕ → EpollEvents → CtlResult × (ℕ → Option EpollEvents)
table_ctl k op fd e =
    if fits op (k fd)
    then (CtlResult.done, update k fd (registered_by op e))
    else (CtlResult.refused, k)

table_done :
    (k : ℕ → Option EpollEvents) (op : CtlOp) (fd : ℕ) (e : EpollEvents)
    → true ≡ true
    → fits op (k fd) ≡ true
    → (table_ctl k op fd e).0 ≡ CtlResult.done
table_done k op fd e h f = rw f refl

table_sets :
    (k : ℕ → Option EpollEvents) (op : CtlOp) (fd : ℕ) (e : EpollEvents) (other : ℕ)
    → (table_ctl k op fd e).0 ≡ CtlResult.done
    → (table_ctl k op fd e).1 other ≡ (if fd == other then registered_by op e else k other)
table_sets k op fd e other h = ground (arith, h)

table_fails :
    (k : ℕ → Option EpollEvents) (op : CtlOp) (fd : ℕ) (e : EpollEvents) (other : ℕ)
    → ¬ ((table_ctl k op fd e).0 ≡ CtlResult.done)
    → (table_ctl k op fd e).1 other ≡ k other
table_fails k op fd e other h = ground (arith, h)

abbrev table : EpollKernel
table = record {
  Instance = ℕ → Option EpollEvents;
  interest = λ k. k;
  grants = λ k fd. true;
  ctl = table_ctl;
  ctl_done = table_done;
  ctl_sets = table_sets;
  ctl_fails = table_fails;
}

-- the waiter 4 waits to read from the descriptor 9
abbrev asked : ℕ → Option EpollEvents
asked fd =
    if 9 == fd
    then some (epoll_events_from_fd_events (record { read = true; write = false }))
    else none

asked-IsMirrored : IsMirrored table asked calm
asked-IsMirrored fd = ground arith

calm-IsCounted : IsCounted calm
calm-IsCounted = record { distinct = (refl, tt); counted = refl; listed = λ w on. ground arith }

epoll_waiter_add-IsMirrored_example :
    IsMirrored table
      (epoll_waiter_add table asked calm 6).1
      (epoll_waiter_add table asked calm 6).0.1
epoll_waiter_add-IsMirrored_example =
    epoll_waiter_add-IsMirrored table asked calm 6 refl refl asked-IsMirrored

epoll_waiter_deactivate-IsMirrored_example :
    IsMirrored table
      (epoll_waiter_deactivate table asked calm 4 true).1
      (epoll_waiter_deactivate table asked calm 4 true).0.1
epoll_waiter_deactivate-IsMirrored_example =
    epoll_waiter_deactivate-IsMirrored table asked calm 4 true calm-IsCounted refl refl
      asked-IsMirrored

-- the descriptor 9 in its first generation
abbrev first : FdGeneration
first = record { fd = 9; generation = 1; closing = false; adopted = false; original_flags = none }

abbrev known : Runtime
known = record calm { fd_generations = first ∷ [] }

known-IsFresh : IsFresh known.fd_waiter known.fd_waiters 9 1
known-IsFresh = record { owned = λ v h. (2, refl); current = λ v o. refl }

abbrev hangup : EpollEvents
hangup = record { epollin = true; epollout = false; epollerr = false; epollhup = true }

tell_ready-Returns_example :
    Returns
      (IsServed 9 (epoll_events_to_fd_events hangup))
      (tell_ready 3 true known 9 hangup (epoll_events_to_fd_events hangup))
tell_ready-Returns_example =
    tell_ready-Returns true known 9 first hangup refl
      (record {
        distinct = calm-Excludes.distinct;
        reserved = calm-Excludes.reserved;
        apart = calm-Excludes.apart;
      })
      known-IsFresh

-- a kqueue that is a table
abbrev filter_delete : (ℕ → Events) → ℕ → Events → CtlResult × (ℕ → Events)
filter_delete k fd e = (CtlResult.done, update k fd (without (k fd) e))

abbrev filter_add : (ℕ → Events) → ℕ → Events → CtlResult × (ℕ → Events)
filter_add k fd e = (CtlResult.done, update k fd (both_events e (k fd)))

filter_added :
    (k : ℕ → Events) (fd : ℕ) (e : Events) (other : ℕ)
    → (filter_add k fd e).0 ≡ CtlResult.done
    → (filter_add k fd e).1 other ≡ (if fd == other then both_events e (k other) else k other)
filter_added k fd e other h = ground arith

filter_deleted :
    (k : ℕ → Events) (fd : ℕ) (e : Events) (other : ℕ)
    → (filter_delete k fd e).0 ≡ CtlResult.done
    → (filter_delete k fd e).1 other ≡ (if fd == other then without (k other) e else k other)
filter_deleted k fd e other h = ground arith

abbrev filter_table : KqueueKernel
filter_table = record {
  Instance = ℕ → Events;
  filters = λ k. k;
  grants = λ k fd. true;
  add = filter_add;
  delete = filter_delete;
  add_done = λ k fd e h. refl;
  add_sets = filter_added;
  delete_done = λ k fd e h f. refl;
  delete_sets = filter_deleted;
}

abbrev filtered : ℕ → Events
filtered fd = record { read = 9 == fd; write = false }

filtered-IsFiltered : IsFiltered filter_table filtered calm
filtered-IsFiltered fd = ground arith

kqueue_waiter_deactivate-IsFiltered_example :
    IsFiltered filter_table
      (kqueue_waiter_deactivate filter_table filtered calm 4 false).1
      (kqueue_waiter_deactivate filter_table filtered calm 4 false).0.1
kqueue_waiter_deactivate-IsFiltered_example =
    kqueue_waiter_deactivate-IsFiltered filter_table filtered calm 4 false calm-IsCounted
      calm-Excludes refl refl filtered-IsFiltered

-- the registration of the wake pipe fails
abbrev set_up : Nonblocking
set_up = record { flags = some false; sets = true; bad_fd = false }

abbrev unlucky : IoCalls
unlucky = record {
  pipe = some (3, 4);
  nonblocking_read = set_up;
  nonblocking_write = set_up;
  instance_fd = some 5;
  registers = false;
}

abbrev bare : Backend
bare = record {
  kind = BackendKind.kind_none;
  backend_fd = none;
  wake_read = none;
  wake_write = none;
  polling = false;
  opened = 0 ∷ (1 ∷ (2 ∷ []));
}

start_backend-Starts_example :
    Starts (0 ∷ (1 ∷ (2 ∷ []))) (start_backend have_epoll unlucky bare calm)
start_backend-Starts_example = start_backend-Starts have_epoll unlucky bare calm
