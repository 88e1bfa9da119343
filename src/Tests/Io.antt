-- ===== src/Tests/Io.antt =====
-- The theorems on transfers, sockets and polls at concrete inputs.
use microthread.Base.{ℕ, ◌≡◌, refl, true, false, none, some, List, [], ◌∷◌, arith, take, Returns}
use microthread.State.{Code, is_ok, TaskState, Runtime}
use microthread.Fd.{
  fd_find_waiter, fd_set_closing, fd_wake_for_close, fd_wake_each, generation_bump, fd_is_closing,
  generation_current, fd_waiter_conflicts,
}
use microthread.Io.{broken, Adoption, Attempt, moved, interrupted, blocked, fd_write}
use microthread.Io.Delivery.{Delivered, fd_write-Returns}
use microthread.FdApi.{fd_adopt, fd_close, fd_release}
use microthread.FdApi.Reuse.{reuse-restores}
use microthread.Net.{Address, accepted, interrupted as again, net_listen_tcp, net_accept}
use microthread.Net.Leaks.{KeepsOpen, net_listen_tcp-KeepsOpen, net_accept-Returns}
use microthread.Poll.{PollEvents, poll_revents_to_fd_events, handle_entry}
use microthread.Poll.Told.{IsTold, entry-IsTold}
use microthread.Tests.{empty_channel, some_handle, world}

abbrev calm : Runtime
calm = world TaskState.waiting_fd empty_channel (some_handle [])

abbrev works : Adoption
works = record { allocates = true; flags = some 2; set_flags = true; failure = Code.err_io }

abbrev fails : Adoption
fails = record { allocates = true; flags = none; set_flags = true; failure = Code.err_io }

-- two bytes, an interruption, a wait, another byte, and an error
abbrev attempts : List Attempt
attempts = moved 2 ∷ interrupted ∷ blocked Code.ok ∷ moved 1 ∷ broken Code.err_io ∷ []

abbrev bytes : List ℕ
bytes = 7 ∷ 8 ∷ 9 ∷ 10 ∷ []

fd_write-Returns_example :
    Returns (Delivered (take 4 bytes)) (fd_write works attempts calm (some 5) (some bytes) 4).0
unfolding is_ok
fd_write-Returns_example =
    fd_write-Returns works attempts calm (some 5) (some bytes) 4 (omega arith, (omega arith, tt))
      refl (λ bs e. ground (arith, e))

abbrev addresses : List Address
addresses =
    record { socket = none; listens = true; adoption = works }
    ∷ record { socket = some 6; listens = true; adoption = fails }
    ∷ record { socket = some 7; listens = true; adoption = works }
    ∷ []

net_listen_tcp-KeepsOpen_example :
    KeepsOpen (3 ∷ []) (net_listen_tcp true (some addresses) (calm, 3 ∷ []))
net_listen_tcp-KeepsOpen_example = net_listen_tcp-KeepsOpen true (some addresses) calm (3 ∷ [])

net_accept-Returns_example :
    Returns
      (KeepsOpen (3 ∷ []))
      (net_accept works (again ∷ accepted 8 fails ∷ []) (some 3) (calm, 3 ∷ []))
net_accept-Returns_example =
    net_accept-Returns works (again ∷ accepted 8 fails ∷ []) (some 3) calm (3 ∷ []) refl

-- the waiter 4 waits to read, and poll tells a hangup
abbrev hangup : PollEvents
hangup = record {
  pollin = false;
  pollout = false;
  pollerr = false;
  pollhup = true;
  pollnval = false;
}

abbrev watched : Runtime
watched = record calm {
  fd_generations =
      record { fd = 9; generation = 1; closing = false; adopted = false; original_flags = none }
      ∷ [];
}

entry-IsTold_example : IsTold watched (handle_entry true 3 watched 9 hangup) 9 hangup 4 2
unfolding fd_find_waiter poll_revents_to_fd_events
entry-IsTold_example = entry-IsTold true 3 watched 9 hangup 4 2 refl refl refl refl refl

-- the descriptor 5 was adopted with the flags 2; the new file has the flags 4
abbrev adopted_before : Runtime
adopted_before = record calm {
  fd_generations =
      record { fd = 5; generation = 1; closing = false; adopted = true; original_flags = some 2 }
      ∷ [];
}

abbrev reopened : Runtime
reopened =
    (fd_adopt true (some 4) true Code.err_io
      (fd_close true Code.ok (λ r. r) adopted_before (some 5)).1 (some 5)).1

-- the release of the new file succeeds
reopened-released : (fd_release reopened (some 5)).0.0 ≡ Code.ok
unfolding fd_release fd_adopt fd_close fd_set_closing fd_wake_for_close fd_wake_each generation_bump
    fd_is_closing is_ok generation_current fd_waiter_conflicts
reopened-released = refl

reuse-restores_example : (fd_release reopened (some 5)).0.1 ≡ some 2
reuse-restores_example =
    reuse-restores true true Code.ok Code.err_io (some 4) adopted_before 5 2 refl reopened-released
