-- ===== src/Tests/Pipe.antt =====
-- A pipe of four bytes that takes a number of signals.
use microthread.Base.{
  ℕ, zero, suc, ◌+◌, ◌-◌, ◌<◌, ◌≡◌, refl, true, false, none, some, [], if◌then◌else◌, ltb, arith,
  Returns,
}
use microthread.IoBackend.{BackendKind, Backend}
use microthread.IoBackend.Wake.{
  PipeResult, WakePipe, drain_wake_pipe, io_backend_wake, wake_pipe-Returns,
}

-- the bytes in the pipe, and the signals to come
abbrev read_some : ℕ × ℕ → ℕ → PipeResult × (ℕ × ℕ)
read_some (h, suc s) size = (PipeResult.interrupted, (h, s))
read_some (zero, zero) size = (PipeResult.failed, (zero, zero))
read_some (suc h, zero) size =
    if ltb h size
    then (PipeResult.moved (suc h), (0, 0))
    else (PipeResult.moved size, (suc h - size, 0))

abbrev write_one : ℕ × ℕ → PipeResult × (ℕ × ℕ)
write_one (h, suc s) = (PipeResult.interrupted, (h, s))
write_one (h, zero) =
    if ltb h 4 then (PipeResult.moved 1, (suc h, 0)) else (PipeResult.failed, (h, 0))

read_some_moves :
    (k : ℕ × ℕ) (size m : ℕ)
    → 0 < size
    → (read_some k size).0 ≡ PipeResult.moved m
    → (0 < m) × (k.0 ≡ m + (read_some k size).1.0) × ((read_some k size).1.1 ≡ k.1)
read_some_moves (h, suc s) size m z e = absurd cc
read_some_moves (zero, zero) size m z e = absurd cc
read_some_moves (suc h, zero) size m z e = ground (arith, e)

read_some_waits :
    (k : ℕ × ℕ) (size : ℕ)
    → 0 < size
    → (read_some k size).0 ≡ PipeResult.interrupted
    → ((read_some k size).1.0 ≡ k.0) × (k.1 ≡ suc (read_some k size).1.1)
read_some_waits (h, suc s) size z e = (refl, refl)
read_some_waits (zero, zero) size z e = absurd cc
read_some_waits (suc h, zero) size z e = ground (arith, e)

read_some_fails :
    (k : ℕ × ℕ) (size : ℕ)
    → 0 < size
    → (read_some k size).0 ≡ PipeResult.failed
    → (k.0 ≡ 0) × ((read_some k size).1.0 ≡ k.0)
read_some_fails (h, suc s) size z e = absurd cc
read_some_fails (zero, zero) size z e = (refl, refl)
read_some_fails (suc h, zero) size z e = ground (arith, e)

write_one_moves :
    (k : ℕ × ℕ) (m : ℕ) → (write_one k).0 ≡ PipeResult.moved m → (write_one k).1.0 ≡ suc k.0
write_one_moves (h, suc s) m e = absurd cc
write_one_moves (h, zero) m e = ground (arith, e)

write_one_waits :
    (k : ℕ × ℕ)
    → (write_one k).0 ≡ PipeResult.interrupted
    → ((write_one k).1.0 ≡ k.0) × (k.1 ≡ suc (write_one k).1.1)
write_one_waits (h, suc s) e = (refl, refl)
write_one_waits (h, zero) e = ground (arith, e)

write_one_fails :
    (k : ℕ × ℕ) → (write_one k).0 ≡ PipeResult.failed → (0 < k.0) × ((write_one k).1.0 ≡ k.0)
write_one_fails (h, suc s) e = absurd cc
write_one_fails (h, zero) e = ground (arith, e)

abbrev small_pipe : WakePipe
small_pipe = record {
  Instance = ℕ × ℕ;
  held = λ k. k.0;
  signals = λ k. k.1;
  read = read_some;
  write = write_one;
  read_moves = read_some_moves;
  read_waits = read_some_waits;
  read_fails = read_some_fails;
  write_moves = write_one_moves;
  write_waits = write_one_waits;
  write_fails = write_one_fails;
}

abbrev begun : Backend
begun = record {
  kind = BackendKind.kind_poll;
  backend_fd = none;
  wake_read = some 4;
  wake_write = some 5;
  polling = false;
  opened = [];
}

-- three bytes are in the pipe, and two calls are interrupted
wake_pipe-Returns_example :
    Returns
      (λ (errs, after). (after.0 ≡ 0) × (errs ≡ true))
      (drain_wake_pipe small_pipe 6 begun (3, 2))
    × Returns (λ (_, after). 0 < after.0) (io_backend_wake small_pipe 3 begun (3, 2))
wake_pipe-Returns_example = wake_pipe-Returns small_pipe begun (3, 2) 4 5 refl refl
