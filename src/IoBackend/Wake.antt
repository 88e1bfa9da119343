-- ===== src/IoBackend/Wake.antt =====
-- mt_io_drain_wake_pipe and mt_io_backend_wake of src/io_backend.c. The pipe is an interface with the
-- documented behaviour of a pipe whose ends do not block as its laws.
use microthread.Base.{
  ℕ, zero, suc, ◌+◌, ◌<◌, ◌≡◌, ◌⊎◌, refl, ◌∙◌, inl, inr, Bool, true, false, Option, none, some,
  ◌==◌, if◌then◌else◌, arith, Returns, returns,
}
use microthread.IoBackend.{Backend}

-- what read and write give: a number of bytes, EINTR, or another error
pub data PipeResult : Type 0 where
  moved : ℕ → PipeResult
  interrupted : PipeResult
  failed : PipeResult

-- The pipe. `held` is the number of bytes in it and `signals` bounds the calls that signals interrupt.
-- The write end stays open, so a read gives no end of the file, and a call that does not block fails
-- only where the pipe is empty or full.
pub record WakePipe : Type 1 where
  pub Instance : Type 0
  pub held : Instance → ℕ
  pub signals : Instance → ℕ
  pub read : Instance → ℕ → PipeResult × Instance
  pub write : Instance → PipeResult × Instance
  pub read_moves :
      (k : Instance) (size m : ℕ)
      → 0 < size
      → (read k size).0 ≡ PipeResult.moved m
      → (0 < m) × (held k ≡ m + held (read k size).1) × (signals (read k size).1 ≡ signals k)
  pub read_waits :
      (k : Instance) (size : ℕ)
      → 0 < size
      → (read k size).0 ≡ PipeResult.interrupted
      → (held (read k size).1 ≡ held k) × (signals k ≡ suc (signals (read k size).1))
  pub read_fails :
      (k : Instance) (size : ℕ)
      → 0 < size
      → (read k size).0 ≡ PipeResult.failed
      → (held k ≡ 0) × (held (read k size).1 ≡ held k)
  pub write_moves :
      (k : Instance) (m : ℕ) → (write k).0 ≡ PipeResult.moved m → held (write k).1 ≡ suc (held k)
  pub write_waits :
      (k : Instance)
      → (write k).0 ≡ PipeResult.interrupted
      → (held (write k).1 ≡ held k) × (signals k ≡ suc (signals (write k).1))
  pub write_fails :
      (k : Instance) → (write k).0 ≡ PipeResult.failed → (0 < held k) × (held (write k).1 ≡ held k)

some_size : 0 < 128
some_size = omega arith

PipeResult-cases :
    (r : PipeResult)
    → ((m : ℕ) × (r ≡ PipeResult.moved m)) ⊎ (r ≡ PipeResult.interrupted) ⊎ (r ≡ PipeResult.failed)
PipeResult-cases (PipeResult.moved m) = inl (m, refl)
PipeResult-cases PipeResult.interrupted = inr (inl refl)
PipeResult-cases PipeResult.failed = inr (inr refl)

-- The loops give whether mt_set_last_os_error is called, and the pipe.
module _ (pipe : WakePipe) where
  open pipe use {
    Instance, held, signals, read, write, read_moves, read_waits, read_fails, write_moves,
    write_waits, write_fails,
  }

  unfoldable pub drain_loop : ℕ → Instance → Option (Bool × Instance)
  drain_loop zero k = none
  drain_loop (suc fuel) k =
      let (n, after) = read k 128 in
      let rest = drain_loop fuel after in
      elim n [
        | PipeResult.moved m ↦ if m == 0 then some (false, after) else rest
        | PipeResult.interrupted ↦ rest
        | PipeResult.failed ↦ some (true, after)
      ]

  unfoldable pub drain_wake_pipe : ℕ → Backend → Instance → Option (Bool × Instance)
  unfolding drain_loop
  drain_wake_pipe fuel b k = elim b.wake_read [
    | none ↦ some (false, k)
    | some fd ↦ drain_loop fuel k
  ]

  unfoldable pub wake_loop : ℕ → Instance → Option (Bool × Instance)
  wake_loop zero k = none
  wake_loop (suc fuel) k =
      let (n, after) = write k in
      let rest = wake_loop fuel after in
      elim n [
        | PipeResult.moved m ↦ some (false, after)
        | PipeResult.interrupted ↦ rest
        | PipeResult.failed ↦ some (true, after)
      ]

  unfoldable pub io_backend_wake : ℕ → Backend → Instance → Option (Bool × Instance)
  unfolding wake_loop
  io_backend_wake fuel b k = elim b.wake_write [
    | none ↦ some (false, k)
    | some fd ↦ wake_loop fuel k
  ]

  drain_loop-Returns :
      (fuel : ℕ) (k : Instance)
      → held k + signals k < fuel
      → Returns (λ (errs, after). (held after ≡ 0) × (errs ≡ true)) (drain_loop fuel k)
  unfolding drain_loop
  drain_loop-Returns zero k h = absurd (omega arith)
  drain_loop-Returns (suc fuel) k h = elim (PipeResult-cases (read k 128).0) [
    | inl (m, e) ↦
        let (some_, less, same) = read_moves k 128 m some_size e in
        let not_zero : (m == 0) ≡ false = ground (arith, some_) in
        rw (drain_loop, e, not_zero)
          (drain_loop-Returns fuel (read k 128).1 (omega (arith, some_, less, same)))
    | inr (inl e) ↦
        let (same, less) = read_waits k 128 some_size e in
        rw (drain_loop, e) (drain_loop-Returns fuel (read k 128).1 (omega (arith, less, same)))
    | inr (inr e) ↦
        let (empty, same) = read_fails k 128 some_size e in
        rw (drain_loop, e) (returns (same ∙ empty, refl))
  ]

  wake_loop-Returns :
      (fuel : ℕ) (k : Instance)
      → signals k < fuel
      → Returns (λ (_, after). 0 < held after) (wake_loop fuel k)
  unfolding wake_loop
  wake_loop-Returns zero k h = absurd (omega arith)
  wake_loop-Returns (suc fuel) k h = elim (PipeResult-cases (write k).0) [
    | inl (m, e) ↦ rw (wake_loop, e) (returns (omega (arith, write_moves k m e)))
    | inr (inl e) ↦
        let (_, less) = write_waits k e in
        rw (wake_loop, e) (wake_loop-Returns fuel (write k).1 (omega (arith, less)))
    | inr (inr e) ↦
        let (full, same) = write_fails k e in
        rw (wake_loop, e) (returns (omega (arith, full, same)))
  ]

  -- Where the backend has its pipe, mt_io_drain_wake_pipe ends, leaves no byte in it and has called
  -- mt_set_last_os_error, since the read that finds the pipe empty fails, and
  -- mt_io_backend_wake ends and leaves a byte in it, also where the pipe is full or signals interrupt
  -- the writes, so that a poll of the pipe reports it.
  pub wake_pipe-Returns :
      (b : Backend) (k : Instance) (r w : ℕ)
      → b.wake_read ≡ some r
      → b.wake_write ≡ some w
      → Returns
          (λ (errs, after). (held after ≡ 0) × (errs ≡ true))
          (drain_wake_pipe (suc (held k + signals k)) b k)
        × Returns (λ (_, after). 0 < held after) (io_backend_wake (suc (signals k)) b k)
  unfolding drain_wake_pipe io_backend_wake
  wake_pipe-Returns b k r w er ew = (
    rw er (drain_loop-Returns (suc (held k + signals k)) k (omega arith)),
    rw ew (wake_loop-Returns (suc (signals k)) k (omega arith)),
  )
