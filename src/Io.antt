-- ===== src/Io.antt =====
-- The calls of src/io.c that move bytes and accept connections. A system call may be tried many times:
-- what each attempt gives is a list, and so is what each wait for the descriptor gives, for the time
-- that is left then. Such a call returns when its list is long enough; `none` means that it still runs.
pub mod Delivery
use microthread.Base.{
  ℕ, zero, suc, ◌+◌, ◌-◌, Bool, true, false, Option, none, some, List, [], ◌∷◌, ◌++◌, ◌&&◌, ◌||◌,
  ltb, ◌==◌, if◌then◌else◌, length, take, drop, erase,
}
use microthread.State.{Code, is_ok, Runtime}
use microthread.FdApi.{fd_adopt}

-- what the calls under mt_fd_adopt give: memory, the flags, whether they could be set, and the error
pub record Adoption : Type 0 where
  pub allocates : Bool
  pub flags : Option ℕ
  pub set_flags : Bool
  pub failure : Code

abbrev pub adopt : Adoption → Runtime → Option ℕ → Code × Runtime
adopt os rt fd = fd_adopt os.allocates os.flags os.set_flags os.failure rt fd

-- An attempt moves a number of bytes, is interrupted (EINTR), would block (EAGAIN), with the code of the
-- wait that follows, or fails, with the code that mt_io_error_from_errno makes of errno.
pub data Attempt : Type 0 where
  moved : ℕ → Attempt
  interrupted : Attempt
  blocked : Code → Attempt
  broken : Code → Attempt

-- the result of type ssize_t
pub data Transfer : Type 0 where
  count : ℕ → Transfer
  error : Code → Transfer

-- the loop of mt_fd_read
unfoldable pub read_loop : List Attempt → Option Transfer
unfolding is_ok
read_loop [] = none
read_loop (moved n ∷ later) = some (count n)
read_loop (interrupted ∷ later) = read_loop later
read_loop (blocked rc ∷ later) =
    let rest = read_loop later in if is_ok rc then rest else some (error rc)
read_loop (broken rc ∷ later) = some (error rc)

abbrev pub is_absent : Option (List ℕ) → Bool
is_absent none = true
is_absent (some bytes) = false

-- mt_fd_read
unfoldable pub fd_read :
    Adoption → List Attempt → Runtime → Option ℕ → Option (List ℕ) → ℕ → Option Transfer × Runtime
unfolding read_loop
fd_read os attempts rt none buf len = (some (error Code.err_invalid), rt)
fd_read os attempts rt (some fd) buf len =
    let (rc, adopted) = adopt os rt (some fd) in
    if is_absent buf && ltb 0 len
    then (some (error Code.err_invalid), rt)
    else (if len == 0
        then (some (count 0), rt)
        else (if is_ok rc then (read_loop attempts, adopted) else (some (error rc), adopted)))

-- `return total > 0 ? (ssize_t)total : rc;`
abbrev pub stopped : ℕ → Code → Transfer
stopped total rc = if ltb 0 total then count total else error rc

-- The loop of mt_fd_write, with what the descriptor has received: an attempt that moves
-- `n` bytes takes them from `buf + total`.
unfoldable pub write_loop : List Attempt → List ℕ → ℕ → List ℕ → Option (Transfer × List ℕ)
unfolding is_ok
write_loop [] buf total out = if ltb total (length buf) then none else some (count total, out)
write_loop (moved n ∷ later) buf total out =
    let next = write_loop later buf (total + n) (out ++ take n (drop total buf)) in
    let same = write_loop later buf total out in
    if ltb total (length buf) then (if ltb 0 n then next else same) else some (count total, out)
write_loop (interrupted ∷ later) buf total out =
    let same = write_loop later buf total out in
    if ltb total (length buf) then same else some (count total, out)
write_loop (blocked rc ∷ later) buf total out =
    let same = write_loop later buf total out in
    if ltb total (length buf)
    then (if is_ok rc then same else some (stopped total rc, out))
    else some (count total, out)
write_loop (broken rc ∷ later) buf total out =
    if ltb total (length buf) then some (stopped total rc, out) else some (count total, out)

abbrev pub bytes_of : Option (List ℕ) → List ℕ
bytes_of none = []
bytes_of (some bytes) = bytes

-- mt_fd_write, of `len` bytes from a buffer that has as many; `none` is NULL
unfoldable pub fd_write :
    Adoption
    → List Attempt
    → Runtime
    → Option ℕ
    → Option (List ℕ)
    → ℕ
    → Option (Transfer × List ℕ) × Runtime
unfolding write_loop
fd_write os attempts rt none buf len = (some (error Code.err_invalid, []), rt)
fd_write os attempts rt (some fd) buf len =
    let (rc, adopted) = adopt os rt (some fd) in
    if is_absent buf && ltb 0 len
    then (some (error Code.err_invalid, []), rt)
    else (if len == 0
        then (some (count 0, []), rt)
        else (if is_ok rc
            then (write_loop attempts (take len (bytes_of buf)) 0 [], adopted)
            else (some (error rc, []), adopted)))

-- mt_net_write runs the same loop over send(2), which an option keeps from raising SIGPIPE
abbrev pub net_write :
    Adoption
    → List Attempt
    → Runtime
    → Option ℕ
    → Option (List ℕ)
    → ℕ
    → Option (Transfer × List ℕ) × Runtime
net_write = fd_write

-- mt_net_read is mt_fd_read
abbrev pub net_read :
    Adoption → List Attempt → Runtime → Option ℕ → Option (List ℕ) → ℕ → Option Transfer × Runtime
net_read = fd_read
