-- ===== src/Net.antt =====
-- mt_net_listen_tcp and mt_net_accept of src/io.c. What the system calls give is an argument; the
-- descriptors that the process has open are part of the state, and a negative one is `none`.
pub mod Leaks
use microthread.Base.{ℕ, Bool, true, false, Option, none, some, List, [], ◌∷◌, if◌then◌else◌, erase}
use microthread.State.{Code, is_ok, Runtime}
use microthread.Io.{Adoption, adopt}

-- the state: the runtime, and the open descriptors
abbrev pub Open : Type 0
Open = Runtime × List ℕ

-- a descriptor, or an error code
pub data Socket : Type 0 where
  opened : ℕ → Socket
  refused : Code → Socket

-- One address of getaddrinfo: what socket gives, whether bind and listen work, and what mt_fd_adopt is
-- given. The options of the socket have no effect on the state.
pub record Address : Type 0 where
  pub socket : Option ℕ
  pub listens : Bool
  pub adoption : Adoption

-- what becomes of a socket: whether it listens, and the state; where it does not it is closed
unfoldable pub try_listen : Address → ℕ → Open → Bool × Open
unfolding is_ok
try_listen a fd (rt, open_) =
    let (rc, adopted) = adopt a.adoption rt (some fd) in
    if a.listens
    then (if is_ok rc
        then (true, (adopted, fd ∷ open_))
        else (false, (adopted, erase fd (fd ∷ open_))))
    else (false, (rt, erase fd (fd ∷ open_)))

-- the loop over the addresses, up to the first socket that listens
unfoldable pub listen_loop : List Address → Open → Option ℕ × Open
unfolding try_listen
listen_loop [] w = (none, w)
listen_loop (a ∷ later) w = elim a.socket [
  | none ↦ listen_loop later w
  | some fd ↦
      let (listens, after) = try_listen a fd w in
      let rest = listen_loop later after in if listens then (some fd, after) else rest
]

-- mt_net_listen_tcp: whether there is a port and the backlog is not negative, and the addresses, where
-- getaddrinfo works
unfoldable pub net_listen_tcp : Bool → Option (List Address) → Open → Socket × Open
unfolding listen_loop
net_listen_tcp false addresses w = (refused Code.err_invalid, w)
net_listen_tcp true none w = (refused Code.err_addrinfo, w)
net_listen_tcp true (some addresses) w =
    let (found, after) = listen_loop addresses w in
    elim found [ some fd ↦ (opened fd, after) | none ↦ (refused Code.err_io, after) ]

-- what an attempt of accept gives
pub data Acceptance : Type 0 where
  accepted : ℕ → Adoption → Acceptance
  interrupted : Acceptance
  blocked : Code → Acceptance
  broken : Code → Acceptance

-- a new connection, which is closed where it cannot be adopted
unfoldable pub take_connection : Adoption → ℕ → Open → Socket × Open
unfolding is_ok
take_connection os fd (rt, open_) =
    let (rc, adopted) = adopt os rt (some fd) in
    if is_ok rc
    then (opened fd, (adopted, fd ∷ open_))
    else (refused Code.err_io, (adopted, erase fd (fd ∷ open_)))

-- The loop of mt_net_accept; `none` where it still runs.
unfoldable pub accept_loop : List Acceptance → Open → Option (Socket × Open)
unfolding take_connection is_ok
accept_loop [] w = none
accept_loop (accepted fd os ∷ later) w = some (take_connection os fd w)
accept_loop (interrupted ∷ later) w = accept_loop later w
accept_loop (blocked rc ∷ later) w =
    let rest = accept_loop later w in if is_ok rc then rest else some (refused rc, w)
accept_loop (broken rc ∷ later) w = some (refused rc, w)

unfoldable pub net_accept : Adoption → List Acceptance → Option ℕ → Open → Option (Socket × Open)
unfolding accept_loop is_ok
net_accept os attempts none w = some (refused Code.err_invalid, w)
net_accept os attempts (some listener) (rt, open_) =
    let (rc, adopted) = adopt os rt (some listener) in
    if is_ok rc then accept_loop attempts (adopted, open_) else some (refused rc, (adopted, open_))
