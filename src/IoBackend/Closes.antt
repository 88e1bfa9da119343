-- ===== src/IoBackend/Closes.antt =====
-- The descriptors that the backend opens are closed again.
use microthread.Base.{
  ℕ, ◌≡◌, refl, sym, ap, ◌∙◌, inl, inr, true, false, none, some, List, ◌∷◌, erase, eq→==, if_both,
  Bool-cases, Option-cases,
}
use microthread.State.{Code, is_ok, Runtime}
use microthread.IoBackend.{
  BackendKind, Backend, IoCalls, close_fd, io_make_wake_pipe, instance_init, epoll_backend_init,
  kqueue_backend_init, Build, have_epoll, have_kqueue, have_poll, native_init, io_backend_init,
  io_backend_shutdown, start_backend,
}

-- the descriptors that the backend holds, in the order in which a shutdown closes them
abbrev pub closing : Backend → List ℕ
closing b = close_fd b.wake_write (close_fd b.wake_read (close_fd b.backend_fd b.opened))

-- A shutdown would leave just these descriptors open.
abbrev Owns : List ℕ → Code × Backend → Type 0
Owns before (rc, b) = closing b ≡ before

erase_head : (x : ℕ) (xs : List ℕ) → erase x (x ∷ xs) ≡ xs
erase_head x xs = rw (eq→== x x refl) refl

instance-Owns :
    (kind : BackendKind) (os : IoCalls) (b : Backend) (before : List ℕ)
    → b.backend_fd ≡ none
    → closing b ≡ before
    → Owns before (instance_init kind os b)
unfolding instance_init
instance-Owns kind os b before held e = elim (Option-cases os.instance_fd) [
  | inl n ↦ rw (instance_init, n) e
  | inr (fd, s) ↦
      let made = record b { kind = kind; backend_fd = some fd; opened = fd ∷ b.opened } in
      let closes : closing made ≡ before =
        ap (λ o. close_fd b.wake_write (close_fd b.wake_read o)) (erase_head fd b.opened)
        ∙ ap (λ o. close_fd b.wake_write (close_fd b.wake_read (close_fd o b.opened))) (sym held)
        ∙ e in
      rw (instance_init, s)
        (if_both (Owns before) os.registers {x = (Code.ok, made)} {y = (Code.err_backend, made)}
          closes closes)
]

native-Owns :
    (build : Build) (os : IoCalls) (b : Backend) (before : List ℕ)
    → b.backend_fd ≡ none
    → closing b ≡ before
    → Owns before (native_init build os b)
unfolding native_init epoll_backend_init kqueue_backend_init
native-Owns have_epoll os b before held e = instance-Owns BackendKind.kind_epoll os b before held e
native-Owns have_kqueue os b before held e =
    instance-Owns BackendKind.kind_kqueue os b before held e
native-Owns have_poll os b before held e = e

-- a backend without a descriptor
abbrev Bare : Backend → Type 0
Bare b = (b.backend_fd ≡ none) × (b.wake_read ≡ none) × (b.wake_write ≡ none)

pipe-Owns :
    (os : IoCalls) (b : Backend)
    → Bare b
    → Owns b.opened (io_make_wake_pipe os b) × ((io_make_wake_pipe os b).1.backend_fd ≡ none)
unfolding io_make_wake_pipe
pipe-Owns os b (no_fd, no_read, no_write) = elim (Option-cases os.pipe) [
  | inl n ↦ rw (io_make_wake_pipe, n) (rw (no_fd, no_read, no_write) refl, no_fd)
  | inr ((r, w), s) ↦
      let opened = r ∷ (w ∷ b.opened) in
      let both_gone : erase w (erase r opened) ≡ b.opened =
        ap (erase w) (erase_head r (w ∷ b.opened)) ∙ erase_head w b.opened in
      let ready = record b { wake_read = some r; wake_write = some w; opened = opened } in
      let left = record b { opened = erase w (erase r opened) } in
      rw (io_make_wake_pipe, s)
        (if_both (λ (x : Code × Backend). Owns b.opened x × (x.1.backend_fd ≡ none)) _
          {x = (Code.ok, ready)} {y = (Code.err_backend, left)} (rw no_fd both_gone, no_fd)
          (rw (no_fd, no_read, no_write) both_gone, no_fd))
]

-- After mt_io_backend_init, in each build and whether it succeeds or fails at any step, a shutdown
-- leaves open just the descriptors that were open before the initialisation.
pub init-shutdown :
    (build : Build) (os : IoCalls) (b : Backend) (rt : Runtime)
    → (io_backend_shutdown (io_backend_init build os b).1 rt).0.opened ≡ b.opened
unfolding io_backend_init io_backend_shutdown
init-shutdown build os b rt =
    let cleared = record b {
      kind = BackendKind.kind_poll;
      backend_fd = none;
      wake_read = none;
      wake_write = none;
      polling = false;
    } in
    let (rc, piped) = io_make_wake_pipe os cleared in
    let (owns, bare) = pipe-Owns os cleared (refl, refl, refl) in
    if_both (Owns b.opened) (is_ok rc) {x = native_init build os piped} {y = (rc, piped)}
      (native-Owns build os piped b.opened bare owns) owns

-- The backend runs, and a shutdown leaves just `before` open; or it failed, and just those are open.
pub data Starts (before : List ℕ) : Code × Backend × Runtime → Type 0 where
  runs :
      {rc : Code} {b : Backend} {rt : Runtime}
      → is_ok rc ≡ true
      → (io_backend_shutdown b rt).0.opened ≡ before
      → Starts before (rc, b, rt)
  failed :
      {rc : Code} {b : Backend} {rt : Runtime}
      → is_ok rc ≡ false
      → b.opened ≡ before
      → Starts before (rc, b, rt)

-- In each build, the start of the backend in mt_init_with_options fails, at any step, with just the
-- descriptors open that were open before, or it succeeds, and then a shutdown closes each descriptor
-- that it opened and no other.
pub start_backend-Starts :
    (build : Build) (os : IoCalls) (b : Backend) (rt : Runtime)
    → Starts b.opened (start_backend build os b rt)
unfolding start_backend
start_backend-Starts build os b rt =
    let (rc, begun) = io_backend_init build os b in
    let closes = init-shutdown build os b rt in
    elim (Bool-cases (is_ok rc)) [
      | inl good ↦ rw good (runs good closes)
      | inr bad ↦ rw bad (failed bad closes)
    ]
