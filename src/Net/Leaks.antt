-- ===== src/Net/Leaks.antt =====
-- The descriptors that the calls on sockets leave open.
use mathlib.Core.Path.{subst}
use microthread.Base.{
  ℕ, ◌≡◌, refl, inl, inr, Bool, true, false, Option, none, some, List, [], ◌∷◌, if◌then◌else◌,
  erase, arith, eq→==, if_both, Option-cases, Bool-cases, Returns, returns,
}
use microthread.State.{Code, is_ok, Runtime}
use microthread.Io.{Adoption, adopt}
use microthread.Net.{
  Open, Socket, opened, refused, Address, try_listen, listen_loop, net_listen_tcp, Acceptance,
  accepted, interrupted, blocked, broken, take_connection, accept_loop, net_accept,
}

-- The descriptor of the result is open, and those that were open before; there is no other.
pub data KeepsOpen (before : List ℕ) : Socket × Open → Type 0 where
  one_more :
      {fd : ℕ} {rt : Runtime} {after : List ℕ}
      → after ≡ fd ∷ before
      → KeepsOpen before (opened fd, (rt, after))
  no_more :
      {rc : Code} {rt : Runtime} {after : List ℕ}
      → after ≡ before
      → KeepsOpen before (refused rc, (rt, after))

erase_first : (fd : ℕ) (xs : List ℕ) → erase fd (fd ∷ xs) ≡ xs
erase_first fd xs = rw (eq→== fd fd refl) refl

-- one address
try_listen-open :
    (a : Address) (fd : ℕ) (rt : Runtime) (before : List ℕ)
    → (try_listen a fd (rt, before)).1.1
      ≡ (if (try_listen a fd (rt, before)).0 then fd ∷ before else before)
unfolding try_listen
try_listen-open a fd rt before = ground (arith, erase_first fd before)

-- the socket that listens is open, and those that were open before
abbrev Found : Option ℕ × Open → List ℕ → Type 0
Found (none, (rt, after)) before = after ≡ before
Found (some fd, (rt, after)) before = after ≡ fd ∷ before

listen_loop-open :
    (addresses : List Address) (rt : Runtime) (before : List ℕ)
    → Found (listen_loop addresses (rt, before)) before
unfolding listen_loop
listen_loop-open [] rt before = refl
listen_loop-open (a ∷ later) rt before = elim (Option-cases a.socket) [
  | inl e ↦ simp (listen_loop, e) (listen_loop-open later rt before)
  | inr (fd, e) ↦
      let after = (try_listen a fd (rt, before)).1 in
      let same = try_listen-open a fd rt before in
      elim (Bool-cases (try_listen a fd (rt, before)).0) [
        | inl yes_ ↦ simp (listen_loop, e, yes_) (simp yes_ at same)
        | inr no_ ↦
            simp (listen_loop, e, no_)
              (subst (Found (listen_loop later after)) (simp no_ at same)
                (listen_loop-open later after.0 after.1))
      ]
]

-- A call of mt_net_listen_tcp leaves the socket of its result open, and those that were open before,
-- and no other; where it returns an error, those that were open before and no other.
pub net_listen_tcp-KeepsOpen :
    (valid : Bool) (addresses : Option (List Address)) (rt : Runtime) (before : List ℕ)
    → KeepsOpen before (net_listen_tcp valid addresses (rt, before))
unfolding net_listen_tcp
net_listen_tcp-KeepsOpen false addresses rt before = no_more refl
net_listen_tcp-KeepsOpen true none rt before = no_more refl
net_listen_tcp-KeepsOpen true (some addresses) rt before =
    by_result (listen_loop addresses (rt, before)) (listen_loop-open addresses rt before)
  where
    by_result :
        (result : Option ℕ × Open)
        → Found result before
        → KeepsOpen before (elim result.0 as (λ x. Socket × Open) [
          | some fd ↦ (opened fd, result.1)
          | none ↦ (refused Code.err_io, result.1)
        ])
    by_result (none, (after, open_)) h = no_more h
    by_result (some fd, (after, open_)) h = one_more h

-- a new connection is kept, or closed again
connection-KeepsOpen :
    (os : Adoption) (fd : ℕ) (rt : Runtime) (before : List ℕ)
    → KeepsOpen before (take_connection os fd (rt, before))
unfolding take_connection
connection-KeepsOpen os fd rt before =
    let (rc, adopted) = adopt os rt (some fd) in
    if_both (KeepsOpen before) (is_ok rc) {x = (opened fd, (adopted, fd ∷ before))}
      {y = (refused Code.err_io, (adopted, erase fd (fd ∷ before)))} (one_more refl)
      (no_more (erase_first fd before))

-- Some attempt settles the call: it gives a connection, an error, or a wait that fails.
abbrev pub settles : List Acceptance → Bool
settles [] = false
settles (accepted fd os ∷ later) = true
settles (interrupted ∷ later) = settles later
settles (blocked rc ∷ later) = let rest = settles later in if is_ok rc then rest else true
settles (broken rc ∷ later) = true

accept_loop-Returns :
    (attempts : List Acceptance) (rt : Runtime) (before : List ℕ)
    → settles attempts ≡ true
    → Returns (KeepsOpen before) (accept_loop attempts (rt, before))
unfolding accept_loop
accept_loop-Returns [] rt before e = cc
accept_loop-Returns (accepted fd os ∷ later) rt before e =
    returns (connection-KeepsOpen os fd rt before)
accept_loop-Returns (interrupted ∷ later) rt before e = accept_loop-Returns later rt before e
accept_loop-Returns (blocked rc ∷ later) rt before e = elim (Bool-cases (is_ok rc)) [
  | inl ok_ ↦ rw ok_ (accept_loop-Returns later rt before (rw ok_ at e))
  | inr failed_ ↦ rw failed_ (returns (no_more refl))
]
accept_loop-Returns (broken rc ∷ later) rt before e = returns (no_more refl)

-- Where some attempt settles it, a call of mt_net_accept returns; it leaves the connection of its result
-- open, and the descriptors that were open before, and no other; where it returns an error, those
-- that were open before and no other.
pub net_accept-Returns :
    (os : Adoption) (attempts : List Acceptance) (listener : Option ℕ) (rt : Runtime)
    (before : List ℕ)
    → settles attempts ≡ true
    → Returns (KeepsOpen before) (net_accept os attempts listener (rt, before))
unfolding net_accept
net_accept-Returns os attempts none rt before e = returns (no_more refl)
net_accept-Returns os attempts (some listener) rt before e =
    let (rc, adopted) = adopt os rt (some listener) in
    if_both (Returns (KeepsOpen before)) (is_ok rc) {x = accept_loop attempts (adopted, before)}
      {y = some (refused rc, (adopted, before))} (accept_loop-Returns attempts adopted before e)
      (returns (no_more refl))
