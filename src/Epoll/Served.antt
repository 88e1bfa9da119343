-- ===== src/Epoll/Served.antt =====
-- The loop over the waiters of a descriptor that epoll_wait reports.
use mathlib.Core.Path.{subst}
use native.Mathlib.Decide.{ℕ_discrete}
use microthread.Base.{
  ℕ, zero, suc, ◌<◌, ◌≡◌, ◌⊎◌, refl, sym, ap, ◌∙◌, inl, inr, true, false, Bool, none, some, List,
  [], ◌∷◌, ◌==◌, ◌&&◌, arith, update, eq→==, ne→==, Bool-cases, Returns, returns,
}
use microthread.State.{Code, Events, FdWaiter, FdGeneration, ready_reserved, Runtime}
use microthread.Fd.{
  is_some_event, without, overlap, is_active, generation_find, generation_current, find_waiter_in,
  fd_find_waiter, fd_ready_waiter,
}
use microthread.Fd.Exclusive.{Excludes}
use microthread.Fd.Reserved.{ready_waiter-Excludes, ready_waiter-LeavesWaiters}
use microthread.FdApi.{common}
use microthread.FdApi.Reuse.{ready_waiter-generations}
use microthread.Poll.Told.{Matches, later-Matches}
use microthread.Epoll.{EpollEvents, epoll_told, epoll_events_to_fd_events, tell_ready}
use microthread.Epoll.Rounds.{
  IsOpen, IsFresh, IsLeft, IsServed, bits, told_common, fewer, round-IsLeft, marked-IsFresh,
  left-IsServed, nothing_overlaps,
}

asked_same :
    (allocates : Bool) (rt : Runtime) (fd : ℕ) (g : FdGeneration)
    → generation_find rt.fd_generations fd ≡ some g
    → generation_current allocates rt fd ≡ (g.generation, rt)
unfolding generation_current
asked_same allocates rt fd g e = rw (generation_current, e) refl

-- a search finds nothing, and then there is nothing to find, or it finds a waiter that matches
abbrev Found : Bool → Runtime → List ℕ → ℕ → Events → Type 0
Found allocates rt ws fd ready =
    (find_waiter_in allocates rt ws fd ready ≡ (none, rt))
      × ((v : ℕ) → IsOpen rt.fd_waiter ws fd v → overlap (rt.fd_waiter v).events ready ≡ false)
    ⊎ ((w : ℕ) × (find_waiter_in allocates rt ws fd ready ≡ (some w, rt))
        × Matches rt ws fd ready w)

later-IsOpen :
    (waiter : ℕ → FdWaiter) (w : ℕ) (ws : List ℕ) (fd v : ℕ)
    → IsOpen waiter ws fd v
    → IsOpen waiter (w ∷ ws) fd v
later-IsOpen waiter w ws fd v o = record {
  listed = ground (arith, o.listed);
  same_fd = o.same_fd;
  active = o.active;
}

find-Found :
    (allocates : Bool) (rt : Runtime) (ws : List ℕ) (fd : ℕ) (g : FdGeneration) (ready : Events)
    → generation_find rt.fd_generations fd ≡ some g
    → ((v : ℕ) → IsOpen rt.fd_waiter ws fd v → (rt.fd_waiter v).generation ≡ g.generation)
    → Found allocates rt ws fd ready
unfolding find_waiter_in
find-Found allocates rt [] fd g ready e c = inl (refl, λ v o. cc o.listed)
find-Found allocates rt (w ∷ ws) fd g ready e c = elim (Bool-cases fits) [
  | inl yes_ ↦
      let on : is_active (rt.fd_waiter w).state ≡ true = ground (arith, yes_) in
      let of : (rt.fd_waiter w).fd ≡ fd = ground (arith, yes_) in
      let now : ((rt.fd_waiter w).generation == g.generation) ≡ true =
        eq→== _ _ (c w (record { listed = ground arith; same_fd = of; active = on })) in
      inr (
        w,
        rw (find_waiter_in, yes_, asked_same allocates rt fd g e, now) refl,
        record { listed = ground arith; active = on; same_fd = of; wanted = ground (arith, yes_) },
      )
  | inr no_ ↦
      elim (find-Found allocates rt ws fd g ready e
        (λ v o. c v (later-IsOpen rt.fd_waiter w ws fd v o))) [
          | inl (none_, clear) ↦ inl (
            rw (find_waiter_in, no_) none_,
            λ v o. elim (ℕ_discrete w v) [
              | yes i ↦
                  subst (λ x. overlap (rt.fd_waiter x).events ready ≡ false) i
                    (unmatched (ap (λ x. is_active (rt.fd_waiter x).state) i ∙ o.active)
                      (ap (λ x. (rt.fd_waiter x).fd) i ∙ o.same_fd) no_)
              | no n ↦ clear v (record {
                listed = rw (ne→== w v n) at o.listed;
                same_fd = o.same_fd;
                active = o.active;
              })
            ],
          )
          | inr (u, found, m) ↦
              inr (u, rw (find_waiter_in, no_) found, later-Matches rt w ws fd ready u m)
        ]
]
  where
    fits : Bool
    fits =
        is_active (rt.fd_waiter w).state
        && (rt.fd_waiter w).fd == fd
        && overlap (rt.fd_waiter w).events ready

    unmatched :
        is_active (rt.fd_waiter w).state ≡ true
        → (rt.fd_waiter w).fd ≡ fd
        → fits ≡ false
        → overlap (rt.fd_waiter w).events ready ≡ false
    unmatched a f n = ground (arith, a, f, n)

-- what the loop needs to go on with
abbrev Serves : Runtime → ℕ → FdGeneration → Events → Events → Type 0
Serves rt fd g ready remaining =
    Excludes rt
    × IsFresh rt.fd_waiter rt.fd_waiters fd g.generation
    × (generation_find rt.fd_generations fd ≡ some g)
    × IsLeft rt.fd_waiter rt.fd_waiters fd ready remaining

-- a round of the loop, on the runtime
round-Serves :
    (rt : Runtime) (fd : ℕ) (g : FdGeneration) (ready remaining told : Events) (w : ℕ)
    → Matches rt rt.fd_waiters fd remaining w
    → told ≡ common remaining (rt.fd_waiter w).events
    → Serves rt fd g ready remaining
    → Serves (fd_ready_waiter rt w Code.ok told) fd g ready (without remaining told)
round-Serves rt fd g ready remaining told w m e (excludes, fresh, entry, l) =
    let after = fd_ready_waiter rt w Code.ok told in
    let (t, owner) = fresh.owned w m.listed in
    let x = record (rt.fd_waiter w) { state = ready_reserved } in
    let k = ready_waiter-LeavesWaiters rt w t Code.ok told owner in
    let at_w : IsOpen rt.fd_waiter rt.fd_waiters fd w = record {
      listed = m.listed;
      same_fd = m.same_fd;
      active = m.active;
    } in
    (
      ready_waiter-Excludes rt w Code.ok told excludes,
      rw (k.waiter, k.waiters) (marked-IsFresh rt.fd_waiter rt.fd_waiters fd g.generation w fresh),
      ap (λ gs. generation_find gs fd) (ready_waiter-generations rt w Code.ok told) ∙ entry,
      rw (k.waiter, k.waiters)
          (subst
            (λ d. IsLeft (update rt.fd_waiter w x) rt.fd_waiters fd ready (without remaining d))
            (sym e)
            (round-IsLeft rt.fd_waiter rt.fd_waiters fd ready remaining w x excludes at_w refl l)),
    )

tell_ready-Serves :
    (k : ℕ) (allocates : Bool) (rt : Runtime) (fd : ℕ) (g : FdGeneration) (raw : EpollEvents)
    (ready remaining : Events)
    → bits remaining < k
    → Serves rt fd g ready remaining
    → Returns (IsServed fd ready) (tell_ready k allocates rt fd raw remaining)
unfolding tell_ready fd_find_waiter
tell_ready-Serves zero allocates rt fd g raw ready remaining h (e, f, entry, l) =
    absurd (omega arith)
tell_ready-Serves (suc k) allocates rt fd g raw ready remaining h (e, f, entry, l) =
    elim (Bool-cases (is_some_event remaining)) [
      | inr none_ ↦ rw none_ (
          returns (
            left-IsServed rt fd ready remaining l
              (λ v o. nothing_overlaps (rt.fd_waiter v).events remaining none_)))
      | inl some_ ↦
          elim (find-Found allocates rt rt.fd_waiters fd g remaining entry (λ v o. f.current v o)) [
            | inl (nobody, clear) ↦
                rw (some_, ap (λ r. r.0) nobody, ap (λ r. r.1) nobody)
                  (returns (left-IsServed rt fd ready remaining l clear))
            | inr (w, found, m) ↦
                rw (some_, ap (λ r. r.0) found, ap (λ r. r.1) found)
                  (let told = epoll_told (rt.fd_waiter w).events raw remaining in
                    let exact = told_common (rt.fd_waiter w).events raw remaining m.wanted in
                    let less : bits (without remaining told) < k =
                      rw exact (omega (arith, fewer (rt.fd_waiter w).events remaining m.wanted)) in
                    tell_ready-Serves k allocates (fd_ready_waiter rt w Code.ok told) fd g raw ready
                      (without remaining told) less
                      (round-Serves rt fd g ready remaining told w m exact (e, f, entry, l)))
          ]
    ]

-- Where the waiters reserve their events apart, each has its task, and those of the descriptor are of
-- its present generation, the loop over the waiters that mt_epoll_backend_wait_locked runs for a report
-- of epoll_wait ends within three rounds, and then no active waiter of the descriptor waits for an
-- event that was reported.
pub tell_ready-Returns :
    (allocates : Bool) (rt : Runtime) (fd : ℕ) (g : FdGeneration) (raw : EpollEvents)
    → generation_find rt.fd_generations fd ≡ some g
    → Excludes rt
    → IsFresh rt.fd_waiter rt.fd_waiters fd g.generation
    → let ready = epoll_events_to_fd_events raw in
      Returns (IsServed fd ready) (tell_ready 3 allocates rt fd raw ready)
tell_ready-Returns allocates rt fd g raw entry e f =
    let ready = epoll_events_to_fd_events raw in
    tell_ready-Serves 3 allocates rt fd g raw ready ready (few ready)
      (e, f, entry, record { read_left = λ v o wants r. r; write_left = λ v o wants r. r })
  where
    few : (events : Events) → bits events < 3
    few events = ground arith
