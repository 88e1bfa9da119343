-- ===== src/Epoll/Rounds.antt =====
-- A round of the loop over the waiters of a descriptor that epoll_wait reports.
use mathlib.Core.Path.{subst}
use native.Mathlib.Decide.{ℕ_discrete}
use microthread.Base.{
  ℕ, ◌+◌, ◌<◌, ◌≡◌, ◌≢◌, refl, sym, ◌∙◌, true, false, Bool, some, List, if◌then◌else◌, arith, has,
  update, eq→==, ne→==,
}
use microthread.State.{Events, FdWaiter, ready_reserved, Runtime}
use microthread.Fd.{is_some_event, without, overlap, is_active}
use microthread.Fd.Exclusive.{IsExclusive}
use microthread.FdApi.{common}
use microthread.Epoll.{EpollEvents, epoll_told}

-- a waiter that a report on the descriptor may wake
pub record IsOpen (waiter : ℕ → FdWaiter) (ws : List ℕ) (fd v : ℕ) : Type 0 where
  pub listed : has v ws ≡ true
  pub same_fd : (waiter v).fd ≡ fd
  pub active : is_active (waiter v).state ≡ true

-- Each waiter has a task, and those of the descriptor are of its present generation.
pub record IsFresh (waiter : ℕ → FdWaiter) (ws : List ℕ) (fd generation : ℕ) : Type 0 where
  pub owned : (v : ℕ) → has v ws ≡ true → (t : ℕ) × ((waiter v).task ≡ some t)
  pub current : (v : ℕ) → IsOpen waiter ws fd v → (waiter v).generation ≡ generation

-- `remaining` has all that the active waiters of the descriptor wait for of what is `ready`.
pub record IsLeft (waiter : ℕ → FdWaiter) (ws : List ℕ) (fd : ℕ) (ready remaining : Events)
    : Type 0 where
  pub read_left :
      (v : ℕ)
      → IsOpen waiter ws fd v
      → (waiter v).events.read ≡ true
      → ready.read ≡ true
      → remaining.read ≡ true
  pub write_left :
      (v : ℕ)
      → IsOpen waiter ws fd v
      → (waiter v).events.write ≡ true
      → ready.write ≡ true
      → remaining.write ≡ true

-- no active waiter of the descriptor waits for a ready event any more
abbrev pub IsServed : ℕ → Events → Runtime → Type 0
IsServed fd ready rt =
    (v : ℕ) → IsOpen rt.fd_waiter rt.fd_waiters fd v → overlap (rt.fd_waiter v).events ready ≡ false

-- the bits that are left
abbrev pub bits : Events → ℕ
bits e = (if e.read then 1 else 0) + (if e.write then 1 else 0)

-- a waiter that waits for something of what is left is told exactly that
pub told_common :
    (wanted : Events) (raw : EpollEvents) (remaining : Events)
    → overlap wanted remaining ≡ true
    → epoll_told wanted raw remaining ≡ common remaining wanted
unfolding epoll_told
told_common wanted raw remaining h = ground (arith, h)

pub fewer :
    (wanted remaining : Events)
    → overlap wanted remaining ≡ true
    → bits (without remaining (common remaining wanted)) < bits remaining
fewer wanted remaining h = ground (arith, h)

-- two waiters that are apart do not share a bit
read_apart : (a b : Events) → overlap a b ≡ false → a.read ≡ true → b.read ≡ false
read_apart a b h r = ground (arith, h)

write_apart : (a b : Events) → overlap a b ≡ false → a.write ≡ true → b.write ≡ false
write_apart a b h r = ground (arith, h)

-- the waiters that stay open when one is woken
update-IsOpen :
    (waiter : ℕ → FdWaiter) (ws : List ℕ) (fd w v : ℕ) (x : FdWaiter)
    → is_active x.state ≡ false
    → IsOpen (update waiter w x) ws fd v
    → (w ≢ v) × IsOpen waiter ws fd v
update-IsOpen waiter ws fd w v x off o = elim (ℕ_discrete w v) [
  | yes i ↦ absurd (true≢false (sym (rw (eq→== w v i) at o.active) ∙ off))
  | no n ↦ (
    n,
    record {
      listed = o.listed;
      same_fd = rw (ne→== w v n) at o.same_fd;
      active = rw (ne→== w v n) at o.active;
    },
  )
]
  where
    true≢false : Path Bool true false → ⊥
    true≢false e = cc

-- a round of the loop, on the waiters
pub round-IsLeft :
    (waiter : ℕ → FdWaiter) (ws : List ℕ) (fd : ℕ) (ready remaining : Events) (w : ℕ) (x : FdWaiter)
    → IsExclusive waiter ws
    → IsOpen waiter ws fd w
    → is_active x.state ≡ false
    → IsLeft waiter ws fd ready remaining
    → IsLeft
        (update waiter w x)
        ws
        fd
        ready
        (without remaining (common remaining (waiter w).events))
round-IsLeft waiter ws fd ready remaining w x e at_w off l = record {
  read_left = λ v o wants is_ready.
      let (ne, before) = update-IsOpen waiter ws fd w v x off o in
      let wanted : (waiter v).events.read ≡ true = rw (ne→== w v ne) at wants in
      let other : (waiter w).events.read ≡ false =
        read_apart (waiter v).events (waiter w).events (apart_from v ne before) wanted in
      ground (arith, l.read_left v before wanted is_ready, other);
  write_left = λ v o wants is_ready.
      let (ne, before) = update-IsOpen waiter ws fd w v x off o in
      let wanted : (waiter v).events.write ≡ true = rw (ne→== w v ne) at wants in
      let other : (waiter w).events.write ≡ false =
        write_apart (waiter v).events (waiter w).events (apart_from v ne before) wanted in
      ground (arith, l.write_left v before wanted is_ready, other);
}
  where
    apart_from :
        (v : ℕ)
        → w ≢ v
        → IsOpen waiter ws fd v
        → overlap (waiter v).events (waiter w).events ≡ false
    apart_from v ne o =
        e.apart v w o.listed at_w.listed (λ i. ne (sym i)) (o.same_fd ∙ sym at_w.same_fd)

-- a waiter is marked, and keeps its task, its descriptor and its generation
pub marked-IsFresh :
    (waiter : ℕ → FdWaiter) (ws : List ℕ) (fd generation w : ℕ)
    → let x = record (waiter w) { state = ready_reserved } in
      IsFresh waiter ws fd generation → IsFresh (update waiter w x) ws fd generation
marked-IsFresh waiter ws fd generation w f =
    let x = record (waiter w) { state = ready_reserved } in
    record {
      owned = λ v h. elim (ℕ_discrete w v) [
        | yes i ↦ rw (eq→== w v i) (f.owned w (subst (λ u. has u ws ≡ true) (sym i) h))
        | no n ↦ rw (ne→== w v n) (f.owned v h)
      ];
      current = λ v o.
          let (ne, before) = update-IsOpen waiter ws fd w v x refl o in
          rw (ne→== w v ne) (f.current v before);
    }

-- where nothing is left, or nothing that is left is wanted
pub left-IsServed :
    (rt : Runtime) (fd : ℕ) (ready remaining : Events)
    → IsLeft rt.fd_waiter rt.fd_waiters fd ready remaining
    → ((v : ℕ)
        → IsOpen rt.fd_waiter rt.fd_waiters fd v
        → overlap (rt.fd_waiter v).events remaining ≡ false)
    → IsServed fd ready rt
left-IsServed rt fd ready remaining l clear v o =
    let r = l.read_left v o in let w = l.write_left v o in ground (arith, r, w, clear v o)

pub nothing_overlaps : (a b : Events) → is_some_event b ≡ false → overlap a b ≡ false
nothing_overlaps a b h = ground arith
