-- ===== src/Fd/Exclusive.antt =====
-- The fd waiters that reserve events of a descriptor.
use native.Mathlib.Decide.{ℕ_discrete}
use microthread.Base.{
  ℕ, ◌≡◌, ◌≢◌, refl, sym, ap, ◌∙◌, inl, inr, true, false, List, [], ◌∷◌, arith, has, erase, update,
  IsDistinct, eq→==, ne→==, Bool-cases, has-erase, erase-IsDistinct,
}
use microthread.State.{Events, FdWaiter, Runtime}
use microthread.Fd.{overlap, reserves_conflict, conflicts_in}

-- Each listed waiter reserves its events, and no two of them reserve the same event of the same
-- descriptor.
pub record IsExclusive (waiter : ℕ → FdWaiter) (ws : List ℕ) : Type 0 where
  pub distinct : IsDistinct ws
  pub reserved : (w : ℕ) → has w ws ≡ true → reserves_conflict (waiter w).state ≡ true
  pub apart :
      (v w : ℕ)
      → has v ws ≡ true
      → has w ws ≡ true
      → v ≢ w
      → (waiter v).fd ≡ (waiter w).fd
      → overlap (waiter v).events (waiter w).events ≡ false

-- on the runtime
abbrev pub Excludes : Runtime → Type 0
Excludes rt = IsExclusive rt.fd_waiter rt.fd_waiters

-- an address that is not listed is another one than those that are
pub has-ne : (v w : ℕ) (ws : List ℕ) → has v ws ≡ true → has w ws ≡ false → w ≢ v
has-ne v w ws h k e = ground (arith, ap (λ x. has x ws) e)

-- a member after one is taken out
has-erase-true : (v w : ℕ) (ws : List ℕ) → has v (erase w ws) ≡ true → has v ws ≡ true
has-erase-true v w ws h = elim (Bool-cases (has v ws)) [
  | inl on ↦ on
  | inr off ↦ cc (has-erase v w ws off)
]

has-erase_self : (w : ℕ) (ws : List ℕ) → IsDistinct ws → has w (erase w ws) ≡ false
has-erase_self w [] d = refl
has-erase_self w (x ∷ xs) d = ground (arith, has-erase_self w xs d.1)

-- a waiter that is not listed is written
pub unlisted-IsExclusive :
    (waiter : ℕ → FdWaiter) (ws : List ℕ) (w : ℕ) (x : FdWaiter)
    → has w ws ≡ false
    → IsExclusive waiter ws
    → IsExclusive (update waiter w x) ws
unlisted-IsExclusive waiter ws w x new e = record {
  distinct = e.distinct;
  reserved = λ v h. rw (ne→== w v (has-ne v w ws h new)) (e.reserved v h);
  apart = λ u v h k ne.
      rw (ne→== w u (has-ne u w ws h new), ne→== w v (has-ne v w ws k new)) (e.apart u v h k ne);
}

-- a waiter keeps its descriptor and its events, and reserves them
pub kept-IsExclusive :
    (waiter : ℕ → FdWaiter) (ws : List ℕ) (w : ℕ) (x : FdWaiter)
    → x.fd ≡ (waiter w).fd
    → x.events ≡ (waiter w).events
    → reserves_conflict x.state ≡ true
    → IsExclusive waiter ws
    → IsExclusive (update waiter w x) ws
kept-IsExclusive waiter ws w x same_fd same r e =
    let fd_of : (v : ℕ) → (update waiter w x v).fd ≡ (waiter v).fd = λ v. fd_kept v in
    let events_of : (v : ℕ) → (update waiter w x v).events ≡ (waiter v).events =
      λ v. events_kept v in
    record {
      distinct = e.distinct;
      reserved = λ v h. reserved_kept v (e.reserved v h);
      apart = λ u v h k ne f.
          rw (events_of u, events_of v) (e.apart u v h k ne (sym (fd_of u) ∙ f ∙ fd_of v));
    }
  where
    fd_kept : (v : ℕ) → (update waiter w x v).fd ≡ (waiter v).fd
    fd_kept v = elim (ℕ_discrete w v) [
      | yes i ↦ rw (eq→== w v i) (same_fd ∙ ap (λ z. (waiter z).fd) i)
      | no n ↦ rw (ne→== w v n) refl
    ]

    events_kept : (v : ℕ) → (update waiter w x v).events ≡ (waiter v).events
    events_kept v = elim (ℕ_discrete w v) [
      | yes i ↦ rw (eq→== w v i) (same ∙ ap (λ z. (waiter z).events) i)
      | no n ↦ rw (ne→== w v n) refl
    ]

    reserved_kept :
        (v : ℕ)
        → reserves_conflict (waiter v).state ≡ true
        → reserves_conflict (update waiter w x v).state ≡ true
    reserved_kept v h = elim (ℕ_discrete w v) [
      | yes i ↦ rw (eq→== w v i) r
      | no n ↦ rw (ne→== w v n) h
    ]

-- a waiter leaves the list
pub left-IsExclusive :
    (waiter : ℕ → FdWaiter) (ws : List ℕ) (w : ℕ) (x : FdWaiter)
    → IsExclusive waiter ws
    → IsExclusive (update waiter w x) (erase w ws)
left-IsExclusive waiter ws w x e =
    unlisted-IsExclusive waiter (erase w ws) w x (has-erase_self w ws e.distinct) (record {
      distinct = erase-IsDistinct w ws e.distinct;
      reserved = λ v h. e.reserved v (has-erase-true v w ws h);
      apart = λ u v h k ne. e.apart u v (has-erase-true u w ws h) (has-erase-true v w ws k) ne;
    })

-- no listed waiter conflicts
conflicts-apart :
    (waiter : ℕ → FdWaiter) (ws : List ℕ) (fd : ℕ) (events : Events) (v : ℕ)
    → conflicts_in waiter ws fd events ≡ false
    → has v ws ≡ true
    → reserves_conflict (waiter v).state ≡ true
    → (waiter v).fd ≡ fd
    → overlap (waiter v).events events ≡ false
conflicts-apart waiter [] fd events v c h r f = cc
conflicts-apart waiter (u ∷ us) fd events v c h r f =
    ground (arith, conflicts-apart waiter us fd events v)

overlap_comm : (a b : Events) → overlap a b ≡ overlap b a
overlap_comm a b = ground arith

-- a new waiter for events that nobody reserves
pub joined-IsExclusive :
    (waiter : ℕ → FdWaiter) (ws : List ℕ) (w : ℕ) (x : FdWaiter)
    → has w ws ≡ false
    → conflicts_in waiter ws x.fd x.events ≡ false
    → reserves_conflict x.state ≡ true
    → IsExclusive waiter ws
    → IsExclusive (update waiter w x) (w ∷ ws)
joined-IsExclusive waiter ws w x new free r e =
    let rest = unlisted-IsExclusive waiter ws w x new e in
    record {
      distinct = (new, e.distinct);
      reserved = λ v h. elim (ℕ_discrete w v) [
        | yes i ↦ rw (eq→== w v i) r
        | no n ↦ rest.reserved v (rw (ne→== w v n) at h)
      ];
      apart = λ u v h k ne f. elim (ℕ_discrete w u) [
        | yes i ↦
            let n : w ≢ v = λ j. ne (sym i ∙ j) in
            rw (eq→== w u i, ne→== w v n)
              (overlap_comm x.events (waiter v).events
                ∙ free_of v n k (sym (rw (eq→== w u i, ne→== w v n) at f)))
        | no n ↦ elim (ℕ_discrete w v) [
          | yes j ↦
              rw (ne→== w u n, eq→== w v j) (free_of u n h (rw (ne→== w u n, eq→== w v j) at f))
          | no m ↦ rest.apart u v (rw (ne→== w u n) at h) (rw (ne→== w v m) at k) ne f
        ]
      ];
    }
  where
    free_of :
        (v : ℕ)
        → w ≢ v
        → has v (w ∷ ws) ≡ true
        → (waiter v).fd ≡ x.fd
        → overlap (waiter v).events x.events ≡ false
    free_of v n k f =
        let listed : has v ws ≡ true = rw (ne→== w v n) at k in
        conflicts-apart waiter ws x.fd x.events v free listed (e.reserved v listed) f
