-- ===== src/Timer/Order.antt =====
-- The heap order, by a rank that combines the deadline and the age of a task.
use mathlib.Core.List.Perm
use native.Mathlib.Nat.{le_trans}
use microthread.Base.{
  ℕ, zero, suc, ◌+◌, ◌*◌, ◌^◌, ◌≤◌, ◌<◌, ◌≡◌, ap, some, List, Perm, arith, ltb, ◌==◌, if◌then◌else◌,
  length, get_or, set, length-set, get_elem?-get_or, get_or-set, set-perm,
}
use microthread.State.{Task}
use microthread.Timer.{timer_less, less_at, timer_swap, parent}

-- `timer_seq` is a uint64_t
abbrev pub IsBounded : (ℕ → Task) → Type 0
IsBounded tasks = (t : ℕ) → (tasks t).timer_seq < 2 ^ 64

abbrev pub rank : (ℕ → Task) → ℕ → ℕ
rank tasks t = (tasks t).wake_ns * 2 ^ 64 + (tasks t).timer_seq

abbrev pub key : (ℕ → Task) → List ℕ → ℕ → ℕ
key tasks items i = rank tasks (get_or items i 0)

-- no task is due before its parent in the heap
abbrev pub IsHeap : (ℕ → Task) → List ℕ → Type 0
IsHeap tasks items =
    (c : ℕ) → 0 < c → c < length items → key tasks items (parent c) ≤ key tasks items c

abbrev pub swapped : List ℕ → ℕ → ℕ → List ℕ
swapped items i j = set (set items i (get_or items j 0)) j (get_or items i 0)

module _ (items : List ℕ) (i j : ℕ) (hi : i < length items) (hj : j < length items) where
  pub swap-ok : timer_swap items i j ≡ some (swapped items i j)
  unfolding timer_swap
  swap-ok = rw (get_elem?-get_or 0 items i hi, get_elem?-get_or 0 items j hj)

  pub length-swapped : length (swapped items i j) ≡ length items
  length-swapped = simp length-set

  pub get_or-swapped :
      (c : ℕ)
      → get_or (swapped items i j) c 0 ≡ (
          if j == c
          then get_or items i 0
          else if i == c
          then get_or items j 0
          else get_or items c 0)
  get_or-swapped c = rw (
    get_or-set 0 (set items i (get_or items j 0)) j c (get_or items i 0) (rw length-set hj),
    get_or-set 0 items i c (get_or items j 0) hi,
  )

  pub swapped-perm : Perm (swapped items i j) items
  swapped-perm =
      let half = set items i (get_or items j 0) in
      let kept : get_or half j 0 ≡ get_or items j 0 =
        ground (arith, get_or-set 0 items i j (get_or items j 0) hi) in
      let back = set-perm 0 half j (get_or items i 0) (rw length-set hj) in
      Perm.cons_inv (Perm.trans (rw kept at back) (set-perm 0 items i (get_or items j 0) hi))

module _ (tasks : ℕ → Task) (bounded : IsBounded tasks) where
  -- mt_timer_less compares ranks
  pub less-rank : (a b : ℕ) → timer_less tasks a b ≡ ltb (rank tasks a) (rank tasks b)
  unfolding timer_less
  less-rank a b = ground (arith, bounded a, bounded b)

  pub less_at-ok :
      (items : List ℕ) (i j : ℕ)
      → i < length items
      → j < length items
      → less_at tasks items i j ≡ some (ltb (key tasks items i) (key tasks items j))
  unfolding less_at
  less_at-ok items i j hi hj =
      rw (get_elem?-get_or 0 items i hi, get_elem?-get_or 0 items j hj)
        (ap some (less-rank (get_or items i 0) (get_or items j 0)))

module _ (tasks : ℕ → Task) where
  root_below :
      (k : ℕ) (items : List ℕ) (i : ℕ)
      → IsHeap tasks items
      → i < k
      → i < length items
      → key tasks items 0 ≤ key tasks items i
  root_below zero items i h f p = absurd (omega arith)
  root_below (suc k) items zero h f p = omega arith
  root_below (suc k) items (suc i) h f p =
      let up = root_below k items (parent (suc i)) h (omega arith) (omega arith) in
      le_trans up (h (suc i) (omega arith) p)

  -- In a heap no task ranks before the root, by deadline and then by age.
  pub root_least :
      (items : List ℕ) (i : ℕ)
      → IsHeap tasks items
      → i < length items
      → key tasks items 0 ≤ key tasks items i
  root_least items i h p = root_below (suc i) items i h (omega arith) p
