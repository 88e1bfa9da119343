-- ===== src/Timer/Down.antt =====
-- `for (;;)`: a task moves towards the leaves, below its smaller child.
use mathlib.Core.List.Perm
use native.Mathlib.Decide.{dec_lt, ℕ_discrete}
use microthread.Base.{
  ℕ, zero, suc, ◌+◌, ◌-◌, ◌*◌, ◌≤◌, ◌<◌, ◌≡◌, ◌≢◌, ◌⊎◌, inl, inr, refl, List, Perm, arith, length,
  lt→ltb, not-lt→ltb, eq→==, ne→==, Returns, returns, Returns-bind, Returns-mono,
}
use microthread.State.{Task}
use microthread.Timer.{smaller, sift_down, parent}
use microthread.Timer.Order.{
  IsBounded, key, IsHeap, swapped, swap-ok, length-swapped, get_or-swapped, swapped-perm,
  less_at-ok,
}
use microthread.Timer.Up.{IsSinking}

pub record Sunk (tasks : ℕ → Task) (a b : List ℕ) : Type 0 where
  pub heap : IsHeap tasks b
  pub same : Perm b a

-- `m` is `i` or one of the children below `n`, and none of these is due before it
record IsSmallest (tasks : ℕ → Task) (a : List ℕ) (i n m : ℕ) : Type 0 where
  inside : m < length a
  child : (m ≡ i) ⊎ (parent m ≡ i) × (0 < m)
  here : key tasks a m ≤ key tasks a i
  least : (c : ℕ) → 0 < c → c < length a → parent c ≡ i → c < n → key tasks a m ≤ key tasks a c

module _ (tasks : ℕ → Task) (bounded : IsBounded tasks) where
  -- a test of one more child
  smaller-IsSmallest :
      (a : List ℕ) (i c m : ℕ)
      → parent c ≡ i
      → 0 < c
      → IsSmallest tasks a i c m
      → Returns (IsSmallest tasks a i (c + 1)) (smaller tasks a c m)
  unfolding smaller
  smaller-IsSmallest a i c m e pos s = elim (dec_lt c (length a)) [
    | no out ↦ rw (not-lt→ltb c (length a) out) (
        returns (record {
          inside = s.inside;
          child = s.child;
          here = s.here;
          least = λ d p q r t. s.least d p q r (omega arith);
        }))
    | yes fits ↦
        rw (lt→ltb c (length a) fits, less_at-ok tasks bounded a c m fits s.inside)
          (elim (dec_lt (key tasks a c) (key tasks a m)) [
            | yes below ↦ rw (lt→ltb _ _ below) (
                returns (record {
                  inside = fits;
                  child = inr (e, pos);
                  here = omega (arith, s.here);
                  least = λ d p q r t. ground (arith, s.least d);
                }))
            | no above ↦ rw (not-lt→ltb _ _ above) (
                returns (record {
                  inside = s.inside;
                  child = s.child;
                  here = s.here;
                  least = λ d p q r t. ground (arith, s.least d);
                }))
          ])
  ]

  module _ (a : List ℕ) (i m : ℕ) (hi : i < length a) (v : IsSinking tasks a i)
      (s : IsSmallest tasks a i (i * 2 + 1 + 1 + 1) m) where
    settled_here : m ≡ i → IsHeap tasks a
    settled_here e c p q = ground (arith, v.edges c, s.least c)

    swap-IsSinking : m ≢ i → IsSinking tasks (swapped a i m) m
    swap-IsSinking ne =
        let size = length-swapped a i m hi s.inside in
        let at = get_or-swapped a i m hi s.inside in
        record {
          edges = λ c p q r. ground (
            arith,
            size,
            at c,
            at (parent c),
            v.edges c,
            v.bridged m,
            s.least c,
            s.child,
            s.here,
          );
          bridged = λ c p q r t. ground (arith, size, at c, at (parent m), v.edges c, s.child);
        }

  -- With fuel above the distance to the end the loop ends, in a heap of the same tasks.
  pub sift_down-Sunk :
      (k : ℕ) (a : List ℕ) (i : ℕ)
      → length a - i < k
      → i < length a
      → IsSinking tasks a i
      → Returns (Sunk tasks a) (sift_down tasks k a i)
  unfolding sift_down
  sift_down-Sunk zero a i f hi v = absurd (omega arith)
  sift_down-Sunk (suc k) a i f hi v =
      Returns-bind (smaller-IsSmallest a i (i * 2 + 1) i (omega arith) (omega arith) start) λ l sl.
        Returns-bind (smaller-IsSmallest a i (i * 2 + 1 + 1) l (omega arith) (omega arith) sl)
          λ m sm. elim (ℕ_discrete m i) [
            | yes e ↦
                rw (eq→== m i e)
                  (returns (record { heap = settled_here a i m hi v sm e; same = Perm.rfl }))
            | no ne ↦
                rw (ne→== m i ne, swap-ok a i m hi sm.inside)
                  (Returns-mono
                    (sift_down-Sunk k (swapped a i m) m
                      (ground (arith, length-swapped a i m hi sm.inside, sm.child))
                      (rw (length-swapped a i m hi sm.inside) sm.inside)
                      (swap-IsSinking a i m hi v sm ne))
                    λ b s. record {
                      heap = s.heap;
                      same = Perm.trans s.same (swapped-perm a i m hi sm.inside);
                    })
          ]
    where
      start : IsSmallest tasks a i (i * 2 + 1) i
      start = record {
        inside = hi;
        child = inl refl;
        here = omega arith;
        least = λ c p q r t. absurd (omega arith);
      }
