-- ===== src/Timer/Up.antt =====
-- `while (i > 0)`: a task moves towards the root.
use mathlib.Core.List.Perm
use microthread.Base.{
  ℕ, zero, suc, ◌≤◌, ◌<◌, ◌≡◌, ◌≢◌, List, Perm, arith, length, lt→ltb, not-lt→ltb, Returns, returns,
  Returns-mono,
}
use native.Mathlib.Decide.{dec_lt}
use microthread.State.{Task}
use microthread.Timer.{sift_up, parent}
use microthread.Timer.Order.{
  IsBounded, key, IsHeap, swapped, swap-ok, length-swapped, get_or-swapped, swapped-perm,
  less_at-ok,
}

-- all edges are in order but those of position `i`
pub record IsLoose (tasks : ℕ → Task) (a : List ℕ) (i : ℕ) : Type 0 where
  pub edges :
      (c : ℕ) → 0 < c → c < length a → c ≢ i → parent c ≢ i → key tasks a (parent c) ≤ key tasks a c
  pub bridged :
      (c : ℕ) → 0 < c → c < length a → parent c ≡ i → 0 < i → key tasks a (parent i) ≤ key tasks a c

-- all edges are in order but those below position `i`
pub record IsSinking (tasks : ℕ → Task) (a : List ℕ) (i : ℕ) : Type 0 where
  pub edges : (c : ℕ) → 0 < c → c < length a → parent c ≢ i → key tasks a (parent c) ≤ key tasks a c
  pub bridged :
      (c : ℕ) → 0 < c → c < length a → parent c ≡ i → 0 < i → key tasks a (parent i) ≤ key tasks a c

-- the edges below position `i` are in order
abbrev pub IsSettled : (ℕ → Task) → List ℕ → ℕ → Type 0
IsSettled tasks a i = (c : ℕ) → 0 < c → c < length a → parent c ≡ i → key tasks a i ≤ key tasks a c

pub record Risen (tasks : ℕ → Task) (a : List ℕ) (i : ℕ) (r : List ℕ × ℕ) : Type 0 where
  pub inside : r.1 < length r.0
  pub sinking : IsSinking tasks r.0 r.1
  pub settled : IsSettled tasks a i → IsSettled tasks r.0 r.1
  pub same : Perm r.0 a

module _ (tasks : ℕ → Task) (bounded : IsBounded tasks) where
  module _ (a : List ℕ) (i : ℕ) (hi : i < length a) (v : IsLoose tasks a i) where
    stay : (0 < i → key tasks a (parent i) ≤ key tasks a i) → Risen tasks a i (a, i)
    stay h = record {
      inside = hi;
      sinking = record { edges = λ c p q r. ground (arith, v.edges c, h); bridged = v.bridged };
      settled = λ s. s;
      same = Perm.rfl;
    }

    module _ (pos : 0 < i) (below : key tasks a i < key tasks a (parent i)) where
      swap-IsLoose : IsLoose tasks (swapped a i (parent i)) (parent i)
      swap-IsLoose =
          let size = length-swapped a i (parent i) hi (omega arith) in
          let at = get_or-swapped a i (parent i) hi (omega arith) in
          record {
            edges = λ c p q r s. ground (arith, size, at c, at (parent c), v.edges c, v.bridged c);
            bridged = λ c p q r s. ground (
              arith,
              size,
              at c,
              at (parent (parent i)),
              v.edges c,
              v.edges (parent i),
              v.bridged c,
            );
          }

      swap-IsSettled : IsSettled tasks (swapped a i (parent i)) (parent i)
      swap-IsSettled =
          let size = length-swapped a i (parent i) hi (omega arith) in
          let at = get_or-swapped a i (parent i) hi (omega arith) in
          λ c p q r. ground (arith, size, at c, at (parent i), v.edges c)

  -- With fuel above `i` the loop ends: only the edges below the resting place may be out of order,
  -- and those are in order if they were at the start.
  pub sift_up-Risen :
      (k : ℕ) (a : List ℕ) (i : ℕ)
      → i < k
      → i < length a
      → IsLoose tasks a i
      → Returns (Risen tasks a i) (sift_up tasks k a i)
  unfolding sift_up
  sift_up-Risen zero a i f hi v = absurd (omega arith)
  sift_up-Risen (suc k) a i f hi v = elim (dec_lt 0 i) [
    | no root ↦ rw (not-lt→ltb 0 i root) (returns (stay a i hi v (λ pos. absurd (root pos))))
    | yes pos ↦
        rw (lt→ltb 0 i pos, less_at-ok tasks bounded a i (parent i) hi (omega arith))
          (elim (dec_lt (key tasks a i) (key tasks a (parent i))) [
            | no done ↦ rw (not-lt→ltb _ _ done) (returns (stay a i hi v (λ _. omega arith)))
            | yes below ↦
                let above : parent i < length a = omega arith in
                rw (lt→ltb _ _ below, swap-ok a i (parent i) hi above)
                  (Returns-mono
                    (sift_up-Risen k (swapped a i (parent i)) (parent i) (omega arith)
                      (rw (length-swapped a i (parent i) hi above) above)
                      (swap-IsLoose a i hi v pos below))
                    λ r s. record {
                      inside = s.inside;
                      sinking = s.sinking;
                      settled = λ _. s.settled (swap-IsSettled a i hi v pos below);
                      same = Perm.trans s.same (swapped-perm a i (parent i) hi above);
                    })
          ])
  ]

pub IsHeap-of_settled :
    (tasks : ℕ → Task) (a : List ℕ) (i : ℕ)
    → IsSinking tasks a i
    → IsSettled tasks a i
    → IsHeap tasks a
IsHeap-of_settled tasks a i v s c p q = ground (arith, v.edges c, s c)
