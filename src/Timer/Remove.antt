-- ===== src/Timer/Remove.antt =====
-- The arrays of mt_timer_push_state, mt_timer_pop and mt_timer_remove.
use mathlib.Core.List.{append-nil, perm_middle}
use mathlib.Core.List.Perm
use mathlib.Core.Path.{subst}
use native.Mathlib.Decide.{ℕ_discrete, dec_lt}
use microthread.Base.{
  length-take_le, ℕ, zero, suc, ◌+◌, ◌-◌, ◌≤◌, ◌<◌, ◌≡◌, refl, ap, sym, ◌∙◌, List, [], ◌∷◌, ◌++◌,
  Perm, arith, length, get_or, set, take, length-append, length-perm, length-set, get_or-append,
  get_or-set, get_or-take, get_elem?-get_or, set-perm, lt→ltb, not-lt→ltb, eq→==, ne→==, Returns,
  returns, Returns-bind, Returns-mono,
}
use microthread.State.{Task}
use microthread.Timer.{push_items, pop_items, remove_at, parent}
use microthread.Timer.Order.{IsBounded, IsHeap}
use microthread.Timer.Up.{IsLoose, sift_up-Risen, IsHeap-of_settled}
use microthread.Timer.Down.{Sunk, sift_down-Sunk}

module _ {ℓ} {A : Type ℓ} where
  pub take-append_last :
      (d : A) (n : ℕ) (xs : List A) → length xs ≡ suc n → take n xs ++ get_or xs n d ∷ [] ≡ xs
  take-append_last d zero (x ∷ []) h = refl
  take-append_last d zero [] h = absurd (omega arith)
  take-append_last d zero (x ∷ y ∷ xs) h = absurd (omega arith)
  take-append_last d (suc n) [] h = absurd (omega arith)
  take-append_last d (suc n) (x ∷ xs) h = ap (◌∷◌ x) (take-append_last d n xs (omega arith))

  pub concat-perm : (xs : List A) (x : A) → Perm (xs ++ x ∷ []) (x ∷ xs)
  concat-perm xs x = rw (append-nil xs) at (perm_middle {a = x} xs [])

module _ (tasks : ℕ → Task) (bounded : IsBounded tasks) where
  -- Where `timer_seq` fits in 64 bits, a push on a heap does not fault, leaves a heap, and adds
  -- exactly the task.
  pub push_items-Sunk :
      (items : List ℕ) (t : ℕ)
      → IsHeap tasks items
      → Returns (Sunk tasks (t ∷ items)) (push_items tasks items t)
  unfolding push_items
  push_items-Sunk items t h =
      Returns-bind
        (sift_up-Risen tasks bounded (length grown) grown (length items) (omega (arith, size))
          (omega (arith, size)) start)
        λ r s. returns (record {
          heap =
              IsHeap-of_settled tasks r.0 r.1 s.sinking
                (s.settled λ c p q e. absurd (omega (arith, size)));
          same = Perm.trans s.same (concat-perm items t);
        })
    where
      grown : List ℕ
      grown = items ++ t ∷ []

      size : length grown ≡ length items + 1
      size = length-append items (t ∷ [])

      start : IsLoose tasks grown (length items)
      start = record {
        edges = λ c p q r s. ground (
          arith,
          size,
          h c,
          get_or-append 0 items (t ∷ []) c,
          get_or-append 0 items (t ∷ []) (parent c),
        );
        bridged = λ c p q r s. absurd (omega (arith, size));
      }

single-perm : (a : List ℕ) → length a ≡ 1 → Perm (get_or a 0 0 ∷ []) a
single-perm [] h = absurd (omega arith)
single-perm (x ∷ []) h = Perm.rfl
single-perm (x ∷ y ∷ a) h = absurd (omega arith)

-- The tasks that are left form a heap, and with `top` are all the tasks.
pub record Taken (tasks : ℕ → Task) (items : List ℕ) (top : ℕ) (rest : List ℕ) : Type 0 where
  pub heap : IsHeap tasks rest
  pub same : Perm (top ∷ rest) items

module _ (tasks : ℕ → Task) (a : List ℕ) (n : ℕ) (size : length a ≡ suc n)
    (h : IsHeap tasks a) where
  cut-length : length (take n a) ≡ n
  cut-length = length-take_le n a (omega (arith, size))

  cut-perm : Perm (get_or a n 0 ∷ take n a) a
  cut-perm = rw (take-append_last 0 n a size) at (Perm.symm (concat-perm (take n a) (get_or a n 0)))

  cut-Taken : Taken tasks a (get_or a n 0) (take n a)
  cut-Taken = record {
    heap = λ c p q.
        ground (arith, size, cut-length, h c, get_or-take 0 n a c, get_or-take 0 n a (parent c));
    same = cut-perm;
  }

  module _ (i : ℕ) (hi : i < n) where
    -- the array once the last task has taken position `i`
    abbrev refilled : List ℕ
    refilled = set (take n a) i (get_or a n 0)

    refilled-length : length refilled ≡ n
    refilled-length = length-set (take n a) i (get_or a n 0) ∙ cut-length

    refilled-perm : Perm (get_or a i 0 ∷ refilled) a
    refilled-perm =
        let fits : i < length (take n a) = omega (arith, cut-length) in
        let traded = set-perm 0 (take n a) i (get_or a n 0) fits in
        Perm.trans (rw (get_or-take 0 n a i hi) at traded) cut-perm

    refilled-IsLoose : IsLoose tasks refilled i
    refilled-IsLoose =
        let fits : i < length (take n a) = omega (arith, cut-length) in
        let at = get_or-set 0 (take n a) i in
        record {
          edges = λ c p q r s. ground (
            arith,
            size,
            refilled-length,
            h c,
            at c (get_or a n 0) fits,
            at (parent c) (get_or a n 0) fits,
            get_or-take 0 n a c,
            get_or-take 0 n a (parent c),
          );
          bridged = λ c p q r s. ground (
            arith,
            size,
            refilled-length,
            h c,
            h i,
            at c (get_or a n 0) fits,
            at (parent i) (get_or a n 0) fits,
            get_or-take 0 n a c,
            get_or-take 0 n a (parent i),
          );
        }

module _ (tasks : ℕ → Task) (bounded : IsBounded tasks) where
  -- Where `timer_seq` fits in 64 bits, the removal at a position of a heap does not fault, leaves
  -- a heap, and takes out exactly the task at that position.
  pub remove_at-Taken :
      (a : List ℕ) (i n : ℕ)
      → IsHeap tasks a
      → length a ≡ suc n
      → i ≤ n
      → Returns (Taken tasks a (get_or a i 0)) (remove_at tasks a i)
  unfolding remove_at
  remove_at-Taken a i n h size le =
      let last : length a - 1 ≡ n = omega (arith, size) in
      rw (last, get_elem?-get_or 0 a n (omega (arith, size)))
        (elim (ℕ_discrete i n) [
          | yes e ↦ rw (eq→== i n e) (
              returns (
                subst (λ j. Taken tasks a (get_or a j 0) (take n a)) (sym e)
                  (cut-Taken tasks a n size h)))
          | no ne ↦
              let hi : i < n = omega arith in
              let n-size = refilled-length tasks a n size h i hi in
              rw (ne→== i n ne) (
                Returns-bind
                  (sift_up-Risen tasks bounded (length a) (refilled tasks a n size h i hi) i
                    (omega (arith, size)) (omega (arith, n-size))
                    (refilled-IsLoose tasks a n size h i hi))
                  λ r s.
                    Returns-mono
                      (sift_down-Sunk tasks bounded (length a) r.0 r.1
                        (omega (arith, length-perm s.same, n-size, size)) s.inside s.sinking)
                      λ b t. record {
                        heap = t.heap;
                        same =
                            Perm.trans (Perm.cons _ (Perm.trans t.same s.same))
                              (refilled-perm tasks a n size h i hi);
                      })
        ])

  -- Where `timer_seq` fits in 64 bits, a pop from a heap that is not empty does not fault, takes
  -- the root, and leaves the other tasks as a heap.
  pub pop_items-Taken :
      (a : List ℕ) (n : ℕ)
      → IsHeap tasks a
      → length a ≡ suc n
      → Returns (λ r. (r.0 ≡ get_or a 0 0) × Taken tasks a r.0 r.1) (pop_items tasks a)
  unfolding pop_items
  pop_items-Taken a n h size =
      let last : length a - 1 ≡ n = omega (arith, size) in
      rw (get_elem?-get_or 0 a 0 (omega (arith, size))) (
        rw (last, get_elem?-get_or 0 a n (omega (arith, size)))
          (elim (dec_lt 0 n) [
            | no one ↦ rw (not-lt→ltb 0 n one) (
                returns (
                  refl,
                  record {
                    heap = λ c p q. absurd (omega arith);
                    same = single-perm a (omega (arith, size));
                  },
                ))
            | yes more ↦
                let loose = refilled-IsLoose tasks a n size h 0 more in
                let n-size = refilled-length tasks a n size h 0 more in
                rw (lt→ltb 0 n more) (
                  Returns-bind
                    (sift_down-Sunk tasks bounded (length a) (refilled tasks a n size h 0 more) 0
                      (omega (arith, n-size, size)) (omega (arith, n-size))
                      (record {
                        edges = λ c p q r. loose.edges c p q (omega arith) r;
                        bridged = λ c p q r s. absurd (omega arith);
                      }))
                    λ b t. returns (
                      refl,
                      record {
                        heap = t.heap;
                        same =
                            Perm.trans (Perm.cons _ t.same) (refilled-perm tasks a n size h 0 more);
                      },
                    ))
          ]))
