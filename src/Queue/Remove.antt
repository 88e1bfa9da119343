-- ===== src/Queue/Remove.antt =====
-- Removal from the middle: the loops of mt_waitq_remove, mt_select_waitq_remove and mt_runq_remove.
use mathlib.Core.List.{append-nil, append_assoc}
use mathlib.Core.Path.{subst, subst₂}
use microthread.Base.{
  ℕ, zero, suc, ◌<◌, ◌≡◌, refl, sym, inl, inr, Bool, false, none, some, List, [], ◌∷◌, ◌++◌, arith,
  length, last?, has, erase, IsDistinct, erase-IsDistinct, has-append, length-append, update, ◌==◌,
  if◌then◌else◌, Bool-cases, Returns, returns,
}
use microthread.Queue.{
  Ptr, Queue, guarded_dec, link_value, unlink_at, remove_loop, waitq_remove, tail_is,
}
use microthread.Queue.Chain.{IsChain, Holds, IsChain-update}
use microthread.Queue.Insert.{last?-has, last?-append, last?-cons}

pub erase-append : (t : ℕ) (xs ys : List ℕ) → has t xs ≡ false → erase t (xs ++ t ∷ ys) ≡ xs ++ ys
erase-append t [] ys out = ground arith
erase-append t (x ∷ xs) ys out = ground (arith, erase-append t xs ys (ground arith))

pub distinct_parts :
    (t : ℕ) (xs ys : List ℕ) → IsDistinct (xs ++ t ∷ ys) → (has t xs ≡ false) × (has t ys ≡ false)
distinct_parts t [] ys d = (refl, d.0)
distinct_parts t (x ∷ xs) ys d =
    ground (arith, has-append x xs (t ∷ ys), distinct_parts t xs ys d.1)

distinct_last :
    (l : ℕ) (xs ys : List ℕ) → last? xs ≡ some l → IsDistinct (xs ++ ys) → has l ys ≡ false
distinct_last l [] ys e d = ground arith
distinct_last l (x ∷ []) ys e d = ground arith
distinct_last l (x ∷ y ∷ xs) ys e d = distinct_last l (y ∷ xs) ys e d.1

-- the chain without `t`, where `l` is the object before it
pub IsChain-unlink :
    (next : ℕ → Ptr) (p : Ptr) (xs ys : List ℕ) (t l : ℕ)
    → last? xs ≡ some l
    → IsDistinct (xs ++ t ∷ ys)
    → IsChain next p (xs ++ t ∷ ys)
    → IsChain (update (update next l (next t)) t none) p (xs ++ ys)
IsChain-unlink next p [] ys t l e d c = ground arith
IsChain-unlink next p (x ∷ []) ys t l e d c =
    let written = update next l (next t) in
    let past : IsChain (update written t none) (next t) ys =
      IsChain-update written t none (next t) ys d.1.0
        (IsChain-update next l (next t) (next t) ys (ground arith) c.1.1) in
    let here : update written t none x ≡ next t = ground arith in
    (c.0, subst (λ q. IsChain (update written t none) q ys) (sym here) past)
IsChain-unlink next p (x ∷ y ∷ xs) ys t l e d c =
    let rest = IsChain-unlink next (next x) (y ∷ xs) ys t l e d.1 c.1 in
    ground (arith, rest, last?-has (y ∷ xs) l e, has-append x (y ∷ xs) (t ∷ ys))

last?-append_cons : (xs ys : List ℕ) (y : ℕ) → last? (xs ++ y ∷ ys) ≡ last? (y ∷ ys)
last?-append_cons [] ys y = refl
last?-append_cons (x ∷ []) ys y = refl
last?-append_cons (x ∷ x' ∷ xs) ys y = last?-append_cons (x' ∷ xs) ys y

tail_lem :
    (p : Ptr) (xs ys : List ℕ) (t : ℕ)
    → p ≡ last? (xs ++ t ∷ ys)
    → has t ys ≡ false
    → (if tail_is p t then last? xs else p) ≡ last? (xs ++ ys)
unfolding tail_is
tail_lem p xs [] t e out = rw (e, last?-append xs t) (ground (arith, append-nil xs))
tail_lem p xs (y ∷ ys) t e out =
    let (l, k) = last?-cons y ys in
    let whole = last?-append_cons xs (y ∷ ys) t in
    ground (arith, last?-has (y ∷ ys) l k, whole, last?-append_cons xs ys y)

length-unlink :
    (xs ys : List ℕ) (t n : ℕ) → n ≡ length (xs ++ t ∷ ys) → guarded_dec n ≡ length (xs ++ ys)
length-unlink xs ys t n e = ground (arith, length-append xs (t ∷ ys), length-append xs ys)

-- unlinking the object behind `prev` erases it from the list
unlink_at-Holds :
    (q : Queue) (xs ys : List ℕ) (t : ℕ)
    → Holds q (xs ++ t ∷ ys)
    → Holds (unlink_at q (last? xs) t) (xs ++ ys)
unfolding unlink_at
unlink_at-Holds q [] ys t h = record {
  chain = IsChain-update q.next t none (q.next t) ys h.distinct.0 h.chain.1;
  tail = tail_lem q.tail [] ys t h.tail h.distinct.0;
  count = length-unlink [] ys t q.count h.count;
  distinct = h.distinct.1;
}
unlink_at-Holds q (x ∷ xs) ys t h =
    let (l, e) = last?-cons x xs in
    let parts = distinct_parts t (x ∷ xs) ys h.distinct in
    let tail = tail_lem q.tail (x ∷ xs) ys t h.tail parts.1 in
    rw e (record {
      chain = IsChain-unlink q.next q.head (x ∷ xs) ys t l e h.distinct h.chain;
      tail = rw e at tail;
      count = length-unlink (x ∷ xs) ys t q.count h.count;
      distinct =
          rw (erase-append t (x ∷ xs) ys parts.0) at
            (erase-IsDistinct t ((x ∷ xs) ++ t ∷ ys) h.distinct);
    })

pub erase_absent : (t : ℕ) (xs : List ℕ) → has t xs ≡ false → erase t xs ≡ xs
erase_absent t [] out = refl
erase_absent t (x ∷ xs) out = ground (arith, erase_absent t xs)

-- What a removal returns: whether the object was there, and the queue without it.
abbrev pub Removes : List ℕ → ℕ → Bool × Queue → Type 0
Removes xs t (found, r) = (found ≡ has t xs) × Holds r (erase t xs)

-- the loop, with `xs` passed and `ys` ahead
remove_loop-Removes :
    (k : ℕ) (q : Queue) (xs ys : List ℕ) (t : ℕ)
    → length ys < k
    → has t xs ≡ false
    → IsChain q.next (link_value q (last? xs)) ys
    → Holds q (xs ++ ys)
    → Returns (Removes (xs ++ ys) t) (remove_loop k q (last? xs) t)
unfolding remove_loop
remove_loop-Removes zero q xs ys t fuel out c h = absurd (omega arith)
remove_loop-Removes (suc k) q xs [] t fuel out c h =
    rw (c, remove_loop)
      (returns (
        ground (arith, has-append t xs []),
        rw (append-nil xs, erase_absent t xs out) (rw (append-nil xs) at h),
      ))
remove_loop-Removes (suc k) q xs (y ∷ ys) t fuel out c h =
    rw (c.0, remove_loop)
      (elim (Bool-cases (y == t)) [
        | inl hit ↦
            let same : y ≡ t = ground arith in
            let here = subst (λ z. Holds q (xs ++ z ∷ ys)) same h in
            rw (hit, same)
              (returns (
                ground (arith, has-append t xs (t ∷ ys)),
                rw (erase-append t xs ys out) (unlink_at-Holds q xs ys t here),
              ))
        | inr miss ↦
            let moved = append_assoc xs (y ∷ []) ys in
            rw miss (
              subst₂ (λ zs p. Returns (Removes zs t) (remove_loop k q p t)) moved
                (last?-append xs y)
                (remove_loop-Removes k q (xs ++ y ∷ []) ys t (omega arith)
                  (ground (arith, has-append t xs (y ∷ [])))
                  (rw (last?-append xs y) (unfold link_value in c.1)) (rw moved h)))
      ])

-- With more fuel than a well-formed queue has members, a removal terminates, reports whether the
-- object was queued, and leaves a well-formed queue without it.
pub waitq_remove-Removes :
    (k : ℕ) (q : Queue) (xs : List ℕ) (t : ℕ)
    → length xs < k
    → Holds q xs
    → Returns (Removes xs t) (waitq_remove k q t)
waitq_remove-Removes k q xs t fuel h =
    remove_loop-Removes k q [] xs t fuel refl (unfold link_value in h.chain) h
