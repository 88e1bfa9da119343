-- ===== src/Registry/Refined.antt =====
-- The linked registries implement the lists of addresses.
use mathlib.Core.List.{append-nil, append_assoc}
use mathlib.Core.Path.{subst, subst₂}
use microthread.Base.{
  ℕ, zero, suc, ◌+◌, ◌<◌, ◌≡◌, refl, sym, inl, inr, Bool, false, none, List, [], ◌∷◌, ◌++◌, arith,
  length, last?, has, erase, IsDistinct, erase-IsDistinct, has-append, update, ◌==◌, Bool-cases,
  Returns, returns,
}
use microthread.Queue.Chain.{IsChain, IsChain-update}
use microthread.Queue.Insert.{last?-append, last?-cons}
use microthread.Queue.Remove.{erase-append, distinct_parts, IsChain-unlink, erase_absent}
use microthread.Registry.{Registry, register, link_at, take_out, unregister_loop, unregister}

-- the links lead through the list, where no address is twice
pub record Lists (r : Registry) (xs : List ℕ) : Type 0 where
  pub chain : IsChain r.next r.head xs
  pub distinct : IsDistinct xs

-- A registration of an object that is not registered puts it in front.
pub register-Lists :
    (r : Registry) (xs : List ℕ) (t : ℕ)
    → has t xs ≡ false
    → Lists r xs
    → Lists (register r t) (t ∷ xs)
unfolding register
register-Lists r xs t new l =
    let here : update r.next t r.head t ≡ r.head = ground arith in
    record {
      chain = (
        refl,
        subst (λ p. IsChain (update r.next t r.head) p xs) (sym here)
            (IsChain-update r.next t r.head r.head xs new l.chain),
      );
      distinct = (new, l.distinct);
    }

take_out-Lists :
    (r : Registry) (xs ys : List ℕ) (t : ℕ)
    → Lists r (xs ++ t ∷ ys)
    → Lists (take_out r (last? xs) t) (xs ++ ys)
unfolding take_out
take_out-Lists r [] ys t l = record {
  chain = IsChain-update r.next t none (r.next t) ys l.distinct.0 l.chain.1;
  distinct = l.distinct.1;
}
take_out-Lists r (x ∷ xs) ys t l =
    let (last, e) = last?-cons x xs in
    let parts = distinct_parts t (x ∷ xs) ys l.distinct in
    rw e (record {
      chain = IsChain-unlink r.next r.head (x ∷ xs) ys t last e l.distinct l.chain;
      distinct =
          rw (erase-append t (x ∷ xs) ys parts.0) at
            (erase-IsDistinct t ((x ∷ xs) ++ t ∷ ys) l.distinct);
    })

-- what a removal returns: whether the object was there, and the registry without it
abbrev pub Unregisters : List ℕ → ℕ → Bool × Registry → Type 0
Unregisters xs t (found, r) = (found ≡ has t xs) × Lists r (erase t xs)

-- the loop, with `xs` passed and `ys` ahead
loop-Unregisters :
    (k : ℕ) (r : Registry) (xs ys : List ℕ) (t : ℕ)
    → length ys < k
    → has t xs ≡ false
    → IsChain r.next (link_at r (last? xs)) ys
    → Lists r (xs ++ ys)
    → Returns (Unregisters (xs ++ ys) t) (unregister_loop k r (last? xs) t)
unfolding unregister_loop
loop-Unregisters zero r xs ys t fuel out c l = absurd (omega arith)
loop-Unregisters (suc k) r xs [] t fuel out c l =
    rw (c, unregister_loop)
      (returns (
        ground (arith, has-append t xs []),
        rw (append-nil xs, erase_absent t xs out) (rw (append-nil xs) at l),
      ))
loop-Unregisters (suc k) r xs (y ∷ ys) t fuel out c l =
    rw (c.0, unregister_loop)
      (elim (Bool-cases (y == t)) [
        | inl hit ↦
            let same : y ≡ t = ground arith in
            let here = subst (λ z. Lists r (xs ++ z ∷ ys)) same l in
            rw (hit, same)
              (returns (
                ground (arith, has-append t xs (t ∷ ys)),
                rw (erase-append t xs ys out) (take_out-Lists r xs ys t here),
              ))
        | inr miss ↦
            let moved = append_assoc xs (y ∷ []) ys in
            rw miss (
              subst₂ (λ zs p. Returns (Unregisters zs t) (unregister_loop k r p t)) moved
                (last?-append xs y)
                (loop-Unregisters k r (xs ++ y ∷ []) ys t (omega arith)
                  (ground (arith, has-append t xs (y ∷ [])))
                  (rw (last?-append xs y) (unfold link_at in c.1)) (rw moved l)))
      ])

-- On a registry whose links stand for a list, a removal ends with one unit of fuel for each object and
-- one more, says whether the object was registered, and leaves links that stand for the list without it.
pub unregister-Unregisters :
    (r : Registry) (xs : List ℕ) (t : ℕ)
    → Lists r xs
    → Returns (Unregisters xs t) (unregister (length xs + 1) r t)
unfolding unregister
unregister-Unregisters r xs t l =
    loop-Unregisters (length xs + 1) r [] xs t (omega arith) refl (unfold link_at in l.chain) l
