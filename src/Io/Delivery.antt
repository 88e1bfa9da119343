-- ===== src/Io/Delivery.antt =====
-- What a descriptor has received when a write returns.
use mathlib.Core.Path.{subst}
use microthread.Base.{
  lt→ltb, length-take_le, ℕ, zero, suc, ◌+◌, ◌-◌, ◌≤◌, ◌<◌, Bool, true, ◌≡◌, refl, ap, ◌∙◌, inl,
  inr, Option, none, some, List, [], ◌∷◌, ◌++◌, arith, ltb, ◌==◌, length, take, drop, if◌then◌else◌,
  if_both, Bool-cases, take-add, Returns, returns,
}
use microthread.State.{Code, is_ok, Runtime}
use microthread.Io.{
  Adoption, adopt, Attempt, moved, interrupted, blocked, broken, Transfer, count, error, stopped,
  write_loop, bytes_of, fd_write,
}

-- Each attempt moves at most the bytes that are left.
abbrev pub Fits : List Attempt → ℕ → Type 0
Fits [] left_ = Unit
Fits (moved n ∷ later) left_ = (n ≤ left_) × Fits later (left_ - n)
Fits (interrupted ∷ later) left_ = Fits later left_
Fits (blocked rc ∷ later) left_ = Fits later left_
Fits (broken rc ∷ later) left_ = Fits later left_

-- whether the attempts move all the bytes that are left, or come to an error
abbrev pub settled : List Attempt → ℕ → Bool
settled [] left_ = left_ == 0
settled (moved n ∷ later) left_ = settled later (left_ - n)
settled (interrupted ∷ later) left_ = settled later left_
settled (blocked rc ∷ later) left_ = if is_ok rc then settled later left_ else true
settled (broken rc ∷ later) left_ = true

-- The descriptor has received the first bytes of the buffer, as many as the call reports; where it
-- reports an error, none.
pub data Delivered (buf : List ℕ) : Transfer × List ℕ → Type 0 where
  sent : {n : ℕ} {out : List ℕ} → n ≤ length buf → out ≡ take n buf → Delivered buf (count n, out)
  refused : {rc : Code} {out : List ℕ} → out ≡ [] → Delivered buf (error rc, out)

module _ (buf : List ℕ) where
  stopped-Delivered :
      (total : ℕ) (rc : Code) (out : List ℕ)
      → total ≤ length buf
      → out ≡ take total buf
      → Delivered buf (stopped total rc, out)
  stopped-Delivered zero rc out h e = refused e
  stopped-Delivered (suc total) rc out h e = rw (lt→ltb 0 (suc total) (omega arith)) (sent h e)

  -- an attempt, or the end of the loop
  more :
      (total : ℕ) (out : List ℕ) {next : Option (Transfer × List ℕ)}
      → total ≤ length buf
      → out ≡ take total buf
      → (total < length buf → Returns (Delivered buf) next)
      → Returns (Delivered buf) (if ltb total (length buf) then next else some (count total, out))
  more total out h e go_on = elim (Bool-cases (ltb total (length buf))) [
    | inl less ↦ rw less (go_on (ground (arith, less)))
    | inr all ↦ rw all (returns (sent h e))
  ]

  write_loop-Returns :
      (attempts : List Attempt) (total : ℕ) (out : List ℕ)
      → total ≤ length buf
      → out ≡ take total buf
      → Fits attempts (length buf - total)
      → settled attempts (length buf - total) ≡ true
      → Returns (Delivered buf) (write_loop attempts buf total out)
  unfolding write_loop
  write_loop-Returns [] total out h e f m =
      more total out h e (λ less. absurd (omega (arith, nothing_left (length buf - total) m, less)))
    where
      nothing_left : (left_ : ℕ) → (left_ == 0) ≡ true → left_ ≡ 0
      nothing_left left_ z = ground (arith, z)
  write_loop-Returns (interrupted ∷ later) total out h e f m =
      more total out h e (λ less. write_loop-Returns later total out h e f m)
  write_loop-Returns (broken rc ∷ later) total out h e f m =
      more total out h e (λ less. returns (stopped-Delivered total rc out h e))
  write_loop-Returns (blocked rc ∷ later) total out h e f m = more total out h e λ less.
      elim (Bool-cases (is_ok rc)) [
        | inl fine ↦ rw fine (write_loop-Returns later total out h e f (rw fine at m))
        | inr bad ↦ rw bad (returns (stopped-Delivered total rc out h e))
      ]
  write_loop-Returns (moved zero ∷ later) total out h e f m =
      let same : length buf - total - 0 ≡ length buf - total = omega arith in
      more total out h e λ less.
        write_loop-Returns later total out h e (subst (Fits later) same f.1)
          (subst (λ (n : ℕ). settled later n ≡ true) same m)
  write_loop-Returns (moved (suc n) ∷ later) total out h e f m =
      let less_left : length buf - total - suc n ≡ length buf - (total + suc n) = omega arith in
      more total out h e λ less. rw (lt→ltb 0 (suc n) (omega arith)) (
        write_loop-Returns later (total + suc n) (out ++ take (suc n) (drop total buf))
          (omega (arith, f.0))
          (ap (λ (xs : List ℕ). xs ++ take (suc n) (drop total buf)) e ∙ take-add total (suc n) buf)
          (subst (Fits later) less_left f.1)
          (subst (λ (k : ℕ). settled later k ≡ true) less_left m))

-- the write of some bytes from a buffer that has as many
buffer-Returns :
    (os : Adoption) (attempts : List Attempt) (rt : Runtime) (fd : ℕ) (bytes : List ℕ) (len : ℕ)
    → Fits attempts len
    → settled attempts len ≡ true
    → len ≤ length bytes
    → Returns (Delivered (take len bytes)) (fd_write os attempts rt (some fd) (some bytes) len).0
unfolding fd_write
buffer-Returns os attempts rt fd bytes len f m whole =
    let size : length (take len bytes) ≡ len = length-take_le len bytes whole in
    let Fine =
      λ (r : Option (Transfer × List ℕ) × Runtime). Returns (Delivered (take len bytes)) r.0 in
    if_both Fine (len == 0) {x = (some (count 0, []), rt)} (returns (sent (omega arith) refl)) (
      if_both Fine (is_ok (adopt os rt (some fd)).0)
        {x = (write_loop attempts (take len bytes) 0 [], (adopt os rt (some fd)).1)}
        {y = (some (error (adopt os rt (some fd)).0, []), (adopt os rt (some fd)).1)}
        (write_loop-Returns (take len bytes) attempts 0 [] (omega arith) refl
          (subst (Fits attempts) (omega (arith, size)) f)
          (subst (λ (k : ℕ). settled attempts k ≡ true) (omega (arith, size)) m))
        (returns (refused refl)))

-- For a write of `len` bytes from a buffer that has as many, where each attempt moves at most the bytes
-- that are left, any number of them, and the attempts move all the bytes or come to an error, the call
-- returns; the descriptor has received the first bytes of the buffer, as many as the call reports, and
-- none where it reports an error.
pub fd_write-Returns :
    (os : Adoption) (attempts : List Attempt) (rt : Runtime) (fd : Option ℕ) (buf : Option (List ℕ))
    (len : ℕ)
    → Fits attempts len
    → settled attempts len ≡ true
    → ((bytes : List ℕ) → buf ≡ some bytes → len ≤ length bytes)
    → Returns (Delivered (take len (bytes_of buf))) (fd_write os attempts rt fd buf len).0
unfolding fd_write
fd_write-Returns os attempts rt none buf len f m whole = returns (refused refl)
fd_write-Returns os attempts rt (some fd) (some bytes) len f m whole =
    buffer-Returns os attempts rt fd bytes len f m (whole bytes refl)
fd_write-Returns os attempts rt (some fd) none zero f m whole = returns (sent (omega arith) refl)
fd_write-Returns os attempts rt (some fd) none (suc len) f m whole =
    rw (lt→ltb 0 (suc len) (omega arith)) (returns (refused refl))
