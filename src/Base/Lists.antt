-- ===== src/Base/Lists.antt =====
-- Lists measured and indexed by native numbers, and lists of addresses.
use Prim.Native.Nat.{ℕ, zero, suc, ◌+◌, ◌≤◌, ◌<◌}
use mathlib.Core.Path.{◌≡◌, refl, sym, ap, ◌∙◌}
use mathlib.Core.Logic.{◌⊎◌, inl, inr, ∥∥₁_elim}
use mathlib.Core.Bool.{true, Bool, false, ◌||◌}
use mathlib.Core.List.{List, [], ◌∷◌, ◌++◌, Perm, Permᴰ}
use mathlib.Core.List.Perm
use mathlib.Core.Option.{Option, none, some}
use native.Mathlib.Nat.{ℕ_set, zero-add}
use native.Mathlib.Omega.{arith}
use microthread.Base.Tests.{◌==◌, if◌then◌else◌}

module _ {ℓ} {A : Type ℓ} where
  abbrev pub length : List A → ℕ
  length [] = 0
  length (x ∷ xs) = suc (length xs)

  abbrev pub get_elem? : List A → ℕ → Option A
  get_elem? [] i = none
  get_elem? (x ∷ xs) zero = some x
  get_elem? (x ∷ xs) (suc i) = get_elem? xs i

  abbrev pub get_or : List A → ℕ → A → A
  get_or [] i d = d
  get_or (x ∷ xs) zero d = x
  get_or (x ∷ xs) (suc i) d = get_or xs i d

  -- A write out of bounds changes nothing.
  abbrev pub set : List A → ℕ → A → List A
  set [] i v = []
  set (x ∷ xs) zero v = v ∷ xs
  set (x ∷ xs) (suc i) v = x ∷ set xs i v

  abbrev pub take : ℕ → List A → List A
  take zero xs = []
  take (suc n) [] = []
  take (suc n) (x ∷ xs) = x ∷ take n xs

  abbrev pub drop : ℕ → List A → List A
  drop zero xs = xs
  drop (suc n) [] = []
  drop (suc n) (x ∷ xs) = drop n xs

  abbrev pub replicate : ℕ → A → List A
  replicate zero a = []
  replicate (suc n) a = a ∷ replicate n a

  abbrev pub last? : List A → Option A
  last? [] = none
  last? (x ∷ []) = some x
  last? (x ∷ y ∷ xs) = last? (y ∷ xs)

  pub List-cases : (xs : List A) → (xs ≡ []) ⊎ ((x : A) × (ys : List A) × (xs ≡ x ∷ ys))
  List-cases [] = inl refl
  List-cases (x ∷ xs) = inr (x, xs, refl)

  pub length-append : (xs ys : List A) → length (xs ++ ys) ≡ length xs + length ys
  length-append [] ys = omega arith
  length-append (x ∷ xs) ys = omega (arith, length-append xs ys)

  pub length-take_le : (n : ℕ) (xs : List A) → n ≤ length xs → length (take n xs) ≡ n
  length-take_le zero xs h = refl
  length-take_le (suc n) [] h = absurd (omega arith)
  length-take_le (suc n) (x ∷ xs) h = omega (arith, length-take_le n xs)

  take-nil : (n : ℕ) → Path (List A) (take n []) []
  take-nil zero = refl
  take-nil (suc n) = refl

  -- a prefix grows by what comes next
  pub take-add : (m n : ℕ) (xs : List A) → take m xs ++ take n (drop m xs) ≡ take (m + n) xs
  take-add zero n xs = ap (λ k. take k xs) (sym (zero-add n))
  take-add (suc m) n [] = take-nil n ∙ sym (take-nil (suc m + n))
  take-add (suc m) n (x ∷ xs) =
      let next : suc (m + n) ≡ suc m + n = omega arith in
      ap (◌∷◌ x) (take-add m n xs) ∙ ap (λ k. take k (x ∷ xs)) next

  pub length-replicate : (n : ℕ) (a : A) → length (replicate n a) ≡ n
  length-replicate zero a = refl
  length-replicate (suc n) a = ap suc (length-replicate n a)

  pub length-set : (xs : List A) (i : ℕ) (v : A) → length (set xs i v) ≡ length xs
  length-set [] i v = refl
  length-set (x ∷ xs) zero v = refl
  length-set (x ∷ xs) (suc i) v = ap suc (length-set xs i v)

  pub length-perm : {xs ys : List A} → Perm xs ys → length xs ≡ length ys
  length-perm p = ∥∥₁_elim p (ℕ_set _ _) by_step
    where
      by_step : {us vs : List A} → Permᴰ us vs → length us ≡ length vs
      by_step (Permᴰ.trans left right) = by_step left ∙ by_step right
      by_step (Permᴰ.swap x y) = refl
      by_step (Permᴰ.cons x rest) = ap suc (by_step rest)
      by_step Permᴰ.nil = refl

module _ {ℓ} {A : Type ℓ} (d : A) where
  pub get_elem?-get_or :
      (xs : List A) (i : ℕ) → i < length xs → get_elem? xs i ≡ some (get_or xs i d)
  get_elem?-get_or [] i h = absurd (omega arith)
  get_elem?-get_or (x ∷ xs) zero h = refl
  get_elem?-get_or (x ∷ xs) (suc i) h = get_elem?-get_or xs i (omega arith)

  pub get_or-set :
      (xs : List A) (i j : ℕ) (v : A)
      → i < length xs
      → get_or (set xs i v) j d ≡ (if i == j then v else get_or xs j d)
  get_or-set [] i j v h = absurd (omega arith)
  get_or-set (x ∷ xs) zero zero v h = refl
  get_or-set (x ∷ xs) zero (suc j) v h = ground arith
  get_or-set (x ∷ xs) (suc i) zero v h = ground arith
  get_or-set (x ∷ xs) (suc i) (suc j) v h = ground (arith, get_or-set xs i j v)

  pub get_or-append :
      (xs ys : List A) (i : ℕ) → i < length xs → get_or (xs ++ ys) i d ≡ get_or xs i d
  get_or-append [] ys i h = absurd (omega arith)
  get_or-append (x ∷ xs) ys zero h = refl
  get_or-append (x ∷ xs) ys (suc i) h = get_or-append xs ys i (omega arith)

  pub get_or-take : (n : ℕ) (xs : List A) (i : ℕ) → i < n → get_or (take n xs) i d ≡ get_or xs i d
  get_or-take zero xs i h = absurd (omega arith)
  get_or-take (suc n) [] i h = refl
  get_or-take (suc n) (x ∷ xs) zero h = refl
  get_or-take (suc n) (x ∷ xs) (suc i) h = get_or-take n xs i (omega arith)

  -- A write trades the old entry for the new one.
  pub set-perm :
      (xs : List A) (i : ℕ) (v : A) → i < length xs → Perm (get_or xs i d ∷ set xs i v) (v ∷ xs)
  set-perm [] i v h = absurd (omega arith)
  set-perm (x ∷ xs) zero v h = Perm.swap v x xs
  set-perm (x ∷ xs) (suc i) v h =
      Perm.trans (Perm.swap x _ _)
        (Perm.trans (Perm.cons x (set-perm xs i v (omega arith))) (Perm.swap v x xs))

-- Whether an address is in a list.
abbrev pub has : ℕ → List ℕ → Bool
has a [] = false
has a (x ∷ xs) = (x == a) || has a xs

-- The list without the first occurrence of an address.
abbrev pub erase : ℕ → List ℕ → List ℕ
erase a [] = []
erase a (x ∷ xs) = if x == a then xs else x ∷ erase a xs

-- No address occurs twice.
abbrev pub IsDistinct : List ℕ → Type 0
IsDistinct [] = Unit
IsDistinct (x ∷ xs) = (has x xs ≡ false) × IsDistinct xs

pub has-append : (a : ℕ) (xs ys : List ℕ) → has a (xs ++ ys) ≡ (has a xs || has a ys)
has-append a [] ys = refl
has-append a (x ∷ xs) ys = ground (arith, has-append a xs ys)

pub has-erase : (a b : ℕ) (xs : List ℕ) → has a xs ≡ false → has a (erase b xs) ≡ false
has-erase a b [] h = refl
has-erase a b (x ∷ xs) h = ground (arith, has-erase a b xs)

pub has-erase-other :
    (v w : ℕ) (ws : List ℕ) → ¬ (w ≡ v) → has v ws ≡ true → has v (erase w ws) ≡ true
has-erase-other v w [] ne h = h
has-erase-other v w (x ∷ ws) ne h = ground (arith, has-erase-other v w ws)

pub erase-IsDistinct : (a : ℕ) (xs : List ℕ) → IsDistinct xs → IsDistinct (erase a xs)
erase-IsDistinct a [] h = tt
erase-IsDistinct a (x ∷ xs) h = ground (arith, erase-IsDistinct a xs h.1, has-erase x a xs h.0)

pub append-IsDistinct :
    (xs : List ℕ) (a : ℕ) → IsDistinct xs → has a xs ≡ false → IsDistinct (xs ++ a ∷ [])
append-IsDistinct [] a h out = (refl, tt)
append-IsDistinct (x ∷ xs) a h out =
    ground (arith, append-IsDistinct xs a h.1, has-append x xs (a ∷ []))
