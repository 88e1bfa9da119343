-- ===== src/Stack/Bounds.antt =====
-- The sizes of stacks, and what becomes of their mappings.
use mathlib.Core.Path.{subst}
use native.Mathlib.Nat.{mod-eq_of_lt, div-add-mod', mul-mod_left, mod-lt}
use microthread.Base.{
  ℕ, ◌+◌, ◌-◌, ◌*◌, ◌/◌, ◌%◌, ◌≤◌, ◌<◌, ◌≡◌, refl, sym, ap, ◌∙◌, inl, inr, Bool, true, false, some,
  List, ◌∷◌, arith, ◌==◌, ltb, if◌then◌else◌, if_both, lt→ltb, eq→==, Bool-cases, Option-cases,
}
use microthread.State.{Ptr, word_mod, Code, is_ok}
use microthread.Stack.{
  round_up, default_size, min_size, Mapping, Stack, munmap, stack_map, stack_alloc, stack_free,
}

-- A size rounds up to the least multiple of the page that is no smaller.
pub record IsRoundUp (value align r : ℕ) : Type 0 where
  pub above : value ≤ r
  pub near : r < value + align
  pub aligned : r % align ≡ 0

-- the multiple above a value that is none
rounded-aligned : (value align : ℕ) → 0 < align → (value + (align - value % align)) % align ≡ 0
rounded-aligned value align pos =
    let quot = value / align in
    let lt = mod-lt value pos in
    let parts = div-add-mod' value align in
    let whole : value + (align - value % align) ≡ (quot + 1) * align = grind (arith, lt, parts) in
    ap (λ n. n % align) whole ∙ mul-mod_left (quot + 1) align

round_up_cases :
    (value align : ℕ)
    → 0 < align
    → value + align ≤ word_mod
    → round_up value align ≡ (if value % align == 0 then value else value + (align - value % align))
unfolding round_up
round_up_cases value align pos fits =
    let inside : 0 < value % align → value + (align - value % align) < word_mod =
      λ h. omega (arith, mod-lt value pos) in
    ground (arith, λ (h : 0 < value % align). mod-eq_of_lt (inside h))

-- Where the page size is positive and the sum of the two does not leave a `size_t`, rounding up
-- gives the least multiple of the page size that is not below the value.
pub round_up-IsRoundUp :
    (value align : ℕ)
    → 0 < align
    → value + align ≤ word_mod
    → IsRoundUp value align (round_up value align)
round_up-IsRoundUp value align pos fits =
    let lt = mod-lt value pos in
    subst (IsRoundUp value align) (sym (round_up_cases value align pos fits))
      (elim (Bool-cases (value % align == 0)) [
        | inl exact ↦
            rw exact
              (record { above = omega arith; near = omega arith; aligned = ground (arith, exact) })
        | inr more ↦ rw more (record {
          above = omega arith;
          near = ground (arith, more);
          aligned = rounded-aligned value align pos;
        })
      ])

-- What a successful allocation gives: a usable part of whole pages that is as large as asked for and
-- less than a page larger, directly behind one guard page, with which it makes up the mapping.
pub record IsStack (page size : ℕ) (s : Stack) : Type 0 where
  pub rounded : IsRoundUp size page s.usable_size
  pub guard : s.guard_size ≡ page
  pub whole : s.mapping_size ≡ s.guard_size + s.usable_size
  pub behind : (m : ℕ) → s.mapping ≡ some m → s.usable ≡ some (m + s.guard_size)

-- the outcome of an allocation, and the mappings after it
pub data Allocated (page size : ℕ) (held : List Mapping)
    : (Code × Stack) × List Mapping → Type 0 where
  given :
      {s : Stack} {after : List Mapping}
      → IsStack page size s
      → (stack_free after s).1 ≡ held
      → Allocated page size held ((Code.ok, s), after)
  refused : {rc : Code} {s : Stack} → is_ok rc ≡ false → Allocated page size held ((rc, s), held)

munmap_first :
    (a n : ℕ) (ms : List Mapping) → munmap (record { address = a; size = n } ∷ ms) a n ≡ ms
unfolding munmap
munmap_first a n ms = rw (eq→== a a refl, eq→== n n refl) refl

module _ (page : ℕ) (mmap : ℕ → Ptr) (held : List Mapping) (size : ℕ) (pos : 0 < page)
    (fits : size + (page + page) ≤ word_mod) where
  abbrev total : ℕ
  total = (round_up size page + page) % word_mod

  total_exact : total ≡ round_up size page + page
  total_exact =
      let r = round_up-IsRoundUp size page pos (omega arith) in mod-eq_of_lt (omega (arith, r.near))

  mapped-Allocated :
      (protects : Bool) (m : ℕ)
      → mmap total ≡ some m
      → Allocated page size held (stack_map page mmap protects held size)
  unfolding stack_map stack_free is_ok
  mapped-Allocated true m e =
      let r = round_up-IsRoundUp size page pos (omega arith) in
      rw (stack_map, e)
        (given
          (record {
            rounded = r;
            guard = refl;
            whole = omega (arith, total_exact);
            behind = λ n at. ground (arith, at);
          })
          (rw (lt→ltb 0 total (omega (arith, total_exact))) (munmap_first m total held)))
  mapped-Allocated false m e = rw (stack_map, e, munmap_first m total held) (refused refl)

  stack_map-Allocated :
      (protects : Bool) → Allocated page size held (stack_map page mmap protects held size)
  unfolding stack_map is_ok
  stack_map-Allocated protects = elim (Option-cases (mmap total)) [
    | inl e ↦ rw (stack_map, e) (refused refl)
    | inr (m, e) ↦ mapped-Allocated protects m e
  ]

-- Where the page size is positive and the size asked for leaves room for two pages in a `size_t`, an
-- allocation fails and holds no mapping that it did not hold before, or it gives a stack of whole
-- pages behind a guard page, whose release gives back exactly what the allocation had mapped.
pub stack_alloc-Allocated :
    (page : ℕ) (mmap : ℕ → Ptr) (protects : Bool) (held : List Mapping) (requested : ℕ)
    → 0 < page
    → (if requested == 0 then default_size else requested) + (page + page) ≤ word_mod
    → Allocated page
        (if requested == 0 then default_size else requested)
        held
        (stack_alloc page mmap protects held requested)
unfolding stack_alloc is_ok
stack_alloc-Allocated page mmap protects held requested pos fits =
    let size = if requested == 0 then default_size else requested in
    if_both (Allocated page size held) (ltb size min_size) (refused refl)
      (stack_map-Allocated page mmap held size pos fits protects)

round_up_wraps : (size : ℕ) → word_mod < size + 4096 → size < word_mod → round_up size 4096 ≡ 0
unfolding round_up
round_up_wraps size big fits = ground arith

-- On pages of 4096 bytes, where mmap and mprotect work, a request within a page of 2^64 succeeds
-- with a stack that has no usable byte.
pub stack_alloc-wraps :
    (m size : ℕ) (held : List Mapping)
    → word_mod < size + 4096
    → size < word_mod
    → let result = (stack_alloc 4096 (λ n. some m) true held size).0 in
      (result.0 ≡ Code.ok) × (result.1.usable_size ≡ 0)
unfolding stack_alloc stack_map
stack_alloc-wraps m size held big fits = ground (arith, round_up_wraps size big fits)
