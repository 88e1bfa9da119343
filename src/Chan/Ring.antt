-- ===== src/Chan/Ring.antt =====
-- The ring buffer of src/channel.c, against a first-in first-out queue.
use native.Mathlib.Nat.{mod-eq_of_lt, mod-eq-sub-mod}
use mathlib.Core.Path.{ap₂}
use microthread.Base.{
  ℕ, zero, suc, ◌+◌, ◌-◌, ◌%◌, ◌≤◌, ◌<◌, ◌≡◌, refl, ap, ◌∙◌, List, [], ◌∷◌, ◌++◌, arith, ltb,
  if◌then◌else◌, length, get_or, set, length-set, get_or-set,
}
use microthread.State.{Elem, Chan}
use microthread.Chan.{buffer_push, buffer_pop}

-- `n % cap` for an index that is at most one lap ahead
abbrev wrapped : ℕ → ℕ → ℕ
wrapped cap n = if ltb n cap then n else n - cap

mod-wrapped : (n cap : ℕ) → n < cap + cap → n % cap ≡ wrapped cap n
mod-wrapped n cap h = grind (arith, mod-eq_of_lt, mod-eq-sub-mod)

-- `k` elements of a buffer of `cap` slots, from slot `i` on
pub elements : List Elem → ℕ → ℕ → ℕ → List Elem
elements buffer cap zero i = []
elements buffer cap (suc k) i = get_or buffer i [] ∷ elements buffer cap k ((i + 1) % cap)

-- what the buffer of a channel holds, oldest first
unfoldable pub contents : Chan → List Elem
unfolding elements
contents ch = elements ch.buffer ch.capacity ch.len ch.head

pub record IsRing (ch : Chan) : Type 0 where
  pub fits : ch.len ≤ ch.capacity
  pub slots : length ch.buffer ≡ ch.capacity
  pub head : 0 < ch.capacity → ch.head < ch.capacity
  pub tail : 0 < ch.capacity → ch.tail ≡ (ch.head + ch.len) % ch.capacity

pub contents_empty : (ch : Chan) → ch.len ≡ 0 → contents ch ≡ []
unfolding contents elements
contents_empty ch e = ap (λ n. elements ch.buffer ch.capacity n ch.head) e

elements-snoc :
    (b : List Elem) (cap k i : ℕ)
    → i < cap
    → k < cap
    → elements b cap (suc k) i ≡ elements b cap k i ++ get_or b (wrapped cap (i + k)) [] ∷ []
unfolding elements
elements-snoc b cap zero i hi hk = ground arith
elements-snoc b cap (suc k) i hi hk = ground (
  arith,
  mod-wrapped (i + 1) cap (omega arith),
  elements-snoc b cap k ((i + 1) % cap) (grind arith) (omega arith),
)

elements-set :
    (b : List Elem) (cap k i t : ℕ) (v : Elem)
    → i < cap
    → k < cap
    → length b ≡ cap
    → t ≡ wrapped cap (i + k)
    → elements (set b t v) cap k i ≡ elements b cap k i
unfolding elements
elements-set b cap zero i t v hi hk e at = refl
elements-set b cap (suc k) i t v hi hk e at =
    let step = mod-wrapped (i + 1) cap (omega arith) in
    let inside : (i + 1) % cap < cap = ground (arith, step) in
    let same : t ≡ wrapped cap ((i + 1) % cap + k) = ground (arith, step) in
    ground (
      arith,
      get_or-set [] b t i v (ground arith),
      elements-set b cap k ((i + 1) % cap) t v inside (omega arith) e same,
    )

module _ (ch : Chan) (r : IsRing ch) where
  module _ (v : Elem) (room : ch.len < ch.capacity) where
    slot : ch.tail ≡ wrapped ch.capacity (ch.head + ch.len)
    slot =
        r.tail (omega arith)
        ∙ mod-wrapped (ch.head + ch.len) ch.capacity (omega (arith, r.head (omega arith)))

    -- On a consistent ring with room, a push adds the element behind all others.
    pub contents-push : contents (buffer_push ch v) ≡ contents ch ++ v ∷ []
    unfolding contents buffer_push
    contents-push =
        let hi = r.head (omega arith) in
        let next : ch.len + 1 ≡ suc ch.len = omega arith in
        ap (λ n. elements (set ch.buffer ch.tail v) ch.capacity n ch.head) next
        ∙ elements-snoc (set ch.buffer ch.tail v) ch.capacity ch.len ch.head hi room
        ∙ ap₂ (λ xs x. xs ++ x ∷ [])
            (elements-set ch.buffer ch.capacity ch.len ch.head ch.tail v hi room r.slots slot)
            (ground (arith, slot, hi, r.slots, get_or-set [] ch.buffer ch.tail ch.tail v))

    -- A push on a consistent ring with room leaves the ring consistent: the length fits, the
    -- buffer has a slot for each element, and the tail stands `len` slots after the head.
    pub push-IsRing : IsRing (buffer_push ch v)
    unfolding buffer_push
    push-IsRing = record {
      fits = omega arith;
      slots = length-set ch.buffer ch.tail v ∙ r.slots;
      head = r.head;
      tail = λ pos.
          let hi = r.head pos in
          ground (
            arith,
            slot,
            mod-wrapped (ch.tail + 1) ch.capacity (ground (arith, slot)),
            mod-wrapped (ch.head + (ch.len + 1)) ch.capacity (omega arith),
          );
    }

  module _ (more : 0 < ch.len) where
    -- On a consistent ring that holds something, a pop takes off the oldest element and leaves the
    -- others in their order.
    pub contents-pop : contents ch ≡ (buffer_pop ch).0 ∷ contents (buffer_pop ch).1
    unfolding contents buffer_pop
    contents-pop = elements_step ch.len more
      where
        elements_step :
            (n : ℕ)
            → 0 < n
            → elements ch.buffer ch.capacity n ch.head
              ≡ get_or ch.buffer ch.head []
                ∷ elements ch.buffer ch.capacity (n - 1) ((ch.head + 1) % ch.capacity)
        elements_step zero h = absurd (omega arith)
        elements_step (suc n) h = ground arith

    -- A pop from a consistent ring that holds something leaves the ring consistent.
    pub pop-IsRing : IsRing (buffer_pop ch).1
    unfolding buffer_pop
    pop-IsRing = record {
      fits = omega (arith, r.fits);
      slots = r.slots;
      head = λ pos.
          ground
            (arith, mod-wrapped (ch.head + 1) ch.capacity (omega (arith, r.head pos)), r.head pos);
      tail = λ pos.
          let hi = r.head pos in
          let step = mod-wrapped (ch.head + 1) ch.capacity (omega arith) in
          ground (
            arith,
            hi,
            r.fits,
            r.tail pos,
            step,
            mod-wrapped (ch.head + ch.len) ch.capacity (omega (arith, r.fits)),
            mod-wrapped ((ch.head + 1) % ch.capacity + (ch.len - 1)) ch.capacity
                (ground (arith, step, r.fits)),
          );
    }
