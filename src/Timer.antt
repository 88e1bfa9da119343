-- ===== src/Timer.antt =====
-- src/timer.c: a binary heap of tasks, ordered by deadline and then by age. A read or a write past
-- the end is a fault, `none`, and so is running out of fuel. The indices stay far below 2 ^ 64.
pub mod Order
pub mod Up
pub mod Down
pub mod Remove
use microthread.Base.{
  ℕ, zero, suc, ◌+◌, ◌-◌, ◌*◌, ◌/◌, Bool, Option, none, some, List, [], ◌∷◌, ltb, ◌==◌, ◌++◌,
  if◌then◌else◌, ◌>>=◌, length, get_elem?, set, take,
}
use microthread.State.{Task}

unfoldable pub timer_swap : List ℕ → ℕ → ℕ → Option (List ℕ)
timer_swap items a b = do
  x ← get_elem? items a
  y ← get_elem? items b
  some (set (set items a y) b x)

abbrev pub parent : ℕ → ℕ
parent i = (i - 1) / 2

-- the search of mt_timer_remove, from position `i` on
unfoldable pub index_of : List ℕ → ℕ → ℕ → Option ℕ
index_of [] task i = none
index_of (x ∷ xs) task i = if x == task then some i else index_of xs task (i + 1)

module _ (tasks : ℕ → Task) where
  unfoldable pub timer_less : ℕ → ℕ → Bool
  timer_less a b =
      if (tasks a).wake_ns == (tasks b).wake_ns
      then ltb (tasks a).timer_seq (tasks b).timer_seq
      else ltb (tasks a).wake_ns (tasks b).wake_ns

  -- mt_timer_less on two positions
  unfoldable pub less_at : List ℕ → ℕ → ℕ → Option Bool
  unfolding timer_less
  less_at items i j = do a ← get_elem? items i; b ← get_elem? items j; some (timer_less a b)

  -- `while (i > 0)`; also returns where the task came to rest
  unfoldable pub sift_up : ℕ → List ℕ → ℕ → Option (List ℕ × ℕ)
  unfolding less_at timer_swap
  sift_up zero items i = none
  sift_up (suc k) items i =
      let rise = timer_swap items i (parent i) >>= λ b. sift_up k b (parent i) in
      let step = less_at items i (parent i) >>= λ below. if below then rise else some (items, i) in
      if ltb 0 i then step else some (items, i)

  -- one of the two tests that settle `smallest`
  unfoldable pub smaller : List ℕ → ℕ → ℕ → Option ℕ
  unfolding less_at
  smaller items child smallest =
      if ltb child (length items)
      then (do below ← less_at items child smallest; some (if below then child else smallest))
      else some smallest

  unfoldable pub sift_down : ℕ → List ℕ → ℕ → Option (List ℕ)
  unfolding smaller timer_swap
  sift_down zero items i = none
  sift_down (suc k) items i = do
    left ← smaller items (i * 2 + 1) i
    smallest ← smaller items (i * 2 + 1 + 1) left
    let sink = timer_swap items i smallest >>= λ b. sift_down k b smallest
    if smallest == i then some items else sink

  -- the array part of mt_timer_push_state
  unfoldable pub push_items : List ℕ → ℕ → Option (List ℕ)
  unfolding sift_up
  push_items items task = do
    let grown = items ++ task ∷ []
    (b, i) ← sift_up (length grown) grown (length items)
    some b

  -- the array part of mt_timer_pop, on a heap that is not empty
  unfoldable pub pop_items : List ℕ → Option (ℕ × List ℕ)
  unfolding sift_down
  pop_items items = do
    let last = length items - 1
    top ← get_elem? items 0
    moved ← get_elem? items last
    let refilled = sift_down (length items) (set (take last items) 0 moved) 0
    rest ← if ltb 0 last then refilled else some []
    some (top, rest)

  -- the body of the `if` in mt_timer_remove
  unfoldable pub remove_at : List ℕ → ℕ → Option (List ℕ)
  unfolding sift_up sift_down
  remove_at items i = do
    let last = length items - 1
    moved ← get_elem? items last
    let refill = sift_up (length items) (set (take last items) i moved) i >>= λ (b, j).
        sift_down (length items) b j
    if i == last then some (take last items) else refill
