-- ===== src/Queue/Chain.antt =====
-- When a linked queue stands for a list of addresses.
use microthread.Base.{
  ℕ, ◌≡◌, false, none, some, List, [], ◌∷◌, arith, length, last?, has, IsDistinct, update,
}
use microthread.Queue.{Ptr, Queue}

-- from `p` the links lead through `xs` to NULL
abbrev pub IsChain : (ℕ → Ptr) → Ptr → List ℕ → Type 0
IsChain next p [] = p ≡ none
IsChain next p (x ∷ xs) = (p ≡ some x) × IsChain next (next x) xs

pub record Holds (q : Queue) (xs : List ℕ) : Type 0 where
  pub chain : IsChain q.next q.head xs
  pub tail : q.tail ≡ last? xs
  pub count : q.count ≡ length xs
  pub distinct : IsDistinct xs

-- a write off the chain leaves it as it was
pub IsChain-update :
    (next : ℕ → Ptr) (a : ℕ) (v p : Ptr) (xs : List ℕ)
    → has a xs ≡ false
    → IsChain next p xs
    → IsChain (update next a v) p xs
IsChain-update next a v p [] out c = c
IsChain-update next a v p (x ∷ xs) out c =
    ground (arith, IsChain-update next a v (next x) xs (ground arith) c.1)
