-- ===== src/Queue/Fifo.antt =====
-- The abstract view of the queues: a first-in first-out list of addresses. The channel, join and
-- scheduler models work with these operations; Queue.Insert and Queue.Remove compare the linked
-- queues with them.
use microthread.Base.{ℕ, Bool, Option, none, some, List, [], ◌∷◌, ◌++◌, has, erase}

abbrev pub push : List ℕ → ℕ → List ℕ
push xs a = xs ++ a ∷ []

abbrev pub first : List ℕ → Option ℕ
first [] = none
first (x ∷ xs) = some x

abbrev pub rest : List ℕ → List ℕ
rest [] = []
rest (x ∷ xs) = xs

abbrev pub remove : List ℕ → ℕ → Bool × List ℕ
remove xs a = (has a xs, erase a xs)
