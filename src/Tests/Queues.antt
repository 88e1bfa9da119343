-- ===== src/Tests/Queues.antt =====
-- The theorems on the linked queues at concrete queues.
use microthread.Base.{refl, true, [], ◌∷◌, arith, Returns}
use microthread.Queue.{empty, Queue, SelectQueue, chan_waitq_push, chan_waitq_pop, waitq_remove}
use microthread.Queue.Chain.{Holds}
use microthread.Queue.Insert.{push-Holds, pop-Pops, Pops}
use microthread.Queue.Remove.{Removes, waitq_remove-Removes}

abbrev one : Queue
one = chan_waitq_push empty 3

empty-Holds : Holds empty []
empty-Holds = record { chain = refl; tail = refl; count = refl; distinct = tt }

one-Holds : Holds one (3 ∷ [])
one-Holds = push-Holds empty [] 3 empty-Holds refl (omega arith)

pop-Pops_example : Pops one (3 ∷ []) (chan_waitq_pop one)
pop-Pops_example = pop-Pops one (3 ∷ []) one-Holds

abbrev waiting : SelectQueue
waiting = record { queue = one; active = λ a. true }

waitq_remove-Removes_example : Returns (Removes (3 ∷ []) 3) (waitq_remove 2 one 3)
waitq_remove-Removes_example = waitq_remove-Removes 2 one (3 ∷ []) 3 (omega arith) one-Holds
