-- ===== src/Queue/Insert.antt =====
-- Push and pop of src/wait_queue.c and src/run_queue.c, against the first-in first-out list.
use microthread.Base.{
  ℕ, ◌+◌, ◌<◌, ◌≡◌, refl, sym, ◌∙◌, ◌≢◌, Bool, true, false, none, some, List, [], ◌∷◌, ◌++◌, arith,
  length, last?, has, IsDistinct, length-append, append-IsDistinct, update, ◌==◌, if◌then◌else◌,
}
use microthread.Queue.{
  Ptr, Queue, guarded_dec, SelectQueue, size_mod, link_last, unlink_first, chan_waitq_push,
  chan_waitq_pop, runq_pop, select_waitq_pop,
}
use microthread.Queue.Fifo
use microthread.Queue.Chain.{IsChain, Holds, IsChain-update}

pub last?-has : (xs : List ℕ) (l : ℕ) → last? xs ≡ some l → has l xs ≡ true
last?-has [] l e = ground arith
last?-has (x ∷ []) l e = ground arith
last?-has (x ∷ y ∷ xs) l e = ground (arith, last?-has (y ∷ xs) l e)

pub last?-append : (xs : List ℕ) (a : ℕ) → last? (xs ++ a ∷ []) ≡ some a
last?-append [] a = refl
last?-append (x ∷ []) a = refl
last?-append (x ∷ y ∷ xs) a = last?-append (y ∷ xs) a

-- linking `t` behind the last object extends the chain
IsChain-link :
    (next : ℕ → Ptr) (p : Ptr) (xs : List ℕ) (t l : ℕ)
    → IsChain next p xs
    → last? xs ≡ some l
    → IsDistinct xs
    → has t xs ≡ false
    → IsChain (update (update next t none) l (some t)) p (xs ++ t ∷ [])
IsChain-link next p [] t l c e d out = ground arith
IsChain-link next p (x ∷ []) t l c e d out = ground arith
IsChain-link next p (x ∷ y ∷ xs) t l c e d out = ground (
  arith,
  last?-has (y ∷ xs) l e,
  IsChain-link next (next x) (y ∷ xs) t l c.1 e d.1 (ground arith),
)

pub last?-cons : (x : ℕ) (xs : List ℕ) → (l : ℕ) × (last? (x ∷ xs) ≡ some l)
last?-cons x [] = (x, refl)
last?-cons x (y ∷ xs) = last?-cons y xs

link_last-empty :
    (q : Queue) (t : ℕ)
    → q.tail ≡ none
    → link_last q t ≡ record q { head = some t; tail = some t; next = update q.next t none }
unfolding link_last
link_last-empty q t e = rw e

link_last-some :
    (q : Queue) (t l : ℕ)
    → q.tail ≡ some l
    → link_last q t ≡ record q { tail = some t; next = update (update q.next t none) l (some t) }
unfolding link_last
link_last-some q t l e = rw e

-- A push puts an object that is not queued at the end of a well-formed queue, while the count does
-- not wrap.
pub push-Holds :
    (q : Queue) (xs : List ℕ) (t : ℕ)
    → Holds q xs
    → has t xs ≡ false
    → length xs + 1 < size_mod
    → Holds (chan_waitq_push q t) (Fifo.push xs t)
unfolding chan_waitq_push
push-Holds q [] t h out small = rw (link_last-empty q t h.tail) (record {
  chain = ground arith;
  tail = refl;
  count = ground (arith, h.count);
  distinct = ground arith;
})
push-Holds q (x ∷ xs) t h out small =
    let (l, e) = last?-cons x xs in
    rw (link_last-some q t l (h.tail ∙ e)) (record {
      chain = IsChain-link q.next q.head (x ∷ xs) t l h.chain e h.distinct out;
      tail = sym (last?-append (x ∷ xs) t);
      count = omega (arith, h.count, length-append (x ∷ xs) (t ∷ []));
      distinct = append-IsDistinct (x ∷ xs) t h.distinct out;
    })

-- A push on a well-formed queue changes no link of an object that is neither queued nor pushed.
pub push_frame :
    (q : Queue) (xs : List ℕ) (t a : ℕ)
    → Holds q xs
    → has a xs ≡ false
    → a ≢ t
    → (chan_waitq_push q t).next a ≡ q.next a
unfolding chan_waitq_push
push_frame q [] t a h out ne = rw (link_last-empty q t h.tail) (ground arith)
push_frame q (x ∷ xs) t a h out ne =
    let (l, e) = last?-cons x xs in
    rw (link_last-some q t l (h.tail ∙ e)) (ground (arith, last?-has (x ∷ xs) l e))

module _ (q : Queue) (x : ℕ) (xs : List ℕ) (h : Holds q (x ∷ xs)) where
  unlink_first-Holds : (n : ℕ) → n ≡ length xs → Holds (record (unlink_first q x) { count = n }) xs
  unfolding unlink_first
  unlink_first-Holds n e = record {
    chain = IsChain-update q.next x none (q.next x) xs h.distinct.0 h.chain.1;
    tail = tail xs h.chain.1 h.tail;
    count = e;
    distinct = h.distinct.1;
  }
    where
      tail :
          (ys : List ℕ)
          → IsChain q.next (q.next x) ys
          → q.tail ≡ last? (x ∷ ys)
          → (unlink_first q x).tail ≡ last? ys
      tail [] c e = ground arith
      tail (y ∷ ys) c e = ground arith

abbrev pub Pops : Queue → List ℕ → Ptr × Queue → Type 0
Pops q xs (p, r) = (p ≡ Fifo.first xs) × Holds r (Fifo.rest xs)

-- On a well-formed queue a pop takes the first object off, or reports that there is none, and
-- leaves a well-formed queue of the others.
pub pop-Pops : (q : Queue) (xs : List ℕ) → Holds q xs → Pops q xs (chan_waitq_pop q)
pop-Pops q [] h = rw none_left (refl, h)
  where
    none_left : chan_waitq_pop q ≡ (none, q)
    none_left = unfold chan_waitq_pop in ground arith
pop-Pops q (x ∷ xs) h = rw taken (refl, unlink_first-Holds q x xs h _ (ground (arith, h.count)))
  where
    taken : chan_waitq_pop q ≡ (some x, record (unlink_first q x) { count = guarded_dec q.count })
    taken = unfold chan_waitq_pop in ground arith

-- On a queue whose count is right, the run queue's unguarded decrement is the guarded one.
pub runq_pop-eq :
    (q : Queue) (xs : List ℕ) → length xs < size_mod → Holds q xs → runq_pop q ≡ chan_waitq_pop q
unfolding runq_pop chan_waitq_pop
runq_pop-eq q [] small h = ground (arith, h.chain)
runq_pop-eq q (x ∷ xs) small h = ground (arith, h.chain.0, h.count)

-- On a well-formed queue whose count does not wrap, the run queue pops its first object, or
-- reports that there is none, and leaves a well-formed queue of the others.
pub runq_pop-Pops :
    (q : Queue) (xs : List ℕ) → length xs < size_mod → Holds q xs → Pops q xs (runq_pop q)
runq_pop-Pops q xs small h = rw (runq_pop-eq q xs small h) (pop-Pops q xs h)

abbrev pub points_to : Ptr → ℕ → Bool
points_to none a = false
points_to (some p) a = p == a

-- On a well-formed queue a select queue pops its first member, leaves a well-formed queue of the
-- others, and marks the popped one inactive and no other.
pub select_pop_lem :
    (s : SelectQueue) (xs : List ℕ)
    → Holds s.queue xs
    → ((select_waitq_pop s).0 ≡ Fifo.first xs)
      × Holds (select_waitq_pop s).1.queue (Fifo.rest xs)
      × ((a : ℕ)
          → (select_waitq_pop s).1.active a
            ≡ (if points_to (Fifo.first xs) a then false else s.active a))
select_pop_lem s [] h = rw none_left (refl, h, λ a. refl)
  where
    none_left : select_waitq_pop s ≡ (none, s)
    none_left = unfold select_waitq_pop in ground arith
select_pop_lem s (x ∷ xs) h =
    rw taken (refl, unlink_first-Holds s.queue x xs h _ (ground (arith, h.count)), λ a. refl)
  where
    taken : select_waitq_pop s ≡ (
      some x,
      record {
        queue = record (unlink_first s.queue x) { count = guarded_dec s.queue.count };
        active = update s.active x false;
      },
    )
    taken = unfold select_waitq_pop in ground arith
