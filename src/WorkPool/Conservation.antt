-- ===== src/WorkPool/Conservation.antt =====
-- The threads of a pipeline around the pool of rtlsdr/src/main/cpp/src/workpool.c: each takes buffers
-- from the queue of its stage and gives them back. Buffers are neither lost nor shared.
use rtl_tcp_andro.Base.{
  ℕ, zero, suc, ◌+◌, ◌≤◌, ◌≡◌, refl, true, false, Option, none, some, List, [], ◌∷◌, ◌++◌, ◌==◌,
  arith, if◌then◌else◌, get_elem?, set, length, length-append, length-set, if-true, sym, ◌∙◌,
}
use rtl_tcp_andro.WorkPool.{
  BufferPtr, WorkPool, pop_from, pop_queue, add_to, add, pool_get_wait_lock, pool_get_unlock,
}

-- How often `a` stands in a list.
abbrev pub count : BufferPtr → List BufferPtr → ℕ
count a [] = 0
count a (b ∷ bs) = (if b == a then 1 else 0) + count a bs

-- The sum of a measure over all queues.
abbrev pub sum_of : (List BufferPtr → ℕ) → List (List BufferPtr) → ℕ
sum_of f [] = 0
sum_of f (q ∷ qs) = f q + sum_of f qs

abbrev pub Held : Type 0
Held = List (ℕ × BufferPtr)

-- How often the threads hold `a`.
abbrev pub held_count : BufferPtr → Held → ℕ
held_count a [] = 0
held_count a ((id, b) ∷ hs) = (if b == a then 1 else 0) + held_count a hs

-- The pool, and each buffer that a thread has taken, with the thread's stage.
pub record Pipeline : Type 0 where
  pub pool : WorkPool
  pub held : Held

-- No queue and no thread has the buffer.
abbrev pub IsUnused : BufferPtr → Pipeline → Type 0
IsUnused a s = sum_of (count a) s.pool.queues + held_count a s.held ≡ 0

-- A call that gives a thread a buffer, the second look of a call that has waited, or a call that
-- hands a buffer on.
pub data Step (junk : ℕ → ℕ) (s : Pipeline) : Pipeline → Type 0 where
  take :
      (fresh : BufferPtr) (others : WorkPool → WorkPool) (id : ℕ) (b : BufferPtr) (pool : WorkPool)
      → IsUnused fresh s
      → pool_get_wait_lock fresh others s.pool id false ≡ some (some b, pool)
      → Step junk s (record { pool = pool; held = (id, b) ∷ s.held })
  wake :
      (id : ℕ) (b : BufferPtr) (pool : WorkPool)
      → pop_queue s.pool id ≡ some (some b, pool)
      → Step junk s (record { pool = pool; held = (id, b) ∷ s.held })
  give :
      (before after : Held) (id : ℕ) (b : BufferPtr) (pool : WorkPool)
      → s.held ≡ before ++ (id, b) ∷ after
      → pool_get_unlock junk s.pool id b ≡ some pool
      → Step junk s (record { pool = pool; held = before ++ after })

pub data Reach (junk : ℕ → ℕ) (s : Pipeline) : Pipeline → Type 0 where
  here : Reach junk s s
  next : {t u : Pipeline} → Reach junk s t → Step junk t u → Reach junk s u

-- Every buffer made is in one queue or held by one thread, once, and not more are made than allowed.
pub record IsConserved (s : Pipeline) : Type 0 where
  pub valid : s.pool.valid ≡ true
  pub stages : length s.pool.queues ≡ s.pool.max_ids
  pub once : (a : BufferPtr) → sum_of (count a) s.pool.queues + held_count a s.held ≤ 1
  pub all_there : sum_of length s.pool.queues + length s.held ≡ s.pool.elements
  pub bounded : s.pool.elements ≤ s.pool.max_elements

sum_of-set :
    (f : List BufferPtr → ℕ) (qs : List (List BufferPtr)) (i : ℕ) (q q' : List BufferPtr)
    → get_elem? qs i ≡ some q
    → sum_of f (set qs i q') + f q ≡ sum_of f qs + f q'
sum_of-set f [] i q q' e = cc
sum_of-set f (x ∷ qs) zero q q' e = ground arith
sum_of-set f (x ∷ qs) (suc i) q q' e = omega (arith, sum_of-set f qs i q q' e)

pub count-append :
    (a : BufferPtr) (xs ys : List BufferPtr) → count a (xs ++ ys) ≡ count a xs + count a ys
count-append a [] ys = omega arith
count-append a (x ∷ xs) ys = omega (arith, count-append a xs ys)

held_count-append :
    (a : BufferPtr) (xs ys : Held) → held_count a (xs ++ ys) ≡ held_count a xs + held_count a ys
held_count-append a [] ys = omega arith
held_count-append a (x ∷ xs) ys = omega (arith, held_count-append a xs ys)

pop_from-some :
    (p p' : WorkPool) (id : ℕ) (b : BufferPtr) (o : Option (List BufferPtr))
    → pop_from p id o ≡ some (some b, p')
    → (rest : List BufferPtr) × (o ≡ some (b ∷ rest))
      × (p' ≡ record p { queues = set p.queues id rest })
unfolding pop_from
pop_from-some p p' id b none e = cc
pop_from-some p p' id b (some []) e = cc
pop_from-some p p' id b (some (c ∷ rest)) e = (rest, ground arith, ground arith)

-- What a successful pop does to the pool.
pub pop_queue-some :
    (p p' : WorkPool) (id : ℕ) (b : BufferPtr)
    → pop_queue p id ≡ some (some b, p')
    → (rest : List BufferPtr) × (get_elem? p.queues id ≡ some (b ∷ rest))
      × (p' ≡ record p { queues = set p.queues id rest })
unfolding pop_queue
pop_queue-some p p' id b e = pop_from-some p p' id b (get_elem? p.queues id) e

add_to-some :
    (p p' : WorkPool) (id : ℕ) (b : BufferPtr) (o : Option (List BufferPtr))
    → add_to p id b o ≡ some p'
    → (q : List BufferPtr) × (o ≡ some q)
      × (p' ≡ record p { queues = set p.queues id (q ++ b ∷ []) })
unfolding add_to
add_to-some p p' id b none e = cc
add_to-some p p' id b (some q) e = (q, refl, ground arith)

-- What an addition does to a valid pool.
pub add-some :
    (p p' : WorkPool) (id : ℕ) (b : BufferPtr)
    → p.valid ≡ true
    → add p id b ≡ some p'
    → (q : List BufferPtr) × (get_elem? p.queues id ≡ some q)
      × (p' ≡ record p { queues = set p.queues id (q ++ b ∷ []) })
unfolding add
add-some p p' id b v e =
    add_to-some p p' id b (get_elem? p.queues id) (sym (if-true p.valid _ _ v) ∙ e)

-- A thread takes the first buffer of a queue.
pub pop_queue-IsConserved :
    (p p' : WorkPool) (hs : Held) (id : ℕ) (b : BufferPtr)
    → IsConserved (record { pool = p; held = hs })
    → pop_queue p id ≡ some (some b, p')
    → IsConserved (record { pool = p'; held = (id, b) ∷ hs })
pop_queue-IsConserved p p' hs id b c e =
    let r = pop_queue-some p p' id b e in
    rw (r.2) (record {
      valid = c.valid;
      stages = omega (arith, length-set p.queues id r.0, c.stages);
      once = λ a. ground (arith, sum_of-set (count a) p.queues id (b ∷ r.0) r.0 r.1, c.once a);
      all_there = ground (arith, sum_of-set length p.queues id (b ∷ r.0) r.0 r.1);
      bounded = c.bounded;
    })

-- A buffer that no one has goes to the end of a queue.
pub add-IsConserved :
    (p p' : WorkPool) (before after : Held) (id stage : ℕ) (b : BufferPtr)
    → IsConserved (record { pool = p; held = before ++ (stage, b) ∷ after })
    → add p id b ≡ some p'
    → IsConserved (record { pool = p'; held = before ++ after })
add-IsConserved p p' before after id stage b c e =
    let r = add-some p p' id b c.valid e in
    rw (r.2) (record {
      valid = c.valid;
      stages = omega (arith, length-set p.queues id (r.0 ++ b ∷ []), c.stages);
      once = λ a. omega (
        arith,
        sum_of-set (count a) p.queues id r.0 (r.0 ++ b ∷ []) r.1,
        c.once a,
        count-append a r.0 (b ∷ []),
        held_count-append a before ((stage, b) ∷ after),
        held_count-append a before after,
      );
      all_there = omega (
        arith,
        sum_of-set length p.queues id r.0 (r.0 ++ b ∷ []) r.1,
        c.all_there,
        length-append r.0 (b ∷ []),
        length-append before ((stage, b) ∷ after),
        length-append before after,
      );
      bounded = c.bounded;
    })
