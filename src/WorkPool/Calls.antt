-- ===== src/WorkPool/Calls.antt =====
-- What the calls of rtlsdr/src/main/cpp/src/workpool.c do, on every branch.
use rtl_tcp_andro.Base.{
  ℕ, zero, suc, ◌+◌, ◌<◌, ◌≡◌, refl, inl, inr, true, false, ◌&&◌, Option, none, some, List, [], ◌∷◌,
  ◌++◌, ◌==◌, ltb, arith, if◌then◌else◌, get_elem?, set, length, Bool-cases, if-true, if-false, ap,
  ◌∙◌, lt→ltb,
}
use rtl_tcp_andro.ExtBuffer.{ExtBuffer, extbuffer_init, extbuffer_preparetohandle}
use rtl_tcp_andro.WorkPool.{
  BufferPtr, WorkPool, store, pop_from, pop_queue, pop, pop_again, add_to, add, recycle,
  found_or_make, make_or_wait, pool_get_wait_lock, pool_get_unlock, free_queue, free_queues,
  pool_free,
}
use rtl_tcp_andro.WorkPool.Conservation.{count, sum_of}

-- A running pool: valid, with a queue for each of its stages.
pub record IsRunning (p : WorkPool) : Type 0 where
  pub valid : p.valid ≡ true
  pub stages : length p.queues ≡ p.max_ids

pub get_elem?_total :
    {A : Type 0} (xs : List A) (i : ℕ) → i < length xs → (x : A) × (get_elem? xs i ≡ some x)
get_elem?_total [] i h = absurd (omega arith)
get_elem?_total (x ∷ xs) zero h = (x, refl)
get_elem?_total (x ∷ xs) (suc i) h = get_elem?_total xs i (omega arith)

-- The stage that a buffer goes to from stage `id`.
abbrev pub next_stage : WorkPool → ℕ → ℕ
next_stage p id = if id + 1 == p.max_ids then 0 else id + 1

pub add-running :
    (p : WorkPool) (id : ℕ) (b : BufferPtr)
    → IsRunning p
    → id < p.max_ids
    → (q : List BufferPtr) × (get_elem? p.queues id ≡ some q)
      × (add p id b ≡ some (record p { queues = set p.queues id (q ++ b ∷ []) }))
unfolding add add_to
add-running p id b r h =
    let q = get_elem?_total p.queues id (omega (arith, r.stages)) in
    (q.0, q.1, if-true p.valid _ _ r.valid ∙ ap (add_to p id b) q.1)

pub store_self : (m : BufferPtr → ExtBuffer) (b : BufferPtr) (x : ExtBuffer) → store m b x b ≡ x
store_self m b x = ground arith

next-lt : (id n : ℕ) → id < n → (id + 1 == n) ≡ false → id + 1 < n
next-lt id n h e = ground arith

-- In a running pool a stage's hand-over does not fault. The buffer goes to the end of the next stage's
-- queue; from the last stage it goes to the end of the first one's, emptied. No other queue and no
-- count changes.
pub pool_get_unlock_lem :
    (junk : ℕ → ℕ) (p : WorkPool) (id : ℕ) (b : BufferPtr)
    → IsRunning p
    → id < p.max_ids
    → (q : List BufferPtr) × (p' : WorkPool) × (get_elem? p.queues (next_stage p id) ≡ some q)
      × (pool_get_unlock junk p id b ≡ some p')
      × (p'.queues ≡ set p.queues (next_stage p id) (q ++ b ∷ []))
      × (p'.elements ≡ p.elements)
      × ((p'.memory b).size_valid_elements
          ≡ (if id + 1 == p.max_ids then 0 else (p.memory b).size_valid_elements))
unfolding pool_get_unlock recycle extbuffer_preparetohandle
pool_get_unlock_lem junk p id b r h = elim (Bool-cases (id + 1 == p.max_ids)) [
  | inl last ↦
      let x : ExtBuffer = record (p.memory b) { size_valid_elements = 0 } in
      let m : WorkPool = record p { memory = store p.memory b x } in
      let a = add-running m 0 b (record { valid = r.valid; stages = r.stages }) (omega arith) in
      (
        a.0,
        record m { queues = set p.queues 0 (a.0 ++ b ∷ []) },
        rw last a.1,
        if-true p.valid _ _ r.valid ∙ if-true _ _ _ last ∙ a.2,
        rw last,
        refl,
        rw last (ap (λ (e : ExtBuffer). e.size_valid_elements) (store_self p.memory b x)),
      )
  | inr more ↦
      let a = add-running p (id + 1) b r (next-lt id p.max_ids h more) in
      (
        a.0,
        record p { queues = set p.queues (id + 1) (a.0 ++ b ∷ []) },
        rw more a.1,
        if-true p.valid _ _ r.valid ∙ if-false _ _ _ more ∙ a.2,
        rw more,
        refl,
        rw more,
      )
]

make_total :
    (fresh : BufferPtr) (others : WorkPool → WorkPool) (p : WorkPool) (id : ℕ)
    → make_or_wait fresh others p id false ≡ (
        if id == 0 && ltb p.elements p.max_elements
        then some (
          some fresh,
          record p {
            elements = p.elements + 1;
            memory = store p.memory fresh (extbuffer_init p.extbuffer_type);
          },
        )
        else some (none, p))
unfolding make_or_wait
make_total fresh others p id = refl

-- In a running pool a request that does not wait takes the oldest buffer of the stage's queue if there
-- is one. If there is none, the first stage is given a new, initialised buffer while fewer than
-- `max_elements` exist; otherwise the request returns NULL and changes nothing.
pub pool_get_wait_lock_lem :
    (fresh : BufferPtr) (others : WorkPool → WorkPool) (p : WorkPool) (id : ℕ) (q : List BufferPtr)
    → p.valid ≡ true
    → get_elem? p.queues id ≡ some q
    → pool_get_wait_lock fresh others p id false ≡ elim q [
      | [] ↦
          (if id == 0 && ltb p.elements p.max_elements
            then some (
              some fresh,
              record p {
                elements = p.elements + 1;
                memory = store p.memory fresh (extbuffer_init p.extbuffer_type);
              },
            )
            else some (none, p))
      | b ∷ rest ↦ some (some b, record p { queues = set p.queues id rest })
    ]
unfolding pool_get_wait_lock pop pop_queue found_or_make pop_from
pool_get_wait_lock_lem fresh others p id [] v e =
    if-true p.valid _ _ v
    ∙ ap (found_or_make fresh others id false) (if-true p.valid _ _ v ∙ ap (pop_from p id) e)
    ∙ make_total fresh others p id
pool_get_wait_lock_lem fresh others p id (b ∷ rest) v e =
    if-true p.valid _ _ v
    ∙ ap (found_or_make fresh others id false) (if-true p.valid _ _ v ∙ ap (pop_from p id) e)

-- What freeing queues leaves of a buffer: released if it was in a queue, untouched otherwise.
store_other :
    (m : BufferPtr → ExtBuffer) (c b : BufferPtr) (x : ExtBuffer)
    → (c == b) ≡ false
    → store m c x b ≡ m b
store_other m c b x h = rw h

free_queue-memory :
    (q : List BufferPtr) (p : WorkPool) (b : BufferPtr)
    → count b q ≡ 0
    → (free_queue q p).memory b ≡ p.memory b
unfolding free_queue
free_queue-memory [] p b h = refl
free_queue-memory (c ∷ q) p b h =
    free_queue-memory q _ b (ground arith) ∙ store_other p.memory c b _ (ground arith)

free_queues-memory :
    (qs : List (List BufferPtr)) (p : WorkPool) (b : BufferPtr)
    → sum_of (count b) qs ≡ 0
    → (free_queues qs p).memory b ≡ p.memory b
unfolding free_queues
free_queues-memory [] p b h = refl
free_queues-memory (q ∷ qs) p b h =
    free_queues-memory qs (free_queue q p) b (omega arith) ∙ free_queue-memory q p b (omega arith)

-- `pool_free` does not release a buffer that a thread holds, and the thread's later hand-over leaves
-- the freed pool as it is: the buffer is lost.
pub pool_free_leaks :
    (junk : ℕ → ℕ) (p : WorkPool) (id : ℕ) (b : BufferPtr)
    → sum_of (count b) p.queues ≡ 0
    → ((pool_free p).memory b ≡ p.memory b)
      × (pool_get_unlock junk (pool_free p) id b ≡ some (pool_free p))
unfolding pool_free pool_get_unlock
pool_free_leaks junk p id b h = elim (Bool-cases (ltb 0 p.max_ids)) [
  | inl some_ids ↦ (rw some_ids (free_queues-memory p.queues p b h), refl)
  | inr no_ids ↦ (rw no_ids refl, refl)
]

pool_free-queues : (p : WorkPool) → 0 < p.max_ids → (pool_free p).queues ≡ []
unfolding pool_free
pool_free-queues p h = rw (lt→ltb 0 p.max_ids h)

-- If another thread frees the pool while a request waits at an empty queue, the request goes on to the
-- queue that is gone.
pub pop_after_free :
    (p : WorkPool) (id : ℕ)
    → p.valid ≡ true
    → 0 < p.max_ids
    → get_elem? p.queues id ≡ some []
    → pop pool_free p id true ≡ none
unfolding pop pop_again pop_queue pool_free
pop_after_free p id v h e =
    if-true p.valid _ _ v
    ∙ ap (λ (o : Option (List BufferPtr)). pop_again pool_free id (pop_from p id o)) e
    ∙ ap (λ (qs : List (List BufferPtr)). pop_from (pool_free p) id (get_elem? qs id))
        (pool_free-queues p h)
