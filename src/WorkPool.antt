-- ===== src/WorkPool.antt =====
-- rtlsdr/src/main/cpp/src/workpool.h and workpool.c: buffers that circulate through the queues of
-- the pipeline's stages. A list stands for each linked queue, its members the addresses of the
-- buffers; `memory` holds the buffer at each address. The locks are taken by each access to a queue
-- and leave no other trace here: what other threads do while a call waits is an argument, and an
-- interleaving is a sequence of calls. An access to a queue that is not there (an id out of range,
-- or a pool that was freed) is a fault (`none`). WORKPOOL_WARNINGS is off.
pub mod Timeout
pub mod Conservation
pub mod Circulation
pub mod Calls
mod Tests
use rtl_tcp_andro.Base.{
  ℕ, zero, suc, ◌+◌, ◌-◌, Bool, true, false, ◌&&◌, Option, none, some, List, [], ◌∷◌, ◌++◌, ◌==◌,
  ltb, if◌then◌else◌, get_elem?, set, replicate, length,
}
use rtl_tcp_andro.Base.Int.{ℤ, pos, negsuc}
use rtl_tcp_andro.ExtBuffer.{
  ExtbuffType, ExtBuffer, extbuffer_init, extbuffer_preparetohandle, extbuffer_free,
}

-- The address of an extbuffer_t.
abbrev pub BufferPtr : Type 0
BufferPtr = ℕ

-- workpool_t, with the buffers that its pointers lead to. `queues` is [] where the source has NULL.
pub record WorkPool : Type 0 where
  pub queues : List (List BufferPtr)
  pub max_elements : ℕ
  pub max_ids : ℕ
  pub elements : ℕ
  pub extbuffer_type : ExtbuffType
  pub valid : Bool
  pub memory : BufferPtr → ExtBuffer

abbrev pub store : (BufferPtr → ExtBuffer) → BufferPtr → ExtBuffer → BufferPtr → ExtBuffer
store m p b q = if p == q then b else m q

-- `queue_pop(&pool->queues[id])` at the queue that stands there; NULL is `none`.
unfoldable pub pop_from :
    WorkPool → ℕ → Option (List BufferPtr) → Option (Option BufferPtr × WorkPool)
pop_from pool id none = none
pop_from pool id (some []) = some (none, pool)
pop_from pool id (some (b ∷ rest)) = some (some b, record pool { queues = set pool.queues id rest })

unfoldable pub pop_queue : WorkPool → ℕ → Option (Option BufferPtr × WorkPool)
unfolding pop_from
pop_queue pool id = pop_from pool id (get_elem? pool.queues id)

-- `queue_add(&pool->queues[id], buffer)` at the queue that stands there.
unfoldable pub add_to : WorkPool → ℕ → BufferPtr → Option (List BufferPtr) → Option WorkPool
add_to pool id buffer none = none
add_to pool id buffer (some q) =
    some (record pool { queues = set pool.queues id (q ++ buffer ∷ []) })

-- A second look at the queue after `pthread_cond_timedwait`, in which the other threads did `others`.
unfoldable pub pop_again :
    (others : WorkPool → WorkPool)
    → ℕ
    → Option (Option BufferPtr × WorkPool)
    → Option (Option BufferPtr × WorkPool)
unfolding pop_queue
pop_again others id none = none
pop_again others id (some (none, pool)) = pop_queue (others pool) id
pop_again others id (some (some b, pool)) = some (some b, pool)

unfoldable pub pop :
    (others : WorkPool → WorkPool)
    → WorkPool
    → ℕ
    → (block : Bool) → Option (Option BufferPtr × WorkPool)
unfolding pop_queue pop_again
pop others pool id block =
    if pool.valid
    then (if block then pop_again others id (pop_queue pool id) else pop_queue pool id)
    else some (none, pool)

unfoldable pub add : WorkPool → ℕ → BufferPtr → Option WorkPool
unfolding add_to
add pool id buffer =
    if pool.valid then add_to pool id buffer (get_elem? pool.queues id) else some pool

-- The part of `pool_get_wait_lock` behind a first pop that found nothing; `malloc` returns `fresh`.
unfoldable pub make_or_wait :
    (fresh : BufferPtr)
    → (others : WorkPool → WorkPool) → WorkPool
    → ℕ
    → (block : Bool) → Option (Option BufferPtr × WorkPool)
unfolding pop extbuffer_init
make_or_wait fresh others pool id block =
    if id == 0 && ltb pool.elements pool.max_elements
    then some (
      some fresh,
      record pool {
        elements = pool.elements + 1;
        memory = store pool.memory fresh (extbuffer_init pool.extbuffer_type);
      },
    )
    else (if block then pop others pool id true else some (none, pool))

-- What `pool_get_wait_lock` makes of the result of its first pop.
unfoldable pub found_or_make :
    (fresh : BufferPtr)
    → (others : WorkPool → WorkPool) → ℕ
    → (block : Bool) → Option (Option BufferPtr × WorkPool)
    → Option (Option BufferPtr × WorkPool)
unfolding make_or_wait
found_or_make fresh others id block none = none
found_or_make fresh others id block (some (none, pool)) = make_or_wait fresh others pool id block
found_or_make fresh others id block (some (some b, pool)) = some (some b, pool)

-- The test of `elements` and its increment hold no lock and are one step here: sdrtcp.c makes the requests
-- of the first stage, which alone get there, under its own lock.
unfoldable pub pool_get_wait_lock :
    (fresh : BufferPtr)
    → (others : WorkPool → WorkPool) → WorkPool
    → ℕ
    → (block : Bool) → Option (Option BufferPtr × WorkPool)
unfolding pop found_or_make
pool_get_wait_lock fresh others pool id block =
    if pool.valid
    then found_or_make fresh others id block (pop others pool id false)
    else some (none, pool)

-- The buffer is emptied and goes back to the first queue.
unfoldable pub recycle : WorkPool → BufferPtr → Option ExtBuffer → Option WorkPool
unfolding add
recycle pool buffer none = none
recycle pool buffer (some b) = add (record pool { memory = store pool.memory buffer b }) 0 buffer

unfoldable pub pool_get_unlock : (junk : ℕ → ℕ) → WorkPool → ℕ → BufferPtr → Option WorkPool
unfolding add recycle extbuffer_preparetohandle
pool_get_unlock junk pool id buffer =
    if pool.valid
    then (if id + 1 == pool.max_ids
        then recycle pool buffer (extbuffer_preparetohandle junk (pool.memory buffer) (pos 0))
        else add pool (id + 1) buffer)
    else some pool

unfoldable pub pool_init :
    (memory : BufferPtr → ExtBuffer) → (max_elements : ℕ) → ExtbuffType → WorkPool
pool_init memory max_elements type = record {
  queues = [];
  max_elements = max_elements;
  max_ids = 0;
  elements = 0;
  extbuffer_type = type;
  valid = false;
  memory = memory;
}

-- The buffers of a queue are popped, released and freed one after another.
unfoldable pub free_queue : List BufferPtr → WorkPool → WorkPool
unfolding extbuffer_free
free_queue [] pool = pool
free_queue (b ∷ bs) pool = free_queue bs (record pool {
  memory = store pool.memory b (extbuffer_free (pool.memory b));
  elements = pool.elements - 1;
})

unfoldable pub free_queues : List (List BufferPtr) → WorkPool → WorkPool
unfolding free_queue
free_queues [] pool = pool
free_queues (q ∷ qs) pool = free_queues qs (free_queue q pool)

unfoldable pub pool_free : WorkPool → WorkPool
unfolding free_queues
pool_free pool =
    let emptied =
      if ltb 0 pool.max_ids
      then record (free_queues pool.queues pool) { queues = []; max_ids = 0; elements = 0 }
      else pool in
    record emptied { valid = false }

unfoldable pub pool_set_threads : WorkPool → (number_of_ids : ℤ) → WorkPool
unfolding pool_free
pool_set_threads pool (negsuc n) = pool
pool_set_threads pool (pos zero) = pool
pool_set_threads pool (pos (suc n)) = record (pool_free pool) {
  max_ids = suc n;
  queues = replicate (suc n) [];
  valid = true;
}
