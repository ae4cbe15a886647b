-- ===== src/Queue.antt =====
-- rtlsdr/src/main/cpp/src/queue.c: the linked queue of pointers, over an explicit memory.
pub mod Heap
pub mod Chain
mod Links
pub mod Add
pub mod Pop
pub mod History
mod Tests
use rtl_tcp_andro.Base.{ℕ, ◌≡◌, Bool, Option, none, some, List, [], ◌∷◌, ◌++◌, ◌==◌, if◌then◌else◌}
use rtl_tcp_andro.Queue.Heap.{
  Ptr, null, QueueElement, Cmd, pure, ◌>>=◌, ◌>>◌, load, store, set_next, set_prev, set_last, free,
}

-- `queue_add(&queue, ptr)` with `*queue = queue`, where `malloc` returns `new_el`. The result is the
-- new `*queue`.
unfoldable pub queue_add : (new_el : Ptr) → (queue : Ptr) → (ptr : Ptr) → Cmd Ptr
queue_add new_el queue ptr =
    if queue == null
    then (do
      store new_el (record { next = null; prev = null; last = new_el; payload = ptr })
      pure new_el)
    else (do
      qe ← load queue
      store new_el (record { next = null; prev = qe.last; last = null; payload = ptr })
      qe ← load queue
      set_next qe.last new_el
      set_last queue new_el
      pure queue)

-- `if (qe->next != NULL) { qe->next->prev = NULL; qe->next->last = qe->last; }`
unfoldable pub relink : QueueElement → Cmd (Unit {0})
relink qe =
    if qe.next == null then pure tt else (do set_prev qe.next null; set_last qe.next qe.last)

-- `queue_pop(&queue)`: the payload, NULL for an empty queue, and the new `*queue`.
unfoldable pub queue_pop : (queue : Ptr) → Cmd (Ptr × Ptr)
queue_pop queue =
    if queue == null
    then pure (null, null)
    else (do qe ← load queue; relink qe; free queue; pure (qe.payload, qe.next))
