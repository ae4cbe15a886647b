-- ===== src/Queue/History.antt =====
-- Histories of calls of rtlsdr/src/main/cpp/src/queue.c on one queue, against a plain list.
use mathlib.Core.List.{map-append}
use rtl_tcp_andro.Base.{◌≡◌, refl, ◌≢◌, none, some, List, [], ◌∷◌, ◌++◌, map, ap}
use rtl_tcp_andro.Queue.Heap.{Ptr, null, Heap, Cmd, pure, ◌>>=◌}
use rtl_tcp_andro.Queue.Chain.{Cells, IsQueue, SameOutside, Returns, Returns-some}
use rtl_tcp_andro.Queue.{queue_add, queue_pop}
use rtl_tcp_andro.Queue.Add.{queue_add-append}
use rtl_tcp_andro.Queue.Pop.{queue_pop-nil, queue_pop-cons}

-- A call; an `add` carries the address that its `malloc` returns.
pub data QueueCall : Type 0 where
  add : (new_el payload : Ptr) → QueueCall
  pop : QueueCall

-- The results of the pops of a history, oldest first.
unfoldable pub run : List QueueCall → Ptr → Cmd (List Ptr)
run [] queue = pure []
run (add n v ∷ calls) queue = do queue' ← queue_add n queue v; run calls queue'
run (pop ∷ calls) queue = do
  (result, queue') ← queue_pop queue
  results ← run calls queue'
  pure (result ∷ results)

-- The same of a first-in first-out list of payloads; a pop of the empty list gives NULL.

unfoldable pub fifo : List QueueCall → List Ptr → List Ptr
fifo [] xs = []
fifo (add n v ∷ calls) xs = fifo calls (xs ++ v ∷ [])
fifo (pop ∷ calls) [] = null ∷ fifo calls []
fifo (pop ∷ calls) (x ∷ xs) = x ∷ fifo calls xs

-- What `malloc` promises: each address is not NULL and holds no element at the time.
abbrev pub Mallocs : List QueueCall → Ptr → Heap → Type 0
Mallocs [] queue h = Unit {0}
Mallocs (add n v ∷ calls) queue h =
    (n ≢ null)
    × (h n ≡ none)
    × ((queue' : Ptr) (h' : Heap)
        → queue_add n queue v h ≡ some (queue', h')
        → Mallocs calls queue' h')
Mallocs (pop ∷ calls) queue h =
    (result queue' : Ptr) (h' : Heap)
    → queue_pop queue h ≡ some ((result, queue'), h')
    → Mallocs calls queue' h'

abbrev payloads : Cells → List Ptr
payloads = map (λ c. c.1)

run-step-pop :
    (calls : List QueueCall) (queue result queue' : Ptr) (h h' : Heap) (xs : List Ptr)
    → queue_pop queue h ≡ some ((result, queue'), h')
    → Returns (λ results _. results ≡ fifo calls xs) (run calls queue' h')
    → Returns (λ results _. results ≡ result ∷ fifo calls xs) (run (pop ∷ calls) queue h)
unfolding run
run-step-pop calls queue result queue' h h' xs e r =
    let t = Returns-some (λ results _. results ≡ fifo calls xs) (run calls queue' h') r in
    rw (◌>>=◌, e, t.2) (ap (λ (results : List Ptr). result ∷ results) t.3)

-- Whatever calls are made on a queue, no call faults and the pops return what a first-in first-out
-- list of payloads returns.
pub run-fifo :
    (calls : List QueueCall) (queue : Ptr) (h : Heap) (cs : Cells)
    → IsQueue h queue cs
    → Mallocs calls queue h
    → Returns (λ results _. results ≡ fifo calls (map (λ c. c.1) cs)) (run calls queue h)
unfolding run fifo
run-fifo [] queue h cs q m = refl
run-fifo (add n v ∷ calls) queue h cs q (pn, fresh, m) =
    let r =
      Returns-some
        (λ queue' g. IsQueue g queue' (cs ++ (n, v) ∷ []) × SameOutside (cs ++ (n, v) ∷ []) h g)
        (queue_add n queue v h) (queue_add-append h queue n v cs q pn fresh) in
    let rest = run-fifo calls r.0 r.1 (cs ++ (n, v) ∷ []) r.3.0 (m r.0 r.1 r.2) in
    rw (◌>>=◌, r.2) (rw map-append at rest)
run-fifo (pop ∷ calls) queue h [] q m =
    let e = queue_pop-nil h queue q in
    run-step-pop calls queue null null h h [] e (run-fifo calls null h [] refl (m null null h e))
run-fifo (pop ∷ calls) queue h ((a, v) ∷ cs) q m =
    let r =
      Returns-some
        (λ (result, queue') g.
          (result ≡ v) × IsQueue g queue' cs × (g a ≡ none) × SameOutside ((a, v) ∷ cs) h g)
        (queue_pop queue h) (queue_pop-cons h queue a v cs q) in
    let rest = run-fifo calls r.0.1 r.1 cs r.3.1 (m r.0.0 r.0.1 r.1 r.2) in
    rw (← r.3.0) (run-step-pop calls queue r.0.0 r.0.1 h r.1 (map (λ c. c.1) cs) r.2 rest)
