-- ===== src/Queue/Tests.antt =====
-- Runs of rtlsdr/src/main/cpp/src/queue.c on small queues.
use rtl_tcp_andro.Base.{◌≡◌, refl, none, some, List, [], ◌∷◌, arith}
use rtl_tcp_andro.Queue.Heap.{Heap, write}
use rtl_tcp_andro.Queue.Chain.{Cells, IsQueue, Returns}
use rtl_tcp_andro.Queue.History.{QueueCall, run, fifo, Mallocs, run-fifo}

-- Two elements, at addresses 10 and 20, with payloads 7 and 8.
abbrev two_elements : Heap
two_elements =
    write (write (λ p. none) 20 (some (record { next = 0; prev = 10; last = 20; payload = 8 }))) 10
      (some (record { next = 20; prev = 0; last = 20; payload = 7 }))

abbrev two_cells : Cells
two_cells = (10, 7) ∷ (20, 8) ∷ []

two_elements-IsQueue : IsQueue two_elements 10 two_cells
two_elements-IsQueue =
    (refl, refl, ((20, refl, ground arith), refl, ((20, refl, ground arith), refl, tt)))

abbrev calls : List QueueCall
calls = QueueCall.add 30 9 ∷ QueueCall.pop ∷ QueueCall.pop ∷ QueueCall.pop ∷ QueueCall.pop ∷ []

calls-Mallocs : Mallocs calls 10 two_elements
calls-Mallocs =
    (ground arith, refl, λ q h e. λ r1 q1 h1 e1. λ r2 q2 h2 e2. λ r3 q3 h3 e3. λ r4 q4 h4 e4. tt)

run-fifo_example :
    Returns (λ results _. results ≡ fifo calls (7 ∷ 8 ∷ [])) (run calls 10 two_elements)
run-fifo_example = run-fifo calls 10 two_elements two_cells two_elements-IsQueue calls-Mallocs
