-- ===== src/WorkPool/Tests.antt =====
-- Runs of rtlsdr/src/main/cpp/src/workpool.c on a pool of two stages with one buffer.
use rtl_tcp_andro.Base.{◌+◌, ◌*◌, ◌^◌, ◌<◌, ◌≡◌, refl, true, false, none, some, [], ◌∷◌, arith}
use rtl_tcp_andro.ExtBuffer.{ExtBuffer, ushort}
use rtl_tcp_andro.WorkPool.Timeout.{deadline, raw_nsec, deadline_lem}
use rtl_tcp_andro.WorkPool.Conservation.{Step, Reach, IsConserved}
use rtl_tcp_andro.WorkPool.Circulation.{Reach-IsConserved}
use rtl_tcp_andro.WorkPool.{WorkPool, pop_from, pop_queue, pop, found_or_make, pool_get_wait_lock}

-- A buffer of three cells.
abbrev three_cells : ExtBuffer
three_cells = record {
  intbuffer = none;
  floatbuffer = none;
  charbuffer = none;
  shortbuffer = none;
  ushortbuffer = some (5 ∷ 6 ∷ 7 ∷ []);
  buffer_max_size = 3;
  type = ushort;
  size_valid_elements = 2;
  valid = true;
  cleartozero = false;
}

-- Buffer 7 in the first stage's queue.
abbrev two_stages : WorkPool
two_stages = record {
  queues = (7 ∷ []) ∷ [] ∷ [];
  max_elements = 5;
  max_ids = 2;
  elements = 1;
  extbuffer_type = ushort;
  valid = true;
  memory = λ b. three_cells;
}

abbrev taken : WorkPool
taken = record two_stages { queues = [] ∷ [] ∷ [] }

first_taken : pool_get_wait_lock 9 (λ p. p) two_stages 0 false ≡ some (some 7, taken)
unfolding pool_get_wait_lock pop pop_queue pop_from found_or_make
first_taken = refl

take_step :
    Step
      (λ i. 99)
      (record { pool = two_stages; held = [] })
      (record { pool = taken; held = (0, 7) ∷ [] })
take_step = Step.take 9 (λ p. p) 0 7 taken refl first_taken

two_stages-IsConserved : IsConserved (record { pool = two_stages; held = [] })
two_stages-IsConserved = record {
  valid = refl;
  stages = refl;
  once = λ a. ground arith;
  all_there = refl;
  bounded = omega arith;
}

Reach-IsConserved_example : IsConserved (record { pool = taken; held = (0, 7) ∷ [] })
Reach-IsConserved_example =
    Reach-IsConserved (λ i. 99) (Reach.next Reach.here take_step) two_stages-IsConserved

deadline_lem_example :
    ((deadline (record { tv_sec = 10; tv_usec = 999_999 })).tv_nsec < 1_000_000_000)
    × ((deadline (record { tv_sec = 10; tv_usec = 999_999 })).tv_sec * 1_000_000_000
          + (deadline (record { tv_sec = 10; tv_usec = 999_999 })).tv_nsec
        ≡ 10 * 1_000_000_000 + 999_999 * 1000 + 1_000_000_000)
    × ((deadline (record { tv_sec = 10; tv_usec = 999_999 })).tv_sec < 2 ^ 31)
    × (raw_nsec (record { tv_sec = 10; tv_usec = 999_999 }) < 2 ^ 31)
deadline_lem_example =
    deadline_lem (record { tv_sec = 10; tv_usec = 999_999 }) (omega arith) (omega arith)
