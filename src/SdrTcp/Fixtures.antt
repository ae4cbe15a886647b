-- ===== src/SdrTcp/Fixtures.antt =====
-- A server with a client, and a pool of two stages with one buffer of three cells, for the runs.
use rtl_tcp_andro.Base.{◌≡◌, refl, true, false, none, some, [], ◌∷◌, arith}
use rtl_tcp_andro.ExtBuffer.{ExtBuffer, ushort}
use rtl_tcp_andro.ExtBuffer.Invariant.{IsValid}
use rtl_tcp_andro.WorkPool.{WorkPool, pop_from, pop_queue, pop, found_or_make, pool_get_wait_lock}
use rtl_tcp_andro.SdrTcp.{uninitialized, client_serving, SdrTcp}

abbrev pub three_cells : ExtBuffer
three_cells = record {
  intbuffer = none;
  floatbuffer = none;
  charbuffer = none;
  shortbuffer = none;
  ushortbuffer = some (5 ∷ 6 ∷ 7 ∷ []);
  buffer_max_size = 3;
  type = ushort;
  size_valid_elements = 0;
  valid = true;
  cleartozero = false;
}

pub three_cells-IsValid : IsValid three_cells
three_cells-IsValid = record { known = λ e. cc; sized = (refl, omega arith); fits = omega arith }

abbrev pub two_stages : WorkPool
two_stages = record {
  queues = (7 ∷ []) ∷ [] ∷ [];
  max_elements = 5;
  max_ids = 2;
  elements = 1;
  extbuffer_type = ushort;
  valid = true;
  memory = λ b. three_cells;
}

abbrev pub taken : WorkPool
taken = record two_stages { queues = [] ∷ [] ∷ [] }

pub first_taken : pool_get_wait_lock 9 (λ p. p) two_stages 0 true ≡ some (some 7, taken)
unfolding pool_get_wait_lock pop pop_queue pop_from found_or_make
first_taken = refl

abbrev pub serving : SdrTcp
serving = record {
  state = client_serving;
  workpool = two_stages;
  client_socket = some 4;
  listen_socket = some 3;
}

abbrev pub fresh_server : SdrTcp
fresh_server = record serving { state = uninitialized; client_socket = none; listen_socket = none }
