-- ===== src/SdrTcp/Flow/Tests.antt =====
-- Runs of the threads around the pool of rtlsdr/src/main/cpp/src/sdrtcp.c.
use rtl_tcp_andro.Base.{ℕ, ◌≡◌, refl, true, false, none, some, List, [], ◌∷◌, arith}
use rtl_tcp_andro.ExtBuffer.{ExtBuffer, ushort, extbuffer_init, extbuffer_preparetohandle}
use rtl_tcp_andro.WorkPool.{
  store, pop_from, pop_queue, pop, found_or_make, make_or_wait, pool_get_wait_lock, add_to, add,
  recycle, pool_get_unlock, pool_init, pool_set_threads,
}
use rtl_tcp_andro.SdrTcp.{SdrTcp, initialized, client_serving}
use rtl_tcp_andro.SdrTcp.Fixtures.{
  three_cells, three_cells-IsValid, two_stages, serving, fresh_server,
}
use rtl_tcp_andro.SdrTcp.Memcpy.{bytes_to_send, overwrite, memcpy_to, fill_buffer, queue_bytes}
use rtl_tcp_andro.SdrTcp.Open.{dongle_info, prepare_pool}
use rtl_tcp_andro.SdrTcp.Open.Outcome.{new_pool}
use rtl_tcp_andro.SdrTcp.Sender.{send_part, select_part, send_round, send_loop}
use rtl_tcp_andro.SdrTcp.Sender.Bytes.{delivery}
use rtl_tcp_andro.SdrTcp.Flow.{Flow, feed, take, give, take_step, give_step, act}
use rtl_tcp_andro.SdrTcp.Flow.Channel.{here, next}
use rtl_tcp_andro.SdrTcp.Flow.Turns.{InOrder, Goes, act-Goes}
use rtl_tcp_andro.SdrTcp.Flow.Delivered.{IsExtended}
use rtl_tcp_andro.SdrTcp.Flow.Drained.{Drains, flow-Drains}
use rtl_tcp_andro.SdrTcp.Flow.Opened.{opened_flow, client_stream}

-- One buffer, of two cells, that waits to be sent, and one that is free.
abbrev two_cells : ExtBuffer
two_cells = record three_cells { size_valid_elements = 2 }

abbrev loaded : Flow
loaded = record {
  pool = record two_stages { queues = (8 ∷ []) ∷ (7 ∷ []) ∷ []; memory = λ b. two_cells };
  state = client_serving;
  holding = none;
  fed = 5 ∷ 0 ∷ 6 ∷ 0 ∷ [];
  dropped = [];
  sent = [];
  unsent = [];
}

loaded-InOrder : InOrder loaded
unfolding bytes_to_send
loaded-InOrder = record {
  first = 8 ∷ [];
  second = 7 ∷ [];
  order = record {
    valid = refl;
    two = refl;
    ushorts = refl;
    queues_are = refl;
    once = λ a. ground arith;
    good = λ a n. (
      record {
        known = three_cells-IsValid.known;
        sized = three_cells-IsValid.sized;
        fits = omega arith;
      },
      refl,
    );
    clear = tt;
    same = refl;
  };
  live = λ e. refl;
}

act-Goes_example : Goes loaded (act (λ i. 99) (feed 9 (1 ∷ 2 ∷ 3 ∷ 4 ∷ []) 2) loaded)
act-Goes_example =
    act-Goes (λ i. 99) (feed 9 (1 ∷ 2 ∷ 3 ∷ 4 ∷ []) 2) loaded loaded-InOrder
      (refl, omega arith, omega arith, omega arith, refl)

flow-Drains_example : Drains (λ i. 99) loaded
flow-Drains_example = flow-Drains (λ i. 99) serving loaded loaded-InOrder refl

-- "RTL0"
abbrev magic : List ℕ
magic = 82 ∷ 84 ∷ 76 ∷ 48 ∷ []

-- The first buffer, filled with the description: an R820T with 29 gains.
abbrev described : ExtBuffer
described = record {
  intbuffer = none;
  floatbuffer = none;
  charbuffer = none;
  shortbuffer = none;
  ushortbuffer = some (21586 ∷ 12364 ∷ 0 ∷ 1280 ∷ 0 ∷ 7424 ∷ []);
  buffer_max_size = 6;
  type = ushort;
  size_valid_elements = 6;
  valid = true;
  cleartozero = false;
}

abbrev prepared : SdrTcp
prepared = record fresh_server {
  state = initialized;
  workpool = record (new_pool fresh_server.workpool.memory) {
    queues = [] ∷ (9 ∷ []) ∷ [];
    elements = 1;
    memory = store (store fresh_server.workpool.memory 9 (extbuffer_init ushort)) 9 described;
  };
}

prepared_run : prepare_pool (λ i. 99) 9 fresh_server (dongle_info magic 5 29) ≡ some prepared
unfolding prepare_pool dongle_info pool_init pool_set_threads queue_bytes pool_get_wait_lock pop
    pop_queue found_or_make make_or_wait fill_buffer memcpy_to overwrite pool_get_unlock add add_to
    extbuffer_init
prepared_run = refl

abbrev start : Flow
start = opened_flow prepared.workpool (dongle_info magic 5 29)

-- The description in hand, and then sent.
abbrev with_info : Flow
with_info = record start {
  pool = record prepared.workpool { queues = [] ∷ [] ∷ [] };
  holding = some 9;
}

abbrev info_sent : Flow
info_sent = record with_info {
  pool = record prepared.workpool {
    queues = (9 ∷ []) ∷ [] ∷ [];
    memory = store prepared.workpool.memory 9 (record described { size_valid_elements = 0 });
  };
  holding = none;
  sent = dongle_info magic 5 29;
}

info_taken : act (λ i. 99) take start ≡ some with_info
unfolding act take_step pool_get_wait_lock pop pop_queue pop_from found_or_make
info_taken = refl

info_given : act (λ i. 99) (give serving (delivery 99 ∷ [])) with_info ≡ some info_sent
unfolding act give_step bytes_to_send send_loop send_round select_part send_part pool_get_unlock
    recycle extbuffer_preparetohandle add add_to dongle_info
info_given = refl

client_stream_example :
    IsExtended (dongle_info magic 5 29) info_sent.fed × IsExtended info_sent.sent info_sent.fed
client_stream_example =
    client_stream (λ i. 99) 9 fresh_server magic 5 29 (omega arith) (omega arith) prepared info_sent
      prepared_run
      (next (next here take tt info_taken) (give serving (delivery 99 ∷ [])) tt info_given)
