-- ===== src/SdrTcp/Lifecycle/Tests.antt =====
-- A run of the threads of rtlsdr/src/main/cpp/src/sdrtcp.c.
use rtl_tcp_andro.Base.{◌≡◌, refl, false, some, []}
use rtl_tcp_andro.SdrTcp.{initialized, socket_open}
use rtl_tcp_andro.SdrTcp.Fixtures.{fresh_server}
use rtl_tcp_andro.SdrTcp.Lifecycle.{idle, making, World, Reach}
use rtl_tcp_andro.SdrTcp.Lifecycle.Lost.{stop_in_socket}

-- The opening thread is in its call of `socket`, and a stop is about to clean up.
abbrev opening : World
opening = record {
  obj = record fresh_server { state = initialized };
  locked = false;
  opener = making;
  to_compare = 0;
  to_clean = 1;
  to_ask = 0;
  opened = [];
  closed = [];
}

stop_in_socket_example :
    (u : World) × Reach (λ i. 99) opening u
    × (u.opener ≡ idle)
    × (u.to_clean ≡ 0)
    × (u.obj.state ≡ socket_open)
    × (u.obj.listen_socket ≡ some 3)
    × (u.obj.workpool.valid ≡ false)
stop_in_socket_example = stop_in_socket (λ i. 99) opening 0 3 refl refl refl (λ e. cc)
