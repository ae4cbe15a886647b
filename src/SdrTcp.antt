-- ===== src/SdrTcp.antt =====
-- rtlsdr/src/main/cpp/src/sdrtcp.h and sdrtcp.c: the TCP server that feeds a client with samples and
-- hears its commands. `state` and the sockets are shared by the threads; where other threads may act
-- between two reads, what they do is an argument, `others`. Sockets and threads belong to the system:
-- the results of its calls are arguments, and the calls that have an effect are listed (`Effect`).
-- A fault (`none`) is an access through NULL, outside of a buffer or to a queue that is not there.
pub mod Memcpy
pub mod Open
pub mod Feed
pub mod Listener
pub mod Sender
pub mod Server
pub mod Flow
pub mod Lifecycle
pub mod Fixtures
mod Tests
use rtl_tcp_andro.Base.{
  ℕ, zero, suc, Bool, true, false, ◌&&◌, not, Option, none, some, List, [], ◌∷◌, ◌++◌, ◌==◌, ltb,
  if◌then◌else◌,
}
use rtl_tcp_andro.WorkPool.{WorkPool, pool_free}

-- STAGE_UNINITIALIZED to STAGE_NEEDS_STOPPING, 0 to 6.
pub data Stage : Type 0 where
  uninitialized initialized socket_open client_open client_open_started_async : Stage
  client_serving needs_stopping : Stage

abbrev pub stage_code : Stage → ℕ
stage_code uninitialized = 0
stage_code initialized = 1
stage_code socket_open = 2
stage_code client_open = 3
stage_code client_open_started_async = 4
stage_code client_serving = 5
stage_code needs_stopping = 6

-- The test `obj->state == stage`.
abbrev pub is_stage : Stage → Stage → Bool
is_stage a b = stage_code a == stage_code b

-- A file descriptor; -1 is `none`.
abbrev pub Socket : Type 0
Socket = Option ℕ

abbrev pub is_open : Socket → Bool
is_open none = false
is_open (some fd) = true

-- struct sdrtcp, without the lock and the callbacks, which are arguments of the functions below.
pub record SdrTcp : Type 0 where
  pub state : Stage
  pub workpool : WorkPool
  pub client_socket : Socket
  pub listen_socket : Socket

-- What the server does to the world: closing a descriptor, and calling `closedcb`.
pub data Effect : Type 0 where
  close : ℕ → Effect
  closed_callback : Effect

abbrev pub close_socket : Socket → List Effect
close_socket none = []
close_socket (some fd) = close fd ∷ []

unfoldable pub sdrtcp_init : WorkPool → SdrTcp
sdrtcp_init workpool = record {
  state = uninitialized;
  workpool = workpool;
  client_socket = none;
  listen_socket = none;
}

-- The inner test of `sdrtcp_cleanup` reads `state` after it was set.
unfoldable pub sdrtcp_cleanup : SdrTcp → SdrTcp × List Effect
unfolding pool_free
sdrtcp_cleanup obj =
    if not (is_stage obj.state uninitialized)
    then (let stopped = record obj { state = uninitialized } in
        let freed = record stopped { workpool = pool_free stopped.workpool } in
        let closed =
          if not (is_stage freed.state initialized) && is_open freed.listen_socket
          then close_socket freed.listen_socket
          else [] in
        (record freed { client_socket = none; listen_socket = none }, closed))
    else (obj, [])

unfoldable pub sdrtcp_stop_serving_client : SdrTcp → SdrTcp × List Effect
unfolding sdrtcp_cleanup
sdrtcp_stop_serving_client obj =
    if is_stage obj.state uninitialized
    then (obj, [])
    else (if ltb (stage_code obj.state) (stage_code client_open_started_async)
        then sdrtcp_cleanup obj
        else (record obj { state = needs_stopping }, []))
