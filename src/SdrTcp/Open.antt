-- ===== src/SdrTcp/Open.antt =====
-- sdrtcp_open_socket and sdrtcp_serve_client_async of rtlsdr/src/main/cpp/src/sdrtcp.c.
pub mod Outcome
use rtl_tcp_andro.Base.{
  ℕ, zero, suc, ◌+◌, ◌*◌, ◌≤◌, ◌<◌, ◌≡◌, Bool, true, false, ◌&&◌, Option, none, some, List, [], ◌∷◌,
  ◌++◌, ◌>>=◌, if◌then◌else◌, length, drop, take, not,
}
use rtl_tcp_andro.Base.Int.{ℤ, pos, negsuc}
use rtl_tcp_andro.Base.Words.{be32}
use rtl_tcp_andro.ExtBuffer.{ExtBuffer, ExtbuffType, ushort}
use rtl_tcp_andro.WorkPool.{BufferPtr, WorkPool, pool_init, pool_set_threads}
use rtl_tcp_andro.SdrTcp.Memcpy.{queue_bytes}
use rtl_tcp_andro.SdrTcp.{
  Stage, uninitialized, initialized, socket_open, client_open_started_async, is_stage, Socket,
  is_open, SdrTcp, Effect, closed_callback, sdrtcp_cleanup,
}

abbrev pub pool_max_elements : ℕ
pool_max_elements = 5

-- dongle_info_t in memory: four characters and two numbers in network order, 12 bytes.
unfoldable pub dongle_info : (magic : List ℕ) → (dongle_type gains_count : ℕ) → List ℕ
dongle_info magic dongle_type gains_count = take 4 magic ++ be32 dongle_type ++ be32 gains_count

-- What the system answers: the descriptor of `socket`, and whether `bind` and `listen` return 0.
pub record OpenResults : Type 0 where
  pub socket : Socket
  pub bound : Bool
  pub listening : Bool

-- What other threads do at the four places where `state` is read without the lock held since.
pub record Interference : Type 0 where
  pub at_socket : SdrTcp → SdrTcp
  pub at_mark : SdrTcp → SdrTcp
  pub at_bind : SdrTcp → SdrTcp
  pub at_end : SdrTcp → SdrTcp

abbrev pub quiet : Interference
quiet = record { at_socket = λ s. s; at_mark = λ s. s; at_bind = λ s. s; at_end = λ s. s }

-- The first part, under the lock: the pool, with the dongle's description queued for the client.
unfoldable pub prepare_pool :
    (junk : ℕ → ℕ) → (fresh : BufferPtr) → SdrTcp → (info : List ℕ) → Option SdrTcp
unfolding pool_init pool_set_threads queue_bytes
prepare_pool junk fresh obj info =
    let pool = pool_set_threads (pool_init obj.workpool.memory pool_max_elements ushort) (pos 2) in
    queue_bytes junk fresh (λ p. p) pool 6 info >>= λ pool'.
    some (record obj { workpool = pool'; state = initialized })

-- The second part: the socket is made, bound and listened on.
unfoldable pub open_listener : OpenResults → Interference → SdrTcp → Bool × SdrTcp × List Effect
unfolding sdrtcp_cleanup
open_listener os others obj =
    let s = others.at_socket obj in
    let made = if is_stage s.state initialized then record s { listen_socket = os.socket } else s in
    let s' = others.at_mark made in
    let marked = if is_open s'.listen_socket then record s' { state = socket_open } else s' in
    let s'' = others.at_bind marked in
    let success = is_stage s''.state socket_open && os.bound && os.listening in
    let last = others.at_end s'' in
    if is_stage last.state socket_open && success
    then (true, last, [])
    else (let (closed, effects) = sdrtcp_cleanup last in (false, closed, effects))

-- `sdrtcp_open_socket`. Its result is 1 or 0.
unfoldable pub sdrtcp_open_socket :
    (junk : ℕ → ℕ)
    → (fresh : BufferPtr) → OpenResults
    → Interference
    → SdrTcp
    → (magic : List ℕ) → (dongle_type gains_count : ℕ) → Option (Bool × SdrTcp × List Effect)
unfolding dongle_info prepare_pool open_listener sdrtcp_cleanup
sdrtcp_open_socket junk fresh os others obj magic dongle_type gains_count =
    if not (is_stage obj.state uninitialized)
    then some (let (closed, effects) = sdrtcp_cleanup obj in (false, closed, effects))
    else prepare_pool junk fresh (record obj { listen_socket = none })
        (dongle_info magic dongle_type gains_count)
      >>= λ obj'. some (open_listener os others obj')

-- `sdrtcp_serve_client_async`: whether the server thread was started. `closedcb` is the caller's.
unfoldable pub sdrtcp_serve_client_async :
    (closedcb : SdrTcp → SdrTcp) → SdrTcp → Bool × SdrTcp × List Effect
unfolding sdrtcp_cleanup
sdrtcp_serve_client_async closedcb obj =
    if not (is_stage obj.state socket_open)
    then (let (closed, effects) = sdrtcp_cleanup (closedcb obj) in
        (false, closed, closed_callback ∷ effects))
    else (true, record obj { state = client_open_started_async }, [])
