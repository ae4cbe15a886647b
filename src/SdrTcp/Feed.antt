-- ===== src/SdrTcp/Feed.antt =====
-- sdrtcp_feed of rtlsdr/src/main/cpp/src/sdrtcp.c.
pub mod Outcome
use rtl_tcp_andro.Base.{
  ℕ, zero, suc, ◌+◌, ◌*◌, ◌≤◌, ◌<◌, ◌≡◌, Bool, true, false, ◌&&◌, ◌||◌, Option, none, some, List,
  [], ◌∷◌, ◌++◌, ◌>>=◌, if◌then◌else◌, length, drop, take,
}
use rtl_tcp_andro.WorkPool.{BufferPtr, WorkPool}
use rtl_tcp_andro.SdrTcp.Memcpy.{queue_bytes}
use rtl_tcp_andro.SdrTcp.{
  Stage, socket_open, client_open, client_open_started_async, client_serving, is_stage, SdrTcp,
}

-- The stages in which there is no client yet.
abbrev pub is_waiting : Stage → Bool
is_waiting s =
    is_stage s socket_open || is_stage s client_open || is_stage s client_open_started_async

-- The part under the lock.
unfoldable pub feed_locked :
    (junk : ℕ → ℕ)
    → (fresh : BufferPtr) → (others : WorkPool → WorkPool) → SdrTcp
    → (buf : List ℕ) → (len : ℕ) → Option (ℕ × SdrTcp)
unfolding queue_bytes
feed_locked junk fresh others obj buf len =
    if is_stage obj.state client_serving
    then (queue_bytes junk fresh others obj.workpool len (take (2 * len) buf) >>= λ pool.
        some (1, record obj { workpool = pool }))
    else (if is_waiting obj.state then some (2, obj) else some (0, obj))

-- `sdrtcp_feed`: 1 done, 2 no client to send to, 0 an error. `before_lock` is what other threads do
-- until the lock is taken, `others` what they do to the pool while the call waits for a buffer.
unfoldable pub sdrtcp_feed :
    (junk : ℕ → ℕ)
    → (fresh : BufferPtr) → (others : WorkPool → WorkPool) → (before_lock : SdrTcp → SdrTcp)
    → SdrTcp
    → (buf : List ℕ) → (len : ℕ) → Option (ℕ × SdrTcp)
unfolding feed_locked
sdrtcp_feed junk fresh others before_lock obj buf len =
    if is_stage obj.state client_serving
    then feed_locked junk fresh others (before_lock obj) buf len
    else (if is_waiting obj.state then some (2, obj) else some (0, obj))
