-- ===== src/SdrTcp/Flow.antt =====
-- The way of the samples through rtlsdr/src/main/cpp/src/sdrtcp.c and workpool.c: the driver's thread feeds
-- buffers to the pool (sdrtcp_feed) and the server's thread takes them, sends them and gives them back
-- (serveClient), in any order of their calls. A call that waits for a buffer is a call where the others'
-- calls are all before it or behind it.
pub mod Order
pub mod Buffers
pub mod Steps
pub mod Channel
pub mod Turns
pub mod Delivered
pub mod Drained
pub mod Opened
mod Tests
use rtl_tcp_andro.Base.{
  ℕ, Bool, true, false, Option, none, some, List, [], ◌∷◌, ◌++◌, ◌>>=◌, if◌then◌else◌,
}
use rtl_tcp_andro.WorkPool.{BufferPtr, WorkPool, pool_get_wait_lock, pool_get_unlock}
use rtl_tcp_andro.SdrTcp.{Stage, client_serving, is_stage, SdrTcp}
use rtl_tcp_andro.SdrTcp.Memcpy.{bytes_to_send, queue_bytes}
use rtl_tcp_andro.SdrTcp.Sender.{SendRound, Sender, send_loop}

-- The pool and the stage, the buffer that the server's thread has taken, all bytes that were queued, those
-- of feeds that found no buffer, all that the client was sent, and the rest of a buffer that was given
-- back before all of it was sent.
pub record Flow : Type 0 where
  pub pool : WorkPool
  pub state : Stage
  pub holding : Option BufferPtr
  pub fed : List ℕ
  pub dropped : List ℕ
  pub sent : List ℕ
  pub unsent : List ℕ

-- The threads' calls: a feed, with what `malloc` returns if it is called; a request of the server's thread;
-- its sending and giving back, with the sockets and the rounds of its loop; and another stage.
pub data Action : Type 0 where
  feed : (fresh : BufferPtr) → (bytes : List ℕ) → (len : ℕ) → Action
  take : Action
  give : (sockets : SdrTcp) → (rounds : List SendRound) → Action
  change : (stage : Stage) → Action

-- Whether the pool gave a buffer.
abbrev pub is_given : Option (Option BufferPtr × WorkPool) → Bool
is_given none = false
is_given (some (none, pool)) = false
is_given (some (some b, pool)) = true

-- The request of a turn; in another stage than CLIENT_SERVING there is no turn, and a thread that has a
-- buffer makes none.
unfoldable pub take_step : Option BufferPtr → Flow → Option Flow
unfolding pool_get_wait_lock
take_step (some b) s = some s
take_step none s =
    let taken = pool_get_wait_lock 0 (λ p. p) s.pool 1 true >>= λ (found, pool).
    some (record s { pool = pool; holding = found }) in
    if is_stage s.state client_serving then taken else some s

-- What the loop finds of the server.
abbrev pub seen : SdrTcp → Flow → SdrTcp
seen sockets s = record sockets { state = s.state; workpool = s.pool }

module _ (junk : ℕ → ℕ) where
  -- A feed in stage CLIENT_SERVING, as under the lock; the bytes are dropped if no buffer is found.
  unfoldable pub feed_step : (fresh : BufferPtr) → (bytes : List ℕ) → (len : ℕ) → Flow → Option Flow
  unfolding queue_bytes
  feed_step fresh bytes len s =
      let given = is_given (pool_get_wait_lock fresh (λ p. p) s.pool 0 true) in
      let done = queue_bytes junk fresh (λ p. p) s.pool len bytes >>= λ pool. some (record s {
        pool = pool;
        fed = if given then s.fed ++ bytes else s.fed;
        dropped = if given then s.dropped else s.dropped ++ bytes;
      }) in
      if is_stage s.state client_serving then done else some s

  -- The rest of the turn, with the buffer, to the end of the loop.
  unfoldable pub give_step : SdrTcp → List SendRound → Option BufferPtr → Flow → Option Flow
  unfolding bytes_to_send send_loop pool_get_unlock
  give_step sockets rounds none s = some s
  give_step sockets rounds (some b) s = bytes_to_send (s.pool.memory b) >>= λ bytes.
      let (after, sender) =
        send_loop rounds (seen sockets s, record { left = bytes; sent = s.sent; skew = 0 }) in
      pool_get_unlock junk s.pool 1 b >>= λ pool. some (record s {
        pool = pool;
        state = after.state;
        holding = none;
        sent = sender.sent;
        unsent = sender.left;
      })

  unfoldable pub act : Action → Flow → Option Flow
  unfolding feed_step take_step give_step
  act (feed fresh bytes len) s = feed_step fresh bytes len s
  act take s = take_step s.holding s
  act (give sockets rounds) s = give_step sockets rounds s.holding s
  act (change stage) s = some (record s { state = stage })
