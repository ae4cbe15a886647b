-- ===== src/SdrTcp/Feed/Outcome.antt =====
-- The outcomes of sdrtcp_feed of rtlsdr/src/main/cpp/src/sdrtcp.c.
use rtl_tcp_andro.Base.{
  ℕ, ◌*◌, ◌^◌, ◌<◌, ◌≡◌, ◌≢◌, true, Option, some, List, [], ◌∷◌, ◌++◌, ◌>>=◌, length, take, set,
  get_elem?, arith, ap, ◌∙◌, if-true,
}
use rtl_tcp_andro.Base.Words.{IsBytes}
use rtl_tcp_andro.ExtBuffer.{ushort}
use rtl_tcp_andro.ExtBuffer.Invariant.{IsValid}
use rtl_tcp_andro.WorkPool.{BufferPtr, WorkPool, pool_get_wait_lock}
use rtl_tcp_andro.WorkPool.Calls.{IsRunning}
use rtl_tcp_andro.SdrTcp.Memcpy.{bytes_to_send}
use rtl_tcp_andro.SdrTcp.Memcpy.Filled.{queue_bytes-bytes}
use rtl_tcp_andro.SdrTcp.{
  socket_open, client_open, client_open_started_async, client_serving, is_stage, SdrTcp,
}
use rtl_tcp_andro.SdrTcp.Feed.{feed_locked, sdrtcp_feed}

-- With a client being served, no interference before the lock, and a buffer given by the pool, a feed
-- of 2 * len bytes, fewer than 2 ^ 32, returns 1, and those bytes stand in that buffer at the end of the client's queue.
pub sdrtcp_feed-serving :
    (junk : ℕ → ℕ) (fresh : BufferPtr) (others : WorkPool → WorkPool) (obj : SdrTcp) (p1 : WorkPool)
    (buff : BufferPtr) (bytes : List ℕ) (len : ℕ)
    → obj.state ≡ client_serving
    → pool_get_wait_lock fresh others obj.workpool 0 true ≡ some (some buff, p1)
    → IsRunning p1
    → p1.max_ids ≡ 2
    → IsValid (p1.memory buff)
    → (p1.memory buff).type ≡ ushort
    → length (take (2 * len) bytes) ≡ 2 * len
    → IsBytes (take (2 * len) bytes)
    → 0 < len
    → 2 * len < 2 ^ 32
    → (q : List BufferPtr) × (p' : WorkPool) × (get_elem? p1.queues 1 ≡ some q)
      × (sdrtcp_feed junk fresh others (λ o. o) obj bytes len
          ≡ some (1, record obj { workpool = p' }))
      × (p'.queues ≡ set p1.queues 1 (q ++ buff ∷ []))
      × (bytes_to_send (p'.memory buff) ≡ some (take (2 * len) bytes))
unfolding sdrtcp_feed feed_locked
sdrtcp_feed-serving junk fresh others obj p1 buff bytes len e got r two v t l are pos small =
    let serving : is_stage obj.state client_serving ≡ true = ground arith in
    let f =
      queue_bytes-bytes (take (2 * len) bytes) len l are pos small junk fresh others obj.workpool p1
        buff got r two v t in
    (
      f.0,
      f.1,
      f.2,
      if-true (is_stage obj.state client_serving) _ _ serving
          ∙ if-true (is_stage obj.state client_serving) _ _ serving
          ∙ ap (λ (o : Option WorkPool). o >>= λ pool. some (1, record obj { workpool = pool }))
              f.3,
      f.4,
      f.5,
    )

-- Without a client being served when the call starts, nothing is queued: it returns 2 while the server
-- waits for a client, and 0 before it is opened and when it is to stop.
pub sdrtcp_feed-idle :
    (junk : ℕ → ℕ) (fresh : BufferPtr) (others : WorkPool → WorkPool)
    (before_lock : SdrTcp → SdrTcp) (obj : SdrTcp) (bytes : List ℕ) (len : ℕ)
    → obj.state ≢ client_serving
    → sdrtcp_feed junk fresh others before_lock obj bytes len ≡ elim obj.state [
      | socket_open ↦ some (2, obj)
      | client_open ↦ some (2, obj)
      | client_open_started_async ↦ some (2, obj)
      | _ ↦ some (0, obj)
    ]
unfolding sdrtcp_feed
sdrtcp_feed-idle junk fresh others before_lock obj bytes len n = ground arith
