-- ===== src/SdrTcp/Sender.antt =====
-- serveClient of rtlsdr/src/main/cpp/src/sdrtcp.c: the queued buffers sent to the client.
pub mod Bytes
use rtl_tcp_andro.Base.{
  ℕ, zero, suc, ◌+◌, ◌-◌, Bool, true, false, ◌&&◌, ◌||◌, ltb, not, Option, none, some, List, [],
  ◌∷◌, ◌++◌, ◌==◌, ◌>>=◌, if◌then◌else◌, length, drop, take,
}
use Prim.Native.Nat.{min}
use rtl_tcp_andro.WorkPool.{BufferPtr, WorkPool, pool_get_wait_lock, pool_get_unlock}
use rtl_tcp_andro.SdrTcp.Memcpy.{bytes_to_send}
use rtl_tcp_andro.SdrTcp.{Stage, client_serving, needs_stopping, is_stage, SdrTcp}

-- What `select` answers: -1, 0 or 1; and what `send` answers: -1, or the bytes it took at most.
pub data Select : Type 0 where
  error timeout ready : Select

pub data Send : Type 0 where
  failed : Send
  accepted : (most : ℕ) → Send

-- One round of the inner loop, with what other threads do before the test ahead of `select`, the one
-- behind it and the one behind `send`.
pub record SendRound : Type 0 where
  pub select : Select
  pub send : Send
  pub at_select : SdrTcp → SdrTcp
  pub at_send : SdrTcp → SdrTcp
  pub at_error : SdrTcp → SdrTcp

-- The bytes of the buffer that `send` has not taken, all that the client was sent, and the number of
-- sends that failed: each takes its -1 off `bytesleft` and adds it to `index`, so `bytesleft` is
-- `length left + skew`, from `skew` bytes before the first of `left` on. The loop ends behind the first
-- failure, since then the stage is not CLIENT_SERVING, and no byte is sent from there.
pub record Sender : Type 0 where
  pub left : List ℕ
  pub sent : List ℕ
  pub skew : ℕ

-- `send` and what follows it.
unfoldable pub send_part : SendRound → Send → SdrTcp → Sender → SdrTcp × Sender
send_part r failed obj s =
    let after = r.at_error obj in
    (
      if is_stage after.state client_serving
          then record after { state = needs_stopping }
          else after,
      record s { skew = s.skew + 1 },
    )
send_part r (accepted most) obj s =
    let n = min most (length s.left) in
    (r.at_error obj, record s { left = drop n s.left; sent = s.sent ++ take n s.left })

-- The test `r && obj->state == STAGE_CLIENT_SERVING` behind `select`, which is not 0 on an error.
unfoldable pub select_part : SendRound → Select → SdrTcp → Sender → SdrTcp × Sender
unfolding send_part
select_part r timeout obj s = (r.at_send obj, s)
select_part r error obj s =
    let after = r.at_send (record obj { state = needs_stopping }) in
    if is_stage after.state client_serving then send_part r r.send after s else (after, s)
select_part r ready obj s =
    let after = r.at_send obj in
    if is_stage after.state client_serving then send_part r r.send after s else (after, s)

unfoldable pub send_round : SendRound → SdrTcp × Sender → SdrTcp × Sender
unfolding select_part
send_round r (obj, s) =
    let before = r.at_select obj in
    if is_stage before.state client_serving then select_part r r.select before s else (before, s)

abbrev pub is_empty : List ℕ → Bool
is_empty [] = true
is_empty (b ∷ bs) = false

-- The test `bytesleft > 0 && obj->state == STAGE_CLIENT_SERVING`.
abbrev pub goes_on : SdrTcp × Sender → Bool
goes_on st = (not (is_empty st.1.left) || ltb 0 st.1.skew) && is_stage st.0.state client_serving

-- The loop: over these rounds, and then one in which `select` answers -1, if it gets so far.
unfoldable pub send_loop : List SendRound → SdrTcp × Sender → SdrTcp × Sender
unfolding send_round
send_loop [] st = if goes_on st then (record st.0 { state = needs_stopping }, st.1) else st
send_loop (r ∷ rs) st = let rest = send_loop rs (send_round r st) in if goes_on st then rest else st

-- One turn of the outer loop: what other threads do before the second test of `state` and to the pool
-- while the request for a buffer waits, and the rounds of the inner loop.
pub record Turn : Type 0 where
  pub at_test : SdrTcp → SdrTcp
  pub others : WorkPool → WorkPool
  pub rounds : List SendRound

-- The turn with a buffer: its bytes are sent and it is handed back.
unfoldable pub send_buffer :
    (junk : ℕ → ℕ)
    → List SendRound
    → BufferPtr
    → SdrTcp
    → (sent : List ℕ) → Option (SdrTcp × List ℕ)
unfolding bytes_to_send send_loop pool_get_unlock
send_buffer junk rounds buff obj sent = bytes_to_send (obj.workpool.memory buff) >>= λ bytes.
    let (after, s) = send_loop rounds (obj, record { left = bytes; sent = sent; skew = 0 }) in
    pool_get_unlock junk after.workpool 1 buff >>= λ pool.
    some (record after { workpool = pool }, s.sent)

unfoldable pub serve_turn :
    (junk : ℕ → ℕ) → Turn → SdrTcp → (sent : List ℕ) → Option (SdrTcp × List ℕ)
unfolding send_buffer pool_get_wait_lock
serve_turn junk t obj sent =
    let before = t.at_test obj in
    if is_stage before.state client_serving
    then (pool_get_wait_lock 0 t.others before.workpool 1 true >>= λ (found, pool).
        let taken = record before { workpool = pool } in
        elim found [
          | none ↦ some (taken, sent)
          | some buff ↦ send_buffer junk t.rounds buff taken sent
        ])
    else some (before, sent)

-- `serveClient` over the turns to come.
unfoldable pub serve_client :
    (junk : ℕ → ℕ) → List Turn → SdrTcp → (sent : List ℕ) → Option (SdrTcp × List ℕ)
unfolding serve_turn
serve_client junk [] obj sent = some (obj, sent)
serve_client junk (t ∷ ts) obj sent =
    let rest = serve_turn junk t obj sent >>= λ (obj', sent'). serve_client junk ts obj' sent' in
    if is_stage obj.state client_serving then rest else some (obj, sent)
