-- ===== src/SdrTcp/Server/Serving.antt =====
-- serveClient of rtlsdr/src/main/cpp/src/sdrtcp.c with a client, among threads that keep the pool in order:
-- it does not fault and leaves the pool in order.
use rtl_tcp_andro.Base.{ℕ, ◌≡◌, refl, Option, none, some, List, [], ◌∷◌, ◌>>=◌, if-both, ap, ◌∙◌}
use rtl_tcp_andro.WorkPool.{BufferPtr, WorkPool}
use rtl_tcp_andro.SdrTcp.{client_serving, client_open, needs_stopping, is_stage, SdrTcp}
use rtl_tcp_andro.SdrTcp.Sender.{
  Sender, SendRound, Select, error, timeout, ready, Send, failed, accepted, send_part, select_part,
  send_round, goes_on, send_loop, Turn, send_buffer, serve_turn, serve_client,
}
use rtl_tcp_andro.SdrTcp.Server.{AcceptRound, serve_accepted}
use rtl_tcp_andro.SdrTcp.Server.SafePool.{
  IsReadable, IsFound, IsSafePool, KeepsPool, wait_lock-total, unlock-total,
}

abbrev pub IsSafe : SdrTcp → Type 0
IsSafe obj = IsSafePool obj.workpool

-- Other threads may do all that leaves the pool in order; they may also free it.
abbrev pub Keeps : (SdrTcp → SdrTcp) → Type 0
Keeps f = (obj : SdrTcp) → IsSafe obj → IsSafe (f obj)

pub record KeepsRound (r : SendRound) : Type 0 where
  pub at_select : Keeps r.at_select
  pub at_send : Keeps r.at_send
  pub at_error : Keeps r.at_error

abbrev pub KeepsRounds : List SendRound → Type 0
KeepsRounds [] = Unit {0}
KeepsRounds (r ∷ rs) = KeepsRound r × KeepsRounds rs

pub record KeepsTurn (t : Turn) : Type 0 where
  pub at_test : Keeps t.at_test
  pub others : KeepsPool t.others
  pub rounds : KeepsRounds t.rounds

abbrev pub KeepsTurns : List Turn → Type 0
KeepsTurns [] = Unit {0}
KeepsTurns (t ∷ ts) = KeepsTurn t × KeepsTurns ts

pub record KeepsAccept (r : AcceptRound) : Type 0 where
  pub at_select : Keeps r.at_select
  pub at_accept : Keeps r.at_accept

abbrev pub KeepsAccepts : List AcceptRound → Type 0
KeepsAccepts [] = Unit {0}
KeepsAccepts (r ∷ rs) = KeepsAccept r × KeepsAccepts rs

abbrev SafeSender : SdrTcp × Sender → Type 0
SafeSender st = IsSafe st.0

send_part-SafeSender :
    (r : SendRound) (answer : Send) (obj : SdrTcp) (s : Sender)
    → KeepsRound r
    → IsSafe obj
    → SafeSender (send_part r answer obj s)
unfolding send_part
send_part-SafeSender r failed obj s k h =
    if-both IsSafe (is_stage (r.at_error obj).state client_serving) (k.at_error obj h)
      (k.at_error obj h)
send_part-SafeSender r (accepted most) obj s k h = k.at_error obj h

select_part-SafeSender :
    (r : SendRound) (answer : Select) (obj : SdrTcp) (s : Sender)
    → KeepsRound r
    → IsSafe obj
    → SafeSender (select_part r answer obj s)
unfolding select_part
select_part-SafeSender r timeout obj s k h = k.at_send obj h
select_part-SafeSender r error obj s k h =
    let after = r.at_send (record obj { state = needs_stopping }) in
    let safe = k.at_send (record obj { state = needs_stopping }) h in
    if-both SafeSender (is_stage after.state client_serving)
      (send_part-SafeSender r r.send after s k safe) safe
select_part-SafeSender r ready obj s k h =
    let after = r.at_send obj in
    if-both SafeSender (is_stage after.state client_serving)
      (send_part-SafeSender r r.send after s k (k.at_send obj h)) (k.at_send obj h)

send_round-SafeSender :
    (r : SendRound) (st : SdrTcp × Sender)
    → KeepsRound r
    → SafeSender st
    → SafeSender (send_round r st)
unfolding send_round
send_round-SafeSender r (obj, s) k h =
    let before = r.at_select obj in
    if-both SafeSender (is_stage before.state client_serving)
      (select_part-SafeSender r r.select before s k (k.at_select obj h)) (k.at_select obj h)

send_loop-SafeSender :
    (rs : List SendRound) (st : SdrTcp × Sender)
    → KeepsRounds rs
    → SafeSender st
    → SafeSender (send_loop rs st)
unfolding send_loop
send_loop-SafeSender [] st k h = if-both SafeSender (goes_on st) h h
send_loop-SafeSender (r ∷ rs) st (k, ks) h =
    if-both SafeSender _
      (send_loop-SafeSender rs (send_round r st) ks (send_round-SafeSender r st k h)) h

-- A result, with the pool in order.
abbrev pub IsServing : Option (SdrTcp × List ℕ) → Type 0
IsServing o = (obj : SdrTcp) × (sent : List ℕ) × (o ≡ some (obj, sent)) × IsSafe obj

IsServing-path : {o o' : Option (SdrTcp × List ℕ)} → o ≡ o' → IsServing o' → IsServing o
IsServing-path same (obj, sent, e, h) = (obj, sent, same ∙ e, h)

module _ (junk : ℕ → ℕ) where
  send_buffer-total :
      (rounds : List SendRound) (b : BufferPtr) (obj : SdrTcp) (sent : List ℕ)
      → KeepsRounds rounds
      → IsSafe obj
      → IsReadable (obj.workpool.memory b)
      → IsServing (send_buffer junk rounds b obj sent)
  unfolding send_buffer
  send_buffer-total rounds b obj sent k h (bytes, there) =
      let looped = send_loop rounds (obj, record { left = bytes; sent = sent; skew = 0 }) in
      let (p', unlocked, safe) =
        unlock-total junk looped.0.workpool b
          (send_loop-SafeSender rounds (obj, record { left = bytes; sent = sent; skew = 0 }) k h) in
      (record looped.0 { workpool = p' }, looped.1.sent, rw (there, unlocked) refl, safe)

  -- What follows the request for a buffer.
  after_request :
      Turn → SdrTcp → (sent : List ℕ) → Option BufferPtr × WorkPool → Option (SdrTcp × List ℕ)
  after_request t before sent (found, pool) = elim found [
    | none ↦ some (record before { workpool = pool }, sent)
    | some buff ↦ send_buffer junk t.rounds buff (record before { workpool = pool }) sent
  ]

  after_request-total :
      (t : Turn) (before : SdrTcp) (sent : List ℕ) (found : Option BufferPtr) (pool : WorkPool)
      → KeepsTurn t
      → IsSafePool pool
      → IsFound found pool
      → IsServing (after_request t before sent (found, pool))
  unfolding after_request
  after_request-total t before sent none pool k h r =
      (record before { workpool = pool }, sent, refl, h)
  after_request-total t before sent (some b) pool k h r =
      send_buffer-total t.rounds b (record before { workpool = pool }) sent k.rounds h r

  serve_turn-total :
      (t : Turn) (obj : SdrTcp) (sent : List ℕ)
      → KeepsTurn t
      → IsSafe obj
      → IsServing (serve_turn junk t obj sent)
  unfolding serve_turn after_request
  serve_turn-total t obj sent k h =
      let before = t.at_test obj in
      let (found, pool, e, safe, there) =
        wait_lock-total t.others k.others before.workpool (k.at_test obj h) in
      if-both IsServing (is_stage before.state client_serving)
        (IsServing-path
          (ap (λ (o : Option (Option BufferPtr × WorkPool)). o >>= after_request t before sent) e)
          (after_request-total t before sent found pool k safe there))
        (before, sent, refl, k.at_test obj h)

  serve_client-total :
      (ts : List Turn) (obj : SdrTcp) (sent : List ℕ)
      → KeepsTurns ts
      → IsSafe obj
      → IsServing (serve_client junk ts obj sent)
  unfolding serve_client
  serve_client-total [] obj sent k h = (obj, sent, refl, h)
  serve_client-total (t ∷ ts) obj sent (k, ks) h =
      let (obj', sent', e, safe) = serve_turn-total t obj sent k h in
      if-both IsServing (is_stage obj.state client_serving)
        (IsServing-path
          (ap
            (λ (o : Option (SdrTcp × List ℕ)).
              o >>= λ (obj', sent'). serve_client junk ts obj' sent')
            e)
          (serve_client-total ts obj' sent' ks safe))
        (obj, sent, refl, h)

  pub serve_accepted-total :
      (at_mark : SdrTcp → SdrTcp) (ts : List Turn) (obj : SdrTcp)
      → Keeps at_mark
      → KeepsTurns ts
      → IsSafe obj
      → IsServing (serve_accepted junk at_mark ts obj)
  unfolding serve_accepted
  serve_accepted-total at_mark ts obj m k h =
      if-both IsServing (is_stage obj.state client_open)
        (serve_client-total ts (record (at_mark obj) { state = client_serving }) [] k (m obj h))
        (obj, [], refl, h)
