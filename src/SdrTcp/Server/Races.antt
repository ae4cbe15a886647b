-- ===== src/SdrTcp/Server/Races.antt =====
-- Ends of the server of rtlsdr/src/main/cpp/src/sdrtcp.c: what is closed, and a stop that is lost.
use rtl_tcp_andro.Base.{
  ℕ, zero, suc, ◌≡◌, ◌≢◌, refl, true, false, Option, none, some, List, [], ◌∷◌, ◌>>=◌, arith, ap,
  ◌∙◌, if-true, if-false,
}
use rtl_tcp_andro.WorkPool.{WorkPool, pool_free, pool_get_wait_lock}
use rtl_tcp_andro.SdrTcp.{
  uninitialized, initialized, socket_open, client_open, client_open_started_async, client_serving,
  needs_stopping, is_stage, close_socket, SdrTcp, sdrtcp_cleanup, sdrtcp_stop_serving_client,
}
use rtl_tcp_andro.SdrTcp.Sender.{Turn, serve_turn, serve_client}
use rtl_tcp_andro.SdrTcp.Server.{serve_accepted}

pool_free-valid : (p : WorkPool) → (pool_free p).valid ≡ false
unfolding pool_free
pool_free-valid p = refl

-- From every stage but UNINITIALIZED, `sdrtcp_cleanup` leaves stage UNINITIALIZED, a pool that is not
-- valid and no sockets, and closes the listening socket if it is open and nothing else: the client's
-- descriptor is dropped without being closed.
pub sdrtcp_cleanup_lem :
    (obj : SdrTcp)
    → obj.state ≢ uninitialized
    → ((sdrtcp_cleanup obj).0.state ≡ uninitialized)
      × ((sdrtcp_cleanup obj).0.workpool.valid ≡ false)
      × ((sdrtcp_cleanup obj).0.client_socket ≡ none)
      × ((sdrtcp_cleanup obj).0.listen_socket ≡ none)
      × ((sdrtcp_cleanup obj).1 ≡ close_socket obj.listen_socket)
unfolding sdrtcp_cleanup
sdrtcp_cleanup_lem obj n = ground (arith, pool_free-valid obj.workpool)

-- `sdrtcp_stop_serving_client` does nothing in stage UNINITIALIZED. Before the server thread has been
-- started, and in stage CLIENT_OPEN, it cleans up at once; later it only asks the thread to stop.
pub sdrtcp_stop_serving_client_lem :
    (obj : SdrTcp)
    → sdrtcp_stop_serving_client obj ≡ elim obj.state [
      | uninitialized ↦ (obj, [])
      | initialized ↦ sdrtcp_cleanup obj
      | socket_open ↦ sdrtcp_cleanup obj
      | client_open ↦ sdrtcp_cleanup obj
      | client_open_started_async ↦ (record obj { state = needs_stopping }, [])
      | client_serving ↦ (record obj { state = needs_stopping }, [])
      | needs_stopping ↦ (record obj { state = needs_stopping }, [])
    ]
unfolding sdrtcp_stop_serving_client
sdrtcp_stop_serving_client_lem obj = ground arith

-- A turn in which no other thread does anything.
abbrev pub idle_turn : Turn
idle_turn = record { at_test = λ o. o; others = λ p. p; rounds = [] }

abbrev pub idle_turns : ℕ → List Turn
idle_turns zero = []
idle_turns (suc n) = idle_turn ∷ idle_turns n

freed_request :
    (p : WorkPool) → p.valid ≡ false → pool_get_wait_lock 0 (λ q. q) p 1 true ≡ some (none, p)
unfolding pool_get_wait_lock
freed_request p v = if-false p.valid _ _ v

idle_serving :
    (junk : ℕ → ℕ) (obj : SdrTcp) (sent : List ℕ)
    → obj.state ≡ client_serving
    → obj.workpool.valid ≡ false
    → serve_turn junk idle_turn obj sent ≡ some (obj, sent)
unfolding serve_turn
idle_serving junk obj sent e v =
    if-true (is_stage obj.state client_serving) _ _ (ground arith)
    ∙ rw (freed_request obj.workpool v)

client_end :
    (junk : ℕ → ℕ) (obj : SdrTcp) (sent : List ℕ) → serve_client junk [] obj sent ≡ some (obj, sent)
unfolding serve_client
client_end junk obj sent = refl

client_step :
    (junk : ℕ → ℕ) (t : Turn) (ts : List Turn) (obj : SdrTcp) (sent : List ℕ)
    → obj.state ≡ client_serving
    → serve_client junk (t ∷ ts) obj sent
      ≡ (serve_turn junk t obj sent >>= λ (obj', sent'). serve_client junk ts obj' sent')
unfolding serve_client
client_step junk t ts obj sent e = if-true (is_stage obj.state client_serving) _ _ (ground arith)

idle_forever :
    (junk : ℕ → ℕ) (n : ℕ) (obj : SdrTcp) (sent : List ℕ)
    → obj.state ≡ client_serving
    → obj.workpool.valid ≡ false
    → serve_client junk (idle_turns n) obj sent ≡ some (obj, sent)
idle_forever junk zero obj sent e v = client_end junk obj sent
idle_forever junk (suc n) obj sent e v =
    client_step junk idle_turn (idle_turns n) obj sent e
    ∙ ap
        (λ (o : Option (SdrTcp × List ℕ)).
          o >>= λ (obj', sent'). serve_client junk (idle_turns n) obj' sent')
        (idle_serving junk obj sent e v)
    ∙ idle_forever junk n obj sent e v

stopped_open :
    (obj : SdrTcp)
    → obj.state ≡ client_open
    → ((sdrtcp_stop_serving_client obj).0.workpool.valid ≡ false)
      × ((sdrtcp_stop_serving_client obj).0.client_socket ≡ none)
unfolding sdrtcp_stop_serving_client sdrtcp_cleanup
stopped_open obj e = ground (arith, pool_free-valid obj.workpool)

-- A stop that comes between the test for CLIENT_OPEN in `tcp_server` and its write of CLIENT_SERVING is
-- lost: the server goes on in stage CLIENT_SERVING with no socket and a freed pool, turn after turn.
pub stop_lost :
    (junk : ℕ → ℕ) (n : ℕ) (obj : SdrTcp)
    → obj.state ≡ client_open
    → (obj' : SdrTcp) × (serve_accepted junk
          (λ o. (sdrtcp_stop_serving_client o).0)
          (idle_turns n)
          obj
        ≡ some (obj', []))
      × (obj'.state ≡ client_serving)
      × (obj'.workpool.valid ≡ false)
      × (obj'.client_socket ≡ none)
unfolding serve_accepted
stop_lost junk n obj e =
    let stopped = (sdrtcp_stop_serving_client obj).0 in
    let obj' : SdrTcp = record stopped { state = client_serving } in
    let fields = stopped_open obj e in
    (
      obj',
      if-true (is_stage obj.state client_open) _ _ (ground arith)
          ∙ idle_forever junk n obj' [] refl fields.0,
      refl,
      fields.0,
      fields.1,
    )
