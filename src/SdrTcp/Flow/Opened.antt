-- ===== src/SdrTcp/Flow/Opened.antt =====
-- The stream that a client of rtlsdr/src/main/cpp/src/sdrtcp.c gets, from the opening of the socket on.
use rtl_tcp_andro.Base.{
  ℕ, ◌≤◌, ◌≡◌, refl, Option, none, some, List, [], ◌∷◌, ◌>>=◌, length, arith, ap, sym, ◌∙◌,
}
use mathlib.Core.Path.{subst}
use rtl_tcp_andro.Base.Words.{IsBytes}
use rtl_tcp_andro.ExtBuffer.{ExtBuffer}
use rtl_tcp_andro.WorkPool.{BufferPtr, WorkPool}
use rtl_tcp_andro.SdrTcp.{SdrTcp, initialized, client_serving}
use rtl_tcp_andro.SdrTcp.Memcpy.{fill_buffer, queue_bytes}
use rtl_tcp_andro.SdrTcp.Open.{dongle_info, prepare_pool}
use rtl_tcp_andro.SdrTcp.Open.Outcome.{
  new_pool, with_buffer, set_threads-new, first_buffer, new_container, dongle_info-length,
  dongle_info-IsBytes,
}
use rtl_tcp_andro.SdrTcp.Flow.{Flow}
use rtl_tcp_andro.SdrTcp.Flow.Channel.{Reach}
use rtl_tcp_andro.SdrTcp.Flow.Order.{IsInOrder}
use rtl_tcp_andro.SdrTcp.Flow.Steps.{fill_buffer-IsInOrder}
use rtl_tcp_andro.SdrTcp.Flow.Turns.{InOrder}
use rtl_tcp_andro.SdrTcp.Flow.Delivered.{IsExtended, Reach-IsExtended}

-- The threads' state when the first client is served, before any feed: the dongle's description is queued and nothing was sent.
abbrev pub opened_flow : WorkPool → (info : List ℕ) → Flow
opened_flow pool info = record {
  pool = pool;
  state = client_serving;
  holding = none;
  fed = info;
  dropped = [];
  sent = [];
  unsent = [];
}

with_buffer-IsInOrder :
    (memory : BufferPtr → ExtBuffer) (fresh : BufferPtr)
    → IsInOrder (with_buffer memory fresh) none [] [] [] [] []
with_buffer-IsInOrder memory fresh = record {
  valid = refl;
  two = refl;
  ushorts = refl;
  queues_are = refl;
  once = λ a. omega arith;
  good = λ a n. absurd (omega (arith, n));
  clear = tt;
  same = refl;
}

same_state : {s t : SdrTcp} → some s ≡ some t → s ≡ t
same_state e = cc

module _ (junk : ℕ → ℕ) (fresh : BufferPtr) (obj : SdrTcp) (magic : List ℕ) (t g : ℕ)
    (four : 4 ≤ length magic) (bytes : IsBytes magic) where
  queued_info :
      (p : WorkPool) × (queue_bytes junk fresh
          (λ p. p)
          (new_pool obj.workpool.memory)
          6
          (dongle_info magic t g)
        ≡ some p)
      × IsInOrder p none [] [] (dongle_info magic t g) [] (fresh ∷ [])
  unfolding queue_bytes
  queued_info =
      let info = dongle_info magic t g in
      let memory = obj.workpool.memory in
      let (v, u) = new_container memory fresh in
      let (p, filled, order) =
        fill_buffer-IsInOrder junk (with_buffer memory fresh) fresh info 6
          (dongle_info-length magic t g four) (dongle_info-IsBytes magic t g four bytes)
          (omega arith) (omega arith) refl v u (with_buffer-IsInOrder memory fresh) in
      (
        p,
        ap
              (λ (r : Option (Option BufferPtr × WorkPool)). r >>= λ (found, pool'). elim found [
                | none ↦ some pool'
                | some buff ↦ fill_buffer junk pool' buff 6 info
              ])
              (first_buffer memory fresh)
            ∙ filled,
        order,
      )

  prepared-InOrder :
      (obj' : SdrTcp)
      → prepare_pool junk fresh obj (dongle_info magic t g) ≡ some obj'
      → InOrder (opened_flow obj'.workpool (dongle_info magic t g))
  unfolding prepare_pool
  prepared-InOrder obj' e =
      let info = dongle_info magic t g in
      let (p, queued, order) = queued_info in
      let prepared : some (record obj { workpool = p; state = initialized }) ≡ some obj' =
        sym (
          ap
            (λ (p : WorkPool). queue_bytes junk fresh (λ q. q) p 6 info >>= λ pool'.
              some (record obj { workpool = pool'; state = initialized }))
            (set_threads-new obj.workpool.memory)
          ∙ ap
              (λ (o : Option WorkPool).
                o >>= λ pool'. some (record obj { workpool = pool'; state = initialized }))
              queued)
        ∙ e in
      subst (λ (s : SdrTcp). InOrder (opened_flow s.workpool info)) (same_state prepared)
        (record { first = []; second = fresh ∷ []; order = order; live = λ e. refl })

  -- Once `sdrtcp_open_socket` has prepared its pool, with a magic of at least four bytes, and its client
  -- is served, the stream that the client gets is at all times a beginning of the dongle's description
  -- followed by the feeds that were queued since, each whole and in order (a feed that finds no buffer is
  -- dropped as a whole), in whatever order the threads feed whole cells, of less than 2^32 bytes, with
  -- buffers from malloc that are not in use, take, send with any answers of the socket, and change the
  -- stage to another than CLIENT_SERVING.
  pub client_stream :
      (obj' : SdrTcp) (s : Flow)
      → prepare_pool junk fresh obj (dongle_info magic t g) ≡ some obj'
      → Reach junk (opened_flow obj'.workpool (dongle_info magic t g)) s
      → IsExtended (dongle_info magic t g) s.fed × IsExtended s.sent s.fed
  client_stream obj' s e r =
      let (fed, _, stream) = Reach-IsExtended junk _ s (prepared-InOrder obj' e) r in (fed, stream)
