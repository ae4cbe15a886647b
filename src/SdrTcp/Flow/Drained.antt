-- ===== src/SdrTcp/Flow/Drained.antt =====
-- What is on its way through the pool of rtlsdr/src/main/cpp/src/workpool.c arrives: the server's thread can
-- always send all of it.
use mathlib.Core.Path.{subst}
use mathlib.Core.List.{append-nil}
use rtl_tcp_andro.Base.{
  ℕ, ◌≡◌, refl, Option, none, some, List, [], ◌∷◌, ◌++◌, ◌>>=◌, map, set, get_elem?, if-true, true,
  arith, ap, sym, ◌∙◌,
}
use rtl_tcp_andro.WorkPool.{BufferPtr, WorkPool}
use rtl_tcp_andro.SdrTcp.{SdrTcp, client_serving, is_stage}
use rtl_tcp_andro.SdrTcp.Sender.{Sender}
use rtl_tcp_andro.SdrTcp.Sender.Bytes.{delivery, send_loop_all}
use rtl_tcp_andro.SdrTcp.Flow.{Flow, take, give, seen, take_step, give_step, act}
use rtl_tcp_andro.SdrTcp.Flow.Channel.{Reach, here, next}
use rtl_tcp_andro.SdrTcp.Flow.Order.{IsInOrder}
use rtl_tcp_andro.SdrTcp.Flow.Buffers.{request-nonempty, taken-IsInOrder}
use rtl_tcp_andro.SdrTcp.Flow.Turns.{InOrder, turned, given, held-readable}

module _ (junk : ℕ → ℕ) where
  Reach_trans : {s t u : Flow} → Reach junk s t → Reach junk t u → Reach junk s u
  Reach_trans r here = r
  Reach_trans r (next r' a allowed e) = next (Reach_trans r r') a allowed e

  -- All that was fed is sent, and nothing was fed in between.
  abbrev pub Drains : Flow → Type 0
  Drains s = (t : Flow) × Reach junk s t × (t.fed ≡ s.fed) × (t.sent ≡ s.fed)

  module _ (sockets : SdrTcp) where
    -- A turn with a client that takes everything.
    given_all :
        (b : BufferPtr) (s : Flow) (first second : List BufferPtr)
        → s.state ≡ client_serving
        → s.holding ≡ some b
        → IsInOrder s.pool (some b) s.sent s.unsent s.fed first second
        → (t : Flow) × Reach junk s t
          × (t.state ≡ client_serving)
          × (t.holding ≡ none)
          × (t.unsent ≡ [])
          × (t.fed ≡ s.fed)
          × IsInOrder t.pool none t.sent [] t.fed (first ++ b ∷ []) second
    unfolding act
    given_all b s first second serves e order =
        let (bytes, readable) = held-readable s.pool b order in
        let rounds = map delivery bytes in
        let (p, _, done, order') =
          given junk sockets rounds b bytes s first second readable order in
        let all = send_loop_all bytes (seen sockets s) bytes s.sent serves (omega arith) in
        (
          turned junk s p (seen sockets s, record { left = []; sent = s.sent ++ bytes; skew = 0 }),
          next here (give sockets rounds) tt (
              ap (λ h. give_step junk sockets rounds h s) e
              ∙ done
              ∙ ap (λ (r : SdrTcp × Sender). some (turned junk s p r)) all),
          serves,
          refl,
          refl,
          refl,
          subst
              (λ (r : SdrTcp × Sender).
                IsInOrder p none r.1.sent r.1.left s.fed (first ++ b ∷ []) second)
              all order',
        )

    drain_queue :
        (second : List BufferPtr) (s : Flow) (first : List BufferPtr)
        → s.state ≡ client_serving
        → s.holding ≡ none
        → s.unsent ≡ []
        → IsInOrder s.pool none s.sent [] s.fed first second
        → Drains s
    unfolding act take_step
    drain_queue [] s first serves e clear order =
        (s, here, refl, sym (append-nil s.sent) ∙ order.same)
    drain_queue (b ∷ rest) s first serves e clear order =
        let t : Flow = record s {
          pool = record s.pool { queues = set s.pool.queues 1 rest };
          holding = some b;
        } in
        let served : is_stage s.state client_serving ≡ true = ground arith in
        let taken : act junk take s ≡ some t =
          ap (λ h. take_step h s) e
          ∙ if-true (is_stage s.state client_serving) _ _ served
          ∙ ap
              (λ (r : Option (Option BufferPtr × WorkPool)).
                r >>= λ (found, pool). some (record s { pool = pool; holding = found }))
              (request-nonempty 0 s.pool 1 b rest order.valid
                (ap (λ qs. get_elem? qs 1) order.queues_are)) in
        let (u, gave, still, empty, clear', fed, order') = given_all b t first rest serves refl (
          subst (λ u. IsInOrder t.pool (some b) t.sent u t.fed first rest) (sym clear)
            (taken-IsInOrder s.pool b first rest order)) in
        let (v, reached, same_fed, all_sent) =
          drain_queue rest u (first ++ b ∷ []) still empty clear' order' in
        (
          v,
          Reach_trans (Reach_trans (next here take tt taken) gave) reached,
          same_fed ∙ fed,
          all_sent ∙ fed,
        )

    drain_held :
        (h : Option BufferPtr) (s : Flow)
        → s.holding ≡ h
        → s.state ≡ client_serving
        → InOrder s
        → Drains s
    drain_held none s e serves o = drain_queue o.second s o.first serves e (o.live serves) (
        subst (λ u. IsInOrder s.pool none s.sent u s.fed o.first o.second) (o.live serves)
          (subst (λ h. IsInOrder s.pool h s.sent s.unsent s.fed o.first o.second) e o.order))
    drain_held (some b) s e serves o =
        let (t, gave, still, empty, clear, fed, order) =
          given_all b s o.first o.second serves e
            (subst (λ h. IsInOrder s.pool h s.sent s.unsent s.fed o.first o.second) e o.order) in
        let (u, reached, same_fed, all_sent) =
          drain_queue o.second t (o.first ++ b ∷ []) still empty clear order in
        (u, Reach_trans gave reached, same_fed ∙ fed, all_sent ∙ fed)

    -- From a state in order in stage CLIENT_SERVING, the threads can reach a state where all that was
    -- queued is sent, with nothing queued in between.
    pub flow-Drains : (s : Flow) → InOrder s → s.state ≡ client_serving → Drains s
    flow-Drains s o serves = drain_held s.holding s refl serves o
