-- ===== src/SdrTcp/Flow/Turns.antt =====
-- Each call of a thread around the pool of rtlsdr/src/main/cpp/src/sdrtcp.c: it does not fault, keeps the
-- bytes in order, and is a transfer of the channel.
use rtl_tcp_andro.Base.{
  ℕ, ◌+◌, ◌*◌, ◌^◌, ◌<◌, ◌≡◌, refl, true, Option, none, some, List, [], ◌∷◌, ◌++◌, ◌>>=◌,
  Bool-cases, inl, inr, if-true, if-false, length, if◌then◌else◌, if_not-false, arith, ap, sym, ◌∙◌,
}
use mathlib.Core.Path.{subst}
use mathlib.Core.List.{append-nil}
use rtl_tcp_andro.Base.Words.{IsBytes}
use rtl_tcp_andro.WorkPool.{BufferPtr, WorkPool, pool_get_unlock}
use rtl_tcp_andro.SdrTcp.{SdrTcp, client_serving, is_stage}
use rtl_tcp_andro.SdrTcp.Memcpy.{bytes_to_send, queue_bytes, fill_buffer}
use rtl_tcp_andro.SdrTcp.Memcpy.Filled.{valid-readable}
use rtl_tcp_andro.SdrTcp.Sender.{SendRound, Sender, send_loop}
use rtl_tcp_andro.SdrTcp.Sender.Bytes.{send_loop-bytes, send_loop-grows}
use rtl_tcp_andro.SdrTcp.Flow.Channel.{Transfer, write, refuse, fetch, channel, IsAllowed}
use rtl_tcp_andro.WorkPool.Conservation.{count, sum_of}
use rtl_tcp_andro.SdrTcp.Flow.{
  Flow, Action, feed, take, give, change, is_given, seen, feed_step, take_step, give_step, act,
}
use rtl_tcp_andro.SdrTcp.Flow.Order.{IsInOrder, IsFree, held_by, held, queued, or_nil}
use rtl_tcp_andro.SdrTcp.Flow.Buffers.{IsReady, feeder-request, sender-request}
use rtl_tcp_andro.SdrTcp.Flow.Steps.{fill_buffer-IsInOrder, unlock-IsInOrder}

-- The threads' state is in order.
pub record InOrder (s : Flow) : Type 0 where
  pub first : List BufferPtr
  pub second : List BufferPtr
  pub order : IsInOrder s.pool s.holding s.sent s.unsent s.fed first second
  pub live : s.state ≡ client_serving → s.unsent ≡ []

-- A step of the threads that keeps the order and is a transfer of the channel.
abbrev pub Goes : Flow → Option Flow → Type 0
Goes s r = (t : Flow) × (r ≡ some t) × InOrder t × Transfer (channel s) (channel t)

-- Nothing is read.
idle :
    (s t : Flow)
    → InOrder s
    → t.fed ≡ s.fed
    → t.sent ≡ s.sent
    → t.dropped ≡ s.dropped
    → Transfer (channel s) (channel t)
idle s t o same_fed same_sent same_dropped =
    fetch [] (s.unsent ++ (held s.pool.memory s.holding ++ queued s.pool.memory o.second)) same_fed
      (same_sent ∙ sym (append-nil s.sent))
      (ap (λ x. x ++ (s.unsent ++ (held s.pool.memory s.holding ++ queued s.pool.memory o.second)))
          same_sent
        ∙ o.order.same)
      same_dropped

serves : (s : Flow) → is_stage s.state client_serving ≡ true → s.state ≡ client_serving
serves s e = ground arith

stage_known : (obj : SdrTcp) → obj.state ≡ client_serving → is_stage obj.state client_serving ≡ true
stage_known obj e = ground arith

-- The buffer in hand can be read.
pub held-readable :
    {sent unsent fed : List ℕ} {first second : List BufferPtr} (p : WorkPool) (b : BufferPtr)
    → IsInOrder p (some b) sent unsent fed first second
    → (bytes : List ℕ) × (bytes_to_send (p.memory b) ≡ some bytes)
held-readable p b order =
    let (v, t) = order.good b (ground arith) in valid-readable (p.memory b) v t

module _ (junk : ℕ → ℕ) where
  -- The rest of a feed, behind the answer to its request.
  abbrev fed_from : List ℕ → ℕ → Flow → Option (Option BufferPtr × WorkPool) → Option Flow
  fed_from bytes len s r =
      (r >>= λ (found, pool'). elim found [
        | none ↦ some pool'
        | some buff ↦ fill_buffer junk pool' buff len bytes
      ])
      >>= λ pool. some (record s {
        pool = pool;
        fed = if is_given r then s.fed ++ bytes else s.fed;
        dropped = if is_given r then s.dropped else s.dropped ++ bytes;
      })

  fed_found :
      (bytes : List ℕ) (len : ℕ) (s : Flow) (o : InOrder s) (found : Option BufferPtr)
      (p : WorkPool) (first : List BufferPtr)
      → length bytes ≡ 2 * len
      → IsBytes bytes
      → 0 < len
      → 2 * len < 2 ^ 32
      → IsInOrder p s.holding s.sent s.unsent s.fed first o.second
      → IsReady found p s.holding first o.second
      → Goes s (fed_from bytes len s (some (found, p)))
  fed_found bytes len s o none p first size are pos small order ready = (
    record s { pool = p; dropped = s.dropped ++ bytes },
    refl,
    record { first = first; second = o.second; order = order; live = o.live },
    refuse bytes refl refl refl,
  )
  fed_found bytes len s o (some b) p first size are pos small order (free, v, t) =
      let (p', e, order') =
        fill_buffer-IsInOrder junk p b bytes len size are pos small free v t order in
      (
        record s { pool = p'; fed = s.fed ++ bytes },
        ap
            (λ (r : Option WorkPool).
              r >>= λ pool. some (record s { pool = pool; fed = s.fed ++ bytes }))
            e,
        record { first = first; second = o.second ++ b ∷ []; order = order'; live = o.live },
        write bytes refl refl refl,
      )

  not_in_use :
      (s : Flow) (o : InOrder s) (fresh : BufferPtr)
      → sum_of (count fresh) s.pool.queues + held_by s.holding fresh ≡ 0
      → IsFree fresh s.holding o.first o.second
  not_in_use s o fresh e =
      let none_of_them =
        subst (λ qs. sum_of (count fresh) qs + held_by s.holding fresh ≡ 0) o.order.queues_are e in
      omega (arith, none_of_them)

  feed_step-Goes :
      (fresh : BufferPtr) (bytes : List ℕ) (len : ℕ) (s : Flow)
      → InOrder s
      → IsAllowed s (feed fresh bytes len)
      → Goes s (feed_step junk fresh bytes len s)
  unfolding feed_step queue_bytes
  feed_step-Goes fresh bytes len s o (size, are, pos, small, unused) =
      elim (Bool-cases (is_stage s.state client_serving)) [
        | inr other ↦
            (s, if-false (is_stage s.state client_serving) _ _ other, o, idle s s o refl refl refl)
        | inl served ↦
            let (found, p, first, e, order, ready) =
              feeder-request fresh s.pool o.first (not_in_use s o fresh unused) o.order in
            let (t, done, o', transfer) =
              fed_found bytes len s o found p first size are pos small order ready in
            (
              t,
              if-true (is_stage s.state client_serving) _ _ served
                  ∙ ap (fed_from bytes len s) e
                  ∙ done,
              o',
              transfer,
            )
      ]

  take_step-Goes :
      (h : Option BufferPtr) (s : Flow) → s.holding ≡ h → InOrder s → Goes s (take_step h s)
  unfolding take_step
  take_step-Goes (some b) s e o = (s, refl, o, idle s s o refl refl refl)
  take_step-Goes none s e o = elim (Bool-cases (is_stage s.state client_serving)) [
    | inr other ↦
        (s, if-false (is_stage s.state client_serving) _ _ other, o, idle s s o refl refl refl)
    | inl served ↦
        let clear = o.live (serves s served) in
        let order : IsInOrder s.pool none s.sent [] s.fed o.first o.second =
          subst (λ u. IsInOrder s.pool none s.sent u s.fed o.first o.second) clear
            (subst (λ h. IsInOrder s.pool h s.sent s.unsent s.fed o.first o.second) e o.order) in
        let (found, p, second, answer, order') = sender-request s.pool o.first o.second order in
        let t : Flow = record s { pool = p; holding = found } in
        (
          t,
          if-true (is_stage s.state client_serving) _ _ served
              ∙ ap
                  (λ (r : Option (Option BufferPtr × WorkPool)).
                    r >>= λ (found, pool). some (record s { pool = pool; holding = found }))
                  answer,
          record {
            first = o.first;
            second = second;
            order = subst (λ u. IsInOrder p found s.sent u s.fed o.first second) (sym clear) order';
            live = o.live;
          },
          idle s t o refl refl refl,
        )
  ]

  -- What the loop makes of a buffer with these bytes.
  abbrev pub looped : SdrTcp → List SendRound → (sent bytes : List ℕ) → SdrTcp × Sender
  looped obj rounds sent bytes =
      send_loop rounds (obj, record { left = bytes; sent = sent; skew = 0 })

  -- The state behind the turn.
  abbrev pub turned : Flow → WorkPool → SdrTcp × Sender → Flow
  turned s p (after, sender) = record s {
    pool = p;
    state = after.state;
    holding = none;
    sent = sender.sent;
    unsent = sender.left;
  }

  -- The rest of a turn, behind the reading of the buffer.
  abbrev pub given_from : SdrTcp → List SendRound → BufferPtr → Flow → Option (List ℕ) → Option Flow
  given_from sockets rounds b s r = r >>= λ bytes.
      let (after, sender) = looped (seen sockets s) rounds s.sent bytes in
      pool_get_unlock junk s.pool 1 b >>= λ pool. some (turned s pool (after, sender))

  -- A turn with a buffer of these bytes.
  pub given :
      (sockets : SdrTcp) (rounds : List SendRound) (b : BufferPtr) (bytes : List ℕ) (s : Flow)
      (first second : List BufferPtr)
      → bytes_to_send (s.pool.memory b) ≡ some bytes
      → IsInOrder s.pool (some b) s.sent s.unsent s.fed first second
      → let after = looped (seen sockets s) rounds s.sent bytes in
        (p : WorkPool) × (pool_get_unlock junk s.pool 1 b ≡ some p)
        × (give_step junk sockets rounds (some b) s ≡ some (turned s p after))
        × IsInOrder p none after.1.sent after.1.left s.fed (first ++ b ∷ []) second
  unfolding give_step
  given sockets rounds b bytes s first second readable order =
      let sender : Sender = record { left = bytes; sent = s.sent; skew = 0 } in
      let after = looped (seen sockets s) rounds s.sent bytes in
      let (p, done, order') =
        unlock-IsInOrder junk s.pool b after.1.sent after.1.left
          ((send_loop-bytes rounds (seen sockets s) sender).0
            ∙ ap (λ o. s.sent ++ or_nil o) (sym readable))
          order in
      (
        p,
        done,
        ap (given_from sockets rounds b s) readable
            ∙ ap (λ (r : Option WorkPool). r >>= λ pool. some (turned s pool after)) done,
        order',
      )

  give_step-Goes :
      (sockets : SdrTcp) (rounds : List SendRound) (h : Option BufferPtr) (s : Flow)
      → s.holding ≡ h
      → InOrder s
      → Goes s (give_step junk sockets rounds h s)
  unfolding give_step
  give_step-Goes sockets rounds none s e o = (s, refl, o, idle s s o refl refl refl)
  give_step-Goes sockets rounds (some b) s e o =
      let order =
        subst (λ h. IsInOrder s.pool h s.sent s.unsent s.fed o.first o.second) e o.order in
      let (bytes, readable) = held-readable s.pool b order in
      let sender : Sender = record { left = bytes; sent = s.sent; skew = 0 } in
      let after = looped (seen sockets s) rounds s.sent bytes in
      let (p, _, done, order') = given sockets rounds b bytes s o.first o.second readable order in
      let (more, grown) = send_loop-grows rounds (seen sockets s) sender in
      (
        turned s p after,
        done,
        record {
          first = o.first ++ b ∷ [];
          second = o.second;
          order = order';
          live = λ e.
              if_not-false (is_stage after.0.state client_serving)
                (send_loop-bytes rounds (seen sockets s) sender).1 (stage_known after.0 e);
        },
        fetch more (after.1.left ++ queued p.memory o.second) refl grown order'.same refl,
      )

  -- From a state in order, the threads' calls do not fault: a feed of whole cells, of less than 2^32
  -- bytes, with a buffer from malloc that is not in use, a request of the server's thread, its turn
  -- with the buffer, and a change of the stage to another than CLIENT_SERVING. They keep the pool and
  -- the bytes in order, leave no rest of a buffer unsent in stage CLIENT_SERVING, and are a transfer of
  -- the channel: bytes are queued behind all others, dropped as a whole, or read next.
  pub act-Goes : (a : Action) (s : Flow) → InOrder s → IsAllowed s a → Goes s (act junk a s)
  unfolding act
  act-Goes (feed fresh bytes len) s o allowed = feed_step-Goes fresh bytes len s o allowed
  act-Goes take s o allowed = take_step-Goes s.holding s refl o
  act-Goes (give sockets rounds) s o allowed = give_step-Goes sockets rounds s.holding s refl o
  act-Goes (change stage) s o allowed =
      let t : Flow = record s { state = stage } in
      (
        t,
        refl,
        record {
          first = o.first;
          second = o.second;
          order = o.order;
          live = λ e. absurd (allowed e);
        },
        idle s t o refl refl refl,
      )
