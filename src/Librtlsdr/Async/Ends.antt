-- ===== src/Librtlsdr/Async/Ends.antt =====
-- How the stream of samples of rtlsdr/src/main/cpp/librtlsdr/src/librtlsdr.c ends: a lost device, too
-- many errors, and a cancellation.
use rtl_tcp_andro.Base.{
  ℕ, zero, suc, ◌+◌, ◌%◌, ◌^◌, ◌≤◌, ◌<◌, ◌≡◌, ◌≢◌, refl, Bool, true, false, ◌||◌, List, [], ◌∷◌,
  leb, length, arith, sym, ap, ◌∙◌, if-true, if-false, if-both, Bool-cases, inl, inr,
}
use rtl_tcp_andro.Base.Int.{ℤ, is_negative}
use rtl_tcp_andro.Librtlsdr.Async.{
  AsyncStatus, inactive, canceling, error, is_inactive, is_canceling, is_cancelled, Stream,
  count_errors, libusb_callback, Event, set_status, handle_events, Cancel, LoopState,
  cancel_transfer, cancel_transfers, EventRound, after_cancel, cancel_round, event_round,
  event_loop,
}
use rtl_tcp_andro.Librtlsdr.Async.Callbacks.{
  IsTold, handle_events-IsTold, lose_device-lost, handle_events-lost, handle_events-gone,
  handle_events-canceling, has_no_device,
}

cancel_transfer-lost :
    (c : Cancel) (i : ℕ) (l : LoopState)
    → l.0.dev_lost ≡ true
    → (cancel_transfer c i l).0.dev_lost ≡ true
unfolding cancel_transfer
cancel_transfer-lost c i (s, r, next) h =
    if-both (λ (l : LoopState). l.0.dev_lost ≡ true) (is_cancelled (s.statuses i)) h
      (handle_events-lost c.events s h)

cancel_transfers-lost :
    (c : ℕ → Cancel) (i n : ℕ) (l : LoopState)
    → l.0.dev_lost ≡ true
    → (cancel_transfers c i n l).0.dev_lost ≡ true
unfolding cancel_transfers
cancel_transfers-lost c i zero l h = h
cancel_transfers-lost c i (suc n) l h =
    cancel_transfers-lost c (i + 1) n (cancel_transfer (c i) i l) (cancel_transfer-lost (c i) i l h)

after_cancel-lost :
    (e : EventRound) (l : LoopState)
    → l.0.dev_lost ≡ true
    → ((after_cancel e l).1 ≡ false) × ((after_cancel e l).0.0.dev_lost ≡ true)
unfolding after_cancel
after_cancel-lost e (s, r, next) h =
    let ends =
      if-true (s.dev_lost || is_inactive next) ((handle_events e.last s, r, next), false)
        ((s, r, next), true) (ap (λ b. b || is_inactive next) h) in
    (
      ap (λ (t : LoopState × Bool). t.1) ends,
      ap (λ (t : LoopState × Bool). t.0.0.dev_lost) ends ∙ handle_events-lost e.last s h,
    )

cancel_round-lost :
    (e : EventRound) (s : Stream)
    → s.dev_lost ≡ true
    → ((cancel_round e s).1 ≡ false) × ((cancel_round e s).0.0.dev_lost ≡ true)
unfolding cancel_round
cancel_round-lost e s h =
    after_cancel-lost e (cancel_transfers e.cancels 0 s.xfer_buf_num (s, e.result, inactive))
      (cancel_transfers-lost e.cancels 0 s.xfer_buf_num (s, e.result, inactive) h)

-- A round whose call succeeds and that finds the stream in status CANCELING.
event_round-cancel :
    (e : EventRound) (s : Stream) (r : ℤ) (next : AsyncStatus)
    → is_negative e.result ≡ false
    → (handle_events e.events s).async_status ≡ canceling
    → event_round e (s, r, next) ≡ cancel_round e (handle_events e.events s)
unfolding event_round
event_round-cancel e s r next fine c =
    if-false (is_negative e.result) _ _ fine
    ∙ if-true (is_canceling (handle_events e.events s).async_status) _ _ (ap is_canceling c)

event_loop-ends :
    (e : EventRound) (es : List EventRound) (l : LoopState)
    → l.0.async_status ≢ inactive
    → (event_round e l).1 ≡ false
    → event_loop (e ∷ es) l ≡ (event_round e l).0
unfolding event_loop
event_loop-ends e es l live stops =
    if-false (is_inactive l.0.async_status) _ _ (ground arith)
    ∙ if-false (event_round e l).1 _ _ stops

-- A transfer that says that the device is gone, in a round whose call succeeds, ends the loop in that
-- round, whatever libusb answers to the cancellation, and the device is lost.
pub event_loop_lost :
    (e : EventRound) (es : List EventRound) (s : Stream) (r : ℤ) (next : AsyncStatus)
    → IsTold s
    → is_negative e.result ≡ false
    → has_no_device e.events ≡ true
    → (event_loop (e ∷ es) (s, r, next) ≡ (event_round e (s, r, next)).0)
      × ((event_loop (e ∷ es) (s, r, next)).0.dev_lost ≡ true)
event_loop_lost e es s r next told fine gone =
    let handled = handle_events e.events s in
    let lost = handle_events-gone e.events s gone in
    let round =
      event_round-cancel e s r next fine ((handle_events-IsTold e.events s told).told lost) in
    let (stops, stays) = cancel_round-lost e handled lost in
    let ends =
      event_loop-ends e es (s, r, next) told.live
        (ap (λ (t : LoopState × Bool). t.1) round ∙ stops) in
    (
      ends,
      ap (λ (l : LoopState). l.0.dev_lost) (ends ∙ ap (λ (t : LoopState × Bool). t.0) round)
          ∙ stays,
    )

all_cancelled :
    (c : ℕ → Cancel) (i n : ℕ) (l : LoopState)
    → ((j : ℕ) → j < i + n → is_cancelled (l.0.statuses j) ≡ true)
    → cancel_transfers c i n l ≡ l
unfolding cancel_transfers cancel_transfer
all_cancelled c i zero l h = refl
all_cancelled c i (suc n) l h =
    ap (cancel_transfers c (i + 1) n)
      (if-true (is_cancelled (l.0.statuses i)) l _ (h i (omega arith)))
    ∙ all_cancelled c (i + 1) n l (λ j k. h j (omega arith))

after_cancel-inactive :
    (e : EventRound) (s : Stream) (r : ℤ)
    → after_cancel e (s, r, inactive) ≡ ((handle_events e.last s, r, inactive), false)
unfolding after_cancel
after_cancel-inactive e s r = elim (Bool-cases s.dev_lost) [ inl t ↦ rw t | inr f ↦ rw f ]

-- In status CANCELING, a round whose call succeeds and behind whose events every transfer is cancelled
-- ends the loop: the result is that of the call, and the stream ends INACTIVE, so that a close need not
-- wait.
pub event_loop_cancelled :
    (e : EventRound) (es : List EventRound) (s : Stream) (r : ℤ) (next : AsyncStatus)
    → s.async_status ≡ canceling
    → is_negative e.result ≡ false
    → ((i : ℕ)
        → i < (handle_events e.events s).xfer_buf_num
        → is_cancelled ((handle_events e.events s).statuses i) ≡ true)
    → event_loop (e ∷ es) (s, r, next)
      ≡ (handle_events e.last (handle_events e.events s), e.result, inactive)
unfolding cancel_round
event_loop_cancelled e es s r next c fine all =
    let handled = handle_events e.events s in
    let round =
      event_round-cancel e s r next fine (handle_events-canceling e.events s c)
      ∙ ap (after_cancel e) (
          all_cancelled e.cancels 0 handled.xfer_buf_num (handled, e.result, inactive)
            (λ j k. all j (omega arith)))
      ∙ after_cancel-inactive e handled e.result in
    event_loop-ends e es (s, r, next) (λ i. let bad : canceling ≡ inactive = sym c ∙ i in cc)
      (ap (λ (t : LoopState × Bool). t.1) round)
    ∙ ap (λ (t : LoopState × Bool). t.0) round

-- Transfers that end with an error, by their numbers.
abbrev pub errors : List ℕ → List Event
errors [] = []
errors (i ∷ is) = record { index = i; status = error; buffer = [] } ∷ errors is

-- The callback's state behind one more error.
error_counted :
    (s : Stream)
    → s.xfer_errors + 1 < 2 ^ 32
    → libusb_callback error [] s ≡ count_errors (record s { xfer_errors = s.xfer_errors + 1 })
unfolding libusb_callback
error_counted s h =
    let fits : (s.xfer_errors + 1) % 2 ^ 32 ≡ s.xfer_errors + 1 = omega arith in
    ap (λ n. count_errors (record s { xfer_errors = n })) fits

-- One more error, of fewer than the number of the buffers, only counts.
error_counts :
    (s : Stream)
    → s.xfer_errors + 1 < s.xfer_buf_num
    → s.xfer_buf_num < 2 ^ 32
    → libusb_callback error [] s ≡ record s { xfer_errors = s.xfer_errors + 1 }
unfolding count_errors
error_counts s h w =
    error_counted s (omega arith)
    ∙ if-false (leb s.xfer_buf_num (s.xfer_errors + 1)) _ _ (ground arith)

-- The error that reaches the number of the buffers loses the device.
error_loses :
    (s : Stream)
    → s.xfer_buf_num ≤ s.xfer_errors + 1
    → s.xfer_errors + 1 < 2 ^ 32
    → (libusb_callback error [] s).dev_lost ≡ true
unfolding count_errors
error_loses s h w =
    ap (λ (t : Stream). t.dev_lost)
      (error_counted s w ∙ if-true (leb s.xfer_buf_num (s.xfer_errors + 1)) _ _ (ground arith))
    ∙ lose_device-lost (record s { xfer_errors = s.xfer_errors + 1 })

-- Of a stream that is not lost and has had fewer errors in a row than it has buffers: more transfers
-- that end with an error, without one that completes, lose the device exactly when the errors reach
-- the number of the buffers.
pub errors_lose :
    (is : List ℕ) (s : Stream)
    → s.dev_lost ≡ false
    → s.xfer_errors < s.xfer_buf_num
    → s.xfer_buf_num < 2 ^ 32
    → (handle_events (errors is) s).dev_lost ≡ leb s.xfer_buf_num (s.xfer_errors + length is)
unfolding handle_events
errors_lose [] s d h w = d ∙ ground arith
errors_lose (i ∷ is) s d h w =
    let e : Event = record { index = i; status = error; buffer = [] } in
    let marked = set_status e s in
    let last : leb s.xfer_buf_num (s.xfer_errors + 1) ≡ true
        → true ≡ leb s.xfer_buf_num (s.xfer_errors + suc (length is)) =
      λ t. ground arith in
    elim (Bool-cases (leb s.xfer_buf_num (s.xfer_errors + 1))) [
      | inl t ↦
          handle_events-lost (errors is) (libusb_callback error [] marked)
            (error_loses marked (ground arith) (omega arith))
          ∙ last t
      | inr f ↦
          ap (λ (t : Stream). (handle_events (errors is) t).dev_lost)
            (error_counts marked (ground arith) w)
          ∙ errors_lose is (record marked { xfer_errors = s.xfer_errors + 1 }) d (ground arith) w
          ∙ ap (leb s.xfer_buf_num) (omega arith)
    ]
