-- ===== src/Librtlsdr/Async.antt =====
-- rtlsdr_read_async, _libusb_callback and rtlsdr_cancel_async of
-- rtlsdr/src/main/cpp/librtlsdr/src/librtlsdr.c: the stream of samples. libusb is a parameter: what its
-- calls return, and the transfers that end while events are handled (`Event`). Allocation succeeds, and
-- a transfer that is submitted again is libusb's.
pub mod Callbacks
pub mod Ends
use rtl_tcp_andro.Base.{
  ℕ, zero, suc, ◌+◌, ◌*◌, ◌-◌, ◌%◌, ◌^◌, Bool, true, false, ◌&&◌, ◌||◌, List, [], ◌∷◌, ◌++◌, ◌==◌,
  ltb, leb, if◌then◌else◌,
}
use rtl_tcp_andro.Base.Int.{ℤ, pos, negsuc, is_negative}

-- enum rtlsdr_async_status.
pub data AsyncStatus : Type 0 where
  inactive canceling running : AsyncStatus

-- enum libusb_transfer_status.
pub data TransferStatus : Type 0 where
  completed error timed_out cancelled stall no_device overflow : TransferStatus

abbrev pub is_inactive : AsyncStatus → Bool
is_inactive inactive = true
is_inactive _ = false

abbrev pub is_canceling : AsyncStatus → Bool
is_canceling canceling = true
is_canceling _ = false

abbrev pub is_cancelled : TransferStatus → Bool
is_cancelled cancelled = true
is_cancelled _ = false

-- The stream's part of rtlsdr_dev_t: `statuses` are those of the transfers, and `fed` are the buffers
-- that `cb` was called with, oldest first.
pub record Stream : Type 0 where
  pub async_status : AsyncStatus
  pub async_cancel : Bool
  pub xfer_errors : ℕ
  pub xfer_buf_num : ℕ
  pub xfer_buf_len : ℕ
  pub dev_lost : Bool
  pub statuses : ℕ → TransferStatus
  pub fed : List (List ℕ)

-- Only a running stream is cancelled.
unfoldable pub rtlsdr_cancel_async : Stream → Stream × ℤ
rtlsdr_cancel_async s = elim s.async_status [
  | running ↦ (record s { async_status = canceling; async_cancel = true }, pos 0)
  | canceling ↦ (s, negsuc 1)
  | inactive ↦ (s, negsuc 1)
]

-- `dev->dev_lost = 1; rtlsdr_cancel_async(dev);`
unfoldable pub lose_device : Stream → Stream
unfolding rtlsdr_cancel_async
lose_device s = (rtlsdr_cancel_async (record s { dev_lost = true })).0

-- The test of the errors against the number of the buffers; `xfer_errors` is 32 bits wide.
unfoldable pub count_errors : Stream → Stream
unfolding lose_device
count_errors s = if leb s.xfer_buf_num s.xfer_errors then lose_device s else s

-- `_libusb_callback`, by the status of the transfer.
unfoldable pub libusb_callback : TransferStatus → (buffer : List ℕ) → Stream → Stream
unfolding lose_device count_errors
libusb_callback completed buffer s = record s { fed = s.fed ++ buffer ∷ []; xfer_errors = 0 }
libusb_callback cancelled buffer s = s
libusb_callback error buffer s =
    count_errors (record s { xfer_errors = (s.xfer_errors + 1) % 2 ^ 32 })
libusb_callback no_device buffer s = lose_device s
libusb_callback timed_out buffer s = count_errors s
libusb_callback stall buffer s = count_errors s
libusb_callback overflow buffer s = count_errors s

-- A transfer that ends: its number, its status and what is in its buffer.
pub record Event : Type 0 where
  pub index : ℕ
  pub status : TransferStatus
  pub buffer : List ℕ

-- The transfer's own status, which libusb sets ahead of the callback.
abbrev pub set_status : Event → Stream → Stream
set_status e s = record s { statuses = λ i. if e.index == i then e.status else s.statuses i }

-- The events that one call of libusb handles.
unfoldable pub handle_events : List Event → Stream → Stream
unfolding libusb_callback
handle_events [] s = s
handle_events (e ∷ es) s = handle_events es (libusb_callback e.status e.buffer (set_status e s))

-- What libusb_cancel_transfer answers for a transfer, and the events handled right after it.
pub record Cancel : Type 0 where
  pub result : ℤ
  pub events : List Event

-- The stream, `r` and `next_status`.
abbrev pub LoopState : Type 0
LoopState = Stream × ℤ × AsyncStatus

-- One transfer is cancelled, unless it is already.
unfoldable pub cancel_transfer : Cancel → (i : ℕ) → LoopState → LoopState
unfolding handle_events
cancel_transfer c i (s, r, next) =
    if is_cancelled (s.statuses i)
    then (s, r, next)
    else (handle_events c.events s, c.result, if is_negative c.result then next else canceling)

-- The loop over `n` transfers from `i` on.
unfoldable pub cancel_transfers : (ℕ → Cancel) → (i n : ℕ) → LoopState → LoopState
unfolding cancel_transfer
cancel_transfers c i zero l = l
cancel_transfers c i (suc n) l = cancel_transfers c (i + 1) n (cancel_transfer (c i) i l)

-- One round of the event loop: what libusb_handle_events_timeout_completed returns, the events it
-- handles, the answers to the cancellation, and the events of the call ahead of the last `break`.
pub record EventRound : Type 0 where
  pub result : ℤ
  pub events : List Event
  pub cancels : ℕ → Cancel
  pub last : List Event

-- LIBUSB_ERROR_INTERRUPTED is -10.
abbrev pub is_interrupted : ℤ → Bool
is_interrupted (pos n) = false
is_interrupted (negsuc n) = n == 9

-- Behind the loop over the transfers; the second result is whether the event loop goes on.
unfoldable pub after_cancel : EventRound → LoopState → LoopState × Bool
unfolding handle_events
after_cancel e (s, r, next) =
    if s.dev_lost || is_inactive next
    then ((handle_events e.last s, r, next), false)
    else ((s, r, next), true)

-- The part of a round in status CANCELING.
unfoldable pub cancel_round : EventRound → Stream → LoopState × Bool
unfolding cancel_transfers after_cancel
cancel_round e s =
    after_cancel e (cancel_transfers e.cancels 0 s.xfer_buf_num (s, e.result, inactive))

unfoldable pub event_round : EventRound → LoopState → LoopState × Bool
unfolding cancel_round handle_events
event_round e (s, _, next) =
    let handled = handle_events e.events s in
    if is_negative e.result
    then ((handled, e.result, next), is_interrupted e.result)
    else (if is_canceling handled.async_status
        then cancel_round e handled
        else ((handled, e.result, next), true))

-- The event loop over the rounds to come.
unfoldable pub event_loop : List EventRound → LoopState → LoopState
unfolding event_round
event_loop [] l = l
event_loop (e ∷ es) l =
    let (after, goes_on) = event_round e l in
    let rest = event_loop es after in
    if is_inactive l.0.async_status then l else (if goes_on then rest else after)

-- The loop that submits `n` transfers from `i` on; `r` is the last result.
unfoldable pub submit_transfers : (submit : ℕ → ℤ) → (i n : ℕ) → Stream → ℤ → Stream × ℤ
submit_transfers submit i zero s r = (s, r)
submit_transfers submit i (suc n) s r =
    let rest = submit_transfers submit (i + 1) n s (submit i) in
    if is_negative (submit i) then (record s { async_status = canceling }, submit i) else rest

-- DEFAULT_BUF_NUMBER and DEFAULT_BUF_LENGTH.
abbrev pub default_buf_number : ℕ
default_buf_number = 15

abbrev pub default_buf_length : ℕ
default_buf_length = 16 * 32 * 512

-- The stream that starts, with new transfers.
unfoldable pub start_stream : (buf_num buf_len : ℕ) → Stream → Stream
start_stream buf_num buf_len s = record s {
  async_status = running;
  async_cancel = false;
  xfer_buf_num = if ltb 0 buf_num then buf_num else default_buf_number;
  xfer_buf_len = if ltb 0 buf_len && buf_len % 512 == 0 then buf_len else default_buf_length;
  statuses = λ i. completed;
}

-- `rtlsdr_read_async`: the stream and the result.
unfoldable pub rtlsdr_read_async :
    (submit : ℕ → ℤ) → List EventRound → (buf_num buf_len : ℕ) → Stream → Stream × ℤ
unfolding start_stream submit_transfers event_loop
rtlsdr_read_async submit rounds buf_num buf_len s =
    let started = start_stream buf_num buf_len s in
    let (submitted, r) = submit_transfers submit 0 started.xfer_buf_num started (pos 0) in
    let (after, r', next) = event_loop rounds (submitted, r, inactive) in
    if is_inactive s.async_status then (record after { async_status = next }, r') else (s, negsuc 1)
