-- ===== src/Librtlsdr/Async/Callbacks.antt =====
-- What the callback of a transfer does to the stream of rtlsdr/src/main/cpp/librtlsdr/src/librtlsdr.c: a device that
-- is lost stays lost and cancels the stream.
use rtl_tcp_andro.Base.{
  ℕ, ◌+◌, ◌%◌, ◌^◌, ◌≡◌, ◌≢◌, Bool, true, false, ◌||◌, List, [], ◌∷◌, leb, arith, if-both,
  Bool-cases, inl, inr,
}
use rtl_tcp_andro.Librtlsdr.Async.{
  inactive, canceling, TransferStatus, completed, error, timed_out, cancelled, stall, no_device,
  overflow, Stream, rtlsdr_cancel_async, lose_device, count_errors, libusb_callback, Event,
  set_status, handle_events,
}

-- In the event loop: the stream is not inactive, and a lost device has cancelled it.
pub record IsTold (s : Stream) : Type 0 where
  pub live : s.async_status ≢ inactive
  pub told : s.dev_lost ≡ true → s.async_status ≡ canceling

pub lose_device-IsTold : (s : Stream) → s.async_status ≢ inactive → IsTold (lose_device s)
unfolding lose_device rtlsdr_cancel_async
lose_device-IsTold s h = ground arith

count_errors-IsTold : (s : Stream) → IsTold s → IsTold (count_errors s)
unfolding count_errors
count_errors-IsTold s h =
    if-both IsTold (leb s.xfer_buf_num s.xfer_errors) (lose_device-IsTold s h.live) h

libusb_callback-IsTold :
    (st : TransferStatus) (b : List ℕ) (s : Stream) → IsTold s → IsTold (libusb_callback st b s)
unfolding libusb_callback
libusb_callback-IsTold completed b s h = record { live = h.live; told = h.told }
libusb_callback-IsTold cancelled b s h = h
libusb_callback-IsTold error b s h =
    count_errors-IsTold (record s { xfer_errors = (s.xfer_errors + 1) % 2 ^ 32 })
      (record { live = h.live; told = h.told })
libusb_callback-IsTold no_device b s h = lose_device-IsTold s h.live
libusb_callback-IsTold timed_out b s h = count_errors-IsTold s h
libusb_callback-IsTold stall b s h = count_errors-IsTold s h
libusb_callback-IsTold overflow b s h = count_errors-IsTold s h

pub handle_events-IsTold : (es : List Event) (s : Stream) → IsTold s → IsTold (handle_events es s)
unfolding handle_events
handle_events-IsTold [] s h = h
handle_events-IsTold (e ∷ es) s h =
    handle_events-IsTold es (libusb_callback e.status e.buffer (set_status e s)) (
      libusb_callback-IsTold e.status e.buffer (set_status e s)
        (record { live = h.live; told = h.told }))

-- A lost device stays lost.
pub lose_device-lost : (s : Stream) → (lose_device s).dev_lost ≡ true
unfolding lose_device rtlsdr_cancel_async
lose_device-lost s = ground arith

count_errors-lost : (s : Stream) → s.dev_lost ≡ true → (count_errors s).dev_lost ≡ true
unfolding count_errors
count_errors-lost s h =
    if-both (λ (t : Stream). t.dev_lost ≡ true) (leb s.xfer_buf_num s.xfer_errors)
      (lose_device-lost s) h

libusb_callback-lost :
    (st : TransferStatus) (b : List ℕ) (s : Stream)
    → s.dev_lost ≡ true
    → (libusb_callback st b s).dev_lost ≡ true
unfolding libusb_callback
libusb_callback-lost completed b s h = h
libusb_callback-lost cancelled b s h = h
libusb_callback-lost error b s h =
    count_errors-lost (record s { xfer_errors = (s.xfer_errors + 1) % 2 ^ 32 }) h
libusb_callback-lost no_device b s h = lose_device-lost s
libusb_callback-lost timed_out b s h = count_errors-lost s h
libusb_callback-lost stall b s h = count_errors-lost s h
libusb_callback-lost overflow b s h = count_errors-lost s h

pub handle_events-lost :
    (es : List Event) (s : Stream) → s.dev_lost ≡ true → (handle_events es s).dev_lost ≡ true
unfolding handle_events
handle_events-lost [] s h = h
handle_events-lost (e ∷ es) s h =
    handle_events-lost es (libusb_callback e.status e.buffer (set_status e s))
      (libusb_callback-lost e.status e.buffer (set_status e s) h)

abbrev pub is_no_device : TransferStatus → Bool
is_no_device no_device = true
is_no_device _ = false

-- Some transfer says that the device is gone.
abbrev pub has_no_device : List Event → Bool
has_no_device [] = false
has_no_device (e ∷ es) = is_no_device e.status || has_no_device es

callback_no_device :
    (st : TransferStatus) (b : List ℕ) (s : Stream)
    → is_no_device st ≡ true
    → (libusb_callback st b s).dev_lost ≡ true
unfolding libusb_callback
callback_no_device no_device b s h = lose_device-lost s
callback_no_device completed b s h = absurd cc
callback_no_device error b s h = absurd cc
callback_no_device timed_out b s h = absurd cc
callback_no_device cancelled b s h = absurd cc
callback_no_device stall b s h = absurd cc
callback_no_device overflow b s h = absurd cc

pub handle_events-gone :
    (es : List Event) (s : Stream) → has_no_device es ≡ true → (handle_events es s).dev_lost ≡ true
unfolding handle_events
handle_events-gone [] s h = absurd cc
handle_events-gone (e ∷ es) s h = elim (Bool-cases (is_no_device e.status)) [
  | inl gone ↦
      handle_events-lost es (libusb_callback e.status e.buffer (set_status e s))
        (callback_no_device e.status e.buffer (set_status e s) gone)
  | inr here ↦
      handle_events-gone es (libusb_callback e.status e.buffer (set_status e s)) (rw here at h)
]

-- A stream that is being cancelled stays so.
lose_device-canceling :
    (s : Stream) → s.async_status ≡ canceling → (lose_device s).async_status ≡ canceling
unfolding lose_device rtlsdr_cancel_async
lose_device-canceling s h = ground arith

count_errors-canceling :
    (s : Stream) → s.async_status ≡ canceling → (count_errors s).async_status ≡ canceling
unfolding count_errors
count_errors-canceling s h =
    if-both (λ (t : Stream). t.async_status ≡ canceling) (leb s.xfer_buf_num s.xfer_errors)
      (lose_device-canceling s h) h

libusb_callback-canceling :
    (st : TransferStatus) (b : List ℕ) (s : Stream)
    → s.async_status ≡ canceling
    → (libusb_callback st b s).async_status ≡ canceling
unfolding libusb_callback
libusb_callback-canceling completed b s h = h
libusb_callback-canceling cancelled b s h = h
libusb_callback-canceling error b s h =
    count_errors-canceling (record s { xfer_errors = (s.xfer_errors + 1) % 2 ^ 32 }) h
libusb_callback-canceling no_device b s h = lose_device-canceling s h
libusb_callback-canceling timed_out b s h = count_errors-canceling s h
libusb_callback-canceling stall b s h = count_errors-canceling s h
libusb_callback-canceling overflow b s h = count_errors-canceling s h

pub handle_events-canceling :
    (es : List Event) (s : Stream)
    → s.async_status ≡ canceling
    → (handle_events es s).async_status ≡ canceling
unfolding handle_events
handle_events-canceling [] s h = h
handle_events-canceling (e ∷ es) s h =
    handle_events-canceling es (libusb_callback e.status e.buffer (set_status e s))
      (libusb_callback-canceling e.status e.buffer (set_status e s) h)
