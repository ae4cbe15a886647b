-- ===== src/RtlSdrDevice/Open.antt =====
-- openAsync of rtlsdr/src/main/cpp/src/rtlsdrdevice.c, and SdrException.h.
pub mod Closing
use rtl_tcp_andro.Base.{
  ℕ, ◌+◌, ◌-◌, ◌*◌, ◌%◌, ◌^◌, Bool, true, false, ◌&&◌, ◌||◌, not, Option, none, some, List, [], ◌∷◌,
  ◌++◌, ◌==◌, ◌>>=◌, if◌then◌else◌,
}
use rtl_tcp_andro.Base.Int.{ℤ, pos, negsuc, is_negative, is_zero}
use rtl_tcp_andro.WorkPool.{BufferPtr}
use rtl_tcp_andro.SdrTcp.{SdrTcp, Effect, sdrtcp_stop_serving_client}
use rtl_tcp_andro.SdrTcp.Open.{
  OpenResults, Interference, sdrtcp_open_socket, sdrtcp_serve_client_async,
}
use rtl_tcp_andro.RtlSdrDevice.{
  Call, set_center_freq, set_sample_rate, set_tuner_gain_mode, set_tuner_gain, set_freq_correction,
  set_bias_tee, reset_buffer, read_async, close, Dongle, RtlSdrAndroid, tcp_closed_callback,
}

-- The exit codes of sdr_exception that `openAsync` throws.
abbrev pub exit_wrong_args : ℤ
exit_wrong_args = pos 1

abbrev pub exit_not_enough_power : ℤ
exit_not_enough_power = pos 9

-- `openAsync`'s numeric arguments for the device; the jlongs and jints are integers.
pub record Settings : Type 0 where
  pub gain : ℤ
  pub samplingrate : ℤ
  pub frequency : ℤ
  pub ppm : ℤ
  pub biast : ℤ

-- What Java, `rtlsdr_open2`, the system and the other threads answer: whether a Java exception is
-- pending after `GetObjectClass`, `GetMethodID` and `announceOnOpen`; the tuner's type; what the server's
-- own threads do to the server while `rtlsdr_read_async` runs; and the arguments of `sdrtcp_open_socket`.
pub record World : Type 0 where
  pub class_pending : Bool
  pub method_pending : Bool
  pub announce_pending : Bool
  pub open2_result : ℤ
  pub tuner_type : ℕ
  pub while_reading : SdrTcp → SdrTcp
  pub junk : ℕ → ℕ
  pub fresh : BufferPtr
  pub os : OpenResults
  pub others : Interference

-- What a run leaves: the struct, the calls of librtlsdr on the opened device, what the server closed,
-- the number that an SdrException was thrown with, whether an exception of a call to Java is still pending
-- (`EXCEPT_DO` does not clear it), whether the two Java strings were released, and the
-- result.
pub record Outcome : Type 0 where
  pub dev : RtlSdrAndroid
  pub calls : List Call
  pub effects : List Effect
  pub thrown : Option ℤ
  pub pending : Bool
  pub released : Bool
  pub result : Bool

-- `(uint32_t) n` for an n that is not negative.
abbrev pub as_uint32 : ℤ → ℕ
as_uint32 (pos n) = n % 2 ^ 32
as_uint32 (negsuc n) = 0

-- LIBUSB_ERROR_IO and LIBUSB_ERROR_TIMEOUT.
abbrev pub is_power_error : ℤ → Bool
is_power_error (pos n) = false
is_power_error (negsuc n) = n == 0 || n == 6

-- The sample rate: the call, and the exception if it fails.
unfoldable pub set_rate_or_throw : Dongle → (samplingrate : ℤ) → List Call × Option ℤ
set_rate_or_throw d samplingrate =
    let call = set_sample_rate (as_uint32 samplingrate) in
    if is_negative samplingrate
    then ([], some exit_wrong_args)
    else (if is_negative (d.answer call)
        then (
          call ∷ [],
          some (if is_power_error (d.answer call) then exit_not_enough_power else exit_wrong_args),
        )
        else (call ∷ [], none))

unfoldable pub set_freq_or_throw : Dongle → (frequency : ℤ) → List Call × Option ℤ
set_freq_or_throw d frequency =
    let call = set_center_freq (as_uint32 frequency) in
    if is_negative frequency
    then ([], some exit_wrong_args)
    else (call ∷ [], if is_negative (d.answer call) then some exit_wrong_args else none)

-- The calls whose failure is only logged.
unfoldable pub correction_calls : (ppm : ℤ) → List Call
correction_calls ppm = if is_zero ppm then [] else set_freq_correction ppm ∷ []

unfoldable pub gain_calls : (gain : ℤ) → List Call
gain_calls gain =
    if is_zero gain
    then set_tuner_gain_mode (pos 0) ∷ []
    else set_tuner_gain_mode (pos 1) ∷ set_tuner_gain gain ∷ []

unfoldable pub after_freq :
    Settings → (before : List Call) → List Call × Option ℤ → List Call × Option ℤ
unfolding gain_calls
after_freq s before (calls, some code) = (before ++ calls, some code)
after_freq s before (calls, none) =
    (before ++ calls ++ gain_calls s.gain ++ reset_buffer ∷ [], none)

unfoldable pub after_rate :
    Dongle → Settings → (before : List Call) → List Call × Option ℤ → List Call × Option ℤ
unfolding set_freq_or_throw after_freq
after_rate d s before (calls, some code) = (before ++ calls, some code)
after_rate d s before (calls, none) =
    after_freq s (before ++ calls) (set_freq_or_throw d s.frequency)

-- The settings of an opened device, up to `rtlsdr_reset_buffer`.
unfoldable pub apply_settings : Dongle → Settings → List Call × Option ℤ
unfolding set_rate_or_throw correction_calls after_rate
apply_settings d s =
    after_rate d s (set_bias_tee s.biast ∷ correction_calls s.ppm)
      (set_rate_or_throw d s.samplingrate)

-- The label `err`.
unfoldable pub give_up : RtlSdrAndroid → List Call → List Effect → (thrown : ℤ) → Outcome
give_up dev calls effects thrown = record {
  dev = dev;
  calls = calls ++ close ∷ [];
  effects = effects;
  thrown = some thrown;
  pending = false;
  released = true;
  result = false;
}

-- The part from `dev->rtl_dev = device` on. `closedcb` does not touch the server.
unfoldable pub run_server : World → Dongle → SdrTcp → List Call → Outcome
unfolding sdrtcp_serve_client_async tcp_closed_callback sdrtcp_stop_serving_client
run_server w d obj calls =
    let (started, serving, effects) = sdrtcp_serve_client_async (λ o. o) obj in
    let cancelled = if started then [] else tcp_closed_callback (some d) in
    let (stopped, closed) = sdrtcp_stop_serving_client (w.while_reading serving) in
    record {
      dev = record { tcpserv = stopped; rtl_dev = none };
      calls = calls ++ cancelled ++ read_async ∷ close ∷ [];
      effects = effects ++ closed;
      thrown = none;
      pending = w.announce_pending;
      released = true;
      result = not w.announce_pending && is_zero (d.answer read_async);
    }

-- The result of `sdrtcp_open_socket`.
unfoldable pub opened_socket :
    World → Dongle → Option Dongle → List Call → Bool × SdrTcp × List Effect → Outcome
unfolding give_up run_server
opened_socket w d old calls (false, obj, effects) =
    give_up (record { tcpserv = obj; rtl_dev = old }) calls effects exit_wrong_args
opened_socket w d old calls (true, obj, effects) = run_server w d obj calls

-- The part behind the settings. "RTL0" in bytes is 82, 84, 76, 48.
unfoldable pub after_settings :
    World → Dongle → RtlSdrAndroid → List Call × Option ℤ → Option Outcome
unfolding give_up opened_socket sdrtcp_open_socket
after_settings w d dev (calls, some code) = some (give_up dev calls [] code)
after_settings w d dev (calls, none) =
    sdrtcp_open_socket w.junk w.fresh w.os w.others dev.tcpserv (82 ∷ 84 ∷ 76 ∷ 48 ∷ [])
      w.tuner_type d.gain_count
    >>= λ opened. some (opened_socket w d dev.rtl_dev calls opened)

-- An end without an opened device.
unfoldable pub unopened : RtlSdrAndroid → (thrown : Option ℤ) → (pending released : Bool) → Outcome
unopened dev thrown pending released = record {
  dev = dev;
  calls = [];
  effects = [];
  thrown = thrown;
  pending = pending;
  released = released;
  result = false;
}

-- `openAsync`. `d` is the device that `rtlsdr_open2` opens where its result is 0.
unfoldable pub open_async : World → Dongle → Settings → RtlSdrAndroid → Option Outcome
unfolding apply_settings after_settings unopened
open_async w d s dev =
    if w.class_pending || w.method_pending
    then some (unopened dev none true false)
    else (if is_zero w.open2_result
        then after_settings w d dev (apply_settings d s)
        else some (unopened dev (some w.open2_result) false true))
