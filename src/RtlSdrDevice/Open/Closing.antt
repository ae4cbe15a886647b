-- ===== src/RtlSdrDevice/Open/Closing.antt =====
-- The ends of openAsync of rtlsdr/src/main/cpp/src/rtlsdrdevice.c.
use rtl_tcp_andro.Base.{
  ℕ, ◌≡◌, refl, Bool, true, false, ◌&&◌, ◌||◌, not, Option, none, some, List, [], ◌∷◌, ◌++◌, ◌⊎◌,
  inl, inr, if◌then◌else◌, arith, ◌∙◌, if-both, if-true, if-false,
}
use rtl_tcp_andro.Base.Int.{ℤ, is_negative, is_zero}
use rtl_tcp_andro.SdrTcp.{SdrTcp, Effect}
use rtl_tcp_andro.SdrTcp.Open.{sdrtcp_serve_client_async}
use rtl_tcp_andro.SdrTcp.Open.Outcome.{sdrtcp_open_socket_returns}
use rtl_tcp_andro.RtlSdrDevice.{
  Call, set_sample_rate, set_bias_tee, reset_buffer, cancel_async, read_async, close, Dongle,
  RtlSdrAndroid, tcp_closed_callback,
}
use rtl_tcp_andro.RtlSdrDevice.Open.{
  exit_wrong_args, as_uint32, Settings, World, Outcome, set_rate_or_throw, set_freq_or_throw,
  correction_calls, gain_calls, after_freq, after_rate, apply_settings, give_up, run_server,
  opened_socket, after_settings, open_async,
}

-- A call that only sets the device up.
abbrev pub is_setting : Call → Bool
is_setting close = false
is_setting read_async = false
is_setting cancel_async = false
is_setting _ = true

abbrev pub IsSettings : List Call → Type 0
IsSettings [] = Unit {0}
IsSettings (c ∷ cs) = (is_setting c ≡ true) × IsSettings cs

IsSettings-append : (cs ds : List Call) → IsSettings cs → IsSettings ds → IsSettings (cs ++ ds)
IsSettings-append [] ds h k = k
IsSettings-append (c ∷ cs) ds (e, h) k = (e, IsSettings-append cs ds h k)

-- Given up behind the calls `before`: an exception, and the device closed.
abbrev pub GaveUp : List Call → Outcome → Type 0
GaveUp before o =
    (code : ℤ) × (o.thrown ≡ some code)
    × (o.pending ≡ false)
    × (o.result ≡ false)
    × (o.calls ≡ before ++ close ∷ [])

-- Read from until the end: nothing thrown, an exception of `announceOnOpen` still pending, the device closed and forgotten.
abbrev pub Ran : World → Dongle → List Call → Outcome → Type 0
Ran w d before o =
    (cancelled : List Call) × ((cancelled ≡ []) ⊎ (cancelled ≡ cancel_async ∷ []))
    × (o.thrown ≡ none)
    × (o.pending ≡ w.announce_pending)
    × (o.result ≡ (not w.announce_pending && is_zero (d.answer read_async)))
    × (o.dev.rtl_dev ≡ none)
    × (o.calls ≡ before ++ cancelled ++ read_async ∷ close ∷ [])

abbrev pub IsEnd : World → Dongle → List Call → Outcome → Type 0
IsEnd w d before o = IsSettings before × (o.released ≡ true) × (GaveUp before o ⊎ Ran w d before o)

rate-IsSettings : (d : Dongle) (n : ℤ) → IsSettings (set_rate_or_throw d n).0
unfolding set_rate_or_throw
rate-IsSettings d n =
    if-both (λ (r : List Call × Option ℤ). IsSettings r.0) (is_negative n) tt
      (if-both (λ (r : List Call × Option ℤ). IsSettings r.0)
        (is_negative (d.answer (set_sample_rate (as_uint32 n)))) (refl, tt) (refl, tt))

freq-IsSettings : (d : Dongle) (n : ℤ) → IsSettings (set_freq_or_throw d n).0
unfolding set_freq_or_throw
freq-IsSettings d n =
    if-both (λ (r : List Call × Option ℤ). IsSettings r.0) (is_negative n) tt (refl, tt)

correction-IsSettings : (ppm : ℤ) → IsSettings (correction_calls ppm)
unfolding correction_calls
correction-IsSettings ppm = if-both IsSettings (is_zero ppm) tt (refl, tt)

gain-IsSettings : (gain : ℤ) → IsSettings (gain_calls gain)
unfolding gain_calls
gain-IsSettings gain = if-both IsSettings (is_zero gain) (refl, tt) (refl, (refl, tt))

after_freq-IsSettings :
    (s : Settings) (before : List Call) (r : List Call × Option ℤ)
    → IsSettings before
    → IsSettings r.0
    → IsSettings (after_freq s before r).0
unfolding after_freq
after_freq-IsSettings s before (calls, some code) b c = IsSettings-append before calls b c
after_freq-IsSettings s before (calls, none) b c =
    IsSettings-append (before ++ calls ++ gain_calls s.gain) (reset_buffer ∷ [])
      (IsSettings-append (before ++ calls) (gain_calls s.gain) (IsSettings-append before calls b c)
        (gain-IsSettings s.gain))
      (refl, tt)

after_rate-IsSettings :
    (d : Dongle) (s : Settings) (before : List Call) (r : List Call × Option ℤ)
    → IsSettings before
    → IsSettings r.0
    → IsSettings (after_rate d s before r).0
unfolding after_rate
after_rate-IsSettings d s before (calls, some code) b c = IsSettings-append before calls b c
after_rate-IsSettings d s before (calls, none) b c =
    after_freq-IsSettings s (before ++ calls) (set_freq_or_throw d s.frequency)
      (IsSettings-append before calls b c) (freq-IsSettings d s.frequency)

apply_settings-IsSettings : (d : Dongle) (s : Settings) → IsSettings (apply_settings d s).0
unfolding apply_settings
apply_settings-IsSettings d s =
    after_rate-IsSettings d s (set_bias_tee s.biast ∷ correction_calls s.ppm)
      (set_rate_or_throw d s.samplingrate) (refl, correction-IsSettings s.ppm)
      (rate-IsSettings d s.samplingrate)

cancelled_or_not :
    (d : Dongle) (started : Bool)
    → let cancelled = if started then [] else tcp_closed_callback (some d) in
      (cancelled ≡ []) ⊎ (cancelled ≡ cancel_async ∷ [])
unfolding tcp_closed_callback
cancelled_or_not d true = inl refl
cancelled_or_not d false = inr refl

opened-IsEnd :
    (w : World) (d : Dongle) (old : Option Dongle) (calls : List Call)
    (r : Bool × SdrTcp × List Effect)
    → IsSettings calls
    → IsEnd w d calls (opened_socket w d old calls r)
unfolding opened_socket give_up run_server
opened-IsEnd w d old calls (false, obj, effects) h =
    (h, refl, inl (exit_wrong_args, refl, refl, refl, refl))
opened-IsEnd w d old calls (true, obj, effects) h = (
  h,
  refl,
  inr (
    _,
    cancelled_or_not d (sdrtcp_serve_client_async (λ o. o) obj).0,
    refl,
    refl,
    refl,
    refl,
    refl,
  ),
)

after_settings-IsEnd :
    (w : World) (d : Dongle) (dev : RtlSdrAndroid) (r : List Call × Option ℤ)
    → IsSettings r.0
    → (o : Outcome) × (after_settings w d dev r ≡ some o) × IsEnd w d r.0 o
unfolding after_settings give_up
after_settings-IsEnd w d dev (calls, some code) h =
    (give_up dev calls [] code, refl, (h, refl, inl (code, refl, refl, refl, refl)))
after_settings-IsEnd w d dev (calls, none) h =
    let magic : List ℕ = 82 ∷ 84 ∷ 76 ∷ 48 ∷ [] in
    let (r, e) =
      sdrtcp_open_socket_returns w.junk w.fresh dev.tcpserv magic w.tuner_type d.gain_count
        (omega arith) (omega arith) w.os w.others in
    (opened_socket w d dev.rtl_dev calls r, rw e, opened-IsEnd w d dev.rtl_dev calls r h)

-- Where no Java exception is pending and `rtlsdr_open2` succeeds, the run ends, whatever librtlsdr, the
-- system and the other threads answer. Calls that set the device up come first; then it either throws,
-- returns false and closes the device, or reads, closes and forgets it, throws nothing, and leaves an
-- exception pending only if `announceOnOpen` threw it. So the device is closed once, as the last call; the
-- strings are released.
pub open_async_closes :
    (w : World) (d : Dongle) (s : Settings) (dev : RtlSdrAndroid)
    → w.class_pending ≡ false
    → w.method_pending ≡ false
    → is_zero w.open2_result ≡ true
    → (before : List Call) × (o : Outcome) × (open_async w d s dev ≡ some o) × IsEnd w d before o
unfolding open_async
open_async_closes w d s dev c m z =
    let (o, e, end) =
      after_settings-IsEnd w d dev (apply_settings d s) (apply_settings-IsSettings d s) in
    (
      (apply_settings d s).0,
      o,
      if-false (w.class_pending || w.method_pending) _ _ (rw (c, m) refl)
          ∙ if-true (is_zero w.open2_result) _ _ z
          ∙ e,
      end,
    )
