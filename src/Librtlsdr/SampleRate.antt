-- ===== src/Librtlsdr/SampleRate.antt =====
-- rtlsdr_set_sample_rate, rtlsdr_set_sample_freq_correction and rtlsdr_set_offset_tuning of
-- rtlsdr/src/main/cpp/librtlsdr/src/librtlsdr.c. The code divides doubles and cuts the quotient off; no
-- quotient here comes closer to an integer from below than the doubles tell apart, so that this is the
-- division of natural numbers.
pub mod Ratio
pub mod Correction
pub mod Requests
use rtl_tcp_andro.Base.{
  ℕ, zero, suc, ◌+◌, ◌-◌, ◌*◌, ◌/◌, ◌%◌, ◌^◌, Bool, true, false, ◌&&◌, ◌||◌, not, List, [], ◌∷◌,
  ◌++◌, ltb, leb, if◌then◌else◌,
}
use rtl_tcp_andro.Base.Int.{ℤ, pos, negsuc, is_zero}
use rtl_tcp_andro.Librtlsdr.Registers.{
  Request, set_bw, set_if_freq, set_center_freq, Sent, rtlsdr_demod_write_reg,
  rtlsdr_set_i2c_repeater,
}

-- DEF_RTL_XTAL_FREQ.
abbrev pub def_rtl_xtal_freq : ℕ
def_rtl_xtal_freq = 28800000

-- The part of rtlsdr_dev_t that the sample rate depends on. There is a tuner; `is_r82xx` is whether it is an
-- R820T or an R828D, and `has_set_bw` whether it has `set_bw`.
pub record Tuning : Type 0 where
  pub rtl_xtal : ℕ
  pub rate : ℕ
  pub bw : ℕ
  pub offs_freq : ℕ
  pub corr : ℤ
  pub freq : ℕ
  pub direct_sampling : Bool
  pub is_r82xx : Bool
  pub has_set_bw : Bool

-- The rates that the resampler supports.
abbrev pub is_valid_rate : ℕ → Bool
is_valid_rate samp_rate = not (
    leb samp_rate 225000 || ltb 3200000 samp_rate || (ltb 300000 samp_rate && leb samp_rate 900000))

-- `rsamp_ratio &= 0x0ffffffc`.
unfoldable pub masked : ℕ → ℕ
masked ratio = ratio % 2 ^ 28 / 4 * 4

-- `rsamp_ratio | ((rsamp_ratio & 0x08000000) << 1)`, of a ratio of 28 bits.
unfoldable pub with_top_bit : ℕ → ℕ
with_top_bit ratio = ratio + ratio / 2 ^ 27 % 2 * 2 ^ 28

-- `r |= other`, of results that are 0 or -1.
abbrev pub or_result : ℤ → ℤ → ℤ
or_result (pos zero) other = other
or_result r other = r

-- `offs` as an int16_t's bit pattern: `-ppm * 2 ^ 24 / 1000000`, cut off towards 0. Where it is outside of
-- that type C leaves the conversion undefined.
unfoldable pub correction_pattern : (ppm : ℤ) → ℕ
correction_pattern (pos p) = (2 ^ 16 - p * 2 ^ 24 / 1000000 % 2 ^ 16) % 2 ^ 16
correction_pattern (negsuc n) = suc n * 2 ^ 24 / 1000000 % 2 ^ 16

-- The bytes for the registers 0x3f and 0x3e.
unfoldable pub correction_low : (offs : ℕ) → ℕ
correction_low offs = offs % 256

unfoldable pub correction_high : (offs : ℕ) → ℕ
correction_high offs = offs / 256 % 64

module _ (answer : Sent → ℤ) where
  unfoldable pub rtlsdr_set_sample_freq_correction : (ppm : ℤ) → Sent → Sent × ℤ
  unfolding correction_pattern correction_low correction_high rtlsdr_demod_write_reg
  rtlsdr_set_sample_freq_correction ppm sent =
      let offs = correction_pattern ppm in
      let (low, r) = rtlsdr_demod_write_reg answer 1 0x3f (correction_low offs) 1 sent in
      let (high, r') = rtlsdr_demod_write_reg answer 1 0x3e (correction_high offs) 1 low in
      (high, or_result r r')

  -- The tuner's bandwidth is set, with the repeater on for the call.
  unfoldable pub set_tuner_bw : Tuning → (hz : ℕ) → Sent → Sent
  unfolding rtlsdr_set_i2c_repeater
  set_tuner_bw d hz sent =
      let asked = rtlsdr_set_i2c_repeater answer true sent ++ set_bw hz ∷ [] in
      let closed = rtlsdr_set_i2c_repeater answer false asked in
      if d.has_set_bw then closed else sent

  -- `rtlsdr_set_offset_tuning`, without its result, which rtlsdr_set_sample_rate drops. A call of
  -- rtlsdr_set_center_freq that fails leaves the frequency 0.
  unfoldable pub rtlsdr_set_offset_tuning : Tuning → (on : Bool) → Sent → Tuning × Sent
  unfolding set_tuner_bw
  rtlsdr_set_offset_tuning d on sent =
      let offset = if on then d.rate / 2 * 170 % 2 ^ 32 / 100 else 0 in
      let hz = if on then 2 * offset else (if ltb 0 d.bw then d.bw else d.rate) in
      let tuned = set_tuner_bw d hz (sent ++ set_if_freq offset ∷ []) in
      let centred = tuned ++ set_center_freq d.freq ∷ [] in
      if d.is_r82xx || d.direct_sampling
      then (d, sent)
      else (if ltb offset d.freq
          then (
            record d { offs_freq = offset; freq = if is_zero (answer centred) then d.freq else 0 },
            centred,
          )
          else (record d { offs_freq = offset }, tuned))

  -- The registers of the resampler, the correction, and the reset of the demodulator.
  unfoldable pub write_ratio : (corr : ℤ) → (ratio : ℕ) → Sent → Sent × ℤ
  unfolding rtlsdr_demod_write_reg rtlsdr_set_sample_freq_correction
  write_ratio corr ratio sent =
      let (s1, r1) = rtlsdr_demod_write_reg answer 1 0x9f (ratio / 2 ^ 16) 2 sent in
      let (s2, r2) = rtlsdr_demod_write_reg answer 1 0xa1 (ratio % 2 ^ 16) 2 s1 in
      let (s3, r3) = rtlsdr_set_sample_freq_correction corr s2 in
      let (s4, r4) = rtlsdr_demod_write_reg answer 1 0x01 0x14 1 s3 in
      let (s5, r5) = rtlsdr_demod_write_reg answer 1 0x01 0x10 1 s4 in
      (s5, or_result (or_result (or_result (or_result r1 r2) r3) r4) r5)

  -- The offset frequency is calculated again, if offset tuning is enabled.
  unfoldable pub retune : Tuning → Sent → Tuning × Sent
  unfolding rtlsdr_set_offset_tuning
  retune d sent = if ltb 0 d.offs_freq then rtlsdr_set_offset_tuning d true sent else (d, sent)

  -- All that follows the test of the rate.
  unfoldable pub set_valid_rate : Tuning → (samp_rate : ℕ) → Sent → Tuning × Sent × ℤ
  unfolding masked with_top_bit set_tuner_bw write_ratio retune
  set_valid_rate d samp_rate sent =
      let rsamp_ratio = masked (d.rtl_xtal * 2 ^ 22 / samp_rate) in
      let rated = record d { rate = d.rtl_xtal * 2 ^ 22 / with_top_bit rsamp_ratio } in
      let hz = if ltb 0 d.bw then d.bw else rated.rate in
      let (written, r) = write_ratio d.corr rsamp_ratio (set_tuner_bw rated hz sent) in
      let (tuned, sent') = retune rated written in (tuned, sent', r)

  -- `rtlsdr_set_sample_rate`: the settings, the requests and the result. -EINVAL is -22.
  unfoldable pub rtlsdr_set_sample_rate : Tuning → (samp_rate : ℕ) → Sent → Tuning × Sent × ℤ
  unfolding set_valid_rate
  rtlsdr_set_sample_rate d samp_rate sent =
      if is_valid_rate samp_rate then set_valid_rate d samp_rate sent else (d, sent, negsuc 21)
