-- ===== src/Librtlsdr/SampleRate/Ratio.antt =====
-- That the registers of the resampler hold the whole ratio, and the rate that rtlsdr_set_sample_rate of
-- rtlsdr/src/main/cpp/librtlsdr/src/librtlsdr.c arrives at.
use rtl_tcp_andro.Base.{
  ℕ, ◌+◌, ◌*◌, ◌/◌, ◌^◌, ◌≤◌, ◌<◌, ◌≡◌, refl, Bool, true, false, ◌||◌, ltb, ◌⊎◌, inl, inr, arith,
  ap, ◌∙◌, if-true, if-false, if-both, Bool-cases, if◌then◌else◌,
}
use rtl_tcp_andro.Base.Int.{ℤ, negsuc}
use rtl_tcp_andro.Librtlsdr.Registers.{Sent}
use native.Mathlib.Nat.{
  mul-div-le, lt-mul-div-succ, le-div_iff_mul-le, div-lt_iff_lt-mul, mul-le-mul_left, mul-add,
  add-mul,
}
use rtl_tcp_andro.Librtlsdr.SampleRate.{
  def_rtl_xtal_freq, is_valid_rate, masked, with_top_bit, Tuning, rtlsdr_set_offset_tuning, retune,
  set_tuner_bw, write_ratio, set_valid_rate, rtlsdr_set_sample_rate,
}

-- The two bands of valid rates.
valid_bands :
    (s : ℕ)
    → is_valid_rate s ≡ true
    → ((225000 < s) × (s ≤ 300000)) ⊎ ((900000 < s) × (s ≤ 3200000))
valid_bands s h = ground arith

abbrev ticks : ℕ
ticks = def_rtl_xtal_freq * 2 ^ 22

-- In the lower band the ratio has 29 bits, of which the top two are set; in the upper band it has 27.
ratio_low : (s : ℕ) → 225000 < s → s ≤ 300000 → (3 * 2 ^ 27 ≤ ticks / s) × (ticks / s < 2 ^ 29)
ratio_low s h h' = (
  (le-div_iff_mul-le (omega arith)).1 (omega arith),
  (div-lt_iff_lt-mul (omega arith)).1 (omega arith),
)

ratio_high : (s : ℕ) → 900000 < s → s ≤ 3200000 → (37748736 ≤ ticks / s) × (ticks / s < 2 ^ 27)
ratio_high s h h' = (
  (le-div_iff_mul-le (omega arith)).1 (omega arith),
  (div-lt_iff_lt-mul (omega arith)).1 (omega arith),
)

-- A number of such bits is restored.
restored :
    (q : ℕ) → ((3 * 2 ^ 27 ≤ q) × (q < 2 ^ 29)) ⊎ (q < 2 ^ 27) → with_top_bit (masked q) ≡ q / 4 * 4
unfolding with_top_bit masked
restored q (inl (h, h')) = omega arith
restored q (inr h) = omega arith

-- A quotient cut down to a multiple of four still gives the divisor back, when it is large enough.
divisor_back : (n s : ℕ) → 0 < s → 4 * s + 4 ≤ n / s → n / (n / s / 4 * 4) ≡ s
divisor_back n s pos large =
    let q = n / s in
    let r = q / 4 * 4 in
    let below : s * r ≤ s * q = mul-le-mul_left s (omega arith) in
    let at_most : s * r ≤ n = omega (arith, mul-div-le n s, below) in
    let above : s * (q + 1) ≤ s * (r + 4) = mul-le-mul_left s (omega arith) in
    let less : n < (s + 1) * r =
      omega (arith, lt-mul-div-succ n pos, above, mul-add s r 4, add-mul s 1 r) in
    let some_r : 0 < r = omega arith in
    let reached : s ≤ n / r = (le-div_iff_mul-le some_r).1 at_most in
    let passed : n / r < s + 1 = (div-lt_iff_lt-mul some_r).1 less in omega (arith, reached, passed)

-- With the crystal's usual frequency, for every rate that is accepted: the 28 bits that the registers
-- keep, with the top bit put back, are the ratio but for its last two bits.
ratio-restored :
    (s : ℕ) → is_valid_rate s ≡ true → with_top_bit (masked (ticks / s)) ≡ ticks / s / 4 * 4
ratio-restored s h = elim (valid_bands s h) [
  | inl (a, b) ↦ restored (ticks / s) (inl (ratio_low s a b))
  | inr (a, b) ↦ restored (ticks / s) (inr (ratio_high s a b).1)
]

ratio-large : (s : ℕ) → is_valid_rate s ≡ true → (0 < s) × (4 * s + 4 ≤ ticks / s)
ratio-large s h = elim (valid_bands s h) [
  | inl (a, b) ↦ let low = ratio_low s a b in (omega arith, omega (arith, low.0))
  | inr (a, b) ↦ let high = ratio_high s a b in (omega arith, omega (arith, high.0))
]

-- For every rate that is accepted, the rate that the code computes back is that rate itself.
pub rate-back : (s : ℕ) → is_valid_rate s ≡ true → ticks / with_top_bit (masked (ticks / s)) ≡ s
rate-back s h =
    let large = ratio-large s h in
    ap (λ r. ticks / r) (ratio-restored s h) ∙ divisor_back ticks s large.0 large.1

-- The offset tuning leaves the rate.
offset_tuning-rate :
    (answer : Sent → ℤ) (d : Tuning) (on : Bool) (sent : Sent)
    → (rtlsdr_set_offset_tuning answer d on sent).0.rate ≡ d.rate
unfolding rtlsdr_set_offset_tuning
offset_tuning-rate answer d on sent =
    if-both (λ (t : Tuning × Sent). t.0.rate ≡ d.rate) (d.is_r82xx || d.direct_sampling) refl
      (if-both (λ (t : Tuning × Sent). t.0.rate ≡ d.rate) _ refl refl)

retune-rate :
    (answer : Sent → ℤ) (d : Tuning) (sent : Sent) → (retune answer d sent).0.rate ≡ d.rate
unfolding retune
retune-rate answer d sent =
    if-both (λ (t : Tuning × Sent). t.0.rate ≡ d.rate) (ltb 0 d.offs_freq)
      (offset_tuning-rate answer d true sent) refl

set_valid_rate-rate :
    (answer : Sent → ℤ) (d : Tuning) (s : ℕ) (sent : Sent)
    → (set_valid_rate answer d s sent).0.rate
      ≡ d.rtl_xtal * 2 ^ 22 / with_top_bit (masked (d.rtl_xtal * 2 ^ 22 / s))
unfolding set_valid_rate
set_valid_rate-rate answer d s sent =
    let ratio = masked (d.rtl_xtal * 2 ^ 22 / s) in
    let rated = record d { rate = d.rtl_xtal * 2 ^ 22 / with_top_bit ratio } in
    let hz = if ltb 0 d.bw then d.bw else rated.rate in
    retune-rate answer rated (write_ratio answer d.corr ratio (set_tuner_bw answer rated hz sent)).0

-- With the crystal's usual frequency, whatever the transfers return: a rate that the resampler supports
-- becomes the device's rate, exactly; another rate is refused and changes nothing.
pub rtlsdr_set_sample_rate-rate :
    (answer : Sent → ℤ) (d : Tuning) (s : ℕ) (sent : Sent)
    → d.rtl_xtal ≡ def_rtl_xtal_freq
    → ((is_valid_rate s ≡ true) × ((rtlsdr_set_sample_rate answer d s sent).0.rate ≡ s))
      ⊎ ((is_valid_rate s ≡ false)
          × (rtlsdr_set_sample_rate answer d s sent ≡ (d, sent, negsuc 21)))
unfolding rtlsdr_set_sample_rate
rtlsdr_set_sample_rate-rate answer d s sent x =
    let tuned = set_valid_rate answer d s sent in
    elim (Bool-cases (is_valid_rate s)) [
      | inl valid ↦ inl (
        valid,
        ap (λ (t : Tuning × Sent × ℤ). t.0.rate)
              (if-true (is_valid_rate s) tuned (d, sent, negsuc 21) valid)
            ∙ set_valid_rate-rate answer d s sent
            ∙ ap (λ f. f * 2 ^ 22 / with_top_bit (masked (f * 2 ^ 22 / s))) x
            ∙ rate-back s valid,
      )
      | inr other ↦ inr (other, if-false (is_valid_rate s) tuned (d, sent, negsuc 21) other)
    ]
