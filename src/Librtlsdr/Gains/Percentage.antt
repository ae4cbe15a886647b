-- ===== src/Librtlsdr/Gains/Percentage.antt =====
-- The gain that the driver sets for a percentage, with the gains of rtlsdr_get_tuner_gains.
use rtl_tcp_andro.Base.{ℕ, ◌≤◌, ◌<◌, ◌≡◌, refl, true, false, some, [], ◌∷◌, length, arith}
use rtl_tcp_andro.Base.Int.{ℤ}
use rtl_tcp_andro.AndroidOpen.{RtlsdrTuner, unknown, e4000, fc0012, fc0013, fc2580, r820t, r828d}
use rtl_tcp_andro.RtlSdrDevice.{Call, set_tuner_gain, Dongle, set_gain_by_perc, percent_index}
use rtl_tcp_andro.RtlSdrDevice.Gains.{HasGains, set_gain_by_perc-bounds, percent_index_order}
use rtl_tcp_andro.Librtlsdr.Gains.Sorted.{IsAtMost, IsSorted, get_elem?-IsAtMost}
use rtl_tcp_andro.Librtlsdr.Gains.{tuner_gains, rtlsdr_get_tuner_gains}

-- The driver's dongle with a tuner: both calls of `rtlsdr_get_tuner_gains`.
unfoldable pub dongle_of : RtlsdrTuner → (Call → ℤ) → Dongle
unfolding rtlsdr_get_tuner_gains
dongle_of tuner answer = record {
  answer = answer;
  gain_count = (rtlsdr_get_tuner_gains tuner false []).0;
  gains = (rtlsdr_get_tuner_gains tuner true []).1;
}

gains-IsSorted : (t : RtlsdrTuner) → IsSorted (tuner_gains t)
gains-IsSorted unknown = tt
gains-IsSorted e4000 = omega arith
gains-IsSorted fc0012 = omega arith
gains-IsSorted fc0013 = omega arith
gains-IsSorted fc2580 = tt
gains-IsSorted r820t = omega arith
gains-IsSorted r828d = omega arith

-- Every tuner has at least one gain, and few.
gains_few : (t : RtlsdrTuner) → (0 < length (tuner_gains t)) × (length (tuner_gains t) < 30)
gains_few unknown = omega arith
gains_few e4000 = omega arith
gains_few fc0012 = omega arith
gains_few fc0013 = omega arith
gains_few fc2580 = omega arith
gains_few r820t = omega arith
gains_few r828d = omega arith

pub dongle_of-HasGains : (t : RtlsdrTuner) (answer : Call → ℤ) → HasGains (dongle_of t answer)
unfolding dongle_of
dongle_of-HasGains t answer =
    let few = gains_few t in
    record { counted = refl; some_gain = few.0; is_int = omega (arith, few.1) }

-- For every tuner, whatever librtlsdr's calls return: two percentages of at most 100 each set one gain,
-- and the larger percentage does not set the smaller gain.
pub set_gain_by_perc-IsAtMost :
    (t : RtlsdrTuner) (answer : Call → ℤ) (p q : ℕ)
    → p ≤ q
    → q ≤ 100
    → (a b : ℤ) × (set_gain_by_perc (dongle_of t answer) p
        ≡ some (set_tuner_gain a ∷ [], answer (set_tuner_gain a)))
      × (set_gain_by_perc (dongle_of t answer) q
          ≡ some (set_tuner_gain b ∷ [], answer (set_tuner_gain b)))
      × IsAtMost a b
unfolding dongle_of
set_gain_by_perc-IsAtMost t answer p q le top =
    let d = dongle_of t answer in
    let has = dongle_of-HasGains t answer in
    let (a, _, at_a, sets_a) = set_gain_by_perc-bounds d p has in
    let (b, _, at_b, sets_b) = set_gain_by_perc-bounds d q has in
    let order =
      percent_index_order d.gain_count p q (gains_few t).0 (omega (arith, gains_few t)) le top in
    (
      a,
      b,
      sets_a,
      sets_b,
      get_elem?-IsAtMost (tuner_gains t) (percent_index d.gain_count p)
          (percent_index d.gain_count q) a b (gains-IsSorted t) order.2 at_a at_b,
    )
