-- ===== src/Librtlsdr/Tests.antt =====
-- Runs of the model of librtlsdr: an EEPROM, gains, streams that end, and a sample rate.
use rtl_tcp_andro.Base.{
  ℕ, ◌+◌, ◌%◌, ◌≡◌, ◌⊎◌, refl, true, false, Option, some, List, [], ◌∷◌, arith,
}
use rtl_tcp_andro.Base.Int.{ℤ, pos, negsuc}
use rtl_tcp_andro.AndroidOpen.{r820t}
use rtl_tcp_andro.RtlSdrDevice.{Call, set_tuner_gain, set_gain_by_perc}
use rtl_tcp_andro.Librtlsdr.Gains.Sorted.{IsAtMost}
use rtl_tcp_andro.Librtlsdr.Gains.Percentage.{dongle_of, set_gain_by_perc-IsAtMost}
use rtl_tcp_andro.Librtlsdr.Eeprom.{I2c, rtlsdr_write_eeprom, rtlsdr_read_eeprom}
use rtl_tcp_andro.Librtlsdr.Eeprom.Memory.{
  put, put_all, IsEeprom, rtlsdr_write_eeprom-put_all, rtlsdr_read_eeprom-write,
}
use rtl_tcp_andro.Librtlsdr.Registers.{demod_value, ctrl_out, Sent}
use rtl_tcp_andro.Librtlsdr.SampleRate.{
  def_rtl_xtal_freq, Tuning, is_valid_rate, rtlsdr_set_sample_rate,
}
use rtl_tcp_andro.Librtlsdr.SampleRate.Ratio.{rtlsdr_set_sample_rate-rate}
use rtl_tcp_andro.Librtlsdr.Async.{
  inactive, running, completed, no_device, Stream, EventRound, event_round, event_loop,
}
use rtl_tcp_andro.Librtlsdr.Async.Callbacks.{IsTold}
use rtl_tcp_andro.Librtlsdr.Async.Ends.{event_loop_lost}

-- An EEPROM: its cells and the address it stands at.
abbrev Chip : Type 0
Chip = (ℕ → ℕ) × ℕ

abbrev write_chip : Chip → List ℕ → Chip × ℤ
write_chip (m, at) [] = ((m, at), pos 0)
write_chip (m, at) (a ∷ []) = ((m, a), pos 1)
write_chip (m, at) (a ∷ v ∷ vs) = ((put m a v, (a + 1) % 256), pos 2)

abbrev read_chip : Chip → Chip × Option ℕ × ℤ
read_chip (m, at) = ((m, (at + 1) % 256), some (m at), pos 1)

abbrev chip_bus : I2c Chip
chip_bus = record { write_array = write_chip; read_array = read_chip }

abbrev cells : Chip → ℕ → ℕ
cells (m, at) = m

abbrev address : Chip → ℕ
address (m, at) = at

chip-IsEeprom : IsEeprom chip_bus cells address
chip-IsEeprom = record {
  selected = λ s a h. (refl, refl, λ b. refl);
  stored = λ s a v h h'. (refl, λ b. refl);
  seen = λ s. (refl, refl, refl, λ b. refl);
}

-- A chip of cells 7, and bytes of which one is there already.
abbrev sevens : Chip
sevens = (λ a. 7, 0)

abbrev new_bytes : List ℕ
new_bytes = 3 ∷ 7 ∷ 255 ∷ []

rtlsdr_write_eeprom-put_all_example :
    ((rtlsdr_write_eeprom chip_bus 0 sevens new_bytes 253).1 ≡ pos 0)
    × ((a : ℕ)
        → cells (rtlsdr_write_eeprom chip_bus 0 sevens new_bytes 253).0 a
          ≡ put_all (cells sevens) 253 new_bytes a)
rtlsdr_write_eeprom-put_all_example =
    rtlsdr_write_eeprom-put_all chip_bus cells address chip-IsEeprom 0 sevens new_bytes 253
      (omega arith) (omega arith)

rtlsdr_read_eeprom-write_example :
    ((rtlsdr_write_eeprom chip_bus 0 sevens new_bytes 253).1 ≡ pos 0)
    × ((rtlsdr_read_eeprom chip_bus
          (rtlsdr_write_eeprom chip_bus 0 sevens new_bytes 253).0
          (0 ∷ 0 ∷ 0 ∷ [])
          253).1
        ≡ new_bytes)
rtlsdr_read_eeprom-write_example =
    rtlsdr_read_eeprom-write chip_bus cells address chip-IsEeprom 0 sevens new_bytes
      (0 ∷ 0 ∷ 0 ∷ []) 253 (omega arith) (omega arith) (omega arith) refl

-- A stream over two transfers.
abbrev two_transfers : Stream
two_transfers = record {
  async_status = running;
  async_cancel = false;
  xfer_errors = 0;
  xfer_buf_num = 2;
  xfer_buf_len = 512;
  dev_lost = false;
  statuses = λ i. completed;
  fed = [];
}

abbrev both : List ℕ
both = 0 ∷ 1 ∷ []

-- A transfer completes, and the next one finds the device gone; nothing can be cancelled.
abbrev gone_round : EventRound
gone_round = record {
  result = pos 0;
  events =
      record { index = 0; status = completed; buffer = 1 ∷ 2 ∷ [] }
      ∷ record { index = 1; status = no_device; buffer = [] }
      ∷ [];
  cancels = λ i. record { result = negsuc 3; events = [] };
  last = [];
}

two_transfers-IsTold : IsTold two_transfers
two_transfers-IsTold = record { live = ground arith; told = ground arith }

event_loop_lost_example :
    (event_loop (gone_round ∷ []) (two_transfers, pos 0, inactive)
      ≡ (event_round gone_round (two_transfers, pos 0, inactive)).0)
    × ((event_loop (gone_round ∷ []) (two_transfers, pos 0, inactive)).0.dev_lost ≡ true)
event_loop_lost_example =
    event_loop_lost gone_round [] two_transfers (pos 0) inactive two_transfers-IsTold refl refl

-- An R820T whose calls all succeed: a third and two thirds of its gains.
abbrev fine : Call → ℤ
fine c = pos 0

set_gain_by_perc-IsAtMost_example :
    (a b : ℤ) × (set_gain_by_perc (dongle_of r820t fine) 33
      ≡ some (set_tuner_gain a ∷ [], fine (set_tuner_gain a)))
    × (set_gain_by_perc (dongle_of r820t fine) 66
        ≡ some (set_tuner_gain b ∷ [], fine (set_tuner_gain b)))
    × IsAtMost a b
set_gain_by_perc-IsAtMost_example =
    set_gain_by_perc-IsAtMost r820t fine 33 66 (omega arith) (omega arith)

-- A device that tunes with an offset, and a bus on which every transfer fails.
abbrev untuned : Tuning
untuned = record {
  rtl_xtal = def_rtl_xtal_freq;
  rate = 0;
  bw = 0;
  offs_freq = 1;
  corr = pos 52;
  freq = 100000000;
  direct_sampling = false;
  is_r82xx = false;
  has_set_bw = true;
}

abbrev broken : Sent → ℤ
broken sent = negsuc 3

rtlsdr_set_sample_rate-rate_example :
    ((is_valid_rate 2048000 ≡ true)
      × ((rtlsdr_set_sample_rate broken untuned 2048000 []).0.rate ≡ 2048000))
    ⊎ ((is_valid_rate 2048000 ≡ false)
        × (rtlsdr_set_sample_rate broken untuned 2048000 [] ≡ (untuned, [], negsuc 21)))
rtlsdr_set_sample_rate-rate_example = rtlsdr_set_sample_rate-rate broken untuned 2048000 [] refl

-- Transfers that all succeed, and one byte that was written before.
abbrev well : Sent → ℤ
well sent = pos 1

abbrev corrected_before : Sent
corrected_before = ctrl_out (demod_value 0x3f) 0x11 (7 ∷ []) ∷ []
