-- ===== src/Librtlsdr/Registers.antt =====
-- The demodulator's registers in rtlsdr/src/main/cpp/librtlsdr/src/librtlsdr.c: rtlsdr_demod_write_reg,
-- rtlsdr_demod_read_reg and rtlsdr_set_i2c_repeater, over libusb's control transfers, whose results are
-- a parameter.
use rtl_tcp_andro.Base.{
  ℕ, ◌+◌, ◌*◌, ◌/◌, ◌%◌, Bool, false, List, [], ◌∷◌, ◌++◌, ◌==◌, if◌then◌else◌,
}
use rtl_tcp_andro.Base.Int.{ℤ, pos, negsuc}

-- What the dongle and the tuner's driver are asked: a control transfer out with its wValue, wIndex and
-- data, one in with the number of bytes, a bandwidth for the tuner, and calls of rtlsdr_set_if_freq and
-- rtlsdr_set_center_freq.
pub data Request : Type 0 where
  ctrl_out : (value index : ℕ) → (bytes : List ℕ) → Request
  ctrl_in : (value index len : ℕ) → Request
  set_bw : (hz : ℕ) → Request
  set_if_freq : (hz : ℕ) → Request
  set_center_freq : (hz : ℕ) → Request

-- The requests so far, oldest first.
abbrev pub Sent : Type 0
Sent = List Request

-- `(addr << 8) | 0x20` in 16 bits, for a register whose address is a byte.
abbrev pub demod_value : ℕ → ℕ
demod_value addr = addr % 256 * 256 + 0x20

-- `data`, of which `len` bytes are sent: 1, or any other number, which is 2.
abbrev pub demod_bytes : (val len : ℕ) → List ℕ
demod_bytes val len = if len == 1 then (val % 256) ∷ [] else ((val / 256 % 256) ∷ (val % 256) ∷ [])

abbrev pub is_length : ℤ → ℕ → Bool
is_length (pos n) len = n == len
is_length (negsuc n) len = false

-- `rtlsdr_demod_read_reg`: no caller here uses what is read.
unfoldable pub rtlsdr_demod_read_reg : (page addr len : ℕ) → Sent → Sent
rtlsdr_demod_read_reg page addr len sent = sent ++ ctrl_in (demod_value addr) page len ∷ []

-- What the last request returns, given all that was sent up to it.
module _ (answer : Sent → ℤ) where
  -- `rtlsdr_demod_write_reg`, of a page below 16.
  unfoldable pub rtlsdr_demod_write_reg : (page addr val len : ℕ) → Sent → Sent × ℤ
  unfolding rtlsdr_demod_read_reg
  rtlsdr_demod_write_reg page addr val len sent =
      let written = sent ++ ctrl_out (demod_value addr) (0x10 + page) (demod_bytes val len) ∷ [] in
      (
        rtlsdr_demod_read_reg 0x0a 0x01 1 written,
        if is_length (answer written) len then pos 0 else negsuc 0,
      )

  unfoldable pub rtlsdr_set_i2c_repeater : (on : Bool) → Sent → Sent
  unfolding rtlsdr_demod_write_reg
  rtlsdr_set_i2c_repeater on sent =
      (rtlsdr_demod_write_reg 1 0x01 (if on then 0x18 else 0x10) 1 sent).0
