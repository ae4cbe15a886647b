-- ===== src/Librtlsdr/SampleRate/Correction.antt =====
-- The correction of the sampling frequency in the two registers that hold it, which have 14 bits.
use rtl_tcp_andro.Base.{
  ℕ, zero, suc, ◌-◌, ◌*◌, ◌/◌, ◌%◌, ◌^◌, ltb, if◌then◌else◌, [], ◌∷◌, ◌==◌, ◌&&◌,
}
use rtl_tcp_andro.Base.Int.{ℤ, pos, negsuc}
use rtl_tcp_andro.Librtlsdr.Registers.{demod_value, ctrl_out, ctrl_in, Sent}

-- The number that 14 bits stand for.
abbrev pub signed14 : ℕ → ℤ
signed14 w = if ltb w (2 ^ 13) then pos w else negsuc (2 ^ 14 - w - 1)

abbrev pub negated : ℕ → ℤ
negated zero = pos 0
negated (suc n) = negsuc n

-- The reference: `-ppm * 2 ^ 24 / 1000000`, cut off towards 0.
abbrev pub correction : (ppm : ℤ) → ℤ
correction (pos p) = negated (p * 2 ^ 24 / 1000000)
correction (negsuc n) = pos (suc n * 2 ^ 24 / 1000000)

abbrev pub magnitude : ℤ → ℕ
magnitude (pos n) = n
magnitude (negsuc n) = suc n

-- What a register of one byte holds after these requests: what was written to it last, by a control
-- transfer with this wValue and wIndex.
unfoldable pub held : (value index start : ℕ) → Sent → ℕ
held value index start [] = start
held value index start (ctrl_out v i (b ∷ []) ∷ rest) =
    held value index (if v == value && i == index then b else start) rest
held value index start (_ ∷ rest) = held value index start rest

-- A register of page 1 of the demodulator.
abbrev pub demod_held : (addr start : ℕ) → Sent → ℕ
demod_held addr start sent = held (demod_value addr) 0x11 start sent

-- The requests of the two writes.
abbrev writes : (low high : ℕ) → Sent
writes low high =
    ctrl_out (demod_value 0x3f) 0x11 ((low % 256) ∷ [])
    ∷ ctrl_in (demod_value 0x01) 0x0a 1
    ∷ ctrl_out (demod_value 0x3e) 0x11 ((high % 256) ∷ [])
    ∷ ctrl_in (demod_value 0x01) 0x0a 1
    ∷ []
