-- ===== src/Librtlsdr/Eeprom.antt =====
-- rtlsdr_write_eeprom and rtlsdr_read_eeprom of rtlsdr/src/main/cpp/librtlsdr/src/librtlsdr.c. The EEPROM
-- behind the I2C bus is a parameter: a type of its states, and what the two transfers do to it.
pub mod Memory
use rtl_tcp_andro.Base.{
  ℕ, zero, suc, ◌+◌, ◌%◌, Bool, true, false, Option, none, some, List, [], ◌∷◌, ◌++◌, ◌==◌, ltb,
  length, if◌then◌else◌,
}
use rtl_tcp_andro.Base.Int.{ℤ, pos, negsuc, is_negative}

-- rtlsdr_write_array and rtlsdr_read_array at EEPROM_ADDR: the bytes written and the result; the byte
-- read, where the transfer gives one, and the result.
pub record I2c (S : Type 0) : Type 0 where
  pub write_array : S → List ℕ → S × ℤ
  pub read_array : S → S × Option ℕ × ℤ

-- The array's byte after a read: the old one where the transfer gave none.
abbrev pub or_old : Option ℕ → ℕ → ℕ
or_old none old = old
or_old (some b) old = b

-- The test `r != sizeof(cmd)`, for the two bytes of `cmd`.
abbrev pub is_two : ℤ → Bool
is_two (pos n) = n == 2
is_two (negsuc n) = false

module _ {S : Type 0} (bus : I2c S) where
  -- One byte: it is read first, and written only if it differs. The second result is whether the loop
  -- goes on. `cmd1` is `cmd[1]`, which a failing read leaves.
  unfoldable pub write_byte : (cmd1 at v : ℕ) → S → S × Bool
  write_byte cmd1 at v s =
      let addressed = (bus.write_array s (at % 256 ∷ [])).0 in
      let (seen, got, _) = bus.read_array addressed in
      let (stored, r) = bus.write_array seen (at % 256 ∷ v ∷ []) in
      if or_old got cmd1 == v then (seen, true) else (stored, is_two r)

  -- The loop over the bytes from `i + offset` on; `cmd[1]` holds the byte that was written last.
  unfoldable pub write_bytes : (cmd1 at : ℕ) → List ℕ → S → S × ℤ
  unfolding write_byte
  write_bytes cmd1 at [] s = (s, pos 0)
  write_bytes cmd1 at (v ∷ vs) s =
      let (after, goes_on) = write_byte cmd1 at v s in
      elim goes_on [ true ↦ write_bytes v (at + 1) vs after | false ↦ (after, negsuc 2) ]

  -- `rtlsdr_write_eeprom`; `junk` stands in the new array `cmd`. All of `values` is written.
  unfoldable pub rtlsdr_write_eeprom : (junk : ℕ) → S → (values : List ℕ) → (offset : ℕ) → S × ℤ
  unfolding write_bytes
  rtlsdr_write_eeprom junk s values offset =
      if ltb 256 (length values + offset) then (s, negsuc 1) else write_bytes junk offset values s

  -- The loop that reads: the caller's array afterwards, and `r`. A byte that no transfer gives stays.
  unfoldable pub read_bytes : (old : List ℕ) → (r : ℤ) → S → S × List ℕ × ℤ
  read_bytes [] r s = (s, [], r)
  read_bytes (o ∷ old) r s =
      let (seen, got, r') = bus.read_array s in
      let (after, values, result) = read_bytes old r' seen in
      if is_negative r'
      then (seen, or_old got o ∷ old, negsuc 2)
      else (after, or_old got o ∷ values, result)

  -- `rtlsdr_read_eeprom` into an array of `len` bytes.
  unfoldable pub rtlsdr_read_eeprom : S → (old : List ℕ) → (offset : ℕ) → S × List ℕ × ℤ
  unfolding read_bytes
  rtlsdr_read_eeprom s old offset =
      let (selected, r) = bus.write_array s (offset % 256 ∷ []) in
      if ltb 256 (length old + offset)
      then (s, old, negsuc 1)
      else (if is_negative r then (selected, old, negsuc 2) else read_bytes old r selected)
