-- ===== src/Librtlsdr/Eeprom/Memory.antt =====
-- What rtlsdr_write_eeprom and rtlsdr_read_eeprom do to the memory of an EEPROM, and that what was
-- written is read back.
use rtl_tcp_andro.Base.{
  ℕ, zero, suc, ◌+◌, ◌%◌, ◌≤◌, ◌<◌, ◌≡◌, refl, true, false, some, List, [], ◌∷◌, ◌==◌, ltb, length,
  if◌then◌else◌, arith, sym, ap, ◌∙◌, Bool-cases, inl, inr, if-false, if-true, ==_iff,
}
use rtl_tcp_andro.Base.Int.{ℤ, pos, negsuc, is_negative}
use rtl_tcp_andro.Base.Words.{IsBytes}
use rtl_tcp_andro.Librtlsdr.Eeprom.{
  I2c, or_old, write_byte, write_bytes, rtlsdr_write_eeprom, read_bytes, rtlsdr_read_eeprom,
}

-- One byte stored.
abbrev pub put : (ℕ → ℕ) → ℕ → ℕ → ℕ → ℕ
put m at v a = if at == a then v else m a

-- The reference: all bytes stored one after another, from `at` on.
abbrev pub put_all : (ℕ → ℕ) → ℕ → List ℕ → ℕ → ℕ
put_all m at [] a = m a
put_all m at (v ∷ vs) a = put_all (put m at v) (at + 1) vs a

put_all-cong :
    (m m' : ℕ → ℕ) (at : ℕ) (vs : List ℕ)
    → ((a : ℕ) → m a ≡ m' a)
    → (a : ℕ) → put_all m at vs a ≡ put_all m' at vs a
put_all-cong m m' at [] same a = same a
put_all-cong m m' at (v ∷ vs) same a =
    put_all-cong (put m at v) (put m' at v) (at + 1) vs
      (λ b. ap (λ x. if at == b then v else x) (same b)) a

-- Before `at` nothing changes.
put_all-before : (m : ℕ → ℕ) (at : ℕ) (vs : List ℕ) (a : ℕ) → a < at → put_all m at vs a ≡ m a
put_all-before m at [] a h = refl
put_all-before m at (v ∷ vs) a h =
    put_all-before (put m at v) (at + 1) vs a (omega arith)
    ∙ if-false (at == a) v (m a) (ground arith)

put_same : (m : ℕ → ℕ) (at v a : ℕ) → m at ≡ v → m a ≡ put m at v a
put_same m at v a e = elim (Bool-cases (at == a)) [
  | inl t ↦ ap m (sym ((==_iff at a).0 t)) ∙ e ∙ sym (if-true (at == a) v (m a) t)
  | inr f ↦ sym (if-false (at == a) v (m a) f)
]

-- `n` cells from `at` on.
abbrev pub cells_from : (ℕ → ℕ) → ℕ → ℕ → List ℕ
cells_from m at zero = []
cells_from m at (suc n) = m at ∷ cells_from m (at + 1) n

cells_from-cong :
    (m m' : ℕ → ℕ) (at n : ℕ) → ((a : ℕ) → m a ≡ m' a) → cells_from m at n ≡ cells_from m' at n
cells_from-cong m m' at zero same = refl
cells_from-cong m m' at (suc n) same =
    rw (same at) (ap (λ l. m' at ∷ l) (cells_from-cong m m' (at + 1) n same))

-- Reading where bytes were stored gives them.
cells_from-put_all :
    (m : ℕ → ℕ) (at : ℕ) (vs : List ℕ) → cells_from (put_all m at vs) at (length vs) ≡ vs
cells_from-put_all m at [] = refl
cells_from-put_all m at (v ∷ vs) =
    rw
      (
        put_all-before (put m at v) (at + 1) vs at (omega arith),
        if-true (at == at) v (m at) (ground arith),
      )
      (ap (λ l. v ∷ l) (cells_from-put_all (put m at v) (at + 1) vs))

module _ {S : Type 0} (bus : I2c S) (cells : S → ℕ → ℕ) (address : S → ℕ) where
  -- What the data sheet of a 24C02 says: one byte written selects an address; two store a byte; a read
  -- gives the byte at the address and goes on to the next one.
  pub record IsEeprom : Type 0 where
    pub selected :
        (s : S) (a : ℕ)
        → a < 256
        → (address (bus.write_array s (a ∷ [])).0 ≡ a)
          × ((bus.write_array s (a ∷ [])).1 ≡ pos 1)
          × ((b : ℕ) → cells (bus.write_array s (a ∷ [])).0 b ≡ cells s b)
    pub stored :
        (s : S) (a v : ℕ)
        → a < 256
        → v < 256
        → ((bus.write_array s (a ∷ v ∷ [])).1 ≡ pos 2)
          × ((b : ℕ) → cells (bus.write_array s (a ∷ v ∷ [])).0 b ≡ put (cells s) a v b)
    pub seen :
        (s : S)
        → ((bus.read_array s).1 ≡ some (cells s (address s)))
          × ((bus.read_array s).2 ≡ pos 1)
          × (address (bus.read_array s).0 ≡ (address s + 1) % 256)
          × ((b : ℕ) → cells (bus.read_array s).0 b ≡ cells s b)

  module _ (laws : IsEeprom) where
    -- A byte that is there already is not written again, and the memory is the same.
    write_byte-put :
        (cmd1 at v : ℕ) (s : S)
        → at < 256
        → v < 256
        → ((write_byte bus cmd1 at v s).1 ≡ true)
          × ((a : ℕ) → cells (write_byte bus cmd1 at v s).0 a ≡ put (cells s) at v a)
    unfolding write_byte
    write_byte-put cmd1 at v s h hv =
        let small : at % 256 ≡ at = omega arith in
        let addressed = (bus.write_array s (at ∷ [])).0 in
        let (at_a, _, same) = laws.selected s at h in
        let (got, _, _, same') = laws.seen addressed in
        let seen = (bus.read_array addressed).0 in
        let (two, put_v) = laws.stored seen at v h hv in
        let there : or_old (bus.read_array addressed).1 cmd1 ≡ cells s at =
          ap (λ o. or_old o cmd1) got ∙ ap (λ x. cells addressed x) at_a ∙ same at in
        let kept : (a : ℕ) → cells seen a ≡ cells s a = λ a. same' a ∙ same a in
        rw (small, there)
          (elim (Bool-cases (cells s at == v)) [
            | inl e ↦
                rw e (refl, λ a. kept a ∙ put_same (cells s) at v a ((==_iff (cells s at) v).0 e))
            | inr e ↦ rw (e, two) (refl, λ a. put_v a ∙ ap (λ x. if at == a then v else x) (kept a))
          ])

    write_bytes-put_all :
        (cmd1 at : ℕ) (vs : List ℕ) (s : S)
        → at + length vs ≤ 256
        → IsBytes vs
        → ((write_bytes bus cmd1 at vs s).1 ≡ pos 0)
          × ((a : ℕ) → cells (write_bytes bus cmd1 at vs s).0 a ≡ put_all (cells s) at vs a)
    unfolding write_bytes
    write_bytes-put_all cmd1 at [] s h b = (refl, λ a. refl)
    write_bytes-put_all cmd1 at (v ∷ vs) s h (hv, b) =
        let (goes_on, put_v) = write_byte-put cmd1 at v s (omega arith) hv in
        let after = (write_byte bus cmd1 at v s).0 in
        let (zero_result, all) = write_bytes-put_all v (at + 1) vs after (omega arith) b in
        rw (write_bytes, goes_on)
          (
            zero_result,
            λ a. all a ∙ put_all-cong (cells after) (put (cells s) at v) (at + 1) vs put_v a,
          )

    -- On an EEPROM, bytes that end inside of its 256 cells: the result is 0, and the memory is that of
    -- the reference, which stores every byte, also where it does not differ.
    pub rtlsdr_write_eeprom-put_all :
        (junk : ℕ) (s : S) (vs : List ℕ) (offset : ℕ)
        → length vs + offset ≤ 256
        → IsBytes vs
        → ((rtlsdr_write_eeprom bus junk s vs offset).1 ≡ pos 0)
          × ((a : ℕ)
              → cells (rtlsdr_write_eeprom bus junk s vs offset).0 a
                ≡ put_all (cells s) offset vs a)
    unfolding rtlsdr_write_eeprom
    rtlsdr_write_eeprom-put_all junk s vs offset h b =
        let inside : ltb 256 (length vs + offset) ≡ false = ground arith in
        rw inside (write_bytes-put_all junk offset vs s (omega (arith, h)) b)

    read_bytes-cells_from :
        (old : List ℕ) (r : ℤ) (s : S) (at : ℕ)
        → address s ≡ at % 256
        → at + length old ≤ 256
        → is_negative r ≡ false
        → ((read_bytes bus old r s).1 ≡ cells_from (cells s) at (length old))
          × (is_negative (read_bytes bus old r s).2 ≡ false)
    unfolding read_bytes
    read_bytes-cells_from [] r s at e h p = (refl, p)
    read_bytes-cells_from (o ∷ old) r s at e h p =
        let (got, one, next, same) = laws.seen s in
        let seen = (bus.read_array s).0 in
        let here : address s ≡ at = e ∙ omega arith in
        let next_at : address seen ≡ (at + 1) % 256 = next ∙ ap (λ x. (x + 1) % 256) here in
        let went_well : is_negative (bus.read_array s).2 ≡ false = ap is_negative one in
        let (rest, fine) =
          read_bytes-cells_from old (bus.read_array s).2 seen (at + 1) next_at (omega arith)
            went_well in
        let same_rest = cells_from-cong (cells seen) (cells s) (at + 1) (length old) same in
        let step =
          if-false (is_negative (bus.read_array s).2)
            (seen, or_old (bus.read_array s).1 o ∷ old, negsuc 2)
            (
              (read_bytes bus old (bus.read_array s).2 seen).0,
              or_old (bus.read_array s).1 o ∷ (read_bytes bus old (bus.read_array s).2 seen).1,
              (read_bytes bus old (bus.read_array s).2 seen).2,
            )
            went_well in
        let byte : or_old (bus.read_array s).1 o ≡ cells s at =
          ap (λ b. or_old b o) got ∙ ap (λ a. cells s a) here in
        (
          ap (λ (t : S × List ℕ × ℤ). t.1) step
              ∙ ap (λ b. b ∷ (read_bytes bus old (bus.read_array s).2 seen).1) byte
              ∙ ap (λ l. cells s at ∷ l) (rest ∙ same_rest),
          ap (λ (t : S × List ℕ × ℤ). is_negative t.2) step ∙ fine,
        )

    -- On an EEPROM, into an array that ends inside of its 256 cells: the array holds the cells from the
    -- offset on, and the result is no error.
    pub rtlsdr_read_eeprom-cells_from :
        (s : S) (old : List ℕ) (offset : ℕ)
        → 0 < length old
        → length old + offset ≤ 256
        → ((rtlsdr_read_eeprom bus s old offset).1 ≡ cells_from (cells s) offset (length old))
          × (is_negative (rtlsdr_read_eeprom bus s old offset).2 ≡ false)
    unfolding rtlsdr_read_eeprom
    rtlsdr_read_eeprom-cells_from s old offset n h =
        let small : offset % 256 ≡ offset = omega arith in
        let inside : ltb 256 (length old + offset) ≡ false = ground arith in
        let (at_offset, one, same) = laws.selected s offset (omega arith) in
        let selected = (bus.write_array s (offset ∷ [])).0 in
        let (got, fine) =
          read_bytes-cells_from old (pos 1) selected offset (at_offset ∙ omega arith) (omega arith)
            refl in
        rw (small, inside, one)
          (got ∙ cells_from-cong (cells selected) (cells s) offset (length old) same, fine)

    -- What was written is read back from the same offset.
    pub rtlsdr_read_eeprom-write :
        (junk : ℕ) (s : S) (vs old : List ℕ) (offset : ℕ)
        → 0 < length vs
        → length vs + offset ≤ 256
        → IsBytes vs
        → length old ≡ length vs
        → ((rtlsdr_write_eeprom bus junk s vs offset).1 ≡ pos 0)
          × ((rtlsdr_read_eeprom bus (rtlsdr_write_eeprom bus junk s vs offset).0 old offset).1
              ≡ vs)
    rtlsdr_read_eeprom-write junk s vs old offset n h b l =
        let (zero_result, all) = rtlsdr_write_eeprom-put_all junk s vs offset h b in
        let written = (rtlsdr_write_eeprom bus junk s vs offset).0 in
        let (got, _) =
          rtlsdr_read_eeprom-cells_from written old offset (omega arith) (omega arith) in
        (
          zero_result,
          got
              ∙ ap (cells_from (cells written) offset) l
              ∙ cells_from-cong (cells written) (put_all (cells s) offset vs) offset (length vs) all
              ∙ cells_from-put_all (cells s) offset vs,
        )
