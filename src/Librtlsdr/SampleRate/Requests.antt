-- ===== src/Librtlsdr/SampleRate/Requests.antt =====
-- The bytes that rtlsdr_set_sample_rate writes to the demodulator.
use rtl_tcp_andro.Base.{ℕ, ◌+◌, ◌/◌, ◌%◌, ◌^◌, ◌≡◌, refl, List, [], ◌∷◌, ◌++◌, arith, sym, ap, ◌∙◌}
use rtl_tcp_andro.Base.Int.{ℤ}
use rtl_tcp_andro.Base.Words.{be32}
use rtl_tcp_andro.Librtlsdr.Registers.{
  demod_value, ctrl_out, ctrl_in, set_bw, set_if_freq, set_center_freq, Sent, demod_bytes,
  rtlsdr_demod_read_reg, rtlsdr_demod_write_reg,
}
use rtl_tcp_andro.Librtlsdr.SampleRate.{
  correction_pattern, correction_low, correction_high, rtlsdr_set_sample_freq_correction,
  write_ratio,
}
use mathlib.Core.List.{append_assoc, append-nil}

-- All bytes of the transfers out, in order.
abbrev pub bytes_out : Sent → List ℕ
bytes_out [] = []
bytes_out (ctrl_out value index bytes ∷ rest) = bytes ++ bytes_out rest
bytes_out (ctrl_in value index len ∷ rest) = bytes_out rest
bytes_out (set_bw hz ∷ rest) = bytes_out rest
bytes_out (set_if_freq hz ∷ rest) = bytes_out rest
bytes_out (set_center_freq hz ∷ rest) = bytes_out rest

bytes_out-append : (a b : Sent) → bytes_out (a ++ b) ≡ bytes_out a ++ bytes_out b
bytes_out-append [] b = refl
bytes_out-append (ctrl_out value index bytes ∷ rest) b =
    ap (λ l. bytes ++ l) (bytes_out-append rest b)
    ∙ sym (append_assoc bytes (bytes_out rest) (bytes_out b))
bytes_out-append (ctrl_in value index len ∷ rest) b = bytes_out-append rest b
bytes_out-append (set_bw hz ∷ rest) b = bytes_out-append rest b
bytes_out-append (set_if_freq hz ∷ rest) b = bytes_out-append rest b
bytes_out-append (set_center_freq hz ∷ rest) b = bytes_out-append rest b

-- The two registers of the ratio.
abbrev ratio_bytes : ℕ → List ℕ
ratio_bytes ratio = demod_bytes (ratio / 2 ^ 16) 2 ++ demod_bytes (ratio % 2 ^ 16) 2

ratio_bytes-be32 : (ratio : ℕ) → ratio_bytes ratio ≡ be32 ratio
ratio_bytes-be32 ratio = ground arith

module _ (answer : Sent → ℤ) where
  bytes_out-write :
      (page addr val len : ℕ) (sent : Sent)
      → bytes_out (rtlsdr_demod_write_reg answer page addr val len sent).0
        ≡ bytes_out sent ++ demod_bytes val len
  unfolding rtlsdr_demod_write_reg rtlsdr_demod_read_reg
  bytes_out-write page addr val len sent =
      let out = ctrl_out (demod_value addr) (0x10 + page) (demod_bytes val len) in
      let inward = ctrl_in (demod_value 0x01) 0x0a 1 in
      bytes_out-append (sent ++ out ∷ []) (inward ∷ [])
      ∙ append-nil (bytes_out (sent ++ out ∷ []))
      ∙ bytes_out-append sent (out ∷ [])
      ∙ ap (λ l. bytes_out sent ++ l) (append-nil (demod_bytes val len))

  -- One more register, behind the bytes `front` that were sent since `sent`.
  bytes_out-next :
      (page addr val len : ℕ) (s sent : Sent) (front : List ℕ)
      → bytes_out s ≡ bytes_out sent ++ front
      → bytes_out (rtlsdr_demod_write_reg answer page addr val len s).0
        ≡ bytes_out sent ++ (front ++ demod_bytes val len)
  bytes_out-next page addr val len s sent front e =
      bytes_out-write page addr val len s
      ∙ ap (λ l. l ++ demod_bytes val len) e
      ∙ append_assoc (bytes_out sent) front (demod_bytes val len)

  -- Whatever the transfers return, the demodulator is sent: the ratio of 32 bits, most significant byte
  -- first, the two bytes of the correction, and the two values that reset it.
  pub write_ratio-bytes :
      (corr : ℤ) (ratio : ℕ) (sent : Sent)
      → bytes_out (write_ratio answer corr ratio sent).0
        ≡ bytes_out sent
          ++ (be32 ratio
              ++ (correction_low (correction_pattern corr) % 256)
                ∷ (correction_high (correction_pattern corr) % 256)
                ∷ 0x14
                ∷ 0x10
                ∷ [])
  unfolding write_ratio rtlsdr_set_sample_freq_correction
  write_ratio-bytes corr ratio sent =
      let low = correction_low (correction_pattern corr) in
      let high = correction_high (correction_pattern corr) in
      let s1 = (rtlsdr_demod_write_reg answer 1 0x9f (ratio / 2 ^ 16) 2 sent).0 in
      let s2 = (rtlsdr_demod_write_reg answer 1 0xa1 (ratio % 2 ^ 16) 2 s1).0 in
      let s3 = (rtlsdr_demod_write_reg answer 1 0x3f low 1 s2).0 in
      let s4 = (rtlsdr_demod_write_reg answer 1 0x3e high 1 s3).0 in
      let s5 = (rtlsdr_demod_write_reg answer 1 0x01 0x14 1 s4).0 in
      let e1 = bytes_out-write 1 0x9f (ratio / 2 ^ 16) 2 sent in
      let e2 = bytes_out-next 1 0xa1 (ratio % 2 ^ 16) 2 s1 sent _ e1 in
      let e3 = bytes_out-next 1 0x3f low 1 s2 sent _ e2 in
      let e4 = bytes_out-next 1 0x3e high 1 s3 sent _ e3 in
      let e5 = bytes_out-next 1 0x01 0x14 1 s4 sent _ e4 in
      let same : ratio_bytes ratio ≡ be32 ratio = ratio_bytes-be32 ratio in
      bytes_out-next 1 0x01 0x10 1 s5 sent _ e5
      ∙ ap (λ l. bytes_out sent ++ (l ++ (low % 256) ∷ (high % 256) ∷ 0x14 ∷ 0x10 ∷ [])) same
