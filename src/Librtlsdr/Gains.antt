-- ===== src/Librtlsdr/Gains.antt =====
-- rtlsdr_get_tuner_gains of rtlsdr/src/main/cpp/librtlsdr/src/librtlsdr.c.
pub mod Sorted
pub mod Percentage
use rtl_tcp_andro.Base.{ℕ, Bool, true, false, List, [], ◌∷◌, length, if◌then◌else◌}
use rtl_tcp_andro.Base.Int.{ℤ, pos, negsuc}
use rtl_tcp_andro.AndroidOpen.{RtlsdrTuner, unknown, e4000, fc0012, fc0013, fc2580, r820t, r828d}

abbrev pub r82xx_gains : List ℤ
r82xx_gains =
    pos 0
    ∷ pos 9
    ∷ pos 14
    ∷ pos 27
    ∷ pos 37
    ∷ pos 77
    ∷ pos 87
    ∷ pos 125
    ∷ pos 144
    ∷ pos 157
    ∷ pos 166
    ∷ pos 197
    ∷ pos 207
    ∷ pos 229
    ∷ pos 254
    ∷ pos 280
    ∷ pos 297
    ∷ pos 328
    ∷ pos 338
    ∷ pos 364
    ∷ pos 372
    ∷ pos 386
    ∷ pos 402
    ∷ pos 421
    ∷ pos 434
    ∷ pos 439
    ∷ pos 445
    ∷ pos 480
    ∷ pos 496
    ∷ []

-- In tenths of a dB; `negsuc 9` is -10.
abbrev pub tuner_gains : RtlsdrTuner → List ℤ
tuner_gains e4000 =
    negsuc 9
    ∷ pos 15
    ∷ pos 40
    ∷ pos 65
    ∷ pos 90
    ∷ pos 115
    ∷ pos 140
    ∷ pos 165
    ∷ pos 190
    ∷ pos 215
    ∷ pos 240
    ∷ pos 290
    ∷ pos 340
    ∷ pos 420
    ∷ []
tuner_gains fc0012 = negsuc 98 ∷ negsuc 39 ∷ pos 71 ∷ pos 179 ∷ pos 192 ∷ []
tuner_gains fc0013 =
    negsuc 98
    ∷ negsuc 72
    ∷ negsuc 64
    ∷ negsuc 62
    ∷ negsuc 59
    ∷ negsuc 57
    ∷ negsuc 53
    ∷ pos 58
    ∷ pos 61
    ∷ pos 63
    ∷ pos 65
    ∷ pos 67
    ∷ pos 68
    ∷ pos 70
    ∷ pos 71
    ∷ pos 179
    ∷ pos 181
    ∷ pos 182
    ∷ pos 184
    ∷ pos 186
    ∷ pos 188
    ∷ pos 191
    ∷ pos 197
    ∷ []
tuner_gains fc2580 = pos 0 ∷ []
tuner_gains r820t = r82xx_gains
tuner_gains r828d = r82xx_gains
tuner_gains unknown = pos 0 ∷ []

-- `rtlsdr_get_tuner_gains`: the count, and what stands in the caller's buffer, which has that many places
-- and is overwritten unless the pointer is NULL (`false`).
unfoldable pub rtlsdr_get_tuner_gains :
    RtlsdrTuner → (has_buffer : Bool) → (buffer : List ℤ) → ℕ × List ℤ
rtlsdr_get_tuner_gains tuner has_buffer buffer =
    (length (tuner_gains tuner), if has_buffer then tuner_gains tuner else buffer)
