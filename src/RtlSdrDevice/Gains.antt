-- ===== src/RtlSdrDevice/Gains.antt =====
-- set_gain_by_index and set_gain_by_perc of rtlsdr/src/main/cpp/src/rtlsdrdevice.c.
use rtl_tcp_andro.Base.{
  ℕ, zero, suc, ◌-◌, ◌*◌, ◌/◌, ◌^◌, ◌≤◌, ◌<◌, ◌≡◌, refl, ◌&&◌, none, some, List, [], ◌∷◌, ltb, leb,
  if◌then◌else◌, length, get_elem?, arith, ◌∙◌, Bool-cases, inl, inr, if-true, if-false,
}
use rtl_tcp_andro.Base.Int.{ℤ, pos}
use rtl_tcp_andro.RtlSdrDevice.{
  set_tuner_gain, Dongle, set_listed_gain, set_gain_by_index, percent_index, set_gain_by_perc,
}

in_bounds {ℓ} :
    {A : Type ℓ} (xs : List A) (i : ℕ) → i < length xs → (x : A) × (get_elem? xs i ≡ some x)
in_bounds [] i h = absurd (omega arith)
in_bounds (x ∷ xs) zero h = (x, refl)
in_bounds (x ∷ xs) (suc i) h = in_bounds xs i (omega arith)

out_of_bounds {ℓ} : {A : Type ℓ} (xs : List A) (i : ℕ) → length xs ≤ i → get_elem? xs i ≡ none
out_of_bounds [] i h = refl
out_of_bounds (x ∷ xs) zero h = absurd (omega arith)
out_of_bounds (x ∷ xs) (suc i) h = out_of_bounds xs i (omega arith)

listed :
    (d : Dongle) (i : ℕ)
    → i < length d.gains
    → (g : ℤ) × (get_elem? d.gains i ≡ some g)
      × (set_listed_gain d i ≡ some (set_tuner_gain g ∷ [], d.answer (set_tuner_gain g)))
unfolding set_listed_gain
listed d i h = let (g, e) = in_bounds d.gains i h in (g, e, rw e)

-- librtlsdr keeps its word: it writes as many gains as it announces, a positive int.
pub record HasGains (d : Dongle) : Type 0 where
  pub counted : d.gain_count ≡ length d.gains
  pub some_gain : 0 < d.gain_count
  pub is_int : d.gain_count < 2 ^ 31

percent_index-bound :
    (count percent : ℕ) → 0 < count → count < 2 ^ 31 → percent_index count percent < count
unfolding percent_index
percent_index-bound count percent p h = ground arith

-- Whatever the percentage, the index is that of a gain, and that gain is set.
pub set_gain_by_perc-bounds :
    (d : Dongle) (percent : ℕ)
    → HasGains d
    → (g : ℤ) × (percent_index d.gain_count percent < length d.gains)
      × (get_elem? d.gains (percent_index d.gain_count percent) ≡ some g)
      × (set_gain_by_perc d percent ≡ some (set_tuner_gain g ∷ [], d.answer (set_tuner_gain g)))
unfolding set_gain_by_perc
set_gain_by_perc-bounds d percent has =
    let b : percent_index d.gain_count percent < length d.gains =
      omega
        (arith, percent_index-bound d.gain_count percent has.some_gain has.is_int, has.counted) in
    let (g, e, s) = listed d (percent_index d.gain_count percent) b in (g, b, e, s)

mul_mono : (p q c : ℕ) → p ≤ q → p * c ≤ q * c
mul_mono p q zero h = omega arith
mul_mono p q (suc c) h = omega (arith, mul_mono p q c h)

percent_index_small :
    (count percent : ℕ)
    → percent ≤ 100
    → 100 * count < 2 ^ 32
    → 0 < count
    → percent_index count percent
      ≡ (if leb count (percent * count / 100) then count - 1 else percent * count / 100)
unfolding percent_index
percent_index_small count percent h s p =
    let small : percent * count < 2 ^ 32 = omega (arith, mul_mono percent 100 count h) in
    ground arith

-- Of at most 2 ^ 32 / 100 gains, 0 percent sets the first and 100 percent the last one, and between them
-- a larger percentage never sets a gain earlier in the list.
pub percent_index_order :
    (count p q : ℕ)
    → 0 < count
    → 100 * count < 2 ^ 32
    → p ≤ q
    → q ≤ 100
    → (percent_index count 0 ≡ 0)
      × (percent_index count 100 ≡ count - 1)
      × (percent_index count p ≤ percent_index count q)
percent_index_order count p q positive small le top =
    let m = mul_mono p q count le in
    rw
      (
        percent_index_small count 0 (omega arith) small positive,
        percent_index_small count 100 (omega arith) small positive,
        percent_index_small count p (omega arith) small positive,
        percent_index_small count q top small positive,
      )
      (ground arith, ground arith, ground arith)

-- A list of no gains: every percentage leads to index 2 ^ 32 - 1, outside of the array.
pub set_gain_by_perc_without_gains :
    (d : Dongle) (percent : ℕ)
    → d.gain_count ≡ 0
    → d.gains ≡ []
    → (percent_index d.gain_count percent ≡ 2 ^ 32 - 1) × (set_gain_by_perc d percent ≡ none)
unfolding set_gain_by_perc percent_index set_listed_gain
set_gain_by_perc_without_gains d percent z e =
    let last : percent_index d.gain_count percent ≡ 2 ^ 32 - 1 = ground arith in
    (last, rw (out_of_bounds d.gains (percent_index d.gain_count percent) (rw e (omega arith))))

-- By index, the gain at that index is set, and an index past the end sets none and returns 0.
pub set_gain_by_index_lem :
    (d : Dongle) (index : ℕ)
    → HasGains d
    → set_gain_by_index d index ≡ elim (get_elem? d.gains index) [
      | some g ↦ some (set_tuner_gain g ∷ [], d.answer (set_tuner_gain g))
      | none ↦ some ([], pos 0)
    ]
unfolding set_gain_by_index
set_gain_by_index_lem d index has = elim (Bool-cases (ltb index d.gain_count)) [
  | inl l ↦
      let (g, e, s) = listed d index (ground (arith, has.counted)) in
      if-true (ltb 0 d.gain_count && ltb d.gain_count (2 ^ 31) && ltb index d.gain_count) _ _
        (ground (arith, has.some_gain, has.is_int))
      ∙ s
      ∙ rw e
  | inr l ↦
      if-false (ltb 0 d.gain_count && ltb d.gain_count (2 ^ 31) && ltb index d.gain_count) _ _
        (ground (arith, has.some_gain, has.is_int))
      ∙ rw (out_of_bounds d.gains index (ground (arith, has.counted)))
]
