-- ===== src/RtlSdrDevice/Commands.antt =====
-- tcpCommandCallback and SUPPORTED_COMMANDS of rtlsdr/src/main/cpp/src/rtlsdrdevice.c.
use rtl_tcp_andro.Base.{
  zero, suc, ◌⊎◌, ◌/◌, ◌%◌, ◌^◌, ◌<◌, ℕ, ◌≡◌, ◌≢◌, refl, Option, none, some, List, [], ◌∷◌, ◌++◌,
  ◌==◌, ◌>>=◌, if◌then◌else◌, if-both, if-true, if-false, get_elem?, arith, ap, sym, ◌∙◌,
  Bool-cases, inl, inr, Option-cases,
}
use mathlib.Core.Option.{some-injective}
use rtl_tcp_andro.Base.Int.{ℤ, pos}
use rtl_tcp_andro.SdrTcp.{SdrTcp, Effect, sdrtcp_stop_serving_client}
use rtl_tcp_andro.SdrTcp.Listener.{SdrTcpCommand}
use rtl_tcp_andro.RtlSdrDevice.Gains.{HasGains, set_gain_by_perc-bounds, set_gain_by_index_lem}
use rtl_tcp_andro.RtlSdrDevice.{
  Call, Dongle, TcpCommand, set_freq, set_rate, set_gain_mode, set_gain, set_correction,
  set_if_tuner_gain, set_test_mode, set_agc, set_sampling, set_offset, set_rtl_xtal, set_tuner_xtal,
  set_tuner_gain_by_id, android_gain_by_percentage, android_exit, android_enable_16_bit_signed,
  tcp_code, supported_commands, all_commands, find_command, perform, perform_if, just_call,
  tcp_command_callback, set_gain_by_index, set_tuner_gain, set_center_freq, set_sample_rate,
  set_tuner_gain_mode, set_freq_correction, set_tuner_if_gain, set_testmode, set_agc_mode,
  set_direct_sampling, set_offset_tuning, set_xtal_freq,
}
use rtl_tcp_andro.Base.Words.{signed16, signed32}

-- A number that is not the code of a supported command.
abbrev pub IsUnsupported : ℕ → Type 0
IsUnsupported n = find_command n supported_commands ≡ none

find_command-append :
    (n : ℕ) (cs ds : List TcpCommand)
    → find_command n cs ≡ none
    → find_command n (cs ++ ds) ≡ find_command n ds
find_command-append n [] ds e = refl
find_command-append n (c ∷ cs) ds e = ground (arith, find_command-append n cs ds)

-- A command whose code is not in SUPPORTED_COMMANDS has no effect.
pub tcp_command_callback-unsupported :
    (d : Option Dongle) (obj : SdrTcp) (n parameter : ℕ)
    → IsUnsupported n
    → tcp_command_callback d obj (record { command = n; parameter = parameter })
      ≡ some (obj, [], [])
unfolding tcp_command_callback perform_if perform
tcp_command_callback-unsupported none obj n p e = refl
tcp_command_callback-unsupported (some d) obj n p e =
    rw (find_command-append n supported_commands (android_enable_16_bit_signed ∷ []) e)
      (if-both (λ c. perform_if d obj c p ≡ some (obj, [], [])) (128 == n) refl refl)

-- What the command with code `n` makes of the server, and what is closed.
abbrev pub after_command : ℕ → SdrTcp → SdrTcp × List Effect
after_command n obj =
    if n == tcp_code android_exit then sdrtcp_stop_serving_client obj else (obj, [])

-- The calls that the codes from 0 to 12 ask for, by the code.
abbrev pub numbered : (parameter : ℕ) → List (List Call)
numbered p =
    []
    ∷ (set_center_freq p ∷ [])
    ∷ (set_sample_rate p ∷ [])
    ∷ (set_tuner_gain_mode (signed32 p) ∷ [])
    ∷ (set_tuner_gain (signed32 p) ∷ [])
    ∷ (set_freq_correction (signed32 p) ∷ [])
    ∷ (set_tuner_if_gain (pos (p / 2 ^ 16)) (signed16 (p % 2 ^ 16)) ∷ [])
    ∷ (set_testmode (signed32 p) ∷ [])
    ∷ (set_agc_mode (signed32 p) ∷ [])
    ∷ (set_direct_sampling (signed32 p) ∷ [])
    ∷ (set_offset_tuning (signed32 p) ∷ [])
    ∷ (set_xtal_freq p 0 ∷ [])
    ∷ (set_xtal_freq 0 p ∷ [])
    ∷ []

abbrev pub or_nothing : Option (List Call) → List Call
or_nothing none = []
or_nothing (some calls) = calls

abbrev pub listed : Option ℤ → List Call
listed none = []
listed (some gain) = set_tuner_gain gain ∷ []

-- The calls that the code `n` asks for: 13 a gain by its index, if there is one, 127 some gain of the list,
-- and any other number what `numbered` has for it.
abbrev pub IsAsked : Dongle → (n parameter : ℕ) → List Call → Type 0
IsAsked d n p calls =
    ((n ≡ 13) × (calls ≡ listed (get_elem? d.gains p)))
    ⊎ (((n ≡ 127)
          × (i : ℕ) × (g : ℤ) × (get_elem? d.gains i ≡ some g)
          × (calls ≡ set_tuner_gain g ∷ []))
        ⊎ ((n ≢ 13) × (n ≢ 127) × (calls ≡ or_nothing (get_elem? (numbered p) n))))

-- A result that leaves the server so, with calls of librtlsdr as asked for.
abbrev pub IsReaction :
    Dongle
    → (n parameter : ℕ) → SdrTcp × List Effect
    → Option (SdrTcp × List Call × List Effect)
    → Type 0
IsReaction d n p (server, effects) o =
    (calls : List Call) × (o ≡ some (server, calls, effects)) × IsAsked d n p calls

one_call :
    (d : Dongle) (n p : ℕ) (obj : SdrTcp) (c : Call)
    → n < 13
    → c ∷ [] ≡ or_nothing (get_elem? (numbered p) n)
    → IsReaction d n p (obj, []) (just_call obj c)
unfolding just_call
one_call d n p obj c h e =
    (c ∷ [], refl, inr (inr ((λ k. omega (arith, k)), (λ k. omega (arith, k)), e)))

by_index-IsReaction :
    (d : Dongle) (obj : SdrTcp) (index : ℕ) (g : Option ℤ)
    → HasGains d
    → get_elem? d.gains index ≡ g
    → IsReaction d 13 index
        (obj, [])
        (set_gain_by_index d index >>= λ (calls, result). some (obj, calls, []))
by_index-IsReaction d obj index none has e =
    rw (set_gain_by_index_lem d index has, e) ([], refl, inl (refl, refl))
by_index-IsReaction d obj index (some g) has e =
    rw (set_gain_by_index_lem d index has, e) (set_tuner_gain g ∷ [], refl, inl (refl, refl))

perform_reacts :
    (d : Dongle) (obj : SdrTcp) (c : TcpCommand) (p : ℕ)
    → HasGains d
    → IsReaction d (tcp_code c) p (after_command (tcp_code c) obj) (perform d obj c p)
unfolding perform
perform_reacts d obj set_freq p has = one_call d 1 p obj _ (omega arith) refl
perform_reacts d obj set_rate p has = one_call d 2 p obj _ (omega arith) refl
perform_reacts d obj set_gain_mode p has = one_call d 3 p obj _ (omega arith) refl
perform_reacts d obj set_gain p has = one_call d 4 p obj _ (omega arith) refl
perform_reacts d obj set_correction p has = one_call d 5 p obj _ (omega arith) refl
perform_reacts d obj set_if_tuner_gain p has = one_call d 6 p obj _ (omega arith) refl
perform_reacts d obj set_test_mode p has = one_call d 7 p obj _ (omega arith) refl
perform_reacts d obj set_agc p has = one_call d 8 p obj _ (omega arith) refl
perform_reacts d obj set_sampling p has = one_call d 9 p obj _ (omega arith) refl
perform_reacts d obj set_offset p has = one_call d 10 p obj _ (omega arith) refl
perform_reacts d obj set_rtl_xtal p has = one_call d 11 p obj _ (omega arith) refl
perform_reacts d obj set_tuner_xtal p has = one_call d 12 p obj _ (omega arith) refl
perform_reacts d obj set_tuner_gain_by_id p has =
    by_index-IsReaction d obj p (get_elem? d.gains p) has refl
perform_reacts d obj android_exit p has =
    ([], refl, inr (inr ((λ k. omega (arith, k)), (λ k. omega (arith, k)), refl)))
perform_reacts d obj android_gain_by_percentage p has =
    let (g, b, e, s) = set_gain_by_perc-bounds d p has in
    rw s (set_tuner_gain g ∷ [], refl, inr (inl (refl, _, g, e, refl)))
perform_reacts d obj android_enable_16_bit_signed p has =
    ([], refl, inr (inr ((λ k. omega (arith, k)), (λ k. omega (arith, k)), refl)))

find_command-tcp_code :
    (n : ℕ) (cs : List TcpCommand) (c : TcpCommand) → find_command n cs ≡ some c → tcp_code c ≡ n
find_command-tcp_code n [] c e = absurd cc
find_command-tcp_code n (d ∷ cs) c e = elim (Bool-cases (tcp_code d == n)) [
  | inl t ↦
      ap tcp_code (sym (some-injective d c (sym (if-true (tcp_code d == n) _ _ t) ∙ e)))
      ∙ ground arith
  | inr f ↦ find_command-tcp_code n cs c (sym (if-false (tcp_code d == n) _ _ f) ∙ e)
]

-- A number that is no command's code is not a command's code.
not_a_code :
    (n : ℕ) (c : TcpCommand)
    → find_command (tcp_code c) all_commands ≡ some c
    → find_command n all_commands ≡ none
    → n ≢ tcp_code c
not_a_code n c known e h =
    let found : find_command n all_commands ≡ some c = rw h known in
    absurd (let bad : some c ≡ none = sym found ∙ e in cc)

nothing_asked :
    (n p : ℕ) → find_command n all_commands ≡ none → or_nothing (get_elem? (numbered p) n) ≡ []
nothing_asked zero p e = refl
nothing_asked (suc zero) p e = absurd cc
nothing_asked (suc (suc zero)) p e = absurd cc
nothing_asked (suc (suc (suc zero))) p e = absurd cc
nothing_asked (suc (suc (suc (suc zero)))) p e = absurd cc
nothing_asked (suc (suc (suc (suc (suc zero))))) p e = absurd cc
nothing_asked (suc (suc (suc (suc (suc (suc zero)))))) p e = absurd cc
nothing_asked (suc (suc (suc (suc (suc (suc (suc zero))))))) p e = absurd cc
nothing_asked (suc (suc (suc (suc (suc (suc (suc (suc zero)))))))) p e = absurd cc
nothing_asked (suc (suc (suc (suc (suc (suc (suc (suc (suc zero))))))))) p e = absurd cc
nothing_asked (suc (suc (suc (suc (suc (suc (suc (suc (suc (suc zero)))))))))) p e = absurd cc
nothing_asked (suc (suc (suc (suc (suc (suc (suc (suc (suc (suc (suc zero))))))))))) p e = absurd cc
nothing_asked (suc (suc (suc (suc (suc (suc (suc (suc (suc (suc (suc (suc zero)))))))))))) p e =
    absurd cc
nothing_asked (suc (suc (suc (suc (suc (suc (suc (suc (suc (suc (suc (suc (suc n))))))))))))) p e =
    refl

-- Every command, supported or not, on a dongle whose list of gains is as announced: the callback does not
-- fault; the calls by which it sets something are those that the code and the parameter ask for; and of
-- the server it only makes `sdrtcp_stop_serving_client`, on the code of TCP_ANDROID_EXIT.
pub tcp_command_callback_reacts :
    (d : Dongle) (obj : SdrTcp) (cmd : SdrTcpCommand)
    → HasGains d
    → IsReaction d cmd.command cmd.parameter
        (after_command cmd.command obj)
        (tcp_command_callback (some d) obj cmd)
unfolding tcp_command_callback perform_if
tcp_command_callback_reacts d obj cmd has =
    elim (Option-cases (find_command cmd.command all_commands)) [
      | inl e ↦ rw e (
        [],
        ap (λ (r : SdrTcp × List Effect). some (r.0, [], r.1))
            (sym (
              if-false (cmd.command == 126) _ _
                (ground (arith, not_a_code cmd.command android_exit refl e)))),
        inr (
            inr (
              not_a_code cmd.command set_tuner_gain_by_id refl e,
              not_a_code cmd.command android_gain_by_percentage refl e,
              sym (nothing_asked cmd.command cmd.parameter e),
            )),
      )
      | inr (c, e) ↦
          rw (e, sym (find_command-tcp_code cmd.command all_commands c e))
            (perform_reacts d obj c cmd.parameter has)
    ]
