-- ===== src/RtlSdrDevice.antt =====
-- rtlsdr/src/main/cpp/src/rtlsdrdevice.c and tcp_commands.h: the driver's side of the server. A command
-- of the client becomes a call of librtlsdr, and librtlsdr's samples are fed to the server. librtlsdr is
-- the parameter `Dongle`: its answers. The calls that change the dongle are listed (`Call`).
-- A fault (`none`) is an access outside of an array.
pub mod Commands
pub mod Session
pub mod Gains
pub mod Open
pub mod Samples
mod Tests
use rtl_tcp_andro.Base.{
  ℕ, zero, ◌+◌, ◌-◌, ◌*◌, ◌/◌, ◌%◌, ◌^◌, Bool, true, false, ◌&&◌, Option, none, some, List, [], ◌∷◌,
  ◌==◌, ◌>>=◌, ltb, leb, if◌then◌else◌, get_elem?,
}
use rtl_tcp_andro.Base.Int.{ℤ, pos, negsuc}
use rtl_tcp_andro.Base.Words.{signed32, signed16}
use rtl_tcp_andro.WorkPool.{BufferPtr, WorkPool}
use rtl_tcp_andro.SdrTcp.{SdrTcp, Effect, sdrtcp_init, sdrtcp_stop_serving_client}
use rtl_tcp_andro.SdrTcp.Listener.{SdrTcpCommand}
use rtl_tcp_andro.SdrTcp.Feed.{sdrtcp_feed}

-- The calls of librtlsdr, with the arguments behind the device.
pub data Call : Type 0 where
  set_center_freq set_sample_rate : ℕ → Call
  set_tuner_gain_mode set_tuner_gain set_freq_correction : ℤ → Call
  set_tuner_if_gain : (stage gain : ℤ) → Call
  set_testmode set_agc_mode set_direct_sampling set_offset_tuning set_bias_tee : ℤ → Call
  set_xtal_freq : (rtl_freq tuner_freq : ℕ) → Call
  reset_buffer cancel_async read_async close : Call

-- A device as the driver sees it: what its calls return; the int, as its 32 bits, that
-- `rtlsdr_get_tuner_gains` returns; and the gains that it writes.
pub record Dongle : Type 0 where
  pub answer : Call → ℤ
  pub gain_count : ℕ
  pub gains : List ℤ

-- struct rtlsdr_android; a NULL device is `none`.
pub record RtlSdrAndroid : Type 0 where
  pub tcpserv : SdrTcp
  pub rtl_dev : Option Dongle

-- tcp_commands_t.
pub data TcpCommand : Type 0 where
  set_freq set_rate set_gain_mode set_gain set_correction set_if_tuner_gain set_test_mode :
      TcpCommand
  set_agc set_sampling set_offset set_rtl_xtal set_tuner_xtal set_tuner_gain_by_id : TcpCommand
  android_exit android_gain_by_percentage android_enable_16_bit_signed : TcpCommand

abbrev pub tcp_code : TcpCommand → ℕ
tcp_code set_freq = 1
tcp_code set_rate = 2
tcp_code set_gain_mode = 3
tcp_code set_gain = 4
tcp_code set_correction = 5
tcp_code set_if_tuner_gain = 6
tcp_code set_test_mode = 7
tcp_code set_agc = 8
tcp_code set_sampling = 9
tcp_code set_offset = 10
tcp_code set_rtl_xtal = 11
tcp_code set_tuner_xtal = 12
tcp_code set_tuner_gain_by_id = 13
tcp_code android_exit = 126
tcp_code android_gain_by_percentage = 127
tcp_code android_enable_16_bit_signed = 128

-- SUPPORTED_COMMANDS, which `getSupportedCommands` returns by their codes.
abbrev pub supported_commands : List TcpCommand
supported_commands =
    set_freq ∷ set_rate ∷ set_gain_mode ∷ set_gain ∷ set_correction ∷ set_if_tuner_gain
    ∷ set_test_mode ∷ set_agc ∷ set_sampling ∷ set_offset ∷ set_rtl_xtal ∷ set_tuner_xtal
    ∷ set_tuner_gain_by_id ∷ android_exit ∷ android_gain_by_percentage ∷ []

-- `gains[index]`, set as the gain: the call and what it returns.
unfoldable pub set_listed_gain : Dongle → (index : ℕ) → Option (List Call × ℤ)
set_listed_gain dongle index = get_elem? dongle.gains index >>= λ gain.
    some (set_tuner_gain gain ∷ [], dongle.answer (set_tuner_gain gain))

-- The signed test `count > 0` first, then the unsigned comparison.
unfoldable pub set_gain_by_index : Dongle → (index : ℕ) → Option (List Call × ℤ)
unfolding set_listed_gain
set_gain_by_index dongle index =
    let count = dongle.gain_count in
    if ltb 0 count && ltb count (2 ^ 31) && ltb index count
    then set_listed_gain dongle index
    else some ([], pos 0)

-- The index of a percentage, in unsigned arithmetic of 32 bits.
unfoldable pub percent_index : (count percent : ℕ) → ℕ
percent_index count percent =
    let index = percent * count % 2 ^ 32 / 100 in
    if leb count index then (count + 2 ^ 32 - 1) % 2 ^ 32 else index

unfoldable pub set_gain_by_perc : Dongle → (percent : ℕ) → Option (List Call × ℤ)
unfolding percent_index set_listed_gain
set_gain_by_perc dongle percent = set_listed_gain dongle (percent_index dongle.gain_count percent)

-- One call, which cannot fault.
unfoldable pub just_call : SdrTcp → Call → Option (SdrTcp × List Call × List Effect)
just_call obj c = some (obj, c ∷ [], [])

-- The cases of the `switch`.
unfoldable pub perform :
    Dongle → SdrTcp → TcpCommand → (parameter : ℕ) → Option (SdrTcp × List Call × List Effect)
unfolding set_gain_by_index set_gain_by_perc just_call sdrtcp_stop_serving_client
perform d obj set_freq p = just_call obj (set_center_freq p)
perform d obj set_rate p = just_call obj (set_sample_rate p)
perform d obj set_gain_mode p = just_call obj (set_tuner_gain_mode (signed32 p))
perform d obj set_gain p = just_call obj (set_tuner_gain (signed32 p))
perform d obj set_correction p = just_call obj (set_freq_correction (signed32 p))
perform d obj set_if_tuner_gain p =
    just_call obj (set_tuner_if_gain (pos (p / 2 ^ 16)) (signed16 (p % 2 ^ 16)))
perform d obj set_test_mode p = just_call obj (set_testmode (signed32 p))
perform d obj set_agc p = just_call obj (set_agc_mode (signed32 p))
perform d obj set_sampling p = just_call obj (set_direct_sampling (signed32 p))
perform d obj set_offset p = just_call obj (set_offset_tuning (signed32 p))
perform d obj set_rtl_xtal p = just_call obj (set_xtal_freq p 0)
perform d obj set_tuner_xtal p = just_call obj (set_xtal_freq 0 p)
perform d obj set_tuner_gain_by_id p =
    set_gain_by_index d p >>= λ (calls, result). some (obj, calls, [])
perform d obj android_exit p =
    let (stopped, effects) = sdrtcp_stop_serving_client obj in some (stopped, [], effects)
perform d obj android_gain_by_percentage p =
    set_gain_by_perc d p >>= λ (calls, result). some (obj, calls, [])
perform d obj android_enable_16_bit_signed p = some (obj, [], [])

-- The codes that the `switch` has cases for, and the one that it leaves to `default`.
abbrev pub all_commands : List TcpCommand
all_commands =
    set_freq ∷ set_rate ∷ set_gain_mode ∷ set_gain ∷ set_correction ∷ set_if_tuner_gain
    ∷ set_test_mode ∷ set_agc ∷ set_sampling ∷ set_offset ∷ set_rtl_xtal ∷ set_tuner_xtal
    ∷ set_tuner_gain_by_id ∷ android_exit ∷ android_gain_by_percentage
    ∷ android_enable_16_bit_signed ∷ []

-- The command among `cs` with a code, if there is one.
abbrev pub find_command : ℕ → List TcpCommand → Option TcpCommand
find_command n [] = none
find_command n (c ∷ cs) = if tcp_code c == n then some c else find_command n cs

unfoldable pub perform_if :
    Dongle
    → SdrTcp
    → Option TcpCommand
    → (parameter : ℕ) → Option (SdrTcp × List Call × List Effect)
unfolding perform
perform_if d obj none p = some (obj, [], [])
perform_if d obj (some c) p = perform d obj c p

-- `tcpCommandCallback`. A number that is no command's code is left to `default`.
unfoldable pub tcp_command_callback :
    Option Dongle → SdrTcp → SdrTcpCommand → Option (SdrTcp × List Call × List Effect)
unfolding perform_if
tcp_command_callback none obj cmd = some (obj, [], [])
tcp_command_callback (some d) obj cmd =
    perform_if d obj (find_command cmd.command all_commands) cmd.parameter

-- `tcpClosedCallback`.
unfoldable pub tcp_closed_callback : Option Dongle → List Call
tcp_closed_callback none = []
tcp_closed_callback (some d) = cancel_async ∷ []

-- `rtlsdr_callback`: `len` bytes of samples. It returns nothing: a result is that of `sdrtcp_feed`, and
-- `none` is that there is no device, so that nothing is fed. The arguments ahead of the struct are those
-- of `sdrtcp_feed`.
unfoldable pub rtlsdr_callback :
    (junk : ℕ → ℕ)
    → (fresh : BufferPtr) → (others : WorkPool → WorkPool) → (before_lock : SdrTcp → SdrTcp)
    → RtlSdrAndroid
    → (buf : List ℕ) → (len : ℕ) → Option (Option ℕ × SdrTcp)
unfolding sdrtcp_feed
rtlsdr_callback junk fresh others before_lock dev buf len = elim dev.rtl_dev [
  | none ↦ some (none, dev.tcpserv)
  | some d ↦
      sdrtcp_feed junk fresh others before_lock dev.tcpserv buf (len / 2) >>= λ (result, obj).
      some (some result, obj)
]

unfoldable pub initialize : WorkPool → RtlSdrAndroid
unfolding sdrtcp_init
initialize workpool = record { tcpserv = sdrtcp_init workpool; rtl_dev = none }

-- `deInit`: the calls it makes before the struct is freed.
unfoldable pub de_init : RtlSdrAndroid → List Call
de_init dev = elim dev.rtl_dev [ none ↦ [] | some d ↦ close ∷ [] ]

-- `close`: the server is asked to stop, the device stays as it is.
unfoldable pub close_server : RtlSdrAndroid → RtlSdrAndroid × List Effect
unfolding sdrtcp_stop_serving_client
close_server dev =
    let (stopped, effects) = sdrtcp_stop_serving_client dev.tcpserv in
    (record dev { tcpserv = stopped }, effects)
