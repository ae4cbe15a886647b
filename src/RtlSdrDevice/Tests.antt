-- ===== src/RtlSdrDevice/Tests.antt =====
-- Runs of rtlsdr/src/main/cpp/src/rtlsdrdevice.c with a device of three gains.
use rtl_tcp_andro.Base.{
  ◌≡◌, refl, true, false, none, some, List, [], ◌∷◌, ◌++◌, arith, set, get_elem?,
}
use rtl_tcp_andro.Base.Int.{pos, negsuc}
use rtl_tcp_andro.WorkPool.{BufferPtr, WorkPool}
use rtl_tcp_andro.SdrTcp.{needs_stopping}
use rtl_tcp_andro.SdrTcp.Fixtures.{three_cells-IsValid, taken, first_taken, serving, fresh_server}
use rtl_tcp_andro.SdrTcp.Memcpy.{bytes_to_send}
use rtl_tcp_andro.SdrTcp.Open.{quiet}
use rtl_tcp_andro.RtlSdrDevice.Gains.{HasGains}
use rtl_tcp_andro.RtlSdrDevice.Commands.{IsReaction, tcp_command_callback_reacts}
use rtl_tcp_andro.SdrTcp.Listener.{command_listener}
use rtl_tcp_andro.SdrTcp.Listener.Progress.{arrival}
use rtl_tcp_andro.SdrTcp.Listener.Session.{encode}
use rtl_tcp_andro.RtlSdrDevice.Session.{
  Turn, IsWhole, rounds_of, stream_of, commands_of, exit_command, driver_callback, session_ends,
}
use rtl_tcp_andro.RtlSdrDevice.Samples.{rtlsdr_callback-serving}
use rtl_tcp_andro.RtlSdrDevice.Open.{Settings, World, Outcome, open_async}
use rtl_tcp_andro.RtlSdrDevice.Open.Closing.{IsEnd, open_async_closes}
use rtl_tcp_andro.RtlSdrDevice.{tcp_command_callback, Call, Dongle, RtlSdrAndroid, rtlsdr_callback}

abbrev three_gains : Dongle
three_gains = record {
  answer = λ c. pos 0;
  gain_count = 3;
  gains = negsuc 9 ∷ pos 15 ∷ pos 40 ∷ [];
}

three_gains-HasGains : HasGains three_gains
three_gains-HasGains = record { counted = refl; some_gain = omega arith; is_int = omega arith }

abbrev opened_well : World
opened_well = record {
  class_pending = false;
  method_pending = false;
  announce_pending = false;
  open2_result = pos 0;
  tuner_type = 5;
  while_reading = λ o. o;
  junk = λ i. 99;
  fresh = 9;
  os = record { socket = some 3; bound = true; listening = true };
  others = quiet;
}

abbrev settings : Settings
settings = record {
  gain = pos 15;
  samplingrate = pos 2048000;
  frequency = pos 100000000;
  ppm = negsuc 3;
  biast = pos 0;
}

abbrev idle_device : RtlSdrAndroid
idle_device = record { tcpserv = fresh_server; rtl_dev = none }

tcp_command_callback_reacts_example :
    IsReaction three_gains 8 1
      (serving, [])
      (tcp_command_callback (some three_gains) serving (record { command = 8; parameter = 1 }))
tcp_command_callback_reacts_example =
    tcp_command_callback_reacts three_gains serving (record { command = 8; parameter = 1 })
      three_gains-HasGains

rtlsdr_callback-serving_example :
    (q : List BufferPtr) × (p' : WorkPool) × (get_elem? taken.queues 1 ≡ some q)
    × (rtlsdr_callback
          (λ i. 99)
          9
          (λ p. p)
          (λ o. o)
          (record { tcpserv = serving; rtl_dev = some three_gains })
          (1 ∷ 2 ∷ 3 ∷ 4 ∷ [])
          4
        ≡ some (some 1, record serving { workpool = p' }))
    × (p'.queues ≡ set taken.queues 1 (q ++ 7 ∷ []))
    × (bytes_to_send (p'.memory 7) ≡ some (1 ∷ 2 ∷ 3 ∷ 4 ∷ []))
rtlsdr_callback-serving_example =
    rtlsdr_callback-serving (λ i. 99) 9 (λ p. p) serving three_gains taken 7 (1 ∷ 2 ∷ 3 ∷ 4 ∷ []) 2
      refl first_taken (record { valid = refl; stages = refl }) refl three_cells-IsValid refl refl
      (omega arith) (omega arith) (omega arith)

open_async_closes_example :
    (before : List Call) × (o : Outcome) × (open_async opened_well three_gains settings idle_device
      ≡ some o)
    × IsEnd opened_well three_gains before o
open_async_closes_example =
    open_async_closes opened_well three_gains settings idle_device refl refl refl

-- A session: a gain by its number, then the exit, and a command that is never read.
abbrev gain_turn : Turn
gain_turn = record { behind = 4; cmd = record { command = 13; parameter = 2 } }

gain_turn-IsWhole : IsWhole gain_turn
gain_turn-IsWhole = record { arrived = omega arith; fits = omega arith; goes_on = refl }

session_ends_example :
    command_listener
      (driver_callback three_gains)
      (rounds_of (gain_turn ∷ []) (arrival 7 ∷ arrival 7 ∷ []))
      (
        serving,
        record {
          got = [];
          stream = stream_of (gain_turn ∷ []) (encode (exit_command 0) ++ 1 ∷ 0 ∷ 0 ∷ []);
          commands = [];
        },
      )
    ≡ (
      record serving { state = needs_stopping },
      record {
        got = [];
        stream = 1 ∷ 0 ∷ 0 ∷ [];
        commands = [] ++ (commands_of (gain_turn ∷ []) ++ exit_command 0 ∷ []);
      },
    )
session_ends_example =
    session_ends three_gains three_gains-HasGains (gain_turn ∷ []) 7 0 (arrival 7 ∷ [])
      (1 ∷ 0 ∷ 0 ∷ []) [] serving (gain_turn-IsWhole, tt) (omega arith) (omega arith) refl
