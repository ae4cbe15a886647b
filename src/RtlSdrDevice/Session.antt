-- ===== src/RtlSdrDevice/Session.antt =====
-- A client's session with the driver: commandListener of rtlsdr/src/main/cpp/src/sdrtcp.c with
-- tcpCommandCallback of rtlsdrdevice.c as its callback.
use rtl_tcp_andro.Base.{
  ℕ, suc, ◌^◌, ◌≤◌, ◌<◌, ◌≡◌, refl, false, Option, none, some, List, [], ◌∷◌, ◌++◌, ◌==◌, arith, ap,
  ◌∙◌, if-false, take, drop,
}
use Prim.Native.Nat.{min}
use mathlib.Core.List.{append_assoc}
use rtl_tcp_andro.SdrTcp.{
  Effect, SdrTcp, client_serving, needs_stopping, sdrtcp_stop_serving_client,
}
use rtl_tcp_andro.SdrTcp.Listener.{
  SdrTcpCommand, Round, Listener, decode, receive, hand_on, round, command_listener,
}
use rtl_tcp_andro.SdrTcp.Listener.Progress.{
  arrival, round-arrival, listener_step, command_listener_ends,
}
use rtl_tcp_andro.SdrTcp.Listener.Session.{encode, from_be32-be32}
use rtl_tcp_andro.RtlSdrDevice.{Call, Dongle, tcp_code, android_exit, tcp_command_callback}
use rtl_tcp_andro.RtlSdrDevice.Gains.{HasGains}
use rtl_tcp_andro.RtlSdrDevice.Commands.{after_command, tcp_command_callback_reacts}

-- What the callback makes of the server.
abbrev server_after : Option (SdrTcp × List Call × List Effect) → SdrTcp → SdrTcp
server_after none obj = obj
server_after (some (after, calls, effects)) obj = after

unfoldable pub driver_callback : Dongle → SdrTcp → SdrTcpCommand → SdrTcp
driver_callback d obj cmd = server_after (tcp_command_callback (some d) obj cmd) obj

driver_callback-after :
    (d : Dongle) (obj : SdrTcp) (cmd : SdrTcpCommand)
    → HasGains d
    → driver_callback d obj cmd ≡ (after_command cmd.command obj).0
unfolding driver_callback
driver_callback-after d obj cmd has =
    let (calls, e, _) = tcp_command_callback_reacts d obj cmd has in ap (λ o. server_after o obj) e

-- A command of which more than `behind` bytes have arrived when it is read.
pub record Turn : Type 0 where
  pub behind : ℕ
  pub cmd : SdrTcpCommand

abbrev pub exit_code : ℕ
exit_code = tcp_code android_exit

-- A whole command with a parameter of 32 bits, which does not end the session.
pub record IsWhole (t : Turn) : Type 0 where
  pub arrived : 4 ≤ t.behind
  pub fits : t.cmd.parameter < 2 ^ 32
  pub goes_on : (t.cmd.command == exit_code) ≡ false

abbrev pub AreWhole : List Turn → Type 0
AreWhole [] = Unit {0}
AreWhole (t ∷ ts) = IsWhole t × AreWhole ts

-- The rounds, the client's bytes and the commands of turns, ahead of what comes later.
abbrev pub rounds_of : List Turn → List Round → List Round
rounds_of [] later = later
rounds_of (t ∷ ts) later = arrival t.behind ∷ rounds_of ts later

abbrev pub stream_of : List Turn → List ℕ → List ℕ
stream_of [] more = more
stream_of (t ∷ ts) more = encode t.cmd ++ stream_of ts more

abbrev pub commands_of : List Turn → List SdrTcpCommand
commands_of [] = []
commands_of (t ∷ ts) = t.cmd ∷ commands_of ts

-- The command that ends a session.
abbrev pub exit_command : (parameter : ℕ) → SdrTcpCommand
exit_command parameter = record { command = exit_code; parameter = parameter }

-- A round in which a whole command has arrived reads exactly that command.
receive-encode :
    (n : ℕ) (cmd : SdrTcpCommand) (rest : List ℕ) (done : List SdrTcpCommand)
    → 4 ≤ n
    → receive (suc n) (record { got = []; stream = encode cmd ++ rest; commands = done })
      ≡ record { got = encode cmd; stream = rest; commands = done }
unfolding receive
receive-encode n cmd rest done h =
    let five : min (suc n) 5 ≡ 5 = omega arith in
    let stream = encode cmd ++ rest in
    ap (λ k. record { got = take k stream; stream = drop k stream; commands = done }) five

decode-encode : (cmd : SdrTcpCommand) → cmd.parameter < 2 ^ 32 → decode (encode cmd) ≡ some cmd
unfolding decode
decode-encode cmd h =
    ap (λ w. some (record { command = cmd.command; parameter = w }))
      (from_be32-be32 cmd.parameter h)

module _ (d : Dongle) (has : HasGains d) where
  -- A round with a whole command hands it on.
  round-whole :
      (n : ℕ) (cmd : SdrTcpCommand) (rest : List ℕ) (done : List SdrTcpCommand) (obj : SdrTcp)
      → obj.state ≡ client_serving
      → 4 ≤ n
      → cmd.parameter < 2 ^ 32
      → round
          (driver_callback d)
          (arrival n)
          (obj, record { got = []; stream = encode cmd ++ rest; commands = done })
        ≡ (
          (after_command cmd.command obj).0,
          record { got = []; stream = rest; commands = done ++ cmd ∷ [] },
        )
  unfolding hand_on
  round-whole n cmd rest done obj e h fits =
      let l : Listener = record { got = []; stream = encode cmd ++ rest; commands = done } in
      let read : Listener = record { got = encode cmd; stream = rest; commands = done } in
      round-arrival (driver_callback d) n obj l e
      ∙ ap (λ (m : Listener). hand_on (driver_callback d) obj m (decode m.got))
          (receive-encode n cmd rest done h)
      ∙ ap (λ o. hand_on (driver_callback d) obj read o) (decode-encode cmd fits)
      ∙ ap (λ (s : SdrTcp). (s, record { got = []; stream = rest; commands = done ++ cmd ∷ [] }))
          (driver_callback-after d obj cmd has)

  stop_serving :
      (obj : SdrTcp)
      → obj.state ≡ client_serving
      → (sdrtcp_stop_serving_client obj).0 ≡ record obj { state = needs_stopping }
  unfolding sdrtcp_stop_serving_client
  stop_serving obj e = ground arith

  -- If no other thread interferes and each command is there when it is read: the commands of the session,
  -- none of which is the exit, are handed on in order, and so is the exit behind them; the thread then
  -- ends, whatever comes later, with the server stopping and the later bytes unread.
  pub session_ends :
      (turns : List Turn) (n parameter : ℕ) (later : List Round) (more : List ℕ)
      (done : List SdrTcpCommand) (obj : SdrTcp)
      → AreWhole turns
      → 4 ≤ n
      → parameter < 2 ^ 32
      → obj.state ≡ client_serving
      → command_listener (driver_callback d) (rounds_of turns (arrival n ∷ later)) (
        obj,
        record {
          got = [];
          stream = stream_of turns (encode (exit_command parameter) ++ more);
          commands = done;
        },
      )
        ≡ (
          record obj { state = needs_stopping },
          record {
            got = [];
            stream = more;
            commands = done ++ (commands_of turns ++ exit_command parameter ∷ []);
          },
        )
  session_ends [] n p later more done obj w h fits e =
      let cb = driver_callback d in
      let end : Listener = record {
        got = [];
        stream = more;
        commands = done ++ exit_command p ∷ [];
      } in
      listener_step cb (arrival n) later obj _ e
      ∙ ap (command_listener cb later) (round-whole n (exit_command p) more done obj e h fits)
      ∙ ap (λ (s : SdrTcp). command_listener cb later (s, end)) (stop_serving obj e)
      ∙ command_listener_ends cb later (record obj { state = needs_stopping }) end refl
  session_ends (t ∷ ts) n p later more done obj (whole, w) h fits e =
      let cb = driver_callback d in
      let rounds = rounds_of ts (arrival n ∷ later) in
      let stream = stream_of ts (encode (exit_command p) ++ more) in
      let next : Listener = record { got = []; stream = stream; commands = done ++ t.cmd ∷ [] } in
      listener_step cb (arrival t.behind) rounds obj _ e
      ∙ ap (command_listener cb rounds)
          (round-whole t.behind t.cmd stream done obj e whole.arrived whole.fits)
      ∙ ap (λ (s : SdrTcp × List Effect). command_listener cb rounds (s.0, next))
          (if-false (t.cmd.command == exit_code) _ _ whole.goes_on)
      ∙ session_ends ts n p later more (done ++ t.cmd ∷ []) obj w h fits e
      ∙ ap
          (λ cmds. (
            record obj { state = needs_stopping },
            record { got = []; stream = more; commands = cmds },
          ))
          (append_assoc done (t.cmd ∷ []) (commands_of ts ++ exit_command p ∷ []))
