-- ===== src/SdrTcp/Listener.antt =====
-- commandListener of rtlsdr/src/main/cpp/src/sdrtcp.c: commands of five bytes read from the client.
pub mod Frames
pub mod Progress
pub mod Session
use rtl_tcp_andro.Base.{
  ℕ, zero, suc, ◌+◌, ◌-◌, Bool, true, false, Option, none, some, List, [], ◌∷◌, ◌++◌, ◌==◌,
  if◌then◌else◌, length, drop, take,
}
use Prim.Native.Nat.{min}
use rtl_tcp_andro.Base.Words.{from_be32}
use rtl_tcp_andro.SdrTcp.{Stage, client_serving, needs_stopping, is_stage, SdrTcp}

-- sdr_tcp_command_t, the parameter in host order.
pub record SdrTcpCommand : Type 0 where
  pub command : ℕ
  pub parameter : ℕ

-- sizeof(cmd): the struct is packed.
abbrev pub command_size : ℕ
command_size = 5

-- The command in five received bytes, its parameter through `ntohl`.
unfoldable pub decode : List ℕ → Option SdrTcpCommand
decode (c ∷ p ∷ q ∷ r ∷ s ∷ []) = some (record { command = c; parameter = from_be32 p q r s })
decode _ = none

-- What `recv` answers: -1, or that up to `available` bytes have arrived.
pub data Recv : Type 0 where
  failed : Recv
  received : (available : ℕ) → Recv

-- One round of the inner loop: whether `select` returns something else than 0, what `recv` answers,
-- and what other threads do before the test ahead of `select`, before the one behind it, before the
-- inner loop's own test (which is also the one ahead of the callback), and, if that loop ends without a
-- command, before the outer loop's test.
pub record Round : Type 0 where
  pub ready : Bool
  pub recv : Recv
  pub at_select : SdrTcp → SdrTcp
  pub at_recv : SdrTcp → SdrTcp
  pub at_callback : SdrTcp → SdrTcp
  pub at_reset : SdrTcp → SdrTcp

-- The thread's own data: the bytes of `cmd` received so far (`left` is five less their number), the
-- bytes that the client has sent and `recv` has not returned yet, and the commands handed to
-- `commandcb`, oldest first.
pub record Listener : Type 0 where
  pub got : List ℕ
  pub stream : List ℕ
  pub commands : List SdrTcpCommand

-- `recv(..., left, 0)` takes what has arrived, at most `left` bytes, from the front of the stream.
unfoldable pub receive : ℕ → Listener → Listener
receive available l =
    let n = min available (command_size - length l.got) in
    record l { got = l.got ++ take n l.stream; stream = drop n l.stream }

-- What the answer of `recv` leads to. Behind an error, the outer loop starts a command afresh.
unfoldable pub take_answer : Recv → SdrTcp → Listener → SdrTcp × Listener
unfolding receive
take_answer failed obj l = (record obj { state = needs_stopping }, record l { got = [] })
take_answer (received n) obj l = (obj, receive n l)

-- The reading part of a round.
unfoldable pub read_round : Round → SdrTcp × Listener → SdrTcp × Listener
unfolding take_answer
read_round r (obj, l) =
    let before = r.at_select obj in
    let ready = if is_stage before.state client_serving then r.ready else false in
    let after = r.at_recv before in
    if is_stage after.state client_serving
    then (if ready then take_answer r.recv after l else (after, l))
    else (after, l)

-- The callback, if a command is complete; the next command then starts afresh.
unfoldable pub hand_on :
    (commandcb : SdrTcp → SdrTcpCommand → SdrTcp)
    → SdrTcp
    → Listener
    → Option SdrTcpCommand
    → SdrTcp × Listener
hand_on commandcb obj l none = (obj, l)
hand_on commandcb obj l (some cmd) =
    (commandcb obj cmd, record l { got = []; commands = l.commands ++ cmd ∷ [] })

-- The inner loop's test, and `if (obj->state == STAGE_CLIENT_SERVING && left == 0) { ... }` behind it. In
-- another stage the inner loop ends, and `left = sizeof(cmd)` of the outer one forgets what was received.
unfoldable pub dispatch :
    (commandcb : SdrTcp → SdrTcpCommand → SdrTcp)
    → (at_reset : SdrTcp → SdrTcp) → SdrTcp × Listener
    → SdrTcp × Listener
unfolding decode hand_on
dispatch commandcb at_reset (obj, l) =
    if is_stage obj.state client_serving
    then hand_on commandcb obj l (decode l.got)
    else (at_reset obj, record l { got = [] })

unfoldable pub round :
    (commandcb : SdrTcp → SdrTcpCommand → SdrTcp) → Round → SdrTcp × Listener → SdrTcp × Listener
unfolding read_round dispatch
round commandcb r s =
    let (obj, l) = read_round r s in dispatch commandcb r.at_reset (r.at_callback obj, l)

-- The thread over the rounds to come; it ends when `state` is no longer STAGE_CLIENT_SERVING.
unfoldable pub command_listener :
    (commandcb : SdrTcp → SdrTcpCommand → SdrTcp)
    → List Round
    → SdrTcp × Listener
    → SdrTcp × Listener
unfolding round
command_listener commandcb [] s = s
command_listener commandcb (r ∷ rs) s =
    let rest = command_listener commandcb rs (round commandcb r s) in
    if is_stage s.0.state client_serving then rest else s
