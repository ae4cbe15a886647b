-- ===== src/SdrTcp/Listener/Session.antt =====
-- Whole sessions of commandListener of rtlsdr/src/main/cpp/src/sdrtcp.c: a client that writes commands one
-- after another.
use rtl_tcp_andro.Base.{
  ℕ, ◌/◌, ◌%◌, ◌^◌, ◌≤◌, ◌<◌, ◌≡◌, refl, List, [], ◌∷◌, ◌++◌, length, map, arith, ap, ◌∙◌,
}
use rtl_tcp_andro.Base.Words.{be32, from_be32}
use rtl_tcp_andro.SdrTcp.{client_serving, SdrTcp}
use rtl_tcp_andro.SdrTcp.Listener.{SdrTcpCommand, command_listener}
use rtl_tcp_andro.SdrTcp.Listener.Frames.{frames}
use rtl_tcp_andro.SdrTcp.Listener.Progress.{arrival, Serves, command_listener_progress}

-- The five bytes that a client writes for a command.
abbrev pub encode : SdrTcpCommand → List ℕ
encode cmd = cmd.command ∷ be32 cmd.parameter

abbrev pub encode_all : List SdrTcpCommand → List ℕ
encode_all [] = []
encode_all (cmd ∷ cmds) = encode cmd ++ encode_all cmds

-- Parameters of 32 bits.
abbrev pub IsEncodable : List SdrTcpCommand → Type 0
IsEncodable [] = Unit {0}
IsEncodable (cmd ∷ cmds) = (cmd.parameter < 2 ^ 32) × IsEncodable cmds

pub from_be32-be32 :
    (w : ℕ)
    → w < 2 ^ 32
    → from_be32 (w / 2 ^ 24 % 256) (w / 2 ^ 16 % 256) (w / 2 ^ 8 % 256) (w % 256) ≡ w
from_be32-be32 w h = omega arith

frames-encode_all : (cmds : List SdrTcpCommand) → IsEncodable cmds → frames (encode_all cmds) ≡ cmds
unfolding frames
frames-encode_all [] h = refl
frames-encode_all (cmd ∷ cmds) (fits, h) =
    ap (λ w. record { command = cmd.command; parameter = w } ∷ frames (encode_all cmds))
      (from_be32-be32 cmd.parameter fits)
    ∙ ap (λ rest. cmd ∷ rest) (frames-encode_all cmds h)

-- If no other thread interferes, the callback leaves the server serving and data arrives in at least as
-- many rounds as there are bytes, of whatever sizes: the commands handed on are those that the client
-- wrote, whose parameters have 32 bits.
pub command_listener-encode_all :
    (commandcb : SdrTcp → SdrTcpCommand → SdrTcp)
    → Serves commandcb
    → (ns : List ℕ) (obj : SdrTcp) (cmds : List SdrTcpCommand) → obj.state ≡ client_serving
    → length (encode_all cmds) ≤ length ns
    → IsEncodable cmds
    → (command_listener commandcb
        (map arrival ns)
        (obj, record { got = []; stream = encode_all cmds; commands = [] })).1.commands
      ≡ cmds
command_listener-encode_all commandcb serves ns obj cmds e k h =
    command_listener_progress commandcb serves ns obj (encode_all cmds) e k
    ∙ frames-encode_all cmds h
