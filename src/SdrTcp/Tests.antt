-- ===== src/SdrTcp/Tests.antt =====
-- Runs of rtlsdr/src/main/cpp/src/sdrtcp.c.
use rtl_tcp_andro.Base.{
  ◌⊎◌, false, ℕ, ◌≡◌, refl, true, false, none, some, List, [], ◌∷◌, ◌++◌, map, arith, take, set,
  get_elem?, replicate,
}
use rtl_tcp_andro.Base.Words.{be32}
use rtl_tcp_andro.ExtBuffer.{ExtBuffer}
use rtl_tcp_andro.WorkPool.{BufferPtr, WorkPool}
use rtl_tcp_andro.SdrTcp.{
  is_stage, Stage, uninitialized, client_open, client_open_started_async, client_serving, SdrTcp,
  Effect, sdrtcp_stop_serving_client,
}
use rtl_tcp_andro.SdrTcp.Fixtures.{
  three_cells, three_cells-IsValid, two_stages, taken, first_taken, serving, fresh_server,
}
use rtl_tcp_andro.SdrTcp.Memcpy.{bytes_to_send}
use rtl_tcp_andro.SdrTcp.Open.{quiet, sdrtcp_open_socket}
use rtl_tcp_andro.SdrTcp.Open.Outcome.{sdrtcp_open_socket-success, sdrtcp_open_socket-failure}
use rtl_tcp_andro.SdrTcp.Feed.{sdrtcp_feed}
use rtl_tcp_andro.SdrTcp.Feed.Outcome.{sdrtcp_feed-serving}
use rtl_tcp_andro.SdrTcp.Listener.{SdrTcpCommand, Listener, command_listener}
use rtl_tcp_andro.SdrTcp.Listener.Frames.{frames, command_listener-frames}
use rtl_tcp_andro.SdrTcp.Listener.Progress.{
  arrival, arrivals-AllCalm, end_of_stream, command_listener-end_of_stream,
}
use rtl_tcp_andro.SdrTcp.Listener.Session.{encode_all, command_listener-encode_all}
use rtl_tcp_andro.SdrTcp.Sender.{Sender, SendRound, Select, accepted, Turn}
use rtl_tcp_andro.SdrTcp.Server.{AcceptRound, serve_accepted, Others}
use rtl_tcp_andro.SdrTcp.Server.Races.{idle_turns, stop_lost}

-- "RTL0"
abbrev magic : List ℕ
magic = 82 ∷ 84 ∷ 76 ∷ 48 ∷ []

-- Frequency 100, in two pieces.
abbrev sent_command : List ℕ
sent_command = 1 ∷ 0 ∷ 0 ∷ 0 ∷ 100 ∷ []

abbrev ignore : SdrTcp → SdrTcpCommand → SdrTcp
ignore obj cmd = obj

sdrtcp_feed-serving_example :
    (q : List BufferPtr) × (p' : WorkPool) × (get_elem? taken.queues 1 ≡ some q)
    × (sdrtcp_feed (λ i. 99) 9 (λ p. p) (λ o. o) serving (1 ∷ 2 ∷ 3 ∷ 4 ∷ []) 2
        ≡ some (1, record serving { workpool = p' }))
    × (p'.queues ≡ set taken.queues 1 (q ++ 7 ∷ []))
    × (bytes_to_send (p'.memory 7) ≡ some (1 ∷ 2 ∷ 3 ∷ 4 ∷ []))
sdrtcp_feed-serving_example =
    sdrtcp_feed-serving (λ i. 99) 9 (λ p. p) serving taken 7 (1 ∷ 2 ∷ 3 ∷ 4 ∷ []) 2 refl first_taken
      (record { valid = refl; stages = refl }) refl three_cells-IsValid refl refl (omega arith)
      (omega arith) (omega arith)

sdrtcp_open_socket-success_example :
    (obj' : SdrTcp) × (sdrtcp_open_socket
        (λ i. 99)
        9
        (record { socket = some 3; bound = true; listening = true })
        quiet
        fresh_server
        magic
        5
        29
      ≡ some (true, obj', []))
    × (obj'.state ≡ Stage.socket_open)
    × (obj'.listen_socket ≡ some 3)
    × (obj'.workpool.queues ≡ [] ∷ (9 ∷ []) ∷ [])
    × (bytes_to_send (obj'.workpool.memory 9) ≡ some (take 4 magic ++ be32 5 ++ be32 29))
sdrtcp_open_socket-success_example =
    sdrtcp_open_socket-success (λ i. 99) 9 fresh_server magic 5 29 (omega arith) (omega arith) 3
      refl

sdrtcp_open_socket-failure_example :
    (obj' : SdrTcp) × (sdrtcp_open_socket
        (λ i. 99)
        9
        (record { socket = some 3; bound = false; listening = true })
        quiet
        fresh_server
        magic
        5
        29
      ≡ some (false, obj', Effect.close 3 ∷ []))
    × (obj'.state ≡ uninitialized)
    × (obj'.client_socket ≡ none)
    × (obj'.listen_socket ≡ none)
sdrtcp_open_socket-failure_example =
    sdrtcp_open_socket-failure (λ i. 99) 9 fresh_server magic 5 29 (omega arith) (omega arith)
      (record { socket = some 3; bound = false; listening = true }) refl refl

-- A listener that has read nothing, and one inside a command at the end of the stream.
abbrev fresh_listener : Listener
fresh_listener = record { got = []; stream = sent_command; commands = [] }

abbrev half_read : Listener
half_read = record { got = 1 ∷ 0 ∷ []; stream = []; commands = [] }

command_listener-frames_example :
    let end = command_listener ignore (arrival 2 ∷ arrival 9 ∷ []) (serving, fresh_listener) in
    ((rest : List SdrTcpCommand) × (end.1.commands ++ rest ≡ [] ++ frames ([] ++ sent_command)))
    × ((is_stage end.0.state client_serving ≡ false)
        ⊎ (end.1.commands ++ frames (end.1.got ++ end.1.stream)
            ≡ [] ++ frames ([] ++ sent_command)))
command_listener-frames_example =
    command_listener-frames ignore (arrival 2 ∷ arrival 9 ∷ []) serving fresh_listener
      (arrivals-AllCalm (2 ∷ 9 ∷ []))

command_listener-end_of_stream_example :
    command_listener ignore (replicate 3 end_of_stream) (serving, half_read) ≡ (serving, half_read)
command_listener-end_of_stream_example =
    command_listener-end_of_stream ignore 3 serving half_read refl (omega arith)

-- The first of two bytes is sent; the second meets an error of `select`.
abbrev two_left : Sender
two_left = record { left = 1 ∷ 2 ∷ []; sent = []; skew = 0 }

stop_lost_example :
    (obj' : SdrTcp) × (serve_accepted
        (λ i. 99)
        (λ o. (sdrtcp_stop_serving_client o).0)
        (idle_turns 3)
        (record serving { state = client_open })
      ≡ some (obj', []))
    × (obj'.state ≡ client_serving)
    × (obj'.workpool.valid ≡ false)
    × (obj'.client_socket ≡ none)
stop_lost_example = stop_lost (λ i. 99) 3 (record serving { state = client_open }) refl

-- A frequency and a gain.
abbrev two_commands : List SdrTcpCommand
two_commands =
    record { command = 1; parameter = 100000000 } ∷ record { command = 4; parameter = 496 } ∷ []

command_listener-encode_all_example :
    (command_listener ignore
      (map arrival (2 ∷ 0 ∷ 1 ∷ 9 ∷ 9 ∷ 6 ∷ 0 ∷ 0 ∷ 0 ∷ 0 ∷ []))
      (serving, record { got = []; stream = encode_all two_commands; commands = [] })).1.commands
    ≡ two_commands
command_listener-encode_all_example =
    command_listener-encode_all ignore (λ s cmd e. e) (2 ∷ 0 ∷ 1 ∷ 9 ∷ 9 ∷ 6 ∷ 0 ∷ 0 ∷ 0 ∷ 0 ∷ [])
      serving two_commands refl (omega arith) (omega arith)

-- A server that waits for its client, with a buffer of two cells to send.
abbrev two_cells : ExtBuffer
two_cells = record three_cells { size_valid_elements = 2 }

abbrev waiting : SdrTcp
waiting = record serving {
  state = client_open_started_async;
  workpool = record two_stages { queues = [] ∷ (7 ∷ []) ∷ []; memory = λ b. two_cells };
  client_socket = none;
}

abbrev one_client : AcceptRound
one_client = record { ready = true; accepted = some 4; at_select = λ o. o; at_accept = λ o. o }

-- The buffer is sent in one piece; another thread then asks the server to stop.
abbrev sending : SendRound
sending = record {
  select = Select.ready;
  send = accepted 100;
  at_select = λ o. o;
  at_send = λ o. o;
  at_error = λ o. o;
}

abbrev two_turns : List Turn
two_turns =
    record { at_test = λ o. o; others = λ p. p; rounds = sending ∷ [] }
    ∷ record { at_test = λ o. (sdrtcp_stop_serving_client o).0; others = λ p. p; rounds = [] }
    ∷ []

-- The others do nothing, but for a stop ahead of the clean-up.
abbrev a_stop : Others
a_stop = record {
  at_mark = λ o. o;
  at_join = λ o. o;
  at_cleanup = λ o. (sdrtcp_stop_serving_client o).0;
  at_callback = λ o. o;
}
