-- ===== src/SdrTcp/Listener/Progress.antt =====
-- When commandListener of rtlsdr/src/main/cpp/src/sdrtcp.c comes to hand on its commands, and when not.
use rtl_tcp_andro.Base.{
  if_not-false, ℕ, zero, suc, ◌-◌, ◌≤◌, ◌<◌, ◌≡◌, ◌≢◌, refl, true, false, Option, none, some, List,
  [], ◌∷◌, ◌++◌, length, take, drop, arith, ap, sym, ◌∙◌, length-append, length-take, length-drop,
  if-true, map, replicate,
}
use Prim.Native.Nat.{min}
use mathlib.Core.List.{append-nil}
use rtl_tcp_andro.SdrTcp.{client_serving, client_open, is_stage, SdrTcp}
use rtl_tcp_andro.SdrTcp.Listener.{
  SdrTcpCommand, command_size, decode, received, Round, Listener, receive, take_answer, read_round,
  hand_on, dispatch, round, command_listener,
}
use rtl_tcp_andro.SdrTcp.Listener.Frames.{frames, AllCalm, command_listener-frames}

-- A round in which n + 1 bytes have arrived and no other thread interferes.
abbrev pub arrival : ℕ → Round
arrival n = record {
  ready = true;
  recv = received (suc n);
  at_select = λ s. s;
  at_recv = λ s. s;
  at_callback = λ s. s;
  at_reset = λ s. s;
}

-- A round in which the client has closed the connection: `select` returns, and `recv` returns 0.
abbrev pub end_of_stream : Round
end_of_stream = record {
  ready = true;
  recv = received 0;
  at_select = λ s. s;
  at_recv = λ s. s;
  at_callback = λ s. s;
  at_reset = λ s. s;
}

abbrev pub Serves : (SdrTcp → SdrTcpCommand → SdrTcp) → Type 0
Serves commandcb =
    (s : SdrTcp) (cmd : SdrTcpCommand)
    → s.state ≡ client_serving
    → (commandcb s cmd).state ≡ client_serving

decode-none : (got : List ℕ) → decode got ≡ none → length got ≢ 5
unfolding decode
decode-none [] e h = omega arith
decode-none (a ∷ []) e h = omega arith
decode-none (a ∷ b ∷ []) e h = omega arith
decode-none (a ∷ b ∷ c ∷ []) e h = omega arith
decode-none (a ∷ b ∷ c ∷ d ∷ []) e h = omega arith
decode-none (a ∷ b ∷ c ∷ d ∷ f ∷ []) e h = cc
decode-none (a ∷ b ∷ c ∷ d ∷ f ∷ g ∷ rest) e h = omega arith

receive_sizes :
    (n : ℕ) (l : Listener)
    → length l.got < 5
    → (length (receive (suc n) l).got ≤ 5)
      × (length (receive (suc n) l).stream ≤ length l.stream - 1)
unfolding receive
receive_sizes n l h =
    let k = min (suc n) (command_size - length l.got) in
    (
      omega (arith, length-append l.got (take k l.stream), length-take k l.stream),
      omega (arith, length-drop k l.stream),
    )

pub arrivals-AllCalm : (ns : List ℕ) → AllCalm (map arrival ns)
unfolding AllCalm
arrivals-AllCalm [] = tt
arrivals-AllCalm (n ∷ ns) = ((λ o e. e), (λ o e. e), arrivals-AllCalm ns)

module _ (commandcb : SdrTcp → SdrTcpCommand → SdrTcp) where
  pub serving :
      (obj : SdrTcp) → obj.state ≡ client_serving → is_stage obj.state client_serving ≡ true
  serving obj e = ground arith

  pub round-arrival :
      (n : ℕ) (obj : SdrTcp) (l : Listener)
      → obj.state ≡ client_serving
      → round commandcb (arrival n) (obj, l)
        ≡ hand_on commandcb obj (receive (suc n) l) (decode (receive (suc n) l).got)
  unfolding round read_round dispatch take_answer
  round-arrival n obj l e = rw (serving obj e, serving obj e)

  pub listener_end :
      (obj : SdrTcp) (l : Listener) → command_listener commandcb [] (obj, l) ≡ (obj, l)
  unfolding command_listener
  listener_end obj l = refl

  pub listener_step :
      (r : Round) (rs : List Round) (obj : SdrTcp) (l : Listener)
      → obj.state ≡ client_serving
      → command_listener commandcb (r ∷ rs) (obj, l)
        ≡ command_listener commandcb rs (round commandcb r (obj, l))
  unfolding command_listener
  listener_step r rs obj l e = if-true (is_stage obj.state client_serving) _ _ (serving obj e)

module _ (commandcb : SdrTcp → SdrTcpCommand → SdrTcp) (serves : Serves commandcb) where
  hand_on_sizes :
      (obj : SdrTcp) (l : Listener) (o : Option SdrTcpCommand)
      → obj.state ≡ client_serving
      → decode l.got ≡ o
      → length l.got ≤ 5
      → ((hand_on commandcb obj l o).0.state ≡ client_serving)
        × (length (hand_on commandcb obj l o).1.got < 5)
        × ((hand_on commandcb obj l o).1.stream ≡ l.stream)
  unfolding hand_on
  hand_on_sizes obj l none e d h = (e, omega (arith, decode-none l.got d), refl)
  hand_on_sizes obj l (some cmd) e d h = (serves obj cmd e, omega arith, refl)

  -- A round with data: the thread goes on serving, keeps less than a command, and has read on.
  arrival_sizes :
      (n : ℕ) (obj : SdrTcp) (l : Listener)
      → obj.state ≡ client_serving
      → length l.got < 5
      → ((round commandcb (arrival n) (obj, l)).0.state ≡ client_serving)
        × (length (round commandcb (arrival n) (obj, l)).1.got < 5)
        × (length (round commandcb (arrival n) (obj, l)).1.stream ≤ length l.stream - 1)
  arrival_sizes n obj l e h =
      let sizes = receive_sizes n l h in
      let got = (receive (suc n) l).got in
      let after = hand_on_sizes obj (receive (suc n) l) (decode got) e refl sizes.0 in
      rw (round-arrival commandcb n obj l e) (after.0, after.1, rw after.2 sizes.1)

  arrivals_consume :
      (ns : List ℕ) (obj : SdrTcp) (l : Listener)
      → obj.state ≡ client_serving
      → length l.got < 5
      → length l.stream ≤ length ns
      → (length (command_listener commandcb (map arrival ns) (obj, l)).1.got < 5)
        × (length (command_listener commandcb (map arrival ns) (obj, l)).1.stream ≡ 0)
        × ((command_listener commandcb (map arrival ns) (obj, l)).0.state ≡ client_serving)
  arrivals_consume [] obj l e h k = rw (listener_end commandcb obj l) (h, omega arith, e)
  arrivals_consume (n ∷ ns) obj l e h k =
      let s = round commandcb (arrival n) (obj, l) in
      let sizes = arrival_sizes n obj l e h in
      rw (listener_step commandcb (arrival n) (map arrival ns) obj l e)
        (arrivals_consume ns s.0 s.1 sizes.0 sizes.1 (omega (arith, sizes.2)))

  frames_short : (bs : List ℕ) → length bs < 5 → frames bs ≡ []
  unfolding frames
  frames_short [] h = refl
  frames_short (a ∷ []) h = refl
  frames_short (a ∷ b ∷ []) h = refl
  frames_short (a ∷ b ∷ c ∷ []) h = refl
  frames_short (a ∷ b ∷ c ∷ d ∷ []) h = refl
  frames_short (a ∷ b ∷ c ∷ d ∷ f ∷ bs) h = absurd (omega arith)

  nil_of_length : (bs : List ℕ) → length bs ≡ 0 → bs ≡ []
  nil_of_length [] h = refl
  nil_of_length (b ∷ bs) h = absurd (omega arith)

  -- If no other thread interferes, the callback leaves the server serving and data arrives in at
  -- least as many rounds as there are bytes to come, every complete command is handed on, in order.
  pub command_listener_progress :
      (ns : List ℕ) (obj : SdrTcp) (stream : List ℕ)
      → obj.state ≡ client_serving
      → length stream ≤ length ns
      → (command_listener commandcb
          (map arrival ns)
          (obj, record { got = []; stream = stream; commands = [] })).1.commands
        ≡ frames stream
  command_listener_progress ns obj stream e k =
      let l : Listener = record { got = []; stream = stream; commands = [] } in
      let after = command_listener commandcb (map arrival ns) (obj, l) in
      let end = after.1 in
      let sizes = arrivals_consume ns obj l e (omega arith) k in
      let rest : frames (end.got ++ end.stream) ≡ [] =
        frames_short (end.got ++ end.stream)
          (omega (arith, length-append end.got end.stream, sizes.0, sizes.1)) in
      sym (append-nil end.commands)
      ∙ ap (λ (cs : List SdrTcpCommand). end.commands ++ cs) (sym rest)
      ∙ if_not-false (is_stage after.0.state client_serving)
          (command_listener-frames commandcb (map arrival ns) obj l (arrivals-AllCalm ns)).1
          (serving commandcb after.0 sizes.2)

decode_short : (got : List ℕ) → length got < 5 → decode got ≡ none
unfolding decode
decode_short [] h = refl
decode_short (a ∷ []) h = refl
decode_short (a ∷ b ∷ []) h = refl
decode_short (a ∷ b ∷ c ∷ []) h = refl
decode_short (a ∷ b ∷ c ∷ d ∷ []) h = refl
decode_short (a ∷ b ∷ c ∷ d ∷ f ∷ bs) h = absurd (omega arith)

receive_nothing : (l : Listener) → receive 0 l ≡ l
unfolding receive
receive_nothing l =
    let none_taken : min 0 (command_size - length l.got) ≡ 0 = omega arith in
    ap (λ n. record l { got = l.got ++ take n l.stream; stream = drop n l.stream }) none_taken
    ∙ ap (λ got. record l { got = got }) (append-nil l.got)

round-end_of_stream :
    (commandcb : SdrTcp → SdrTcpCommand → SdrTcp) (obj : SdrTcp) (l : Listener)
    → obj.state ≡ client_serving
    → length l.got < 5
    → round commandcb end_of_stream (obj, l) ≡ (obj, l)
unfolding round read_round dispatch take_answer hand_on
round-end_of_stream commandcb obj l e h =
    let heard : round commandcb end_of_stream (obj, l)
        ≡ hand_on commandcb obj (receive 0 l) (decode (receive 0 l).got) =
      rw (serving commandcb obj e, serving commandcb obj e) in
    heard
    ∙ ap (λ (l' : Listener). hand_on commandcb obj l' (decode l'.got)) (receive_nothing l)
    ∙ ap (hand_on commandcb obj l) (decode_short l.got h)

-- The end of the client's stream does not end the thread: if no other thread interferes, the listener
-- goes on as before, in the same stage, however often `recv` returns 0, also inside a command.
pub command_listener-end_of_stream :
    (commandcb : SdrTcp → SdrTcpCommand → SdrTcp) (n : ℕ) (obj : SdrTcp) (l : Listener)
    → obj.state ≡ client_serving
    → length l.got < 5
    → command_listener commandcb (replicate n end_of_stream) (obj, l) ≡ (obj, l)
command_listener-end_of_stream commandcb zero obj l e h = listener_end commandcb obj l
command_listener-end_of_stream commandcb (suc n) obj l e h =
    listener_step commandcb end_of_stream (replicate n end_of_stream) obj l e
    ∙ ap (command_listener commandcb (replicate n end_of_stream))
        (round-end_of_stream commandcb obj l e h)
    ∙ command_listener-end_of_stream commandcb n obj l e h

-- The thread ends where it finds another stage than CLIENT_SERVING.
pub command_listener_ends :
    (commandcb : SdrTcp → SdrTcpCommand → SdrTcp) (rs : List Round) (obj : SdrTcp) (l : Listener)
    → is_stage obj.state client_serving ≡ false
    → command_listener commandcb rs (obj, l) ≡ (obj, l)
unfolding command_listener
command_listener_ends commandcb [] obj l e = refl
command_listener_ends commandcb (r ∷ rs) obj l e = rw e refl

-- The thread ends at once, without reading, where it finds stage CLIENT_OPEN, in which tcp_server starts
-- it.
pub command_listener_early :
    (commandcb : SdrTcp → SdrTcpCommand → SdrTcp) (rs : List Round) (obj : SdrTcp) (l : Listener)
    → obj.state ≡ client_open
    → command_listener commandcb rs (obj, l) ≡ (obj, l)
command_listener_early commandcb rs obj l e =
    command_listener_ends commandcb rs obj l (ground arith)
