-- ===== src/SdrTcp/Listener/Frames.antt =====
-- The commands that commandListener of rtlsdr/src/main/cpp/src/sdrtcp.c hands on, against the bytes
-- that the client sends.
use rtl_tcp_andro.Base.{
  ◌⊎◌, ℕ, ◌-◌, ◌≡◌, refl, false, Option, none, some, List, [], ◌∷◌, ◌++◌, if◌then◌else◌, length,
  arith, ap, sym, ◌∙◌, take-append-drop, if-both, if-true, if-false, Bool-cases, inl, inr, true,
}
use Prim.Native.Nat.{min}
use mathlib.Core.List.{append_assoc}
use mathlib.Core.Path.{subst}
use rtl_tcp_andro.Base.Words.{from_be32}
use rtl_tcp_andro.SdrTcp.{client_serving, is_stage, SdrTcp}
use rtl_tcp_andro.SdrTcp.Listener.{
  SdrTcpCommand, command_size, decode, Recv, failed, received, Round, Listener, receive,
  take_answer, read_round, hand_on, dispatch, round, command_listener,
}

-- The commands in a byte stream: each five bytes are a command and a parameter in network order. What
-- is left at the end is no command.
unfoldable pub frames : List ℕ → List SdrTcpCommand
frames (c ∷ p ∷ q ∷ r ∷ s ∷ rest) =
    record { command = c; parameter = from_be32 p q r s } ∷ frames rest
frames _ = []

-- All that the client has sent, in order, from the command that is being read on.
abbrev pub pending : Listener → List ℕ
pending l = l.got ++ l.stream

-- What has been handed on, followed by what is still to come.
abbrev pub history : Listener → List SdrTcpCommand
history l = l.commands ++ frames (pending l)

pending-receive : (n : ℕ) (l : Listener) → pending (receive n l) ≡ pending l
unfolding receive
pending-receive n l =
    append_assoc l.got _ _
    ∙ ap (λ (bs : List ℕ). l.got ++ bs)
        (take-append-drop (min n (command_size - length l.got)) l.stream)

received_commands :
    (n : ℕ) (l : Listener) → (receive n l).commands ++ frames (pending l) ≡ history l
unfolding receive
received_commands n l = refl

-- A complete command is the first frame of the stream.
frames-decode :
    (got stream : List ℕ) (cmd : SdrTcpCommand)
    → decode got ≡ some cmd
    → frames (got ++ stream) ≡ cmd ∷ frames stream
unfolding frames decode
frames-decode [] stream cmd e = cc
frames-decode (c ∷ []) stream cmd e = cc
frames-decode (c ∷ p ∷ []) stream cmd e = cc
frames-decode (c ∷ p ∷ q ∷ []) stream cmd e = cc
frames-decode (c ∷ p ∷ q ∷ r ∷ []) stream cmd e = cc
frames-decode (c ∷ p ∷ q ∷ r ∷ s ∷ []) stream cmd e = ground arith
frames-decode (c ∷ p ∷ q ∷ r ∷ s ∷ t ∷ rest) stream cmd e = cc

-- The commands handed on are a beginning of the history; in stage CLIENT_SERVING it is unchanged.
record Keeps (l : Listener) (s : SdrTcp × Listener) : Type 0 where
  rest : List SdrTcpCommand
  begun : s.1.commands ++ rest ≡ history l
  same : is_stage s.0.state client_serving ≡ true → history s.1 ≡ history l

unchanged : (l l' : Listener) (obj : SdrTcp) → history l' ≡ history l → Keeps l (obj, l')
unchanged l l' obj e = record { rest = frames (pending l'); begun = e; same = λ _. e }

-- An interference after which the stage is not CLIENT_SERVING if it was not before.
abbrev pub IsCalm : (SdrTcp → SdrTcp) → Type 0
IsCalm other =
    (obj : SdrTcp)
    → is_stage (other obj).state client_serving ≡ true
    → is_stage obj.state client_serving ≡ true

-- Rounds in which no other thread sets CLIENT_SERVING again at the end of the inner loop.
unfoldable pub AllCalm : List Round → Type 0
AllCalm [] = Unit {0}
AllCalm (r ∷ rs) = IsCalm r.at_callback × IsCalm r.at_reset × AllCalm rs

take_answer-Keeps : (a : Recv) (obj : SdrTcp) (l : Listener) → Keeps l (take_answer a obj l)
unfolding take_answer
take_answer-Keeps failed obj l = record {
  rest = frames (pending l);
  begun = refl;
  same = λ e. absurd cc;
}
take_answer-Keeps (received n) obj l = unchanged l (receive n l) obj (
    ap (λ (bs : List ℕ). (receive n l).commands ++ frames bs) (pending-receive n l)
    ∙ received_commands n l)

read_round-Keeps : (r : Round) (obj : SdrTcp) (l : Listener) → Keeps l (read_round r (obj, l))
unfolding read_round
read_round-Keeps r obj l =
    let before = r.at_select obj in
    let ready = if is_stage before.state client_serving then r.ready else false in
    let after = r.at_recv before in
    if-both (Keeps l) (is_stage after.state client_serving)
      (if-both (Keeps l) ready (take_answer-Keeps r.recv after l) (unchanged l l after refl))
      (unchanged l l after refl)

hand_on-history :
    (commandcb : SdrTcp → SdrTcpCommand → SdrTcp) (obj : SdrTcp) (l : Listener)
    (o : Option SdrTcpCommand)
    → decode l.got ≡ o
    → history (hand_on commandcb obj l o).1 ≡ history l
unfolding hand_on
hand_on-history commandcb obj l none e = refl
hand_on-history commandcb obj l (some cmd) e =
    append_assoc l.commands (cmd ∷ []) (frames l.stream)
    ∙ ap (λ (cs : List SdrTcpCommand). l.commands ++ cs) (sym (frames-decode l.got l.stream cmd e))

module _ (commandcb : SdrTcp → SdrTcpCommand → SdrTcp) where
  dispatch-Keeps :
      (other reset : SdrTcp → SdrTcp) (l : Listener) (s : SdrTcp × Listener)
      → IsCalm other
      → IsCalm reset
      → Keeps l s
      → Keeps l (dispatch commandcb reset (other s.0, s.1))
  unfolding dispatch
  dispatch-Keeps other reset l (obj, l') calm calm' k =
      elim (Bool-cases (is_stage (other obj).state client_serving)) [
        | inl serves ↦
            let after = hand_on commandcb (other obj) l' (decode l'.got) in
            let kept : history after.1 ≡ history l =
              hand_on-history commandcb (other obj) l' (decode l'.got) refl
              ∙ k.same (calm obj serves) in
            subst (Keeps l) (sym (if-true (is_stage (other obj).state client_serving) _ _ serves))
              (unchanged l after.1 after.0 kept)
        | inr over ↦
            subst (Keeps l) (sym (if-false (is_stage (other obj).state client_serving) _ _ over))
              (record {
                rest = k.rest;
                begun = k.begun;
                same = λ e. let e' = calm' (other obj) e in absurd cc;
              })
      ]

  round-Keeps :
      (r : Round) (obj : SdrTcp) (l : Listener)
      → IsCalm r.at_callback
      → IsCalm r.at_reset
      → Keeps l (round commandcb r (obj, l))
  unfolding round
  round-Keeps r obj l calm calm' =
      dispatch-Keeps r.at_callback r.at_reset l (read_round r (obj, l)) calm calm'
        (read_round-Keeps r obj l)

  after_round :
      (l : Listener) (s s' : SdrTcp × Listener)
      → is_stage s.0.state client_serving ≡ true
      → Keeps l s
      → Keeps s.1 s'
      → Keeps l s'
  after_round l s s' serves k k' = record {
    rest = k'.rest;
    begun = k'.begun ∙ k.same serves;
    same = λ e. k'.same e ∙ k.same serves;
  }

  -- Behind another stage than CLIENT_SERVING, the thread does nothing.
  stops :
      (rs : List Round) (s : SdrTcp × Listener)
      → is_stage s.0.state client_serving ≡ false
      → command_listener commandcb rs s ≡ s
  unfolding command_listener
  stops [] s e = refl
  stops (r ∷ rs) s e = if-false (is_stage s.0.state client_serving) _ _ e

  listener-Keeps :
      (rs : List Round) (obj : SdrTcp) (l : Listener)
      → AllCalm rs
      → Keeps l (command_listener commandcb rs (obj, l))
  unfolding command_listener AllCalm
  listener-Keeps [] obj l calm = unchanged l l obj refl
  listener-Keeps (r ∷ rs) obj l (calm, calm', more) =
      let s = round commandcb r (obj, l) in
      let k = round-Keeps r obj l calm calm' in
      if-both (Keeps l) (is_stage obj.state client_serving)
        (elim (Bool-cases (is_stage s.0.state client_serving)) [
          | inl serves ↦
              after_round l s (command_listener commandcb rs s) serves k
                (listener-Keeps rs s.0 s.1 more)
          | inr over ↦ subst (Keeps l) (sym (stops rs s over)) k
        ])
        (unchanged l l obj refl)

  -- Whatever sizes the client's bytes arrive in, whatever fails and whatever other threads do, if
  -- none sets CLIENT_SERVING again where the inner loop ends: the commands handed to `commandcb` are at
  -- all times a beginning of the commands of the client's byte stream, in order, none left out,
  -- repeated or cut wrongly; and the stage is another than CLIENT_SERVING, or the others are those in
  -- the bytes not used yet.
  pub command_listener-frames :
      (rs : List Round) (obj : SdrTcp) (l : Listener)
      → AllCalm rs
      → let end = command_listener commandcb rs (obj, l) in
        ((rest : List SdrTcpCommand) × (end.1.commands ++ rest
            ≡ l.commands ++ frames (l.got ++ l.stream)))
        × ((is_stage end.0.state client_serving ≡ false)
            ⊎ (end.1.commands ++ frames (end.1.got ++ end.1.stream)
                ≡ l.commands ++ frames (l.got ++ l.stream)))
  command_listener-frames rs obj l calm =
      let end = command_listener commandcb rs (obj, l) in
      let k = listener-Keeps rs obj l calm in
      (
        (k.rest, k.begun),
        elim (Bool-cases (is_stage end.0.state client_serving)) [
          | inl serves ↦ inr (k.same serves)
          | inr over ↦ inl over
        ],
      )
