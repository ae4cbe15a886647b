-- ===== src/SdrTcp/Server.antt =====
-- sdrtcp_wait_for_client and tcp_server of rtlsdr/src/main/cpp/src/sdrtcp.c: the server's own thread.
pub mod Races
pub mod Ends
pub mod SafePool
pub mod Serving
use rtl_tcp_andro.Base.{
  ℕ, zero, suc, Bool, true, false, ◌&&◌, not, Option, none, some, List, [], ◌∷◌, ◌++◌, ◌==◌, ◌>>=◌,
  if◌then◌else◌,
}
use rtl_tcp_andro.SdrTcp.{
  Stage, uninitialized, client_open, client_open_started_async, client_serving, is_stage, Socket,
  is_open, SdrTcp, Effect, closed_callback, sdrtcp_cleanup,
}
use rtl_tcp_andro.SdrTcp.Sender.{Turn, serve_client}

-- One round of the wait: whether `select` returns something else than 0, what `accept` returns, and
-- what other threads do before the test ahead of `select` and the one behind it.
pub record AcceptRound : Type 0 where
  pub ready : Bool
  pub accepted : Socket
  pub at_select : SdrTcp → SdrTcp
  pub at_accept : SdrTcp → SdrTcp

-- `accept` and what follows it: the new state, and whether the wait has failed.
unfoldable pub accept_client : Socket → SdrTcp → SdrTcp × Bool
accept_client none obj = (record obj { client_socket = none }, true)
accept_client (some fd) obj = (record obj { client_socket = some fd; state = client_open }, false)

unfoldable pub accept_round : AcceptRound → SdrTcp → SdrTcp × Bool
unfolding accept_client
accept_round r obj =
    let before = r.at_select obj in
    let ready = if is_stage before.state client_open_started_async then r.ready else false in
    let after = r.at_accept before in
    if ready && is_stage after.state client_open_started_async
    then accept_client r.accepted after
    else (after, false)

-- The loop over the rounds to come.
unfoldable pub wait_loop : List AcceptRound → SdrTcp → SdrTcp
unfolding accept_round
wait_loop [] obj = obj
wait_loop (r ∷ rs) obj =
    let step = accept_round r obj in
    let rest = wait_loop rs step.0 in
    if is_stage obj.state client_open_started_async then (if step.1 then step.0 else rest) else obj

unfoldable pub sdrtcp_wait_for_client : List AcceptRound → SdrTcp → SdrTcp
unfolding wait_loop
sdrtcp_wait_for_client rs obj =
    if is_stage obj.state client_open_started_async
    then wait_loop rs (record obj { client_socket = none })
    else obj

-- The part of `tcp_server` with a client, up to `serveClient`. `at_mark` is what other threads (the listener's among them)
-- do between the test of `state` and its new value; the bytes sent are the second result.
unfoldable pub serve_accepted :
    (junk : ℕ → ℕ) → (at_mark : SdrTcp → SdrTcp) → List Turn → SdrTcp → Option (SdrTcp × List ℕ)
unfolding serve_client
serve_accepted junk at_mark turns obj =
    if is_stage obj.state client_open
    then serve_client junk turns (record (at_mark obj) { state = client_serving }) []
    else some (obj, [])

-- `pthread_join(commandThread)`, which only a server that has found a client makes: what the other
-- threads do until the listener's thread has ended.
unfoldable pub join_listener : (at_join : SdrTcp → SdrTcp) → (waited served : SdrTcp) → SdrTcp
join_listener at_join waited served =
    if is_stage waited.state client_open then at_join served else served

-- The end of `tcp_server`: the clean-up, if no one else made it, and the callback. `at_cleanup` is what
-- other threads do between the test and the clean-up, `at_callback` what they do before the callback.
unfoldable pub shut_down :
    (closedcb at_cleanup at_callback : SdrTcp → SdrTcp) → SdrTcp → SdrTcp × List Effect
unfolding sdrtcp_cleanup
shut_down closedcb at_cleanup at_callback obj =
    let (closed, effects) =
      if not (is_stage obj.state uninitialized)
      then sdrtcp_cleanup (at_cleanup obj)
      else (obj, []) in
    (closedcb (at_callback closed), effects ++ closed_callback ∷ [])

-- What other threads do at these places of `tcp_server`.
pub record Others : Type 0 where
  pub at_mark : SdrTcp → SdrTcp
  pub at_join : SdrTcp → SdrTcp
  pub at_cleanup : SdrTcp → SdrTcp
  pub at_callback : SdrTcp → SdrTcp

unfoldable pub tcp_server :
    (junk : ℕ → ℕ)
    → (closedcb : SdrTcp → SdrTcp) → Others
    → List AcceptRound
    → List Turn
    → SdrTcp
    → Option (SdrTcp × List ℕ × List Effect)
unfolding sdrtcp_wait_for_client serve_accepted join_listener shut_down
tcp_server junk closedcb others rounds turns obj =
    let waited = sdrtcp_wait_for_client rounds obj in
    serve_accepted junk others.at_mark turns waited >>= λ (served, sent).
    let joined = join_listener others.at_join waited served in
    let (closed, effects) = shut_down closedcb others.at_cleanup others.at_callback joined in
    some (closed, sent, effects)
