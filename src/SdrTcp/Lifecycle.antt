-- ===== src/SdrTcp/Lifecycle.antt =====
-- The threads of rtlsdr/src/main/cpp/src/sdrtcp.c around the opening of the socket and what each of them does
-- to `state` and the sockets, one access at a time: one thread in sdrtcp_open_socket, and any number of
-- threads in sdrtcp_stop_serving_client. A section under the lock is one step, but for that of
-- sdrtcp_cleanup, whose accesses to the sockets meet an unlocked write of sdrtcp_open_socket. The
-- server's own thread is left to Server.
pub mod Lost
mod Tests
use rtl_tcp_andro.Base.{
  ℕ, suc, ◌+◌, ◌≡◌, Bool, true, false, ◌&&◌, not, Option, none, some, List, [], ◌∷◌, ◌++◌, ◌>>=◌,
  ltb, if◌then◌else◌,
}
use rtl_tcp_andro.WorkPool.{BufferPtr, WorkPool, pool_free}
use rtl_tcp_andro.SdrTcp.{
  Stage, uninitialized, initialized, socket_open, client_open_started_async, needs_stopping,
  stage_code, is_stage, Socket, is_open, SdrTcp, Effect, close, closed_callback, close_socket,
}
use rtl_tcp_andro.SdrTcp.Open.{prepare_pool}

-- Where the opening thread is: before the access that the name tells of.
pub data Opener : Type 0 where
  idle resetting preparing testing making marking binding : Opener
  returning : (success : Bool) → Opener
  cleaning : Opener

-- The struct and its lock (which is held over a step only by a sdrtcp_cleanup that has not reset the
-- sockets yet), the opening thread, the listening descriptors that `socket` gave and those closed.
-- Threads in sdrtcp_stop_serving_client are counted, by what they are about to do.
pub record World : Type 0 where
  pub obj : SdrTcp
  pub locked : Bool
  pub opener : Opener
  pub to_compare : ℕ
  pub to_clean : ℕ
  pub to_ask : ℕ
  pub opened : List ℕ
  pub closed : List ℕ

-- What the system answers to the call of a step.
pub record Answer : Type 0 where
  pub fresh : BufferPtr
  pub info : List ℕ
  pub socket : Socket
  pub bound : Bool
  pub listening : Bool

abbrev pub descriptors : Socket → List ℕ
descriptors none = []
descriptors (some fd) = fd ∷ []

abbrev pub closed_by : List Effect → List ℕ
closed_by [] = []
closed_by (close fd ∷ effects) = fd ∷ closed_by effects
closed_by (closed_callback ∷ effects) = closed_by effects

-- `sdrtcp_cleanup` by some thread, up to the call of `close`.
unfoldable pub free_and_close : World → World
unfolding pool_free
free_and_close w =
    let stopped = record w.obj { state = uninitialized } in
    let freed = record stopped { workpool = pool_free stopped.workpool } in
    let effects =
      if not (is_stage freed.state initialized) && is_open freed.listen_socket
      then close_socket freed.listen_socket
      else [] in
    let after = record w { obj = freed; locked = true; closed = w.closed ++ closed_by effects } in
    if not (is_stage w.obj.state uninitialized) then after else w

-- Its end.
unfoldable pub forget_sockets : World → World
forget_sockets w = record w {
  obj = record w.obj { client_socket = none; listen_socket = none };
  locked = false;
}

-- The first test of `sdrtcp_open_socket`.
unfoldable pub begin_open : World → World
begin_open w = record w {
  opener = if is_stage w.obj.state uninitialized then resetting else cleaning;
}

-- Whether a step of the opening thread takes the lock.
abbrev pub takes_lock : Opener → Bool
takes_lock preparing = true
takes_lock marking = true
takes_lock cleaning = true
takes_lock _ = false

-- The other steps of the function.
unfoldable pub opener_step : (junk : ℕ → ℕ) → Answer → Opener → World → Option World
unfolding prepare_pool free_and_close
opener_step junk a idle w = some w
opener_step junk a resetting w =
    some (record w { obj = record w.obj { listen_socket = none }; opener = preparing })
opener_step junk a preparing w = prepare_pool junk a.fresh w.obj a.info >>= λ obj.
    some (record w { obj = obj; opener = testing })
opener_step junk a testing w =
    some (record w { opener = if is_stage w.obj.state initialized then making else marking })
opener_step junk a making w = some (record w {
  obj = record w.obj { listen_socket = a.socket };
  opened = w.opened ++ descriptors a.socket;
  opener = marking;
})
opener_step junk a marking w = some (record w {
  obj = if is_open w.obj.listen_socket then record w.obj { state = socket_open } else w.obj;
  opener = binding;
})
opener_step junk a binding w =
    some
      (record w { opener = returning (is_stage w.obj.state socket_open && a.bound && a.listening) })
opener_step junk a (returning success) w =
    some
      (record w { opener = if is_stage w.obj.state socket_open && success then idle else cleaning })
opener_step junk a cleaning w = some (record (free_and_close w) { opener = idle })

-- The two tests of `sdrtcp_stop_serving_client`.
unfoldable pub begin_stop : World → World
begin_stop w =
    if is_stage w.obj.state uninitialized then w else record w { to_compare = w.to_compare + 1 }

unfoldable pub compare_stage : World → World
compare_stage w =
    if ltb (stage_code w.obj.state) (stage_code client_open_started_async)
    then record w { to_clean = w.to_clean + 1 }
    else record w { to_ask = w.to_ask + 1 }

-- A step of some thread. A step that takes the lock waits until it is free; the pool changes too.
pub data Step (junk : ℕ → ℕ) (w : World) : World → Type 0 where
  opens : w.opener ≡ idle → Step junk w (begin_open w)
  opener_goes :
      (a : Answer) (u : World)
      → takes_lock w.opener && w.locked ≡ false
      → opener_step junk a w.opener w ≡ some u
      → Step junk w u
  stops : Step junk w (begin_stop w)
  compares :
      (n : ℕ) → w.to_compare ≡ suc n → Step junk w (compare_stage (record w { to_compare = n }))
  cleans :
      (n : ℕ)
      → w.to_clean ≡ suc n
      → w.locked ≡ false
      → Step junk w (free_and_close (record w { to_clean = n }))
  forgets : w.locked ≡ true → Step junk w (forget_sockets w)
  asks :
      (n : ℕ)
      → w.to_ask ≡ suc n
      → Step junk w (record w { to_ask = n; obj = record w.obj { state = needs_stopping } })
  pool_changes :
      (pool : WorkPool) → Step junk w (record w { obj = record w.obj { workpool = pool } })

pub data Reach (junk : ℕ → ℕ) (w : World) : World → Type 0 where
  here : Reach junk w w
  next : {u v : World} → Reach junk w u → Step junk u v → Reach junk w v
