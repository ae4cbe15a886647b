-- ===== src/SdrTcp/Open/Outcome.antt =====
-- The outcomes of sdrtcp_open_socket of rtlsdr/src/main/cpp/src/sdrtcp.c.
use mathlib.Core.Option.{some-injective}
use rtl_tcp_andro.SdrTcp.Open.{
  Interference, pool_max_elements, dongle_info, OpenResults, quiet, prepare_pool, open_listener,
  sdrtcp_open_socket,
}
use rtl_tcp_andro.Base.{
  Bool-cases, inl, inr, if-true, ℕ, ◌≤◌, ◌≡◌, refl, Bool, true, false, ◌&&◌, Option, none, some,
  List, [], ◌∷◌, ◌++◌, ◌>>=◌, length, take, not, arith, ap, sym, ◌∙◌, if-true, if-false,
}
use rtl_tcp_andro.Base.Int.{pos}
use rtl_tcp_andro.Base.Words.{be32, IsBytes}
use rtl_tcp_andro.ExtBuffer.{ExtBuffer, ushort, extbuffer_init}
use rtl_tcp_andro.ExtBuffer.Invariant.{IsValid}
use rtl_tcp_andro.ExtBuffer.Calls.{extbuffer_init-IsValid}
use rtl_tcp_andro.WorkPool.{
  BufferPtr, WorkPool, store, pool_init, pool_set_threads, pool_free, pool_get_wait_lock,
}
use rtl_tcp_andro.WorkPool.Calls.{store_self}
use rtl_tcp_andro.SdrTcp.Memcpy.{queue_bytes, bytes_to_send}
use rtl_tcp_andro.SdrTcp.Memcpy.Filled.{queue_bytes-bytes}
use rtl_tcp_andro.SdrTcp.{
  uninitialized, initialized, socket_open, is_stage, Socket, is_open, SdrTcp, Effect, close_socket,
  sdrtcp_cleanup,
}

-- The pool of `sdrtcp_open_socket`, and the same with its first buffer made.
abbrev pub new_pool : (BufferPtr → ExtBuffer) → WorkPool
new_pool memory = record {
  queues = [] ∷ [] ∷ [];
  max_elements = pool_max_elements;
  max_ids = 2;
  elements = 0;
  extbuffer_type = ushort;
  valid = true;
  memory = memory;
}

abbrev pub with_buffer : (BufferPtr → ExtBuffer) → BufferPtr → WorkPool
with_buffer memory fresh = record (new_pool memory) {
  elements = 1;
  memory = store memory fresh (extbuffer_init ushort);
}

pub set_threads-new :
    (memory : BufferPtr → ExtBuffer)
    → pool_set_threads (pool_init memory pool_max_elements ushort) (pos 2) ≡ new_pool memory
unfolding pool_set_threads pool_init
set_threads-new memory = refl

pub first_buffer :
    (memory : BufferPtr → ExtBuffer) (fresh : BufferPtr)
    → pool_get_wait_lock fresh (λ p. p) (new_pool memory) 0 true
      ≡ some (some fresh, with_buffer memory fresh)
unfolding pool_get_wait_lock
first_buffer memory fresh = refl

pub dongle_info-length :
    (magic : List ℕ) (t g : ℕ) → 4 ≤ length magic → length (dongle_info magic t g) ≡ 12
unfolding dongle_info
dongle_info-length [] t g h = absurd (omega arith)
dongle_info-length (a ∷ []) t g h = absurd (omega arith)
dongle_info-length (a ∷ b ∷ []) t g h = absurd (omega arith)
dongle_info-length (a ∷ b ∷ c ∷ []) t g h = absurd (omega arith)
dongle_info-length (a ∷ b ∷ c ∷ d ∷ rest) t g h = refl

pub dongle_info-IsBytes :
    (magic : List ℕ) (t g : ℕ) → 4 ≤ length magic → IsBytes magic → IsBytes (dongle_info magic t g)
unfolding dongle_info
dongle_info-IsBytes [] t g h m = absurd (omega arith)
dongle_info-IsBytes (a ∷ []) t g h m = absurd (omega arith)
dongle_info-IsBytes (a ∷ b ∷ []) t g h m = absurd (omega arith)
dongle_info-IsBytes (a ∷ b ∷ c ∷ []) t g h m = absurd (omega arith)
dongle_info-IsBytes (a ∷ b ∷ c ∷ d ∷ rest) t g h m = omega arith

pub new_container :
    (memory : BufferPtr → ExtBuffer) (fresh : BufferPtr)
    → IsValid ((with_buffer memory fresh).memory fresh)
      × (((with_buffer memory fresh).memory fresh).type ≡ ushort)
unfolding extbuffer_init
new_container memory fresh =
    rw (store_self memory fresh (extbuffer_init ushort))
      (extbuffer_init-IsValid ushort (λ e. cc), refl)

refused :
    (socket : Socket) (bound listening : Bool) (obj : SdrTcp) (p : WorkPool)
    → (is_open socket && bound && listening) ≡ false
    → open_listener
        (record { socket = socket; bound = bound; listening = listening })
        quiet
        (record obj { listen_socket = none; workpool = p; state = initialized })
      ≡ (
        false,
        record obj {
          state = uninitialized;
          workpool = pool_free p;
          client_socket = none;
          listen_socket = none;
        },
        close_socket socket,
      )
unfolding open_listener sdrtcp_cleanup
refused none bound listening obj p f = refl
refused (some fd) false listening obj p f = refl
refused (some fd) true false obj p f = refl
refused (some fd) true true obj p f = cc

module _ (junk : ℕ → ℕ) (fresh : BufferPtr) (obj : SdrTcp) (magic : List ℕ) (t g : ℕ)
    (four : 4 ≤ length magic) (bytes : IsBytes magic) where
  prepared_pool :
      (p' : WorkPool) × (prepare_pool junk fresh
          (record obj { listen_socket = none })
          (dongle_info magic t g)
        ≡ some (record obj { listen_socket = none; workpool = p'; state = initialized }))
      × (p'.queues ≡ [] ∷ (fresh ∷ []) ∷ [])
      × (bytes_to_send (p'.memory fresh) ≡ some (dongle_info magic t g))
  unfolding prepare_pool
  prepared_pool =
      let info = dongle_info magic t g in
      let c = new_container obj.workpool.memory fresh in
      let f =
        queue_bytes-bytes info 6 (dongle_info-length magic t g four)
          (dongle_info-IsBytes magic t g four bytes) (omega arith) (omega arith) junk fresh (λ p. p)
          (new_pool obj.workpool.memory) (with_buffer obj.workpool.memory fresh) fresh
          (first_buffer obj.workpool.memory fresh) (record { valid = refl; stages = refl }) refl c.0
          c.1 in
      (
        f.1,
        ap
              (λ (p : WorkPool). queue_bytes junk fresh (λ q. q) p 6 info >>= λ pool'.
                some (record obj { listen_socket = none; workpool = pool'; state = initialized }))
              (set_threads-new obj.workpool.memory)
            ∙ ap
                (λ (o : Option WorkPool). o >>= λ pool'.
                  some (record obj { listen_socket = none; workpool = pool'; state = initialized }))
                f.3,
        f.4
            ∙ ap (λ (q : List BufferPtr). [] ∷ (q ++ fresh ∷ []) ∷ [])
                (sym (some-injective [] f.0 f.2)),
        f.5,
      )

  opened :
      (os : OpenResults) (others : Interference)
      → obj.state ≡ uninitialized
      → sdrtcp_open_socket junk fresh os others obj magic t g
        ≡ some (
            open_listener os others (record obj {
              listen_socket = none;
              workpool = prepared_pool.0;
              state = initialized;
            }))
  unfolding sdrtcp_open_socket
  opened os others e =
      if-false (not (is_stage obj.state uninitialized)) _ _ (ground arith)
      ∙ ap (λ (o : Option SdrTcp). o >>= λ obj'. some (open_listener os others obj'))
          prepared_pool.1

  -- From stage UNINITIALIZED, with four magic bytes and a system that opens, binds and listens, and
  -- with no interference: the call returns 1 in stage SOCKET_OPEN with the listening socket, and the
  -- first thing queued for the client is the dongle's description.
  pub sdrtcp_open_socket-success :
      (fd : ℕ)
      → obj.state ≡ uninitialized
      → (obj' : SdrTcp) × (sdrtcp_open_socket junk fresh
            (record { socket = some fd; bound = true; listening = true })
            quiet
            obj
            magic
            t
            g
          ≡ some (true, obj', []))
        × (obj'.state ≡ socket_open)
        × (obj'.listen_socket ≡ some fd)
        × (obj'.workpool.queues ≡ [] ∷ (fresh ∷ []) ∷ [])
        × (bytes_to_send (obj'.workpool.memory fresh) ≡ some (take 4 magic ++ be32 t ++ be32 g))
  unfolding dongle_info open_listener
  sdrtcp_open_socket-success fd e =
      let p = prepared_pool in
      (
        record obj { listen_socket = some fd; workpool = p.0; state = socket_open },
        opened (record { socket = some fd; bound = true; listening = true }) quiet e,
        refl,
        refl,
        p.2,
        p.3,
      )

  -- From stage UNINITIALIZED, where the system refuses the socket, the address or to listen, and with no
  -- interference: the call returns 0 in stage UNINITIALIZED with no sockets, and the socket that was
  -- made is closed.
  pub sdrtcp_open_socket-failure :
      (os : OpenResults)
      → obj.state ≡ uninitialized
      → (is_open os.socket && os.bound && os.listening) ≡ false
      → (obj' : SdrTcp) × (sdrtcp_open_socket junk fresh os quiet obj magic t g
          ≡ some (false, obj', close_socket os.socket))
        × (obj'.state ≡ uninitialized)
        × (obj'.client_socket ≡ none)
        × (obj'.listen_socket ≡ none)
  sdrtcp_open_socket-failure os e f = (
    record obj {
      state = uninitialized;
      workpool = pool_free prepared_pool.0;
      client_socket = none;
      listen_socket = none;
    },
    opened os quiet e ∙ ap some (refused os.socket os.bound os.listening obj prepared_pool.0 f),
    refl,
    refl,
    refl,
  )

  -- Whatever the stage, the system's answers and the other threads, the call returns.
  pub sdrtcp_open_socket_returns :
      (os : OpenResults) (others : Interference)
      → (r : Bool × SdrTcp × List Effect) × (sdrtcp_open_socket junk fresh os others obj magic t g
          ≡ some r)
  unfolding sdrtcp_open_socket
  sdrtcp_open_socket_returns os others =
      elim (Bool-cases (not (is_stage obj.state uninitialized))) [
        | inl busy ↦ (_, if-true (not (is_stage obj.state uninitialized)) _ _ busy)
        | inr idle ↦ (_, opened os others (ground arith))
      ]
