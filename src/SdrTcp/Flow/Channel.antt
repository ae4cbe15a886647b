-- ===== src/SdrTcp/Flow/Channel.antt =====
-- What the threads of rtlsdr/src/main/cpp/src/sdrtcp.c around the pool are for: a first-in-first-out
-- channel of bytes, which is written by feeding and read by the client.
use rtl_tcp_andro.Base.{ℕ, ◌+◌, ◌*◌, ◌^◌, ◌≢◌, ◌<◌, ◌≡◌, some, List, ◌++◌, length}
use rtl_tcp_andro.Base.Words.{IsBytes}
use rtl_tcp_andro.SdrTcp.{client_serving}
use rtl_tcp_andro.WorkPool.Conservation.{count, sum_of}
use rtl_tcp_andro.SdrTcp.Flow.{Flow, Action, feed, take, give, change, act}
use rtl_tcp_andro.SdrTcp.Flow.Order.{held_by}

-- What was written to the channel, what was read from it, and what it did not take.
pub record Channel : Type 0 where
  pub written : List ℕ
  pub read : List ℕ
  pub refused : List ℕ

-- Bytes are written behind all others, or refused as a whole, and those behind what was read already are
-- read next.
pub data Transfer (c c' : Channel) : Type 0 where
  write :
      (bytes : List ℕ)
      → c'.written ≡ c.written ++ bytes
      → c'.read ≡ c.read
      → c'.refused ≡ c.refused
      → Transfer c c'
  refuse :
      (bytes : List ℕ)
      → c'.written ≡ c.written
      → c'.read ≡ c.read
      → c'.refused ≡ c.refused ++ bytes
      → Transfer c c'
  fetch :
      (bytes rest : List ℕ)
      → c'.written ≡ c.written
      → c'.read ≡ c.read ++ bytes
      → c'.read ++ rest ≡ c.written
      → c'.refused ≡ c.refused
      → Transfer c c'

abbrev pub channel : Flow → Channel
channel s = record { written = s.fed; read = s.sent; refused = s.dropped }

-- What the threads may do: feed whole 16-bit cells, at least one, where `malloc` returns a buffer that
-- is not in use; take and give at any time; and change the stage, but not to CLIENT_SERVING, which only
-- the server's thread does, ahead of its first turn.
abbrev pub IsAllowed : Flow → Action → Type 0
IsAllowed s (feed fresh bytes len) =
    (length bytes ≡ 2 * len)
    × IsBytes bytes
    × (0 < len)
    × (2 * len < 2 ^ 32)
    × (sum_of (count fresh) s.pool.queues + held_by s.holding fresh ≡ 0)
IsAllowed s take = Unit {0}
IsAllowed s (give sockets rounds) = Unit {0}
IsAllowed s (change stage) = stage ≢ client_serving

-- The states that the threads lead to, in any order of their calls.
pub data Reach (junk : ℕ → ℕ) (s : Flow) : Flow → Type 0 where
  here : Reach junk s s
  next :
      {t u : Flow}
      → Reach junk s t
      → (a : Action) → IsAllowed t a
      → act junk a t ≡ some u
      → Reach junk s u
