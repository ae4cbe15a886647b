-- ===== src/SdrTcp/Memcpy.antt =====
-- The buffers that sdrtcp_open_socket and sdrtcp_feed of rtlsdr/src/main/cpp/src/sdrtcp.c fill: bytes
-- copied into the 16-bit cells of a buffer, in a little-endian memory.
pub mod Filled
use rtl_tcp_andro.Base.{
  ℕ, zero, suc, ◌+◌, ◌*◌, ◌≤◌, ◌<◌, ◌≡◌, Bool, true, false, Option, none, some, List, [], ◌∷◌, ◌++◌,
  ◌>>=◌, ◌==◌, if◌then◌else◌, length, drop, take,
}
use rtl_tcp_andro.Base.Int.{ℤ, pos, negsuc}
use rtl_tcp_andro.Base.Words.{signed32, bytes_of_ushorts, ushorts_of_bytes}
use rtl_tcp_andro.ExtBuffer.{ExtBuffer, extbuffer_preparetohandle}
use rtl_tcp_andro.WorkPool.{BufferPtr, WorkPool, store, pool_get_wait_lock, pool_get_unlock}

-- Cells written over the front of others; a fault if they do not fit.
unfoldable pub overwrite : List ℕ → List ℕ → Option (List ℕ)
overwrite [] old = some old
overwrite (u ∷ us) [] = none
overwrite (u ∷ us) (o ∷ old) = overwrite us old >>= λ rest. some (u ∷ rest)

-- `memcpy(buff->ushortbuffer, bytes, ...)`
unfoldable pub memcpy_to : ExtBuffer → List ℕ → Option ExtBuffer
unfolding overwrite
memcpy_to b bytes = b.ushortbuffer >>= λ cells.
    overwrite (ushorts_of_bytes bytes) cells >>= λ cells'.
    some (record b { ushortbuffer = some cells' })

-- The bytes that a reader of a buffer gets: `size_valid_elements` cells of two bytes.
unfoldable pub bytes_to_send : ExtBuffer → Option (List ℕ)
bytes_to_send b =
    if b.size_valid_elements == 0
    then some []
    else (b.ushortbuffer >>= λ cells. some (bytes_of_ushorts (take b.size_valid_elements cells)))

-- The buffer is sized, by `len` as an int, filled and handed to the next stage.
unfoldable pub fill_buffer :
    (junk : ℕ → ℕ) → WorkPool → BufferPtr → (len : ℕ) → (bytes : List ℕ) → Option WorkPool
unfolding extbuffer_preparetohandle memcpy_to pool_get_unlock
fill_buffer junk pool buff len bytes =
    extbuffer_preparetohandle junk (pool.memory buff) (signed32 len) >>= λ sized.
    memcpy_to sized bytes >>= λ filled.
    pool_get_unlock junk (record pool { memory = store pool.memory buff filled }) 0 buff

-- `if ((buff = pool_get_wait_lock(&obj->workpool, 0, 1)) != NULL) { ... }`; `malloc` returns `fresh`
-- and `others` is what other threads do to the pool while the call waits.
unfoldable pub queue_bytes :
    (junk : ℕ → ℕ)
    → (fresh : BufferPtr) → (others : WorkPool → WorkPool) → WorkPool
    → (len : ℕ) → (bytes : List ℕ) → Option WorkPool
unfolding pool_get_wait_lock fill_buffer
queue_bytes junk fresh others pool len bytes =
    pool_get_wait_lock fresh others pool 0 true >>= λ (found, pool'). elim found [
      | none ↦ some pool'
      | some buff ↦ fill_buffer junk pool' buff len bytes
    ]
