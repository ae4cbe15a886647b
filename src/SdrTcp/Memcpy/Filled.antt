-- ===== src/SdrTcp/Memcpy/Filled.antt =====
-- A buffer that was filled with bytes is read as those bytes, and stands last in its queue.
use rtl_tcp_andro.Base.{
  ℕ, ◌+◌, ◌-◌, ◌*◌, ◌^◌, ltb, lt→ltb, ◌≤◌, ◌<◌, ◌≡◌, refl, true, false, Option, none, some, List,
  [], ◌∷◌, ◌++◌, ◌>>=◌, ◌==◌, length, drop, take, set, get_elem?, arith, ap, sym, ◌∙◌, if-true,
  if-false, Bool-cases, inl, inr, length-append, length-drop,
}
use mathlib.Core.Path.{subst}
use rtl_tcp_andro.Base.Int.{pos, negsuc}
use rtl_tcp_andro.Base.Words.{
  signed32, bytes_of_ushorts, ushorts_of_bytes, IsBytes, bytes_of_ushorts-of_bytes,
  length-ushorts_of_bytes,
}
use rtl_tcp_andro.ExtBuffer.{ExtBuffer, ExtbuffType, ushort, sizeof, extbuffer_preparetohandle}
use rtl_tcp_andro.ExtBuffer.Invariant.{IsValid, cells_of, Sized}
use rtl_tcp_andro.ExtBuffer.Calls.{extbuffer_preparetohandle-IsValid}
use rtl_tcp_andro.WorkPool.{BufferPtr, WorkPool, store, pool_get_wait_lock, pool_get_unlock}
use rtl_tcp_andro.WorkPool.Calls.{IsRunning, add-running, store_self}
use rtl_tcp_andro.SdrTcp.Memcpy.{overwrite, memcpy_to, bytes_to_send, fill_buffer, queue_bytes}

overwrite-some :
    (us old : List ℕ)
    → length us ≤ length old
    → overwrite us old ≡ some (us ++ drop (length us) old)
unfolding overwrite
overwrite-some [] old h = refl
overwrite-some (u ∷ us) [] h = absurd (omega arith)
overwrite-some (u ∷ us) (o ∷ old) h = rw (overwrite-some us old (omega arith))

take-append : (us rest : List ℕ) → take (length us) (us ++ rest) ≡ us
take-append [] rest = refl
take-append (u ∷ us) rest = rw (take-append us rest)

-- A valid container of 16-bit cells has room for its valid elements.
valid_cells :
    (b : ExtBuffer) (o : Option (List ℕ))
    → b.ushortbuffer ≡ o
    → Sized o b.buffer_max_size
    → b.size_valid_elements ≤ b.buffer_max_size
    → 0 < b.size_valid_elements
    → (cells : List ℕ) × (b.ushortbuffer ≡ some cells)
      × (b.size_valid_elements ≤ length cells)
      × Sized (some cells) b.buffer_max_size
valid_cells b none e s f p = absurd (omega arith)
valid_cells b (some cells) e s f p = (cells, e, omega arith, s)

room :
    (b : ExtBuffer)
    → IsValid b
    → b.type ≡ ushort
    → 0 < b.size_valid_elements
    → (cells : List ℕ) × (b.ushortbuffer ≡ some cells)
      × (b.size_valid_elements ≤ length cells)
      × Sized (some cells) b.buffer_max_size
room b v t p =
    valid_cells b b.ushortbuffer refl
      (subst (λ (x : ExtbuffType). Sized (cells_of x b) b.buffer_max_size) t v.sized) v.fits p

-- Other cells, as many, in a valid container of 16-bit cells.
set_cells-IsValid :
    (b : ExtBuffer) (cells : List ℕ)
    → IsValid b
    → b.type ≡ ushort
    → Sized (some cells) b.buffer_max_size
    → IsValid (record b { ushortbuffer = some cells })
set_cells-IsValid b cells v t s = record {
  known = v.known;
  sized =
      subst
        (λ (x : ExtbuffType).
          Sized (cells_of x (record b { ushortbuffer = some cells })) b.buffer_max_size)
        (sym t) s;
  fits = v.fits;
}

length-overwritten :
    (us old : List ℕ) → length us ≤ length old → length (us ++ drop (length us) old) ≡ length old
length-overwritten us old h =
    omega (arith, length-append us (drop (length us) old), length-drop (length us) old)

-- A valid container of 16-bit cells can be read.
pub valid-readable :
    (b : ExtBuffer)
    → IsValid b
    → b.type ≡ ushort
    → (bytes : List ℕ) × (bytes_to_send b ≡ some bytes)
unfolding bytes_to_send
valid-readable b v t = elim (Bool-cases (b.size_valid_elements == 0)) [
  | inl empty ↦ ([], if-true (b.size_valid_elements == 0) _ _ empty)
  | inr some_cells ↦
      let (cells, e, _, _) = room b v t (ground arith) in
      (
        bytes_of_ushorts (take b.size_valid_elements cells),
        if-false (b.size_valid_elements == 0) _ _ some_cells
            ∙ ap
                (λ (o : Option (List ℕ)).
                  o >>= λ cells. some (bytes_of_ushorts (take b.size_valid_elements cells)))
                e,
      )
]

not_last : (k : ℕ) → k ≡ 2 → (0 + 1 == k) ≡ false
not_last k e = ground arith

-- A size that fits an int.
int_of : (n : ℕ) → 2 * n < 2 ^ 32 → signed32 n ≡ pos n
int_of n h =
    if-true (ltb n (2 ^ 31)) (pos n) (negsuc (2 ^ 32 - n - 1)) (lt→ltb n (2 ^ 31) (omega arith))

positive : (k n : ℕ) → k ≡ n → 0 < n → (k == 0) ≡ false
positive k n e h = ground arith

module _ (bytes : List ℕ) (n : ℕ) (len : length bytes ≡ 2 * n) (are : IsBytes bytes)
    (nonempty : 0 < n) (small : 2 * n < 2 ^ 32) where
  -- Bytes copied into a container with room for them are what a reader gets.
  memcpy_to-bytes :
      (b : ExtBuffer)
      → IsValid b
      → b.type ≡ ushort
      → b.size_valid_elements ≡ n
      → (b' : ExtBuffer) × (memcpy_to b bytes ≡ some b')
        × (bytes_to_send b' ≡ some bytes)
        × IsValid b'
        × (b'.type ≡ ushort)
  unfolding memcpy_to bytes_to_send
  memcpy_to-bytes b v t s =
      let us = ushorts_of_bytes bytes in
      let us_len = length-ushorts_of_bytes n bytes len in
      let (cells, e, fits, (same, some_room)) = room b v t (omega arith) in
      let after = us ++ drop (length us) cells in
      let b' : ExtBuffer = record b { ushortbuffer = some after } in
      let short : length us ≤ length cells = omega (arith, us_len, fits) in
      (
        b',
        rw (e, overwrite-some us cells short),
        if-false (b.size_valid_elements == 0) _ _ (positive b.size_valid_elements n s nonempty)
            ∙ ap (λ (k : ℕ). some (bytes_of_ushorts (take k after))) (s ∙ sym us_len)
            ∙ ap (λ (cells : List ℕ). some (bytes_of_ushorts cells)) (take-append us _)
            ∙ ap some (bytes_of_ushorts-of_bytes n bytes len are),
        set_cells-IsValid b after v t (length-overwritten us cells short ∙ same, some_room),
        t,
      )

  -- `fill_buffer` puts the buffer, valid and holding the bytes, at the end of the second queue, and
  -- changes nothing else.
  pub fill_buffer-stores :
      (junk : ℕ → ℕ) (p : WorkPool) (buff : BufferPtr)
      → IsRunning p
      → p.max_ids ≡ 2
      → IsValid (p.memory buff)
      → (p.memory buff).type ≡ ushort
      → (q : List BufferPtr) × (filled : ExtBuffer) × (get_elem? p.queues 1 ≡ some q)
        × (fill_buffer junk p buff n bytes
            ≡ some (record p {
              memory = store p.memory buff filled;
              queues = set p.queues 1 (q ++ buff ∷ []);
            }))
        × (bytes_to_send filled ≡ some bytes)
        × IsValid filled
        × (filled.type ≡ ushort)
  unfolding fill_buffer pool_get_unlock
  fill_buffer-stores junk p buff r two v t =
      let s =
        extbuffer_preparetohandle-IsValid junk (p.memory buff) (pos n) v
          (subst (λ (x : ExtbuffType). sizeof x * n < 2 ^ 32) (sym t) small) in
      let m = memcpy_to-bytes s.0 s.2 (s.5 ∙ t) s.3 in
      let filled : WorkPool = record p { memory = store p.memory buff m.0 } in
      let a =
        add-running filled 1 buff (record { valid = r.valid; stages = r.stages }) (omega arith) in
      (
        a.0,
        m.0,
        a.1,
        ap
              (λ size. extbuffer_preparetohandle junk (p.memory buff) size >>= λ sized.
                memcpy_to sized bytes >>= λ x.
                pool_get_unlock junk (record p { memory = store p.memory buff x }) 0 buff)
              (int_of n small)
            ∙ ap
                (λ (o : Option ExtBuffer). o >>= λ sized. memcpy_to sized bytes >>= λ x.
                  pool_get_unlock junk (record p { memory = store p.memory buff x }) 0 buff)
                s.1
            ∙ ap
                (λ (o : Option ExtBuffer). o >>= λ x.
                  pool_get_unlock junk (record p { memory = store p.memory buff x }) 0 buff)
                m.1
            ∙ if-true p.valid _ _ r.valid
            ∙ if-false (0 + 1 == p.max_ids) _ _ (not_last p.max_ids two)
            ∙ a.2,
        m.2,
        m.3,
        m.4,
      )

  -- Bytes queued through the pool stand, in one buffer, at the end of the client's queue.
  pub queue_bytes-bytes :
      (junk : ℕ → ℕ) (fresh : BufferPtr) (others : WorkPool → WorkPool) (p p1 : WorkPool)
      (buff : BufferPtr)
      → pool_get_wait_lock fresh others p 0 true ≡ some (some buff, p1)
      → IsRunning p1
      → p1.max_ids ≡ 2
      → IsValid (p1.memory buff)
      → (p1.memory buff).type ≡ ushort
      → (q : List BufferPtr) × (p' : WorkPool) × (get_elem? p1.queues 1 ≡ some q)
        × (queue_bytes junk fresh others p n bytes ≡ some p')
        × (p'.queues ≡ set p1.queues 1 (q ++ buff ∷ []))
        × (bytes_to_send (p'.memory buff) ≡ some bytes)
  unfolding queue_bytes
  queue_bytes-bytes junk fresh others p p1 buff e r two v t =
      let (q, filled, at_one, done, holds, _, _) = fill_buffer-stores junk p1 buff r two v t in
      (
        q,
        record p1 {
          memory = store p1.memory buff filled;
          queues = set p1.queues 1 (q ++ buff ∷ []);
        },
        at_one,
        rw e done,
        refl,
        ap bytes_to_send (store_self p1.memory buff filled) ∙ holds,
      )
