-- ===== src/SdrTcp/Server/SafePool.antt =====
-- The pool of rtlsdr/src/main/cpp/src/workpool.c as serveClient of sdrtcp.c uses it: no request and no
-- hand-over faults, as long as the other threads keep the pool in order.
use rtl_tcp_andro.Base.{
  ℕ, ◌+◌, ◌≡◌, refl, true, false, Option, none, some, List, [], ◌∷◌, ◌++◌, ◌==◌, length, get_elem?,
  set, if-both, if-true, if-false, Bool-cases, inl, inr, arith, ap, sym, ◌∙◌,
}
use rtl_tcp_andro.ExtBuffer.{ExtBuffer, extbuffer_preparetohandle}
use rtl_tcp_andro.WorkPool.{
  BufferPtr, WorkPool, store, pop_from, pop_queue, pop_again, pop, found_or_make, make_or_wait,
  recycle, pool_get_wait_lock, pool_get_unlock, pool_free,
}
use rtl_tcp_andro.WorkPool.Calls.{add-running}
use rtl_tcp_andro.SdrTcp.Memcpy.{bytes_to_send}

-- What the sender reads of a buffer is there.
abbrev pub IsReadable : ExtBuffer → Type 0
IsReadable b = (bytes : List ℕ) × (bytes_to_send b ≡ some bytes)

abbrev pub AreReadable : (BufferPtr → ExtBuffer) → List BufferPtr → Type 0
AreReadable m [] = Unit {0}
AreReadable m (b ∷ bs) = IsReadable (m b) × AreReadable m bs

-- A pool of two stages with their queues, where the buffers that wait to be sent can be read.
pub record InOrder (p : WorkPool) : Type 0 where
  pub first : List BufferPtr
  pub second : List BufferPtr
  pub queues_are : p.queues ≡ first ∷ second ∷ []
  pub two : p.max_ids ≡ 2
  pub readable : AreReadable p.memory second

-- A pool in order, or one that was freed.
pub record IsSafePool (p : WorkPool) : Type 0 where
  pub in_order : p.valid ≡ true → InOrder p

pub IsSafePool-freed : (p : WorkPool) → IsSafePool (pool_free p)
unfolding pool_free
IsSafePool-freed p = record { in_order = λ e. absurd cc }

abbrev pub IsFound : Option BufferPtr → WorkPool → Type 0
IsFound none p = Unit {0}
IsFound (some b) p = IsReadable (p.memory b)

-- An answer from a pool that runs: the buffer found can be read.
pub record Runs (found : Option BufferPtr) (p : WorkPool) : Type 0 where
  pub valid : p.valid ≡ true
  pub order : InOrder p
  pub readable : IsFound found p

abbrev IsServed : Option (Option BufferPtr × WorkPool) → Type 0
IsServed r = (found : Option BufferPtr) × (p : WorkPool) × (r ≡ some (found, p)) × Runs found p

IsServed-path : {r r' : Option (Option BufferPtr × WorkPool)} → r ≡ r' → IsServed r' → IsServed r
IsServed-path same (found, p, e, runs) = (found, p, same ∙ e, runs)

pop_from-IsServed :
    (p : WorkPool) (q0 q : List BufferPtr)
    → p.queues ≡ q0 ∷ q ∷ []
    → p.max_ids ≡ 2
    → AreReadable p.memory q
    → p.valid ≡ true
    → IsServed (pop_from p 1 (some q))
unfolding pop_from
pop_from-IsServed p q0 [] e two h v = (
  none,
  p,
  refl,
  record {
    valid = v;
    order = record { first = q0; second = []; queues_are = e; two = two; readable = h };
    readable = tt;
  },
)
pop_from-IsServed p q0 (b ∷ rest) e two (hb, h) v = (
  some b,
  record p { queues = set p.queues 1 rest },
  refl,
  record {
    valid = v;
    order = record {
      first = q0;
      second = rest;
      queues_are = ap (λ qs. set qs 1 rest) e;
      two = two;
      readable = h;
    };
    readable = hb;
  },
)

pop_queue-IsServed : (p : WorkPool) → InOrder p → p.valid ≡ true → IsServed (pop_queue p 1)
unfolding pop_queue
pop_queue-IsServed p o v =
    IsServed-path (ap (λ (qs : List (List BufferPtr)). pop_from p 1 (get_elem? qs 1)) o.queues_are)
      (pop_from-IsServed p o.first o.second o.queues_are o.two o.readable v)

-- Other threads may use the pool while a request waits, and leave it running.
abbrev pub KeepsPool : (WorkPool → WorkPool) → Type 0
KeepsPool others =
    (p : WorkPool) → InOrder p → p.valid ≡ true → InOrder (others p) × ((others p).valid ≡ true)

module _ (others : WorkPool → WorkPool) (keeps : KeepsPool others) where
  pop_again-IsServed :
      (r : Option (Option BufferPtr × WorkPool)) → IsServed r → IsServed (pop_again others 1 r)
  unfolding pop_again
  pop_again-IsServed r (none, p, e, runs) =
      let (order, v) = keeps p runs.order runs.valid in
      IsServed-path (ap (pop_again others 1) e) (pop_queue-IsServed (others p) order v)
  pop_again-IsServed r (some b, p, e, runs) = (some b, p, ap (pop_again others 1) e, runs)

  make_or_wait-IsServed :
      (p : WorkPool) → InOrder p → p.valid ≡ true → IsServed (make_or_wait 0 others p 1 true)
  unfolding make_or_wait pop
  make_or_wait-IsServed p o v =
      IsServed-path (if-true p.valid _ _ v)
        (pop_again-IsServed (pop_queue p 1) (pop_queue-IsServed p o v))

  found_or_make-IsServed :
      (r : Option (Option BufferPtr × WorkPool))
      → IsServed r
      → IsServed (found_or_make 0 others 1 true r)
  unfolding found_or_make
  found_or_make-IsServed r (none, p, e, runs) =
      IsServed-path (ap (found_or_make 0 others 1 true) e)
        (make_or_wait-IsServed p runs.order runs.valid)
  found_or_make-IsServed r (some b, p, e, runs) =
      (some b, p, ap (found_or_make 0 others 1 true) e, runs)

  -- The request that serveClient makes does not fault, and what it finds can be read.
  pub wait_lock-total :
      (p : WorkPool)
      → IsSafePool p
      → (found : Option BufferPtr) × (p' : WorkPool) × (pool_get_wait_lock 0 others p 1 true
          ≡ some (found, p'))
        × IsSafePool p'
        × IsFound found p'
  unfolding pool_get_wait_lock pop
  wait_lock-total p safe = elim (Bool-cases p.valid) [
    | inl v ↦
        let (found, p', e, runs) =
          found_or_make-IsServed (pop others p 1 false)
            (IsServed-path (if-true p.valid _ _ v) (pop_queue-IsServed p (safe.in_order v) v)) in
        (found, p', if-true p.valid _ _ v ∙ e, record { in_order = λ _. runs.order }, runs.readable)
    | inr f ↦ (none, p, if-false p.valid _ _ f, safe, tt)
  ]

-- A buffer that is emptied can be read, and the others as before.
emptied-IsReadable : (b : ExtBuffer) → IsReadable (record b { size_valid_elements = 0 })
unfolding bytes_to_send
emptied-IsReadable b = ([], refl)

store-AreReadable :
    (m : BufferPtr → ExtBuffer) (b : BufferPtr) (x : ExtBuffer) (q : List BufferPtr)
    → IsReadable x
    → AreReadable m q
    → AreReadable (store m b x) q
store-AreReadable m b x [] hx h = h
store-AreReadable m b x (a ∷ q) hx (ha, h) =
    (if-both IsReadable (b == a) hx ha, store-AreReadable m b x q hx h)

-- Nor does the hand-over behind it.
pub unlock-total :
    (junk : ℕ → ℕ) (p : WorkPool) (b : BufferPtr)
    → IsSafePool p
    → (p' : WorkPool) × (pool_get_unlock junk p 1 b ≡ some p') × IsSafePool p'
unfolding pool_get_unlock recycle extbuffer_preparetohandle
unlock-total junk p b safe = elim (Bool-cases p.valid) [
  | inr f ↦ (p, if-false p.valid _ _ f, safe)
  | inl v ↦
      let o = safe.in_order v in
      let x : ExtBuffer = record (p.memory b) { size_valid_elements = 0 } in
      let m : WorkPool = record p { memory = store p.memory b x } in
      let (q, e, added) =
        add-running m 0 b (record { valid = v; stages = ap length o.queues_are ∙ sym o.two })
          (omega (arith, o.two)) in
      let last : (1 + 1 == p.max_ids) ≡ true = ground (arith, o.two) in
      (
        record m { queues = set p.queues 0 (q ++ b ∷ []) },
        if-true p.valid _ _ v ∙ if-true (1 + 1 == p.max_ids) _ _ last ∙ added,
        record {
          in_order = λ _. record {
            first = q ++ b ∷ [];
            second = o.second;
            queues_are = ap (λ qs. set qs 0 (q ++ b ∷ [])) o.queues_are;
            two = o.two;
            readable =
                store-AreReadable p.memory b x o.second (emptied-IsReadable (p.memory b))
                  o.readable;
          };
        },
      )
]
