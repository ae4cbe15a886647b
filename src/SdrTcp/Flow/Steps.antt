-- ===== src/SdrTcp/Flow/Steps.antt =====
-- What a filled buffer and one that is given back do to the order of the bytes on their way through the
-- pool of rtlsdr/src/main/cpp/src/workpool.c.
use rtl_tcp_andro.Base.{
  ℕ, ◌+◌, ◌*◌, ◌^◌, ◌<◌, ◌≤◌, ◌≡◌, true, Option, none, some, List, [], ◌∷◌, ◌++◌, ◌==◌, length,
  if◌then◌else◌, get_elem?, set, if-true, if-false, Bool-cases, inl, inr, arith, ap, sym, ◌∙◌,
}
use mathlib.Core.Path.{subst}
use mathlib.Core.List.{append_assoc, append-nil}
use rtl_tcp_andro.Base.Words.{IsBytes}
use rtl_tcp_andro.ExtBuffer.{ExtBuffer, ushort, extbuffer_preparetohandle}
use rtl_tcp_andro.ExtBuffer.Invariant.{IsValid}
use rtl_tcp_andro.ExtBuffer.Calls.{still-IsValid}
use rtl_tcp_andro.WorkPool.{BufferPtr, WorkPool, store, recycle, pool_get_unlock}
use rtl_tcp_andro.WorkPool.Calls.{IsRunning, add-running, store_self}
use rtl_tcp_andro.WorkPool.Conservation.{count, count-append}
use rtl_tcp_andro.SdrTcp.Memcpy.{bytes_to_send, fill_buffer}
use rtl_tcp_andro.SdrTcp.Memcpy.Filled.{fill_buffer-stores}
use rtl_tcp_andro.SdrTcp.Flow.Order.{
  IsInOrder, IsFree, held_by, held, queued, bytes_in, or_nil, store-IsInOrder, store_other,
  queued-store,
}

queued-append :
    (m : BufferPtr → ExtBuffer) (q : List BufferPtr) (b : BufferPtr)
    → queued m (q ++ b ∷ []) ≡ queued m q ++ bytes_in m b
queued-append m [] b = append-nil (bytes_in m b)
queued-append m (a ∷ q) b =
    ap (λ bytes. bytes_in m a ++ bytes) (queued-append m q b)
    ∙ sym (append_assoc (bytes_in m a) (queued m q) (bytes_in m b))

count_last :
    (a b : BufferPtr) (q : List BufferPtr)
    → count a (q ++ b ∷ []) ≡ count a q + (if b == a then 1 else 0)
count_last a b q = omega (arith, count-append a q (b ∷ []))

-- A free buffer in the second queue is there once.
one_more :
    (a b : BufferPtr) (h : Option BufferPtr) (first second : List BufferPtr)
    → IsFree b h first second
    → count a first + count a second + held_by h a ≤ 1
    → count a first + count a (second ++ b ∷ []) + held_by h a ≤ 1
one_more a b h first second free o = elim (Bool-cases (b == a)) [
  | inr apart ↦ omega (arith, count_last a b second, if-false {A = ℕ} (b == a) 1 0 apart, o)
  | inl e ↦
      let same : b ≡ a = ground arith in
      let none_yet = subst (λ x. IsFree x h first second) same free in
      omega (arith, count_last a b second, if-true {A = ℕ} (b == a) 1 0 e, none_yet)
]

-- What is in the longer queue was there, or is the new one.
is_or_was :
    (p : WorkPool) (b a : BufferPtr) (h : Option BufferPtr) (first second : List BufferPtr)
    → IsValid (p.memory b) × ((p.memory b).type ≡ ushort)
    → 0 < count a first + count a (second ++ b ∷ []) + held_by h a
    → (0 < count a first + count a second + held_by h a
        → IsValid (p.memory a) × ((p.memory a).type ≡ ushort))
    → IsValid (p.memory a) × ((p.memory a).type ≡ ushort)
is_or_was p b a h first second new n old = elim (Bool-cases (b == a)) [
  | inr apart ↦ old (omega (arith, count_last a b second, if-false {A = ℕ} (b == a) 1 0 apart, n))
  | inl e ↦
      let same : b ≡ a = ground arith in
      subst (λ x. IsValid (p.memory x) × ((p.memory x).type ≡ ushort)) same new
]

-- Bytes behind all others.
append_last :
    (s u h q bs fed : List ℕ)
    → s ++ (u ++ (h ++ q)) ≡ fed
    → s ++ (u ++ (h ++ (q ++ bs))) ≡ fed ++ bs
append_last s u h q bs fed e =
    ap (λ x. s ++ (u ++ x)) (sym (append_assoc h q bs))
    ∙ ap (λ x. s ++ x) (sym (append_assoc u (h ++ q) bs))
    ∙ sym (append_assoc s (u ++ (h ++ q)) bs)
    ∙ ap (λ x. x ++ bs) e

running :
    {h : Option BufferPtr} {sent unsent fed : List ℕ} {first second : List BufferPtr} (p : WorkPool)
    → IsInOrder p h sent unsent fed first second
    → IsRunning p
running p o = record { valid = o.valid; stages = ap length o.queues_are ∙ sym o.two }

module _ {h : Option BufferPtr} {sent unsent fed : List ℕ} {first second : List BufferPtr} where
  -- A free buffer behind the queue of those to be sent.
  queued_last :
      (p : WorkPool) (b : BufferPtr) (bytes : List ℕ)
      → IsFree b h first second
      → IsValid (p.memory b)
      → (p.memory b).type ≡ ushort
      → bytes_to_send (p.memory b) ≡ some bytes
      → IsInOrder p h sent unsent fed first second
      → IsInOrder
          (record p { queues = set p.queues 1 (second ++ b ∷ []) })
          h
          sent
          unsent
          (fed ++ bytes)
          first
          (second ++ b ∷ [])
  queued_last p b bytes free v t holds o = record {
    valid = o.valid;
    two = o.two;
    ushorts = o.ushorts;
    queues_are = ap (λ qs. set qs 1 (second ++ b ∷ [])) o.queues_are;
    once = λ a. one_more a b h first second free (o.once a);
    good = λ a n. is_or_was p b a h first second (v, t) n (o.good a);
    clear = o.clear;
    same =
        ap (λ x. sent ++ (unsent ++ (held p.memory h ++ x)))
          (queued-append p.memory second b ∙ ap (λ o. queued p.memory second ++ or_nil o) holds)
        ∙ append_last sent unsent (held p.memory h) (queued p.memory second) bytes fed o.same;
  }

  -- Filling a free buffer puts its bytes behind all others.
  pub fill_buffer-IsInOrder :
      (junk : ℕ → ℕ) (p : WorkPool) (b : BufferPtr) (bytes : List ℕ) (n : ℕ)
      → length bytes ≡ 2 * n
      → IsBytes bytes
      → 0 < n
      → 2 * n < 2 ^ 32
      → IsFree b h first second
      → IsValid (p.memory b)
      → (p.memory b).type ≡ ushort
      → IsInOrder p h sent unsent fed first second
      → (p' : WorkPool) × (fill_buffer junk p b n bytes ≡ some p')
        × IsInOrder p' h sent unsent (fed ++ bytes) first (second ++ b ∷ [])
  fill_buffer-IsInOrder junk p b bytes n len are pos small free v t o =
      let (q, filled, at_one, done, holds, fv, ft) =
        fill_buffer-stores bytes n len are pos small junk p b (running p o) o.two v t in
      let stored : WorkPool = record p { memory = store p.memory b filled } in
      let self = store_self p.memory b filled in
      let same_q : q ≡ second = cc (at_one, ap (λ qs. get_elem? qs 1) o.queues_are) in
      (
        record stored { queues = set p.queues 1 (second ++ b ∷ []) },
        done ∙ ap (λ q. some (record stored { queues = set p.queues 1 (q ++ b ∷ []) })) same_q,
        queued_last stored b bytes free (subst IsValid (sym self) fv)
            (ap (λ (x : ExtBuffer). x.type) self ∙ ft) (ap bytes_to_send self ∙ holds)
            (store-IsInOrder p b filled free o),
      )

-- The bytes of the buffer in hand, now sent or left over.
moved :
    (s u bs q s' u' fed : List ℕ)
    → s ++ (u ++ (bs ++ q)) ≡ fed
    → u ≡ []
    → s' ++ u' ≡ s ++ bs
    → s' ++ (u' ++ q) ≡ fed
moved s u bs q s' u' fed same clear e =
    sym (append_assoc s' u' q)
    ∙ ap (λ x. x ++ q) e
    ∙ append_assoc s bs q
    ∙ ap (λ x. s ++ (x ++ (bs ++ q))) (sym clear)
    ∙ same

-- The count of the buffer in hand, behind the first queue.
back_once :
    (a b : BufferPtr) (first second : List BufferPtr)
    → count a (first ++ b ∷ []) + count a second + 0
      ≡ count a first + count a second + held_by (some b) a
back_once a b first second = omega (arith, count_last a b first)

-- A buffer that is given back, emptied, behind the first queue.
given_back :
    {sent unsent fed : List ℕ} {first second : List BufferPtr} (p : WorkPool) (b : BufferPtr)
    (x : ExtBuffer) (sent' unsent' : List ℕ)
    → IsValid x
    → x.type ≡ ushort
    → sent' ++ unsent' ≡ sent ++ bytes_in p.memory b
    → IsInOrder p (some b) sent unsent fed first second
    → IsInOrder
        (record p { memory = store p.memory b x; queues = set p.queues 0 (first ++ b ∷ []) })
        none
        sent'
        unsent'
        fed
        (first ++ b ∷ [])
        second
given_back {sent} {unsent} {fed} {first} {second} p b x sent' unsent' v t e o = record {
  valid = o.valid;
  two = o.two;
  ushorts = o.ushorts;
  queues_are = ap (λ qs. set qs 0 (first ++ b ∷ [])) o.queues_are;
  once = λ a. omega (arith, back_once a b first second, o.once a);
  good = λ a n. elim (Bool-cases (b == a)) [
    | inl e ↦
        subst (λ y. IsValid y × (y.type ≡ ushort)) (sym (if-true (b == a) x (p.memory a) e)) (v, t)
    | inr e ↦
        subst (λ y. IsValid y × (y.type ≡ ushort)) (sym (store_other p.memory b a x e))
          (o.good a (omega (arith, back_once a b first second, n)))
  ];
  clear = tt;
  same =
      ap (λ q. sent' ++ (unsent' ++ q))
        (queued-store p.memory b x second (ground (arith, o.once b)))
      ∙ moved sent unsent (bytes_in p.memory b) (queued p.memory second) sent' unsent' fed o.same
          o.clear e;
}

-- Giving the buffer in hand back, after its bytes were sent or left over, keeps the order.
pub unlock-IsInOrder :
    {sent unsent fed : List ℕ} {first second : List BufferPtr} (junk : ℕ → ℕ) (p : WorkPool)
    (b : BufferPtr) (sent' unsent' : List ℕ)
    → sent' ++ unsent' ≡ sent ++ bytes_in p.memory b
    → IsInOrder p (some b) sent unsent fed first second
    → (p' : WorkPool) × (pool_get_unlock junk p 1 b ≡ some p')
      × IsInOrder p' none sent' unsent' fed (first ++ b ∷ []) second
unfolding pool_get_unlock recycle extbuffer_preparetohandle
unlock-IsInOrder {first = first} junk p b sent' unsent' e o =
    let x : ExtBuffer = record (p.memory b) { size_valid_elements = 0 } in
    let m : WorkPool = record p { memory = store p.memory b x } in
    let (v, t) = o.good b (ground arith) in
    let (q, at_zero, added) =
      add-running m 0 b (record { valid = o.valid; stages = ap length o.queues_are ∙ sym o.two })
        (omega (arith, o.two)) in
    let same_q : q ≡ first = cc (at_zero, ap (λ qs. get_elem? qs 0) o.queues_are) in
    let last : (1 + 1 == p.max_ids) ≡ true = ground (arith, o.two) in
    (
      record m { queues = set p.queues 0 (first ++ b ∷ []) },
      if-true p.valid _ _ o.valid
          ∙ if-true (1 + 1 == p.max_ids) _ _ last
          ∙ added
          ∙ ap (λ q. some (record m { queues = set p.queues 0 (q ++ b ∷ []) })) same_q,
      given_back p b x sent' unsent' (still-IsValid (p.memory b) v) t e o,
    )
