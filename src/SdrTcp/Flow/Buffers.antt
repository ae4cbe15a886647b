-- ===== src/SdrTcp/Flow/Buffers.antt =====
-- The requests to the pool of rtlsdr/src/main/cpp/src/workpool.c that the threads around it make, and
-- the order of the bytes behind each.
use rtl_tcp_andro.Base.{
  ℕ, ◌+◌, ◌≡◌, refl, true, ◌&&◌, Option, none, some, List, [], ◌∷◌, ◌==◌, ltb, if◌then◌else◌,
  get_elem?, set, if-true, if-false, Bool-cases, inl, inr, arith, ap, sym, ◌∙◌,
}
use mathlib.Core.Path.{subst}
use rtl_tcp_andro.ExtBuffer.{ExtBuffer, ushort, extbuffer_init}
use rtl_tcp_andro.ExtBuffer.Invariant.{IsValid}
use rtl_tcp_andro.ExtBuffer.Calls.{extbuffer_init-IsValid}
use rtl_tcp_andro.WorkPool.{
  BufferPtr, WorkPool, store, pop_from, pop_queue, pop_again, pop, found_or_make, make_or_wait,
  pool_get_wait_lock,
}
use rtl_tcp_andro.WorkPool.Calls.{store_self}
use rtl_tcp_andro.SdrTcp.Flow.Order.{IsInOrder, IsFree, store-IsInOrder}

module _ (fresh : BufferPtr) (p : WorkPool) (id : ℕ) where
  -- The oldest buffer of a queue is found.
  pub request-nonempty :
      (b : BufferPtr) (rest : List BufferPtr)
      → p.valid ≡ true
      → get_elem? p.queues id ≡ some (b ∷ rest)
      → pool_get_wait_lock fresh (λ p. p) p id true
        ≡ some (some b, record p { queues = set p.queues id rest })
  unfolding pool_get_wait_lock pop pop_queue found_or_make pop_from
  request-nonempty b rest v e =
      if-true p.valid _ _ v
      ∙ ap (found_or_make fresh (λ p. p) id true) (if-true p.valid _ _ v ∙ ap (pop_from p id) e)

  -- An empty queue gives a new buffer if it is the first one and there may be more of them.
  request-empty :
      p.valid ≡ true
      → get_elem? p.queues id ≡ some []
      → pool_get_wait_lock fresh (λ p. p) p id true ≡ (
          if id == 0 && ltb p.elements p.max_elements
          then some (
            some fresh,
            record p {
              elements = p.elements + 1;
              memory = store p.memory fresh (extbuffer_init p.extbuffer_type);
            },
          )
          else some (none, p))
  unfolding pool_get_wait_lock pop pop_queue pop_again found_or_make make_or_wait pop_from
  request-empty v e =
      let made : Option (Option BufferPtr × WorkPool) = some (
        some fresh,
        record p {
          elements = p.elements + 1;
          memory = store p.memory fresh (extbuffer_init p.extbuffer_type);
        },
      ) in
      if-true p.valid _ _ v
      ∙ ap (found_or_make fresh (λ p. p) id true) (if-true p.valid _ _ v ∙ ap (pop_from p id) e)
      ∙ ap
          (λ (r : Option (Option BufferPtr × WorkPool)).
            if id == 0 && ltb p.elements p.max_elements then made else r)
          (if-true p.valid _ _ v
            ∙ ap (λ o. pop_again (λ p. p) id (pop_from p id o)) e
            ∙ ap (pop_from p id) e)

-- A buffer that the pool gave to be filled.
abbrev pub IsReady :
    Option BufferPtr → WorkPool → Option BufferPtr → (first second : List BufferPtr) → Type 0
IsReady none p h first second = Unit {0}
IsReady (some b) p h first second =
    IsFree b h first second × IsValid (p.memory b) × ((p.memory b).type ≡ ushort)

module _ {h : Option BufferPtr} {sent unsent fed : List ℕ} {second : List BufferPtr} where
  -- The count of buffers is no matter.
  counted :
      {first : List BufferPtr} (p : WorkPool) (n : ℕ)
      → IsInOrder p h sent unsent fed first second
      → IsInOrder (record p { elements = n }) h sent unsent fed first second
  counted p n o = record {
    valid = o.valid;
    two = o.two;
    ushorts = o.ushorts;
    queues_are = o.queues_are;
    once = o.once;
    good = o.good;
    clear = o.clear;
    same = o.same;
  }

  popped-IsFree :
      (p : WorkPool) (b : BufferPtr) (rest : List BufferPtr)
      → IsInOrder p h sent unsent fed (b ∷ rest) second
      → IsFree b h rest second × IsValid (p.memory b) × ((p.memory b).type ≡ ushort)
  popped-IsFree p b rest o =
      let (v, t) = o.good b (ground arith) in (ground (arith, o.once b), v, t)

  popped-IsInOrder :
      (p : WorkPool) (b : BufferPtr) (rest : List BufferPtr)
      → IsInOrder p h sent unsent fed (b ∷ rest) second
      → IsInOrder (record p { queues = set p.queues 0 rest }) h sent unsent fed rest second
  popped-IsInOrder p b rest o = record {
    valid = o.valid;
    two = o.two;
    ushorts = o.ushorts;
    queues_are = ap (λ qs. set qs 0 rest) o.queues_are;
    once = λ a. ground (arith, o.once a);
    good = λ a n. o.good a (ground (arith, n));
    clear = o.clear;
    same = o.same;
  }

  new-IsInOrder :
      (fresh : BufferPtr) (p : WorkPool)
      → IsFree fresh h [] second
      → IsInOrder p h sent unsent fed [] second
      → let p' : WorkPool = record p {
        elements = p.elements + 1;
        memory = store p.memory fresh (extbuffer_init p.extbuffer_type);
      } in
        IsInOrder p' h sent unsent fed [] second × IsReady (some fresh) p' h [] second
  unfolding extbuffer_init
  new-IsInOrder fresh p free o =
      let x = extbuffer_init p.extbuffer_type in
      let at_fresh = store_self p.memory fresh x in
      (
        counted _ (p.elements + 1) (store-IsInOrder p fresh x free o),
        (
          free,
          subst IsValid (sym at_fresh)
              (extbuffer_init-IsValid p.extbuffer_type (λ e. cc (e, o.ushorts))),
          ap (λ (b : ExtBuffer). b.type) at_fresh ∙ o.ushorts,
        ),
      )

  -- The request of `sdrtcp_feed`: it gives a free buffer, or none, and keeps the order.
  pub feeder-request :
      (fresh : BufferPtr) (p : WorkPool) (first : List BufferPtr)
      → IsFree fresh h first second
      → IsInOrder p h sent unsent fed first second
      → (found : Option BufferPtr) × (p' : WorkPool) × (first' : List BufferPtr)
        × (pool_get_wait_lock fresh (λ p. p) p 0 true ≡ some (found, p'))
        × IsInOrder p' h sent unsent fed first' second
        × IsReady found p' h first' second
  feeder-request fresh p (b ∷ rest) free o = (
    some b,
    record p { queues = set p.queues 0 rest },
    rest,
    request-nonempty fresh p 0 b rest o.valid (ap (λ qs. get_elem? qs 0) o.queues_are),
    popped-IsInOrder p b rest o,
    popped-IsFree p b rest o,
  )
  feeder-request fresh p [] free o =
      let answer = request-empty fresh p 0 o.valid (ap (λ qs. get_elem? qs 0) o.queues_are) in
      let (ordered, ready) = new-IsInOrder fresh p free o in
      elim (Bool-cases (0 == 0 && ltb p.elements p.max_elements)) [
        | inl room ↦ (some fresh, _, [], answer ∙ if-true _ _ _ room, ordered, ready)
        | inr full ↦ (none, p, [], answer ∙ if-false _ _ _ full, o, tt)
      ]

pub taken-IsInOrder :
    {sent fed : List ℕ} (p : WorkPool) (b : BufferPtr) (first rest : List BufferPtr)
    → IsInOrder p none sent [] fed first (b ∷ rest)
    → IsInOrder (record p { queues = set p.queues 1 rest }) (some b) sent [] fed first rest
taken-IsInOrder p b first rest o = record {
  valid = o.valid;
  two = o.two;
  ushorts = o.ushorts;
  queues_are = ap (λ qs. set qs 1 rest) o.queues_are;
  once = λ a. ground (arith, o.once a);
  good = λ a n. o.good a (ground (arith, n));
  clear = refl;
  same = o.same;
}

-- The request of `serveClient`: it takes the next buffer, which is then held.
pub sender-request :
    {sent fed : List ℕ} (p : WorkPool) (first second : List BufferPtr)
    → IsInOrder p none sent [] fed first second
    → (found : Option BufferPtr) × (p' : WorkPool) × (second' : List BufferPtr)
      × (pool_get_wait_lock 0 (λ p. p) p 1 true ≡ some (found, p'))
      × IsInOrder p' found sent [] fed first second'
sender-request p first [] o =
    (none, p, [], request-empty 0 p 1 o.valid (ap (λ qs. get_elem? qs 1) o.queues_are), o)
sender-request p first (b ∷ rest) o = (
  some b,
  record p { queues = set p.queues 1 rest },
  rest,
  request-nonempty 0 p 1 b rest o.valid (ap (λ qs. get_elem? qs 1) o.queues_are),
  taken-IsInOrder p b first rest o,
)
