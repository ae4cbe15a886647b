-- ===== src/SdrTcp/Flow/Order.antt =====
-- The order that the threads around the pool of rtlsdr/src/main/cpp/src/workpool.c keep: what was sent,
-- what is on its way and what was fed are the same bytes.
use rtl_tcp_andro.Base.{
  ℕ, ◌+◌, ◌≤◌, ◌<◌, ◌≡◌, refl, true, false, Option, none, some, List, [], ◌∷◌, ◌++◌, ◌==◌,
  if◌then◌else◌, if-false, arith, sym, ap, ◌∙◌, Bool-cases, inl, inr,
}
use mathlib.Core.Path.{subst}
use rtl_tcp_andro.ExtBuffer.{ExtBuffer, ushort}
use rtl_tcp_andro.ExtBuffer.Invariant.{IsValid}
use rtl_tcp_andro.WorkPool.{BufferPtr, WorkPool, store}
use rtl_tcp_andro.WorkPool.Conservation.{count}
use rtl_tcp_andro.SdrTcp.Memcpy.{bytes_to_send}

abbrev pub held_by : Option BufferPtr → BufferPtr → ℕ
held_by none a = 0
held_by (some b) a = if b == a then 1 else 0

-- The bytes that a reader gets, none from a buffer that cannot be read.
abbrev pub or_nil : Option (List ℕ) → List ℕ
or_nil none = []
or_nil (some bytes) = bytes

abbrev pub bytes_in : (BufferPtr → ExtBuffer) → BufferPtr → List ℕ
bytes_in m b = or_nil (bytes_to_send (m b))

abbrev pub queued : (BufferPtr → ExtBuffer) → List BufferPtr → List ℕ
queued m [] = []
queued m (b ∷ q) = bytes_in m b ++ queued m q

abbrev pub held : (BufferPtr → ExtBuffer) → Option BufferPtr → List ℕ
held m none = []
held m (some b) = bytes_in m b

-- A buffer is only taken when the one before was sent.
abbrev pub IsClear : Option BufferPtr → List ℕ → Type 0
IsClear none unsent = Unit {0}
IsClear (some b) unsent = unsent ≡ []

-- The pool has two stages with these queues; each buffer stands in one of them or is held, once, and is
-- a valid one of 16-bit cells; and the bytes are all there, in order.
pub record IsInOrder (p : WorkPool) (h : Option BufferPtr) (sent unsent fed : List ℕ)
    (first second : List BufferPtr) : Type 0 where
  pub valid : p.valid ≡ true
  pub two : p.max_ids ≡ 2
  pub ushorts : p.extbuffer_type ≡ ushort
  pub queues_are : p.queues ≡ first ∷ second ∷ []
  pub once : (a : BufferPtr) → count a first + count a second + held_by h a ≤ 1
  pub good :
      (a : BufferPtr)
      → 0 < count a first + count a second + held_by h a
      → IsValid (p.memory a) × ((p.memory a).type ≡ ushort)
  pub clear : IsClear h unsent
  pub same : sent ++ (unsent ++ (held p.memory h ++ queued p.memory second)) ≡ fed

-- No queue and no thread has the buffer.
abbrev pub IsFree : BufferPtr → Option BufferPtr → (first second : List BufferPtr) → Type 0
IsFree b h first second = count b first + count b second + held_by h b ≡ 0

pub store_other :
    (m : BufferPtr → ExtBuffer) (b a : BufferPtr) (x : ExtBuffer)
    → (b == a) ≡ false
    → store m b x a ≡ m a
store_other m b a x e = if-false (b == a) x (m a) e

pub queued-store :
    (m : BufferPtr → ExtBuffer) (b : BufferPtr) (x : ExtBuffer) (q : List BufferPtr)
    → count b q ≡ 0
    → queued (store m b x) q ≡ queued m q
queued-store m b x [] h = refl
queued-store m b x (a ∷ q) h =
    let apart : (b == a) ≡ false = ground arith in
    (λ i.
      or_nil (bytes_to_send (store_other m b a x apart i)) ++ queued-store m b x q (ground arith) i)

held-store :
    (m : BufferPtr → ExtBuffer) (b : BufferPtr) (x : ExtBuffer) (h : Option BufferPtr)
    → held_by h b ≡ 0
    → held (store m b x) h ≡ held m h
held-store m b x none e = refl
held-store m b x (some a) e =
    let apart : (b == a) ≡ false = ground arith in
    ap (λ y. or_nil (bytes_to_send y)) (store_other m b a x apart)

present_apart :
    (b a : BufferPtr) (h : Option BufferPtr) (first second : List BufferPtr)
    → IsFree b h first second
    → 0 < count a first + count a second + held_by h a
    → (b == a) ≡ false
present_apart b a h first second free n = elim (Bool-cases (b == a)) [
  | inr apart ↦ apart
  | inl e ↦
      let eq : b ≡ a = ground arith in
      absurd (
        omega
          (arith, subst (λ x. 0 < count x first + count x second + held_by h x) (sym eq) n, free))
]

module _ {h : Option BufferPtr} {sent unsent fed : List ℕ} {first second : List BufferPtr} where
  -- Writing to a buffer that is free changes nothing.
  pub store-IsInOrder :
      (p : WorkPool) (b : BufferPtr) (x : ExtBuffer)
      → IsFree b h first second
      → IsInOrder p h sent unsent fed first second
      → IsInOrder (record p { memory = store p.memory b x }) h sent unsent fed first second
  store-IsInOrder p b x free o = record {
    valid = o.valid;
    two = o.two;
    ushorts = o.ushorts;
    queues_are = o.queues_are;
    once = o.once;
    clear = o.clear;
    good = λ a n.
        let unchanged = store_other p.memory b a x (present_apart b a h first second free n) in
        rw unchanged (o.good a n);
    same =
        (λ i.
          sent
          ++ (unsent
              ++ (held-store p.memory b x h (omega (arith, free)) i
                  ++ queued-store p.memory b x second (omega (arith, free)) i)))
        ∙ o.same;
  }
