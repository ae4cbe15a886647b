-- ===== src/Queue/Heap.antt =====
-- The memory of rtlsdr/src/main/cpp/src/queue.c: queue elements at addresses, and the commands over
-- it. A command that dereferences NULL or an address that holds no element faults (`none`).
use mathlib.Core.Option
use rtl_tcp_andro.Base.{ℕ, ◌≡◌, ◌≢◌, false, Option, none, some, arith, ◌==◌, if◌then◌else◌}

-- An address; NULL is 0.
abbrev pub Ptr : Type 0
Ptr = ℕ

abbrev pub null : Ptr
null = 0

-- struct queue_element. `payload` is an opaque pointer.
pub record QueueElement : Type 0 where
  pub next : Ptr
  pub prev : Ptr
  pub last : Ptr
  pub payload : Ptr

abbrev pub Heap : Type 0
Heap = Ptr → Option QueueElement

abbrev pub write : Heap → Ptr → Option QueueElement → Heap
write h p c q = if p == q then c else h q

abbrev pub Cmd : Type 0 → Type 0
Cmd A = Heap → Option (A × Heap)

abbrev pub pure : {A : Type 0} → A → Cmd A
pure a h = some (a, h)

infixl 5 ◌>>=◌ ◌>>◌
abbrev pub ◌>>=◌ : {A B : Type 0} → Cmd A → (A → Cmd B) → Cmd B
◌>>=◌ m f h = elim (m h) [ none ↦ none | some (a, h') ↦ f a h' ]

abbrev pub ◌>>◌ : {B : Type 0} → Cmd (Unit {0}) → Cmd B → Cmd B
m >> k = m >>= λ _. k

-- `*p`
unfoldable pub load : Ptr → Cmd QueueElement
load p h = if p == null then none else Option.map (λ e. (e, h)) (h p)

-- The writes to all fields of the element that `malloc` has returned.
unfoldable pub store : Ptr → QueueElement → Cmd (Unit {0})
store p e h = if p == null then none else some (tt, write h p (some e))

-- `p->next = q`, `p->prev = q`, `p->last = q`
unfoldable pub set_next : Ptr → Ptr → Cmd (Unit {0})
set_next p q = do e ← load p; store p (record e { next = q })

unfoldable pub set_prev : Ptr → Ptr → Cmd (Unit {0})
set_prev p q = do e ← load p; store p (record e { prev = q })

unfoldable pub set_last : Ptr → Ptr → Cmd (Unit {0})
set_last p q = do e ← load p; store p (record e { last = q })

-- `free(p)` of an element.
unfoldable pub free : Ptr → Cmd (Unit {0})
free p = do e ← load p; λ h. some (tt, write h p none)

-- The rules of the commands at an address that holds an element.
pub ne_null : (p : Ptr) → p ≢ null → (p == null) ≡ false
ne_null p n = ground arith

pub load-some :
    (p : Ptr) (h : Heap) {e : QueueElement} → p ≢ null → h p ≡ some e → load p h ≡ some (e, h)
unfolding load
load-some p h n i = rw (ne_null p n, i)

pub store-some :
    (p : Ptr) (e : QueueElement) (h : Heap) → p ≢ null → store p e h ≡ some (tt, write h p (some e))
unfolding store
store-some p e h n = rw (ne_null p n)

module _ (p q : Ptr) (h : Heap) {e : QueueElement} (n : p ≢ null) (i : h p ≡ some e) where
  pub set_next-some : set_next p q h ≡ some (tt, write h p (some (record e { next = q })))
  unfolding set_next
  set_next-some = rw (set_next, ◌>>=◌, load-some p h n i, store-some p _ h n)

  pub set_prev-some : set_prev p q h ≡ some (tt, write h p (some (record e { prev = q })))
  unfolding set_prev
  set_prev-some = rw (set_prev, ◌>>=◌, load-some p h n i, store-some p _ h n)

  pub set_last-some : set_last p q h ≡ some (tt, write h p (some (record e { last = q })))
  unfolding set_last
  set_last-some = rw (set_last, ◌>>=◌, load-some p h n i, store-some p _ h n)

pub free-some :
    (p : Ptr) (h : Heap) {e : QueueElement}
    → p ≢ null
    → h p ≡ some e
    → free p h ≡ some (tt, write h p none)
unfolding free
free-some p h n i = rw (free, ◌>>=◌, load-some p h n i)
