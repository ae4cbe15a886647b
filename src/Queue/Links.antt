-- ===== src/Queue/Links.antt =====
-- Lemmas on the chains of elements of rtlsdr/src/main/cpp/src/queue.c: ends, members, appending.
use rtl_tcp_andro.Base.{
  ◌≡◌, refl, ◌≢◌, true, false, none, some, [], ◌∷◌, ◌++◌, arith, ◌==◌, if◌then◌else◌,
}
use rtl_tcp_andro.Queue.Heap.{Ptr, null, QueueElement, Heap}
use rtl_tcp_andro.Queue.Chain.{Cells, has, last_of, Holds, Links}

pub has-last_of : (a v : Ptr) (cs : Cells) → has (last_of a cs) ((a, v) ∷ cs) ≡ true
has-last_of a v [] = ground arith
has-last_of a v ((b, w) ∷ cs) = ground (arith, has-last_of b w cs)

pub has-append_fresh :
    (a n v : Ptr) (cs : Cells) → has a cs ≡ false → a ≢ n → has a (cs ++ (n, v) ∷ []) ≡ false
has-append_fresh a n v [] out ne = ground arith
has-append_fresh a n v ((b, w) ∷ cs) out ne = ground (arith, has-append_fresh a n v cs)

pub last_of-append : (a n v : Ptr) (cs : Cells) → last_of a (cs ++ (n, v) ∷ []) ≡ n
last_of-append a n v [] = refl
last_of-append a n v ((b, w) ∷ cs) = last_of-append b n v cs

pub ne-last_of :
    (a b v : Ptr) (cs : Cells) → has a ((b, v) ∷ cs) ≡ false → (a == last_of b cs) ≡ false
ne-last_of a b v [] out = ground arith
ne-last_of a b v ((c, w) ∷ cs) out = ne-last_of a c w cs (ground arith)

pub has_fresh_ne : (n a v : Ptr) (cs : Cells) → has n ((a, v) ∷ cs) ≡ false → a ≢ n
has_fresh_ne n a v cs out e = ground arith

pub has_head : (a v : Ptr) (cs : Cells) → has a ((a, v) ∷ cs) ≡ true
has_head a v cs = ground arith

-- An element at the end, behind the last one.
pub Links-append :
    (h g : Heap) (n w before a v : Ptr) (cs : Cells)
    → Links h before ((a, v) ∷ cs)
    → has n ((a, v) ∷ cs) ≡ false
    → ((x : Ptr) (e : QueueElement)
        → has x ((a, v) ∷ cs) ≡ true
        → h x ≡ some e
        → (l : Ptr) × (g x
            ≡ some (record e { last = l; next = if x == last_of a cs then n else e.next })))
    → Holds g n null (last_of a cs) w
    → Links g before ((a, v) ∷ cs ++ (n, w) ∷ [])
Links-append h g n w before a v [] ((q, e, ne), out, l) fresh change new =
    let c = change a _ (ground arith) e in
    ((c.0, ground (arith, c.1), ne), ground arith, (new, refl, tt))
Links-append h g n w before a v ((b, u) ∷ cs) ((q, e, ne), out, l) fresh change new =
    let c = change a _ (has_head a v ((b, u) ∷ cs)) e in
    (
      (c.0, rw (ne-last_of a b u cs out) at c.1, ne),
      has-append_fresh a n w ((b, u) ∷ cs) out (has_fresh_ne n a v ((b, u) ∷ cs) fresh),
      Links-append h g n w a b u cs l (ground arith) (λ x e i. change x e (ground arith)) new,
    )

pub Links-none :
    (h : Heap) (n before : Ptr) (cs : Cells) → Links h before cs → h n ≡ none → has n cs ≡ false
Links-none h n before [] l e = refl
Links-none h n before ((a, v) ∷ cs) ((q, i, ne), out, l) e = ground (arith, Links-none h n a cs l e)

-- The last element of a chain.
pub Links-last :
    (h : Heap) (before a v : Ptr) (cs : Cells)
    → Links h before ((a, v) ∷ cs)
    → (e : QueueElement) × (h (last_of a cs) ≡ some e) × (last_of a cs ≢ null)
Links-last h before a v [] ((q, e, ne), out, l) = (_, e, ne)
Links-last h before a v ((b, u) ∷ cs) ((q, e, ne), out, l) = Links-last h a b u cs l
