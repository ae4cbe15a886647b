-- ===== src/Queue/Add.antt =====
-- `queue_add` of rtlsdr/src/main/cpp/src/queue.c against the list that the queue stands for.
use rtl_tcp_andro.Base.{
  ◌≡◌, refl, ◌≢◌, true, false, Option, none, some, [], ◌∷◌, ◌++◌, arith, ◌==◌, if◌then◌else◌,
}
use rtl_tcp_andro.Queue.Heap.{
  Ptr, null, QueueElement, Heap, write, ◌>>=◌, ◌>>◌, ne_null, load-some, store-some, set_next-some,
  set_last-some,
}
use rtl_tcp_andro.Queue.Chain.{Cells, has, last_of, Links, IsQueue, SameOutside, Returns}
use rtl_tcp_andro.Queue.Links.{
  has-last_of, last_of-append, ne-last_of, has_head, Links-append, Links-none, Links-last,
}
use rtl_tcp_andro.Queue.{queue_add}

abbrev linked : Heap → (n t v : Ptr) → Heap
linked h n t v = write h n (some (record { next = null; prev = t; last = null; payload = v }))

-- The writes of `queue_add` where the last element is not the head.
queue_add_long :
    (h : Heap) (a n v : Ptr) (ea et : QueueElement)
    → a ≢ null
    → n ≢ null
    → ea.last ≢ null
    → a ≢ n
    → ea.last ≢ n
    → a ≢ ea.last
    → h a ≡ some ea
    → h ea.last ≡ some et
    → queue_add n a v h
      ≡ some (
        a,
        write
            (write (linked h n ea.last v) ea.last (some (record et { next = n })))
            a
            (some (record ea { last = n })),
      )
unfolding queue_add
queue_add_long h a n v ea et pa pn pt an tn at ha ht =
    let g : Heap = linked h n ea.last v in
    let g' : Heap = write g ea.last (some (record et { next = n })) in
    let ha' : g a ≡ some ea = ground arith in
    let ht' : g ea.last ≡ some et = ground arith in
    let ha'' : g' a ≡ some ea = ground arith in
    rw (
      ne_null a pa,
      if◌then◌else◌,
      ◌>>=◌,
      load-some a h pa ha,
      store-some n _ h pn,
      load-some a g pa ha',
      set_next-some ea.last n g pt ht',
      set_last-some a n g' pa ha'',
    )

queue_add_short :
    (h : Heap) (a n v q p w : Ptr)
    → a ≢ null
    → n ≢ null
    → a ≢ n
    → h a ≡ some (record { next = q; prev = p; last = a; payload = w })
    → queue_add n a v h
      ≡ some (
        a,
        write
            (write (linked h n a v) a (some (record { next = n; prev = p; last = a; payload = w })))
            a
            (some (record { next = n; prev = p; last = n; payload = w })),
      )
unfolding queue_add
queue_add_short h a n v q p w pa pn an ha =
    let g : Heap = linked h n a v in
    let g' : Heap = write g a (some (record { next = n; prev = p; last = a; payload = w })) in
    let ha' : g a ≡ some (record { next = q; prev = p; last = a; payload = w }) = ground arith in
    let ha'' : g' a ≡ some (record { next = n; prev = p; last = a; payload = w }) = ground arith in
    rw (
      ne_null a pa,
      if◌then◌else◌,
      ◌>>=◌,
      load-some a h pa ha,
      store-some n _ h pn,
      load-some a g pa ha',
      set_next-some a n g pa ha',
      set_last-some a n g' pa ha'',
    )

ne_of_none : (h : Heap) (a n : Ptr) {e : QueueElement} → h a ≡ some e → h n ≡ none → a ≢ n
ne_of_none h a n i j e = ground arith

-- Three writes, seen at their addresses and elsewhere.
module _ (h : Heap) (n t a : Ptr) (c d e : Option QueueElement) where
  write_last : write (write (write h n c) t d) a e a ≡ e
  write_last = ground arith

  write_middle : a ≢ t → write (write (write h n c) t d) a e t ≡ d
  write_middle at = ground arith

  write_first : t ≢ n → a ≢ n → write (write (write h n c) t d) a e n ≡ c
  write_first tn an = ground arith

  write_outside :
      (x : Ptr)
      → (x == n) ≡ false
      → (x == t) ≡ false
      → (x == a) ≡ false
      → write (write (write h n c) t d) a e x ≡ h x
  write_outside x xn xt xa = ground arith

-- Appending to a queue of one element.
queue_add-one :
    (h : Heap) (a n v w : Ptr)
    → h a ≡ some (record { next = null; prev = null; last = a; payload = w })
    → a ≢ null
    → n ≢ null
    → h n ≡ none
    → Returns
        (λ head g. IsQueue g head ((a, w) ∷ (n, v) ∷ []) × SameOutside ((a, w) ∷ (n, v) ∷ []) h g)
        (queue_add n a v h)
queue_add-one h a n v w ha pa pn fresh =
    let an : a ≢ n = ne_of_none h a n ha fresh in
    rw (queue_add_short h a n v null null w pa pn an ha) (
      (
        refl,
        ground arith,
        ((n, ground arith, pa), ground arith, ((null, ground arith, pn), refl, tt)),
      ),
      λ x o. ground arith,
    )

has-append_end : (x n v : Ptr) (cs : Cells) → has x (cs ++ (n, v) ∷ []) ≡ false → (x == n) ≡ false
has-append_end x n v [] o = ground arith
has-append_end x n v ((b, u) ∷ cs) o = has-append_end x n v cs (ground arith)

has-append_start : (x n v : Ptr) (cs : Cells) → has x (cs ++ (n, v) ∷ []) ≡ false → has x cs ≡ false
has-append_start x n v [] o = refl
has-append_start x n v ((b, u) ∷ cs) o = ground (arith, has-append_start x n v cs)

ne_of_has : (x y : Ptr) (cs : Cells) → has x cs ≡ false → has y cs ≡ true → (x == y) ≡ false
ne_of_has x y cs o i = ground arith

ne_of_eqb : (a t : Ptr) → (a == t) ≡ false → a ≢ t
ne_of_eqb a t e p = ground arith

eqb_of_ne : (a t : Ptr) → a ≢ t → (a == t) ≡ false
eqb_of_ne a t n = ground arith

-- The writes change `next` of the last element and `last` of the head, and no other old element.
rewired :
    (h : Heap) (n t a : Ptr) (c : Option QueueElement) (ea et : QueueElement)
    → h a ≡ some ea
    → h t ≡ some et
    → a ≢ t
    → (x : Ptr) (e : QueueElement) → x ≢ n
    → h x ≡ some e
    → (l : Ptr) × (write
          (write (write h n c) t (some (record et { next = n })))
          a
          (some (record ea { last = n }))
          x
        ≡ some (record e { last = l; next = if x == t then n else e.next }))
rewired h n t a c ea et ha ht at x e xn hx = (if x == a then n else e.last, ground arith)

-- Appending to a longer queue.
queue_add-more :
    (h : Heap) (a n v w b u : Ptr) (cs : Cells) (et : QueueElement)
    → h a ≡ some (record { next = b; prev = null; last = last_of b cs; payload = w })
    → Links h null ((a, w) ∷ (b, u) ∷ cs)
    → h (last_of b cs) ≡ some et
    → last_of b cs ≢ null
    → n ≢ null
    → h n ≡ none
    → Returns
        (λ head g.
          IsQueue g head ((a, w) ∷ (b, u) ∷ cs ++ (n, v) ∷ [])
          × SameOutside ((a, w) ∷ (b, u) ∷ cs ++ (n, v) ∷ []) h g)
        (queue_add n a v h)
queue_add-more h a n v w b u cs et ha l ht pt pn fresh =
    let t : Ptr = last_of b cs in
    let an : a ≢ n = ne_of_none h a n ha fresh in
    let tn : t ≢ n = ne_of_none h t n ht fresh in
    let at : (a == t) ≡ false = ne-last_of a b u cs l.1 in
    let at' : a ≢ t = ne_of_eqb a t at in
    let out : has n ((a, w) ∷ (b, u) ∷ cs) ≡ false =
      Links-none h n null ((a, w) ∷ (b, u) ∷ cs) l fresh in
    let ea : QueueElement = record { next = b; prev = null; last = t; payload = w } in
    let ca : Option QueueElement = some (record ea { last = n }) in
    let ct : Option QueueElement = some (record et { next = n }) in
    let cn : Option QueueElement =
      some (record { next = null; prev = t; last = null; payload = v }) in
    let cells = (a, w) ∷ (b, u) ∷ cs in
    rw (queue_add_long h a n v _ et l.0.2 pn pt an tn at' ha ht) (
      (
        refl,
        rw (last_of-append b n v cs) (write_last h n t a cn ct ca),
        Links-append h _ n v null a w ((b, u) ∷ cs) l out
            (λ x e i hx. rewired h n t a cn ea et ha ht at' x e (ne_of_none h x n hx fresh) hx)
            (null, write_first h n t a cn ct ca tn an, pn),
      ),
      λ x o.
          write_outside h n t a cn ct ca x (has-append_end x n v cells o)
            (ne_of_has x t cells (has-append_start x n v cells o) (has-last_of a w ((b, u) ∷ cs)))
            (ne_of_has x a cells (has-append_start x n v cells o) (has_head a w ((b, u) ∷ cs))),
    )

-- On the queue of the elements `cs`, `queue_add` with an unused, non-NULL address from `malloc` does
-- not fault and gives the queue of `cs` followed by the new element; no other address changes.
pub queue_add-append :
    (h : Heap) (head n v : Ptr) (cs : Cells)
    → IsQueue h head cs
    → n ≢ null
    → h n ≡ none
    → Returns
        (λ head' g. IsQueue g head' (cs ++ (n, v) ∷ []) × SameOutside (cs ++ (n, v) ∷ []) h g)
        (queue_add n head v h)
unfolding queue_add
queue_add-append h head n v [] e pn fresh =
    rw (e, if◌then◌else◌, ◌>>◌, ◌>>=◌, store-some n _ h pn)
      ((refl, ground arith, ((n, ground arith, pn), refl, tt)), λ x o. ground arith)
queue_add-append h head n v ((a, w) ∷ []) (e, ha, l) pn fresh =
    rw e (queue_add-one h a n v w ha l.0.2 pn fresh)
queue_add-append h head n v ((a, w) ∷ (b, u) ∷ cs) (e, ha, l) pn fresh =
    let t = Links-last h null a w ((b, u) ∷ cs) l in
    rw e (queue_add-more h a n v w b u cs t.0 ha l t.1 t.2 pn fresh)
