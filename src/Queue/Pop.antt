-- ===== src/Queue/Pop.antt =====
-- `queue_pop` of rtlsdr/src/main/cpp/src/queue.c against the list that the queue stands for.
use rtl_tcp_andro.Base.{
  ◌≡◌, refl, ◌≢◌, true, false, Option, none, some, [], ◌∷◌, arith, ◌==◌, if◌then◌else◌,
}
use rtl_tcp_andro.Queue.Heap.{
  Ptr, null, QueueElement, Heap, write, ◌>>=◌, ne_null, load-some, set_prev-some, set_last-some,
  free-some,
}
use rtl_tcp_andro.Queue.Chain.{
  Cells, has, first, last_of, Links, IsQueue, SameOutside, Links-frame, Returns,
}
use rtl_tcp_andro.Queue.{relink, queue_pop}

-- The head `b` takes over from `a`: the writes, seen at their addresses and elsewhere.
module _ (h : Heap) (a b : Ptr) (c d : Option QueueElement) where
  popped_head : b ≢ a → write (write (write h b c) b d) a none b ≡ d
  popped_head n = ground arith

  popped_outside :
      (x : Ptr)
      → (x == b) ≡ false
      → (x == a) ≡ false
      → write (write (write h b c) b d) a none x ≡ h x
  popped_outside x xb xa = ground arith

queue_pop-one :
    (h : Heap) (a v l : Ptr)
    → h a ≡ some (record { next = null; prev = null; last = l; payload = v })
    → a ≢ null
    → queue_pop a h ≡ some ((v, null), write h a none)
unfolding queue_pop relink
queue_pop-one h a v l ha pa =
    rw (ne_null a pa, if◌then◌else◌, ◌>>=◌, load-some a h pa ha, free-some a h pa ha)

queue_pop_long :
    (h : Heap) (a v b p l : Ptr) (eb : QueueElement)
    → h a ≡ some (record { next = b; prev = p; last = l; payload = v })
    → h b ≡ some eb
    → a ≢ null
    → b ≢ null
    → b ≢ a
    → queue_pop a h
      ≡ some (
        (v, b),
        write
            (write
              (write h b (some (record eb { prev = null })))
              b
              (some (record eb { prev = null; last = l })))
            a
            none,
      )
unfolding queue_pop relink
queue_pop_long h a v b p l eb ha hb pa pb ab =
    let g : Heap = write h b (some (record eb { prev = null })) in
    let g' : Heap = write g b (some (record eb { prev = null; last = l })) in
    let gb : g b ≡ some (record eb { prev = null }) = ground arith in
    let ga : g' a ≡ some (record { next = b; prev = p; last = l; payload = v }) = ground arith in
    rw (
      ne_null a pa,
      if◌then◌else◌,
      ◌>>=◌,
      load-some a h pa ha,
      ne_null b pb,
      if◌then◌else◌,
      ◌>>=◌,
      set_prev-some b null h pb hb,
      set_last-some b l g pb gb,
      free-some a g' pa ga,
    )

-- On the empty queue `queue_pop` returns NULL and changes nothing.
pub queue_pop-nil :
    (h : Heap) (head : Ptr) → IsQueue h head [] → queue_pop head h ≡ some ((null, null), h)
unfolding queue_pop
queue_pop-nil h head e = rw e

ne_head : (b a u : Ptr) (cs : Cells) → has a ((b, u) ∷ cs) ≡ false → b ≢ a
ne_head b a u cs o e = ground arith

ne_of_members : (x b : Ptr) (cs : Cells) → has x cs ≡ true → has b cs ≡ false → (x == b) ≡ false
ne_of_members x b cs i o = ground arith

not_in_tail : (a b u : Ptr) (cs : Cells) → has a ((b, u) ∷ cs) ≡ false → has a cs ≡ false
not_in_tail a b u cs o = ground arith

not_first : (x a v : Ptr) (cs : Cells) → has x ((a, v) ∷ cs) ≡ false → (x == a) ≡ false
not_first x a v cs o = ground arith

not_in_second :
    (x a v b u : Ptr) (cs : Cells) → has x ((a, v) ∷ (b, u) ∷ cs) ≡ false → (x == b) ≡ false
not_in_second x a v b u cs o = ground arith

queue_pop-more :
    (h : Heap) (a v b u : Ptr) (cs : Cells)
    → h a ≡ some (record { next = b; prev = null; last = last_of b cs; payload = v })
    → Links h null ((a, v) ∷ (b, u) ∷ cs)
    → Returns
        (λ (result, head') g.
          (result ≡ v)
          × IsQueue g head' ((b, u) ∷ cs)
          × (g a ≡ none)
          × SameOutside ((a, v) ∷ (b, u) ∷ cs) h g)
        (queue_pop a h)
queue_pop-more h a v b u cs ha ((q, e, pa), out, ((l', e', pb), out', l)) =
    let ba : b ≢ a = ne_head b a u cs out in
    let old : Option QueueElement =
      some (record { next = first cs; prev = null; last = l'; payload = u }) in
    let new : Option QueueElement =
      some (record { next = first cs; prev = null; last = last_of b cs; payload = u }) in
    rw (queue_pop_long h a v b null (last_of b cs) _ ha e' pa pb ba) (
      refl,
      (
        refl,
        popped_head h a b old new ba,
        (
          (last_of b cs, popped_head h a b old new ba, pb),
          out',
          Links-frame h _ b cs l λ x i.
              popped_outside h a b old new x (ne_of_members x b cs i out')
                (ne_of_members x a cs i (not_in_tail a b u cs out)),
        ),
      ),
      ground arith,
      λ x o.
          popped_outside h a b old new x (not_in_second x a v b u cs o)
            (not_first x a v ((b, u) ∷ cs) o),
    )

-- On the queue of an element with payload `v` followed by `cs`, `queue_pop` does not fault, returns
-- `v` and leaves the queue of `cs`; the element is freed and no address outside the queue changes.
pub queue_pop-cons :
    (h : Heap) (head a v : Ptr) (cs : Cells)
    → IsQueue h head ((a, v) ∷ cs)
    → Returns
        (λ (result, head') g.
          (result ≡ v) × IsQueue g head' cs × (g a ≡ none) × SameOutside ((a, v) ∷ cs) h g)
        (queue_pop head h)
queue_pop-cons h head a v [] (e, ha, l) =
    rw (e, queue_pop-one h a v a ha l.0.2) (refl, refl, ground arith, λ x o. ground arith)
queue_pop-cons h head a v ((b, u) ∷ cs) (e, ha, l) = rw e (queue_pop-more h a v b u cs ha l)
