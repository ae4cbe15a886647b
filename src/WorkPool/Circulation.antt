-- ===== src/WorkPool/Circulation.antt =====
-- Every history of the threads around the pool of rtlsdr/src/main/cpp/src/workpool.c keeps the buffers
-- together, where one thread at a time requests at the first stage; a call by a stage of the pipeline does not fault, and a hand-over goes to the next stage.
use mathlib.Core.Path.{subst}
use rtl_tcp_andro.Base.{
  ℕ, ◌+◌, ◌≡◌, refl, ◌⊎◌, inl, inr, false, Option, none, some, List, [], ◌∷◌, ◌++◌, ◌==◌, arith,
  get_elem?, Bool-cases, if-true, if-false, sym, ap, ◌∙◌,
}
use rtl_tcp_andro.Base.Int.{pos}
use rtl_tcp_andro.ExtBuffer.{ExtBuffer, extbuffer_preparetohandle}
use rtl_tcp_andro.WorkPool.{
  BufferPtr, WorkPool, store, pop_from, pop_queue, pop, recycle, found_or_make, make_or_wait,
  pool_get_wait_lock, pool_get_unlock,
}
use rtl_tcp_andro.WorkPool.Conservation.{
  Held, Pipeline, IsUnused, Step, take, wake, give, Reach, here, next, IsConserved,
  pop_queue-IsConserved, add-IsConserved,
}

pop_from-none :
    (p p' : WorkPool) (id : ℕ) (o : Option (List BufferPtr))
    → pop_from p id o ≡ some (none, p')
    → p' ≡ p
unfolding pop_from
pop_from-none p p' id none e = cc
pop_from-none p p' id (some []) e = ground arith
pop_from-none p p' id (some (c ∷ rest)) e = cc

-- A call that does not wait found its buffer in the queue, or has made it.
found_or_make-some :
    (fresh : BufferPtr) (others : WorkPool → WorkPool) (p p' : WorkPool) (id : ℕ) (b : BufferPtr)
    (o : Option (Option BufferPtr × WorkPool))
    → ((q : WorkPool) → o ≡ some (none, q) → q ≡ p)
    → found_or_make fresh others id false o ≡ some (some b, p')
    → (o ≡ some (some b, p')) ⊎ (make_or_wait fresh others p id false ≡ some (some b, p'))
unfolding found_or_make
found_or_make-some fresh others p p' id b none same e = cc
found_or_make-some fresh others p p' id b (some (none, q)) same e = inr (rw (same q refl) at e)
found_or_make-some fresh others p p' id b (some (some c, q)) same e = inl e

make-IsConserved :
    (fresh : BufferPtr) (others : WorkPool → WorkPool) (p p' : WorkPool) (hs : Held) (id : ℕ)
    (b : BufferPtr)
    → IsConserved (record { pool = p; held = hs })
    → IsUnused fresh (record { pool = p; held = hs })
    → make_or_wait fresh others p id false ≡ some (some b, p')
    → IsConserved (record { pool = p'; held = (id, b) ∷ hs })
unfolding make_or_wait
make-IsConserved fresh others p p' hs id b c unused e = record {
  valid = ground (arith, c.valid);
  stages = ground (arith, c.stages);
  once = λ a. ground (arith, c.once a);
  all_there = ground (arith, c.all_there);
  bounded = ground (arith, c.bounded);
}

take-IsConserved :
    (fresh : BufferPtr) (others : WorkPool → WorkPool) (p p' : WorkPool) (hs : Held) (id : ℕ)
    (b : BufferPtr)
    → IsConserved (record { pool = p; held = hs })
    → IsUnused fresh (record { pool = p; held = hs })
    → pool_get_wait_lock fresh others p id false ≡ some (some b, p')
    → IsConserved (record { pool = p'; held = (id, b) ∷ hs })
unfolding pool_get_wait_lock pop
take-IsConserved fresh others p p' hs id b c unused e =
    let popped = if-true p.valid (pop_queue p id) (some (none, p)) c.valid in
    let e' : found_or_make fresh others id false (pop_queue p id) ≡ some (some b, p') =
      sym ((if-true p.valid _ _ c.valid) ∙ ap (found_or_make fresh others id false) popped) ∙ e in
    elim (found_or_make-some fresh others p p' id b (pop_queue p id)
      (λ q. pop_from-none p q id (get_elem? p.queues id)) e') [
        | inl found ↦ pop_queue-IsConserved p p' hs id b c found
        | inr made ↦ make-IsConserved fresh others p p' hs id b c unused made
      ]

recycle-IsConserved :
    (p p' : WorkPool) (before after : Held) (stage : ℕ) (b : BufferPtr) (o : Option ExtBuffer)
    → IsConserved (record { pool = p; held = before ++ (stage, b) ∷ after })
    → recycle p b o ≡ some p'
    → IsConserved (record { pool = p'; held = before ++ after })
unfolding recycle
recycle-IsConserved p p' before after stage b none c e = cc
recycle-IsConserved p p' before after stage b (some x) c e =
    add-IsConserved (record p { memory = store p.memory b x }) p' before after 0 stage b
      (record {
        valid = c.valid;
        stages = c.stages;
        once = c.once;
        all_there = c.all_there;
        bounded = c.bounded;
      })
      e

give-IsConserved :
    (junk : ℕ → ℕ) (p p' : WorkPool) (before after : Held) (id : ℕ) (b : BufferPtr)
    → IsConserved (record { pool = p; held = before ++ (id, b) ∷ after })
    → pool_get_unlock junk p id b ≡ some p'
    → IsConserved (record { pool = p'; held = before ++ after })
unfolding pool_get_unlock
give-IsConserved junk p p' before after id b c e =
    let e' = sym (if-true p.valid _ _ c.valid) ∙ e in
    elim (Bool-cases (id + 1 == p.max_ids)) [
      | inl last ↦
          recycle-IsConserved p p' before after id b
            (extbuffer_preparetohandle junk (p.memory b) (pos 0)) c (sym (if-true _ _ _ last) ∙ e')
      | inr more ↦
          add-IsConserved p p' before after (id + 1) id b c (sym (if-false _ _ _ more) ∙ e')
    ]

-- Taking a buffer, waking up with one and handing one on keep the buffers together.
pub Step-IsConserved :
    (junk : ℕ → ℕ) {s t : Pipeline} → Step junk s t → IsConserved s → IsConserved t
Step-IsConserved junk {s} (take fresh others id b pool unused e) c =
    take-IsConserved fresh others s.pool pool s.held id b c unused e
Step-IsConserved junk {s} (wake id b pool e) c = pop_queue-IsConserved s.pool pool s.held id b c e
Step-IsConserved junk {s} (give before after id b pool held e) c =
    give-IsConserved junk s.pool pool before after id b
      (subst (λ (h : Held). IsConserved (record { pool = s.pool; held = h })) held c) e

-- If one thread at a time requests at the first stage, so that the test of `elements` and its increment are
-- one step (sdrtcp.c makes these requests under `state_locker`): in every history of takes, wake-ups and
-- hand-overs, in any interleaving of the threads, each buffer that was made is in one queue or held by one
-- thread, and at most `max_elements` are made.
pub Reach-IsConserved :
    (junk : ℕ → ℕ) {s t : Pipeline} → Reach junk s t → IsConserved s → IsConserved t
Reach-IsConserved junk here c = c
Reach-IsConserved junk (next r st) c = Step-IsConserved junk st (Reach-IsConserved junk r c)
