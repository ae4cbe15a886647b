-- ===== src/SdrTcp/Sender/Bytes.antt =====
-- What serveClient of rtlsdr/src/main/cpp/src/sdrtcp.c sends of a buffer.
use rtl_tcp_andro.Base.{
  ◌⊎◌, ℕ, suc, ◌≤◌, ◌<◌, ◌≡◌, refl, Bool, true, ◌&&◌, not, ◌||◌, false, ltb, Bool-cases, inl, inr,
  List, [], ◌∷◌, ◌++◌, length, drop, take, arith, ap, sym, ◌∙◌, if-both, if-true, if-false,
  take-append-drop, length-drop, map,
}
use Prim.Native.Nat.{min}
use mathlib.Core.List.{append_assoc, append-nil}
use rtl_tcp_andro.SdrTcp.{client_serving, needs_stopping, is_stage, SdrTcp}
use rtl_tcp_andro.SdrTcp.Sender.{
  Select, error, timeout, ready, Send, failed, accepted, SendRound, Sender, send_part, select_part,
  send_round, is_empty, goes_on, send_loop,
}

-- What was sent, followed by what is left of the buffer, is unchanged, and what was sent stays sent.
record Keeps (s : Sender) (st : SdrTcp × Sender) : Type 0 where
  more : List ℕ
  grown : st.1.sent ≡ s.sent ++ more
  same : st.1.sent ++ st.1.left ≡ s.sent ++ s.left

unchanged : (s : Sender) (obj : SdrTcp) → Keeps s (obj, s)
unchanged s obj = record { more = []; grown = sym (append-nil s.sent); same = refl }

send_part-Keeps :
    (r : SendRound) (a : Send) (obj : SdrTcp) (s : Sender) → Keeps s (send_part r a obj s)
unfolding send_part
send_part-Keeps r failed obj s = record { more = []; grown = sym (append-nil s.sent); same = refl }
send_part-Keeps r (accepted most) obj s = record {
  more = take (min most (length s.left)) s.left;
  grown = refl;
  same =
      append_assoc s.sent (take (min most (length s.left)) s.left)
        (drop (min most (length s.left)) s.left)
      ∙ ap (λ (bs : List ℕ). s.sent ++ bs) (take-append-drop (min most (length s.left)) s.left);
}

select_part-Keeps :
    (r : SendRound) (a : Select) (obj : SdrTcp) (s : Sender) → Keeps s (select_part r a obj s)
unfolding select_part
select_part-Keeps r timeout obj s = record {
  more = [];
  grown = sym (append-nil s.sent);
  same = refl;
}
select_part-Keeps r error obj s =
    let after = r.at_send (record obj { state = needs_stopping }) in
    if-both (Keeps s) (is_stage after.state client_serving) (send_part-Keeps r r.send after s)
      (unchanged s after)
select_part-Keeps r ready obj s =
    let after = r.at_send obj in
    if-both (Keeps s) (is_stage after.state client_serving) (send_part-Keeps r r.send after s)
      (unchanged s after)

send_round-Keeps : (r : SendRound) (obj : SdrTcp) (s : Sender) → Keeps s (send_round r (obj, s))
unfolding send_round
send_round-Keeps r obj s =
    let before = r.at_select obj in
    if-both (Keeps s) (is_stage before.state client_serving) (select_part-Keeps r r.select before s)
      (unchanged s before)

after_round : {s : Sender} {st st' : SdrTcp × Sender} → Keeps s st → Keeps st.1 st' → Keeps s st'
after_round {s} k k' = record {
  more = k.more ++ k'.more;
  grown = k'.grown ∙ ap (λ bs. bs ++ k'.more) k.grown ∙ append_assoc s.sent k.more k'.more;
  same = k'.same ∙ k.same;
}

send_loop-Keeps :
    (rs : List SendRound) (obj : SdrTcp) (s : Sender) → Keeps s (send_loop rs (obj, s))
unfolding send_loop
send_loop-Keeps [] obj s =
    if-both (Keeps s) (goes_on (obj, s)) (unchanged s (record obj { state = needs_stopping }))
      (unchanged s obj)
send_loop-Keeps (r ∷ rs) obj s =
    let st = send_round r (obj, s) in
    if-both (Keeps s) (goes_on (obj, s))
      (after_round (send_round-Keeps r obj s) (send_loop-Keeps rs st.0 st.1)) (unchanged s obj)

-- The loop only ends where its test fails.
never : (s : Sender) → ((not (is_empty s.left) || ltb 0 s.skew) && false) ≡ false
never s = ground arith

nothing_left :
    (bytes : List ℕ) (skewed serving : Bool)
    → serving ≡ true
    → ((not (is_empty bytes) || skewed) && serving) ≡ false
    → bytes ≡ []
nothing_left [] skewed serving s e = refl
nothing_left (b ∷ bytes) skewed true s e = absurd cc
nothing_left (b ∷ bytes) skewed false s e = absurd cc

serving : (obj : SdrTcp) → obj.state ≡ client_serving → is_stage obj.state client_serving ≡ true
serving obj e = ground arith

ended : (rs : List SendRound) (st : SdrTcp × Sender) → goes_on (send_loop rs st) ≡ false
unfolding send_loop
ended [] st = elim (Bool-cases (goes_on st)) [
  | inl more ↦ ap goes_on (if-true (goes_on st) _ _ more) ∙ never st.1
  | inr over ↦ ap goes_on (if-false (goes_on st) _ _ over) ∙ over
]
ended (r ∷ rs) st = elim (Bool-cases (goes_on st)) [
  | inl more ↦ ap goes_on (if-true (goes_on st) _ _ more) ∙ ended rs (send_round r st)
  | inr over ↦ ap goes_on (if-false (goes_on st) _ _ over) ∙ over
]

all_sent :
    (obj : SdrTcp) (s : Sender)
    → goes_on (obj, s) ≡ false
    → (is_stage obj.state client_serving ≡ false) ⊎ (s.left ≡ [])
all_sent obj s e = elim (Bool-cases (is_stage obj.state client_serving)) [
  | inl serves ↦
      inr (nothing_left s.left (ltb 0 s.skew) (is_stage obj.state client_serving) serves e)
  | inr other ↦ inl other
]

pub send_loop-bytes :
    (rs : List SendRound) (obj : SdrTcp) (s : Sender)
    → let after = send_loop rs (obj, s) in
      (after.1.sent ++ after.1.left ≡ s.sent ++ s.left)
      × ((is_stage after.0.state client_serving ≡ false) ⊎ (after.1.left ≡ []))
send_loop-bytes rs obj s =
    let after = send_loop rs (obj, s) in
    ((send_loop-Keeps rs obj s).same, all_sent after.0 after.1 (ended rs (obj, s)))

pub send_loop-grows :
    (rs : List SendRound) (obj : SdrTcp) (s : Sender)
    → (more : List ℕ) × ((send_loop rs (obj, s)).1.sent ≡ s.sent ++ more)
send_loop-grows rs obj s = let k = send_loop-Keeps rs obj s in (k.more, k.grown)

-- A round in which `send` takes up to n + 1 bytes and no other thread interferes.
abbrev pub delivery : ℕ → SendRound
delivery n = record {
  select = ready;
  send = accepted (suc n);
  at_select = λ o. o;
  at_send = λ o. o;
  at_error = λ o. o;
}

delivery_round :
    (n : ℕ) (obj : SdrTcp) (s : Sender)
    → obj.state ≡ client_serving
    → send_round (delivery n) (obj, s) ≡ (
      obj,
      record s {
        left = drop (min (suc n) (length s.left)) s.left;
        sent = s.sent ++ take (min (suc n) (length s.left)) s.left;
      },
    )
unfolding send_round select_part send_part
delivery_round n obj s e = let t : is_stage obj.state client_serving ≡ true = ground arith in rw t

loop_done :
    (rs : List SendRound) (obj : SdrTcp) (sent : List ℕ)
    → send_loop rs (obj, record { left = []; sent = sent; skew = 0 })
      ≡ (obj, record { left = []; sent = sent; skew = 0 })
unfolding send_loop
loop_done [] obj sent = refl
loop_done (r ∷ rs) obj sent = refl

nonempty : (bs : List ℕ) (skewed : Bool) → 0 < length bs → (not (is_empty bs) || skewed) ≡ true
nonempty [] skewed h = absurd (omega arith)
nonempty (b ∷ bs) skewed h = refl

both_true : (a b : Bool) → a ≡ true → b ≡ true → (a && b) ≡ true
both_true a b e f = rw (e, f)

loop_step :
    (r : SendRound) (rs : List SendRound) (obj : SdrTcp) (s : Sender)
    → 0 < length s.left
    → obj.state ≡ client_serving
    → send_loop (r ∷ rs) (obj, s) ≡ send_loop rs (send_round r (obj, s))
unfolding send_loop
loop_step r rs obj s h e =
    if-true (goes_on (obj, s)) _ _
      (both_true _ _ (nonempty s.left (ltb 0 s.skew) h) (serving obj e))

-- If no other thread interferes and `send` takes something in at least as many rounds as the buffer
-- has bytes, the whole buffer is sent, once and in order, and the server goes on serving.
pub send_loop_all :
    (ns : List ℕ) (obj : SdrTcp) (bytes sent : List ℕ)
    → obj.state ≡ client_serving
    → length bytes ≤ length ns
    → send_loop (map delivery ns) (obj, record { left = bytes; sent = sent; skew = 0 })
      ≡ (obj, record { left = []; sent = sent ++ bytes; skew = 0 })
send_loop_all ns obj [] sent e h =
    loop_done (map delivery ns) obj sent
    ∙ ap (λ (all : List ℕ). (obj, record { left = []; sent = all; skew = 0 }))
        (sym (append-nil sent))
send_loop_all [] obj (b ∷ bs) sent e h = absurd (omega arith)
send_loop_all (n ∷ ns) obj (b ∷ bs) sent e h =
    let bytes = b ∷ bs in
    let s : Sender = record { left = bytes; sent = sent; skew = 0 } in
    let k = min (suc n) (length bytes) in
    let shorter : length (drop k bytes) ≤ length ns = omega (arith, length-drop k bytes, h) in
    loop_step (delivery n) (map delivery ns) obj s (omega arith) e
    ∙ ap (send_loop (map delivery ns)) (delivery_round n obj s e)
    ∙ send_loop_all ns obj (drop k bytes) (sent ++ take k bytes) e shorter
    ∙ ap (λ (all : List ℕ). (obj, record { left = []; sent = all; skew = 0 }))
        (append_assoc sent (take k bytes) (drop k bytes)
          ∙ ap (λ (bs : List ℕ). sent ++ bs) (take-append-drop k bytes))
