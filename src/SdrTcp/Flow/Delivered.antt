-- ===== src/SdrTcp/Flow/Delivered.antt =====
-- The samples' way through rtlsdr/src/main/cpp/src/sdrtcp.c and workpool.c as a whole: the threads around
-- the pool, in any interleaving of their calls, implement a first-in-first-out channel of bytes.
use rtl_tcp_andro.Base.{ℕ, ◌≡◌, some, List, [], ◌++◌, ap, sym, ◌∙◌}
use mathlib.Core.Path.{subst}
use mathlib.Core.List.{append_assoc, append-nil}
use rtl_tcp_andro.SdrTcp.Flow.Channel.{Transfer, write, refuse, fetch, channel, Reach, here, next}
use rtl_tcp_andro.SdrTcp.Flow.{Flow}
use rtl_tcp_andro.SdrTcp.Flow.Turns.{InOrder, act-Goes}

-- More behind a list.
abbrev pub IsExtended : List ℕ → List ℕ → Type 0
IsExtended xs ys = (more : List ℕ) × (ys ≡ xs ++ more)

append_more : (xs ys zs bytes : List ℕ) → IsExtended xs ys → zs ≡ ys ++ bytes → IsExtended xs zs
append_more xs ys zs bytes (more, e) e' =
    (more ++ bytes, e' ∙ ap (λ x. x ++ bytes) e ∙ append_assoc xs more bytes)

same_flow : {s t : Flow} → some s ≡ some t → s ≡ t
same_flow e = cc

module _ (junk : ℕ → ℕ) where
  -- A state behind another: in order, and what was fed or sent stays so.
  abbrev pub Follows : Flow → Flow → Type 0
  Follows s t = InOrder t × IsExtended s.fed t.fed × IsExtended s.sent t.sent

  transfer-Follows :
      (s t u : Flow) → Follows s t → InOrder u → Transfer (channel t) (channel u) → Follows s u
  transfer-Follows s t u (o, fed, sent) o' (write bytes w r d) =
      (o', append_more s.fed t.fed u.fed bytes fed w, (sent.0, r ∙ sent.1))
  transfer-Follows s t u (o, fed, sent) o' (refuse bytes w r d) =
      (o', (fed.0, w ∙ fed.1), (sent.0, r ∙ sent.1))
  transfer-Follows s t u (o, fed, sent) o' (fetch bytes rest w r c d) =
      (o', (fed.0, w ∙ fed.1), append_more s.sent t.sent u.sent bytes sent r)

  Reach-Follows : (s t : Flow) → InOrder s → Reach junk s t → Follows s t
  Reach-Follows s t o here = (o, ([], sym (append-nil s.fed)), ([], sym (append-nil s.sent)))
  Reach-Follows s u o (next {t = t} r a allowed e) =
      let before = Reach-Follows s t o r in
      let (u', e', o', transfer) = act-Goes junk a t before.0 allowed in
      subst (Follows s) (same_flow (sym e' ∙ e)) (transfer-Follows s t u' before o' transfer)

  -- In whatever order the threads call, no byte is lost, doubled or changed, and none overtakes
  -- another: what the client was sent, followed by what is on its way, is what was queued.
  pub Reach-IsExtended :
      (s t : Flow)
      → InOrder s
      → Reach junk s t
      → IsExtended s.fed t.fed × IsExtended s.sent t.sent × IsExtended t.sent t.fed
  Reach-IsExtended s t o r =
      let (o', fed, sent) = Reach-Follows s t o r in (fed, sent, (_, sym o'.order.same))
