-- ===== src/Threading/Signals.antt =====
-- What rtlsdr/src/main/cpp/src/threading.c promises: swaps that lose nothing, and no wait behind a signal.
use rtl_tcp_andro.Base.{ℕ, ◌≡◌, refl, true, List, [], ◌∷◌, ◌++◌, arith, ap}
use rtl_tcp_andro.Base.Int.{ℤ}
use rtl_tcp_andro.Threading.{
  AtomicInt, atomic_int_init, atomic_int_getval_and_set, atomic_int_getval, ThreadSignaller,
  signaller_init, signaller_wait, signaller_signal, signaller_reset,
}

-- Swaps one after another, each with its own value: what they return.
abbrev pub swaps : AtomicInt → List ℤ → List ℤ
swaps var [] = []
swaps var (v ∷ vs) =
    (atomic_int_getval_and_set var v).1 ∷ swaps (atomic_int_getval_and_set var v).0 vs

abbrev pub after_swaps : AtomicInt → List ℤ → AtomicInt
after_swaps var [] = var
after_swaps var (v ∷ vs) = after_swaps (atomic_int_getval_and_set var v).0 vs

-- However many threads swap, and in whatever order: the values returned, followed by the value at the
-- end, are the value at the start followed by those put in. No value is returned twice or lost.
pub atomic_int_getval_and_set_once :
    (first : ℤ) (vs : List ℤ)
    → swaps (atomic_int_init first) vs
        ++ atomic_int_getval (after_swaps (atomic_int_init first) vs) ∷ []
      ≡ first ∷ vs
unfolding atomic_int_init atomic_int_getval_and_set atomic_int_getval
atomic_int_getval_and_set_once first [] = refl
atomic_int_getval_and_set_once first (v ∷ vs) =
    ap (λ (l : List ℤ). first ∷ l) (atomic_int_getval_and_set_once v vs)

-- A step of some thread on a signaller.
pub data Step : ThreadSignaller → ThreadSignaller → Type 0 where
  wait : {s : ThreadSignaller} (thread : ℕ) → Step s (signaller_wait thread s).0
  signal : {s : ThreadSignaller} → Step s (signaller_signal s).0
  reset : {s : ThreadSignaller} → Step s (signaller_reset s)

pub data Reach : ThreadSignaller → Type 0 where
  start : Reach signaller_init
  next : {s s' : ThreadSignaller} → Reach s → Step s s' → Reach s'

-- No thread waits on a signal that has been given.
abbrev pub IsAwake : ThreadSignaller → Type 0
IsAwake s = s.already_called ≡ true → s.waiting ≡ []

Step-IsAwake : (s s' : ThreadSignaller) → Step s s' → IsAwake s → IsAwake s'
unfolding signaller_wait signaller_signal signaller_reset
Step-IsAwake s s' (wait thread) h = ground (arith, h)
Step-IsAwake s s' signal h = λ e. refl
Step-IsAwake s s' reset h = λ e. absurd cc

-- In every state that waits, signals and resets lead to, no thread waits on the condition while the
-- signal is given.
pub signaller-IsAwake : (s : ThreadSignaller) → Reach s → IsAwake s
signaller-IsAwake s start = λ e. refl
signaller-IsAwake s (next {s = t} r step) = Step-IsAwake t s step (signaller-IsAwake t r)
