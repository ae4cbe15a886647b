-- ===== src/Threading.antt =====
-- rtlsdr/src/main/cpp/src/threading.c and threading.h: an int behind a mutex, and a signal that stays
-- given. A call is one step of its thread, since it holds the lock; `signaller_wait` is two, since
-- `pthread_cond_wait` lets go of the lock. Locks and condition variables are the system's: of the
-- variable the model keeps the threads that wait on it.
mod Signals
mod Tests
use rtl_tcp_andro.Base.{ℕ, Bool, true, false, List, [], ◌∷◌, ◌++◌, ◌==◌, if◌then◌else◌}
use rtl_tcp_andro.Base.Int.{ℤ}

-- atomic_int, without its lock.
pub record AtomicInt : Type 0 where
  pub value : ℤ

unfoldable pub atomic_int_setval : AtomicInt → ℤ → AtomicInt
atomic_int_setval var value = record var { value = value }

unfoldable pub atomic_int_init : ℤ → AtomicInt
atomic_int_init value = record { value = value }

unfoldable pub atomic_int_getval : AtomicInt → ℤ
atomic_int_getval var = var.value

unfoldable pub atomic_int_getval_and_set : AtomicInt → ℤ → AtomicInt × ℤ
atomic_int_getval_and_set var value = (record var { value = value }, var.value)

-- thread_signaller, with the threads that wait on `condition`.
pub record ThreadSignaller : Type 0 where
  pub already_called : Bool
  pub waiting : List ℕ

abbrev pub signaller_init : ThreadSignaller
signaller_init = record { already_called = false; waiting = [] }

-- `signaller_wait`, up to the wait on the condition: whether the thread goes on.
unfoldable pub signaller_wait : ℕ → ThreadSignaller → ThreadSignaller × Bool
signaller_wait thread var =
    if var.already_called
    then (var, true)
    else (record var { waiting = thread ∷ var.waiting }, false)

-- `signaller_signal`: the broadcast wakes every thread that waits.
unfoldable pub signaller_signal : ThreadSignaller → ThreadSignaller × List ℕ
signaller_signal var = (record var { already_called = true; waiting = [] }, var.waiting)

unfoldable pub signaller_reset : ThreadSignaller → ThreadSignaller
signaller_reset var = record var { already_called = false }
