-- ===== src/Jni/Tests.antt =====
-- Runs of rtlsdr/src/main/cpp/src/common.c.
use rtl_tcp_andro.Base.{◌≡◌, refl, true, false, none, some}
use rtl_tcp_andro.Base.Int.{pos}
use rtl_tcp_andro.Jni.Threads.{log-IsThread, throw_exception_with_int-pending}
use rtl_tcp_andro.Jni.{
  Throwable, with_int, of_vm, JavaThread, Lookups, log, throw_exception_with_int,
}

-- A thread with an exception pending, and a thread that the VM does not know.
abbrev failing : JavaThread
failing = record { attached = true; pending = some (with_int (pos 1)) }

abbrev outside : JavaThread
outside = record { attached = false; pending = none }

abbrev no_constructor : Lookups
no_constructor = record { class = none; method = some 4; object = none }

log-IsThread_example :
    ((log true (some (of_vm 3)) 8 failing).0.attached ≡ true)
    × ((log true (some (of_vm 3)) 8 failing).0.pending ≡ some (with_int (pos 1)))
log-IsThread_example = log-IsThread true (some (of_vm 3)) 8 failing (λ e. cc)

throw_exception_with_int-pending_example :
    (e : Throwable) × ((throw_exception_with_int none 8 no_constructor (pos 9) failing).0.pending
      ≡ some e)
    × ((throw_exception_with_int none 8 no_constructor (pos 9) failing).0.attached ≡ true)
    × (no_constructor.class ≡ none
        → no_constructor.method ≡ none
        → no_constructor.object ≡ none
        → e ≡ with_int (pos 9))
throw_exception_with_int-pending_example =
    throw_exception_with_int-pending none 8 no_constructor (pos 9) failing refl
