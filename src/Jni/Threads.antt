-- ===== src/Jni/Threads.antt =====
-- What a log line and a thrown exception leave of the calling thread, in rtlsdr/src/main/cpp/src/common.c.
use rtl_tcp_andro.Base.{ℕ, ◌≡◌, refl, Bool, true, false, Option, none, some, if◌then◌else◌, arith}
use rtl_tcp_andro.Base.Int.{ℤ}
use rtl_tcp_andro.Jni.{
  Throwable, with_int, of_vm, JavaThread, attach_thread, detatch_thread, log_to_java, log,
  common_logf, Lookups, cannot_throw, throw_exception_with_int,
}

-- A thread outside of the VM has no exception.
abbrev pub IsThread : JavaThread → Type 0
IsThread t = t.attached ≡ false → t.pending ≡ none

-- Whatever the VM answers, a log line leaves the thread attached as it was, keeps an exception that was
-- pending, and where none was pending leaves none but the one that Java's own method raised.
pub log-IsThread :
    (attaches : Bool) (raised : Option Throwable) (text : ℕ) (t : JavaThread)
    → IsThread t
    → ((log attaches raised text t).0.attached ≡ t.attached)
      × ((log attaches raised text t).0.pending
          ≡ elim t.pending [ some e ↦ some e | none ↦ (if t.attached then raised else none) ])
unfolding log attach_thread log_to_java detatch_thread
log-IsThread attaches raised text t h = ground (arith, h)

-- A log line on an attached thread keeps the exception that is pending.
cannot_throw-pending :
    (raised : Option Throwable) (text error : ℕ) (t : JavaThread)
    → t.attached ≡ true
    → ((cannot_throw raised text error t).0.pending ≡ some (of_vm error))
      × ((cannot_throw raised text error t).0.attached ≡ true)
unfolding cannot_throw common_logf log attach_thread log_to_java detatch_thread
cannot_throw-pending raised text error t a = rw a (refl, refl)

throw_cases :
    (raised : Option Throwable) (text : ℕ) (code : ℤ) (t : JavaThread)
    → t.attached ≡ true
    → (c m o : Option ℕ)
    → let r =
        (throw_exception_with_int raised text
          (record { class = c; method = m; object = o })
          code
          t).0 in
      (e : Throwable) × (r.pending ≡ some e)
      × (r.attached ≡ true)
      × (c ≡ none → m ≡ none → o ≡ none → e ≡ with_int code)
unfolding throw_exception_with_int
throw_cases raised text code t a (some x) m o =
    let (p, q) = cannot_throw-pending raised text x t a in (of_vm x, p, q, λ e. cc)
throw_cases raised text code t a none (some x) o =
    let (p, q) = cannot_throw-pending raised text x t a in (of_vm x, p, q, λ e f. cc)
throw_cases raised text code t a none none (some x) =
    let (p, q) = cannot_throw-pending raised text x t a in (of_vm x, p, q, λ e f g. cc)
throw_cases raised text code t a none none none = (with_int code, refl, a, λ e f g. refl)

-- On an attached thread, whatever the VM answers, throwExceptionWithInt leaves an exception pending, so
-- that Java sees the failure; where the class, its constructor and the object are found it is the one
-- made with the code.
pub throw_exception_with_int-pending :
    (raised : Option Throwable) (text : ℕ) (l : Lookups) (code : ℤ) (t : JavaThread)
    → t.attached ≡ true
    → (e : Throwable) × ((throw_exception_with_int raised text l code t).0.pending ≡ some e)
      × ((throw_exception_with_int raised text l code t).0.attached ≡ true)
      × (l.class ≡ none → l.method ≡ none → l.object ≡ none → e ≡ with_int code)
unfolding throw_exception_with_int
throw_exception_with_int-pending raised text l code t a =
    throw_cases raised text code t a l.class l.method l.object
