-- ===== src/Jni.antt =====
-- rtlsdr/src/main/cpp/src/common.c: exceptions thrown into Java, threads attached to the Java VM,
-- log lines, and JNI_OnLoad. The VM is a parameter: what its calls return, with the documented rule that a call that
-- returns NULL leaves an exception pending. Texts and the VM's own exceptions are opaque numbers.
mod Threads
mod Tests
use rtl_tcp_andro.Base.{
  ℕ, Bool, true, false, ◌&&◌, Option, none, some, List, [], ◌∷◌, ◌++◌, ◌==◌, if◌then◌else◌,
}
use rtl_tcp_andro.Base.Int.{ℤ, pos, negsuc}

-- A Java exception: the one made with an int, or another one.
pub data Throwable : Type 0 where
  with_int : (code : ℤ) → Throwable
  of_vm : ℕ → Throwable

-- The calling thread, as the VM sees it.
pub record JavaThread : Type 0 where
  pub attached : Bool
  pub pending : Option Throwable

-- What JNI_OnLoad stores: whether the VM is known and `initialize` was called, and the class and method for
-- log lines, NULL being `none`.
pub record JniState : Type 0 where
  pub has_vm : Bool
  pub initialized : Bool
  pub log_class : Option ℕ
  pub log_method : Option ℕ

-- JNI_VERSION_1_6.
abbrev pub jni_version_1_6 : ℤ
jni_version_1_6 = pos 65542

-- `JNI_OnLoad`: `got_env` is whether GetEnv returns JNI_OK; the class and the method are what the lookups
-- give.
unfoldable pub jni_on_load :
    (got_env : Bool) → (log_class log_method : Option ℕ) → JniState → JniState × ℤ
jni_on_load got_env log_class log_method s =
    if got_env
    then (
      record { has_vm = true; initialized = true; log_class = log_class; log_method = log_method },
      jni_version_1_6,
    )
    else (s, negsuc 0)

-- Where a log line went.
pub data LogLine : Type 0 where
  to_android to_java : (text : ℕ) → LogLine

-- `attachThread`: its result, and whether `*tEnv` is set. `attaches` is whether AttachCurrentThread
-- returns JNI_OK.
unfoldable pub attach_thread : (attaches : Bool) → JavaThread → JavaThread × ℕ × Bool
attach_thread attaches t =
    if t.attached
    then (t, 2, true)
    else (if attaches then (record { attached = true; pending = none }, 1, true) else (t, 0, false))

unfoldable pub detatch_thread : (result_from_attach_thread : ℕ) → JavaThread → JavaThread
detatch_thread result t = if result == 1 then record { attached = false; pending = none } else t

-- `if (pendingException != NULL) Throw(...)`
abbrev pub throw_again : Option Throwable → JavaThread → JavaThread
throw_again none t = t
throw_again (some e) t = record t { pending = some e }

-- The part of `log` with an environment: the pending exception is put aside while Java is called.
-- `raised` is what the Java method leaves pending.
unfoldable pub log_to_java : (raised : Option Throwable) → JavaThread → JavaThread
log_to_java raised t = throw_again t.pending (record t { pending = raised })

unfoldable pub log :
    (attaches : Bool)
    → (raised : Option Throwable) → (text : ℕ) → JavaThread
    → JavaThread × List LogLine
unfolding attach_thread detatch_thread log_to_java
log attaches raised text t =
    let (there, result, has_env) = attach_thread attaches t in
    let called = if has_env then log_to_java raised there else there in
    (detatch_thread result called, to_android text ∷ (if has_env then to_java text ∷ [] else []))

-- `common_logf`: `vasprintf` gives a text, or fails.
unfoldable pub common_logf :
    (attaches : Bool)
    → (raised : Option Throwable) → Option ℕ
    → JavaThread
    → JavaThread × List LogLine
unfolding log
common_logf attaches raised none t = (t, [])
common_logf attaches raised (some text) t = log attaches raised text t

-- What FindClass, GetMethodID and NewObject return: NULL, with the exception that the VM raises.
pub record Lookups : Type 0 where
  pub class : Option ℕ
  pub method : Option ℕ
  pub object : Option ℕ

-- The label `err`. The thread is attached, since it has an environment.
unfoldable pub cannot_throw :
    (raised : Option Throwable) → (text : ℕ) → (error : ℕ) → JavaThread → JavaThread × List LogLine
unfolding common_logf
cannot_throw raised text error t =
    common_logf true raised (some text) (record t { pending = some (of_vm error) })

-- `throwExceptionWithInt`. A lookup is `some error` where it returns NULL.
unfoldable pub throw_exception_with_int :
    (raised : Option Throwable)
    → (text : ℕ) → Lookups
    → (code : ℤ) → JavaThread
    → JavaThread × List LogLine
unfolding cannot_throw
throw_exception_with_int raised text l code t = elim l.class [
  | some error ↦ cannot_throw raised text error t
  | none ↦ elim l.method [
    | some error ↦ cannot_throw raised text error t
    | none ↦ elim l.object [
      | some error ↦ cannot_throw raised text error t
      | none ↦ (record t { pending = some (with_int code) }, [])
    ]
  ]
]
