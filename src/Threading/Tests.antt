-- ===== src/Threading/Tests.antt =====
-- Runs of rtlsdr/src/main/cpp/src/threading.c.
use rtl_tcp_andro.Threading.Signals.{Reach, Step, IsAwake, signaller-IsAwake}
use rtl_tcp_andro.Threading.{signaller_init, signaller_wait, signaller_signal}

signaller-IsAwake_example : IsAwake (signaller_signal (signaller_wait 4 signaller_init).0).0
signaller-IsAwake_example =
    signaller-IsAwake (signaller_signal (signaller_wait 4 signaller_init).0).0
      (Reach.next (Reach.next Reach.start (Step.wait 4)) Step.signal)
