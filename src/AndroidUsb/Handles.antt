-- ===== src/AndroidUsb/Handles.antt =====
-- Handles and session ids of the additions for Android to libusb.
use rtl_tcp_andro.Base.{ℕ, ◌+◌, ◌<◌, ◌≡◌, ◌⊎◌, Bool, true, Option, none, some, ◌∷◌, arith}
use rtl_tcp_andro.Base.Int.{ℤ, pos, is_negative}
use rtl_tcp_andro.AndroidUsb.{Handle, Context, Kernel, libusb_open2, session_id_of}

-- The two ends of a call: a refusal that leaves the context as it was, and a success with one handle more,
-- listed, and one reference more on the device.
abbrev pub Refused : Context → Context × ℤ × Option Handle → Type 0
Refused ctx r = (r.0 ≡ ctx) × (is_negative r.1 ≡ true) × (r.2 ≡ none)

abbrev pub Opened : Context → ℕ → Context × ℤ × Option Handle → Type 0
Opened ctx fd r =
    (h : Handle) × (h.fd ≡ fd)
    × (r.1 ≡ pos 0)
    × (r.2 ≡ some h)
    × (r.0.open_devs ≡ h ∷ ctx.open_devs)
    × (r.0.device.refcnt ≡ ctx.device.refcnt + 1)
    × (r.0.loose ≡ ctx.loose)

-- Whatever malloc, the mutex and the kernel answer, libusb_open2 either refuses and leaves the context
-- as it was, with no reference and no memory lost, or opens a handle over the descriptor it was given.
pub libusb_open2_outcome :
    (allocated : Bool) (mutex_init : ℤ) (k : Kernel) (ctx : Context) (fd : ℕ)
    → Refused ctx (libusb_open2 allocated mutex_init k ctx fd)
      ⊎ Opened ctx fd (libusb_open2 allocated mutex_init k ctx fd)
unfolding libusb_open2
libusb_open2_outcome allocated mutex_init k ctx fd = ground arith

-- Two addresses of a byte each have the same session id only if they are the same.
pub session_id_of-injective :
    (b d b' d' : ℕ)
    → d < 256
    → d' < 256
    → session_id_of b d ≡ session_id_of b' d'
    → (b ≡ b') × (d ≡ d')
unfolding session_id_of
session_id_of-injective b d b' d' h h' e = omega arith
