-- ===== src/AndroidUsb.antt =====
-- The additions for Android in rtlsdr/src/main/cpp/librtlsdr/libusb/libusb/: libusb_open2 and
-- libusb_get_device2 of core.c, op_open2 and op_device2 of os/linux_usbfs.c, by which a device is made
-- from its path and opened with a file descriptor that Java has opened. The rest of libusb and the kernel
-- are parameters: what malloc, the mutex, the ioctl, the poll set and the path give.
mod Handles
mod Tests
use rtl_tcp_andro.Base.{
  ℕ, zero, suc, ◌+◌, ◌-◌, ◌*◌, Bool, true, false, Option, none, some, List, [], ◌∷◌, ◌==◌,
  if◌then◌else◌,
}
use rtl_tcp_andro.Base.Int.{ℤ, pos, negsuc, is_negative, is_zero}

-- libusb_device: its references, and the id it was made with.
pub record Device : Type 0 where
  pub refcnt : ℕ
  pub session_id : ℕ

-- The private part of a handle: the descriptor and what the kernel can do with it.
pub record Handle : Type 0 where
  pub fd : ℕ
  pub caps : ℕ

-- A context with the one device: the open handles, newest first, and the handles in memory that stand
-- in no list.
pub record Context : Type 0 where
  pub device : Device
  pub open_devs : List Handle
  pub loose : ℕ

-- What the kernel says: the result of the ioctl and the capabilities that it writes; the two flags of the
-- kernel's version; and the result of usbi_add_pollfd.
pub record Kernel : Type 0 where
  pub getcap : ℤ
  pub kernel_caps : ℕ
  pub zero_packet : Bool
  pub bulk_continuation : Bool
  pub add_pollfd : ℤ

-- USBFS_CAP_ZERO_PACKET and USBFS_CAP_BULK_CONTINUATION, added without overlap.
abbrev pub fallback_caps : Kernel → ℕ
fallback_caps k = (if k.zero_packet then 1 else 0) + (if k.bulk_continuation then 2 else 0)

unfoldable pub op_open2 : Kernel → (fd : ℕ) → Handle × ℤ
op_open2 k fd = (
  record { fd = fd; caps = if is_negative k.getcap then fallback_caps k else k.kernel_caps },
  k.add_pollfd,
)

-- `libusb_open2`: the context, the result and `*handle` where it is set. LIBUSB_ERROR_NO_MEM is -11 and
-- LIBUSB_ERROR_OTHER -99. `malloc` and `usbi_mutex_init` come first.
unfoldable pub libusb_open2 :
    (allocated : Bool)
    → (mutex_init : ℤ) → Kernel
    → Context
    → (fd : ℕ) → Context × ℤ × Option Handle
unfolding op_open2
libusb_open2 allocated mutex_init k ctx fd =
    let handle = op_open2 k fd in
    let made = record ctx { loose = ctx.loose + 1 } in
    let referenced = record made {
      device = record ctx.device { refcnt = ctx.device.refcnt + 1 };
    } in
    if allocated
    then (if is_zero mutex_init
        then (if is_negative handle.1
            then (
              record referenced {
                device = record referenced.device { refcnt = referenced.device.refcnt - 1 };
                loose = referenced.loose - 1;
              },
              handle.1,
              none,
            )
            else (
              record referenced {
                open_devs = handle.0 ∷ ctx.open_devs;
                loose = referenced.loose - 1;
              },
              pos 0,
              some handle.0,
            ))
        else (record made { loose = made.loose - 1 }, negsuc 98, none))
    else (ctx, negsuc 10, none)

-- The bus and the number of the device, as uint8_t, in the 16 bits of a session id.
unfoldable pub session_id_of : (busnum devaddr : ℕ) → ℕ
session_id_of busnum devaddr = busnum * 256 + devaddr

-- `op_device2`: the path gives an address or linux_get_device_address fails; usbi_alloc_device may fail.
unfoldable pub op_device2 : (address : Option (ℕ × ℕ)) → (allocated : Bool) → Option Device
unfolding session_id_of
op_device2 none allocated = none
op_device2 (some (busnum, devaddr)) allocated =
    if allocated
    then some (record { refcnt = 1; session_id = session_id_of busnum devaddr })
    else none

-- `libusb_get_device2`: the back end of some systems has no `device2`.
unfoldable pub libusb_get_device2 :
    (has_device2 : Bool) → (address : Option (ℕ × ℕ)) → (allocated : Bool) → Option Device
unfolding op_device2
libusb_get_device2 has_device2 address allocated =
    if has_device2 then op_device2 address allocated else none
