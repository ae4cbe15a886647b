-- ===== src/AndroidUsb/Tests.antt =====
-- Runs of the additions for Android to libusb.
use rtl_tcp_andro.Base.{◌⊎◌, true, []}
use rtl_tcp_andro.Base.Int.{pos, negsuc}
use rtl_tcp_andro.AndroidUsb.Handles.{Refused, Opened, libusb_open2_outcome}
use rtl_tcp_andro.AndroidUsb.{Context, Kernel, libusb_open2}

abbrev one_device : Context
one_device = record { device = record { refcnt = 1; session_id = 517 }; open_devs = []; loose = 0 }

-- The kernel does not know the ioctl, and the descriptor cannot be polled.
abbrev old_kernel : Kernel
old_kernel = record {
  getcap = negsuc 0;
  kernel_caps = 0;
  zero_packet = true;
  bulk_continuation = true;
  add_pollfd = negsuc 10;
}

libusb_open2_outcome_example :
    Refused one_device (libusb_open2 true (pos 0) old_kernel one_device 33)
    ⊎ Opened one_device 33 (libusb_open2 true (pos 0) old_kernel one_device 33)
libusb_open2_outcome_example = libusb_open2_outcome true (pos 0) old_kernel one_device 33
