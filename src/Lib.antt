-- ===== src/Lib.antt =====
-- rtl_tcp_andro is an Android driver for RTL2832 dongles. Its native part, below
-- rtlsdr/src/main/cpp/src/, opens the dongle, and serves its samples to one TCP client, whose commands
-- it carries out. This library models that part and shows what it does.
--
-- The parts, each file under its directory's name here:
-- Queue is queue.c, a doubly linked queue, over an explicit memory (`Heap`).
-- ExtBuffer is extbuffer.h and extbuffer.c, buffers that grow, of five cell types.
-- WorkPool is workpool.h and workpool.c, buffers that circulate through the queues of two stages, the
--   one that fills them and the one that sends them. Lists stand here for the linked queues.
-- SdrTcp is sdrtcp.h and sdrtcp.c, the server: `Open` is sdrtcp_open_socket and
--   sdrtcp_serve_client_async, `Server` the server's thread (sdrtcp_wait_for_client and tcp_server),
--   `Sender` serveClient, `Listener` commandListener, `Feed` sdrtcp_feed and `Memcpy` the buffers that
--   these fill and read. The shared state is `SdrTcp.state`. `Flow` puts the driver's and the server's
--   thread together around the pool, with an abstract channel of bytes (`Flow/Channel`). `Lifecycle` has
--   the accesses to `state` and the sockets of the thread that opens and of those that stop, one by one.
-- RtlSdrDevice is rtlsdrdevice.c, tcp_commands.h and SdrException.h, the driver: tcpCommandCallback,
--   which the listener calls, rtlsdr_callback, which feeds the server, and openAsync (`Open`);
--   `Session` is the listener with the driver's callback.
-- Threading is threading.h and threading.c, an atomic int and a signal.
-- AndroidOpen is the patch for Android in librtlsdr/src/librtlsdr.c of rtlsdr/src/main/cpp/: rtlsdr_open2,
--   by which openAsync opens the dongle.
-- Librtlsdr is what the driver and rtlsdr_open2 rest on in the same file: the gains of each tuner
--   (`Gains`), the EEPROM (`Eeprom`), the demodulator's registers (`Registers`), rtlsdr_set_sample_rate
--   with rtlsdr_set_offset_tuning (`SampleRate`) and the stream of samples, rtlsdr_read_async (`Async`).
-- AndroidUsb is the additions for Android in librtlsdr/libusb/libusb/ (core.c and os/linux_usbfs.c), by
--   which rtlsdr_open2 makes a device from a path and opens it with a descriptor from Java.
-- Jni is common.c: log lines from any thread, and the exceptions that openAsync throws.
-- Base is names of the libraries, Boolean tests, lists, integers and words.
--
-- How the model stands to the code. A record has the fields of the struct, without locks, condition
-- variables and callbacks. A function has the name of the C function; it takes the state and gives the
-- new one, with the result and what it does to the world. A fault (`none`) is an access through NULL,
-- outside of a buffer, or to a queue that is not there; allocation does not fail (but in AndroidOpen and
-- AndroidUsb, where it may), and new memory holds arbitrary values (`junk`). uint32_t arithmetic wraps
-- at 2 ^ 32 where the code computes in it, a uint32_t that becomes an int is taken modulo 2 ^ 32 around
-- 0, and size_t and time_t have 32 bits, as on armeabi-v7a and x86. Memory is little-endian.
--
-- Other threads. A section under a lock is one step (that of sdrtcp_cleanup is two in `Lifecycle`). Where the code reads `state` or the pool again
-- with no lock held in between, an argument says what other threads do there: any function on the
-- state. Answers of the system (select, recv, send, accept, bind) are arguments too. Two relations
-- have the threads themselves: `Flow`, with one step for a feed, a request, a turn and a change of the
-- stage, and `Lifecycle`, with one step for an access to `state` or a socket, one thread that opens and any
-- number that stop it; any thread may take the next step. A feed that finds no buffer is dropped in
-- `Flow`, as in the code. A request at the pool's first stage is one step though it holds no lock: in
-- sdrtcp.c all such requests are made under `state_locker`. That threads can be created, and that the
-- listener's thread comes to its end where tcp_server joins it, is assumed.
--
-- Loops. The loops that end when `state` changes run over a list of rounds, one for each pass with
-- the answers in it; no fuel is involved, and a theorem that all is handed on or sent has as many
-- rounds as there are bytes. The other loops are structural.
--
-- Not modelled: the other functions of librtlsdr and of libusb, copies of other projects' libraries, whose
-- calls are parameters (`Dongle`, `Usb`, `I2c`, `EventRound`, `Kernel`), and the Java application.
pub mod Base
pub mod Queue
pub mod ExtBuffer
pub mod WorkPool
pub mod SdrTcp
pub mod RtlSdrDevice
pub mod Threading
pub mod AndroidOpen
pub mod Jni
pub mod AndroidUsb
pub mod Librtlsdr
