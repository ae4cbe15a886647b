-- ===== src/Librtlsdr.antt =====
-- rtlsdr/src/main/cpp/librtlsdr/src/librtlsdr.c, a librtlsdr that is changed for Android: what the driver
-- and rtlsdr_open2 rest on, the gains of each tuner, the EEPROM, and the stream of samples. A NULL device,
-- on which each function returns -1 at once, is left out.
pub mod Gains
pub mod Eeprom
pub mod Async
pub mod Registers
pub mod SampleRate
mod Tests
