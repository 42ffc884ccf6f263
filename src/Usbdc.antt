-- ===== src/Usbdc.antt =====
-- The cartridge's side of the USB protocol, `sc_check_usbdc` and its handlers in
-- satcom_lib/sc_saturn.c.
pub mod Machine
pub mod Words
pub mod Handlers
pub mod Transfer
pub mod Exec
pub mod Loop
mod Tests
