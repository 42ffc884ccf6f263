-- ===== src/Ftdi.antt =====
-- The proxy of the host that passes bytes between the console and a debugger,
-- src/ftdi_gdb.cpp.
pub mod Proxy
pub mod Trace
pub mod Relay
pub mod Rounds
mod Tests
