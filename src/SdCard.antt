-- ===== src/SdCard.antt =====
-- The SD card driver of satcom_lib/sdcard/sdcard_packet.c, which clocks the card's SPI bus bit by
-- bit through the registers that satcom_lib/satcart.h lists.
pub mod Spi
pub mod Packet
pub mod Init
pub mod Bits
pub mod Frame
pub mod Blocks
pub mod Writes
pub mod Slice
pub mod Outcome
pub mod Status
pub mod Media
pub mod Fat
pub mod FatFiles
pub mod Tests
pub mod FatTests
