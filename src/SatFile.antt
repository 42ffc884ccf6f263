-- ===== src/SatFile.antt =====
-- The Saturn's file layer: the `scf_` functions of satcom_lib/sc_saturn.c, which give a program the
-- files of a CD-ROM, a RomFs image, a PC and an SD card by the same calls.
pub mod Names
pub mod Listing
pub mod Files
pub mod Order
pub mod Sort
pub mod Paths
pub mod Buffer
pub mod Reads
pub mod Filter
pub mod Filtered
mod Tests
