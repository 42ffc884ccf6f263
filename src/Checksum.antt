-- ===== src/Checksum.antt =====
-- The checksums of satcom_lib/sc_common.c: `crc32_update`, which guards RomFs data, and the 8-bit
-- `crc_usbdc_update`, which guards every USB transfer; src/crc.cpp holds the host's copy of the
-- latter. `unsigned char` and `unsigned long` (32 bits on the Saturn) are numbers.
pub mod Tables
pub mod Spec
pub mod Crc8
pub mod Crc32
mod Tests
use Tables.{crc_usbdc_table, crc32_tab}
use ftx.Base.{ℕ, ◌*◌, ◌/◌, ◌%◌, ◌^◌, ◌-◌, List, [], ◌∷◌, get_or, bit_and, bit_xor}

-- One round of the loop of `crc_usbdc_update`; `(crc >> 0)` is `crc`.
pub crc_usbdc_step : ℕ → ℕ → ℕ
crc_usbdc_step crc byte =
    let tbl_idx = bit_and (bit_xor crc byte) 0xff in
    bit_and (bit_xor (get_or crc_usbdc_table tbl_idx 0) (crc * 2 ^ 8)) 0xff

crc_usbdc_loop : ℕ → List ℕ → ℕ
crc_usbdc_loop crc [] = crc
crc_usbdc_loop crc (byte ∷ rest) = crc_usbdc_loop (crc_usbdc_step crc byte) rest

unfoldable pub crc_usbdc_init : ℕ
crc_usbdc_init = 0x00

pub crc_usbdc_update : ℕ → List ℕ → ℕ
crc_usbdc_update crc bytes = bit_and (crc_usbdc_loop crc bytes) 0xff

unfoldable pub crc_usbdc_finalize : ℕ → ℕ
crc_usbdc_finalize crc = bit_xor crc 0x00

pub crc8_start : ℕ
crc8_start = crc_usbdc_init

pub crc8_update : ℕ → ℕ → ℕ
crc8_update crc val = crc_usbdc_update crc (val ∷ [])

-- `~0U` on 32 bits.
abbrev pub ones32 : ℕ
ones32 = 0xffff_ffff

pub crc32_step : ℕ → ℕ → ℕ
crc32_step crc byte = bit_xor (get_or crc32_tab (bit_and (bit_xor crc byte) 0xff) 0) (crc / 2 ^ 8)

pub crc32_loop : ℕ → List ℕ → ℕ
crc32_loop crc [] = crc
crc32_loop crc (byte ∷ rest) = crc32_loop (crc32_step crc byte) rest

pub crc32_update : ℕ → List ℕ → ℕ
crc32_update crc bytes = bit_xor (crc32_loop (bit_xor crc ones32) bytes) ones32

-- The macro `crc32_calc`, with `CRC32_INITVAL`.
pub crc32_calc : List ℕ → ℕ
crc32_calc bytes = crc32_update 0 bytes
