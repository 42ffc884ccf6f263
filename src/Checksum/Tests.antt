-- ===== src/Checksum/Tests.antt =====
-- Runs of the checksums, and their theorems at concrete inputs.
use ftx.Base.{ℕ, ◌≡◌, ◌≢◌, refl, arith, List, [], ◌∷◌, bit_xor}
use ftx.Checksum.Spec.{crc8, crc32}
use ftx.Checksum.Tables.{crc_usbdc_table, crc32_tab}
use ftx.Checksum.Crc8.{crc_usbdc_update-crc8, crc_usbdc_update_detects}
use ftx.Checksum.Crc32.{crc32_update-crc32}
use ftx.Checksum.{crc_usbdc_step, crc_usbdc_loop, crc_usbdc_init, crc_usbdc_update}
use ftx.Checksum.{ones32, crc32_step, crc32_loop, crc32_update, crc32_calc}

-- The check values that catalogues give for "123456789".
abbrev digits : List ℕ
digits = 0x31 ∷ 0x32 ∷ 0x33 ∷ 0x34 ∷ 0x35 ∷ 0x36 ∷ 0x37 ∷ 0x38 ∷ 0x39 ∷ []

crc8_digits : crc_usbdc_update crc_usbdc_init digits ≡ 0xf4
unfolding crc_usbdc_update crc_usbdc_init crc_usbdc_loop crc_usbdc_step crc_usbdc_table
crc8_digits = refl

crc32_digits : crc32_calc digits ≡ 0xcbf4_3926
unfolding crc32_calc crc32_update crc32_loop crc32_step crc32_tab
crc32_digits = refl

crc_usbdc_update-crc8_example : crc_usbdc_update 7 digits ≡ crc8 7 digits
crc_usbdc_update-crc8_example = crc_usbdc_update-crc8 7 digits (omega arith) (omega arith)

crc_usbdc_update_detects_example :
    crc_usbdc_update crc_usbdc_init (1 ∷ 2 ∷ 3 ∷ 4 ∷ [])
    ≢ crc_usbdc_update crc_usbdc_init (1 ∷ 2 ∷ 5 ∷ 4 ∷ [])
crc_usbdc_update_detects_example =
    crc_usbdc_update_detects (1 ∷ 2 ∷ []) (4 ∷ []) 3 5 (omega arith) (omega arith) (omega arith)
      (omega arith) (omega arith)

crc32_update-crc32_example :
    crc32_update 5 digits ≡ bit_xor (crc32 (bit_xor 5 ones32) digits) ones32
crc32_update-crc32_example = crc32_update-crc32 5 digits (omega arith)
