-- ===== src/Checksum/Spec.antt =====
-- What the tables are meant to compute: the polynomial divisions that the comments in
-- satcom_lib/sc_common.c name, one bit at a time.
use ftx.Base.{ℕ, zero, suc, ◌*◌, ◌/◌, ◌%◌, List, [], ◌∷◌, ltb, ◌==◌, if◌then◌else◌, bit_xor}

-- Width 8, polynomial 0x07, bits not reflected.
unfoldable pub shift8 : ℕ → ℕ
shift8 crc = if ltb crc 128 then crc * 2 else bit_xor (crc * 2 % 256) 0x07

-- Width 32, polynomial 0xedb88320, bits reflected.
unfoldable pub shift32 : ℕ → ℕ
shift32 crc = if crc % 2 == 0 then crc / 2 else bit_xor (crc / 2) 0xedb8_8320

unfoldable pub times : ℕ → (ℕ → ℕ) → ℕ → ℕ
times zero f x = x
times (suc n) f x = times n f (f x)

-- Each byte is added to the register, which is then shifted eight times.
unfoldable pub crc8 : ℕ → List ℕ → ℕ
crc8 crc [] = crc
crc8 crc (byte ∷ rest) = crc8 (times 8 shift8 (bit_xor crc byte)) rest

unfoldable pub crc32 : ℕ → List ℕ → ℕ
crc32 crc [] = crc
crc32 crc (byte ∷ rest) = crc32 (times 8 shift32 (bit_xor crc byte)) rest
