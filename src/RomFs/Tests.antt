-- ===== src/RomFs/Tests.antt =====
-- The properties of the file system at a concrete image.
use ftx.Base.{
  Bool, true, ltb, ◌&&◌, All, zero, suc, ℕ, ◌<◌, ◌≡◌, refl, arith, List, [], ◌∷◌, ◌++◌, get_or,
}
use ftx.Base.{some, replicate}
use ftx.Compress.{decomp_exec, decomp_exec_internal, decomp_header_ok, comp_header_get_data}
use ftx.RomFs.{Image, search_folder, romfs_get_next_entry}
use ftx.RomFs.{romfs_get_entry_size, romfs_get_entry_data}
use ftx.RomFs.Slice.{IsChunks}
use ftx.RomFs.Walk.{IsFolder, IsFirstNamed, first_enabled, search_folder-IsFirstNamed}
use ftx.RomFs.Walk.{romfs_get_next_entry-first_enabled}
use ftx.RomFs.Entries.{romfs_get_entry_data-slice}

-- A header; at 24 the compressed file A, at 36 the disabled file B, at 48 the file C;
-- at 60 the data of A, two chunks of 3 and 2 bytes, and at 73 that of C.
abbrev image : List ℕ
image =
    (82 ∷ 111 ∷ 109 ∷ 70 ∷ 115 ∷ 49 ∷ 0xCA ∷ 0xFE ∷ 0 ∷ 0 ∷ 0 ∷ 76 ∷ replicate 12 0)
    ++ (0 ∷ 0 ∷ 0 ∷ 60 ∷ 0 ∷ 0 ∷ 0 ∷ 15 ∷ 0x21 ∷ 2 ∷ 65 ∷ 0 ∷ 0 ∷ 0 ∷ 0 ∷ 60 ∷ 0 ∷ 0 ∷ 0 ∷ 15 ∷ 0x00
        ∷ 2 ∷ 66 ∷ 0 ∷ 0 ∷ 0 ∷ 0 ∷ 75 ∷ 0 ∷ 0 ∷ 0 ∷ 1 ∷ 0x41 ∷ 2 ∷ 67 ∷ 0 ∷ 0 ∷ 0 ∷ 0 ∷ 5 ∷ 0 ∷ 4
        ∷ 1 ∷ 10 ∷ 11 ∷ 12 ∷ 0 ∷ 3 ∷ 1 ∷ 13 ∷ 14 ∷ 99 ∷ [])

abbrev pub romfs : Image
romfs a = get_or image a 0

-- The LZF of an image with no packed chunk.
abbrev pub no_lzf : List ℕ → ℕ → List ℕ
no_lzf xs n = []

image-IsFolder : IsFolder romfs 24 (36 ∷ 48 ∷ [])
unfolding IsFolder
image-IsFolder = (refl, (refl, (refl, (refl, refl))))

pub image-IsChunks : IsChunks no_lzf romfs 64 ((10 ∷ 11 ∷ 12 ∷ []) ∷ (13 ∷ 14 ∷ []) ∷ [])
unfolding IsChunks decomp_exec decomp_exec_internal decomp_header_ok comp_header_get_data
image-IsChunks = (refl, (omega arith, omega arith), (refl, (omega arith, omega arith), tt))

abbrev all_small : List ℕ → Bool
all_small [] = true
all_small (x ∷ xs) = ltb x 256 && all_small xs

bytes : (xs : List ℕ) → All (λ b. b < 256) xs → (a : ℕ) → get_or xs a 0 < 256
bytes [] h a = omega arith
bytes (x ∷ xs) h zero = h.0
bytes (x ∷ xs) h (suc a) = bytes xs h.1 a

small : (xs : List ℕ) → all_small xs ≡ true → All (λ b. b < 256) xs
small [] h = tt
small (x ∷ xs) h = (ground arith, small xs (ground arith))

image-bytes : (a : ℕ) → romfs a < 256
image-bytes = bytes image (small image refl)

search_folder-IsFirstNamed_example :
    IsFirstNamed romfs (67 ∷ []) (24 ∷ 36 ∷ 48 ∷ []) (search_folder 3 romfs 24 (67 ∷ []))
search_folder-IsFirstNamed_example =
    search_folder-IsFirstNamed 3 romfs 24 (36 ∷ 48 ∷ []) (67 ∷ []) image-IsFolder (omega arith)

romfs_get_next_entry-first_enabled_example :
    romfs_get_next_entry 2 romfs 24 ≡ first_enabled romfs (36 ∷ 48 ∷ [])
romfs_get_next_entry-first_enabled_example =
    romfs_get_next_entry-first_enabled 2 romfs 24 (36 ∷ 48 ∷ []) image-bytes image-IsFolder
      (omega arith)

romfs_get_entry_data-slice_example :
    (romfs_get_entry_size romfs 24 ≡ 5)
    × (romfs_get_entry_data no_lzf 2 romfs 24 2 2 ≡ some (12 ∷ 13 ∷ []))
romfs_get_entry_data-slice_example =
    romfs_get_entry_data-slice no_lzf 2 romfs 24 2 2 (10 ∷ 11 ∷ 12 ∷ []) ((13 ∷ 14 ∷ []) ∷ []) refl
      refl (omega arith) image-IsChunks refl (omega arith) (omega arith)
