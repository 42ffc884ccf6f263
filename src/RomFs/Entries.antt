-- ===== src/RomFs/Entries.antt =====
-- The three views of a file's data: its size, its bytes and the pointer to them.
use ftx.Base.{ℕ, ◌+◌, ◌^◌, ◌≤◌, ◌<◌, ◌≡◌, refl, ap, arith, true, false}
use ftx.Base.{List, ◌∷◌, length, take, drop, Option, some}
use ftx.Compress.{bytes_at}
use ftx.RomFs.{Image, entry_flags, entry_offset, has_flag, flag_folder}
use ftx.RomFs.{flag_compressed, romfs_get_entry_size, romfs_get_entry_data, romfs_get_entry_ptr}
use ftx.RomFs.{romfs_decomp_getsize, word32}
use ftx.RomFs.Slice.{IsChunks, romfs_decomp_exec-slice}
use ftx.RomFs.Ranges.{join}

-- For a file that is not compressed, the pointer and length of `romfs_get_entry_ptr` are where
-- `romfs_get_entry_data` reads the whole file from and what `romfs_get_entry_size` says.
pub romfs_get_entry_ptr-data :
    (lzf_decompress : List ℕ → ℕ → List ℕ) (fuel : ℕ) (romfs : Image) (e : ℕ)
    → has_flag (entry_flags romfs e) flag_folder ≡ false
    → has_flag (entry_flags romfs e) flag_compressed ≡ false
    → (at : ℕ) × (◌≡◌ {A = Option ℕ × ℕ}
          (romfs_get_entry_ptr romfs e)
          (some at, romfs_get_entry_size romfs e)
        × ((size : ℕ)
            → romfs_get_entry_data lzf_decompress fuel romfs e 0 size
              ≡ some (bytes_at romfs at size)))
unfolding romfs_get_entry_ptr romfs_get_entry_size romfs_get_entry_data
romfs_get_entry_ptr-data lzf_decompress fuel romfs e file plain =
    rw (file, plain)
      (entry_offset romfs e, (refl, λ size. ap (λ at. some (bytes_at romfs at size)) (omega arith)))

-- For a compressed file below 4 GB, whose header holds its length, stored as chunks of which none is
-- empty or above 8 KiB, and a range that does not wrap: `romfs_get_entry_size` is the file's length
-- and `romfs_get_entry_data` gives the bytes asked for, or those of them there are; fuel for each
-- chunk is enough.
pub romfs_get_entry_data-slice :
    (lzf_decompress : List ℕ → ℕ → List ℕ) (fuel : ℕ) (romfs : Image) (e offset size : ℕ)
    (piece : List ℕ) (pieces : List (List ℕ))
    → has_flag (entry_flags romfs e) flag_folder ≡ false
    → has_flag (entry_flags romfs e) flag_compressed ≡ true
    → length (piece ∷ pieces) ≤ fuel
    → IsChunks lzf_decompress romfs (entry_offset romfs e + 4) (piece ∷ pieces)
    → word32 romfs (entry_offset romfs e) ≡ length (join (piece ∷ pieces))
    → length (join (piece ∷ pieces)) < 2 ^ 32
    → offset + size < 2 ^ 32
    → (romfs_get_entry_size romfs e ≡ length (join (piece ∷ pieces)))
      × (romfs_get_entry_data lzf_decompress fuel romfs e offset size
          ≡ some (take size (drop offset (join (piece ∷ pieces)))))
unfolding romfs_get_entry_size romfs_get_entry_data romfs_decomp_getsize
romfs_get_entry_data-slice lzf_decompress fuel romfs e offset size piece pieces file packed h chunks
      len fits ends =
    rw (file, packed)
      (
        len,
        ap (λ r. r.1)
            (romfs_decomp_exec-slice lzf_decompress romfs fuel (entry_offset romfs e) offset size
              piece pieces h chunks len fits ends),
      )
