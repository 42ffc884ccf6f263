-- ===== src/SatFile/Reads.antt =====
-- What a read gives, and which devices can be changed.
use ftx.Base.{ℕ, zero, suc, ◌+◌, ◌-◌, ◌^◌, ◌≤◌, ◌<◌, min, ◌≡◌, refl, sym, ap, ◌∙◌, arith, inl, inr}
use ftx.Base.{Bool, true, false, Option, some, List, [], ◌∷◌, length, take, drop, get_or}
use ftx.Base.{
  if◌then◌else◌, length_zero, length-take, length-drop, eqb_of_ne, ◌==◌, split_lt, ltb, lt→ltb,
  ltb_of_le,
}
use native.Mathlib.Nat.{mod-eq_of_lt}
use ftx.Base.Words.{u32}
use mathlib.Core.Bool.{false≢true}
use ftx.RomFs.{
  Image, Lookup, has_flag, flag_folder, flag_compressed, entry_flags, entry_offset, word32,
}
use ftx.RomFs.{romfs_get_first_entry, romfs_get_entry_size, romfs_get_entry_data}
use ftx.RomFs.Slice.{IsChunks}
use ftx.RomFs.Ranges.{join}
use ftx.RomFs.Entries.{romfs_get_entry_data-slice}
use ftx.SatFile.Names.{scf_filename_bufferize}
use ftx.SatFile.Files.{
  Device, cdrom, romfs, pc, sdcard, unknown, Files, Remote, clamp_range, in_release, romfs_size,
  romfs_read, read_on, size_on,
}
use ftx.SatFile.Files.{
  scf_size, scf_read, scf_write, scf_append, scf_mkdir, scf_delete, change_on, dev_read_only,
}
use ftx.SdCard.Fat.{FatLibrary}

-- A range that does not wrap, of a file, from a place in it on: the part of it that the file has.
clamp_inside :
    (file_size offset size : ℕ)
    → offset + size < 2 ^ 32
    → offset ≤ file_size
    → clamp_range file_size offset size ≡ (offset, min size (file_size - offset))
unfolding clamp_range
clamp_inside file_size offset size h le =
    let start : ltb file_size offset ≡ false = ltb_of_le file_size offset le in
    let no_wrap : u32 (offset + size) ≡ offset + size = mod-eq_of_lt h in
    rw start (
      rw no_wrap (elim (split_lt file_size (offset + size)) [
        | inl over ↦
            let e : ltb file_size (offset + size) ≡ true = lt→ltb file_size (offset + size) over in
            rw e (ap (λ n. (offset, n)) (omega arith))
        | inr fits ↦
            let e : ltb file_size (offset + size) ≡ false =
              ltb_of_le file_size (offset + size) fits in
            rw e (ap (λ n. (offset, n)) (omega arith))
      ]))

-- Of any range that ends below 2^32, what is read lies in the file, and is no more than asked for.
pub clamp_range_lem :
    (file_size offset size : ℕ)
    → file_size < 2 ^ 32
    → offset + size < 2 ^ 32
    → let r = clamp_range file_size offset size in (r.0 + r.1 ≤ file_size) × (r.1 ≤ size)
unfolding clamp_range
clamp_range_lem file_size offset size big h = ground arith

take-min : {A : Type 0} (n : ℕ) (xs : List A) → take (min n (length xs)) xs ≡ take n xs
take-min zero xs = let e : min 0 (length xs) ≡ 0 = omega arith in rw e refl
take-min (suc n) [] = let e : min (suc n) 0 ≡ 0 = omega arith in rw e refl
take-min (suc n) (x ∷ xs) =
    let e : min (suc n) (suc (length xs)) ≡ suc (min n (length xs)) = omega arith in
    rw e (ap (λ l. x ∷ l) (take-min n xs))

-- Nothing is read where no byte is left.
read_part :
    (n : ℕ) (bytes : List ℕ) (stored : Option (List ℕ))
    → stored ≡ some bytes
    → length bytes ≡ n
    → ◌≡◌ {A = ℕ × Option (List ℕ)} (if n == 0 then (0, some []) else (n, stored)) (n, some bytes)
read_part zero bytes stored e none_left = ap (λ l. (0, some l)) (sym (length_zero bytes none_left))
read_part (suc n) bytes stored e some_left =
    let more : (suc n == 0) ≡ false = eqb_of_ne (suc n) 0 (λ z. absurd (omega arith)) in
    rw more (ap (λ t. (suc n, t)) e)

abbrev pub holding : {P S : Type 0} → Image → Files P S → Files P S
holding image f = record f { image = some image }

module _ {P S : Type 0} (release : Bool) (net : Remote P) (fat : FatLibrary S)
    (extdev_id cpld_io : ℕ) (lzf_decompress : List ℕ → ℕ → List ℕ) (fuel : ℕ) where
  -- A compressed file of the image that `filename` leads to, below 4 GB, whose header holds its
  -- length, stored as chunks of which none is empty or above 8 KiB, with fuel for each: `scf_read`
  -- on RomFs, of a range that does not wrap and begins in the file, gives the number of bytes of
  -- it that the file has, and stores those; `scf_size` gives the file's length.
  pub scf_read-slice :
      (image : Image) (filename : List ℕ) (f : Files P S) (e offset size : ℕ) (piece : List ℕ)
      (pieces : List (List ℕ))
      → romfs_get_first_entry fuel (some image) (λ i. get_or (scf_filename_bufferize filename) i 0)
        ≡ Lookup.entry e
      → has_flag (entry_flags image e) flag_folder ≡ false
      → has_flag (entry_flags image e) flag_compressed ≡ true
      → length (piece ∷ pieces) ≤ fuel
      → IsChunks lzf_decompress image (entry_offset image e + 4) (piece ∷ pieces)
      → word32 image (entry_offset image e) ≡ length (join (piece ∷ pieces))
      → length (join (piece ∷ pieces)) < 2 ^ 32
      → offset + size < 2 ^ 32
      → offset ≤ length (join (piece ∷ pieces))
      → let content = join (piece ∷ pieces) in
        (scf_read release net fat extdev_id cpld_io lzf_decompress fuel romfs filename offset size
            (holding image f)
          ≡ (
            (min size (length content - offset), some (take size (drop offset content))),
            holding image f,
          ))
        × (scf_size release net fat extdev_id cpld_io lzf_decompress fuel romfs filename
              (holding image f)
            ≡ (length content, holding image f))
  unfolding scf_read scf_size read_on size_on in_release romfs_size romfs_read
  scf_read-slice image filename f e offset size piece pieces found file packed enough chunks len
        fits ends inside =
      rw found (
        rw file (
          rw whole.0 (
            rw (clamp_inside L offset size ends inside) (
              ap (λ r. (r, holding image f))
                  (read_part (min size (L - offset)) (take size (drop offset content)) _
                    (whole.1 ∙ ap some part) part_len),
              refl,
            ))))
    where
      content : List ℕ
      content = join (piece ∷ pieces)

      L : ℕ
      L = length content

      whole :
          (romfs_get_entry_size image e ≡ L)
          × (romfs_get_entry_data lzf_decompress fuel image e offset (min size (L - offset))
              ≡ some (take (min size (L - offset)) (drop offset content)))
      whole =
          romfs_get_entry_data-slice lzf_decompress fuel image e offset (min size (L - offset))
            piece pieces file packed enough chunks len fits (omega arith)

      part : take (min size (L - offset)) (drop offset content) ≡ take size (drop offset content)
      part =
          ap (λ n. take (min size n) (drop offset content)) (sym (length-drop offset content))
          ∙ take-min size (drop offset content)

      part_len : length (take size (drop offset content)) ≡ min size (L - offset)
      part_len = length-take size (drop offset content) ∙ ap (min size) (length-drop offset content)

  -- On a device that `scf_dev_status` calls read-only, the functions that change files return 0 and
  -- change nothing.
  pub dev_read_only_lem :
      (dev : Device) (buffer filename : List ℕ) (f : Files P S)
      → dev_read_only release net fat extdev_id cpld_io lzf_decompress fuel dev ≡ true
      → (scf_write release net fat extdev_id cpld_io lzf_decompress fuel buffer dev filename f
          ≡ (0, f))
        × ((scf_append release net fat extdev_id cpld_io lzf_decompress fuel buffer dev filename f
              ≡ (0, f))
            × ((scf_mkdir release net fat extdev_id cpld_io lzf_decompress fuel dev filename f
                  ≡ (0, f))
                × (scf_delete release net fat extdev_id cpld_io lzf_decompress fuel dev filename f
                    ≡ (0, f))))
  unfolding scf_write scf_append scf_mkdir scf_delete change_on in_release dev_read_only
  dev_read_only_lem cdrom buffer filename f h = (refl, (refl, (refl, refl)))
  dev_read_only_lem romfs buffer filename f h = (refl, (refl, (refl, refl)))
  dev_read_only_lem pc buffer filename f h = absurd (false≢true h)
  dev_read_only_lem sdcard buffer filename f h = absurd (false≢true h)
  dev_read_only_lem unknown buffer filename f h = absurd (false≢true h)
