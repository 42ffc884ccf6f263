-- ===== src/SatFile/Files.antt =====
-- `scf_size`, `scf_read` and the functions that change files, for each device: RomFs by its model,
-- the SD card by the functions of sdcard_fat.c. What comes from the PC by the debugger's request, and
-- from the CD-ROM by the library `cdfs`, is a parameter. In a release build the PC is the CD-ROM.
use ftx.Base.{ℕ, ◌+◌, Bool, true, false, ◌&&◌, not, Option, none, some, List, []}
use ftx.Base.{get_or, ltb, ◌==◌, if◌then◌else◌}
use ftx.Base.Words.{u32, sub32}
use ftx.RomFs.{
  Image, Lookup, has_flag, flag_folder, entry_flags, romfs_get_first_entry, romfs_get_entry_size,
}
use ftx.RomFs.{romfs_get_entry_data, romfs_check_header}
use ftx.SatFile.Names.{scf_filename_bufferize}
use ftx.SdCard.Init.{sdc_ok}
use ftx.SdCard.Fat.{FatLibrary, Drive, sdc_fat_file_size, sdc_fat_read_file, sdc_fat_write_file}
use ftx.SdCard.Fat.{sdc_fat_append_file, sdc_fat_mkdir, sdc_fat_unlink}

-- `SC_FILE_CDROM` and so on; any other number is no device.
pub data Device : Type 0 where
  cdrom : Device
  romfs : Device
  pc : Device
  sdcard : Device
  unknown : Device

-- The range that is read: a start behind the end of the file is taken for 0, and what lies behind
-- the end is left out.
unfoldable pub clamp_range : ℕ → ℕ → ℕ → ℕ × ℕ
clamp_range file_size offset size =
    let start = if ltb file_size offset then 0 else offset in
    (start, if ltb file_size (u32 (start + size)) then sub32 file_size start else size)

-- The requests that go to the PC, and the CD-ROM: what is read of a file, and its size. `P` is the
-- state of the PC's files.
pub record Remote (P : Type 0) : Type 0 where
  pub pc_size : List ℕ → P → ℕ
  pub pc_read : List ℕ → ℕ → ℕ → P → ℕ × List ℕ
  pub pc_write : List ℕ → List ℕ → P → ℕ × P
  pub pc_append : List ℕ → List ℕ → P → ℕ × P
  pub pc_mkdir : List ℕ → P → ℕ × P
  pub pc_remove : List ℕ → P → ℕ × P
  -- With `cdfs_open`: the size, and whether a read succeeds, with its bytes.
  pub cd_in_use : Bool
  pub cd_size : List ℕ → ℕ
  pub cd_read : List ℕ → ℕ → ℕ → Bool × List ℕ

pub record Files (P S : Type 0) : Type 0 where
  pub remote : P
  pub image : Option Image
  pub drive : Drive S

module _ {P S : Type 0} (release : Bool) (net : Remote P) (fat : FatLibrary S)
    (extdev_id cpld_io : ℕ) (lzf_decompress : List ℕ → ℕ → List ℕ) (fuel : ℕ) where
  -- `#ifdef SC_RELEASE`
  unfoldable pub in_release : Device → Device
  in_release cdrom = cdrom
  in_release romfs = romfs
  in_release pc = if release then cdrom else pc
  in_release sdcard = sdcard
  in_release unknown = unknown

  unfoldable pub romfs_size : Option Image → List ℕ → ℕ
  romfs_size none name = 0
  romfs_size (some image) name =
      size_at (romfs_get_first_entry fuel (some image) (λ i. get_or name i 0))
    where
      size_at : Lookup → ℕ
      size_at (Lookup.entry e) =
          if has_flag (entry_flags image e) flag_folder then 0 else romfs_get_entry_size image e
      size_at Lookup.null = 0
      size_at Lookup.endless = 0

  unfoldable pub size_on : Device → List ℕ → Files P S → ℕ × Files P S
  size_on cdrom name f = (if net.cd_in_use then net.cd_size name else 0, f)
  size_on romfs name f = (romfs_size f.image name, f)
  size_on pc name f = (net.pc_size name f.remote, f)
  size_on sdcard name f =
      let r = sdc_fat_file_size fat extdev_id cpld_io name f.drive in
      ((r.0).1, record f { drive = r.1 })
  size_on unknown name f = (0, f)

  unfoldable pub scf_size : Device → List ℕ → Files P S → ℕ × Files P S
  scf_size dev filename f = size_on (in_release dev) (scf_filename_bufferize filename) f

  -- The bytes stored to `ptr`, `none` if a chain in the image has no end. Both are 0 for a folder.
  unfoldable pub romfs_read : Option Image → List ℕ → ℕ → ℕ → ℕ × Option (List ℕ)
  romfs_read none name start len = (0, some [])
  romfs_read (some image) name start len =
      read_of (romfs_get_first_entry fuel (some image) (λ i. get_or name i 0))
    where
      read_of : Lookup → ℕ × Option (List ℕ)
      read_of (Lookup.entry e) =
          if has_flag (entry_flags image e) flag_folder
          then (0, some [])
          else (len, romfs_get_entry_data lzf_decompress fuel image e start len)
      read_of Lookup.null = (0, some [])
      read_of Lookup.endless = (0, none)

  unfoldable pub cd_read_range : List ℕ → ℕ × ℕ → ℕ × Option (List ℕ)
  cd_read_range name range =
      let r = net.cd_read name range.0 range.1 in
      if net.cd_in_use then if r.0 then (range.1, some r.1) else (0, some r.1) else (0, some [])

  unfoldable pub pc_read_range : List ℕ → ℕ × ℕ → P → ℕ × Option (List ℕ)
  pc_read_range name range p =
      let r = net.pc_read name range.0 range.1 p in
      if range.1 == 0 then (0, some []) else (r.0, some r.1)

  unfoldable pub sd_read_range : List ℕ → ℕ × ℕ → Files P S → (ℕ × Option (List ℕ)) × Files P S
  sd_read_range name range f =
      let r = sdc_fat_read_file fat extdev_id cpld_io name range.0 range.1 f.drive in
      if range.1 == 0 then ((0, some []), f) else (
        (if (r.0).0 == sdc_ok then ((r.0).1).0 else 0, some ((r.0).1).1),
        record f { drive = r.1 },
      )

  unfoldable pub read_on : Device → List ℕ → ℕ → ℕ → Files P S → (ℕ × Option (List ℕ)) × Files P S
  read_on cdrom name offset size f =
      (cd_read_range name (clamp_range (net.cd_size name) offset size), f)
  read_on romfs name offset size f =
      let range = clamp_range (romfs_size f.image name) offset size in
      (if range.1 == 0 then (0, some []) else romfs_read f.image name range.0 range.1, f)
  read_on pc name offset size f =
      (pc_read_range name (clamp_range (net.pc_size name f.remote) offset size) f.remote, f)
  read_on sdcard name offset size f =
      let s = size_on sdcard name f in sd_read_range name (clamp_range s.0 offset size) s.1
  read_on unknown name offset size f = ((0, some []), f)

  -- The value, and the bytes stored.
  unfoldable pub scf_read : Device → List ℕ → ℕ → ℕ → Files P S → (ℕ × Option (List ℕ)) × Files P S
  scf_read dev filename offset size f =
      read_on (in_release dev) (scf_filename_bufferize filename) offset size f

  -- The functions that change files give the device its request, and do nothing on the others. The
  -- SD card gets the name as it is.
  unfoldable pub change_on :
      Device → (P → ℕ × P) → (Drive S → ℕ × Drive S) → Files P S → ℕ × Files P S
  change_on cdrom on_pc on_card f = (0, f)
  change_on romfs on_pc on_card f = (0, f)
  change_on pc on_pc on_card f = let r = on_pc f.remote in (r.0, record f { remote = r.1 })
  change_on sdcard on_pc on_card f = let r = on_card f.drive in (r.0, record f { drive = r.1 })
  change_on unknown on_pc on_card f = (0, f)

  -- `*write_length` if the card's function is well, and 0 if not; or 1 and 0.
  abbrev len_if_ok : (ℕ × ℕ) × Drive S → ℕ × Drive S
  len_if_ok r = (if (r.0).0 == sdc_ok then (r.0).1 else 0, r.1)

  abbrev one_if_ok : ℕ × Drive S → ℕ × Drive S
  one_if_ok r = (if r.0 == sdc_ok then 1 else 0, r.1)

  unfoldable pub scf_write : List ℕ → Device → List ℕ → Files P S → ℕ × Files P S
  scf_write buffer dev filename =
      change_on (in_release dev) (net.pc_write (scf_filename_bufferize filename) buffer)
        (λ d. len_if_ok (sdc_fat_write_file fat extdev_id cpld_io filename buffer d))

  unfoldable pub scf_append : List ℕ → Device → List ℕ → Files P S → ℕ × Files P S
  scf_append buffer dev filename =
      change_on (in_release dev) (net.pc_append (scf_filename_bufferize filename) buffer)
        (λ d. len_if_ok (sdc_fat_append_file fat extdev_id cpld_io filename buffer d))

  unfoldable pub scf_mkdir : Device → List ℕ → Files P S → ℕ × Files P S
  scf_mkdir dev folder =
      change_on (in_release dev) (net.pc_mkdir folder)
        (λ d. one_if_ok (sdc_fat_mkdir fat extdev_id cpld_io folder d))

  unfoldable pub scf_delete : Device → List ℕ → Files P S → ℕ × Files P S
  scf_delete dev path =
      change_on (in_release dev) (net.pc_remove path)
        (λ d. one_if_ok (sdc_fat_unlink fat extdev_id cpld_io path d))

  -- `read_only` and `available` of `scf_dev_status`; `dbg_on` is the debugger's.
  unfoldable pub dev_read_only : Device → Bool
  dev_read_only cdrom = true
  dev_read_only romfs = true
  dev_read_only pc = false
  dev_read_only sdcard = false
  dev_read_only unknown = false

  unfoldable pub dev_available : Bool → Device → Files P S → Bool
  dev_available dbg_on cdrom f = net.cd_in_use
  dev_available dbg_on romfs f = romfs_check_header f.image false
  dev_available dbg_on pc f = dbg_on
  dev_available dbg_on sdcard f = not (extdev_id == 0) && not (f.drive.init_ok == 0)
  dev_available dbg_on unknown f = false
