-- ===== src/SdCard/Fat.antt =====
-- The file functions of sdcard_fat.c. The FAT library in fat_io_lib, which is copied from another
-- project, is a parameter, with a state of its own.
use ftx.Base.{ℕ, Bool, false, ◌||◌, not, Option, none, some, List, []}
use ftx.Base.{length, ◌==◌, leb, if◌then◌else◌}
use ftx.SdCard.Spi.{Card}
use ftx.SdCard.Init.{sdc_init, sdc_ok, sdc_failure, sdc_nohardware, sc_ext_satcart}

-- `SDC_FATERROR`, `SDC_NOFILE`, `FAT_INIT_OK`
abbrev pub sdc_faterror : ℕ
sdc_faterror = 5

abbrev pub sdc_nofile : ℕ
sdc_nofile = 7

abbrev pub fat_init_ok : ℕ
fat_init_ok = 0

pub data Mode : Type 0 where
  rb : Mode
  wb : Mode
  ab : Mode

pub data Origin : Type 0 where
  seek_set : Origin
  seek_end : Origin

-- The functions of fat_filelib.c that are called, `fl_init` with `fl_attach_media`; a file is a
-- number, and `none` a null pointer. The library keeps its state in `fl_global`, a field of
-- `sdcard_t`; `clear_global` sets it to zero.
pub record FatLibrary (S : Type 0) : Type 0 where
  pub clear_global : S → S
  pub fl_attach_media : S → ℕ × S
  pub fl_fopen : List ℕ → Mode → S → Option ℕ × S
  pub fl_fseek : ℕ → ℕ → Origin → S → ℕ × S
  pub fl_ftell : ℕ → S → ℕ
  pub fl_fread : ℕ → ℕ → S → List ℕ × S
  pub fl_fwrite : ℕ → List ℕ → S → ℕ × S
  pub fl_fclose : ℕ → S → S
  pub fl_remove : List ℕ → S → S
  pub fl_createdirectory : List ℕ → S → S

-- The card, the fields of `sdcard_t` for the library, `REG_SD_REINSERT`, and the library's state.
pub record Drive (S : Type 0) : Type 0 where
  pub card : Card
  pub init_ok : ℕ
  pub init_status : ℕ
  pub reinserted : Bool
  pub disk : S

module _ {S : Type 0} (fat : FatLibrary S) (extdev_id cpld_io : ℕ) where
  -- `sdc_init` begins with a `memset` of all of `sdcard_t`, and resets the mark of a new card once it
  -- has found one.
  unfoldable pub sdc_fat_init : Drive S → ℕ × Drive S
  sdc_fat_init d =
      let r = sdc_init extdev_id cpld_io d.card in
      let d1 = record d {
        card = r.1;
        init_ok = 0;
        init_status = r.0;
        reinserted = if leb sdc_nohardware r.0 then d.reinserted else false;
        disk = fat.clear_global d.disk;
      } in
      let a = fat.fl_attach_media d1.disk in
      if not (r.0 == sdc_ok)
      then (r.0, d1)
      else if not (a.0 == fat_init_ok)
      then (a.0, record d1 { init_status = a.0; disk = a.1 })
      else (sdc_ok, record d1 { init_ok = 1; disk = a.1 })

  unfoldable pub sdc_is_reinsert : Drive S → Bool
  sdc_is_reinsert d = if not (extdev_id == sc_ext_satcart) then false else d.reinserted

  -- The lines that all file functions begin with.
  unfoldable pub reinitialize : Drive S → Drive S
  reinitialize d = if (d.init_ok == 0) || sdc_is_reinsert d then (sdc_fat_init d).1 else d

  unfoldable pub with_card : {R : Type 0} → R → (S → R × S) → Drive S → R × Drive S
  with_card failed body d =
      let e = reinitialize d in
      let r = body e.disk in if e.init_ok == 0 then (failed, e) else (r.0, record e { disk = r.1 })

  -- A file is opened, and closed behind `body` whatever that gives.
  unfoldable pub with_file : {R : Type 0} → R → List ℕ → Mode → (ℕ → S → R × S) → S → R × S
  with_file missing filename mode body s =
      let o = fat.fl_fopen filename mode s in
      elim o.0 [
        | none ↦ (missing, o.1)
        | some file ↦ let r = body file o.1 in (r.0, fat.fl_fclose file r.1)
      ]

  unfoldable pub size_of : ℕ → S → (ℕ × ℕ) × S
  size_of file s =
      let k = fat.fl_fseek file 0 seek_end s in
      if not (k.0 == 0) then ((sdc_faterror, 0), k.1) else ((sdc_ok, fat.fl_ftell file k.1), k.1)

  -- The status, and `*filesize`.
  unfoldable pub sdc_fat_file_size : List ℕ → Drive S → (ℕ × ℕ) × Drive S
  sdc_fat_file_size filename =
      with_card (sdc_failure, 0) (with_file (sdc_nofile, 0) filename rb size_of)

  unfoldable pub read_at : ℕ → ℕ → ℕ → S → (ℕ × (ℕ × List ℕ)) × S
  read_at offset len file s =
      let k = fat.fl_fseek file offset seek_set s in
      let bytes = fat.fl_fread file len k.1 in
      if not (k.0 == 0) then ((sdc_faterror, (0, [])), k.1) else ((sdc_ok, (len, bytes.0)), bytes.1)

  -- The status, `*read_length`, and the bytes stored to `buffer`.
  unfoldable pub sdc_fat_read_file : List ℕ → ℕ → ℕ → Drive S → (ℕ × (ℕ × List ℕ)) × Drive S
  sdc_fat_read_file filename offset len =
      with_card (sdc_failure, (0, []))
        (with_file (sdc_nofile, (0, [])) filename rb (read_at offset len))

  unfoldable pub write_all : List ℕ → ℕ → S → (ℕ × ℕ) × S
  write_all buffer file s =
      let w = fat.fl_fwrite file buffer s in
      if not (w.0 == length buffer) then ((sdc_faterror, 0), w.1) else ((sdc_ok, w.0), w.1)

  -- The status, and `*write_length`.
  unfoldable pub sdc_fat_write_file : List ℕ → List ℕ → Drive S → (ℕ × ℕ) × Drive S
  sdc_fat_write_file filename buffer =
      with_card (sdc_failure, 0)
        (λ s. with_file (sdc_nofile, 0) filename wb (write_all buffer) (fat.fl_remove filename s))

  unfoldable pub sdc_fat_append_file : List ℕ → List ℕ → Drive S → (ℕ × ℕ) × Drive S
  sdc_fat_append_file filename buffer =
      with_card (sdc_failure, 0) (with_file (sdc_nofile, 0) filename ab (write_all buffer))

  unfoldable pub sdc_fat_mkdir : List ℕ → Drive S → ℕ × Drive S
  sdc_fat_mkdir directory =
      with_card sdc_failure (λ s. (sdc_ok, fat.fl_createdirectory directory s))

  unfoldable pub sdc_fat_unlink : List ℕ → Drive S → ℕ × Drive S
  sdc_fat_unlink path = with_card sdc_failure (λ s. (sdc_ok, fat.fl_remove path s))
