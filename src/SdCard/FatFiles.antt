-- ===== src/SdCard/FatFiles.antt =====
-- The file functions leave no file of theirs open, whatever the card and the FAT library answer.
use ftx.Base.{ℕ, suc, ◌≡◌, none, some, List}
use ftx.Base.{◌==◌, ◌||◌, ◌&&◌, if◌then◌else◌}
use ftx.SdCard.Init.{sc_ext_satcart}
use ftx.SdCard.Fat.{FatLibrary, Drive, Mode, Origin}

-- What the library says of the number of files open: none is with its state zeroed and behind
-- `fl_init`, which empties the list of them; `fl_fopen` adds one if it gives a file, `fl_fclose` takes
-- one away, and nothing else changes it.
pub record CountsFiles {S : Type 0} (fat : FatLibrary S) (open_files : S → ℕ) : Type 0 where
  pub clear_none : (s : S) → open_files (fat.clear_global s) ≡ 0
  pub attach_none : (s : S) → open_files (fat.fl_attach_media s).1 ≡ 0
  pub opened :
      (name : List ℕ) (mode : Mode) (s : S) (file : ℕ)
      → (fat.fl_fopen name mode s).0 ≡ some file
      → open_files (fat.fl_fopen name mode s).1 ≡ suc (open_files s)
  pub missing :
      (name : List ℕ) (mode : Mode) (s : S)
      → (fat.fl_fopen name mode s).0 ≡ none
      → open_files (fat.fl_fopen name mode s).1 ≡ open_files s
  pub seek_same :
      (file offset : ℕ) (origin : Origin) (s : S)
      → open_files (fat.fl_fseek file offset origin s).1 ≡ open_files s
  pub read_same : (file len : ℕ) (s : S) → open_files (fat.fl_fread file len s).1 ≡ open_files s
  pub write_same :
      (file : ℕ) (buffer : List ℕ) (s : S)
      → open_files (fat.fl_fwrite file buffer s).1 ≡ open_files s
  pub closed : (file n : ℕ) (s : S) → open_files s ≡ suc n → open_files (fat.fl_fclose file s) ≡ n
  pub remove_same : (name : List ℕ) (s : S) → open_files (fat.fl_remove name s) ≡ open_files s
  pub mkdir_same :
      (name : List ℕ) (s : S) → open_files (fat.fl_createdirectory name s) ≡ open_files s

module _ {S : Type 0} (fat : FatLibrary S) (open_files : S → ℕ)
    (counts : CountsFiles fat open_files) (extdev_id cpld_io : ℕ) where
  -- A step on the library's state leaves as many files open as there were.
  abbrev Even : {R : Type 0} → (S → R × S) → Type 0
  Even f = (s : S) → open_files (f s).1 ≡ open_files s

  -- The files open behind a file function: none if the card is initialized again, because it is not
  -- or the cartridge tells of another one, and else as many as before.
  abbrev pub left_open : Drive S → ℕ
  left_open d =
      if (d.init_ok == 0) || ((extdev_id == sc_ext_satcart) && d.reinserted)
      then 0
      else open_files d.disk

  abbrev pub SameOpen : Drive S → Drive S → Type 0
  SameOpen d e = open_files e.disk ≡ left_open d
