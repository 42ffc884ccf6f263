-- ===== src/SdCard/FatTests.antt =====
-- A FAT library to run the file functions on: each file it has holds the same three bytes, and its
-- state is the number of files open.
use ftx.Base.{ℕ, suc, ◌-◌, ◌≡◌, refl, false, Option, none, some, List, [], ◌∷◌}
use ftx.Base.{take, length}
use ftx.SdCard.Tests.{blank}
use ftx.SdCard.Fat.{FatLibrary, Drive, Mode, sdc_fat_read_file}

abbrev three : List ℕ
three = 7 ∷ 8 ∷ 9 ∷ []

-- A file with an empty name is not there.
abbrev open_named : List ℕ → ℕ → Option ℕ × ℕ
open_named [] s = (none, s)
open_named (c ∷ cs) s = (some 0, suc s)

abbrev pub counting : FatLibrary ℕ
counting = record {
  clear_global = λ s. 0;
  fl_attach_media = λ s. (0, 0);
  fl_fopen = λ name mode s. open_named name s;
  fl_fseek = λ file offset origin s. (0, s);
  fl_ftell = λ file s. 3;
  fl_fread = λ file len s. (take len three, s);
  fl_fwrite = λ file buffer s. (length buffer, s);
  fl_fclose = λ file s. s - 1;
  fl_remove = λ name s. s;
  fl_createdirectory = λ name s. s;
}

abbrev pub ready : Drive ℕ
ready = record { card = blank; init_ok = 1; init_status = 1; reinserted = false; disk = 4 }

-- A file shorter than what is asked for: the length reported is still that asked for.
read_short : (sdc_fat_read_file counting 3 4 (65 ∷ []) 0 9 ready).0 ≡ (1, (9, three))
unfolding sdc_fat_read_file ftx.SdCard.Fat.with_card ftx.SdCard.Fat.with_file ftx.SdCard.Fat.read_at
    ftx.SdCard.Fat.reinitialize ftx.SdCard.Fat.sdc_is_reinsert
read_short = refl
