-- ===== src/SatFile/Tests.antt =====
-- Files for the theorems to run on.
use ftx.Base.{◌≢◌}
use ftx.Base.{if◌then◌else◌, ◌||◌, ◌<◌}
use ftx.RomFs.{has_flag, flag_folder}
use ftx.SatFile.Filter.{apply_filter, IsExt}
use ftx.SatFile.Filtered.{has_ext, apply_filter_lem}
use ftx.Base.{ℕ, ◌≡◌, refl, arith, true, false}
use ftx.Base.{none, some, List, [], ◌∷◌, All, get_or}
use mathlib.Core.List.{Perm}
use ftx.RomFs.{
  romfs_get_first_entry, Lookup, follow_path, search_folder, romfs_check_header, entry_matches,
  compare_filename,
}
use ftx.RomFs.Tests.{no_lzf, image-IsChunks}
use ftx.SdCard.FatTests.{counting, ready}
use ftx.SatFile.Names.{
  scf_get_filename, scf_parent_path, scf_filename_bufferize, scf_compare_extension, fix_slashes,
}
use ftx.SatFile.Paths.{IsChar, scf_get_filename-scf_parent_path}
use ftx.SatFile.Listing.{FileEntry, sort_entries}
use ftx.SatFile.Sort.{IsSorted}
use ftx.SatFile.Order.{index_is_greater, sort_entries-IsSorted}
use ftx.SatFile.Files.{romfs, Files, Remote, clamp_range, scf_read, scf_size}
use ftx.SatFile.Reads.{holding, scf_read-slice}

-- A range that wraps is not cut: 2^32 - 1 bytes of a file of 5, from 2 on.
wrapped : clamp_range 5 2 4294967295 ≡ (2, 4294967295)
unfolding clamp_range
wrapped = refl

-- "A/B" and "C.D", with a backslash between.
abbrev dir_chars : All IsChar (65 ∷ 47 ∷ 66 ∷ [])
dir_chars =
    ((λ e. absurd (omega arith)), ((λ e. absurd (omega arith)), ((λ e. absurd (omega arith)), tt)))

abbrev name_chars : All IsChar (67 ∷ 46 ∷ 68 ∷ [])
name_chars =
    ((λ e. absurd (omega arith)), ((λ e. absurd (omega arith)), ((λ e. absurd (omega arith)), tt)))

scf_get_filename-scf_parent_path_example :
    (scf_get_filename (65 ∷ 47 ∷ 66 ∷ 92 ∷ 67 ∷ 46 ∷ 68 ∷ 0 ∷ []) ≡ 67 ∷ 46 ∷ 68 ∷ 0 ∷ [])
    × (scf_parent_path (65 ∷ 47 ∷ 66 ∷ 92 ∷ 67 ∷ 46 ∷ 68 ∷ 0 ∷ [])
        ≡ fix_slashes (65 ∷ 47 ∷ 66 ∷ []))
scf_get_filename-scf_parent_path_example =
    scf_get_filename-scf_parent_path (65 ∷ 47 ∷ 66 ∷ []) (67 ∷ 46 ∷ 68 ∷ []) [] 92 2 refl dir_chars
      name_chars (refl, (refl, (refl, tt))) refl

-- "b.bin" is ".BIN" and no "TXT".
same_extension :
    scf_compare_extension (98 ∷ 46 ∷ 98 ∷ 105 ∷ 110 ∷ 0 ∷ []) (46 ∷ 66 ∷ 73 ∷ 78 ∷ 0 ∷ []) ≡ true
unfolding scf_compare_extension ftx.SatFile.Names.extension ftx.SatFile.Names.behind_dot
same_extension = refl

other_extension :
    scf_compare_extension (98 ∷ 46 ∷ 98 ∷ 105 ∷ 110 ∷ 0 ∷ []) (84 ∷ 88 ∷ 84 ∷ 0 ∷ []) ≡ false
unfolding scf_compare_extension ftx.SatFile.Names.extension ftx.SatFile.Names.behind_dot
other_extension = refl

-- The files "b" and "A", and the folder "/z".
abbrev three_entries : List FileEntry
three_entries =
    record { flags = 1; filename = 98 ∷ []; sort_index = 0 }
    ∷ record { flags = 1; filename = 65 ∷ []; sort_index = 1 }
    ∷ record { flags = 3; filename = 47 ∷ 122 ∷ []; sort_index = 2 }
    ∷ []

sorted : sort_entries three_entries (0 ∷ 1 ∷ 2 ∷ []) ≡ 2 ∷ 1 ∷ 0 ∷ []
unfolding sort_entries ftx.SatFile.Listing.sort_rounds ftx.SatFile.Listing.swap_pass
    ftx.SatFile.Listing.scf_file_is_greater ftx.SatFile.Listing.name_is_greater
sorted = refl

sort_entries-IsSorted_example :
    Perm (sort_entries three_entries (0 ∷ 1 ∷ 2 ∷ [])) (0 ∷ 1 ∷ 2 ∷ [])
    × IsSorted (index_is_greater three_entries) (sort_entries three_entries (0 ∷ 1 ∷ 2 ∷ []))
sort_entries-IsSorted_example = sort_entries-IsSorted three_entries (0 ∷ 1 ∷ 2 ∷ [])

-- A PC without files.
abbrev no_remote : Remote ℕ
no_remote = record {
  pc_size = λ name p. 0;
  pc_read = λ name offset size p. (0, []);
  pc_write = λ name buffer p. (0, p);
  pc_append = λ name buffer p. (0, p);
  pc_mkdir = λ name p. (0, p);
  pc_remove = λ name p. (0, p);
  cd_in_use = false;
  cd_size = λ name. 0;
  cd_read = λ name offset size. (false, []);
}

abbrev some_files : Files ℕ ℕ
some_files = record { remote = 0; image = none; drive = ready }

-- The file A of the image.
finds_a :
    romfs_get_first_entry 3
      (some ftx.RomFs.Tests.romfs)
      (λ i. get_or (scf_filename_bufferize (65 ∷ 0 ∷ [])) i 0)
    ≡ Lookup.entry 24
unfolding romfs_get_first_entry follow_path search_folder entry_matches compare_filename
    romfs_check_header scf_filename_bufferize ftx.SatFile.Names.copy_name
finds_a = refl

scf_read-slice_example :
    (scf_read false no_remote counting 3 4 no_lzf 3 romfs
        (65 ∷ 0 ∷ [])
        2
        9
        (holding ftx.RomFs.Tests.romfs some_files)
      ≡ ((3, some (12 ∷ 13 ∷ 14 ∷ [])), holding ftx.RomFs.Tests.romfs some_files))
    × (scf_size false no_remote counting 3 4 no_lzf 3 romfs
          (65 ∷ 0 ∷ [])
          (holding ftx.RomFs.Tests.romfs some_files)
        ≡ (5, holding ftx.RomFs.Tests.romfs some_files))
scf_read-slice_example =
    scf_read-slice false no_remote counting 3 4 no_lzf 3 ftx.RomFs.Tests.romfs (65 ∷ 0 ∷ [])
      some_files 24 2 9 (10 ∷ 11 ∷ 12 ∷ []) ((13 ∷ 14 ∷ []) ∷ []) finds_a refl refl (omega arith)
      image-IsChunks refl (omega arith) (omega arith) (omega arith)

-- The filter "BIN,CUE", and the file "b".
abbrev bin_cue : List (List ℕ)
bin_cue = (67 ∷ 85 ∷ 69 ∷ []) ∷ []

abbrev a_file : FileEntry
a_file = record { flags = 1; filename = 98 ∷ []; sort_index = 0 }

ext_char : (c : ℕ) → 44 < c → (c ≢ 44) × (c ≢ 0)
ext_char c h = ((λ e. absurd (omega arith)), (λ e. absurd (omega arith)))

bin_cue_exts : All IsExt ((66 ∷ 73 ∷ 78 ∷ []) ∷ bin_cue)
bin_cue_exts = (
  (three_chars 66 73 78 (omega arith) (omega arith) (omega arith), (omega arith, omega arith)),
  (
    (three_chars 67 85 69 (omega arith) (omega arith) (omega arith), (omega arith, omega arith)),
    tt,
  ),
)
  where
    three_chars :
        (a b c : ℕ) → 44 < a → 44 < b → 44 < c → All (λ c. (c ≢ 44) × (c ≢ 0)) (a ∷ b ∷ c ∷ [])
    three_chars a b c p q r = (ext_char a p, (ext_char b q, (ext_char c r, tt)))

apply_filter_lem_example : apply_filter (66 ∷ 73 ∷ 78 ∷ 44 ∷ 67 ∷ 85 ∷ 69 ∷ 0 ∷ []) a_file ≡ (
    if has_flag 1 flag_folder || has_ext ((66 ∷ 73 ∷ 78 ∷ []) ∷ bin_cue) (98 ∷ [])
    then a_file
    else record a_file { flags = 0 })
apply_filter_lem_example =
    apply_filter_lem (66 ∷ 73 ∷ 78 ∷ []) bin_cue [] a_file bin_cue_exts (omega arith)
