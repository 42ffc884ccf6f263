-- ===== src/SatFile/Listing.antt =====
-- What `scf_filelist` does with the entries it has been given, but for the filter: names of folders
-- get a slash, and the entries an order.
use ftx.Base.{
  ℕ, zero, suc, ◌+◌, ◌-◌, ◌%◌, ◌^◌, Bool, true, false, ◌&&◌, ◌||◌, not, List, [], ◌∷◌, ◌++◌,
}
use ftx.Base.{length, get_or, take, ltb, leb, ◌==◌, if◌then◌else◌, bit_and}
use ftx.RomFs.{has_flag, flag_enabled, flag_folder}

-- `scdf_file_entry_t`, but for `file_index`, which is not used here.
pub record FileEntry : Type 0 where
  pub flags : ℕ
  pub filename : List ℕ
  pub sort_index : ℕ

-- `SC_FILENAME_MAXLEN`
abbrev pub filename_maxlen : ℕ
filename_maxlen = 27

abbrev pub no_entry : FileEntry
no_entry = record { flags = 0; filename = []; sort_index = 0 }

abbrev pub sc_tolower : ℕ → ℕ
sc_tolower c = if leb 65 c && leb c 90 then c - 65 + 97 else c

-- A `char` is signed: the order of the bytes from 128 on is below that of the others.
abbrev pub char_rank : ℕ → ℕ
char_rank c = (c + 2 ^ 7) % 2 ^ 8

-- `for(i=0; i<SC_FILENAME_MAXLEN; i++)`, with the rounds left.
unfoldable pub name_is_greater : ℕ → ℕ → List ℕ → List ℕ → Bool
name_is_greater zero i name1 name2 = false
name_is_greater (suc rounds) i name1 name2 =
    let c1 = char_rank (sc_tolower (get_or name1 i 0)) in
    let c2 = char_rank (sc_tolower (get_or name2 i 0)) in
    let rest = name_is_greater rounds (i + 1) name1 name2 in if c1 == c2 then rest else ltb c2 c1

unfoldable pub scf_file_is_greater : FileEntry → FileEntry → Bool
scf_file_is_greater f1 f2 =
    if has_flag f1.flags flag_folder
    then if has_flag f2.flags flag_folder
      then name_is_greater filename_maxlen 0 f1.filename f2.filename
      else false
    else if has_flag f2.flags flag_folder
    then true
    else name_is_greater filename_maxlen 0 f1.filename f2.filename

-- `for(j=i+1; j<items_count; j++)`: the index at the place `i`, and those behind it.
module _ {A : Type 0} (is_greater : A → A → Bool) where
  unfoldable pub swap_pass : A → List A → A × List A
  swap_pass idi [] = (idi, [])
  swap_pass idi (idj ∷ more) =
      let swapped = swap_pass idj more in
      let kept = swap_pass idi more in
      if is_greater idi idj then (swapped.0, idi ∷ swapped.1) else (kept.0, idj ∷ kept.1)

  -- `for(i=0; i<items_count-1; i++)`, with the rounds left.
  unfoldable pub sort_rounds : ℕ → List A → List A
  sort_rounds zero ids = ids
  sort_rounds (suc rounds) [] = []
  sort_rounds (suc rounds) (id ∷ more) =
      let pass = swap_pass id more in pass.0 ∷ sort_rounds rounds pass.1

-- The `sort_index` of the entries, as the sort leaves them.
unfoldable pub sort_entries : List FileEntry → List ℕ → List ℕ
sort_entries entries ids =
    sort_rounds
      (λ idi idj. scf_file_is_greater (get_or entries idi no_entry) (get_or entries idj no_entry))
      (length ids - 1) ids

-- A folder's name gets a slash at its beginning, and its last character makes room for it.
unfoldable pub slash_name : List ℕ → List ℕ
slash_name name =
    if not (get_or name 0 0 == 47) && not (get_or name 0 0 == 92)
    then 47 ∷ (take (filename_maxlen - 2) name ++ (0 ∷ []))
    else name

-- The name behind the slash is "." or "..".
abbrev pub is_dots : List ℕ → Bool
is_dots name =
    (get_or name 1 0 == 46)
    && ((get_or name 2 0 == 0) || ((get_or name 2 0 == 46) && (get_or name 3 0 == 0)))

unfoldable pub sanitize : FileEntry → FileEntry
sanitize e =
    if has_flag e.flags flag_enabled && has_flag e.flags flag_folder
    then (let name = slash_name e.filename in
        record e {
          filename = name;
          flags = if is_dots name then bit_and e.flags 0xFE else e.flags;
        })
    else e
