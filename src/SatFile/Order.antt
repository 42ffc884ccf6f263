-- ===== src/SatFile/Order.antt =====
-- `scf_file_is_greater` orders the entries, and the sort of `scf_filelist` puts them in this order.
use ftx.Base.{ℕ, zero, suc, ◌+◌, ◌-◌, ◌≡◌, refl, arith, Bool, true, false}
use ftx.Base.{List, length, get_or, if◌then◌else◌, ltb, ◌==◌}
use mathlib.Core.List.{Perm}
use ftx.RomFs.{has_flag, flag_folder}
use ftx.SatFile.Listing.{FileEntry, name_is_greater, scf_file_is_greater, sort_entries, no_entry}
use ftx.SatFile.Listing.{filename_maxlen, char_rank, sc_tolower}
use ftx.SatFile.Sort.{IsSorted, NotGreater, sort_rounds-perm, sort_rounds-IsSorted}

-- One character decides, or the rest does.
decided : ℕ → ℕ → Bool → Bool
decided c1 c2 rest = if c1 == c2 then rest else ltb c2 c1

decided-chain :
    (a b c : ℕ) (ab bc ac : Bool)
    → (ab ≡ false → bc ≡ false → ac ≡ false)
    → decided a b ab ≡ false
    → decided b c bc ≡ false
    → decided a c ac ≡ false
unfolding decided
decided-chain a b c ab bc ac h p q = ground arith

decided-asym :
    (a b : ℕ) (ab ba : Bool)
    → (ab ≡ true → ba ≡ false)
    → decided a b ab ≡ true
    → decided b a ba ≡ false
unfolding decided
decided-asym a b ab ba h p = ground arith

decided-same : (a : ℕ) (rest : Bool) → rest ≡ false → decided a a rest ≡ false
unfolding decided
decided-same a rest h = ground arith

name-chain :
    (n i : ℕ) (a b c : List ℕ)
    → name_is_greater n i a b ≡ false
    → name_is_greater n i b c ≡ false
    → name_is_greater n i a c ≡ false
unfolding name_is_greater decided
name-chain zero i a b c p q = refl
name-chain (suc n) i a b c p q =
    let at : List ℕ → ℕ = λ name. char_rank (sc_tolower (get_or name i 0)) in
    decided-chain (at a) (at b) (at c) _ _ _ (name-chain n (i + 1) a b c) p q

name-asym :
    (n i : ℕ) (a b : List ℕ) → name_is_greater n i a b ≡ true → name_is_greater n i b a ≡ false
unfolding name_is_greater decided
name-asym zero i a b p = refl
name-asym (suc n) i a b p =
    let at : List ℕ → ℕ = λ name. char_rank (sc_tolower (get_or name i 0)) in
    decided-asym (at a) (at b) _ _ (name-asym n (i + 1) a b) p

name-same : (n i : ℕ) (a : List ℕ) → name_is_greater n i a a ≡ false
unfolding name_is_greater decided
name-same zero i a = refl
name-same (suc n) i a =
    decided-same (char_rank (sc_tolower (get_or a i 0))) _ (name-same n (i + 1) a)

-- Folders stand before files.
by_kind : Bool → Bool → Bool → Bool
by_kind folder1 folder2 names =
    if folder1 then if folder2 then names else false else if folder2 then true else names

kind-chain :
    (a b c ab bc ac : Bool)
    → (ab ≡ false → bc ≡ false → ac ≡ false)
    → by_kind a b ab ≡ false
    → by_kind b c bc ≡ false
    → by_kind a c ac ≡ false
unfolding by_kind
kind-chain a b c ab bc ac h p q = ground arith

kind-asym :
    (a b ab ba : Bool) → (ab ≡ true → ba ≡ false) → by_kind a b ab ≡ true → by_kind b a ba ≡ false
unfolding by_kind
kind-asym a b ab ba h p = ground arith

kind-same : (a rest : Bool) → rest ≡ false → by_kind a a rest ≡ false
unfolding by_kind
kind-same a rest h = ground arith

module _ (entries : List FileEntry) where
  abbrev pub index_is_greater : ℕ → ℕ → Bool
  index_is_greater i j = scf_file_is_greater (get_or entries i no_entry) (get_or entries j no_entry)

  abbrev folder_at : ℕ → Bool
  folder_at i = has_flag (get_or entries i no_entry).flags flag_folder

  abbrev name_at : ℕ → List ℕ
  name_at i = (get_or entries i no_entry).filename

  index-chain :
      (i j k : ℕ)
      → NotGreater index_is_greater i j
      → NotGreater index_is_greater j k
      → NotGreater index_is_greater i k
  unfolding scf_file_is_greater by_kind
  index-chain i j k p q =
      kind-chain (folder_at i) (folder_at j) (folder_at k) _ _ _
        (name-chain filename_maxlen 0 (name_at i) (name_at j) (name_at k)) p q

  index-asym : (i j : ℕ) → index_is_greater i j ≡ true → NotGreater index_is_greater j i
  unfolding scf_file_is_greater by_kind
  index-asym i j p =
      kind-asym (folder_at i) (folder_at j) _ _
        (name-asym filename_maxlen 0 (name_at i) (name_at j)) p

  index-same : (i : ℕ) → NotGreater index_is_greater i i
  unfolding scf_file_is_greater by_kind
  index-same i = kind-same (folder_at i) _ (name-same filename_maxlen 0 (name_at i))

  -- The sort of `scf_filelist` leaves a permutation of the `sort_index` values, in which no entry
  -- is greater, by `scf_file_is_greater`, than one behind it: folders come first, and then names
  -- go by their characters, without regard to case.
  pub sort_entries-IsSorted :
      (ids : List ℕ)
      → Perm (sort_entries entries ids) ids × IsSorted index_is_greater (sort_entries entries ids)
  unfolding sort_entries
  sort_entries-IsSorted ids = (
    sort_rounds-perm index_is_greater (length ids - 1) ids,
    sort_rounds-IsSorted index_is_greater index-asym index-chain index-same (length ids - 1) ids
        (omega arith),
  )
