-- ===== src/Xfer/Sync/Tree.antt =====
-- The trees that `DoSdSync` of src/xfer.cpp reads, and the function itself. The extraction of a
-- `uint32_t` from a stream is the library's: a parameter, which gives the number and what follows it.
-- The two recursive functions recur on fuel, the depth of the tree; `none` is fuel run out.
use ftx.Base.{ℕ, ◌%◌, ◌^◌, zero, suc, Bool, true, false, not, ◌&&◌, ◌||◌, List, [], ◌∷◌, ◌++◌}
use ftx.Base.{Option, none, some, ◌==◌, if◌then◌else◌}
use ftx.Xfer.Sync.{SdSyncEntry, Sides, combine_saturn_path, same, base_of, copy_to_saturn}
use ftx.Xfer.Sync.{copy_to_local, sync_both}

-- `DoListStr`, and the entries of a directory of the host, none if it does not exist.
pub record Trees (S : Type 0) : Type 0 where
  pub do_list_str : List ℕ → S → (List ℕ × Bool) × S
  pub directory_entries : List ℕ → S → List SdSyncEntry
  pub extract_number : List ℕ → Option (ℕ × List ℕ)

-- `std::getline` until the stream ends.
unfoldable pub lines : List ℕ → List (List ℕ)
lines [] = []
lines (c ∷ []) = if c == 10 then [] ∷ [] else (c ∷ []) ∷ []
lines (c ∷ d ∷ cs) = let rest = lines (d ∷ cs) in if c == 10 then [] ∷ rest else prefixed c rest
  where
    prefixed : ℕ → List (List ℕ) → List (List ℕ)
    prefixed c [] = (c ∷ []) ∷ []
    prefixed c (line ∷ more) = (c ∷ line) ∷ more

abbrev pub is_blank : ℕ → Bool
is_blank c = (c == 32) || ((c == 9) || ((c == 13) || (c == 10)))

-- `isspace`, which knows two characters more.
abbrev pub is_space : ℕ → Bool
is_space c = is_blank c || ((c == 11) || (c == 12))

-- Up to the first character that does not pass, and from it on.
unfoldable pub skip : (ℕ → Bool) → List ℕ → List ℕ
skip test [] = []
skip test (c ∷ cs) = let rest = skip test cs in if test c then rest else c ∷ cs

unfoldable pub run : (ℕ → Bool) → List ℕ → List ℕ
run test [] = []
run test (c ∷ cs) = let rest = run test cs in if test c then c ∷ rest else []

-- `line_ss >> word`, and the rest of the stream.
unfoldable pub extract_word : List ℕ → Option (List ℕ × List ℕ)
extract_word text = as_word (run (λ c. not (is_space c)) text') (skip (λ c. not (is_space c)) text')
  where
    text' : List ℕ
    text' = skip is_space text

    as_word : List ℕ → List ℕ → Option (List ℕ × List ℕ)
    as_word [] rest = none
    as_word (c ∷ cs) rest = some (c ∷ cs, rest)

-- A trailing carriage return goes.
unfoldable pub without_return : List ℕ → List ℕ
without_return [] = []
without_return (c ∷ []) = if c == 13 then [] else c ∷ []
without_return (c ∷ d ∷ cs) = c ∷ without_return (d ∷ cs)

-- The name at the end of a line; one of blanks only keeps them.
unfoldable pub name_of : List ℕ → List ℕ
name_of rest = without_return (elim (skip (λ c. c == 32) rest) [ [] ↦ rest | c ∷ cs ↦ c ∷ cs ])

unfoldable pub named : Bool → ℕ → List ℕ → Option SdSyncEntry
named is_dir size name =
    if same name (46 ∷ []) || same name (46 ∷ 46 ∷ [])
    then none
    else some (record { rel_path = name; is_dir = is_dir; size = size })

-- What follows the size, the date and the time: nothing if one of them does not come.
unfoldable pub after_time : Bool → ℕ → Option (List ℕ × List ℕ) → Option SdSyncEntry
after_time is_dir size none = none
after_time is_dir size (some (time, rest)) = named is_dir size (name_of rest)

unfoldable pub after_date : Bool → ℕ → Option (List ℕ × List ℕ) → Option SdSyncEntry
after_date is_dir size none = none
after_date is_dir size (some (date, text)) = after_time is_dir size (extract_word text)

unfoldable pub after_size : Bool → Option (ℕ × List ℕ) → Option SdSyncEntry
after_size is_dir none = none
after_size is_dir (some (size, text)) = after_date is_dir size (extract_word text)

unfoldable pub and_then : Option SdSyncEntry → List SdSyncEntry → List SdSyncEntry
and_then none items = items
and_then (some it) items = it ∷ items

module _ {S : Type 0} (trees : Trees S) where
  -- After "[D]" or "[F]".
  unfoldable pub entry_of : Bool → List ℕ → Option SdSyncEntry
  entry_of is_dir text = after_size is_dir (trees.extract_number text)

  -- A line of the listing, without its leading blanks.
  unfoldable pub tagged : List ℕ → Option SdSyncEntry
  tagged (open_bracket ∷ kind ∷ close_bracket ∷ c ∷ cs) =
      if (open_bracket == 91) && ((kind == 68) && (close_bracket == 93))
      then entry_of true (c ∷ cs)
      else if (open_bracket == 91) && ((kind == 70) && (close_bracket == 93))
      then entry_of false (c ∷ cs)
      else none
  tagged line = none

  unfoldable pub entries_of : List (List ℕ) → List SdSyncEntry
  entries_of [] = []
  entries_of (line ∷ more) = and_then (tagged (skip is_blank line)) (entries_of more)

  -- `ListSaturnDirForSync`, with the listing of "-l <directory>".
  unfoldable pub list_saturn_dir_for_sync : List ℕ → S → List SdSyncEntry × S
  list_saturn_dir_for_sync saturn_dir s =
      let ((listing, ok), s') = trees.do_list_str (45 ∷ 108 ∷ 32 ∷ saturn_dir) s in
      (if ok then entries_of (lines listing) else [], s')

  -- The path of an entry below the tree's root.
  unfoldable pub below : List ℕ → List ℕ → List ℕ
  below [] name = name
  below (c ∷ cs) name = (c ∷ cs) ++ (47 ∷ name)

  unfoldable pub at : List ℕ → List ℕ → List ℕ
  at base [] = base
  at base (c ∷ cs) = combine_saturn_path base (c ∷ cs)

  -- The loop over a directory's items; `again` reads the tree below one of them.
  unfoldable pub saturn_items :
      (List ℕ → S → Option (List SdSyncEntry × S))
      → List ℕ
      → List SdSyncEntry
      → S
      → Option (List SdSyncEntry × S)
  saturn_items again current_rel [] s = some ([], s)
  saturn_items again current_rel (it ∷ items) s =
      let node : SdSyncEntry = record it {
        rel_path = below current_rel it.rel_path;
        size = if it.is_dir then 0 else it.size % 2 ^ 32;
      } in
      elim (if it.is_dir then again node.rel_path s else some ([], s)) [
        | none ↦ none
        | some (inside, s') ↦ elim (saturn_items again current_rel items s') [
          | none ↦ none
          | some (others, s'') ↦ some (node ∷ (inside ++ others), s'')
        ]
      ]

  unfoldable pub get_saturn_tree : ℕ → List ℕ → List ℕ → S → Option (List SdSyncEntry × S)
  get_saturn_tree zero base current_rel s = none
  get_saturn_tree (suc fuel) base current_rel s =
      let (items, s') = list_saturn_dir_for_sync (at base current_rel) s in
      saturn_items (get_saturn_tree fuel base) current_rel items s'

  unfoldable pub local_items :
      (List ℕ → Option (List SdSyncEntry)) → List ℕ → List SdSyncEntry → Option (List SdSyncEntry)
  local_items again current_rel [] = some []
  local_items again current_rel (it ∷ items) =
      let node : SdSyncEntry = record it {
        rel_path = below current_rel it.rel_path;
        size = if it.is_dir then 0 else it.size % 2 ^ 32;
      } in
      elim (if it.is_dir then again node.rel_path else some []) [
        | none ↦ none
        | some inside ↦ elim (local_items again current_rel items) [
          | none ↦ none
          | some others ↦ some (node ∷ (inside ++ others))
        ]
      ]

  unfoldable pub get_local_tree : ℕ → List ℕ → S → Option (List SdSyncEntry)
  get_local_tree zero current_rel s = none
  get_local_tree (suc fuel) current_rel s =
      local_items (λ rel. get_local_tree fuel rel s) current_rel
        (trees.directory_entries current_rel s)

  module _ (sides : Sides S) (fuel : ℕ) where
    unfoldable pub sync_mode_1 : List ℕ → S → Option (Bool × S)
    sync_mode_1 base s =
        if sides.local_exists s
        then elim (get_local_tree fuel [] s) [
          | none ↦ none
          | some items ↦ some (copy_to_saturn sides base items s)
        ]
        else some (false, s)

    unfoldable pub sync_mode_2 : List ℕ → S → Option (Bool × S)
    sync_mode_2 base s = elim (get_saturn_tree fuel base [] (sides.create_directories [] s)) [
      | none ↦ none
      | some (items, s') ↦ some (copy_to_local sides base items s')
    ]

    unfoldable pub sync_mode_3 : List ℕ → S → Option (Bool × S)
    sync_mode_3 base s =
        let s₁ : S = sides.create_directories [] s in
        elim (get_local_tree fuel [] s₁) [
          | none ↦ none
          | some here ↦ elim (get_saturn_tree fuel base [] s₁) [
            | none ↦ none
            | some (there, s₂) ↦ some (sync_both sides base here there s₂)
          ]
        ]

    -- `local` is whether there is a local path.
    unfoldable pub do_sd_sync : Bool → Option (List ℕ) → ℕ → S → Option (Bool × S)
    do_sd_sync local none mode s = some (false, s)
    do_sd_sync false (some saturn_sd_path) mode s = some (false, s)
    do_sd_sync true (some saturn_sd_path) mode s =
        if mode == 1
        then sync_mode_1 (base_of saturn_sd_path) s
        else if mode == 2
        then sync_mode_2 (base_of saturn_sd_path) s
        else if mode == 3
        then sync_mode_3 (base_of saturn_sd_path) s
        else some (false, s)
