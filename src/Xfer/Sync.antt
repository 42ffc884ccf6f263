-- ===== src/Xfer/Sync.antt =====
-- `DoSdSync` of src/xfer.cpp, which copies a directory tree between the host and the console's card.
-- The host's file system and the functions that serve one file or directory are parameters: `Sides`,
-- over a state of its own. A path is the list of its characters; one on the host is relative to the
-- directory that is synchronized, which `[]` is itself.
pub mod Tree
pub mod Unlisted
pub mod Paths
pub mod Plan
use ftx.Base.{ℕ, zero, suc, Bool, true, false, not, ◌&&◌, List, [], ◌∷◌, ◌++◌, Option, none, some}
use ftx.Base.{length, ltb, ◌==◌, if◌then◌else◌}

-- `mtime`, which nothing reads, is left out.
pub record SdSyncEntry : Type 0 where
  pub rel_path : List ℕ
  pub is_dir : Bool
  pub size : ℕ

-- `create_directories` and `mkdir` may fail, which the code does not look at.
pub record Sides (S : Type 0) : Type 0 where
  pub local_exists : S → Bool
  pub create_directories : List ℕ → S → S
  pub mkdir : List ℕ → S → S
  pub sd_upload : List ℕ → List ℕ → S → Bool × S
  pub sd_download : List ℕ → List ℕ → S → Bool × S

-- `success_count` and `fail_count`.
pub record Tally : Type 0 where
  pub succeeded : ℕ
  pub failures : ℕ

unfoldable pub count : Bool → Tally → Tally
count true t = record t { succeeded = suc t.succeeded }
count false t = record t { failures = suc t.failures }

abbrev pub none_yet : Tally
none_yet = record { succeeded = 0; failures = 0 }

-- `if (base == "/") return "/" + rel; if (base ends in '/') return base + rel; return base + "/" + rel`
unfoldable pub combine_saturn_path : List ℕ → List ℕ → List ℕ
combine_saturn_path [] rel = 47 ∷ rel
combine_saturn_path (c ∷ []) rel = if c == 47 then c ∷ rel else c ∷ 47 ∷ rel
combine_saturn_path (c ∷ d ∷ cs) rel = c ∷ combine_saturn_path (d ∷ cs) rel

-- The last character goes, if it is a '/'.
unfoldable pub without_slash : List ℕ → List ℕ
without_slash [] = []
without_slash (c ∷ []) = if c == 47 then [] else c ∷ []
without_slash (c ∷ d ∷ cs) = c ∷ without_slash (d ∷ cs)

-- `saturn_base`
unfoldable pub base_of : List ℕ → List ℕ
base_of [] = 47 ∷ []
base_of (c ∷ []) = if c == 47 then c ∷ [] else 47 ∷ c ∷ []
base_of (c ∷ d ∷ cs) =
    if c == 47 then without_slash (c ∷ d ∷ cs) else without_slash (47 ∷ c ∷ d ∷ cs)

-- `std::string`'s order and equality.
unfoldable pub before : List ℕ → List ℕ → Bool
before xs [] = false
before [] (y ∷ ys) = true
before (x ∷ xs) (y ∷ ys) =
    let rest = before xs ys in if ltb x y then true else if ltb y x then false else rest

unfoldable pub same : List ℕ → List ℕ → Bool
same [] [] = true
same [] (y ∷ ys) = false
same (x ∷ xs) [] = false
same (x ∷ xs) (y ∷ ys) = let rest = same xs ys in if x == y then rest else false

-- `std::set::insert`, on the elements in order.
unfoldable pub insert : List ℕ → List (List ℕ) → List (List ℕ)
insert p [] = p ∷ []
insert p (q ∷ qs) =
    let rest = insert p qs in
    if before p q then p ∷ q ∷ qs else if before q p then q ∷ rest else q ∷ qs

unfoldable pub insert_all : List SdSyncEntry → List (List ℕ) → List (List ℕ)
insert_all [] paths = paths
insert_all (it ∷ items) paths = insert_all items (insert it.rel_path paths)

-- `map[it.rel_path] = it` for each item, and then a look-up: the last item with the path.
unfoldable pub find_entry : List SdSyncEntry → List ℕ → Option SdSyncEntry
find_entry [] rel = none
find_entry (it ∷ items) rel = elim (find_entry items rel) [
  | some later ↦ some later
  | none ↦ if same it.rel_path rel then some it else none
]

module _ {S : Type 0} (sides : Sides S) (base : List ℕ) where
  unfoldable pub upload_file : List ℕ → Tally × S → Tally × S
  upload_file rel (t, s) =
      let (ok, s') = sides.sd_upload rel (combine_saturn_path base rel) s in (count ok t, s')

  unfoldable pub download_file : List ℕ → Tally × S → Tally × S
  download_file rel (t, s) =
      let (ok, s') = sides.sd_download (combine_saturn_path base rel) rel s in (count ok t, s')

  unfoldable pub make_remote : List ℕ → Tally × S → Tally × S
  make_remote rel (t, s) = (t, sides.mkdir (combine_saturn_path base rel) s)

  unfoldable pub make_local : List ℕ → Tally × S → Tally × S
  make_local rel (t, s) = (t, sides.create_directories rel s)

  -- The two loops of the modes 1 and 2.
  unfoldable pub each_dir :
      (List ℕ → Tally × S → Tally × S) → List SdSyncEntry → Tally × S → Tally × S
  each_dir f [] p = p
  each_dir f (it ∷ items) p = each_dir f items (if it.is_dir then f it.rel_path p else p)

  unfoldable pub each_file :
      (List ℕ → Tally × S → Tally × S) → List SdSyncEntry → Tally × S → Tally × S
  each_file f [] p = p
  each_file f (it ∷ items) p = each_file f items (if it.is_dir then p else f it.rel_path p)

  -- The body of mode 3's loop, by what the two maps hold for the path.
  unfoldable pub sync_path :
      Option SdSyncEntry → Option SdSyncEntry → List ℕ → Tally × S → Tally × S
  sync_path (some loc) (some sat) rel p =
      if loc.is_dir && sat.is_dir
      then p
      else if not loc.is_dir && not sat.is_dir
      then if loc.size == sat.size then p else upload_file rel p
      else p
  sync_path (some loc) none rel p = if loc.is_dir then make_remote rel p else upload_file rel p
  sync_path none (some sat) rel p = if sat.is_dir then make_local rel p else download_file rel p
  sync_path none none rel p = p

  unfoldable pub sync_paths :
      List SdSyncEntry → List SdSyncEntry → List (List ℕ) → Tally × S → Tally × S
  sync_paths local_items saturn_items [] p = p
  sync_paths local_items saturn_items (rel ∷ rels) p =
      sync_paths local_items saturn_items rels
        (sync_path (find_entry local_items rel) (find_entry saturn_items rel) rel p)

  unfoldable pub finish : Tally × S → Bool × S
  finish (t, s) = (t.failures == 0, s)

  -- The three modes after the trees are read.
  unfoldable pub copy_to_saturn : List SdSyncEntry → S → Bool × S
  copy_to_saturn local_items s = finish (
      each_file upload_file local_items
        (each_dir make_remote local_items (none_yet, sides.mkdir base s)))

  unfoldable pub copy_to_local : List SdSyncEntry → S → Bool × S
  copy_to_local saturn_items s =
      finish (each_file download_file saturn_items (each_dir make_local saturn_items (none_yet, s)))

  unfoldable pub sync_both : List SdSyncEntry → List SdSyncEntry → S → Bool × S
  sync_both local_items saturn_items s = finish (
      sync_paths local_items saturn_items (insert_all saturn_items (insert_all local_items []))
        (none_yet, sides.mkdir base s))
