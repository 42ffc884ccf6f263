-- ===== src/Xfer/Sync/Unlisted.antt =====
-- Mode 2 of `DoSdSync` of src/xfer.cpp when the console's directory cannot be listed.
use ftx.Base.{ℕ, suc, ◌≡◌, refl, true, false, List, [], ◌∷◌, some}
use ftx.Xfer.Sync.{Sides, each_dir, each_file, finish, copy_to_local}
use ftx.Xfer.Sync.Tree.{
  Trees, list_saturn_dir_for_sync, at, saturn_items, get_saturn_tree, sync_mode_2,
}

module _ {S : Type 0} (trees : Trees S) (sides : Sides S) where
  tree-unlisted :
      (fuel : ℕ) (base listing : List ℕ) (s s' : S)
      → trees.do_list_str (45 ∷ 108 ∷ 32 ∷ base) s ≡ ((listing, false), s')
      → get_saturn_tree trees (suc fuel) base [] s ≡ some ([], s')
  unfolding get_saturn_tree list_saturn_dir_for_sync at saturn_items
  tree-unlisted fuel base listing s s' e = rw e refl

  -- A code bug: copying a directory that cannot be listed reports success. When `DoListStr` fails for
  -- the directory itself, mode 2 takes it for an empty one: it downloads nothing, and returns 1.
  pub sync_mode_2_unlisted :
      (fuel : ℕ) (base listing : List ℕ) (s s' : S)
      → trees.do_list_str (45 ∷ 108 ∷ 32 ∷ base) (sides.create_directories [] s)
        ≡ ((listing, false), s')
      → sync_mode_2 trees sides (suc fuel) base s ≡ some (true, s')
  unfolding sync_mode_2 copy_to_local each_dir each_file finish
  sync_mode_2_unlisted fuel base listing s s' e =
      rw (sync_mode_2, tree-unlisted fuel base listing (sides.create_directories [] s) s' e) refl
