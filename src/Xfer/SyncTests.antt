-- ===== src/Xfer/SyncTests.antt =====
-- The theorem about synchronization at a concrete input.
use ftx.Base.{ℕ, suc, ◌≡◌, true, false, ◌||◌, List, [], ◌∷◌, none}
use ftx.Xfer.Sync.{SdSyncEntry, Sides, sync_both}
use ftx.Xfer.Sync.Paths.{Ascending, member, is_found}
use ftx.Xfer.Sync.Plan.{remote_dir, perform_all, latest, plan, sync_both-perform_all}

-- The host has the file "a"; the card has the directory "b".
abbrev a_file : SdSyncEntry
a_file = record { rel_path = 97 ∷ []; is_dir = false; size = 2 }

abbrev b_dir : SdSyncEntry
b_dir = record { rel_path = 98 ∷ []; is_dir = true; size = 0 }

-- Sides that count their calls, of which every upload fails.
abbrev refusing : Sides ℕ
refusing = record {
  local_exists = λ s. true;
  create_directories = λ rel s. suc s;
  mkdir = λ path s. suc s;
  sd_upload = λ rel path s. (false, suc s);
  sd_download = λ path rel s. (true, suc s);
}

sync_both-perform_all_example :
    (paths : List (List ℕ)) × Ascending paths
    × ((r : List ℕ)
        → member r paths
          ≡ (is_found (latest (b_dir ∷ []) r none) || is_found (latest (a_file ∷ []) r none)))
    × (sync_both refusing (47 ∷ []) (a_file ∷ []) (b_dir ∷ []) 0
        ≡ perform_all refusing
            (remote_dir (47 ∷ []) ∷ plan (47 ∷ []) (a_file ∷ []) (b_dir ∷ []) paths)
            0)
sync_both-perform_all_example =
    sync_both-perform_all refusing (47 ∷ []) (a_file ∷ []) (b_dir ∷ []) 0
