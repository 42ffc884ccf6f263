-- ===== src/Xfer/Sync/Plan.antt =====
-- What mode 3 of `DoSdSync` of src/xfer.cpp asks of the two sides for the trees that it has read.
use ftx.Base.{ℕ, suc, ◌≡◌, inl, inr, refl, ap, ◌∙◌, sym, Bool, true, false, ◌&&◌, ◌||◌, List, []}
use ftx.Base.{
  ◌∷◌, ◌++◌, Option, none, some, ◌==◌, if◌then◌else◌, Bool-cases, Option-cases, eqb_of_ne, arith,
}
use ftx.Xfer.Sync.{
  SdSyncEntry, Sides, Tally, count, none_yet, combine_saturn_path, same, insert_all,
}
use ftx.Xfer.Sync.{find_entry, upload_file, download_file, make_remote, make_local, sync_path}
use ftx.Xfer.Sync.{sync_paths, finish, sync_both}
use ftx.Xfer.Sync.Paths.{Ascending, member, is_found, insert_all_lem}

pub data Action : Type 0 where
  remote_dir : List ℕ → Action
  local_dir : List ℕ → Action
  send : List ℕ → List ℕ → Action
  fetch : List ℕ → List ℕ → Action

-- The actions one after the other, also behind one that fails: whether none does, and the state.
module _ {S : Type 0} (sides : Sides S) where
  unfoldable pub perform : Action → S → Bool × S
  perform (remote_dir path) s = (true, sides.mkdir path s)
  perform (local_dir rel) s = (true, sides.create_directories rel s)
  perform (send rel path) s = sides.sd_upload rel path s
  perform (fetch path rel) s = sides.sd_download path rel s

  unfoldable pub perform_all : List Action → S → Bool × S
  perform_all [] s = (true, s)
  perform_all (a ∷ actions) s = (
    (perform a s).0 && (perform_all actions (perform a s).1).0,
    (perform_all actions (perform a s).1).1,
  )

-- What a tree has at a path; a file has a size.
pub data Kind : Type 0 where
  absent : Kind
  folder : Kind
  plain : ℕ → Kind

unfoldable pub kind : Option SdSyncEntry → Kind
kind none = absent
kind (some it) = if it.is_dir then folder else plain it.size

-- The item that stands last among those with a path, or `found` if none has it.
unfoldable pub latest : List SdSyncEntry → List ℕ → Option SdSyncEntry → Option SdSyncEntry
latest [] rel found = found
latest (it ∷ items) rel found = latest items rel (if same it.rel_path rel then some it else found)

-- What is to be done for a path, by what the host has there and what the card has.
unfoldable pub wanted : List ℕ → List ℕ → Kind → Kind → List Action
wanted base rel folder absent = remote_dir (combine_saturn_path base rel) ∷ []
wanted base rel absent folder = local_dir rel ∷ []
wanted base rel (plain n) absent = send rel (combine_saturn_path base rel) ∷ []
wanted base rel absent (plain n) = fetch (combine_saturn_path base rel) rel ∷ []
wanted base rel (plain n) (plain m) =
    if n == m then [] else send rel (combine_saturn_path base rel) ∷ []
wanted base rel absent absent = []
wanted base rel folder folder = []
wanted base rel folder (plain n) = []
wanted base rel (plain n) folder = []

unfoldable pub plan : List ℕ → List SdSyncEntry → List SdSyncEntry → List (List ℕ) → List Action
plan base local_items saturn_items [] = []
plan base local_items saturn_items (rel ∷ rels) =
    wanted base rel (kind (latest local_items rel none)) (kind (latest saturn_items rel none))
    ++ plan base local_items saturn_items rels

or_found : Option SdSyncEntry → Option SdSyncEntry → Option SdSyncEntry
or_found none found = found
or_found (some it) found = some it

latest_lem :
    (items : List SdSyncEntry) (rel : List ℕ) (found : Option SdSyncEntry)
    → latest items rel found ≡ or_found (find_entry items rel) found
unfolding latest find_entry or_found
latest_lem [] rel found = refl
latest_lem (it ∷ items) rel found =
    latest_lem items rel (if same it.rel_path rel then some it else found)
    ∙ elim (Option-cases (find_entry items rel)) [
      | inr (later, e) ↦ rw e refl
      | inl e ↦ elim (Bool-cases (same it.rel_path rel)) [
        | inl hit ↦ rw (e, hit) refl
        | inr other ↦ rw (e, other) refl
      ]
    ]

find_entry-latest :
    (items : List SdSyncEntry) (rel : List ℕ) → find_entry items rel ≡ latest items rel none
unfolding or_found
find_entry-latest items rel = elim (Option-cases (find_entry items rel)) [
  | inl e ↦ e ∙ sym (latest_lem items rel none ∙ ap (λ o. or_found o none) e)
  | inr (it, e) ↦ e ∙ sym (latest_lem items rel none ∙ ap (λ o. or_found o none) e)
]

and_true : (b : Bool) → b ≡ b && true
and_true true = refl
and_true false = refl

and_false : (b : Bool) → false ≡ b && false
and_false true = refl
and_false false = refl

module _ {S : Type 0} (sides : Sides S) (base : List ℕ) where
  -- The result of a loop that has come to `p` and whose rest does `k`.
  abbrev and_then : Tally × S → (S → Bool × S) → Bool × S
  and_then (t, s) k = ((t.failures == 0) && (k s).0, (k s).1)

  -- A transfer whose outcome is counted.
  counted :
      (t : Tally) (r : Bool × S) (k : S → Bool × S)
      → ◌≡◌ {A = Bool × S}
          (and_then (count r.0 t, r.1) k)
          ((t.failures == 0) && (r.0 && (k r.1).0), (k r.1).1)
  unfolding count
  counted t (true, s) k = refl
  counted t (false, s) k =
      rw (eqb_of_ne (suc t.failures) 0 (omega arith))
        (ap (λ b. (b, (k s).1)) (and_false (t.failures == 0)))

  sync_path-wanted :
      (loc sat : Option SdSyncEntry) (rel : List ℕ) (t : Tally) (s : S) (rest : List Action)
      → and_then (sync_path sides base loc sat rel (t, s)) (perform_all sides rest)
        ≡ and_then (t, s) (perform_all sides (wanted base rel (kind loc) (kind sat) ++ rest))
  unfolding sync_path wanted kind perform_all perform upload_file download_file make_remote
      make_local
  sync_path-wanted none none rel t s rest = refl
  sync_path-wanted none (some sat) rel t s rest = elim (Bool-cases sat.is_dir) [
    | inl e ↦ rw e refl
    | inr e ↦ rw e (
        counted t (sides.sd_download (combine_saturn_path base rel) rel s) (perform_all sides rest))
  ]
  sync_path-wanted (some loc) none rel t s rest = elim (Bool-cases loc.is_dir) [
    | inl e ↦ rw e refl
    | inr e ↦
        rw e (
          counted t (sides.sd_upload rel (combine_saturn_path base rel) s) (perform_all sides rest))
  ]
  sync_path-wanted (some loc) (some sat) rel t s rest = elim (Bool-cases loc.is_dir) [
    | inl e ↦ elim (Bool-cases sat.is_dir) [ inl f ↦ rw (e, f) refl | inr f ↦ rw (e, f) refl ]
    | inr e ↦ elim (Bool-cases sat.is_dir) [
      | inl f ↦ rw (e, f) refl
      | inr f ↦ elim (Bool-cases (loc.size == sat.size)) [
        | inl g ↦ rw (e, f, g) refl
        | inr g ↦
            rw (e, f, g)
              (counted t (sides.sd_upload rel (combine_saturn_path base rel) s)
                (perform_all sides rest))
      ]
    ]
  ]

  sync_paths-plan :
      (local_items saturn_items : List SdSyncEntry) (rels : List (List ℕ)) (p : Tally × S)
      → finish sides base (sync_paths sides base local_items saturn_items rels p)
        ≡ and_then p (perform_all sides (plan base local_items saturn_items rels))
  unfolding sync_paths plan finish perform_all
  sync_paths-plan local_items saturn_items [] (t, s) = ap (λ b. (b, s)) (and_true (t.failures == 0))
  sync_paths-plan local_items saturn_items (rel ∷ rels) (t, s) =
      rw (sym (find_entry-latest local_items rel), sym (find_entry-latest saturn_items rel))
        (sync_paths-plan local_items saturn_items rels _
          ∙ sync_path-wanted (find_entry local_items rel) (find_entry saturn_items rel) rel t s
              (plan base local_items saturn_items rels))

  -- On the two trees that it has read, mode 3 makes the directory on the card and then goes through
  -- the paths of both trees, in ascending order and each once. It makes a directory, or copies a
  -- file, that one side lacks; it sends the host's file where the sizes of two files differ, and does
  -- nothing at any other path. A transfer that fails stops nothing; the result is true if and only
  -- if none does. Of items with one path, the last one counts.
  pub sync_both-perform_all :
      (local_items saturn_items : List SdSyncEntry) (s : S)
      → (paths : List (List ℕ)) × Ascending paths
        × ((r : List ℕ)
            → member r paths
              ≡ (is_found (latest saturn_items r none) || is_found (latest local_items r none)))
        × (sync_both sides base local_items saturn_items s
            ≡ perform_all sides (remote_dir base ∷ plan base local_items saturn_items paths) s)
  unfolding sync_both perform_all perform
  sync_both-perform_all local_items saturn_items s =
      let all = insert_all_lem local_items saturn_items in
      (
        insert_all saturn_items (insert_all local_items []),
        all.0,
        λ r.
            rw (sym (find_entry-latest local_items r), sym (find_entry-latest saturn_items r))
              (all.1 r),
        sync_paths-plan local_items saturn_items _ (none_yet, sides.mkdir base s),
      )
