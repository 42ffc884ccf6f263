-- ===== src/Xfer/Sync/Paths.antt =====
-- Paths and the set of them in `DoSdSync` of src/xfer.cpp.
use ftx.Base.{ℕ, ◌≡◌, inl, inr, refl, ap, ◌∙◌, arith}
use ftx.Base.{Bool, true, false, ◌||◌, List, [], ◌∷◌, Option, none, some}
use ftx.Base.{if◌then◌else◌, eqb_of_eq, Bool-cases, Option-cases}
use ftx.Base.{All}
use ftx.Xfer.Sync.{SdSyncEntry, before, same, insert, insert_all, find_entry}

same_refl : (p : List ℕ) → same p p ≡ true
unfolding same
same_refl [] = refl
same_refl (c ∷ cs) = rw (eqb_of_eq c c refl) (same_refl cs)

-- Two paths of which neither is before the other are the same.
before_total : (p q : List ℕ) → before p q ≡ false → before q p ≡ false → p ≡ q
unfolding before
before_total [] [] h k = refl
before_total [] (y ∷ ys) h k = absurd (cc)
before_total (x ∷ xs) [] h k = absurd (cc)
before_total (x ∷ xs) (y ∷ ys) h k = ground (arith, before_total xs ys)

before_trans : (p q r : List ℕ) → before p q ≡ true → before q r ≡ true → before p r ≡ true
unfolding before
before_trans p q [] h k = absurd (cc)
before_trans [] q (z ∷ zs) h k = refl
before_trans (x ∷ xs) [] (z ∷ zs) h k = absurd (cc)
before_trans (x ∷ xs) (y ∷ ys) (z ∷ zs) h k = ground (arith, before_trans xs ys zs)

unfoldable pub member : List ℕ → List (List ℕ) → Bool
member r [] = false
member r (q ∷ qs) = same q r || member r qs

-- Each path is before all that follow it: none stands there twice.
abbrev pub Ascending : List (List ℕ) → Type 0
Ascending [] = Unit {0}
Ascending (p ∷ qs) = All (λ q. before p q ≡ true) qs × Ascending qs

insert-All :
    (P : List ℕ → Type 0) (p : List ℕ) (qs : List (List ℕ)) → P p → All P qs → All P (insert p qs)
unfolding insert
insert-All P p [] hp h = (hp, tt)
insert-All P p (q ∷ qs) hp (hq, h) = elim (Bool-cases (before p q)) [
  | inl e ↦ rw e (hp, (hq, h))
  | inr e ↦ elim (Bool-cases (before q p)) [
    | inl e' ↦ rw (e, e') (hq, insert-All P p qs hp h)
    | inr e' ↦ rw (e, e') (hq, h)
  ]
]

All-before :
    (p q : List ℕ) (qs : List (List ℕ))
    → before p q ≡ true
    → All (λ r. before q r ≡ true) qs
    → All (λ r. before p r ≡ true) qs
All-before p q [] h k = tt
All-before p q (r ∷ qs) h (k, ks) = (before_trans p q r h k, All-before p q qs h ks)

insert-Ascending : (p : List ℕ) (qs : List (List ℕ)) → Ascending qs → Ascending (insert p qs)
unfolding insert
insert-Ascending p [] h = (tt, tt)
insert-Ascending p (q ∷ qs) (hq, h) = elim (Bool-cases (before p q)) [
  | inl e ↦ rw e ((e, All-before p q qs e hq), (hq, h))
  | inr e ↦ elim (Bool-cases (before q p)) [
    | inl e' ↦ rw (e, e') (insert-All (λ r. before q r ≡ true) p qs e' hq, insert-Ascending p qs h)
    | inr e' ↦ rw (e, e') (hq, h)
  ]
]

insert_all-Ascending :
    (items : List SdSyncEntry) (paths : List (List ℕ))
    → Ascending paths
    → Ascending (insert_all items paths)
unfolding insert_all
insert_all-Ascending [] paths h = h
insert_all-Ascending (it ∷ items) paths h =
    insert_all-Ascending items (insert it.rel_path paths) (insert-Ascending it.rel_path paths h)

member-insert :
    (r p : List ℕ) (qs : List (List ℕ)) → member r (insert p qs) ≡ (same p r || member r qs)
unfolding insert member
member-insert r p [] = refl
member-insert r p (q ∷ qs) = ground (arith, member-insert r p qs, before_total p q)

unfoldable pub is_found : Option SdSyncEntry → Bool
is_found none = false
is_found (some it) = true

member-insert_all :
    (r : List ℕ) (items : List SdSyncEntry) (paths : List (List ℕ))
    → member r (insert_all items paths) ≡ (is_found (find_entry items r) || member r paths)
unfolding insert_all find_entry is_found
member-insert_all r [] paths = refl
member-insert_all r (it ∷ items) paths =
    member-insert_all r items (insert it.rel_path paths)
    ∙ ap (λ t. is_found (find_entry items r) || t) (member-insert r it.rel_path paths)
    ∙ elim (Option-cases (find_entry items r)) [
      | inl e ↦ rw e (by_case (same it.rel_path r))
      | inr (later, e) ↦ rw e refl
    ]
  where
    by_case :
        (t : Bool)
        → (t || member r paths) ≡ (is_found (if t then some it else none) || member r paths)
    by_case true = refl
    by_case false = refl

-- The paths that mode 3 goes through are those of both trees.
member-all_paths :
    (r : List ℕ) (local_items saturn_items : List SdSyncEntry)
    → member r (insert_all saturn_items (insert_all local_items []))
      ≡ (is_found (find_entry saturn_items r) || (is_found (find_entry local_items r) || false))
unfolding member
member-all_paths r local_items saturn_items =
    member-insert_all r saturn_items (insert_all local_items [])
    ∙ ap (λ t. is_found (find_entry saturn_items r) || t) (member-insert_all r local_items [])

-- The paths that mode 3 goes through are those of both trees, in ascending order, each of them once.
pub insert_all_lem :
    (local_items saturn_items : List SdSyncEntry)
    → Ascending (insert_all saturn_items (insert_all local_items []))
      × ((r : List ℕ)
          → member r (insert_all saturn_items (insert_all local_items []))
            ≡ (is_found (find_entry saturn_items r) || is_found (find_entry local_items r)))
insert_all_lem local_items saturn_items = (
  insert_all-Ascending saturn_items (insert_all local_items [])
      (insert_all-Ascending local_items [] tt),
  λ r.
      member-all_paths r local_items saturn_items
      ∙ ap (λ t. is_found (find_entry saturn_items r) || t)
          (or_false (is_found (find_entry local_items r))),
)
  where
    or_false : (t : Bool) → (t || false) ≡ t
    or_false true = refl
    or_false false = refl
