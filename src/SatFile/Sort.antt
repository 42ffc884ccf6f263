-- ===== src/SatFile/Sort.antt =====
-- The exchange sort of `scf_filelist`, for any order.
use ftx.Base.{ℕ, zero, suc, ◌≤◌, ◌≡◌, refl, ap, arith, inl, inr, Bool, true, false, Bool-cases}
use ftx.Base.{List, [], ◌∷◌, length, All}
use mathlib.Core.List.{Perm}
use mathlib.Core.List.Perm
use ftx.SatFile.Listing.{swap_pass, sort_rounds}

module _ {A : Type 0} (is_greater : A → A → Bool) where
  abbrev pub NotGreater : A → A → Type 0
  NotGreater a b = is_greater a b ≡ false

  -- Nothing is greater than what stands behind it.
  abbrev pub IsSorted : List A → Type 0
  IsSorted [] = Unit
  IsSorted (a ∷ more) = All (NotGreater a) more × IsSorted more

  swap_pass-perm :
      (a : A) (more : List A)
      → Perm ((swap_pass is_greater a more).0 ∷ (swap_pass is_greater a more).1) (a ∷ more)
  unfolding swap_pass
  swap_pass-perm a [] = Perm.rfl
  swap_pass-perm a (b ∷ more) = elim (Bool-cases (is_greater a b)) [
    | inl e ↦
        let r = swap_pass is_greater b more in
        rw e (Perm.trans (Perm.swap a r.0 r.1) (Perm.cons a (swap_pass-perm b more)))
    | inr e ↦
        let r = swap_pass is_greater a more in
        rw e (
          Perm.trans (Perm.swap b r.0 r.1)
            (Perm.trans (Perm.cons b (swap_pass-perm a more)) (Perm.swap a b more)))
  ]

  pub sort_rounds-perm : (n : ℕ) (l : List A) → Perm (sort_rounds is_greater n l) l
  unfolding sort_rounds
  sort_rounds-perm zero l = Perm.rfl
  sort_rounds-perm (suc n) [] = Perm.rfl
  sort_rounds-perm (suc n) (a ∷ more) =
      let r = swap_pass is_greater a more in
      Perm.trans (Perm.cons r.0 (sort_rounds-perm n r.1)) (swap_pass-perm a more)

  -- What holds of all entries holds of all behind a pass, and behind the sort.
  swap_pass-All :
      (P : A → Type 0) (a : A) (more : List A)
      → P a
      → All P more
      → P (swap_pass is_greater a more).0 × All P (swap_pass is_greater a more).1
  unfolding swap_pass
  swap_pass-All P a [] h hs = (h, hs)
  swap_pass-All P a (b ∷ more) h hs = elim (Bool-cases (is_greater a b)) [
    | inl e ↦ let ih = swap_pass-All P b more hs.0 hs.1 in rw e (ih.0, (h, ih.1))
    | inr e ↦ let ih = swap_pass-All P a more h hs.1 in rw e (ih.0, (hs.0, ih.1))
  ]

  sort_rounds-All :
      (P : A → Type 0) (n : ℕ) (l : List A) → All P l → All P (sort_rounds is_greater n l)
  unfolding sort_rounds
  sort_rounds-All P zero l h = h
  sort_rounds-All P (suc n) [] h = h
  sort_rounds-All P (suc n) (a ∷ more) h =
      let r = swap_pass-All P a more h.0 h.1 in (r.0, sort_rounds-All P n _ r.1)

  length-swap_pass : (a : A) (more : List A) → length (swap_pass is_greater a more).1 ≡ length more
  unfolding swap_pass
  length-swap_pass a [] = refl
  length-swap_pass a (b ∷ more) = elim (Bool-cases (is_greater a b)) [
    | inl e ↦ rw e (ap suc (length-swap_pass b more))
    | inr e ↦ rw e (ap suc (length-swap_pass a more))
  ]

  module _ (asym : (a b : A) → is_greater a b ≡ true → NotGreater b a)
      (chain : (a b c : A) → NotGreater a b → NotGreater b c → NotGreater a c)
      (same : (a : A) → NotGreater a a) where
    swap_pass-first : (a : A) (more : List A) → NotGreater (swap_pass is_greater a more).0 a
    unfolding swap_pass
    swap_pass-first a [] = same a
    swap_pass-first a (b ∷ more) = elim (Bool-cases (is_greater a b)) [
      | inl e ↦
          let m = (swap_pass is_greater b more).0 in
          rw (e, NotGreater) (chain m b a (swap_pass-first b more) (asym a b e))
      | inr e ↦ rw e (swap_pass-first a more)
    ]

    swap_pass-least :
        (a : A) (more : List A)
        → All (NotGreater (swap_pass is_greater a more).0) (swap_pass is_greater a more).1
    unfolding swap_pass
    swap_pass-least a [] = tt
    swap_pass-least a (b ∷ more) = elim (Bool-cases (is_greater a b)) [
      | inl e ↦
          let m = (swap_pass is_greater b more).0 in
          rw e (chain m b a (swap_pass-first b more) (asym a b e), swap_pass-least b more)
      | inr e ↦
          let m = (swap_pass is_greater a more).0 in
          rw e (chain m a b (swap_pass-first a more) e, swap_pass-least a more)
    ]

    pub sort_rounds-IsSorted :
        (n : ℕ) (l : List A) → length l ≤ suc n → IsSorted (sort_rounds is_greater n l)
    unfolding sort_rounds
    sort_rounds-IsSorted zero [] h = tt
    sort_rounds-IsSorted zero (a ∷ []) h = (tt, tt)
    sort_rounds-IsSorted zero (a ∷ b ∷ more) h = absurd (omega arith)
    sort_rounds-IsSorted (suc n) [] h = tt
    sort_rounds-IsSorted (suc n) (a ∷ more) h =
        let r = swap_pass is_greater a more in
        (
          sort_rounds-All (NotGreater r.0) n r.1 (swap_pass-least a more),
          sort_rounds-IsSorted n r.1 (omega (arith, length-swap_pass a more)),
        )
