-- ===== src/SatFile/Filter.antt =====
-- The filter of `scf_filelist`: extensions with commas between, such as "BIN,CUE".
use ftx.Base.{ℕ, zero, suc, ◌≤◌, ◌<◌, ◌≡◌, ◌≢◌, refl, ap, arith, Bool, true, false, ◌&&◌, ◌||◌, not}
use ftx.Base.{
  List, [], ◌∷◌, ◌++◌, length, get_or, take, drop, All, ◌==◌, if◌then◌else◌, bit_and, bit_or,
  eqb_of_ne, length-append,
}
use ftx.RomFs.{has_flag, flag_folder}
use ftx.SatFile.Names.{strlen, scf_compare_extension}
use ftx.SatFile.Listing.{FileEntry}

abbrev pub flag_filtered : ℕ
flag_filtered = 0x80

-- `for(j=0; j<(sizeof(ext)-1); j++)`, with the rounds left, on the characters from `filter[i]` on,
-- without the end of the string: `ext`, and the characters from the new `i` on.
unfoldable pub read_ext : ℕ → List ℕ → List ℕ × List ℕ
read_ext zero filter = ([], filter)
read_ext (suc rounds) [] = ([], [])
read_ext (suc rounds) (c ∷ cs) =
    let rest = read_ext rounds cs in
    if get_or cs 0 0 == 44 then (c ∷ [], c ∷ cs) else (c ∷ rest.0, rest.1)

-- `for(i = 0; i<n; i++)`, with fuel for each round, and whether `i` is 0: the extensions compared.
unfoldable pub filter_exts : ℕ → Bool → List ℕ → List (List ℕ)
filter_exts zero is_first filter = []
filter_exts (suc fuel) is_first [] = []
filter_exts (suc fuel) is_first (c ∷ cs) =
    let r = read_ext 4 (if c == 44 then cs else c ∷ cs) in
    let next = filter_exts fuel false (drop 1 r.1) in
    let other = filter_exts fuel false cs in if is_first || (c == 44) then r.0 ∷ next else other

unfoldable pub mark_folder : FileEntry → FileEntry
mark_folder e =
    if has_flag e.flags flag_folder then record e { flags = bit_or e.flags flag_filtered } else e

unfoldable pub mark_ext : List ℕ → FileEntry → FileEntry
mark_ext ext e =
    if not (has_flag e.flags flag_filtered) && scf_compare_extension e.filename ext
    then record e { flags = bit_or e.flags flag_filtered }
    else e

unfoldable pub mark_exts : List (List ℕ) → FileEntry → FileEntry
mark_exts [] e = e
mark_exts (ext ∷ more) e = mark_exts more (mark_ext ext e)

-- Without the mark the entry is disabled, and the mark is taken off.
unfoldable pub settle : FileEntry → FileEntry
settle e =
    let kept = if has_flag e.flags flag_filtered then e.flags else bit_and e.flags 0xFE in
    record e { flags = bit_and kept 0x7F }

unfoldable pub apply_filter : List ℕ → FileEntry → FileEntry
apply_filter filter e =
    let string = take (strlen filter) filter in
    settle (mark_exts (filter_exts (strlen filter) true string) (mark_folder e))

-- An extension as it stands in a filter.
abbrev pub IsExt : List ℕ → Type 0
IsExt ext = All (λ c. (c ≢ 44) × (c ≢ 0)) ext × ((0 < length ext) × (length ext ≤ 4))

-- What stands behind the first of some extensions.
abbrev pub commas : List (List ℕ) → List ℕ
commas [] = []
commas (ext ∷ more) = 44 ∷ (ext ++ commas more)

read_ext_lem :
    (n : ℕ) (ext : List ℕ) (more : List (List ℕ))
    → All (λ c. (c ≢ 44) × (c ≢ 0)) ext
    → 0 < length ext
    → length ext ≤ n
    → ((read_ext n (ext ++ commas more)).0 ≡ ext)
      × (drop 1 (read_ext n (ext ++ commas more)).1 ≡ commas more)
unfolding read_ext
read_ext_lem zero ext more h some_left le = absurd (omega arith)
read_ext_lem (suc n) [] more h some_left le = absurd (omega arith)
read_ext_lem (suc zero) (c ∷ []) [] h some_left le = (refl, refl)
read_ext_lem (suc (suc n)) (c ∷ []) [] h some_left le = (refl, refl)
read_ext_lem (suc n) (c ∷ []) (ext ∷ more) h some_left le = (refl, refl)
read_ext_lem (suc n) (c ∷ d ∷ ext) more h some_left le =
    let e : (d == 44) ≡ false = eqb_of_ne d 44 ((h.1).0).0 in
    let ih = read_ext_lem n (d ∷ ext) more h.1 (omega arith) (omega arith) in
    rw e (ap (λ l. c ∷ l) ih.0, ih.1)

filter_exts-commas :
    (fuel : ℕ) (more : List (List ℕ))
    → All IsExt more
    → length more ≤ fuel
    → filter_exts fuel false (commas more) ≡ more
unfolding filter_exts
filter_exts-commas zero [] h le = refl
filter_exts-commas (suc fuel) [] h le = refl
filter_exts-commas zero (ext ∷ more) h le = absurd (omega arith)
filter_exts-commas (suc fuel) (ext ∷ more) h le =
    let r = read_ext_lem 4 ext more (h.0).0 ((h.0).1).0 ((h.0).1).1 in
    rw r.0 (rw r.1 (ap (λ l. ext ∷ l) (filter_exts-commas fuel more h.1 (omega arith))))

length-commas : (more : List (List ℕ)) → length more ≤ length (commas more)
length-commas [] = omega arith
length-commas (ext ∷ more) = omega (arith, length-append ext (commas more), length-commas more)

-- The extensions that the filter's loop compares are those between the commas.
pub filter_exts_lem :
    (ext : List ℕ) (more : List (List ℕ))
    → All IsExt (ext ∷ more)
    → filter_exts (length (ext ++ commas more)) true (ext ++ commas more) ≡ ext ∷ more
unfolding filter_exts
filter_exts_lem [] more h = absurd (omega (arith, ((h.0).1).0))
filter_exts_lem (c ∷ cs) more h =
    let r = read_ext_lem 4 (c ∷ cs) more (h.0).0 ((h.0).1).0 ((h.0).1).1 in
    let e : (c == 44) ≡ false = eqb_of_ne c 44 (((h.0).0).0).0 in
    rw e (
      rw r.0 (
        rw r.1 (
          ap (λ l. (c ∷ cs) ∷ l)
            (filter_exts-commas (length (cs ++ commas more)) more h.1
              (omega (arith, length-append cs (commas more), length-commas more))))))
