-- ===== src/SatFile/Filtered.antt =====
-- What the filter of `scf_filelist` leaves enabled.
use ftx.Base.{
  ℕ, ◌<◌, ◌^◌, ◌≡◌, ◌≢◌, refl, ap, arith, inl, inr, Bool, true, false, Bool-cases, ◌&&◌, ◌||◌, not,
}
use ftx.Base.{
  List, [], ◌∷◌, ◌++◌, length, All, All-append, ◌==◌, ==_iff, if◌then◌else◌, bit_and, bit_or,
}
use ftx.Base.{every_below, every_below_sound, take-length-append}
use ftx.RomFs.{has_flag, flag_folder}
use ftx.SatFile.Names.{strlen, scf_compare_extension}
use ftx.SatFile.Paths.{IsChar, strlen-append}
use ftx.SatFile.Listing.{FileEntry}
use ftx.SatFile.Filter.{
  flag_filtered, mark_folder, mark_ext, mark_exts, settle, apply_filter, IsExt, commas,
  filter_exts_lem,
}

abbrev pub has_ext : List (List ℕ) → List ℕ → Bool
has_ext [] name = false
has_ext (ext ∷ more) name = scf_compare_extension name ext || has_ext more name

-- The mark on flags that do not have it.
mark_test : ℕ → Bool
mark_test f =
    has_flag (bit_or f 0x80) 0x80
    && (not (has_flag f 0x80)
        && ((bit_and (bit_or f 0x80) 0x7F == f)
            && (bit_and (bit_and f 0xFE) 0x7F == bit_and f 0xFE)))

mark_table : every_below mark_test 128 ≡ true
unfolding every_below mark_test
mark_table = refl

record MarkLaws (f : ℕ) : Type 0 where
  marked : has_flag (bit_or f 0x80) 0x80 ≡ true
  unmarked : has_flag f 0x80 ≡ false
  taken_off : bit_and (bit_or f 0x80) 0x7F ≡ f
  disabled : bit_and (bit_and f 0xFE) 0x7F ≡ bit_and f 0xFE

mark_laws : (f : ℕ) → f < 128 → MarkLaws f
unfolding mark_test
mark_laws f h =
    let t = four _ _ _ _ (every_below_sound mark_test 128 f mark_table h) in
    record {
      marked = t.0;
      unmarked = (t.1).0;
      taken_off = (==_iff _ _).0 ((t.1).1).0;
      disabled = (==_iff _ _).0 ((t.1).1).1;
    }
  where
    four :
        (a b c d : Bool)
        → a && (not b && (c && d)) ≡ true
        → (a ≡ true) × ((b ≡ false) × ((c ≡ true) × (d ≡ true)))
    four a b c d h = ground arith

-- A marked entry keeps its mark, and one without gets it if an extension is its own.
mark_exts_set :
    (exts : List (List ℕ)) (e : FileEntry)
    → has_flag e.flags flag_filtered ≡ true
    → mark_exts exts e ≡ e
unfolding mark_exts mark_ext
mark_exts_set [] e h = refl
mark_exts_set (ext ∷ more) e h = rw h (mark_exts_set more e h)

mark_exts_lem :
    (exts : List (List ℕ)) (e : FileEntry)
    → MarkLaws e.flags
    → mark_exts exts e
      ≡ (if has_ext exts e.filename then record e { flags = bit_or e.flags flag_filtered } else e)
unfolding mark_exts mark_ext
mark_exts_lem [] e m = refl
mark_exts_lem (ext ∷ more) e m = elim (Bool-cases (scf_compare_extension e.filename ext)) [
  | inl same ↦ rw m.unmarked (rw same (mark_exts_set more _ m.marked))
  | inr other ↦ rw m.unmarked (rw other (mark_exts_lem more e m))
]

module _ (ext : List ℕ) (more : List (List ℕ)) (h : All IsExt (ext ∷ more)) where
  ext_chars : (e : List ℕ) → IsExt e → All IsChar e
  ext_chars e i = only e i.0
    where
      only : (l : List ℕ) → All (λ c. (c ≢ 44) × (c ≢ 0)) l → All IsChar l
      only [] h = tt
      only (c ∷ cs) h = ((h.0).1, only cs h.1)

  commas_chars : (l : List (List ℕ)) → All IsExt l → All IsChar (commas l)
  commas_chars [] h = tt
  commas_chars (e ∷ l) h = (
    (λ z. absurd (omega arith)),
    All-append IsChar e (commas l) (ext_chars e h.0) (commas_chars l h.1),
  )

  abbrev string : List ℕ
  string = ext ++ commas more

  string_len : (rest : List ℕ) → strlen (string ++ (0 ∷ rest)) ≡ length string
  string_len rest =
      strlen-append string rest
        (All-append IsChar ext (commas more) (ext_chars ext h.0) (commas_chars more h.1))

  apply_filter_part :
      (rest : List ℕ) (e : FileEntry)
      → e.flags < 2 ^ 7
      → apply_filter (string ++ (0 ∷ rest)) e ≡ (
          if has_flag e.flags flag_folder || has_ext (ext ∷ more) e.filename
          then e
          else record e { flags = bit_and e.flags 0xFE })
  unfolding apply_filter settle mark_folder
  apply_filter_part rest e small =
      let m = mark_laws e.flags small in
      rw (string_len rest) (
        rw (take-length-append string (0 ∷ rest)) (
          rw (filter_exts_lem ext more h) (elim (Bool-cases (has_flag e.flags flag_folder)) [
            | inl folder ↦ rw folder (
                rw
                  (mark_exts_set (ext ∷ more) (record e { flags = bit_or e.flags flag_filtered })
                    m.marked)
                  (rw m.marked (ap (λ f. record e { flags = f }) m.taken_off)))
            | inr file ↦ rw file (
                rw (mark_exts_lem (ext ∷ more) e m)
                  (elim (Bool-cases (has_ext (ext ∷ more) e.filename)) [
                    | inl same ↦
                        rw same (rw m.marked (ap (λ f. record e { flags = f }) m.taken_off))
                    | inr other ↦
                        rw other (rw m.unmarked (ap (λ f. record e { flags = f }) m.disabled))
                  ]))
          ])))

-- A filter of some extensions, each of one to four characters, with commas between: of an entry
-- without the internal mark, it leaves a folder, or a file with one of them by
-- `scf_compare_extension`, as it is, and takes the flag ENABLED off any other.
pub apply_filter_lem :
    (ext : List ℕ) (more : List (List ℕ)) (rest : List ℕ) (e : FileEntry)
    → All IsExt (ext ∷ more)
    → e.flags < 2 ^ 7
    → apply_filter ((ext ++ commas more) ++ (0 ∷ rest)) e ≡ (
        if has_flag e.flags flag_folder || has_ext (ext ∷ more) e.filename
        then e
        else record e { flags = bit_and e.flags 0xFE })
apply_filter_lem ext more rest e h small = apply_filter_part ext more h rest e small
