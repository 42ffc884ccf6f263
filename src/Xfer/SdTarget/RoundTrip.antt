-- ===== src/Xfer/SdTarget/RoundTrip.antt =====
-- `ParseSdUploadTarget` of src/xfer.cpp takes back a range that is written out.
use ftx.Base.{ℕ, suc, ◌^◌, ◌<◌, ◌≡◌, ◌≢◌, refl, arith, true, List, [], ◌∷◌, ◌++◌}
use ftx.Base.{none, some, length, ltb_of_le, eqb_of_eq, eqb_of_ne, All}
use ftx.Xfer.SdTarget.{sdraw, after_prefix, at_colon, prepend, is_empty}
use ftx.Xfer.SdTarget.{sector_number, range_target, parse_range, parse_sd_upload_target}

abbrev pub NotColon : ℕ → Type 0
NotColon c = c ≢ 58

at_colon-colon :
    (before after : List ℕ)
    → All NotColon before
    → at_colon (before ++ (58 ∷ after)) ≡ some (before, after)
unfolding at_colon prepend
at_colon-colon [] after h = refl
at_colon-colon (c ∷ cs) after (h, hs) = rw (eqb_of_ne c 58 h, at_colon-colon cs after hs) refl

at_colon-none : (text : List ℕ) → All NotColon text → at_colon text ≡ none
unfolding at_colon prepend
at_colon-none [] h = refl
at_colon-none (c ∷ cs) (h, hs) = rw (eqb_of_ne c 58 h, at_colon-none cs hs) refl

module _ (strtoul : List ℕ → ℕ × ℕ) where
  -- `strtoul` reads the text as `n`, to its end.
  abbrev pub IsNumeral : ℕ → List ℕ → Type 0
  IsNumeral n text = strtoul text ≡ (n, length text)

  sector_number_lem :
      (n : ℕ) (text : List ℕ) → IsNumeral n text → n < 2 ^ 32 → sector_number strtoul text ≡ some n
  unfolding sector_number
  sector_number_lem n text h lt =
      rw (h, eqb_of_eq (length text) (length text) refl, ltb_of_le 0xffff_ffff n (omega arith)) refl

  -- A range "sdraw:<start>:<count>" is read as its two numbers: for texts that are not empty, have
  -- no colon, and are numbers to `strtoul`, of which the first fits 32 bits and the second fits them
  -- and is not 0.
  pub parse_sd_upload_target_lem :
      (start count s c : ℕ) (ss cs : List ℕ)
      → All NotColon (s ∷ ss)
      → All NotColon (c ∷ cs)
      → IsNumeral start (s ∷ ss)
      → IsNumeral (suc count) (c ∷ cs)
      → start < 2 ^ 32
      → suc count < 2 ^ 32
      → parse_sd_upload_target strtoul (some (sdraw ++ ((s ∷ ss) ++ (58 ∷ (c ∷ cs)))))
        ≡ some (record { start_sector = start; sector_count = suc count; has_range = true })
  unfolding parse_sd_upload_target after_prefix parse_range is_empty range_target
  parse_sd_upload_target_lem start count s c ss cs hs hc ns nc lt lt' =
      rw
        (
          at_colon-colon (s ∷ ss) (c ∷ cs) hs,
          parse_range,
          at_colon-none (c ∷ cs) hc,
          sector_number_lem start (s ∷ ss) ns lt,
          sector_number_lem (suc count) (c ∷ cs) nc lt',
        )
        refl
