-- ===== src/Xfer/SdTarget.antt =====
-- `ParseSdUploadTarget` of src/xfer.cpp, and the name that `DoSdUpload` shows on the console.
-- `strtoul` is the C library's: a parameter, which gives the number at the start of a string and
-- how many characters it takes, none if there is no number. `unsigned long` has more than 32 bits.
pub mod RoundTrip
use ftx.Base.{ℕ, zero, suc, Bool, true, false, ◌&&◌, ◌||◌, not}
use ftx.Base.{List, [], ◌∷◌, ◌++◌, Option, none, some, length, ltb, ◌==◌, if◌then◌else◌}

pub record SdUploadTarget : Type 0 where
  pub start_sector : ℕ
  pub sector_count : ℕ
  pub has_range : Bool

-- "sdraw:"
abbrev pub sdraw : List ℕ
sdraw = 115 ∷ 100 ∷ 114 ∷ 97 ∷ 119 ∷ 58 ∷ []

-- What follows the prefix, if the path has it.
unfoldable pub after_prefix : List ℕ → List ℕ → Option (List ℕ)
after_prefix [] path = some path
after_prefix (p ∷ ps) [] = none
after_prefix (p ∷ ps) (c ∷ cs) = let rest = after_prefix ps cs in if p == c then rest else none

unfoldable pub prepend : ℕ → Option (List ℕ × List ℕ) → Option (List ℕ × List ℕ)
prepend c none = none
prepend c (some (before, after)) = some (c ∷ before, after)

-- The text before the first ':', and the text after it.
unfoldable pub at_colon : List ℕ → Option (List ℕ × List ℕ)
at_colon [] = none
at_colon (c ∷ cs) = let rest = prepend c (at_colon cs) in if c == 58 then some ([], cs) else rest

unfoldable pub is_empty : List ℕ → Bool
is_empty [] = true
is_empty (c ∷ cs) = false

module _ (strtoul : List ℕ → ℕ × ℕ) where
  -- The number that the whole text is, if it fits 32 bits.
  unfoldable pub sector_number : List ℕ → Option ℕ
  sector_number text =
      let (parsed, taken) = strtoul text in
      if not (taken == length text) || ltb 0xffff_ffff parsed then none else some parsed

  unfoldable pub range_target : Option ℕ → Option ℕ → Option SdUploadTarget
  range_target none count = none
  range_target (some start) none = none
  range_target (some start) (some zero) = none
  range_target (some start) (some (suc count)) =
      some (record { start_sector = start; sector_count = suc count; has_range = true })

  unfoldable pub parse_range : Option (List ℕ × List ℕ) → Option SdUploadTarget
  parse_range none = none
  parse_range (some (start_text, count_text)) = elim (at_colon count_text) [
    | some _ ↦ none
    | none ↦
        if is_empty start_text || is_empty count_text
        then none
        else range_target (sector_number start_text) (sector_number count_text)
  ]

  unfoldable pub parse_sector : List ℕ → Option SdUploadTarget
  parse_sector [] = none
  parse_sector (c ∷ cs) = elim (sector_number (c ∷ cs)) [
    | none ↦ none
    | some parsed ↦ some (record { start_sector = parsed; sector_count = 0; has_range = false })
  ]

  unfoldable pub parse_sd_upload_target : Option (List ℕ) → Option SdUploadTarget
  parse_sd_upload_target none = none
  parse_sd_upload_target (some path) = elim (after_prefix sdraw path) [
    | some remainder ↦ parse_range (at_colon remainder)
    | none ↦ parse_sector path
  ]

-- The host's file name after its last '/' or '\'.
unfoldable pub name_for_display : List ℕ → List ℕ
name_for_display path = from path path
  where
    from : List ℕ → List ℕ → List ℕ
    from [] shown = shown
    from (c ∷ cs) shown = from cs (if (c == 47) || (c == 92) then cs else shown)
