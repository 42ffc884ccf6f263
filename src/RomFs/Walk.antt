-- ===== src/RomFs/Walk.antt =====
-- A folder of the image as the list of its entries: what a search finds, and what comes next.
use ftx.Base.{ℕ, zero, suc, ◌+◌, ◌≤◌, ◌<◌, ◌≡◌, refl, sym, ap, ◌∙◌, arith}
use ftx.Base.{List, [], ◌∷◌, length, Bool, true, false, ◌&&◌, not, ◌==◌, if◌then◌else◌, bit_and}
use ftx.Base.{
  every_below, every_below_sound, ◌⊎◌, inl, inr, Bool-cases, get_or, eqb_of_eq, ◌/◌, ◌%◌,
}
use ftx.Base.Bits.{bit_and_mask, bit_and_step}
use ftx.RomFs.{Image, Lookup, entry, null, entry_size, entry_flags, entry_filename_len}
use ftx.RomFs.{entry_offset, has_flag, flag_enabled, flag_folder, flag_lastentry}
use ftx.RomFs.{
  sc_toupper, compare_filename, entry_matches, search_folder, skip_entries, romfs_get_next_entry,
}

-- `es` are the addresses of a folder's entries, `e` the first: each follows the one before it, and
-- the last one only is marked as the last.
unfoldable pub IsFolder : Image → ℕ → List ℕ → Type 0
IsFolder romfs e [] = has_flag (entry_flags romfs e) flag_lastentry ≡ true
IsFolder romfs e (e' ∷ es) =
    (has_flag (entry_flags romfs e) flag_lastentry ≡ false)
    × ((e' ≡ e + entry_size + entry_filename_len romfs e) × IsFolder romfs e' es)

-- The lowest two bits of the flags, which the code tests with masks.
enabled_bit : (flags : ℕ) → has_flag flags flag_enabled ≡ (flags % 2 == 1)
enabled_bit flags = ground (arith, bit_and_mask 1 flags)

folder_bit : (flags : ℕ) → has_flag flags flag_folder ≡ (flags / 2 % 2 == 1)
folder_bit flags = ground (arith, bit_and_step flags 2, bit_and_mask 1 (flags / 2))

-- What a search for the entry is to give: where the contents of a folder begin, and else the entry.
unfoldable pub target : Image → ℕ → Lookup
target romfs e = if romfs (e + 8) / 2 % 2 == 1 then entry (entry_offset romfs e) else entry e

-- The entry is enabled, and its name, in upper case and with its zero, is the one given.
abbrev pub BearsName : Image → ℕ → List ℕ → Type 0
BearsName romfs e filename =
    (romfs (e + 8) % 2 ≡ 1)
    × (romfs (e + 9) ≡ length filename + 1)
    × ((k : ℕ) → k < length filename → sc_toupper (romfs (e + 10 + k)) ≡ get_or filename k 0)

-- Of the entries, `found` is the first one that bears the name; it is a null pointer if none does.
unfoldable pub IsFirstNamed : Image → List ℕ → List ℕ → Lookup → Type 0
IsFirstNamed romfs filename [] found = found ≡ null
IsFirstNamed romfs filename (e ∷ es) found =
    (BearsName romfs e filename × (found ≡ target romfs e))
    ⊎ ((BearsName romfs e filename → ⊥) × IsFirstNamed romfs filename es found)

same_characters :
    (cs : List ℕ) (romfs : Image) (txt : ℕ)
    → compare_filename cs romfs txt ≡ true
    → (k : ℕ) → k < length cs
    → sc_toupper (romfs (txt + k)) ≡ get_or cs k 0
unfolding compare_filename
same_characters [] romfs txt h k hk = absurd (omega arith)
same_characters (c ∷ cs) romfs txt h zero hk =
    let e : c ≡ sc_toupper (romfs txt) = ground arith in
    ap (λ a. sc_toupper (romfs a)) (omega arith) ∙ sym e
same_characters (c ∷ cs) romfs txt h (suc k) hk =
    let rest : compare_filename cs romfs (txt + 1) ≡ true = ground arith in
    ap (λ a. sc_toupper (romfs a)) (omega arith)
    ∙ same_characters cs romfs (txt + 1) rest k (omega arith)

compare_filename_lem :
    (cs : List ℕ) (romfs : Image) (txt : ℕ)
    → ((k : ℕ) → k < length cs → sc_toupper (romfs (txt + k)) ≡ get_or cs k 0)
    → compare_filename cs romfs txt ≡ true
unfolding compare_filename
compare_filename_lem [] romfs txt h = refl
compare_filename_lem (c ∷ cs) romfs txt h =
    let first : sc_toupper (romfs (txt + 0)) ≡ c = h 0 (omega arith) in
    let e : c ≡ sc_toupper (romfs txt) = sym first ∙ ap (λ a. sc_toupper (romfs a)) (omega arith) in
    rw (eqb_of_eq c (sc_toupper (romfs txt)) e) (
      compare_filename_lem cs romfs (txt + 1)
        λ k hk. ap (λ a. sc_toupper (romfs a)) (omega arith) ∙ h (suc k) (omega arith))

entry_matches-BearsName :
    (romfs : Image) (e : ℕ) (filename : List ℕ)
    → entry_matches romfs e filename ≡ true
    → BearsName romfs e filename
unfolding entry_matches
entry_matches-BearsName romfs e filename h =
    let enabled : has_flag (entry_flags romfs e) flag_enabled ≡ true = ground arith in
    let text : compare_filename filename romfs (e + entry_size) ≡ true = ground arith in
    (
      ground (arith, enabled_bit (entry_flags romfs e)),
      ground arith,
      same_characters filename romfs (e + entry_size) text,
    )

BearsName-entry_matches :
    (romfs : Image) (e : ℕ) (filename : List ℕ)
    → BearsName romfs e filename
    → entry_matches romfs e filename ≡ true
unfolding entry_matches
BearsName-entry_matches romfs e filename (enabled, len, text) =
    let bit : (entry_flags romfs e % 2 == 1) ≡ true = eqb_of_eq _ 1 enabled in
    rw
      (
        enabled_bit (entry_flags romfs e),
        bit,
        eqb_of_eq (entry_filename_len romfs e) (length filename + 1) len,
      )
      (compare_filename_lem filename romfs (e + entry_size) text)

unnamed :
    (romfs : Image) (e : ℕ) (filename : List ℕ)
    → entry_matches romfs e filename ≡ false
    → BearsName romfs e filename
    → ⊥
unnamed romfs e filename miss named =
    let hit : entry_matches romfs e filename ≡ true =
      BearsName-entry_matches romfs e filename named in
    absurd (cc)

-- In a folder, a search returns the first enabled entry with the name, or what it holds where that
-- is a folder, and a null pointer if there is none; fuel for each entry is enough.
pub search_folder-IsFirstNamed :
    (fuel : ℕ) (romfs : Image) (e : ℕ) (es filename : List ℕ)
    → IsFolder romfs e es
    → length es < fuel
    → IsFirstNamed romfs filename (e ∷ es) (search_folder fuel romfs e filename)
unfolding search_folder IsFirstNamed IsFolder target
search_folder-IsFirstNamed zero romfs e es filename folder h = absurd (omega arith)
search_folder-IsFirstNamed (suc fuel) romfs e [] filename folder h =
    elim (Bool-cases (entry_matches romfs e filename)) [
      | inl hit ↦
          rw (hit, folder_bit (entry_flags romfs e))
            (inl (entry_matches-BearsName romfs e filename hit, refl))
      | inr miss ↦ rw (miss, folder) (inr (unnamed romfs e filename miss, refl))
    ]
search_folder-IsFirstNamed (suc fuel) romfs e (e' ∷ es) filename folder h =
    elim (Bool-cases (entry_matches romfs e filename)) [
      | inl hit ↦
          rw (hit, folder_bit (entry_flags romfs e))
            (inl (entry_matches-BearsName romfs e filename hit, refl))
      | inr miss ↦
          rw (miss, folder.0, sym (folder.1.0))
            (inr (
              unnamed romfs e filename miss,
              search_folder-IsFirstNamed fuel romfs e' es filename folder.1.1 (omega arith),
            ))
    ]

-- The first enabled one of the entries.
unfoldable pub first_enabled : Image → List ℕ → Lookup
first_enabled romfs [] = null
first_enabled romfs (e ∷ es) =
    if has_flag (entry_flags romfs e) flag_enabled then entry e else first_enabled romfs es

abbrev same : Bool → Bool → Bool
same true b = b
same false b = not b

same-eq : (a b : Bool) → same a b ≡ true → a ≡ b
same-eq a b h = ground arith

disabled_or :
    (b : Bool) (x y z : Lookup)
    → (if not b then y else if not b then z else x) ≡ (if b then x else y)
disabled_or true x y z = refl
disabled_or false x y z = refl

if-not : (b : Bool) (x y : Lookup) → (if not b then x else y) ≡ (if b then y else x)
if-not true x y = refl
if-not false x y = refl

flags_check :
    every_below
      (λ f.
        same
          (bit_and f (flag_lastentry + flag_enabled) == flag_lastentry)
          (has_flag f flag_lastentry && not (has_flag f flag_enabled)))
      256
    ≡ true
unfolding every_below
flags_check = refl

-- The test of both flags at once.
last_disabled :
    (f : ℕ)
    → f < 256
    → (bit_and f (flag_lastentry + flag_enabled) == flag_lastentry)
      ≡ has_flag f flag_lastentry && not (has_flag f flag_enabled)
last_disabled f h = same-eq _ _ (every_below_sound _ 256 f flags_check h)

skip_entries-first_enabled :
    (fuel : ℕ) (romfs : Image) (e e' : ℕ) (es : List ℕ)
    → ((a : ℕ) → romfs a < 256)
    → IsFolder romfs e (e' ∷ es)
    → length es < fuel
    → skip_entries fuel romfs e ≡ first_enabled romfs (e' ∷ es)
unfolding skip_entries first_enabled IsFolder
skip_entries-first_enabled zero romfs e e' es bytes folder h = absurd (omega arith)
skip_entries-first_enabled (suc fuel) romfs e e' [] bytes folder h =
    let b = has_flag (entry_flags romfs e') flag_enabled in
    rw (sym (folder.1.0), last_disabled (entry_flags romfs e') (bytes _), folder.1.1)
      (disabled_or b (entry e') null (skip_entries fuel romfs e'))
skip_entries-first_enabled (suc fuel) romfs e e' (e'' ∷ es) bytes folder h =
    let b = has_flag (entry_flags romfs e') flag_enabled in
    rw (sym (folder.1.0), last_disabled (entry_flags romfs e') (bytes _), folder.1.1.0)
      (ap (λ r. if not b then r else entry e')
          (skip_entries-first_enabled fuel romfs e' e'' es bytes folder.1.1 (omega arith))
        ∙ if-not b (first_enabled romfs (e'' ∷ es)) (entry e'))

-- After an entry of a folder comes the first enabled one of those that follow it in the folder,
-- or a null pointer if there is none; fuel for each of them is enough.
pub romfs_get_next_entry-first_enabled :
    (fuel : ℕ) (romfs : Image) (e : ℕ) (es : List ℕ)
    → ((a : ℕ) → romfs a < 256)
    → IsFolder romfs e es
    → length es ≤ fuel
    → romfs_get_next_entry fuel romfs e ≡ first_enabled romfs es
unfolding romfs_get_next_entry first_enabled IsFolder
romfs_get_next_entry-first_enabled fuel romfs e [] bytes folder h = rw folder refl
romfs_get_next_entry-first_enabled fuel romfs e (e' ∷ es) bytes folder h =
    rw (folder.0) (skip_entries-first_enabled fuel romfs e e' es bytes folder (omega arith))
