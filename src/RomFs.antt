-- ===== src/RomFs.antt =====
-- The read-only file system of satcom_lib/sc_romfs.c. The image is the function from an offset in
-- it to the byte there, big-endian as on the Saturn; a pointer to an entry is the entry's offset.
-- Its loops are on fuel, and `endless` or `none` is fuel run out; `none` is also a chunk that its
-- buffer cannot hold. LZF is a parameter, as in Compress.
pub mod Ranges
pub mod Slice
mod Walk
pub mod Entries
pub mod Tests
pub use ftx.Base.Words.{u32}
use ftx.Base.{ℕ, zero, suc, ◌+◌, ◌-◌, ◌*◌, ◌/◌, ◌%◌, ◌^◌, Bool, true, false, ◌&&◌, ◌||◌, not}
use ftx.Base.{List, [], ◌∷◌, ◌++◌, length, tabulate, Option, none, some, ◌==◌, ltb, leb}
use ftx.Base.{if◌then◌else◌, bit_and}
use ftx.Checksum.{crc32_calc}
use ftx.Compress.{decomp_exec, bytes_at}

abbrev pub Image : Type 0
Image = ℕ → ℕ

abbrev pub word16 : Image → ℕ → ℕ
word16 p at = p at * 2 ^ 8 + p (at + 1)

abbrev pub word32 : Image → ℕ → ℕ
word32 p at = word16 p at * 2 ^ 16 + word16 p (at + 2)

-- sizeof(romfs_header_t) and sizeof(romfs_entry_t), packed
abbrev pub header_size : ℕ
header_size = 24

abbrev pub entry_size : ℕ
entry_size = 10

abbrev pub flag_enabled : ℕ
flag_enabled = 0x01

abbrev pub flag_folder : ℕ
flag_folder = 0x02

abbrev pub flag_compressed : ℕ
flag_compressed = 0x20

abbrev pub flag_lastentry : ℕ
flag_lastentry = 0x40

abbrev pub filename_maxlen : ℕ
filename_maxlen = 27

abbrev pub has_flag : ℕ → ℕ → Bool
has_flag flags flag = not (bit_and flags flag == 0)

-- The fields of `romfs_entry_t`.
abbrev pub entry_offset : Image → ℕ → ℕ
entry_offset romfs e = word32 romfs e

abbrev pub entry_data_size : Image → ℕ → ℕ
entry_data_size romfs e = word32 romfs (e + 4)

abbrev pub entry_flags : Image → ℕ → ℕ
entry_flags romfs e = romfs (e + 8)

abbrev pub entry_filename_len : Image → ℕ → ℕ
entry_filename_len romfs e = romfs (e + 9)

abbrev pub sc_toupper : ℕ → ℕ
sc_toupper c = if leb 97 c && leb c 122 then c - 97 + 65 else c

unfoldable pub romfs_decomp_getsize : Image → ℕ → ℕ
romfs_decomp_getsize ind at = word32 ind at

-- The bytes of a chunk that are copied: those whose offset in the file is in the range.
unfoldable pub select_range : ℕ → ℕ → ℕ → List ℕ → List ℕ
select_range in_offset offset size [] = []
select_range in_offset offset size (b ∷ bs) =
    let rest = select_range (u32 (in_offset + 1)) offset size bs in
    if leb offset in_offset && ltb in_offset (u32 (offset + size)) then b ∷ rest else rest

unfoldable pub append_chunk : List ℕ → Option (List ℕ) → Option (List ℕ)
append_chunk copied none = none
append_chunk copied (some bytes) = some (copied ++ bytes)

-- `ROMFS_COMP_CHUNK`, the size of `_romfs_decomp_buffer`.
abbrev pub romfs_comp_chunk : ℕ
romfs_comp_chunk = 8192

module _ (lzf_decompress : List ℕ → ℕ → List ℕ) where
  -- The chunks from `ind` on, `in_offset` bytes into the file: the bytes stored to `outd`. A chunk
  -- that `_romfs_decomp_buffer` cannot hold is written past its end, of which the model has no result.
  unfoldable pub decomp_chunks : ℕ → Image → ℕ → ℕ → ℕ → ℕ → ℕ → ℕ → Option (List ℕ)
  decomp_chunks zero p ind in_offset len decomp_len offset size = none
  decomp_chunks (suc fuel) p ind in_offset len decomp_len offset size =
      let chunklen = word16 p ind in
      let chunk = decomp_exec lzf_decompress (λ i. p (ind + 2 + i)) chunklen in
      let in_offset' = u32 (in_offset + chunk.0) in
      let len' = u32 (len + chunk.0) in
      let copied = select_range in_offset offset size chunk.1 in
      let rest = decomp_chunks fuel p (ind + 2 + chunklen) in_offset' len' decomp_len offset size in
      if ltb romfs_comp_chunk chunk.0
      then none
      else if leb (u32 (offset + size)) in_offset'
      then some copied
      else if ltb len' decomp_len
      then append_chunk copied rest
      else some copied

  -- The value returned and the bytes stored.
  unfoldable pub romfs_decomp_exec : ℕ → Image → ℕ → ℕ → ℕ → ℕ × Option (List ℕ)
  romfs_decomp_exec fuel p ind offset size =
      let decomp_len = romfs_decomp_getsize p ind in
      (decomp_len, decomp_chunks fuel p (ind + 4) 0 0 decomp_len offset size)

abbrev pub magic : List ℕ
magic = 82 ∷ 111 ∷ 109 ∷ 70 ∷ 115 ∷ 49 ∷ 0xCA ∷ 0xFE ∷ []

abbrev pub same_bytes : List ℕ → Image → ℕ → Bool
same_bytes [] p at = true
same_bytes (b ∷ bs) p at = (p at == b) && same_bytes bs p (at + 1)

-- With a null pointer for the image, `none`, it returns 0.
unfoldable pub romfs_check_header : Option Image → Bool → Bool
romfs_check_header none crc_check = false
romfs_check_header (some romfs) crc_check =
    let size = word32 romfs 8 in
    if not (same_bytes magic romfs 0)
    then false
    else if ltb size header_size
    then false
    else if crc_check
    then word32 romfs 12 == crc32_calc (bytes_at romfs header_size (size - header_size))
    else true

-- What a search for an entry returns: a pointer to one, or a null pointer.
pub data Lookup : Type 0 where
  entry : ℕ → Lookup
  null : Lookup
  endless : Lookup

-- `filename` holds the `len - 1` characters compared.
unfoldable pub compare_filename : List ℕ → Image → ℕ → Bool
compare_filename [] romfs txt = true
compare_filename (c ∷ cs) romfs txt =
    let rest = compare_filename cs romfs (txt + 1) in
    if not (c == sc_toupper (romfs txt)) then false else rest

-- The entry `e` is the one looked for.
unfoldable pub entry_matches : Image → ℕ → List ℕ → Bool
entry_matches romfs e filename =
    has_flag (entry_flags romfs e) flag_enabled
    && ((entry_filename_len romfs e == length filename + 1)
        && compare_filename filename romfs (e + entry_size))

unfoldable pub search_folder : ℕ → Image → ℕ → List ℕ → Lookup
search_folder zero romfs e filename = endless
search_folder (suc fuel) romfs e filename =
    let rest = search_folder fuel romfs (e + entry_size + entry_filename_len romfs e) filename in
    if entry_matches romfs e filename
    then if has_flag (entry_flags romfs e) flag_folder
      then entry (entry_offset romfs e)
      else entry e
    else if has_flag (entry_flags romfs e) flag_lastentry
    then null
    else rest

-- From the character `i` of the path on; the name that it is in began at `j`.
unfoldable pub follow_path : ℕ → Image → (ℕ → ℕ) → ℕ → ℕ → ℕ → Lookup
follow_path zero romfs path i j e = endless
follow_path (suc fuel) romfs path i j e =
    let len = i + 1 - j in
    let next : ℕ → ℕ → Lookup =
      λ j' e'. if path i == 0 then entry e' else follow_path fuel romfs path (i + 1) j' e' in
    let filename = tabulate (len - 1) (λ k. sc_toupper (path (j + k))) in
    if (path i == 47) || (path i == 0)
    then if leb len 1
      then entry e
      else if ltb filename_maxlen len
      then null
      else step next (search_folder (suc fuel) romfs e filename)
    else next j e
  where
    step : (ℕ → ℕ → Lookup) → Lookup → Lookup
    step next (entry e') = next (i + 1) e'
    step next null = null
    step next endless = endless

unfoldable pub romfs_get_first_entry : ℕ → Option Image → (ℕ → ℕ) → Lookup
romfs_get_first_entry fuel none path = null
romfs_get_first_entry fuel (some romfs) path =
    let i = if path 0 == 47 then 1 else 0 in
    if not (romfs_check_header (some romfs) false)
    then null
    else follow_path fuel romfs path i i header_size

unfoldable pub skip_entries : ℕ → Image → ℕ → Lookup
skip_entries zero romfs e = endless
skip_entries (suc fuel) romfs e =
    let e' = e + entry_size + entry_filename_len romfs e in
    let rest = skip_entries fuel romfs e' in
    let flags = entry_flags romfs e' in
    if bit_and flags (flag_lastentry + flag_enabled) == flag_lastentry
    then null
    else if not (has_flag flags flag_enabled)
    then rest
    else entry e'

-- `e` is no null pointer.
unfoldable pub romfs_get_next_entry : ℕ → Image → ℕ → Lookup
romfs_get_next_entry fuel romfs e =
    if has_flag (entry_flags romfs e) flag_lastentry then null else skip_entries fuel romfs e

-- The entry is passed by its address.
unfoldable pub romfs_get_entry_size : Image → ℕ → ℕ
romfs_get_entry_size romfs e =
    if has_flag (entry_flags romfs e) flag_folder
    then 0
    else if has_flag (entry_flags romfs e) flag_compressed
    then romfs_decomp_getsize romfs (entry_offset romfs e)
    else entry_data_size romfs e

-- The bytes stored to `buffer`.
unfoldable pub romfs_get_entry_data :
    (List ℕ → ℕ → List ℕ) → ℕ → Image → ℕ → ℕ → ℕ → Option (List ℕ)
romfs_get_entry_data lzf_decompress fuel romfs e offset size =
    if has_flag (entry_flags romfs e) flag_folder
    then some []
    else if has_flag (entry_flags romfs e) flag_compressed
    then (romfs_decomp_exec lzf_decompress fuel romfs (entry_offset romfs e) offset size).1
    else some (bytes_at romfs (entry_offset romfs e + offset) size)

-- The pointer, `none` for a null one, and what is stored to `*datalen`. The test for a folder sets
-- only `ret`, which both branches of the next test set again.
unfoldable pub romfs_get_entry_ptr : Image → ℕ → Option ℕ × ℕ
romfs_get_entry_ptr romfs e =
    if has_flag (entry_flags romfs e) flag_compressed
    then (none, 0)
    else (some (entry_offset romfs e), entry_data_size romfs e)
