-- ===== src/Compress.antt =====
-- The framed compression of satcom_lib/sc_compress.c: `comp_exec` and `decomp_exec`. LZF, a
-- library copied into that file, is a parameter: `lzf_compress input out_len` is the bytes written,
-- none where it returns 0, and `lzf_decompress input out_len` likewise. A pointer to bytes is the
-- function from an index to the byte there.
mod Header
mod RoundTrip
mod Tests
pub use ftx.Base.Words.{u32, sub32}
use ftx.Base.{ℕ, ◌+◌, ◌-◌, ◌*◌, ◌/◌, ◌%◌, ◌^◌, Bool, true, false, ◌&&◌, ◌||◌, not}
use ftx.Base.{List, [], ◌∷◌, ◌++◌, length, tabulate, ◌==◌, ltb, if◌then◌else◌, bit_or, bit_and}
use ftx.Base.Words.{byte_of}

-- `n` bytes at `p + off`
abbrev pub bytes_at : (ℕ → ℕ) → ℕ → ℕ → List ℕ
bytes_at p off n = tabulate n (λ i. p (off + i))

unfoldable pub comp_header_get_data : (ℕ → ℕ) → ℕ → ℕ → ℕ
comp_header_get_data header data_size index =
    let at = 1 + index * data_size in
    if data_size == 4
    then bit_or
        (bit_or (bit_or (header (at + 0) * 2 ^ 24) (header (at + 1) * 2 ^ 16))
          (header (at + 2) * 2 ^ 8))
        (header (at + 3))
    else if data_size == 2
    then bit_or (header (at + 0) * 2 ^ 8) (header (at + 1))
    else header (at + 0)

-- The bytes stored from `header[1 + index * data_size]` on.
unfoldable pub comp_header_set_data : ℕ → ℕ → List ℕ
comp_header_set_data data_size val =
    if data_size == 4
    then byte_of val 24 ∷ byte_of val 16 ∷ byte_of val 8 ∷ byte_of val 0 ∷ []
    else if data_size == 2
    then byte_of val 8 ∷ byte_of val 0 ∷ []
    else byte_of val 0 ∷ []

unfoldable pub comp_data_size : ℕ → ℕ
comp_data_size inl = if ltb 65500 inl then 4 else if ltb 240 inl then 2 else 1

unfoldable pub comp_output : (ℕ → ℕ) → ℕ → ℕ → List ℕ → List ℕ
comp_output ind inl data_size [] = bit_or (0 * 2 ^ 4) (bit_and data_size 7) ∷ bytes_at ind 0 inl
comp_output ind inl data_size (b ∷ bs) =
    bit_or (1 * 2 ^ 4) (bit_and data_size 7) ∷ (comp_header_set_data data_size inl ++ (b ∷ bs))

unfoldable pub decomp_header_ok : ℕ → ℕ → Bool
decomp_header_ok compress_flag data_size = not (
    ltb 1 compress_flag || (not (data_size == 1) && (not (data_size == 2) && not (data_size == 4))))

module _ (lzf_compress : List ℕ → ℕ → List ℕ) where
  -- The bytes of `outd`; the value returned is their number.
  unfoldable pub comp_exec : (ℕ → ℕ) → ℕ → List ℕ
  comp_exec ind inl =
      let data_size = comp_data_size inl in
      let header_len = 1 + data_size in
      comp_output ind inl data_size (
        if ltb 2 inl
        then lzf_compress (bytes_at ind 0 inl) (sub32 (sub32 inl header_len) 1)
        else [])

module _ (lzf_decompress : List ℕ → ℕ → List ℕ) where
  -- The value returned, and the bytes of `outd` where it is no null pointer.
  unfoldable pub decomp_exec_internal : (ℕ → ℕ) → ℕ → Bool → ℕ × List ℕ
  decomp_exec_internal ind inl outd =
      let compress_flag = ind 0 / 2 ^ 4 in
      let data_size = bit_and (ind 0) 15 in
      if inl == 0
      then (0, [])
      else if not (decomp_header_ok compress_flag data_size)
      then (0, [])
      else if not (compress_flag == 0)
      then (let header_len = 1 + data_size in
          let outl = comp_header_get_data ind data_size 0 in
          let output = lzf_decompress (bytes_at ind header_len (sub32 inl header_len)) outl in
          if outd then (length output, output) else (outl, []))
      else (let outl = sub32 inl 1 in if outd then (outl, bytes_at ind 1 outl) else (outl, []))

  unfoldable pub decomp_exec : (ℕ → ℕ) → ℕ → ℕ × List ℕ
  decomp_exec ind inl = decomp_exec_internal ind inl true

  unfoldable pub decomp_getsize : (ℕ → ℕ) → ℕ → ℕ
  decomp_getsize ind inl = (decomp_exec_internal ind inl false).0
