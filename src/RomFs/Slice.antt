-- ===== src/RomFs/Slice.antt =====
-- Decompression of a range of a file stored in chunks.
use ftx.Base.{ℕ, zero, suc, ◌+◌, ◌^◌, ◌≤◌, ◌<◌, ◌≡◌, refl, sym, ap, ◌∙◌, arith}
use ftx.Base.{List, [], ◌∷◌, ◌++◌, length, take, drop, length-append, append-nil}
use ftx.Base.{◌⊎◌, inl, inr, true, false, Option, some, ltb, leb, ltb_of_le, if◌then◌else◌}
use ftx.Compress.{decomp_exec}
use ftx.RomFs.{
  Image, romfs_comp_chunk, u32, word16, word32, decomp_chunks, append_chunk, romfs_decomp_exec,
  romfs_decomp_getsize,
}
use ftx.RomFs.Ranges.{join, part, part-append, part_zero, part_past, select_range-part}

stops : (end k : ℕ) → (end ≤ k) ⊎ (k < end)
stops end k = ground arith

module _ (lzf_decompress : List ℕ → ℕ → List ℕ) (p : Image) where
  -- From `at` on lie chunks that decompress to `pieces`, none of them empty or larger than the
  -- buffer that a chunk is decompressed to.
  unfoldable pub IsChunks : ℕ → List (List ℕ) → Type 0
  IsChunks at [] = Unit
  IsChunks at (piece ∷ pieces) =
      ◌≡◌ {A = ℕ × List ℕ} (decomp_exec lzf_decompress (λ i. p (at + 2 + i)) (word16 p at))
        (length piece, piece)
      × ((0 < length piece) × (length piece ≤ romfs_comp_chunk))
      × IsChunks (at + 2 + word16 p at) pieces

  chunk_step :
      (fuel at k total offset size : ℕ) (piece : List ℕ) (pieces : List (List ℕ))
      → IsChunks at (piece ∷ pieces)
      → k + length piece < 2 ^ 32
      → offset + size < 2 ^ 32
      → decomp_chunks lzf_decompress (suc fuel) p at k k total offset size ≡ (
          if leb (offset + size) (k + length piece)
          then some (part offset (offset + size) k piece)
          else if ltb (k + length piece) total
          then append_chunk (part offset (offset + size) k piece) (
              decomp_chunks lzf_decompress fuel p
                (at + 2 + word16 p at)
                (k + length piece)
                (k + length piece)
                total
                offset
                size)
          else some (part offset (offset + size) k piece))
  unfolding IsChunks decomp_chunks
  chunk_step fuel at k total offset size piece pieces chunks fits ends =
      let u : u32 (k + length piece) ≡ k + length piece = omega arith in
      let v : u32 (offset + size) ≡ offset + size = omega arith in
      rw chunks.0 (
        rw
          (
            u,
            v,
            ltb_of_le romfs_comp_chunk (length piece) chunks.1.1,
            select_range-part offset size k piece ends fits,
          )
          refl)

  -- What is left of the range after a chunk that ends at or behind the range's end.
  last_chunk :
      (offset end k : ℕ) (piece rest : List ℕ)
      → offset ≤ end
      → end ≤ k + length piece
      → part offset end k piece ≡ part offset end k (piece ++ rest)
  last_chunk offset end k piece rest h stop = sym (
      part-append offset end k piece rest h
      ∙ ap (λ l. part offset end k piece ++ l) (part_past offset end (k + length piece) rest stop)
      ∙ append-nil _)

  decomp_chunks-part :
      (fuel at k total offset size : ℕ) (piece : List ℕ) (pieces : List (List ℕ))
      → length (piece ∷ pieces) ≤ fuel
      → IsChunks at (piece ∷ pieces)
      → k + length (join (piece ∷ pieces)) ≡ total
      → total < 2 ^ 32
      → offset + size < 2 ^ 32
      → decomp_chunks lzf_decompress fuel p at k k total offset size
        ≡ some (part offset (offset + size) k (join (piece ∷ pieces)))
  unfolding IsChunks append_chunk
  decomp_chunks-part zero at k total offset size piece pieces h chunks len fits ends =
      absurd (omega arith)
  decomp_chunks-part (suc fuel) at k total offset size piece [] h chunks len fits ends =
      chunk_step fuel at k total offset size piece [] chunks (omega (arith, length-append piece []))
        ends
      ∙ elim (stops (offset + size) (k + length piece)) [
        | inl stop ↦
            let c : leb (offset + size) (k + length piece) ≡ true = ground arith in rw c whole_piece
        | inr on ↦
            let c : leb (offset + size) (k + length piece) ≡ false = ground arith in
            let d : ltb (k + length piece) total ≡ false = ground (arith, length-append piece []) in
            rw (c, d) whole_piece
      ]
    where
      whole_piece :
          some (part offset (offset + size) k piece)
          ≡ some (part offset (offset + size) k (piece ++ []))
      whole_piece = ap (λ l. some (part offset (offset + size) k l)) (sym (append-nil piece))
  decomp_chunks-part (suc fuel) at k total offset size piece (q ∷ qs) h chunks len fits ends =
      chunk_step fuel at k total offset size piece (q ∷ qs) chunks
        (omega (arith, length-append piece (join (q ∷ qs)))) ends
      ∙ elim (stops (offset + size) (k + length piece)) [
        | inl stop ↦
            let c : leb (offset + size) (k + length piece) ≡ true = ground arith in
            rw c (
              ap some
                (last_chunk offset (offset + size) k piece (join (q ∷ qs)) (omega arith) stop))
        | inr on ↦
            let c : leb (offset + size) (k + length piece) ≡ false = ground arith in
            let d : ltb (k + length piece) total ≡ true = ground (
              arith,
              length-append piece (join (q ∷ qs)),
              length-append q (join qs),
              chunks.2.1.0,
            ) in
            rw
              (
                c,
                d,
                decomp_chunks-part fuel (at + 2 + word16 p at) (k + length piece) total offset size
                    q qs (omega arith) chunks.2 (omega (arith, length-append piece (join (q ∷ qs))))
                    fits ends,
              )
              (ap some
                (sym (part-append offset (offset + size) k piece (join (q ∷ qs)) (omega arith))))
      ]

  -- For a file of at least one chunk, none of them empty or above 8 KiB, below 4 GB, whose header holds its
  -- length, `romfs_decomp_exec` returns that length and stores `size` bytes of the file from
  -- `offset` on, or as many as there are; as much fuel as there are chunks is enough.
  pub romfs_decomp_exec-slice :
      (fuel at offset size : ℕ) (piece : List ℕ) (pieces : List (List ℕ))
      → length (piece ∷ pieces) ≤ fuel
      → IsChunks (at + 4) (piece ∷ pieces)
      → word32 p at ≡ length (join (piece ∷ pieces))
      → length (join (piece ∷ pieces)) < 2 ^ 32
      → offset + size < 2 ^ 32
      → ◌≡◌ {A = ℕ × Option (List ℕ)}
          (romfs_decomp_exec lzf_decompress fuel p at offset size)
          (length (join (piece ∷ pieces)), some (take size (drop offset (join (piece ∷ pieces)))))
  unfolding romfs_decomp_exec romfs_decomp_getsize
  romfs_decomp_exec-slice fuel at offset size piece pieces h chunks len fits ends =
      rw
        (
          len,
          decomp_chunks-part fuel (at + 4) 0 (length (join (piece ∷ pieces))) offset size piece
              pieces h chunks (omega arith) fits ends,
          part_zero offset size (join (piece ∷ pieces)),
        )
        refl
