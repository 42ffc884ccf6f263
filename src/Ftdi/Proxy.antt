-- ===== src/Ftdi/Proxy.antt =====
-- `write_all_ftdi` and `trace_rsp_stream` of src/ftdi_gdb.cpp, the proxy between a debugger's
-- connection and the console. What `ftdi_tcioflush` leaves of
-- the bytes that wait to be read is a parameter, `purge`; that it may also take bytes that the driver
-- has accepted out of the device's own buffer is not seen here, where `sent` is what was accepted.
use ftx.Base.{ℕ, zero, suc, ◌+◌, ◌*◌, ◌/◌, min, max, Bool, true, false, ◌||◌, List, [], ◌∷◌, ◌++◌}
use ftx.Base.{Option, none, some, length, take, drop, ltb, ◌==◌, if◌then◌else◌}
use ftx.Xfer.Link.{value, hang, M, bind, ftdi_write_data}

-- Between two rounds that write a byte at most six halve the chunk.
abbrev pub enough_rounds : List ℕ → ℕ
enough_rounds bytes = 7 * length bytes + 7

module _ (purge : List ℕ → List ℕ) where
  -- Up to `left` attempts to write a chunk; `none` if none of them writes a byte.
  unfoldable pub write_chunk : ℕ → List ℕ → M (Option ℕ)
  write_chunk zero chunk l = value none l
  write_chunk (suc left) chunk l = bind (ftdi_write_data chunk l) λ n l'. elim n [
    | none ↦ write_chunk left chunk (record l' { incoming = purge l'.incoming })
    | some zero ↦ write_chunk left chunk l'
    | some (suc k) ↦ value (some (suc k)) l'
  ]

  -- The loop, for the bytes from `written_total` on: how many bytes are written in the end, and
  -- whether those are all. A round that writes nothing halves the chunk, and the next one that does
  -- doubles it.
  unfoldable pub write_rounds : ℕ → ℕ → ℕ → List ℕ → M (ℕ × Bool)
  write_rounds fuel max_chunk_size written_total [] l = value (written_total, true) l
  write_rounds zero max_chunk_size written_total (b ∷ bs) l = hang
  write_rounds (suc fuel) max_chunk_size written_total (b ∷ bs) l =
      bind (write_chunk 3 (take (min max_chunk_size (length (b ∷ bs))) (b ∷ bs)) l) λ n l'. elim n [
        | some k ↦
            write_rounds fuel (min 64 (max_chunk_size * 2)) (written_total + k) (drop k (b ∷ bs)) l'
        | none ↦
            let again = write_rounds fuel (max 1 (max_chunk_size / 2)) written_total (b ∷ bs) l' in
            if ltb 1 max_chunk_size then again else value (written_total, false) l'
      ]

  unfoldable pub write_all_ftdi : List ℕ → M (ℕ × Bool)
  write_all_ftdi bytes = write_rounds (enough_rounds bytes) 64 0 bytes

-- After a '$': the text up to the first '#' and the two characters behind it, if they are there.
unfoldable pub checksum_text : List ℕ → Option (List ℕ)
checksum_text (h ∷ k ∷ cs) = some (35 ∷ h ∷ k ∷ [])
checksum_text cs = none

unfoldable pub prepend : ℕ → Option (List ℕ) → Option (List ℕ)
prepend c none = none
prepend c (some text) = some (c ∷ text)

unfoldable pub packet : List ℕ → Option (List ℕ)
packet [] = none
packet (c ∷ cs) = let rest = prepend c (packet cs) in if c == 35 then checksum_text cs else rest

-- The loop over the buffer, of which the first `skip` characters have been printed: the lines that
-- are printed, without their prefix, and what stays in the buffer.
unfoldable pub trace_loop : ℕ → List ℕ → List (List ℕ) × List ℕ
trace_loop skip [] = ([], [])
trace_loop (suc skip) (c ∷ cs) = trace_loop skip cs
trace_loop zero (c ∷ cs) =
    let (lines, rest) = trace_loop 0 cs in
    let from_here : List (List ℕ) × List ℕ = elim (packet cs) [
      | none ↦ ([], c ∷ cs)
      | some text ↦ let (more, left) = trace_loop (length text) cs in ((c ∷ text) ∷ more, left)
    ] in
    if c == 36
    then from_here
    else if (c == 43) || (c == 45)
    then ((c ∷ []) ∷ lines, rest)
    else (lines, rest)

unfoldable pub trace_rsp_stream : List ℕ → List ℕ → Bool → List (List ℕ) × List ℕ
trace_rsp_stream carry received false = ([], carry)
trace_rsp_stream carry received true = trace_loop 0 (carry ++ received)
