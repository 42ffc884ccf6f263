-- ===== src/Xfer/Progress/Download.antt =====
-- `DoSdDownload` of src/xfer.cpp under a driver that makes progress.
use ftx.Base.{ℕ, zero, suc, ◌+◌, ◌-◌, ◌≤◌, ◌<◌, min, ◌≡◌, refl, sym, arith}
use ftx.Base.{true, false, List, [], ◌∷◌, ◌++◌, append-nil, append_assoc, none, some}
use ftx.Base.{length, take, drop, length-take, length-drop, take-append-drop}
use ftx.Base.{All, le→leb, eqb_of_eq}
use ftx.Checksum.{crc_usbdc_update}
use ftx.Checksum.Crc8.{IsByte, crc_usbdc_update-append, crc_usbdc_update-lt, crc_usbdc_update-nil}
use ftx.Xfer.Link.{Answer}
use ftx.Xfer.Upload.{calm}
use ftx.Xfer.Attempt.{◌>>=◌, ◌>>◌, either_way}
use ftx.Xfer.Remote.{download, patience, header, read_exact_from_device}
use ftx.Xfer.Remote.{send_remote_io_command, read_remote_io_reply}
use ftx.Xfer.Remote.Framing.{Frame, header-Frame}
use ftx.Xfer.Progress.{Lively, moves, Reaches, read_exact_from_device_live}
use ftx.Xfer.Progress.Frames.{Reaches-bind, Reaches-either_way, Reaches->>=}
use ftx.Xfer.Progress.Frames.{send_remote_io_command_live, read_remote_io_reply_live}
use ftx.Xfer.SdTransfer.{read_byte, receive_chunks, compare_checksum, announced_size}
use ftx.Xfer.SdTransfer.{do_sd_download}
use ftx.Xfer.SdDownloads.{Announces, All-left}

module _ (later sent : List ℕ) (recv_buf : ℕ) where
  -- The loop with `file` to come.
  abbrev Finishes : ℕ → List Answer → ℕ → List ℕ → List ℕ → Type 0
  Finishes fuel answers c got file =
      Reaches patience answers (length file)
        (receive_chunks fuel (length file) c got (calm answers (file ++ later) sent recv_buf))
        (got ++ file, some (crc_usbdc_update c file)) later sent recv_buf

  chunk_live :
      (fuel left : ℕ) (answers : List Answer) (c : ℕ) (got first second whole : List ℕ)
      → first ++ second ≡ whole
      → c < 256
      → All IsByte first
      → All IsByte second
      → length first ≡ min 4096 (suc left)
      → length first + length second ≡ suc left
      → Lively patience 0 answers
      → suc left ≤ moves answers
      → ((rest : List Answer)
          → Lively patience 0 rest
          → length second ≤ moves rest
          → Finishes fuel rest (crc_usbdc_update c first) (got ++ first) second)
      → Reaches patience answers
          (suc left)
          (receive_chunks (suc fuel) (suc left) c got (calm answers (whole ++ later) sent recv_buf))
          (got ++ whole, some (crc_usbdc_update c whole))
          later
          sent
          recv_buf
  unfolding receive_chunks
  chunk_live fuel left answers c got first second whole ew hc hf hs ef et live enough next =
      let part : ℕ = min 4096 (suc left) in
      let el : suc left - part ≡ length second = omega arith in
      let (rest, live', hm, e) =
        Reaches-either_way patience answers (length first) (length second)
          (read_exact_from_device part patience) (got, none)
          (λ chunk. receive_chunks fuel (suc left - part) (crc_usbdc_update c chunk) (got ++ chunk))
          (calm answers ((first ++ second) ++ later) sent recv_buf) first
          (got ++ (first ++ second), some (crc_usbdc_update c (first ++ second))) (second ++ later)
          sent later sent recv_buf (omega arith)
          (rw (append_assoc first second later, sym ef)
            (read_exact_from_device_live patience answers first (second ++ later) sent recv_buf live
              (omega arith)))
          (λ rest live' left'.
            let (rest', live'', hm, e) = next rest live' left' in
            (
              rest',
              live'',
              hm,
              rw
                  (
                    el,
                    e,
                    append_assoc got first second,
                    crc_usbdc_update-append c first second hc hf hs,
                  )
                  refl,
            )) in
      (rest, live', omega arith, rw (sym ew) e)

  receive_chunks_live :
      (fuel : ℕ) (answers : List Answer) (c : ℕ) (got file : List ℕ)
      → c < 256
      → All IsByte file
      → length file ≤ fuel
      → Lively patience 0 answers
      → length file ≤ moves answers
      → Finishes fuel answers c got file
  receive_chunks_live fuel answers c got [] hc hb short live enough = (
    answers,
    live,
    omega arith,
    unfold receive_chunks in rw (append-nil got, crc_usbdc_update-nil c hc) refl,
  )
  receive_chunks_live zero answers c got (b ∷ bs) hc hb short live enough = absurd (omega arith)
  receive_chunks_live (suc fuel) answers c got (b ∷ bs) hc hb short live enough =
      let k : ℕ = min 4096 (suc (length bs)) in
      let first : List ℕ = take k (b ∷ bs) in
      let second : List ℕ = drop k (b ∷ bs) in
      let et : first ++ second ≡ b ∷ bs = take-append-drop k (b ∷ bs) in
      let parts : All IsByte first × All IsByte second = All-left IsByte first second (rw et hb) in
      chunk_live fuel (length bs) answers c got first second (b ∷ bs) et hc parts.0 parts.1
        (omega (arith, length-take k (b ∷ bs)))
        (omega (arith, length-take k (b ∷ bs), length-drop k (b ∷ bs))) live enough
        λ rest live' left.
          receive_chunks_live fuel rest (crc_usbdc_update c first) (got ++ first) second
            (crc_usbdc_update-lt c first hc parts.0) parts.1 (omega (arith, length-drop k (b ∷ bs)))
            live' left

read_byte_live :
    (answers : List Answer) (b : ℕ) (later sent : List ℕ) (recv_buf : ℕ)
    → Lively patience 0 answers
    → 1 ≤ moves answers
    → Reaches patience answers 1
        (read_byte (calm answers (b ∷ later) sent recv_buf))
        (some b)
        later
        sent
        recv_buf
unfolding read_byte ◌>>=◌
read_byte_live answers b later s buf live enough =
    let (rest, live', hm, e) =
      read_exact_from_device_live patience answers (b ∷ []) later s buf live enough in
    (rest, live', hm, rw e refl)

compare_checksum_live :
    (answers : List Answer) (bytes : List ℕ) (sum : ℕ) (later sent : List ℕ) (recv_buf : ℕ)
    → Lively patience 0 answers
    → 1 ≤ moves answers
    → Reaches patience answers 1
        (compare_checksum bytes (some sum) (calm answers (sum ∷ later) sent recv_buf))
        (bytes, true)
        later
        sent
        recv_buf
unfolding compare_checksum either_way
compare_checksum_live answers bytes sum later s buf live enough =
    let (rest, live', hm, e) = read_byte_live answers sum later s buf live enough in
    (rest, live', hm, rw (e, eqb_of_eq sum sum refl) refl)

announced_size_live :
    (answers : List Answer) (payload : List ℕ) (size : ℕ) (later sent : List ℕ) (recv_buf : ℕ)
    → Lively patience 0 answers
    → Announces payload size
    → Reaches patience answers 0
        (announced_size
          (record { status = 0; payload = payload })
          (calm answers later sent recv_buf))
        (some size)
        later
        sent
        recv_buf
unfolding announced_size ◌>>=◌
announced_size_live answers payload size later s buf live (a, b, c, d, more, ep, es) =
    let long : 4 ≤ length payload = rw ep (omega arith) in
    (answers, live, omega arith, rw (le→leb 4 (length payload) long) (rw (ep, es) refl))

ask_live :
    (answers : List Answer) (path payload reply later sent : List ℕ) (size recv_buf : ℕ)
    → Lively patience 0 answers
    → length path ≤ 0xffff
    → Frame 0 payload reply
    → Announces payload size
    → (7 + length path) + (7 + length payload) ≤ moves answers
    → Reaches patience answers
        ((7 + length path) + ((7 + length payload) + 0))
        ((send_remote_io_command download (some path) >> (read_remote_io_reply >>= announced_size))
          (calm answers (reply ++ later) sent recv_buf))
        (some size)
        later
        (sent ++ (header 8 (length path) ++ path))
        recv_buf
ask_live answers path payload reply later s size buf live short fr announced enough =
    Reaches->>= patience answers (7 + length path) ((7 + length payload) + 0)
      (send_remote_io_command download (some path)) (λ _. read_remote_io_reply >>= announced_size)
      (calm answers (reply ++ later) s buf) tt size (reply ++ later)
      (s ++ (header 8 (length path) ++ path)) later (s ++ (header 8 (length path) ++ path)) buf
      (omega arith)
      (send_remote_io_command_live patience answers download path (reply ++ later) s buf live short
        (omega arith))
      λ rest live' left.
        Reaches->>= patience rest (7 + length payload) 0 read_remote_io_reply announced_size
          (calm rest (reply ++ later) (s ++ (header 8 (length path) ++ path)) buf)
          (record { status = 0; payload = payload }) size later
          (s ++ (header 8 (length path) ++ path)) later (s ++ (header 8 (length path) ++ path)) buf
          left (read_remote_io_reply_live rest 0 payload reply later _ buf live' fr (omega arith))
          λ rest' live'' left'. announced_size_live rest' payload size later _ buf live'' announced

-- A download comes to its end. The console answers with OK and the file's size, the file and its
-- checksum; no call of the driver fails, fewer than 5000 in a row move nothing, and as many calls
-- move something as there are bytes to be moved; nobody interrupts. Then `DoSdDownload` returns 1
-- with the whole file written, having sent one `DOWNLOAD` command with the path and having taken
-- no byte of what follows.
pub do_sd_download_live :
    (answers : List Answer) (path payload reply file later sent : List ℕ) (recv_buf : ℕ)
    → Lively patience 0 answers
    → length path ≤ 0xffff
    → Frame 0 payload reply
    → Announces payload (length file)
    → All IsByte file
    → 15 + length path + length payload + length file ≤ moves answers
    → (command : List ℕ) × Frame 8 path command
      × Reaches patience answers
          (15 + length path + length payload + length file)
          (do_sd_download
            (some path)
            (some true)
            (calm answers (reply ++ (file ++ (crc_usbdc_update 0 file ∷ later))) sent recv_buf))
          (file, true)
          later
          (sent ++ command)
          recv_buf
unfolding do_sd_download
do_sd_download_live answers path payload reply file later s buf live short fr announced hb enough =
    let sum : ℕ = crc_usbdc_update 0 file in
    let s' : List ℕ = s ++ (header 8 (length path) ++ path) in
    let (rest, live', hm, e) =
      Reaches-either_way patience answers ((7 + length path) + ((7 + length payload) + 0))
        (length file + 1) _ ([], false) _ (calm answers (reply ++ (file ++ (sum ∷ later))) s buf)
        (length file) (file, true) (file ++ (sum ∷ later)) s' later s' buf (omega arith)
        (ask_live answers path payload reply (file ++ (sum ∷ later)) s (length file) buf live short
          fr announced (omega arith))
        (λ rest live' left.
          Reaches-bind patience rest (length file) 1 _ _ (file, some sum) (file, true) (sum ∷ later)
            s' later s' buf left
            (receive_chunks_live (sum ∷ later) s' buf (length file) rest 0 [] file (omega arith) hb
              (omega arith) live' (omega arith))
            (λ rest' live'' left'.
              compare_checksum_live rest' file sum later s' buf live'' left')) in
    (header 8 (length path) ++ path, header-Frame 8 path short, (rest, live', omega arith, e))
