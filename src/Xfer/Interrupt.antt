-- ===== src/Xfer/Interrupt.antt =====
-- `DoUpload` of src/xfer.cpp after the user has interrupted the program.
use ftx.Base.{ℕ, ◌^◌, ◌≤◌, ◌<◌, min, ◌≡◌, refl, sym, ap, ◌∙◌, arith, true, false, List, []}
use ftx.Base.{◌∷◌, ◌++◌, append_assoc, some, length, take_all, All}
use ftx.Base.{eqb_of_ne, ltb_of_le}
use ftx.Checksum.{crc_usbdc_update}
use ftx.Checksum.Crc8.{crc_usbdc_update-append, crc_usbdc_update-lt, crc_usbdc_update-nil}
use ftx.Xfer.Link.{Answer, moved, Link, value, ftdi_write_data, write_rest, write_loop}
use ftx.Xfer.Direct.{HostFile, command_bytes, send_command_with_address_and_length, stream_and_crc}
use ftx.Xfer.Direct.{read_status, await_status, check_reply, finish_upload, transmit, do_upload}
use ftx.Xfer.Upload.{IsPiece, concat, concat-IsByte, calm}

-- A session with the interrupt flag up.
abbrev pub stopped : List Answer → List ℕ → List ℕ → ℕ → Link
stopped answers incoming sent recv_buf = record {
  answers = answers;
  incoming = incoming;
  sent = sent;
  interrupted = true;
  recv_buf = recv_buf;
}

pub write_rest-stopped :
    (b : ℕ) (bs : List ℕ) (answers : List Answer) (incoming sent : List ℕ) (recv_buf : ℕ)
    → write_rest (b ∷ bs) (stopped answers incoming sent recv_buf)
      ≡ value (some (b ∷ bs)) (stopped answers incoming sent recv_buf)
unfolding write_rest write_loop
write_rest-stopped b bs [] incoming sent recv_buf = refl
write_rest-stopped b bs (x ∷ answers) incoming sent recv_buf = refl

pub stream-stopped :
    (n : ℕ) (ps : List (List ℕ)) (c : ℕ) (answers : List Answer) (incoming sent : List ℕ)
    (recv_buf : ℕ)
    → c < 256
    → All (IsPiece n) ps
    → stream_and_crc ps c (stopped answers incoming sent recv_buf)
      ≡ value (some (crc_usbdc_update c (concat ps))) (stopped answers incoming sent recv_buf)
unfolding stream_and_crc
stream-stopped n [] c answers incoming sent recv_buf hc h =
    ap (λ x. value (some x) (stopped answers incoming sent recv_buf))
      (sym (crc_usbdc_update-nil c hc))
stream-stopped n ([] ∷ ps) c answers incoming sent recv_buf hc (hp, hps) = absurd (omega arith)
stream-stopped n ((b ∷ bs) ∷ ps) c answers incoming sent recv_buf hc (hp, hps) =
    rw (write_rest-stopped b bs answers incoming sent recv_buf) (
      stream-stopped n ps (crc_usbdc_update c (b ∷ bs)) answers incoming sent recv_buf
        (crc_usbdc_update-lt c (b ∷ bs) hc hp.2) hps
      ∙ ap (λ x. value (some x) (stopped answers incoming sent recv_buf))
          (sym (crc_usbdc_update-append c (b ∷ bs) (concat ps) hc hp.2 (concat-IsByte n ps hps))))

module _ (n : ℕ) (big : 13 ≤ n) (later : List Answer) (incoming sent : List ℕ) where
  -- The flag goes up while the command is written; the checksum is taken, and no byte is there to
  -- be read.
  abbrev pub interrupted_script : List Answer
  interrupted_script = moved n true ∷ moved n false ∷ moved 0 false ∷ later

  command_interrupted :
      (bytes : List ℕ) (answers : List Answer)
      → length bytes ≤ n
      → ftdi_write_data bytes (calm (moved n true ∷ answers) incoming sent 0)
        ≡ value (some (length bytes)) (stopped answers incoming (sent ++ bytes) 0)
  unfolding ftdi_write_data
  command_interrupted bytes answers h =
      let e : min n (length bytes) ≡ length bytes = omega arith in
      rw (e, take_all (length bytes) bytes (omega arith)) refl

  finish_interrupted :
      (checksum : ℕ) (out : List ℕ)
      → finish_upload checksum (stopped (moved n false ∷ moved 0 false ∷ later) incoming out 0)
        ≡ value true (stopped later incoming (out ++ (checksum ∷ [])) 0)
  unfolding finish_upload ftdi_write_data await_status read_status check_reply
  finish_interrupted checksum out = let e : min n 1 ≡ 1 = omega arith in rw e refl

  -- A code bug: an upload interrupted while its command is sent reports success, where `RecvBuf[0]`
  -- is 0, as after a session in which no earlier answer was other than 0, though none of the file's
  -- bytes was sent: after the command, whose size field announces them, goes only the checksum of the
  -- whole file. The file opens, is not empty, below 2^32 bytes, and read without error in the pieces
  -- that `fread` gives; the driver takes the command and the checksum whole and gives no byte at the
  -- one read.
  pub upload_interrupted :
      (file : HostFile) (address size : ℕ)
      → file.size ≡ some size
      → 0 < size
      → size < 2 ^ 32
      → file.opens ≡ true
      → file.read_error ≡ false
      → All (IsPiece n) file.pieces
      → do_upload file address false (calm interrupted_script incoming sent 0)
        ≡ value true (
            stopped later incoming
              (sent
                ++ (command_bytes 2 address size ++ (crc_usbdc_update 0 (concat file.pieces) ∷ [])))
              0)
  unfolding do_upload transmit send_command_with_address_and_length
  upload_interrupted file address size es pos small eo ok hp =
      rw (es, eqb_of_ne size 0 (omega arith), ltb_of_le 0xffff_ffff size (omega arith), eo)
        (rw
          (command_interrupted (command_bytes 2 address size)
            (moved n false ∷ moved 0 false ∷ later) short)
          (rw
            (stream-stopped n file.pieces 0 (moved n false ∷ moved 0 false ∷ later) incoming
              (sent ++ command_bytes 2 address size) 0 (omega arith) hp)
            (rw ok (
              finish_interrupted (crc_usbdc_update 0 (concat file.pieces)) _
              ∙ ap (λ x. value true (stopped later incoming x 0))
                  (append_assoc sent (command_bytes 2 address size) _)))))
    where
      short : length (command_bytes 2 address size) ≤ n
      short = unfold command_bytes in omega arith
