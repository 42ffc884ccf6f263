-- ===== src/Xfer/SdInterrupt.antt =====
-- `DoSdUpload` of src/xfer.cpp to sectors of the card after the user has interrupted the program.
use ftx.Base.{ℕ, ◌^◌, ◌<◌, ◌≡◌, ◌≢◌, refl, arith, Bool, true, false, List, [], ◌∷◌, some}
use ftx.Base.{eqb_of_ne, ltb_of_le, All, ◌==◌, Option, length}
use ftx.Base.Words.{be32}
use ftx.Checksum.{crc_usbdc_update}
use ftx.Xfer.Link.{Answer, moved, value, write_rest, write_loop}
use ftx.Xfer.Direct.{HostFile, read_status, await_status}
use ftx.Xfer.Upload.{IsPiece, concat}
use ftx.Xfer.Interrupt.{stopped, write_rest-stopped, stream-stopped}
use ftx.Xfer.Attempt.{◌>>=◌, either_way, guard}
use ftx.Xfer.SdTarget.{SdUploadTarget, parse_sd_upload_target, name_for_display}
use ftx.Xfer.SdTransfer.{write_all, read_one, fits_range, upload_sectors, upload_opened}
use ftx.Xfer.SdTransfer.{upload_sized, do_sd_upload, succeeds}

write_all-stopped :
    (bytes : List ℕ) (answers : List Answer) (incoming sent : List ℕ) (recv_buf : ℕ)
    → write_all bytes (stopped answers incoming sent recv_buf)
      ≡ value (some tt) (stopped answers incoming sent recv_buf)
unfolding write_all
write_all-stopped [] answers i s buf = unfold write_rest write_loop in refl
write_all-stopped (b ∷ bs) answers i s buf = rw (write_rest-stopped b bs answers i s buf) refl

read_one-stopped :
    (uninitialised : ℕ) (raised : Bool) (answers : List Answer) (incoming sent : List ℕ)
    (recv_buf : ℕ)
    → read_one uninitialised (stopped (moved 0 raised ∷ answers) incoming sent recv_buf)
      ≡ value (some uninitialised) (stopped answers incoming sent recv_buf)
unfolding read_one ◌>>=◌ await_status read_status
read_one-stopped u raised answers i s buf = refl

upload_sectors-stopped :
    (n : ℕ) (file : HostFile) (size : ℕ) (host_filename : List ℕ) (target : SdUploadTarget)
    (uninitialised : ℕ) (raised : Bool) (answers : List Answer) (incoming sent : List ℕ)
    (recv_buf : ℕ)
    → file.read_error ≡ false
    → All (IsPiece n) file.pieces
    → fits_range target size ≡ true
    → succeeds
        (upload_sectors file size host_filename (some target) uninitialised)
        (stopped (moved 0 raised ∷ answers) incoming sent recv_buf)
      ≡ value (uninitialised == 0) (stopped answers incoming sent recv_buf)
unfolding succeeds either_way upload_sectors ◌>>=◌
upload_sectors-stopped n file size host target u raised answers i s buf ok hp fits =
    rw
      (
        fits,
        write_all-stopped (16 ∷ []) answers' i s buf,
        write_all-stopped (be32 (length (name_for_display host))) answers' i s buf,
        write_all-stopped (name_for_display host) answers' i s buf,
        write_all-stopped (be32 target.start_sector) answers' i s buf,
        write_all-stopped (be32 size) answers' i s buf,
        stream-stopped n file.pieces 0 answers' i s buf (omega arith) hp,
        ok,
        write_all-stopped (crc_usbdc_update 0 (concat file.pieces) ∷ []) answers' i s buf,
        read_one-stopped u raised answers i s buf,
      )
      (verdict (u == 0))
  where
    answers' : List Answer
    answers' = moved 0 raised ∷ answers

    verdict :
        (t : Bool)
        → succeeds (guard t) (stopped answers i s buf) ≡ value t (stopped answers i s buf)
    verdict true = refl
    verdict false = refl

module _ (strtoul : List ℕ → ℕ × ℕ) (file : HostFile) (host_filename : List ℕ) where
  upload_sized-stopped :
      (n size c : ℕ) (cs : List ℕ) (target : SdUploadTarget) (uninitialised : ℕ) (raised : Bool)
      (answers : List Answer) (incoming sent : List ℕ) (recv_buf : ℕ) (o : Option ℕ)
      → o ≡ some size
      → size < 2 ^ 32
      → file.opens ≡ true
      → file.read_error ≡ false
      → All (IsPiece n) file.pieces
      → c ≢ 47
      → parse_sd_upload_target strtoul (some (c ∷ cs)) ≡ some target
      → fits_range target size ≡ true
      → upload_sized strtoul file host_filename o
          (some (c ∷ cs))
          uninitialised
          (stopped (moved 0 raised ∷ answers) incoming sent recv_buf)
        ≡ value (uninitialised == 0) (stopped answers incoming sent recv_buf)
  unfolding upload_sized upload_opened upload_sectors
  upload_sized-stopped n size c cs target u raised answers i s buf o eo small opens ok hp hc parsed
        fits =
      rw (eo, ltb_of_le 0xffff_ffff size (omega arith), opens, eqb_of_ne c 47 hc, parsed)
        (upload_sectors-stopped n file size host_filename target u raised answers i s buf ok hp
          fits)

  -- A code bug: an upload to sectors that is interrupted before it begins sends nothing, and yet it
  -- reports success if the byte of the stack that `result` names happens to be 0. The driver has no
  -- byte for the one read that is made; the file, the target and its range are in order.
  pub sd_upload_interrupted :
      (n size c : ℕ) (cs : List ℕ) (target : SdUploadTarget) (uninitialised : ℕ) (raised : Bool)
      (answers : List Answer) (incoming sent : List ℕ) (recv_buf : ℕ)
      → file.size ≡ some size
      → size < 2 ^ 32
      → file.opens ≡ true
      → file.read_error ≡ false
      → All (IsPiece n) file.pieces
      → c ≢ 47
      → parse_sd_upload_target strtoul (some (c ∷ cs)) ≡ some target
      → fits_range target size ≡ true
      → do_sd_upload strtoul file host_filename
          (some (c ∷ cs))
          uninitialised
          (stopped (moved 0 raised ∷ answers) incoming sent recv_buf)
        ≡ value (uninitialised == 0) (stopped answers incoming sent recv_buf)
  unfolding do_sd_upload
  sd_upload_interrupted n size c cs target u raised answers i s buf e small opens ok hp hc parsed
        fits =
      upload_sized-stopped n size c cs target u raised answers i s buf file.size e small opens ok hp
        hc parsed fits
