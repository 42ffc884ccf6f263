-- ===== src/Xfer/SdTransfer.antt =====
-- `DoSdUpload` and `DoSdDownload` of src/xfer.cpp, which a program on the console serves. `fwrite`
-- is taken to succeed.
use ftx.Base.{ℕ, zero, suc, ◌+◌, ◌-◌, ◌*◌, min, Bool, true, false, not}
use ftx.Base.{List, [], ◌∷◌, ◌++◌, Option, none, some, length, get_or, ltb, leb, ◌==◌}
use ftx.Base.{if◌then◌else◌}
use ftx.Base.Words.{be32}
use ftx.Checksum.{crc_usbdc_update}
use ftx.Xfer.Link.{value, hang, M, bind, write_rest}
use ftx.Xfer.Direct.{HostFile, stream_and_crc, await_status}
use ftx.Xfer.Attempt.{Attempt, ◌>>=◌, ◌>>◌, return, fail, guard, either_way}
use ftx.Xfer.Remote.{upload, download, status_ok, patience, Reply, write_all_to_device}
use ftx.Xfer.Remote.{read_exact_from_device, send_remote_io_command, read_remote_io_reply}
use ftx.Xfer.SdTarget.{SdUploadTarget, parse_sd_upload_target, name_for_display}

-- `StreamAndCrc` with `WriteAllToDevice`: the checksum of what is sent.
unfoldable pub stream_all : List (List ℕ) → ℕ → Attempt ℕ
stream_all [] checksum = return checksum
stream_all ([] ∷ later) checksum = return checksum
stream_all ((b ∷ bs) ∷ later) checksum = do
  write_all_to_device (b ∷ bs)
  stream_all later (crc_usbdc_update checksum (b ∷ bs))

-- One byte by `ReadExactFromDevice`.
unfoldable pub read_byte : Attempt ℕ
read_byte = do bytes ← read_exact_from_device 1 patience; return (get_or bytes 0 0)

-- A path that begins with '/'.
unfoldable pub upload_file : HostFile → ℕ → List ℕ → Attempt (Unit {0})
upload_file file file_size path = do
  send_remote_io_command upload (some path)
  reply ← read_remote_io_reply
  guard (reply.status == status_ok)
  write_all_to_device (be32 file_size)
  checksum ← stream_all file.pieces 0
  guard (not file.read_error)
  write_all_to_device (checksum ∷ [])
  result ← read_byte
  guard (result == 0)

-- The lambda `write_all`, which succeeds also when it stops on an interrupt.
unfoldable pub write_all : List ℕ → Attempt (Unit {0})
write_all bytes l =
    bind (write_rest bytes l) λ rest l'. value (elim rest [ none ↦ none | some _ ↦ some tt ]) l'

-- The lambda `read_one`, which succeeds also when it stops on an interrupt: the byte is then the one
-- that the caller's uninitialised `result` holds.
unfoldable pub read_one : ℕ → Attempt ℕ
read_one uninitialised = do
  got ← await_status
  return (elim got [ none ↦ uninitialised | some b ↦ b ])

unfoldable pub fits_range : SdUploadTarget → ℕ → Bool
fits_range target file_size =
    if target.has_range then leb file_size (target.sector_count * 512) else true

-- Any other path names sectors of the card.
unfoldable pub upload_sectors :
    HostFile → ℕ → List ℕ → Option SdUploadTarget → ℕ → Attempt (Unit {0})
upload_sectors file file_size host_filename none uninitialised = fail
upload_sectors file file_size host_filename (some target) uninitialised = do
  guard (fits_range target file_size)
  write_all (0x10 ∷ [])
  write_all (be32 (length (name_for_display host_filename)))
  write_all (name_for_display host_filename)
  write_all (be32 target.start_sector)
  write_all (be32 file_size)
  checksum ← stream_and_crc file.pieces 0
  guard (not file.read_error)
  write_all (checksum ∷ [])
  result ← read_one uninitialised
  guard (result == 0)

unfoldable pub succeeds : Attempt (Unit {0}) → M Bool
succeeds steps = either_way steps false λ _. value true

module _ (strtoul : List ℕ → ℕ × ℕ) (file : HostFile) (host_filename : List ℕ) where
  unfoldable pub upload_opened : ℕ → Option (List ℕ) → ℕ → Attempt (Unit {0})
  upload_opened file_size (some (c ∷ cs)) uninitialised =
      if c == 47
      then upload_file file file_size (c ∷ cs)
      else upload_sectors file file_size host_filename
          (parse_sd_upload_target strtoul (some (c ∷ cs))) uninitialised
  upload_opened file_size path uninitialised =
      upload_sectors file file_size host_filename (parse_sd_upload_target strtoul path)
        uninitialised

  unfoldable pub upload_sized : Option ℕ → Option (List ℕ) → ℕ → M Bool
  upload_sized none saturn_sd_path uninitialised l = value false l
  upload_sized (some file_size) saturn_sd_path uninitialised l =
      if ltb 0xffff_ffff file_size
      then value false l
      else if file.opens
      then succeeds (upload_opened file_size saturn_sd_path uninitialised) l
      else value false l

  unfoldable pub do_sd_upload : Option (List ℕ) → ℕ → M Bool
  do_sd_upload = upload_sized file.size

-- The loop of `DoSdDownload`: the bytes written to the file, and their checksum if no read failed.
-- A chunk has a byte at least, so that `fuel` passes ending the loop if it is not below `left`.
unfoldable pub receive_chunks : ℕ → ℕ → ℕ → List ℕ → M (List ℕ × Option ℕ)
receive_chunks fuel zero checksum got l = value (got, some checksum) l
receive_chunks zero (suc left) checksum got l = hang
receive_chunks (suc fuel) (suc left) checksum got l =
    either_way (read_exact_from_device (min 4096 (suc left)) patience) (got, none)
      (λ chunk.
        receive_chunks fuel (suc left - min 4096 (suc left)) (crc_usbdc_update checksum chunk)
          (got ++ chunk))
      l

unfoldable pub compare_checksum : List ℕ → Option ℕ → M (List ℕ × Bool)
compare_checksum bytes none = value (bytes, false)
compare_checksum bytes (some checksum) =
    either_way read_byte (bytes, false)
      λ device_checksum. value (bytes, device_checksum == checksum)

-- The size in the reply to `DOWNLOAD`.
unfoldable pub announced_size : Reply → Attempt ℕ
announced_size reply = do
  guard (reply.status == status_ok)
  guard (leb 4 (length reply.payload))
  let byte : ℕ → ℕ = λ i. get_or reply.payload i 0
  return (((byte 0 * 256 + byte 1) * 256 + byte 2) * 256 + byte 3)

-- The bytes in the output file, and the function's result. `opens` is whether the file can be
-- opened, `none` for a null name.
unfoldable pub do_sd_download : Option (List ℕ) → Option Bool → M (List ℕ × Bool)
do_sd_download none opens = value ([], false)
do_sd_download (some path) none = value ([], false)
do_sd_download (some path) (some false) = value ([], false)
do_sd_download (some path) (some true) =
    either_way
      (do
        send_remote_io_command download (some path)
        reply ← read_remote_io_reply
        announced_size reply)
      ([], false)
      λ file_size l.
        bind (receive_chunks file_size file_size 0 [] l)
          λ (bytes, checksum) l'. compare_checksum bytes checksum l'
