-- ===== src/Xfer/RemoteTests.antt =====
-- The theorems about the remote protocol at concrete inputs.
use ftx.Base.{ℕ, refl, arith, true, false, List, [], ◌∷◌, ◌++◌, some}
use ftx.Base.{replicate}
use ftx.Checksum.{crc_usbdc_update}
use ftx.Xfer.Link.{Answer, moved, Link}
use ftx.Xfer.Direct.{HostFile}
use ftx.Xfer.Upload.{calm}
use ftx.Xfer.Exchange.{Ensures}
use ftx.Xfer.Remote.{patience}
use ftx.Xfer.Remote.Framing.{Frame}
use ftx.Xfer.Progress.{Reaches}
use ftx.Xfer.Progress.Download.{do_sd_download_live}
use ftx.Xfer.SdTransfer.{do_sd_upload, do_sd_download}
use ftx.Xfer.SdUploads.{Uploaded, IfTrue, do_sd_upload_sound}
use ftx.Xfer.SdDownloads.{Downloaded, IfSaved, do_sd_download_sound}

-- "SRL1", OK, and a payload of four bytes, the size 3.
abbrev ok_reply : List ℕ
ok_reply = 83 ∷ 82 ∷ 76 ∷ 49 ∷ 0 ∷ 0 ∷ 4 ∷ 0 ∷ 0 ∷ 0 ∷ 3 ∷ []

-- A driver that first moves nothing and then a byte in each call.
abbrev byte_by_byte : List Answer
byte_by_byte = moved 0 false ∷ replicate 40 (moved 1 false)

abbrev served : Link
served = calm byte_by_byte (ok_reply ++ (1 ∷ 2 ∷ 3 ∷ 72 ∷ 9 ∷ [])) [] 0

do_sd_download_sound_example :
    Ensures
      (IfSaved (Downloaded served (47 ∷ 97 ∷ [])))
      (do_sd_download (some (47 ∷ 97 ∷ [])) (some true) served)
do_sd_download_sound_example = do_sd_download_sound (47 ∷ 97 ∷ []) (some true) served (omega arith)

do_sd_download_live_example :
    (command : List ℕ) × Frame 8 (47 ∷ 97 ∷ []) command
    × Reaches patience byte_by_byte 24
        (do_sd_download (some (47 ∷ 97 ∷ [])) (some true) (
          calm byte_by_byte
            (ok_reply ++ ((1 ∷ 2 ∷ 3 ∷ []) ++ (crc_usbdc_update 0 (1 ∷ 2 ∷ 3 ∷ []) ∷ 9 ∷ [])))
            []
            0))
        (1 ∷ 2 ∷ 3 ∷ [], true)
        (9 ∷ [])
        command
        0
do_sd_download_live_example =
    do_sd_download_live byte_by_byte (47 ∷ 97 ∷ []) (0 ∷ 0 ∷ 0 ∷ 3 ∷ []) ok_reply (1 ∷ 2 ∷ 3 ∷ [])
      (9 ∷ []) [] 0 (omega arith, tt) (omega arith) (0, 4, refl, refl) (0, 0, 0, 3, [], refl, refl)
      (omega arith) (omega arith)

abbrev demo : HostFile
demo = record {
  size = some 3;
  opens = true;
  pieces = (1 ∷ 2 ∷ []) ∷ (3 ∷ []) ∷ [];
  read_error = false;
}

abbrev taker : Link
taker = calm byte_by_byte (83 ∷ 82 ∷ 76 ∷ 49 ∷ 0 ∷ 0 ∷ 0 ∷ 0 ∷ []) [] 0

do_sd_upload_sound_example :
    Ensures
      (IfTrue (Uploaded taker 3 (47 ∷ 97 ∷ []) (1 ∷ 2 ∷ 3 ∷ [])))
      (do_sd_upload (λ text. (0, 0)) demo (98 ∷ []) (some (47 ∷ 97 ∷ [])) 7 taker)
do_sd_upload_sound_example =
    do_sd_upload_sound (λ text. (0, 0)) demo (98 ∷ []) (97 ∷ []) 65536 3 7 taker refl (omega arith)
