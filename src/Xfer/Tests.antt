-- ===== src/Xfer/Tests.antt =====
-- The transfer theorems at concrete inputs.
use ftx.Base.{ℕ, ◌+◌, ◌≤◌, ◌<◌, ◌≡◌, refl, arith, true, false, List, [], ◌∷◌, ◌++◌, some}
use ftx.Checksum.{crc_usbdc_update}
use ftx.Usbdc.Machine.{Saturn, done, peek}
use ftx.Usbdc.Words.{feed}
use ftx.Usbdc.Handlers.{sc_check_usbdc}
use ftx.Xfer.Link.{failed, moved, Link, value, write_rest}
use ftx.Xfer.Direct.{HostFile, command_bytes, do_upload, do_download}
use ftx.Xfer.Exchange.{Ensures}
use ftx.Xfer.SdDownloads.{IfSaved}
use ftx.Xfer.Downloads.{Saved, do_download_sound, download_interrupted}
use ftx.Xfer.Upload.{Accounted, concat, calm, upload_script, write_rest-Accounted}
use ftx.Xfer.Interrupt.{stopped, interrupted_script, upload_interrupted}
use ftx.Xfer.Session.{upload_session}

abbrev console : Saturn
console = record {
  mem = λ x. 7;
  fifo_in = [];
  fifo_out = [];
  exec_buffer = 0x2020_0000;
  rw4_buffer = 0x2010_0000;
  has_soft_reset = true;
  events = [];
}

-- A file of five bytes, read in two pieces.
abbrev demo : HostFile
demo = record {
  size = some 5;
  opens = true;
  pieces = (1 ∷ 2 ∷ 3 ∷ []) ∷ (4 ∷ 255 ∷ []) ∷ [];
  read_error = false;
}

upload_session_example :
    (s' : Saturn) × (wire : List ℕ) × (sc_check_usbdc (feed console wire) ≡ done tt s')
    × (do_upload demo 0x0600_4000 false (calm (upload_script 65536 demo.pieces []) s'.fifo_out [] 9)
        ≡ value true (calm [] [] wire 0))
    × (peek s'.mem 0x0600_4000 5 ≡ 1 ∷ 2 ∷ 3 ∷ 4 ∷ 255 ∷ [])
    × ((x : ℕ) → x < 0x0600_4000 → s'.mem x ≡ 7)
    × ((x : ℕ) → 0x0600_4000 + 5 ≤ x → s'.mem x ≡ 7)
    × (s'.fifo_in ≡ [])
upload_session_example =
    upload_session console demo 0x0600_4000 65536 9 [] (omega arith) refl refl (omega arith)
      (omega arith) (omega arith) (omega arith) (omega arith) (omega arith) refl refl (omega arith)

-- Two calls that take two bytes each, then a failed one.
abbrev flaky : Link
flaky = calm (moved 2 false ∷ moved 2 false ∷ failed ∷ []) [] [] 0

write_rest-Accounted_example :
    Accounted flaky (1 ∷ 2 ∷ 3 ∷ 4 ∷ 5 ∷ []) (write_rest (1 ∷ 2 ∷ 3 ∷ 4 ∷ 5 ∷ []) flaky)
write_rest-Accounted_example = write_rest-Accounted (1 ∷ 2 ∷ 3 ∷ 4 ∷ 5 ∷ []) flaky

upload_interrupted_example :
    do_upload demo 0x0600_4000 false
      (calm (interrupted_script 65536 (omega arith) [] [] []) [] [] 0)
    ≡ value true (
        stopped [] []
          (command_bytes 2 0x0600_4000 5 ++ (crc_usbdc_update 0 (concat demo.pieces) ∷ []))
          0)
upload_interrupted_example =
    upload_interrupted 65536 (omega arith) [] [] [] demo 0x0600_4000 5 refl (omega arith)
      (omega arith) refl refl (omega arith)

-- A device that gives two bytes in two reads, and their checksum.
abbrev giving : Link
giving =
    calm (moved 9 false ∷ moved 1 false ∷ moved 9 false ∷ moved 1 false ∷ []) (1 ∷ 2 ∷ 27 ∷ 99 ∷ [])
      [] 0

do_download_sound_example :
    Ensures (IfSaved (Saved giving 0x0600_4000 2)) (do_download true 0x0600_4000 2 giving)
do_download_sound_example =
    do_download_sound giving 0x0600_4000 2 true
      (omega arith, (omega arith, (omega arith, (omega arith, tt))))

download_interrupted_example :
    do_download true 0x0600_4000 64 (calm (moved 9 true ∷ moved 0 false ∷ []) (5 ∷ []) [] 0)
    ≡ value ([], true) (stopped [] (5 ∷ []) (command_bytes 1 0x0600_4000 64) 0)
download_interrupted_example =
    download_interrupted 9 0x0600_4000 64 0 false [] (5 ∷ []) [] (omega arith)
