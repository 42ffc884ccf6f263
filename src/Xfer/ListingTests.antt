-- ===== src/Xfer/ListingTests.antt =====
-- The theorems about listings and about uploads to sectors at concrete inputs.
use ftx.Base.{◌++◌, ℕ, ◌+◌, ◌-◌, ◌*◌, ◌≡◌, refl, arith, true, false, List, [], ◌∷◌, some}
use ftx.Base.{length}
use ftx.Xfer.Link.{Answer, failed, moved, value, write_rest, write_loop}
use ftx.Xfer.Direct.{HostFile}
use ftx.Xfer.Upload.{calm}
use ftx.Xfer.Interrupt.{stopped}
use ftx.Xfer.Attempt.{◌>>=◌, ◌>>◌, either_way}
use ftx.Xfer.Remote.{list, as_lines, send_remote_io_command, write_all_to_device, header}
use ftx.Xfer.Remote.{write_payload, read_remote_io_reply, as_reply, try_read_remote_io_reply}
use ftx.Xfer.Remote.{reply_header, reply_payload, read_exact_from_device, read_loop}
use ftx.Xfer.Listing.{do_list_str}
use ftx.Xfer.Listing.CutOff.{do_list_str_cut_off}
use ftx.Xfer.SdTarget.RoundTrip.{parse_sd_upload_target_lem}
use ftx.Xfer.SdTarget.{sdraw, SdUploadTarget, parse_sd_upload_target, parse_sector, sector_number}
use ftx.Xfer.SdTarget.{after_prefix}
use ftx.Xfer.SdTransfer.{fits_range, do_sd_upload}
use ftx.Xfer.SdInterrupt.{sd_upload_interrupted}

-- A reply that is OK and holds the letter "a"; the driver takes the command of eight bytes in two
-- calls, and delivers the reply in two.
abbrev first_reply : List ℕ
first_reply = 83 ∷ 82 ∷ 76 ∷ 49 ∷ 0 ∷ 0 ∷ 1 ∷ 97 ∷ []

abbrev cut_off : List Answer
cut_off = moved 7 false ∷ moved 1 false ∷ moved 7 false ∷ moved 1 false ∷ failed ∷ []

asked_demo :
    (send_remote_io_command list (some (47 ∷ [])) >> read_remote_io_reply)
      (calm cut_off first_reply [] 0)
    ≡ value
        (some (record { status = 0; payload = 97 ∷ [] }))
        (calm (failed ∷ []) [] (83 ∷ 82 ∷ 76 ∷ 49 ∷ 1 ∷ 0 ∷ 1 ∷ 47 ∷ []) 0)
unfolding send_remote_io_command ◌>>=◌ write_all_to_device header write_payload write_rest
    write_loop read_remote_io_reply as_reply try_read_remote_io_reply either_way reply_header
    reply_payload read_exact_from_device read_loop
asked_demo = refl

do_list_str_cut_off_example :
    do_list_str (some (47 ∷ [])) [] (calm cut_off first_reply [] 0)
    ≡ value (as_lines (97 ∷ []), true) (calm [] [] (83 ∷ 82 ∷ 76 ∷ 49 ∷ 1 ∷ 0 ∷ 1 ∷ 47 ∷ []) 0)
do_list_str_cut_off_example =
    do_list_str_cut_off (some (47 ∷ [])) [] cut_off 0 97 [] first_reply [] []
      (83 ∷ 82 ∷ 76 ∷ 49 ∷ 1 ∷ 0 ∷ 1 ∷ 47 ∷ []) [] 0 0 refl asked_demo

-- Decimal numerals.
abbrev value_of : ℕ → List ℕ → ℕ
value_of n [] = n
value_of n (c ∷ cs) = value_of (n * 10 + (c - 48)) cs

abbrev decimal : List ℕ → ℕ × ℕ
decimal text = (value_of 0 text, length text)

-- "sdraw:8:16"
parse_sd_upload_target_lem_example :
    parse_sd_upload_target decimal (some (sdraw ++ (56 ∷ 58 ∷ 49 ∷ 54 ∷ [])))
    ≡ some (record { start_sector = 8; sector_count = 16; has_range = true })
parse_sd_upload_target_lem_example =
    parse_sd_upload_target_lem decimal 8 15 56 49 [] (54 ∷ []) (omega arith) (omega arith) refl refl
      (omega arith) (omega arith)

abbrev demo : HostFile
demo = record {
  size = some 3;
  opens = true;
  pieces = (1 ∷ 2 ∷ []) ∷ (3 ∷ []) ∷ [];
  read_error = false;
}

abbrev sector_8 : SdUploadTarget
sector_8 = record { start_sector = 8; sector_count = 0; has_range = false }

parsed_demo : parse_sd_upload_target decimal (some (56 ∷ [])) ≡ some sector_8
unfolding parse_sd_upload_target after_prefix parse_sector sector_number
parsed_demo = refl

fits_demo : fits_range sector_8 3 ≡ true
unfolding fits_range
fits_demo = refl

sd_upload_interrupted_example :
    do_sd_upload decimal demo (98 ∷ []) (some (56 ∷ [])) 0 (stopped (moved 0 false ∷ []) [] [] 0)
    ≡ value true (stopped [] [] [] 0)
sd_upload_interrupted_example =
    sd_upload_interrupted decimal demo (98 ∷ []) 65536 3 56 [] sector_8 0 false [] [] [] 0 refl
      (omega arith) refl refl (omega arith) (omega arith) parsed_demo fits_demo
