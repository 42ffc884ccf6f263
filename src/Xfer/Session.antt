-- ===== src/Xfer/Session.antt =====
-- The host's `DoUpload` of src/xfer.cpp against the cartridge's `sc_check_usbdc` of
-- satcom_lib/sc_saturn.c: each side reads what the other one writes.
use ftx.Base.{ℕ, ◌+◌, ◌^◌, ◌≤◌, ◌<◌, ◌≡◌, ◌≢◌, refl, ap, ◌∙◌, true, false, List, []}
use ftx.Base.{◌∷◌, ◌++◌, some, length, All, if◌then◌else◌, eqb_of_eq}
use ftx.Checksum.{crc_usbdc_update}
use ftx.Usbdc.Machine.{Saturn, done, peek, poke}
use ftx.Usbdc.Words.{feed}
use ftx.Usbdc.Transfer.{sum_of, peek-poke, poke_below, poke_above, sum_of-update}
use ftx.Usbdc.Handlers.{sc_check_usbdc}
use ftx.Usbdc.Loop.{sc_check_usbdc_upload}
use ftx.Xfer.Link.{Answer, value}
use ftx.Xfer.Direct.{HostFile, command_bytes, do_upload}
use ftx.Xfer.Upload.{IsPiece, concat, calm, upload_script, upload_packet, do_upload_whole}

module _ (s : Saturn) (a : ℕ) (bytes : List ℕ) where
  -- The Saturn after it has taken an intact upload.
  abbrev pub uploaded : Saturn
  uploaded = record s { mem = poke s.mem a bytes; fifo_in = []; fifo_out = s.fifo_out ++ (0 ∷ []) }

  abbrev pub packet : List ℕ
  packet = upload_packet 2 a (length bytes) bytes

  -- The Saturn's part of an upload: it takes the whole packet and answers 0.
  saturn_takes :
      a + length bytes ≤ 2 ^ 32
      → length bytes < 2 ^ 32
      → a < 2 ^ 32
      → length bytes ≢ 2
      → length bytes ≢ 4
      → sc_check_usbdc (feed s packet) ≡ done tt uploaded
  unfolding upload_packet command_bytes
  saturn_takes h hl ha n2 n4 =
      sc_check_usbdc_upload s a bytes (crc_usbdc_update 0 bytes) [] h hl ha n2 n4
      ∙ ap
          (λ t. done tt (record s {
            mem = poke s.mem a bytes;
            fifo_in = [];
            fifo_out = s.fifo_out ++ ((if t then 0 else 1) ∷ []);
          }))
          (eqb_of_eq (sum_of bytes) (crc_usbdc_update 0 bytes) (sum_of-update bytes))

-- A file that the host uploads arrives. With a driver that takes each write whole, the host's
-- `DoUpload` sends a packet that `sc_check_usbdc` takes to the last byte; the file is then in the
-- Saturn's memory from the address on, nothing below or above it has changed, and on the answer
-- that the Saturn gives, the host reports success. The file is of the size that was asked for,
-- below 2^32 and other than 0, 2 and 4 bytes; it opens and is read without error in pieces that a
-- write can hold; the address is below 2^32, and the file fits the address space from there; and
-- nothing is in the Saturn's output before.
pub upload_session :
    (s : Saturn) (file : HostFile) (a n recv_buf : ℕ) (later : List Answer)
    → 13 ≤ n
    → s.fifo_out ≡ []
    → file.size ≡ some (length (concat file.pieces))
    → 0 < length (concat file.pieces)
    → length (concat file.pieces) < 2 ^ 32
    → length (concat file.pieces) ≢ 2
    → length (concat file.pieces) ≢ 4
    → a < 2 ^ 32
    → a + length (concat file.pieces) ≤ 2 ^ 32
    → file.opens ≡ true
    → file.read_error ≡ false
    → All (IsPiece n) file.pieces
    → (s' : Saturn) × (wire : List ℕ) × (sc_check_usbdc (feed s wire) ≡ done tt s')
      × (do_upload file a false (calm (upload_script n file.pieces later) s'.fifo_out [] recv_buf)
          ≡ value true (calm later [] wire 0))
      × (peek s'.mem a (length (concat file.pieces)) ≡ concat file.pieces)
      × ((x : ℕ) → x < a → s'.mem x ≡ s.mem x)
      × ((x : ℕ) → a + length (concat file.pieces) ≤ x → s'.mem x ≡ s.mem x)
      × (s'.fifo_in ≡ [])
upload_session s file a n recv_buf later big quiet es pos small n2 n4 ha fits eo ok hp = (
  uploaded s a bytes,
  packet s a bytes,
  saturn_takes s a bytes fits small ha n2 n4,
  ap
        (λ out.
          do_upload file a false
            (calm (upload_script n file.pieces later) (out ++ (0 ∷ [])) [] recv_buf))
        quiet
      ∙ do_upload_whole n big later [] 0 recv_buf file a (length bytes) false [] es pos small eo ok
          hp,
  peek-poke bytes s.mem a fits,
  λ x lt. poke_below bytes s.mem a x fits lt,
  λ x ge. poke_above bytes s.mem a x fits ge,
  refl,
)
  where
    bytes : List ℕ
    bytes = concat file.pieces
