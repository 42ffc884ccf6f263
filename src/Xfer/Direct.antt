-- ===== src/Xfer/Direct.antt =====
-- The commands of src/xfer.cpp that the cartridge's firmware serves: `DoUpload`, `DoDownload`,
-- `DoRun` and `DoExecute`. Time measurement and messages are left out. A function's 1 is `true`.
use ftx.Base.{ℕ, zero, suc, ◌-◌, min, Bool, true, false, ◌||◌}
use ftx.Base.{List, [], ◌∷◌, ◌++◌, Option, none, some, length, ltb, ◌==◌, if◌then◌else◌}
use ftx.Base.Words.{be32}
use ftx.Checksum.{crc_usbdc_update}
use ftx.Xfer.Link.{Answer, value, hang, M, bind, ◌>>=◌, return}
use ftx.Xfer.Link.{answer_read, ftdi_write_data, write_rest}

-- A file on the host: what `file_size` answers, whether it opens, the pieces that `fread` returns
-- one after another, and whether `ferror` is set at the end.
pub record HostFile : Type 0 where
  pub size : Option ℕ
  pub opens : Bool
  pub pieces : List (List ℕ)
  pub read_error : Bool

-- `USBDC_FUNC_EXEC_EXT` takes four more bytes, the reset flags.
unfoldable pub command_bytes : ℕ → ℕ → ℕ → List ℕ
command_bytes cmd address size =
    cmd ∷ (be32 address ++ (be32 size ++ (if cmd == 6 then 0 ∷ 0 ∷ 0 ∷ 0 ∷ [] else [])))

unfoldable pub send_command_with_address_and_length : ℕ → ℕ → ℕ → M (Option ℕ)
send_command_with_address_and_length cmd address size =
    ftdi_write_data (command_bytes cmd address size)

-- `StreamAndCrc` with the write function of `DoUpload`, which reports success also when it stops
-- on an interrupt. The result is the checksum.
unfoldable pub stream_and_crc : List (List ℕ) → ℕ → M (Option ℕ)
stream_and_crc [] checksum l = value (some checksum) l
stream_and_crc ([] ∷ later) checksum l = value (some checksum) l
stream_and_crc ((b ∷ bs) ∷ later) checksum l = bind (write_rest (b ∷ bs) l) λ rc l'. elim rc [
  | none ↦ value none l'
  | some _ ↦ stream_and_crc later (crc_usbdc_update checksum (b ∷ bs)) l'
]

-- `do { status = ftdi_read_data(…, 1); … } while (status == 0 && !g_interrupt_flag)`: `none` on a
-- failed read, else the byte that was read, if any was.
unfoldable pub read_status : List Answer → M (Option (Option ℕ))
read_status [] l = hang
read_status (a ∷ more) l = bind (answer_read (a ∷ more) 1 l) λ rc l'. elim rc [
  | none ↦ value none l'
  | some [] ↦
      let again = read_status more l' in if l'.interrupted then value (some none) l' else again
  | some (b ∷ _) ↦ value (some (some b)) l'
]

unfoldable pub await_status : M (Option (Option ℕ))
await_status l = read_status l.answers l

-- `RecvBuf[0] == 0` after the read into `RecvBuf`, which keeps an old byte if none came.
unfoldable pub check_reply : Option (Option ℕ) → M Bool
check_reply none l = value false l
check_reply (some none) l = value (l.recv_buf == 0) l
check_reply (some (some b)) l = value (b == 0) (record l { recv_buf = b })

-- The last steps of `DoUpload`: the checksum, then the device's answer.
unfoldable pub finish_upload : ℕ → M Bool
finish_upload checksum = do
  rc ← ftdi_write_data (checksum ∷ [])
  elim rc [ none ↦ return false | some _ ↦ (do got ← await_status; check_reply got) ]

-- From the command on.
unfoldable pub transmit : HostFile → ℕ → ℕ → ℕ → M Bool
transmit file cmd address size = do
  rc ← send_command_with_address_and_length cmd address size
  elim rc [
    | none ↦ return false
    | some _ ↦ (do
      sum ← stream_and_crc file.pieces 0
      elim sum [
        | none ↦ return false
        | some checksum ↦ if file.read_error then return false else finish_upload checksum
      ])
  ]

unfoldable pub do_upload : HostFile → ℕ → Bool → M Bool
do_upload file address execute = elim file.size [
  | none ↦ return false
  | some size ↦
      if (size == 0) || ltb 0xffff_ffff size
      then return false
      else if file.opens
      then transmit file (if execute then 6 else 2) address size
      else return false
]

unfoldable pub do_execute : HostFile → ℕ → M Bool
do_execute file address = do_upload file address true

unfoldable pub do_run : ℕ → M Bool
do_run address = do
  rc ← ftdi_write_data (3 ∷ be32 address)
  elim rc [ none ↦ return false | some _ ↦ return true ]

-- The read loop of `DoDownload`, which asks for at most `USB_READPACKET_SIZE` bytes at a time: the
-- bytes written to the file and `calcChecksum`, or `none` after a failed read. `fwrite` is taken to
-- succeed.
unfoldable pub receive_loop : List Answer → ℕ → ℕ → List ℕ → M (List ℕ × Option ℕ)
receive_loop answers zero checksum got l = value (got, some checksum) l
receive_loop [] (suc left) checksum got l =
    if l.interrupted then value (got, some checksum) l else hang
receive_loop (a ∷ more) (suc left) checksum got l =
    let step = bind (answer_read (a ∷ more) (min 65536 (suc left)) l) λ rc l'. elim rc [
      | none ↦ value (got, none) l'
      | some [] ↦ receive_loop more (suc left) checksum got l'
      | some (b ∷ bs) ↦
          receive_loop more (suc left - length (b ∷ bs)) (crc_usbdc_update checksum (b ∷ bs))
            (got ++ (b ∷ bs)) l'
    ] in
    if l.interrupted then value (got, some checksum) l else step

unfoldable pub receive : ℕ → M (List ℕ × Option ℕ)
receive size l = receive_loop l.answers size 0 [] l

-- `readChecksum == calcChecksum`; the former starts at 0.
unfoldable pub check_sum : ℕ → Option (Option ℕ) → Bool
check_sum checksum none = false
check_sum checksum (some none) = 0 == checksum
check_sum checksum (some (some b)) = b == checksum

-- What follows the loop: the bytes in the output file, and the function's result.
unfoldable pub conclude : List ℕ × Option ℕ → M (List ℕ × Bool)
conclude (bytes, none) = return (bytes, false)
conclude (bytes, some checksum) = do got ← await_status; return (bytes, check_sum checksum got)

unfoldable pub take_in : ℕ → Option ℕ → M (List ℕ × Bool)
take_in size none = return ([], false)
take_in size (some written) = do received ← receive size; conclude received

-- `opens` tells whether the output file can be created.
unfoldable pub do_download : Bool → ℕ → ℕ → M (List ℕ × Bool)
do_download false address size = return ([], false)
do_download true address size = do
  rc ← send_command_with_address_and_length 1 address size
  take_in size rc

-- `DoBiosDump`.
unfoldable pub do_bios_dump : Bool → M (List ℕ × Bool)
do_bios_dump opens = do_download opens 0 524288
