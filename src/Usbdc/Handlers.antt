-- ===== src/Usbdc/Handlers.antt =====
-- The handlers of `sc_check_usbdc` in satcom_lib/sc_saturn.c, and its loop. The debug branches
-- (`UDC_DEBUG`) and log calls are left out.
use ftx.Base.{ℕ, zero, suc, Bool, true, false, List, [], ◌∷◌, ◌++◌, ◌&&◌, ◌||◌}
use ftx.Base.{◌==◌, if◌then◌else◌, length, bit_and}
use ftx.Checksum.{crc_usbdc_init, crc_usbdc_update, crc_usbdc_finalize}
use ftx.Usbdc.Machine.{Event, done, waiting, stuck, M, ◌>>=◌, ◌>>◌, return, bind}
use ftx.Usbdc.Machine.{
  peek, poke, recv_byte, send_byte, recv_dword, send_dword, recv_into, send_all,
}

-- `_usbdc_version_dat`.
unfoldable pub usbdc_version_dat : List ℕ
usbdc_version_dat = 0x31 ∷ 0 ∷ 0 ∷ 0 ∷ 0 ∷ 0 ∷ 0 ∷ 0 ∷ 0 ∷ 0 ∷ 0 ∷ 0 ∷ 0 ∷ 0 ∷ 0 ∷ 0 ∷ []

-- `*(T*)out = *(T*)in` for a type of `n` bytes.
unfoldable pub copy_word : ℕ → ℕ → ℕ → M (Unit {0})
copy_word n from to s = done tt (record s { mem = poke s.mem to (peek s.mem from n) })

-- Accesses of 2 and 4 bytes go through `rw4_buffer`, as one aligned access of memory.
unfoldable pub fetch_word : ℕ → ℕ → M ℕ
fetch_word address len s =
    if len == 2
    then (copy_word 2 (bit_and address 0xffff_fffe) s.rw4_buffer >> return s.rw4_buffer) s
    else if len == 4
    then (copy_word 4 (bit_and address 0xffff_fffc) s.rw4_buffer >> return s.rw4_buffer) s
    else done address s

-- What `pData` points to: memory, or the version array.
unfoldable pub source_bytes : ℕ → ℕ → M (List ℕ)
source_bytes address len s =
    if (bit_and address 0x0fff_ffff == 0x007f_fff0) && (len == 16)
    then done usbdc_version_dat s
    else done (peek s.mem address len) s

unfoldable pub do_download : M (Unit {0})
do_download = do
  address ← recv_dword
  len ← recv_dword
  p_data ← fetch_word address len
  bytes ← source_bytes p_data len
  send_all bytes
  send_byte (crc_usbdc_finalize (crc_usbdc_update crc_usbdc_init bytes))

-- The checksum of `len` bytes of memory.
unfoldable pub sum_memory : ℕ → ℕ → M ℕ
sum_memory address len s =
    done (crc_usbdc_finalize (crc_usbdc_update crc_usbdc_init (peek s.mem address len))) s

unfoldable pub recv_payload : ℕ → ℕ → M ℕ
recv_payload address len s =
    if (len == 2) || (len == 4)
    then (do
      recv_into len s.rw4_buffer
      checksum ← sum_memory s.rw4_buffer len
      (if len == 2
          then copy_word 2 s.rw4_buffer (bit_and address 0xffff_fffe)
          else copy_word 4 s.rw4_buffer (bit_and address 0xffff_fffc))
      return checksum)
        s
    else (do recv_into len address; sum_memory address len) s

unfoldable pub do_upload : M (Unit {0})
do_upload = do
  address ← recv_dword
  len ← recv_dword
  checksum ← recv_payload address len
  read_checksum ← recv_byte
  if checksum == read_checksum then send_byte 0 else send_byte 0x1

unfoldable pub log_event : Event → M (Unit {0})
log_event e s = done tt (record s { events = s.events ++ (e ∷ []) })

unfoldable pub soft_reset : ℕ → M (Unit {0})
soft_reset flags s = if s.has_soft_reset then log_event (Event.soft_reset flags) s else done tt s

-- `SC_SOFTRES_ALL`.
abbrev pub softres_all : ℕ
softres_all = 0xffff_ffff

unfoldable pub do_execute : M (Unit {0})
do_execute = do entry ← recv_dword; soft_reset softres_all; log_event (Event.call entry)

-- Data goes straight to the execution address when that lies in the same 16 MB region as
-- `exec_buffer`, else to `exec_buffer`.
unfoldable pub landing : ℕ → M ℕ
landing exec s =
    if bit_and exec 0x0f00_0000 == bit_and s.exec_buffer 0x0f00_0000
    then done exec s
    else done s.exec_buffer s

unfoldable pub do_exec_ext : M (Unit {0})
do_exec_ext = do
  exec ← recv_dword
  p_data ← landing exec
  len ← recv_dword
  softres_flags ← recv_dword
  recv_into len p_data
  checksum ← sum_memory p_data len
  read_checksum ← recv_byte
  if checksum == read_checksum
      then (do
        send_byte 0
        soft_reset softres_flags
        log_event (Event.execute softres_flags p_data len exec))
      else send_byte 0x1

unfoldable pub do_send_buffer_address : M (Unit {0})
do_send_buffer_address s = send_dword s.exec_buffer s

unfoldable pub do_copy_exec : M (Unit {0})
do_copy_exec = do
  tmp_address ← recv_dword
  length ← recv_dword
  exec_address ← recv_dword
  log_event (Event.execute softres_all tmp_address length exec_address)

-- The `switch` on the command byte. The result is `can_exit` after it.
unfoldable pub dispatch : ℕ → Bool → M Bool
dispatch command can_exit =
    if command == 1
    then (do do_download; return can_exit)
    else if command == 2
    then (do do_upload; return can_exit)
    else if command == 3
    then (do do_execute; return true)
    else if command == 4
    then (do do_send_buffer_address; return false)
    else if command == 5
    then (do do_copy_exec; return true)
    else if command == 6
    then (do do_exec_ext; return false)
    else return can_exit

-- One round of the loop with a byte ready.
unfoldable pub check_round : Bool → M Bool
check_round can_exit = do command ← recv_byte; dispatch command can_exit

-- `do … while(can_exit == 0)`. A round with no byte to come and `can_exit` at 0 would be repeated
-- for ever.
unfoldable pub check_loop : ℕ → Bool → M (Unit {0})
check_loop zero can_exit s = stuck
check_loop (suc fuel) can_exit s = elim s.fifo_in [
  | [] ↦ if can_exit then done tt s else waiting
  | b ∷ rest ↦
      bind (check_round can_exit s)
        λ again s'. elim again [ true ↦ done tt s' | false ↦ check_loop fuel false s' ]
]

-- Each round takes at least the command byte, so a round for each byte and one more are enough.
unfoldable pub sc_check_usbdc : M (Unit {0})
sc_check_usbdc s = check_loop (suc (length s.fifo_in)) true s
