-- ===== src/SdCard/Packet.antt =====
-- `sdc_sendpacket`: a command frame to the card, its response, and the blocks of data that some
-- commands bring. A step of it gives `false` where the function returns early, on a timeout or a
-- refusal by the card.
use ftx.Base.{ℕ, zero, suc, ◌+◌, ◌*◌, ◌/◌, ◌%◌, ◌^◌, Bool, true, false, ◌||◌, not}
use ftx.Base.{List, [], ◌∷◌, ◌++◌, length, get_or, take, drop, ◌==◌, if◌then◌else◌, bit_or, bit_and}
use ftx.SdCard.Spi.{M, ◌>>=◌, ◌>>◌, return, modify, sample, led_red, led_green}
use ftx.SdCard.Spi.{sdc_cs_assert, sdc_cs_deassert, sdc_sendbyte_array, sdc_sendbyte, sdc_sendlong}
use ftx.SdCard.Spi.{sdc_receivebyte, sdc_receivebyte_array}

abbrev pub block_size : ℕ
block_size = 512

-- `SDC_POLL_COUNTMAX`
abbrev pub poll_countmax : ℕ
poll_countmax = 200000

-- The commands of sdcard.h that the driver sends with a data phase or with a byte address.
abbrev pub read_single_block : ℕ
read_single_block = 17

abbrev pub read_multiple_blocks : ℕ
read_multiple_blocks = 18

abbrev pub write_single_block : ℕ
write_single_block = 24

abbrev pub write_multiple_blocks : ℕ
write_multiple_blocks = 25

abbrev pub stop_transmission : ℕ
stop_transmission = 12

abbrev pub is_block_command : ℕ → Bool
is_block_command cmd =
    (cmd == read_single_block)
    || ((cmd == read_multiple_blocks)
        || ((cmd == write_single_block)
            || ((cmd == write_multiple_blocks) || ((cmd == 32) || (cmd == 33)))))

-- A card that is no SDHC card takes byte addresses.
unfoldable pub packet_arg : ℕ → ℕ → ℕ → ℕ
packet_arg ccs cmd arg_tmp =
    if ccs == 0 then if is_block_command cmd then arg_tmp * 2 ^ 9 % 2 ^ 32 else arg_tmp else arg_tmp

unfoldable pub packet_crc : ℕ → ℕ → ℕ
packet_crc cmd arg =
    if cmd == 0
    then 0x95
    else if cmd == 1
    then 0xF9
    else if cmd == 8
    then 0x87
    else if cmd == 41
    then if arg == 0 then 0xE5 else 0x77
    else 0xFF

-- `response_len` and `status_len`.
unfoldable pub response_len : ℕ → ℕ
response_len cmd =
    if (cmd == 9) || (cmd == 10) then 17 + 3 else if (cmd == 8) || (cmd == 58) then 5 else 1

unfoldable pub packet_status_len : ℕ → ℕ
packet_status_len cmd =
    if (cmd == 9) || (cmd == 10) then 3 else if (cmd == 8) || (cmd == 58) then 5 else 1

-- The 8 clocks, the command, its argument and its CRC.
unfoldable pub send_frame : ℕ → ℕ → M (Unit {0})
send_frame cmd arg = do
  sdc_sendbyte 0xFF
  sdc_sendbyte (bit_or 0x40 (bit_and cmd 0x3F))
  sdc_sendlong arg
  sdc_sendbyte (packet_crc cmd arg)

-- `do … while(pollcnt++ < SDC_POLL_COUNTMAX)`, with the samples left: whether the start bit came.
unfoldable pub wait_start_bit : ℕ → M Bool
wait_start_bit zero = return false
wait_start_bit (suc polls) = do
  tmp ← sample
  elim (tmp == 0) [ true ↦ return true | false ↦ wait_start_bit polls ]

-- `while(!sdc_receivebyte())`, with the bytes left behind the next: whether the card got idle.
unfoldable pub wait_idle : ℕ → M Bool
wait_idle zero = do b ← sdc_receivebyte; return (not (b == 0))
wait_idle (suc polls) = do
  b ← sdc_receivebyte
  elim (b == 0) [ true ↦ wait_idle polls | false ↦ return true ]

abbrev pub ignore_byte : M (Unit {0})
ignore_byte = sdc_receivebyte >>= λ _. return tt

unfoldable pub fail : M Bool
fail = do modify (λ c. record c { packet_timeout = 1 }); led_red true; sdc_cs_deassert; return false

-- A step, and the next if it went well.
infixl 5 ◌>?◌
abbrev pub ◌>?◌ : M Bool → M Bool → M Bool
m >? k = m >>= λ ok. elim ok [ true ↦ k | false ↦ return false ]

-- A step that makes the packet fail if it gives `false`.
abbrev pub require : M Bool → M Bool
require m = m >>= λ ok. elim ok [ true ↦ return true | false ↦ fail ]

-- `pollcnt` bits behind those of `tmp`.
unfoldable pub receive_bits : ℕ → ℕ → M ℕ
receive_bits zero tmp = return tmp
receive_bits (suc pollcnt) tmp = do b ← sample; receive_bits pollcnt (bit_or (tmp * 2 % 2 ^ 8) b)

-- `rcvcnt` bytes, the first of `pollcnt` bits and the others of 8.
unfoldable pub receive_header : ℕ → ℕ → M (List ℕ)
receive_header zero pollcnt = return []
receive_header (suc rcvcnt) pollcnt = do
  b ← receive_bits pollcnt 0
  bs ← receive_header rcvcnt 8
  return (b ∷ bs)

unfoldable pub begin_packet : ℕ → M (Unit {0})
begin_packet cmd = do
  led_green true
  modify (λ c. record c {
    packet_timeout = 0;
    status_len = packet_status_len cmd;
    stat_reg = 0 ∷ drop 1 c.stat_reg;
  })
  sdc_cs_assert

unfoldable pub keep_header : List ℕ → M Bool
keep_header bytes c = (true, record c { stat_reg = bytes ++ drop (length bytes) c.stat_reg })

unfoldable pub receive_response : ℕ → M Bool
receive_response cmd =
    require (wait_start_bit (suc poll_countmax))
    >? (receive_header (response_len cmd) 7 >>= keep_header)

-- The value returned is an `unsigned char`.
unfoldable pub end_packet : Bool → M ℕ
end_packet ok = do
  elim ok [ true ↦ led_green false | false ↦ return tt ]
  λ c. (get_or c.stat_reg 0 0 % 2 ^ 8, c)

-- A whole packet, with `data_phase` for what follows the response.
unfoldable pub exchange : ℕ → ℕ → M Bool → M ℕ
exchange cmd arg_tmp data_phase = do
  begin_packet cmd
  λ c. send_frame cmd (packet_arg c.ccs cmd arg_tmp) c
  ok ← receive_response cmd >? data_phase
  end_packet ok

unfoldable pub store_block : M Bool
store_block = do
  bytes ← sdc_receivebyte_array block_size
  modify (λ c. record c { stored = c.stored ++ bytes })
  ignore_byte
  ignore_byte
  ignore_byte
  return true

unfoldable pub read_blocks : ℕ → M Bool
read_blocks zero = return true
read_blocks (suc blocks_count) =
    require (wait_start_bit (suc poll_countmax)) >? store_block >? read_blocks blocks_count

unfoldable pub read_phase : ℕ → ℕ → M Bool
read_phase cmd blocks_count = read_blocks blocks_count >? (do
  (if cmd == read_single_block
      then return tt
      else (exchange stop_transmission 0 (return true) >>= λ _. return tt))
  sdc_cs_deassert
  ignore_byte
  return true)

unfoldable pub accepted : ℕ → M Bool
accepted tmp = return (bit_and tmp 0x1f == 0x05)

-- The start block token, the block, and a checksum that the card does not read.
unfoldable pub send_block : ℕ → List ℕ → M (Unit {0})
send_block cmd buffer = do
  sdc_sendbyte (if cmd == write_single_block then 0xFE else 0xFC)
  sdc_sendbyte_array (take block_size buffer)
  sdc_sendbyte 0xFF
  sdc_sendbyte 0xFF

unfoldable pub write_blocks : ℕ → ℕ → List ℕ → M Bool
write_blocks cmd zero buffer = return true
write_blocks cmd (suc blocks_count) buffer =
    (do send_block cmd buffer; require (sdc_receivebyte >>= accepted))
    >? require (wait_idle (suc poll_countmax))
    >? (if cmd == write_single_block then return true else (do ignore_byte; return true))
    >? write_blocks cmd blocks_count (drop block_size buffer)

-- The select line off for 8 clocks and on again, to see the card idle.
unfoldable pub reselect : M Bool
reselect =
    (do sdc_cs_deassert; sdc_sendbyte 0xFF; sdc_cs_assert; require (wait_idle (suc poll_countmax)))
    >? (do sdc_cs_deassert; return true)

unfoldable pub write_phase : ℕ → ℕ → List ℕ → M Bool
write_phase cmd blocks_count buffer =
    write_blocks cmd blocks_count buffer
    >? (if cmd == write_single_block
        then return true
        else (do sdc_sendbyte 0xFD; require (wait_idle (suc poll_countmax))))
    >? reselect

unfoldable pub sdc_sendpacket : ℕ → ℕ → List ℕ → ℕ → M ℕ
sdc_sendpacket cmd arg buffer blocks_count = exchange cmd arg (
    if (cmd == read_single_block) || (cmd == read_multiple_blocks)
    then read_phase cmd blocks_count
    else if (cmd == write_single_block) || (cmd == write_multiple_blocks)
    then write_phase cmd blocks_count buffer
    else return true)

-- `SDC_TIMEOUT`
abbrev pub sdc_timeout : ℕ
sdc_timeout = 8

-- `for(i=0; i<blocks_count; i++)`, with the response of the round before.
unfoldable pub read_loop : ℕ → ℕ → ℕ → M ℕ
read_loop zero block response = return response
read_loop (suc blocks_count) block response = do
  r ← sdc_sendpacket read_single_block block [] 1
  λ c. elim (c.packet_timeout == 0) [
    | true ↦ read_loop blocks_count ((block + 1) % 2 ^ 32) (r / 2 ^ 24) c
    | false ↦ (sdc_timeout, c)
  ]

unfoldable pub sdc_read_multiple_blocks : ℕ → ℕ → M ℕ
sdc_read_multiple_blocks start_block blocks_count = read_loop blocks_count start_block 0

unfoldable pub write_loop : ℕ → ℕ → List ℕ → ℕ → M ℕ
write_loop zero block buffer response = return response
write_loop (suc blocks_count) block buffer response = do
  r ← sdc_sendpacket write_single_block block (take block_size buffer) 1
  λ c. elim (c.packet_timeout == 0) [
    | true ↦ write_loop blocks_count ((block + 1) % 2 ^ 32) (drop block_size buffer) (r / 2 ^ 24) c
    | false ↦ (sdc_timeout, c)
  ]

unfoldable pub sdc_write_multiple_blocks : ℕ → List ℕ → ℕ → M ℕ
sdc_write_multiple_blocks start_block buffer blocks_count =
    write_loop blocks_count start_block buffer 0
