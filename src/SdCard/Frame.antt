-- ===== src/SdCard/Frame.antt =====
-- A packet up to the card's response.
use ftx.Base.{ℕ, suc, ◌^◌, ◌≤◌, ◌<◌, ◌≡◌, refl, ◌∙◌, arith}
use ftx.Base.{Bool, true, List, [], ◌∷◌, ◌++◌, length, replicate, append_assoc, All, drop}
use ftx.Base.{bit_or, bit_and}
use ftx.Base.Words.{be32}
use ftx.Base.{◌*◌, ◌%◌, ◌==◌, if◌then◌else◌}
use ftx.SdCard.Spi.{Card, M, select, bind, led_green, led_red, sdc_cs_assert, sdc_cs_deassert}
use ftx.SdCard.Spi.{sdc_sendbyte, sdc_sendlong, sdc_sendbyte_array}
use ftx.SdCard.Packet.{
  exchange, begin_packet, send_frame, packet_arg, packet_crc, keep_header, receive_response,
  end_packet,
}
use ftx.SdCard.Packet.{response_len, packet_status_len, poll_countmax, fail}
use ftx.SdCard.Bits.{IsByte, feed, bits_of, stream, signals, sdc_sendbyte_array_lem}
use ftx.SdCard.Bits.{receive_header_lem, wait_start_bit_lem, wait_start_bit_silent}

-- Eight clocks, the command, its argument and its checksum.
abbrev pub frame : ℕ → ℕ → List ℕ
frame cmd arg = 0xFF ∷ (bit_or 0x40 (bit_and cmd 0x3F) ∷ (be32 arg ++ (packet_crc cmd arg ∷ [])))

send_frame-array :
    (c : Card) (cmd arg : ℕ) → send_frame cmd arg c ≡ sdc_sendbyte_array (frame cmd arg) c
unfolding send_frame sdc_sendbyte sdc_sendlong sdc_sendbyte_array
send_frame-array c cmd arg = refl

send_frame_lem :
    (c : Card) (cmd arg : ℕ)
    → send_frame cmd arg c ≡ (tt, record c { wire = c.wire ++ signals (stream (frame cmd arg)) })
send_frame_lem c cmd arg = send_frame-array c cmd arg ∙ sdc_sendbyte_array_lem c (frame cmd arg)

-- A response of the card: `waits` idle clocks, the start bit, and the bytes.
abbrev pub response : ℕ → ℕ → List ℕ → List ℕ → List ℕ
response waits r bytes rest =
    replicate waits 1 ++ (0 ∷ (drop 1 (bits_of r) ++ (stream bytes ++ rest)))

-- The state when the response has come.
abbrev pub responded : Card → ℕ → ℕ → ℕ → List ℕ → List ℕ → Card
responded c cmd arg r bytes rest = record c {
  line = rest;
  wire = c.wire ++ (select 0 ∷ signals (stream (frame cmd (packet_arg c.ccs cmd arg))));
  green_led = true;
  packet_timeout = 0;
  status_len = packet_status_len cmd;
  stat_reg = (r ∷ bytes) ++ drop (suc (length bytes)) (0 ∷ drop 1 c.stat_reg);
}

-- The state when the command begins, and when it is out.
abbrev begun : Card → ℕ → List ℕ → Card
begun c cmd line = record c {
  line = line;
  wire = c.wire ++ (select 0 ∷ []);
  green_led = true;
  packet_timeout = 0;
  status_len = packet_status_len cmd;
  stat_reg = 0 ∷ drop 1 c.stat_reg;
}

abbrev framed : Card → ℕ → ℕ → List ℕ → Card
framed c cmd arg line = record (begun c cmd line) {
  wire = (c.wire ++ (select 0 ∷ [])) ++ signals (stream (frame cmd (packet_arg c.ccs cmd arg)));
}

pub receive_response_lem :
    (c : Card) (cmd waits r : ℕ) (bytes rest : List ℕ)
    → waits ≤ poll_countmax
    → r < 2 ^ 7
    → All IsByte bytes
    → response_len cmd ≡ suc (length bytes)
    → receive_response cmd (feed c (response waits r bytes rest)) ≡ (
      true,
      record c { line = rest; stat_reg = (r ∷ bytes) ++ drop (suc (length bytes)) c.stat_reg },
    )
unfolding receive_response keep_header
receive_response_lem c cmd waits r bytes rest hw hr hb hl =
    rw
      (wait_start_bit_lem c waits (suc poll_countmax) (drop 1 (bits_of r) ++ (stream bytes ++ rest))
        (omega arith))
      (rw hl (rw (receive_header_lem c r bytes rest hr hb) refl))

pub exchange_lem :
    (c : Card) (cmd arg waits r : ℕ) (bytes rest : List ℕ) (phase : M Bool)
    → waits ≤ poll_countmax
    → r < 2 ^ 7
    → All IsByte bytes
    → response_len cmd ≡ suc (length bytes)
    → exchange cmd arg phase (feed c (response waits r bytes rest))
      ≡ bind (phase (responded c cmd arg r bytes rest)) end_packet
unfolding exchange begin_packet led_green sdc_cs_assert
exchange_lem c cmd arg waits r bytes rest phase hw hr hb hl =
    let w = c.wire ++ (select 0 ∷ signals (stream (frame cmd (packet_arg c.ccs cmd arg)))) in
    rw (send_frame_lem (begun c cmd (response waits r bytes rest)) cmd (packet_arg c.ccs cmd arg)) (
      rw
        (append_assoc c.wire (select 0 ∷ [])
          (signals (stream (frame cmd (packet_arg c.ccs cmd arg)))))
        (rw
          (receive_response_lem (record (begun c cmd []) { wire = w }) cmd waits r bytes rest hw hr
            hb hl)
          refl))

-- A card that answers nothing: the packet is given up, and says so.
pub exchange_silent :
    (c : Card) (cmd arg : ℕ) (phase : M Bool)
    → exchange cmd arg phase (feed c []) ≡ (
      0,
      record (framed c cmd arg []) {
        wire = (framed c cmd arg []).wire ++ (select 1 ∷ []);
        packet_timeout = 1;
        red_led = true;
      },
    )
unfolding exchange begin_packet led_green sdc_cs_assert receive_response fail led_red
    sdc_cs_deassert end_packet
exchange_silent c cmd arg phase =
    rw (send_frame_lem (begun c cmd []) cmd (packet_arg c.ccs cmd arg))
      (rw (wait_start_bit_silent (framed c cmd arg []) (suc poll_countmax)) refl)

-- The frame of a command of the SD protocol that reads or writes a block, byte by byte: `code` is
-- the command behind its start bits, and the address is that of the block, or of its first byte
-- for a card that is no SDHC card.
abbrev pub block_frame : ℕ → ℕ → ℕ → List ℕ
block_frame code ccs block =
    let address = if ccs == 0 then block * 512 % 2 ^ 32 else block in
    0xFF ∷ (code ∷ (be32 address ++ (0xFF ∷ [])))

pub frame-read : (ccs block : ℕ) → frame 17 (packet_arg ccs 17 block) ≡ block_frame 0x51 ccs block
unfolding packet_arg packet_crc
frame-read ccs block = refl

pub frame-write : (ccs block : ℕ) → frame 24 (packet_arg ccs 24 block) ≡ block_frame 0x58 ccs block
unfolding packet_arg packet_crc
frame-write ccs block = refl
