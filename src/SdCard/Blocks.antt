-- ===== src/SdCard/Blocks.antt =====
-- Reading blocks from a card that answers by the protocol, and from one that does not.
use ftx.Base.{ℕ, suc, ◌+◌, ◌/◌, ◌%◌, ◌^◌, ◌≤◌, ◌<◌, ◌≡◌, refl, sym, ap, ◌∙◌, arith}
use ftx.Base.{
  true, false, List, [], ◌∷◌, ◌++◌, length, replicate, append_assoc, append-nil, All, drop,
}
use native.Mathlib.Nat.{mod-eq_of_lt}
use ftx.SdCard.Spi.{Card, Signal, select, led_green, sdc_cs_deassert}
use ftx.SdCard.Packet.{packet_arg, poll_countmax, store_block, read_blocks, read_phase}
use ftx.SdCard.Packet.{
  sdc_sendpacket, response_len, packet_status_len, read_loop, sdc_read_multiple_blocks,
}
use ftx.SdCard.Packet.{end_packet, block_size, read_single_block}
use ftx.SdCard.Bits.{
  IsByte, feed, bits_of, stream, signals, sdc_receivebyte_lem, sdc_receivebyte_array_lem,
}
use ftx.SdCard.Bits.{wait_start_bit_lem}
use ftx.SdCard.Frame.{frame, block_frame, frame-read, response, responded, exchange_lem}

-- A card's answer to one read: the response behind some idle clocks, and behind some more the
-- start bit, a block, its checksum of two bytes, and two bytes of extra clocks.
pub record Answer : Type 0 where
  pub waits : ℕ
  pub status : ℕ
  pub data_waits : ℕ
  pub block : List ℕ
  pub crc_high : ℕ
  pub crc_low : ℕ
  pub gap : ℕ
  pub last_gap : ℕ

pub record IsAnswer (a : Answer) : Type 0 where
  pub waits_short : a.waits ≤ poll_countmax
  pub status_small : a.status < 2 ^ 7
  pub data_waits_short : a.data_waits ≤ poll_countmax
  pub block_whole : length a.block ≡ block_size
  pub block_bytes : All IsByte a.block
  pub crc_high_byte : IsByte a.crc_high
  pub crc_low_byte : IsByte a.crc_low
  pub gap_byte : IsByte a.gap
  pub last_gap_byte : IsByte a.last_gap

abbrev pub data_bits : Answer → List ℕ → List ℕ
data_bits a rest =
    replicate a.data_waits 1
    ++ (0
        ∷ (stream a.block
            ++ (bits_of a.crc_high
                ++ (bits_of a.crc_low ++ (bits_of a.gap ++ (bits_of a.last_gap ++ rest))))))

abbrev pub answer_bits : Answer → List ℕ → List ℕ
answer_bits a rest = response a.waits a.status [] (data_bits a rest)

module _ (a : Answer) (ok : IsAnswer a) where
  read_blocks_lem :
      (c : Card) (rest : List ℕ)
      → read_blocks 1 (feed c (data_bits a rest))
        ≡ (true, record c { line = bits_of a.last_gap ++ rest; stored = c.stored ++ a.block })
  unfolding read_blocks store_block
  read_blocks_lem c rest =
      let tail =
        bits_of a.crc_high
        ++ (bits_of a.crc_low ++ (bits_of a.gap ++ (bits_of a.last_gap ++ rest))) in
      rw
        (wait_start_bit_lem c a.data_waits (suc poll_countmax) (stream a.block ++ tail)
          (omega (arith, ok.data_waits_short)))
        (rw (sym ok.block_whole, sdc_receivebyte_array_lem c a.block tail ok.block_bytes)
          (let kept = record c { stored = c.stored ++ a.block } in
            rw
              (sdc_receivebyte_lem kept a.crc_high
                (bits_of a.crc_low ++ (bits_of a.gap ++ (bits_of a.last_gap ++ rest)))
                ok.crc_high_byte)
              (rw
                (sdc_receivebyte_lem kept a.crc_low (bits_of a.gap ++ (bits_of a.last_gap ++ rest))
                  ok.crc_low_byte)
                (rw (sdc_receivebyte_lem kept a.gap (bits_of a.last_gap ++ rest) ok.gap_byte)
                  refl))))

  -- The state after a block has been read.
  abbrev after_read : Card → ℕ → List ℕ → Card
  after_read c arg rest = record c {
    line = rest;
    wire =
        (c.wire
          ++ (select 0 ∷ signals (stream (frame read_single_block (packet_arg c.ccs 17 arg)))))
        ++ (select 1 ∷ []);
    green_led = false;
    packet_timeout = 0;
    status_len = 1;
    stat_reg = a.status ∷ drop 1 c.stat_reg;
    stored = c.stored ++ a.block;
  }

  sdc_sendpacket_read :
      (c : Card) (arg : ℕ) (rest : List ℕ)
      → sdc_sendpacket read_single_block arg [] 1 (feed c (answer_bits a rest))
        ≡ (a.status, after_read c arg rest)
  unfolding sdc_sendpacket read_phase end_packet led_green sdc_cs_deassert packet_status_len
      response_len
  sdc_sendpacket_read c arg rest =
      exchange_lem c read_single_block arg a.waits a.status [] (data_bits a rest)
        (read_phase read_single_block 1) ok.waits_short ok.status_small tt refl
      ∙ rw (read_blocks_lem (responded c read_single_block arg a.status [] []) rest) (
          rw
            (sdc_receivebyte_lem (record (after_read c arg []) { green_led = true }) a.last_gap rest
              ok.last_gap_byte)
            (ap (λ v. (v, after_read c arg rest)) (mod-eq_of_lt (omega (arith, ok.status_small)))))

-- The bits of a card that answers one read after the other, and what it sends.
abbrev pub answers_bits : List Answer → List ℕ → List ℕ
answers_bits [] rest = rest
answers_bits (a ∷ others) rest = answer_bits a (answers_bits others rest)

abbrev pub blocks : List Answer → List ℕ
blocks [] = []
blocks (a ∷ others) = a.block ++ blocks others

-- The select line down, the frame of a read at each block from `block` on, and the line up again.
abbrev pub read_signals : ℕ → ℕ → List Answer → List Signal
read_signals ccs block [] = []
read_signals ccs block (a ∷ others) =
    (select 0 ∷ signals (stream (block_frame 0x51 ccs block)))
    ++ ((select 1 ∷ []) ++ read_signals ccs ((block + 1) % 2 ^ 32) others)

-- What a run of reads gives: its value, and of the state what has been stored, what has gone out,
-- the bits left, and that no packet timed out.
pub record IsRead (result : ℕ × Card) (c : Card) (block : ℕ) (others : List Answer) (rest : List ℕ)
    : Type 0 where
  pub value : result.0 ≡ 0
  pub all_stored : result.1.stored ≡ c.stored ++ blocks others
  pub sent_frames : result.1.wire ≡ c.wire ++ read_signals c.ccs block others
  pub left : result.1.line ≡ rest
  pub in_time : result.1.packet_timeout ≡ 0

extend-IsRead :
    (a : Answer) (ok : IsAnswer a) (result : ℕ × Card) (c : Card) (block : ℕ) (others : List Answer)
    (rest : List ℕ)
    → IsRead result (after_read a ok c block []) ((block + 1) % 2 ^ 32) others rest
    → IsRead result c block (a ∷ others) rest
extend-IsRead a ok result c block others rest ih =
    let out = select 0 ∷ signals (stream (frame read_single_block (packet_arg c.ccs 17 block))) in
    let next = read_signals c.ccs ((block + 1) % 2 ^ 32) others in
    record {
      value = ih.value;
      all_stored = ih.all_stored ∙ append_assoc c.stored a.block (blocks others);
      sent_frames =
          ih.sent_frames
          ∙ append_assoc (c.wire ++ out) (select 1 ∷ []) next
          ∙ append_assoc c.wire out ((select 1 ∷ []) ++ next)
          ∙ ap (λ fr. c.wire ++ ((select 0 ∷ signals (stream fr)) ++ ((select 1 ∷ []) ++ next)))
              (frame-read c.ccs block);
      left = ih.left;
      in_time = ih.in_time;
    }

read_loop-IsRead :
    (others : List Answer) (c : Card) (block : ℕ) (rest : List ℕ)
    → All IsAnswer others
    → c.packet_timeout ≡ 0
    → IsRead
        (read_loop (length others) block 0 (feed c (answers_bits others rest)))
        c
        block
        others
        rest
unfolding read_loop
read_loop-IsRead [] c block rest ok calm = record {
  value = refl;
  all_stored = sym (append-nil c.stored);
  sent_frames = sym (append-nil c.wire);
  left = refl;
  in_time = calm;
}
read_loop-IsRead (a ∷ others) c block rest ok calm =
    let none_left : a.status / 2 ^ 24 ≡ 0 = omega (arith, (ok.0).status_small) in
    rw (sdc_sendpacket_read a ok.0 c block (answers_bits others rest)) (
      rw none_left (
        extend-IsRead a ok.0 _ c block others rest (
          read_loop-IsRead others (after_read a ok.0 c block []) ((block + 1) % 2 ^ 32) rest ok.1
            refl)))

-- A card that answers `length answers` reads by the protocol: `sdc_read_multiple_blocks` stores
-- their blocks one behind the other, and sends one read frame for each block, at the following
-- addresses, in bytes if the card is no SDHC card; it returns 0 and takes no bit more.
pub sdc_read_multiple_blocks-IsRead :
    (answers : List Answer) (c : Card) (start_block : ℕ) (rest : List ℕ)
    → All IsAnswer answers
    → c.packet_timeout ≡ 0
    → IsRead
        (sdc_read_multiple_blocks start_block (length answers) (feed c (answers_bits answers rest)))
        c
        start_block
        answers
        rest
unfolding sdc_read_multiple_blocks
sdc_read_multiple_blocks-IsRead answers c start_block rest ok calm =
    read_loop-IsRead answers c start_block rest ok calm
