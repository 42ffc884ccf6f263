-- ===== src/SdCard/Writes.antt =====
-- Writing blocks to a card that takes them by the protocol.
use native.Mathlib.Nat.{mod-eq_of_lt}
use ftx.Base.{ℕ, zero, suc, ◌+◌, ◌/◌, ◌%◌, ◌^◌, ◌≤◌, ◌<◌, ◌≡◌, ◌≢◌, refl, sym, ap, ◌∙◌, arith}
use ftx.Base.{true, false, List, [], ◌∷◌, ◌++◌, length, append_assoc, append-nil, All, drop}
use ftx.Base.{take, ◌==◌, bit_and, eqb_of_ne, take-length-append, drop-length-append}
use ftx.SdCard.Spi.{Card, Signal, select, bind, led_green, sdc_cs_deassert, sdc_cs_assert}
use ftx.SdCard.Spi.{sdc_sendbyte, sdc_sendbyte_array, byte_signals}
use ftx.SdCard.Packet.{
  packet_arg, poll_countmax, wait_idle, write_blocks, write_phase, accepted, reselect, send_block,
}
use ftx.SdCard.Packet.{
  sdc_sendpacket, response_len, packet_status_len, write_loop, sdc_write_multiple_blocks,
}
use ftx.SdCard.Packet.{end_packet, block_size, write_single_block}
use ftx.SdCard.Bits.{
  IsByte, feed, bits_of, stream, signals, sdc_receivebyte_lem, sdc_sendbyte_array_lem,
}
use ftx.SdCard.Frame.{frame, block_frame, frame-write, response, responded, exchange_lem}

-- Bytes of a busy card, all of them 0, and the byte with which it is idle.
abbrev pub busy_bits : ℕ → ℕ → List ℕ → List ℕ
busy_bits zero idle rest = bits_of idle ++ rest
busy_bits (suc busy) idle rest = bits_of 0 ++ busy_bits busy idle rest

wait_idle_lem :
    (c : Card) (busy polls idle : ℕ) (rest : List ℕ)
    → busy ≤ polls
    → IsByte idle
    → idle ≢ 0
    → wait_idle polls (feed c (busy_bits busy idle rest)) ≡ (true, feed c rest)
unfolding wait_idle
wait_idle_lem c zero zero idle rest h b ne =
    let busy_not : (idle == 0) ≡ false = eqb_of_ne idle 0 ne in
    rw (sdc_receivebyte_lem c idle rest b) (rw (busy_not, bind) refl)
wait_idle_lem c zero (suc polls) idle rest h b ne =
    let busy_not : (idle == 0) ≡ false = eqb_of_ne idle 0 ne in
    rw (sdc_receivebyte_lem c idle rest b) (rw (busy_not, bind) refl)
wait_idle_lem c (suc busy) zero idle rest h b ne = absurd (omega arith)
wait_idle_lem c (suc busy) (suc polls) idle rest h b ne =
    rw (sdc_receivebyte_lem c 0 (busy_bits busy idle rest) (omega arith))
      (wait_idle_lem c busy polls idle rest (omega arith) b ne)

-- A write: the block, and the card's answer, which is the response, the byte that says that it takes the data, and twice
-- that it is busy for some bytes and then idle.
pub record Taken : Type 0 where
  pub block : List ℕ
  pub waits : ℕ
  pub status : ℕ
  pub verdict : ℕ
  pub busy : ℕ
  pub idle : ℕ
  pub last_busy : ℕ
  pub last_idle : ℕ

pub record IsTaken (a : Taken) : Type 0 where
  pub block_whole : length a.block ≡ block_size
  pub waits_short : a.waits ≤ poll_countmax
  pub status_small : a.status < 2 ^ 7
  pub verdict_byte : IsByte a.verdict
  pub verdict_good : bit_and a.verdict 0x1f ≡ 0x05
  pub busy_short : a.busy ≤ suc poll_countmax
  pub idle_byte : IsByte a.idle
  pub idle_high : a.idle ≢ 0
  pub last_busy_short : a.last_busy ≤ suc poll_countmax
  pub last_idle_byte : IsByte a.last_idle
  pub last_idle_high : a.last_idle ≢ 0

abbrev pub taken_bits : Taken → List ℕ → List ℕ
taken_bits a rest =
    response a.waits a.status []
      (bits_of a.verdict ++ busy_bits a.busy a.idle (busy_bits a.last_busy a.last_idle rest))

-- What goes out behind the command: the token, the block and its checksum.
abbrev pub block_out : List ℕ → List ℕ
block_out buffer = 0xFE ∷ (take block_size buffer ++ (0xFF ∷ (0xFF ∷ [])))

send_after :
    (xs ys : List ℕ) (c : Card)
    → sdc_sendbyte_array ys (sdc_sendbyte_array xs c).1 ≡ sdc_sendbyte_array (xs ++ ys) c
unfolding sdc_sendbyte_array
send_after [] ys c = refl
send_after (x ∷ xs) ys c = send_after xs ys (record c { wire = c.wire ++ byte_signals x })

send_block_lem :
    (c : Card) (buffer : List ℕ)
    → send_block write_single_block buffer c
      ≡ (tt, record c { wire = c.wire ++ signals (stream (block_out buffer)) })
unfolding send_block sdc_sendbyte sdc_sendbyte_array
send_block_lem c buffer =
    send_after (take block_size buffer) (0xFF ∷ (0xFF ∷ []))
      (record c { wire = c.wire ++ byte_signals 0xFE })
    ∙ sdc_sendbyte_array_lem c (block_out buffer)

module _ (a : Taken) (ok : IsTaken a) where
  write_blocks_lem :
      (c : Card) (buffer rest : List ℕ)
      → write_blocks write_single_block 1 buffer
          (feed c (bits_of a.verdict ++ busy_bits a.busy a.idle rest))
        ≡ (true, record c { line = rest; wire = c.wire ++ signals (stream (block_out buffer)) })
  unfolding write_blocks accepted
  write_blocks_lem c buffer rest =
      let line = bits_of a.verdict ++ busy_bits a.busy a.idle rest in
      let out = record c { wire = c.wire ++ signals (stream (block_out buffer)) } in
      rw (send_block_lem (feed c line) buffer) (
        rw (sdc_receivebyte_lem out a.verdict (busy_bits a.busy a.idle rest) ok.verdict_byte) (
          rw (ok.verdict_good, bind)
            (rw
              (wait_idle_lem out a.busy (suc poll_countmax) a.idle rest ok.busy_short ok.idle_byte
                ok.idle_high)
              refl)))

  reselect_lem :
      (c : Card) (rest : List ℕ)
      → reselect (feed c (busy_bits a.last_busy a.last_idle rest)) ≡ (
        true,
        record c {
          line = rest;
          wire =
              (((c.wire ++ (select 1 ∷ [])) ++ byte_signals 0xFF) ++ (select 0 ∷ []))
              ++ (select 1 ∷ []);
        },
      )
  unfolding reselect sdc_cs_deassert sdc_cs_assert sdc_sendbyte sdc_sendbyte_array
  reselect_lem c rest =
      let off = (c.wire ++ (select 1 ∷ [])) ++ byte_signals 0xFF in
      rw
        (wait_idle_lem (record c { wire = off ++ (select 0 ∷ []) }) a.last_busy (suc poll_countmax)
          a.last_idle rest ok.last_busy_short ok.last_idle_byte ok.last_idle_high)
        refl

-- What goes out for a write: the select line down, the frame, the block, and the select line up
-- for 8 clocks, down, and up.
abbrev framed_out : List ℕ → List ℕ → List Signal
framed_out sent bytes =
    (select 0 ∷ signals (stream sent))
    ++ (signals (stream (block_out bytes))
        ++ ((select 1 ∷ []) ++ (byte_signals 0xFF ++ ((select 0 ∷ []) ++ (select 1 ∷ [])))))

abbrev pub write_out : ℕ → ℕ → List ℕ → List Signal
write_out ccs block bytes = framed_out (block_frame 0x58 ccs block) bytes

regroup :
    {A : Type 0} (w f b x s y z : List A)
    → (((((w ++ f) ++ b) ++ x) ++ s) ++ y) ++ z ≡ w ++ (f ++ (b ++ (x ++ (s ++ (y ++ z)))))
regroup w f b x s y z = simp append_assoc

module _ (a : Taken) (ok : IsTaken a) where
  -- The state after a block has been written, behind the frame `sent`.
  abbrev after_frame : List ℕ → Card → List ℕ → Card
  after_frame sent c rest = record c {
    line = rest;
    wire = c.wire ++ framed_out sent a.block;
    green_led = false;
    packet_timeout = 0;
    status_len = 1;
    stat_reg = a.status ∷ drop 1 c.stat_reg;
  }

  abbrev after_write : Card → ℕ → List ℕ → Card
  after_write c arg rest = after_frame (block_frame 0x58 c.ccs arg) c rest

  sdc_sendpacket_write :
      (c : Card) (arg : ℕ) (rest : List ℕ)
      → sdc_sendpacket write_single_block arg a.block 1 (feed c (taken_bits a rest))
        ≡ (a.status, after_write c arg rest)
  unfolding sdc_sendpacket write_phase end_packet led_green packet_status_len response_len
  sdc_sendpacket_write c arg rest =
      let came = responded c write_single_block arg a.status [] [] in
      let out = select 0 ∷ signals (stream (frame 24 (packet_arg c.ccs 24 arg))) in
      exchange_lem c write_single_block arg a.waits a.status []
        (bits_of a.verdict ++ busy_bits a.busy a.idle (busy_bits a.last_busy a.last_idle rest))
        (write_phase write_single_block 1 a.block) ok.waits_short ok.status_small tt refl
      ∙ rw (write_blocks_lem a ok came a.block (busy_bits a.last_busy a.last_idle rest)) (
          rw
            (reselect_lem a ok
              (record came { wire = came.wire ++ signals (stream (block_out a.block)) }) rest)
            (rw
              (regroup c.wire out (signals (stream (block_out a.block))) (select 1 ∷ [])
                (byte_signals 0xFF) (select 0 ∷ []) (select 1 ∷ []))
              (ap (λ v. (v, after_frame (frame 24 (packet_arg c.ccs 24 arg)) c rest))
                (mod-eq_of_lt (omega (arith, ok.status_small))))))
      ∙ ap (λ sent. (a.status, after_frame sent c rest)) (frame-write c.ccs arg)

-- The bits of a card that takes one write after the other, the blocks, and what is sent to it.
abbrev pub taken_line : List Taken → List ℕ → List ℕ
taken_line [] rest = rest
taken_line (a ∷ others) rest = taken_bits a (taken_line others rest)

abbrev pub written : List Taken → List ℕ
written [] = []
written (a ∷ others) = a.block ++ written others

abbrev pub write_signals : ℕ → ℕ → List Taken → List Signal
write_signals ccs block [] = []
write_signals ccs block (a ∷ others) =
    write_out ccs block a.block ++ write_signals ccs ((block + 1) % 2 ^ 32) others

-- What a run of writes gives: its value, and of the state what has gone out, the bits left, and
-- that no packet timed out.
pub record IsWritten (result : ℕ × Card) (c : Card) (block : ℕ) (others : List Taken)
    (rest : List ℕ) : Type 0 where
  pub value : result.0 ≡ 0
  pub sent : result.1.wire ≡ c.wire ++ write_signals c.ccs block others
  pub left : result.1.line ≡ rest
  pub in_time : result.1.packet_timeout ≡ 0

extend-IsWritten :
    (a : Taken) (ok : IsTaken a) (result : ℕ × Card) (c : Card) (block : ℕ) (others : List Taken)
    (rest : List ℕ)
    → IsWritten result (after_write a ok c block []) ((block + 1) % 2 ^ 32) others rest
    → IsWritten result c block (a ∷ others) rest
extend-IsWritten a ok result c block others rest ih = record {
  value = ih.value;
  sent =
      ih.sent
      ∙ append_assoc c.wire (write_out c.ccs block a.block)
          (write_signals c.ccs ((block + 1) % 2 ^ 32) others);
  left = ih.left;
  in_time = ih.in_time;
}

write_loop-IsWritten :
    (others : List Taken) (c : Card) (block : ℕ) (more rest : List ℕ)
    → All IsTaken others
    → c.packet_timeout ≡ 0
    → IsWritten
        (write_loop
          (length others)
          block
          (written others ++ more)
          0
          (feed c (taken_line others rest)))
        c
        block
        others
        rest
unfolding write_loop
write_loop-IsWritten [] c block more rest ok calm = record {
  value = refl;
  sent = sym (append-nil c.wire);
  left = refl;
  in_time = calm;
}
write_loop-IsWritten (a ∷ others) c block more rest ok calm =
    let none_left : a.status / 2 ^ 24 ≡ 0 = omega (arith, (ok.0).status_small) in
    let next : take block_size (written (a ∷ others) ++ more) ≡ a.block =
      rw (append_assoc a.block (written others) more)
        (rw (sym (ok.0).block_whole) (take-length-append a.block (written others ++ more))) in
    let behind : drop block_size (written (a ∷ others) ++ more) ≡ written others ++ more =
      rw (append_assoc a.block (written others) more)
        (rw (sym (ok.0).block_whole) (drop-length-append a.block (written others ++ more))) in
    rw next (
      rw (sdc_sendpacket_write a ok.0 c block (taken_line others rest)) (
        rw none_left (
          rw behind (
            extend-IsWritten a ok.0 _ c block others rest (
              write_loop-IsWritten others (after_write a ok.0 c block []) ((block + 1) % 2 ^ 32)
                more rest ok.1 refl)))))

-- A card that takes `length writes` writes by the protocol: `sdc_write_multiple_blocks` sends for
-- each block its frame, at the following addresses, in bytes if the card is no SDHC card, and
-- behind it the token, the 512 bytes of the buffer at the block's place, and the checksum 0xFFFF;
-- it returns 0 and takes no bit more.
pub sdc_write_multiple_blocks-IsWritten :
    (writes : List Taken) (c : Card) (start_block : ℕ) (more rest : List ℕ)
    → All IsTaken writes
    → c.packet_timeout ≡ 0
    → IsWritten
        (sdc_write_multiple_blocks start_block
          (written writes ++ more)
          (length writes)
          (feed c (taken_line writes rest)))
        c
        start_block
        writes
        rest
unfolding sdc_write_multiple_blocks
sdc_write_multiple_blocks-IsWritten writes c start_block more rest ok calm =
    write_loop-IsWritten writes c start_block more rest ok calm
