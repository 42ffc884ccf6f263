-- ===== src/SdCard/Tests.antt =====
-- A card for the theorems to run on: a card of version 2 that holds two blocks.
use ftx.Base.{ℕ, ◌/◌, ◌%◌, ◌^◌, ◌≡◌, refl, arith, Bool, true, false, List, [], ◌∷◌, ◌++◌}
use ftx.Base.{ltb, ltb→lt, ◌&&◌, All, replicate, length-replicate, All-replicate}
use ftx.SdCard.Spi.{Card}
use ftx.SdCard.Bits.{IsByte, feed}
use ftx.SdCard.Init.{sdc_init, sc_ext_satcart, sdhc_capacity}
use ftx.SdCard.Packet.{sdc_read_multiple_blocks, sdc_write_multiple_blocks}
use ftx.SdCard.Slice.{sdc_slice, sdc_slice_lem, be_value}
use ftx.SdCard.Blocks.{Answer, IsAnswer, IsRead, answers_bits, sdc_read_multiple_blocks-IsRead}
use ftx.SdCard.Writes.{
  Taken, IsTaken, IsWritten, taken_line, written, sdc_write_multiple_blocks-IsWritten,
}
use ftx.SdCard.Outcome.{IsEnded, HasRegister, sdc_init-IsEnded}

abbrev pub blank : Card
blank = record {
  line = [];
  wire = [];
  red_led = false;
  green_led = false;
  packet_timeout = 0;
  ccs = 1;
  sd_ver2 = 1;
  mmc = 0;
  inserted = 1;
  stat_reg = replicate 24 0;
  status_len = 1;
  log_sdcard = 1;
  stats = record {
    cid = [];
    csd = [];
    version_major = 0xFF;
    version_minor = 2;
    sdhc = 1;
    file_format = 3;
    user_size = 0;
  };
  stored = [];
}

abbrev one_answer : Answer
one_answer = record {
  waits = 2;
  status = 0;
  data_waits = 3;
  block = replicate 512 0x5A;
  crc_high = 0x12;
  crc_low = 0x34;
  gap = 0xFF;
  last_gap = 0xFF;
}

one_answer-IsAnswer : IsAnswer one_answer
one_answer-IsAnswer = record {
  waits_short = omega arith;
  status_small = omega arith;
  data_waits_short = omega arith;
  block_whole = length-replicate {A = ℕ} 512 0x5A;
  block_bytes = All-replicate IsByte 512 0x5A (omega arith);
  crc_high_byte = omega arith;
  crc_low_byte = omega arith;
  gap_byte = omega arith;
  last_gap_byte = omega arith;
}

abbrev two_answers : List Answer
two_answers = one_answer ∷ one_answer ∷ []

two_answers-IsAnswer : All IsAnswer two_answers
two_answers-IsAnswer = (one_answer-IsAnswer, (one_answer-IsAnswer, tt))

sdc_read_multiple_blocks-IsRead_example :
    IsRead
      (sdc_read_multiple_blocks 7 2 (feed blank (answers_bits two_answers (1 ∷ []))))
      blank
      7
      two_answers
      (1 ∷ [])
sdc_read_multiple_blocks-IsRead_example =
    sdc_read_multiple_blocks-IsRead two_answers blank 7 (1 ∷ []) two_answers-IsAnswer refl

abbrev one_write : Taken
one_write = record {
  block = replicate 512 0x5A;
  waits = 1;
  status = 0;
  verdict = 0xE5;
  busy = 4;
  idle = 0xFF;
  last_busy = 0;
  last_idle = 0xFF;
}

one_write-IsTaken : IsTaken one_write
one_write-IsTaken = record {
  block_whole = length-replicate {A = ℕ} 512 0x5A;
  waits_short = omega arith;
  status_small = omega arith;
  verdict_byte = omega arith;
  verdict_good = refl;
  busy_short = omega arith;
  idle_byte = omega arith;
  idle_high = λ e. absurd (omega arith);
  last_busy_short = omega arith;
  last_idle_byte = omega arith;
  last_idle_high = λ e. absurd (omega arith);
}

abbrev writes : List Taken
writes = one_write ∷ []

sdc_write_multiple_blocks-IsWritten_example :
    IsWritten
      (sdc_write_multiple_blocks 9
        (written writes ++ (1 ∷ []))
        1
        (feed blank (taken_line writes [])))
      blank
      9
      writes
      []
sdc_write_multiple_blocks-IsWritten_example =
    sdc_write_multiple_blocks-IsWritten writes blank 9 (1 ∷ []) [] (one_write-IsTaken, tt) refl

-- A CSD of version 2 with `C_SIZE` 8190, behind a response and the start of the data.
abbrev csd : List ℕ
csd =
    0x40 ∷ 0x0E ∷ 0 ∷ 0x32 ∷ 0x5B ∷ 0x59 ∷ 0 ∷ 0 ∷ 0x1F ∷ 0xFE ∷ 0x7F ∷ 0x80 ∷ 0x0A ∷ 0x40 ∷ 0
    ∷ 0xC3 ∷ []

abbrev with_csd : Card
with_csd = record blank {
  stat_reg = (0 ∷ 0xFF ∷ 0xFE ∷ []) ++ (csd ++ replicate 5 0);
  status_len = 3;
}

abbrev all_bytes : List ℕ → Bool
all_bytes [] = true
all_bytes (b ∷ bs) = ltb b 256 && all_bytes bs

all_bytes_sound : (bs : List ℕ) → all_bytes bs ≡ true → All IsByte bs
all_bytes_sound [] h = tt
all_bytes_sound (b ∷ bs) h =
    let both : (ltb b 256 ≡ true) × (all_bytes bs ≡ true) = ground arith in
    (ltb→lt b 256 both.0, all_bytes_sound bs both.1)

csd_bytes : All IsByte csd
csd_bytes = all_bytes_sound csd refl

with_csd-HasRegister : HasRegister with_csd csd
with_csd-HasRegister = record {
  header = 0 ∷ 0xFF ∷ 0xFE ∷ [];
  more = replicate 5 0;
  held = refl;
  header_len = refl;
  status = refl;
  reg_len = refl;
  reg_bytes = csd_bytes;
}

sdc_slice_lem_example : sdc_slice 128 69 48 with_csd ≡ be_value csd / 2 ^ 48 % 2 ^ 22
sdc_slice_lem_example =
    sdc_slice_lem (0 ∷ 0xFF ∷ 0xFE ∷ []) csd (replicate 5 0) with_csd 69 48 refl refl csd_bytes
      (omega arith) (omega arith) (omega arith) (omega arith)

-- A card of 4 GiB, of which nothing is left.
size_wraps : (sdhc_capacity with_csd).user_size ≡ 0
unfolding sdhc_capacity sdc_slice ftx.SdCard.Slice.slice_loop
size_wraps = refl

sdc_init-IsEnded_example : IsEnded (sdc_init sc_ext_satcart 0x04 blank)
sdc_init-IsEnded_example = sdc_init-IsEnded 0x04 blank refl
