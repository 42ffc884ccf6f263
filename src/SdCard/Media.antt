-- ===== src/SdCard/Media.antt =====
-- The functions of fat_io_lib/fat_global.c that give the FAT library its blocks.
use ftx.Base.{ℕ, suc, ◌≡◌, refl, ap}
use ftx.Base.{List, [], take, ◌==◌, if◌then◌else◌}
use ftx.SdCard.Spi.{Card, M}
use ftx.SdCard.Packet.{
  sdc_read_multiple_blocks, sdc_write_multiple_blocks, read_loop, sdc_sendpacket,
}
use ftx.SdCard.Packet.{write_loop, block_size, read_single_block, write_single_block}
use ftx.SdCard.Bits.{feed}
use ftx.SdCard.Frame.{exchange_silent}

abbrev in_time : Card → ℕ
in_time c = if c.packet_timeout == 0 then 1 else 0

unfoldable pub fat_media_read : ℕ → ℕ → M ℕ
fat_media_read sector sector_count c =
    let d = (sdc_read_multiple_blocks sector sector_count c).1 in (in_time d, d)

unfoldable pub fat_media_write : ℕ → List ℕ → ℕ → M ℕ
fat_media_write sector buffer sector_count c =
    let d = (sdc_write_multiple_blocks sector buffer sector_count c).1 in (in_time d, d)

module _ (cmd arg : ℕ) (buffer : List ℕ) (n : ℕ) (c : Card) where
  silent_timeout : (sdc_sendpacket cmd arg buffer n (feed c [])).1.packet_timeout ≡ 1
  unfolding sdc_sendpacket
  silent_timeout = ap (λ r. r.1.packet_timeout) (exchange_silent c cmd arg _)

  silent_stored : (sdc_sendpacket cmd arg buffer n (feed c [])).1.stored ≡ c.stored
  unfolding sdc_sendpacket
  silent_stored = ap (λ r. r.1.stored) (exchange_silent c cmd arg _)

-- With a card that does not answer, `fat_media_read` and `fat_media_write` of at least one block
-- give 0, and the buffer of the read is as before.
pub fat_media_silent :
    (sector n : ℕ) (buffer : List ℕ) (c : Card)
    → let r = fat_media_read sector (suc n) (feed c []) in
      ((r.0 ≡ 0) × (r.1.stored ≡ c.stored))
      × ((fat_media_write sector buffer (suc n) (feed c [])).0 ≡ 0)
unfolding fat_media_read fat_media_write sdc_read_multiple_blocks sdc_write_multiple_blocks
    read_loop write_loop
fat_media_silent sector n buffer c =
    let out = take block_size buffer in
    rw (silent_timeout read_single_block sector [] 1 c) (
      rw (silent_timeout write_single_block sector out 1 c)
        ((refl, silent_stored read_single_block sector [] 1 c), refl))
