-- ===== src/SdCard/Status.antt =====
-- What the value of `sdc_read_multiple_blocks` and `sdc_write_multiple_blocks` tells.
use ftx.Base.{ℕ, zero, suc, ◌+◌, ◌*◌, ◌%◌, ◌^◌, ◌<◌, ◌≡◌, ◌≢◌, ◌⊎◌}
use ftx.Base.{List, [], take, drop}
use ftx.SdCard.Spi.{Card}
use ftx.SdCard.Packet.{sdc_sendpacket, sdc_timeout}
use ftx.SdCard.Packet.{read_single_block, write_single_block, block_size}

abbrev pub Sends : Type 0
Sends = ℕ → Card → ℕ × Card

-- The card behind the first `k` of the packets.
abbrev pub after : Sends → Card → ℕ → Card
after send c zero = c
after send c (suc k) = (send k (after send c k)).1

-- The value is 0 if none of `n` packets sets `packet_timeout`, and the card is as they all leave it;
-- it is `SDC_TIMEOUT` if one does, and the first of those is the last that is sent.
abbrev pub Tells : Sends → ℕ → Card → ℕ × Card → Type 0
Tells send n c result =
    (◌≡◌ {A = ℕ × Card} result (0, after send c n)
      × ((k : ℕ) → k < n → (after send c (suc k)).packet_timeout ≡ 0))
    ⊎ ((k : ℕ) × (k < n)
        × ((j : ℕ) → j < k → (after send c (suc j)).packet_timeout ≡ 0)
        × ((after send c (suc k)).packet_timeout ≢ 0)
        × ◌≡◌ {A = ℕ × Card} result (sdc_timeout, after send c (suc k)))

-- The packets of a read and of a write, block by block; block numbers wrap.
abbrev pub read_packets : ℕ → Sends
read_packets start_block k = sdc_sendpacket read_single_block ((start_block + k) % 2 ^ 32) [] 1

abbrev pub write_packets : ℕ → List ℕ → Sends
write_packets start_block buffer k =
    sdc_sendpacket write_single_block ((start_block + k) % 2 ^ 32)
      (take block_size (drop (block_size * k) buffer)) 1
