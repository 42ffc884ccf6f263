-- ===== src/SdCard/Init.antt =====
-- `sdc_init`: from a card that has been put in to one that takes blocks of 512 bytes. The settings
-- of the A bus and the wait of 10 ms are no part of the state.
use ftx.Base.{ℕ, zero, suc, ◌+◌, ◌*◌, ◌/◌, ◌%◌, ◌^◌, Bool, true, false, ◌&&◌, ◌||◌, not}
use ftx.Base.{[], ◌++◌, get_or, take, drop, replicate, ◌==◌, if◌then◌else◌}
use ftx.SdCard.Spi.{Card, Stats, M, ◌>>=◌, ◌>>◌, return, modify, led_red, led_green, clocked}
use ftx.SdCard.Spi.{sdc_cs_assert, sdc_cs_deassert}
use ftx.SdCard.Packet.{sdc_sendpacket, block_size}
use ftx.SdCard.Slice.{sdc_slice}

-- `SDC_OK`, `SDC_FAILURE`, `SDC_NOHARDWARE`, `SDC_NOCARD`
abbrev pub sdc_ok : ℕ
sdc_ok = 1

abbrev pub sdc_failure : ℕ
sdc_failure = 2

abbrev pub sdc_nohardware : ℕ
sdc_nohardware = 3

abbrev pub sdc_nocard : ℕ
sdc_nocard = 4

-- `memset((void*)sd, 0, sizeof(sdcard_t))` and the values set behind it.
unfoldable pub reset_card : Card → Card
reset_card c = record c {
  packet_timeout = 0;
  ccs = 0;
  sd_ver2 = 0;
  mmc = 0;
  inserted = 0;
  stat_reg = replicate 24 0;
  status_len = 0;
  log_sdcard = 1;
  stats = record {
    cid = replicate 16 0;
    csd = replicate 16 0;
    version_major = 0xFF;
    version_minor = 0x02;
    sdhc = 0;
    file_format = 0;
    user_size = 0;
  };
}

-- The lines that every failure runs.
unfoldable pub give_up : M ℕ
give_up = do sdc_cs_deassert; led_green false; led_red true; return sdc_failure

abbrev pub response_is : ℕ → Card → Bool
response_is value c = get_or c.stat_reg 0 0 == value

abbrev pub bad_response : Card → Bool
bad_response c = not (c.packet_timeout == 0) || not (response_is 0x01 c)

-- A command whose value is not used.
abbrev pub command : ℕ → ℕ → M (Unit {0})
command cmd arg = sdc_sendpacket cmd arg [] 1 >>= λ r. return tt

-- 74 clocks with DI and CS high.
unfoldable pub start_clocks : M (Unit {0})
start_clocks = do
  sdc_cs_deassert
  modify (λ c. record c { wire = c.wire ++ replicate 74 (clocked 1) })
  sdc_cs_assert

-- CMD0.
unfoldable pub go_idle : M Bool
go_idle = do command 0 0; λ c. (not (bad_response c), c)

-- CMD8. `i` is 74 from the loop before, so that a wrong echo always fails.
unfoldable pub check_version : M Bool
check_version = do
  command 8 0x1AA
  λ c.
      if bad_response c
      then (true, record c { sd_ver2 = 0 })
      else if (get_or c.stat_reg 1 0 == 0x00)
          && ((get_or c.stat_reg 2 0 == 0x00)
              && ((get_or c.stat_reg 3 0 == 0x01) && (get_or c.stat_reg 4 0 == 0xAA)))
      then (true, record c { sd_ver2 = 1 })
      else (false, c)

unfoldable pub send_op_cond : M (Unit {0})
send_op_cond c = elim (c.mmc == 0) [ true ↦ acmd41 c | false ↦ command 1 0 c ]
  where
    acmd41 : M (Unit {0})
    acmd41 = do command 55 0; λ c. command 41 (if c.sd_ver2 == 0 then 0 else 0x40000000) c

-- `for(i=0; i<5000; i++)`, with the rounds left and whether `i` is 0: `false` on a failure. When
-- the rounds are used up the code goes on.
unfoldable pub op_cond_loop : ℕ → Bool → M Bool
op_cond_loop zero is_first = return true
op_cond_loop (suc rounds) is_first = do
  send_op_cond
  λ c. elim ((c.packet_timeout == 0) && response_is 0x00 c) [
    | true ↦ (true, c)
    | false ↦ elim (is_first && (c.sd_ver2 == 0)) [
      | true ↦ op_cond_loop rounds false (record c { mmc = 1 })
      | false ↦ elim (bad_response c) [ true ↦ (false, c) | false ↦ op_cond_loop rounds false c ]
    ]
  ]

abbrev pub op_cond_rounds : ℕ
op_cond_rounds = 5000

unfoldable pub wait_ready : M Bool
wait_ready c = op_cond_loop op_cond_rounds true (record c { mmc = 0 })

-- CMD58, CMD10 and CMD9.
unfoldable pub read_ocr : M (Unit {0})
read_ocr = do command 58 0; modify (λ c. record c { ccs = get_or c.stat_reg 1 0 / 2 ^ 6 % 2 })

unfoldable pub read_cid : M (Unit {0})
read_cid = do
  command 10 0
  modify (λ c. record c {
    stats = record (c.stats) {
      cid = take 16 (drop c.status_len c.stat_reg);
      sdhc = 2;
      user_size = 0;
      file_format = 3;
    };
  })

-- `tmpd` and `user_size` of a size in bytes, an `unsigned long`: `tmpd` is a whole number below 4096, which a `double`
-- and its product by 1000 hold exactly.
abbrev pub user_size_of : ℕ → ℕ
user_size_of bytes = 1000 * (bytes % 2 ^ 32 / 1048576) / 2 ^ 10

unfoldable pub sd_capacity : Card → Stats
sd_capacity c =
    let block_length = 2 ^ sdc_slice 128 83 80 c in
    let c_size = sdc_slice 128 73 62 c + 1 in
    let c_size_mult = 2 ^ (sdc_slice 128 49 47 c + 2) in
    record (c.stats) {
      user_size = user_size_of (c_size * c_size_mult * block_length);
      file_format = sdc_slice 128 11 10 c;
    }

unfoldable pub sdhc_capacity : Card → Stats
sdhc_capacity c =
    let c_size = sdc_slice 128 69 48 c + 1 in
    record (c.stats) { sdhc = 1; user_size = user_size_of ((c_size + 1) * 524288) }

unfoldable pub fill_capacity : M Bool
fill_capacity c =
    let tmp = get_or c.stat_reg c.status_len 0 / 2 ^ 6 % 2 ^ 2 in
    let d = record c {
      stats = record (c.stats) { csd = take 16 (drop c.status_len c.stat_reg); sdhc = tmp };
    } in
    if tmp == 0
    then (true, record d { stats = sd_capacity d })
    else if tmp == 1
    then (true, record d { stats = sdhc_capacity d })
    else (false, d)

unfoldable pub read_csd : M Bool
read_csd = do command 55 0; command 9 0; fill_capacity

-- CMD16 for a card of version 2, and the end.
unfoldable pub set_block_length : M (Unit {0})
set_block_length c = elim (c.sd_ver2 == 0) [ true ↦ (tt, c) | false ↦ command 16 block_size c ]

unfoldable pub finish : M ℕ
finish = do sdc_cs_deassert; led_green false; led_red false; return sdc_ok

-- A step, and behind it the next if it went well, or else the lines of a failure.
infixr 4 ◌>!◌
abbrev pub ◌>!◌ : M Bool → M ℕ → M ℕ
m >! k = m >>= λ ok. elim ok [ true ↦ k | false ↦ give_up ]

unfoldable pub power_on : M (Unit {0})
power_on = do modify (λ c. record c { inserted = 1 }); led_green true; led_red true; start_clocks

unfoldable pub start_card : M ℕ
start_card = do
  power_on
  go_idle
      >! (check_version
          >! (wait_ready >! (do read_ocr; read_cid; read_csd >! (do set_block_length; finish))))

-- `SC_EXT_SATCART`, and the bit `SD_EJECT_LSHFT` of `REG_CPLD_IO`.
abbrev pub sc_ext_satcart : ℕ
sc_ext_satcart = 3

unfoldable pub sdc_init : ℕ → ℕ → M ℕ
sdc_init extdev_id cpld_io = do
  modify reset_card
  if not (extdev_id == sc_ext_satcart)
      then return sdc_nohardware
      else if cpld_io / 2 ^ 7 % 2 == 0
      then start_card
      else return sdc_nocard
