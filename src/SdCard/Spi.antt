-- ===== src/SdCard/Spi.antt =====
-- The SPI bus of the SD card: `sdcard_t` with the registers that drive it. The bits that the card
-- answers are a script, one for each clock at which DOUT is sampled, and 1, the idle level, once
-- it ends. While bits are sampled DIN is high, so only the bits sent are kept on the wire.
use ftx.Base.{ℕ, zero, suc, ◌*◌, ◌/◌, ◌%◌, ◌^◌, Bool, List, [], ◌∷◌, ◌++◌}
use ftx.Base.{bit_or}
use ftx.Base.Words.{byte_of}

-- What goes out to the card: a bit on DIN at a rising clock, or a change of the select line.
pub data Signal : Type 0 where
  clocked : ℕ → Signal
  select : ℕ → Signal

-- `sdcard_stats_t`
pub record Stats : Type 0 where
  pub cid : List ℕ
  pub csd : List ℕ
  pub version_major : ℕ
  pub version_minor : ℕ
  pub sdhc : ℕ
  pub file_format : ℕ
  pub user_size : ℕ

pub record Card : Type 0 where
  pub line : List ℕ
  pub wire : List Signal
  pub red_led : Bool
  pub green_led : Bool
  pub packet_timeout : ℕ
  pub ccs : ℕ
  pub sd_ver2 : ℕ
  pub mmc : ℕ
  pub inserted : ℕ
  pub stat_reg : List ℕ
  pub status_len : ℕ
  pub log_sdcard : ℕ
  pub stats : Stats
  -- What has been stored from the pointer `buffer` on.
  pub stored : List ℕ

abbrev pub M : Type 0 → Type 0
M A = Card → A × Card

abbrev pub bind : {A B : Type 0} → A × Card → (A → M B) → B × Card
bind (a, c) f = f a c

infixl 5 ◌>>=◌ ◌>>◌
abbrev pub ◌>>=◌ : {A B : Type 0} → M A → (A → M B) → M B
◌>>=◌ m f c = bind (m c) f

abbrev pub ◌>>◌ : {B : Type 0} → M (Unit {0}) → M B → M B
m >> k = m >>= λ _. k

abbrev pub return : {A : Type 0} → A → M A
return a c = (a, c)

abbrev pub modify : (Card → Card) → M (Unit {0})
modify f c = (tt, f c)

-- One clock with DOUT sampled behind it.
unfoldable pub sample : M ℕ
sample c = take_bit c.line c
  where
    take_bit : List ℕ → M ℕ
    take_bit [] c = (1, c)
    take_bit (b ∷ bs) c = (b, record c { line = bs })

-- `sdc_ledset`
unfoldable pub led_red : Bool → M (Unit {0})
led_red on = modify (λ c. record c { red_led = on })

unfoldable pub led_green : Bool → M (Unit {0})
led_green on = modify (λ c. record c { green_led = on })

unfoldable pub sdc_cs_assert : M (Unit {0})
sdc_cs_assert = modify (λ c. record c { wire = c.wire ++ (select 0 ∷ []) })

unfoldable pub sdc_cs_deassert : M (Unit {0})
sdc_cs_deassert = modify (λ c. record c { wire = c.wire ++ (select 1 ∷ []) })

-- Writing `REG_SD_IO_k` puts bit k of the value on DIN, and `REG_SD_CLK_SET` raises the clock.
abbrev pub sd_io : ℕ → ℕ → Signal
sd_io k value = clocked (value / 2 ^ k % 2)

abbrev pub byte_signals : ℕ → List Signal
byte_signals dat =
    let tmp = dat / 2 ^ 4 in
    sd_io 3 tmp
    ∷ sd_io 2 tmp
    ∷ sd_io 1 tmp
    ∷ sd_io 0 tmp
    ∷ sd_io 3 dat
    ∷ sd_io 2 dat
    ∷ sd_io 1 dat
    ∷ sd_io 0 dat
    ∷ []

unfoldable pub sdc_sendbyte_array : List ℕ → M (Unit {0})
sdc_sendbyte_array [] = return tt
sdc_sendbyte_array (dat ∷ more) = do
  modify (λ c. record c { wire = c.wire ++ byte_signals dat })
  sdc_sendbyte_array more

unfoldable pub sdc_sendbyte : ℕ → M (Unit {0})
sdc_sendbyte dat = sdc_sendbyte_array (dat ∷ [])

unfoldable pub sdc_sendlong : ℕ → M (Unit {0})
sdc_sendlong dat =
    sdc_sendbyte_array (byte_of dat 24 ∷ byte_of dat 16 ∷ byte_of dat 8 ∷ byte_of dat 0 ∷ [])

-- A nibble, whose bits `REG_SD_IO_3` to `REG_SD_IO_0` give at their places.
unfoldable pub receive_nibble : M ℕ
receive_nibble = do
  b3 ← sample
  b2 ← sample
  b1 ← sample
  b0 ← sample
  return (bit_or (bit_or (bit_or (b3 * 2 ^ 3) (b2 * 2 ^ 2)) (b1 * 2 ^ 1)) b0)

unfoldable pub sdc_receivebyte : M ℕ
sdc_receivebyte = do
  tmp1 ← receive_nibble
  tmp ← receive_nibble
  return (bit_or tmp (tmp1 * 2 ^ 4 % 2 ^ 8))

-- The bytes stored.
unfoldable pub sdc_receivebyte_array : ℕ → M (List ℕ)
sdc_receivebyte_array zero = return []
sdc_receivebyte_array (suc len) = do
  b ← sdc_receivebyte
  bs ← sdc_receivebyte_array len
  return (b ∷ bs)
