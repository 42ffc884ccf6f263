-- ===== src/SdCard/Outcome.antt =====
-- How `sdc_init` ends, whatever the card answers, and what it takes for the size of a card.
use ftx.Base.{
  ℕ, suc, ◌+◌, ◌-◌, ◌*◌, ◌/◌, ◌%◌, ◌^◌, ◌≤◌, ◌<◌, ◌≡◌, ◌⊎◌, inl, inr, refl, sym, ap, ◌∙◌, arith,
}
use ftx.Base.{Bool, true, false, List, [], ◌∷◌, ◌++◌, length, All}
use ftx.Base.Powers.{pow_add}
use native.Mathlib.Nat.{mul_assoc}
use ftx.SdCard.Spi.{Card, Signal, M, bind, select, led_red, led_green, sdc_cs_deassert}
use ftx.SdCard.Bits.{IsByte}
use ftx.SdCard.Slice.{sdc_slice, sdc_slice_lem, be_value}
use ftx.SdCard.Init.{give_up, finish, start_card, sdc_init, sdc_ok, sdc_failure, sc_ext_satcart}
use ftx.SdCard.Init.{go_idle, check_version, wait_ready, read_csd, ◌>!◌, sd_capacity, sdhc_capacity}
use ftx.SdCard.Init.{user_size_of}

-- Either all is well and both LEDs are off, or it failed and the red one is on; and the last change
-- on the bus is the card's deselection.
pub record IsEnded (result : ℕ × Card) : Type 0 where
  pub verdict :
      ((result.0 ≡ sdc_ok) × (result.1.red_led ≡ false))
      ⊎ ((result.0 ≡ sdc_failure) × (result.1.red_led ≡ true))
  pub green_off : result.1.green_led ≡ false
  pub before : List Signal
  pub deselected : result.1.wire ≡ before ++ (select 1 ∷ [])

give_up-IsEnded : (c : Card) → IsEnded (give_up c)
unfolding give_up sdc_cs_deassert led_green led_red
give_up-IsEnded c = record {
  verdict = inr (refl, refl);
  green_off = refl;
  before = c.wire;
  deselected = refl;
}

finish-IsEnded : (c : Card) → IsEnded (finish c)
unfolding finish sdc_cs_deassert led_green led_red
finish-IsEnded c = record {
  verdict = inl (refl, refl);
  green_off = refl;
  before = c.wire;
  deselected = refl;
}

step-IsEnded :
    (m : M Bool) (k : M ℕ) → ((d : Card) → IsEnded (k d)) → (c : Card) → IsEnded ((m >! k) c)
step-IsEnded m k h c = by_verdict (m c)
  where
    by_verdict : (r : Bool × Card) → IsEnded (bind r (λ ok. elim ok [ true ↦ k | false ↦ give_up ]))
    by_verdict (true, d) = h d
    by_verdict (false, d) = give_up-IsEnded d

start_card-IsEnded : (c : Card) → IsEnded (start_card c)
unfolding start_card
start_card-IsEnded c =
    step-IsEnded go_idle _
      (step-IsEnded check_version _
        (step-IsEnded wait_ready _ (λ d. step-IsEnded read_csd _ (λ e. finish-IsEnded _) _)))
      _

-- Whatever a card in the slot of the development cartridge answers, `sdc_init` ends with `SDC_OK`
-- and both LEDs off, or with `SDC_FAILURE` and only the red one on, and with the card deselected.
pub sdc_init-IsEnded :
    (cpld_io : ℕ) (c : Card) → cpld_io / 2 ^ 7 % 2 ≡ 0 → IsEnded (sdc_init sc_ext_satcart cpld_io c)
unfolding sdc_init
sdc_init-IsEnded cpld_io c h = rw h (start_card-IsEnded _)

-- The register of 16 bytes that a card holds, behind the header of 3.
pub record HasRegister (c : Card) (reg : List ℕ) : Type 0 where
  pub header : List ℕ
  pub more : List ℕ
  pub held : c.stat_reg ≡ header ++ (reg ++ more)
  pub header_len : length header ≡ 3
  pub status : c.status_len ≡ 3
  pub reg_len : length reg ≡ 16
  pub reg_bytes : All IsByte reg

module _ (c : Card) (reg : List ℕ) (r : HasRegister c reg) where
  field_of :
      (stt last : ℕ)
      → stt < 128
      → last ≤ stt
      → stt - last < 32
      → sdc_slice 128 stt last c ≡ be_value reg / 2 ^ last % 2 ^ suc (stt - last)
  field_of stt last inside order narrow =
      let size : 8 * length reg ≡ 128 = omega (arith, r.reg_len) in
      ap (λ n. sdc_slice n stt last c) (sym size)
      ∙ sdc_slice_lem r.header reg r.more c stt last r.held (omega (arith, r.status, r.header_len))
          r.reg_bytes (omega (arith, r.header_len, r.reg_len)) (omega (arith, r.reg_len)) order
          narrow

  -- The size that `sdc_init` works out of a CSD of version 2: two blocks of 512 KiB more than
  -- `C_SIZE`, the bits 69 to 48, and without the multiples of 4 GiB.
  pub sdhc_capacity_lem :
      (sdhc_capacity c).user_size
      ≡ 1000 * ((be_value reg / 2 ^ 48 % 2 ^ 22 + 2) % 2 ^ 13 / 2) / 2 ^ 10
  unfolding sdhc_capacity
  sdhc_capacity_lem =
      rw (field_of 69 48 (omega arith) (omega arith) (omega arith))
        (ap (λ t. 1000 * t / 2 ^ 10) (omega arith))

  -- The size and the format that it works out of one of version 1: `C_SIZE`, the bits 73 to 62,
  -- and 1, times a power of two for `C_SIZE_MULT`, the bits 49 to 47, and `READ_BL_LEN`, 83 to 80.
  pub sd_capacity_lem :
      ((sd_capacity c).user_size
        ≡ user_size_of (
            (be_value reg / 2 ^ 62 % 2 ^ 12 + 1)
            * 2 ^ (be_value reg / 2 ^ 47 % 2 ^ 3 + 2 + be_value reg / 2 ^ 80 % 2 ^ 4)))
      × ((sd_capacity c).file_format ≡ be_value reg / 2 ^ 10 % 2 ^ 2)
  unfolding sd_capacity
  sd_capacity_lem = (
    rw
        (
          field_of 73 62 (omega arith) (omega arith) (omega arith),
          field_of 49 47 (omega arith) (omega arith) (omega arith),
          field_of 83 80 (omega arith) (omega arith) (omega arith),
        )
        (ap user_size_of (
          mul_assoc (be_value reg / 2 ^ 62 % 2 ^ 12 + 1) (2 ^ (be_value reg / 2 ^ 47 % 2 ^ 3 + 2))
            (2 ^ (be_value reg / 2 ^ 80 % 2 ^ 4))
          ∙ ap (λ t. (be_value reg / 2 ^ 62 % 2 ^ 12 + 1) * t)
              (sym (pow_add (be_value reg / 2 ^ 47 % 2 ^ 3 + 2) (be_value reg / 2 ^ 80 % 2 ^ 4))))),
    field_of 11 10 (omega arith) (omega arith) (omega arith),
  )
