-- ===== src/SdCard/Slice.antt =====
-- `sdc_slice`: the bits `stt` to `end` of a register of the card that is held highest byte first.
use ftx.Base.{ℕ, zero, suc, ◌+◌, ◌-◌, ◌*◌, ◌/◌, ◌%◌, ◌^◌, ◌≤◌, ◌<◌, ◌≡◌, refl, sym, ap, ◌∙◌, arith}
use ftx.Base.{List, [], ◌∷◌, length, get_or, bit_or}
use ftx.Base.Bits.{bit_or_fields}
use ftx.Base.{◌++◌, All, split_lt, inl, inr, get_or-append_left, get_or-append_right}
use ftx.Base.Powers.{pow_add, pow_pos, shift_add, mod_high, high_bit, low_bit}
use native.Mathlib.Nat.{mod-eq_of_lt, add-mul, pow-suc, pow-le-pow_right, mul-le-mul_right}
use ftx.SdCard.Bits.{IsByte}
use ftx.SdCard.Spi.{Card}

-- Bit `i` of the bytes, counted from the highest of the first.
abbrev pub register_bit : List ℕ → ℕ → ℕ
register_bit reg i = get_or reg (i / 8) 0 / 2 ^ (7 - i % 8) % 2

-- `for(i=stt; i<tmp2; i++)`, with the rounds left, and `tmp1`, an `unsigned char`.
unfoldable pub slice_loop : ℕ → List ℕ → ℕ → ℕ → ℕ → ℕ
slice_loop zero reg i tmp1 ret = ret
slice_loop (suc rounds) reg i tmp1 ret =
    slice_loop rounds reg (i + 1) ((tmp1 + 255) % 2 ^ 8)
      (bit_or ret (register_bit reg i * 2 ^ tmp1 % 2 ^ 32))

-- Subtraction of `unsigned char` values.
abbrev sub8 : ℕ → ℕ → ℕ
sub8 a b = (a + (2 ^ 8 - b)) % 2 ^ 8

unfoldable pub sdc_slice : ℕ → ℕ → ℕ → Card → ℕ
sdc_slice sz stt last sd =
    let len = (sub8 stt last + 1) % 2 ^ 8 in
    let first = sub8 (sub8 (sd.status_len * 2 ^ 3 + sz) 1) stt in
    let tmp2 = (first + len) % 2 ^ 8 in slice_loop (tmp2 - first) sd.stat_reg first (sub8 len 1) 0

-- The number that the bytes are, highest first.
abbrev pub be_value : List ℕ → ℕ
be_value [] = 0
be_value (b ∷ bs) = b * 2 ^ (8 * length bs) + be_value bs

be_value-lt : (bs : List ℕ) → All IsByte bs → be_value bs < 2 ^ (8 * length bs)
be_value-lt [] h = omega arith
be_value-lt (b ∷ bs) h =
    let e : 8 * suc (length bs) ≡ 8 + 8 * length bs = omega arith in
    rw e (
      rw (pow_add 8 (8 * length bs))
        (omega (arith, be_value-lt bs h.1, mul-le-mul_right (2 ^ (8 * length bs)) (below h.0))))
  where
    below : IsByte b → suc b ≤ 256
    below h = h

-- A bit of a register of bytes is the digit of its value at that place, counted from above.
register_bit_lem :
    (reg : List ℕ) (i : ℕ)
    → All IsByte reg
    → i < 8 * length reg
    → register_bit reg i ≡ be_value reg / 2 ^ (8 * length reg - 1 - i) % 2
register_bit_lem [] i h lt = absurd (omega arith)
register_bit_lem (b ∷ bs) i h lt = elim (split_lt i 8) [
  | inl early ↦
      let place : i / 8 ≡ 0 = omega arith in
      let turn : 7 - i % 8 ≡ 7 - i = omega arith in
      let power : 8 * suc (length bs) - 1 - i ≡ 8 * length bs + (7 - i) = omega arith in
      rw (place, turn, power)
        (sym (high_bit (8 * length bs) (7 - i) b (be_value bs) (be_value-lt bs h.1)))
  | inr late ↦
      let place : i / 8 ≡ suc ((i - 8) / 8) = omega arith in
      let turn : i % 8 ≡ (i - 8) % 8 = omega arith in
      let x = 8 * length bs - 1 - (i - 8) in
      let power : 8 * suc (length bs) - 1 - i ≡ x = omega arith in
      let top : 8 * length bs ≡ suc (i - 8) + x = omega arith in
      rw (place, turn, power)
        (register_bit_lem bs (i - 8) h.1 (omega arith)
          ∙ sym (low_bit (i - 8) x b (be_value bs))
          ∙ ap (λ k. (b * 2 ^ k + be_value bs) / 2 ^ x % 2) (sym top))
]

-- The loop adds the field of `rounds` digits above `last` below what it has.
slice_loop_lem :
    (rounds i q last : ℕ) (reg : List ℕ)
    → All IsByte reg
    → rounds ≤ 32
    → i + rounds + last ≡ 8 * length reg
    → slice_loop rounds reg i ((rounds + 255) % 2 ^ 8) (q * 2 ^ rounds)
      ≡ q * 2 ^ rounds + be_value reg / 2 ^ last % 2 ^ rounds
unfolding slice_loop
slice_loop_lem zero i q last reg h few at = omega arith
slice_loop_lem (suc n) i q last reg h few at =
    let shift : (suc n + 255) % 2 ^ 8 ≡ n = omega arith in
    let at_bit : 8 * length reg - 1 - i ≡ last + n = omega arith in
    let digit : register_bit reg i ≡ be_value reg / 2 ^ last / 2 ^ n % 2 =
      register_bit_lem reg i h (omega arith)
      ∙ ap (λ k. be_value reg / 2 ^ k % 2) at_bit
      ∙ ap (λ t. t % 2) (shift_add (be_value reg) last n) in
    let b = be_value reg / 2 ^ last / 2 ^ n % 2 in
    rw (shift, digit)
      (rw (join b (omega arith)) (
        rw (slice_loop_lem n (i + 1) (q * 2 + b) last reg h (omega arith) (omega arith))
          (omega (arith, mod_high n (be_value reg / 2 ^ last), grow b))))
  where
    grow : (b : ℕ) → (q * 2 + b) * 2 ^ n ≡ q * 2 ^ suc n + b * 2 ^ n
    grow b = omega (arith, add-mul (q * 2) b (2 ^ n), ap (λ t. q * t) (pow-suc 2 n))

    small : (b : ℕ) → b < 2 → b * 2 ^ n < 2 ^ suc n
    small zero h = omega (arith, pow_pos (suc n))
    small (suc zero) h = omega (arith, pow_pos n, pow-suc 2 n)
    small (suc (suc b)) h = absurd (omega arith)

    join : (b : ℕ) → b < 2 → bit_or (q * 2 ^ suc n) (b * 2 ^ n % 2 ^ 32) ≡ (q * 2 + b) * 2 ^ n
    join b h =
        let fits : b * 2 ^ n < 2 ^ 32 =
          omega
            (arith, small b h, pow-le-pow_right {n = 2} (omega arith) {i = suc n} {j = 32} few) in
        rw (mod-eq_of_lt fits) (bit_or_fields (suc n) q (b * 2 ^ n) (small b h) ∙ sym (grow b))

-- The bytes around the register are not looked at.
register_bit-inside :
    (header reg more : List ℕ) (j : ℕ)
    → j < 8 * length reg
    → register_bit (header ++ (reg ++ more)) (8 * length header + j) ≡ register_bit reg j
register_bit-inside header reg more j h =
    let place : (8 * length header + j) / 8 ≡ length header + j / 8 = omega arith in
    let turn : (8 * length header + j) % 8 ≡ j % 8 = omega arith in
    let behind : length header + j / 8 - length header ≡ j / 8 = omega arith in
    let byte : get_or (header ++ (reg ++ more)) (length header + j / 8) 0 ≡ get_or reg (j / 8) 0 =
      get_or-append_right header (reg ++ more) (length header + j / 8) 0 (omega arith)
      ∙ ap (λ k. get_or (reg ++ more) k 0) behind
      ∙ get_or-append_left reg more (j / 8) 0 (omega arith) in
    rw (place, turn, byte) refl

slice_loop-inside :
    (header reg more : List ℕ) (rounds j tmp1 ret : ℕ)
    → j + rounds ≤ 8 * length reg
    → slice_loop rounds (header ++ (reg ++ more)) (8 * length header + j) tmp1 ret
      ≡ slice_loop rounds reg j tmp1 ret
unfolding slice_loop
slice_loop-inside header reg more zero j tmp1 ret h = refl
slice_loop-inside header reg more (suc n) j tmp1 ret h =
    let next : 8 * length header + j + 1 ≡ 8 * length header + (j + 1) = omega arith in
    rw (register_bit-inside header reg more j (omega arith)) (
      rw next (
        slice_loop-inside header reg more n (j + 1) ((tmp1 + 255) % 2 ^ 8)
          (bit_or ret (register_bit reg j * 2 ^ tmp1 % 2 ^ 32)) (omega arith)))

-- Of a register that stands in `stat_reg_buffer` behind `status_len` bytes of header, `sdc_slice`
-- gives the digits from `stt` down to `last` of the number that its bytes are, highest first: if
-- header and register have less than 256 bits, and the field is one of the register and has at
-- most 32.
pub sdc_slice_lem :
    (header reg more : List ℕ) (c : Card) (stt last : ℕ)
    → c.stat_reg ≡ header ++ (reg ++ more)
    → c.status_len ≡ length header
    → All IsByte reg
    → 8 * (length header + length reg) < 256
    → stt < 8 * length reg
    → last ≤ stt
    → stt - last < 32
    → sdc_slice (8 * length reg) stt last c ≡ be_value reg / 2 ^ last % 2 ^ suc (stt - last)
unfolding sdc_slice
sdc_slice_lem header reg more c stt last held len bytes short inside order narrow =
    let n = suc (stt - last) in
    let j = 8 * length reg - 1 - stt in
    let width : (sub8 stt last + 1) % 2 ^ 8 ≡ n = omega arith in
    let start : sub8 (sub8 (length header * 2 ^ 3 + 8 * length reg) 1) stt ≡ 8 * length header + j =
      omega arith in
    let rounds : (8 * length header + j + n) % 2 ^ 8 - (8 * length header + j) ≡ n = omega arith in
    let none_yet : 0 ≡ 0 * 2 ^ n = omega arith in
    let low : sub8 n 1 ≡ (n + 255) % 2 ^ 8 = refl in
    rw (len, held)
      (rw (width, start)
        (rw rounds (
          slice_loop-inside header reg more n j (sub8 n 1) 0 (omega arith)
          ∙ ap (λ r. slice_loop n reg j ((n + 255) % 2 ^ 8) r) none_yet
          ∙ slice_loop_lem n j 0 last reg bytes (omega arith) (omega arith)
          ∙ omega arith)))
