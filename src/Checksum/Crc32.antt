-- ===== src/Checksum/Crc32.antt =====
-- The table-driven CRC-32 is the reflected polynomial one, and may be taken piece by piece.
use ftx.Base.{ℕ, zero, suc, ◌+◌, ◌*◌, ◌/◌, ◌%◌, ◌^◌, ◌<◌, ◌≡◌, refl, sym, ap, ap₂, ◌∙◌, arith}
use ftx.Base.{true, List, [], ◌∷◌, ◌++◌, every_below, every_below_sound, ◌==◌, ==_iff, All}
use ftx.Base.{Bool-cases, inl, inr, eqb_of_eq, eqb_of_ne, get_or, bit_xor}
use ftx.Base.Bits.{
  bit_xor-lt, bit_xor_fields, bit_and_mask, bit_xor_cancel, bit_xor-zero, zero-bit_xor,
}
use ftx.Base.Bits.{bit_xor_assoc, bit_xor_comm, xor-half, xor-low}
use ftx.Checksum.Tables.{crc32_tab}
use ftx.Checksum.Spec.{shift32, times, crc32}
use ftx.Checksum.Crc8.{IsByte}
use ftx.Checksum.{ones32, crc32_step, crc32_loop, crc32_update}

entry : ℕ → ℕ
entry i = get_or crc32_tab i 0

entry_check : every_below (λ i. entry i == times 8 shift32 i) 256 ≡ true
unfolding every_below entry crc32_tab times shift32
entry_check = refl

entry-shift32 : (i : ℕ) → i < 256 → entry i ≡ times 8 shift32 i
entry-shift32 i h = (==_iff _ _).0 (every_below_sound _ 256 i entry_check h)

abbrev poly : ℕ
poly = 0xedb8_8320

shift32_even : (a : ℕ) → a % 2 ≡ 0 → shift32 a ≡ a / 2
unfolding shift32
shift32_even a e = rw (eqb_of_eq (a % 2) 0 e)

shift32_odd : (a : ℕ) → a % 2 ≡ 1 → shift32 a ≡ bit_xor (a / 2) poly
unfolding shift32
shift32_odd a e = rw (eqb_of_ne (a % 2) 0 (omega arith))

-- The register shifts are linear over exclusive or.
shift32-xor : (a b : ℕ) → shift32 (bit_xor a b) ≡ bit_xor (shift32 a) (shift32 b)
shift32-xor a b = elim (Bool-cases (a % 2 == 0)) [
  | inl ea ↦ elim (Bool-cases (b % 2 == 0)) [
    | inl eb ↦ both_even ((==_iff _ _).0 ea) ((==_iff _ _).0 eb)
    | inr ob ↦ right_odd ((==_iff _ _).0 ea) (ground arith)
  ]
  | inr oa ↦ elim (Bool-cases (b % 2 == 0)) [
    | inl eb ↦ left_odd (ground arith) ((==_iff _ _).0 eb)
    | inr ob ↦ both_odd (ground arith) (ground arith)
  ]
]
  where
    both_even : a % 2 ≡ 0 → b % 2 ≡ 0 → shift32 (bit_xor a b) ≡ bit_xor (shift32 a) (shift32 b)
    both_even p q =
        rw
          (
            shift32_even a p,
            shift32_even b q,
            shift32_even (bit_xor a b) (omega (arith, xor-low a b)),
          )
          (xor-half a b)

    right_odd : a % 2 ≡ 0 → b % 2 ≡ 1 → shift32 (bit_xor a b) ≡ bit_xor (shift32 a) (shift32 b)
    right_odd p q =
        rw
          (
            shift32_even a p,
            shift32_odd b q,
            shift32_odd (bit_xor a b) (omega (arith, xor-low a b)),
          )
          (ap (λ t. bit_xor t poly) (xor-half a b) ∙ bit_xor_assoc (a / 2) (b / 2) poly)

    left_odd : a % 2 ≡ 1 → b % 2 ≡ 0 → shift32 (bit_xor a b) ≡ bit_xor (shift32 a) (shift32 b)
    left_odd p q =
        rw
          (
            shift32_odd a p,
            shift32_even b q,
            shift32_odd (bit_xor a b) (omega (arith, xor-low a b)),
          )
          (ap (λ t. bit_xor t poly) (xor-half a b)
            ∙ bit_xor_assoc (a / 2) (b / 2) poly
            ∙ ap (bit_xor (a / 2)) (bit_xor_comm (b / 2) poly)
            ∙ sym (bit_xor_assoc (a / 2) poly (b / 2)))

    both_odd : a % 2 ≡ 1 → b % 2 ≡ 1 → shift32 (bit_xor a b) ≡ bit_xor (shift32 a) (shift32 b)
    both_odd p q =
        rw
          (
            shift32_odd a p,
            shift32_odd b q,
            shift32_even (bit_xor a b) (omega (arith, xor-low a b)),
          )
          (xor-half a b
            ∙ ap (λ t. bit_xor t (b / 2)) (sym (bit_xor_cancel (a / 2) poly))
            ∙ bit_xor_assoc (bit_xor (a / 2) poly) poly (b / 2)
            ∙ ap (bit_xor (bit_xor (a / 2) poly)) (bit_xor_comm poly (b / 2)))

times-xor :
    (n a b : ℕ) → times n shift32 (bit_xor a b) ≡ bit_xor (times n shift32 a) (times n shift32 b)
unfolding times
times-xor zero a b = refl
times-xor (suc n) a b = ap (times n shift32) (shift32-xor a b) ∙ times-xor n (shift32 a) (shift32 b)

-- Eight shifts of a number whose low byte is 0 drop that byte.
times_high : (q : ℕ) → times 8 shift32 (q * 256) ≡ q
unfolding times
times_high q = rw (
  shift_down (q * 256) (q * 128) (omega arith),
  shift_down (q * 128) (q * 64) (omega arith),
  shift_down (q * 64) (q * 32) (omega arith),
  shift_down (q * 32) (q * 16) (omega arith),
  shift_down (q * 16) (q * 8) (omega arith),
  shift_down (q * 8) (q * 4) (omega arith),
  shift_down (q * 4) (q * 2) (omega arith),
  shift_down (q * 2) q (omega arith),
)
  where
    shift_down : (a b : ℕ) → a ≡ 2 * b → shift32 a ≡ b
    shift_down a b e = shift32_even a (omega arith) ∙ omega arith

-- Exclusive or with a byte leaves the digits above it alone.
xor_byte_high : (a b : ℕ) → b < 256 → bit_xor a b / 256 ≡ a / 2 ^ 8
xor_byte_high a b h = omega (
  arith,
  ap₂ bit_xor (split a) (zero_high b),
  bit_xor_fields 8 (a / 256) (a % 256) 0 b (omega arith) h,
  bit_xor-zero (a / 256),
  bit_xor-lt 8 (a % 256) b (omega arith) h,
)
  where
    split : (n : ℕ) → n ≡ n / 256 * 2 ^ 8 + n % 256
    split n = omega arith

    zero_high : (n : ℕ) → n ≡ 0 * 2 ^ 8 + n
    zero_high n = omega arith

xor_parts : (x : ℕ) → x ≡ bit_xor (x % 256) (x / 256 * 256)
xor_parts x = sym (
    bit_xor_comm (x % 256) (x / 256 * 256)
    ∙ ap₂ bit_xor (omega arith) (omega arith)
    ∙ bit_xor_fields 8 (x / 256) 0 0 (x % 256) (omega arith) (omega arith)
    ∙ omega (arith, bit_xor-zero (x / 256), zero-bit_xor (x % 256)))

crc32_step-shift32 :
    (crc byte : ℕ) → byte < 256 → crc32_step crc byte ≡ times 8 shift32 (bit_xor crc byte)
unfolding crc32_step entry
crc32_step-shift32 crc byte h =
    ap₂ bit_xor (ap entry (bit_and_mask 8 x) ∙ entry-shift32 (x % 256) (omega arith))
      (sym high ∙ sym (times_high (x / 256)))
    ∙ sym (times-xor 8 (x % 256) (x / 256 * 256))
    ∙ ap (times 8 shift32) (sym parts)
  where
    x : ℕ
    x = bit_xor crc byte

    high : x / 256 ≡ crc / 2 ^ 8
    high = xor_byte_high crc byte h

    parts : x ≡ bit_xor (x % 256) (x / 256 * 256)
    parts = xor_parts x

loop-crc32 : (bytes : List ℕ) (crc : ℕ) → All IsByte bytes → crc32_loop crc bytes ≡ crc32 crc bytes
unfolding crc32_loop crc32
loop-crc32 [] crc h = refl
loop-crc32 (b ∷ bs) crc (hb, hbs) =
    loop-crc32 bs (crc32_step crc b) hbs ∙ ap (λ c. crc32 c bs) (crc32_step-shift32 crc b hb)

-- On bytes, the table-driven `crc32_update` is the bitwise division by the reflected polynomial
-- 0xedb88320, with the register inverted before and after.
pub crc32_update-crc32 :
    (crc : ℕ) (bytes : List ℕ)
    → All IsByte bytes
    → crc32_update crc bytes ≡ bit_xor (crc32 (bit_xor crc ones32) bytes) ones32
unfolding crc32_update
crc32_update-crc32 crc bytes h =
    ap (λ c. bit_xor c ones32) (loop-crc32 bytes (bit_xor crc ones32) h)

loop-append :
    (xs ys : List ℕ) (crc : ℕ) → crc32_loop crc (xs ++ ys) ≡ crc32_loop (crc32_loop crc xs) ys
unfolding crc32_loop
loop-append [] ys crc = refl
loop-append (x ∷ xs) ys crc = loop-append xs ys (crc32_step crc x)

-- `crc32_update` of a buffer in two pieces is that of the whole.
pub crc32_update-append :
    (crc : ℕ) (xs ys : List ℕ) → crc32_update crc (xs ++ ys) ≡ crc32_update (crc32_update crc xs) ys
unfolding crc32_update
crc32_update-append crc xs ys =
    ap (λ c. bit_xor c ones32)
      (loop-append xs ys (bit_xor crc ones32)
        ∙ ap (λ c. crc32_loop c ys)
            (sym (bit_xor_cancel (crc32_loop (bit_xor crc ones32) xs) ones32)))
