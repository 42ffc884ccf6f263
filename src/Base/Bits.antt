-- ===== src/Base/Bits.antt =====
-- Laws of the bit operations at variables: one equation for the lowest digit, then masks and
-- disjoint fields as arithmetic, and exclusive or as a group.
use Prim.Native.Nat.{ℕ, zero, suc, ◌+◌, ◌*◌, ◌/◌, ◌%◌, ◌^◌, ◌-◌, ◌≤◌, ◌<◌, min, max}
use Prim.Native.Nat.{bit_and, bit_or, bit_xor, digits, bitwise, differ}
use Prim.Native.Nat.{bit_and-bitwise, bit_or-bitwise, bit_xor-bitwise}
use mathlib.Core.Path.{◌≡◌, refl, sym, ap, ◌∙◌}
use native.Mathlib.Numerals.{unary_clauses}
use native.Mathlib.Omega.{arith}
use native.Mathlib.Nat.{le_refl, pow-suc, one-le-pow, div-add-mod', mod-lt, mod-eq_of_lt}
use native.Mathlib.Nat.{mul-add-mod_self_right}

-- A digit-wise operation whose value `z b` at 0 also follows the digits of `b`.
module _ (z : ℕ → ℕ) (f : ℕ → ℕ → ℕ) (z-digit : (b : ℕ) → z b ≡ z (b / 2) * 2 + f 0 (b % 2)) where
  one_more : (fuel a b : ℕ) → a ≤ fuel → digits z f (suc fuel) a b ≡ digits z f fuel a b
  one_more zero zero b h = refl
  one_more (suc fuel) zero b h = refl
  one_more zero (suc a) b h = absurd (omega arith)
  one_more (suc fuel) (suc a) b h = rw (one_more fuel (suc a / 2) (b / 2) (omega arith))

  -- Fuel beyond the first operand is not used.
  spare : (extra fuel a b : ℕ) → a ≤ fuel → digits z f (fuel + extra) a b ≡ digits z f fuel a b
  spare zero fuel a b h = simp unary_clauses refl
  spare (suc extra) fuel a b h =
      simp unary_clauses (one_more (fuel + extra) a b (omega arith) ∙ spare extra fuel a b h)

  lowest : (a b : ℕ) → bitwise z f a b ≡ bitwise z f (a / 2) (b / 2) * 2 + f (a % 2) (b % 2)
  lowest zero b = z-digit b
  lowest (suc a) b =
      let half = suc a / 2 in
      let all : half + (a - half) ≡ a = omega arith in
      let e : digits z f a half (b / 2) ≡ bitwise z f half (b / 2) =
        ap (λ n. digits z f n half (b / 2)) (sym all)
        ∙ spare (a - half) half half (b / 2) (le_refl half) in
      ap (λ t. t * 2 + f (suc a % 2) (b % 2)) e

pub bit_or_step : (a b : ℕ) → bit_or a b ≡ bit_or (a / 2) (b / 2) * 2 + max (a % 2) (b % 2)
bit_or_step a b = simp bit_or-bitwise (lowest (λ y. y) max (λ y. omega arith) a b)

pub bit_and_step : (a b : ℕ) → bit_and a b ≡ bit_and (a / 2) (b / 2) * 2 + min (a % 2) (b % 2)
bit_and_step a b = simp bit_and-bitwise (lowest (λ y. 0) min (λ y. omega arith) a b)

differ-mod : (x y : ℕ) → x < 2 → y < 2 → differ x y ≡ (x + y) % 2
differ-mod zero zero p q = refl
differ-mod zero (suc zero) p q = refl
differ-mod (suc zero) zero p q = refl
differ-mod (suc zero) (suc zero) p q = refl
differ-mod zero (suc (suc y)) p q = absurd (omega arith)
differ-mod (suc zero) (suc (suc y)) p q = absurd (omega arith)
differ-mod (suc (suc x)) y p q = absurd (omega arith)

pub bit_xor_step : (a b : ℕ) → bit_xor a b ≡ bit_xor (a / 2) (b / 2) * 2 + (a % 2 + b % 2) % 2
bit_xor_step a b =
    simp bit_xor-bitwise (lowest (λ y. y) differ differ_zero a b)
    ∙ ap (λ t. bit_xor (a / 2) (b / 2) * 2 + t)
        (differ-mod (a % 2) (b % 2) (omega arith) (omega arith))
  where
    differ_zero : (y : ℕ) → y ≡ y / 2 * 2 + differ 0 (y % 2)
    differ_zero y = omega (arith, differ-mod 0 (y % 2) (omega arith) (omega arith))

pub xor-half : (a b : ℕ) → bit_xor a b / 2 ≡ bit_xor (a / 2) (b / 2)
xor-half a b = omega (arith, bit_xor_step a b)

pub xor-low : (a b : ℕ) → bit_xor a b % 2 ≡ (a % 2 + b % 2) % 2
xor-low a b = omega (arith, bit_xor_step a b)

-- The recursion is on a bound `n`, which halving lowers.
xor_comm_upto : (n a b : ℕ) → a ≤ n → b ≤ n → bit_xor a b ≡ bit_xor b a
xor_comm_upto zero zero zero p q = refl
xor_comm_upto zero zero (suc b) p q = absurd (omega arith)
xor_comm_upto zero (suc a) b p q = absurd (omega arith)
xor_comm_upto (suc n) a b p q = omega (
  arith,
  bit_xor_step a b,
  bit_xor_step b a,
  xor_comm_upto n (a / 2) (b / 2) (omega arith) (omega arith),
)

pub bit_xor_comm : (a b : ℕ) → bit_xor a b ≡ bit_xor b a
bit_xor_comm a b = xor_comm_upto (a + b) a b (omega arith) (omega arith)

xor_assoc_upto :
    (n a b c : ℕ) → a ≤ n → b ≤ n → c ≤ n → bit_xor (bit_xor a b) c ≡ bit_xor a (bit_xor b c)
xor_assoc_upto zero zero zero zero p q r = refl
xor_assoc_upto zero (suc a) b c p q r = absurd (omega arith)
xor_assoc_upto zero zero (suc b) c p q r = absurd (omega arith)
xor_assoc_upto zero zero zero (suc c) p q r = absurd (omega arith)
xor_assoc_upto (suc n) a b c p q r =
    bit_xor_step (bit_xor a b) c
    ∙ rw (xor-half a b, xor-low a b)
        (rw (xor_assoc_upto n (a / 2) (b / 2) (c / 2) (omega arith) (omega arith) (omega arith)) (
          omega (
            arith,
            bit_xor_step a (bit_xor b c),
            ap (λ t. bit_xor (a / 2) t) (xor-half b c),
            xor-low b c,
          )))

pub bit_xor_assoc : (a b c : ℕ) → bit_xor (bit_xor a b) c ≡ bit_xor a (bit_xor b c)
bit_xor_assoc a b c = xor_assoc_upto (a + b + c) a b c (omega arith) (omega arith) (omega arith)

xor_self_upto : (n a : ℕ) → a ≤ n → bit_xor a a ≡ 0
xor_self_upto zero zero p = refl
xor_self_upto zero (suc a) p = absurd (omega arith)
xor_self_upto (suc n) a p = omega (arith, bit_xor_step a a, xor_self_upto n (a / 2) (omega arith))

pub bit_xor_self : (a : ℕ) → bit_xor a a ≡ 0
bit_xor_self a = xor_self_upto a a (omega arith)

pub zero-bit_xor : (a : ℕ) → bit_xor 0 a ≡ a
zero-bit_xor a = bit_xor-bitwise 0 a

pub bit_xor-zero : (a : ℕ) → bit_xor a 0 ≡ a
bit_xor-zero a = bit_xor_comm a 0 ∙ zero-bit_xor a

-- Exclusive or with the same number twice gives the other back.
pub bit_xor_cancel : (a b : ℕ) → bit_xor (bit_xor a b) b ≡ a
bit_xor_cancel a b = bit_xor_assoc a b b ∙ ap (bit_xor a) (bit_xor_self b) ∙ bit_xor-zero a

pub bit_xor_inj : (a b c : ℕ) → bit_xor a c ≡ bit_xor b c → a ≡ b
bit_xor_inj a b c e = sym (bit_xor_cancel a c) ∙ ap (λ t. bit_xor t c) e ∙ bit_xor_cancel b c

pub bit_xor_inj_left : (a b c : ℕ) → bit_xor c a ≡ bit_xor c b → a ≡ b
bit_xor_inj_left a b c e = bit_xor_inj a b c (bit_xor_comm a c ∙ e ∙ bit_xor_comm c b)

two-pow-suc : (q k : ℕ) → q * 2 ^ suc k ≡ 2 * (q * 2 ^ k)
two-pow-suc q k = omega (arith, ap (λ (t : ℕ). q * t) (pow-suc 2 k))

-- Exclusive or keeps numbers below a power of two there.
pub bit_xor-lt : (k a b : ℕ) → a < 2 ^ k → b < 2 ^ k → bit_xor a b < 2 ^ k
bit_xor-lt zero a b p q =
    let e : a ≡ 0 = omega arith in let f : b ≡ 0 = omega arith in rw (e, f) (omega arith)
bit_xor-lt (suc k) a b p q = omega (
  arith,
  bit_xor_step a b,
  pow-suc 2 k,
  bit_xor-lt k (a / 2) (b / 2) (omega (arith, pow-suc 2 k)) (omega (arith, pow-suc 2 k)),
)

-- Exclusive or of digit fields goes field by field.
pub bit_xor_fields :
    (k q r s t : ℕ)
    → r < 2 ^ k
    → t < 2 ^ k
    → bit_xor (q * 2 ^ k + r) (s * 2 ^ k + t) ≡ bit_xor q s * 2 ^ k + bit_xor r t
bit_xor_fields zero q r s t h g =
    let e : r ≡ 0 = omega arith in
    let f : t ≡ 0 = omega arith in
    let eq : q * 2 ^ 0 + 0 ≡ q = omega arith in
    let es : s * 2 ^ 0 + 0 ≡ s = omega arith in
    rw (e, f) (rw (eq, es) (omega (arith, zero-bit_xor 0)))
bit_xor_fields (suc k) q r s t h g =
    let hr : r / 2 < 2 ^ k = omega (arith, pow-suc 2 k) in
    let ht : t / 2 < 2 ^ k = omega (arith, pow-suc 2 k) in
    let ea : (q * 2 ^ suc k + r) / 2 ≡ q * 2 ^ k + r / 2 = omega (arith, two-pow-suc q k) in
    let eb : (s * 2 ^ suc k + t) / 2 ≡ s * 2 ^ k + t / 2 = omega (arith, two-pow-suc s k) in
    let la : (q * 2 ^ suc k + r) % 2 ≡ r % 2 = omega (arith, two-pow-suc q k) in
    let lb : (s * 2 ^ suc k + t) % 2 ≡ t % 2 = omega (arith, two-pow-suc s k) in
    bit_xor_step (q * 2 ^ suc k + r) (s * 2 ^ suc k + t)
    ∙ rw (ea, eb, la, lb)
        (rw (bit_xor_fields k q (r / 2) s (t / 2) hr ht)
          (omega (arith, bit_xor_step r t, two-pow-suc (bit_xor q s) k)))

or_zero_upto : (n a : ℕ) → a ≤ n → bit_or a 0 ≡ a
or_zero_upto zero zero p = refl
or_zero_upto zero (suc a) p = absurd (omega arith)
or_zero_upto (suc n) a p = omega (arith, bit_or_step a 0, or_zero_upto n (a / 2) (omega arith))

and_zero_upto : (n a : ℕ) → a ≤ n → bit_and a 0 ≡ 0
and_zero_upto zero zero p = refl
and_zero_upto zero (suc a) p = absurd (omega arith)
and_zero_upto (suc n) a p = omega (arith, bit_and_step a 0, and_zero_upto n (a / 2) (omega arith))

-- `(q << k) | r` is a sum when `r` fits `k` bits.
pub bit_or_fields : (k q r : ℕ) → r < 2 ^ k → bit_or (q * 2 ^ k) r ≡ q * 2 ^ k + r
bit_or_fields zero q r fits =
    let e : r ≡ 0 = omega arith in
    let f : q * 2 ^ 0 ≡ q = omega arith in rw (e, f) (omega (arith, or_zero_upto q q (le_refl q)))
bit_or_fields (suc k) q r fits =
    let e : q * 2 ^ suc k / 2 ≡ q * 2 ^ k = omega (arith, two-pow-suc q k) in
    bit_or_step (q * 2 ^ suc k) r
    ∙ rw e (omega (arith, two-pow-suc q k, bit_or_fields k q (r / 2) (omega (arith, pow-suc 2 k))))

-- The digits of `a` below `2 ^ (k + 1)`: those of `a / 2` below `2 ^ k`, and the lowest.
mod-two-pow-suc : (k a : ℕ) → a % 2 ^ suc k ≡ a / 2 % 2 ^ k * 2 + a % 2
mod-two-pow-suc k a =
    ap (λ t. t % 2 ^ suc k) split
    ∙ mul-add-mod_self_right (a / 2 / 2 ^ k) (2 ^ suc k) low
    ∙ mod-eq_of_lt (omega (arith, pow-suc 2 k, mod-lt (a / 2) (one-le-pow k 2 (omega arith))))
  where
    low : ℕ
    low = a / 2 % 2 ^ k * 2 + a % 2

    split : a ≡ a / 2 / 2 ^ k * 2 ^ suc k + low
    split = omega (arith, div-add-mod' (a / 2) (2 ^ k), two-pow-suc (a / 2 / 2 ^ k) k)

-- `a & (2 ^ k - 1)` is the remainder by `2 ^ k`.
pub bit_and_mask : (k a : ℕ) → bit_and a (2 ^ k - 1) ≡ a % 2 ^ k
bit_and_mask zero a = omega (arith, and_zero_upto a a (le_refl a))
bit_and_mask (suc k) a =
    let m : (2 ^ suc k - 1) / 2 ≡ 2 ^ k - 1 = omega (arith, pow-suc 2 k, one-le-pow k 2) in
    let l : (2 ^ suc k - 1) % 2 ≡ 1 = omega (arith, pow-suc 2 k, one-le-pow k 2) in
    bit_and_step a (2 ^ suc k - 1)
    ∙ rw (m, l) (rw (bit_and_mask k (a / 2)) (omega (arith, mod-two-pow-suc k a)))
