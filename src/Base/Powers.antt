-- ===== src/Base/Powers.antt =====
-- Powers of two, and the binary digits of a number as quotients and remainders.
use Prim.Native.Nat.{ℕ, zero, suc, ◌+◌, ◌*◌, ◌/◌, ◌%◌, ◌^◌, ◌<◌}
use mathlib.Core.Path.{◌≡◌, sym, ap, ◌∙◌}
use native.Mathlib.Omega.{arith}
use native.Mathlib.Nat.{mod-eq_of_lt, mod-lt, one-le-pow, pow-suc, div-eq_of_lt, div-add-mod'}
use native.Mathlib.Nat.{div-div-eq-div-mul, mul_assoc, mul-add-div_right, mul-add-mod_self_right}

pub pow_add : (a b : ℕ) → 2 ^ (a + b) ≡ 2 ^ a * 2 ^ b
pow_add a zero = let e : a + zero ≡ a = omega arith in rw e (omega arith)
pow_add a (suc b) =
    let e : a + suc b ≡ suc (a + b) = omega arith in
    rw e (omega (arith, pow-suc 2 (a + b), pow_add a b, ap (λ t. 2 ^ a * t) (pow-suc 2 b)))

pub pow_pos : (k : ℕ) → zero < 2 ^ k
pow_pos k = one-le-pow k 2 (omega arith)

pub shift_add : (n a b : ℕ) → n / 2 ^ (a + b) ≡ n / 2 ^ a / 2 ^ b
shift_add n a b = ap (λ t. n / t) (pow_add a b) ∙ sym (div-div-eq-div-mul n (2 ^ a) (2 ^ b))

-- The digits below `2 ^ (k + 1)` are the highest of them and those below `2 ^ k`.
pub mod_high : (k n : ℕ) → n % 2 ^ suc k ≡ n / 2 ^ k % 2 * 2 ^ k + n % 2 ^ k
mod_high k n =
    ap (λ t. t % 2 ^ suc k) split
    ∙ mul-add-mod_self_right (n / 2 ^ k / 2) (2 ^ suc k) low
    ∙ mod-eq_of_lt (digit (n / 2 ^ k % 2) (omega arith))
  where
    low : ℕ
    low = n / 2 ^ k % 2 * 2 ^ k + n % 2 ^ k

    digit : (d : ℕ) → d < 2 → d * 2 ^ k + n % 2 ^ k < 2 ^ suc k
    digit zero h = omega (arith, pow-suc 2 k, mod-lt n (pow_pos k))
    digit (suc zero) h = omega (arith, pow-suc 2 k, mod-lt n (pow_pos k))
    digit (suc (suc d)) h = absurd (omega arith)

    split : n ≡ n / 2 ^ k / 2 * 2 ^ suc k + low
    split = omega (
      arith,
      div-add-mod' n (2 ^ k),
      ap (λ t. t * 2 ^ k) halves,
      ap (λ t. n / 2 ^ k / 2 * t) (pow-suc 2 k),
    )
      where
        halves : n / 2 ^ k ≡ n / 2 ^ k / 2 * 2 + n / 2 ^ k % 2
        halves = omega arith

-- A digit above the place of a field is the field's, one below it is not.
pub high_bit : (k x q r : ℕ) → r < 2 ^ k → (q * 2 ^ k + r) / 2 ^ (k + x) % 2 ≡ q / 2 ^ x % 2
high_bit k x q r h =
    ap (λ t. t % 2)
      (shift_add (q * 2 ^ k + r) k x
        ∙ ap (λ t. t / 2 ^ x) (mul-add-div_right (pow_pos k) q r ∙ omega (arith, div-eq_of_lt h)))

pub low_bit : (k x q r : ℕ) → (q * 2 ^ (suc k + x) + r) / 2 ^ x % 2 ≡ r / 2 ^ x % 2
low_bit k x q r =
    let e : q * 2 ^ (suc k + x) ≡ q * 2 ^ suc k * 2 ^ x =
      ap (λ t. q * t) (pow_add (suc k) x) ∙ sym (mul_assoc q (2 ^ suc k) (2 ^ x)) in
    rw e (
      rw (mul-add-div_right (pow_pos x) (q * 2 ^ suc k) r)
        (omega (arith, ap (λ t. q * t) (pow-suc 2 k))))
