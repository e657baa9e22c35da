-- ===== src/Base/Powers.antt =====
-- Division by a product, and powers of 2.
use Prim.Native.Nat.{
  ℕ, zero, suc, ◌+◌, ◌-◌, ◌*◌, ◌/◌, ◌%◌, ◌^◌, ◌≤◌, ◌<◌, min, digits, bit_and, bit_and-bitwise,
}
use mathlib.Core.Path.{◌≡◌, sym, ap, ap₂, ◌∙◌}
use native.Mathlib.Omega.{arith}
use native.Mathlib.Nat.{
  pow-suc, mul_assoc, mul-add-div_right, div-eq_of_lt, add-mul-mod_self_right, mod-eq_of_lt,
  div-add-mod', zero-mod, mod-lt, one-le-pow, mul-le-mul_right,
}

-- A quotient and a remainder are read off a sum.
pub div_of_sum : (t q r : ℕ) → r < q → (t * q + r) / q ≡ t
div_of_sum t q r h =
    mul-add-div_right {m = q} (omega arith) t r ∙ ap (λ d. t + d) (div-eq_of_lt h) ∙ omega arith

pub mod_of_sum : (t q r : ℕ) → r < q → (t * q + r) % q ≡ r
mod_of_sum t q r h =
    let turned : t * q + r ≡ r + t * q = omega arith in
    ap (λ n. n % q) turned ∙ add-mul-mod_self_right r t q ∙ mod-eq_of_lt h

pub lt_of_parts : (t q r n : ℕ) → r < q → t < n → t * q + r < q * n
lt_of_parts t q r n h k = let bound : suc t * q ≤ n * q = mul-le-mul_right q k in omega arith

-- A remainder by a product, taken apart.
pub mod_product : (c q n : ℕ) → 0 < q → 0 < n → c % (q * n) ≡ c / q % n * q + c % q
mod_product c q n hq hn =
    let low : c / q * q + c % q ≡ c = div-add-mod' c q in
    let high : c / q / n * n + c / q % n ≡ c / q = div-add-mod' (c / q) n in
    let r = c % q in
    let t = c / q % n in
    let s = c / q / n in
    let parts : c ≡ (t * q + r) + s * (q * n) =
      sym low ∙ ap (λ k. k * q + r) (sym high) ∙ omega arith in
    ap (λ k. k % (q * n)) parts
    ∙ add-mul-mod_self_right (t * q + r) s (q * n)
    ∙ mod-eq_of_lt (lt_of_parts t q r n (mod-lt c hq) (mod-lt (c / q) hn))

pub mod-div : (c q n : ℕ) → 0 < q → 0 < n → c % (q * n) / q ≡ c / q % n
mod-div c q n hq hn =
    ap (λ k. k / q) (mod_product c q n hq hn) ∙ div_of_sum (c / q % n) q (c % q) (mod-lt c hq)

pub mod-mod_product : (c q n : ℕ) → 0 < q → 0 < n → c % (q * n) % q ≡ c % q
mod-mod_product c q n hq hn =
    ap (λ k. k % q) (mod_product c q n hq hn) ∙ mod_of_sum (c / q % n) q (c % q) (mod-lt c hq)

-- A byte that is shifted in from below.
pub mod_shift : (c m b : ℕ) → 0 < m → b < 256 → (c * 256 + b) % (m * 256) ≡ c % m * 256 + b
mod_shift c m b hm hb =
    let parts : c / m * m + c % m ≡ c = div-add-mod' c m in
    let small : c % m < m = mod-lt c hm in
    let sum : c * 256 + b ≡ (c % m * 256 + b) + c / m * (m * 256) =
      ap (λ k. k * 256 + b) (sym parts) ∙ omega arith in
    ap (λ k. k % (m * 256)) sum
    ∙ add-mul-mod_self_right (c % m * 256 + b) (c / m) (m * 256)
    ∙ mod-eq_of_lt (omega arith)

pub pow_pos : (n : ℕ) → 0 < 2 ^ n
pow_pos n = one-le-pow n 2 (omega arith)

pub pow-add : (m n : ℕ) → 2 ^ (m + n) ≡ 2 ^ m * 2 ^ n
pow-add m zero = let same : m + 0 ≡ m = omega arith in ap (λ k. 2 ^ k) same ∙ omega arith
pow-add m (suc n) =
    let next : m + suc n ≡ suc (m + n) = omega arith in
    ap (λ k. 2 ^ k) next
    ∙ pow-suc 2 (m + n)
    ∙ ap (λ k. k * 2) (pow-add m n)
    ∙ mul_assoc (2 ^ m) (2 ^ n) 2
    ∙ ap (λ k. 2 ^ m * k) (sym (pow-suc 2 n))

-- The digits of `bit_and`, with a mask of `k` ones.
digits-mask : (fuel a k : ℕ) → a ≤ fuel → digits (λ b. zero) min fuel a (2 ^ k - 1) ≡ a % 2 ^ k
digits-mask zero zero k h = sym (zero-mod (2 ^ k))
digits-mask zero (suc a) k h = absurd (omega arith)
digits-mask (suc n) zero k h = sym (zero-mod (2 ^ k))
digits-mask (suc n) (suc a) zero h =
    let rest = digits-mask n (suc a / 2) 0 (omega arith) in omega (arith, rest)
digits-mask (suc n) (suc a) (suc k) h =
    let mask : (2 ^ suc k - 1) / 2 ≡ 2 ^ k - 1 = omega (arith, pow-suc 2 k, pow_pos k) in
    let one : (2 ^ suc k - 1) % 2 ≡ 1 = omega (arith, pow-suc 2 k, pow_pos k) in
    let digit : min (suc a % 2) 1 ≡ suc a % 2 = omega arith in
    let power : 2 ^ suc k ≡ 2 * 2 ^ k = omega (arith, pow-suc 2 k) in
    ap₂ (λ m d. digits (λ b. zero) min n (suc a / 2) m * 2 + min (suc a % 2) d) mask one
    ∙ ap₂ (λ m d. m * 2 + d) (digits-mask n (suc a / 2) k (omega arith)) digit
    ∙ sym (mod_product (suc a) 2 (2 ^ k) (omega arith) (pow_pos k))
    ∙ ap (λ m. suc a % m) (sym power)

-- A mask of ones takes the remainder.
pub bit_and-mask : (a k : ℕ) → bit_and a (2 ^ k - 1) ≡ a % 2 ^ k
bit_and-mask a k = bit_and-bitwise a (2 ^ k - 1) ∙ digits-mask a a k (omega arith)
