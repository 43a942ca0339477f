-- ===== src/Common/Or.antt =====
-- `a | b << k` for `a` below `2 ^ k`, as a sum.
use Prim.Native.Nat.{
  ℕ, zero, suc, ◌+◌, ◌*◌, ◌/◌, ◌^◌, ◌≤◌, ◌<◌, max, bit_or, digits, bit_or-bitwise,
}
use mathlib.Core.Path.{◌≡◌, sym, ◌∙◌}
use native.Mathlib.Nat.{pow-suc, mul_assoc}
use native.Mathlib.Omega.{arith}

-- The digits of `a` are used up before those of the shifted number begin.
shifted_digits :
    (n k a b : ℕ) → a ≤ n → a < 2 ^ k → digits (λ d. d) max n a (b * 2 ^ k) ≡ a + b * 2 ^ k
shifted_digits zero k zero b small low = omega arith
shifted_digits zero k (suc a) b small low = absurd (omega arith)
shifted_digits (suc n) k zero b small low = omega arith
shifted_digits (suc n) zero (suc a) b small low = absurd (omega arith)
shifted_digits (suc n) (suc k) (suc a) b small low =
    let double : b * 2 ^ suc k ≡ (b * 2 ^ k) * 2 = rw (pow-suc 2 k) (sym (mul_assoc b (2 ^ k) 2)) in
    let half : b * 2 ^ suc k / 2 ≡ b * 2 ^ k = omega arith in
    let low_half : suc a / 2 < 2 ^ k = let p = pow-suc 2 k in omega (arith, p) in
    let rest = shifted_digits n k (suc a / 2) b (omega arith) low_half in
    rw half (omega (arith, rest))

pub bit_or-shifted : (k a b : ℕ) → a < 2 ^ k → bit_or a (b * 2 ^ k) ≡ a + b * 2 ^ k
bit_or-shifted k a b low = bit_or-bitwise a (b * 2 ^ k) ∙ shifted_digits a k a b (omega arith) low
