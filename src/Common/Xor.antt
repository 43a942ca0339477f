-- ===== src/Common/Xor.antt =====
-- `a ^ b << k` for `a` below `2 ^ k`, and the same where `b << k` is in the first number too.
use Prim.Native.Nat.{
  ℕ, zero, suc, ◌+◌, ◌*◌, ◌/◌, ◌%◌, ◌^◌, ◌≤◌, ◌<◌, differ, bit_xor, digits, bit_xor-bitwise,
}
use mathlib.Core.Path.{◌≡◌, refl, sym, ◌∙◌}
use native.Mathlib.Nat.{pow-suc, mul_assoc}
use native.Mathlib.Omega.{arith}

differ-zero : (x : ℕ) → differ x 0 ≡ x
differ-zero zero = refl
differ-zero (suc x) = refl

differ_self : (x : ℕ) → differ x x ≡ 0
differ_self zero = refl
differ_self (suc x) = differ_self x

double : (k b : ℕ) → b * 2 ^ suc k ≡ (b * 2 ^ k) * 2
double k b = rw (pow-suc 2 k) (sym (mul_assoc b (2 ^ k) 2))

-- One step on two numbers, the second of which is even.
even_step :
    (n x y q r : ℕ)
    → digits (λ d. d) differ n (suc x / 2) (y / 2) ≡ q
    → y % 2 ≡ 0
    → suc x % 2 ≡ r
    → digits (λ d. d) differ (suc n) (suc x) y ≡ q * 2 + r
even_step n x y q r e even low = rw (e, even, low, differ-zero) refl

apart_digits :
    (n k a b : ℕ) → a ≤ n → a < 2 ^ k → digits (λ d. d) differ n a (b * 2 ^ k) ≡ a + b * 2 ^ k
apart_digits zero k zero b small low = omega arith
apart_digits zero k (suc a) b small low = absurd (omega arith)
apart_digits (suc n) k zero b small low = omega arith
apart_digits (suc n) zero (suc a) b small low = absurd (omega arith)
apart_digits (suc n) (suc k) (suc a) b small low =
    let d = double k b in
    let half : b * 2 ^ suc k / 2 ≡ b * 2 ^ k = omega (arith, d) in
    let p = pow-suc 2 k in
    let rest : digits (λ d. d) differ n (suc a / 2) (b * 2 ^ suc k / 2) ≡ suc a / 2 + b * 2 ^ k =
      rw half (apart_digits n k (suc a / 2) b (omega arith) (omega (arith, p))) in
    even_step n a (b * 2 ^ suc k) (suc a / 2 + b * 2 ^ k) (suc a % 2) rest (omega (arith, d)) refl
    ∙ omega (arith, d)

self_digits : (n a : ℕ) → a ≤ n → digits (λ d. d) differ n a a ≡ 0
self_digits zero zero h = refl
self_digits zero (suc a) h = absurd (omega arith)
self_digits (suc n) zero h = refl
self_digits (suc n) (suc a) h =
    rw (self_digits n (suc a / 2) (omega arith), differ_self (suc a % 2)) (omega arith)

same_digits :
    (n k a b x : ℕ)
    → x ≡ a + b * 2 ^ k
    → x ≤ n
    → a < 2 ^ k
    → digits (λ d. d) differ n x (b * 2 ^ k) ≡ a
same_digits zero k a b zero e h low = omega arith
same_digits zero k a b (suc x) e h low = absurd (omega arith)
same_digits (suc n) k a b zero e h low = omega arith
same_digits (suc n) zero a b (suc x) e h low =
    let to : suc x ≡ b * 2 ^ 0 = omega arith in
    let z : 0 ≡ a = omega arith in rw (sym to) (self_digits (suc n) (suc x) h ∙ z)
same_digits (suc n) (suc k) a b (suc x) e h low =
    let d = double k b in
    let half : b * 2 ^ suc k / 2 ≡ b * 2 ^ k = omega (arith, d) in
    let p = pow-suc 2 k in
    let rest : digits (λ d. d) differ n (suc x / 2) (b * 2 ^ suc k / 2) ≡ a / 2 =
      rw half (
        same_digits n k (a / 2) b (suc x / 2) (omega (arith, d)) (omega arith)
          (omega (arith, p))) in
    even_step n x (b * 2 ^ suc k) (a / 2) (a % 2) rest (omega (arith, d)) (omega (arith, d))
    ∙ omega arith

pub bit_xor-shifted : (k a b : ℕ) → a < 2 ^ k → bit_xor a (b * 2 ^ k) ≡ a + b * 2 ^ k
bit_xor-shifted k a b low = bit_xor-bitwise a (b * 2 ^ k) ∙ apart_digits a k a b (omega arith) low

pub bit_xor-cancels : (k a b : ℕ) → a < 2 ^ k → bit_xor (a + b * 2 ^ k) (b * 2 ^ k) ≡ a
bit_xor-cancels k a b low =
    bit_xor-bitwise (a + b * 2 ^ k) (b * 2 ^ k)
    ∙ same_digits (a + b * 2 ^ k) k a b (a + b * 2 ^ k) refl (omega arith) low
