-- ===== src/Common/Bits.antt =====
-- Disjoint fields of one byte put together by `|`, as a sum: a table checked by evaluation.
use ubox_publisher.Common.Tests.{◌==◌, ==_iff}
use Prim.Native.Nat.{
  ℕ, zero, suc, ◌+◌, ◌*◌, ◌/◌, ◌%◌, ◌<◌, bit_and, bit_or, bit_and-bitwise, digits, min,
}
use mathlib.Core.Path.{◌≡◌, refl, ◌∙◌}
use mathlib.Core.Bool.{Bool, true, ◌&&◌}
use native.Mathlib.Omega.{arith}

all_below : ℕ → (ℕ → Bool) → Bool
all_below zero q = true
all_below (suc n) q = q n && all_below n q

all_below_sound : (n : ℕ) (q : ℕ → Bool) (x : ℕ) → all_below n q ≡ true → x < n → q x ≡ true
unfolding all_below
all_below_sound zero q x h lt = absurd (omega arith)
all_below_sound (suc n) q x h lt = ground (arith, all_below_sound n q x)

module _ (f g : ℕ → ℕ) where
  -- Two functions that agree at each number below `n` agree there.
  agree_below : (n : ℕ) → all_below n (λ x. f x == g x) ≡ true → (x : ℕ) → x < n → f x ≡ g x
  agree_below n h x lt = (==_iff (f x) (g x)).0 (all_below_sound n (λ y. f y == g y) x h lt)

-- `0 | h << 4 | r << 2 | w << 1 | c`, for fields of four, two, one and one bit.
abbrev pub or_fields : ℕ → ℕ → ℕ → ℕ → ℕ
or_fields h r w c = bit_or (bit_or (bit_or (bit_or 0 (h * 16)) (r * 4)) (w * 2)) c

or_fields_byte : (b : ℕ) → b < 256 → or_fields (b / 16) (b / 4 % 4) (b / 2 % 2) (b % 2) ≡ b
unfolding all_below
or_fields_byte b h =
    agree_below (λ x. or_fields (x / 16) (x / 4 % 4) (x / 2 % 2) (x % 2)) (λ x. x) 256 refl b h

pub or_fields_sum :
    (h r w c : ℕ) → h < 16 → r < 4 → w < 2 → c < 2 → or_fields h r w c ≡ h * 16 + r * 4 + w * 2 + c
or_fields_sum h r w c hh hr hw hc =
    let b = h * 16 + r * 4 + w * 2 + c in
    let eh : b / 16 ≡ h = omega arith in
    let er : b / 4 % 4 ≡ r = omega arith in
    let ew : b / 2 % 2 ≡ w = omega arith in
    let ec : b % 2 ≡ c = omega arith in cc (or_fields_byte b (omega arith), eh, er, ew, ec)

-- `0 | h << 4 | l`, for two fields of four bits.
abbrev pub or_nibbles : ℕ → ℕ → ℕ
or_nibbles h l = bit_or (bit_or 0 (h * 16)) l

or_nibbles_byte : (b : ℕ) → b < 256 → or_nibbles (b / 16) (b % 16) ≡ b
unfolding all_below
or_nibbles_byte b h = agree_below (λ x. or_nibbles (x / 16) (x % 16)) (λ x. x) 256 refl b h

pub or_nibbles_sum : (h l : ℕ) → h < 16 → l < 16 → or_nibbles h l ≡ h * 16 + l
or_nibbles_sum h l hh hl =
    let b = h * 16 + l in
    let eh : b / 16 ≡ h = omega arith in
    let el : b % 16 ≡ l = omega arith in cc (or_nibbles_byte b (omega arith), eh, el)

-- Fields of one byte that are masked.
pub bit_and_low4 : (b : ℕ) → b < 256 → bit_and b 15 ≡ b % 16
unfolding all_below
bit_and_low4 b h = agree_below (λ x. bit_and x 15) (λ x. x % 16) 256 refl b h

pub bit_and_bit0 : (b : ℕ) → b < 256 → bit_and b 1 ≡ b % 2
unfolding all_below
bit_and_bit0 b h = agree_below (λ x. bit_and x 1) (λ x. x % 2) 256 refl b h

pub bit_and_bit1 : (b : ℕ) → b < 256 → bit_and b 2 ≡ b / 2 % 2 * 2
unfolding all_below
bit_and_bit1 b h = agree_below (λ x. bit_and x 2) (λ x. x / 2 % 2 * 2) 256 refl b h

pub bit_and_bits23 : (b : ℕ) → b < 256 → bit_and b 12 ≡ b / 4 % 4 * 4
unfolding all_below
bit_and_bits23 b h = agree_below (λ x. bit_and x 12) (λ x. x / 4 % 4 * 4) 256 refl b h

min-zero : (a : ℕ) → min a zero ≡ zero
min-zero a = omega arith

digits-zero : (n a : ℕ) → digits (λ b. zero) min n a zero ≡ zero
digits-zero zero a = refl
digits-zero (suc n) zero = refl
digits-zero (suc n) (suc a) = omega (arith, digits-zero n (suc a / 2), min-zero (suc a % 2))

pub bit_and-zero : (a : ℕ) → bit_and a 0 ≡ 0
bit_and-zero a = bit_and-bitwise a 0 ∙ digits-zero a a
