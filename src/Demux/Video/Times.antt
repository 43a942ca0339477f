-- ===== src/Demux/Video/Times.antt =====
-- The composition time of a video tag, and the presentation time that it leads to.
use ubox_publisher.Common.{
  ℕ, ◌+◌, ◌^◌, ◌-◌, ◌≤◌, ◌<◌, ◌≡◌, ◌∙◌, ltb, Bool-cases, inl, inr, ltb→lt, if◌then◌else◌, u32,
  arith,
}
use ubox_publisher.Common.Xor.{bit_xor-shifted, bit_xor-cancels}
use ubox_publisher.Demux.Video.{sign_extended, composition_time}

pub sign_extended_low : (bits : ℕ) → bits < 2 ^ 23 → sign_extended bits ≡ bits
sign_extended_low bits h =
    let e : u32 (bits + 0xff800000) ≡ bits + 0xff800000 = omega arith in
    rw e (bit_xor-cancels 23 bits 511 h)

sign_extended_high :
    (bits : ℕ) → 2 ^ 23 ≤ bits → bits < 2 ^ 24 → sign_extended bits ≡ bits + 0xff000000
sign_extended_high bits low high =
    let e : u32 (bits + 0xff800000) ≡ bits - 2 ^ 23 = omega arith in
    rw e (bit_xor-shifted 23 (bits - 2 ^ 23) 511 (omega arith) ∙ omega arith)

-- For a composition time of 24 bits and a timestamp of 32 bits, the presentation time is their sum
-- where the composition time is not negative, with wrap-around, and otherwise the difference, or 0
-- where that would be below 0: the fix of a negative presentation time does what it is for.
pub composition_time_clamped :
    (bits dts : ℕ)
    → bits < 2 ^ 24
    → dts < 2 ^ 32
    → u32 (dts + composition_time bits dts)
      ≡ (if ltb bits (2 ^ 23) then u32 (dts + bits) else dts - (2 ^ 24 - bits))
unfolding composition_time
composition_time_clamped bits dts hb hd = elim (Bool-cases (ltb bits (2 ^ 23))) [
  | inl h ↦
      let small = ltb→lt bits (2 ^ 23) h in rw (h, sign_extended_low bits small) (ground arith)
  | inr h ↦
      let big : 2 ^ 23 ≤ bits = ground arith in
      rw (h, sign_extended_high bits big hb) (ground arith)
]
