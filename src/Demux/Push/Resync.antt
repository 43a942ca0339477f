-- ===== src/Demux/Push/Resync.antt =====
-- Where a stream starts anew, its times go on.
use ubox_publisher.Common.{
  ℕ, ◌+◌, ◌*◌, ◌^◌, ◌-◌, ◌≤◌, ◌<◌, ◌≡◌, refl, ap, ◌∙◌, Bool, true, false, not, ◌&&◌, sub32, u64,
  arith, leb, leb→le, Bool-cases, inl, inr, if◌then◌else◌, ◌⊎◌,
}
use ubox_publisher.Gst.Numbers.{msecond}
use ubox_publisher.Demux.State.{Stream}
use ubox_publisher.Demux.Push.{update_resync, is_far_back}

abbrev pub out_time : ℕ → Stream → ℕ
out_time ms s = u64 (ms * msecond + s.time_offset)

split_and : (a b : Bool) → (a && b) ≡ true → (a ≡ true) × (b ≡ true)
split_and true b h = (refl, h)
split_and false b h = cc

not-true : (b : Bool) → not b ≡ true → b ≡ false
not-true true h = cc
not-true false h = refl

-- The sum of the new time and the new offset, in 64 bits.
offset_moves :
    (dts last offset : ℕ)
    → dts < 2 ^ 32
    → last < 2 ^ 32
    → is_far_back (sub32 dts last) ≡ true
    → u64 (dts * msecond + u64 (offset + (2 ^ 32 - sub32 dts last) * msecond))
      ≡ u64 ((if leb dts last then last else last + 2 ^ 32) * msecond + offset)
offset_moves dts last offset hd hl far =
    let (low, high) = split_and (leb (2 ^ 31) (sub32 dts last)) _ far in
    let far_low : 2 ^ 31 ≤ sub32 dts last = leb→le _ _ low in
    elim (Bool-cases (leb dts last)) [
      | inl e ↦
          let h = leb→le dts last e in
          let back : dts + (2 ^ 32 - sub32 dts last) ≡ last = omega arith in rw e (moved back)
      | inr e ↦
          let h : last < dts = ground arith in
          let back : dts + (2 ^ 32 - sub32 dts last) ≡ last + 2 ^ 32 = omega arith in
          rw e (moved back)
    ]
  where
    moved :
        {to : ℕ}
        → dts + (2 ^ 32 - sub32 dts last) ≡ to
        → u64 (dts * msecond + u64 (offset + (2 ^ 32 - sub32 dts last) * msecond))
          ≡ u64 (to * msecond + offset)
    moved h = omega arith

-- For times of 32 bits: a stream is taken to start anew only where it is not discontinuous anyway.
-- Then the new time is sent as the time that the last one was sent as, so that the times that are
-- sent do not go back; that is 2 ^ 32 ms later if the new time is the greater one, and is taken for
-- an earlier one since the difference is 2 ^ 31 ms at least. Otherwise the offset stays.
pub update_resync_continues :
    (dts : ℕ) (s : Stream)
    → dts < 2 ^ 32
    → s.last < 2 ^ 32
    → (((update_resync dts s).0 ≡ true)
        × (s.need_discont ≡ false)
        × (out_time dts (update_resync dts s).1
            ≡ out_time (if leb dts s.last then s.last else s.last + 2 ^ 32) s))
      ⊎ (((update_resync dts s).0 ≡ false)
          × (out_time dts (update_resync dts s).1 ≡ out_time dts s))
unfolding update_resync
update_resync_continues dts s hd hl =
    let c = not s.need_discont && is_far_back (sub32 dts s.last) in
    let moved : Stream = record s {
      last = dts;
      time_offset = u64 (s.time_offset + (2 ^ 32 - sub32 dts s.last) * msecond);
    } in
    let stays : Stream = record s { last = dts } in
    let run : (b : Bool)
        → c ≡ b
        → update_resync dts s ≡ (if b then (true, moved) else (false, stays)) =
      λ d h. ap (λ b. if b then (true, moved) else (false, stays)) h in
    elim (Bool-cases c) [
      | inl h ↦
          let (d, far) = split_and (not s.need_discont) (is_far_back (sub32 dts s.last)) h in
          inl (
            ap (λ r. r.0) (run true h),
            not-true s.need_discont d,
            ap (λ r. out_time dts r.1) (run true h)
                ∙ offset_moves dts s.last s.time_offset hd hl far,
          )
      | inr h ↦ inr (ap (λ r. r.0) (run false h), ap (λ r. out_time dts r.1) (run false h))
    ]
