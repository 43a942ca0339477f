-- ===== src/Mux/Tag/Times.antt =====
-- The timestamps of tags: they never go back, and they stop where 32 bits of milliseconds end.
use ubox_publisher.Common.{ℕ, ◌+◌, ◌*◌, ◌/◌, ◌^◌, ◌≤◌, ◌<◌, ◌≡◌, true, arith}
use ubox_publisher.Gst.Numbers.{is_valid_stime, msecond}
use ubox_publisher.Mux.State.{MuxPad}
use ubox_publisher.Mux.Tag.{tag_times}

-- For mux->last_dts below 2 ^ 32, the tag's time is not before it and is below 2 ^ 32 again.
pub tag_times_forward :
    (last_dts first_timestamp : ℕ) (pad : MuxPad)
    → last_dts < 2 ^ 32
    → (last_dts ≤ (tag_times last_dts first_timestamp pad).last_dts)
      × ((tag_times last_dts first_timestamp pad).last_dts < 2 ^ 32)
unfolding tag_times
tag_times_forward last_dts first pad h = ground arith

-- Where no time goes back or leaves 32 bits, and the first time is a whole number of milliseconds
-- that is not after the dts: the tag's timestamp counts from the first time, and with the
-- composition time it gives back the pts if that is not before the dts.
pub tag_times_exact :
    (last_dts first : ℕ) (pad : MuxPad)
    → is_valid_stime pad.dts ≡ true
    → pad.dts / msecond < 2 ^ 32
    → pad.pts / msecond < 2 ^ 32
    → pad.dts ≤ pad.pts
    → last_dts ≤ pad.dts / msecond
    → first ≤ pad.dts / msecond
    → ((tag_times last_dts (first * msecond) pad).dts + first ≡ pad.dts / msecond)
      × ((tag_times last_dts (first * msecond) pad).dts
            + (tag_times last_dts (first * msecond) pad).cts
            + first
          ≡ pad.pts / msecond)
unfolding tag_times
tag_times_exact last_dts first pad v hd hp le hl hf = ground arith

-- When the clock of a stream has passed 2 ^ 32 milliseconds by no more than mux->last_dts, the
-- timestamp does not wrap: mux->last_dts, which the tag's timestamp is made from, stays as it was.
pub tag_times_frozen :
    (last_dts first_timestamp past : ℕ) (pad : MuxPad)
    → is_valid_stime pad.dts ≡ true
    → last_dts < 2 ^ 32
    → pad.dts / msecond ≡ 2 ^ 32 + past
    → past ≤ last_dts
    → (tag_times last_dts first_timestamp pad).last_dts ≡ last_dts
unfolding tag_times
tag_times_frozen last_dts first past pad v h e le = ground arith
