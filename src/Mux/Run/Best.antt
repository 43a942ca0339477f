-- ===== src/Mux/Run/Best.antt =====
-- gst_flv_mux_find_best_pad picks a pad whose buffer is the earliest.
use ubox_publisher.Common.{
  ◌==◌, ◌&&◌, ltb, Bool, false, refl, ◌∙◌, if◌then◌else◌, ℕ, ◌^◌, ◌≤◌, ◌<◌, ◌≡◌, sym, ◌⊎◌, true,
  Option, none, some, List, [], ◌∷◌, arith, inl, inr,
}
use ubox_publisher.Gst.Numbers.{clock_time_none, is_valid}
use ubox_publisher.Gst.Data.{Buffer, Segment, dts_or_pts}
use ubox_publisher.Gst.Platform.{Platform}
use ubox_publisher.Mux.State.{Kind, MuxPad, Mux, get_pad}
use ubox_publisher.Mux.Push.{Peers, running_time}
use ubox_publisher.Mux.Run.{BestPad, better, better_of, find_best_pad_from, find_best_pad}

-- A pad is among the sink pads.
abbrev pub Holds : Kind → List Kind → Type 0
Holds k [] = ⊥
Holds k (j ∷ ks) = (k ≡ j) ⊎ Holds k ks

module _ (p : Platform) where
  pub running_time-lt : (s : Segment) (t : ℕ) → running_time p s t < 2 ^ 64
  unfolding running_time
  running_time-lt s t = ground (arith, p.segment_to_running_time-lt s t)

module _ (p : Platform) (peers : Peers) where
  better-le :
      (k : Kind) (s : Segment) (queued : Option Buffer) (best : BestPad)
      → best.1 ≤ clock_time_none
      → (better p peers k s queued best).1 ≤ best.1
  unfolding better
  better-le k s none (b, ts) h = omega arith
  better-le k s (some buffer) (b, ts) h = ground (arith, running_time-lt p s (dts_or_pts buffer))

  better-le_time :
      (k : Kind) (s : Segment) (best : BestPad) (buffer : Buffer)
      → is_valid (dts_or_pts buffer) ≡ true
      → (better p peers k s (some buffer) best).1 ≤ running_time p s (dts_or_pts buffer)
  unfolding better
  better-le_time k s (b, ts) buffer v = ground (arith, running_time-lt p s (dts_or_pts buffer), v)

  better_of-le :
      (k : Kind) (pad : Option MuxPad) (best : BestPad)
      → best.1 ≤ clock_time_none
      → (better_of p peers k pad best).1 ≤ best.1
  better_of-le k none best h = omega arith
  better_of-le k (some pad) best h = better-le k pad.segment pad.queued best h

  find_best_pad_from-le :
      (mux : Mux p.Double) (ks : List Kind) (best : BestPad)
      → best.1 ≤ clock_time_none
      → (find_best_pad_from p peers mux ks best).1 ≤ best.1
  unfolding find_best_pad_from
  find_best_pad_from-le mux [] best h = omega arith
  find_best_pad_from-le mux (k ∷ ks) best h =
      let step = better_of-le k (get_pad k mux) best h in
      omega (
        arith,
        step,
        find_best_pad_from-le mux ks (better_of p peers k (get_pad k mux) best)
            (omega (arith, step)),
      )

  find_best_pad_from-le_time :
      (mux : Mux p.Double) (ks : List Kind) (best : BestPad) (k : Kind) (pad : MuxPad)
      (buffer : Buffer)
      → best.1 ≤ clock_time_none
      → Holds k ks
      → get_pad k mux ≡ some pad
      → pad.queued ≡ some buffer
      → is_valid (dts_or_pts buffer) ≡ true
      → (find_best_pad_from p peers mux ks best).1 ≤ running_time p pad.segment (dts_or_pts buffer)
  unfolding find_best_pad_from
  find_best_pad_from-le_time mux [] best k pad buffer h m g q v = elim m [ ]
  find_best_pad_from-le_time mux (j ∷ ks) best k pad buffer h (inl e) g q v =
      rw (sym e, find_best_pad_from, g, q)
        (omega (
          arith,
          better-le_time k pad.segment best buffer v,
          find_best_pad_from-le mux ks (better p peers k pad.segment (some buffer) best)
              (omega (arith, better-le k pad.segment (some buffer) best h)),
        ))
  find_best_pad_from-le_time mux (j ∷ ks) best k pad buffer h (inr m) g q v =
      find_best_pad_from-le_time mux ks (better_of p peers j (get_pad j mux) best) k pad buffer
        (omega (arith, better_of-le j (get_pad j mux) best h)) m g q v

  -- No queued buffer with a time is earlier than the one that gst_flv_mux_find_best_pad finds.
  pub find_best_pad-le :
      (mux : Mux p.Double) (k : Kind) (pad : MuxPad) (buffer : Buffer)
      → Holds k mux.sinkpads
      → get_pad k mux ≡ some pad
      → pad.queued ≡ some buffer
      → is_valid (dts_or_pts buffer) ≡ true
      → (find_best_pad p peers mux).1 ≤ running_time p pad.segment (dts_or_pts buffer)
  unfolding find_best_pad
  find_best_pad-le mux k pad buffer m g q v =
      find_best_pad_from-le_time mux mux.sinkpads (none, clock_time_none) k pad buffer (omega arith)
        m g q v

  -- The pad that was found holds a buffer, and the time is that buffer's.
  unfoldable pub Chosen : Mux p.Double → BestPad → Type 0
  Chosen mux (none, t) = Unit {0}
  Chosen mux (some k, t) =
      (pad : MuxPad) × (buffer : Buffer) × (get_pad k mux ≡ some pad)
      × (pad.queued ≡ some buffer)
      × (t ≡ running_time p pad.segment (dts_or_pts buffer))

  Chosen-if :
      (mux : Mux p.Double) (b : Bool) (x y : BestPad)
      → Chosen mux x
      → Chosen mux y
      → Chosen mux (if b then x else y)
  Chosen-if mux true x y cx cy = cx
  Chosen-if mux false x y cx cy = cy

  better-Chosen :
      (mux : Mux p.Double) (k : Kind) (pad : MuxPad) (queued : Option Buffer) (best : BestPad)
      → get_pad k mux ≡ some pad
      → pad.queued ≡ queued
      → Chosen mux best
      → Chosen mux (better p peers k pad.segment queued best)
  unfolding better Chosen
  better-Chosen mux k pad none best g q c = c
  better-Chosen mux k pad (some buffer) (b, ts) g q c =
      let t = running_time p pad.segment (dts_or_pts buffer) in
      let here : Chosen mux (some k, t) = (pad, buffer, g, q, refl) in
      Chosen-if mux (ts == clock_time_none) (some k, t) _ here
        (Chosen-if mux (is_valid (dts_or_pts buffer) && ltb t ts) (some k, t) (b, ts) here c)

  better_of-Chosen :
      (mux : Mux p.Double) (k : Kind) (pad : Option MuxPad) (best : BestPad)
      → get_pad k mux ≡ pad
      → Chosen mux best
      → Chosen mux (better_of p peers k pad best)
  better_of-Chosen mux k none best g c = c
  better_of-Chosen mux k (some pad) best g c = better-Chosen mux k pad pad.queued best g refl c

  find_best_pad_from-Chosen :
      (mux : Mux p.Double) (ks : List Kind) (best : BestPad)
      → Chosen mux best
      → Chosen mux (find_best_pad_from p peers mux ks best)
  unfolding find_best_pad_from
  find_best_pad_from-Chosen mux [] best c = c
  find_best_pad_from-Chosen mux (k ∷ ks) best c =
      find_best_pad_from-Chosen mux ks _ (better_of-Chosen mux k (get_pad k mux) best refl c)

  -- The pad that gst_flv_mux_find_best_pad finds, if there is one, has a buffer queued, and the
  -- time that it finds is the running time of that buffer.
  pub find_best_pad-Chosen : (mux : Mux p.Double) → Chosen mux (find_best_pad p peers mux)
  unfolding find_best_pad Chosen
  find_best_pad-Chosen mux = find_best_pad_from-Chosen mux mux.sinkpads (none, clock_time_none) tt

  pub Chosen-same :
      (s t : Mux p.Double) (best : BestPad)
      → ((k : Kind) → get_pad k t ≡ get_pad k s)
      → Chosen s best
      → Chosen t best
  unfolding Chosen
  Chosen-same s t (none, ts) e c = tt
  Chosen-same s t (some k, ts) e (pad, buffer, g, q, r) = (pad, buffer, e k ∙ g, q, r)
