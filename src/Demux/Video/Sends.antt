-- ===== src/Demux/Video/Sends.antt =====
-- What is sent for a video tag.
use ubox_publisher.Common.{
  ℕ, ◌+◌, ◌*◌, ◌^◌, ◌<◌, ◌≡◌, ◌⊎◌, refl, ap, ◌∙◌, inl, inr, some, length, drop, arith, Bool, true,
  false, not, List, ◌∷◌, if◌then◌else◌, u32, u64, sub32, ◌-◌, ◌&&◌, subst,
}
use ubox_publisher.Common.Memory.{Bytes}
use ubox_publisher.Gst.Numbers.{msecond}
use ubox_publisher.Gst.Data.{FlowReturn, Buffer}
use ubox_publisher.Gst.Platform.{Platform}
use ubox_publisher.Mux.State.{video, MuxPad}
use ubox_publisher.Mux.Tag.Layout.{tag_body, flv_tag}
use ubox_publisher.Demux.State.{
  Stream, OutBuffer, Action, send_buffer, combine, get_stream, set_stream,
}
use ubox_publisher.Demux.Env.{Env}
use ubox_publisher.Demux.Send.{State}
use ubox_publisher.Demux.Push.{
  is_far_back, before_push, update_resync, after_push, push_now, push_buffer,
}
use ubox_publisher.Demux.Video.{
  video_indexes, has_packets, composition_time, send_video, parse_tag_video,
}
use ubox_publisher.Demux.Video.Times.{sign_extended_low}
use ubox_publisher.Demux.Video.Opens.{Opened, OpenedIf, before_push-Opened}
use ubox_publisher.Demux.Video.RoundTrip.{IsReady, parse_tag_video-tag_body}

module _ (p : Platform) (e : Env p) where
  -- The frame comes behind what was sent before, and behind it nothing but, at most, its flow to the
  -- flow combiner.
  abbrev pub Pushed : OutBuffer → List Action → List Action → Type 0
  Pushed buffer before after =
      (after ≡ send_buffer video buffer ∷ before)
      ⊎ ((ret : FlowReturn) × (after ≡ combine video ret ∷ (send_buffer video buffer ∷ before)))

  -- From one state to another, the buffer was sent with what Opened lets come in front of it.
  abbrev pub Sent : OutBuffer → State p e → State p e → Type 0
  Sent buffer s t = (before : List Action) × (Opened p e s before × Pushed buffer before t.sent)

  if_Pushed :
      (c : Bool) (x y : FlowReturn × State p e) (buffer : OutBuffer) (before : List Action)
      → Pushed buffer before x.1.sent
      → Pushed buffer before y.1.sent
      → Pushed buffer before (if c then x else y).1.sent
  if_Pushed true x y buffer before hx hy = hx
  if_Pushed false x y buffer before hx hy = hy

  push_now-Pushed :
      (buffer : OutBuffer) (demux : State p e)
      → Pushed buffer demux.sent (push_now p e video buffer demux).1.sent
  unfolding push_now after_push get_stream set_stream
  push_now-Pushed buffer demux = if_Pushed _ _ _ buffer demux.sent (inl refl) (inr (_, refl))

  -- The new times of a stream leave what else it needs.
  update_resync-needs :
      (dts : ℕ) (s : Stream)
      → ((update_resync dts s).1.need_segment ≡ s.need_segment)
        × ((update_resync dts s).1.need_discont ≡ s.need_discont)
  unfolding update_resync
  update_resync-needs dts s = either (not s.need_discont && is_far_back (sub32 dts s.last))
    where
      ddts : ℕ
      ddts = sub32 dts s.last

      either :
          (b : Bool)
          → let r : Bool × Stream =
              if b
              then (
                true,
                record s {
                  last = dts;
                  time_offset = u64 (s.time_offset + (2 ^ 32 - ddts) * msecond);
                },
              )
              else (false, record s { last = dts }) in
            (r.1.need_segment ≡ s.need_segment) × (r.1.need_discont ≡ s.need_discont)
      either true = (refl, refl)
      either false = (refl, refl)

  -- A video frame is sent with its bytes, a dts and a pts that lie apart by the composition time and
  -- are moved by the offset that update_resync leaves, and the flags for a keyframe, a new start and
  -- a discontinuity. In front of it come only a segment, exactly if the stream needs one, and at most
  -- the signal that there are no more pads; behind it, at most, its flow to the flow combiner.
  pub send_video-Sent :
      (dts cts : ℕ) (keyframe : Bool) (data' : Bytes) (demux : State p e)
      → (buffer : OutBuffer) × (Sent buffer demux (send_video p e dts cts keyframe data' demux).1)
        × (buffer.bytes ≡ data')
        × (buffer.dts ≡ u64 (dts * 1000000 + (update_resync dts demux.video_stream).1.time_offset))
        × (buffer.pts
            ≡ u64
                (u32 (dts + cts) * 1000000 + (update_resync dts demux.video_stream).1.time_offset))
        × (buffer.resync ≡ (update_resync dts demux.video_stream).0)
        × (buffer.delta_unit ≡ not keyframe)
        × (buffer.discont ≡ demux.video_stream.need_discont)
  unfolding send_video push_buffer get_stream
  send_video-Sent dts cts keyframe data' demux =
      let s = (update_resync dts demux.video_stream).1 in
      let next = record demux {
        video_stream = record s { buffer_offset = u64 (s.buffer_offset + 1) };
      } in
      let (segment, discont) = update_resync-needs dts demux.video_stream in
      let pts = u64 (u32 (dts + cts) * msecond + s.time_offset) in
      let before = (before_push p e video (video_indexes p e) keyframe pts next).sent in
      (
        _,
        (
          before,
          (
            subst (λ b. OpenedIf p e b demux.sent before) segment
                (before_push-Opened p e (video_indexes p e) keyframe pts next),
            push_now-Pushed _ _,
          ),
        ),
        refl,
        refl,
        refl,
        refl,
        refl,
        discont,
      )

  composition_time_small : (cts dts : ℕ) → cts < 2 ^ 23 → composition_time cts dts ≡ cts
  unfolding composition_time
  composition_time_small cts dts h = rw (sign_extended_low cts h) (ground arith)

  not-not : (b : Bool) → not (not b) ≡ b
  not-not true = refl
  not-not false = refl

  -- For a buffer with bytes, fewer than 2 ^ 24 with the five before them, of a codec with packets,
  -- that the muxer puts into a tag with a timestamp below 2 ^ 32 and a composition time below 2 ^ 23:
  -- a demuxer whose video stream is set up for the codec, and which has read the sizes of the tag,
  -- returns and sends the bytes of that buffer on, with the timestamp of the tag as dts and the sum
  -- of it and the composition time, in 32 bits, as pts, both in nanoseconds and moved by the offset
  -- that update_resync leaves, as a delta unit exactly if the buffer was one. In front of it come
  -- only a segment, exactly if the stream needs one, and at most the signal that there are no more
  -- pads; behind it, at most, its flow to the flow combiner.
  pub parse_tag_video-Sent :
      (dts cts : ℕ) (pad : MuxPad) (buffer : Buffer) (demux : State p e)
      → dts < 2 ^ 32
      → cts < 2 ^ 23
      → 5 + length buffer.bytes < 2 ^ 24
      → 0 < length buffer.bytes
      → has_packets pad.codec ≡ true
      → IsReady p e pad.codec demux
      → demux.tag_data_size ≡ 5 + length buffer.bytes
      → demux.tag_size ≡ 5 + length buffer.bytes + 11
      → let offset = (update_resync dts demux.video_stream).1.time_offset in
        (out : OutBuffer) × ((ret : FlowReturn) × ((s : State p e) × ((parse_tag_video p e
                  (drop 4 (flv_tag 9 dts (tag_body video pad (some buffer) false cts)))
                  demux
                ≡ some (ret, s))
              × (Sent out demux s
                  × ((out.bytes ≡ buffer.bytes)
                      × ((out.dts ≡ u64 (dts * 1000000 + offset))
                          × ((out.pts ≡ u64 (u32 (dts + cts) * 1000000 + offset))
                              × (out.delta_unit ≡ buffer.delta_unit))))))))
  parse_tag_video-Sent dts cts pad buffer demux hd hc short some_data packets ready n size =
      let (out, at, bytes, d, t, _, delta, _) =
        send_video-Sent dts cts (not buffer.delta_unit) buffer.bytes demux in
      let result = send_video p e dts cts (not buffer.delta_unit) buffer.bytes demux in
      (
        out,
        (
          result.0,
          (
            result.1,
            (
              parse_tag_video-tag_body p e dts cts pad buffer demux hd (omega arith) short some_data
                    packets ready n size
                  ∙ ap (λ c. some (send_video p e dts c (not buffer.delta_unit) buffer.bytes demux))
                      (composition_time_small cts dts hc),
              (at, (bytes, (d, (t, delta ∙ not-not buffer.delta_unit)))),
            ),
          ),
        ),
      )
