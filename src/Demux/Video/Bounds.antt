-- ===== src/Demux/Video/Bounds.antt =====
-- Audio and video tags are parsed without a load from outside of the buffer.
use ubox_publisher.Common.{◌/◌, ◌≤◌, refl, not, ◌&&◌, ltb, ◌==◌, length, bit_and, arith}
use ubox_publisher.Common.Memory.{Bytes}
use ubox_publisher.Gst.Platform.{Platform}
use ubox_publisher.Demux.Env.{Env}
use ubox_publisher.Demux.Send.{State}
use ubox_publisher.Demux.Header.Bounds.{
  IsThere, if_IsThere, IsThere-bind, byte-IsThere, read24-IsThere,
}
use ubox_publisher.Demux.Audio.{parse_tag_audio}
use ubox_publisher.Demux.Video.{has_packets, parse_tag_video}

module _ (p : Platform) (e : Env p) where
  open e use {readers, index}

  -- Whatever the buffer holds, gst_flv_demux_parse_tag_audio returns: none of its loads is from
  -- outside of the buffer.
  pub parse_tag_audio-IsThere :
      (bs : Bytes) (demux : State p e) → IsThere (parse_tag_audio p e bs demux)
  unfolding parse_tag_audio
  parse_tag_audio-IsThere bs demux =
      if_IsThere (not demux.audio_stream.pad && demux.no_more_pads) _ _ (λ a. (_, refl))
        (λ a.
          if_IsThere (not (length bs == demux.tag_size)) _ _ (λ b. (_, refl))
            (λ b.
              if_IsThere (ltb (length bs) 11) _ _ (λ c. (_, refl))
                (λ c.
                  let h : 11 ≤ length bs = ground arith in
                  IsThere-bind _ _ (read24-IsThere p readers index 0 bs (omega arith)) (λ low.
                    IsThere-bind _ _ (byte-IsThere p readers index 3 bs (omega arith)) (λ high.
                      IsThere-bind _ _ (byte-IsThere p readers index 7 bs (omega arith)) (λ flags.
                        IsThere-bind _ _
                          (if_IsThere (flags / 16 == 10) _ _
                            (λ d. byte-IsThere p readers index 8 bs (omega arith)) (λ d. (_, refl)))
                          (λ packet_type. (_, refl))))))))

  -- The same for gst_flv_demux_parse_tag_video, the composition time of H.264 and H.265 included.
  pub parse_tag_video-IsThere :
      (bs : Bytes) (demux : State p e) → IsThere (parse_tag_video p e bs demux)
  unfolding parse_tag_video
  parse_tag_video-IsThere bs demux =
      if_IsThere (not (length bs == demux.tag_size)) _ _ (λ a. (_, refl))
        (λ a.
          if_IsThere (not demux.video_stream.pad && demux.no_more_pads) _ _ (λ b. (_, refl))
            (λ b.
              if_IsThere (ltb (length bs) 12) _ _ (λ c. (_, refl))
                (λ c.
                  let h : 12 ≤ length bs = ground arith in
                  IsThere-bind _ _ (read24-IsThere p readers index 0 bs (omega arith)) (λ low.
                    IsThere-bind _ _ (byte-IsThere p readers index 3 bs (omega arith)) (λ high.
                      IsThere-bind _ _ (byte-IsThere p readers index 7 bs (omega arith)) (λ flags.
                        IsThere-bind _ _
                          (if_IsThere (has_packets (bit_and flags 15)) _ _
                            (λ d. read24-IsThere p readers index 9 bs (omega arith))
                            (λ d. (_, refl)))
                          (λ bits.
                            IsThere-bind _ _
                              (if_IsThere (has_packets (bit_and flags 15)) _ _
                                (λ d. byte-IsThere p readers index 8 bs (omega arith))
                                (λ d. (_, refl)))
                              (λ packet_type. (_, refl)))))))))
