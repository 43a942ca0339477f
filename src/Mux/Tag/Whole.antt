-- ===== src/Mux/Tag/Whole.antt =====
-- gst_flv_mux_buffer_to_tag_internal as a whole.
use ubox_publisher.Common.{◌+◌, ◌^◌, ◌<◌, ◌≡◌, Bool, Option, some, length}
use ubox_publisher.Gst.Data.{Buffer, new_buffer}
use ubox_publisher.Gst.Platform.{Platform}
use ubox_publisher.Mux.State.{Kind, MuxPad, Mux}
use ubox_publisher.Mux.Tag.{bdata, tag_times, tag_type, stamp, buffer_to_tag_internal}
use ubox_publisher.Mux.Tag.Layout.{tag_body, flv_tag, tag_block-flv_tag}

module _ (p : Platform) where
  -- For a buffer that leaves room for the tag in 32 bits, whatever the new block held before: no
  -- store leaves the block, the tag has the layout of `flv_tag` over the flags, the codec's own
  -- fields and the buffer's bytes, and of the muxer only `last_dts` changes.
  pub buffer_to_tag_internal-flv_tag :
      (kind : Kind) (pad : MuxPad) (buffer : Option Buffer) (is_codec_data : Bool)
      (mux : Mux p.Double)
      → length (bdata buffer) + 20 < 2 ^ 32
      → buffer_to_tag_internal p kind pad buffer is_codec_data mux
        ≡ some (
          stamp p mux.streamable kind pad buffer (
              new_buffer (
                flv_tag (tag_type kind) (tag_times mux.last_dts mux.first_timestamp pad).dts (
                  tag_body kind pad buffer is_codec_data
                    (tag_times mux.last_dts mux.first_timestamp pad).cts))),
          record mux { last_dts = (tag_times mux.last_dts mux.first_timestamp pad).last_dts },
        )
  unfolding buffer_to_tag_internal
  buffer_to_tag_internal-flv_tag kind pad buffer c mux h =
      let e =
        tag_block-flv_tag p kind pad buffer c (tag_times mux.last_dts mux.first_timestamp pad) h in
      rw (e, buffer_to_tag_internal)
