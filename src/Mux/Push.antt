-- ===== src/Mux/Push.antt =====
-- gst_flv_mux_push, and the peers of the muxer's pads, whose answers are parameters.
use ubox_publisher.Common.{ℕ, ◌+◌, Bool, Option, some, List, ◌∷◌, if◌then◌else◌, u64, length, ltb}
use ubox_publisher.Common.Memory.{Bytes}
use ubox_publisher.Gst.Numbers.{is_valid}
use ubox_publisher.Gst.Data.{Buffer, Segment, FlowReturn, Caps}
use ubox_publisher.Gst.Platform.{Platform}
use ubox_publisher.Mux.State.{Kind, M, Output, pushed}

pub record Peers : Type 0 where
  -- gst_aggregator_finish_buffer, after what was emitted so far
  pub finish_buffer : List Output → Buffer → FlowReturn
  -- gst_pad_push_event for a segment in bytes
  pub accepts_segment : List Output → Bool
  -- the answer to the seeking query, if there is one
  pub seekable : Option Bool
  -- gst_pad_peer_query_duration of a sink pad
  pub peer_duration : Kind → Option ℕ
  -- gst_pad_get_current_caps of a sink pad
  pub current_caps : Kind → Option Caps
  -- the current time, as the muxer prints it
  pub creation_date : Bytes

unfoldable pub set_position : Buffer → Segment → Segment
set_position buffer segment =
    if is_valid buffer.pts then record segment { position = buffer.pts } else segment

module _ {D : Type 0} (peers : Peers) where
  unfoldable pub push : Buffer → M D FlowReturn
  unfolding set_position
  push buffer mux = some (
    peers.finish_buffer mux.sent buffer,
    record mux {
      src_segment = set_position buffer mux.src_segment;
      byte_count = u64 (mux.byte_count + length buffer.bytes);
      sent = pushed buffer ∷ mux.sent;
    },
  )

module _ (p : Platform) where
  -- gst_flv_mux_segment_to_running_time: early times count as 0.
  unfoldable pub running_time : Segment → ℕ → ℕ
  running_time segment t = if ltb t segment.start then 0 else p.segment_to_running_time segment t
