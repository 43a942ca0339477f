-- ===== src/Demux/State.antt =====
-- The demuxer's state (uflv/gstflvdemux.h), what it sends, and what it asks of its neighbours.
use ubox_publisher.Common.{
  ℕ, ◌+◌, ◌≤◌, ◌≡◌, Bool, Option, none, some, List, ◌∷◌, ltb, if◌then◌else◌, length, take, drop,
}
use ubox_publisher.Common.Memory.{Bytes}
use ubox_publisher.Gst.Data.{FlowReturn}
use ubox_publisher.Mux.State.{Kind, audio, video}

-- FLV_STATE_HEADER and its kin
pub data DemuxState : Type 0 where
  header_state tag_type_state tag_video_state tag_audio_state tag_script_state : DemuxState
  seek_state done_state skip_state none_state : DemuxState

-- The parts of a date; a part that is not known is `none`.
pub record DateTime : Type 0 where
  pub year : ℕ
  pub month : Option ℕ
  pub day : Option ℕ
  pub time : Option (ℕ × ℕ × ℕ)

-- What gst_tag_list_add puts into a list.
pub data DemuxTag : Type 0 where
  duration : ℕ → DemuxTag
  nominal_bitrate : ℕ → DemuxTag
  date_time : DateTime → DemuxTag
  artist title encoder : Bytes → DemuxTag
  audio_codec video_codec : Bytes → DemuxTag

-- GstSegment in GST_FORMAT_TIME; `backwards` is a rate below 0, which is never 0, and `is_segment`
-- is GST_SEGMENT_FLAG_SEGMENT.
pub record DemuxSegment : Type 0 where
  pub backwards : Bool
  pub is_segment : Bool
  pub duration : ℕ
  pub start : ℕ
  pub stop : ℕ
  pub time : ℕ
  pub position : ℕ

-- A seek event: whether it is in GST_FORMAT_TIME, its flags, and what gst_segment_do_seek takes.
pub record SeekEvent : Type 0 where
  pub is_time : Bool
  pub flush : Bool
  pub snap_after : Bool
  pub key_unit : Bool
  pub start : Option ℕ
  pub stop : Option ℕ

-- The caps that the demuxer makes: the media type with its constant fields, and the others.
pub data Media : Type 0 where
  adpcm_swf mpeg1_layer3 nellymoser aac alaw mulaw : Media
  raw_audio : Bool → ℕ → Media
  -- the two buffers of the streamheader
  speex : Bytes → Bytes → Media
  flash_video flash_screen vp6_flash vp6_alpha h264 h265 h263 mpeg4_video : Media

pub record DemuxCaps : Type 0 where
  pub media : Media
  pub rate : Option ℕ
  pub channels : Option ℕ
  pub pixel_aspect_ratio : Option (ℕ × ℕ)
  pub width : Option ℕ
  pub height : Option ℕ
  pub framerate : Option (ℕ × ℕ)
  pub codec_data : Option Bytes

-- A buffer that goes downstream, with GST_BUFFER_FLAG_RESYNC, DELTA_UNIT and DISCONT.
pub record OutBuffer : Type 0 where
  pub bytes : Bytes
  pub pts : ℕ
  pub dts : ℕ
  pub duration : ℕ
  pub offset : ℕ
  pub offset_end : ℕ
  pub resync : Bool
  pub delta_unit : Bool
  pub discont : Bool

-- What the demuxer sends: to a pad, to the bin that it is in, and upstream.
pub data Action : Type 0 where
  send_tags : Kind → List DemuxTag → Action
  send_segment : Kind → DemuxSegment → Action
  send_stream_start : Kind → Option ℕ → Action
  set_caps : Kind → DemuxCaps → Action
  send_buffer : Kind → OutBuffer → Action
  add_pad remove_pad : Kind → Action
  no_more_pads : Action
  combine : Kind → FlowReturn → Action
  reset_flows : Action
  seek_upstream : ℕ → Action
  forward_seek : SeekEvent → Action
  send_flush_start send_flush_stop send_eos : Kind → Action
  send_segment_done : Kind → ℕ → Action
  -- an event from upstream that goes on, another one that does, and one that the pad handles
  forward_segment : Kind → DemuxSegment → Action
  forward_upstream handle_default : ℕ → Action
  -- flushes that go upstream, the task of the sink pad, and messages on the bus
  flush_start_upstream flush_stop_upstream : Action
  start_task stop_task pause_task : Action
  post_segment_start post_segment_done : ℕ → Action
  post_error : Action
  post_flow_error : FlowReturn → Action

-- The fields of one of the two streams: the pad (whether there is one), and audio_codec_tag,
-- audio_offset and so on, or video_codec_tag, video_offset and so on.
pub record Stream : Type 0 where
  pub pad : Bool
  pub codec_tag : ℕ
  pub buffer_offset : ℕ
  pub need_discont : Bool
  pub need_segment : Bool
  pub codec_data : Option Bytes
  pub start : ℕ
  pub last : ℕ
  pub time_offset : ℕ
  pub first_ts : ℕ
  pub done : Bool

-- The GstIndex that the demuxer adds its entries to: whether an entry has a position in bytes, an
-- entry with flags (key unit or delta unit), a time and a position, and the key unit before a time
-- or, where the flag says so, after it, by its position and time, and the one before a position.
pub record IndexOps : Type 1 where
  pub Index : Type 0
  pub has_position : Index → ℕ → Bool
  pub add_association : Index → Bool → ℕ → ℕ → Index
  pub key_unit_at : Index → Bool → ℕ → Option (ℕ × ℕ)
  pub key_unit_before_position : Index → ℕ → Option (ℕ × ℕ)

-- GstUFlvDemux. `taglist` and its kin hold what was added since the lists were cleared, and `sent`
-- what was sent, the latest first. `D` is gdouble.
pub record Demux (D : Type 0) (I : Type 0) : Type 0 where
  pub state : DemuxState
  pub offset : ℕ
  pub cur_tag_offset : ℕ
  pub tag_size : ℕ
  pub tag_data_size : ℕ
  pub duration : ℕ
  pub audio_stream : Stream
  pub video_stream : Stream
  pub rate : ℕ
  pub channels : ℕ
  pub width : ℕ
  pub has_audio : Bool
  pub has_video : Bool
  pub need_header : Bool
  pub strict : Bool
  pub flushing : Bool
  pub no_more_pads : Bool
  pub random_access : Bool
  pub seeking : Bool
  pub building_index : Bool
  pub seek_event : Option SeekEvent
  pub seek_time : ℕ
  pub file_size : ℕ
  pub from_offset : Option ℕ
  pub to_offset : ℕ
  pub group_id : Option ℕ
  pub segment : DemuxSegment
  pub new_seg_event : Option DemuxSegment
  pub index : Option I
  pub own_index : Bool
  pub indexed : Bool
  pub upstream_seekable : Bool
  pub index_max_pos : ℕ
  pub index_max_time : ℕ
  pub times : Option (List D)
  pub filepositions : Option (List D)
  pub taglist : List DemuxTag
  pub audio_tags : List DemuxTag
  pub video_tags : List DemuxTag
  pub w : ℕ
  pub h : ℕ
  pub par_x : ℕ
  pub par_y : ℕ
  pub got_par : Bool
  pub framerate : D
  pub sent : List Action

-- What GStreamer and the neighbours answer. A function of a list of actions may look at all that
-- was sent, the latest first; the action that it answers is the first one.
pub record Neighbours (D : Type 0) : Type 0 where
  -- gst_pad_push, gst_pad_set_caps, and events that go upstream
  pub push_result : List Action → FlowReturn
  pub caps_accepted : List Action → Bool
  pub event_accepted : List Action → Bool
  -- gst_pad_pull_range from an offset for a size; the bytes matter only with GST_FLOW_OK
  pub pulled : ℕ → ℕ → List Action → FlowReturn × Bytes
  -- gst_pad_new_from_template, gst_pad_get_current_caps and gst_caps_is_equal
  pub pad_made : Kind → List Action → Bool
  pub current_caps : Kind → List Action → Option DemuxCaps
  pub caps_is_equal : DemuxCaps → DemuxCaps → Bool
  -- the sticky stream-start event of the sink pad with its group id, gst_util_group_id_next
  pub sticky_group : List Action → Option (Option ℕ)
  pub group_id_next : List Action → ℕ
  -- gst_pb_utils_get_codec_description
  pub codec_description : DemuxCaps → Option Bytes
  -- gst_flow_combiner_update_pad_flow
  pub combined : List Action → FlowReturn
  -- of the other values of a GstFlowReturn, GST_FLOW_NOT_LINKED and those below GST_FLOW_EOS
  pub is_not_linked : ℕ → Bool
  pub is_below_eos : ℕ → Bool
  -- gst_codec_utils_aac_get_sample_rate_from_index and gst_codec_utils_aac_get_channels
  pub aac_rate : ℕ → ℕ
  pub aac_channels : Bytes → ℕ
  -- the numerator and denominator of gst_video_guess_framerate (GST_SECOND / framerate), and
  -- whether a gdouble is not 0
  pub guess_framerate : D → ℕ × ℕ
  pub is_nonzero : D → Bool
  pub zero_double : D
  -- gst_tag_list_to_vorbiscomment_buffer of no tags
  pub empty_comment : Bytes
  -- gst_buffer_copy_region from an offset; a size of -1 in 64 bits is the rest of the buffer
  pub copy_region : ℕ → ℕ → Bytes → Bytes
  pub copy_region_lem :
      (off n : ℕ) (bs : Bytes) → off + n ≤ length bs → copy_region off n bs ≡ take n (drop off bs)
  -- gst_segment_do_seek
  pub do_seek : SeekEvent → DemuxSegment → DemuxSegment

module _ {D : Type 0} {I : Type 0} where
  unfoldable pub get_stream : Kind → Demux D I → Stream
  get_stream audio demux = demux.audio_stream
  get_stream video demux = demux.video_stream

  unfoldable pub set_stream : Kind → Stream → Demux D I → Demux D I
  set_stream audio s demux = record demux { audio_stream = s }
  set_stream video s demux = record demux { video_stream = s }

  abbrev pub send : Action → Demux D I → Demux D I
  send a demux = record demux { sent = a ∷ demux.sent }

module _ (o : IndexOps) {D : Type 0} where
  -- The entry, and the greatest position and time.
  unfoldable pub add_index_entry : ℕ → ℕ → Bool → o.Index → Demux D o.Index → Demux D o.Index
  add_index_entry ts pos keyframe index demux = record demux {
    index = some (o.add_association index keyframe ts pos);
    index_max_pos = if ltb demux.index_max_pos pos then pos else demux.index_max_pos;
    index_max_time = if ltb demux.index_max_time ts then ts else demux.index_max_time;
  }

  unfoldable pub add_if_new : ℕ → ℕ → Bool → Option o.Index → Demux D o.Index → Demux D o.Index
  add_if_new ts pos keyframe none demux = demux
  add_if_new ts pos keyframe (some index) demux =
      if o.has_position index pos then demux else add_index_entry ts pos keyframe index demux

  unfoldable pub parse_and_add_index_entry : ℕ → ℕ → Bool → Demux D o.Index → Demux D o.Index
  parse_and_add_index_entry ts pos keyframe demux =
      if demux.upstream_seekable then add_if_new ts pos keyframe demux.index demux else demux
