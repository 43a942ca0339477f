-- ===== src/Demux/Seek.antt =====
-- gst_flv_demux_flush, gst_flv_demux_cleanup, flv_demux_seek_to_offset,
-- gst_flv_demux_move_to_offset, gst_flv_demux_find_offset, flv_demux_handle_seek_push and
-- gst_flv_demux_handle_seek_push.
use ubox_publisher.Common.{
  ℕ, ◌^◌, ◌-◌, Bool, true, false, not, ◌&&◌, ◌||◌, Option, none, some, ◌==◌, if◌then◌else◌, sub64,
}
use ubox_publisher.Common.Options.{◌>>=◌}
use ubox_publisher.Gst.Numbers.{clock_time_none}
use ubox_publisher.Gst.Platform.{Platform}
use ubox_publisher.Mux.State.{Kind, audio, video}
use ubox_publisher.Demux.State.{
  DemuxState, header_state, tag_type_state, seek_state, Stream, DemuxSegment, SeekEvent,
  seek_upstream, forward_seek, reset_flows, remove_pad, send,
}
use ubox_publisher.Demux.Env.{Env}
use ubox_publisher.Demux.Send.{State, clear_tags}

abbrev pub is_seek : DemuxState → Bool
is_seek seek_state = true
is_seek _ = false

abbrev pub discontinuous : Stream → Stream
discontinuous s = record s { need_discont = true }

-- A stream without a pad, as it is before the first buffer; `s` gives what is not reset.
unfoldable pub fresh_stream : Stream → Stream
fresh_stream s = record s {
  pad = false;
  buffer_offset = 0;
  need_discont = true;
  need_segment = true;
  codec_data = none;
  start = clock_time_none;
  last = 0;
  time_offset = 0;
}

-- gst_segment_init
abbrev pub fresh_segment : DemuxSegment
fresh_segment = record {
  backwards = false;
  is_segment = false;
  duration = clock_time_none;
  start = 0;
  stop = clock_time_none;
  time = 0;
  position = 0;
}

abbrev pub known_size : Option ℕ → ℕ
known_size none = 0
known_size (some n) = n

abbrev pub is_unknown : Option ℕ → Bool
is_unknown none = true
is_unknown (some n) = false

module _ (p : Platform) (e : Env p) where
  open e use {neighbours}

  abbrev pub both_discontinuous : State p e → State p e
  both_discontinuous demux = record demux {
    audio_stream = discontinuous demux.audio_stream;
    video_stream = discontinuous demux.video_stream;
  }

  -- The adapter is cleared too.
  unfoldable pub flush : State p e → State p e
  flush demux =
      let flushed = record (both_discontinuous demux) { flushing = false } in
      if not demux.random_access && not (is_seek demux.state)
      then record flushed { state = tag_type_state; offset = 0 }
      else flushed

  abbrev pub remove : Kind → Bool → State p e → State p e
  remove kind pad demux = if pad then send (remove_pad kind) demux else demux

  -- The adapter is cleared too.
  unfoldable pub cleanup : State p e → State p e
  unfolding clear_tags fresh_stream
  cleanup demux =
      let removed =
        remove video demux.video_stream.pad (remove audio demux.audio_stream.pad demux) in
      clear_tags p e (record removed {
        state = header_state;
        group_id = none;
        flushing = false;
        need_header = true;
        audio_stream = fresh_stream demux.audio_stream;
        video_stream = fresh_stream demux.video_stream;
        has_audio = false;
        has_video = false;
        got_par = false;
        indexed = false;
        upstream_seekable = false;
        file_size = 0;
        index_max_pos = 0;
        index_max_time = 0;
        no_more_pads = false;
        segment = fresh_segment;
        w = 0;
        h = 0;
        framerate = neighbours.zero_double;
        par_x = 1;
        par_y = 1;
        offset = 0;
        cur_tag_offset = 0;
        tag_size = 0;
        tag_data_size = 0;
        duration = clock_time_none;
        new_seg_event = none;
        times = none;
        filepositions = none;
      })

  unfoldable pub seek_to_offset : ℕ → State p e → Bool × State p e
  seek_to_offset offset demux =
      let sent = send (seek_upstream offset) demux in
      if neighbours.event_accepted sent.sent
      then (true, record sent { offset = offset })
      else (false, sent)

  abbrev pub section_start : Stream → Stream
  section_start s = record s { need_discont = true; done = false; first_ts = clock_time_none }

  unfoldable pub move_to_offset : ℕ → Bool → State p e → State p e
  move_to_offset offset reset demux = record demux {
    offset = offset;
    audio_stream = section_start demux.audio_stream;
    video_stream = section_start demux.video_stream;
    from_offset = none;
    to_offset = if reset then 2 ^ 63 - 1 else demux.to_offset;
    state = if offset == 0 then header_state else tag_type_state;
  }

  -- The position, and the segment, which starts at the keyframe if the event asks for that.
  abbrev pub at_entry : SeekEvent → Option (ℕ × ℕ) → DemuxSegment → ℕ × DemuxSegment
  at_entry event none segment = (0, segment)
  at_entry event (some (bytes, time)) segment = (
    bytes,
    if event.key_unit
        then record segment { start = time; time = time; position = time }
        else segment,
  )

  unfoldable pub find_offset : SeekEvent → DemuxSegment → State p e → ℕ × DemuxSegment
  find_offset event segment demux =
      let entry = do
        index ← demux.index
        e.index.key_unit_at index event.snap_after segment.position
      in at_entry event entry segment

  abbrev pub take_segment : DemuxSegment → State p e → State p e
  take_segment segment demux = record demux {
    segment = segment;
    audio_stream = record demux.audio_stream { need_segment = true };
    video_stream = record demux.video_stream { need_segment = true };
    new_seg_event = some segment;
  }

  -- The event itself goes upstream if the seek in bytes failed.
  abbrev pub forward : SeekEvent → State p e → Bool × State p e
  forward event demux =
      let sent = send (forward_seek event) demux in (neighbours.event_accepted sent.sent, sent)

  unfoldable pub seek_in_time : SeekEvent → State p e → Bool × State p e
  unfolding find_offset
  seek_in_time event demux =
      let configured = neighbours.do_seek event demux.segment in
      let (offset, adjusted) = find_offset event configured demux in
      let asked = send (seek_upstream offset) demux in
      let moved = both_discontinuous (send reset_flows asked) in
      let accepted = neighbours.event_accepted asked.sent in
      if event.flush || not (configured.position == demux.segment.position)
      then (if accepted then (true, take_segment adjusted moved) else forward event moved)
      else (true, take_segment configured demux)

  unfoldable pub handle_seek_push : SeekEvent → State p e → Bool × State p e
  unfolding seek_in_time
  handle_seek_push event demux = if event.is_time then seek_in_time event demux else (false, demux)

  -- The seek is left to the chain function, which looks for an index at the end of the file: seek to
  -- the last four bytes of it, if its size is known.
  unfoldable pub seek_for_index : Option ℕ → State p e → Bool × State p e
  unfolding seek_to_offset
  seek_for_index size demux =
      let building = record demux { building_index = true } in
      let sized = record building {
        file_size = if demux.file_size == 0 then known_size size else demux.file_size;
      } in
      if demux.building_index
      then (true, demux)
      else if (demux.file_size == 0) && is_unknown size
      then (false, building)
      else seek_to_offset (sub64 sized.file_size 4) sized

  -- A seek in time while data is pushed: by upstream, or by bytes once there is an index.
  unfoldable pub seek_push : SeekEvent → State p e → Bool × State p e
  unfolding seek_for_index handle_seek_push
  seek_push event demux =
      let (accepted, asked) = forward event demux in
      let left = record asked { seeking = true; state = seek_state; seek_event = some event } in
      if not event.is_time
      then (false, demux)
      else if accepted
      then (true, asked)
      else if not asked.indexed
      then seek_for_index (e.upstream asked.sent).size left
      else handle_seek_push event asked
