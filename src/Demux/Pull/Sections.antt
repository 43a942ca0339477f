-- ===== src/Demux/Pull/Sections.antt =====
-- gst_flv_demux_handle_seek_pull and gst_flv_demux_seek_to_prev_keyframe: where pulling goes on.
use ubox_publisher.Common.{
  ℕ, ◌+◌, ◌*◌, ◌-◌, Bool, true, false, not, ◌&&◌, ◌||◌, Option, none, some, ltb, ◌==◌,
  if◌then◌else◌, u64,
}
use ubox_publisher.Common.Options.{◌>>=◌}
use ubox_publisher.Gst.Numbers.{clock_time_none, second}
use ubox_publisher.Gst.Data.{FlowReturn, ok, eos}
use ubox_publisher.Gst.Platform.{Platform}
use ubox_publisher.Demux.State.{
  seek_state, Stream, DemuxSegment, SeekEvent, send_flush_start, send_flush_stop,
  flush_start_upstream, flush_stop_upstream, start_task, pause_task, post_segment_start,
  reset_flows, send,
}
use ubox_publisher.Demux.Env.{Env}
use ubox_publisher.Demux.Send.{State, push_src_event}
use ubox_publisher.Demux.Seek.{move_to_offset, find_offset, take_segment}

module _ (p : Platform) (e : Env p) where
  open e use {index, neighbours}

  -- What a seek does before the stream lock is taken, and a flush upstream behind it.
  abbrev pub stop_pulling : Bool → State p e → State p e
  stop_pulling true demux =
      send flush_stop_upstream
        (send flush_start_upstream (push_src_event p e send_flush_start demux))
  stop_pulling false demux = send pause_task demux

  abbrev pub stop_flush : Bool → State p e → State p e
  stop_flush true demux = push_src_event p e send_flush_stop demux
  stop_flush false demux = demux

  -- The index does not reach so far yet: the task looks for it first.
  unfoldable pub delay_seek : SeekEvent → ℕ → State p e → State p e
  delay_seek event position demux = record (stop_flush event.flush demux) {
    seek_event = some event;
    seek_time = position;
    state = seek_state;
  }

  abbrev pub announce : DemuxSegment → State p e → State p e
  announce segment demux =
      if segment.is_segment then send (post_segment_start segment.position) demux else demux

  -- The new segment, after the end of the flush.
  unfoldable pub begin_section : SeekEvent → DemuxSegment → State p e → State p e
  begin_section event segment demux =
      take_segment p e segment (send reset_flows (announce segment (stop_flush event.flush demux)))

  -- To the place that the index has for the position.
  unfoldable pub seek_now : SeekEvent → DemuxSegment → State p e → State p e
  unfolding find_offset move_to_offset begin_section
  seek_now event configured demux =
      let (offset, adjusted) = find_offset p e event configured demux in
      begin_section event adjusted (move_to_offset p e offset true demux)

  -- The task goes on, unless another seek has begun while this one is the task's own.
  unfoldable pub finish_seek : Bool → State p e → State p e
  finish_seek seeking demux =
      let other = demux.seeking && not seeking in
      send (if other then pause_task else start_task) (record demux { seeking = false })

  unfoldable pub seek_or_delay : SeekEvent → Bool → DemuxSegment → State p e → State p e
  unfolding delay_seek seek_now begin_section
  seek_or_delay event seeking configured demux =
      let is_far =
        seeking
        && not demux.indexed
        && ltb (u64 (demux.index_max_time + 10 * second)) configured.position in
      if event.flush || not (configured.position == demux.segment.position)
      then (if is_far
          then delay_seek event configured.position demux
          else seek_now event configured demux)
      else begin_section event configured demux

  unfoldable pub handle_seek_pull : SeekEvent → Bool → State p e → Bool × State p e
  unfolding seek_or_delay finish_seek
  handle_seek_pull event seeking demux =
      let marked = record demux { seeking = seeking || demux.seeking } in
      let stopped = stop_pulling event.flush marked in
      let configured = neighbours.do_seek event stopped.segment in
      if event.is_time
      then (true, finish_seek seeking (seek_or_delay event seeking configured stopped))
      else (false, demux)

  -- Nothing of a stream is wanted from before this section.
  abbrev pub is_complete : DemuxSegment → Stream → Bool
  is_complete segment s = (s.first_ts == clock_time_none) || ltb s.first_ts segment.start

  -- To the key unit in front of this section, up to which the next one then goes.
  abbrev pub section_before : ℕ → Option (ℕ × ℕ) → State p e → FlowReturn × State p e
  section_before from none demux = (eos, demux)
  section_before from (some (bytes, time)) demux =
      (ok, move_to_offset p e bytes false (record demux { to_offset = from }))

  abbrev pub section_from : Option ℕ → State p e → FlowReturn × State p e
  section_from none demux = (eos, demux)
  section_from (some from) demux =
      let entry = (do i ← demux.index; index.key_unit_before_position i (from - 1)) in
      let before = section_before from entry demux in if from == 0 then (eos, demux) else before

  unfoldable pub seek_to_prev_keyframe : State p e → FlowReturn × State p e
  unfolding move_to_offset
  seek_to_prev_keyframe demux =
      if is_complete demux.segment demux.audio_stream
        && is_complete demux.segment demux.video_stream
      then (eos, demux)
      else section_from demux.from_offset demux
