-- ===== src/Demux/Pull/Loop.antt =====
-- gst_flv_demux_loop: one turn of the task of the sink pad.
pub mod Pushes
pub mod Ends
use ubox_publisher.Common.{
  ℕ, ◌+◌, ◌*◌, ◌^◌, Bool, true, false, not, ◌&&◌, ◌||◌, Option, none, some, ltb, leb, ◌==◌,
  if◌then◌else◌, u64,
}
use ubox_publisher.Gst.Numbers.{clock_time_none, second}
use ubox_publisher.Gst.Data.{FlowReturn, ok, eos, error, flushing, other, is_ok}
use ubox_publisher.Gst.Platform.{Platform}
use ubox_publisher.Demux.State.{
  DemuxState, tag_type_state, done_state, seek_state, DemuxSegment, SeekEvent, no_more_pads,
  pause_task, post_segment_done, post_error, post_flow_error, send_segment_done, send_eos, send,
}
use ubox_publisher.Demux.Env.{Env}
use ubox_publisher.Demux.Send.{State, push_src_event}
use ubox_publisher.Demux.Pull.{pull_tag, pull_header}
use ubox_publisher.Demux.Pull.Scan.{Scan, scanning, scanned, outside, create_index, get_metadata}
use ubox_publisher.Demux.Pull.Sections.{handle_seek_pull, seek_to_prev_keyframe}

-- What the switch over the states leads to: on to the tests behind it, or to pausing at once. A load
-- from outside of a buffer, or an event that is not there, is undefined; `spent` is out of fuel.
pub data Outcome (S : Type 0) : Type 0 where
  goes_on pauses : FlowReturn → S → Outcome S
  spent undefined : Outcome S

abbrev pub outcome : {S : Type 0} → Option (FlowReturn × S) → Outcome S
outcome none = undefined
outcome (some (ret, s)) = goes_on ret s

-- -1 is GST_CLOCK_TIME_NONE.
abbrev pub is_set : ℕ → Bool
is_set t = not (t == clock_time_none)

abbrev pub position_at_end : DemuxSegment → DemuxSegment
position_at_end segment =
    if segment.backwards
    then record segment { position = segment.start }
    else if is_set segment.stop
    then record segment { position = segment.stop }
    else segment

-- Where a segment that was played ended, in its direction.
abbrev pub segment_end : DemuxSegment → ℕ
segment_end segment =
    if segment.backwards
    then segment.start
    else if is_set segment.stop
    then segment.stop
    else segment.duration

module _ (p : Platform) (e : Env p) where
  open e use {neighbours}

  abbrev pub from_here : State p e → State p e
  from_here demux = elim demux.from_offset [
    | none ↦ record demux { from_offset = some demux.offset }
    | some from ↦ demux
  ]

  abbrev pub sized : FlowReturn → Option (ℕ × State p e) → Option (FlowReturn × State p e)
  sized ret none = none
  sized ret (some (size, demux)) = some (ret, record demux { file_size = size })

  -- Once there was data, the metadata at the end of the file, if there is no index yet.
  abbrev pub look_at_end : Option (FlowReturn × State p e) → Option (FlowReturn × State p e)
  look_at_end none = none
  look_at_end (some (ret, demux)) =
      let at_end = sized ret (get_metadata p e demux) in
      if (demux.file_size == 0) && not demux.indexed && (demux.has_video || demux.has_audio)
      then at_end
      else some (ret, demux)

  unfoldable pub tag_step : State p e → Outcome (State p e)
  tag_step demux = outcome (look_at_end (pull_tag p e (from_here demux)))

  abbrev pub scan_and_seek : Option SeekEvent → Scan (State p e) → Outcome (State p e)
  scan_and_seek event (scanning demux) = spent
  scan_and_seek event outside = undefined
  scan_and_seek none (scanned ok demux) = undefined
  scan_and_seek (some event) (scanned ok demux) =
      let (_, sought) = handle_seek_pull p e event false demux in
      goes_on ok (record sought { seek_event = none })
  scan_and_seek event (scanned ret demux) = pauses ret demux

  unfoldable pub seek_step : ℕ → State p e → Outcome (State p e)
  seek_step fuel demux =
      scan_and_seek demux.seek_event
        (create_index p e fuel demux.index_max_pos demux.seek_time demux)

  -- Index scans start after the header.
  abbrev pub scan_from : Option (FlowReturn × State p e) → Outcome (State p e)
  scan_from none = undefined
  scan_from (some (ret, demux)) = goes_on ret (record demux { index_max_pos = demux.offset })

  unfoldable pub header_step : State p e → Outcome (State p e)
  header_step demux = scan_from (pull_header p e demux)

  unfoldable pub step : ℕ → DemuxState → State p e → Outcome (State p e)
  unfolding tag_step seek_step header_step
  step fuel tag_type_state demux = tag_step demux
  step fuel done_state demux = goes_on eos demux
  step fuel seek_state demux = seek_step fuel demux
  step fuel _ demux = header_step demux

  -- The end of a section that is played backwards, and the end of a segment. As a gint64, an offset
  -- from 2 ^ 63 on is negative.
  unfoldable pub at_section_end : State p e → Bool
  at_section_end demux =
      (ltb demux.offset (2 ^ 63) && leb demux.to_offset demux.offset)
      || leb (u64 (demux.segment.stop + 2 * second)) demux.segment.position
      || (demux.audio_stream.done && demux.video_stream.done)

  unfoldable pub check_end : FlowReturn → State p e → FlowReturn × State p e
  unfolding at_section_end seek_to_prev_keyframe
  check_end ret demux =
      if demux.segment.backwards
      then (if at_section_end demux then seek_to_prev_keyframe p e demux else (ret, demux))
      else if is_set demux.segment.stop && leb demux.segment.stop demux.segment.position
      then (eos, demux)
      else (ret, demux)

  abbrev pub is_not_linked : FlowReturn → Bool
  is_not_linked (other n) = neighbours.is_not_linked n
  is_not_linked _ = false

  abbrev pub is_fatal : FlowReturn → Bool
  is_fatal error = true
  is_fatal (other n) = neighbours.is_not_linked n || neighbours.is_below_eos n
  is_fatal _ = false

  abbrev pub signal_pads : State p e → State p e
  signal_pads demux =
      if demux.no_more_pads then demux else record (send no_more_pads demux) { no_more_pads = true }

  abbrev pub segment_done : ℕ → State p e → State p e
  segment_done position demux =
      push_src_event p e (λ k. send_segment_done k position)
        (send (post_segment_done position) demux)

  unfoldable pub finish_stream : State p e → State p e
  unfolding push_src_event
  finish_stream demux =
      let placed = signal_pads (record demux { segment = position_at_end demux.segment }) in
      if placed.segment.is_segment
      then segment_done (segment_end placed.segment) placed
      else if not placed.audio_stream.pad && not placed.video_stream.pad
      then send post_error placed
      else push_src_event p e send_eos placed

  unfoldable pub pause : FlowReturn → State p e → State p e
  unfolding finish_stream push_src_event
  pause eos demux = finish_stream (send pause_task demux)
  pause ret demux =
      let paused = send pause_task demux in
      if is_fatal ret
      then push_src_event p e send_eos (send (post_flow_error ret) paused)
      else paused

  -- The end of a turn: whether the task goes on, and the state.
  unfoldable pub end_turn : FlowReturn × State p e → Bool × State p e
  unfolding pause
  end_turn (ret, demux) =
      if not (is_ok ret) && not (is_not_linked ret && not demux.no_more_pads)
      then (false, pause ret demux)
      else (true, demux)

  abbrev pub after_step : Outcome (State p e) → Option (Bool × State p e)
  after_step (goes_on ret demux) = some (end_turn (check_end ret demux))
  after_step (pauses ret demux) = some (false, pause ret demux)
  after_step spent = none
  after_step undefined = none

  unfoldable pub loop : ℕ → State p e → Option (Bool × State p e)
  loop fuel demux = after_step (step fuel demux.state demux)
