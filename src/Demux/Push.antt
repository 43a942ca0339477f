-- ===== src/Demux/Push.antt =====
-- What gst_flv_demux_parse_tag_audio and gst_flv_demux_parse_tag_video share: the early returns, the
-- creation of the pad, gst_flv_demux_update_resync, and the push of a buffer.
pub mod Resync
use ubox_publisher.Common.{
  ℕ, ◌+◌, ◌*◌, ◌^◌, ◌-◌, ◌≤◌, Bool, true, false, not, ◌&&◌, ◌||◌, Option, none, some, ltb, leb,
  ◌==◌, if◌then◌else◌, sub32, sub64, u64,
}
use ubox_publisher.Gst.Numbers.{clock_time_none, is_valid, msecond, second}
use ubox_publisher.Gst.Data.{FlowReturn, ok, eos, error}
use ubox_publisher.Gst.Platform.{Platform}
use ubox_publisher.Mux.State.{Kind, audio, video}
use ubox_publisher.Demux.State.{
  Demux, Stream, OutBuffer, DemuxSegment, send_segment, send_buffer, add_pad, no_more_pads, combine,
  send, get_stream, set_stream, parse_and_add_index_entry,
}
use ubox_publisher.Demux.Env.{Env}
use ubox_publisher.Demux.Send.{State}

-- Either the function returns, or it goes on.
pub data Step (S : Type 0) : Type 0 where
  returns : FlowReturn → S → Step S
  goes_on : S → Step S

abbrev pub and_then : {S : Type 0} → Step S → (S → Step S) → Step S
and_then (returns ret demux) f = returns ret demux
and_then (goes_on demux) f = f demux

-- The result, GST_FLOW_OK where the end is reached without another.
abbrev pub result : {S : Type 0} → Step S → FlowReturn × S
result (returns ret demux) = (ret, demux)
result (goes_on demux) = (ok, demux)

-- RESYNC_THRESHOLD in milliseconds, and NO_MORE_PADS_THRESHOLD
abbrev pub resync_threshold : ℕ
resync_threshold = 2000

abbrev pub no_more_pads_threshold : ℕ
no_more_pads_threshold = 6 * second

-- The bit pattern of a gint32 is at most -RESYNC_THRESHOLD.
abbrev pub is_far_back : ℕ → Bool
is_far_back ddts = leb (2 ^ 31) ddts && leb ddts (2 ^ 32 - resync_threshold)

-- Whether the stream starts anew, and its fields then: *last, and *offset without `ddts`, which is
-- negative there.
unfoldable pub update_resync : ℕ → Stream → Bool × Stream
update_resync dts s =
    let ddts = sub32 dts s.last in
    if not s.need_discont && is_far_back ddts
    then (
      true,
      record s { last = dts; time_offset = u64 (s.time_offset + (2 ^ 32 - ddts) * msecond) },
    )
    else (false, record s { last = dts })

abbrev pub is_eos : FlowReturn → Bool
is_eos eos = true
is_eos _ = false

module _ (p : Platform) (e : Env p) where
  open e use {neighbours}

  abbrev pub change : Kind → (Stream → Stream) → State p e → State p e
  change kind f demux = set_stream kind (f (get_stream kind demux)) demux

  -- Both pads are there.
  unfoldable pub signal_if_both : State p e → State p e
  signal_if_both demux =
      if demux.audio_stream.pad && demux.video_stream.pad
      then record (send no_more_pads demux) { no_more_pads = true }
      else demux

  -- A pad of the kind, negotiated before it is added; `settle` is what else is set then.
  unfoldable pub create_pad :
      Kind → (State p e → Bool × State p e) → (State p e → State p e) → State p e → Step (State p e)
  unfolding get_stream set_stream signal_if_both
  create_pad kind negotiate settle demux =
      let made = change kind (λ s. record s { pad = true }) demux in
      let (accepted, demux1) = negotiate made in
      let lost = change kind (λ s. record s { pad = false }) demux1 in
      if (get_stream kind demux).pad
      then goes_on demux
      else if neighbours.pad_made kind demux.sent
      then (if accepted
          then goes_on (signal_if_both (send (add_pad kind) (settle demux1)))
          else returns error lost)
      else returns error demux

  -- Caps that are to be replaced: the codec data is dropped before.
  unfoldable pub renegotiate :
      Kind
      → Bool
      → (State p e → Bool × State p e)
      → (State p e → State p e)
      → State p e
      → Step (State p e)
  unfolding get_stream set_stream
  renegotiate kind changed negotiate settle demux =
      let (accepted, demux1) =
        negotiate (change kind (λ s. record s { codec_data = none }) demux) in
      if not changed
      then goes_on demux
      else if accepted
      then goes_on (settle demux1)
      else returns error demux1

  -- A longer duration than is known.
  unfoldable pub note_duration : ℕ → State p e → State p e
  note_duration ts demux =
      if (demux.duration == clock_time_none) || ltb demux.duration ts
      then record demux { duration = ts }
      else demux

  -- The new-segment event, kept for the other stream.
  unfoldable pub make_segment : State p e → DemuxSegment × State p e
  make_segment demux = elim demux.new_seg_event [
    | some segment ↦ (segment, demux)
    | none ↦
        let segment : DemuxSegment = record demux.segment {
          start = demux.segment.position;
          time = demux.segment.position;
        } in
        (segment, record demux { segment = segment; new_seg_event = some segment })
  ]

  unfoldable pub push_segment : Kind → State p e → State p e
  unfolding make_segment get_stream set_stream
  push_segment kind demux =
      let (segment, demux1) = make_segment demux in
      if (get_stream kind demux).need_segment
      then change kind (λ s. record s { need_segment = false })
          (send (send_segment kind segment) demux1)
      else demux

  -- `GST_CLOCK_DIFF (start, ts) > NO_MORE_PADS_THRESHOLD`
  abbrev pub is_late : ℕ → ℕ → Bool
  is_late start ts =
      let diff = sub64 ts start in ltb diff (2 ^ 63) && ltb no_more_pads_threshold diff

  unfoldable pub signal_if_late : Kind → ℕ → State p e → State p e
  unfolding get_stream
  signal_if_late kind ts demux =
      if not demux.no_more_pads && is_late (get_stream kind demux).start ts
      then record (send no_more_pads demux) { no_more_pads = true }
      else demux

  -- What becomes of the answer to gst_pad_push.
  unfoldable pub after_push : Kind → FlowReturn → State p e → FlowReturn × State p e
  unfolding get_stream set_stream
  after_push kind ret demux =
      let segment = demux.segment in
      let combined = send (combine kind ret) demux in
      if segment.backwards && is_eos ret && ltb segment.stop segment.position
      then (ok, change kind (λ s. record s { done = true }) demux)
      else (neighbours.combined combined.sent, combined)

  -- The first time of the stream; the video's is set while the audio's is not.
  unfoldable pub note_start : Kind → ℕ → State p e → State p e
  unfolding get_stream set_stream
  note_start kind ts demux =
      let first_unset = not (is_valid demux.audio_stream.first_ts) in
      change kind
        (λ s. record s {
          start = if is_valid s.start then s.start else ts;
          first_ts = if first_unset then ts else s.first_ts;
        })
        demux

  -- What is done with the state before a frame is pushed; `indexes` says whether it goes into the
  -- index, as a keyframe or not.
  unfoldable pub before_push : Kind → (State p e → Bool) → Bool → ℕ → State p e → State p e
  unfolding note_duration parse_and_add_index_entry push_segment note_start signal_if_late
  before_push kind indexes keyframe ts demux =
      let demux1 = note_duration ts demux in
      let demux2 =
        if indexes demux1
        then parse_and_add_index_entry e.index ts demux1.cur_tag_offset keyframe demux1
        else demux1 in
      let demux3 = change kind (λ s. record s { need_discont = false }) demux2 in
      let demux4 = record demux3 { segment = record demux3.segment { position = ts } } in
      signal_if_late kind ts (note_start kind ts (push_segment kind demux4))

  unfoldable pub push_now : Kind → OutBuffer → State p e → FlowReturn × State p e
  push_now kind buffer demux =
      let pushed = send (send_buffer kind buffer) demux in
      after_push kind (neighbours.push_result pushed.sent) pushed

  -- From the fields of the buffer to the answer.
  unfoldable pub push_buffer :
      Kind → (State p e → Bool) → Bool → OutBuffer → State p e → FlowReturn × State p e
  push_buffer kind indexes keyframe buffer demux =
      push_now kind (record buffer { discont = (get_stream kind demux).need_discont })
        (before_push kind indexes keyframe buffer.pts demux)
