-- ===== src/Demux/Queries.antt =====
-- gst_flv_demux_query.
use ubox_publisher.Common.{
  ℕ, Bool, true, false, ◌&&◌, ◌||◌, Option, none, some, ◌==◌, if◌then◌else◌,
}
use ubox_publisher.Gst.Numbers.{clock_time_none}
use ubox_publisher.Gst.Platform.{Platform}
use ubox_publisher.Demux.State.{DemuxSegment}
use ubox_publisher.Demux.Env.{Env}
use ubox_publisher.Demux.Send.{State}

-- Queries; the flag is whether one is in GST_FORMAT_TIME.
pub data Query : Type 0 where
  duration_query position_query seeking_query : Bool → Query
  segment_query : Query
  other_query : ℕ → Query

-- A query that is refused, that upstream or the pad answers, or what is answered; a range of -1 is
-- `none`.
pub data Answer : Type 0 where
  refused : Answer
  from_upstream : Answer
  by_default : ℕ → Answer
  duration_answer position_answer : ℕ → Answer
  seeking_answer : Bool → Option (ℕ × ℕ) → Answer
  segment_answer : Bool → ℕ → ℕ → Answer

-- What upstream answers: whether it knows the duration, whether one can seek in time and in bytes if
-- it knows; and gst_segment_to_stream_time.
pub record Upstreams : Type 0 where
  pub knows_duration : Bool
  pub seeks_in_time : Option Bool
  pub seeks_in_bytes : Option Bool
  pub stream_time : DemuxSegment → ℕ → ℕ

abbrev pub is_yes : Option Bool → Bool
is_yes none = false
is_yes (some b) = b

module _ (p : Platform) (e : Env p) (up : Upstreams) where
  -- Where there is an index, one can seek in what is pulled, or if upstream seeks in bytes.
  unfoldable pub seeking : Bool → State p e → Answer
  seeking is_time demux =
      let can_seek = demux.random_access || is_yes up.seeks_in_bytes in
      if is_time && is_yes up.seeks_in_time then from_upstream else elim demux.index [
        | none ↦ seeking_answer false none
        | some i ↦
            (if is_time && can_seek
              then seeking_answer true (some (0, demux.duration))
              else seeking_answer false none)
      ]

  unfoldable pub query : Query → State p e → Answer
  unfolding seeking
  query (duration_query false) demux = refused
  query (duration_query true) demux =
      if up.knows_duration then from_upstream else duration_answer demux.duration
  query (position_query false) demux = refused
  query (position_query true) demux = position_answer demux.segment.position
  query (seeking_query is_time) demux = seeking is_time demux
  query segment_query demux =
      let segment = demux.segment in
      segment_answer segment.backwards (up.stream_time segment segment.start) (
        if segment.stop == clock_time_none
        then segment.duration
        else up.stream_time segment segment.stop)
  query (other_query n) demux = by_default n
