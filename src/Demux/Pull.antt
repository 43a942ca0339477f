-- ===== src/Demux/Pull.antt =====
-- gst_flv_demux_pull_range, gst_flv_demux_pull_tag and gst_flv_demux_pull_header.
pub mod Agrees
pub mod Scan
pub mod Sections
pub mod Loop
use ubox_publisher.Common.{ℕ, Bool, not, Option, some, none, [], ◌==◌, if◌then◌else◌, length, u32}
use ubox_publisher.Common.Memory.{Bytes}
use ubox_publisher.Common.Options.{◌>>=◌}
use ubox_publisher.Gst.Data.{FlowReturn, ok, eos, is_ok}
use ubox_publisher.Gst.Platform.{Platform}
use ubox_publisher.Demux.State.{DemuxState, tag_video_state, tag_audio_state, tag_script_state}
use ubox_publisher.Demux.Header.{parse_header, parse_tag_type}
use ubox_publisher.Demux.Env.{Env}
use ubox_publisher.Demux.Send.{State}
use ubox_publisher.Demux.Metadata.{parse_tag_script}
use ubox_publisher.Demux.Audio.{parse_tag_audio}
use ubox_publisher.Demux.Video.{parse_tag_video}
use ubox_publisher.Demux.Chain.{header_size, tag_type_size, advance, next_tag}

module _ (p : Platform) (e : Env p) where
  open e use {readers, index, neighbours}

  -- Fewer or more bytes than were asked for are the end of the stream.
  unfoldable pub pull_range : ℕ → ℕ → State p e → FlowReturn × Bytes
  pull_range offset size demux =
      let (ret, bs) = neighbours.pulled offset size demux.sent in
      if not (is_ok ret) then (ret, []) else if length bs == size then (ok, bs) else (eos, [])

  -- A parser of tags, and what is made ready for the next tag.
  unfoldable pub pull_parsed :
      (Bytes → State p e → Option (FlowReturn × State p e))
      → Bytes
      → State p e
      → Option (FlowReturn × State p e)
  pull_parsed parse bs demux = do
    (ret, demux') ← parse bs demux
    some (ret, record (next_tag p e (advance p e demux'.tag_size demux')) { tag_size = 0 })

  unfoldable pub pull_state : DemuxState → Bytes → State p e → Option (FlowReturn × State p e)
  unfolding pull_parsed
  pull_state tag_video_state = pull_parsed (parse_tag_video p e)
  pull_state tag_audio_state = pull_parsed (parse_tag_audio p e)
  pull_state tag_script_state = pull_parsed (parse_tag_script p e)
  pull_state _ = pull_parsed (λ bs demux. some (ok, demux))

  -- The tag behind its type and size.
  unfoldable pub pull_body : State p e → Option (FlowReturn × State p e)
  pull_body demux =
      let (ret, bs) = pull_range demux.offset (u32 demux.tag_size) demux in
      if is_ok ret then pull_state demux.state bs demux else some (ret, demux)

  abbrev pub pull_rest : FlowReturn × State p e → Option (FlowReturn × State p e)
  pull_rest (ret, demux) =
      let body = pull_body (advance p e tag_type_size demux) in
      if is_ok ret then body else some (ret, demux)

  unfoldable pub pull_tag : State p e → Option (FlowReturn × State p e)
  unfolding pull_range pull_body
  pull_tag demux =
      let begun = record demux { cur_tag_offset = demux.offset } in
      let (ret, bs) = pull_range begun.offset tag_type_size begun in
      let rest = (do r ← parse_tag_type p readers index bs begun; pull_rest r) in
      if is_ok ret then rest else some (ret, begun)

  unfoldable pub pull_header : State p e → Option (FlowReturn × State p e)
  unfolding pull_range
  pull_header demux =
      let (ret, bs) = pull_range demux.offset header_size demux in
      let parsed = (do
        (ret', demux') ← parse_header p readers index (e.upstream demux.sent) bs demux
        some (ret', next_tag p e (advance p e header_size demux'))) in
      if is_ok ret then parsed else some (ret, demux)
