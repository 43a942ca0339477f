-- ===== src/Demux/Chain.antt =====
-- gst_flv_demux_chain: the parser's loop over the bytes that the adapter holds.
pub mod Total
pub mod Extend
pub mod Idle
pub mod Chunks
use ubox_publisher.Common.{
  ℕ, zero, suc, ◌+◌, ◌*◌, ◌^◌, ◌-◌, Bool, true, false, not, ◌&&◌, ◌||◌, Option, none, some, List,
  [], ◌∷◌, ◌++◌, ltb, leb, ◌==◌, if◌then◌else◌, length, take, drop, sub64, u64,
}
use ubox_publisher.Common.Memory.{Bytes}
use ubox_publisher.Gst.Data.{FlowReturn, ok, error, flushing}
use ubox_publisher.Gst.Platform.{Platform}
use ubox_publisher.Demux.State.{
  Demux, DemuxState, header_state, tag_type_state, tag_video_state, tag_audio_state,
  tag_script_state, seek_state, done_state, skip_state, none_state, SeekEvent,
}
use ubox_publisher.Demux.Header.{parse_header, parse_tag_type}
use ubox_publisher.Demux.Env.{Env}
use ubox_publisher.Demux.Send.{State}
use ubox_publisher.Demux.Metadata.{parse_tag_script}
use ubox_publisher.Demux.Audio.{parse_tag_audio, is_none}
use ubox_publisher.Demux.Video.{parse_tag_video}
use ubox_publisher.Demux.Seek.{seek_to_offset, handle_seek_push}

-- FLV_HEADER_SIZE and FLV_TAG_TYPE_SIZE
abbrev pub header_size : ℕ
header_size = 13

abbrev pub tag_type_size : ℕ
tag_type_size = 4

-- One turn of the loop over the adapter's bytes: it goes on, it ends for lack of bytes, it ends with
-- an answer, or what it does is not defined.
pub data Turn (S : Type 0) : Type 0 where
  again : FlowReturn → Bytes → S → Turn S
  waits : Bytes → S → Turn S
  answers : FlowReturn → Bytes → S → Turn S
  undefined : Turn S

abbrev pub is_script : DemuxState → Bool
is_script tag_script_state = true
is_script _ = false

module _ (p : Platform) (e : Env p) where
  open e use {readers, index, neighbours}

  -- gst_adapter_available and gst_adapter_take_buffer
  unfoldable pub take_and :
      ℕ → Bytes → State p e → (Bytes → Bytes → Turn (State p e)) → Turn (State p e)
  take_and n adapter demux f =
      if leb n (length adapter) then f (take n adapter) (drop n adapter) else waits adapter demux

  abbrev pub run :
      Option (FlowReturn × State p e)
      → (FlowReturn → State p e → Turn (State p e))
      → Turn (State p e)
  run none f = undefined
  run (some (ret, demux)) f = f ret demux

  abbrev pub advance : ℕ → State p e → State p e
  advance n demux = record demux { offset = u64 (demux.offset + n) }

  abbrev pub next_tag : State p e → State p e
  next_tag demux = record demux { state = tag_type_state }

  -- There is no index at the end of the file: back to its beginning.
  unfoldable pub no_index : Bytes → State p e → Turn (State p e)
  no_index adapter demux =
      let (accepted, back) =
        seek_to_offset p e 0 (record demux { seeking = false; seek_event = none }) in
      answers ok adapter back

  unfoldable pub header_turn : Bytes → State p e → Turn (State p e)
  header_turn adapter demux = take_and header_size adapter demux λ bs rest.
      run (parse_header p readers index (e.upstream demux.sent) bs demux)
        λ ret demux'. again ret rest (next_tag (advance header_size demux'))

  unfoldable pub tag_type_turn : Bytes → State p e → Turn (State p e)
  tag_type_turn adapter demux = take_and tag_type_size adapter demux λ bs rest.
      run (parse_tag_type p readers index bs (record demux { cur_tag_offset = demux.offset }))
        λ ret demux'.
          let demux'' = advance tag_type_size demux' in
          if not (is_none demux''.seek_event) && not (is_script demux''.state)
          then no_index rest demux''
          else again ret rest demux''

  -- A whole tag, by its parser.
  abbrev pub tag_turn :
      (Bytes → State p e → Option (FlowReturn × State p e)) → Bytes → State p e → Turn (State p e)
  tag_turn parse adapter demux = take_and demux.tag_size adapter demux λ bs rest.
      run (parse bs demux) λ ret demux'. again ret rest (next_tag (advance demux'.tag_size demux'))

  unfoldable pub script_turn : Bytes → State p e → Turn (State p e)
  script_turn adapter demux = take_and demux.tag_size adapter demux λ bs rest.
      run (parse_tag_script p e bs demux) λ ret demux'.
        let demux'' = next_tag (advance demux'.tag_size demux') in
        if is_none demux''.seek_event
        then again ret rest demux''
        else if demux''.indexed
        then again ret rest (record demux'' { state = seek_state })
        else no_index rest demux''

  unfoldable pub skip_turn : Bytes → State p e → Turn (State p e)
  skip_turn adapter demux =
      take_and demux.tag_size adapter demux
        λ bs rest. again ok rest (next_tag (advance demux.tag_size demux))

  -- The last four bytes of the file are the size of the last tag.
  unfoldable pub last_tag_turn : Bytes → State p e → Turn (State p e)
  last_tag_turn adapter demux =
      let size = readers.read_uint32_be (take 4 adapter) in
      let (accepted, back) =
        seek_to_offset p e (sub64 (sub64 demux.file_size 4) size) (next_tag demux) in
      if leb 4 (length adapter) then answers ok (drop 4 adapter) back else no_index adapter demux

  -- gst_event_parse_seek of no event leaves its results as they were.
  abbrev pub seek_now : Option SeekEvent → Bytes → State p e → Turn (State p e)
  seek_now none adapter demux = undefined
  seek_now (some event) adapter demux =
      let (done, demux') = handle_seek_push p e event (record demux { seek_event = none }) in
      if done then answers ok adapter (next_tag demux') else answers error adapter demux'

  unfoldable pub seek_turn : Bytes → State p e → Turn (State p e)
  unfolding last_tag_turn
  seek_turn adapter demux =
      if demux.indexed
      then seek_now demux.seek_event adapter demux
      else if demux.offset == sub64 demux.file_size 4
      then last_tag_turn adapter demux
      else no_index adapter demux

  unfoldable pub state_turn : DemuxState → Bytes → State p e → Turn (State p e)
  state_turn header_state adapter demux = header_turn adapter demux
  state_turn tag_type_state adapter demux = tag_type_turn adapter demux
  state_turn tag_video_state adapter demux = tag_turn (parse_tag_video p e) adapter demux
  state_turn tag_audio_state adapter demux = tag_turn (parse_tag_audio p e) adapter demux
  state_turn tag_script_state adapter demux = script_turn adapter demux
  state_turn seek_state adapter demux = seek_turn adapter demux
  state_turn skip_state adapter demux = skip_turn adapter demux
  state_turn done_state adapter demux = answers ok adapter demux
  state_turn none_state adapter demux = answers ok adapter demux

  unfoldable pub turn : FlowReturn → Bytes → State p e → Turn (State p e)
  turn ok adapter demux =
      if demux.flushing
      then answers flushing adapter demux
      else state_turn demux.state adapter demux
  turn ret adapter demux = answers ret adapter demux

  abbrev pub more :
      (FlowReturn → Bytes → State p e → Turn (State p e)) → Turn (State p e) → Turn (State p e)
  more loop (again ret adapter demux) = loop ret adapter demux
  more loop (waits adapter demux) = waits adapter demux
  more loop (answers ret adapter demux) = answers ret adapter demux
  more loop undefined = undefined

  -- The turns up to one that does not go on. `again` is out of fuel.
  unfoldable pub parse_loop : ℕ → FlowReturn → Bytes → State p e → Turn (State p e)
  parse_loop zero ret adapter demux = again ret adapter demux
  parse_loop (suc f) ret adapter demux = more (parse_loop f) (turn ret adapter demux)

  -- Before the loop: a buffer at offset 0 starts a new file, a discontinuity clears the adapter, and
  -- a seek that is asked for is done first.
  unfoldable pub take_in : ℕ → Bool → Bytes → State p e → Bytes × State p e
  take_in offset discont adapter demux =
      let at_start =
        if offset == 0 then record demux { state = header_state; offset = 0 } else demux in
      let synchronized =
        if (at_start.offset == 0) && not (offset == 0)
        then record at_start { offset = offset }
        else at_start in
      let seeking =
        if synchronized.seeking
        then record synchronized { state = seek_state; seeking = false }
        else synchronized in
      (if discont then [] else adapter, seeking)

  unfoldable pub parse_all : Bytes → State p e → Turn (State p e)
  parse_all adapter demux = parse_loop (2 * length adapter + 3) ok adapter demux

  unfoldable pub chain : ℕ → Bool → Bytes → Bytes → State p e → Turn (State p e)
  chain offset discont bytes adapter demux =
      let (kept, demux') = take_in offset discont adapter demux in parse_all (kept ++ bytes) demux'
