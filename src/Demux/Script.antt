-- ===== src/Demux/Script.antt =====
-- FLV_GET_STRING, gst_flv_demux_parse_metadata_item and gst_flv_demux_parse_tag_script.
pub mod Lengths
pub mod Total
pub mod Reads
pub mod Values
pub mod Keyframes
use ubox_publisher.Common.{
  ℕ, zero, suc, ◌+◌, Bool, true, false, Option, none, some, List, [], ◌∷◌, ◌++◌, ltb, ◌==◌,
  if◌then◌else◌, length, drop,
}
use ubox_publisher.Common.Memory.{Bytes, codes}
use ubox_publisher.Common.Options.{◌>>=◌}
use ubox_publisher.Gst.Data.{FlowReturn, ok, error}
use ubox_publisher.Gst.Platform.{Platform}
use ubox_publisher.Demux.State.{
  Demux, DemuxTag, duration, nominal_bitrate, date_time, artist, title, encoder,
  parse_and_add_index_entry,
}
use ubox_publisher.Demux.Env.{Env, same, parse_date_string}
use ubox_publisher.Demux.Send.{State, push_tags, clear_tags}

-- The types of values that are told apart.
pub data ValueKind : Type 0 where
  number boolean string object ecma_array end_marker array date unsupported : ValueKind

unfoldable pub kind_of : ℕ → ValueKind
kind_of t =
    if t == 0
    then number
    else if t == 1
    then boolean
    else if t == 2
    then string
    else if t == 3
    then object
    else if t == 8
    then ecma_array
    else if t == 9
    then end_marker
    else if t == 10
    then array
    else if t == 11
    then date
    else unsupported

-- FALSE with the state that is left; or TRUE with *end_marker, the bytes left, and the state.
pub data Item (S : Type 0) : Type 0 where
  failed : S → Item S
  parsed : Bool → Bytes → S → Item S

-- A read, and what to do with its value; FALSE where the reader has too little.
abbrev pub or_fail : {A S : Type 0} → Option A → S → (A → Item S) → Item S
or_fail none demux f = failed demux
or_fail (some a) demux f = f a

module _ (p : Platform) (e : Env p) where
  open p use {Double}

  unfoldable pub get_string : Bytes → Option (Bytes × Bytes)
  get_string bs = do
    (size, rest) ← e.readers.get_uint16_be bs
    if ltb (length rest) size
        then none
        else if e.readers.try_malloc0 (size + 1)
        then (do
          (s, left) ← e.readers.get_data size rest
          if e.readers.utf8_validate s then some (s, left) else none)
        else none

  unfoldable pub set_number : Bytes → Double → State p e → State p e
  set_number name d demux =
      let t = e.readers.times_second d in
      let n = e.readers.double_to_uint32 d in
      let bitrate = nominal_bitrate (e.readers.times_1024 d) in
      if same name (codes "duration")
      then record demux { duration = t; taglist = DemuxTag.duration t ∷ demux.taglist }
      else if same name (codes "AspectRatioX")
      then record demux { par_x = n; got_par = true }
      else if same name (codes "AspectRatioY")
      then record demux { par_y = n; got_par = true }
      else if same name (codes "width")
      then record demux { w = n }
      else if same name (codes "height")
      then record demux { h = n }
      else if same name (codes "framerate")
      then record demux { framerate = d }
      else if same name (codes "audiodatarate")
      then record demux { audio_tags = bitrate ∷ demux.audio_tags }
      else if same name (codes "videodatarate")
      then record demux { video_tags = bitrate ∷ demux.video_tags }
      else demux

  abbrev pub add_tag : DemuxTag → State p e → State p e
  add_tag tag demux = record demux { taglist = tag ∷ demux.taglist }

  unfoldable pub set_string : Bytes → Bytes → State p e → State p e
  unfolding parse_date_string
  set_string name s demux =
      if same name (codes "creationdate")
      then elim (parse_date_string e.dates s) [
        | none ↦ demux
        | some d ↦ add_tag (date_time d) demux
      ]
      else if same name (codes "creator")
      then add_tag (artist s) demux
      else if same name (codes "title")
      then add_tag (title s) demux
      else if same name (codes "metadatacreator")
      then add_tag (encoder s) demux
      else demux

  unfoldable pub start_array : Bytes → State p e → State p e
  start_array name demux =
      if same name (codes "times")
      then record demux { times = some [] }
      else if same name (codes "filepositions")
      then record demux { filepositions = some [] }
      else demux

  abbrev pub append_val : Double → Option (List Double) → Option (List Double)
  append_val d none = none
  append_val d (some ds) = some (ds ++ (d ∷ []))

  unfoldable pub add_element : Bytes → Double → State p e → State p e
  add_element name d demux =
      if same name (codes "times")
      then record demux { times = append_val d demux.times }
      else if same name (codes "filepositions")
      then record demux { filepositions = append_val d demux.filepositions }
      else demux

  -- The values of a strict array, of which only numbers take more than their type.
  unfoldable pub parse_elements : ℕ → Bytes → Bytes → State p e → Item (State p e)
  parse_elements zero name bs demux = parsed false bs demux
  parse_elements (suc n) name bs demux = or_fail (e.readers.get_uint8 bs) demux λ (type, rest).
      if type == 0
      then or_fail (e.readers.get_float64_be rest) demux
          (λ (d, left). parse_elements n name left (add_element name d demux))
      else parse_elements n name rest demux

  -- The values that hold no other items.
  unfoldable pub parse_flat : ValueKind → Bytes → Bytes → State p e → Item (State p e)
  parse_flat number name bs demux =
      or_fail (e.readers.get_float64_be bs) demux
        λ (d, rest). parsed false rest (set_number name d demux)
  parse_flat boolean name bs demux =
      or_fail (e.readers.get_uint8 bs) demux λ (b, rest). parsed false rest demux
  parse_flat string name bs demux =
      or_fail (get_string bs) demux λ (s, rest). parsed false rest (set_string name s demux)
  parse_flat end_marker name bs demux = parsed (same name []) bs demux
  parse_flat array name bs demux =
      or_fail (e.readers.get_uint32_be bs) demux
        λ (nb_elems, rest). parse_elements nb_elems name rest (start_array name demux)
  parse_flat date name bs demux =
      or_fail (e.readers.get_float64_be bs) demux λ (d, rest).
        or_fail (e.readers.get_uint16_be rest) demux λ (i, left). parsed false left demux
  parse_flat _ name bs demux = parsed false bs demux

  -- The end of an object is not the end of the one that it stands in.
  abbrev pub as_value : Item (State p e) → Item (State p e)
  as_value (failed demux) = failed demux
  as_value (parsed m rest demux) = parsed false rest demux

  abbrev pub Loop : Type 0
  Loop = Bytes → State p e → Option (Item (State p e))

  unfoldable pub parse_object : Loop → Option Bytes → State p e → Option (Item (State p e))
  parse_object loop none demux = some (failed demux)
  parse_object loop (some bs) demux = do i ← loop bs demux; some (as_value i)

  unfoldable pub parse_value : Loop → ValueKind → Bytes → Loop
  unfolding parse_flat parse_object
  parse_value loop object name bs demux = parse_object loop (some bs) demux
  parse_value loop ecma_array name bs demux =
      parse_object loop (do (n, rest) ← e.readers.get_uint32_be bs; some rest) demux
  parse_value loop kind name bs demux = some (parse_flat kind name bs demux)

  abbrev pub parse_typed : Loop → Bytes → Option (ℕ × Bytes) → State p e → Option (Item (State p e))
  parse_typed loop name none demux = some (failed demux)
  parse_typed loop name (some (type, rest)) demux = parse_value loop (kind_of type) name rest demux

  abbrev pub parse_named : Loop → Option (Bytes × Bytes) → State p e → Option (Item (State p e))
  parse_named loop none demux = some (failed demux)
  parse_named loop (some (name, rest)) demux =
      parse_typed loop name (e.readers.get_uint8 rest) demux

  abbrev pub continue : Loop → Option (Item (State p e)) → Option (Item (State p e))
  continue loop none = none
  continue loop (some (failed demux)) = some (failed demux)
  continue loop (some (parsed true rest demux)) = some (parsed true rest demux)
  continue loop (some (parsed false rest demux)) = loop rest demux

  -- An item, and items up to an end marker or to the first that cannot be read; `none` is out of
  -- fuel.
  unfoldable mutual
    pub parse_item : ℕ → Loop
    parse_item zero bs demux = none
    parse_item (suc f) bs demux = parse_named (parse_items f) (get_string bs) demux

    pub parse_items : ℕ → Loop
    parse_items zero bs demux = none
    parse_items (suc f) bs demux = continue (parse_items f) (parse_item f bs demux)
