-- ===== src/Demux/Metadata.antt =====
-- gst_flv_demux_parse_tag_script.
pub mod Total
use ubox_publisher.Common.{
  ℕ, ◌+◌, Bool, true, false, ◌||◌, Option, none, some, List, [], ◌∷◌, ltb, ◌==◌, if◌then◌else◌,
  length, drop,
}
use ubox_publisher.Common.Memory.{Bytes, codes}
use ubox_publisher.Common.Options.{◌>>=◌}
use ubox_publisher.Gst.Data.{FlowReturn, ok, error}
use ubox_publisher.Gst.Platform.{Platform}
use ubox_publisher.Demux.State.{Demux, parse_and_add_index_entry}
use ubox_publisher.Demux.Env.{Env, same}
use ubox_publisher.Demux.Send.{State, push_tags, clear_tags}
use ubox_publisher.Demux.Script.{Item, failed, parsed, get_string, parse_items}

module _ (p : Platform) (e : Env p) where
  open p use {Double}

  -- The associations of an index in the metadata: a time in seconds with a position in bytes.
  unfoldable pub add_associations : List Double → List Double → State p e → State p e
  unfolding parse_and_add_index_entry
  add_associations [] positions demux = demux
  add_associations times [] demux = demux
  add_associations (t ∷ times) (position ∷ positions) demux = add_associations times positions (
      parse_and_add_index_entry e.index (e.readers.times_second t)
        (e.readers.double_to_uint64 position) true demux)

  abbrev pub add_if_both : Option (List Double) → Option (List Double) → State p e → State p e
  add_if_both (some times) (some positions) demux =
      record (add_associations times positions demux) { indexed = true }
  add_if_both _ _ demux = demux

  unfoldable pub insert_associations : State p e → State p e
  insert_associations demux = add_if_both demux.times demux.filepositions demux

  abbrev pub state_of : Item (State p e) → State p e
  state_of (failed demux) = demux
  state_of (parsed m rest demux) = demux

  -- The items, whether the last of them could be read or not, and the tags; then the index.
  unfoldable pub read_items : Bytes → State p e → Option (State p e)
  read_items bs demux = do
    i ← parse_items p e (length bs + 2) bs demux
    some (insert_associations (push_tags p e (state_of i)))

  abbrev pub read_array : Option (ℕ × Bytes) → State p e → Option (State p e)
  read_array none demux = some demux
  read_array (some (nb_elems, rest)) demux = read_items rest demux

  -- The value of onMetaData, for which the tags were cleared. Anything but an object or an array
  -- is left aside, and the index with it.
  unfoldable pub read_value : Option (ℕ × Bytes) → State p e → Option (State p e)
  read_value none demux = some demux
  read_value (some (type, rest)) demux =
      let from_array = read_array (e.readers.get_uint32_be rest) demux in
      let from_object = read_items rest demux in
      if type == 8 then from_array else if type == 3 then from_object else some demux

  -- The data behind the name of the function.
  unfoldable pub read_function : Option (Bytes × Bytes) → State p e → Option (State p e)
  unfolding clear_tags
  read_function none demux = some (insert_associations demux)
  read_function (some (name, rest)) demux =
      if same name (codes "onMetaData")
      then read_value (e.readers.get_uint8 rest) (clear_tags p e demux)
      else some (insert_associations demux)

  unfoldable pub read_script : Option (ℕ × Bytes) → State p e → Option (State p e)
  read_script none demux = some demux
  read_script (some (type, rest)) demux =
      if type == 2 then read_function (get_string p e rest) demux else some demux

  unfoldable pub parse_tag_script : Bytes → State p e → Option (FlowReturn × State p e)
  parse_tag_script bs demux =
      if ltb (length bs) 7
      then some (error, demux)
      else (do demux' ← read_script (e.readers.get_uint8 (drop 7 bs)) demux; some (ok, demux'))
