-- ===== src/Demux/Metadata/Total.antt =====
-- gst_flv_demux_parse_tag_script returns, whatever the script tag holds.
use ubox_publisher.Common.{ℕ, ◌+◌, refl, Option, none, some, ltb, ◌==◌, length, drop, arith}
use ubox_publisher.Common.Memory.{Bytes, codes}
use ubox_publisher.Gst.Platform.{Platform}
use ubox_publisher.Demux.Env.{Env, same}
use ubox_publisher.Demux.Send.{State, clear_tags}
use ubox_publisher.Demux.Script.{get_string}
use ubox_publisher.Demux.Script.Total.{parse_items_total}
use ubox_publisher.Demux.Header.Bounds.{IsThere, if_IsThere, IsThere-bind}
use ubox_publisher.Demux.Metadata.{
  read_items, read_array, read_value, read_function, read_script, parse_tag_script,
}

module _ (p : Platform) (e : Env p) where
  read_items-IsThere : (bs : Bytes) (demux : State p e) → IsThere (read_items p e bs demux)
  unfolding read_items
  read_items-IsThere bs demux =
      let (i, q, s) = parse_items_total p e (length bs + 2) bs demux (omega arith) in
      IsThere-bind _ _ (i, q) (λ j. (_, refl))

  read_array-IsThere :
      (o : Option (ℕ × Bytes)) (demux : State p e) → IsThere (read_array p e o demux)
  read_array-IsThere none demux = (demux, refl)
  read_array-IsThere (some (n, rest)) demux = read_items-IsThere rest demux

  read_value-IsThere :
      (o : Option (ℕ × Bytes)) (demux : State p e) → IsThere (read_value p e o demux)
  unfolding read_value
  read_value-IsThere none demux = (demux, refl)
  read_value-IsThere (some (type, rest)) demux =
      if_IsThere (type == 8) _ _ (λ a. read_array-IsThere (e.readers.get_uint32_be rest) demux)
        (λ a. if_IsThere (type == 3) _ _ (λ b. read_items-IsThere rest demux) (λ b. (demux, refl)))

  read_function-IsThere :
      (o : Option (Bytes × Bytes)) (demux : State p e) → IsThere (read_function p e o demux)
  unfolding read_function
  read_function-IsThere none demux = (_, refl)
  read_function-IsThere (some (name, rest)) demux =
      if_IsThere (same name (codes "onMetaData")) _ _
        (λ a. read_value-IsThere (e.readers.get_uint8 rest) (clear_tags p e demux)) (λ a. (_, refl))

  read_script-IsThere :
      (o : Option (ℕ × Bytes)) (demux : State p e) → IsThere (read_script p e o demux)
  unfolding read_script
  read_script-IsThere none demux = (demux, refl)
  read_script-IsThere (some (type, rest)) demux =
      if_IsThere (type == 2) _ _ (λ a. read_function-IsThere (get_string p e rest) demux)
        (λ a. (demux, refl))

  -- The fuel that gst_flv_demux_parse_tag_script gives to the loops over items, two more than the
  -- bytes that are left, is enough for any script tag: objects may be nested, arrays may announce
  -- more values than there are, and the data may end anywhere.
  pub parse_tag_script-IsThere :
      (bs : Bytes) (demux : State p e) → IsThere (parse_tag_script p e bs demux)
  unfolding parse_tag_script
  parse_tag_script-IsThere bs demux =
      if_IsThere (ltb (length bs) 7) _ _ (λ a. (_, refl))
        (λ a.
          IsThere-bind _ _ (read_script-IsThere (e.readers.get_uint8 (drop 7 bs)) demux)
            (λ d. (_, refl)))
