-- ===== src/Demux/Script/Values.antt =====
-- The values that the muxer writes into the metadata, as the demuxer reads them.
use ubox_publisher.Common.{
  ℕ, suc, ◌≡◌, refl, sym, ap, ◌∙◌, false, some, List, [], ◌∷◌, ◌++◌, length, append-nil,
  append_assoc,
}
use ubox_publisher.Common.Memory.{Bytes, codes}
use ubox_publisher.Gst.Numbers.{be16}
use ubox_publisher.Gst.Platform.{Platform}
use ubox_publisher.Mux.State.{IndexEntry}
use ubox_publisher.Mux.Script.{number_value, string_value}
use ubox_publisher.Mux.Index.Layout.{values}
use ubox_publisher.Demux.Env.{Env}
use ubox_publisher.Demux.Send.{State}
use ubox_publisher.Demux.Script.{
  parsed, parse_elements, parse_flat, parse_value, parse_item, parse_items, kind_of, set_number,
  set_string, add_element,
}
use ubox_publisher.Demux.Script.Reads.{
  IsReadable, get_uint8-cons, get_float64_be-write_double_be, get_string-be16,
}

abbrev pub map {ℓ κ} : {A : Type ℓ} {B : Type κ} → (A → B) → List A → List B
map f [] = []
map f (x ∷ xs) = f x ∷ map f xs

module _ (p : Platform) (e : Env p) where
  open p use {Double}
  open e use {readers}

  -- An item is its name, the type of its value, and the value.
  pub parse_item_run :
      (f type : ℕ) (name value : Bytes) (demux : State p e)
      → IsReadable p e name
      → parse_item p e (suc f) (be16 (length name) ++ (name ++ (type ∷ value))) demux
        ≡ parse_value p e (parse_items p e f) (kind_of type) name value demux
  unfolding parse_item
  parse_item_run f type name value demux h =
      rw (get_string-be16 p e name (type ∷ value) h, get_uint8-cons p e type value) refl

  -- The demuxer reads back a number under its name.
  pub parse_item-number_value :
      (f : ℕ) (name rest : Bytes) (value : Double) (demux : State p e)
      → IsReadable p e name
      → parse_item p e (suc f) (number_value p name value ++ rest) demux
        ≡ some (parsed false rest (set_number p e name value demux))
  unfolding number_value kind_of parse_value parse_flat
  parse_item-number_value f name rest value demux h =
      ap (λ bs. parse_item p e (suc f) (be16 (length name) ++ bs) demux)
        (append_assoc name (0 ∷ p.write_double_be value) rest)
      ∙ parse_item_run f 0 name (p.write_double_be value ++ rest) demux h
      ∙ rw (get_float64_be-write_double_be p e value rest) refl

  pub parse_item-string_value :
      (f : ℕ) (name value rest : Bytes) (demux : State p e)
      → IsReadable p e name
      → IsReadable p e value
      → parse_item p e (suc f) (string_value name value ++ rest) demux
        ≡ some (parsed false rest (set_string p e name value demux))
  unfolding string_value kind_of parse_value parse_flat
  parse_item-string_value f name value rest demux h hv =
      ap (λ bs. parse_item p e (suc f) (be16 (length name) ++ bs) demux)
        (append_assoc name (2 ∷ (be16 (length value) ++ value)) rest)
      ∙ parse_item_run f 2 name (be16 (length value) ++ (value ++ rest)) demux h
      ∙ rw (get_string-be16 p e value rest hv) refl

  -- The loop over an array's values puts them behind those that were there.
  pub parse_elements-values :
      (get : IndexEntry Double → Double) (name : Bytes) (put : List Double → State p e)
      → ((ds : List Double) (d : Double) → add_element p e name d (put ds) ≡ put (ds ++ (d ∷ [])))
      → (es : List (IndexEntry Double)) (ds : List Double) (rest : Bytes)
      → parse_elements p e (length es) name (values p get es ++ rest) (put ds)
        ≡ parsed false rest (put (ds ++ map get es))
  unfolding parse_elements values
  parse_elements-values get name put h [] ds rest =
      ap (λ x. parsed false rest (put x)) (sym (append-nil ds))
  parse_elements-values get name put h (entry ∷ es) ds rest =
      let d = get entry in
      let next : Bytes = values p get es ++ rest in
      let one_by_one : (ds ++ (d ∷ [])) ++ map get es ≡ ds ++ (d ∷ map get es) =
        append_assoc ds (d ∷ []) (map get es) in
      rw
        (
          append_assoc (p.write_double_be d) (values p get es) rest,
          get_uint8-cons p e 0 (p.write_double_be d ++ next),
          get_float64_be-write_double_be p e d next,
          h ds d,
        )
        (parse_elements-values get name put h es (ds ++ (d ∷ [])) rest
          ∙ ap (λ x. parsed false rest (put x)) one_by_one)

  abbrev pub with_times : List Double → State p e → State p e
  with_times ds demux = record demux { times = some ds }

  abbrev pub with_positions : List Double → State p e → State p e
  with_positions ds demux = record demux { filepositions = some ds }

  pub times_added :
      (demux : State p e) (ds : List Double) (d : Double)
      → add_element p e (codes "times") d (with_times ds demux) ≡ with_times (ds ++ (d ∷ [])) demux
  unfolding add_element
  times_added demux ds d = refl

  pub positions_added :
      (demux : State p e) (ds : List Double) (d : Double)
      → add_element p e (codes "filepositions") d (with_positions ds demux)
        ≡ with_positions (ds ++ (d ∷ [])) demux
  unfolding add_element
  positions_added demux ds d = refl
