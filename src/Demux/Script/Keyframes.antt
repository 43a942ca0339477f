-- ===== src/Demux/Script/Keyframes.antt =====
-- The index that the muxer writes into the metadata, as the demuxer reads it.
use ubox_publisher.Common.{
  ℕ, suc, ◌^◌, ◌<◌, ◌≡◌, refl, ap, ◌∙◌, Bool, true, false, some, List, [], ◌∷◌, ◌++◌, if◌then◌else◌,
  length, append_assoc, arith,
}
use ubox_publisher.Common.Memory.{Bytes, codes}
use ubox_publisher.Gst.Numbers.{be16, be24, be32}
use ubox_publisher.Gst.Platform.{Platform}
use ubox_publisher.Mux.State.{IndexEntry}
use ubox_publisher.Mux.Index.Layout.{values, times_head, positions_head, keyframes}
use ubox_publisher.Demux.Env.{Env}
use ubox_publisher.Demux.Send.{State}
use ubox_publisher.Demux.Script.{
  parsed, parse_flat, parse_value, parse_object, parse_item, parse_items, kind_of, start_array,
  add_element,
}
use ubox_publisher.Demux.Script.Reads.{IsReadable, get_uint32_be-be32}
use ubox_publisher.Demux.Script.Values.{
  map, parse_item_run, parse_elements-values, with_times, with_positions, times_added,
  positions_added,
}

module _ (p : Platform) (e : Env p) where
  open p use {Double}

  -- A strict array of doubles.
  array_item :
      (f : ℕ) (get : IndexEntry Double → Double) (name rest : Bytes) (put : List Double → State p e)
      (demux : State p e) (es : List (IndexEntry Double))
      → IsReadable p e name
      → start_array p e name demux ≡ put []
      → ((ds : List Double) (d : Double) → add_element p e name d (put ds) ≡ put (ds ++ (d ∷ [])))
      → length es < 2 ^ 32
      → parse_item p e
          (suc f)
          (be16 (length name) ++ (name ++ (10 ∷ (be32 (length es) ++ (values p get es ++ rest)))))
          demux
        ≡ some (parsed false rest (put (map get es)))
  unfolding kind_of parse_value parse_flat
  array_item f get name rest put demux es readable start add short =
      parse_item_run p e f 10 name (be32 (length es) ++ (values p get es ++ rest)) demux readable
      ∙ rw (get_uint32_be-be32 p e (length es) (values p get es ++ rest) short, start)
          (ap some (parse_elements-values p e get name put add es [] rest))

  end_item :
      (f : ℕ) (rest : Bytes) (demux : State p e)
      → IsReadable p e []
      → parse_item p e (suc f) (be24 9 ++ rest) demux ≡ some (parsed true rest demux)
  unfolding kind_of parse_value parse_flat
  end_item f rest demux readable = parse_item_run p e f 9 [] rest demux readable

  parse_items-parsed :
      (f : ℕ) (m : Bool) (bs rest : Bytes) (demux demux' : State p e)
      → parse_item p e f bs demux ≡ some (parsed m rest demux')
      → parse_items p e (suc f) bs demux
        ≡ (if m then some (parsed true rest demux') else parse_items p e f rest demux')
  unfolding parse_items
  parse_items-parsed f true bs rest demux demux' q = rw q refl
  parse_items-parsed f false bs rest demux demux' q = rw q refl

  -- The members of the keyframes object, up to its end marker.
  members_read :
      (f : ℕ) (es : List (IndexEntry Double)) (rest : Bytes) (demux : State p e)
      → IsReadable p e (codes "times")
      → IsReadable p e (codes "filepositions")
      → IsReadable p e []
      → length es < 2 ^ 32
      → parse_items p e
          (suc (suc (suc (suc f))))
          (be16 5
            ++ (codes "times"
                ++ (10
                    ∷ (be32 (length es)
                        ++ (values p (λ i. i.time) es
                            ++ (be16 13
                                ++ (codes "filepositions"
                                    ++ (10
                                        ∷ (be32 (length es)
                                            ++ (values p (λ i. i.position) es
                                                ++ (be24 9 ++ rest)))))))))))
          demux
        ≡ some (
            parsed true rest (
              with_positions p e
                (map (λ i. i.position) es)
                (with_times p e (map (λ i. i.time) es) demux)))
  unfolding start_array
  members_read f es rest demux ht hp hn short =
      let d1 = with_times p e (map (λ i. i.time) es) demux in
      let d2 = with_positions p e (map (λ i. i.position) es) d1 in
      parse_items-parsed (suc (suc (suc f))) false _ _ demux d1 (
        array_item (suc (suc f)) (λ i. i.time) (codes "times") _ (λ ds. with_times p e ds demux)
          demux es ht refl (times_added p e demux) short)
      ∙ parse_items-parsed (suc (suc f)) false _ _ d1 d2 (
          array_item (suc f) (λ i. i.position) (codes "filepositions") (be24 9 ++ rest)
            (λ ds. with_positions p e ds d1) d1 es hp refl (positions_added p e d1) short)
      ∙ parse_items-parsed (suc f) true _ _ d2 d2 (end_item f rest d2 hn)

  -- From the keyframes object that the muxer writes, with whatever stands behind it, the demuxer
  -- has the times and the positions of all the entries, in their order, where there is memory for
  -- the names and they are valid UTF-8. Nothing else of its state changes.
  pub parse_item-keyframes :
      (f : ℕ) (es : List (IndexEntry Double)) (rest : Bytes) (demux : State p e)
      → IsReadable p e (codes "keyframes")
      → IsReadable p e (codes "times")
      → IsReadable p e (codes "filepositions")
      → IsReadable p e []
      → length es < 2 ^ 32
      → parse_item p e (suc (suc (suc (suc (suc f))))) (keyframes p es ++ rest) demux
        ≡ some (
            parsed false rest (
              with_positions p e
                (map (λ i. i.position) es)
                (with_times p e (map (λ i. i.time) es) demux)))
  unfolding keyframes times_head positions_head kind_of parse_value parse_object
  parse_item-keyframes f es rest demux hk ht hp hn short =
      let times = values p (λ i. i.time) es in
      let positions = values p (λ i. i.position) es in
      rw
        (
          append_assoc times (positions_head (length es) ++ (positions ++ be24 9)) rest,
          append_assoc positions (be24 9) rest,
        )
        (parse_item_run p e (suc (suc (suc (suc f)))) 8 (codes "keyframes") _ demux hk
          ∙ rw (get_uint32_be-be32 p e 2 _ (omega arith)) (
              ap (λ o. parse_object p e (λ bs d. o) (some []) demux)
                (members_read f es rest demux ht hp hn short)))
