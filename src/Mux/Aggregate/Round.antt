-- ===== src/Mux/Aggregate/Round.antt =====
-- gst_flv_mux_aggregate: each of its rounds returns.
use ubox_publisher.Common.{
  ◌^◌, ◌<◌, ◌≡◌, refl, ◌∙◌, Bool, true, false, Option, none, some, length, arith,
}
use ubox_publisher.Common.Memory.{Bytes}
use ubox_publisher.Gst.Data.{FlowReturn, ok, error, is_ok, new_buffer}
use ubox_publisher.Gst.Platform.{Platform}
use ubox_publisher.Mux.State.{Mux, MuxState, header_state, data_state, ◌>>=◌, ◌>>◌, pure, modify}
use ubox_publisher.Mux.Push.{Peers, push}
use ubox_publisher.Mux.Run.{write_header, metadata_tag, find_best_pad}
use ubox_publisher.Mux.Run.Best.{find_best_pad-Chosen, Chosen-same}
use ubox_publisher.Mux.Run.Emits.{
  Fits, Grows, Grows-trans, Emits, Emits-Fits, Emits-same, Returns, Returns-if, Returns-same,
  bind_lem, Emitting, Emitting-bind, Growing-of,
}
use ubox_publisher.Mux.Run.Returns.{
  Emitting-pure, Emitting-modify, Emitting-if, push-Emitting, new_tags-Emitting,
}
use ubox_publisher.Mux.Run.Header.{write_header-Emitting}
use ubox_publisher.Mux.Aggregate.{
  is_empty, first_time, enter_data, start_in, start, push_if_any, push_new_tags, pop_best,
  write_best, mux_best, aggregate,
}
use ubox_publisher.Mux.Aggregate.Write.{pop_write-Growing}

module _ (p : Platform) (peers : Peers) where
  open p use {Double}

  enter_data-Emitting : (ret : FlowReturn) → Emitting (enter_data p peers ret)
  unfolding enter_data
  enter_data-Emitting ret =
      Emitting-if (is_ok ret) _ _
        (Emitting-bind _ _
          (Emitting-modify (λ m. record m { state = data_state })
            (λ s h. Emits-same s _ refl refl (omega arith) h.last_dts_fits refl refl refl refl))
          (λ _.
            Emitting-bind _ _
              (Emitting-modify
                (λ m. record m { first_timestamp = first_time p peers (find_best_pad p peers m) })
                (λ s h. Emits-same s _ refl refl (omega arith) h.last_dts_fits refl refl refl refl))
              (λ _. Emitting-pure (true, ok))))
        (Emitting-pure (false, ret))

  start_in-Emitting : (state : MuxState) → Emitting (start_in p peers state)
  unfolding start_in
  start_in-Emitting data_state s h = Emitting-pure (true, ok) s h
  start_in-Emitting header_state s h = Returns-same Emits (start_in p peers header_state) _ s refl (
      Returns-if Emits (is_empty s.sinkpads) (pure (false, error))
        (write_header p peers >>= enter_data p peers) s (Emitting-pure (false, error) s h)
        (Emitting-bind (write_header p peers) (enter_data p peers) (write_header-Emitting p peers)
          enter_data-Emitting s h))

  start-Emitting : Emitting (start p peers)
  start-Emitting s h =
      Returns-same Emits (start p peers) (start_in p peers s.state) s refl
        (start_in-Emitting s.state s h)

  push_if_any-Emitting : (tag : Option Bytes) → Emitting (push_if_any p peers tag)
  push_if_any-Emitting none = Emitting-pure tt
  push_if_any-Emitting (some bytes) =
      Emitting-bind (push peers (new_buffer bytes)) _ (push-Emitting peers (new_buffer bytes))
        (λ _. Emitting-pure tt)

  tags_sent-Emitting : Emitting (do
    tag ← metadata_tag p peers false
    push_if_any p peers tag
    modify (λ (m : Mux Double). record m { new_tags = false }))
  tags_sent-Emitting =
      Emitting-bind (metadata_tag p peers false) _ (new_tags-Emitting p peers) (λ tag.
        Emitting-bind (push_if_any p peers tag) _ (push_if_any-Emitting tag) (λ _.
          Emitting-modify _
            (λ s h. Emits-same s _ refl refl (omega arith) h.last_dts_fits refl refl refl refl)))

  push_new_tags-Emitting : Emitting (push_new_tags p peers)
  unfolding push_new_tags
  push_new_tags-Emitting s h =
      Returns-same Emits (push_new_tags p peers) _ s refl
        (Returns-if Emits s.new_tags _ (pure tt) s (tags_sent-Emitting s h) (Emitting-pure tt s h))

  mux_best-Growing :
      (started : Bool × FlowReturn) (s : Mux Double)
      → Fits s
      → length s.index < 2 ^ 31
      → Returns Grows (mux_best p peers started) s
  unfolding mux_best
  mux_best-Growing (false, ret) s h few = Growing-of (pure ret) (Emitting-pure ret) s h
  mux_best-Growing (true, _) s h few =
      let best = find_best_pad p peers s in
      let tags = push_new_tags-Emitting s h in
      let t = tags.after in
      let r =
        pop_write-Growing p peers best t
          (Chosen-same p peers s t best tags.related.same_pads (find_best_pad-Chosen p peers s))
          (Emits-Fits s t h tags.related) (rw (tags.related.same_index) few) in
      record {
        result = r.result;
        after = r.after;
        returns =
            bind_lem (push_new_tags p peers) (λ _. pop_best p peers best.0 >>= write_best p peers) s
              t tags.result tags.returns
            ∙ r.returns;
        related = Grows-trans s t r.after tags.related.grows r.related;
      }

  -- A round returns, whatever the neighbours answer, where a tag around each queued buffer and
  -- each codec data fits into 32 bits, mux->last_dts is below 2 ^ 32 and the index is shorter than
  -- 2 ^ 31: no store leaves its block, the pad to pop from has a buffer, and the metadata of the
  -- header is not NULL. What the round sends comes behind what was sent, byte_count grows by its
  -- bytes up to wrap-around, and last_dts does not go back and is below 2 ^ 32 again.
  pub aggregate-Grows :
      (s : Mux Double)
      → Fits s
      → length s.index < 2 ^ 31
      → (ret : FlowReturn) × (s' : Mux Double) × (aggregate p peers s ≡ some (ret, s')) × Grows s s'
  unfolding aggregate
  aggregate-Grows s h few =
      let first = start-Emitting s h in
      let t = first.after in
      let r =
        mux_best-Growing first.result t (Emits-Fits s t h first.related)
          (rw (first.related.same_index) few) in
      (
        r.result,
        r.after,
        bind_lem (start p peers) (mux_best p peers) s t first.result first.returns ∙ r.returns,
        Grows-trans s t r.after first.related.grows r.related,
      )
