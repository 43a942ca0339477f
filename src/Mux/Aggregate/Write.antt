-- ===== src/Mux/Aggregate/Write.antt =====
-- gst_flv_mux_write_buffer, and the buffer that is popped before it.
use ubox_publisher.Common.{
  ℕ, ◌^◌, ◌<◌, ◌≡◌, refl, ap, ◌∙◌, subst, Bool, true, false, ◌&&◌, none, some, List, [], length,
  arith, if◌then◌else◌,
}
use ubox_publisher.Gst.Numbers.{is_valid}
use ubox_publisher.Gst.Data.{Buffer, FlowReturn, is_ok}
use ubox_publisher.Gst.Platform.{Platform}
use ubox_publisher.Mux.State.{
  Kind, MuxPad, Mux, IndexEntry, get_pad, set_pad, ◌>>=◌, ◌>>◌, pure, modify,
}
use ubox_publisher.Mux.Push.{Peers, push, running_time}
use ubox_publisher.Mux.Tag.{buffer_to_tag}
use ubox_publisher.Mux.Index.{is_video, update_index}
use ubox_publisher.Mux.Run.{BestPad, write_buffer}
use ubox_publisher.Mux.Run.Best.{Chosen}
use ubox_publisher.Mux.Run.Emits.{
  total, get_pad-same, BufferFits, PadFits, Fits, Grows, Grows-trans, Returns, Returns-if,
  Returns-same, bind_lem, Growing, Growing-of, Growing-bind, set_pad-Grows, set_pad-Fits,
  set_pad-index,
}
use ubox_publisher.Mux.Run.Returns.{Emitting-pure, push-Emitting, buffer_to_tag_internal-Emitting}
use ubox_publisher.Mux.Aggregate.{
  retime, pop_queued, pop_from, pop_best, too_large, finish, write_best,
}
use ubox_publisher.Mux.Aggregate.End.{finish-Growing}

module _ (p : Platform) (peers : Peers) where
  open p use {Double}

  abbrev Kept : Mux Double → Mux Double → Type 0
  Kept s t = Grows s t × Fits t

  Kept-if :
      (s : Mux Double) (b : Bool) (t u : Mux Double)
      → Kept s t
      → Kept s u
      → Kept s (if b then t else u)
  Kept-if s true t u kt ku = kt
  Kept-if s false t u kt ku = ku

  -- The index is not among what is sent, and not among the pads.
  Kept-index :
      (s : Mux Double) (index : List (IndexEntry Double))
      → Fits s
      → Kept s (record s { index = index })
  unfolding total
  Kept-index s index h = (
    record {
      new = [];
      sent_lem = refl;
      byte_count_lem = omega arith;
      last_dts_le = omega arith;
      last_dts_lt = h.last_dts_fits;
    },
    record {
      pads_fit = λ k. rw (get_pad-same s (record s { index = index }) refl refl k) (h.pads_fit k);
      last_dts_fits = h.last_dts_fits;
    },
  )

  index_step :
      (kind : Kind) (pad : MuxPad) (buffer : Buffer) (s : Mux Double)
      → Fits s
      → Kept s (if s.streamable then s else update_index p buffer kind pad s)
  unfolding update_index
  index_step kind pad buffer s h =
      let stays : Kept s s = Kept-index s s.index h in
      Kept-if s s.streamable s _ stays (
        Kept-if s (is_video kind && buffer.delta_unit) s _ stays
          (Kept-if s (is_valid buffer.pts) _ s (Kept-index s _ h) stays))

  last_step :
      (kind : Kind) (pad : MuxPad) (b : Bool) (ret : FlowReturn)
      → Growing
          (modify (λ (m : Mux Double). if b then set_pad kind (some pad) m else m) >> pure ret)
  last_step kind pad true ret s h = record {
    result = ret;
    after = set_pad kind (some pad) s;
    returns = refl;
    related = set_pad-Grows kind (some pad) s h;
  }
  last_step kind pad false ret s h = Growing-of (pure ret) (Emitting-pure ret) s h

  tag_step :
      (kind : Kind) (pad : MuxPad) (buffer : Buffer) (dts : ℕ)
      → BufferFits (some buffer)
      → Growing (do
        tag ← buffer_to_tag p kind pad buffer
        ret ← push peers tag
        modify (λ (m : Mux Double).
            if is_ok ret && is_valid dts
            then set_pad kind (some (record pad { last_timestamp = dts })) m
            else m)
        pure ret)
  unfolding buffer_to_tag
  tag_step kind pad buffer dts fits =
      Growing-bind (buffer_to_tag p kind pad buffer) _
        (buffer_to_tag_internal-Emitting p kind pad (some buffer) false fits)
        (λ tag. Growing-bind (push peers tag) _ (push-Emitting peers tag) (λ ret.
          last_step kind (record pad { last_timestamp = dts }) (is_ok ret && is_valid dts) ret))

  pub write_buffer-Growing :
      (kind : Kind) (pad : MuxPad) (buffer : Buffer)
      → BufferFits (some buffer)
      → Growing (write_buffer p peers kind pad buffer)
  unfolding write_buffer
  write_buffer-Growing kind pad buffer fits s h =
      let t : Mux Double = if s.streamable then s else update_index p buffer kind pad s in
      let (g, f) = index_step kind pad buffer s h in
      let r = tag_step kind pad buffer (running_time p pad.segment buffer.dts) fits t f in
      record {
        result = r.result;
        after = r.after;
        returns = r.returns;
        related = Grows-trans s t r.after g r.related;
      }

  -- A buffer is popped from a pad that holds one, and written unless its time is too large.
  write_popped :
      (k : Kind) (pad : MuxPad) (buffer : Buffer) (best_time : ℕ) (s : Mux Double)
      → BufferFits (some buffer)
      → Fits s
      → length s.index < 2 ^ 31
      → Returns Grows
          (write_best p peers
            (some (record { kind = k; pad = pad; buffer = buffer; best_time = best_time })))
          s
  unfolding write_best
  write_popped k pad buffer best_time s b h few =
      Returns-same Grows (write_best p peers (some _)) _ s refl (
        Returns-if Grows (too_large p peers s.streamable best_time) (finish p peers)
          (write_buffer p peers k pad buffer) s (finish-Growing p peers s h few)
          (write_buffer-Growing k pad buffer b s h))

  pop_best-pop_queued :
      (k : Kind) (pad : MuxPad) (buffer : Buffer) (s : Mux Double)
      → get_pad k s ≡ some pad
      → pad.queued ≡ some buffer
      → pop_best p peers (some k) s ≡ pop_queued p peers k pad (some buffer) s
  unfolding pop_best pop_from
  pop_best-pop_queued k pad buffer s g q =
      ap (λ o. pop_from p peers k o s) g ∙ ap (λ o. pop_queued p peers k pad o s) q

  retime_fits :
      (pad : MuxPad) (buffer : Buffer)
      → PadFits (some pad)
      → PadFits (some (retime p peers pad buffer))
  unfolding PadFits retime
  retime_fits pad buffer f = (omega arith, f.1)

  queued_fits :
      (pad : MuxPad) (buffer : Buffer)
      → PadFits (some pad)
      → pad.queued ≡ some buffer
      → BufferFits (some buffer)
  unfolding PadFits
  queued_fits pad buffer f q = subst BufferFits q f.0

  pub pop_write-Growing :
      (best : BestPad) (s : Mux Double)
      → Chosen p peers s best
      → Fits s
      → length s.index < 2 ^ 31
      → Returns Grows (pop_best p peers best.0 >>= write_best p peers) s
  unfolding Chosen pop_best write_best pop_queued
  pop_write-Growing (none, t) s c h few =
      Returns-same Grows (pop_best p peers none >>= write_best p peers) (finish p peers) s refl
        (finish-Growing p peers s h few)
  pop_write-Growing (some k, t) s (pad, buffer, g, q, _) h few =
      let pad' = retime p peers pad buffer in
      let s' = set_pad k (some pad') s in
      let pad_fits : PadFits (some pad) = subst PadFits g (h.pads_fit k) in
      let r =
        write_popped k pad' buffer _ s' (queued_fits pad buffer pad_fits q)
          (set_pad-Fits k (some pad') s (retime_fits pad buffer pad_fits) h)
          (rw set_pad-index few) in
      record {
        result = r.result;
        after = r.after;
        returns =
            bind_lem (pop_best p peers (some k)) (write_best p peers) s s' _
              (pop_best-pop_queued k pad buffer s g q)
            ∙ r.returns;
        related = Grows-trans s s' r.after (set_pad-Grows k (some pad') s h) r.related;
      }
