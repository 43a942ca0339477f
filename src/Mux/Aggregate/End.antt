-- ===== src/Mux/Aggregate/End.antt =====
-- gst_flv_mux_write_eos and gst_flv_mux_rewrite_header never fault.
use ubox_publisher.Common.{
  ℕ, ◌+◌, ◌^◌, ◌<◌, ◌≡◌, refl, ◌∙◌, false, Option, none, some, List, [], ◌∷◌, ◌++◌, length, reverse,
  reverse_aux, arith, if◌then◌else◌,
}
use ubox_publisher.Common.Memory.{Bytes, codes}
use ubox_publisher.Gst.Numbers.{is_valid, second}
use ubox_publisher.Gst.Data.{FlowReturn, ok, eos, new_buffer}
use ubox_publisher.Gst.Platform.{Platform}
use ubox_publisher.Mux.State.{Kind, video, MuxPad, Mux, IndexEntry, moved, ◌>>◌, pure, get_pad}
use ubox_publisher.Mux.Push.{Peers, push}
use ubox_publisher.Mux.Tag.{eos_to_tag}
use ubox_publisher.Mux.Script.{number_value, create_number_script_value-number_value}
use ubox_publisher.Mux.Index.{
  determine_duration, rewritten_numbers, index_part, rewrite, rewrite_header,
}
use ubox_publisher.Mux.Index.Fit.{index_with_filler_fits}
use ubox_publisher.Mux.Run.{are_all_pads_eos, write_eos_of, write_eos}
use ubox_publisher.Mux.Run.Emits.{
  total, Fits, Grows, Grows-trans, Emits, Emits-Fits, Returns, Returns-if, Returns-same, lift_bind,
  bind_lem, get_pad-same, Emitting, Emitting-bind, Growing-of,
}
use ubox_publisher.Mux.Run.Returns.{Emitting-pure, push-Emitting, buffer_to_tag_internal-Emitting}
use ubox_publisher.Mux.Aggregate.{finish}

length-reverse_aux {ℓ} :
    {A : Type ℓ} (xs ys : List A) → length (reverse_aux xs ys) ≡ length xs + length ys
length-reverse_aux [] ys = omega arith
length-reverse_aux (x ∷ xs) ys = omega (arith, length-reverse_aux xs (x ∷ ys))

module _ (p : Platform) (peers : Peers) where
  open p use {Double}

  write_eos_of-Emitting : (pad : Option MuxPad) → Emitting (write_eos_of p peers pad)
  unfolding eos_to_tag
  write_eos_of-Emitting none = Emitting-pure ok
  write_eos_of-Emitting (some pad) =
      Emitting-bind (eos_to_tag p video pad) (push peers)
        (buffer_to_tag_internal-Emitting p video pad none false (omega arith))
        (λ tag. push-Emitting peers tag)

  pub write_eos-Emitting : Emitting (write_eos p peers)
  unfolding write_eos
  write_eos-Emitting s h =
      Returns-same Emits (write_eos p peers) (write_eos_of p peers s.video_pad) s refl
        (write_eos_of-Emitting s.video_pad s h)

  rewritten_numbers_lem :
      (duration byte_count : ℕ)
      → (bytes : Bytes) × (rewritten_numbers p duration byte_count ≡ some bytes)
  unfolding rewritten_numbers
  rewritten_numbers_lem duration byte_count = (
    number_value p (codes "duration")
          (p.divide (p.uint64_to_double duration) (p.uint64_to_double second))
        ++ number_value p (codes "filesize") (p.uint64_to_double byte_count),
    ground (
      arith,
      create_number_script_value-number_value p (codes "duration")
          (p.divide (p.uint64_to_double duration) (p.uint64_to_double second)),
      create_number_script_value-number_value p (codes "filesize") (p.uint64_to_double byte_count),
    ),
  )

  index_part_lem :
      (entries : List (IndexEntry Double))
      → length entries < 2 ^ 31
      → (bytes : Bytes) × (index_part p entries ≡ some bytes)
  index_part_lem [] few = ([], refl)
  index_part_lem (e ∷ es) few = (_, (index_with_filler_fits p (e ∷ es) few).0)

  stay : (s : Mux Double) → Fits s → Returns Grows (λ m. some (ok, m)) s
  stay s h = Growing-of (pure ok) (Emitting-pure ok) s h

  -- The push at the end, after the segment event.
  push_rewritten :
      (bytes : Bytes) (s t : Mux Double)
      → Fits s
      → t.sent ≡ moved 42 ∷ s.sent
      → t.byte_count ≡ s.byte_count
      → t.last_dts ≡ s.last_dts
      → ((k : Kind) → get_pad k t ≡ get_pad k s)
      → (ret : FlowReturn) × (u : Mux Double) × (push peers (new_buffer bytes) t ≡ some (ret, u))
        × Grows s u
  unfolding total
  push_rewritten bytes s t h e b d g =
      let step : Grows s t = record {
        new = moved 42 ∷ [];
        sent_lem = e;
        byte_count_lem = omega arith;
        last_dts_le = omega arith;
        last_dts_lt = omega arith;
      } in
      let r =
        push-Emitting peers (new_buffer bytes) t
          (record { pads_fit = λ k. rw (g k) (h.pads_fit k); last_dts_fits = omega arith }) in
      (r.result, r.after, r.returns, Grows-trans s t r.after step r.related.grows)

  rewrite-Growing :
      (s : Mux Double) → Fits s → length s.index < 2 ^ 31 → Returns Grows (rewrite p peers) s
  unfolding rewrite
  rewrite-Growing s h few =
      let first : Mux Double = record s { sent = moved 42 ∷ s.sent } in
      let dur = determine_duration p first in
      let duration : ℕ = if is_valid dur then dur else s.duration in
      let s1 : Mux Double = record first { duration = duration } in
      let s2 : Mux Double = record s1 { index = reverse s.index } in
      let (numbers, e) = rewritten_numbers_lem duration s.byte_count in
      let (bytes, e') =
        index_part_lem (reverse s.index) (omega (arith, length-reverse_aux s.index [])) in
      let (ret, u, run, g) =
        push_rewritten (numbers ++ bytes) s s2 h refl refl refl (get_pad-same s s2 refl refl) in
      record {
        result = ret;
        after = u;
        returns =
            lift_bind _ (rewritten_numbers p duration s.byte_count) numbers s1 e
            ∙ lift_bind (λ b. push peers (new_buffer (numbers ++ b)))
                (index_part p (reverse s.index)) bytes s2 e'
            ∙ run;
        related = g;
      }

  pub rewrite_header-Growing :
      (s : Mux Double) → Fits s → length s.index < 2 ^ 31 → Returns Grows (rewrite_header p peers) s
  unfolding rewrite_header
  rewrite_header-Growing s h few = Returns-same Grows (rewrite_header p peers) _ s refl (
      Returns-if Grows s.streamable (λ m. some (ok, m)) _ s (stay s h)
        (Returns-if Grows (peers.accepts_segment s.sent) (rewrite p peers) (λ m. some (ok, m)) s
          (rewrite-Growing s h few) (stay s h)))

  -- What is done where no buffer is written.
  pub finish-Growing :
      (s : Mux Double) → Fits s → length s.index < 2 ^ 31 → Returns Grows (finish p peers) s
  unfolding finish
  finish-Growing s h few = Returns-same Grows (finish p peers) _ s refl (
      Returns-if Grows (are_all_pads_eos p peers s s.sinkpads) _ (λ m. some (ok, m)) s
        (ending s h few) (stay s h))
    where
      ending :
          (s : Mux Double)
          → Fits s
          → length s.index < 2 ^ 31
          → Returns Grows (write_eos p peers >> (rewrite_header p peers >> pure eos)) s
      ending s h few =
          let w = write_eos-Emitting s h in
          let small : length w.after.index < 2 ^ 31 = rw (w.related.same_index) few in
          let r = rewrite_header-Growing w.after (Emits-Fits s w.after h w.related) small in
          record {
            result = eos;
            after = r.after;
            returns =
                bind_lem (write_eos p peers) _ s w.after w.result w.returns
                ∙ bind_lem (rewrite_header p peers) (λ _. pure eos) w.after r.after r.result
                    r.returns;
            related = Grows-trans s w.after r.after w.related.grows r.related;
          }
