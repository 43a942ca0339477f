-- ===== src/Mux/Metadata/Whole.antt =====
-- The metadata as a whole: the script tag that gst_flv_mux_create_metadata returns.
use ubox_publisher.Common.{
  ℕ, ◌⊎◌, ◌+◌, ◌≤◌, ◌<◌, ◌≡◌, refl, sym, ap, ◌∙◌, true, false, Option, none, some, [], ◌++◌,
  append_assoc, append-nil, subst, if◌then◌else◌, length, arith, Bool-cases, inl, inr, ◌==◌,
}
use ubox_publisher.Common.Memory.{Bytes, codes}
use ubox_publisher.Common.Options.{◌>>=◌}
use ubox_publisher.Gst.Numbers.{clock_time_none}
use ubox_publisher.Gst.Platform.{Platform}
use ubox_publisher.Mux.State.{Kind, Mux}
use ubox_publisher.Mux.Push.{Peers}
use ubox_publisher.Mux.Script.{number_value}
use ubox_publisher.Mux.Metadata.{
  Script, put_string, put_placeholders, patch_duration, put_video, put_audio, put_details,
  create_metadata, put_tags, query_duration,
}
use ubox_publisher.Mux.Metadata.Sizes.{
  meta_head, script_tag, script_head-meta_head, length-meta_head, finish_script-script_tag,
  finish_script-none,
}
use ubox_publisher.Mux.Metadata.Values.{
  Starts, no_values, Counted, Values, Values-front, Keeps, Keeps-then, Keeps-put_string,
  Keeps-put_tags, Keeps-put_video, Keeps-put_audio,
}
use ubox_publisher.Mux.Metadata.Placeholders.{timed_head, placeholders_counted, patched_duration}

module _ (p : Platform) where
  open p use {Double}

  -- Everything between the two gotos but the duration.
  Keeps-details :
      (base : ℕ) (head : Bytes) (peers : Peers) (mux : Mux Double)
      → Keeps p base head 2 (λ s1.
        put_video p mux.video_pad (peers.current_caps Kind.video) s1 >>= λ s2.
        put_audio p mux.audio_pad s2 >>= λ s3.
        put_string p (codes "metadatacreator") mux.metadatacreator s3
        >>= put_string p (codes "creationdate") peers.creation_date)
  Keeps-details base head peers mux =
      Keeps-then p base head 0 2 (put_video p mux.video_pad (peers.current_caps Kind.video)) _
        (Keeps-put_video p base head mux.video_pad _)
        (Keeps-then p base head 0 2 (put_audio p mux.audio_pad) _
          (Keeps-put_audio p base head mux.audio_pad)
          (Keeps-then p base head 1 1 (put_string p (codes "metadatacreator") mux.metadatacreator) _
            (Keeps-put_string p base head _ _ (omega arith))
            (Keeps-put_string p base head _ _ (omega arith))))

  -- The duration that is known before it is patched.
  asked : Peers → Mux Double → Script → Script
  asked peers mux s = record s {
    duration =
        if s.duration == clock_time_none
        then query_duration peers.peer_duration mux.sinkpads s.duration
        else s.duration;
  }

  Starts-put_details :
      (base : ℕ) (head : Bytes) (peers : Peers) (mux : Mux Double) (s s' : Script) (rest : Bytes)
      → patch_duration p mux.streamable (asked peers mux s) ≡ some s'
      → s'.bytes ≡ head ++ rest
      → Counted p base s' rest
      → Starts p base head (s'.written + 2) 0 (put_details p peers mux s)
  unfolding put_details asked
  Starts-put_details base head peers mux s s' rest e b v =
      let (s3, r3, e3, b3, w3, l3, v3) = Keeps-details base head peers mux s' rest b v in
      (s3, r3, rw e e3, b3, w3, omega arith, v3)

  first : Mux Double → Script
  first mux = record { bytes = meta_head 0 (length mux.tags); written = 0; duration = mux.duration }

  -- The tag, the values behind its head, and its count of them.
  abbrev pub IsCounted : Peers → Mux Double → Type 0
  IsCounted peers mux =
      (written : ℕ) × (rest : Bytes) × (duration : ℕ) × (create_metadata p peers true mux
        ≡ some (some (script_tag written rest), duration))
      × (2 ≤ written)
      × Values p written rest

  conclude :
      (peers : Peers) (mux : Mux Double) (s1 s2 s3 : Script) (rest : Bytes)
      → put_placeholders p mux.streamable (first mux) ≡ some s1
      → put_tags p mux.tags s1 ≡ some s2
      → put_details p peers mux s2 ≡ some s3
      → s3.bytes ≡ meta_head 0 (length mux.tags) ++ rest
      → 2 ≤ s3.written
      → Values p s3.written rest
      → IsCounted peers mux
  unfolding create_metadata first
  conclude peers mux s1 s2 s3 rest e1 e2 e3 b w v =
      let n = length mux.tags in
      (
        s3.written,
        rest,
        s3.duration,
        rw (
          script_head-meta_head p n,
          e1,
          e2,
          e3,
          finish_script-script_tag p s3 n rest b (omega arith),
        ),
        w,
        v,
      )

  streamed : (peers : Peers) (mux : Mux Double) → mux.streamable ≡ true → IsCounted peers mux
  unfolding put_placeholders patch_duration first asked
  streamed peers mux q =
      let head = meta_head 0 (length mux.tags) in
      let s0 = first mux in
      let (s2, r2, e2, b2, w2, l2, v2) =
        Keeps-put_tags p 0 head mux.tags s0 [] (sym (append-nil head)) (0, (refl, no_values)) in
      let (s3, r3, e3, b3, w3, l3, (c, (w, v))) =
        Starts-put_details 0 head peers mux s2 (asked peers mux s2) r2
          (ap (λ b. patch_duration p b (asked peers mux s2)) q) b2 v2 in
      conclude peers mux s0 s2 s3 r3 (ap (λ b. put_placeholders p b s0) q) e2 e3 b3 (omega arith)
        (subst (λ k. Values p k r3) (omega (arith, w)) v)

  filed : (peers : Peers) (mux : Mux Double) → mux.streamable ≡ false → IsCounted peers mux
  unfolding timed_head first asked
  filed peers mux q =
      let head = meta_head 0 (length mux.tags) in
      let s0 = first mux in
      let old = p.uint64_to_double 86400 in
      let (s1, r1, e1, b1, w1, l1, v1) = placeholders_counted p head s0 refl in
      let (s2, r2, e2, b2, w2, l2, (c2, (k2, v2))) =
        Keeps-put_tags p 1 (timed_head p head old) mux.tags s1 r1 b1 v1 in
      let (new, (s', (e', (b', k')))) =
        patched_duration p head old (asked peers mux s2) r2 (length-meta_head p 0 (length mux.tags))
          b2 in
      let (s3, r3, e3, b3, w3, l3, (c, (w, v))) =
        Starts-put_details 1 (timed_head p head new) peers mux s2 s' r2
          (ap (λ b. patch_duration p b (asked peers mux s2)) q ∙ e') b' (c2, (k' ∙ k2, v2)) in
      conclude peers mux s1 s2 s3 (number_value p (codes "duration") new ++ r3)
        (ap (λ b. put_placeholders p b s0) q ∙ e1) e2 e3
        (b3 ∙ append_assoc head (number_value p (codes "duration") new) r3) (omega arith)
        (subst (λ k. Values p k (number_value p (codes "duration") new ++ r3)) (omega (arith, w))
          (Values-front p (codes "duration") new c r3 v))

  -- The full metadata never faults and is never NULL: it is a script tag whose header holds the size
  -- of its data, and the count of the numbers and strings behind it, of which there are two at least.
  -- The place of the index may be among them, which is not counted.
  pub create_metadata-script_tag : (peers : Peers) (mux : Mux Double) → IsCounted peers mux
  create_metadata-script_tag peers mux = elim (Bool-cases mux.streamable) [
    | inl q ↦ streamed peers mux q
    | inr q ↦ filed peers mux q
  ]

  -- The metadata for new tags faults never: there is nothing to write, or a script tag with a
  -- value at least.
  pub create_metadata-tags_only :
      (peers : Peers) (mux : Mux Double)
      → (tag : Option Bytes) × (duration : ℕ) × (create_metadata p peers false mux
          ≡ some (tag, duration))
        × ((tag ≡ none)
            ⊎ ((written : ℕ) × (rest : Bytes) × (0 < written)
                × (tag ≡ some (script_tag written rest))))
  unfolding create_metadata
  create_metadata-tags_only peers mux =
      let n = length mux.tags in
      let head = meta_head 0 n in
      let s0 : Script = record { bytes = head; written = 0; duration = mux.duration } in
      let (s2, r2, e2, b2, w2, l2, v2) =
        Keeps-put_tags p 0 head mux.tags s0 [] (sym (append-nil head)) (0, (refl, no_values)) in
      elim (Bool-cases (s2.written == 0)) [
        | inl z ↦ (
          none,
          s2.duration,
          rw (script_head-meta_head p n, e2, finish_script-none p s2 z),
          inl refl,
        )
        | inr w ↦
            let some_written : 0 < s2.written = ground arith in
            (
              some (script_tag s2.written r2),
              s2.duration,
              rw (
                script_head-meta_head p n,
                e2,
                finish_script-script_tag p s2 n r2 b2 some_written,
              ),
              inr (s2.written, r2, some_written, refl),
            )
      ]
