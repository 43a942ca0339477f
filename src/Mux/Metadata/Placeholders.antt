-- ===== src/Mux/Metadata/Placeholders.antt =====
-- What stands for the duration, the size and the index of a file in its metadata until its end.
use ubox_publisher.Common.{
  ◌+◌, ◌-◌, ◌≡◌, refl, sym, ap, ◌∙◌, false, some, [], ◌∷◌, ◌++◌, append_assoc, length,
  length-append, arith, Bool-cases, inl, inr,
}
use ubox_publisher.Common.Memory.{Bytes, store, store-append, codes}
use ubox_publisher.Gst.Numbers.{is_valid, be16}
use ubox_publisher.Gst.Platform.{Platform}
use ubox_publisher.Mux.Script.{
  preallocate_size, filler, number_value, preallocate_index-filler,
  create_number_script_value-number_value,
}
use ubox_publisher.Mux.Metadata.{
  Script, append, append_tag, seconds, put_number, put_placeholders, patch_duration,
}
use ubox_publisher.Mux.Metadata.Values.{Starts, no_values, then_number, then_place}

module _ (p : Platform) where
  open p use {Double}

  -- The three values that are rewritten at the end.
  put_placeholders_lem :
      (s : Script)
      → put_placeholders p false s
        ≡ some (
            append
              (append_tag
                (append_tag s (number_value p (codes "duration") (p.uint64_to_double 86400)))
                (number_value p (codes "filesize") (p.uint64_to_double 0)))
              (filler (preallocate_size - 14)))
  unfolding put_placeholders put_number
  put_placeholders_lem s = rw (
    create_number_script_value-number_value, create_number_script_value-number_value,
    preallocate_index-filler,
  )

  -- The head with the duration behind it, whose place is in the head then.
  unfoldable pub timed_head : Bytes → Double → Bytes
  timed_head head d = head ++ number_value p (codes "duration") d

  pub placeholders_counted :
      (head : Bytes) (s : Script)
      → s.bytes ≡ head
      → Starts p
          (s.written + 1)
          (timed_head head (p.uint64_to_double 86400))
          (s.written + 2)
          0
          (put_placeholders p false s)
  unfolding timed_head
  placeholders_counted head s b =
      let dur = number_value p (codes "duration") (p.uint64_to_double 86400) in
      let size = number_value p (codes "filesize") (p.uint64_to_double 0) in
      let fill = filler (preallocate_size - 14) in
      (
        append (append_tag (append_tag s dur) size) fill,
        size ++ fill,
        put_placeholders_lem s,
        ap (λ (x : Bytes). ((x ++ dur) ++ size) ++ fill) b ∙ append_assoc (head ++ dur) size fill,
        omega arith,
        omega arith,
        (
          1,
          (
            omega arith,
            then_place 1 size
                (then_number 0 [] (codes "filesize") (p.uint64_to_double 0) no_values),
          ),
        ),
      )

  -- The duration is the last eight bytes of its value.
  pub patched_duration :
      (head : Bytes) (d : Double) (s : Script) (rest : Bytes)
      → length head ≡ 29
      → s.bytes ≡ timed_head head d ++ rest
      → (d' : Double) × ((s' : Script) × ((patch_duration p false s ≡ some s')
            × ((s'.bytes ≡ timed_head head d' ++ rest) × (s'.written ≡ s.written))))
  unfolding patch_duration timed_head number_value
  patched_duration head d s rest hh b = elim (Bool-cases (is_valid s.duration)) [
    | inr e ↦ rw e (d, (s, (refl, (b, refl))))
    | inl e ↦ rw e (
        rw patched (
          seconds p s.duration,
          (
            record s { bytes = _ },
            (refl, (regroup (p.write_double_be (seconds p s.duration)), refl)),
          ),
        ))
  ]
    where
      front : Bytes
      front = be16 8 ++ (codes "duration" ++ (0 ∷ []))

      regroup :
          (x : Bytes)
          → (head ++ front) ++ (x ++ rest)
            ≡ (head ++ (be16 8 ++ (codes "duration" ++ (0 ∷ x)))) ++ rest
      regroup x =
          append_assoc head front (x ++ rest)
          ∙ sym (append_assoc head (be16 8 ++ (codes "duration" ++ (0 ∷ x))) rest)

      patched :
          store 40 (p.write_double_be (seconds p s.duration)) s.bytes
          ≡ some ((head ++ front) ++ (p.write_double_be (seconds p s.duration) ++ rest))
      patched = rw (b ∙ sym (regroup (p.write_double_be d))) (
          store-append 40 (p.write_double_be (seconds p s.duration)) (head ++ front)
            (p.write_double_be d) rest (omega (arith, length-append head front))
            (p.length-write_double_be d ∙ sym (p.length-write_double_be (seconds p s.duration))))
