-- ===== src/Demux/Pull/Scan/Steps.antt =====
-- How far gst_flv_demux_parse_tag_timestamp says that the next tag is.
use ubox_publisher.Common.{
  ℕ, ◌+◌, ◌^◌, ◌≤◌, ◌<◌, ◌≡◌, refl, sym, Bool, true, false, ◌||◌, Option, none, some, [], ◌∷◌, ltb,
  ◌==◌, if◌then◌else◌, length, take, drop, leb, Bool-cases, inl, inr, subst, ap, ◌∙◌, leb→le,
  length-take, length-drop, All-take, All-drop, All, arith,
}
use mathlib.Core.Option.{some-injective, none-ne-some}
use ubox_publisher.Common.Memory.{Bytes, load}
use ubox_publisher.Common.Options.{◌>>=◌}
use ubox_publisher.Gst.Platform.{Platform}
use ubox_publisher.Gst.Readers.{Readers}
use ubox_publisher.Demux.State.{
  Demux, IndexOps, add_index_entry, add_if_new, parse_and_add_index_entry,
}
use ubox_publisher.Demux.Header.{
  byte_at, read24, Stamp, see_type, is_indexed, stamped, is_tag_size, keyframe_of, failed_stamp,
  parse_tag_timestamp,
}

abbrev pub AreBytes : Bytes → Type 0
AreBytes bs = All (λ b. b < 256) bs

-- The size of a tag with its 15 bytes around the data, which is of 24 bits.
unfoldable pub SizeFits : Option ℕ → Type 0
SizeFits none = Unit {0}
SizeFits (some size) = (15 ≤ size) × (size < 2 ^ 24 + 15)

module _ (p : Platform) (r : Readers p) (o : IndexOps) where
  open p use {Double}

  uint24_lt : (bs : Bytes) → length bs ≡ 3 → AreBytes bs → r.read_uint24_be bs < 2 ^ 24
  uint24_lt [] e h = absurd (omega arith)
  uint24_lt (a ∷ []) e h = absurd (omega arith)
  uint24_lt (a ∷ b ∷ []) e h = absurd (omega arith)
  uint24_lt (a ∷ b ∷ c ∷ []) e (ha, (hb, (hc, _))) = omega (arith, r.read_uint24_be_lem a b c)
  uint24_lt (a ∷ b ∷ c ∷ d ∷ bs) e h = absurd (omega arith)

  read24_lt : (bs : Bytes) (size : ℕ) → AreBytes bs → read24 p r o 1 bs ≡ some size → size < 2 ^ 24
  unfolding load
  read24_lt bs size h e = elim (Bool-cases (leb 4 (length bs))) [
    | inl l ↦
        let s : r.read_uint24_be (take 3 (drop 1 bs)) ≡ size = some-injective _ _ (
          sym (
            ap
              (λ b.
                (if b then some (take 3 (drop 1 bs)) else none)
                >>= (λ x. some (r.read_uint24_be x)))
              l)
          ∙ e) in
        let t : length (take 3 (drop 1 bs)) ≡ 3 =
          length-take 3 (drop 1 bs) (omega (arith, length-drop 1 bs, leb→le _ _ l)) in
        subst (λ n. n < 2 ^ 24) s (uint24_lt _ t (All-take _ 3 (drop 1 bs) (All-drop _ 1 bs h)))
    | inr l ↦ absurd (
        none-ne-some size (
          sym (
            ap
              (λ b.
                (if b then some (take 3 (drop 1 bs)) else none)
                >>= (λ x. some (r.read_uint24_be x)))
              l)
          ∙ e))
  ]

  unfoldable pub Steps : ℕ → Option (Stamp p r o) → Type 0
  Steps n none = Unit {0}
  Steps n (some stamp) = (stamp.demux.offset ≡ n) × SizeFits stamp.tag_size

  Steps-bind :
      {A : Type 0} (n : ℕ) (m : Option A) (f : A → Option (Stamp p r o))
      → ((a : A) → m ≡ some a → Steps n (f a))
      → Steps n (m >>= f)
  unfolding Steps
  Steps-bind n none f h = tt
  Steps-bind n (some a) f h = h a refl

  if_Steps :
      (n : ℕ) (b : Bool) (x y : Option (Stamp p r o))
      → Steps n x
      → Steps n y
      → Steps n (if b then x else y)
  if_Steps n true x y hx hy = hx
  if_Steps n false x y hx hy = hy

  if_offset :
      (n : ℕ) (b : Bool) (x y : Demux Double o.Index)
      → x.offset ≡ n
      → y.offset ≡ n
      → (if b then x else y).offset ≡ n
  if_offset n true x y hx hy = hx
  if_offset n false x y hx hy = hy

  add_if_new_offset :
      (ts pos : ℕ) (keyframe : Bool) (i : Option o.Index) (demux : Demux Double o.Index)
      → (add_if_new o ts pos keyframe i demux).offset ≡ demux.offset
  unfolding add_if_new add_index_entry
  add_if_new_offset ts pos keyframe none demux = refl
  add_if_new_offset ts pos keyframe (some i) demux =
      if_offset demux.offset (o.has_position i pos) demux _ refl refl

  add_entry_offset :
      (ts pos : ℕ) (keyframe : Bool) (demux : Demux Double o.Index)
      → (parse_and_add_index_entry o ts pos keyframe demux).offset ≡ demux.offset
  unfolding parse_and_add_index_entry
  add_entry_offset ts pos keyframe demux =
      if_offset demux.offset demux.upstream_seekable _ _
        (add_if_new_offset ts pos keyframe demux.index demux) refl

  see_type_offset :
      (type : ℕ) (demux : Demux Double o.Index) → (see_type p r o type demux).offset ≡ demux.offset
  see_type_offset type demux =
      if_offset demux.offset (type == 9) _ _ refl (if_offset demux.offset (type == 8) _ _ refl refl)

  stamped-Steps :
      (n : ℕ) (index : Bool) (type size : ℕ) (keyframe : Bool) (ts : ℕ)
      (demux : Demux Double o.Index)
      → demux.offset ≡ n
      → size < 2 ^ 24
      → Steps n (some (stamped p r o index type size keyframe ts demux))
  unfolding Steps SizeFits stamped
  stamped-Steps n index type size keyframe ts demux h l =
      let entered =
        if_offset demux.offset (is_indexed p r o index type demux) _ _
          (add_entry_offset ts demux.offset keyframe demux) refl in
      (if_offset n _ _ _ (entered ∙ h) (entered ∙ h), (omega arith, omega arith))

  failed-Steps :
      (n : ℕ) (demux : Demux Double o.Index)
      → demux.offset ≡ n
      → Steps n (some (failed_stamp p r o demux))
  unfolding Steps SizeFits
  failed-Steps n demux h = (h, tt)

  pub parse_tag_timestamp-Steps :
      (index : Bool) (bs : Bytes) (demux : Demux Double o.Index)
      → AreBytes bs
      → Steps demux.offset (parse_tag_timestamp p r o index bs demux)
  unfolding parse_tag_timestamp
  parse_tag_timestamp-Steps index bs demux h =
      let n = demux.offset in
      if_Steps n (ltb (length bs) 12) _ _ (failed-Steps n demux refl) (
        Steps-bind n (byte_at 0 bs) _ λ type _. Steps-bind n (read24 p r o 1 bs) _ λ size small.
          Steps-bind n (is_tag_size p r o size bs) _ λ right _.
            Steps-bind n (read24 p r o 4 bs) _ λ low _. Steps-bind n (byte_at 7 bs) _ λ high _.
              Steps-bind n (keyframe_of p r o type bs) _ λ keyframe _.
                if_Steps n ((type == 9) || (type == 8) || (type == 18)) _ _
                  (if_Steps n right _ _
                    (stamped-Steps n index type size keyframe _ _ (see_type_offset type demux)
                      (read24_lt bs size h small))
                    (failed-Steps n _ (see_type_offset type demux)))
                  (failed-Steps n demux refl))
