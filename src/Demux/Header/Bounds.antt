-- ===== src/Demux/Header/Bounds.antt =====
-- The header and the tag headers are read without a load from outside of the buffer.
use ubox_publisher.Common.{
  ℕ, ◌+◌, ◌≤◌, ◌≡◌, refl, ap, Bool, true, false, Option, none, some, ltb, leb, ◌==◌, if◌then◌else◌,
  length, take, drop, arith, le→leb, leb→le, ◌||◌,
}
use ubox_publisher.Common.Memory.{Bytes, load}
use ubox_publisher.Common.Options.{◌>>=◌}
use ubox_publisher.Gst.Platform.{Platform}
use ubox_publisher.Gst.Readers.{Readers, byte_of}
use ubox_publisher.Demux.State.{Demux, IndexOps}
use ubox_publisher.Demux.Header.{
  byte_at, read24, parse_tag_type, is_tag_size, keyframe_of, parse_tag_timestamp,
}

-- A value is there.
abbrev pub IsThere {ℓ} : {A : Type ℓ} → Option A → Type ℓ
IsThere {A} o = (a : A) × (o ≡ some a)

pub load-IsThere : (off n : ℕ) (bs : Bytes) → off + n ≤ length bs → IsThere (load off n bs)
unfolding load
load-IsThere off n bs h =
    let e = le→leb (off + n) (length bs) h in
    (take n (drop off bs), ap (λ b. if b then some (take n (drop off bs)) else none) e)

pub IsThere-bind {ℓ κ} :
    {A : Type ℓ} {B : Type κ} (m : Option A) (f : A → Option B)
    → IsThere m
    → ((a : A) → IsThere (f a))
    → IsThere (m >>= f)
IsThere-bind none f (a, e) hf = cc
IsThere-bind (some a) f h hf = hf a

pub if_IsThere :
    {A : Type 0} (b : Bool) (x y : Option A)
    → (b ≡ true → IsThere x)
    → (b ≡ false → IsThere y)
    → IsThere (if b then x else y)
if_IsThere true x y hx hy = hx refl
if_IsThere false x y hx hy = hy refl

module _ (p : Platform) (r : Readers p) (o : IndexOps) where
  open p use {Double}

  pub byte-IsThere : (off : ℕ) (bs : Bytes) → off + 1 ≤ length bs → IsThere (byte_at off bs)
  byte-IsThere off bs h = let (b, e) = load-IsThere off 1 bs h in (byte_of b, rw e refl)

  pub read24-IsThere : (off : ℕ) (bs : Bytes) → off + 3 ≤ length bs → IsThere (read24 p r o off bs)
  read24-IsThere off bs h = let (b, e) = load-IsThere off 3 bs h in (r.read_uint24_be b, rw e refl)

  is_tag_size-IsThere : (size : ℕ) (bs : Bytes) → IsThere (is_tag_size p r o size bs)
  is_tag_size-IsThere size bs =
      if_IsThere (leb (size + 11 + 4) (length bs)) _ _
        (λ e.
          let (b, f) = load-IsThere (size + 11) 4 bs (omega (arith, leb→le _ _ e)) in
          (r.read_uint32_be b == size + 11, rw f refl))
        (λ e. (true, refl))

  keyframe-IsThere : (type : ℕ) (bs : Bytes) → 12 ≤ length bs → IsThere (keyframe_of p r o type bs)
  keyframe-IsThere type bs h =
      if_IsThere (type == 9) _ _
        (λ e. IsThere-bind (byte_at 11 bs) _ (byte-IsThere 11 bs (omega arith)) (λ f. (_, refl)))
        (λ e. (true, refl))

  -- Whatever the buffer holds, gst_flv_demux_parse_tag_timestamp returns: none of its loads, the
  -- one of the size behind the tag included, is from outside of the buffer.
  pub parse_tag_timestamp-IsThere :
      (index : Bool) (bs : Bytes) (demux : Demux Double o.Index)
      → IsThere (parse_tag_timestamp p r o index bs demux)
  unfolding parse_tag_timestamp
  parse_tag_timestamp-IsThere index bs demux =
      if_IsThere (ltb (length bs) 12) _ _ (λ e. (_, refl))
        (λ e.
          let h : 12 ≤ length bs = ground arith in
          IsThere-bind (byte_at 0 bs) _ (byte-IsThere 0 bs (omega arith)) (λ type.
            IsThere-bind (read24 p r o 1 bs) _ (read24-IsThere 1 bs (omega arith)) (λ size.
              IsThere-bind (is_tag_size p r o size bs) _ (is_tag_size-IsThere size bs) (λ right.
                IsThere-bind (read24 p r o 4 bs) _ (read24-IsThere 4 bs (omega arith)) (λ low.
                  IsThere-bind (byte_at 7 bs) _ (byte-IsThere 7 bs (omega arith)) (λ high.
                    IsThere-bind (keyframe_of p r o type bs) _ (keyframe-IsThere type bs h)
                      (λ keyframe.
                        if_IsThere ((type == 9) || (type == 8) || (type == 18)) _ _
                          (λ known. if_IsThere right _ _ (λ x. (_, refl)) (λ x. (_, refl)))
                          (λ unknown. (_, refl)))))))))

  -- The same for the four bytes of a tag's type and size.
  pub parse_tag_type-IsThere :
      (bs : Bytes) (demux : Demux Double o.Index) → IsThere (parse_tag_type p r o bs demux)
  unfolding parse_tag_type
  parse_tag_type-IsThere bs demux =
      if_IsThere (ltb (length bs) 4) _ _ (λ e. (_, refl))
        (λ e.
          let h : 4 ≤ length bs = ground arith in
          IsThere-bind (byte_at 0 bs) _ (byte-IsThere 0 bs (omega arith)) (λ type.
            IsThere-bind (read24 p r o 1 bs) _ (read24-IsThere 1 bs (omega arith))
              (λ size. (_, refl))))
