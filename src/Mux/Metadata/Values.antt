-- ===== src/Mux/Metadata/Values.antt =====
-- The values of the metadata: each step appends to the tag, or rewrites the place of the duration,
-- and none of them faults.
use ubox_publisher.Common.{
  ℕ, ◌+◌, ◌≤◌, ◌<◌, ◌≡◌, refl, sym, subst, ap, ◌∙◌, Option, none, some, List, [], ◌∷◌, ◌++◌,
  append_assoc, append-nil, ◌-◌, length, length-append, arith, Bool-cases, inl, inr,
}
use ubox_publisher.Common.Memory.{Bytes, codes}
use ubox_publisher.Common.Options.{◌>>=◌}
use ubox_publisher.Gst.Numbers.{ℤ}
use ubox_publisher.Gst.Data.{Tag, Caps}
use ubox_publisher.Gst.Platform.{Platform}
use ubox_publisher.Mux.State.{MuxPad}
use ubox_publisher.Mux.Script.{
  have_pad, filler, preallocate_size, string_value, number_value,
  create_number_script_value-number_value, create_string_script_value-string_value,
}
use ubox_publisher.Mux.Metadata.{
  Script, append_tag, put_number, put_string, put_tag, put_tags, put_int, put_aspect_ratio,
  put_framerate, put_caps, put_video, put_audio,
}

-- Bytes with `n` counted values, each a number or a string behind its name. The place of the index is
-- among them without being counted.
pub data Values (p : Platform) : ℕ → Bytes → Type 0 where
  no_values : Values p 0 []
  then_number :
      (n : ℕ) (bs name : Bytes) (value : p.Double)
      → Values p n bs
      → Values p (n + 1) (bs ++ number_value p name value)
  then_string :
      (n : ℕ) (bs name value : Bytes)
      → Values p n bs
      → Values p (n + 1) (bs ++ string_value name value)
  then_place :
      (n : ℕ) (bs : Bytes) → Values p n bs → Values p n (bs ++ filler (preallocate_size - 14))

-- The bytes hold what was counted from `base` on.
abbrev pub Counted : Platform → ℕ → Script → Bytes → Type 0
Counted p base s rest = (c : ℕ) × ((s.written ≡ base + c) × Values p c rest)

-- The step succeeds with a tag that begins with `head`, holds `k` bytes more at least, counts `n`
-- values at least, and of these the ones behind `head` from `base` on.
abbrev pub Starts : Platform → ℕ → Bytes → ℕ → ℕ → Option Script → Type 0
Starts p base head n k o =
    (s : Script) × (rest : Bytes) × (o ≡ some s)
    × (s.bytes ≡ head ++ rest)
    × (n ≤ s.written)
    × (k ≤ length rest)
    × Counted p base s rest

-- A step that keeps the beginning, the length and the count, whatever they are, and adds `n`.
abbrev pub Keeps : Platform → ℕ → Bytes → ℕ → (Script → Option Script) → Type 0
Keeps p base head n f =
    (s : Script) (rest : Bytes)
    → s.bytes ≡ head ++ rest
    → Counted p base s rest
    → Starts p base head (s.written + n) (length rest) (f s)

module _ (p : Platform) where
  open p use {Double}

  -- A number in front of values is one more of them.
  pub Values-front :
      (name : Bytes) (value : Double) (n : ℕ) (bs : Bytes)
      → Values p n bs
      → Values p (n + 1) (number_value p name value ++ bs)
  Values-front name value n _ no_values =
      subst (Values p 1) (sym (append-nil (number_value p name value)))
        (then_number 0 [] name value no_values)
  Values-front name value _ _ (then_number n bs name' value' v) =
      subst (Values p (n + 1 + 1))
        (append_assoc (number_value p name value) bs (number_value p name' value'))
        (then_number (n + 1) _ name' value' (Values-front name value n bs v))
  Values-front name value _ _ (then_string n bs name' value' v) =
      subst (Values p (n + 1 + 1))
        (append_assoc (number_value p name value) bs (string_value name' value'))
        (then_string (n + 1) _ name' value' (Values-front name value n bs v))
  Values-front name value _ _ (then_place n bs v) =
      subst (Values p (n + 1))
        (append_assoc (number_value p name value) bs (filler (preallocate_size - 14)))
        (then_place (n + 1) _ (Values-front name value n bs v))

module _ (p : Platform) (base : ℕ) (head : Bytes) where
  pub Starts-weaken :
      (n m k j : ℕ) (o : Option Script)
      → m ≤ n
      → j ≤ k
      → Starts p base head n k o
      → Starts p base head m j o
  Starts-weaken n m k j o hm hj (s, rest, e, b, w, l, v) =
      (s, rest, e, b, omega arith, omega arith, v)

  pub Starts-bind :
      (n m k : ℕ) (o : Option Script) (f : Script → Option Script)
      → Starts p base head n k o
      → Keeps p base head m f
      → Starts p base head (n + m) k (o >>= f)
  Starts-bind n m k o f (s, rest, e, b, w, l, v) keep =
      let (s', rest', e', b', w', l', v') = keep s rest b v in
      (s', rest', rw e e', b', omega arith, omega arith, v')

  pub Keeps-pure :
      (s : Script) (rest : Bytes)
      → s.bytes ≡ head ++ rest
      → Counted p base s rest
      → Starts p base head (s.written + 0) (length rest) (some s)
  Keeps-pure s rest b v = (s, rest, refl, b, omega arith, omega arith, v)

  appended :
      (s : Script) (rest block : Bytes)
      → s.bytes ≡ head ++ rest
      → s.bytes ++ block ≡ head ++ (rest ++ block)
  appended s rest block b = ap (λ x. x ++ block) b ∙ append_assoc head rest block

  Starts-append_tag :
      (s : Script) (rest block : Bytes)
      → s.bytes ≡ head ++ rest
      → (c : ℕ) → s.written ≡ base + c
      → Values p (c + 1) (rest ++ block)
      → Starts p base head (s.written + 1) (length rest) (some (append_tag s block))
  Starts-append_tag s rest block b c w v = (
    append_tag s block,
    rest ++ block,
    refl,
    appended s rest block b,
    omega arith,
    omega (arith, length-append rest block),
    (c + 1, (omega arith, v)),
  )

module _ (p : Platform) (base : ℕ) (head : Bytes) where
  open p use {Double}

  Keeps-put_number : (name : Bytes) (value : Double) → Keeps p base head 1 (put_number p name value)
  unfolding put_number
  Keeps-put_number name value s rest b (c, (w, v)) =
      rw (create_number_script_value-number_value p name value) (
        Starts-append_tag p base head s rest (number_value p name value) b c w
          (then_number c rest name value v))

  pub Keeps-put_string :
      (name value : Bytes) → length name < 256 → Keeps p base head 1 (put_string p name value)
  unfolding put_string
  Keeps-put_string name value h s rest b (c, (w, v)) =
      rw (create_string_script_value-string_value p name value h) (
        Starts-append_tag p base head s rest (string_value name value) b c w
          (then_string c rest name value v))

module _ (p : Platform) (base : ℕ) (head : Bytes) where
  pub Keeps-then :
      (n m : ℕ) (f g : Script → Option Script)
      → Keeps p base head n f
      → Keeps p base head m g
      → Keeps p base head (n + m) (λ s. f s >>= g)
  Keeps-then n m f g kf kg s rest b v =
      Starts-weaken p base head (s.written + n + m) _ (length rest) _ (f s >>= g) (omega arith)
        (omega arith)
        (Starts-bind p base head (s.written + n) m (length rest) (f s) g (kf s rest b v) kg)

  pub Keeps-loosen :
      (n : ℕ) (f : Script → Option Script) → Keeps p base head n f → Keeps p base head 0 f
  Keeps-loosen n f kf s rest b v =
      Starts-weaken p base head (s.written + n) _ (length rest) _ (f s) (omega arith) (omega arith)
        (kf s rest b v)

  Keeps-then_0 :
      (f g : Script → Option Script)
      → Keeps p base head 0 f
      → Keeps p base head 0 g
      → Keeps p base head 0 (λ s. f s >>= g)
  Keeps-then_0 f g kf kg = Keeps-loosen (0 + 0) _ (Keeps-then 0 0 f g kf kg)

module _ (p : Platform) (base : ℕ) (head : Bytes) where
  open p use {Double}

  Keeps-number : (name : Bytes) (value : Double) → Keeps p base head 0 (put_number p name value)
  Keeps-number name value = Keeps-loosen p base head 1 _ (Keeps-put_number p base head name value)

  Keeps-put_tag : (t : Tag) → Keeps p base head 0 (put_tag p t)
  unfolding put_tag
  Keeps-put_tag (Tag.duration none) s rest b v' = Keeps-pure p base head s rest b v'
  Keeps-put_tag (Tag.duration (some d)) s rest b v' =
      Keeps-pure p base head (record s { duration = d }) rest b v'
  Keeps-put_tag (Tag.artist none) s rest b v' = Keeps-pure p base head s rest b v'
  Keeps-put_tag (Tag.artist (some v)) s rest b v' =
      Keeps-loosen p base head 1 _ (Keeps-put_string p base head (codes "creator") v (omega arith))
        s rest b v'
  Keeps-put_tag (Tag.title none) s rest b v' = Keeps-pure p base head s rest b v'
  Keeps-put_tag (Tag.title (some v)) s rest b v' =
      Keeps-loosen p base head 1 _ (Keeps-put_string p base head (codes "title") v (omega arith)) s
        rest b v'
  Keeps-put_tag _ s rest b v' = Keeps-pure p base head s rest b v'

  pub Keeps-put_tags : (ts : List Tag) → Keeps p base head 0 (put_tags p ts)
  unfolding put_tags
  Keeps-put_tags [] = Keeps-pure p base head
  Keeps-put_tags (t ∷ ts) =
      Keeps-then_0 p base head (put_tag p t) (put_tags p ts) (Keeps-put_tag t) (Keeps-put_tags ts)

  Keeps-put_int : (name : Bytes) (v : Option ℤ) → Keeps p base head 0 (put_int p name v)
  unfolding put_int
  Keeps-put_int name none = Keeps-pure p base head
  Keeps-put_int name (some v) = Keeps-number name (p.int_to_double v)

  Keeps-put_aspect_ratio : (v : Option (ℤ × ℤ)) → Keeps p base head 0 (put_aspect_ratio p v)
  unfolding put_aspect_ratio
  Keeps-put_aspect_ratio none = Keeps-pure p base head
  Keeps-put_aspect_ratio (some (num, den)) =
      Keeps-then_0 p base head (put_number p (codes "AspectRatioX") (p.int_to_double num)) _
        (Keeps-number _ _) (Keeps-number _ _)

  Keeps-put_framerate : (v : Option (ℤ × ℤ)) → Keeps p base head 0 (put_framerate p v)
  unfolding put_framerate
  Keeps-put_framerate none = Keeps-pure p base head
  Keeps-put_framerate (some (num, den)) = Keeps-number _ _

  Keeps-put_caps : (pad : MuxPad) (caps : Option Caps) → Keeps p base head 0 (put_caps p pad caps)
  unfolding put_caps
  Keeps-put_caps pad none = Keeps-pure p base head
  Keeps-put_caps pad (some caps) =
      Keeps-then_0 p base head (put_number p (codes "videocodecid") (p.uint64_to_double pad.codec))
        _ (Keeps-number _ _)
        (Keeps-then_0 p base head (put_int p (codes "width") caps.width) _
          (Keeps-put_int _ caps.width)
          (Keeps-then_0 p base head (put_int p (codes "height") caps.height) _
            (Keeps-put_int _ caps.height)
            (Keeps-then_0 p base head (put_aspect_ratio p caps.pixel_aspect_ratio) _
              (Keeps-put_aspect_ratio caps.pixel_aspect_ratio)
              (Keeps-then_0 p base head (put_framerate p caps.framerate) _
                (Keeps-put_framerate caps.framerate) (Keeps-number _ _)))))

  pub Keeps-put_video :
      (pad : Option MuxPad) (caps : Option Caps) → Keeps p base head 0 (put_video p pad caps)
  unfolding put_video
  Keeps-put_video none caps s rest b v' = Keeps-pure p base head s rest b v'
  Keeps-put_video (some pad) caps s rest b v' = elim (Bool-cases (have_pad (some pad))) [
    | inl e ↦ rw e (Keeps-put_caps pad caps s rest b v')
    | inr e ↦ rw e (Keeps-pure p base head s rest b v')
  ]

  pub Keeps-put_audio : (pad : Option MuxPad) → Keeps p base head 0 (put_audio p pad)
  unfolding put_audio
  Keeps-put_audio none s rest b v' = Keeps-pure p base head s rest b v'
  Keeps-put_audio (some pad) s rest b v' = elim (Bool-cases (have_pad (some pad))) [
    | inl e ↦ rw e (
        Keeps-then_0 p base head
          (put_number p (codes "audiocodecid") (p.uint64_to_double pad.codec)) _ (Keeps-number _ _)
          (Keeps-number _ _) s rest b v')
    | inr e ↦ rw e (Keeps-pure p base head s rest b v')
  ]
