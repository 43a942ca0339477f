-- ===== src/Demux/Header/RoundTrip.antt =====
-- What the demuxer reads from the header and the tags that the muxer writes.
use ubox_publisher.Common.{
  ℕ, ◌+◌, ◌*◌, ◌/◌, ◌%◌, ◌^◌, ◌<◌, ◌≡◌, refl, ap, ◌∙◌, Bool, true, false, some, [], ◌∷◌, ◌++◌, ltb,
  leb, ◌==◌, if◌then◌else◌, length, length-append, arith, bit_or, Bool-cases, inl, inr, ◌||◌, ◌||◌,
}
use ubox_publisher.Common.Memory.{Bytes, load, load-append}
use ubox_publisher.Common.Or.{bit_or-shifted}
use ubox_publisher.Gst.Numbers.{msecond, be24, be32}
use ubox_publisher.Gst.Data.{ok, eos}
use ubox_publisher.Gst.Platform.{Platform}
use ubox_publisher.Gst.Readers.{Readers}
use ubox_publisher.Mux.Script.{header_flags, flv_header}
use ubox_publisher.Mux.Tag.Layout.{flv_tag}
use ubox_publisher.Demux.State.{Demux, IndexOps}
use ubox_publisher.Demux.Header.{
  Upstream, read_flags, parse_header, byte_at, read24, read32, enter_tag, parse_tag_type,
  is_tag_size, keyframe_of, see_type, stamped, parse_tag_timestamp,
}

module _ (p : Platform) (r : Readers p) (o : IndexOps) where
  open p use {Double}

  flags_read :
      (up : Upstream) (have_audio have_video : Bool) (demux : Demux Double o.Index)
      → ((read_flags p r o up (header_flags have_audio have_video) demux).has_audio ≡ have_audio)
        × ((read_flags p r o up (header_flags have_audio have_video) demux).has_video ≡ have_video)
  unfolding read_flags
  flags_read up false false demux = (refl, refl)
  flags_read up false true demux = (refl, refl)
  flags_read up true false demux = (refl, refl)
  flags_read up true true demux = (refl, refl)

  parse_header_run :
      (up : Upstream) (have_audio have_video : Bool) (demux : Demux Double o.Index)
      → parse_header p r o up (flv_header have_audio have_video) demux
        ≡ some (
            if demux.strict
            then (eos, demux)
            else (ok, read_flags p r o up (header_flags have_audio have_video) demux))
  unfolding parse_header flv_header load
  parse_header_run up a v demux = elim (Bool-cases demux.strict) [
    | inl e ↦ rw e refl
    | inr e ↦ rw e refl
  ]

  -- A demuxer that is not strict accepts the file header that the muxer writes, and reads from it
  -- which kinds of streams there are.
  pub parse_header-flv_header :
      (up : Upstream) (have_audio have_video : Bool) (demux : Demux Double o.Index)
      → demux.strict ≡ false
      → (demux' : Demux Double o.Index) × (parse_header p r o up
            (flv_header have_audio have_video)
            demux
          ≡ some (ok, demux'))
        × (demux'.has_audio ≡ have_audio)
        × (demux'.has_video ≡ have_video)
  parse_header-flv_header up a v demux s =
      let (ea, ev) = flags_read up a v demux in
      let demux' = read_flags p r o up (header_flags a v) demux in
      (
        demux',
        parse_header_run up a v demux ∙ ap (λ b. some (if b then (eos, demux) else (ok, demux'))) s,
        ea,
        ev,
      )

  pub byte_at-append :
      (off b : ℕ) (pre post : Bytes) → off ≡ length pre → byte_at off (pre ++ (b ∷ post)) ≡ some b
  byte_at-append off b pre post e = rw (load-append off 1 pre (b ∷ []) post e refl) refl

  pub read24-be24 :
      (off n : ℕ) (pre post : Bytes)
      → off ≡ length pre
      → read24 p r o off (pre ++ (be24 n ++ post)) ≡ some (n % 2 ^ 24)
  read24-be24 off n pre post e =
      rw (load-append off 3 pre (be24 n) post e refl, r.read_uint24_be_lem) (ap some (omega arith))

  read32-be32 :
      (off n : ℕ) (pre post : Bytes)
      → off ≡ length pre
      → n < 2 ^ 32
      → read32 p r o off (pre ++ (be32 n ++ post)) ≡ some n
  read32-be32 off n pre post e h =
      rw (load-append off 4 pre (be32 n) post e refl, r.read_uint32_be_lem) (ap some (omega arith))

  -- The first four bytes of a tag that the muxer writes give the size of its data, and the state.
  pub parse_tag_type-flv_tag :
      (type dts : ℕ) (body : Bytes) (demux : Demux Double o.Index)
      → length body < 2 ^ 24
      → parse_tag_type p r o (flv_tag type dts body) demux
        ≡ some (
          ok,
          enter_tag p r o type
              (record demux { tag_data_size = length body; tag_size = length body + 11 }),
        )
  unfolding parse_tag_type flv_tag
  parse_tag_type-flv_tag type dts body demux h =
      let rest : Bytes =
        be24 dts
        ++ ((dts / 16777216 % 256 ∷ 0 ∷ 0 ∷ 0 ∷ []) ++ (body ++ be32 (length body + 11))) in
      let small : length body % 2 ^ 24 ≡ length body = omega arith in
      let enough : ltb (length (flv_tag type dts body)) 4 ≡ false = ground arith in
      rw
        (
          enough,
          byte_at-append 0 type [] (be24 (length body) ++ rest) refl,
          read24-be24 1 (length body) (type ∷ []) rest refl,
          small,
        )
        refl

  module _ (type dts : ℕ) (flags : ℕ) (rest : Bytes) where
    abbrev body : Bytes
    body = flags ∷ rest

    abbrev tag : Bytes
    tag = flv_tag type dts body

    abbrev n : ℕ
    n = length body

    abbrev ext : Bytes
    ext = dts / 16777216 % 256 ∷ 0 ∷ 0 ∷ 0 ∷ []

    length-flv_tag : length tag ≡ n + 15
    unfolding flv_tag
    length-flv_tag = omega (arith, length-append body (be32 (n + 11)))

    type_read : byte_at 0 tag ≡ some type
    unfolding flv_tag
    type_read = byte_at-append 0 type [] _ refl

    size_read : n < 2 ^ 24 → read24 p r o 1 tag ≡ some n
    unfolding flv_tag
    size_read h = read24-be24 1 n (type ∷ []) _ refl ∙ ap some (omega arith)

    low_read : read24 p r o 4 tag ≡ some (dts % 2 ^ 24)
    unfolding flv_tag
    low_read = read24-be24 4 dts (type ∷ be24 n) _ refl

    high_read : byte_at 7 tag ≡ some (dts / 16777216 % 256)
    unfolding flv_tag
    high_read = byte_at-append 7 _ ((type ∷ be24 n) ++ be24 dts) _ refl

    flags_of : byte_at 11 tag ≡ some flags
    unfolding flv_tag
    flags_of = byte_at-append 11 flags ((type ∷ be24 n) ++ (be24 dts ++ ext)) _ refl

    previous_size_read : n < 2 ^ 24 → read32 p r o (n + 11) tag ≡ some (n + 11)
    unfolding flv_tag
    previous_size_read h =
        let front : Bytes = (type ∷ be24 n) ++ (be24 dts ++ (ext ++ body)) in
        read32-be32 (n + 11) (n + 11) front [] (omega arith) (omega arith)

    is_tag_size-flv_tag : n < 2 ^ 24 → is_tag_size p r o n tag ≡ some true
    is_tag_size-flv_tag h =
        let reaches : leb (n + 11 + 4) (length tag) ≡ true = ground (arith, length-flv_tag) in
        let same : (n + 11 == n + 11) ≡ true = ground arith in
        rw (reaches, previous_size_read h, same) refl

    timestamp_read : dts < 2 ^ 32 → bit_or (dts % 2 ^ 24) (dts / 16777216 % 256 * 16777216) ≡ dts
    timestamp_read h =
        bit_or-shifted 24 (dts % 2 ^ 24) (dts / 16777216 % 256) (omega arith) ∙ omega arith

    abbrev is_keyframe : Bool
    is_keyframe = if type == 9 then flags / 16 == 1 else true

    keyframe_read : keyframe_of p r o type tag ≡ some is_keyframe
    keyframe_read = elim (Bool-cases (type == 9)) [
      | inl e ↦ rw (e, flags_of) refl
      | inr e ↦ rw e refl
    ]

  -- From a whole audio, video or script tag of the muxer, with data that is not empty and shorter
  -- than 2 ^ 24 and a timestamp below 2 ^ 32, the demuxer reads the timestamp in milliseconds, the
  -- size, and for video whether it is a keyframe, and takes the size behind the tag as right.
  pub parse_tag_timestamp-flv_tag :
      (index : Bool) (type dts flags : ℕ) (rest : Bytes) (demux : Demux Double o.Index)
      → ((type == 9) || (type == 8) || (type == 18)) ≡ true
      → dts < 2 ^ 32
      → length (flags ∷ rest) < 2 ^ 24
      → parse_tag_timestamp p r o index (flv_tag type dts (flags ∷ rest)) demux
        ≡ some (
            stamped p r o index type
              (length (flags ∷ rest))
              (if type == 9 then flags / 16 == 1 else true)
              (dts * msecond)
              (see_type p r o type demux))
  unfolding parse_tag_timestamp
  parse_tag_timestamp-flv_tag index type dts flags rest demux known hd hn =
      let long : ltb (length (flv_tag type dts (flags ∷ rest))) 12 ≡ false =
        ground (arith, length-flv_tag type dts flags rest) in
      rw
        (
          long,
          type_read type dts flags rest,
          size_read type dts flags rest hn,
          is_tag_size-flv_tag type dts flags rest hn,
          low_read type dts flags rest,
          high_read type dts flags rest,
          keyframe_read type dts flags rest,
          known,
          timestamp_read type dts flags rest hd,
        )
        refl
