-- ===== src/Mux/Tag/Layout.antt =====
-- The layout of the tag that gst_flv_mux_buffer_to_tag_internal writes.
use ubox_publisher.Common.{
  ℕ, ◌+◌, ◌-◌, ◌/◌, ◌%◌, ◌^◌, ◌<◌, ◌≡◌, refl, sym, ap, ◌∙◌, inl, inr, Bool, Option, some, [], ◌∷◌,
  ◌++◌, append-nil, ◌==◌, if◌then◌else◌, sub32, length, replicate, length-append, length-replicate,
  arith, Bool-cases, List,
}
use ubox_publisher.Common.Memory.{Bytes, Store, Follows, joined, fill_cleared}
use ubox_publisher.Common.Memory.{joined-append, Follows-append}
use ubox_publisher.Gst.Numbers.{be24, be32}
use ubox_publisher.Gst.Data.{Buffer}
use ubox_publisher.Gst.Platform.{Platform}
use ubox_publisher.Mux.State.{Kind, audio, video, MuxPad}
use ubox_publisher.Mux.Tag.{
  TagTimes, is_avc, extra_size, tag_size, tag_type, video_flags, audio_flags, packet_type,
  packet_cts, bdata, is_delta, video_stores, audio_stores, body_stores, header_stores, tag_block,
}

-- The data of a tag: the flags, what the codec puts behind them, and the buffer's bytes.
unfoldable pub tag_body : Kind → MuxPad → Option Buffer → Bool → ℕ → Bytes
tag_body video pad buffer is_codec_data cts =
    let n = length (bdata buffer) in
    let head = video_flags (is_delta buffer) pad.codec in
    if is_avc pad.codec
    then head
      ∷ packet_type is_codec_data n
      ∷ (be24 (packet_cts is_codec_data n cts) ++ bdata buffer)
    else head ∷ bdata buffer
tag_body audio pad buffer is_codec_data cts =
    if pad.codec == 10
    then audio_flags pad ∷ (if is_codec_data then 0 else 1) ∷ bdata buffer
    else audio_flags pad ∷ bdata buffer

-- Type, data size, timestamp with its extension, stream id, data, and the size of the tag.
unfoldable pub flv_tag : ℕ → ℕ → Bytes → Bytes
flv_tag type dts body =
    (type ∷ be24 (length body))
    ++ (be24 dts ++ ((dts / 16777216 % 256 ∷ 0 ∷ 0 ∷ 0 ∷ []) ++ (body ++ be32 (length body + 11))))

length-tag_body :
    (kind : Kind) (pad : MuxPad) (buffer : Option Buffer) (is_codec_data : Bool) (cts : ℕ)
    → length (tag_body kind pad buffer is_codec_data cts)
      ≡ 1 + (extra_size kind pad.codec + length (bdata buffer))
unfolding tag_body
length-tag_body video pad buffer c cts = ground arith
length-tag_body audio pad buffer c cts = ground arith

module _ (p : Platform) where
  open p use {write_uint24_be, write_uint32_be, write_uint24_be_lem, write_uint32_be_lem}

  joined-body_stores :
      (kind : Kind) (pad : MuxPad) (buffer : Option Buffer) (is_codec_data : Bool) (cts : ℕ)
      → joined (body_stores p kind pad buffer is_codec_data cts)
        ≡ tag_body kind pad buffer is_codec_data cts
  unfolding body_stores video_stores tag_body audio_stores
  joined-body_stores video pad buffer c cts = elim (Bool-cases (is_avc pad.codec)) [
    | inl e ↦ rw (e, write_uint24_be_lem, append-nil)
    | inr e ↦ rw (e, append-nil)
  ]
  joined-body_stores audio pad buffer c cts = elim (Bool-cases (pad.codec == 10)) [
    | inl e ↦ rw (e, append-nil)
    | inr e ↦ rw (e, append-nil)
  ]

  Follows-body_stores :
      (kind : Kind) (pad : MuxPad) (buffer : Option Buffer) (is_codec_data : Bool) (cts : ℕ)
      → Follows 11 (body_stores p kind pad buffer is_codec_data cts)
  unfolding body_stores video_stores audio_stores
  Follows-body_stores video pad buffer c cts = elim (Bool-cases (is_avc pad.codec)) [
    | inl e ↦ rw (e, write_uint24_be_lem) (omega arith)
    | inr e ↦ rw e (omega arith)
  ]
  Follows-body_stores audio pad buffer c cts = elim (Bool-cases (pad.codec == 10)) [
    | inl e ↦ rw e (omega arith)
    | inr e ↦ rw e (omega arith)
  ]

  Follows-header_stores : (type size dts : ℕ) → Follows 0 (header_stores p type size dts)
  unfolding header_stores
  Follows-header_stores type size dts = rw write_uint24_be_lem (omega arith)

  joined-header_stores :
      (type size dts n : ℕ)
      → sub32 size 15 ≡ n
      → joined (header_stores p type size dts)
        ≡ (type ∷ be24 n) ++ (be24 dts ++ (dts / 16777216 % 256 ∷ 0 ∷ 0 ∷ 0 ∷ []))
  unfolding header_stores
  joined-header_stores type size dts n e = rw (write_uint24_be_lem, e)

  tag_size-tag_body :
      (kind : Kind) (pad : MuxPad) (buffer : Option Buffer) (is_codec_data : Bool) (cts : ℕ)
      → length (bdata buffer) + 20 < 2 ^ 32
      → tag_size kind pad.codec (length (bdata buffer))
        ≡ length (tag_body kind pad buffer is_codec_data cts) + 15
  tag_size-tag_body video pad buffer c cts h =
      ground (arith, length-tag_body video pad buffer c cts)
  tag_size-tag_body audio pad buffer c cts h =
      ground (arith, length-tag_body audio pad buffer c cts)

  module _ (kind : Kind) (pad : MuxPad) (buffer : Option Buffer) (is_codec_data : Bool)
      (times : TagTimes) (size : ℕ)
      (fits : size ≡ length (tag_body kind pad buffer is_codec_data times.cts) + 15)
      (small : size < 2 ^ 32) where
    abbrev body : Bytes
    body = tag_body kind pad buffer is_codec_data times.cts

    abbrev trailer : List Store
    trailer = (size - 4, write_uint32_be (size - 4)) ∷ []

    joined-trailer : joined trailer ≡ be32 (length body + 11)
    joined-trailer =
        let e : size - 4 ≡ length body + 11 = omega arith in rw (append-nil, write_uint32_be_lem, e)

    abbrev all_stores : List Store
    all_stores =
        header_stores p (tag_type kind) size times.dts
        ++ (body_stores p kind pad buffer is_codec_data times.cts
            ++ ((size - 4, write_uint32_be (size - 4)) ∷ []))

    joined-all_stores : joined all_stores ≡ flv_tag (tag_type kind) times.dts body
    unfolding flv_tag
    joined-all_stores =
        joined-append (header_stores p (tag_type kind) size times.dts) _
        ∙ rw (joined-header_stores (tag_type kind) size times.dts (length body) (omega arith))
            (rw (joined-append, joined-body_stores, joined-trailer) refl)

    Follows-all_stores : Follows 0 all_stores
    Follows-all_stores =
        Follows-append (header_stores p (tag_type kind) size times.dts) _ 0 11
          (Follows-header_stores (tag_type kind) size times.dts)
          (rw (joined-header_stores (tag_type kind) size times.dts (length body) (omega arith))
            refl)
          (Follows-append (body_stores p kind pad buffer is_codec_data times.cts) _ 11 (size - 4)
            (Follows-body_stores kind pad buffer is_codec_data times.cts)
            (rw joined-body_stores (omega arith)) (refl, tt))

    length-all_stores : size ≡ length (joined all_stores)
    unfolding flv_tag
    length-all_stores =
        rw joined-all_stores (omega (arith, length-append body (be32 (length body + 11))))

  -- For a buffer that leaves room for the tag in 32 bits, no store leaves the block, whatever the
  -- block held, and the block ends up as the tag that the format asks for.
  pub tag_block-flv_tag :
      (kind : Kind) (pad : MuxPad) (buffer : Option Buffer) (is_codec_data : Bool)
      (times : TagTimes)
      → length (bdata buffer) + 20 < 2 ^ 32
      → tag_block p kind pad buffer is_codec_data times
        ≡ some
            (flv_tag (tag_type kind) times.dts (tag_body kind pad buffer is_codec_data times.cts))
  unfolding tag_block
  tag_block-flv_tag kind pad buffer c times h =
      let size = tag_size kind pad.codec (length (bdata buffer)) in
      let fits = tag_size-tag_body kind pad buffer c times.cts h in
      let small : size < 2 ^ 32 = omega arith in
      let zeros : length (replicate {A = ℕ} size 0) ≡ size = length-replicate size 0 in
      fill_cleared (all_stores kind pad buffer c times size fits small) (replicate size 0)
        (p.malloc size) (Follows-all_stores kind pad buffer c times size fits small)
        (p.length-malloc size ∙ sym zeros)
        (zeros ∙ length-all_stores kind pad buffer c times size fits small)
      ∙ ap some (joined-all_stores kind pad buffer c times size fits small)
