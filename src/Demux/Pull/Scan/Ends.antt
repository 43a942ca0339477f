-- ===== src/Demux/Pull/Scan/Ends.antt =====
-- The loop of gst_flv_demux_create_index ends.
use ubox_publisher.Common.{
  ℕ, zero, suc, ◌+◌, ◌-◌, ◌^◌, ◌≤◌, ◌<◌, ◌≡◌, refl, sym, ◌∙◌, Bool, true, not, leb, leb→le,
  Bool-cases, inl, inr, false, ◌||◌, Option, none, some, List, [], ltb, ◌==◌, if◌then◌else◌, length,
  arith,
}
use mathlib.Core.Bool.{true≢false}
use ubox_publisher.Common.Memory.{Bytes}
use ubox_publisher.Gst.Numbers.{clock_time_none}
use ubox_publisher.Gst.Data.{FlowReturn, ok, eos, error, flushing, other, is_ok}
use ubox_publisher.Gst.Platform.{Platform}
use ubox_publisher.Demux.State.{Action}
use ubox_publisher.Demux.Header.{Stamp}
use ubox_publisher.Demux.Env.{Env}
use ubox_publisher.Demux.Send.{State}
use ubox_publisher.Demux.Chain.{advance}
use ubox_publisher.Demux.Pull.{pull_range}
use ubox_publisher.Demux.Pull.Scan.{
  Scan, scanning, scanned, outside, scan_past, scan_tag, scan_stopped, scan_turn, scan_more,
  scan_loop, back_at, create_index,
}
use ubox_publisher.Demux.Pull.Scan.Steps.{AreBytes, SizeFits, Steps, parse_tag_timestamp-Steps}

abbrev pub is_scanning : {S : Type 0} → Scan S → Bool
is_scanning (scanning demux) = true
is_scanning _ = false

pub if_AreBytes :
    (b : Bool) (x y : FlowReturn × Bytes)
    → AreBytes x.1
    → AreBytes y.1
    → AreBytes (if b then x else y).1
if_AreBytes true x y hx hy = hx
if_AreBytes false x y hx hy = hy

if_is_ok :
    (ret : FlowReturn) (x : FlowReturn × Bytes)
    → is_ok (if not (is_ok ret) then (ret, []) else x).0 ≡ true
    → is_ok ret ≡ true
if_is_ok ok x h = refl
if_is_ok eos x h = h
if_is_ok error x h = h
if_is_ok flushing x h = h
if_is_ok (other n) x h = h

module _ (p : Platform) (e : Env p) where
  open e use {readers, index, neighbours}

  -- A turn that goes on is before the end of the file, and leads further.
  unfoldable Later : ℕ → ℕ → Scan (State p e) → Type 0
  Later limit n (scanning demux) = (n < limit) × (n < demux.offset)
  Later limit n (scanned ret demux) = Unit {0}
  Later limit n outside = Unit {0}

  if_Later :
      (limit n : ℕ) (b : Bool) (x y : Scan (State p e))
      → (b ≡ true → Later limit n x)
      → (b ≡ false → Later limit n y)
      → Later limit n (if b then x else y)
  if_Later limit n true x y hx hy = hx refl
  if_Later limit n false x y hx hy = hy refl

  advanced-Later :
      (limit n : ℕ) (demux : State p e) (size : Option ℕ)
      → n < limit
      → limit ≤ 2 ^ 63
      → demux.offset ≡ n
      → SizeFits size
      → Later limit n (elim size [ none ↦ outside | some size ↦ scanning (advance p e size demux) ])
  unfolding Later SizeFits
  advanced-Later limit n demux none l h o fits = tt
  advanced-Later limit n demux (some size) l h o (lower, upper) = (l, omega arith)

  scan_past-Later :
      (limit n ts : ℕ) (stamp : Stamp p readers index)
      → n < limit
      → limit ≤ 2 ^ 63
      → Steps p readers index n (some stamp)
      → Later limit n (scan_past p e ts stamp)
  unfolding scan_past Steps Later
  scan_past-Later limit n ts stamp l h (o, fits) =
      if_Later limit n ((stamp.timestamp == clock_time_none) || ltb ts stamp.timestamp) _ _
        (λ x. tt) (λ x. advanced-Later limit n stamp.demux stamp.tag_size l h o fits)

  scan_read-Later :
      (limit n ts : ℕ) (stamp : Option (Stamp p readers index))
      → n < limit
      → limit ≤ 2 ^ 63
      → Steps p readers index n stamp
      → Later limit n (elim stamp [ none ↦ outside | some stamp ↦ scan_past p e ts stamp ])
  unfolding Later
  scan_read-Later limit n ts none l h s = tt
  scan_read-Later limit n ts (some stamp) l h s = scan_past-Later limit n ts stamp l h s

  scan_stopped-Later :
      (limit n : ℕ) (ret : FlowReturn) (demux : State p e)
      → Later limit n (scan_stopped p e ret demux)
  unfolding scan_stopped Later
  scan_stopped-Later limit n ok demux = tt
  scan_stopped-Later limit n eos demux = tt
  scan_stopped-Later limit n error demux = tt
  scan_stopped-Later limit n flushing demux = tt
  scan_stopped-Later limit n (other k) demux = tt

  -- A file of which nothing is pulled from `limit` on, and whose bytes are bytes.
  module _ (limit : ℕ) (h : limit ≤ 2 ^ 63)
      (end : (off : ℕ) (sent : List Action)
        → limit ≤ off
        → is_ok (neighbours.pulled off 12 sent).0 ≡ false)
      (bytes : (off : ℕ) (sent : List Action) → AreBytes (neighbours.pulled off 12 sent).1) where
    pull_range_before :
        (off : ℕ) (demux : State p e) → is_ok (pull_range p e off 12 demux).0 ≡ true → off < limit
    unfolding pull_range
    pull_range_before off demux x = elim (Bool-cases (leb limit off)) [
      | inl l ↦ absurd (
          true≢false (
            sym (if_is_ok (neighbours.pulled off 12 demux.sent).0 _ x)
            ∙ end off demux.sent (leb→le _ _ l)))
      | inr l ↦ ground arith
    ]

    pull_range_bytes : (off : ℕ) (demux : State p e) → AreBytes (pull_range p e off 12 demux).1
    unfolding pull_range
    pull_range_bytes off demux =
        if_AreBytes (not (is_ok (neighbours.pulled off 12 demux.sent).0)) _ _ tt (
          if_AreBytes (length (neighbours.pulled off 12 demux.sent).1 == 12) _ _
            (bytes off demux.sent) tt)

    scan_turn-Later :
        (ts : ℕ) (demux : State p e) → Later limit demux.offset (scan_turn p e ts demux)
    unfolding scan_turn scan_tag
    scan_turn-Later ts demux =
        let (ret, bs) = pull_range p e demux.offset 12 demux in
        if_Later limit demux.offset (is_ok ret) _ _
          (λ x. scan_read-Later limit demux.offset ts _ (pull_range_before demux.offset demux x) h (
            parse_tag_timestamp-Steps p readers index true bs demux
              (pull_range_bytes demux.offset demux)))
          (λ x. scan_stopped-Later limit demux.offset ret demux)

    scan_more_ends :
        (f ts n : ℕ) (t : Scan (State p e))
        → ((demux : State p e)
            → limit - demux.offset < f
            → is_scanning (scan_loop p e f ts demux) ≡ false)
        → limit - n < suc f
        → Later limit n t
        → is_scanning (scan_more p e (scan_loop p e f ts) t) ≡ false
    unfolding Later
    scan_more_ends f ts n (scanning demux) ends l (a, b) = ends demux (omega arith)
    scan_more_ends f ts n (scanned ret demux) ends l b = refl
    scan_more_ends f ts n outside ends l b = refl

    scan_loop_ends :
        (f ts : ℕ) (demux : State p e)
        → limit - demux.offset < f
        → is_scanning (scan_loop p e f ts demux) ≡ false
    unfolding scan_loop
    scan_loop_ends zero ts demux l = absurd (omega arith)
    scan_loop_ends (suc f) ts demux l =
        scan_more_ends f ts demux.offset (scan_turn p e ts demux) (scan_loop_ends f ts) l
          (scan_turn-Later ts demux)

    back_at_ends :
        (old : ℕ) (t : Scan (State p e))
        → is_scanning t ≡ false
        → is_scanning (back_at p e old t) ≡ false
    back_at_ends old (scanning demux) x = x
    back_at_ends old (scanned ret demux) x = refl
    back_at_ends old outside x = refl

    scan_known_ends :
        (ts : ℕ) (size : Option ℕ) (pos : ℕ) (demux : State p e)
        → is_scanning (elim size [
          | none ↦ scanned ok demux
          | some size ↦
              back_at p e demux.offset
                (scan_loop p e (limit + 1) ts (record demux { offset = pos }))
        ])
          ≡ false
    scan_known_ends ts none pos demux = refl
    scan_known_ends ts (some size) pos demux =
        back_at_ends demux.offset _ (scan_loop_ends (limit + 1) ts _ (omega arith))

    -- For a file of at most 2 ^ 63 bytes from whose end on no tag can be pulled, the loop of
    -- gst_flv_demux_create_index ends within one turn for each byte and one more, from any position,
    -- for any time, and whatever bytes the file holds.
    pub create_index_ends :
        (pos ts : ℕ) (demux : State p e)
        → is_scanning (create_index p e (limit + 1) pos ts demux) ≡ false
    unfolding create_index
    create_index_ends pos ts demux = scan_known_ends ts (e.upstream demux.sent).size pos demux
