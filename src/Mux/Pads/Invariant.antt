-- ===== src/Mux/Pads/Invariant.antt =====
-- The sink pads are those that `audio_pad` and `video_pad` hold, each of them once.
use ubox_publisher.Common.{
  ℕ, ◌+◌, ◌≡◌, false, Option, none, some, List, [], ◌∷◌, ◌++◌, if◌then◌else◌, arith,
}
use ubox_publisher.Gst.Numbers.{max_uint}
use ubox_publisher.Mux.State.{Kind, audio, video, MuxPad, Mux, get_pad}
use ubox_publisher.Mux.Caps.{is_some}
use ubox_publisher.Mux.Pads.{
  Template, sink, invalid, same_kind, remove_kind, add_pad, create_new_pad, release_pad,
}

-- How often a pad stands among the element's sink pads.
unfoldable pub occurrences : Kind → List Kind → ℕ
occurrences k [] = 0
occurrences k (j ∷ ks) = (if same_kind k j then 1 else 0) + occurrences k ks

abbrev pub other_kind : Kind → Kind
other_kind audio = video
other_kind video = audio

abbrev pub Once : {D : Type 0} → Kind → Mux D → Type 0
Once k mux = occurrences k mux.sinkpads ≡ (if is_some (get_pad k mux) then 1 else 0)

pub record IsWellFormed {D : Type 0} (mux : Mux D) : Type 0 where
  pub audio_once : Once audio mux
  pub video_once : Once video mux

occurrences-append :
    (k j : Kind) (ks : List Kind)
    → occurrences k (ks ++ (j ∷ [])) ≡ occurrences k ks + (if same_kind k j then 1 else 0)
unfolding occurrences
occurrences-append k j [] = omega arith
occurrences-append k j (i ∷ ks) = omega (arith, occurrences-append k j ks)

occurrences-remove_kind :
    (k j : Kind) (ks : List Kind)
    → occurrences k (remove_kind j ks) ≡ (if same_kind j k then 0 else occurrences k ks)
unfolding occurrences remove_kind
occurrences-remove_kind k j [] = ground arith
occurrences-remove_kind audio audio (i ∷ ks) =
    ground (arith, occurrences-remove_kind audio audio ks)
occurrences-remove_kind audio video (i ∷ ks) =
    ground (arith, occurrences-remove_kind audio video ks)
occurrences-remove_kind video audio (i ∷ ks) =
    ground (arith, occurrences-remove_kind video audio ks)
occurrences-remove_kind video video (i ∷ ks) =
    ground (arith, occurrences-remove_kind video video ks)

module _ {D : Type 0} where
  add_pad-IsWellFormed :
      (kind : Kind) (fresh : MuxPad) (mux : Mux D)
      → is_some (get_pad kind mux) ≡ false
      → IsWellFormed mux
      → IsWellFormed (add_pad kind fresh mux)
  unfolding add_pad get_pad
  add_pad-IsWellFormed audio fresh mux absent w = ground (
    arith,
    occurrences-append audio audio mux.sinkpads,
    occurrences-append video audio mux.sinkpads,
  )
  add_pad-IsWellFormed video fresh mux absent w = ground (
    arith,
    occurrences-append audio video mux.sinkpads,
    occurrences-append video video mux.sinkpads,
  )

  -- Requesting a pad keeps each slot's pad once among the sink pads, whatever is requested and
  -- whatever the parent class makes.
  pub create_new_pad-IsWellFormed :
      (template : Template) (made : Option MuxPad) (mux : Mux D)
      → IsWellFormed mux
      → IsWellFormed (create_new_pad template made mux).1
  unfolding create_new_pad
  create_new_pad-IsWellFormed invalid made mux w = w
  create_new_pad-IsWellFormed (sink kind) none mux w = ground (arith, w)
  create_new_pad-IsWellFormed (sink kind) (some fresh) mux w =
      ground (arith, add_pad-IsWellFormed kind fresh mux)

  -- What a new pad's slot holds, and the other slot.
  abbrev pub HoldsNew : Kind → Mux D → Mux D → Type 0
  HoldsNew kind mux mux' =
      ((pad : MuxPad) × (get_pad kind mux' ≡ some pad) × (pad.codec ≡ max_uint))
      × (get_pad (other_kind kind) mux' ≡ get_pad (other_kind kind) mux)

  -- Releasing a pad keeps each slot's pad once among the sink pads, empties the pad's slot, takes it
  -- from the sink pads, and leaves the other slot, and how often its pad is among the sink pads.
  pub release_pad-IsWellFormed :
      (kind : Kind) (mux : Mux D)
      → IsWellFormed mux
      → IsWellFormed (release_pad kind mux)
        × (get_pad kind (release_pad kind mux) ≡ none)
        × (occurrences kind (release_pad kind mux).sinkpads ≡ 0)
        × (get_pad (other_kind kind) (release_pad kind mux) ≡ get_pad (other_kind kind) mux)
        × (occurrences (other_kind kind) (release_pad kind mux).sinkpads
            ≡ occurrences (other_kind kind) mux.sinkpads)
  unfolding release_pad get_pad
  release_pad-IsWellFormed audio mux w = ground (
    arith,
    occurrences-remove_kind audio audio mux.sinkpads,
    occurrences-remove_kind video audio mux.sinkpads,
  )
  release_pad-IsWellFormed video mux w = ground (
    arith,
    occurrences-remove_kind audio video mux.sinkpads,
    occurrences-remove_kind video video mux.sinkpads,
  )
