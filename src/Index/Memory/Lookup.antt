-- ===== src/Index/Memory/Lookup.antt =====
-- A lookup in the tree of a format against the entries that were added.
use ubox_publisher.Common.{
  ℕ, ◌-◌, ◌^◌, ◌≤◌, ◌<◌, ◌≡◌, ◌≢◌, refl, sym, ap, ◌∙◌, subst, false, Option, none, some, List, [],
  ◌∷◌, inl, inr, if◌then◌else◌, All, Any, arith, ◌==◌, Bool-cases,
}
use mathlib.Core.Option.{some-injective}
use ubox_publisher.Index.Entry.{LookupMethod, lookup_exact, lookup_before, lookup_after, AssocEntry}
use ubox_publisher.Index.Memory.Search.{val, IsValued}
use ubox_publisher.Index.Memory.Found.{Item, Hits}
use ubox_publisher.Index.Memory.Lower.{IsLower, IsBelow}
use ubox_publisher.Index.Memory.Higher.{IsHigher, IsAbove}
use ubox_publisher.Index.Memory.Contents.{contents, latest}
use ubox_publisher.Index.Memory.History.{IsLatest, contents-IsLatest, contents-added, spread}

module _ (i x : ℕ) where
  -- An entry that was added, at most `x`, and not below another such entry; or all are above.
  abbrev pub IsBefore : List AssocEntry → Option AssocEntry → Type 0
  IsBefore hist none = All (λ e. x < val i e) hist
  IsBefore hist (some k) =
      Any (λ e. e ≡ k) hist × ((val i k ≤ x) × All (λ e. val i e ≤ x → val i e ≤ val i k) hist)

  abbrev pub IsAfter : List AssocEntry → Option AssocEntry → Type 0
  IsAfter hist none = All (λ e. val i e < x) hist
  IsAfter hist (some k) =
      Any (λ e. e ≡ k) hist × ((x ≤ val i k) × All (λ e. x ≤ val i e → val i k ≤ val i e) hist)

  -- What each method finds among the entries that were added, the latest first.
  abbrev pub Finds : LookupMethod → List AssocEntry → Option AssocEntry → Type 0
  Finds lookup_exact hist r = r ≡ latest i x hist
  Finds lookup_before hist r = IsBefore hist r
  Finds lookup_after hist r = IsAfter hist r

  latest-none : (hist : List AssocEntry) → All (λ e. val i e ≢ x) hist → latest i x hist ≡ none
  latest-none [] h = refl
  latest-none (e ∷ es) (n, h) =
      let c : (val i e == x) ≡ false = ground arith in
      ap (λ b. if b then some e else latest i x es) c ∙ latest-none es h

  latest_item :
      (hist : List AssocEntry) (w : AssocEntry) (es : List Item)
      → Any (λ e. (val i e.0 ≡ x) × (e.1 ≡ w)) es
      → All (IsLatest i hist) es
      → latest i x hist ≡ some w
  latest_item hist w [] h a = absurd h.1
  latest_item hist w (e ∷ es) (inl (v, q)) (a, _) =
      ap (λ y. latest i y hist) (sym v) ∙ a ∙ ap some q
  latest_item hist w (e ∷ es) (inr h) (_, a) = latest_item hist w es h a

  latest_added :
      (hist : List AssocEntry) (w : AssocEntry)
      → latest i x hist ≡ some w
      → Any (λ e. e ≡ w) hist × (val i w ≡ x)
  latest_added [] w q = cc
  latest_added (e ∷ es) w q = elim (Bool-cases (val i e == x)) [
    | inl c ↦
        let k : e ≡ w =
          some-injective e w (sym (ap (λ b. if b then some e else latest i x es) c) ∙ q) in
        (inl k, ap (val i) (sym k) ∙ ground arith)
    | inr c ↦
        let (at, v) =
          latest_added es w (sym (ap (λ b. if b then some e else latest i x es) c) ∙ q) in
        (inr at, v)
  ]

  pub hit_latest :
      (hist : List AssocEntry) (r : Option AssocEntry)
      → All (IsValued i) hist
      → Hits i x (contents i hist) r
      → r ≡ latest i x hist
  hit_latest hist none h k = sym (latest-none hist (spread i (λ y. y ≢ x) hist h k))
  hit_latest hist (some w) h k =
      sym (latest_item hist w (contents i hist) k (contents-IsLatest i hist h))

  pub begins-IsBelow : (es : List Item) → x < 2 ^ 63 → IsBelow i x (2 ^ 63) es
  begins-IsBelow [] b = tt
  begins-IsBelow (e ∷ es) b = ((λ l. ground arith), begins-IsBelow es b)

  pub begins-IsAbove : (es : List Item) → All (λ e. IsValued i e.0) es → IsAbove i x (2 ^ 63 - 1) es
  begins-IsAbove [] h = tt
  begins-IsAbove (e ∷ es) ((_, b), h) = ((λ l. ground arith), begins-IsAbove es h)

  -- The entry itself is next to the value.
  pub latest-IsBefore :
      (hist : List AssocEntry) (w : AssocEntry) → latest i x hist ≡ some w → IsBefore hist (some w)
  latest-IsBefore hist w q =
      let (at, v) = latest_added hist w q in (at, (omega (arith, v), every hist v))
    where
      every : (es : List AssocEntry) → val i w ≡ x → All (λ e. val i e ≤ x → val i e ≤ val i w) es
      every [] v = tt
      every (e ∷ es) v = ((λ l. omega arith), every es v)

  pub latest-IsAfter :
      (hist : List AssocEntry) (w : AssocEntry) → latest i x hist ≡ some w → IsAfter hist (some w)
  latest-IsAfter hist w q =
      let (at, v) = latest_added hist w q in (at, (omega (arith, v), every hist v))
    where
      every : (es : List AssocEntry) → val i w ≡ x → All (λ e. x ≤ val i e → val i w ≤ val i e) es
      every [] v = tt
      every (e ∷ es) v = ((λ l. omega arith), every es v)

  added_key :
      (hist : List AssocEntry) (k : AssocEntry) (es : List Item)
      → Any (λ e. e.0 ≡ k) es
      → All (λ e. Any (λ h. h ≡ e.0) hist) es
      → Any (λ h. h ≡ k) hist
  added_key hist k [] h a = absurd h.1
  added_key hist k (e ∷ es) (inl q) (a, _) = subst (λ k. Any (λ h. h ≡ k) hist) q a
  added_key hist k (e ∷ es) (inr h) (_, a) = added_key hist k es h a

  pub lower-IsBefore :
      (hist : List AssocEntry) (r : Option AssocEntry)
      → All (IsValued i) hist
      → All (λ e. val i e.0 ≢ x) (contents i hist)
      → IsLower i x (contents i hist) none r
      → IsBefore hist r
  lower-IsBefore hist r h n (inl (q, all)) =
      subst (IsBefore hist) (sym q)
        (greater hist (spread i (λ y. y ≢ x) hist h n) (spread i (λ y. x ≤ y) hist h all))
    where
      greater :
          (es : List AssocEntry)
          → All (λ e. val i e ≢ x) es
          → All (λ e. x ≤ val i e) es
          → All (λ e. x < val i e) es
      greater [] h k = tt
      greater (e ∷ es) (a, h) (b, k) = (ground arith, greater es h k)
  lower-IsBefore hist r h n (inr (k, (q, (at, (l, all))))) = subst (IsBefore hist) (sym q) (
    added_key hist k (contents i hist) at (contents-added i hist h),
    (
      omega arith,
      lesser hist (spread i (λ y. y ≢ x) hist h n) (spread i (λ y. y < x → y ≤ val i k) hist h all),
    ),
  )
    where
      lesser :
          (es : List AssocEntry)
          → All (λ e. val i e ≢ x) es
          → All (λ e. val i e < x → val i e ≤ val i k) es
          → All (λ e. val i e ≤ x → val i e ≤ val i k) es
      lesser [] h g = tt
      lesser (e ∷ es) (a, h) (b, g) = ((λ m. b (ground arith)), lesser es h g)

  pub higher-IsAfter :
      (hist : List AssocEntry) (r : Option AssocEntry)
      → All (IsValued i) hist
      → All (λ e. val i e.0 ≢ x) (contents i hist)
      → IsHigher i x (contents i hist) none r
      → IsAfter hist r
  higher-IsAfter hist r h n (inl (q, all)) =
      subst (IsAfter hist) (sym q)
        (lesser hist (spread i (λ y. y ≢ x) hist h n) (spread i (λ y. y ≤ x) hist h all))
    where
      lesser :
          (es : List AssocEntry)
          → All (λ e. val i e ≢ x) es
          → All (λ e. val i e ≤ x) es
          → All (λ e. val i e < x) es
      lesser [] h k = tt
      lesser (e ∷ es) (a, h) (b, k) = (ground arith, lesser es h k)
  higher-IsAfter hist r h n (inr (k, (q, (at, (l, all))))) = subst (IsAfter hist) (sym q) (
    added_key hist k (contents i hist) at (contents-added i hist h),
    (
      omega arith,
      greater hist (spread i (λ y. y ≢ x) hist h n)
          (spread i (λ y. x < y → val i k ≤ y) hist h all),
    ),
  )
    where
      greater :
          (es : List AssocEntry)
          → All (λ e. val i e ≢ x) es
          → All (λ e. x < val i e → val i k ≤ val i e) es
          → All (λ e. x ≤ val i e → val i k ≤ val i e) es
      greater [] h g = tt
      greater (e ∷ es) (a, h) (b, g) = ((λ m. b (ground arith)), greater es h g)
