-- ===== src/Index/Memory/History.antt =====
-- The tree of a format against the entries that were added, the latest first.
use ubox_publisher.Common.{
  ℕ, ◌≤◌, ◌<◌, ◌≡◌, ◌≢◌, refl, sym, ap, ◌∙◌, subst, true, false, some, List, [], ◌∷◌, ◌⊎◌, inl, inr,
  if◌then◌else◌, All, Any, arith, All-map, ◌==◌,
}
use ubox_publisher.Index.Entry.{AssocEntry}
use ubox_publisher.Index.Trees.{put}
use ubox_publisher.Index.Memory.Search.{val, IsValued, rank_at}
use ubox_publisher.Index.Memory.Found.{Item, IsSorted}
use ubox_publisher.Index.Memory.Contents.{
  contents, latest, put_cases, put-All, Keys, contents-IsSorted,
}

module _ (i : ℕ) where
  latest_same :
      (x : ℕ) (k : AssocEntry) (hist : List AssocEntry)
      → val i k ≡ x
      → latest i x (k ∷ hist) ≡ some k
  latest_same x k hist e =
      let c : (val i k == x) ≡ true = ground arith in
      ap (λ b. if b then some k else latest i x hist) c

  latest_other :
      (x : ℕ) (k : AssocEntry) (hist : List AssocEntry)
      → val i k ≢ x
      → latest i x (k ∷ hist) ≡ latest i x hist
  latest_other x k hist n =
      let c : (val i k == x) ≡ false = ground arith in
      ap (λ b. if b then some k else latest i x hist) c

  -- The value of an item is the latest entry with the value of its key.
  abbrev pub IsLatest : List AssocEntry → Item → Type 0
  IsLatest hist e = latest i (val i e.0) hist ≡ some e.1

  lesser_IsLatest :
      (k a : AssocEntry) (hist : List AssocEntry) (es : List Item)
      → val i a ≤ val i k
      → All (λ e. rank_at i a < rank_at i e.0) es
      → All (IsLatest hist) es
      → All (IsLatest (k ∷ hist)) es
  lesser_IsLatest k a hist [] l up h = tt
  lesser_IsLatest k a hist (e ∷ es) l (u, up) (h, hs) = (
    latest_other (val i e.0) k hist (λ q. absurd (omega arith)) ∙ h,
    lesser_IsLatest k a hist es l up hs,
  )

  put-IsLatest :
      (k : AssocEntry) (hist : List AssocEntry) (es : List Item)
      → IsValued i k
      → IsSorted i es
      → All (IsLatest hist) es
      → All (IsLatest (k ∷ hist)) (put (rank_at i) k k es)
  put-IsLatest k hist [] hk h ls = (latest_same (val i k) k hist refl, tt)
  put-IsLatest k hist ((a, w) ∷ es) hk ((ha, hs), (up, asc)) (l, ls) =
      put_cases i (All (IsLatest (k ∷ hist))) k k a w es hk.1 ha.1
        (λ m. (
          latest_same (val i k) k hist refl,
          (
            latest_other (val i a) k hist (λ q. absurd (omega arith)) ∙ l,
            lesser_IsLatest k a hist es (omega arith) up ls,
          ),
        ))
        (λ m.
          (latest_same (val i a) k hist (sym m), lesser_IsLatest k a hist es (omega arith) up ls))
        (λ m. (
          latest_other (val i a) k hist (λ q. absurd (omega arith)) ∙ l,
          put-IsLatest k hist es hk (hs, asc) ls,
        ))

  pub contents-IsLatest :
      (hist : List AssocEntry) → All (IsValued i) hist → All (IsLatest hist) (contents i hist)
  contents-IsLatest [] h = tt
  contents-IsLatest (e ∷ es) (h, hs) =
      put-IsLatest e es (contents i es) h (contents-IsSorted i es hs) (contents-IsLatest es hs)

  -- The keys are entries that were added.
  pub contents-added :
      (hist : List AssocEntry)
      → All (IsValued i) hist
      → Keys i (λ k. Any (λ e. e ≡ k) hist) (contents i hist)
  contents-added [] h = tt
  contents-added (e ∷ es) (h, hs) =
      put-All i (λ k. Any (λ e. e ≡ k) (e ∷ es)) e e (contents i es) h (contents-IsSorted i es hs).0
        (inl refl) (All-map (contents i es) (λ k a. inr a) (contents-added es hs))

  put_has :
      (x : ℕ) (k v : AssocEntry) (es : List Item)
      → IsValued i k
      → Keys i (IsValued i) es
      → (val i k ≡ x) ⊎ Any (λ f. val i f.0 ≡ x) es
      → Any (λ f. val i f.0 ≡ x) (put (rank_at i) k v es)
  put_has x k v [] hk hs (inl e) = inl e
  put_has x k v [] hk hs (inr h) = absurd h.1
  put_has x k v ((a, w) ∷ es) hk (ha, hs) (inl e) =
      put_cases i (Any (λ f. val i f.0 ≡ x)) k v a w es hk.1 ha.1 (λ m. inl e) (λ m. inl (m ∙ e))
        (λ m. inr (put_has x k v es hk hs (inl e)))
  put_has x k v ((a, w) ∷ es) hk (ha, hs) (inr (inl e)) =
      put_cases i (Any (λ f. val i f.0 ≡ x)) k v a w es hk.1 ha.1 (λ m. inr (inl e)) (λ m. inl e)
        (λ m. inl e)
  put_has x k v ((a, w) ∷ es) hk (ha, hs) (inr (inr h)) =
      put_cases i (Any (λ f. val i f.0 ≡ x)) k v a w es hk.1 ha.1 (λ m. inr (inr h)) (λ m. inr h)
        (λ m. inr (put_has x k v es hk hs (inr h)))

  -- Every entry that was added has a key with its value.
  pub contents_has :
      (hist : List AssocEntry)
      → All (IsValued i) hist
      → All (λ e. Any (λ f. val i f.0 ≡ val i e) (contents i hist)) hist
  contents_has [] h = tt
  contents_has (e ∷ es) (h, hs) =
      let keys = (contents-IsSorted i es hs).0 in
      (
        put_has (val i e) e e (contents i es) h keys (inl refl),
        All-map es (λ a k. put_has (val i a) e e (contents i es) h keys (inr k))
            (contents_has es hs),
      )

  key_value :
      (P : ℕ → Type 0) (x : ℕ) (es : List Item)
      → Any (λ f. val i f.0 ≡ x) es
      → All (λ f. P (val i f.0)) es
      → P x
  key_value P x [] h a = absurd h.1
  key_value P x (e ∷ es) (inl q) (a, _) = subst P q a
  key_value P x (e ∷ es) (inr h) (_, a) = key_value P x es h a

  -- What holds of the values in the tree holds of all that were added.
  pub spread :
      (P : ℕ → Type 0) (hist : List AssocEntry)
      → All (IsValued i) hist
      → All (λ f. P (val i f.0)) (contents i hist)
      → All (λ e. P (val i e)) hist
  spread P hist h a =
      All-map hist (λ e k. key_value P (val i e) (contents i hist) k a) (contents_has hist h)
