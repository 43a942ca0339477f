-- ===== src/Index/Memory/Contents.antt =====
-- What the tree of a format holds after entries were added (gst_mem_index_index_format).
use ubox_publisher.Common.{
  lt-cases, ℕ, ◌-◌, ◌^◌, ◌<◌, ◌≡◌, sym, ap, ◌∙◌, subst, Bool, true, false, Option, none, some, List,
  [], ◌∷◌, ltb, inl, inr, if◌then◌else◌, sub64, All, arith, All-map, ◌==◌, lt→ltb,
}
use ubox_publisher.Common.Options.{>>=-some}
use ubox_publisher.Index.Entry.{AssocEntry}
use ubox_publisher.Index.Trees.{put, by_rank}
use ubox_publisher.Index.Memory.{sign_of, mem_index_compare}
use ubox_publisher.Index.Memory.Search.{val, IsValued, rank_at, sign_below, sign_above}
use ubox_publisher.Index.Memory.Found.{Item, IsSorted}

module _ (i : ℕ) where
  -- The items of the tree after the entries of a history, the latest first.
  abbrev pub contents : List AssocEntry → List Item
  contents [] = []
  contents (e ∷ es) = put (rank_at i) e e (contents es)

  -- The latest entry with a value.
  abbrev pub latest : ℕ → List AssocEntry → Option AssocEntry
  latest x [] = none
  latest x (e ∷ es) = let older = latest x es in if val i e == x then some e else older

  abbrev placed :
      AssocEntry → AssocEntry → AssocEntry → AssocEntry → List Item → Bool → Bool → List Item
  placed k v a w es front later =
      if front
      then (k, v) ∷ ((a, w) ∷ es)
      else if later
      then (a, w) ∷ put (rank_at i) k v es
      else (a, v) ∷ es

  -- What `put` does at the first item, by the order of the values.
  put_front :
      (k v a w : AssocEntry) (es : List Item)
      → val i a < val i k
      → val i k < 2 ^ 63 - 1
      → put (rank_at i) k v ((a, w) ∷ es) ≡ (k, v) ∷ ((a, w) ∷ es)
  put_front k v a w es l h =
      let e : ltb (rank_at i k) (rank_at i a) ≡ true = lt→ltb _ _ (omega arith) in
      ap (λ b. placed k v a w es b (ltb (rank_at i a) (rank_at i k))) e

  put_same :
      (k v a w : AssocEntry) (es : List Item)
      → val i a ≡ val i k
      → put (rank_at i) k v ((a, w) ∷ es) ≡ (a, v) ∷ es
  put_same k v a w es l =
      let e : ltb (rank_at i k) (rank_at i a) ≡ false = ground arith in
      let f : ltb (rank_at i a) (rank_at i k) ≡ false = ground arith in
      ap (λ b. placed k v a w es b (ltb (rank_at i a) (rank_at i k))) e
      ∙ ap (placed k v a w es false) f

  put_later :
      (k v a w : AssocEntry) (es : List Item)
      → val i k < val i a
      → val i a < 2 ^ 63 - 1
      → put (rank_at i) k v ((a, w) ∷ es) ≡ (a, w) ∷ put (rank_at i) k v es
  put_later k v a w es l h =
      let e : ltb (rank_at i k) (rank_at i a) ≡ false = ground arith in
      let f : ltb (rank_at i a) (rank_at i k) ≡ true = lt→ltb _ _ (omega arith) in
      ap (λ b. placed k v a w es b (ltb (rank_at i a) (rank_at i k))) e
      ∙ ap (placed k v a w es false) f

  -- The three cases at the first item.
  pub put_cases :
      (Q : List Item → Type 0) (k v a w : AssocEntry) (es : List Item)
      → val i k < 2 ^ 63 - 1
      → val i a < 2 ^ 63 - 1
      → (val i a < val i k → Q ((k, v) ∷ ((a, w) ∷ es)))
      → (val i a ≡ val i k → Q ((a, v) ∷ es))
      → (val i k < val i a → Q ((a, w) ∷ put (rank_at i) k v es))
      → Q (put (rank_at i) k v ((a, w) ∷ es))
  put_cases Q k v a w es hk ha f g h = elim (lt-cases (val i a) (val i k)) [
    | inl l ↦ subst Q (sym (put_front k v a w es l hk)) (f l)
    | inr (inl l) ↦ subst Q (sym (put_same k v a w es l)) (g l)
    | inr (inr l) ↦ subst Q (sym (put_later k v a w es l ha)) (h l)
  ]

  abbrev pub Keys : (AssocEntry → Type 0) → List Item → Type 0
  Keys P es = All (λ e. P e.0) es

  pub put-All :
      (P : AssocEntry → Type 0) (k v : AssocEntry) (es : List Item)
      → IsValued i k
      → Keys (IsValued i) es
      → P k
      → Keys P es
      → Keys P (put (rank_at i) k v es)
  put-All P k v [] hk hs p ps = (p, tt)
  put-All P k v ((a, w) ∷ es) hk (ha, hs) p (q, ps) =
      put_cases (Keys P) k v a w es hk.1 ha.1 (λ l. (p, (q, ps))) (λ l. (q, ps))
        (λ l. (q, put-All P k v es hk hs p ps))

  put-IsSorted :
      (k v : AssocEntry) (es : List Item)
      → IsValued i k
      → IsSorted i es
      → IsSorted i (put (rank_at i) k v es)
  put-IsSorted k v [] hk h = ((hk, tt), (tt, tt))
  put-IsSorted k v ((a, w) ∷ es) hk ((ha, hs), (up, asc)) =
      let (ks, ks') = put-IsSorted k v es hk (hs, asc) in
      put_cases (IsSorted i) k v a w es hk.1 ha.1
        (λ l. (
          (hk, (ha, hs)),
          (
            (omega (arith, hk.1, ha.1), All-map es (λ e g. omega (arith, hk.1, ha.1)) up),
            (up, asc),
          ),
        ))
        (λ l. ((ha, hs), (up, asc)))
        (λ l. (
          (ha, ks),
          (
            put-All (λ e. rank_at i a < rank_at i e) k v es hk hs (omega (arith, hk.1, ha.1)) up,
            ks',
          ),
        ))

  pub contents-IsSorted :
      (hist : List AssocEntry) → All (IsValued i) hist → IsSorted i (contents hist)
  contents-IsSorted [] h = (tt, tt)
  contents-IsSorted (e ∷ es) (h, hs) = put-IsSorted e e (contents es) h (contents-IsSorted es hs)

  -- The comparison is that of the ranks.
  compare_lem :
      (k a : AssocEntry)
      → IsValued i k
      → IsValued i a
      → mem_index_compare i k a ≡ some (by_rank (rank_at i k) (rank_at i a))
  unfolding mem_index_compare
  compare_lem k a hk ha =
      let e : mem_index_compare i k a ≡ some (sign_of (sub64 (val i a) (val i k))) =
        >>=-some _ hk.0 ∙ >>=-some _ ha.0 in
      e
      ∙ ap some (elim (lt-cases (val i a) (val i k)) [
        | inl l ↦ sign_below (val i a) (val i k) l (omega (arith, hk.1)) ∙ ground arith
        | inr (inl l) ↦ ground arith
        | inr (inr l) ↦ sign_above (val i a) (val i k) l ha.1 ∙ ground arith
      ])

  pub contents-compare :
      (k : AssocEntry) (es : List Item)
      → IsValued i k
      → Keys (IsValued i) es
      → All (λ e. mem_index_compare i k e.0 ≡ some (by_rank (rank_at i k) (rank_at i e.0))) es
  contents-compare k es hk hs = All-map es (λ e h. compare_lem k e.0 hk h) hs
