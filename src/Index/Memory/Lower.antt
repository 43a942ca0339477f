-- ===== src/Index/Memory/Lower.antt =====
-- What `lower` is after a search that found no entry with the value.
use ubox_publisher.Common.{
  lt-cases, ℕ, ◌^◌, ◌≤◌, ◌<◌, ◌≡◌, refl, sym, ap, ◌∙◌, subst, Bool, true, false, Option, none, some,
  List, ◌∷◌, ◌++◌, ◌⊎◌, inl, inr, if◌then◌else◌, sub64, All, Any, arith, All-right, All-join,
  All-map, Any-left, Any-right,
}
use ubox_publisher.Index.Entry.{AssocEntry}
use ubox_publisher.Index.Trees.{Nodes, leaf, node, in_order, search_nodes}
use ubox_publisher.Index.Memory.{SearchData, signed_lt, note_lower, mem_index_search}
use ubox_publisher.Index.Memory.Search.{val, lowered, raised}
use ubox_publisher.Index.Memory.Found.{
  Item, IsSorted, IsSorted-left, IsSorted-right, above_key, below_key, Asks, lowered-Asks,
  raised-Asks, node_same, node_below, node_above, key_in,
}

lowered_eq :
    (k : AssocEntry) (s : SearchData)
    → s.exact ≡ false
    → signed_lt s.low_diff (sub64 (val s.offset k) s.value) ≡ true
    → lowered k s ≡ record s { lower = some k; low_diff = sub64 (val s.offset k) s.value }
lowered_eq k s e c =
    ap (λ b. if b then s else note_lower k (sub64 (val s.offset k) s.value) s) e
    ∙ ap
        (λ b.
          if b then record s { lower = some k; low_diff = sub64 (val s.offset k) s.value } else s)
        c

if_lower :
    (lower : Option AssocEntry) (diff : ℕ) (b : Bool) (s t : SearchData)
    → (s.lower ≡ lower) × (s.low_diff ≡ diff)
    → (t.lower ≡ lower) × (t.low_diff ≡ diff)
    → ((if b then s else t).lower ≡ lower) × ((if b then s else t).low_diff ≡ diff)
if_lower lower diff true s t h k = h
if_lower lower diff false s t h k = k

raised_lower :
    (k : AssocEntry) (s : SearchData)
    → ((raised k s).lower ≡ s.lower) × ((raised k s).low_diff ≡ s.low_diff)
raised_lower k s =
    if_lower s.lower s.low_diff s.exact s _ (refl, refl)
      (if_lower s.lower s.low_diff (signed_lt _ s.high_diff) _ s (refl, refl) (refl, refl))

-- The values below `x` differ the less from it the greater they are.
closer : (a b x : ℕ) → a < b → b < x → x < 2 ^ 63 → signed_lt (sub64 a x) (sub64 b x) ≡ true
closer a b x l m h = ground arith

module _ (i x : ℕ) where
  -- The keys below `x` are nearer to it than `low_diff`.
  abbrev pub IsBelow : ℕ → List Item → Type 0
  IsBelow diff es = All (λ e. val i e.0 < x → signed_lt diff (sub64 (val i e.0) x) ≡ true) es

  -- The key with the greatest value below `x`, or what was there if none is below it.
  abbrev pub IsLower : List Item → Option AssocEntry → Option AssocEntry → Type 0
  IsLower es before after =
      ((after ≡ before) × All (λ e. x ≤ val i e.0) es)
      ⊎ ((k : AssocEntry) × ((after ≡ some k)
            × (Any (λ e. e.0 ≡ k) es
                × ((val i k < x) × All (λ e. val i e.0 < x → val i e.0 ≤ val i k) es))))

  abbrev pub Lowers :
      List Item → Option AssocEntry → Option (Option AssocEntry × SearchData) → Type 0
  Lowers es before (some (none, s)) = IsLower es before s.lower
  Lowers es before (some (some w, s)) = Unit {0}
  Lowers es before none = Unit {0}

  left-Lowers :
      (xs : List Item) (k w : AssocEntry) (ys : List Item) (before : Option AssocEntry)
      (o : Option (Option AssocEntry × SearchData))
      → val i k < x
      → All (λ e. val i k < val i e.0) xs
      → All (λ e. val i e.0 < val i k) ys
      → Lowers xs (some k) o
      → Lowers (xs ++ ((k, w) ∷ ys)) before o
  left-Lowers xs k w ys before none m up down h = tt
  left-Lowers xs k w ys before (some (some v, s)) m up down h = tt
  left-Lowers xs k w ys before (some (none, s)) m up down (inl (e, all)) = inr (
    k,
    (
      e,
      (
        Any-right _ xs ((k, w) ∷ ys) (inl refl),
        (
          m,
          All-join _ xs ((k, w) ∷ ys) (All-map xs (λ e g q. absurd (omega arith)) all)
              ((λ q. omega arith), All-map ys (λ e g q. omega arith) down),
        ),
      ),
    ),
  )
  left-Lowers xs k w ys before (some (none, s)) m up down (inr (j, (e, (at, (n, all))))) =
      let gt : val i k < val i j = key_in i (λ v. val i k < v) j xs at up in
      inr (
        j,
        (
          e,
          (
            Any-left _ xs ((k, w) ∷ ys) at,
            (
              n,
              All-join _ xs ((k, w) ∷ ys) all
                  ((λ q. omega arith), All-map ys (λ e g q. omega arith) down),
            ),
          ),
        ),
      )

  right-Lowers :
      (xs : List Item) (k w : AssocEntry) (ys : List Item) (before : Option AssocEntry)
      (o : Option (Option AssocEntry × SearchData))
      → x < val i k
      → All (λ e. val i k < val i e.0) xs
      → Lowers ys before o
      → Lowers (xs ++ ((k, w) ∷ ys)) before o
  right-Lowers xs k w ys before none m up h = tt
  right-Lowers xs k w ys before (some (some v, s)) m up h = tt
  right-Lowers xs k w ys before (some (none, s)) m up (inl (e, all)) =
      inl (e, All-join _ xs ((k, w) ∷ ys) (All-map xs (λ e g. omega arith) up) (omega arith, all))
  right-Lowers xs k w ys before (some (none, s)) m up (inr (j, (e, (at, (n, all))))) = inr (
    j,
    (
      e,
      (
        Any-right _ xs ((k, w) ∷ ys) (inr at),
        (
          n,
          All-join _ xs ((k, w) ∷ ys) (All-map xs (λ e g q. absurd (omega arith)) up)
              ((λ q. absurd (omega arith)), all),
        ),
      ),
    ),
  )

  pub search_lower :
      (t : Nodes AssocEntry) (s : SearchData)
      → Asks i x false s
      → x < 2 ^ 63
      → IsSorted i (in_order t)
      → IsBelow s.low_diff (in_order t)
      → Lowers (in_order t) s.lower (search_nodes mem_index_search s t)
  unfolding search_nodes
  search_lower leaf s a b h c = inl (refl, tt)
  search_lower (node l k w r) s a b h c =
      let (valued, _) = All-right _ (in_order l) ((k, w) ∷ in_order r) h.0 in
      let (near, rest) = All-right _ (in_order l) ((k, w) ∷ in_order r) c in
      let up = above_key i (in_order l) k w (in_order r) h.1 in
      elim (lt-cases (val i k) x) [
        | inl m ↦
            let d : sub64 (val s.offset k) s.value ≡ sub64 (val i k) x =
              ap (λ j. sub64 (val j k) s.value) a.1.0 ∙ ap (sub64 (val i k)) a.0 in
            let q = lowered_eq k s a.1.1 (ap (signed_lt s.low_diff) d ∙ near m) in
            let found : Lowers (in_order l) (some k)
                (search_nodes mem_index_search (lowered k s) l) =
              subst (λ o. Lowers (in_order l) o (search_nodes mem_index_search (lowered k s) l))
                (ap (λ s. s.lower) q)
                (search_lower l (lowered k s) (lowered-Asks i x false k s a) b
                  (IsSorted-left i (in_order l) (k, w) (in_order r) h)
                  (subst (λ n. IsBelow n (in_order l)) (sym (ap (λ s. s.low_diff) q ∙ d))
                    (All-map (in_order l) (λ e g n. closer (val i k) (val i e.0) x g n b) up))) in
            subst (Lowers (in_order l ++ ((k, w) ∷ in_order r)) s.lower)
              (sym (node_below i x false k w l r s a b valued m))
              (left-Lowers (in_order l) k w (in_order r) s.lower _ m up
                (below_key i (in_order l) k w (in_order r) h.1) found)
        | inr (inl m) ↦
            subst (Lowers (in_order l ++ ((k, w) ∷ in_order r)) s.lower)
              (sym (node_same i x false k w l r s a b valued m)) tt
        | inr (inr m) ↦
            let (q, d) = raised_lower k s in
            subst (Lowers (in_order l ++ ((k, w) ∷ in_order r)) s.lower)
              (sym (node_above i x false k w l r s a valued m))
              (right-Lowers (in_order l) k w (in_order r) s.lower _ m up (
                subst (λ o. Lowers (in_order r) o (search_nodes mem_index_search (raised k s) r)) q
                  (search_lower r (raised k s) (raised-Asks i x false k s a) b
                    (IsSorted-right i (in_order l) (k, w) (in_order r) h)
                    (subst (λ n. IsBelow n (in_order r)) (sym d) rest))))
      ]
