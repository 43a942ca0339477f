-- ===== src/Index/Memory/Higher.antt =====
-- What `higher` is after a search that found no entry with the value.
use ubox_publisher.Common.{
  lt-cases, ℕ, ◌-◌, ◌^◌, ◌≤◌, ◌<◌, ◌≡◌, refl, sym, ap, ◌∙◌, subst, Bool, true, false, Option, none,
  some, List, ◌∷◌, ◌++◌, ◌⊎◌, inl, inr, if◌then◌else◌, sub64, All, Any, arith, All-left, All-right,
  All-join, All-map, Any-left, Any-right,
}
use ubox_publisher.Index.Entry.{AssocEntry}
use ubox_publisher.Index.Trees.{Nodes, leaf, node, in_order, search_nodes}
use ubox_publisher.Index.Memory.{SearchData, signed_lt, note_higher, mem_index_search}
use ubox_publisher.Index.Memory.Search.{val, lowered, raised}
use ubox_publisher.Index.Memory.Found.{
  Item, IsSorted, IsSorted-left, IsSorted-right, above_key, below_key, Asks, lowered-Asks,
  raised-Asks, node_same, node_below, node_above, key_in,
}

raised_eq :
    (k : AssocEntry) (s : SearchData)
    → s.exact ≡ false
    → signed_lt (sub64 (val s.offset k) s.value) s.high_diff ≡ true
    → raised k s ≡ record s { higher = some k; high_diff = sub64 (val s.offset k) s.value }
raised_eq k s e c =
    ap (λ b. if b then s else note_higher k (sub64 (val s.offset k) s.value) s) e
    ∙ ap
        (λ b.
          if b then record s { higher = some k; high_diff = sub64 (val s.offset k) s.value } else s)
        c

if_higher :
    (higher : Option AssocEntry) (diff : ℕ) (b : Bool) (s t : SearchData)
    → (s.higher ≡ higher) × (s.high_diff ≡ diff)
    → (t.higher ≡ higher) × (t.high_diff ≡ diff)
    → ((if b then s else t).higher ≡ higher) × ((if b then s else t).high_diff ≡ diff)
if_higher higher diff true s t h k = h
if_higher higher diff false s t h k = k

lowered_higher :
    (k : AssocEntry) (s : SearchData)
    → ((lowered k s).higher ≡ s.higher) × ((lowered k s).high_diff ≡ s.high_diff)
lowered_higher k s =
    if_higher s.higher s.high_diff s.exact s _ (refl, refl)
      (if_higher s.higher s.high_diff (signed_lt s.low_diff _) _ s (refl, refl) (refl, refl))

-- The values above `x` differ the less from it the lesser they are.
nearer : (a b x : ℕ) → x < b → b < a → a < 2 ^ 63 - 1 → signed_lt (sub64 b x) (sub64 a x) ≡ true
nearer a b x l m h = ground arith

module _ (i x : ℕ) where
  -- The keys above `x` are nearer to it than `high_diff`.
  abbrev pub IsAbove : ℕ → List Item → Type 0
  IsAbove diff es = All (λ e. x < val i e.0 → signed_lt (sub64 (val i e.0) x) diff ≡ true) es

  -- The key with the least value above `x`, or what was there if none is above it.
  abbrev pub IsHigher : List Item → Option AssocEntry → Option AssocEntry → Type 0
  IsHigher es before after =
      ((after ≡ before) × All (λ e. val i e.0 ≤ x) es)
      ⊎ ((k : AssocEntry) × ((after ≡ some k)
            × (Any (λ e. e.0 ≡ k) es
                × ((x < val i k) × All (λ e. x < val i e.0 → val i k ≤ val i e.0) es))))

  abbrev pub Highers :
      List Item → Option AssocEntry → Option (Option AssocEntry × SearchData) → Type 0
  Highers es before (some (none, s)) = IsHigher es before s.higher
  Highers es before (some (some w, s)) = Unit {0}
  Highers es before none = Unit {0}

  right-Highers :
      (xs : List Item) (k w : AssocEntry) (ys : List Item) (before : Option AssocEntry)
      (o : Option (Option AssocEntry × SearchData))
      → x < val i k
      → All (λ e. val i k < val i e.0) xs
      → All (λ e. val i e.0 < val i k) ys
      → Highers ys (some k) o
      → Highers (xs ++ ((k, w) ∷ ys)) before o
  right-Highers xs k w ys before none m up down h = tt
  right-Highers xs k w ys before (some (some v, s)) m up down h = tt
  right-Highers xs k w ys before (some (none, s)) m up down (inl (e, all)) = inr (
    k,
    (
      e,
      (
        Any-right _ xs ((k, w) ∷ ys) (inl refl),
        (
          m,
          All-join _ xs ((k, w) ∷ ys) (All-map xs (λ e g q. omega arith) up)
              ((λ q. omega arith), All-map ys (λ e g q. absurd (omega arith)) all),
        ),
      ),
    ),
  )
  right-Highers xs k w ys before (some (none, s)) m up down (inr (j, (e, (at, (n, all))))) =
      let lt : val i j < val i k = key_in i (λ v. v < val i k) j ys at down in
      inr (
        j,
        (
          e,
          (
            Any-right _ xs ((k, w) ∷ ys) (inr at),
            (
              n,
              All-join _ xs ((k, w) ∷ ys) (All-map xs (λ e g q. omega arith) up)
                  ((λ q. omega arith), all),
            ),
          ),
        ),
      )

  left-Highers :
      (xs : List Item) (k w : AssocEntry) (ys : List Item) (before : Option AssocEntry)
      (o : Option (Option AssocEntry × SearchData))
      → val i k < x
      → All (λ e. val i e.0 < val i k) ys
      → Highers xs before o
      → Highers (xs ++ ((k, w) ∷ ys)) before o
  left-Highers xs k w ys before none m down h = tt
  left-Highers xs k w ys before (some (some v, s)) m down h = tt
  left-Highers xs k w ys before (some (none, s)) m down (inl (e, all)) =
      inl (e, All-join _ xs ((k, w) ∷ ys) all (omega arith, All-map ys (λ e g. omega arith) down))
  left-Highers xs k w ys before (some (none, s)) m down (inr (j, (e, (at, (n, all))))) = inr (
    j,
    (
      e,
      (
        Any-left _ xs ((k, w) ∷ ys) at,
        (
          n,
          All-join _ xs ((k, w) ∷ ys) all
              ((λ q. absurd (omega arith)), All-map ys (λ e g q. absurd (omega arith)) down),
        ),
      ),
    ),
  )

  pub search_higher :
      (t : Nodes AssocEntry) (s : SearchData)
      → Asks i x false s
      → x < 2 ^ 63
      → IsSorted i (in_order t)
      → IsAbove s.high_diff (in_order t)
      → Highers (in_order t) s.higher (search_nodes mem_index_search s t)
  unfolding search_nodes
  search_higher leaf s a b h c = inl (refl, tt)
  search_higher (node l k w r) s a b h c =
      let (valued, _) = All-right _ (in_order l) ((k, w) ∷ in_order r) h.0 in
      let (near, rest) = All-right _ (in_order l) ((k, w) ∷ in_order r) c in
      let down = below_key i (in_order l) k w (in_order r) h.1 in
      elim (lt-cases (val i k) x) [
        | inl m ↦
            let (q, d) = lowered_higher k s in
            subst (Highers (in_order l ++ ((k, w) ∷ in_order r)) s.higher)
              (sym (node_below i x false k w l r s a b valued m))
              (left-Highers (in_order l) k w (in_order r) s.higher _ m down (
                subst (λ o. Highers (in_order l) o (search_nodes mem_index_search (lowered k s) l))
                  q
                  (search_higher l (lowered k s) (lowered-Asks i x false k s a) b
                    (IsSorted-left i (in_order l) (k, w) (in_order r) h)
                    (subst (λ n. IsAbove n (in_order l)) (sym d)
                      (All-left _ (in_order l) ((k, w) ∷ in_order r) c)))))
        | inr (inl m) ↦
            subst (Highers (in_order l ++ ((k, w) ∷ in_order r)) s.higher)
              (sym (node_same i x false k w l r s a b valued m)) tt
        | inr (inr m) ↦
            let d : sub64 (val s.offset k) s.value ≡ sub64 (val i k) x =
              ap (λ j. sub64 (val j k) s.value) a.1.0 ∙ ap (sub64 (val i k)) a.0 in
            let q = raised_eq k s a.1.1 (ap (λ n. signed_lt n s.high_diff) d ∙ near m) in
            let found : Highers (in_order r) (some k)
                (search_nodes mem_index_search (raised k s) r) =
              subst (λ o. Highers (in_order r) o (search_nodes mem_index_search (raised k s) r))
                (ap (λ s. s.higher) q)
                (search_higher r (raised k s) (raised-Asks i x false k s a) b
                  (IsSorted-right i (in_order l) (k, w) (in_order r) h)
                  (subst (λ n. IsAbove n (in_order r)) (sym (ap (λ s. s.high_diff) q ∙ d))
                    (All-map (in_order r) (λ e g n. nearer (val i k) (val i e.0) x n g valued.1)
                      down))) in
            subst (Highers (in_order l ++ ((k, w) ∷ in_order r)) s.higher)
              (sym (node_above i x false k w l r s a valued m))
              (right-Highers (in_order l) k w (in_order r) s.higher _ m
                (above_key i (in_order l) k w (in_order r) h.1) down found)
      ]
