-- ===== src/Index/Memory/Found.antt =====
-- What a search in the tree of a format finds: the value itself, or what is next to it.
use ubox_publisher.Common.{
  lt-cases, ℕ, ◌^◌, ◌<◌, ◌≡◌, ◌≢◌, refl, sym, ap, ◌∙◌, subst, Bool, true, false, Option, none, some,
  List, [], ◌∷◌, ◌++◌, inl, inr, if◌then◌else◌, All, Any, arith, All-left, All-right, All-join,
  All-map, Any-left, Any-right,
}
use ubox_publisher.Index.Entry.{AssocEntry}
use ubox_publisher.Index.Trees.{Nodes, leaf, node, in_order, Ascending, search_nodes}
use ubox_publisher.Index.Memory.{SearchData, signed_lt, mem_index_search}
use ubox_publisher.Index.Memory.Search.{
  val, IsValued, rank_at, lowered, raised, search_same, search_below, search_above,
}

abbrev pub Item : Type 0
Item = AssocEntry × AssocEntry

module _ (i : ℕ) where
  -- The keys of a tree have values, the greatest of them first.
  abbrev pub IsSorted : List Item → Type 0
  IsSorted es = All (λ e. IsValued i e.0) es × Ascending (rank_at i) es

  Ascending-left : (xs ys : List Item) → Ascending (rank_at i) (xs ++ ys) → Ascending (rank_at i) xs
  Ascending-left [] ys h = tt
  Ascending-left (x ∷ xs) ys (h, k) = (All-left _ xs ys h, Ascending-left xs ys k)

  Ascending-right :
      (xs ys : List Item) → Ascending (rank_at i) (xs ++ ys) → Ascending (rank_at i) ys
  Ascending-right [] ys h = h
  Ascending-right (x ∷ xs) ys (h, k) = Ascending-right xs ys k

  -- What stands in front of a key has greater values, and what follows it lesser ones.
  pub above_key :
      (xs : List Item) (k w : AssocEntry) (ys : List Item)
      → Ascending (rank_at i) (xs ++ ((k, w) ∷ ys))
      → All (λ e. val i k < val i e.0) xs
  above_key [] k w ys h = tt
  above_key (x ∷ xs) k w ys (h, r) =
      let (first, _) = All-right (λ e. rank_at i x.0 < rank_at i e.0) xs ((k, w) ∷ ys) h in
      (omega arith, above_key xs k w ys r)

  pub below_key :
      (xs : List Item) (k w : AssocEntry) (ys : List Item)
      → Ascending (rank_at i) (xs ++ ((k, w) ∷ ys))
      → All (λ e. val i e.0 < val i k) ys
  below_key xs k w ys h =
      let (r, _) = Ascending-right xs ((k, w) ∷ ys) h in All-map ys (λ e l. omega arith) r

  pub IsSorted-left :
      (xs : List Item) (e : Item) (ys : List Item) → IsSorted (xs ++ (e ∷ ys)) → IsSorted xs
  IsSorted-left xs e ys (h, k) = (All-left _ xs (e ∷ ys) h, Ascending-left xs (e ∷ ys) k)

  pub IsSorted-right :
      (xs : List Item) (e : Item) (ys : List Item) → IsSorted (xs ++ (e ∷ ys)) → IsSorted ys
  IsSorted-right xs e ys (h, k) = ((All-right _ xs (e ∷ ys) h).1, (Ascending-right xs (e ∷ ys) k).1)

  -- A found entry stands under a key with the value; otherwise no key has it.
  abbrev pub Hits : ℕ → List Item → Option AssocEntry → Type 0
  Hits x es (some w) = Any (λ e. (val i e.0 ≡ x) × (e.1 ≡ w)) es
  Hits x es none = All (λ e. val i e.0 ≢ x) es

  Hits-left :
      (x : ℕ) (xs : List Item) (e : Item) (ys : List Item) (r : Option AssocEntry)
      → val i e.0 ≢ x
      → All (λ e. val i e.0 ≢ x) ys
      → Hits x xs r
      → Hits x (xs ++ (e ∷ ys)) r
  Hits-left x xs e ys none n h k = All-join _ xs (e ∷ ys) k (n, h)
  Hits-left x xs e ys (some w) n h k = Any-left _ xs (e ∷ ys) k

  Hits-right :
      (x : ℕ) (xs : List Item) (e : Item) (ys : List Item) (r : Option AssocEntry)
      → val i e.0 ≢ x
      → All (λ e. val i e.0 ≢ x) xs
      → Hits x ys r
      → Hits x (xs ++ (e ∷ ys)) r
  Hits-right x xs e ys none n h k = All-join _ xs (e ∷ ys) h (n, k)
  Hits-right x xs e ys (some w) n h k = Any-right _ xs (e ∷ ys) (inr k)

  -- The data asks for a value at the place.
  abbrev pub Asks : ℕ → Bool → SearchData → Type 0
  Asks x exact s = (s.value ≡ x) × ((s.offset ≡ i) × (s.exact ≡ exact))

  if_Asks :
      (x : ℕ) (exact b : Bool) (s t : SearchData)
      → Asks x exact s
      → Asks x exact t
      → Asks x exact (if b then s else t)
  if_Asks x exact true s t h k = h
  if_Asks x exact false s t h k = k

  pub lowered-Asks :
      (x : ℕ) (exact : Bool) (k : AssocEntry) (s : SearchData)
      → Asks x exact s
      → Asks x exact (lowered k s)
  lowered-Asks x exact k s h =
      if_Asks x exact s.exact _ _ h (if_Asks x exact (signed_lt s.low_diff _) _ _ h h)

  pub raised-Asks :
      (x : ℕ) (exact : Bool) (k : AssocEntry) (s : SearchData)
      → Asks x exact s
      → Asks x exact (raised k s)
  raised-Asks x exact k s h =
      if_Asks x exact s.exact _ _ h (if_Asks x exact (signed_lt _ s.high_diff) _ _ h h)

  -- A node at which the search ends, goes to the greater values, or to the lesser ones.
  pub node_same :
      (x : ℕ) (exact : Bool) (k w : AssocEntry) (l r : Nodes AssocEntry) (s : SearchData)
      → Asks x exact s
      → x < 2 ^ 63
      → IsValued i k
      → val i k ≡ x
      → search_nodes mem_index_search s (node l k w r) ≡ some (some w, s)
  node_same x exact k w l r s (v, (o, _)) b h e =
      search_same k w l r s (subst (λ j. IsValued j k) (sym o) h) (omega arith)
        (ap (λ j. val j k) o ∙ e ∙ sym v)

  pub node_below :
      (x : ℕ) (exact : Bool) (k w : AssocEntry) (l r : Nodes AssocEntry) (s : SearchData)
      → Asks x exact s
      → x < 2 ^ 63
      → IsValued i k
      → val i k < x
      → search_nodes mem_index_search s (node l k w r)
        ≡ search_nodes mem_index_search (lowered k s) l
  node_below x exact k w l r s (v, (o, _)) b h e =
      let at : val s.offset k ≡ val i k = ap (λ j. val j k) o in
      search_below k w l r s (subst (λ j. IsValued j k) (sym o) h) (omega arith) (omega arith)

  pub node_above :
      (x : ℕ) (exact : Bool) (k w : AssocEntry) (l r : Nodes AssocEntry) (s : SearchData)
      → Asks x exact s
      → IsValued i k
      → x < val i k
      → search_nodes mem_index_search s (node l k w r)
        ≡ search_nodes mem_index_search (raised k s) r
  node_above x exact k w l r s (v, (o, _)) h e =
      let at : val s.offset k ≡ val i k = ap (λ j. val j k) o in
      search_above k w l r s (subst (λ j. IsValued j k) (sym o) h) (omega arith)

  -- A search ends, with an entry of the value if there is one.
  pub search-Hits :
      (x : ℕ) (exact : Bool) (t : Nodes AssocEntry) (s : SearchData)
      → Asks x exact s
      → x < 2 ^ 63
      → IsSorted (in_order t)
      → (r : Option AssocEntry) × ((s' : SearchData) × ((search_nodes mem_index_search s t
              ≡ some (r, s'))
            × Hits x (in_order t) r))
  unfolding search_nodes
  search-Hits x exact leaf s a b h = (none, (s, (refl, tt)))
  search-Hits x exact (node l k w r) s a b h =
      let (valued, _) = All-right _ (in_order l) ((k, w) ∷ in_order r) h.0 in
      elim (lt-cases (val i k) x) [
        | inl m ↦
            let (found, (s', (e, hit))) =
              search-Hits x exact l (lowered k s) (lowered-Asks x exact k s a) b
                (IsSorted-left (in_order l) (k, w) (in_order r) h) in
            (
              found,
              (
                s',
                (
                  node_below x exact k w l r s a b valued m ∙ e,
                  Hits-left x (in_order l) (k, w) (in_order r) found (λ q. absurd (omega arith))
                      (All-map (in_order r) (λ e g q. absurd (omega arith))
                        (below_key (in_order l) k w (in_order r) h.1))
                      hit,
                ),
              ),
            )
        | inr (inl m) ↦ (
          some w,
          (
            s,
            (
              node_same x exact k w l r s a b valued m,
              Any-right _ (in_order l) ((k, w) ∷ in_order r) (inl (m, refl)),
            ),
          ),
        )
        | inr (inr m) ↦
            let (found, (s', (e, hit))) =
              search-Hits x exact r (raised k s) (raised-Asks x exact k s a) b
                (IsSorted-right (in_order l) (k, w) (in_order r) h) in
            (
              found,
              (
                s',
                (
                  node_above x exact k w l r s a valued m ∙ e,
                  Hits-right x (in_order l) (k, w) (in_order r) found (λ q. absurd (omega arith))
                      (All-map (in_order l) (λ e g q. absurd (omega arith))
                        (above_key (in_order l) k w (in_order r) h.1))
                      hit,
                ),
              ),
            )
      ]

  -- A key among items of which something is known.
  pub key_in :
      (P : ℕ → Type 0) (k : AssocEntry) (es : List Item)
      → Any (λ e. e.0 ≡ k) es
      → All (λ e. P (val i e.0)) es
      → P (val i k)
  key_in P k [] h a = absurd h.1
  key_in P k (e ∷ es) (inl q) (a, _) = subst (λ k. P (val i k)) q a
  key_in P k (e ∷ es) (inr h) (_, a) = key_in P k es h a
