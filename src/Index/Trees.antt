-- ===== src/Index/Trees.antt =====
-- GLib's GTree, as uflv/gstmemindex.c uses it: a parameter of the model with what it documents.
use ubox_publisher.Common.{
  ℕ, ◌<◌, ◌≡◌, Option, none, some, List, [], ◌∷◌, ◌++◌, ltb, if◌then◌else◌, All,
}
use ubox_publisher.Common.Options.{◌>>=◌}

-- What a comparison returns, by its sign.
pub data Sign : Type 0 where
  negative null positive : Sign

-- The shape of a binary tree; a node has a key and a value.
pub data Nodes (K : Type 0) : Type 0 where
  leaf : Nodes K
  node : Nodes K → K → K → Nodes K → Nodes K

-- The order of the ranks, as a comparison tells it.
abbrev pub by_rank : ℕ → ℕ → Sign
by_rank a b = if ltb a b then negative else if ltb b a then positive else null

module _ {K : Type 0} where
  -- From the least key to the greatest.
  abbrev pub in_order : Nodes K → List (K × K)
  in_order leaf = []
  in_order (node l k v r) = in_order l ++ ((k, v) ∷ in_order r)

  -- By ranks: the place of a new key. A key that is there stays, with the new value.
  abbrev pub put : (K → ℕ) → K → K → List (K × K) → List (K × K)
  put rank k v [] = (k, v) ∷ []
  put rank k v ((a, w) ∷ rest) =
      let later = put rank k v rest in
      if ltb (rank k) (rank a)
      then (k, v) ∷ ((a, w) ∷ rest)
      else if ltb (rank a) (rank k)
      then (a, w) ∷ later
      else (a, v) ∷ rest

  abbrev pub Ascending : (K → ℕ) → List (K × K) → Type 0
  Ascending rank [] = Unit {0}
  Ascending rank ((a, w) ∷ rest) = All (λ e. rank a < rank e.0) rest × Ascending rank rest

  -- Where a search goes on from a node, with what the search function left in its data.
  abbrev pub turn_at :
      {S : Type 0}
      → K
      → (S → Option (Option K × S))
      → (S → Option (Option K × S))
      → Sign × S
      → Option (Option K × S)
  turn_at v left right (negative, s) = left s
  turn_at v left right (null, s) = some (some v, s)
  turn_at v left right (positive, s) = right s

  unfoldable pub search_nodes :
      {S : Type 0} → (K → S → Option (Sign × S)) → S → Nodes K → Option (Option K × S)
  search_nodes f s leaf = some (none, s)
  search_nodes f s (node l k v r) =
      f k s >>= turn_at v (λ s'. search_nodes f s' l) (λ s'. search_nodes f s' r)

-- g_tree_new, g_tree_insert and g_tree_search. A comparison may fail, and so fails what compares.
-- The tree that g_tree_insert makes is described where the comparison is by ranks and the keys are in
-- their order.
pub record Trees (K : Type 0) : Type 1 where
  pub Tree : Type 0
  pub nodes : Tree → Nodes K
  pub empty : Tree
  pub insert : (K → K → Option Sign) → K → K → Tree → Option Tree
  pub search : {S : Type 0} → (K → S → Option (Sign × S)) → S → Tree → Option (Option K × S)
  pub nodes-empty : nodes empty ≡ leaf
  pub search_lem :
      {S : Type 0} (f : K → S → Option (Sign × S)) (s : S) (t : Tree)
      → search f s t ≡ search_nodes f s (nodes t)
  pub insert_lem :
      (rank : K → ℕ) (cmp : K → K → Option Sign) (k v : K) (t : Tree)
      → Ascending rank (in_order (nodes t))
      → All (λ e. cmp k e.0 ≡ some (by_rank (rank k) (rank e.0))) (in_order (nodes t))
      → (t' : Tree) × ((insert cmp k v t ≡ some t')
          × (in_order (nodes t') ≡ put rank k v (in_order (nodes t))))
