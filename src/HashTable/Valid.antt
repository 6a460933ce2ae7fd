-- ===== src/HashTable/Valid.antt =====
-- When a table is well formed, and what a lookup in such a table finds.
use doorhinges.Base.{
  ℕ, ◌%◌, ◌≤◌, ◌<◌, ◌≡◌, refl, ◌∙◌, Bool, false, ◌||◌, Option, none, some, List, [], ◌∷◌, arith,
  length, head?, eq_nil_of_head?, if◌then◌else◌, Bool-cases, inl, inr, ◌==◌, ap,
}
use doorhinges.Buckets.{
  Key, slot, chain_at, found, matches, matches_congr, found-push_front, length-push_front,
}
use doorhinges.HashTable.{Node, HashTable, u64_mod, node_key, find_node, find_key, link_node}

-- Whether a node of a list has an address.
abbrev pub has_ptr {ℓ} : {K V : Type ℓ} → ℕ → List (Node K V) → Bool
has_ptr p [] = false
has_ptr p (n ∷ ns) = n.ptr == p || has_ptr p ns

abbrev pub PtrsDistinct {ℓ} : {K V : Type ℓ} → List (Node K V) → Type 0
PtrsDistinct [] = Unit {0}
PtrsDistinct (n ∷ ns) = (has_ptr n.ptr ns ≡ false) × PtrsDistinct ns

module _ {ℓ} {K V : Type ℓ} ⦃key : Key K⦄ where
  -- The array has the table's size, the count is that of the nodes, each key has at most one node
  -- and is found in its chain exactly if the table holds it, and no two nodes share an address.
  pub record IsValid (t : HashTable K V) : Type ℓ where
    pub sized : length t.hlist ≡ t.size
    pub pos : 0 < t.size
    pub counted : t.elements ≡ length t.tlist % u64_mod
    pub agree : (k : K) → found node_key t.size k t.hlist ≡ matches node_key k t.tlist
    pub unique : (k : K) → length (matches node_key k t.tlist) ≤ 1
    pub distinct : PtrsDistinct t.tlist

  -- The node that a table holds under a key: what the table means.
  abbrev pub held : HashTable K V → K → Option (Node K V)
  held t k = head? (matches node_key k t.tlist)

  pub find_node-head? :
      (k : K) (ns : List (Node K V)) → find_node k ns ≡ head? (matches node_key k ns)
  unfolding find_node
  find_node-head? k [] = refl
  find_node-head? k (n ∷ ns) = ground (arith, find_node-head? k ns)

  pub find_key-held : {t : HashTable K V} (k : K) → IsValid t → find_key t k ≡ held t k
  unfolding find_key
  find_key-held {t} k v =
      find_node-head? k (chain_at t.hlist (slot t.size k)) ∙ ap head? (v.agree k)

  module _ (n : Node K V) {t : HashTable K V} (v : IsValid t) (new : held t n.key ≡ none) where
    link_node_unique :
        (k : K) → length (matches node_key k (link_node (slot t.size n.key) n t).tlist) ≤ 1
    unfolding link_node
    link_node_unique k = elim (Bool-cases (key.compare k n.key)) [
      | inl same ↦
          rw same
            (rw (matches_congr node_key k n.key t.tlist same, eq_nil_of_head? _ new) (omega arith))
      | inr apart ↦ rw apart (v.unique k)
    ]

    -- A node under a new key and at a new address, linked into its chain, keeps the table well
    -- formed.
    pub link_node-IsValid :
        has_ptr n.ptr t.tlist ≡ false → IsValid (link_node (slot t.size n.key) n t)
    unfolding link_node
    link_node-IsValid fresh = record {
      sized = length-push_front (slot t.size n.key) n t.hlist ∙ v.sized;
      pos = v.pos;
      counted = omega (arith, v.counted);
      agree = λ k. rw (found-push_front node_key t.size k n t.hlist v.sized v.pos, v.agree k) refl;
      unique = link_node_unique;
      distinct = (fresh, v.distinct);
    }

  -- After `link_node` the node is held under its key, and all else is as before.
  pub held-link_node :
      (h : ℕ) (n : Node K V) (t : HashTable K V) (q : K)
      → held (link_node h n t) q ≡ (if key.compare q n.key then some n else held t q)
  unfolding link_node
  held-link_node h n t q = ground arith
