-- ===== src/HashTable/Middle.antt =====
-- A node with nodes before and behind it on the list of a table: what a loop over the table needs.
use doorhinges.Base.{
  ℕ, suc, subst, ◌≤◌, ◌≡◌, refl, sym, ap, ◌∙◌, true, false, not, Option, none, some, List, [], ◌∷◌,
  ◌++◌, arith, ◌==◌, length, head?, if◌then◌else◌, Bool-cases, inl, inr, ==_refl, keep-append,
  eq_nil_of_length,
}
use doorhinges.Buckets.{Key, matches, slot}
use doorhinges.HashTable.{
  Node, HashTable, tnext, unlink, find_key, erase_node, eg_ht_begin, eg_ht_next, ht_erase_bucket,
  eg_ht_find, ht_insert_bucket, link_node, node_key,
}
use doorhinges.HashTable.Valid.{
  IsValid, has_ptr, PtrsDistinct, find_key-held, link_node-IsValid, held-link_node,
}
use doorhinges.HashTable.Erase.{erase_node-IsValid, unlink_absent}

module _ {ℓ} {K V : Type ℓ} where
  abbrev pub first : List (Node K V) → Option ℕ
  first [] = none
  first (n ∷ ns) = some n.ptr

  pub eg_ht_begin-first : (t : HashTable K V) → eg_ht_begin (some t) ≡ first t.tlist
  unfolding eg_ht_begin
  eg_ht_begin-first t = ground arith

  has_ptr_middle :
      (pre : List (Node K V)) (n : Node K V) (ns : List (Node K V))
      → has_ptr n.ptr (pre ++ n ∷ ns) ≡ true
  has_ptr_middle [] n ns = ground arith
  has_ptr_middle (m ∷ pre) n ns = ground (arith, has_ptr_middle pre n ns)

  -- The ways in which two nodes of a table are apart.
  apart_middle :
      (m : Node K V) (pre : List (Node K V)) (n : Node K V) (ns : List (Node K V))
      → has_ptr m.ptr (pre ++ n ∷ ns) ≡ false
      → (m.ptr == n.ptr) ≡ false
  apart_middle m [] n ns d = ground arith
  apart_middle m (l ∷ pre) n ns d = apart_middle m pre n ns (ground arith)

  -- The address of a node is not that of one before it, nor of one behind it.
  pub distinct_middle :
      (pre : List (Node K V)) (n : Node K V) (ns : List (Node K V))
      → PtrsDistinct (pre ++ n ∷ ns)
      → (has_ptr n.ptr pre ≡ false) × (has_ptr n.ptr ns ≡ false)
  distinct_middle [] n ns d = (refl, d.0)
  distinct_middle (m ∷ pre) n ns d =
      let (before, behind) = distinct_middle pre n ns d.1 in
      (ground (arith, apart_middle m pre n ns d.0), behind)

  tnext_middle :
      (pre : List (Node K V)) (n : Node K V) (ns : List (Node K V))
      → has_ptr n.ptr pre ≡ false
      → tnext n.ptr (pre ++ n ∷ ns) ≡ first ns
  unfolding tnext
  tnext_middle [] n [] before = refl
  tnext_middle [] n (m ∷ ns) before = ground arith
  tnext_middle (l ∷ []) n ns before = ground (arith, tnext_middle [] n ns)
  tnext_middle (l ∷ m ∷ pre) n ns before = ground (arith, tnext_middle (m ∷ pre) n ns)

  unlink_middle :
      (pre : List (Node K V)) (n : Node K V) (ns : List (Node K V))
      → PtrsDistinct (pre ++ n ∷ ns)
      → unlink n.ptr (pre ++ n ∷ ns) ≡ pre ++ ns
  unlink_middle pre n ns d =
      let (before, behind) = distinct_middle pre n ns d in
      keep-append (λ m. not (m.ptr == n.ptr)) pre (n ∷ ns)
      ∙ rw (==_refl n.ptr, unlink_absent n.ptr pre before, unlink_absent n.ptr ns behind) refl

module _ {ℓ} {K V : Type ℓ} ⦃key : Key K⦄ where
  head?-matches_middle :
      (pre : List (Node K V)) (n : Node K V) (ns : List (Node K V))
      → length (matches node_key n.key (pre ++ n ∷ ns)) ≤ 1
      → head? (matches node_key n.key (pre ++ n ∷ ns)) ≡ some n
  head?-matches_middle [] n ns one = rw (key.compare_refl n.key) refl
  head?-matches_middle (m ∷ pre) n ns one = elim (Bool-cases (key.compare n.key m.key)) [
    | inl hit ↦
        let others : suc (length (matches node_key n.key (pre ++ n ∷ ns))) ≤ 1 = rw hit at one in
        let found = head?-matches_middle pre n ns (omega (arith, others)) in
        let nothing =
          eq_nil_of_length (matches node_key n.key (pre ++ n ∷ ns)) (omega (arith, others)) in
        absurd (cc (found, ap head? nothing))
    | inr miss ↦ rw miss (head?-matches_middle pre n ns (rw miss at one))
  ]

  module _ {t : HashTable K V} (pre : List (Node K V)) (n : Node K V) (ns : List (Node K V))
      (v : IsValid t) (e : t.tlist ≡ pre ++ n ∷ ns) where
    distinct : PtrsDistinct (pre ++ n ∷ ns)
    distinct = rw (← e) v.distinct

    pub eg_ht_next_middle : eg_ht_next t n.ptr ≡ first ns
    unfolding eg_ht_next
    eg_ht_next_middle =
        ap (tnext n.ptr) e ∙ tnext_middle pre n ns (distinct_middle pre n ns distinct).0

    -- A node of a table is found under its key.
    pub find_key_middle : find_key t n.key ≡ some n
    find_key_middle =
        find_key-held n.key v
        ∙ ap (λ l. head? (matches node_key n.key l)) e
        ∙ head?-matches_middle pre n ns
            (subst (λ l. length (matches node_key n.key l) ≤ 1) e (v.unique n.key))

    -- `ht_erase_bucket` in the middle of a loop: the table stays well formed, less the node, and the
    -- iterator is the next node.
    pub ht_erase_bucket_middle :
        (t' : HashTable K V) × (ht_erase_bucket (some t) (some n.ptr) ≡ (some t', first ns))
        × IsValid t'
        × (t'.tlist ≡ pre ++ ns)
    unfolding ht_erase_bucket erase_node eg_ht_next
    ht_erase_bucket_middle = (
      erase_node n.ptr t,
      ap (λ i. (some (erase_node n.ptr t), i)) eg_ht_next_middle,
      erase_node-IsValid n.key n v find_key_middle,
      ap (unlink n.ptr) e ∙ unlink_middle pre n ns distinct,
    )

  -- `ht_insert_bucket` of a key that is held changes nothing.
  pub ht_insert_bucket_held :
      (t : HashTable K V) (b n : Node K V)
      → find_key t b.key ≡ some n
      → ht_insert_bucket (some t) (some b) ≡ some t
  unfolding ht_insert_bucket
  ht_insert_bucket_held t b n h = ground arith

  -- `ht_insert_bucket` of another key, at an address that no node has, keeps the table well formed
  -- and holds the node.
  pub ht_insert_bucket_new :
      (t : HashTable K V) (b : Node K V)
      → IsValid t
      → find_key t b.key ≡ none
      → has_ptr b.ptr t.tlist ≡ false
      → (t' : HashTable K V) × (ht_insert_bucket (some t) (some b) ≡ some t')
        × IsValid t'
        × (t'.tlist ≡ b ∷ t.tlist)
        × ((k : K) → find_key t' k ≡ (if key.compare k b.key then some b else find_key t k))
  unfolding ht_insert_bucket link_node
  ht_insert_bucket_new t b v new fresh =
      let valid = link_node-IsValid b v (sym (find_key-held b.key v) ∙ new) fresh in
      (
        link_node (slot t.size b.key) b t,
        ground arith,
        valid,
        refl,
        λ k.
            find_key-held k valid
            ∙ held-link_node (slot t.size b.key) b t k
            ∙ ap (λ f. if key.compare k b.key then some b else f) (sym (find_key-held k v)),
      )

  pub eg_ht_find_key : (t : HashTable K V) (k : K) → eg_ht_find (some t) (some k) ≡ find_key t k
  unfolding eg_ht_find
  eg_ht_find_key t k = refl
