-- ===== src/HashTable/Erase.antt =====
-- `eg_ht_erase`, `eg_ht_remove`, `ht_erase_bucket`, `ht_remove_bucket`, and the clearing of a table.
use doorhinges.Base.{
  ℕ, ◌+◌, ◌<◌, ◌≡◌, refl, ◌∙◌, Bool, true, false, not, Option, none, some, List, [], ◌∷◌, map,
  arith, length, head?, if◌then◌else◌, Bool-cases, inl, inr, ◌==◌, sym, ap, length-keep,
  keep-keep_comm, get_or-map, length-map, eq_singleton, eq_nil_of_length, ==_refl, ==_iff,
  length-replicate,
}
use doorhinges.Buckets.{Key, slot, chain_at, matches, matches_congr, compare_congr_left}
use doorhinges.HashTable.{
  Node, HashTable, u64_mod, node_key, find_key, erase_node, unlink, eg_ht_erase, eg_ht_remove,
  eg_ht_find, ht_erase_bucket, ht_remove_bucket, eg_ht_clear, ht_clear_bucket, eg_ht_empty,
  eg_ht_capacity,
}
use doorhinges.HashTable.Insert.{found-replicate}
use doorhinges.HashTable.Valid.{IsValid, held, has_ptr, PtrsDistinct, find_key-held}

module _ {ℓ} {K V : Type ℓ} where
  has_ptr-unlink :
      (p q : ℕ) (ns : List (Node K V)) → has_ptr p ns ≡ false → has_ptr p (unlink q ns) ≡ false
  has_ptr-unlink p q [] h = refl
  has_ptr-unlink p q (n ∷ ns) h = ground (arith, has_ptr-unlink p q ns)

  unlink-PtrsDistinct :
      (p : ℕ) (ns : List (Node K V)) → PtrsDistinct ns → PtrsDistinct (unlink p ns)
  unlink-PtrsDistinct p [] d = tt
  unlink-PtrsDistinct p (n ∷ ns) d = elim (Bool-cases (n.ptr == p)) [
    | inl hit ↦ rw hit (unlink-PtrsDistinct p ns d.1)
    | inr miss ↦ rw miss (has_ptr-unlink n.ptr p ns d.0, unlink-PtrsDistinct p ns d.1)
  ]

  pub unlink_absent : (p : ℕ) (ns : List (Node K V)) → has_ptr p ns ≡ false → unlink p ns ≡ ns
  unlink_absent p [] h = refl
  unlink_absent p (n ∷ ns) h = ground (arith, unlink_absent p ns)

  length-unlink :
      (p : ℕ) (ns : List (Node K V))
      → PtrsDistinct ns
      → has_ptr p ns ≡ true
      → length (unlink p ns) + 1 ≡ length ns
  length-unlink p [] d h = cc
  length-unlink p (n ∷ ns) d h = elim (Bool-cases (n.ptr == p)) [
    | inl hit ↦
        let same : n.ptr ≡ p = ground arith in
        rw hit (rw (unlink_absent p ns (rw same at d.0)) (omega arith))
    | inr miss ↦ rw miss (ground (arith, length-unlink p ns d.1))
  ]

module _ {ℓ} {K V : Type ℓ} ⦃key : Key K⦄ where
  -- The node that is found under a key is on the list, and its key compares equal.
  has_ptr-held :
      (k : K) (n : Node K V) (ns : List (Node K V))
      → head? (matches node_key k ns) ≡ some n
      → (has_ptr n.ptr ns ≡ true) × (key.compare k n.key ≡ true)
  has_ptr-held k n [] h = cc
  has_ptr-held k n (m ∷ ns) h = ground (arith, has_ptr-held k n ns)

  has_ptr-matches :
      (p : ℕ) (q : K) (ns : List (Node K V))
      → has_ptr p ns ≡ false
      → has_ptr p (matches node_key q ns) ≡ false
  has_ptr-matches p q [] h = refl
  has_ptr-matches p q (n ∷ ns) h = ground (arith, has_ptr-matches p q ns)

  -- The entries under another key do not have the address of the node that is found under `k`.
  unlink_other :
      (k q : K) (n : Node K V) (ns : List (Node K V))
      → PtrsDistinct ns
      → head? (matches node_key k ns) ≡ some n
      → key.compare q k ≡ false
      → unlink n.ptr (matches node_key q ns) ≡ matches node_key q ns
  unlink_other k q n [] d h apart = refl
  unlink_other k q n (m ∷ ns) d h apart = elim (Bool-cases (key.compare k m.key)) [
    | inl hit ↦
        let same : m ≡ n = ground arith in
        let miss : key.compare q m.key ≡ false =
          ground
            (arith, compare_congr_left k m.key q, key.compare_symm q m.key, key.compare_symm q k) in
        rw (miss, ← same)
          (unlink_absent m.ptr (matches node_key q ns) (has_ptr-matches m.ptr q ns d.0))
    | inr miss ↦
        let later : head? (matches node_key k ns) ≡ some n = rw miss at h in
        let rest = unlink_other k q n ns d.1 later apart in
        ground (arith, rest, (has_ptr-held k n ns later).0)
  ]

  module _ {t : HashTable K V} (k : K) (n : Node K V) (v : IsValid t)
      (holds : find_key t k ≡ some n) where
    is_held : held t k ≡ some n
    is_held = sym (find_key-held k v) ∙ holds

    abbrev is_match : K → Node K V → Bool
    is_match q m = key.compare q m.key

    abbrev is_kept : Node K V → Bool
    is_kept m = not (m.ptr == n.ptr)

    -- Unlinking the node that is found under a key keeps the table well formed.
    pub erase_node-IsValid : IsValid (erase_node n.ptr t)
    unfolding erase_node
    erase_node-IsValid = record {
      sized = length-map (unlink n.ptr) t.hlist ∙ v.sized;
      pos = v.pos;
      counted = omega (
        arith,
        v.counted,
        length-unlink n.ptr t.tlist v.distinct (has_ptr-held k n t.tlist is_held).0,
      );
      agree = λ q.
          ap (matches node_key q) (get_or-map (unlink n.ptr) t.hlist (slot t.size q) [])
          ∙ keep-keep_comm (is_match q) is_kept (chain_at t.hlist (slot t.size q))
          ∙ ap (unlink n.ptr) (v.agree q)
          ∙ keep-keep_comm is_kept (is_match q) t.tlist;
      unique = λ q.
          rw (keep-keep_comm (is_match q) is_kept t.tlist)
            (omega (arith, v.unique q, length-keep is_kept (matches node_key q t.tlist)));
      distinct = unlink-PtrsDistinct n.ptr t.tlist v.distinct;
    }

    -- After it no node is found under the keys that compare equal, and the old one under others.
    pub find_key-erase_node :
        (q : K) → find_key (erase_node n.ptr t) q ≡ (if key.compare q k then none else find_key t q)
    find_key-erase_node q =
        find_key-held q erase_node-IsValid ∙ ap head? (entries q) ∙ split (key.compare q k) refl
      where
        entries :
            (q : K)
            → matches node_key q (erase_node n.ptr t).tlist
              ≡ unlink n.ptr (matches node_key q t.tlist)
        entries q = unfold erase_node in keep-keep_comm (is_match q) is_kept t.tlist

        gone :
            matches node_key q t.tlist ≡ n ∷ []
            → head? (unlink n.ptr (matches node_key q t.tlist)) ≡ none
        gone e = rw (e, ==_refl n.ptr) refl

        split :
            (b : Bool)
            → key.compare q k ≡ b
            → head? (unlink n.ptr (matches node_key q t.tlist)) ≡ (if b then none else find_key t q)
        split true same = gone (
            matches_congr node_key q k t.tlist same
            ∙ eq_singleton n (matches node_key k t.tlist) is_held (v.unique k))
        split false apart =
            ap head? (unlink_other k q n t.tlist v.distinct is_held apart) ∙ sym (find_key-held q v)

    -- `eg_ht_remove` of a key that is held returns 1, keeps the table well formed, and leaves
    -- nothing under the keys that compare equal and what there was under the others.
    pub eg_ht_remove_lem :
        (t' : HashTable K V) × (eg_ht_remove (some t) (some k) ≡ (some t', 1))
        × IsValid t'
        × ((q : K)
            → eg_ht_find (some t') (some q)
              ≡ (if key.compare q k then none else eg_ht_find (some t) (some q)))
    unfolding eg_ht_remove eg_ht_find eg_ht_erase
    eg_ht_remove_lem =
        (erase_node n.ptr t, rw (holds, eg_ht_remove) refl, erase_node-IsValid, find_key-erase_node)

  -- `eg_ht_remove` of a key that is not held returns 0 and changes nothing.
  pub eg_ht_remove_absent :
      (t : HashTable K V) (k : K)
      → eg_ht_find (some t) (some k) ≡ none
      → eg_ht_remove (some t) (some k) ≡ (some t, 0)
  unfolding eg_ht_remove eg_ht_find
  eg_ht_remove_absent t k h = rw (h, eg_ht_remove) refl

  -- `ht_remove_bucket` leaves the table that `eg_ht_remove` leaves, for all arguments.
  pub ht_remove_bucket-eg_ht_remove :
      (t : Option (HashTable K V)) (k : Option K) → ht_remove_bucket t k ≡ (eg_ht_remove t k).0
  unfolding ht_remove_bucket eg_ht_remove eg_ht_erase ht_erase_bucket
  ht_remove_bucket-eg_ht_remove none k = refl
  ht_remove_bucket-eg_ht_remove (some t) none = refl
  ht_remove_bucket-eg_ht_remove (some t) (some k) = ground arith

  -- `ht_clear_bucket` keeps the size and leaves a well formed table in which nothing is found.
  pub ht_clear_bucket-IsValid :
      {t : HashTable K V}
      → IsValid t
      → IsValid (ht_clear_bucket t)
        × ((k : K) → find_key (ht_clear_bucket t) k ≡ none)
        × (eg_ht_empty (ht_clear_bucket t) ≡ true)
        × (eg_ht_capacity (ht_clear_bucket t) ≡ eg_ht_capacity t)
  unfolding ht_clear_bucket eg_ht_empty eg_ht_capacity
  ht_clear_bucket-IsValid {t} v = (valid, λ k. find_key-held k valid, refl, refl)
    where
      valid : IsValid (ht_clear_bucket t)
      valid = record {
        sized = length-replicate t.size [];
        pos = v.pos;
        counted = omega arith;
        agree = λ k. found-replicate t.size t.size k;
        unique = λ k. omega arith;
        distinct = tt;
      }

  -- `eg_ht_clear` of a table with fewer than 2 ^ 64 nodes frees the nodes that it had, in the
  -- order of the list; the table is then well formed, empty and of the same size, and nothing is
  -- found.
  pub eg_ht_clear_lem :
      {t : HashTable K V}
      → IsValid t
      → length t.tlist < u64_mod
      → (t' : HashTable K V) × (eg_ht_clear (some t) ≡ (some t', map (λ n. n.ptr) t.tlist))
        × IsValid t'
        × (eg_ht_empty t' ≡ true)
        × (eg_ht_capacity t' ≡ eg_ht_capacity t)
        × ((k : K) → eg_ht_find (some t') (some k) ≡ none)
  unfolding eg_ht_clear eg_ht_find
  eg_ht_clear_lem {t} v small = elim (Bool-cases (t.elements == 0)) [
    | inl zero ↦
        let nothing : t.tlist ≡ [] =
          eq_nil_of_length t.tlist (omega (arith, v.counted, (==_iff t.elements 0).0 zero)) in
        (
          t,
          rw (zero, nothing) refl,
          v,
          (unfold eg_ht_empty in ground arith),
          refl,
          λ k. find_key-held k v ∙ ap (λ ns. head? (matches node_key k ns)) nothing,
        )
    | inr more ↦
        let (valid, finds, empty, size) = ht_clear_bucket-IsValid v in
        (ht_clear_bucket t, unfold ht_clear_bucket in (rw more refl), valid, empty, size, finds)
  ]
