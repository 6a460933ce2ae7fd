-- ===== src/HashTable/Insert.antt =====
-- `eg_ht_create`, `eg_ht_resize`, `eg_ht_insert` and `ht_insert_bucket`.
use doorhinges.Base.{
  ℕ, ◌≤◌, ◌<◌, ◌≡◌, refl, ◌∙◌, ◌≢◌, Bool, true, false, Option, none, some, List, [], ◌∷◌,
  append-nil, arith, replicate, if◌then◌else◌, Bool-cases, inl, inr, sym, ap, length-replicate,
  reverse_short, get_or-replicate, get_or-set_ne,
}
use doorhinges.Buckets.{
  Key, slot, chain_at, found, matches, push_front, found-relink, length-relink,
}
use doorhinges.HashTable.{
  Node, HashTable, node_key, find_node, find_key, link_node, eg_ht_resize, insert_key, eg_ht_insert,
  eg_ht_find, eg_ht_create, eg_is_resize,
}
use mathlib.Core.Option
use doorhinges.HashTable.Primes.{eg_next_prime, eg_next_prime_pos}
use doorhinges.HashTable.Valid.{IsValid, has_ptr, find_key-held, link_node-IsValid, held-link_node}

module _ {ℓ} {K V : Type ℓ} ⦃key : Key K⦄ where
  pub found-replicate :
      (n size : ℕ) (k : K) → found {E = Node K V} node_key size k (replicate n []) ≡ []
  found-replicate n size k = rw (get_or-replicate {A = List (Node K V)} n (slot size k) []) refl

  pub size-eg_ht_resize : (t : HashTable K V) (n : ℕ) → (eg_ht_resize t n).0.size ≡ n
  unfolding eg_ht_resize
  size-eg_ht_resize t n = refl

  pub tlist-eg_ht_resize : (t : HashTable K V) (n : ℕ) → (eg_ht_resize t n).0.tlist ≡ t.tlist
  unfolding eg_ht_resize
  tlist-eg_ht_resize t n = refl

  -- `eg_ht_resize` to any size but zero keeps a table well formed, and what it holds.
  pub eg_ht_resize-IsValid :
      {t : HashTable K V} (newsize : ℕ)
      → IsValid t
      → 0 < newsize
      → IsValid (eg_ht_resize t newsize).0
        × ((k : K) → find_key (eg_ht_resize t newsize).0 k ≡ find_key t k)
  unfolding eg_ht_resize
  eg_ht_resize-IsValid {t} newsize v pos =
      (valid, λ k. find_key-held k valid ∙ sym (find_key-held k v))
    where
      valid : IsValid (eg_ht_resize t newsize).0
      valid = record {
        sized =
            length-relink node_key newsize t.tlist (replicate newsize [])
            ∙ length-replicate newsize [];
        pos = pos;
        counted = v.counted;
        agree = λ k.
            found-relink node_key newsize k t.tlist (replicate newsize [])
              (length-replicate newsize []) pos
            ∙ rw (found-replicate newsize newsize k, reverse_short _ (v.unique k))
                (append-nil (matches node_key k t.tlist));
        unique = v.unique;
        distinct = v.distinct;
      }

  -- `eg_ht_create` with memory at hand: the table is well formed and holds nothing, and its size
  -- is the one that `eg_next_prime` gives.
  pub eg_ht_create-IsValid :
      (size : ℕ) (r : Option (ℕ → ℕ → Bool)) (n : Option (ℕ → ℕ))
      → (t : HashTable K V) × (eg_ht_create true true size r n ≡ some t)
        × IsValid t
        × (t.size ≡ eg_next_prime size)
        × ((k : K) → eg_ht_find (some t) (some k) ≡ none)
  unfolding eg_ht_create eg_ht_find
  eg_ht_create-IsValid size r n = (t, refl, valid, refl, λ k. find_key-held k valid)
    where
      t : HashTable K V
      t = record {
        is_resize = Option.get_or r eg_is_resize;
        get_newsize = Option.get_or n eg_next_prime;
        size = eg_next_prime size;
        elements = 0;
        hlist = replicate (eg_next_prime size) [];
        tlist = [];
      }

      valid : IsValid t
      valid = record {
        sized = length-replicate (eg_next_prime size) [];
        pos = eg_next_prime_pos size;
        counted = omega arith;
        agree = λ k. found-replicate (eg_next_prime size) (eg_next_prime size) k;
        unique = λ k. omega arith;
        distinct = tt;
      }

  -- A key that is held is refused, whatever the memory: nothing changes.
  pub insert_key-held :
      (alloc : Option ℕ) {t : HashTable K V} (k : K) (x : V) (n : Node K V)
      → find_key t k ≡ some n
      → insert_key alloc t k x ≡ (t, 0)
  unfolding insert_key
  insert_key-held alloc k x n h = rw (h, insert_key) refl

  -- `insert_key` on a key that is not held, before and after the resize.
  insert_key-absent :
      (p : ℕ) (t : HashTable K V) (k : K) (x : V)
      → find_key t k ≡ none
      → insert_key (some p) t k x ≡ (
        link_node
            (slot t.size k)
            (record { ptr = p; key = k; val = x })
            (if t.is_resize t.size t.elements
              then (eg_ht_resize t (t.get_newsize t.size)).0
              else t),
        1,
      )
  unfolding insert_key
  insert_key-absent p t k x h = rw (h, insert_key) refl

  -- A node in one chain is not seen by a lookup in another.
  find_key-link_node_ne :
      (h : ℕ) (n : Node K V) (t : HashTable K V) (k : K)
      → slot t.size k ≢ h
      → find_key (link_node h n t) k ≡ find_key t k
  unfolding find_key link_node push_front
  find_key-link_node_ne h n t k apart =
      ap (find_node k)
        (get_or-set_ne t.hlist h (slot t.size k) (n ∷ chain_at t.hlist h) [] (λ e. apart (sym e)))

  module _ (p : ℕ) {t : HashTable K V} (k : K) (x : V) (v : IsValid t) where
    abbrev added : Node K V
    added = record { ptr = p; key = k; val = x }

    abbrev Inserted : HashTable K V × ℕ → Type ℓ
    Inserted (t', r) =
        (r ≡ 1)
        × IsValid t'
        × ((q : K) → find_key t' q ≡ (if key.compare q k then some added else find_key t q))

    -- Linking the new node into a table that holds what `t` holds.
    link_node-Inserted :
        (h : ℕ) (t' : HashTable K V)
        → IsValid t'
        → h ≡ slot t'.size k
        → ((q : K) → find_key t' q ≡ find_key t q)
        → has_ptr p t'.tlist ≡ false
        → find_key t k ≡ none
        → Inserted (link_node h added t', 1)
    link_node-Inserted h t' v' home finds fresh new = rw home (refl, valid, λ q. found_at q)
      where
        valid : IsValid (link_node (slot t'.size k) added t')
        valid = link_node-IsValid added v' (sym (find_key-held k v') ∙ finds k ∙ new) fresh

        found_at :
            (q : K)
            → find_key (link_node (slot t'.size k) added t') q
              ≡ (if key.compare q k then some added else find_key t q)
        found_at q =
            find_key-held q valid
            ∙ held-link_node (slot t'.size k) added t' q
            ∙ rw (← finds q, find_key-held q v') refl

    -- A key that is not held is added when there is memory: the table stays well formed, and a
    -- lookup finds the new node under the keys that compare equal to it, and the old one under
    -- any other. The policy's new size must be the old one, as `eg_next_prime` gives it.
    pub insert_key-Inserted :
        find_key t k ≡ none
        → has_ptr p t.tlist ≡ false
        → t.get_newsize t.size ≡ t.size
        → Inserted (insert_key (some p) t k x)
    insert_key-Inserted new fresh stable =
        rw (insert_key-absent p t k x new) (elim (Bool-cases (t.is_resize t.size t.elements)) [
          | inl full ↦
              let (valid, finds) = eg_ht_resize-IsValid t.size v v.pos in
              rw (full, stable)
                (link_node-Inserted (slot t.size k) (eg_ht_resize t t.size).0 valid
                  (rw (size-eg_ht_resize t t.size) refl) finds
                  (rw (tlist-eg_ht_resize t t.size) fresh) new)
          | inr roomy ↦ rw roomy (link_node-Inserted (slot t.size k) t v refl (λ q. refl) fresh new)
        ])

    -- `eg_ht_insert` of a key that the table does not hold, at a fresh address, where the policy's
    -- new size is the old one: it returns 1, the table stays well formed, and `eg_ht_find` gives
    -- the new node under every key that compares equal, and what it gave before under any other.
    pub eg_ht_insert_lem :
        eg_ht_find (some t) (some k) ≡ none
        → has_ptr p t.tlist ≡ false
        → t.get_newsize t.size ≡ t.size
        → (t' : HashTable K V) × (eg_ht_insert (some p) (some t) (some k) x ≡ (some t', 1))
          × IsValid t'
          × ((q : K)
              → eg_ht_find (some t') (some q)
                ≡ (if key.compare q k then some added else eg_ht_find (some t) (some q)))
    unfolding eg_ht_insert eg_ht_find
    eg_ht_insert_lem new fresh stable =
        let (one, valid, finds) = insert_key-Inserted new fresh stable in
        (
          (insert_key (some p) t k x).0,
          ap (λ r. (some (insert_key (some p) t k x).0, r)) one,
          valid,
          finds,
        )

    -- Where the policy grows the table to a size that puts the key in another chain, the node goes
    -- into the chain of the old size: `eg_ht_insert` returns 1 and the key is not found.
    pub eg_ht_insert-lost :
        eg_ht_find (some t) (some k) ≡ none
        → t.is_resize t.size t.elements ≡ true
        → t.size ≤ t.get_newsize t.size
        → slot (t.get_newsize t.size) k ≢ slot t.size k
        → (t' : HashTable K V) × (eg_ht_insert (some p) (some t) (some k) x ≡ (some t', 1))
          × (eg_ht_find (some t') (some k) ≡ none)
    unfolding eg_ht_insert eg_ht_find
    eg_ht_insert-lost new full grows moved = (link_node (slot t.size k) added grown, shape, lost)
      where
        grown : HashTable K V
        grown = (eg_ht_resize t (t.get_newsize t.size)).0

        shape :
            eg_ht_insert (some p) (some t) (some k) x
            ≡ (some (link_node (slot t.size k) added grown), 1)
        shape = rw (insert_key-absent p t k x new, full) refl

        lost : find_key (link_node (slot t.size k) added grown) k ≡ none
        lost =
            find_key-link_node_ne (slot t.size k) added grown k
              (rw (size-eg_ht_resize t (t.get_newsize t.size)) moved)
            ∙ (eg_ht_resize-IsValid (t.get_newsize t.size) v (omega (arith, v.pos))).1 k
            ∙ new
