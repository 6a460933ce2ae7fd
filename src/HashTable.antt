-- ===== src/HashTable.antt =====
-- ngix_module/AIS/hashtable.c and hashtable.h: the `eg_ht_*` table.
--
-- A table is a record with the fields of `eg_hashtable_t`; its `hash` and `compare` are the `Key`
-- in scope. A chain of `hlist` is the list of the nodes that `next` reaches from its head, and
-- `tlist` the list of those that `tnext` reaches. `prev`, `tprev` and `head` only serve to take a
-- node out of the lists in which it stands, so they are no fields here. A node has its address,
-- since an iterator is a node's address; `none` is NULL. What `malloc` returns is an argument, but for
-- the array of `eg_ht_resize`, whose `malloc` has no test in the source and is taken to succeed.
-- `unsigned long` is a number below 2 ^ 64.
pub mod Primes
pub mod Keys
pub mod Valid
pub mod Insert
pub mod Erase
pub mod Traverse
pub mod Pool
pub mod Middle
pub mod Refine
pub mod Tests
use doorhinges.Base.{
  ℕ, ◌+◌, ◌-◌, ◌%◌, ◌^◌, Bool, true, false, not, Option, none, some, List, [], ◌∷◌, map, ltb, ◌==◌,
  if◌then◌else◌, replicate, keep,
}
use mathlib.Core.Option
use doorhinges.HashTable.Primes.{eg_next_prime}
use doorhinges.Buckets.{Key, slot, chain_at, push_front, relink}

pub record Node {ℓ} (K V : Type ℓ) : Type ℓ where
  pub ptr : ℕ
  pub key : K
  pub val : V

abbrev pub u64_mod : ℕ
u64_mod = 2 ^ 64

-- `eg_hashtable_t`. The policy functions read no more of a table than its size and its count.
pub record HashTable {ℓ} (K V : Type ℓ) : Type ℓ where
  pub is_resize : ℕ → ℕ → Bool
  pub get_newsize : ℕ → ℕ
  pub size : ℕ
  pub elements : ℕ
  pub hlist : List (List (Node K V))
  pub tlist : List (Node K V)

-- `eg_is_resize`
pub eg_is_resize : ℕ → ℕ → Bool
eg_is_resize size elements = ltb size elements

module _ {ℓ} {K V : Type ℓ} where
  -- The node's key, by which the chains are kept.
  abbrev pub node_key : Node K V → K
  node_key n = n.key

  -- The unlinking of a node from a list.
  abbrev pub unlink : ℕ → List (Node K V) → List (Node K V)
  unlink p = keep (λ n. not (n.ptr == p))

  -- `b->tnext` of the node at an address.
  pub tnext : ℕ → List (Node K V) → Option ℕ
  tnext p [] = none
  tnext p (n ∷ []) = none
  tnext p (n ∷ m ∷ ns) = if n.ptr == p then some m.ptr else tnext p (m ∷ ns)

  -- The unlinking that `eg_ht_erase` and `ht_erase_bucket` share.
  pub erase_node : ℕ → HashTable K V → HashTable K V
  erase_node p t = record t {
    hlist = map (unlink p) t.hlist;
    tlist = unlink p t.tlist;
    elements = (t.elements + u64_mod - 1) % u64_mod;
  }

  -- `eg_ht_erase`: the table, the iterator's new value, and the result.
  pub eg_ht_erase : Option (HashTable K V) → Option ℕ → Option (HashTable K V) × Option ℕ × ℕ
  unfolding erase_node tnext
  eg_ht_erase none iter = (none, iter, 0)
  eg_ht_erase (some t) none = (some t, none, 0)
  eg_ht_erase (some t) (some p) = (some (erase_node p t), tnext p t.tlist, 1)

  -- `ht_erase_bucket`: the same without `free`, on a node that a pool owns.
  pub ht_erase_bucket : Option (HashTable K V) → Option ℕ → Option (HashTable K V) × Option ℕ
  unfolding erase_node tnext
  ht_erase_bucket none iter = (none, iter)
  ht_erase_bucket (some t) none = (some t, none)
  ht_erase_bucket (some t) (some p) = (some (erase_node p t), tnext p t.tlist)

  -- `ht_clear_bucket`
  pub ht_clear_bucket : HashTable K V → HashTable K V
  ht_clear_bucket t = record t { hlist = replicate t.size []; tlist = []; elements = 0 }

  -- `eg_ht_clear`: the table, and the nodes that were freed.
  pub eg_ht_clear : Option (HashTable K V) → Option (HashTable K V) × List ℕ
  eg_ht_clear none = (none, [])
  eg_ht_clear (some t) = if t.elements == 0 then (some t, []) else (
    some (record t { hlist = replicate t.size []; tlist = []; elements = 0 }),
    map (λ n. n.ptr) t.tlist,
  )

  -- `eg_ht_destroy`: the nodes that were freed; the table and its array are freed, too.
  pub eg_ht_destroy : Option (HashTable K V) → List ℕ
  unfolding eg_ht_clear
  eg_ht_destroy t = (eg_ht_clear t).1

  -- `eg_ht_begin`; `eg_ht_end` is `none`
  pub eg_ht_begin : Option (HashTable K V) → Option ℕ
  eg_ht_begin none = none
  eg_ht_begin (some t) = elim (t.tlist) [ [] ↦ none | n ∷ ns ↦ some n.ptr ]

  -- `eg_ht_next`
  pub eg_ht_next : HashTable K V → ℕ → Option ℕ
  unfolding tnext
  eg_ht_next t p = tnext p t.tlist

  pub eg_ht_capacity : HashTable K V → ℕ
  eg_ht_capacity t = t.size

  pub eg_ht_elements : HashTable K V → ℕ
  eg_ht_elements t = t.elements

  pub eg_ht_empty : HashTable K V → Bool
  eg_ht_empty t = 0 == t.elements

  -- `eg_ht_create`. The two flags say whether `malloc` gave the table and its array; `none` is a
  -- policy that the caller left out. The hash and the comparison are the `Key` that callers give.
  pub eg_ht_create :
      Bool → Bool → ℕ → Option (ℕ → ℕ → Bool) → Option (ℕ → ℕ) → Option (HashTable K V)
  eg_ht_create false _ size r n = none
  eg_ht_create true false size r n = none
  eg_ht_create true true size r n = some (record {
    is_resize = Option.get_or r eg_is_resize;
    get_newsize = Option.get_or n eg_next_prime;
    size = eg_next_prime size;
    elements = 0;
    hlist = replicate (eg_next_prime size) [];
    tlist = [];
  })

module _ {ℓ} {K V : Type ℓ} ⦃key : Key K⦄ where
  -- The loop along a chain, up to the first node whose key compares equal.
  pub find_node : K → List (Node K V) → Option (Node K V)
  find_node k [] = none
  find_node k (n ∷ ns) = if key.compare k n.key then some n else find_node k ns

  -- The lookup of `eg_ht_find`, with which `eg_ht_insert` and `ht_insert_bucket` begin, too.
  pub find_key : HashTable K V → K → Option (Node K V)
  unfolding find_node
  find_key t k = find_node k (chain_at t.hlist (slot t.size k))

  -- `eg_ht_resize`
  pub eg_ht_resize : HashTable K V → ℕ → HashTable K V × ℕ
  unfolding relink
  eg_ht_resize t newsize = (
    record t { hlist = relink node_key newsize t.tlist (replicate newsize []); size = newsize },
    1,
  )

  -- The links that `eg_ht_insert` and `ht_insert_bucket` write: node `n` in front of chain `h`
  -- and of the list of all nodes.
  unfoldable pub link_node : ℕ → Node K V → HashTable K V → HashTable K V
  unfolding push_front
  link_node h n t = record t {
    hlist = push_front h n t.hlist;
    tlist = n ∷ t.tlist;
    elements = (t.elements + 1) % u64_mod;
  }

  -- `eg_ht_insert` behind its guards. The chain `h` is chosen before the table is resized.
  pub insert_key : Option ℕ → HashTable K V → K → V → HashTable K V × ℕ
  insert_key alloc t k v =
      let h = slot t.size k in
      elim (find_key t k) [
        | some b ↦ (t, 0)
        | none ↦ elim alloc [
          | none ↦ (t, 0)
          | some p ↦
              let t' =
                if t.is_resize t.size t.elements
                then (eg_ht_resize t (t.get_newsize t.size)).0
                else t in
              (link_node h (record { ptr = p; key = k; val = v }) t', 1)
        ]
      ]

  pub eg_ht_insert : Option ℕ → Option (HashTable K V) → Option K → V → Option (HashTable K V) × ℕ
  eg_ht_insert alloc none k v = (none, 0)
  eg_ht_insert alloc (some t) none v = (some t, 0)
  eg_ht_insert alloc (some t) (some k) v = let (t', r) = insert_key alloc t k v in (some t', r)

  -- `ht_insert_bucket`
  pub ht_insert_bucket : Option (HashTable K V) → Option (Node K V) → Option (HashTable K V)
  ht_insert_bucket none b = none
  ht_insert_bucket (some t) none = some t
  ht_insert_bucket (some t) (some b) =
      let h = slot t.size b.key in
      elim (find_key t b.key) [ some c ↦ some t | none ↦ some (link_node h b t) ]

  -- `eg_ht_find`
  pub eg_ht_find : Option (HashTable K V) → Option K → Option (Node K V)
  unfolding find_key
  eg_ht_find none k = none
  eg_ht_find (some t) none = none
  eg_ht_find (some t) (some k) = find_key t k

  -- `eg_ht_remove`
  pub eg_ht_remove : Option (HashTable K V) → Option K → Option (HashTable K V) × ℕ
  eg_ht_remove none k = (none, 0)
  eg_ht_remove (some t) none = (some t, 0)
  eg_ht_remove (some t) (some k) = elim (find_key t k) [
    | none ↦ (some t, 0)
    | some n ↦ let (t', iter, r) = eg_ht_erase (some t) (some n.ptr) in (t', r)
  ]

  -- `ht_remove_bucket`
  pub ht_remove_bucket : Option (HashTable K V) → Option K → Option (HashTable K V)
  ht_remove_bucket none k = none
  ht_remove_bucket (some t) none = some t
  ht_remove_bucket (some t) (some k) = elim (find_key t k) [
    | none ↦ some t
    | some n ↦ (ht_erase_bucket (some t) (some n.ptr)).0
  ]
