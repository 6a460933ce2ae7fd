-- ===== src/Candidates.antt =====
-- ngix_module/AIS/allais.c, the choice of candidates in `get_ad`: each condition of a request gives a
-- map of the numbers of the ads that meet it (`init_map`), the smallest map is put first, and
-- `get_inter` keeps in it the numbers that all other maps hold.
--
-- A number is the key of a table, cast to a pointer; zero is NULL, for which a lookup finds nothing.
-- What `atoi` reads is an argument.
pub mod Inter
pub mod Maps
pub mod Smallest
pub mod Tests
use doorhinges.Base.{
  ℕ, zero, suc, ◌+◌, Bool, true, false, Option, none, some, List, [], ◌∷◌, ltb, ◌==◌, length,
  if◌then◌else◌,
}
use doorhinges.HashTable.{
  Node, HashTable, eg_ht_find, eg_ht_begin, eg_ht_next, eg_ht_elements, ht_erase_bucket,
  ht_insert_bucket,
}
use doorhinges.HashTable.Keys.{num_key}
use doorhinges.HashTable.Pool.{Pool, get_element}

-- `(void *)key`
pub as_pointer : ℕ → Option ℕ
as_pointer zero = none
as_pointer (suc k) = some (suc k)

module _ {V : Type 0} where
  -- The loop over the other maps, which ends early at one without the key.
  pub in_all : List (HashTable ℕ V) → ℕ → Bool
  unfolding as_pointer
  in_all [] k = true
  in_all (m ∷ ms) k = elim (eg_ht_find (some m) (as_pointer k)) [
    | none ↦ false
    | some n ↦ in_all ms k
  ]

  -- `it->key`, of the node at an address.
  pub key_at : ℕ → List (Node ℕ V) → ℕ
  key_at p [] = 0
  key_at p (n ∷ ns) = if n.ptr == p then n.key else key_at p ns

  -- The loop over the first map. `none` says that the fuel has run out.
  pub inter_from : ℕ → List (HashTable ℕ V) → HashTable ℕ V → Option ℕ → Option (HashTable ℕ V)
  inter_from zero ms t it = none
  inter_from (suc fuel) ms t none = some t
  inter_from (suc fuel) ms t (some p) = elim (in_all ms (key_at p t.tlist)) [
    | true ↦ inter_from fuel ms t (eg_ht_next t p)
    | false ↦ elim ((ht_erase_bucket (some t) (some p)).0) [
      | none ↦ none
      | some t' ↦ inter_from fuel ms t' (ht_erase_bucket (some t) (some p)).1
    ]
  ]

  -- `get_inter`, on the first map and the others. There is a turn for each node, and one more.
  pub get_inter : List (HashTable ℕ V) → HashTable ℕ V → Option (HashTable ℕ V)
  get_inter ms t = inter_from (length t.tlist + 1) ms t (eg_ht_begin (some t))

  -- The loop in `get_ad` that puts a map with the fewest elements first.
  pub smallest_first : HashTable ℕ V → List (HashTable ℕ V) → HashTable ℕ V × List (HashTable ℕ V)
  smallest_first t [] = (t, [])
  smallest_first t (m ∷ ms) =
      let smaller = ltb (eg_ht_elements m) (eg_ht_elements t) in
      let rest = smallest_first (if smaller then m else t) ms in
      (rest.0, (if smaller then t else m) ∷ rest.1)

  -- Both steps, as `get_ad` takes them.
  pub intersect : HashTable ℕ V → List (HashTable ℕ V) → Option (HashTable ℕ V)
  intersect t ms = let sorted = smallest_first t ms in get_inter sorted.1 sorted.0

-- `init_map`. The nodes of the pool are their indices, and the value of a node is its string.
module _ (atoi : List ℕ → ℕ) where
  pub init_map :
      Option (HashTable ℕ (List ℕ)) → Pool → List (List ℕ) → Option (HashTable ℕ (List ℕ)) × Pool
  init_map t pool [] = (t, pool)
  init_map t pool (str ∷ strs) = elim ((get_element pool).0) [
    | none ↦ (t, (get_element pool).1)
    | some p ↦
        init_map (ht_insert_bucket t (some (record { ptr = p; key = atoi str; val = str })))
          (get_element pool).1 strs
  ]
