-- ===== src/HashTable/Tests.antt =====
-- The theorems on the `eg_ht_*` table at concrete tables of numbers.
use doorhinges.Base.{ℕ, ◌*◌, ◌≡◌, refl, true, none, some, List, [], ◌∷◌, arith, leb, if◌then◌else◌}
use doorhinges.Buckets.{slot}
use doorhinges.HashTable.{
  Node, HashTable, eg_ht_insert, eg_ht_find, eg_ht_remove, insert_key, find_key, link_node,
  find_node, erase_node,
}
use doorhinges.HashTable.Keys.{num_key, eg_hash_num, eg_num_cmp}
use doorhinges.HashTable.Valid.{IsValid, link_node-IsValid, find_key-held}
use doorhinges.HashTable.Insert.{found-replicate, eg_ht_insert_lem, eg_ht_insert-lost}
use doorhinges.HashTable.Erase.{eg_ht_remove_lem}
use doorhinges.HashTable.Refine.{
  Call, insert, remove, Models, perform, perform_all, intend_all, perform_all-intend_all,
}

-- A table of two chains that never changes its size, and one that doubles it when it holds two.
abbrev two_chains : HashTable ℕ ℕ
two_chains = record {
  is_resize = λ size elements. leb size elements;
  get_newsize = λ n. n;
  size = 2;
  elements = 0;
  hlist = [] ∷ [] ∷ [];
  tlist = [];
}

abbrev eager : HashTable ℕ ℕ
eager = record {
  is_resize = λ size elements. true;
  get_newsize = λ n. n * 2;
  size = 2;
  elements = 0;
  hlist = [] ∷ [] ∷ [];
  tlist = [];
}

two_chains-IsValid : IsValid two_chains
two_chains-IsValid = record {
  sized = refl;
  pos = omega arith;
  counted = refl;
  agree = λ k. found-replicate 2 2 k;
  unique = λ k. omega arith;
  distinct = tt;
}

eager-IsValid : IsValid eager
eager-IsValid = record {
  sized = refl;
  pos = omega arith;
  counted = refl;
  agree = λ k. found-replicate 2 2 k;
  unique = λ k. omega arith;
  distinct = tt;
}

abbrev seven : Node ℕ ℕ
seven = record { ptr = 100; key = 7; val = 70 }

abbrev one_node : HashTable ℕ ℕ
one_node = link_node (slot {K = ℕ} 2 7) seven two_chains

one_node-IsValid : IsValid one_node
one_node-IsValid = link_node-IsValid seven two_chains-IsValid refl refl

eg_ht_insert_lem_example :
    (t' : HashTable ℕ ℕ) × (eg_ht_insert (some 200) (some one_node) (some 9) 90 ≡ (some t', 1))
    × IsValid t'
    × ((q : ℕ)
        → eg_ht_find (some t') (some q) ≡ (
            if eg_num_cmp q 9
            then some (record { ptr = 200; key = 9; val = 90 })
            else eg_ht_find (some one_node) (some q)))
unfolding eg_ht_find find_key find_node link_node eg_hash_num eg_num_cmp
eg_ht_insert_lem_example = eg_ht_insert_lem 200 9 90 one_node-IsValid refl refl refl

eg_ht_insert-lost_example :
    (t' : HashTable ℕ ℕ) × (eg_ht_insert (some 200) (some eager) (some 3) 30 ≡ (some t', 1))
    × (eg_ht_find (some t') (some 3) ≡ none)
unfolding eg_ht_find find_key find_node eg_hash_num
eg_ht_insert-lost_example =
    eg_ht_insert-lost 200 3 30 eager-IsValid refl refl (omega arith)
      (λ e. absurd (omega (arith, e)))

eg_ht_remove_lem_example :
    (t' : HashTable ℕ ℕ) × (eg_ht_remove (some one_node) (some 7) ≡ (some t', 1))
    × IsValid t'
    × ((q : ℕ)
        → eg_ht_find (some t') (some q)
          ≡ (if eg_num_cmp q 7 then none else eg_ht_find (some one_node) (some q)))
unfolding find_key find_node link_node eg_hash_num eg_num_cmp
eg_ht_remove_lem_example = eg_ht_remove_lem 7 seven one_node-IsValid refl

abbrev calls : List (Call ℕ ℕ)
calls = insert 100 7 70 ∷ remove 7 ∷ insert 200 7 71 ∷ []

two_chains-Models : Models (λ q. none) two_chains
two_chains-Models = record {
  valid = two_chains-IsValid;
  values = λ q. rw (find_key-held q two_chains-IsValid) refl;
}

perform_all-intend_all_example : perform_all calls two_chains ≡ intend_all calls (λ q. none)
unfolding perform insert_key erase_node find_key find_node link_node eg_hash_num eg_num_cmp
perform_all-intend_all_example =
    perform_all-intend_all calls two_chains (λ q. none) two_chains-Models refl
      (refl, (tt, (refl, tt)))
