-- ===== src/Candidates/Tests.antt =====
-- The maps of a request with two conditions.
use doorhinges.Base.{ℕ, suc, ◌-◌, ◌≡◌, refl, ◌||◌, some, List, [], ◌∷◌, arith, leb}
use doorhinges.Buckets.{slot}
use doorhinges.HashTable.{HashTable, link_node}
use doorhinges.HashTable.Keys.{num_key, eg_num_cmp}
use doorhinges.HashTable.Pool.{Pool}
use doorhinges.HashTable.Valid.{IsValid, link_node-IsValid}
use doorhinges.HashTable.Insert.{found-replicate}
use doorhinges.Candidates.{intersect, init_map}
use doorhinges.Candidates.Maps.{has, reads, IsHandedOut, advance, init_map_lem}
use doorhinges.Candidates.Smallest.{all_have, intersect_lem}

abbrev no_ads : HashTable ℕ (List ℕ)
no_ads = record {
  is_resize = λ size elements. leb size elements;
  get_newsize = λ n. n;
  size = 2;
  elements = 0;
  hlist = [] ∷ [] ∷ [];
  tlist = [];
}

no_ads-IsValid : IsValid no_ads
no_ads-IsValid = record {
  sized = refl;
  pos = omega arith;
  counted = refl;
  agree = λ k. found-replicate 2 2 k;
  unique = λ k. omega arith;
  distinct = tt;
}

-- The ads 7, and 7 and 4.
abbrev ad_7 : HashTable ℕ (List ℕ)
ad_7 = link_node (slot {K = ℕ} 2 7) (record { ptr = 0; key = 7; val = b'7' ∷ [] }) no_ads

abbrev ads_7_4 : HashTable ℕ (List ℕ)
ads_7_4 = link_node (slot {K = ℕ} 2 4) (record { ptr = 2; key = 4; val = b'4' ∷ [] }) ad_7

ad_7-IsValid : IsValid ad_7
ad_7-IsValid =
    link_node-IsValid (record { ptr = 0; key = 7; val = b'7' ∷ [] }) no_ads-IsValid refl refl

ads_7_4-IsValid : IsValid ads_7_4
unfolding link_node eg_num_cmp
ads_7_4-IsValid =
    link_node-IsValid (record { ptr = 2; key = 4; val = b'4' ∷ [] }) ad_7-IsValid refl refl

intersect_lem_example :
    (t' : HashTable ℕ (List ℕ)) × (intersect ads_7_4 (ad_7 ∷ []) ≡ some t')
    × IsValid t'
    × ((k : ℕ) → has t' (suc k) ≡ all_have (ads_7_4 ∷ ad_7 ∷ []) (suc k))
intersect_lem_example = intersect_lem ads_7_4 (ad_7 ∷ []) (ads_7_4-IsValid, (ad_7-IsValid, tt))

-- A digit as a number.
abbrev digit : List ℕ → ℕ
digit [] = 0
digit (c ∷ cs) = c - b'0'

abbrev three_nodes : Pool
three_nodes = record { size = 3; cur = 0 }

init_map_lem_example :
    (t' : HashTable ℕ (List ℕ)) × (init_map digit
        (some no_ads)
        three_nodes
        ((b'7' ∷ []) ∷ (b'4' ∷ []) ∷ [])
      ≡ (some t', advance 2 three_nodes))
    × IsValid t'
    × IsHandedOut (advance 2 three_nodes) t'
    × ((k : ℕ) → has t' k ≡ (reads digit ((b'7' ∷ []) ∷ (b'4' ∷ []) ∷ []) k || has no_ads k))
init_map_lem_example =
    init_map_lem digit no_ads three_nodes ((b'7' ∷ []) ∷ (b'4' ∷ []) ∷ []) no_ads-IsValid
      (λ p above. refl) (omega arith)
