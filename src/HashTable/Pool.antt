-- ===== src/HashTable/Pool.antt =====
-- The node pool and the map pool of ngix_module/AIS/hashtable.c: arrays that hand out one element
-- after the other until they are reset. An element is its index.
use doorhinges.Base.{
  ℕ, zero, suc, ◌+◌, ◌≤◌, ◌<◌, ◌≡◌, Bool, false, Option, none, some, arith, leb, ltb, if◌then◌else◌,
}

-- `ht_node_pool_t` and `ht_map_pool_t`, less the array.
pub record Pool : Type 0 where
  pub size : ℕ
  pub cur : ℕ

-- `init_ht_node_pool` and `init_ht_map_pool`. The flag says whether `malloc` gave the array.
pub init_pool : Bool → ℕ → Pool
init_pool allocated size = record { size = if allocated then size else 0; cur = 0 }

-- `reset_ht_node_pool` and `reset_ht_map_pool`
pub reset_pool : Pool → Pool
reset_pool pool = record pool { cur = 0 }

-- `destroy_ht_node_pool` and `destroy_ht_map_pool`
pub destroy_pool : Pool → Pool
destroy_pool pool = record { size = 0; cur = 0 }

-- `get_ht_bucket` and `get_ht_map`
pub get_element : Pool → Option ℕ × Pool
get_element pool =
    if leb pool.size pool.cur
    then (none, pool)
    else (some pool.cur, record pool { cur = pool.cur + 1 })

pub get_element_room :
    (pool : Pool)
    → pool.cur < pool.size
    → get_element pool ≡ (some pool.cur, record pool { cur = pool.cur + 1 })
unfolding get_element
get_element_room pool h = ground arith

-- The pool after a number of calls.
pub get_times : ℕ → Pool → Pool
get_times zero pool = pool
get_times (suc n) pool = get_times n (get_element pool).1

cur-get_times :
    (n : ℕ) (pool : Pool)
    → pool.cur ≤ pool.size
    → ((get_times n pool).size ≡ pool.size)
      × ((get_times n pool).cur
          ≡ (if ltb pool.size (pool.cur + n) then pool.size else pool.cur + n))
unfolding get_times get_element
cur-get_times zero pool h = ground arith
cur-get_times (suc n) pool h = ground (arith, cur-get_times n (get_element pool).1)

-- After a reset the calls hand out the elements 0, 1, ..., each once, and NULL when there are no
-- more.
pub get_element-reset :
    (pool : Pool) (n : ℕ)
    → (get_element (get_times n (reset_pool pool))).0 ≡ (if ltb n pool.size then some n else none)
unfolding get_element reset_pool
get_element-reset pool n = ground (arith, cur-get_times n (reset_pool pool))

-- A pool without its array, and one that was destroyed, hand out nothing.
pub get_element-empty :
    (pool : Pool) (n size : ℕ)
    → ((get_element (get_times n (init_pool false size))).0 ≡ none)
      × ((get_element (get_times n (destroy_pool pool))).0 ≡ none)
unfolding get_element init_pool destroy_pool
get_element-empty pool n size = (
  ground (arith, cur-get_times n (init_pool false size)),
  ground (arith, cur-get_times n (destroy_pool pool)),
)
