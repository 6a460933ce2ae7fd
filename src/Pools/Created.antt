-- ===== src/Pools/Created.antt =====
-- A pool, and the objects that `create_conn` puts in it (ngix_module/AIS/ais.c).
use doorhinges.Base.{
  ℕ, zero, suc, ◌+◌, ◌≡◌, refl, sym, ap, ◌∙◌, true, Option, some, List, [], ◌∷◌, ◌++◌, map, arith,
  length, subst,
}
use doorhinges.CycleQueue.{Alloc, allocate, eg_cq_create}
use doorhinges.CycleQueue.Ring.{IsRing, elements_of, range, length-range}
use doorhinges.CycleQueue.Grow.{eg_cq_create_lem, eg_cq_create-bt_index}
use doorhinges.Pools.{
  CachePool, unset, block, head_size, set_head_buf, conns_from, create_with, create_conn,
  cache_pool_create,
}
use doorhinges.Pools.Filled.{push_all_lem}

-- The pool has the free objects `objects`, the next one first.
pub record Contains (cp : CachePool) (objects : List ℕ) : Type 0 where
  pub used : List ℕ
  pub next_node : ℕ
  pub spare : List ℕ
  pub ring : IsRing cp.cq used (next_node ∷ spare)
  pub free : elements_of cp.cq.val used ≡ map some objects

-- The same of a pool that has not grown its queue.
pub record Holds (cp : CachePool) (objects : List ℕ) : Type 0 where
  pub contained : Contains cp objects
  pub not_grown : cp.cq.bt_index ≡ 0

range-snoc : (base n : ℕ) → range base (suc n) ≡ range base n ++ (base + n) ∷ []
unfolding range
range-snoc base zero = ap (λ k. k ∷ []) (omega arith)
range-snoc base (suc n) =
    ap (λ l. base ∷ l) (range-snoc (base + 1) n ∙ ap (λ k. range (base + 1) n ++ k ∷ []) next)
  where
    next : base + 1 + n ≡ base + suc n
    next = omega arith

length-conns_from : (stride buf n : ℕ) → length (conns_from stride buf n) ≡ n
unfolding conns_from
length-conns_from stride buf zero = refl
length-conns_from stride buf (suc n) = ap suc (length-conns_from stride (buf + stride) n)

-- `create_conn` on an empty pool with a node more than its objects.
pub fill :
    (a : Alloc) (stride buf n f : ℕ) (ts spare : List ℕ) (cp : CachePool)
    → length ts ≡ n
    → head_size cp.buckets ≡ n
    → cp.cq.bt_index ≡ 0
    → IsRing cp.cq [] (ts ++ f ∷ spare)
    → ((create_conn stride a (some buf) cp).1 ≡ true)
      × Holds (create_conn stride a (some buf) cp).0 (conns_from stride buf n)
      × ((create_conn stride a (some buf) cp).0.buckets ≡ set_head_buf buf cp.buckets)
unfolding create_conn create_with
fill a stride buf n f ts spare cp h size first r =
    let (ring, elements, still) =
      push_all_lem a (conns_from stride buf n) ts f [] spare cp.cq
        (length-conns_from stride buf n ∙ sym h) first r in
    rw size (
      refl,
      record {
        contained = record {
          used = ts;
          next_node = f;
          spare = spare;
          ring = ring;
          free = elements;
        };
        not_grown = still;
      },
      refl,
    )

-- `cache_pool_create` with `create_conn`, where the memory is there: the pool holds `size` objects
-- that lie one behind the other in one block.
pub cache_pool_create_lem :
    (a : Alloc) (stride buf size base : ℕ) (buffer : Option ℕ)
    → allocate a 0 ≡ some (base, buffer)
    → (cp : CachePool) × (cache_pool_create true true a (create_conn stride a (some buf)) size
        ≡ some cp)
      × Holds cp (conns_from stride buf size)
      × (cp.buckets ≡ record { size = size; buf = block buf } ∷ [])
unfolding cache_pool_create set_head_buf head_size
cache_pool_create_lem a stride buf size base buffer got =
    let (cq, made, ring, capity, empty) = eg_cq_create_lem {V = ℕ} a size 0 base buffer got in
    let start : CachePool = record {
      cq = cq;
      buckets = record { size = size; buf = unset } ∷ [];
      size = size;
    } in
    let (ok, holds, buckets) =
      fill a stride buf size (base + size) (range base size) [] start (length-range base size) refl
        (eg_cq_create-bt_index a (suc size) 0 base buffer cq got made)
        (subst (IsRing cq []) (range-snoc base size) ring) in
    (
      (create_conn stride a (some buf) start).0,
      rw (ap (λ k. eg_cq_create {V = ℕ} true a k 0) more ∙ made, ok, cache_pool_create) refl,
      holds,
      buckets,
    )
  where
    more : size + 1 ≡ suc size
    more = omega arith
