-- ===== src/Dispatch/Starts.antt =====
-- The queues of the workers as `conn_pools_init` makes them (ngix_module/AIS/ais.c).
use doorhinges.Base.{
  ℕ, suc, ◌+◌, ◌-◌, ◌*◌, ◌/◌, ◌≤◌, ◌≡◌, refl, sym, ap, ◌∙◌, Option, true, some, List, [], ◌∷◌,
  arith, length,
}
use native.Mathlib.Nat.{mul-div_cancel_left}
use doorhinges.CycleQueue.{CycleQueue, Alloc, allocate, eg_cq_create}
use doorhinges.CycleQueue.Ring.{range, has-range, length-range}
use doorhinges.CycleQueue.Grow.{eg_cq_create_lem, eg_cq_create-bt_index, eg_cq_create-buf}
use doorhinges.Pools.{CachePool, conns_from}
use doorhinges.Pools.Created.{Holds, cache_pool_create_lem}
use doorhinges.Dispatch.{
  ConnItem, Memory, conn_queue_len, init_worker, init_workers, conn_pools_init,
}
use doorhinges.Dispatch.Offers.{Apart, Queued}

-- The parts of a buffer for different nodes are different.
range-Apart : (base n b size : ℕ) → 1 ≤ size → Apart (λ p. b + size * (p - base)) (range base n)
range-Apart base n b size some_size p q h h' e =
    let same : size * (p - base) ≡ size * (q - base) = omega (arith, e) in
    let steps : p - base ≡ q - base =
      sym (mul-div_cancel_left (p - base) some_size)
      ∙ ap (λ k. k / size) same
      ∙ mul-div_cancel_left (q - base) some_size in
    let from : base ≤ p = ground (arith, has-range p base n) in
    let from' : base ≤ q = ground (arith, has-range q base n) in omega (arith, steps, from, from')

-- A queue of `eg_cq_create` with `n` nodes and one, where the memory is there: no connection waits, and
-- there is a place for `n`.
pub eg_cq_create-Queued :
    (a : Alloc) (n size base b : ℕ) (items : ℕ → ConnItem)
    → allocate a size ≡ some (base, some b)
    → 1 ≤ size
    → (cq : CycleQueue ℕ) × (eg_cq_create true a (suc n) size ≡ some cq) × Queued cq items [] n
unfolding range
eg_cq_create-Queued a n size base b items got some_size =
    let (cq, made, ring, capacity, empty) = eg_cq_create_lem a n size base (some b) got in
    (
      cq,
      made,
      record {
        lined = record {
          used = [];
          next_node = base;
          spare = range (base + 1) n;
          own = λ p. b + size * (p - base);
          ring = ring;
          buffers = λ p h. eg_cq_create-buf a (suc n) size base b p cq got made h;
          apart = range-Apart base (suc n) b size some_size;
          pushed = refl;
          contents = refl;
          places = length-range (base + 1) n;
        };
        not_grown = eg_cq_create-bt_index a (suc n) size base (some b) cq got made;
      },
    )

-- There is memory for a worker.
pub record IsGranted (item_size : ℕ) (m : Memory) : Type 0 where
  pub pool : m.pool ≡ true
  pub bucket : m.bucket ≡ true
  pub queue : m.queue ≡ true
  pub objects_at : ℕ
  pub nodes_at : ℕ
  pub no_buffer : Option ℕ
  pub items_at : ℕ
  pub buffer_at : ℕ
  pub objects : m.objects ≡ some objects_at
  pub nodes : allocate m.nodes 0 ≡ some (nodes_at, no_buffer)
  pub items : allocate m.items item_size ≡ some (items_at, some buffer_at)

abbrev pub AllGranted : ℕ → List Memory → Type 0
AllGranted item_size [] = Unit {0}
AllGranted item_size (m ∷ ms) = IsGranted item_size m × AllGranted item_size ms

-- A worker starts with its connections, `stride` bytes from each other, and with no connection waiting
-- and 63 places.
abbrev pub Starts : ℕ → (CachePool × CycleQueue ℕ) → (ℕ → ConnItem) → Type 0
Starts stride (pool, queue) items =
    (buf : ℕ) × Holds pool (conns_from stride buf conn_queue_len) × Queued queue items [] 63

abbrev pub AllStart : ℕ → List (CachePool × CycleQueue ℕ) → (ℕ → ConnItem) → Type 0
AllStart stride [] items = Unit {0}
AllStart stride (w ∷ ws) items = Starts stride w items × AllStart stride ws items

init_worker_lem :
    (stride item_size : ℕ) (items : ℕ → ConnItem) (m : Memory)
    → 1 ≤ item_size
    → IsGranted item_size m
    → (w : CachePool × CycleQueue ℕ) × (init_worker stride item_size m ≡ some w)
      × Starts stride w items
unfolding init_worker
init_worker_lem stride item_size items m some_size g =
    let (pool, made, holds, buckets) =
      cache_pool_create_lem m.nodes stride g.objects_at conn_queue_len g.nodes_at g.no_buffer
        g.nodes in
    let (queue, made', waits) =
      eg_cq_create-Queued m.items 63 item_size g.items_at g.buffer_at items g.items some_size in
    (
      (pool, queue),
      rw (init_worker, g.pool, g.bucket, g.objects, made, g.queue, made') refl,
      (g.objects_at, holds, waits),
    )

init_workers_lem :
    (stride item_size : ℕ) (items : ℕ → ConnItem) (ms : List Memory)
    → 1 ≤ item_size
    → AllGranted item_size ms
    → (ws : List (CachePool × CycleQueue ℕ)) × (init_workers stride item_size ms ≡ some ws)
      × (length ws ≡ length ms)
      × AllStart stride ws items
unfolding init_workers
init_workers_lem stride item_size items [] some_size g = ([], refl, refl, tt)
init_workers_lem stride item_size items (m ∷ ms) some_size (g, gs) =
    let (w, one, starts) = init_worker_lem stride item_size items m some_size g in
    let (ws, others, number, all) = init_workers_lem stride item_size items ms some_size gs in
    (w ∷ ws, rw (init_workers, one, others) refl, ap suc number, (starts, all))

-- `conn_pools_init` where the memory is there: there is a pool and a queue for each thread, the pool
-- holds its 64 connections, and the queue has no connection waiting and a place for 63, whatever its
-- buffers hold.
pub conn_pools_init_lem :
    (stride item_size : ℕ) (items : ℕ → ConnItem) (ms : List Memory)
    → 1 ≤ item_size
    → AllGranted item_size ms
    → (ws : List (CachePool × CycleQueue ℕ)) × (conn_pools_init true true stride item_size ms
        ≡ some ws)
      × (length ws ≡ length ms)
      × AllStart stride ws items
unfolding conn_pools_init
conn_pools_init_lem stride item_size items ms some_size g =
    init_workers_lem stride item_size items ms some_size g
