-- ===== src/Pools.antt =====
-- ngix_module/AIS/ais.c, the pools of connections and of items: `create_conn`, `create_conn_item`,
-- `cache_pool_create`, `cache_pool_destroy`, `cp_pop` and `cp_push`.
--
-- A pool is a cycle queue of the free objects and the list of the blocks that they lie in. An object
-- is its address. What `malloc` and `calloc` return is an argument.
pub mod Filled
pub mod Created
pub mod Refill
pub mod Items
pub mod Tests
use doorhinges.Base.{
  ℕ, zero, suc, ◌+◌, ◌-◌, ◌*◌, Bool, true, false, Option, none, some, List, [], ◌∷◌, map, ltb, ◌==◌,
  if◌then◌else◌,
}
use doorhinges.CycleQueue.{CycleQueue, Alloc, eg_cq_create, eg_cq_destroy, eg_cq_push, eg_cq_pop}

-- `buf` of a bucket: `malloc` leaves it without a value.
pub data Buffer : Type 0 where
  unset : Buffer
  block : ℕ → Buffer

-- `pool_bucket_t`, less its `next`.
pub record PoolBucket : Type 0 where
  pub size : ℕ
  pub buf : Buffer

-- `cache_pool_t`; the buckets are in the order of their list, the newest first.
pub record CachePool : Type 0 where
  pub cq : CycleQueue ℕ
  pub buckets : List PoolBucket
  pub size : ℕ

-- `cp->head->size`, and the store of `cp->head->buf`.
pub head_size : List PoolBucket → ℕ
head_size [] = 0
head_size (b ∷ bs) = b.size

pub set_head_buf : ℕ → List PoolBucket → List PoolBucket
set_head_buf p [] = []
set_head_buf p (b ∷ bs) = record b { buf = block p } ∷ bs

-- The calls of `eg_cq_push` for the objects, one after the other, whose results are not looked at.
pub push_all : Alloc → List ℕ → CycleQueue ℕ → CycleQueue ℕ
push_all a [] cq = cq
push_all a (c ∷ cs) cq = push_all a cs (eg_cq_push a cq (some c)).0

-- The sizes of the parts of an object of `create_conn`: `sizeof(conn)`, DATA_BUFFER_SIZE, the arrays
-- of IOV_LIST_INITIAL and MSG_LIST_INITIAL entries, `sizeof(struct ais_connection)` and
-- MAX_REQUEST_BUF_SIZE.
pub record Sizes : Type 0 where
  pub conn : ℕ
  pub data_buffer : ℕ
  pub iov_list : ℕ
  pub msg_list : ℕ
  pub ais_connection : ℕ
  pub request_buf : ℕ

-- What `calloc` is asked for, for each object.
pub conn_size : Sizes → ℕ
conn_size s =
    s.conn + s.data_buffer + s.data_buffer + s.iov_list + s.msg_list + s.ais_connection
    + s.request_buf

-- Where the parts of an object lie, and where the next object begins.
pub record Conn : Type 0 where
  pub rbuf : ℕ
  pub wbuf : ℕ
  pub iov : ℕ
  pub msglist : ℕ
  pub bulk : ℕ
  pub next_conn : ℕ

-- A pass of the loop of `create_conn`, with its `len`, for the object at `buf`.
pub place_conn : Sizes → ℕ → Conn
place_conn s buf =
    let len1 = s.conn in
    let len2 = len1 + s.data_buffer in
    let len3 = len2 + s.data_buffer in
    let len4 = len3 + s.iov_list in
    let len5 = len4 + s.msg_list in
    let len6 = len5 + (s.ais_connection + s.request_buf) in
    record {
      rbuf = buf + len1;
      wbuf = buf + len2;
      iov = buf + len3;
      msglist = buf + len4;
      bulk = buf + len5;
      next_conn = buf + len6;
    }

-- The addresses of `size` objects in a block of which each takes `stride` bytes.
unfoldable pub conns_from : ℕ → ℕ → ℕ → List ℕ
conns_from stride buf zero = []
conns_from stride buf (suc n) = buf ∷ conns_from stride (buf + stride) n

-- The addresses that `create_conn_item` pushes, from `i` on, with `item` the size of one:
-- `buf += sizeof(CQ_ITEM) * i`.
pub items_from : ℕ → ℕ → ℕ → ℕ → List ℕ
items_from item buf i zero = []
items_from item buf i (suc n) = buf ∷ items_from item (buf + item * i) (i + 1) n

-- `create_conn` and `create_conn_item`: what they push, from what `calloc` returns, and whether
-- they return 1.
pub create_with : (ℕ → ℕ → List ℕ) → Alloc → Option ℕ → CachePool → CachePool × Bool
create_with objects a none cp = (cp, false)
create_with objects a (some buf) cp = (
  record cp {
    buckets = set_head_buf buf cp.buckets;
    cq = push_all a (objects buf (head_size cp.buckets)) cp.cq;
  },
  true,
)

-- `stride` is the distance of the objects.
pub create_conn : ℕ → Alloc → Option ℕ → CachePool → CachePool × Bool
create_conn stride a given cp = create_with (λ buf n. conns_from stride buf n) a given cp

pub create_conn_item : ℕ → Alloc → Option ℕ → CachePool → CachePool × Bool
create_conn_item item a given cp = create_with (λ buf n. items_from item buf 0 n) a given cp

-- `cache_pool_create` with the flags for the pool and its bucket, the memory of the queue, and the
-- function that creates the objects.
pub cache_pool_create : Bool → Bool → Alloc → (CachePool → CachePool × Bool) → ℕ → Option CachePool
cache_pool_create false bucket a create_obj size = none
cache_pool_create true false a create_obj size = none
cache_pool_create true true a create_obj size = elim (eg_cq_create {V = ℕ} true a (size + 1) 0) [
  | none ↦ none
  | some cq ↦
      let made =
        create_obj
          (record { cq = cq; buckets = record { size = size; buf = unset } ∷ []; size = size }) in
      if made.1 then some made.0 else none
]

-- `cache_pool_destroy`: the arrays of the queue, and the blocks that are freed.
pub cache_pool_destroy : CachePool → List (ℕ × Option ℕ) × List Buffer
cache_pool_destroy cp = (eg_cq_destroy cp.cq, map (λ b. b.buf) cp.buckets)

-- What follows the pop in `cp_pop`, with the flag for a new bucket and the function that creates the
-- objects.
pub pop_or_create :
    Bool
    → (CachePool → CachePool × Bool)
    → CachePool
    → CycleQueue ℕ × Option ℕ
    → CachePool × Option ℕ
pop_or_create bucket create_obj cp (cq, some c) = (record cp { cq = cq }, some c)
pop_or_create false create_obj cp (cq, none) = (record cp { cq = cq }, none)
pop_or_create true create_obj cp (cq, none) =
    let made = create_obj (record cp {
      cq = cq;
      buckets = record { size = head_size cp.buckets; buf = unset } ∷ cp.buckets;
    }) in
    let again = eg_cq_pop made.0.cq in
    if made.1 then (record made.0 { cq = again.0 }, again.1) else (made.0, none)

-- `cp_pop`
pub cp_pop : Bool → (CachePool → CachePool × Bool) → CachePool → CachePool × Option ℕ
cp_pop bucket create_obj cp = pop_or_create bucket create_obj cp (eg_cq_pop cp.cq)

-- `cp_push`
pub cp_push : Alloc → CachePool → ℕ → CachePool × ℕ
cp_push a cp c = let pushed = eg_cq_push a cp.cq (some c) in (record cp { cq = pushed.0 }, pushed.1)
