-- ===== src/CycleQueue.antt =====
-- ngix_module/AIS/cyclequeue.c and cyclequeue.h: the ring of nodes that grows and shrinks by
-- whole buckets, on which the logs, the connections and their pools are queued.
--
-- A node is its address, a number, and an array of nodes takes consecutive addresses; 0 is NULL.
-- The fields of all nodes are the functions `next`, `buf` and `val` of the queue's state. The
-- queue stores any pointers: `none` is a NULL element. What the calls of `malloc` return is an
-- argument. The functions are those of a queue that is not NULL.
pub mod Ring
pub mod Pop
pub mod Push
pub mod Grow
pub mod Shrink
pub mod Tests
use doorhinges.Base.{
  ℕ, zero, suc, ◌+◌, ◌-◌, ◌*◌, ◌<◌, ◌≡◌, Bool, true, false, not, ◌&&◌, ◌||◌, Option, none, some,
  List, [], ◌∷◌, map, ltb, leb, ◌==◌, if◌then◌else◌,
}
pub use doorhinges.Links.{update}

-- `eg_cg_bucket_t`, less its `next`.
pub record Bucket : Type 0 where
  pub head : ℕ
  pub node : ℕ
  pub buf : Option ℕ
  pub size : ℕ

-- `eg_cycle_queue_t`, with the nodes. `btlist` is the list of the buckets, the newest first.
pub record CycleQueue {ℓ} (V : Type ℓ) : Type ℓ where
  pub size : ℕ
  pub bt_index : ℕ
  pub elements : ℕ
  pub val_size : ℕ
  pub head : ℕ
  pub tail : ℕ
  pub btlist : List Bucket
  pub next : ℕ → ℕ
  pub buf : ℕ → Option ℕ
  pub val : ℕ → Option V

-- What `malloc` returns for a bucket, its nodes and its buffer.
pub record Alloc : Type 0 where
  pub bucket : Bool
  pub nodes : Option ℕ
  pub buffer : Option ℕ

-- Whether an address is in the array of `size` nodes at `base`.
abbrev pub in_array : ℕ → ℕ → ℕ → Bool
in_array base size p = leb base p && ltb p (base + size)

abbrev pub is_null {ℓ} : {A : Type ℓ} → Option A → Bool
is_null none = true
is_null (some x) = false

-- `next` after `eg_cq_initbucket`: each node of the array points to the one behind it, the last
-- to NULL.
pub init_next : ℕ → ℕ → (ℕ → ℕ) → ℕ → ℕ
init_next base size next p =
    if in_array base size p then (if p + 1 == base + size then 0 else p + 1) else next p

-- `buf` after it: node `i` has the element buffer at `val_size * i`, if there is a buffer.
pub init_buf : ℕ → ℕ → Option ℕ → ℕ → (ℕ → Option ℕ) → ℕ → Option ℕ
init_buf base size buffer val_size buf p =
    if in_array base size p
    then elim buffer [ none ↦ none | some b ↦ some (b + val_size * (p - base)) ]
    else buf p

-- `val` after it.
pub init_val {ℓ} : {V : Type ℓ} → ℕ → ℕ → (ℕ → Option V) → ℕ → Option V
init_val base size val p = if in_array base size p then none else val p

-- The nodes and the buffer that `eg_cq_create` and `eg_cq_inc` get, if they get all they need.
unfoldable pub allocate : Alloc → ℕ → Option (ℕ × Option ℕ)
allocate a val_size = if not a.bucket then none else elim (a.nodes) [
  | none ↦ none
  | some base ↦
      if ltb 0 val_size
      then elim (a.buffer) [ none ↦ none | some b ↦ some (base, some b) ]
      else some (base, none)
]

-- `btlist->size`
pub newest_size : List Bucket → ℕ
newest_size [] = 0
newest_size (b ∷ bs) = b.size

module _ {ℓ} {V : Type ℓ} where
  -- `eg_cq_create`, where the flag says whether `malloc` gave the queue itself.
  pub eg_cq_create : Bool → Alloc → ℕ → ℕ → Option (CycleQueue V)
  unfolding allocate init_next init_buf init_val
  eg_cq_create false a size val_size = none
  eg_cq_create true a size val_size = elim (allocate a val_size) [
    | none ↦ none
    | some (base, buffer) ↦ some (record {
      size = size;
      bt_index = 0;
      elements = 0;
      val_size = val_size;
      head = base;
      tail = base;
      btlist = record { head = 0; node = base; buf = buffer; size = size } ∷ [];
      next = update (init_next base size (λ p. 0)) (base + size - 1) base;
      buf = init_buf base size buffer val_size (λ p. none);
      val = init_val base size (λ p. none);
    })
  ]

  -- `eg_cq_destroy`: the arrays of nodes and the buffers that are freed, bucket by bucket.
  pub eg_cq_destroy : CycleQueue V → List (ℕ × Option ℕ)
  eg_cq_destroy cq = map (λ b. (b.node, b.buf)) cq.btlist

  -- `eg_cq_capity`
  pub eg_cq_capity : CycleQueue V → ℕ
  eg_cq_capity cq = cq.size

  -- `eg_cq_empty`
  pub eg_cq_empty : CycleQueue V → Bool
  eg_cq_empty cq = cq.head == cq.tail

  -- `eg_cq_inc` at a bucket size, which is that of the newest bucket.
  pub grow_by : ℕ → Alloc → CycleQueue V → CycleQueue V × ℕ
  unfolding allocate init_next init_buf init_val
  grow_by size a cq = elim (allocate a cq.val_size) [
    | none ↦ (cq, 0)
    | some (base, buffer) ↦ (
      record cq {
        size = cq.size + size;
        bt_index = cq.bt_index + 1;
        btlist = record { head = cq.tail; node = base; buf = buffer; size = size } ∷ cq.btlist;
        next =
            update (update (init_next base size cq.next) (base + size - 1) (cq.next cq.tail))
              cq.tail base;
        buf = init_buf base size buffer cq.val_size cq.buf;
        val = init_val base size cq.val;
      },
      1,
    )
  ]

  -- `eg_cq_inc`
  pub eg_cq_inc : Alloc → CycleQueue V → CycleQueue V × ℕ
  eg_cq_inc a cq = grow_by (newest_size cq.btlist) a cq

  -- `eg_cq_dec`
  pub remove_bucket : List Bucket → CycleQueue V → CycleQueue V
  remove_bucket [] cq = cq
  remove_bucket (b ∷ bs) cq = record cq {
    btlist = bs;
    next = update cq.next b.head (cq.next (b.node + b.size - 1));
    size = cq.size - b.size;
    bt_index = cq.bt_index - 1;
  }

  pub eg_cq_dec : CycleQueue V → CycleQueue V
  unfolding remove_bucket
  eg_cq_dec cq = remove_bucket cq.btlist cq

  -- The test on the newest bucket by which `eg_cq_push` decides to remove it.
  pub is_spare : List Bucket → CycleQueue V → Bool
  is_spare [] cq = false
  is_spare (b ∷ bs) cq =
      is_null (cq.val b.node)
      && is_null (cq.val (b.node + (b.size - 1)))
      && (ltb cq.tail b.node || ltb (b.node + (b.size - 1)) cq.tail)

  -- `cur->val = val; cq->tail = cur->next`, with `cur` the old tail.
  pub store : Option V → CycleQueue V → CycleQueue V
  store v cq = record cq { val = update cq.val cq.tail v; tail = cq.next cq.tail }

  -- `eg_cq_push`
  pub eg_cq_push : Alloc → CycleQueue V → Option V → CycleQueue V × ℕ
  eg_cq_push a cq v =
      if cq.next cq.tail == cq.head
      then (let (cq', done) = eg_cq_inc a cq in if done == 0 then (cq', 0) else (store v cq', 1))
      else if not (cq.bt_index == 0) && is_spare cq.btlist cq
      then (store v (eg_cq_dec cq), 1)
      else (store v cq, 1)

  -- `eg_cq_pop`
  pub eg_cq_pop : CycleQueue V → CycleQueue V × Option V
  eg_cq_pop cq =
      if eg_cq_empty cq
      then (cq, none)
      else (record cq { val = update cq.val cq.head none; head = cq.next cq.head }, cq.val cq.head)

  -- `eg_cq_head`
  pub eg_cq_head : CycleQueue V → Option V
  unfolding eg_cq_empty
  eg_cq_head cq = if eg_cq_empty cq then none else cq.val cq.head

  -- `eg_cq_get_cur_buf`
  unfoldable pub eg_cq_get_cur_buf : CycleQueue V → Option ℕ
  eg_cq_get_cur_buf cq = cq.buf cq.tail
