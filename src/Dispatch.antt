-- ===== src/Dispatch.antt =====
-- ngix_module/AIS/thread.c and ais.c, the hand-over of a new connection to a worker thread:
-- `dispatch_conn_new`, `thread_libevent_process`, `conn_new` and `conn_pools_init`.
--
-- The main thread writes the connection into the buffer of the tail of the worker's queue and pushes
-- that buffer; the worker takes it from there. The buffers of two queues lie apart, so each worker has
-- its own. A connection object is its address, and what the calls of the system answer is an argument.
pub mod Starts
pub mod Fresh
pub mod Offers
pub mod Held
pub mod Served
pub mod Shares
pub mod Tests
use doorhinges.Base.{
  ℕ, zero, suc, ◌+◌, ◌-◌, ◌%◌, Bool, true, false, Option, none, some, List, [], ◌∷◌, ◌==◌,
  if◌then◌else◌,
}
use doorhinges.CycleQueue.{
  CycleQueue, Alloc, update, eg_cq_create, eg_cq_get_cur_buf, eg_cq_head, eg_cq_push, eg_cq_pop,
}
use doorhinges.Output.{ConnState}
use doorhinges.Machine.{Machine, EventFlags}
use doorhinges.Pools.{CachePool, cache_pool_create, create_conn, cp_pop, cp_push}

-- `enum network_transport`
pub data Transport : Type 0 where
  local_transport : Transport
  tcp_transport : Transport
  udp_transport : Transport

-- `IS_UDP`
abbrev pub is_udp : Transport → Bool
is_udp local_transport = false
is_udp tcp_transport = false
is_udp udp_transport = true

-- `CQ_ITEM`
pub record ConnItem : Type 0 where
  pub sfd : ℕ
  pub init_state : ConnState
  pub event_flags : EventFlags
  pub read_buffer_size : ℕ
  pub transport : Transport
  pub org_start_time : ℕ

-- A worker: its queue with the items in the buffers, the bytes in its pipe, its pool with the
-- connections, and what it has added to `stats.curr_conns`.
pub record Worker : Type 0 where
  pub queue : CycleQueue ℕ
  pub items : ℕ → ConnItem
  pub notified : ℕ
  pub pool : CachePool
  pub conns : ℕ → Machine
  pub curr_conns : ℕ

-- `CONN_QUEUE_LEN` and `CONN_ITEM_LEN`
abbrev pub conn_queue_len : ℕ
conn_queue_len = 64

abbrev pub conn_item_len : ℕ
conn_item_len = 64

-- The memory for a pool and a queue: whether it is there for the pool, its bucket and the queue; the nodes
-- and the objects of the pool; and the nodes and the buffer of the queue.
pub record Memory : Type 0 where
  pub pool : Bool
  pub bucket : Bool
  pub nodes : Alloc
  pub objects : Option ℕ
  pub queue : Bool
  pub items : Alloc

-- A pass of the loop in `conn_pools_init`, with the distance of two connections and the size of an item.
pub init_worker : ℕ → ℕ → Memory → Option (CachePool × CycleQueue ℕ)
init_worker stride item_size m =
    elim (cache_pool_create m.pool m.bucket m.nodes (create_conn stride m.nodes m.objects)
      conn_queue_len) [
        | none ↦ none
        | some pool ↦ elim (eg_cq_create {V = ℕ} m.queue m.items conn_item_len item_size) [
          | none ↦ none
          | some queue ↦ some (pool, queue)
        ]
      ]

pub init_workers : ℕ → ℕ → List Memory → Option (List (CachePool × CycleQueue ℕ))
unfolding init_worker
init_workers stride item_size [] = some []
init_workers stride item_size (m ∷ ms) = elim (init_worker stride item_size m) [
  | none ↦ none
  | some one ↦ elim (init_workers stride item_size ms) [
    | none ↦ none
    | some others ↦ some (one ∷ others)
  ]
]

-- `conn_pools_init`, with the memory for the two arrays and for each thread: `none` is the result -1.
pub conn_pools_init : Bool → Bool → ℕ → ℕ → List Memory → Option (List (CachePool × CycleQueue ℕ))
unfolding init_workers
conn_pools_init false queues stride item_size ms = none
conn_pools_init true false stride item_size ms = none
conn_pools_init true true stride item_size ms = init_workers stride item_size ms

-- `last_thread` is one more than in the source, where it starts at -1.
pub record Dispatcher : Type 0 where
  pub num_threads : ℕ
  pub last_thread : ℕ
  pub workers : ℕ → Worker

-- What `dispatch_conn_new` does to the worker; the flag says whether the byte is written to its pipe.
-- `none` is the write through NULL where the node has no buffer.
pub offer : Alloc → Bool → ConnItem → Worker → Option Worker
offer a written item w = elim (eg_cq_get_cur_buf w.queue) [
  | none ↦ none
  | some b ↦ some (record w {
    queue = (eg_cq_push a w.queue (some b)).0;
    items = update w.items b item;
    notified = if written then w.notified + 1 else w.notified;
  })
]

-- What `dispatch_conn_new` does with the worker `tid`.
pub dispatch_to : Alloc → Bool → ConnItem → ℕ → Dispatcher → Option Dispatcher
unfolding offer
dispatch_to a written item tid d = elim (offer a written item (d.workers tid)) [
  | none ↦ none
  | some w ↦ some (record d { last_thread = tid + 1; workers = update d.workers tid w })
]

-- `dispatch_conn_new`; without threads the remainder has no value.
pub dispatch_conn_new : Alloc → Bool → ConnItem → Dispatcher → Option Dispatcher
unfolding dispatch_to
dispatch_conn_new a written item d =
    if d.num_threads == 0
    then none
    else dispatch_to a written item (d.last_thread % d.num_threads) d

-- The fields that `conn_new` sets; the flag says whether `settings.binding_protocol` is the binary one.
pub start_conn : Bool → ConnItem → Machine → Machine
start_conn binary item m = record m {
  input = record m.input { rcurr = 0; rbytes = 0; closing = false };
  reply = record m.reply {
    output = record m.reply.output {
      msglist = [];
      msgcurr = 0;
      udp = is_udp item.transport;
      state = item.init_state;
    };
    iovused = 0;
    wcurr = 0;
    wbytes = 0;
    write_and_go = item.init_state;
    noreply = false;
  };
  ev_flags = item.event_flags;
  binary = binary;
  closed = false;
}

-- What the calls behind `thread_libevent_process` answer: the memory of `cp_pop` and what creates its
-- objects, the memory of `cp_push`, and `event_add`; and the protocol of the settings.
pub record Opened : Type 0 where
  pub bucket : Bool
  pub create_obj : CachePool → CachePool × Bool
  pub memory : Alloc
  pub event_add : Bool
  pub binary : Bool

-- What `conn_new` does with the connection `c` from the pool; the flag says whether `event_add` is done.
pub set_up : Bool → Alloc → ConnItem → Worker → CachePool → ℕ → Bool → Worker × Option ℕ
unfolding start_conn
set_up binary a item w popped c true = (
  record w {
    pool = popped;
    conns = update w.conns c (start_conn binary item (w.conns c));
    curr_conns = w.curr_conns + 1;
  },
  some c,
)
set_up binary a item w popped c false = (
  record w {
    pool = (cp_push a popped c).0;
    conns = update w.conns c (start_conn binary item (w.conns c));
  },
  none,
)

-- `conn_new`, on the pool of the worker.
pub conn_new : Opened → ConnItem → Worker → Worker × Option ℕ
unfolding set_up
conn_new o item w = elim ((cp_pop o.bucket o.create_obj w.pool).1) [
  | none ↦ (record w { pool = (cp_pop o.bucket o.create_obj w.pool).0 }, none)
  | some c ↦ set_up o.binary o.memory item w (cp_pop o.bucket o.create_obj w.pool).0 c o.event_add
]

-- What `thread_libevent_process` has done: there was no item; it has opened the connection of one; it
-- has closed the socket of one; or `exit`.
pub data Processed : Type 0 where
  idle : Processed
  opened : ConnItem → ℕ → Processed
  refused : ConnItem → Processed
  exited : ConnItem → Processed

-- `eg_cq_pop` at the end.
abbrev pub drop_item : Worker → Worker
drop_item w = record w { queue = (eg_cq_pop w.queue).0 }

-- What follows the call of `conn_new`.
pub after_new : ConnItem → Worker × Option ℕ → Worker × Processed
after_new item (w, some c) = (drop_item w, opened item c)
after_new item (w, none) =
    if is_udp item.transport then (w, exited item) else (drop_item w, refused item)

-- `thread_libevent_process`, which goes on where the pipe is empty.
pub thread_libevent_process : Opened → Worker → Worker × Processed
unfolding conn_new after_new
thread_libevent_process o w =
    let read = record w { notified = w.notified - 1 } in
    elim (eg_cq_head w.queue) [
      | none ↦ (read, idle)
      | some b ↦ after_new (w.items b) (conn_new o (w.items b) read)
    ]

-- What happens to a worker: a connection is given to it, or its event loop makes a turn.
pub data Event : Type 0 where
  offers : Alloc → Bool → ConnItem → Event
  turn : Opened → Event

abbrev pub exits : Processed → Bool
exits idle = false
exits (opened item c) = false
exits (refused item) = false
exits (exited item) = true

-- A turn, and the run behind it.
abbrev pub log_turn :
    Worker × Processed → Option (Worker × List Processed) → Option (Worker × List Processed)
log_turn (w, done) none = if exits done then some (w, done ∷ []) else none
log_turn (w, done) (some (w', log)) =
    if exits done then some (w, done ∷ []) else some (w', done ∷ log)

-- A run, up to `exit`, and what the turns have done.
pub serve : List Event → Worker → Option (Worker × List Processed)
unfolding offer thread_libevent_process
serve [] w = some (w, [])
serve (offers a written item ∷ es) w = elim (offer a written item w) [
  | none ↦ none
  | some w' ↦ serve es w'
]
serve (turn o ∷ es) w = let done = thread_libevent_process o w in log_turn done (serve es done.0)
