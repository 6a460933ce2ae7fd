-- ===== src/Dispatch/Tests.antt =====
-- Two workers, whose queues have three nodes at 10 with the buffers 100, 101 and 102.
use doorhinges.Base.{
  ℕ, ◌+◌, ◌≡◌, refl, Bool, true, false, Option, none, some, List, [], ◌∷◌, ◌++◌, arith, ◌-◌, length,
  ◌==◌, if◌then◌else◌,
}
use doorhinges.CycleQueue.{CycleQueue, Alloc, allocate}
use doorhinges.Output.{conn_new_cmd, conn_closing}
use doorhinges.Machine.{Machine, ev_read, ev_none}
use doorhinges.Pools.{CachePool, block}
use doorhinges.Pools.Created.{Contains}
use doorhinges.Dispatch.{
  Memory, conn_pools_init, ConnItem, tcp_transport, Worker, Dispatcher, Opened, conn_new, Event,
  offers, turn,
}
use doorhinges.Dispatch.Offers.{Lined, Waiting}
use doorhinges.Dispatch.Starts.{IsGranted, AllStart, conn_pools_init_lem}
use doorhinges.Dispatch.Served.{Serves, serve_lem}
use doorhinges.Dispatch.Shares.{share, HasRoom, dispatch_all, dispatch_all-share}
use doorhinges.Dispatch.Fresh.{IsOpened, conn_new_lem}

abbrev ring_at : ℕ → (ℕ → Option ℕ) → (ℕ → Option ℕ) → ℕ → CycleQueue ℕ
ring_at base buf val tail = record {
  size = 3;
  bt_index = 0;
  elements = 0;
  val_size = 0;
  head = base;
  tail = tail;
  btlist = record { head = 0; node = base; buf = none; size = 3 } ∷ [];
  next = λ p. if p == base then base + 1 else if p == base + 1 then base + 2 else base;
  buf = buf;
  val = val;
}

-- A pool with the connection 500, which was closed with bytes left.
abbrev one_conn : CachePool
one_conn = record {
  cq = ring_at 20 (λ p. none) (λ p. if p == 20 then some 500 else none) 21;
  buckets = record { size = 2; buf = block 500 } ∷ [];
  size = 2;
}

one_conn-Contains : Contains one_conn (500 ∷ [])
one_conn-Contains = record {
  used = 20 ∷ [];
  next_node = 21;
  spare = 22 ∷ [];
  ring = record {
    filled = (refl, refl);
    empties = (refl, (refl, refl));
    distinct = (refl, (refl, (refl, tt)));
    counted = refl;
    cleared = (refl, (refl, tt));
  };
  free = refl;
}

abbrev left_behind : Machine
left_behind = record {
  input = record {
    rbuf = λ p. 97;
    rcurr = 4;
    rbytes = 2;
    rsize = 16;
    bytes_read = 0;
    request_id = 0;
    closing = true;
  };
  reply = record {
    output = record {
      msglist = ((65 ∷ []) ∷ []) ∷ [];
      msgcurr = 0;
      udp = false;
      state = conn_closing;
      bytes_written = 0;
    };
    msgsize = 2;
    iovsize = 1;
    iovused = 1;
    msgbytes = 1;
    realloced = [];
    noreply = true;
    wbuf = 0 ∷ 0 ∷ [];
    wsize = 2;
    wcurr = 1;
    wbytes = 1;
    write_and_go = conn_closing;
  };
  ev_flags = ev_none;
  sbytes = 0;
  hdrsize = 0;
  binary = false;
  nreqs = 0;
  closed = true;
  dispatched = 0;
  rejected = 0;
}

abbrev item_of_socket : ℕ → ConnItem
item_of_socket sfd = record {
  sfd = sfd;
  init_state = conn_new_cmd;
  event_flags = ev_read;
  read_buffer_size = 2048;
  transport = tcp_transport;
  org_start_time = 0;
}

abbrev worker : Worker
worker = record {
  queue = ring_at 10 (λ p. some (90 + p)) (λ p. none) 10;
  items = λ p. item_of_socket 0;
  notified = 0;
  pool = one_conn;
  conns = λ p. left_behind;
  curr_conns = 0;
}

worker-Lined : Lined worker.queue worker.items [] 2
worker-Lined = record {
  used = [];
  next_node = 10;
  spare = 11 ∷ 12 ∷ [];
  own = λ p. 90 + p;
  ring = record {
    filled = refl;
    empties = (refl, (refl, (refl, refl)));
    distinct = (refl, (refl, (refl, tt)));
    counted = refl;
    cleared = (refl, (refl, (refl, tt)));
  };
  buffers = λ p h. refl;
  apart = λ p q h h' e. omega (arith, e);
  pushed = refl;
  contents = refl;
  places = refl;
}

abbrev no_memory : Alloc
no_memory = record { bucket = false; nodes = none; buffer = none }

-- `event_add` succeeds, or not.
abbrev when_added : Bool → Opened
when_added added = record {
  bucket = false;
  create_obj = λ cp. (cp, false);
  memory = no_memory;
  event_add = added;
  binary = true;
}

-- The sockets 7 and 8 come, the loop makes a turn, and the socket 9 comes.
abbrev sockets : List Event
sockets =
    offers no_memory true (item_of_socket 7)
    ∷ offers no_memory false (item_of_socket 8)
    ∷ turn (when_added true)
    ∷ offers no_memory true (item_of_socket 9)
    ∷ turn (when_added true)
    ∷ []

serve_lem_example : Serves sockets worker []
serve_lem_example =
    serve_lem sockets worker [] 2 worker-Lined refl tt (refl, (refl, (refl, tt))) refl

abbrev two_workers : Dispatcher
two_workers = record { num_threads = 2; last_thread = 0; workers = λ i. worker }

abbrev three_calls : List (Alloc × Bool × ConnItem)
three_calls =
    (no_memory, true, item_of_socket 7)
    ∷ (no_memory, true, item_of_socket 8)
    ∷ (no_memory, true, item_of_socket 9)
    ∷ []

three_calls-HasRoom : HasRoom 2 three_calls 0 (λ i. 2)
three_calls-HasRoom i below = ground arith

-- The first worker gets the sockets 7 and 9.
dispatch_all-share_example :
    (d' : Dispatcher) × (dispatch_all three_calls two_workers ≡ some d')
    × Waiting (d'.workers 0) ([] ++ share 2 0 0 three_calls) (2 - length (share 2 0 0 three_calls))
dispatch_all-share_example =
    dispatch_all-share 2 three_calls two_workers (λ i. []) (λ i. 2) 0 (omega arith) refl
      (λ i below. worker-Lined) (λ i below. refl) three_calls-HasRoom (omega arith)

conn_new_lem_example :
    IsOpened 1024
      (item_of_socket 7)
      worker
      500
      []
      false
      true
      (conn_new (when_added false) (item_of_socket 7) worker)
conn_new_lem_example =
    conn_new_lem 1024 (when_added false) (item_of_socket 7) worker 500 [] one_conn-Contains refl
      (omega arith) (omega arith)

-- The memory for a thread, with items of 40 bytes and connections of 100.
abbrev granted : Memory
granted = record {
  pool = true;
  bucket = true;
  nodes = record { bucket = true; nodes = some 200; buffer = none };
  objects = some 5000;
  queue = true;
  items = record { bucket = true; nodes = some 300; buffer = some 9000 };
}

granted-IsGranted : IsGranted 40 granted
unfolding allocate
granted-IsGranted = record {
  pool = refl;
  bucket = refl;
  queue = refl;
  objects_at = 5000;
  nodes_at = 200;
  no_buffer = none;
  items_at = 300;
  buffer_at = 9000;
  objects = refl;
  nodes = refl;
  items = refl;
}

conn_pools_init_lem_example :
    (ws : List (CachePool × CycleQueue ℕ)) × (conn_pools_init true true 100 40 (granted ∷ [])
      ≡ some ws)
    × (length ws ≡ 1)
    × AllStart 100 ws (λ p. item_of_socket 0)
conn_pools_init_lem_example =
    conn_pools_init_lem 100 40 (λ p. item_of_socket 0) (granted ∷ []) (omega arith)
      (granted-IsGranted, tt)
