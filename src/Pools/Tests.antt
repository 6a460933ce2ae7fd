-- ===== src/Pools/Tests.antt =====
-- A pool of two objects of 100 bytes at 1000, with its queue at 20.
use doorhinges.Base.{◌==◌, if◌then◌else◌, ◌≡◌, refl, true, none, some, [], ◌∷◌, arith}
use doorhinges.CycleQueue.{Alloc}
use doorhinges.Pools.{
  CachePool, unset, block, Sizes, head_size, conns_from, create_conn, cache_pool_destroy, cp_pop,
}
use doorhinges.Pools.Refill.{cp_pop-create_conn, cp_pop_fail}
use doorhinges.Pools.Created.{Contains, Holds}

abbrev at_20 : Alloc
at_20 = record { bucket = true; nodes = some 20; buffer = none }

-- The pool with all objects given away.
abbrev bare : CachePool
bare = record {
  cq = record {
    size = 3;
    bt_index = 0;
    elements = 0;
    val_size = 0;
    head = 20;
    tail = 20;
    btlist = record { head = 0; node = 20; buf = none; size = 3 } ∷ [];
    next = λ p. if p == 20 then 21 else if p == 21 then 22 else 20;
    buf = λ p. none;
    val = λ p. none;
  };
  buckets = record { size = 2; buf = block 1000 } ∷ [];
  size = 2;
}

bare-Contains : Contains bare []
bare-Contains = record {
  used = [];
  next_node = 20;
  spare = 21 ∷ 22 ∷ [];
  ring = record {
    filled = refl;
    empties = (refl, (refl, (refl, refl)));
    distinct = (refl, (refl, (refl, tt)));
    counted = refl;
    cleared = (refl, (refl, (refl, tt)));
  };
  free = refl;
}

bare-Holds : Holds bare []
bare-Holds = record { contained = bare-Contains; not_grown = refl }

cp_pop-create_conn_example :
    let r = cp_pop true (create_conn 100 at_20 (some 3000)) bare in
    (r.1 ≡ some 3000)
    × Holds r.0 (conns_from 100 3100 1)
    × (r.0.buckets ≡ record { size = 2; buf = block 3000 } ∷ bare.buckets)
unfolding head_size
cp_pop-create_conn_example = cp_pop-create_conn at_20 100 3000 1 bare bare-Holds refl (omega arith)

cp_pop_fail_example :
    let r = cp_pop true (create_conn 100 at_20 none) bare in
    (r.1 ≡ none)
    × (cache_pool_destroy r.0 ≡ ((cache_pool_destroy bare).0, unset ∷ (cache_pool_destroy bare).1))
cp_pop_fail_example = cp_pop_fail at_20 100 bare bare-Contains

abbrev sizes : Sizes
sizes = record {
  conn = 10;
  data_buffer = 20;
  iov_list = 30;
  msg_list = 40;
  ais_connection = 50;
  request_buf = 60;
}
