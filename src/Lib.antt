-- ===== src/Lib.antt =====
-- Verification of the core of AIS, the advertising server in ngix_module/AIS: the containers that
-- its threads share and the pools on them, the read and the write side of a connection, the building
-- of replies, its command tokenizer, and the helpers on texts of the request handling.
--
-- The program's parts and the files that model them:
--   Base, Base/Tests, Base/Lists   shared names, Boolean tests and lists over native numbers
--   Bytes                 characters and `strcmp`
--   Links                 linked nodes on a store, shared by CycleQueue and XList
--   Buckets, Buckets/*    arrays of chains, shared by HashTable and HTable
--   HashTable, HashTable/*   ngix_module/AIS/hashtable.c and hashtable.h (`eg_ht_*`, the pools)
--   HTable, HTable/*      ngix_module/AIS/htable.c and htable.h (`htable_*`)
--   CycleQueue, CycleQueue/*   ngix_module/AIS/cyclequeue.c and cyclequeue.h (`eg_cq_*`)
--   XList, XList/*        ngix_module/AIS/x_list.c and x_list.h (`x_list_*`)
--   Tokens, Tokens/*      ngix_module/AIS/ais.c, `tokenize_command`
--   Input, Input/*        ngix_module/AIS/ais.c, `try_read_network`, `try_read_udp`, `try_read_command`
--   Output, Output/*      ngix_module/AIS/ais.c, `transmit`
--   Reply, Reply/*        ngix_module/AIS/ais.c, `add_iov`, `add_msghdr`, `build_udp_headers`,
--                         `out_string`
--   Machine, Machine/*    ngix_module/AIS/ais.c, `drive_machine`, `update_event`
--   Pools, Pools/*        ngix_module/AIS/ais.c, `cache_pool_create`, `cp_pop`, `cp_push`,
--                         `create_conn`, `create_conn_item`
--   Dispatch, Dispatch/*   ngix_module/AIS/thread.c, `dispatch_conn_new`, `thread_libevent_process`;
--                         ngix_module/AIS/ais.c, `conn_new`, `conn_pools_init`
--   Util, Util/*          ngix_module/AIS/util.c
--   Text, Text/*          ngix_module/AIS/allais.c, base 64, `split`, `url_encode`, the swaps and
--                         the comparisons of names
--   Text/Query, Text/Query/*   ngix_module/AIS/allais.c, `url_decode`, `url_decode1`, `ais_get_var`
--   Md5, Md5/*            ngix_module/AIS/allais.c, `MD5Init`, `MD5Transform`, `MD5Update`,
--                         `MD5Final`, `bin2str`, `ais_md5`, `ais_md5_`
--   Candidates, Candidates/*   ngix_module/AIS/allais.c, `init_map`, `get_inter`, and the loop of
--                         `get_ad` that puts the smallest map first
-- The server keeps its request parameters in hash tables, whose nodes come from the pools; from such
-- tables, one for each condition of a request, it chooses the ads that meet all (Candidates); the
-- logs, the connections and their pools are cycle queues; worker threads pass items through
-- lists; a connection reads from the network into its input buffer, builds its reply as a list of
-- messages (Reply) on the output that `transmit` sends (Output). A datagram that is built is read
-- by `try_read_udp` (Input). The state machine (Machine) takes a connection through Input, Reply and
-- Output. The pools (Pools) keep their free objects in a CycleQueue. A new connection
-- goes through the CycleQueue of a worker, which takes a connection object from its pool (Dispatch).
--
-- State is a record with the fields of the C structure and each function a map on it. A pointer is a
-- number, 0 or `none` for NULL, and the nodes of a linked structure are functions of the address; the
-- chains of the hash tables are lists of nodes. What `malloc`, the locks, the semaphores and the
-- socket answer is an argument, but for the `malloc` of `eg_ht_resize` and those of HTable, which the
-- source does not test and which are taken to succeed. Results of the C functions keep their numbers,
-- or are types with one constructor for each. An `unsigned long` and a `uint64` wrap at 2 ^ 64; the
-- counters of HTable, `int` and `unsigned`, are numbers without a bound. The distance of two
-- connections in the block of a pool, which `create_conn` computes from the fields of a connection and
-- the settings, is an argument. A queue has not grown since it was made if its `bt_index` is 0: where
-- it has, `eg_cq_push` can lose what waits, so the hand-over is stated for a queue that has not.
--
-- Bounds and fuel: the search among 28 primes halves its range and has 28 rounds; the loop of
-- `try_read_network` has fuel six, since a turn that goes on fills the buffer and at most four
-- turns enlarge it; the spaces in front of a long line are counted up to 101, which decides as any
-- number above 100; the loop of `add_iov` has fuel for the bytes and for the calls of `realloc` whose
-- results are given, one of which each pass uses up; `split` and the replacing loops have fuel for the
-- bytes of the text; a traversal of a table has one turn more than it has nodes; `drive_machine` makes
-- a pass for each record of what the calls of a pass answer; `get_inter` has a turn for each node and
-- one more; `MD5Update` has one for each whole block. All other loops are structural on a list
-- or a count.
--
-- Not modelled: `process_command`, which the state machine takes as an argument, and the
-- advertising logic in ngix_module/AIS/allais.c behind it but for its helpers on texts, MD5 and
-- the choice among candidates; the start and the end of the worker threads; the order of the
-- writes of two threads inside one call, since a call is one step; the copies of the JSON, XML and
-- redis libraries, which are other projects'; and the demonstration programs of the other
-- directories. The message of `out_string` that a text is too long is stored whole: that it runs over
-- `wbuf` where `wsize` is below its own length is not modelled. Nor are the reads of `base64_decode` in
-- front of a text shorter than three characters, and the fourth byte that it clears of the three of
-- `need`. `free` is modelled where it says what is given back.
mod Base
pub mod Bytes
pub mod Links
pub mod Buckets
pub mod HashTable
pub mod HTable
pub mod Candidates
pub mod CycleQueue
pub mod Pools
pub mod Dispatch
pub mod Tokens
pub mod Input
pub mod Output
pub mod Reply
pub mod Machine
pub mod Md5
pub mod Text
pub mod Util
pub mod XList
